-- ===== src/Nvme.antt =====
-- kernel/drivers/nvme: the submission and completion queues (queue.h, queue.c), the commands put
-- there (commands.c) and the handler of completed ones (nvme.c).
pub mod Pending
pub mod Commands
pub mod Completions
pub mod Draining
pub mod Handling
mod Tests
use Prim.Native.Nat.{bit_and, bit_or}
use bincows.Base.{
  ℕ, zero, suc, ◌+◌, ◌*◌, ◌/◌, ◌%◌, ◌^◌, Bool, true, false, not, List, ◌∷◌, ltb, ◌==◌,
  if◌then◌else◌, Outcome, ok, panic, wild, no_fuel, ◌>>=◌, ◌>>◌, assert,
}

-- `struct queue`. The elements are in `QueuePair`.
pub record Queue : Type 0 where
  pub size : ℕ
  pub element_size : ℕ
  pub head : ℕ
  pub tail : ℕ
  pub id : ℕ

-- `struct subqueuee`, without the fields that are always 0
pub record SubEntry : Type 0 where
  pub cmd : ℕ
  pub nsid : ℕ
  pub prp0 : ℕ
  pub prp1 : ℕ
  pub cdw10 : ℕ
  pub cdw11 : ℕ
  pub cdw12 : ℕ

-- `struct compqueuee`, as far as the driver reads it
pub record CompEntry : Type 0 where
  pub cmd_id : ℕ
  pub phase : ℕ
  pub status : ℕ

-- `struct queue_pair` with the memory of the two queues, by index.
pub record QueuePair : Type 0 where
  pub sq : Queue
  pub cq : Queue
  pub completion_counter : ℕ
  pub submitted : ℕ → SubEntry
  pub completed : ℕ → CompEntry

-- `struct async_read`, 0 for a NULL buffer
pub record AsyncRead : Type 0 where
  pub target_buffer : ℕ
  pub size : ℕ

-- What of `struct data` the handler uses. `copies` are the calls of memcpy (target, physical
-- source, size) and `doorbells` the values written there (register, value), latest first.
pub record Device : Type 0 where
  pub pair : QueuePair
  pub read_queue : ℕ → AsyncRead
  pub prps : ℕ → ℕ
  pub copies : List (ℕ × ℕ × ℕ)
  pub doorbells : List (ℕ × ℕ)

unfoldable pub next_index : Queue → ℕ → ℕ
next_index q index = (index + 1) % q.size

unfoldable pub queue_full : Queue → Bool
queue_full q = next_index q q.tail == q.head

unfoldable pub queue_empty : Queue → Bool
queue_empty q = q.tail == q.head

-- The new tail is a `uint16_t`.
unfoldable pub queue_produce : Queue → Outcome Queue
queue_produce q =
    assert (not (queue_full q)) >> ok (record q { tail = next_index q q.tail % 2 ^ 16 })

unfoldable pub queue_consume : Queue → Outcome Queue
queue_consume q =
    assert (not (queue_empty q)) >> ok (record q { head = next_index q q.head % 2 ^ 16 })

unfoldable pub cq_tail_phase : QueuePair → ℕ
cq_tail_phase p = p.completion_counter / p.cq.size % 2

-- The loop runs while the controller has new entries. The fuel bounds their number.
unfoldable pub update_queues : ℕ → QueuePair → Outcome QueuePair
update_queues zero p = no_fuel
update_queues (suc k) p = elim ((p.completed p.cq.tail).phase == cq_tail_phase p) [
  | true ↦ ok p
  | false ↦ (do
    cq ← queue_produce p.cq
    sq ← queue_consume p.sq
    update_queues k
        (record p { cq = cq; sq = sq; completion_counter = (p.completion_counter + 1) % 2 ^ 32 }))
]

unfoldable pub make_cmd : ℕ → ℕ → ℕ → ℕ
make_cmd opcode fused cmdid =
    bit_or (bit_or opcode (fused * 2 ^ 8 % 2 ^ 32)) (cmdid * 2 ^ 16 % 2 ^ 32)

abbrev pub store : (ℕ → SubEntry) → ℕ → SubEntry → ℕ → SubEntry
store entries i e j = if j == i then e else entries j

-- The command of the arguments from `opcode` on.
pub record Command : Type 0 where
  pub opcode : ℕ
  pub cmdid : ℕ
  pub nsid : ℕ
  pub prp0 : ℕ
  pub prp1 : ℕ
  pub cdw10 : ℕ
  pub cdw11 : ℕ
  pub cdw12 : ℕ

unfoldable pub sub_entry : Command → SubEntry
sub_entry c = record {
  cmd = make_cmd c.opcode 0 c.cmdid;
  nsid = c.nsid;
  prp0 = c.prp0;
  prp1 = c.prp1;
  cdw10 = c.cdw10;
  cdw11 = c.cdw11;
  cdw12 = c.cdw12;
}

unfoldable pub async_command : Command → Device → Outcome Device
async_command c d = do
  assert (not (queue_full d.pair.sq))
  let written = store d.pair.submitted d.pair.sq.tail (sub_entry c)
  sq ← queue_produce d.pair.sq
  let pair : QueuePair = record (d.pair) { sq = sq; submitted = written }
  ok (record d { pair = pair; doorbells = (2 * sq.id, sq.tail) ∷ d.doorbells })

-- TASK_ID_ASYNC_READ
abbrev pub task_id_async_read : ℕ
task_id_async_read = 0x1000

-- IO_QUEUE_SIZE, the size of the arrays of `struct data`
abbrev pub io_queue_size : ℕ
io_queue_size = 64

-- The copy that a completed asynchronous read asks for. An index past the arrays reads memory that is
-- not known.
unfoldable pub finish_read : ℕ → Device → Outcome Device
finish_read i d = elim (ltb i io_queue_size) [
  | false ↦ wild
  | true ↦ (do
    let r = d.read_queue i
    assert (not (r.size == 0))
    ok (record d {
      copies = (r.target_buffer, d.prps i, r.size) ∷ d.copies;
      read_queue =
          λ j. if j == i then record (d.read_queue j) { target_buffer = 0 } else d.read_queue j;
    }))
]

-- One completed entry: an error stops the kernel.
unfoldable pub handle_entry : CompEntry → Device → Outcome Device
handle_entry e d =
    if e.status == 0
    then (if bit_and e.cmd_id 0xf000 == task_id_async_read
        then finish_read (bit_and e.cmd_id 0x0fff) d
        else ok d)
    else panic

-- The loop of `handle_queue`. The fuel bounds the number of entries.
unfoldable pub handle_entries : ℕ → Device → Outcome Device
handle_entries zero d = no_fuel
handle_entries (suc k) d = elim (queue_empty d.pair.cq) [
  | true ↦ ok d
  | false ↦ (do
    d' ← handle_entry (d.pair.completed d.pair.cq.head) d
    cq ← queue_consume d'.pair.cq
    handle_entries k (record d' { pair = record (d'.pair) { cq = cq } }))
]

-- Each of the two loops runs once for each slot of the queue at most.
unfoldable pub handle_queue : Device → Outcome Device
handle_queue d = do
  pair ← update_queues (d.pair.cq.size + 1) d.pair
  d' ← handle_entries (d.pair.cq.size + 1) (record d { pair = pair })
  ok (record d' { doorbells = (2 * d'.pair.cq.id + 1, d'.pair.cq.head) ∷ d'.doorbells })
