-- ===== src/Sched/Queue.antt =====
-- The queue of ready threads in kernel/sched/sched.c: a circular buffer that grows. The interrupts are
-- off, as an assertion wants it.
use bincows.Base.{
  ℕ, zero, suc, ◌+◌, ◌-◌, ◌*◌, ◌%◌, true, false, not, ◌&&◌, ltb, leb, ◌==◌, if◌then◌else◌, Outcome,
  ok, ◌>>=◌, ◌>>◌, assert,
}

-- `struct thread_descriptor`
pub record Td : Type 0 where
  pub pid : ℕ
  pub tid : ℕ

-- `struct priority_queue`; the buffer is read below `cap`.
pub record PriorityQueue : Type 0 where
  pub buffer : ℕ → Td
  pub head : ℕ
  pub tail : ℕ
  pub cap : ℕ

abbrev pub put_td : (ℕ → Td) → ℕ → Td → ℕ → Td
put_td buffer i t j = if j == i then t else buffer j

-- The bytes 0xef of a slot that holds no thread
abbrev pub no_td : Td
no_td = record { pid = 0xefef_efef; tid = 0xefef_efef }

-- `malloc` leaves the first slots as they are.
abbrev pub init_pqueue : (ℕ → Td) → PriorityQueue
init_pqueue buffer = record { buffer = buffer; head = 0; tail = 0; cap = 3 }

-- `memset` behind the old slots
abbrev pub wipe : ℕ → ℕ → (ℕ → Td) → ℕ → Td
wipe old_cap cap buffer j = if leb old_cap j && ltb j cap then no_td else buffer j

-- The loop of `pqueue_expand` over the `n` slots from `head` on, the last one first
unfoldable pub move_slots : ℕ → ℕ → ℕ → ℕ → (ℕ → Td) → Outcome (ℕ → Td)
move_slots exp_ cap head zero buffer = ok buffer
move_slots exp_ cap head (suc n) buffer =
    assert (ltb (head + n + exp_) cap)
    >> move_slots exp_ cap head n (put_td buffer (head + n + exp_) (buffer (head + n)))

unfoldable pub pqueue_expand : PriorityQueue → Outcome PriorityQueue
unfolding move_slots
pqueue_expand q = do
  assert ((q.tail + 1) % q.cap == q.head)
  let cap = q.cap * 2
  let buffer = wipe q.cap cap q.buffer
  elim (ltb 0 q.head) [
    | true ↦ (do
      moved ← move_slots (cap - q.cap) cap q.head (q.cap - q.head) buffer
      ok (record q { buffer = moved; cap = cap; head = q.head + (cap - q.cap) }))
    | false ↦ ok (record q { buffer = buffer; cap = cap })
  ]

unfoldable pub pqueue_push : Td → PriorityQueue → Outcome PriorityQueue
unfolding pqueue_expand
pqueue_push thread q = do
  q1 ← (if (q.tail + 1) % q.cap == q.head then pqueue_expand q else ok q)
  ok (record q1 { buffer = put_td q1.buffer q1.tail thread; tail = (q1.tail + 1) % q1.cap })

unfoldable pub pqueue_pop : PriorityQueue → Outcome (Td × PriorityQueue)
pqueue_pop q = do
  assert (not (q.tail == q.head))
  ok (q.buffer q.head, record q { head = (q.head + 1) % q.cap })
