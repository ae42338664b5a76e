-- ===== src/Nvme/Commands.antt =====
-- `async_command` and the handler of completions, with the commands that wait as a list.
use bincows.Base.{
  ℕ, zero, suc, ◌+◌, ◌*◌, ◌%◌, ◌<◌, ◌≡◌, ◌∙◌, refl, ap, true, false, List, [], ◌∷◌, ◌++◌, ◌==◌, ok,
  arith,
}
use bincows.Nvme.{
  Queue, QueuePair, Device, SubEntry, Command, sub_entry, store, next_index, queue_full,
  async_command,
}
use bincows.Nvme.Pending.{IsQueue, held, queue_full_iff, queue_produce_lem, queue_consume_lem}

-- `n` entries from slot `i` on
unfoldable pub entries_from : Queue → (ℕ → SubEntry) → ℕ → ℕ → List SubEntry
entries_from q m i zero = []
entries_from q m i (suc n) = m i ∷ entries_from q m (next_index q i) n

-- the commands that the controller has not consumed, oldest first
abbrev pub queued : QueuePair → List SubEntry
queued p = entries_from p.sq p.submitted p.sq.head (held p.sq)

entries_from-store :
    (n : ℕ) (q : Queue) (m : ℕ → SubEntry) (e : SubEntry)
    → IsQueue q
    → held q ≡ n
    → entries_from q (store m q.tail e) q.head (suc n) ≡ entries_from q m q.head n ++ (e ∷ [])
unfolding entries_from next_index
entries_from-store zero q m e v h =
    let here : (q.head == q.tail) ≡ true = ground (arith, v) in rw here
entries_from-store (suc n) q m e v h =
    let other : (q.head == q.tail) ≡ false = ground (arith, v) in
    let (_, v', less) = queue_consume_lem q v (omega arith) in
    rw other (
      ap (λ l. m q.head ∷ l)
        (entries_from-store n (record q { head = next_index q q.head }) m e v' (omega arith)))

-- The entries do not depend on the tail.
entries_from-tail :
    (q : Queue) (m : ℕ → SubEntry) (e : SubEntry) (n t i : ℕ)
    → entries_from (record q { tail = t }) (store m q.tail e) i n
      ≡ entries_from q (store m q.tail e) i n
unfolding entries_from next_index
entries_from-tail q m e zero t i = refl
entries_from-tail q m e (suc n) t i =
    ap (λ l. store m q.tail e i ∷ l) (entries_from-tail q m e n t ((i + 1) % q.size))

-- The commands that wait once `e` stands in the tail's slot and the tail has moved on.
queued-store :
    (q : Queue) (m : ℕ → SubEntry) (e : SubEntry) (k : ℕ)
    → IsQueue q
    → k ≡ held q + 1
    → entries_from (record q { tail = next_index q q.tail }) (store m q.tail e) q.head k
      ≡ entries_from q m q.head (held q) ++ (e ∷ [])
queued-store q m e k v h =
    let h' : k ≡ suc (held q) = omega arith in
    rw h' (
      entries_from-tail q m e (suc (held q)) (next_index q q.tail) q.head
      ∙ entries_from-store (held q) q m e v refl)

abbrev submit : Command → Device → Device
submit c d =
    let tail : ℕ = next_index d.pair.sq d.pair.sq.tail in
    record d {
      pair = record (d.pair) {
        sq = record (d.pair.sq) { tail = tail };
        submitted = store d.pair.submitted d.pair.sq.tail (sub_entry c);
      };
      doorbells = (2 * d.pair.sq.id, tail) ∷ d.doorbells;
    }

-- On a submission queue that is not full, `async_command` appends the command to the commands
-- that wait, keeps the queue well formed, and rings the bell of the queue with the new tail.
pub async_command-queued :
    (c : Command) (d : Device)
    → IsQueue d.pair.sq
    → held d.pair.sq + 1 < d.pair.sq.size
    → (d' : Device) × (async_command c d ≡ ok d')
      × IsQueue d'.pair.sq
      × (queued d'.pair ≡ queued d.pair ++ (sub_entry c ∷ []))
      × (d'.doorbells ≡ (2 * d.pair.sq.id, d'.pair.sq.tail) ∷ d.doorbells)
      × (d'.pair.cq ≡ d.pair.cq)
unfolding async_command
async_command-queued c d v room =
    let (made, v', more) = queue_produce_lem d.pair.sq v room in
    let open_ : queue_full d.pair.sq ≡ false = ground (arith, queue_full_iff d.pair.sq v) in
    (
      submit c d,
      rw (open_, made),
      v',
      queued-store d.pair.sq d.pair.submitted (sub_entry c) _ v more,
      refl,
      refl,
    )
