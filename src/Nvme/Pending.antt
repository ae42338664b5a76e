-- ===== src/Nvme/Pending.antt =====
-- How many elements a circular queue of the NVMe driver holds, and how its operations change that.
use bincows.Base.{
  ℕ, ◌+◌, ◌-◌, ◌%◌, ◌^◌, ◌<◌, ◌≡◌, ◌∙◌, ap, leb, ◌==◌, if◌then◌else◌, ok, arith, Bool-cases, inl,
  inr,
}
use native.Mathlib.Nat.{mod-eq_of_lt, mod_self}
use bincows.Nvme.{Queue, next_index, queue_full, queue_empty, queue_produce, queue_consume}

-- Both indices lie in the queue, and the size is a `uint16_t`.
pub record IsQueue (q : Queue) : Type 0 where
  pub room : 1 < q.size
  pub small : q.size < 2 ^ 16
  pub head_in : q.head < q.size
  pub tail_in : q.tail < q.size

-- the number of elements from `head` to `tail`, going round
abbrev pub held : Queue → ℕ
held q = if leb q.head q.tail then q.tail - q.head else q.tail + q.size - q.head

-- The next index, with no `%`.
next_index_lem :
    (q : Queue) (i : ℕ) → i < q.size → next_index q i ≡ (if (i + 1) == q.size then 0 else i + 1)
unfolding next_index
next_index_lem q i h = elim (Bool-cases ((i + 1) == q.size)) [
  | inl last ↦ rw last (ap (λ k. k % q.size) (ground arith) ∙ mod_self q.size)
  | inr inner ↦ rw inner (mod-eq_of_lt (ground arith))
]

module _ (q : Queue) (v : IsQueue q) where
  -- A queue is full with one element less than its size, and empty with none.
  pub queue_full_iff : queue_full q ≡ ((held q + 1) == q.size)
  unfolding queue_full
  queue_full_iff = ground (arith, next_index_lem q q.tail v.tail_in)

  pub queue_empty_iff : queue_empty q ≡ (held q == 0)
  unfolding queue_empty
  queue_empty_iff = ground arith

  next_index-lt : (i : ℕ) → i < q.size → next_index q i % 2 ^ 16 ≡ next_index q i
  next_index-lt i h = ground (arith, next_index_lem q i h)

  -- Producing into a queue that is not full adds one element.
  pub queue_produce_lem :
      held q + 1 < q.size
      → (queue_produce q ≡ ok (record q { tail = next_index q q.tail }))
        × IsQueue (record q { tail = next_index q q.tail })
        × (held (record q { tail = next_index q q.tail }) ≡ held q + 1)
  unfolding queue_produce
  queue_produce_lem h = (
    ground (arith, queue_full_iff, next_index-lt q.tail v.tail_in),
    ground (arith, next_index_lem q q.tail v.tail_in),
    ground (arith, next_index_lem q q.tail v.tail_in),
  )

  pub queue_consume_lem :
      0 < held q
      → (queue_consume q ≡ ok (record q { head = next_index q q.head }))
        × IsQueue (record q { head = next_index q q.head })
        × (held (record q { head = next_index q q.head }) + 1 ≡ held q)
  unfolding queue_consume
  queue_consume_lem h = (
    ground (arith, queue_empty_iff, next_index-lt q.head v.head_in),
    ground (arith, next_index_lem q q.head v.head_in),
    ground (arith, next_index_lem q q.head v.head_in),
  )
