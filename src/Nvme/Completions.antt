-- ===== src/Nvme/Completions.antt =====
-- `update_queues`, and what the phase bits tell the driver of the entries of the controller.
use bincows.Base.{
  ℕ, zero, suc, ◌+◌, ◌/◌, ◌%◌, ◌^◌, ◌≤◌, ◌<◌, ◌≡◌, ◌∙◌, refl, ap, Bool-cases, inl, inr, true, false,
  ◌==◌, ok, arith,
}
use native.Mathlib.Nat.{mod-add-mod}
use bincows.Nvme.{QueuePair, next_index, cq_tail_phase, update_queues}
use bincows.Nvme.Pending.{IsQueue, held, queue_produce_lem, queue_consume_lem}

-- What the controller has put in the completion queue when it has completed `n` commands in all:
-- entry `j` stands in slot `j % size`, and its phase bit is inverted each time round. The slot of
-- the next entry still has the old bit.
pub record Reported (p : QueuePair) (n : ℕ) : Type 0 where
  pub fresh :
      (j : ℕ)
      → p.completion_counter ≤ j
      → j < n
      → (p.completed (j % p.cq.size)).phase ≡ (j / p.cq.size + 1) % 2
  pub stale : (p.completed (n % p.cq.size)).phase ≡ n / p.cq.size % 2

-- The state of a queue pair between two calls.
pub record IsPair (p : QueuePair) : Type 0 where
  pub sq_is : IsQueue p.sq
  pub cq_is : IsQueue p.cq
  pub tail_is : p.cq.tail ≡ p.completion_counter % p.cq.size

-- The driver knows of `n` completions.
pub record Synced (p : QueuePair) (n : ℕ) (p' : QueuePair) : Type 0 where
  pub valid : IsPair p'
  pub counter : p'.completion_counter ≡ n
  pub cq_more : held p'.cq + p.completion_counter ≡ held p.cq + n
  pub sq_less : held p'.sq + n ≡ held p.sq + p.completion_counter
  pub same_head : p'.cq.head ≡ p.cq.head
  pub same_size : p'.cq.size ≡ p.cq.size
  pub same_entries : p'.completed ≡ p.completed
  pub same_commands : p'.submitted ≡ p.submitted

abbrev pub advance : QueuePair → QueuePair
advance p = record p {
  cq = record (p.cq) { tail = next_index p.cq p.cq.tail };
  sq = record (p.sq) { head = next_index p.sq p.sq.head };
  completion_counter = (p.completion_counter + 1) % 2 ^ 32;
}

next_tail :
    (p : QueuePair) → IsPair p → next_index p.cq p.cq.tail ≡ (p.completion_counter + 1) % p.cq.size
unfolding next_index
next_tail p v = rw (v.tail_is) (mod-add-mod p.completion_counter p.cq.size 1)

module _ (p : QueuePair) (n : ℕ) (v : IsPair p) (r : Reported p n) where
  -- The predicted bit differs from the bit of a new entry, and equals the bit of an old one.
  phase_new : p.completion_counter < n → ((p.completed p.cq.tail).phase == cq_tail_phase p) ≡ false
  unfolding cq_tail_phase
  phase_new h =
      let e = r.fresh p.completion_counter (omega arith) h in
      let f : (p.completed p.cq.tail).phase ≡ (p.completion_counter / p.cq.size + 1) % 2 =
        ap (λ i. (p.completed i).phase) v.tail_is ∙ e in
      ground arith

  phase_old : p.completion_counter ≡ n → ((p.completed p.cq.tail).phase == cq_tail_phase p) ≡ true
  unfolding cq_tail_phase
  phase_old h =
      let f : (p.completed p.cq.tail).phase ≡ p.completion_counter / p.cq.size % 2 =
        ap (λ i. (p.completed i).phase) v.tail_is ∙ (rw h r.stale) in
      ground arith

  advance-Reported : p.completion_counter < n → n < 2 ^ 32 → Reported (advance p) n
  advance-Reported h small = record {
    fresh = λ j le lt. r.fresh j (omega arith) lt;
    stale = r.stale;
  }

-- When the controller has completed `n` commands in all, `update_queues` finds exactly the new
-- entries: it adds them at the tail of the completion queue, frees as many slots of the submission
-- queue, and changes no entry.
pub update_queues-Synced :
    (k n : ℕ) (p : QueuePair)
    → IsPair p
    → Reported p n
    → p.completion_counter ≤ n
    → n < 2 ^ 32
    → n < p.completion_counter + k
    → held p.cq + n < p.completion_counter + p.cq.size
    → n ≤ p.completion_counter + held p.sq
    → (p' : QueuePair) × (update_queues k p ≡ ok p') × Synced p n p'
unfolding update_queues
update_queues-Synced zero n p v r le small fuel room sent = absurd (omega arith)
update_queues-Synced (suc k) n p v r le small fuel room sent =
    elim (Bool-cases (p.completion_counter == n)) [
      | inl done ↦ (
        p,
        rw (phase_old p n v r (ground arith), update_queues),
        record {
          valid = v;
          counter = ground arith;
          cq_more = ground arith;
          sq_less = ground arith;
          same_head = refl;
          same_size = refl;
          same_entries = refl;
          same_commands = refl;
        },
      )
      | inr more ↦
          (let lt : p.completion_counter < n = ground arith in
            let (made, cq_is, cq_held) = queue_produce_lem p.cq v.cq_is (omega arith) in
            let (used, sq_is, sq_held) = queue_consume_lem p.sq v.sq_is (omega arith) in
            let next : IsPair (advance p) = record {
              sq_is = sq_is;
              cq_is = cq_is;
              tail_is = next_tail p v ∙ ap (λ c. c % p.cq.size) (omega arith);
            } in
            let (p', run, s) =
              update_queues-Synced k n (advance p) next (advance-Reported p n v r lt small)
                (omega arith) small (omega arith) (omega arith) (omega arith) in
            (
              p',
              rw (phase_new p n v r lt, update_queues, made, used) run,
              record {
                valid = s.valid;
                counter = s.counter;
                cq_more = omega (arith, s.cq_more, cq_held);
                sq_less = omega (arith, s.sq_less, sq_held);
                same_head = s.same_head;
                same_size = s.same_size;
                same_entries = s.same_entries;
                same_commands = s.same_commands;
              },
            ))
    ]
