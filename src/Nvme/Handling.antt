-- ===== src/Nvme/Handling.antt =====
-- `handle_queue` as a whole: an interrupt for new completions.
use native.Mathlib.Nat.{mod-add-mod, mod-mod}
use bincows.Base.{ℕ, ◌+◌, ◌*◌, ◌%◌, ◌^◌, ◌≤◌, ◌<◌, ◌≡◌, ◌∙◌, refl, sym, ap, ◌∷◌, ok, arith}
use bincows.Nvme.{QueuePair, Device, handle_queue}
use bincows.Nvme.Pending.{held}
use bincows.Nvme.Completions.{Reported, IsPair, update_queues-Synced}
use bincows.Nvme.Draining.{IsDone, IsDone-same, targets, asked, asked-same, handle_entries-Drained}

-- The state when all completions are handled, `m` of them new: the completion queue is empty, `m`
-- slots of the submission queue are free again, the copies of the asynchronous reads among the new
-- entries are made in their order, each from its page to its buffer, and the bell of the completion
-- queue has its head.
pub record Handled (d : Device) (m : ℕ) (d' : Device) : Type 0 where
  pub valid : IsPair d'.pair
  pub empty : held d'.pair.cq ≡ 0
  pub counter : d'.pair.completion_counter ≡ d.pair.completion_counter + m
  pub freed : held d'.pair.sq + m ≡ held d.pair.sq
  pub copied : d'.copies ≡ asked d (targets d) d.pair.completion_counter m d.copies
  pub same_sizes : (i : ℕ) → (d'.read_queue i).size ≡ (d.read_queue i).size
  pub rang : d'.doorbells ≡ (2 * d'.pair.cq.id + 1, d'.pair.cq.head) ∷ d.doorbells

abbrev emptied : QueuePair → QueuePair
emptied p = record p { cq = record (p.cq) { head = p.cq.tail } }

emptied-IsPair : (p : QueuePair) → IsPair p → IsPair (emptied p) × (held (emptied p).cq ≡ 0)
emptied-IsPair p v = (
  record {
    sq_is = v.sq_is;
    cq_is = record {
      room = v.cq_is.room;
      small = v.cq_is.small;
      head_in = v.cq_is.tail_in;
      tail_in = v.cq_is.tail_in;
    };
    tail_is = v.tail_is;
  },
  ground arith,
)

-- After an interrupt for `m` new completions, all of them done, with none from before left,
-- `handle_queue` returns and has handled exactly these.
pub handle_queue-Handled :
    (m : ℕ) (d : Device)
    → IsPair d.pair
    → held d.pair.cq ≡ 0
    → Reported d.pair (d.pair.completion_counter + m)
    → d.pair.completion_counter + m < 2 ^ 32
    → m < d.pair.cq.size
    → m ≤ held d.pair.sq
    → ((j : ℕ)
        → j < m
        → IsDone d (d.pair.completed ((d.pair.completion_counter + j) % d.pair.cq.size)))
    → (d' : Device) × (handle_queue d ≡ ok d') × Handled d m d'
unfolding handle_queue
handle_queue-Handled m d v none_held r small room sent done =
    let size = d.pair.cq.size in
    let counter = d.pair.completion_counter in
    let (p, updated, s) =
      update_queues-Synced (size + 1) (counter + m) d.pair v r (omega arith) small (omega arith)
        (omega arith) (omega arith) in
    let d1 : Device = record d { pair = p } in
    let head_is : d.pair.cq.head ≡ counter % size = ground (arith, v.cq_is, v.tail_is) in
    let place : (j : ℕ) → (counter + j) % size ≡ (p.cq.head + j) % p.cq.size =
      λ j. sym (mod-add-mod counter size j) ∙ rw (s.same_size, s.same_head, head_is) in
    let (d2, handled, dr) =
      handle_entries-Drained (size + 1) m d1 s.valid.cq_is (omega (arith, s.cq_more)) (omega arith)
        (λ j lt.
          IsDone-same d d1 _ _ (λ r. refl) (ap d.pair.completed (place j) ∙ rw (s.same_entries))
            (done j lt)) in
    let new_held : held p.cq ≡ m = omega (arith, s.cq_more, none_held) in
    let (valid, empty) = emptied-IsPair p s.valid in
    (
      record d2 { doorbells = (2 * d2.pair.cq.id + 1, d2.pair.cq.head) ∷ d2.doorbells },
      rw (handle_queue, updated) (rw handled),
      record {
        valid = rw (dr.pair_is) valid;
        empty = rw (dr.pair_is) empty;
        counter = rw (dr.pair_is) (s.counter);
        freed = rw (dr.pair_is) (omega (arith, s.sq_less));
        copied =
            dr.copied
            ∙ ap (λ x. asked d1 (targets d) p.cq.head x d.copies) new_held
            ∙ asked-same d d1 (targets d) (targets d) m p.cq.head counter d.copies s.same_entries
                s.same_size refl (λ r. refl) (λ r. refl)
                (ap (λ i. i % size) (s.same_head ∙ head_is) ∙ mod-mod counter size);
        same_sizes = dr.same_sizes;
        rang = ap (λ b. (2 * d2.pair.cq.id + 1, d2.pair.cq.head) ∷ b) (dr.same_doorbells);
      },
    )
