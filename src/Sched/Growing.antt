-- ===== src/Sched/Growing.antt =====
-- A push, and the queue that grows for it.
use bincows.Base.{
  ℕ, zero, suc, ◌+◌, ◌-◌, ◌*◌, ◌%◌, ◌≤◌, ◌<◌, ◌≡◌, ◌∙◌, refl, sym, ap, ◌⊎◌, inl, inr, Bool-cases,
  List, [], ◌∷◌, ◌++◌, true, false, ltb, ◌==◌, if◌then◌else◌, arith, length, length-append, ok,
  >>=-run,
}
use bincows.Sched.Queue.{Td, PriorityQueue, put_td, wipe, move_slots, pqueue_expand, pqueue_push}
use bincows.Sched.Fifo.{wrap, wrap_lem, Holds, get_elem?-lt, get_elem?_last}

-- What the loop of `pqueue_expand` leaves
record Moved (exp_ head n : ℕ) (buffer buffer' : ℕ → Td) : Type 0 where
  pub there : (i : ℕ) → i < n → buffer' (head + i + exp_) ≡ buffer (head + i)
  pub outside : (j : ℕ) → (j < head + exp_) ⊎ (head + n + exp_ ≤ j) → buffer' j ≡ buffer j

move_slots-Moved :
    (exp_ cap head n : ℕ) (buffer : ℕ → Td)
    → head + n + exp_ ≤ cap
    → (buffer' : ℕ → Td) × (move_slots exp_ cap head n buffer ≡ ok buffer')
      × Moved exp_ head n buffer buffer'
unfolding move_slots
move_slots-Moved exp_ cap head zero buffer fits =
    (buffer, refl, record { there = λ i lt. absurd (omega arith); outside = λ j apart. refl })
move_slots-Moved exp_ cap head (suc n) buffer fits =
    let test : ltb (head + n + exp_) cap ≡ true = ground arith in
    let buffer1 = put_td buffer (head + n + exp_) (buffer (head + n)) in
    let (buffer', run, v) = move_slots-Moved exp_ cap head n buffer1 (omega (arith, fits)) in
    (
      buffer',
      rw test run,
      record {
        there = λ i lt. elim (Bool-cases (i == n)) [
          | inl last ↦
              (let same : i ≡ n = ground arith in
                rw same (v.outside (head + n + exp_) (inr (omega arith)) ∙ ground arith))
          | inr lower ↦ v.there i (ground arith) ∙ ground (arith, lt)
        ];
        outside = λ j apart. v.outside j (ground arith) ∙ ground arith;
      },
    )

-- The slots of a full queue in the larger buffer
moved-Holds :
    (q : PriorityQueue) (l : List Td) (moved : ℕ → Td)
    → Holds q l
    → length l + 1 ≡ q.cap
    → 0 < q.head
    → Moved (q.cap * 2 - q.cap) q.head (q.cap - q.head) (wipe q.cap (q.cap * 2) q.buffer) moved
    → Holds (record q { buffer = moved; cap = q.cap * 2; head = q.head + (q.cap * 2 - q.cap) }) l
moved-Holds q l moved v full pos m = record {
  head_in = omega (arith, v.head_in);
  room = omega (arith, v.room);
  tail_is = ground (arith, v.tail_is, v.head_in);
  slots = λ i t e.
      let lt = get_elem?-lt l i t e in
      let old = v.slots i t e in
      let wiped = wipe q.cap (q.cap * 2) q.buffer in
      elim (Bool-cases (ltb (q.head + i) q.cap)) [
        | inl low ↦
            (let here : wrap (q.cap * 2) (q.head + (q.cap * 2 - q.cap) + i)
                  ≡ q.head + i + (q.cap * 2 - q.cap) =
                ground arith in
              let kept : wiped (q.head + i) ≡ q.buffer (q.head + i) = ground arith in
              let there : wrap q.cap (q.head + i) ≡ q.head + i = ground arith in
              ap moved here ∙ m.there i (ground arith) ∙ kept ∙ ap q.buffer (sym there) ∙ old)
        | inr high ↦
            (let here : wrap (q.cap * 2) (q.head + (q.cap * 2 - q.cap) + i) ≡ q.head + i - q.cap =
                ground (arith, v.head_in, lt) in
              let kept : wiped (q.head + i - q.cap) ≡ q.buffer (q.head + i - q.cap) =
                ground (arith, v.head_in, lt) in
              let there : wrap q.cap (q.head + i) ≡ q.head + i - q.cap = ground arith in
              ap moved here
              ∙ m.outside (q.head + i - q.cap) (inl (omega (arith, v.head_in, lt, full)))
              ∙ kept
              ∙ ap q.buffer (sym there)
              ∙ old)
      ];
}

wiped-Holds :
    (q : PriorityQueue) (l : List Td)
    → Holds q l
    → q.head ≡ 0
    → Holds (record q { buffer = wipe q.cap (q.cap * 2) q.buffer; cap = q.cap * 2 }) l
wiped-Holds q l v zero_head = record {
  head_in = omega (arith, v.head_in);
  room = omega (arith, v.room);
  tail_is = ground (arith, v.tail_is, v.room);
  slots = λ i t e.
      let lt = get_elem?-lt l i t e in
      let here : wrap (q.cap * 2) (q.head + i) ≡ i = ground (arith, v.room) in
      let there : wrap q.cap (q.head + i) ≡ i = ground (arith, v.room) in
      let kept : wipe q.cap (q.cap * 2) q.buffer i ≡ q.buffer i = ground (arith, v.room) in
      ap (wipe q.cap (q.cap * 2) q.buffer) here ∙ kept ∙ ap q.buffer (sym there) ∙ v.slots i t e;
}

pqueue_expand-Holds :
    (q : PriorityQueue) (l : List Td)
    → Holds q l
    → length l + 1 ≡ q.cap
    → (q' : PriorityQueue) × (pqueue_expand q ≡ ok q') × Holds q' l × (q'.cap ≡ q.cap * 2)
unfolding pqueue_expand
pqueue_expand-Holds q l v full =
    let last = wrap_lem q.cap (q.tail + 1) (ground (arith, v.tail_is, v.head_in, v.room)) in
    let test : ((q.tail + 1) % q.cap == q.head) ≡ true =
      rw last (ground (arith, v.tail_is, v.head_in, full)) in
    let wiped = wipe q.cap (q.cap * 2) q.buffer in
    elim (Bool-cases (ltb 0 q.head)) [
      | inl moves ↦
          (let (moved, run, m) =
              move_slots-Moved (q.cap * 2 - q.cap) (q.cap * 2) q.head (q.cap - q.head) wiped
                (omega (arith, v.head_in)) in
            (
              record q { buffer = moved; cap = q.cap * 2; head = q.head + (q.cap * 2 - q.cap) },
              rw (test, moves) (>>=-run _ run refl),
              moved-Holds q l moved v full (ground arith) m,
              refl,
            ))
      | inr stays ↦ (
        record q { buffer = wiped; cap = q.cap * 2 },
        rw (test, stays),
        wiped-Holds q l v (ground arith),
        refl,
      )
    ]

-- A thread in the slot of the tail
put-Holds :
    (q : PriorityQueue) (l : List Td) (t : Td)
    → Holds q l
    → length l + 1 < q.cap
    → Holds
        (record q { buffer = put_td q.buffer q.tail t; tail = wrap q.cap (q.tail + 1) })
        (l ++ (t ∷ []))
put-Holds q l t v room = record {
  head_in = v.head_in;
  room = omega (arith, length-append l (t ∷ []), room);
  tail_is = ground (arith, length-append l (t ∷ []), v.tail_is, v.head_in, room);
  slots = λ i u e. elim (get_elem?_last l t i u e) [
    | inl old ↦
        (let lt = get_elem?-lt l i u old in
          let other : (wrap q.cap (q.head + i) == q.tail) ≡ false =
            ground (arith, v.tail_is, v.head_in, room) in
          rw other (v.slots i u old))
    | inr (at_end, same) ↦
        (let here : (wrap q.cap (q.head + i) == q.tail) ≡ true = ground (arith, v.tail_is) in
          rw (here, same))
  ];
}

-- A full queue is doubled before a push.
grow-Holds :
    (q : PriorityQueue) (l : List Td)
    → Holds q l
    → (q1 : PriorityQueue) × ((if (q.tail + 1) % q.cap == q.head then pqueue_expand q else ok q)
        ≡ ok q1)
      × Holds q1 l
      × (length l + 1 < q1.cap)
grow-Holds q l v =
    let next = wrap_lem q.cap (q.tail + 1) (ground (arith, v.tail_is, v.head_in, v.room)) in
    elim (Bool-cases (length l + 1 == q.cap)) [
      | inl full ↦
          (let test : ((q.tail + 1) % q.cap == q.head) ≡ true =
              rw next (ground (arith, v.tail_is, v.head_in)) in
            let (q1, run, v1, double) = pqueue_expand-Holds q l v (ground arith) in
            (
              q1,
              rw test run,
              v1,
              (let at_cap : length l + 1 ≡ q.cap = ground arith in omega (arith, double, at_cap)),
            ))
      | inr room ↦
          (let test : ((q.tail + 1) % q.cap == q.head) ≡ false =
              rw next (ground (arith, v.tail_is, v.head_in, v.room)) in
            (q, rw test refl, v, ground (arith, v.room)))
    ]

-- A push puts the thread behind all others, whatever the state of the buffer.
pub pqueue_push-Holds :
    (q : PriorityQueue) (l : List Td) (t : Td)
    → Holds q l
    → (q' : PriorityQueue) × (pqueue_push t q ≡ ok q') × Holds q' (l ++ (t ∷ []))
unfolding pqueue_push
pqueue_push-Holds q l t v =
    let (q1, grown, v1, room) = grow-Holds q l v in
    let next = wrap_lem q1.cap (q1.tail + 1) (ground (arith, v1.tail_is, v1.head_in, v1.room)) in
    (
      record q1 { buffer = put_td q1.buffer q1.tail t; tail = wrap q1.cap (q1.tail + 1) },
      >>=-run _ grown
          (ap (λ n. ok (record q1 { buffer = put_td q1.buffer q1.tail t; tail = n })) next),
      put-Holds q1 l t v1 room,
    )
