-- ===== src/Nvme/Draining.antt =====
-- The loop of `handle_queue`: what becomes of the entries of the completion queue.
use Prim.Native.Nat.{bit_and}
use mathlib.Core.Path.{subst}
use native.Mathlib.Nat.{mod-add-mod, mod-eq_of_lt, mod-mod}
use bincows.Base.{
  ℕ, zero, suc, ◌+◌, ◌%◌, ◌<◌, ◌≡◌, ◌≢◌, ◌∙◌, refl, sym, ap, Bool, Bool-cases, inl, inr, true,
  false, List, ◌∷◌, ◌==◌, if◌then◌else◌, ok, arith,
}
use bincows.Nvme.{
  QueuePair, CompEntry, Device, task_id_async_read, io_queue_size, next_index, queue_empty,
  finish_read, handle_entry, handle_entries,
}
use bincows.Nvme.Pending.{IsQueue, held, queue_empty_iff, queue_consume_lem}

abbrev pub is_async_read : CompEntry → Bool
is_async_read e = bit_and e.cmd_id 0xf000 == task_id_async_read

abbrev pub read_index : CompEntry → ℕ
read_index e = bit_and e.cmd_id 0x0fff

-- The command has succeeded, and if it was an asynchronous read, then one of the array with a size.
pub record IsDone (d : Device) (e : CompEntry) : Type 0 where
  pub success : e.status ≡ 0
  pub in_array : is_async_read e ≡ true → read_index e < io_queue_size
  pub sized : is_async_read e ≡ true → (d.read_queue (read_index e)).size ≢ 0

-- the buffers that the asynchronous reads have still to fill, 0 for a read that is finished
abbrev pub targets : Device → ℕ → ℕ
targets d i = (d.read_queue i).target_buffer

abbrev pub filled : ℕ → (ℕ → ℕ) → ℕ → ℕ
filled i to j = if j == i then 0 else to j

-- The copies before `before` and that of an entry: target, source and size
abbrev pub with_request : Device → (ℕ → ℕ) → CompEntry → List (ℕ × ℕ × ℕ) → List (ℕ × ℕ × ℕ)
with_request d to e before =
    let i = read_index e in
    if is_async_read e then (to i, d.prps i, (d.read_queue i).size) ∷ before else before

abbrev pub to_fill : (ℕ → ℕ) → CompEntry → ℕ → ℕ
to_fill to e = if is_async_read e then filled (read_index e) to else to

-- What the asynchronous reads among the `n` entries from `i` on ask for, latest first. The first
-- entry of a read fills its buffer.
unfoldable pub asked : Device → (ℕ → ℕ) → ℕ → ℕ → List (ℕ × ℕ × ℕ) → List (ℕ × ℕ × ℕ)
asked d to i zero before = before
asked d to i (suc n) before =
    let e = d.pair.completed (i % d.pair.cq.size) in
    asked d (to_fill to e) (i + 1) n (with_request d to e before)

-- The completion queue of `d` is empty in `d'`; its entries' copies are made, and only the
-- target buffers of reads change besides.
pub record Drained (d d' : Device) : Type 0 where
  pub pair_is : d'.pair ≡ record (d.pair) { cq = record (d.pair.cq) { head = d.pair.cq.tail } }
  pub copied : d'.copies ≡ asked d (targets d) d.pair.cq.head (held d.pair.cq) d.copies
  pub same_prps : d'.prps ≡ d.prps
  pub same_sizes : (i : ℕ) → (d'.read_queue i).size ≡ (d.read_queue i).size
  pub same_doorbells : d'.doorbells ≡ d.doorbells

handle_entry_lem :
    (e : CompEntry) (d : Device)
    → IsDone d e
    → (d' : Device) × (handle_entry e d ≡ ok d')
      × (d'.pair ≡ d.pair)
      × (d'.copies ≡ with_request d (targets d) e d.copies)
      × (d'.prps ≡ d.prps)
      × ((i : ℕ) → (d'.read_queue i).size ≡ (d.read_queue i).size)
      × ((i : ℕ) → targets d' i ≡ to_fill (targets d) e i)
      × (d'.doorbells ≡ d.doorbells)
unfolding handle_entry finish_read
handle_entry_lem e d done = elim (Bool-cases (is_async_read e)) [
  | inl async ↦
      (let i = read_index e in
        (
          record d {
            copies = ((d.read_queue i).target_buffer, d.prps i, (d.read_queue i).size) ∷ d.copies;
            read_queue = λ j.
                if j == i then record (d.read_queue j) { target_buffer = 0 } else d.read_queue j;
          },
          ground (arith, done.success, done.in_array async, done.sized async),
          refl,
          rw async refl,
          refl,
          λ j. ground arith,
          λ j. rw async (ground arith),
          refl,
        ))
  | inr other ↦ (
    d,
    ground (arith, done.success),
    refl,
    rw other refl,
    refl,
    λ j. refl,
    λ j. rw other refl,
    refl,
  )
]

next_mod : (i j s : ℕ) → i % s ≡ j % s → (i + 1) % s ≡ (j + 1) % s
next_mod i j s e = sym (mod-add-mod i s 1) ∙ ap (λ r. (r + 1) % s) e ∙ mod-add-mod j s 1

to_fill-same :
    (to to' : ℕ → ℕ) (e : CompEntry) (r : ℕ)
    → ((k : ℕ) → to' k ≡ to k)
    → to_fill to' e r ≡ to_fill to e r
to_fill-same to to' e r same = elim (Bool-cases (is_async_read e)) [
  | inl async ↦ rw async (ap (λ k. if r == read_index e then 0 else k) (same r))
  | inr other ↦ rw other (same r)
]

-- The requests depend on the entries, the sizes, the sources and the buffers alone.
pub asked-same :
    (d d' : Device) (to to' : ℕ → ℕ) (n i j : ℕ) (before : List (ℕ × ℕ × ℕ))
    → d'.pair.completed ≡ d.pair.completed
    → d'.pair.cq.size ≡ d.pair.cq.size
    → d'.prps ≡ d.prps
    → ((r : ℕ) → (d'.read_queue r).size ≡ (d.read_queue r).size)
    → ((r : ℕ) → to' r ≡ to r)
    → i % d.pair.cq.size ≡ j % d.pair.cq.size
    → asked d' to' i n before ≡ asked d to j n before
unfolding asked
asked-same d d' to to' zero i j before ec es ep er et e = refl
asked-same d d' to to' (suc n) i j before ec es ep er et e =
    let x = d.pair.completed (j % d.pair.cq.size) in
    let here : d'.pair.completed (i % d'.pair.cq.size) ≡ x = rw (es, ec, e) in
    let next : (r : ℕ) → to_fill to' x r ≡ to_fill to x r = λ r. to_fill-same to to' x r et in
    rw (here, ep, er (read_index x), et (read_index x))
      (asked-same d d' (to_fill to x) (to_fill to' x) n (i + 1) (j + 1) _ ec es ep er next
        (next_mod i j d.pair.cq.size e))

asked-suc :
    (d : Device) (to : ℕ → ℕ) (n i : ℕ) (before : List (ℕ × ℕ × ℕ))
    → i < d.pair.cq.size
    → asked d to i (suc n) before
      ≡ asked d
          (to_fill to (d.pair.completed i))
          (i + 1)
          n
          (with_request d to (d.pair.completed i) before)
unfolding asked
asked-suc d to n i before lt =
    ap
      (λ j.
        asked d (to_fill to (d.pair.completed j)) (i + 1) n
          (with_request d to (d.pair.completed j) before))
      (mod-eq_of_lt lt)

abbrev consumed : QueuePair → QueuePair
consumed p = record p { cq = record (p.cq) { head = next_index p.cq p.cq.head } }

-- A device with the reads' sizes of `d` has done what `d` has done.
pub IsDone-same :
    (d d' : Device) (e e' : CompEntry)
    → ((r : ℕ) → (d'.read_queue r).size ≡ (d.read_queue r).size)
    → e ≡ e'
    → IsDone d e
    → IsDone d' e'
IsDone-same d d' e e' same ee done = record {
  success = ap (λ x. x.status) (sym ee) ∙ done.success;
  in_array = λ async.
      subst (λ x. read_index x < io_queue_size) ee (done.in_array (ap is_async_read ee ∙ async));
  sized = λ async zero_.
      done.sized (ap is_async_read ee ∙ async)
        (sym (same (read_index e)) ∙ ap (λ x. (d'.read_queue (read_index x)).size) ee ∙ zero_);
}

pub handle_entries-Drained :
    (k n : ℕ) (d : Device)
    → IsQueue d.pair.cq
    → held d.pair.cq ≡ n
    → n < k
    → ((m : ℕ) → m < n → IsDone d (d.pair.completed ((d.pair.cq.head + m) % d.pair.cq.size)))
    → (d' : Device) × (handle_entries k d ≡ ok d') × Drained d d'
unfolding handle_entries asked next_index
handle_entries-Drained zero n d v h fuel done = absurd (omega arith)
handle_entries-Drained (suc k) zero d v h fuel done =
    let empty : queue_empty d.pair.cq ≡ true = ground (arith, queue_empty_iff d.pair.cq v) in
    let met : d.pair.cq.head ≡ d.pair.cq.tail = ground (arith, v) in
    (
      d,
      rw (empty, handle_entries),
      record {
        pair_is = ap (λ t. record (d.pair) { cq = record (d.pair.cq) { head = t } }) met;
        copied = rw (h, asked);
        same_prps = refl;
        same_sizes = λ r. refl;
        same_doorbells = refl;
      },
    )
handle_entries-Drained (suc k) (suc n) d v h fuel done =
    let some_held : queue_empty d.pair.cq ≡ false = ground (arith, queue_empty_iff d.pair.cq v) in
    let e = d.pair.completed d.pair.cq.head in
    let first : (d.pair.cq.head + 0) % d.pair.cq.size ≡ d.pair.cq.head =
      mod-eq_of_lt (omega (arith, v)) ∙ omega arith in
    let e_done : IsDone d e =
      IsDone-same d d (d.pair.completed ((d.pair.cq.head + 0) % d.pair.cq.size)) e (λ r. refl)
        (ap (λ i. d.pair.completed i) first) (done 0 (omega arith)) in
    let (d1, run, pair1, cop1, prps1, sizes1, to1, bells1) = handle_entry_lem e d e_done in
    let (ate, v', less) = queue_consume_lem d.pair.cq v (omega arith) in
    let d2 : Device = record d1 { pair = consumed d.pair } in
    let next = next_index d.pair.cq d.pair.cq.head in
    let fewer : held (consumed d.pair).cq ≡ n = omega (arith, less, h) in
    let index : (m : ℕ)
        → (d.pair.cq.head + suc m) % d.pair.cq.size
          ≡ (next_index d.pair.cq d.pair.cq.head + m) % d.pair.cq.size =
      λ m.
        ap (λ i. i % d.pair.cq.size) (omega arith)
        ∙ sym (mod-add-mod (d.pair.cq.head + 1) d.pair.cq.size m) in
    let later : (m : ℕ)
        → m < n
        → IsDone d2
            (d.pair.completed ((next_index d.pair.cq d.pair.cq.head + m) % d.pair.cq.size)) =
      λ m lt.
        IsDone-same d d2 (d.pair.completed ((d.pair.cq.head + suc m) % d.pair.cq.size)) _ sizes1
          (ap (λ i. d.pair.completed i) (index m)) (done (suc m) (omega arith)) in
    let (d', rest, dr) = handle_entries-Drained k n d2 v' (omega arith) (omega arith) later in
    (
      d',
      rw (some_held, handle_entries, run, pair1, ate) rest,
      record {
        pair_is = dr.pair_is;
        copied =
            dr.copied
            ∙ ap (asked d2 (targets d2) next (held (consumed d.pair).cq)) cop1
            ∙ ap (λ x. asked d2 (targets d2) next x (with_request d (targets d) e d.copies)) fewer
            ∙ asked-same d d2 (to_fill (targets d) e) (targets d2) n next (d.pair.cq.head + 1)
                (with_request d (targets d) e d.copies) refl refl prps1 sizes1 to1
                (mod-mod (d.pair.cq.head + 1) d.pair.cq.size)
            ∙ sym (
                ap (λ x. asked d (targets d) d.pair.cq.head x d.copies) h
                ∙ asked-suc d (targets d) n d.pair.cq.head d.copies v.head_in);
        same_prps = dr.same_prps ∙ prps1;
        same_sizes = λ r. dr.same_sizes r ∙ sizes1 r;
        same_doorbells = dr.same_doorbells ∙ bells1;
      },
    )
