-- ===== src/Sched/Fifo.antt =====
-- The queue as a list of threads, the oldest one first, and what a pop does to it.
use native.Mathlib.Nat.{mod-eq_of_lt, mod-eq-sub-mod}
use bincows.Base.{
  ℕ, zero, suc, ◌+◌, ◌-◌, ◌*◌, ◌%◌, ◌<◌, ◌≡◌, ◌∙◌, refl, sym, ap, ◌⊎◌, inl, inr, Bool-cases, some,
  List, [], ◌∷◌, ◌++◌, false, ltb, ◌==◌, if◌then◌else◌, arith, length, get_elem?, ok,
}
use bincows.Sched.Queue.{Td, PriorityQueue, pqueue_pop}

-- A slot, counted from the start of the buffer and around its end once
abbrev pub wrap : ℕ → ℕ → ℕ
wrap cap i = if ltb i cap then i else i - cap

pub wrap_lem : (cap i : ℕ) → i < 2 * cap → i % cap ≡ wrap cap i
wrap_lem cap i lt = elim (Bool-cases (ltb i cap)) [
  | inl low ↦ rw low (mod-eq_of_lt (ground arith))
  | inr high ↦ rw high (mod-eq-sub-mod (ground arith) ∙ mod-eq_of_lt (ground arith))
]

-- The queue holds the threads of `l`, in this order, and has a free slot.
pub record Holds (q : PriorityQueue) (l : List Td) : Type 0 where
  pub head_in : q.head < q.cap
  pub room : length l < q.cap
  pub tail_is : q.tail ≡ wrap q.cap (q.head + length l)
  pub slots : (i : ℕ) (t : Td) → get_elem? l i ≡ some t → q.buffer (wrap q.cap (q.head + i)) ≡ t

pub get_elem?-lt : (l : List Td) (i : ℕ) (t : Td) → get_elem? l i ≡ some t → i < length l
get_elem?-lt [] i t e = cc
get_elem?-lt (x ∷ l) zero t e = omega arith
get_elem?-lt (x ∷ l) (suc i) t e = omega (arith, get_elem?-lt l i t e)

pub get_elem?_last :
    (l : List Td) (x : Td) (i : ℕ) (t : Td)
    → get_elem? (l ++ (x ∷ [])) i ≡ some t
    → (get_elem? l i ≡ some t) ⊎ ((i ≡ length l) × (t ≡ x))
get_elem?_last [] x zero t e = inr (refl, ground (arith, e))
get_elem?_last [] x (suc i) t e = cc
get_elem?_last (y ∷ l) x zero t e = inl e
get_elem?_last (y ∷ l) x (suc i) t e = elim (get_elem?_last l x i t e) [
  | inl there ↦ inl there
  | inr (at_end, same) ↦ inr (ap suc at_end, same)
]

-- Around the end once, whether in one step or two
pub wrap-wrap :
    (cap head d i : ℕ)
    → head < cap
    → d + i < cap
    → wrap cap (wrap cap (head + d) + i) ≡ wrap cap (head + (d + i))
wrap-wrap cap head d i inside lt = elim (Bool-cases (ltb (head + d) cap)) [
  | inl low ↦ rw low (ground arith)
  | inr high ↦ rw high (ground arith)
]

-- A pop takes the oldest thread.
pub pqueue_pop-Holds :
    (q : PriorityQueue) (t : Td) (l : List Td)
    → Holds q (t ∷ l)
    → (q' : PriorityQueue) × (pqueue_pop q ≡ ok (t, q')) × Holds q' l
unfolding pqueue_pop
pqueue_pop-Holds q t l v =
    let some_left : (q.tail == q.head) ≡ false = ground (arith, v.tail_is, v.head_in, v.room) in
    let next = wrap_lem q.cap (q.head + 1) (omega (arith, v.head_in)) in
    let next_index : (i : ℕ) → 1 + i ≡ suc i = λ i. omega arith in
    let head_slot : wrap q.cap (q.head + 0) ≡ q.head = ground (arith, v.head_in) in
    let first : q.buffer q.head ≡ t = ap q.buffer (sym head_slot) ∙ v.slots 0 t refl in
    (
      record q { head = wrap q.cap (q.head + 1) },
      rw (some_left, next) (ap (λ u. ok (u, record q { head = wrap q.cap (q.head + 1) })) first),
      record {
        head_in = ground (arith, v.head_in);
        room = omega (arith, v.room);
        tail_is = ground (arith, v.tail_is, v.head_in, v.room);
        slots = λ i u e.
            ap q.buffer
              (wrap-wrap q.cap q.head 1 i v.head_in (omega (arith, get_elem?-lt l i u e, v.room)))
            ∙ ap (λ k. q.buffer (wrap q.cap (q.head + k))) (next_index i)
            ∙ v.slots (suc i) u e;
      },
    )
