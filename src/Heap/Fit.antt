-- ===== src/Heap/Fit.antt =====
-- The search loop of `malloc`: what it returns, and what it does to the segments.
use bincows.Base.{
  ℕ, ◌+◌, ◌%◌, ◌^◌, ◌≤◌, ◌≡◌, inl, inr, refl, ap, true, false, not, ◌||◌, Option, none, some, List,
  [], ◌∷◌, ◌++◌, ok, arith, ltb, leb, if◌then◌else◌, Bool-cases,
}
use bincows.Heap.{Seg, heap_begin, header_size, min_segment_size, occupy, fit, passed}
use bincows.Heap.Tiling.{Tiles, live, heap_assert_seg-Tiles, Tiles-begin}

-- `new` is `old` with one block put in, at `p` and of `size` bytes at least.
pub record Placed (old new : List (ℕ × ℕ)) (p size : ℕ) : Type 0 where
  pub before : List (ℕ × ℕ)
  pub after : List (ℕ × ℕ)
  pub granted : ℕ
  pub enough : size ≤ granted
  pub old_is : old ≡ before ++ after
  pub new_is : new ≡ before ++ ((p, granted) ∷ after)

pub data Fitted (top size : ℕ) (segs : List Seg) : Option (ℕ × List Seg) → Type 0 where
  unfit : Fitted top size segs none
  placed :
      {p : ℕ} {segs' : List Seg}
      → Tiles top segs'
      → Placed (live segs) (live segs') p size
      → Fitted top size segs (some (p, segs'))

module _ (top size : ℕ) (s : Seg) (r : List Seg) where
  pub occupy-Tiles :
      top ≤ 2 ^ 64
      → heap_begin ≤ s.addr
      → size % 8 ≡ 0
      → size ≤ s.size
      → Tiles top (s ∷ r)
      → Tiles top (occupy size s r)
  unfolding occupy
  occupy-Tiles b base aligned enough t = ground arith

  pub occupy-Placed :
      s.free ≡ true
      → size ≤ s.size
      → Placed (live (s ∷ r)) (live (occupy size s r)) (s.addr + header_size) size
  unfolding occupy
  occupy-Placed is_free enough =
      elim (Bool-cases (leb (size + header_size + min_segment_size) s.size)) [
        | inl e ↦ record {
          before = [];
          after = live r;
          granted = size;
          enough = omega arith;
          old_is = rw is_free;
          new_is = rw e;
        }
        | inr e ↦ record {
          before = [];
          after = live r;
          granted = s.size;
          enough = enough;
          old_is = rw is_free;
          new_is = rw e;
        }
      ]

-- Passing one more segment in front.
Placed-cons :
    (s : Seg) (old new : List Seg) (p size : ℕ)
    → Placed (live old) (live new) p size
    → Placed (live (s ∷ old)) (live (s ∷ new)) p size
Placed-cons s old new p size q =
    elim s.free
      as (λ f.
        Placed (if f then live old else ((s.addr + header_size, s.size) ∷ live old))
          (if f then live new else ((s.addr + header_size, s.size) ∷ live new)) p size) [
            | true ↦ q
            | false ↦ record {
              before = (s.addr + header_size, s.size) ∷ q.before;
              after = q.after;
              granted = q.granted;
              enough = q.enough;
              old_is = ap (λ l. (s.addr + header_size, s.size) ∷ l) q.old_is;
              new_is = ap (λ l. (s.addr + header_size, s.size) ∷ l) q.new_is;
            }
          ]

Fitted-cons :
    (top size : ℕ) (s : Seg) (r : List Seg) (o : Option (ℕ × List Seg))
    → Tiles top (s ∷ r)
    → Fitted s.addr size r o
    → Fitted top size (s ∷ r) (passed s o)
Fitted-cons top size s r none t unfit = unfit
Fitted-cons top size s r (some (p, r')) t (placed ti q) =
    placed (t.0, t.1, ti) (Placed-cons s r r' p size q)

-- The loop runs to its end, and what it returns is `Fitted`.
pub fit-Fitted :
    (hs size top : ℕ) (segs : List Seg)
    → top ≤ heap_begin + hs
    → heap_begin + hs ≤ 2 ^ 64
    → size % 8 ≡ 0
    → Tiles top segs
    → (o : Option (ℕ × List Seg)) × (fit hs size segs ≡ ok o) × Fitted top size segs o
unfolding fit
fit-Fitted hs size top [] b m aligned t = (none, refl, unfit)
fit-Fitted hs size top (s ∷ r) b m aligned t =
    let checked = heap_assert_seg-Tiles hs top s r b t in
    let base = Tiles-begin s.addr r t.2 in
    let (o, e, f) = fit-Fitted hs size s.addr r (omega arith) m aligned t.2 in
    elim (Bool-cases (not s.free || ltb s.size size)) [
      | inl skip ↦ (passed s o, rw (checked, skip, e), Fitted-cons top size s r o t f)
      | inr good ↦ (
        some (s.addr + header_size, occupy size s r),
        rw (checked, good),
        placed (occupy-Tiles top size s r (omega arith) base.0 aligned (ground arith) t)
            (occupy-Placed top size s r (ground arith) (ground arith)),
      )
    ]

-- A free head that is large enough is taken.
pub fit_head :
    (hs size top : ℕ) (s : Seg) (r : List Seg)
    → top ≤ heap_begin + hs
    → Tiles top (s ∷ r)
    → s.free ≡ true
    → size ≤ s.size
    → fit hs size (s ∷ r) ≡ ok (some (s.addr + header_size, occupy size s r))
unfolding fit
fit_head hs size top s r b t is_free enough =
    let checked = heap_assert_seg-Tiles hs top s r b t in
    let good : (not s.free || ltb s.size size) ≡ false = ground arith in rw (checked, good)
