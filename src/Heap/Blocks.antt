-- ===== src/Heap/Blocks.antt =====
-- The blocks in use as a list of addresses and sizes: lookups, and the laws of `erase_at`.
use bincows.Base.{
  ℕ, ◌+◌, ◌-◌, ◌≤◌, ◌<◌, ◌≡◌, ◌≢◌, ◌⊎◌, inl, inr, refl, false, Option, none, some, List, [], ◌∷◌,
  ◌++◌, arith, if◌then◌else◌, Bool-cases, ◌==◌,
}
use bincows.Heap.{Seg, header_size, heap_begin}
use bincows.Heap.Api.{find_seg}
use bincows.Heap.Tiling.{Tiles, live, Descends}
use bincows.Heap.Free.{erase_at, HasSeg, HasSeg-bounds}
use bincows.Base.{ok}

-- the size of the block at `p`
unfoldable pub block_size : ℕ → List (ℕ × ℕ) → Option ℕ
block_size p [] = none
block_size p ((q, n) ∷ r) = if q == p then some n else block_size p r

pub block_size-bounds :
    (p n top : ℕ) (bs : List (ℕ × ℕ))
    → Descends top bs
    → block_size p bs ≡ some n
    → (heap_begin + header_size ≤ p) × (p + n ≤ top)
unfolding block_size
block_size-bounds p n top [] d e = cc
block_size-bounds p n top ((q, m) ∷ r) d e =
    ground (arith, block_size-bounds p n (q - header_size) r d.3)

-- Two blocks do not overlap.
pub block_size-disjoint :
    (p n q m top : ℕ) (bs : List (ℕ × ℕ))
    → Descends top bs
    → p ≢ q
    → block_size p bs ≡ some n
    → block_size q bs ≡ some m
    → (p + n ≤ q) ⊎ (q + m ≤ p)
unfolding block_size
block_size-disjoint p n q m top [] d ne e f = cc
block_size-disjoint p n q m top ((o, k) ∷ r) d ne e f = ground (
  arith,
  block_size-bounds p n (o - header_size) r d.3,
  block_size-bounds q m (o - header_size) r d.3,
  block_size-disjoint p n q m (o - header_size) r d.3 ne,
)

Descends-middle :
    (top p g : ℕ) (before after : List (ℕ × ℕ))
    → Descends top (before ++ ((p, g) ∷ after))
    → (p + g ≤ top) × (heap_begin + header_size ≤ p)
Descends-middle top p g [] after d = (d.0, d.1)
Descends-middle top p g ((q, n) ∷ b) after d =
    omega (arith, Descends-middle (q - header_size) p g b after d.3)

-- A block that is put in can be looked up and erased.
pub block_size-middle :
    (top p g : ℕ) (before after : List (ℕ × ℕ))
    → Descends top (before ++ ((p, g) ∷ after))
    → block_size p (before ++ ((p, g) ∷ after)) ≡ some g
unfolding block_size
block_size-middle top p g [] after d = ground arith
block_size-middle top p g ((q, n) ∷ b) after d = ground (
  arith,
  block_size-middle (q - header_size) p g b after d.3,
  Descends-middle (q - header_size) p g b after d.3,
)

pub erase_at-middle :
    (top p g : ℕ) (before after : List (ℕ × ℕ))
    → Descends top (before ++ ((p, g) ∷ after))
    → erase_at p (before ++ ((p, g) ∷ after)) ≡ before ++ after
unfolding erase_at
erase_at-middle top p g [] after d = ground arith
erase_at-middle top p g ((q, n) ∷ b) after d = ground (
  arith,
  erase_at-middle (q - header_size) p g b after d.3,
  Descends-middle (q - header_size) p g b after d.3,
)

block_size_below :
    (p top : ℕ) (bs : List (ℕ × ℕ)) → Descends top bs → top < p → block_size p bs ≡ none
unfolding block_size
block_size_below p top [] d h = refl
block_size_below p top ((q, n) ∷ r) d h = ground (arith, block_size_below p (q - header_size) r d.3)

-- A block that is put in was not there before.
pub block_size_new :
    (top p g : ℕ) (before after : List (ℕ × ℕ))
    → Descends top (before ++ ((p, g) ∷ after))
    → block_size p (before ++ after) ≡ none
unfolding block_size
block_size_new top p g [] after d = block_size_below p (p - header_size) after d.3 (omega arith)
block_size_new top p g ((q, n) ∷ b) after d = ground (
  arith,
  block_size_new (q - header_size) p g b after d.3,
  Descends-middle (q - header_size) p g b after d.3,
)

pub block_size-insert :
    (p q g : ℕ) (before after : List (ℕ × ℕ))
    → q ≢ p
    → block_size p (before ++ ((q, g) ∷ after)) ≡ block_size p (before ++ after)
unfolding block_size
block_size-insert p q g [] after ne = ground arith
block_size-insert p q g ((o, n) ∷ b) after ne = ground (arith, block_size-insert p q g b after)

pub block_size-erase_at :
    (p q : ℕ) (bs : List (ℕ × ℕ)) → q ≢ p → block_size p (erase_at q bs) ≡ block_size p bs
unfolding block_size erase_at
block_size-erase_at p q [] ne = refl
block_size-erase_at p q ((o, n) ∷ r) ne = ground (arith, block_size-erase_at p q r ne)

pub erase_at_comm :
    (p q : ℕ) (bs : List (ℕ × ℕ)) → erase_at p (erase_at q bs) ≡ erase_at q (erase_at p bs)
unfolding erase_at
erase_at_comm p q [] = refl
erase_at_comm p q ((o, n) ∷ r) = ground (arith, erase_at_comm p q r)

-- A block in use has a segment that is not free.
pub live-HasSeg :
    (p n : ℕ) (segs : List Seg) → block_size p (live segs) ≡ some n → HasSeg false p segs
unfolding block_size
live-HasSeg p n [] e = cc
live-HasSeg p n (s ∷ r) e = ground (arith, live-HasSeg p n r)

live-bounds :
    (p n top : ℕ) (segs : List Seg)
    → Tiles top segs
    → block_size p (live segs) ≡ some n
    → (heap_begin + header_size ≤ p) × (p ≤ top)
live-bounds p n top segs t e = HasSeg-bounds false p top segs t (live-HasSeg p n segs e)

find_seg-here :
    (p n top : ℕ) (s : Seg) (r : List Seg)
    → Tiles top (s ∷ r)
    → block_size p (live (s ∷ r)) ≡ some n
    → s.addr + header_size ≡ p
    → s.size ≡ n
unfolding block_size
find_seg-here p n top s r t e here = ground (arith, live-bounds p n s.addr r t.2)

find_seg-there :
    (p n : ℕ) (s : Seg) (r : List Seg)
    → block_size p (live (s ∷ r)) ≡ some n
    → s.addr + header_size ≢ p
    → block_size p (live r) ≡ some n
unfolding block_size
find_seg-there p n s r e other = ground arith

-- `realloc` finds the header of a block in use.
pub find_seg-live :
    (p n top : ℕ) (segs : List Seg)
    → Tiles top segs
    → block_size p (live segs) ≡ some n
    → (s : Seg) × (find_seg (p - header_size) segs ≡ ok s) × (s.size ≡ n)
unfolding find_seg block_size
find_seg-live p n top [] t e = cc
find_seg-live p n top (s ∷ r) t e =
    let low = live-bounds p n top (s ∷ r) t e in
    elim (Bool-cases (s.addr == p - header_size)) [
      | inl here ↦ (s, rw here, find_seg-here p n top s r t e (ground arith))
      | inr later ↦
          (let rest = find_seg-there p n s r e (ground arith) in
            let found = find_seg-live p n s.addr r t.2 rest in (found.0, rw later found.1, found.2))
    ]
