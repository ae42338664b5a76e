-- ===== src/Heap/Tiling.antt =====
-- The shape of a valid heap: the segments tile it downwards with no gap.
use bincows.Base.{
  ℕ, ◌+◌, ◌-◌, ◌*◌, ◌/◌, ◌%◌, ◌^◌, ◌≤◌, ◌≡◌, true, false, List, [], ◌∷◌, ok, arith, length,
  if◌then◌else◌,
}
use bincows.Heap.{Seg, Heap, heap_begin, header_size, next_addr, heap_assert_seg}

-- Room for the heap below the end of the address space.
abbrev pub heap_max : ℕ
heap_max = 2 ^ 64 - heap_begin

-- The segments fill the addresses from `heap_begin` up to `top`, and sizes are multiples of 8.
abbrev pub Tiles : ℕ → List Seg → Type 0
Tiles top [] = top ≡ heap_begin
Tiles top (s ∷ r) = (s.addr + header_size + s.size ≡ top) × (s.size % 8 ≡ 0) × Tiles s.addr r

-- Address and size of each payload that is in use, from the top down.
abbrev pub live : List Seg → List (ℕ × ℕ)
live [] = []
live (s ∷ r) = if s.free then live r else ((s.addr + header_size, s.size) ∷ live r)

-- Each block ends at or below `top`, and the next one ends below this one's header.
abbrev pub Descends : ℕ → List (ℕ × ℕ) → Type 0
Descends top [] = Unit
Descends top ((p, n) ∷ r) =
    (p + n ≤ top) × (heap_begin + header_size ≤ p) × (p % 8 ≡ 0) × Descends (p - header_size) r

pub record IsValid (h : Heap) : Type 0 where
  pub tiles : Tiles (heap_begin + h.heap_size) h.segs
  pub bound : h.heap_size ≤ heap_max
  pub mapped : h.pages ≡ (h.heap_size + 0xfff) / 2 ^ 12
  pub counted : h.n_allocations ≡ length (live h.segs)

pub Tiles-begin : (top : ℕ) (segs : List Seg) → Tiles top segs → (heap_begin ≤ top) × (top % 8 ≡ 0)
Tiles-begin top [] t = omega arith
Tiles-begin top (s ∷ r) t = omega (arith, Tiles-begin s.addr r t.2)

pub length-live-Tiles :
    (top : ℕ) (segs : List Seg) → Tiles top segs → length (live segs) * 16 + heap_begin ≤ top
length-live-Tiles top [] t = omega arith
length-live-Tiles top (s ∷ r) t = ground (arith, length-live-Tiles s.addr r t.2)

pub heap_assert_seg-Tiles :
    (hs top : ℕ) (s : Seg) (r : List Seg)
    → top ≤ heap_begin + hs
    → Tiles top (s ∷ r)
    → heap_assert_seg hs s (next_addr r) ≡ ok tt
unfolding heap_assert_seg
heap_assert_seg-Tiles hs top s [] b t = ground arith
heap_assert_seg-Tiles hs top s (n ∷ r) b t = ground (arith, Tiles-begin n.addr r t.2.2)

Descends-mono : (top lo : ℕ) (bs : List (ℕ × ℕ)) → lo ≤ top → Descends lo bs → Descends top bs
Descends-mono top lo [] h d = tt
Descends-mono top lo ((p, n) ∷ r) h d = (omega arith, d.1, d.2, d.3)

pub live-Descends : (top : ℕ) (segs : List Seg) → Tiles top segs → Descends top (live segs)
live-Descends top [] t = tt
live-Descends top (s ∷ r) t =
    let below = live-Descends s.addr r t.2 in
    let base = Tiles-begin s.addr r t.2 in
    elim s.free
      as (λ f. Descends top (if f then live r else ((s.addr + header_size, s.size) ∷ live r))) [
        | true ↦ Descends-mono top s.addr (live r) (omega arith) below
        | false ↦ (
          omega arith,
          omega arith,
          omega arith,
          Descends-mono (s.addr + header_size - header_size) s.addr (live r) (omega arith) below,
        )
      ]
