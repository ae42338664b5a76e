-- ===== src/Heap/Free.antt =====
-- `free`: what it does to the blocks in use, and what it does with a block that is not in use.
use bincows.Base.{
  ℕ, ◌+◌, ◌-◌, ◌%◌, ◌^◌, ◌≤◌, ◌≡◌, ◌≢◌, ◌∙◌, ◌⊎◌, inl, inr, refl, ap, Bool, true, false, List, [],
  ◌∷◌, ok, panic, arith, length, if◌then◌else◌, Bool-cases, ◌==◌,
}
use bincows.Heap.{Seg, Heap, heap_begin, header_size, in_range, defragment}
use bincows.Heap.Api.{header_of, release, free}
use bincows.Heap.Tiling.{
  Tiles, live, IsValid, heap_assert_seg-Tiles, Tiles-begin, length-live-Tiles,
}
use bincows.Heap.Merge.{defragment_segs-Merged}

-- the blocks without the first one at `p`
unfoldable pub erase_at : ℕ → List (ℕ × ℕ) → List (ℕ × ℕ)
erase_at p [] = []
erase_at p ((q, n) ∷ r) = if q == p then r else (q, n) ∷ erase_at p r

-- A segment with its payload at `p` has `free` set to `f`.
abbrev pub HasSeg : Bool → ℕ → List Seg → Type 0
HasSeg f p [] = ⊥
HasSeg f p (s ∷ r) = ((s.free ≡ f) × (s.addr + header_size ≡ p)) ⊎ HasSeg f p r

pub HasSeg-bounds :
    (f : Bool) (p top : ℕ) (segs : List Seg)
    → Tiles top segs
    → HasSeg f p segs
    → (heap_begin + header_size ≤ p) × (p ≤ top)
HasSeg-bounds f p top [] t l = absurd l
HasSeg-bounds f p top (s ∷ r) t (inl here) = omega (arith, Tiles-begin s.addr r t.2)
HasSeg-bounds f p top (s ∷ r) t (inr later) = omega (arith, HasSeg-bounds f p s.addr r t.2 later)

record Unlinked (top p : ℕ) (old new : List Seg) : Type 0 where
  tiles : Tiles top new
  less : live new ≡ erase_at p (live old)
  fewer : length (live new) + 1 ≡ length (live old)
  some_left : new ≢ []

Unlinked-cons :
    (top p : ℕ) (s : Seg) (old new : List Seg)
    → s.addr + header_size ≢ p
    → Tiles top (s ∷ old)
    → Unlinked s.addr p old new
    → Unlinked top p (s ∷ old) (s ∷ new)
unfolding erase_at
Unlinked-cons top p s old new ne t u = record {
  tiles = (t.0, t.1, u.tiles);
  less = ground (arith, u.less);
  fewer = ground (arith, u.fewer);
  some_left = λ e. cc;
}

release-Unlinked :
    (hs top p : ℕ) (segs : List Seg)
    → top ≤ heap_begin + hs
    → Tiles top segs
    → HasSeg false p segs
    → (new : List Seg) × (release hs (p - header_size) segs ≡ ok new) × Unlinked top p segs new
unfolding release erase_at
release-Unlinked hs top p [] b t l = absurd l
release-Unlinked hs top p (s ∷ r) b t (inl here) =
    let checked = heap_assert_seg-Tiles hs top s r b t in
    let found : (s.addr == p - header_size) ≡ true = ground arith in
    (
      record s { free = true } ∷ r,
      rw (found, checked, here.0),
      record {
        tiles = (t.0, t.1, t.2);
        less = ground arith;
        fewer = ground arith;
        some_left = λ e. cc;
      },
    )
release-Unlinked hs top p (s ∷ r) b t (inr later) =
    let (new, e, u) = release-Unlinked hs s.addr p r (omega arith) t.2 later in
    let low = HasSeg-bounds false p s.addr r t.2 later in
    let other : (s.addr == p - header_size) ≡ false = ground arith in
    (s ∷ new, rw (other, e), Unlinked-cons top p s r new (omega arith) t u)

-- What `free(p)` does: the block at `p` is in use no longer, and all others still are.
pub record Freed (h : Heap) (p : ℕ) (h' : Heap) : Type 0 where
  pub valid : IsValid h'
  pub less : live h'.segs ≡ erase_at p (live h.segs)
  pub same_bytes : h'.mem ≡ h.mem
  pub same_size : h'.heap_size ≡ h.heap_size

abbrev mark : Heap → List Seg → Heap
mark h new = record h { segs = new; n_frees = (h.n_frees + 1) % 2 ^ 32 }

abbrev uncount : Heap → Heap
uncount h = record h { n_allocations = (h.n_allocations + 2 ^ 64 - 1) % 2 ^ 64 }

uncount-Freed :
    (h : Heap) (p : ℕ) (new final : List Seg)
    → IsValid h
    → Unlinked (heap_begin + h.heap_size) p h.segs new
    → Tiles (heap_begin + h.heap_size) final
    → live final ≡ live new
    → Freed h p (uncount (mark h final))
uncount-Freed h p new final v u t same = record {
  valid = record {
    tiles = t;
    bound = v.bound;
    mapped = v.mapped;
    counted = omega (
      arith,
      ap length same,
      u.fewer,
      v.counted,
      v.bound,
      length-live-Tiles (heap_begin + h.heap_size) final t,
    );
  };
  less = same ∙ u.less;
  same_bytes = refl;
  same_size = refl;
}

module _ (p : ℕ) {h : Heap} (v : IsValid h) where
  pub header_of-live :
      (f : Bool)
      → HasSeg f p h.segs
      → (header_of p ≡ p - header_size) × (in_range h.heap_size (p - header_size) ≡ true)
  header_of-live f l =
      let low = HasSeg-bounds f p (heap_begin + h.heap_size) h.segs v.tiles l in
      (omega (arith, v.bound), ground (arith, v.bound))

-- `free` of a block in use returns: the heap is valid, and that block alone is no longer in use.
pub free-Freed :
    (p : ℕ) {h : Heap}
    → IsValid h
    → HasSeg false p h.segs
    → (h' : Heap) × (free p h ≡ ok h') × Freed h p h'
unfolding free defragment
free-Freed p {h} v l =
    let (at, inside) = header_of-live p v false l in
    let (new, e, u) =
      release-Unlinked h.heap_size (heap_begin + h.heap_size) p h.segs (omega arith) v.tiles l in
    elim (Bool-cases ((h.n_frees % 32) == 0)) [
      | inl now ↦
          (let (final, d, t, same, _) =
              defragment_segs-Merged h.heap_size (heap_begin + h.heap_size) new u.some_left
                (omega arith) (omega (arith, v.bound)) u.tiles in
            (
              uncount (mark h final),
              rw (at, inside, e, now, d),
              uncount-Freed h p new final v u t same,
            ))
      | inr later ↦ (
        uncount (mark h new),
        rw (at, inside, e, later),
        uncount-Freed h p new new v u u.tiles refl,
      )
    ]

release_twice :
    (hs top p : ℕ) (segs : List Seg)
    → top ≤ heap_begin + hs
    → Tiles top segs
    → HasSeg true p segs
    → release hs (p - header_size) segs ≡ panic
unfolding release
release_twice hs top p [] b t l = absurd l
release_twice hs top p (s ∷ r) b t (inl here) =
    let checked = heap_assert_seg-Tiles hs top s r b t in
    let found : (s.addr == p - header_size) ≡ true = ground arith in rw (found, checked, here.0)
release_twice hs top p (s ∷ r) b t (inr later) =
    let low = HasSeg-bounds true p s.addr r t.2 later in
    let other : (s.addr == p - header_size) ≡ false = ground arith in
    rw (other, release_twice hs s.addr p r (omega arith) t.2 later)

-- `free` of a segment that is free already stops the kernel.
free_twice : (p : ℕ) {h : Heap} → IsValid h → HasSeg true p h.segs → free p h ≡ panic
unfolding free
free_twice p {h} v l =
    let (at, inside) = header_of-live p v true l in
    rw (
      at,
      inside,
      release_twice h.heap_size (heap_begin + h.heap_size) p h.segs (omega arith) v.tiles l,
    )
