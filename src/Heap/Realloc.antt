-- ===== src/Heap/Realloc.antt =====
-- `realloc`, and `malloc` followed by `free`.
use bincows.Base.{
  ℕ, zero, suc, ◌+◌, ◌-◌, ◌*◌, ◌/◌, ◌≤◌, ◌<◌, ◌≡◌, ◌≢◌, ◌∙◌, ◌⊎◌, inl, inr, refl, ap, sym, true,
  false, none, some, ◌∷◌, ◌++◌, arith, if◌then◌else◌, Bool-cases, ◌==◌, ok, ltb, ◌&&◌, ◌||◌,
}
use bincows.Heap.{Heap, min_segment_size, heap_begin, min_expand_size}
use bincows.Heap.Api.{memcpy, malloc, free, realloc}
use bincows.Heap.Tiling.{live, Descends, IsValid, heap_max, live-Descends}
use bincows.Heap.Malloc.{Allocated, malloc-Allocated}
use bincows.Heap.Free.{erase_at, Freed, free-Freed, header_of-live}
use bincows.Heap.Blocks.{
  block_size, block_size-bounds, block_size-disjoint, block_size-middle, erase_at-middle,
  block_size_new, block_size-insert, block_size-erase_at, erase_at_comm, live-HasSeg, find_seg-live,
}

memcpy_outside :
    (mem : ℕ → ℕ) (dst src n a : ℕ) → (a < dst) ⊎ (dst + n ≤ a) → memcpy mem dst src n a ≡ mem a
unfolding memcpy
memcpy_outside mem dst src zero a h = refl
memcpy_outside mem dst src (suc n) a h =
    let other : (a == dst) ≡ false = ground arith in
    memcpy_outside (λ b. if b == dst then mem src else mem b) (dst + 1) (src + 1) n a (omega arith)
    ∙ rw other

-- `memcpy` between regions that do not overlap copies each byte.
memcpy_inside :
    (mem : ℕ → ℕ) (dst src n i a b : ℕ)
    → (dst + n ≤ src) ⊎ (src + n ≤ dst)
    → i < n
    → a ≡ dst + i
    → b ≡ src + i
    → memcpy mem dst src n a ≡ mem b
unfolding memcpy
memcpy_inside mem dst src zero i a b apart h p q = absurd (omega arith)
memcpy_inside mem dst src (suc n) zero a b apart h p q =
    let here : (a == dst) ≡ true = ground arith in
    memcpy_outside (λ b. if b == dst then mem src else mem b) (dst + 1) (src + 1) n a (omega arith)
    ∙ (rw here (ap mem (omega arith)))
memcpy_inside mem dst src (suc n) (suc i) a b apart h p q =
    let other : (b == dst) ≡ false = ground arith in
    memcpy_inside (λ b. if b == dst then mem src else mem b) (dst + 1) (src + 1) n i a b
      (omega arith) (omega arith) (omega arith) (omega arith)
    ∙ rw other

Allocated-Descends :
    {h h' : Heap} {size q : ℕ}
    → (a : Allocated h size q h')
    → Descends
        (heap_begin + h'.heap_size)
        (a.block.before ++ ((q, a.block.granted) ∷ a.block.after))
Allocated-Descends {h'} a = rw a.block.new_is at (live-Descends _ h'.segs a.valid.tiles)

-- The block that `malloc` returns: its size, its absence before, and what is left without it.
module _ {h h' : Heap} {size q : ℕ} (a : Allocated h size q h') where
  pub Allocated-block_size : block_size q (live h'.segs) ≡ some a.block.granted
  Allocated-block_size = rw a.block.new_is (block_size-middle _ q _ _ _ (Allocated-Descends a))

  pub Allocated_new : block_size q (live h.segs) ≡ none
  Allocated_new = rw a.block.old_is (block_size_new _ q _ _ _ (Allocated-Descends a))

  Allocated-erase_at : erase_at q (live h'.segs) ≡ live h.segs
  Allocated-erase_at =
      rw (a.block.new_is, a.block.old_is) (erase_at-middle _ q _ _ _ (Allocated-Descends a))

  pub Allocated_others : (p : ℕ) → q ≢ p → block_size p (live h'.segs) ≡ block_size p (live h.segs)
  Allocated_others p ne = rw (a.block.new_is, a.block.old_is) (block_size-insert p q _ _ _ ne)

-- `malloc` and then `free` of the block: the blocks in use are those from before.
pub free-malloc :
    (size : ℕ) {h : Heap}
    → IsValid h
    → h.heap_size + size + min_expand_size ≤ heap_max
    → (p : ℕ) × (h1 h2 : Heap) × (malloc size h ≡ ok (p, h1))
      × (free p h1 ≡ ok h2)
      × IsValid h2
      × (live h2.segs ≡ live h.segs)
      × (h2.mem ≡ h.mem)
free-malloc size v fits =
    let (p, h1, run, a) = malloc-Allocated size v fits in
    let (h2, run', f) = free-Freed p a.valid (live-HasSeg p _ h1.segs (Allocated-block_size a)) in
    (p, h1, h2, run, run', f.valid, f.less ∙ Allocated-erase_at a, f.same_bytes ∙ a.same_bytes)

-- What `realloc` of the block of `n` bytes at `p` does, when it returns `q`.
pub record Resized (h : Heap) (p n size q : ℕ) (h' : Heap) : Type 0 where
  pub valid : IsValid h'
  pub granted : ℕ
  pub block : block_size q (live h'.segs) ≡ some granted
  pub enough : size ≤ granted
  pub others : erase_at q (live h'.segs) ≡ erase_at p (live h.segs)
  pub copied : (i : ℕ) → i < n → i < size → h'.mem (q + i) ≡ h.mem (p + i)
  pub kept : (a : ℕ) → (a < q) ⊎ (q + size ≤ a) → h'.mem a ≡ h.mem a

-- the number of bytes that `realloc` copies
abbrev cpsize : ℕ → ℕ → ℕ
cpsize size n = if ltb size n then size else n

abbrev with_bytes : Heap → (ℕ → ℕ) → Heap
with_bytes h m = record h { mem = m }

ne_of_new :
    {h h1 : Heap} {size q : ℕ} (p n : ℕ)
    → Allocated h size q h1
    → block_size p (live h.segs) ≡ some n
    → q ≢ p
ne_of_new p n a b e = cc (Allocated_new a)

cpsize-disjoint :
    (p n q g size : ℕ)
    → (p + n ≤ q) ⊎ (q + g ≤ p)
    → size ≤ g
    → (q + cpsize size n ≤ p) ⊎ (p + cpsize size n ≤ q)
cpsize-disjoint p n q g size apart le = elim (Bool-cases (ltb size n)) [
  | inl less ↦ rw less (ground arith)
  | inr more ↦ rw more (ground arith)
]

cpsize-outside : (q n size a : ℕ) → (a < q) ⊎ (q + size ≤ a) → (a < q) ⊎ (q + cpsize size n ≤ a)
cpsize-outside q n size a out = elim (Bool-cases (ltb size n)) [
  | inl less ↦ rw less (ground arith)
  | inr more ↦ rw more (ground arith)
]

copy-Resized :
    {h h1 h2 : Heap} {size q : ℕ} (p n : ℕ)
    → block_size p (live h.segs) ≡ some n
    → (a : Allocated h size q h1) → Freed (with_bytes h1 (memcpy h1.mem q p (cpsize size n))) p h2
    → Resized h p n size q h2
copy-Resized {h} {h1} {h2} {size} {q} p n b a f =
    let ne = ne_of_new p n a b in
    let apart =
      block_size-disjoint p n q a.block.granted (heap_begin + h1.heap_size) (live h1.segs)
        (live-Descends _ h1.segs a.valid.tiles) (λ e. ne (sym e)) (Allocated_others a p ne ∙ b)
        (Allocated-block_size a) in
    record {
      valid = f.valid;
      granted = a.block.granted;
      block =
          rw f.less
            (block_size-erase_at q p (live h1.segs) (λ e. ne (sym e)) ∙ Allocated-block_size a);
      enough = a.block.enough;
      others =
          rw f.less (erase_at_comm q p (live h1.segs) ∙ ap (erase_at p) (Allocated-erase_at a));
      copied = λ i hn hs.
          ap (λ (m : ℕ → ℕ). m (q + i)) f.same_bytes
          ∙ memcpy_inside h1.mem q p (cpsize size n) i (q + i) (p + i)
              (cpsize-disjoint p n q a.block.granted size apart a.block.enough) (ground arith) refl
              refl
          ∙ ap (λ (m : ℕ → ℕ). m (p + i)) a.same_bytes;
      kept = λ b out.
          ap (λ (m : ℕ → ℕ). m b) f.same_bytes
          ∙ memcpy_outside h1.mem q p (cpsize size n) b (cpsize-outside q n size b out)
          ∙ ap (λ (m : ℕ → ℕ). m b) a.same_bytes;
    }

-- `realloc` of a block in use to a size that is not 0 returns a block that is large enough and
-- holds the old block's first bytes; every other block stays where it is, no byte changes outside
-- the `size` bytes of the block returned, and the heap is valid.
pub realloc-Resized :
    (p n size : ℕ) {h : Heap}
    → IsValid h
    → block_size p (live h.segs) ≡ some n
    → size ≢ 0
    → h.heap_size + size + min_expand_size ≤ heap_max
    → (q : ℕ) × (h' : Heap) × (realloc p size h ≡ ok (q, h')) × Resized h p n size q h'
unfolding realloc
realloc-Resized p n size {h} v b ne fits =
    let l = live-HasSeg p n h.segs b in
    let (at, inside) = header_of-live p v false l in
    let (s, found, z) = find_seg-live p n (heap_begin + h.heap_size) h.segs v.tiles b in
    let low =
      block_size-bounds p n (heap_begin + h.heap_size) (live h.segs)
        (live-Descends _ h.segs v.tiles) b in
    let not_null : (p == 0) ≡ false = ground arith in
    let not_zero : (size == 0) ≡ false = ground arith in
    elim (Bool-cases (ltb size n && (ltb (n / 2) size || ltb (n - size) (min_segment_size * 2)))) [
      | inl near ↦ (
        p,
        h,
        rw (not_null, not_zero, at, found, z, near),
        record {
          valid = v;
          granted = n;
          block = b;
          enough = ground arith;
          others = refl;
          copied = λ i hn hs. refl;
          kept = λ b out. refl;
        },
      )
      | inr far ↦
          (let (q, h1, run, a) = malloc-Allocated size v fits in
            let ne' = ne_of_new p n a b in
            let h1' = with_bytes h1 (memcpy h1.mem q p (cpsize size n)) in
            let v1 : IsValid h1' = record {
              tiles = a.valid.tiles;
              bound = a.valid.bound;
              mapped = a.valid.mapped;
              counted = a.valid.counted;
            } in
            let (h2, run', f) =
              free-Freed p {h = h1'} v1 (live-HasSeg p n h1.segs (Allocated_others a p ne' ∙ b)) in
            (q, h2, rw (not_null, not_zero, at, found, z, far, run, run'), copy-Resized p n b a f))
    ]
