-- ===== src/Heap/Apart.antt =====
-- Where `malloc` puts a block, in kernel/memory/heap.c.
use bincows.Base.{
  ℕ, ◌+◌, ◌-◌, ◌*◌, ◌%◌, ◌^◌, ◌≤◌, ◌≡◌, ◌≢◌, ◌∙◌, ◌⊎◌, some, List, [], ◌∷◌, Bool-cases, inl, inr,
  ◌==◌, ok, arith,
}
use bincows.Heap.{Heap, heap_begin, header_size, min_expand_size}
use bincows.Heap.Api.{malloc}
use bincows.Heap.Tiling.{live, Descends, IsValid, heap_max, live-Descends}
use bincows.Heap.Malloc.{malloc-Allocated}
use bincows.Heap.Blocks.{block_size, block_size-bounds, block_size-disjoint}
use bincows.Heap.Realloc.{Allocated_new, Allocated_others, Allocated-block_size}

block_size-aligned :
    (p n top : ℕ) (bs : List (ℕ × ℕ)) → Descends top bs → block_size p bs ≡ some n → p % 8 ≡ 0
unfolding block_size
block_size-aligned p n top [] d e = cc
block_size-aligned p n top ((q, m) ∷ r) d e = elim (Bool-cases (q == p)) [
  | inl here ↦ (let same : q ≡ p = ground arith in omega (arith, d.2, same))
  | inr on ↦ block_size-aligned p n (q - header_size) r d.3 (ground (arith, e, on))
]

-- While the address space has room, `malloc` returns the address of `size` bytes that are aligned to 8
-- and lie in the mapped pages of the heap. They overlap no block that was in use before, and each of
-- these is still in use at its place and with its size.
pub malloc-apart :
    (size : ℕ) {h : Heap}
    → IsValid h
    → h.heap_size + size + min_expand_size ≤ heap_max
    → (p : ℕ) × (h' : Heap) × (malloc size h ≡ ok (p, h'))
      × (p % 8 ≡ 0)
      × (heap_begin ≤ p)
      × (p + size ≤ heap_begin + h'.pages * 2 ^ 12)
      × ((q n : ℕ)
          → block_size q (live h.segs) ≡ some n
          → (block_size q (live h'.segs) ≡ some n) × ((q + n ≤ p) ⊎ (p + size ≤ q)))
malloc-apart size {h} v fits =
    let (p, h', run, a) = malloc-Allocated size v fits in
    let down = live-Descends _ h'.segs a.valid.tiles in
    let here = Allocated-block_size a in
    let (low, high) = block_size-bounds p a.block.granted _ (live h'.segs) down here in
    (
      p,
      h',
      run,
      block_size-aligned p a.block.granted _ (live h'.segs) down here,
      omega (arith, low),
      omega (arith, high, a.block.enough, a.valid.mapped),
      λ q n used.
          (let ne : p ≢ q = λ e. cc (Allocated_new a) in
            let still = Allocated_others a q ne ∙ used in
            let ne' : q ≢ p = λ e. cc (Allocated_new a) in
            let apart =
              block_size-disjoint q n p a.block.granted _ (live h'.segs) down ne' still here in
            (still, ground (arith, apart, a.block.enough))),
    )
