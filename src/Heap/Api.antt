-- ===== src/Heap/Api.antt =====
-- The interface of kernel/memory/heap.c: `malloc`, `free`, `realloc` and their helpers.
use bincows.Base.{
  ℕ, zero, suc, ◌+◌, ◌-◌, ◌*◌, ◌/◌, ◌%◌, ◌^◌, Bool, true, false, not, ◌&&◌, ◌||◌, none, some, List,
  [], ◌∷◌, ltb, leb, ◌==◌, if◌then◌else◌, Outcome, ok, wild, no_fuel, ◌>>=◌, ◌>>◌, assert,
}
use bincows.Heap.{
  header_size, min_expand_size, min_segment_size, heap_begin, Seg, Heap, in_range, heap_assert_seg,
  next_addr, expand_heap, defragment, fit,
}

-- The size that `malloc` serves: a multiple of 8, and 32 at least.
unfoldable pub round_size : ℕ → ℕ
round_size size =
    let aligned = ((size + 7) % 2 ^ 64) / 8 * 8 in
    if ltb aligned min_segment_size then min_segment_size else aligned

-- `malloc` calls itself once the heap is expanded. The fuel counts these calls.
unfoldable pub malloc_rounds : ℕ → ℕ → Heap → Outcome (ℕ × Heap)
unfolding round_size fit expand_heap
malloc_rounds zero size h = no_fuel
malloc_rounds (suc k) size h =
    let size' = round_size size in
    let more =
      if leb min_expand_size (size' + header_size) then size' + header_size else min_expand_size in
    let retry = malloc_rounds k size' (expand_heap more h) in
    do
      found ← fit h.heap_size size' h.segs
      elim found [
        | none ↦ retry
        | some (p, segs) ↦
            ok (p, record h { segs = segs; n_allocations = (h.n_allocations + 1) % 2 ^ 64 })
      ]

unfoldable pub malloc : ℕ → Heap → Outcome (ℕ × Heap)
unfolding malloc_rounds
malloc size h = malloc_rounds 2 size h

unfoldable pub heap_init : Heap → Heap
unfolding expand_heap
heap_init h = expand_heap min_expand_size h

-- Marks the segment whose header stands at `a`; other memory is unknown.
unfoldable pub release : ℕ → ℕ → List Seg → Outcome (List Seg)
unfolding heap_assert_seg
release hs a [] = wild
release hs a (s ∷ r) =
    let later = (do r' ← release hs a r; ok (s ∷ r')) in
    if s.addr == a
    then (do
      heap_assert_seg hs s (next_addr r)
      assert (not s.free)
      ok (record s { free = true } ∷ r))
    else later

-- `ptr - sizeof(seg_header)`
abbrev pub header_of : ℕ → ℕ
header_of ptr = (ptr + 2 ^ 64 - header_size) % 2 ^ 64

unfoldable pub free : ℕ → Heap → Outcome Heap
unfolding release defragment
free ptr h = do
  assert (in_range h.heap_size (header_of ptr))
  segs ← release h.heap_size (header_of ptr) h.segs
  let marked : Heap = record h { segs = segs; n_frees = (h.n_frees + 1) % 2 ^ 32 }
  h' ← (if (h.n_frees % 32) == 0 then defragment marked else ok marked)
  ok (record h' { n_allocations = (h'.n_allocations + 2 ^ 64 - 1) % 2 ^ 64 })

unfoldable pub find_seg : ℕ → List Seg → Outcome Seg
find_seg a [] = wild
find_seg a (s ∷ r) = if s.addr == a then ok s else find_seg a r

-- `memcpy` of kernel/lib/string.c, a byte at a time
unfoldable pub memcpy : (ℕ → ℕ) → ℕ → ℕ → ℕ → ℕ → ℕ
memcpy mem dst src zero = mem
memcpy mem dst src (suc n) = memcpy (λ a. if a == dst then mem src else mem a) (dst + 1) (src + 1) n

unfoldable pub realloc : ℕ → ℕ → Heap → Outcome (ℕ × Heap)
realloc ptr size h =
    if ptr == 0 then malloc size h else if size == 0 then (do h' ← free ptr h; ok (0, h')) else (do
      header ← find_seg (header_of ptr) h.segs
      let near = ltb (header.size / 2) size || ltb (header.size - size) (min_segment_size * 2)
      if ltb size header.size && near then ok (ptr, h) else (do
        let cpsize = if ltb size header.size then size else header.size
        (new_ptr, h1) ← malloc size h
        h2 ← free ptr (record h1 { mem = memcpy h1.mem new_ptr ptr cpsize })
        ok (new_ptr, h2)))

unfoldable pub is_in_heap : ℕ → Heap → Outcome Bool
unfolding find_seg
is_in_heap p h =
    if ltb heap_begin p && ltb p (heap_begin + h.heap_size)
    then (do
      assert (in_range h.heap_size (header_of p))
      s ← find_seg (header_of p) h.segs
      ok (not s.free))
    else ok false
