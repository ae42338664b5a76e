-- ===== src/Heap/Malloc.antt =====
-- `malloc`: its rounds, and what it does to the blocks in use.
use bincows.Base.{
  ℕ, suc, ◌+◌, ◌-◌, ◌%◌, ◌^◌, ◌≤◌, ◌≡◌, refl, true, Option, none, some, List, ◌∷◌, ok, arith,
  length, leb, if◌then◌else◌, length-append, ap, ◌∙◌,
}
use bincows.Heap.{Seg, Heap, heap_begin, header_size, min_expand_size, occupy, fit, expand_heap}
use bincows.Heap.Api.{round_size, malloc_rounds, malloc}
use bincows.Heap.Tiling.{Tiles, live, IsValid, heap_max, length-live-Tiles}
use bincows.Heap.Fit.{Placed, Fitted, placed, fit-Fitted, fit_head, occupy-Tiles, occupy-Placed}

-- What an allocation of `size` bytes at `p` does to the heap.
pub record Allocated (h : Heap) (size p : ℕ) (h' : Heap) : Type 0 where
  pub valid : IsValid h'
  pub block : Placed (live h.segs) (live h'.segs) p size
  pub same_bytes : h'.mem ≡ h.mem
  pub grown : h.heap_size ≤ h'.heap_size

pub round_size_bounds :
    (size : ℕ)
    → size ≤ heap_max
    → (size ≤ round_size size)
      × (round_size size % 8 ≡ 0)
      × (round_size size ≤ size + 32)
      × (32 ≤ round_size size)
unfolding round_size
round_size_bounds size h = ground arith

round_size-round_size :
    (size : ℕ) → size ≤ heap_max → round_size (round_size size) ≡ round_size size
unfolding round_size
round_size-round_size size h = ground arith

-- `expand_heap` keeps the heap valid, whatever multiple of 8 it adds.
pub expand_heap-IsValid :
    (size : ℕ) {h : Heap}
    → IsValid h
    → header_size ≤ size
    → size % 8 ≡ 0
    → h.heap_size + size ≤ heap_max
    → IsValid (expand_heap size h)
unfolding expand_heap
expand_heap-IsValid size v room aligned fits = ground arith

length-Placed :
    {old new : List (ℕ × ℕ)} {p size : ℕ} → Placed old new p size → length new ≡ length old + 1
length-Placed q = omega (
  arith,
  ap length q.old_is,
  ap length q.new_is,
  length-append q.before q.after,
  length-append q.before ((_, q.granted) ∷ q.after),
)

put-Allocated :
    (h : Heap) (size p : ℕ) (segs : List Seg)
    → IsValid h
    → Tiles (heap_begin + h.heap_size) segs
    → Placed (live h.segs) (live segs) p size
    → Allocated h size p (record h { segs = segs; n_allocations = (h.n_allocations + 1) % 2 ^ 64 })
put-Allocated h size p segs v t q = record {
  valid = record {
    tiles = t;
    bound = v.bound;
    mapped = v.mapped;
    counted = omega (arith, length-Placed q, length-live-Tiles _ segs t, v.counted, v.bound);
  };
  block = q;
  same_bytes = refl;
  grown = omega arith;
}

-- The size by which a `malloc` that finds no room expands the heap.
abbrev growth : ℕ → ℕ
growth size =
    if leb min_expand_size (size + header_size) then size + header_size else min_expand_size

module _ (k size : ℕ) (h : Heap) where
  malloc_rounds_found :
      (p : ℕ) (segs : List Seg)
      → fit h.heap_size (round_size size) h.segs ≡ ok (some (p, segs))
      → malloc_rounds (suc k) size h
        ≡ ok (p, record h { segs = segs; n_allocations = (h.n_allocations + 1) % 2 ^ 64 })
  unfolding malloc_rounds
  malloc_rounds_found p segs e = rw e

  malloc_rounds_full :
      fit h.heap_size (round_size size) h.segs ≡ ok none
      → malloc_rounds (suc k) size h
        ≡ malloc_rounds k (round_size size) (expand_heap (growth (round_size size)) h)
  unfolding malloc_rounds
  malloc_rounds_full e = rw e

abbrev fresh : ℕ → Heap → Seg
fresh size h = record {
  addr = heap_begin + h.heap_size;
  size = (size - header_size) % 2 ^ 32;
  free = true;
}

-- Putting a block into the expanded heap.
Allocated-expand_heap :
    (more size p : ℕ) (h h' : Heap)
    → h.heap_size + more ≤ heap_max
    → Allocated (expand_heap more h) size p h'
    → Allocated h size p h'
unfolding expand_heap
Allocated-expand_heap more size p h h' fits a = record {
  valid = a.valid;
  block = a.block;
  same_bytes = a.same_bytes;
  grown = omega (arith, a.grown);
}

Placed-le : {old new : List (ℕ × ℕ)} {p m n : ℕ} → n ≤ m → Placed old new p m → Placed old new p n
Placed-le h q = record {
  before = q.before;
  after = q.after;
  granted = q.granted;
  enough = omega (arith, q.enough);
  old_is = q.old_is;
  new_is = q.new_is;
}

Allocated-le : {h h' : Heap} {p m n : ℕ} → n ≤ m → Allocated h m p h' → Allocated h n p h'
Allocated-le h a = record {
  valid = a.valid;
  block = Placed-le h a.block;
  same_bytes = a.same_bytes;
  grown = a.grown;
}

fit-expand_heap :
    (size : ℕ) {h : Heap}
    → IsValid h
    → size % 8 ≡ 0
    → h.heap_size + growth size ≤ heap_max
    → fit (expand_heap (growth size) h).heap_size size (expand_heap (growth size) h).segs
      ≡ ok (
          some (heap_begin + h.heap_size + header_size, occupy size (fresh (growth size) h) h.segs))
unfolding expand_heap
fit-expand_heap size {h} v aligned fits =
    fit_head ((h.heap_size + growth size) % 2 ^ 64) size (heap_begin + h.heap_size + growth size)
      (fresh (growth size) h) h.segs (omega arith) (ground arith) refl (ground arith)

expanded-Allocated :
    (size : ℕ) {h : Heap}
    → IsValid h
    → size % 8 ≡ 0
    → h.heap_size + growth size ≤ heap_max
    → Allocated
        (expand_heap (growth size) h)
        size
        (heap_begin + h.heap_size + header_size)
        (record (expand_heap (growth size) h) {
          segs = occupy size (fresh (growth size) h) h.segs;
          n_allocations = ((expand_heap (growth size) h).n_allocations + 1) % 2 ^ 64;
        })
unfolding expand_heap
expanded-Allocated size {h} v aligned fits =
    let w = expand_heap-IsValid (growth size) v (ground arith) (ground arith) fits in
    put-Allocated (expand_heap (growth size) h) size (heap_begin + h.heap_size + header_size)
      (occupy size (fresh (growth size) h) h.segs) w
      (occupy-Tiles _ size (fresh (growth size) h) h.segs (omega arith) (omega arith) aligned
        (ground arith) w.tiles)
      (occupy-Placed (heap_begin + h.heap_size) size (fresh (growth size) h) h.segs refl
        (ground arith))

-- Once the heap is expanded, the new segment serves the request.
malloc-expanded :
    (k size : ℕ) {h : Heap}
    → IsValid h
    → round_size size ≡ size
    → size % 8 ≡ 0
    → h.heap_size + growth size ≤ heap_max
    → (p : ℕ) × (h' : Heap) × (malloc_rounds (suc k) size (expand_heap (growth size) h)
        ≡ ok (p, h'))
      × Allocated h size p h'
malloc-expanded k size {h} v rounded aligned fits =
    let e = fit-expand_heap size v aligned fits in
    let h1 = expand_heap (growth size) h in
    let put = expanded-Allocated size v aligned fits in
    (
      heap_begin + h.heap_size + header_size,
      _,
      malloc_rounds_found k size h1 _ _ (rw rounded e),
      Allocated-expand_heap (growth size) size _ h _ fits put,
    )

after_fit :
    (size : ℕ) {h : Heap} (o : Option (ℕ × List Seg))
    → IsValid h
    → h.heap_size + size + min_expand_size ≤ heap_max
    → fit h.heap_size (round_size size) h.segs ≡ ok o
    → Fitted (heap_begin + h.heap_size) (round_size size) h.segs o
    → (p : ℕ) × (h' : Heap) × (malloc_rounds 2 size h ≡ ok (p, h')) × Allocated h size p h'
after_fit size {h} none v fits e f =
    let (rs, ra, rm, rl) = round_size_bounds size (omega arith) in
    let (p, h', run, a) =
      malloc-expanded 0 (round_size size) v (round_size-round_size size (omega arith)) ra
        (ground arith) in
    (p, h', malloc_rounds_full 1 size h e ∙ run, Allocated-le rs a)
after_fit size {h} (some (p, segs)) v fits e (placed t q) =
    let (rs, ra, rm, rl) = round_size_bounds size (omega arith) in
    (p, _, malloc_rounds_found 1 size h p segs e, put-Allocated h size p segs v t (Placed-le rs q))

-- While the address space has room, `malloc` returns: one block of the size asked for is added
-- to the blocks in use, all others stay as they are, and the heap is valid.
pub malloc-Allocated :
    (size : ℕ) {h : Heap}
    → IsValid h
    → h.heap_size + size + min_expand_size ≤ heap_max
    → (p : ℕ) × (h' : Heap) × (malloc size h ≡ ok (p, h')) × Allocated h size p h'
unfolding malloc
malloc-Allocated size {h} v fits =
    let (rs, ra, rm, rl) = round_size_bounds size (omega arith) in
    let (o, e, f) =
      fit-Fitted h.heap_size (round_size size) (heap_begin + h.heap_size) h.segs (omega arith)
        (omega (arith, v.bound)) ra v.tiles in
    after_fit size o v fits e f
