-- ===== src/Heap/Tests.antt =====
-- Runs of the allocator on a small heap, and the theorems there.
use bincows.Base.{
  ℕ, ◌+◌, ◌≤◌, ◌^◌, ◌*◌, ◌%◌, ◌≡◌, ◌⊎◌, some, refl, inl, inr, [], ◌∷◌, true, false, Outcome, ok,
  ◌>>=◌, arith,
}
use bincows.Heap.{Heap, heap_begin, defragment}
use bincows.Heap.Api.{heap_init, malloc, free, realloc}
use bincows.Heap.Tiling.{live, IsValid}
use bincows.Heap.Malloc.{Allocated, malloc-Allocated}
use bincows.Heap.Merge.{Defragmented, defragment-Defragmented}
use bincows.Heap.Free.{Freed, free-Freed}
use bincows.Heap.Blocks.{block_size}
use bincows.Heap.Apart.{malloc-apart}
use bincows.Heap.Realloc.{Resized, realloc-Resized, free-malloc}

abbrev none_yet : Heap
none_yet = record {
  segs = [];
  heap_size = 0;
  pages = 0;
  n_allocations = 0;
  n_frees = 1;
  mem = λ _. 0;
}

run : Outcome (Heap)
unfolding malloc free heap_init defragment
run = do
  (p, h) ← malloc 40 (heap_init none_yet)
  (q, h) ← malloc 5 h
  (r, h) ← malloc 2000 h
  h ← free p h
  h ← free q h
  defragment h

-- The block of 2000 bytes is in use, and all below it is one free segment.
run_segs :
    run
    ≡ ok (record {
      segs =
          record { addr = heap_begin + 1024; size = 2000; free = false }
          ∷ record { addr = heap_begin; size = 1008; free = true }
          ∷ [];
      heap_size = 3040;
      pages = 1;
      n_allocations = 1;
      n_frees = 3;
      mem = λ _. 0;
    })
unfolding run
run_segs = refl

-- A free segment, a block of 32 bytes, another free segment and a block of 40 bytes.
abbrev sample : Heap
sample = record {
  segs =
      record { addr = heap_begin + 152; size = 856; free = true }
      ∷ record { addr = heap_begin + 104; size = 32; free = false }
      ∷ record { addr = heap_begin + 56; size = 32; free = true }
      ∷ record { addr = heap_begin; size = 40; free = false }
      ∷ [];
  heap_size = 1024;
  pages = 1;
  n_allocations = 2;
  n_frees = 0;
  mem = λ a. a;
}

sample-IsValid : IsValid sample
sample-IsValid = omega arith

malloc-Allocated_example :
    (p : ℕ) × (h' : Heap) × (malloc 100 sample ≡ ok (p, h')) × Allocated sample 100 p h'
malloc-Allocated_example = malloc-Allocated 100 sample-IsValid (omega arith)

realloc-Resized_example :
    (q : ℕ) × (h' : Heap) × (realloc (heap_begin + 120) 500 sample ≡ ok (q, h'))
    × Resized sample (heap_begin + 120) 32 500 q h'
unfolding block_size
realloc-Resized_example =
    realloc-Resized (heap_begin + 120) 32 500 sample-IsValid refl (omega arith) (omega arith)

free-malloc_example :
    (p : ℕ) × (h1 h2 : Heap) × (malloc 900 sample ≡ ok (p, h1))
    × (free p h1 ≡ ok h2)
    × IsValid h2
    × (live h2.segs ≡ live sample.segs)
    × (h2.mem ≡ sample.mem)
free-malloc_example = free-malloc 900 sample-IsValid (omega arith)

free-Freed_example :
    (h' : Heap) × (free (heap_begin + 120) sample ≡ ok h') × Freed sample (heap_begin + 120) h'
free-Freed_example = free-Freed (heap_begin + 120) sample-IsValid (inr (inl (refl, refl)))

malloc-apart_example :
    (p : ℕ) × (h' : Heap) × (malloc 100 sample ≡ ok (p, h'))
    × (p % 8 ≡ 0)
    × (heap_begin ≤ p)
    × (p + 100 ≤ heap_begin + h'.pages * 2 ^ 12)
    × ((q n : ℕ)
        → block_size q (live sample.segs) ≡ some n
        → (block_size q (live h'.segs) ≡ some n) × ((q + n ≤ p) ⊎ (p + 100 ≤ q)))
malloc-apart_example = malloc-apart 100 sample-IsValid (omega arith)

defragment-Defragmented_example : (h' : Heap) × (defragment sample ≡ ok h') × Defragmented sample h'
defragment-Defragmented_example = defragment-Defragmented sample-IsValid (λ e. cc)
