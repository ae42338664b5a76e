-- ===== src/Heap.antt =====
-- kernel/memory/heap.c: the kernel's allocator. The list of headers that begins at
-- `current_segment` is a list of records, each with its address; a `next` pointer is the address
-- of the record behind it. Each operation runs with interrupts off, so it is one step.
pub mod Api
pub mod Tiling
pub mod Fit
pub mod Merge
pub mod Malloc
pub mod Free
pub mod Realloc
pub mod Apart
pub mod Blocks
mod Tests
use bincows.Base.{
  ℕ, zero, suc, ◌+◌, ◌-◌, ◌*◌, ◌/◌, ◌%◌, ◌^◌, Bool, true, false, not, ◌&&◌, ◌||◌, Option, none,
  some, List, [], ◌∷◌, ltb, leb, ◌==◌, if◌then◌else◌, Outcome, ok, wild, no_fuel, ◌>>=◌, ◌>>◌,
  assert,
}

-- KERNEL_HEAP_BEGIN
abbrev pub heap_begin : ℕ
heap_begin = 0xffff_ffff_8030_0000

-- `sizeof(seg_header)`
abbrev pub header_size : ℕ
header_size = 16

abbrev pub min_expand_size : ℕ
min_expand_size = 1024

abbrev pub min_segment_size : ℕ
min_segment_size = 32

-- `seg_header`, with the address where it stands. `next` is the order of the list.
pub record Seg : Type 0 where
  pub addr : ℕ
  pub size : ℕ
  pub free : Bool

-- The static variables of heap.c, `pages` mapped from `heap_begin` on, and the payload bytes.
pub record Heap : Type 0 where
  pub segs : List Seg
  pub heap_size : ℕ
  pub pages : ℕ
  pub n_allocations : ℕ
  pub n_frees : ℕ
  pub mem : ℕ → ℕ

-- `seg->next`, `none` for NULL
abbrev pub next_addr : List Seg → Option ℕ
next_addr [] = none
next_addr (s ∷ _) = some s.addr

abbrev pub in_range : ℕ → ℕ → Bool
in_range hs a = leb heap_begin a && ltb a (heap_begin + hs)

abbrev pub next_in_range : ℕ → Option ℕ → Bool
next_in_range hs none = true
next_in_range hs (some a) = in_range hs a

unfoldable pub heap_assert_seg : ℕ → Seg → Option ℕ → Outcome (Unit {0})
heap_assert_seg hs s next = do
  assert (in_range hs s.addr)
  assert (leb (s.addr + s.size) (heap_begin + hs))
  assert (next_in_range hs next)

unfoldable pub expand_heap : ℕ → Heap → Heap
expand_heap size h =
    let old_pages = (h.heap_size + 0xfff) % 2 ^ 64 / 2 ^ 12 in
    let new_pages = (h.heap_size + size + 0xfff) % 2 ^ 64 / 2 ^ 12 in
    let fresh : Seg = record {
      addr = heap_begin + h.heap_size;
      size = (size - header_size) % 2 ^ 32;
      free = true;
    } in
    record h {
      segs = fresh ∷ h.segs;
      heap_size = (h.heap_size + size) % 2 ^ 64;
      pages = if new_pages == old_pages then h.pages else h.pages + (new_pages - old_pages);
    }

unfoldable pub defragment_from : ℕ → Seg → List Seg → Outcome (List Seg)
defragment_from hs pred [] = ok (pred ∷ [])
defragment_from hs pred (seg ∷ r) =
    let joined : Seg = record seg { size = (seg.size + (header_size + pred.size)) % 2 ^ 32 } in
    let merged = defragment_from hs joined r in
    let kept = (do rest ← defragment_from hs seg r; ok (pred ∷ rest)) in
    heap_assert_seg hs seg (next_addr r) >> (if seg.free && pred.free then merged else kept)

unfoldable pub defragment_segs : ℕ → List Seg → Outcome (List Seg)
unfolding defragment_from heap_assert_seg
defragment_segs hs [] = Outcome.panic
defragment_segs hs (pred ∷ r) = defragment_from hs pred r

unfoldable pub defragment : Heap → Outcome Heap
unfolding defragment_segs
defragment h = do segs ← defragment_segs h.heap_size h.segs; ok (record h { segs = segs })

-- The new segment, then the one that is split.
unfoldable pub split_segment : Seg → ℕ → Seg × Seg
split_segment s size = (
  record {
    addr = s.addr + header_size + size;
    size = (s.size - size - header_size) % 2 ^ 32;
    free = true;
  },
  record s { size = size },
)

-- What the loop of `malloc` puts in the place of the segment that it has found.
unfoldable pub occupy : ℕ → Seg → List Seg → List Seg
unfolding split_segment
occupy size s r =
    if leb (size + header_size + min_segment_size) s.size
    then (let (fresh, s') = split_segment s size in fresh ∷ record s' { free = false } ∷ r)
    else (record s { free = false } ∷ r)

-- Puts a segment that the loop has passed back in front of what the loop leaves.
abbrev pub passed : Seg → Option (ℕ × List Seg) → Option (ℕ × List Seg)
passed s none = none
passed s (some (p, r)) = some (p, s ∷ r)

-- The loop of `malloc`: the first free segment that is large enough.
unfoldable pub fit : ℕ → ℕ → List Seg → Outcome (Option (ℕ × List Seg))
unfolding occupy heap_assert_seg
fit hs size [] = ok none
fit hs size (s ∷ r) =
    let past = (do found ← fit hs size r; ok (passed s found)) in
    heap_assert_seg hs s (next_addr r)
    >> (if not s.free || ltb s.size size
        then past
        else ok (some (s.addr + header_size, occupy size s r)))
