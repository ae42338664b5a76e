-- ===== src/Pmm/Tests.antt =====
-- The theorems at a range of 100 pages.
use bincows.Base.{
  ◌*◌, ℕ, inl, panic, ◌+◌, ◌≡◌, ◌==◌, refl, [], ◌∷◌, true, false, ok, arith, if◌then◌else◌,
}
use bincows.Pmm.{
  Header, Lists, set_bit, fresh_header, count_alloc, set_page, alloc_page_bitmaps,
  free_page_bitmaps, move_region_if_full,
}
use bincows.Pmm.Pages.{
  IsHeader, fresh_header-IsHeader, set_page-IsHeader, alloc_page_bitmaps-IsHeader,
  free_page_bitmaps-IsHeader,
}
use bincows.Pmm.Ranges.{MemoryRange, Memory, physfree}
use bincows.Pmm.Freeing.{IsSorted, page_at, Freed, physfree-Freed, physfree-panic}

abbrev fresh : Header
fresh = fresh_header 100

fresh-IsHeader : IsHeader 99 fresh
fresh-IsHeader = fresh_header-IsHeader 100 (omega arith) (omega arith)

-- the range with page 42 allocated
abbrev used : Header
unfolding count_alloc set_page
used = set_page (count_alloc fresh 42) 42

used-IsHeader : IsHeader 99 (set_page (count_alloc fresh 42) 42)
used-IsHeader = set_page-IsHeader 99 42 fresh-IsHeader (omega arith) (omega arith) refl

alloc_page_bitmaps-IsHeader_example :
    (h' : Header) × (alloc_page_bitmaps fresh 42 ≡ ok h')
    × IsHeader 99 h'
    × (h'.bitmap0 ≡ set_bit fresh.bitmap0 42 true)
    × (h'.available0 + 1 ≡ 99)
alloc_page_bitmaps-IsHeader_example =
    alloc_page_bitmaps-IsHeader 99 42 fresh-IsHeader (omega arith) (omega arith) refl

free_page_bitmaps-IsHeader_example :
    (h' : Header) × (free_page_bitmaps (set_page (count_alloc fresh 42) 42) 42 ≡ ok h')
    × IsHeader 99 h'
    × (h'.bitmap0 ≡ set_bit (set_page (count_alloc fresh 42) 42).bitmap0 42 false)
    × (h'.available0 ≡ (set_page (count_alloc fresh 42) 42).available0 + 1)
unfolding count_alloc set_page
free_page_bitmaps-IsHeader_example =
    free_page_bitmaps-IsHeader 99 42 used-IsHeader (omega arith) (omega arith) refl

-- One more than 16 pages: the last block of 16 is the seventeenth page alone.
free_counts : (fresh_header 18).available3 ≡ 2
free_counts = refl

-- A range with no block left but two pages, on list 3.
abbrev nearly_full : Header
nearly_full = record fresh { available0 = 2; available1 = 0; available2 = 0; available3 = 0 }

abbrev lists : Lists
lists i = if i == 3 then 7 ∷ 8 ∷ [] else if i == 0 then 9 ∷ [] else []

moved_down : (move_region_if_full 7 nearly_full 3 lists).1 0 ≡ 7 ∷ 9 ∷ []
unfolding move_region_if_full
moved_down = refl

-- Three ranges of 99 pages, in each of which page 42 is taken
abbrev range_of : ℕ → MemoryRange
range_of i = record { base = 0x100000 * (i + 1); length = 99 }

abbrev memory : Memory
memory = record {
  n_ranges = 3;
  ranges = range_of;
  headers = λ i. used;
  total_available_pages = 294;
  mem = λ a. 7;
}

memory-IsSorted : IsSorted 3 range_of
memory-IsSorted = record { apart = λ i j lt in_. omega arith }

physfree-Freed_example :
    (w' : Memory) × (physfree (page_at (range_of 1) 42) memory ≡ ok w') × Freed 1 42 memory w'
unfolding count_alloc set_page
physfree-Freed_example =
    physfree-Freed memory 1 42 memory-IsSorted (omega arith) (omega arith) (omega arith) refl
      used-IsHeader refl (inl (λ e. ground arith))

physfree-panic_example : physfree (page_at (range_of 2) 98) memory ≡ panic
physfree-panic_example = physfree-panic memory 2 98 memory-IsSorted refl refl
