-- ===== src/Pmm.antt =====
-- kernel/memory/pmm.c: the physical pages of a memory range in four levels of bitmaps, and the
-- lists of ranges. Bit `i` of a bitmap is bit `i % 8` of byte `i / 8` of the C array, and is set
-- where pages 1, 4, 8 or 16 at a time are taken.
pub mod Counting
pub mod Levels
pub mod Pages
pub mod Regions
pub mod Ranges
pub mod Freeing
mod Tests
use bincows.Base.{
  ℕ, zero, suc, ◌+◌, ◌-◌, ◌*◌, ◌/◌, ◌%◌, ◌^◌, Bool, true, false, not, ◌&&◌, ◌||◌, List, [], ◌∷◌,
  ltb, leb, ◌==◌, if◌then◌else◌, Outcome, ok, panic, wild, ◌>>=◌, ◌>>◌, assert,
}

abbrev pub Bitmap : Type 0
Bitmap = ℕ → Bool

abbrev pub set_bit : Bitmap → ℕ → Bool → Bitmap
set_bit m i v j = if j == i then v else m j

-- `struct MR_header`
pub record Header : Type 0 where
  pub available0 : ℕ
  pub available1 : ℕ
  pub available2 : ℕ
  pub available3 : ℕ
  pub bitmap0 : Bitmap
  pub bitmap1 : Bitmap
  pub bitmap2 : Bitmap
  pub bitmap3 : Bitmap

-- `x--` and `x++` on a `uint32_t`
abbrev pub dec32 : ℕ → ℕ
dec32 x = (x + 2 ^ 32 - 1) % 2 ^ 32

abbrev pub inc32 : ℕ → ℕ
inc32 x = (x + 1) % 2 ^ 32

-- The header of a range of `length` pages, the first of which holds the header.
abbrev pub fresh_header : ℕ → Header
fresh_header length = record {
  available0 = (length - 1) % 2 ^ 32;
  available1 = (length - 1 + 4 - 1) / 4 % 2 ^ 32;
  available2 = (length - 1 + 8 - 1) / 8 % 2 ^ 32;
  available3 = (length - 1 + 16 - 1) / 16 % 2 ^ 32;
  bitmap0 = λ _. false;
  bitmap1 = λ _. false;
  bitmap2 = λ _. false;
  bitmap3 = λ _. false;
}

-- The address of the range is aligned to a page, as an assertion wants it.
unfoldable pub init_header : ℕ → Outcome Header
init_header length = assert (ltb 1 length) >> ok (fresh_header length)

-- The counters of `alloc_page_bitmaps`.
unfoldable pub count_alloc : Header → ℕ → Header
count_alloc h page = record h {
  available0 = dec32 h.available0;
  available1 = if h.bitmap1 (page / 4) then h.available1 else dec32 h.available1;
  available2 = if h.bitmap2 (page / 8) then h.available2 else dec32 h.available2;
  available3 = if h.bitmap3 (page / 16) then h.available3 else dec32 h.available3;
}

unfoldable pub set_page : Header → ℕ → Header
set_page h page = record h {
  bitmap0 = set_bit h.bitmap0 page true;
  bitmap1 = set_bit h.bitmap1 (page / 4) true;
  bitmap2 = set_bit h.bitmap2 (page / 8) true;
  bitmap3 = set_bit h.bitmap3 (page / 16) true;
}

unfoldable pub alloc_page_bitmaps : Header → ℕ → Outcome Header
alloc_page_bitmaps h page = do
  assert (not (h.bitmap0 page))
  let c = count_alloc h page
  assert (not (c.available3 == 0xffff_ffff))
  assert (not (c.available2 == 0xffff_ffff))
  assert (not (c.available1 == 0xffff_ffff))
  assert (not (c.available0 == 0xffff_ffff))
  ok (set_page c page)

-- The groups of bits that the masks of `free_page_bitmaps` cut out.
abbrev pub any_of_4 : Bitmap → ℕ → Bool
any_of_4 m i = m (4 * i) || (m (4 * i + 1) || (m (4 * i + 2) || m (4 * i + 3)))

abbrev pub any_of_2 : Bitmap → ℕ → Bool
any_of_2 m i = m (2 * i) || m (2 * i + 1)

-- One level: the bit is cleared and counted where the group below it is empty.
abbrev pub clear_if : Bool → Bitmap → ℕ → Bitmap
clear_if used m i = if used then m else set_bit m i false

abbrev pub count_if : Bool → ℕ → ℕ
count_if used n = if used then n else inc32 n

unfoldable pub free_page_bitmaps : Header → ℕ → Outcome Header
free_page_bitmaps h page = do
  assert (h.bitmap0 page)
  assert (h.bitmap1 (page / 4))
  assert (h.bitmap2 (page / 8))
  assert (h.bitmap3 (page / 16))
  let lv0 = set_bit h.bitmap0 page false
  let used1 = any_of_4 lv0 (page / 4)
  let lv1 = clear_if used1 h.bitmap1 (page / 4)
  let used2 = any_of_2 lv1 (page / 8)
  let lv2 = clear_if used2 h.bitmap2 (page / 8)
  let used3 = any_of_2 lv2 (page / 16)
  ok (record {
    available0 = inc32 h.available0;
    available1 = count_if used1 h.available1;
    available2 = count_if used2 h.available2;
    available3 = count_if used3 h.available3;
    bitmap0 = lv0;
    bitmap1 = lv1;
    bitmap2 = lv2;
    bitmap3 = clear_if used3 h.bitmap3 (page / 16);
  })

-- `header->available[i]`
abbrev pub available : Header → ℕ → ℕ
available h i =
    if i == 0
    then h.available0
    else if i == 1
    then h.available1
    else if i == 2
    then h.available2
    else h.available3

-- `mr_lists`: ranges by their index in `memory_ranges_buffer`
abbrev pub Lists : Type 0
Lists = ℕ → List ℕ

abbrev pub put_list : Lists → ℕ → List ℕ → Lists
put_list ls i l j = if j == i then l else ls j

-- the list behind its first element, `range->next`
abbrev pub rest_of : List ℕ → List ℕ
rest_of [] = []
rest_of (r ∷ l) = l

-- `getMR`: the first range of the list of the largest blocks that is not empty, and the number of
-- that list, searched from list `i - 1` down.
unfoldable pub get_mr_from : ℕ → Lists → Outcome (ℕ × ℕ)
get_mr_from zero ls = panic
get_mr_from (suc i) ls = elim (ls i) [ [] ↦ get_mr_from i ls | r ∷ l ↦ ok (r, i) ]

unfoldable pub get_mr : Lists → Outcome (ℕ × ℕ)
unfolding get_mr_from
get_mr ls = get_mr_from 4 ls

-- The pages in one block of a list's bitmap.
unfoldable pub select_bitmap : Header → ℕ → Outcome (Bitmap × ℕ)
select_bitmap h id =
    if id == 0
    then ok (h.bitmap0, 1)
    else if id == 1
    then ok (h.bitmap1, 4)
    else if id == 2
    then ok (h.bitmap2, 8)
    else if id == 3
    then ok (h.bitmap3, 16)
    else panic

-- The loop of `move_region_if_full`, where `range` is on top of list `list_id`.
unfoldable pub move_region_if_full : ℕ → Header → ℕ → Lists → Bool × Lists
move_region_if_full range h zero ls =
    if not (h.available0 == 0) then (false, ls) else (true, put_list ls 0 (rest_of (ls 0)))
move_region_if_full range h (suc list_id) ls =
    let popped = put_list ls (suc list_id) (rest_of (ls (suc list_id))) in
    let lower =
      move_region_if_full range h list_id (put_list popped list_id (range ∷ popped list_id)) in
    if not (available h (suc list_id) == 0) then (false, ls) else (true, lower.1)

-- The end of `init_memory_range`: the range goes on top of one list. `i` lists are left to try.
unfoldable pub list_range : ℕ → ℕ → Header → Lists → Lists
list_range zero range h ls = ls
list_range (suc i) range h ls =
    let lower = list_range i range h ls in
    if available h i == 0 then lower else put_list ls i (range ∷ ls i)

unfoldable pub init_memory_range : ℕ → ℕ → Lists → Outcome (Header × Lists)
unfolding init_header list_range
init_memory_range range length ls = do h ← init_header length; ok (h, list_range 4 range h ls)
