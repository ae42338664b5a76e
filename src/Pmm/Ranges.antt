-- ===== src/Pmm/Ranges.antt =====
-- `get_memory_range` and `physfree` of kernel/memory/pmm.c. The ranges are sorted by their address,
-- and the header of a range stands in the page at its base.
use bincows.Base.{
  ℕ, zero, suc, ◌+◌, ◌-◌, ◌*◌, ◌/◌, ◌%◌, ◌^◌, true, false, not, ◌&&◌, ltb, leb, ◌==◌, if◌then◌else◌,
  Outcome, ok, wild, no_fuel, ◌>>=◌, ◌>>◌, assert,
}
use bincows.Pmm.{Header, free_page_bitmaps}

-- `struct memory_range`: `length` pages behind the header
pub record MemoryRange : Type 0 where
  pub base : ℕ
  pub length : ℕ

-- `memory_ranges_buffer` with its headers, and the memory of the machine
pub record Memory : Type 0 where
  pub n_ranges : ℕ
  pub ranges : ℕ → MemoryRange
  pub headers : ℕ → Header
  pub total_available_pages : ℕ
  pub mem : ℕ → ℕ

-- The address behind the last page but one of a range, which is that of its last page
abbrev pub last_page : MemoryRange → ℕ
last_page r = r.base + r.length * 0x1000

-- The loop of `get_memory_range`, whose rounds the fuel bounds
unfoldable pub search_range : ℕ → (ℕ → MemoryRange) → ℕ → ℕ → ℕ → Outcome ℕ
search_range zero ranges addr a b = no_fuel
search_range (suc k) ranges addr a b = elim (ltb (last_page (ranges a)) addr) [
  | false ↦ assert (not (addr == (ranges a).base)) >> ok a
  | true ↦
      (let c = (a + b) / 2 in
        elim (ltb addr (ranges c).base) [
          | true ↦ search_range k ranges addr a c
          | false ↦ search_range k ranges addr c b
        ])
]

-- With no range, `n_ranges-1` is an index behind the buffer.
unfoldable pub get_memory_range : ℕ → Memory → Outcome ℕ
unfolding search_range
get_memory_range addr w =
    if w.n_ranges == 0
    then wild
    else (let b = w.n_ranges - 1 in
        if ltb (w.ranges b).base addr
        then (assert (ltb addr (last_page (w.ranges b))) >> ok b)
        else (assert (ltb (w.ranges 0).base addr) >> search_range w.n_ranges w.ranges addr 0 b))

abbrev pub put_header : ℕ → Header → (ℕ → Header) → ℕ → Header
put_header r h headers i = if i == r then h else headers i

-- `memset(…, 0, 0x1000)`
abbrev pub clear_page : ℕ → (ℕ → ℕ) → ℕ → ℕ
clear_page addr mem a = if leb addr a && ltb a (addr + 0x1000) then 0 else mem a

unfoldable pub physfree : ℕ → Memory → Outcome Memory
unfolding get_memory_range
physfree addr w = do
  assert (addr % 0x1000 == 0)
  r ← get_memory_range addr w
  h ← free_page_bitmaps (w.headers r) (((addr - (w.ranges r).base) / 0x1000 + 2 ^ 32 - 1) % 2 ^ 32)
  ok (record w {
    headers = put_header r h w.headers;
    mem = clear_page addr w.mem;
    total_available_pages = (w.total_available_pages + 1) % 2 ^ 32;
  })
