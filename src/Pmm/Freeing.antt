-- ===== src/Pmm/Freeing.antt =====
-- The range that `get_memory_range` finds for a page, and the free of that page.
use mathlib.Core.Path.{subst}
use bincows.Base.{
  ℕ, zero, suc, ◌+◌, ◌-◌, ◌*◌, ◌/◌, ◌%◌, ◌^◌, ◌≤◌, ◌<◌, ◌≡◌, ◌≢◌, ◌⊎◌, inl, inr, Bool-cases, refl,
  sym, true, false, ltb, leb, ◌==◌, arith, ok, panic, >>=-run, >>=-panic,
}
use bincows.Pmm.{set_bit}
use bincows.Pmm.Pages.{IsHeader, max_length, free_page_bitmaps-IsHeader}
use bincows.Pmm.Ranges.{
  MemoryRange, Memory, last_page, search_range, get_memory_range, put_header, clear_page, physfree,
}

-- The ranges come one after the other, each with its header and its pages.
pub record IsSorted (n : ℕ) (ranges : ℕ → MemoryRange) : Type 0 where
  pub apart :
      (i j : ℕ)
      → i < j
      → j < n
      → (ranges i).base + (suc (ranges i).length) * 0x1000 ≤ (ranges j).base

-- Page `p` of a range
abbrev pub page_at : MemoryRange → ℕ → ℕ
page_at r p = r.base + suc p * 0x1000

module _ (n : ℕ) (ranges : ℕ → MemoryRange) (v : IsSorted n ranges) (k p : ℕ) (inside : k < n)
    (page : p < (ranges k).length) where
  -- The page is before the next ranges and behind the bases of the former ones.
  page_before : (j : ℕ) → k < j → j < n → page_at (ranges k) p < (ranges j).base
  page_before j lt in_ = omega (arith, v.apart k j lt in_)

  page_after : (i : ℕ) → i < k → last_page (ranges i) < page_at (ranges k) p
  page_after i lt = omega (arith, v.apart i k lt inside)

  search_range-found :
      (fuel a b : ℕ)
      → a ≤ k
      → k < b
      → b < n
      → b ≤ fuel + a
      → search_range fuel ranges (page_at (ranges k) p) a b ≡ ok k
  unfolding search_range
  search_range-found zero a b low high in_ enough = absurd (omega arith)
  search_range-found (suc fuel) a b low high in_ enough = elim (Bool-cases (a == k)) [
    | inl here ↦
        (let same : a ≡ k = ground arith in
          let stop : ltb (last_page (ranges k)) (page_at (ranges k) p) ≡ false =
            ground (arith, page) in
          let not_base : (page_at (ranges k) p == (ranges k).base) ≡ false = ground arith in
          subst (λ x. search_range (suc fuel) ranges (page_at (ranges k) p) x b ≡ ok k) (sym same)
            (rw (search_range, stop, not_base)))
    | inr lower ↦
        (let c = (a + b) / 2 in
          let on : ltb (last_page (ranges a)) (page_at (ranges k) p) ≡ true =
            ground (arith, page_after a) in
          elim (Bool-cases (leb c k)) [
            | inl left ↦
                (let test : ltb (page_at (ranges k) p) (ranges c).base ≡ false =
                    elim (Bool-cases (c == k)) [
                      | inl here ↦ (let same : c ≡ k = ground arith in rw same (ground arith))
                      | inr other ↦ ground (arith, page_after c)
                    ] in
                  rw (search_range, on, test)
                    (search_range-found fuel c b (ground arith) high in_ (ground arith)))
            | inr right ↦
                (let test : ltb (page_at (ranges k) p) (ranges c).base ≡ true =
                    ground (arith, page_before c) in
                  rw (search_range, on, test)
                    (search_range-found fuel a c low (ground arith) (ground arith) (ground arith)))
          ])
  ]

module _ (w : Memory) (v : IsSorted w.n_ranges w.ranges) (k p : ℕ) (inside : k < w.n_ranges)
    (page : p < (w.ranges k).length) where
  -- The range of a page is found, unless the page is the last one of the last range.
  get_memory_range-found :
      (suc k ≢ w.n_ranges) ⊎ (suc p ≢ (w.ranges k).length)
      → get_memory_range (page_at (w.ranges k) p) w ≡ ok k
  unfolding get_memory_range
  get_memory_range-found early =
      let some_range : (w.n_ranges == 0) ≡ false = ground arith in
      elim (Bool-cases (suc k == w.n_ranges)) [
        | inl last ↦
            (let is_last : w.n_ranges - 1 ≡ k = ground arith in
              let above : ltb (w.ranges k).base (page_at (w.ranges k) p) ≡ true = ground arith in
              let below : ltb (page_at (w.ranges k) p) (last_page (w.ranges k)) ≡ true =
                ground (arith, early, page) in
              rw (some_range, is_last, above, below))
        | inr other ↦
            (let last_is = w.n_ranges - 1 in
              let below : ltb (w.ranges last_is).base (page_at (w.ranges k) p) ≡ false =
                ground (arith, page_before w.n_ranges w.ranges v k p inside page last_is) in
              let above : ltb (w.ranges 0).base (page_at (w.ranges k) p) ≡ true =
                elim (Bool-cases (k == 0)) [
                  | inl first ↦ (let same : k ≡ 0 = ground arith in rw same (ground arith))
                  | inr later ↦ ground (arith, page_after w.n_ranges w.ranges v k p inside page 0)
                ] in
              rw (some_range, below, above)
                (search_range-found w.n_ranges w.ranges v k p inside page w.n_ranges 0 last_is
                  (omega arith) (ground arith) (ground arith) (omega arith)))
      ]

  -- The last page of the last range fails an assertion.
  get_memory_range-last :
      suc k ≡ w.n_ranges
      → suc p ≡ (w.ranges k).length
      → get_memory_range (page_at (w.ranges k) p) w ≡ panic
  unfolding get_memory_range
  get_memory_range-last last end_ =
      let some_range : (w.n_ranges == 0) ≡ false = ground arith in
      let is_last : w.n_ranges - 1 ≡ k = omega arith in
      let above : ltb (w.ranges k).base (page_at (w.ranges k) p) ≡ true = ground arith in
      let below : ltb (page_at (w.ranges k) p) (last_page (w.ranges k)) ≡ false =
        ground (arith, end_) in
      rw (some_range, is_last, above, below)

-- What a free of page `p` of range `k` does
pub record Freed (k p : ℕ) (w w' : Memory) : Type 0 where
  pub header : IsHeader (w.ranges k).length (w'.headers k)
  pub bits : (w'.headers k).bitmap0 ≡ set_bit (w.headers k).bitmap0 p false
  pub others : (r : ℕ) → r ≢ k → w'.headers r ≡ w.headers r
  pub total : w'.total_available_pages ≡ (w.total_available_pages + 1) % 2 ^ 32
  pub zeroed : (i : ℕ) → i < 0x1000 → w'.mem (page_at (w.ranges k) p + i) ≡ 0
  pub outside :
      (a : ℕ)
      → (a < page_at (w.ranges k) p) ⊎ (page_at (w.ranges k) p + 0x1000 ≤ a)
      → w'.mem a ≡ w.mem a

module _ (w : Memory) (k p : ℕ) where
  -- A free of a page in use gives exactly this page back to its range, counts it and clears it. Left out is
  -- the last page of the last range.
  pub physfree-Freed :
      IsSorted w.n_ranges w.ranges
      → k < w.n_ranges
      → p < (w.ranges k).length
      → (w.ranges k).length ≤ max_length
      → (w.ranges k).base % 0x1000 ≡ 0
      → IsHeader (w.ranges k).length (w.headers k)
      → (w.headers k).bitmap0 p ≡ true
      → (suc k ≢ w.n_ranges) ⊎ (suc p ≢ (w.ranges k).length)
      → (w' : Memory) × (physfree (page_at (w.ranges k) p) w ≡ ok w') × Freed k p w w'
  unfolding physfree
  physfree-Freed v inside page small aligned header used early =
      let (h, run, header', bits, _) =
        free_page_bitmaps-IsHeader (w.ranges k).length p header page small used in
      let test : (page_at (w.ranges k) p % 0x1000 == 0) ≡ true = ground arith in
      let position : ((page_at (w.ranges k) p - (w.ranges k).base) / 0x1000 + 2 ^ 32 - 1) % 2 ^ 32
          ≡ p =
        ground (arith, page, small) in
      (
        record w {
          headers = put_header k h w.headers;
          mem = clear_page (page_at (w.ranges k) p) w.mem;
          total_available_pages = (w.total_available_pages + 1) % 2 ^ 32;
        },
        rw test (
            >>=-run _ (get_memory_range-found w v k p inside page early)
              (rw position (>>=-run _ run refl))),
        record {
          header = ground arith;
          bits = ground arith;
          others = λ r other. ground arith;
          total = refl;
          zeroed = λ i lt. ground arith;
          outside = λ a apart. ground arith;
        },
      )

  -- The last page of the last range cannot be given back: an assertion of get_memory_range fails.
  pub physfree-panic :
      IsSorted w.n_ranges w.ranges
      → suc k ≡ w.n_ranges
      → suc p ≡ (w.ranges k).length
      → physfree (page_at (w.ranges k) p) w ≡ panic
  unfolding physfree
  physfree-panic v last end_ =
      let found = get_memory_range-last w v k p (omega arith) (omega arith) last end_ in
      elim (Bool-cases (page_at (w.ranges k) p % 0x1000 == 0)) [
        | inl test ↦ rw test (>>=-panic _ found)
        | inr test ↦ rw test
      ]
