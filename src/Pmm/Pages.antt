-- ===== src/Pmm/Pages.antt =====
-- `alloc_page_bitmaps` and `free_page_bitmaps`, and when the levels and counters are consistent.
use bincows.Base.{
  ℕ, zero, suc, ◌+◌, ◌-◌, ◌/◌, ◌≤◌, ◌<◌, ◌≡◌, ◌∙◌, refl, sym, Bool, true, false, ◌==◌,
  if◌then◌else◌, arith, Bool-cases, inl, inr, ok, panic,
}
use bincows.Pmm.{
  Bitmap, Header, set_bit, any_of_4, any_of_2, clear_if, count_if, dec32, inc32, fresh_header,
  init_header, count_alloc, set_page, alloc_page_bitmaps, free_page_bitmaps,
}
use bincows.Pmm.Counting.{
  free_below, free_below-le, free_below-set, free_below-clear, free_below_taken,
}
use bincows.Pmm.Levels.{Covers4, Covers2, Covers4-set, Covers2-set, Covers4-clear, Covers2-clear}

-- A range of `len` pages: each level covers the one below it, and each counter is the number of
-- clear bits of its level.
pub record IsHeader (len : ℕ) (h : Header) : Type 0 where
  pub level1 : Covers4 h.bitmap0 h.bitmap1
  pub level2 : Covers2 h.bitmap1 h.bitmap2
  pub level3 : Covers2 h.bitmap2 h.bitmap3
  pub count0 : h.available0 ≡ free_below h.bitmap0 len
  pub count1 : h.available1 ≡ free_below h.bitmap1 ((len + 3) / 4)
  pub count2 : h.available2 ≡ free_below h.bitmap2 ((len + 7) / 8)
  pub count3 : h.available3 ≡ free_below h.bitmap3 ((len + 15) / 16)

-- The most pages that a range has behind its header.
abbrev pub max_length : ℕ
max_length = 16384 - 1

free_below_none : (n : ℕ) → free_below (λ _. false) n ≡ n
unfolding free_below
free_below_none zero = refl
free_below_none (suc n) = omega (arith, free_below_none n)

pub fresh_header-IsHeader :
    (length : ℕ) → 1 < length → length ≤ 16384 → IsHeader (length - 1) (fresh_header length)
fresh_header-IsHeader length h small = record {
  level1 = λ i. refl;
  level2 = λ i. refl;
  level3 = λ i. refl;
  count0 = omega (arith, free_below_none (length - 1));
  count1 = omega (arith, free_below_none ((length - 1 + 3) / 4));
  count2 = omega (arith, free_below_none ((length - 1 + 7) / 8));
  count3 = omega (arith, free_below_none ((length - 1 + 15) / 16));
}

-- A fresh range is consistent, and all its pages but the header's are free.
pub init_header-IsHeader :
    (length : ℕ)
    → 1 < length
    → length ≤ 16384
    → (h : Header) × (init_header length ≡ ok h)
      × IsHeader (length - 1) h
      × (h.available0 ≡ length - 1)
unfolding init_header
init_header-IsHeader length h small =
    (fresh_header length, ground arith, fresh_header-IsHeader length h small, omega arith)

module _ (m : Bitmap) (i n c : ℕ) (inside : i < n) (small : n ≤ max_length)
    (counted : c ≡ free_below m n) where
  -- One level of an allocation.
  counted-set : (if m i then c else dec32 c) ≡ free_below (set_bit m i true) n
  counted-set = elim (Bool-cases (m i)) [
    | inl taken ↦ rw taken (counted ∙ sym (free_below_taken m i n taken))
    | inr open_ ↦ rw open_ (omega (arith, free_below-set m i n inside open_, free_below-le m n))
  ]

  counted_ne : (free_below (set_bit m i true) n == 0xffff_ffff) ≡ false
  counted_ne = ground (arith, free_below-le (set_bit m i true) n)

  -- One level of a free.
  counted-clear : (used : Bool) → m i ≡ true → count_if used c ≡ free_below (clear_if used m i) n
  counted-clear true set = counted
  counted-clear false set = omega (arith, free_below-clear m i n inside set, free_below-le m n)

module _ (len page : ℕ) {h : Header} (v : IsHeader len h) (inside : page < len)
    (small : len ≤ max_length) where
  alloc-counts :
      h.bitmap0 page ≡ false
      → (let g = count_alloc h page in
          (g.available0 ≡ free_below (set_bit h.bitmap0 page true) len)
          × (g.available1 ≡ free_below (set_bit h.bitmap1 (page / 4) true) ((len + 3) / 4))
          × (g.available2 ≡ free_below (set_bit h.bitmap2 (page / 8) true) ((len + 7) / 8))
          × (g.available3 ≡ free_below (set_bit h.bitmap3 (page / 16) true) ((len + 15) / 16)))
  unfolding count_alloc
  alloc-counts open_ = (
    omega (
      arith,
      v.count0,
      free_below-set h.bitmap0 page len inside open_,
      free_below-le h.bitmap0 len,
    ),
    counted-set h.bitmap1 (page / 4) ((len + 3) / 4) h.available1 (omega arith) (omega arith)
        v.count1,
    counted-set h.bitmap2 (page / 8) ((len + 7) / 8) h.available2 (omega arith) (omega arith)
        v.count2,
    counted-set h.bitmap3 (page / 16) ((len + 15) / 16) h.available3 (omega arith) (omega arith)
        v.count3,
  )

  alloc-run :
      h.bitmap0 page ≡ false → alloc_page_bitmaps h page ≡ ok (set_page (count_alloc h page) page)
  unfolding alloc_page_bitmaps
  alloc-run open_ =
      let (c0, c1, c2, c3) = alloc-counts open_ in
      let n0 = counted_ne h.bitmap0 page len h.available0 inside small v.count0 in
      let n1 =
        counted_ne h.bitmap1 (page / 4) ((len + 3) / 4) h.available1 (omega arith) (omega arith)
          v.count1 in
      let n2 =
        counted_ne h.bitmap2 (page / 8) ((len + 7) / 8) h.available2 (omega arith) (omega arith)
          v.count2 in
      let n3 =
        counted_ne h.bitmap3 (page / 16) ((len + 15) / 16) h.available3 (omega arith) (omega arith)
          v.count3 in
      let m0 : ((count_alloc h page).available0 == 0xffff_ffff) ≡ false = rw c0 n0 in
      let m1 : ((count_alloc h page).available1 == 0xffff_ffff) ≡ false = rw c1 n1 in
      let m2 : ((count_alloc h page).available2 == 0xffff_ffff) ≡ false = rw c2 n2 in
      let m3 : ((count_alloc h page).available3 == 0xffff_ffff) ≡ false = rw c3 n3 in
      rw (open_, m3, m2, m1, m0)

  pub set_page-IsHeader : h.bitmap0 page ≡ false → IsHeader len (set_page (count_alloc h page) page)
  unfolding count_alloc set_page
  set_page-IsHeader open_ =
      let (c0, c1, c2, c3) = alloc-counts open_ in
      record {
        level1 = Covers4-set h.bitmap0 h.bitmap1 page (page / 4) v.level1 refl;
        level2 = Covers2-set h.bitmap1 h.bitmap2 (page / 4) (page / 8) v.level2 (omega arith);
        level3 = Covers2-set h.bitmap2 h.bitmap3 (page / 8) (page / 16) v.level3 (omega arith);
        count0 = c0;
        count1 = c1;
        count2 = c2;
        count3 = c3;
      }

  -- Allocating a free page sets its bit alone, takes one from the free pages, and leaves every
  -- level and counter consistent.
  pub alloc_page_bitmaps-IsHeader :
      h.bitmap0 page ≡ false
      → (h' : Header) × (alloc_page_bitmaps h page ≡ ok h')
        × IsHeader len h'
        × (h'.bitmap0 ≡ set_bit h.bitmap0 page true)
        × (h'.available0 + 1 ≡ h.available0)
  unfolding count_alloc set_page
  alloc_page_bitmaps-IsHeader open_ = (
    set_page (count_alloc h page) page,
    alloc-run open_,
    set_page-IsHeader open_,
    refl,
    omega (
      arith,
      v.count0,
      free_below-set h.bitmap0 page len inside open_,
      free_below-le h.bitmap0 len,
    ),
  )

  -- The bits above an allocated page are set.
  covered :
      h.bitmap0 page ≡ true
      → (h.bitmap1 (page / 4) ≡ true)
        × (h.bitmap2 (page / 8) ≡ true)
        × (h.bitmap3 (page / 16) ≡ true)
  covered set =
      let b1 : h.bitmap1 (page / 4) ≡ true = ground (arith, v.level1 (page / 4)) in
      let b2 : h.bitmap2 (page / 8) ≡ true = ground (arith, v.level2 (page / 8)) in
      let b3 : h.bitmap3 (page / 16) ≡ true = ground (arith, v.level3 (page / 16)) in (b1, b2, b3)

  -- Freeing an allocated page clears its bit alone, adds one to the free pages, and leaves every
  -- level and counter consistent.
  pub free_page_bitmaps-IsHeader :
      h.bitmap0 page ≡ true
      → (h' : Header) × (free_page_bitmaps h page ≡ ok h')
        × IsHeader len h'
        × (h'.bitmap0 ≡ set_bit h.bitmap0 page false)
        × (h'.available0 ≡ h.available0 + 1)
  unfolding free_page_bitmaps
  free_page_bitmaps-IsHeader set =
      let (b1, b2, b3) = covered set in
      let u1 = any_of_4 (set_bit h.bitmap0 page false) (page / 4) in
      let lv1 = clear_if u1 h.bitmap1 (page / 4) in
      let u2 = any_of_2 lv1 (page / 8) in
      let lv2 = clear_if u2 h.bitmap2 (page / 8) in
      let u3 = any_of_2 lv2 (page / 16) in
      let c0 = counted-clear h.bitmap0 page len h.available0 inside small v.count0 false set in
      (
        record {
          available0 = inc32 h.available0;
          available1 = count_if u1 h.available1;
          available2 = count_if u2 h.available2;
          available3 = count_if u3 h.available3;
          bitmap0 = set_bit h.bitmap0 page false;
          bitmap1 = lv1;
          bitmap2 = lv2;
          bitmap3 = clear_if u3 h.bitmap3 (page / 16);
        },
        rw (set, b1, b2, b3),
        record {
          level1 = Covers4-clear h.bitmap0 h.bitmap1 page (page / 4) v.level1 set refl;
          level2 =
              Covers2-clear h.bitmap1 h.bitmap2 u1 (page / 4) (page / 8) v.level2 b1 (omega arith);
          level3 =
              Covers2-clear h.bitmap2 h.bitmap3 u2 (page / 8) (page / 16) v.level3 b2 (omega arith);
          count0 = c0;
          count1 =
              counted-clear h.bitmap1 (page / 4) ((len + 3) / 4) h.available1 (omega arith)
                (omega arith) v.count1 u1 b1;
          count2 =
              counted-clear h.bitmap2 (page / 8) ((len + 7) / 8) h.available2 (omega arith)
                (omega arith) v.count2 u2 b2;
          count3 =
              counted-clear h.bitmap3 (page / 16) ((len + 15) / 16) h.available3 (omega arith)
                (omega arith) v.count3 u3 b3;
        },
        refl,
        omega (
          arith,
          v.count0,
          free_below-clear h.bitmap0 page len inside set,
          free_below-le h.bitmap0 len,
        ),
      )

  -- A page that is allocated already, or free already, stops the kernel.
  pub alloc_page_bitmaps_taken : h.bitmap0 page ≡ true → alloc_page_bitmaps h page ≡ panic
  unfolding alloc_page_bitmaps
  alloc_page_bitmaps_taken set = rw set

  pub free_page_bitmaps_free : h.bitmap0 page ≡ false → free_page_bitmaps h page ≡ panic
  unfolding free_page_bitmaps
  free_page_bitmaps_free open_ = rw open_
