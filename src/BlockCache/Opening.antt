-- ===== src/BlockCache/Opening.antt =====
-- The page that a write opens: it may differ from the device where the write goes.
use mathlib.Core.Path.{subst}
use bincows.Base.{
  ℕ, suc, ◌+◌, ◌-◌, ◌*◌, ◌/◌, ◌%◌, ◌^◌, ◌≤◌, ◌<◌, ◌≡◌, ◌≢◌, ◌∙◌, refl, sym, ap, none, some, [], map,
  ◌&&◌, Bool-cases, Option-cases, inl, inr, ◌⊎◌, ltb, leb, ◌==◌, if◌then◌else◌, arith, ok, copy,
  copy_inside, copy_outside,
}
use native.Mathlib.Nat.{div-add-mod', suc-mul, mul-le-mul_right}
use bincows.BlockCache.{
  Cache, sectors_per_page, is_present, blocking_read_cache, blank_page, write_page,
}
use bincows.BlockCache.Coherent.{Same, Same-self, Coherent}
use bincows.BlockCache.Blocking.{blocking_read_cache-Ready}

-- Sectors of a lower page are before those of a higher one.
page_before : (spp q p i : ℕ) → i < spp → q < p → q * spp + i < p * spp
page_before spp q p i lt h =
    omega (arith, suc-mul q spp, mul-le-mul_right {m = suc q} {n = p} spp h)

-- A cache in which all pages but `p` hold what the device holds, and page `p`, mapped at `f`, does so
-- before `off` and from `off + n` on.
pub record Opened (c : Cache) (p f off n : ℕ) : Type 0 where
  pub small : c.lbashift < 12
  pub table_in : (q g : ℕ) → c.table q ≡ some g → g < c.allocated
  pub table_inj : (q r g : ℕ) → c.table q ≡ some g → c.table r ≡ some g → q ≡ r
  pub here : c.table p ≡ some f
  pub others :
      (q g i : ℕ)
      → c.table q ≡ some g
      → q ≢ p
      → i < sectors_per_page c.lbashift
      → c.phys g i ≡ c.disk (q * sectors_per_page c.lbashift + i)
  pub around :
      (i : ℕ)
      → i < sectors_per_page c.lbashift
      → (i < off) ⊎ (off + n ≤ i)
      → c.phys f i ≡ c.disk (p * sectors_per_page c.lbashift + i)
  pub idle : c.page_fetches ≡ []
  pub no_pending : c.pending ≡ []

module _ (lba n : ℕ) (buf : ℕ → ℕ) (c : Cache) (f : ℕ) where
  abbrev offset_of : ℕ
  offset_of = lba % sectors_per_page c.lbashift

  abbrev pub page_of : ℕ
  page_of = lba / sectors_per_page c.lbashift

  -- The cache and the device when both have the new sectors.
  abbrev pub stored : Cache
  stored = record c {
    phys = write_page f (copy (c.phys f) offset_of buf 0 n) c.phys;
    disk = copy c.disk lba buf 0 n;
    pending = [];
    locked = none;
  }

  module _ (v : Opened c page_of f offset_of n)
      (fits : offset_of + n ≤ sectors_per_page c.lbashift) where
    place : page_of * sectors_per_page c.lbashift + offset_of ≡ lba
    place = div-add-mod' lba (sectors_per_page c.lbashift)

    -- Other pages lie outside the sectors that are written.
    other_sector :
        (q i : ℕ)
        → q ≢ page_of
        → i < sectors_per_page c.lbashift
        → copy c.disk lba buf 0 n (q * sectors_per_page c.lbashift + i)
          ≡ c.disk (q * sectors_per_page c.lbashift + i)
    other_sector q i other lt =
        let spp = sectors_per_page c.lbashift in
        copy_outside c.disk lba buf 0 n (q * spp + i) (elim (Bool-cases (ltb q page_of)) [
          | inl low ↦ inl (omega (arith, page_before spp q page_of i lt (ground arith), place))
          | inr high ↦ inr (
              omega (
                arith,
                mul-le-mul_right {m = suc page_of} {n = q} spp (ground arith),
                suc-mul page_of spp,
                place,
                fits,
              ))
        ])

    written_sector :
        (i : ℕ)
        → i < sectors_per_page c.lbashift
        → copy (c.phys f) offset_of buf 0 n i
          ≡ copy c.disk lba buf 0 n (page_of * sectors_per_page c.lbashift + i)
    written_sector i lt =
        let spp = sectors_per_page c.lbashift in
        elim (Bool-cases (leb offset_of i && ltb i (offset_of + n))) [
          | inl inner ↦
              copy_inside (c.phys f) offset_of buf 0 n (i - offset_of) i (i - offset_of)
                (ground arith) (ground arith) (omega arith)
              ∙ sym (
                  copy_inside c.disk lba buf 0 n (i - offset_of) (page_of * spp + i) (i - offset_of)
                    (ground arith) (ground (arith, place)) (omega arith))
          | inr outer ↦
              (let apart : (i < offset_of) ⊎ (offset_of + n ≤ i) = ground arith in
                copy_outside (c.phys f) offset_of buf 0 n i apart
                ∙ v.around i lt apart
                ∙ sym (
                    copy_outside c.disk lba buf 0 n (page_of * spp + i)
                      (omega (arith, place, apart))))
        ]

    pub stored-Coherent : Coherent stored
    stored-Coherent = record {
      flight = record {
        small = v.small;
        table_in = v.table_in;
        table_inj = v.table_inj;
        table_is = λ q g i e lt. elim (Bool-cases (g == f)) [
          | inl same ↦
              (let to : g ≡ f = ground arith in
                let q_is : q ≡ page_of = v.table_inj q page_of f (e ∙ ap some to) v.here in
                rw (same, q_is) (written_sector i lt))
          | inr other ↦
              (let q_not : q ≢ page_of = λ e'. ground (arith, v.here, ap c.table e', e) in
                rw other (v.others q g i e q_not lt ∙ sym (other_sector q i q_not lt)))
        ];
        waiting = rw (v.idle) (omega arith);
        pending_is = rw (v.idle) refl;
      };
      idle = v.idle;
    }

Coherent-no_pending : (c : Cache) → Coherent c → c.pending ≡ []
Coherent-no_pending c v = v.flight.pending_is ∙ ap (map _) v.idle

-- A coherent cache is open at every page that is mapped.
Coherent-Opened : (c : Cache) (p f off n : ℕ) → Coherent c → c.table p ≡ some f → Opened c p f off n
Coherent-Opened c p f off n v here = record {
  small = v.flight.small;
  table_in = v.flight.table_in;
  table_inj = v.flight.table_inj;
  here = here;
  others = λ q g i e other lt. v.flight.table_is q g i e lt;
  around = λ i lt apart. v.flight.table_is p f i here lt;
  idle = v.idle;
  no_pending = Coherent-no_pending c v;
}

-- A page that is written as a whole need not hold anything.
blank_page-Opened :
    (lba n : ℕ) (c : Cache)
    → Coherent c
    → lba % sectors_per_page c.lbashift + n ≤ sectors_per_page c.lbashift
    → sectors_per_page c.lbashift ≤ n
    → (f : ℕ) × Opened
        (blank_page lba c)
        (lba / sectors_per_page c.lbashift)
        f
        (lba % sectors_per_page c.lbashift)
        n
      × Same c (blank_page lba c)
unfolding blank_page
blank_page-Opened lba n c v fits whole =
    let p = lba / sectors_per_page c.lbashift in
    elim (Option-cases (c.table p)) [
      | inr (f, e) ↦ (
        f,
        rw e (Coherent-Opened c p f (lba % sectors_per_page c.lbashift) n v e),
        rw e (Same-self c),
      )
      | inl none_ ↦ (
        c.allocated,
        rw none_ (record {
          small = v.flight.small;
          table_in = λ q g e. ground (arith, v.flight.table_in q g);
          table_inj = λ q r g e1 e2. ground (
            arith,
            v.flight.table_inj q r g,
            v.flight.table_in q c.allocated,
            v.flight.table_in r c.allocated,
          );
          here = ground arith;
          others = λ q g i e other lt. v.flight.table_is q g i (ground arith) lt;
          around = λ i lt apart. absurd (omega (arith, fits, whole, apart, lt));
          idle = v.idle;
          no_pending = Coherent-no_pending c v;
        }),
        rw none_ (record { shift = refl; capacity = refl; size = refl; disk = refl }),
      )
    ]

-- A round of `write_cache` opens the page of its sectors.
pub open_page-Opened :
    (me lba n : ℕ) (c : Cache)
    → Coherent c
    → c.locked ≡ some me
    → lba < 2 ^ 32
    → lba % sectors_per_page c.lbashift + n ≤ sectors_per_page c.lbashift
    → (c1 : Cache) × (f : ℕ) × ((if ltb n (sectors_per_page c.lbashift)
          then blocking_read_cache me lba c
          else ok (blank_page lba c))
        ≡ ok c1)
      × Opened c1 (lba / sectors_per_page c1.lbashift) f (lba % sectors_per_page c1.lbashift) n
      × Same c c1
open_page-Opened me lba n c v mine small fits =
    elim (Bool-cases (ltb n (sectors_per_page c.lbashift))) [
      | inl part ↦
          (let (c1, run, ready, there) = blocking_read_cache-Ready me lba c v mine small in
            elim (Option-cases (c1.table (lba / sectors_per_page c1.lbashift))) [
              | inl none_ ↦ cc (there, ap is_present none_)
              | inr (f, e) ↦ (
                c1,
                f,
                rw part run,
                Coherent-Opened c1 (lba / sectors_per_page c1.lbashift) f
                    (lba % sectors_per_page c1.lbashift) n ready.coherent e,
                ready.same,
              )
            ])
      | inr whole ↦
          (let (f, opened, same) = blank_page-Opened lba n c v fits (ground arith) in
            (
              blank_page lba c,
              f,
              rw whole,
              subst
                  (λ s.
                    Opened (blank_page lba c) (lba / sectors_per_page s) f
                      (lba % sectors_per_page s) n)
                  (sym same.shift) opened,
              same,
            ))
    ]
