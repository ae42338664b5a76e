-- ===== src/BlockCache/Reading.antt =====
-- `prefetch` and `read`: what a read puts in the caller's buffer.
use mathlib.Core.Path.{subst}
use bincows.Base.{
  ℕ, zero, suc, ◌+◌, ◌-◌, ◌/◌, ◌%◌, ◌^◌, ◌≤◌, ◌<◌, ◌≡◌, ◌∙◌, refl, ap, none, some, true, Bool-cases,
  Option-cases, inl, inr, ◌⊎◌, ltb, ◌==◌, arith, ok, >>=-run, copy, copy_inside, copy_outside,
}
use native.Mathlib.Nat.{mod-lt, div-add-mod'}
use bincows.BlockCache.{
  Cache, sectors_per_page, is_present, unlock_cache, check_present_page, sectors_in_iteration,
  prefetch_loop, prefetch, copy_out, read_loop, read,
}
use bincows.BlockCache.Coherent.{
  Same, Same-self, Same-trans, InFlight, Coherent, sectors_per_page_pos,
}
use bincows.BlockCache.Fetching.{target_sync-Done}
use bincows.BlockCache.Requests.{with_lock, InFlight-with_lock, lock_cache_free, ask_page-Held}
use bincows.BlockCache.Blocking.{Ready, Coherent-with_lock, blocking_read_cache-Ready}

module _ (lba count : ℕ) (c : Cache) (small : c.lbashift < 12) where
  -- A round takes a sector at least, and no sector behind the page or the count.
  pub sectors_in_iteration_lem :
      0 < count
      → (0 < sectors_in_iteration lba count c)
        × (sectors_in_iteration lba count c ≤ count)
        × (lba % sectors_per_page c.lbashift + sectors_in_iteration lba count c
            ≤ sectors_per_page c.lbashift)
  unfolding sectors_in_iteration
  sectors_in_iteration_lem pos =
      let inside = mod-lt lba (sectors_per_page_pos c.lbashift small) in ground arith

-- A free cache with requests in flight, on the same device.
record Flying (c c' : Cache) : Type 0 where
  pub lo : ℕ
  pub flight : InFlight c' lo
  pub free : c'.locked ≡ none
  pub same : Same c c'

prefetch_loop-Flying :
    (k me lba count : ℕ) (c : Cache) (lo : ℕ)
    → InFlight c lo
    → c.locked ≡ none
    → lba + count ≤ 2 ^ 32
    → count < k
    → (c' : Cache) × (prefetch_loop k me lba count c ≡ ok c') × Flying c c'
unfolding prefetch_loop unlock_cache
prefetch_loop-Flying zero me lba count c lo v free small fuel = absurd (omega arith)
prefetch_loop-Flying (suc k) me lba count c lo v free small fuel = elim (Bool-cases (count == 0)) [
  | inl done ↦
      (c, rw (done, prefetch_loop), record { lo = lo; flight = v; free = free; same = Same-self c })
  | inr more ↦
      (let c1 = with_lock (some me) c in
        let n = sectors_in_iteration lba count c in
        let (pos, le, inside) = sectors_in_iteration_lem lba count c v.small (ground arith) in
        let (c2, asks, h) =
          ask_page-Held me lba c1 lo (InFlight-with_lock (some me) c lo v) refl (omega arith) in
        let free2 = with_lock none c2 in
        let (c', run, f) =
          prefetch_loop-Flying k me (lba + n) (count - n) free2 h.lo
            (InFlight-with_lock none c2 h.lo h.flight) refl (omega arith) (omega arith) in
        (
          c',
          rw (more, prefetch_loop) (>>=-run _ (lock_cache_free me c free) (>>=-run _ asks run)),
          record {
            lo = f.lo;
            flight = f.flight;
            free = f.free;
            same =
                Same-trans c free2 c'
                  (record {
                    shift = h.same.shift;
                    capacity = h.same.capacity;
                    size = h.same.size;
                    disk = h.same.disk;
                  })
                  f.same;
          },
        ))
]

-- `prefetch` leaves the cache free and coherent.
prefetch-Coherent :
    (me lba count : ℕ) (c : Cache)
    → Coherent c
    → c.locked ≡ none
    → lba + count ≤ 2 ^ 32
    → (c' : Cache) × (prefetch me lba count c ≡ ok c')
      × Coherent c'
      × (c'.locked ≡ none)
      × Same c c'
unfolding prefetch
prefetch-Coherent me lba count c v free small =
    let (c1, run, f) =
      prefetch_loop-Flying (count + 1) me lba count c c.allocated v.flight free small
        (omega arith) in
    let (c2, synced, done) = target_sync-Done me c1 f.lo f.flight f.free in
    let shift : ltb c.lbashift 12 ≡ true = ground (arith, v.flight.small) in
    (
      c2,
      rw (shift, prefetch) (>>=-run _ run synced),
      done.coherent,
      done.unlocked,
      Same-trans c c1 c2 f.same done.same,
    )

-- The `count` sectors from `lba` on stand in `buf'` from `at_` on, and the rest is that of `buf`.
pub record Filled (disk : ℕ → ℕ) (lba count : ℕ) (buf : ℕ → ℕ) (at_ : ℕ) (buf' : ℕ → ℕ)
    : Type 0 where
  pub inside : (i : ℕ) → i < count → buf' (at_ + i) ≡ disk (lba + i)
  pub outside : (j : ℕ) → (j < at_) ⊎ (at_ + count ≤ j) → buf' j ≡ buf j

-- A round that fills `n` sectors, and the rounds that fill the others.
Filled-join :
    (disk : ℕ → ℕ) (lba n count at_ : ℕ) (buf buf1 buf' : ℕ → ℕ)
    → n ≤ count
    → Filled disk lba n buf at_ buf1
    → Filled disk (lba + n) (count - n) buf1 (at_ + n) buf'
    → Filled disk lba count buf at_ buf'
Filled-join disk lba n count at_ buf buf1 buf' le first later = record {
  inside = λ i lt. elim (Bool-cases (ltb i n)) [
    | inl low ↦ later.outside (at_ + i) (inl (ground arith)) ∙ first.inside i (ground arith)
    | inr high ↦
        (let to : at_ + i ≡ at_ + n + (i - n) = ground arith in
          let from : lba + i ≡ lba + n + (i - n) = ground arith in
          rw (to, from) (later.inside (i - n) (ground arith)))
  ];
  outside =
      λ j apart. later.outside j (omega (arith, apart)) ∙ first.outside j (omega (arith, apart));
}

copy_out-Filled :
    (buf : ℕ → ℕ) (at_ lba n : ℕ) (c : Cache)
    → Coherent c
    → check_present_page lba c ≡ true
    → lba % sectors_per_page c.lbashift + n ≤ sectors_per_page c.lbashift
    → (buf' : ℕ → ℕ) × (copy_out buf at_ lba n c ≡ ok buf') × Filled c.disk lba n buf at_ buf'
unfolding copy_out
copy_out-Filled buf at_ lba n c v there fits =
    let spp = sectors_per_page c.lbashift in
    elim (Option-cases (c.table (lba / spp))) [
      | inl none_ ↦ cc (there, ap is_present none_)
      | inr (p, e) ↦ (
        copy buf at_ (c.phys p) (lba % spp) n,
        rw (e, copy_out),
        record {
          inside = λ i lt.
              copy_inside buf at_ (c.phys p) (lba % spp) n i (at_ + i) (lba % spp + i) lt refl refl
              ∙ v.flight.table_is (lba / spp) p (lba % spp + i) e (omega (arith, lt, fits))
              ∙ ap c.disk (omega (arith, div-add-mod' lba spp));
          outside = λ j apart. copy_outside buf at_ (c.phys p) (lba % spp) n j apart;
        },
      )
    ]

read_loop-Filled :
    (k me lba : ℕ) (buf : ℕ → ℕ) (at_ count : ℕ) (c : Cache)
    → Coherent c
    → c.locked ≡ some me
    → c.capacity ≤ 2 ^ 32
    → lba + count ≤ c.capacity
    → lba + count ≤ c.virt_size
    → count < k
    → (buf' : ℕ → ℕ) × (c' : Cache) × (read_loop k me lba buf at_ count c ≡ ok (buf', c'))
      × Ready me c c'
      × Filled c.disk lba count buf at_ buf'
unfolding read_loop
read_loop-Filled zero me lba buf at_ count c v mine small fits maps fuel = absurd (omega arith)
read_loop-Filled (suc k) me lba buf at_ count c v mine small fits maps fuel =
    elim (Bool-cases (count == 0)) [
      | inl done ↦ (
        buf,
        c,
        rw (done, read_loop),
        record { coherent = v; mine = mine; same = Same-self c },
        record { inside = λ i lt. absurd (ground arith); outside = λ j apart. refl },
      )
      | inr more ↦
          (let n = sectors_in_iteration lba count c in
            let (pos, le, inside) =
              sectors_in_iteration_lem lba count c v.flight.small (ground arith) in
            let in_1 : ltb lba c.capacity ≡ true = ground arith in
            let in_2 : ltb lba c.virt_size ≡ true = ground arith in
            let (c1, got, ready, there) = blocking_read_cache-Ready me lba c v mine (omega arith) in
            let s = ready.same in
            let fits1 : lba % sectors_per_page c1.lbashift + n ≤ sectors_per_page c1.lbashift =
              rw (s.shift) inside in
            let (buf1, copied, fill) =
              copy_out-Filled buf at_ lba n c1 ready.coherent there fits1 in
            let (buf', c', run, ready', fill') =
              read_loop-Filled k me (lba + n) buf1 (at_ + n) (count - n) c1 ready.coherent
                ready.mine (omega (arith, s.capacity)) (omega (arith, s.capacity))
                (omega (arith, s.size)) (omega arith) in
            (
              buf',
              c',
              rw (more, read_loop, in_1, in_2) (>>=-run _ got (>>=-run _ copied run)),
              record {
                coherent = ready'.coherent;
                mine = ready'.mine;
                same = Same-trans c c1 c' s ready'.same;
              },
              subst (λ d. Filled d lba count buf at_ buf') s.disk
                  (Filled-join c1.disk lba n count at_ buf buf1 buf' le fill fill'),
            ))
    ]

pub read-Filled :
    (me lba : ℕ) (buf : ℕ → ℕ) (count : ℕ) (c : Cache)
    → Coherent c
    → c.locked ≡ none
    → c.capacity ≤ 2 ^ 32
    → c.capacity ≤ c.virt_size
    → lba + count ≤ c.capacity
    → (buf' : ℕ → ℕ) × (c' : Cache) × (read me lba buf count c ≡ ok (buf', c'))
      × Filled c.disk lba count buf 0 buf'
      × Coherent c'
      × (c'.locked ≡ none)
      × Same c c'
unfolding read unlock_cache
read-Filled me lba buf count c v free small maps fits =
    let (c1, fetched, v1, free1, s1) = prefetch-Coherent me lba count c v free (omega arith) in
    let shift : ltb c1.lbashift 12 ≡ true = ground (arith, v1.flight.small) in
    let c2 = with_lock (some me) c1 in
    let (buf', c3, run, ready, fill) =
      read_loop-Filled (count + 1) me lba buf 0 count c2 (Coherent-with_lock (some me) c1 v1) refl
        (omega (arith, s1.capacity)) (omega (arith, s1.capacity))
        (omega (arith, s1.size, s1.capacity)) (omega arith) in
    let s3 = ready.same in
    (
      buf',
      with_lock none c3,
      >>=-run _ fetched (rw shift (>>=-run _ (lock_cache_free me c1 free1) (>>=-run _ run refl))),
      subst (λ d. Filled d lba count buf 0 buf') s1.disk fill,
      Coherent-with_lock none c3 ready.coherent,
      refl,
      record {
        shift = s3.shift ∙ s1.shift;
        capacity = s3.capacity ∙ s1.capacity;
        size = s3.size ∙ s1.size;
        disk = s3.disk ∙ s1.disk;
      },
    )
