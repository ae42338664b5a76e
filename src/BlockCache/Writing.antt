-- ===== src/BlockCache/Writing.antt =====
-- `block_cache_write`: what a write does to the cache and the device.
use mathlib.Core.Path.{subst}
use bincows.Base.{
  ℕ, suc, ◌+◌, ◌-◌, ◌*◌, ◌/◌, ◌%◌, ◌^◌, ◌≤◌, ◌<◌, ◌≡◌, ◌∙◌, refl, sym, ap, none, some, true, false,
  ◌⊎◌, ltb, ◌==◌, if◌then◌else◌, arith, Outcome, ok, panic, >>=-run, copy,
}
use native.Mathlib.Nat.{mod-lt}
use bincows.BlockCache.{
  Cache, sectors_per_page, unlock_cache, sectors_in_iteration, blocking_read_cache, blank_page,
  copy_in, write_page, write_loop, write_cache,
}
use bincows.BlockCache.Coherent.{Coherent, sectors_per_page_pos}
use bincows.BlockCache.Requests.{with_lock, lock_cache_free}
use bincows.BlockCache.Blocking.{Coherent-with_lock}
use bincows.BlockCache.Opening.{open_page-Opened}

-- The device holds `count` sectors of the buffer from `lba` on, and its others as before.
pub record Written (disk : ℕ → ℕ) (lba count : ℕ) (buf disk' : ℕ → ℕ) : Type 0 where
  pub inside : (i : ℕ) → i < count → disk' (lba + i) ≡ buf i
  pub outside : (a : ℕ) → (a < lba) ⊎ (lba + count ≤ a) → disk' a ≡ disk a

-- A round ends where the page does.
sectors_in_iteration_left :
    (lba count : ℕ) (c : Cache)
    → sectors_per_page c.lbashift < lba % sectors_per_page c.lbashift + count
    → sectors_in_iteration lba count c
      ≡ sectors_per_page c.lbashift - lba % sectors_per_page c.lbashift
unfolding sectors_in_iteration
sectors_in_iteration_left lba count c over = ground arith

sectors_in_iteration-le : (lba count : ℕ) (c : Cache) → sectors_in_iteration lba count c ≤ count
unfolding sectors_in_iteration
sectors_in_iteration-le lba count c = ground arith

copy_in_lem :
    (buf : ℕ → ℕ) (at_ lba n : ℕ) (c : Cache) (f : ℕ)
    → c.table (lba / sectors_per_page c.lbashift) ≡ some f
    → copy_in buf at_ lba n c
      ≡ ok (record c {
        phys = write_page f (copy (c.phys f) (lba % sectors_per_page c.lbashift) buf at_ n) c.phys;
      })
unfolding copy_in
copy_in_lem buf at_ lba n c f e = rw (copy_in, e)

-- One round of `write_cache`
write_step :
    (k me lba : ℕ) (buf : ℕ → ℕ) (at_ count n : ℕ) (c c1 c2 : Cache) (r : Outcome Cache)
    → n ≡ sectors_in_iteration lba count c
    → 0 < count
    → lba < c.virt_size
    → lba < c.capacity
    → (if ltb n (sectors_per_page c.lbashift)
        then blocking_read_cache me lba c
        else ok (blank_page lba c))
      ≡ ok c1
    → copy_in buf at_ lba n c1 ≡ ok c2
    → write_loop k me (lba + n) buf (at_ + n) (count - n) (unlock_cache c2) ≡ r
    → write_loop (suc k) me lba buf at_ count c ≡ r
unfolding write_loop
write_step k me lba buf at_ count n c c1 c2 r n_is pos in_1 in_2 run copied rest =
    let more : (count == 0) ≡ false = ground arith in
    let test_1 : ltb lba c.virt_size ≡ true = ground arith in
    let test_2 : ltb lba c.capacity ≡ true = ground arith in
    let P : ℕ → Type 0 = λ m.
      (if ltb m (sectors_per_page c.lbashift)
        then blocking_read_cache me lba c
        else ok (blank_page lba c))
      ≡ ok c1 in
    let Q : ℕ → Type 0 = λ m. copy_in buf at_ lba m c1 ≡ ok c2 in
    let R : ℕ → Type 0 =
      λ m. write_loop k me (lba + m) buf (at_ + m) (count - m) (unlock_cache c2) ≡ r in
    rw (more, write_loop, test_1, test_2)
      (>>=-run _ (subst P n_is run) (>>=-run _ (subst Q n_is copied) (subst R n_is rest)))

-- A round that needs the lock when the cache is free
write_loop-unlocked :
    (k me lba : ℕ) (buf : ℕ → ℕ) (at_ count : ℕ) (c : Cache)
    → c.locked ≡ none
    → 0 < count
    → lba < c.virt_size
    → lba < c.capacity
    → sectors_in_iteration lba count c < sectors_per_page c.lbashift
    → write_loop (suc k) me lba buf at_ count c ≡ panic
unfolding write_loop blocking_read_cache
write_loop-unlocked k me lba buf at_ count c free pos in_1 in_2 part =
    let more : (count == 0) ≡ false = ground arith in
    let test_1 : ltb lba c.virt_size ≡ true = ground arith in
    let test_2 : ltb lba c.capacity ≡ true = ground arith in
    let partial : ltb (sectors_in_iteration lba count c) (sectors_per_page c.lbashift) ≡ true =
      ground arith in
    rw (more, write_loop, test_1, test_2, partial, free) refl

-- A write that runs over the end of a page and ends before the end of the next one panics: the first
-- round unlocks the cache, and the second one asserts the lock.
pub write_cache-panic :
    (me lba : ℕ) (buf : ℕ → ℕ) (count : ℕ) (c : Cache)
    → Coherent c
    → c.locked ≡ none
    → c.capacity ≤ 2 ^ 32
    → c.capacity ≤ c.virt_size
    → lba + count ≤ c.capacity
    → sectors_per_page c.lbashift < lba % sectors_per_page c.lbashift + count
    → lba % sectors_per_page c.lbashift + count < 2 * sectors_per_page c.lbashift
    → write_cache me lba buf count c ≡ panic
unfolding write_cache unlock_cache
write_cache-panic me lba buf count c v free small maps fits over short =
    let spp = sectors_per_page c.lbashift in
    let c0 = with_lock (some me) c in
    let n = spp - lba % spp in
    let off : lba % spp < spp = mod-lt lba (sectors_per_page_pos c.lbashift v.flight.small) in
    let (c1, f, run, opened, s) =
      open_page-Opened me lba n c0 (Coherent-with_lock (some me) c v) refl (omega arith)
        (omega arith) in
    let shift : ltb c.lbashift 12 ≡ true = ground (arith, v.flight.small) in
    let fuel : count + 1 ≡ suc (suc (count - 1)) = omega arith in
    let c2 = record c1 {
      phys = write_page f (copy (c1.phys f) (lba % sectors_per_page c1.lbashift) buf 0 n) c1.phys;
    } in
    let last : (c' : Cache)
        → c'.lbashift ≡ c.lbashift
        → sectors_in_iteration (lba + n) (count - n) c' < sectors_per_page c'.lbashift =
      λ c' e.
        subst (λ k. sectors_in_iteration (lba + n) (count - n) c' < sectors_per_page k) (sym e)
          (omega (arith, sectors_in_iteration-le (lba + n) (count - n) c')) in
    rw shift (
      >>=-run _ (lock_cache_free me c free) (
        ap (λ k. write_loop k me lba buf 0 count c0) fuel
        ∙ write_step (suc (count - 1)) me lba buf 0 count n c0 c1 c2 panic
            (sym (sectors_in_iteration_left lba count c over)) (omega arith) (omega arith)
            (omega arith) run (copy_in_lem buf 0 lba n c1 f opened.here)
            (write_loop-unlocked (count - 1) me (lba + n) buf (0 + n) (count - n) (unlock_cache c2)
              refl (omega arith) (omega (arith, s.size)) (omega (arith, s.capacity))
              (last (unlock_cache c2) s.shift))))
