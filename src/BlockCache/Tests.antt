-- ===== src/BlockCache/Tests.antt =====
-- The theorems at a device of 24 sectors of 512 bytes, one page of which is in memory.
use bincows.Base.{
  ℕ, ◌+◌, ◌*◌, ◌≡◌, refl, copy, [], ◌∷◌, none, some, ok, panic, Outcome, ◌>>=◌, ◌==◌, if◌then◌else◌,
  arith,
}
use bincows.BlockCache.{Cache, read, write_cache, sectors_per_page}
use bincows.BlockCache.Coherent.{Coherent}
use bincows.BlockCache.Writing.{write_cache-panic}
use bincows.BlockCache.Devices.{
  block_cache_begin, new_range, block_cache_setup, block_cache_setup-overlap,
}

-- Sector `i` of the device holds `10 * i`; page 1 is mapped at allocation 4.
abbrev device : Cache
device = record {
  lbashift = 9;
  capacity = 24;
  virt_size = 0x40000000;
  locked = none;
  n_used_page = 1;
  page_fetches = [];
  table = λ p. if p == 1 then some 4 else none;
  allocated = 5;
  phys = λ f i. if f == 4 then 10 * (8 + i) else 0;
  disk = λ a. 10 * a;
  pending = [];
}

eight_sectors : sectors_per_page 9 ≡ 8
unfolding sectors_per_page
eight_sectors = refl

device-Coherent : Coherent device
unfolding sectors_per_page
device-Coherent = record {
  flight = record {
    small = ground arith;
    table_in = λ p f e. ground arith;
    table_inj = λ p q f e1 e2. ground arith;
    table_is = λ p f i e lt. ground arith;
    waiting = ground arith;
    pending_is = refl;
  };
  idle = refl;
}

-- The sectors 6, 7 and 8, of which the first two are read from the device
read_three : Outcome (ℕ × ℕ × ℕ × ℕ)
unfolding read
read_three = do (buf, c) ← read 2 6 (λ i. 1) 3 device; ok (buf 0, buf 2, buf 3, c.n_used_page)

read_three_lem : read_three ≡ ok (60, 80, 1, 2)
unfolding read_three sectors_per_page copy
read_three_lem = refl

write_cache-panic_example : write_cache 2 6 (λ i. i) 4 device ≡ panic
unfolding sectors_per_page
write_cache-panic_example =
    write_cache-panic 2 6 (λ i. i) 4 device device-Coherent refl (ground arith) (ground arith)
      (ground arith) (ground arith) (ground arith)

block_cache_setup-overlap_example :
    (block_cache_setup 0x10000000000 [] >>= λ one.
    block_cache_setup 0x10000000000 one >>= λ two. block_cache_setup 0x10000000000 two)
    ≡ ok (
        new_range block_cache_begin 0x10000000000
        ∷ new_range (block_cache_begin + 0x10000000000) 0x10000000000
        ∷ new_range (block_cache_begin + 0x10000000000) 0x10000000000
        ∷ [])
block_cache_setup-overlap_example =
    block_cache_setup-overlap 0x10000000000 refl (ground arith) (ground arith)
