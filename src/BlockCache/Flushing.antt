-- ===== src/BlockCache/Flushing.antt =====
-- `flush_cache`: the pages are freed, and a read then asks for them again.
use bincows.Base.{ℕ, ◌+◌, ◌^◌, ◌≤◌, ◌≡◌, refl, none, length, false, ltb, arith, ok, >>=-run}
use bincows.BlockCache.{Cache, flush_cache, unlock_cache, read}
use bincows.BlockCache.Coherent.{Coherent}
use bincows.BlockCache.Requests.{lock_cache_free}
use bincows.BlockCache.Reading.{Filled, read-Filled}

-- The cache without its pages
abbrev flushed : Cache → Cache
flushed c = record c { table = λ p. none; n_used_page = 0; locked = none }

flushed-Coherent : (c : Cache) → Coherent c → Coherent (flushed c)
flushed-Coherent c v = record {
  flight = record {
    small = v.flight.small;
    table_in = λ p f e. ground arith;
    table_inj = λ p q f e1 e2. ground arith;
    table_is = λ p f i e lt. ground arith;
    waiting = v.flight.waiting;
    pending_is = v.flight.pending_is;
  };
  idle = v.idle;
}

-- A free and coherent cache can be flushed: no page of it is mapped then, and a read of it returns what the
-- device holds.
flush_cache-read :
    (me lba : ℕ) (buf : ℕ → ℕ) (count : ℕ) (c : Cache)
    → Coherent c
    → c.locked ≡ none
    → c.capacity ≤ 2 ^ 32
    → c.capacity ≤ c.virt_size
    → lba + count ≤ c.capacity
    → (c1 : Cache) × (flush_cache me c ≡ ok c1)
      × ((p : ℕ) → c1.table p ≡ none)
      × (c1.n_used_page ≡ 0)
      × (buf' : ℕ → ℕ) × (c2 : Cache) × (read me lba buf count c1 ≡ ok (buf', c2))
      × Filled c.disk lba count buf 0 buf'
unfolding flush_cache unlock_cache
flush_cache-read me lba buf count c v free small maps fits =
    let (buf', c2, run, filled, _, _, _) =
      read-Filled me lba buf count (flushed c) (flushed-Coherent c v) refl small maps fits in
    let none_left : ltb 0 (length c.page_fetches) ≡ false = rw (v.idle) in
    (
      flushed c,
      >>=-run _ (lock_cache_free me c free) (rw none_left),
      λ p. refl,
      refl,
      buf',
      c2,
      run,
      filled,
    )
