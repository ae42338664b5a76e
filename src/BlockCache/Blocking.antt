-- ===== src/BlockCache/Blocking.antt =====
-- `blocking_read_cache`: a page is asked for and waited for.
use bincows.Base.{
  ℕ, ◌/◌, ◌^◌, ◌<◌, ◌≡◌, ◌∙◌, refl, sym, ap, Option, none, some, [], true, false, Bool-cases, inl,
  inr, arith, ok, ◌>>=◌, >>=-ok,
}
use bincows.BlockCache.{
  Cache, sectors_per_page, is_present, has_fetch, lock_cache, unlock_cache, target_sync, page_begin,
  is_fetching, fetch_page, blocking_read_cache, check_present_page,
}
use bincows.BlockCache.Coherent.{Same, Same-self, Same-trans, Coherent}
use bincows.BlockCache.Fetching.{target_sync-Done}
use bincows.BlockCache.Requests.{
  with_lock, InFlight-with_lock, lock_cache_free, fetch_page-Asked, page_begin-page,
}

-- A cache that `me` has locked, with nothing in flight, on the same device.
pub record Ready (me : ℕ) (c c' : Cache) : Type 0 where
  pub coherent : Coherent c'
  pub mine : c'.locked ≡ some me
  pub same : Same c c'

pub Coherent-with_lock : (l : Option ℕ) (c : Cache) → Coherent c → Coherent (with_lock l c)
Coherent-with_lock l c v = record {
  flight = InFlight-with_lock l c c.allocated v.flight;
  idle = v.idle;
}

-- A page that is there: `blocking_read_cache` has nothing to do.
blocking_read_cache_there :
    (me lba : ℕ) (c : Cache)
    → c.locked ≡ some me
    → check_present_page lba c ≡ true
    → blocking_read_cache me lba c ≡ ok c
unfolding blocking_read_cache
blocking_read_cache_there me lba c mine there = ground arith

blocking_read_cache_absent :
    (me lba : ℕ) (c : Cache)
    → c.locked ≡ some me
    → check_present_page lba c ≡ false
    → c.page_fetches ≡ []
    → blocking_read_cache me lba c
      ≡ (fetch_page me lba c >>= λ c1. target_sync me (unlock_cache c1) >>= λ c2. lock_cache me c2)
unfolding blocking_read_cache is_fetching has_fetch
blocking_read_cache_absent me lba c mine absent idle =
    let nothing : has_fetch (page_begin lba c) c.page_fetches ≡ false =
      ap (has_fetch (page_begin lba c)) idle in
    ground arith

-- `blocking_read_cache` returns with the page mapped and nothing in flight.
pub blocking_read_cache-Ready :
    (me lba : ℕ) (c : Cache)
    → Coherent c
    → c.locked ≡ some me
    → lba < 2 ^ 32
    → (c' : Cache) × (blocking_read_cache me lba c ≡ ok c')
      × Ready me c c'
      × (check_present_page lba c' ≡ true)
unfolding unlock_cache
blocking_read_cache-Ready me lba c v mine lt = elim (Bool-cases (check_present_page lba c)) [
  | inl there ↦ (
    c,
    blocking_read_cache_there me lba c mine there,
    record { coherent = v; mine = mine; same = Same-self c },
    there,
  )
  | inr absent ↦
      (let (c1, asks, asked) = fetch_page-Asked me lba c c.allocated v.flight mine lt in
        let free = with_lock none c1 in
        let (c2, run, done) =
          target_sync-Done me free asked.held.lo
            (InFlight-with_lock none c1 asked.held.lo asked.held.flight) refl in
        let same : Same c c2 = Same-trans c c1 c2 asked.held.same (record {
          shift = done.same.shift;
          capacity = done.same.capacity;
          size = done.same.size;
          disk = done.same.disk;
        }) in
        (
          with_lock (some me) c2,
          blocking_read_cache_absent me lba c mine absent v.idle
              ∙ >>=-ok (λ c1. target_sync me (unlock_cache c1) >>= λ c2. lock_cache me c2) asks
              ∙ >>=-ok (λ c2. lock_cache me c2) run
              ∙ lock_cache_free me c2 done.unlocked,
          record {
            coherent = Coherent-with_lock (some me) c2 done.coherent;
            mine = refl;
            same = record {
              shift = same.shift;
              capacity = same.capacity;
              size = same.size;
              disk = same.disk;
            };
          },
          ap (λ i. is_present (c2.table i))
                (ap (λ s. lba / sectors_per_page s) same.shift
                  ∙ sym (page_begin-page lba c v.flight.small lt)
                  ∙ ap (λ s. page_begin lba c / sectors_per_page s) (sym asked.held.same.shift))
              ∙ done.got (page_begin lba c) asked.there,
        ))
]
