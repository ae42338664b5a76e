-- ===== src/BlockCache/Requests.antt =====
-- `fetch_page`: a page that is not there is asked for.
use mathlib.Core.List.{map-append}
use native.Mathlib.Nat.{mul-div_cancel, div-mul-le_self}
use bincows.Base.{
  ℕ, suc, ◌*◌, ◌/◌, ◌^◌, ◌≤◌, ◌<◌, ◌≡◌, ◌∙◌, refl, sym, ap, Option, none, some, List, [], ◌∷◌, ◌++◌,
  length, true, false, Bool-cases, inl, inr, leb, if◌then◌else◌, arith, ok, ◌>>=◌,
}
use bincows.BlockCache.{
  PageFetch, Cache, sectors_per_page, is_present, has_fetch, lock_cache, unlock_cache,
  max_page_fetches, make_room, page_begin, is_fetching, request_page, fetch_page,
  check_present_page,
}
use bincows.BlockCache.Coherent.{
  Same, Same-self, request_of, Waiting-append, InFlight, sectors_per_page_pos,
}
use bincows.BlockCache.Fetching.{target_sync-Done}

-- A cache that `me` has locked, with requests in flight, in which what `c` has mapped is mapped.
pub record Held (me : ℕ) (c c' : Cache) : Type 0 where
  pub lo : ℕ
  pub flight : InFlight c' lo
  pub mine : c'.locked ≡ some me
  pub kept : (p : ℕ) → is_present (c.table p) ≡ true → is_present (c'.table p) ≡ true
  pub same : Same c c'

-- The locks do not matter to what is in flight.
abbrev pub with_lock : Option ℕ → Cache → Cache
with_lock l c = record c { locked = l }

pub InFlight-with_lock :
    (l : Option ℕ) (c : Cache) (lo : ℕ) → InFlight c lo → InFlight (with_lock l c) lo
InFlight-with_lock l c lo v = record {
  small = v.small;
  table_in = v.table_in;
  table_inj = v.table_inj;
  table_is = v.table_is;
  waiting = v.waiting;
  pending_is = v.pending_is;
}

pub lock_cache_free :
    (me : ℕ) (c : Cache) → c.locked ≡ none → lock_cache me c ≡ ok (with_lock (some me) c)
unfolding lock_cache
lock_cache_free me c free = rw (free, lock_cache)

make_room_stop :
    (k me : ℕ) (c : Cache)
    → leb max_page_fetches (length c.page_fetches) ≡ false
    → make_room (suc k) me c ≡ ok c
unfolding make_room
make_room_stop k me c room = rw (room, make_room)

make_room-Held :
    (me : ℕ) (c : Cache) (lo : ℕ)
    → InFlight c lo
    → c.locked ≡ some me
    → (c' : Cache) × (make_room 2 me c ≡ ok c') × Held me c c'
unfolding make_room lock_cache unlock_cache
make_room-Held me c lo v mine = elim (Bool-cases (leb max_page_fetches (length c.page_fetches))) [
  | inr room ↦ (
    c,
    rw (room, make_room),
    record { lo = lo; flight = v; mine = mine; kept = λ p e. e; same = Same-self c },
  )
  | inl full ↦
      (let free = with_lock none c in
        let (c1, run, done) = target_sync-Done me free lo (InFlight-with_lock none c lo v) refl in
        let c2 = with_lock (some me) c1 in
        let empty : leb max_page_fetches (length c2.page_fetches) ≡ false =
          rw (done.coherent.idle) in
        (
          c2,
          rw (full, make_room, run)
              (rw (lock_cache_free me c1 done.unlocked) (make_room_stop 0 me c2 empty)),
          record {
            lo = c1.allocated;
            flight = InFlight-with_lock (some me) c1 c1.allocated done.coherent.flight;
            mine = refl;
            kept = done.kept;
            same = record {
              shift = done.same.shift;
              capacity = done.same.capacity;
              size = done.same.size;
              disk = done.same.disk;
            };
          },
        ))
]

-- The fetches of `c` that are asked for in `c'` include that of a page.
pub record Asked (me lba : ℕ) (c c' : Cache) : Type 0 where
  pub held : Held me c c'
  pub there : has_fetch lba c'.page_fetches ≡ true

has_fetch-append :
    (lba paddr : ℕ) (l : List PageFetch)
    → has_fetch lba (l ++ (record { lba = lba; paddr = paddr; pf_id = 0 } ∷ [])) ≡ true
unfolding has_fetch
has_fetch-append lba paddr [] = ground arith
has_fetch-append lba paddr (f ∷ r) = ground (arith, has_fetch-append lba paddr r)

module _ (lba : ℕ) (shift : ℕ) (small : shift < 12) where
  -- The first sector of a page is its own.
  page_aligned :
      lba / sectors_per_page shift * sectors_per_page shift / sectors_per_page shift
      ≡ lba / sectors_per_page shift
  page_aligned = mul-div_cancel (lba / sectors_per_page shift) (sectors_per_page_pos shift small)

module _ (lba : ℕ) (c : Cache) (small : c.lbashift < 12) (lt : lba < 2 ^ 32) where
  page_begin_lem :
      page_begin lba c ≡ lba / sectors_per_page c.lbashift * sectors_per_page c.lbashift
  unfolding page_begin
  page_begin_lem =
      ap (λ n. n / sectors_per_page c.lbashift * sectors_per_page c.lbashift) (omega arith)

  page_begin-le : page_begin lba c ≤ lba
  page_begin-le = rw page_begin_lem (div-mul-le_self lba (sectors_per_page c.lbashift))

  -- The page of the first sector of a page
  pub page_begin-page :
      page_begin lba c / sectors_per_page c.lbashift ≡ lba / sectors_per_page c.lbashift
  page_begin-page = rw page_begin_lem (page_aligned lba c.lbashift small)

page_begin_idem :
    (lba : ℕ) (c : Cache)
    → c.lbashift < 12
    → lba < 2 ^ 32
    → page_begin (page_begin lba c) c ≡ page_begin lba c
page_begin_idem lba c small lt =
    page_begin_lem (page_begin lba c) c small (omega (arith, page_begin-le lba c small lt))
    ∙ ap (λ n. n * sectors_per_page c.lbashift) (page_begin-page lba c small lt)
    ∙ sym (page_begin_lem lba c small lt)

request_page-Asked :
    (me lba : ℕ) (c c1 : Cache)
    → Held me c c1
    → lba / sectors_per_page c1.lbashift * sectors_per_page c1.lbashift ≡ lba
    → Asked me lba c (request_page lba c1)
unfolding request_page
request_page-Asked me lba c c1 h aligned = record {
  held = record {
    lo = h.lo;
    flight = record {
      small = h.flight.small;
      table_in = h.flight.table_in;
      table_inj = h.flight.table_inj;
      table_is = h.flight.table_is;
      waiting =
          Waiting-append (sectors_per_page c1.lbashift) h.lo c1.allocated c1.page_fetches lba
            h.flight.waiting aligned;
      pending_is =
          ap
            (λ l.
              l
              ++ (request_of (sectors_per_page c1.lbashift)
                    (record { lba = lba; paddr = c1.allocated; pf_id = 0 })
                  ∷ []))
            h.flight.pending_is
          ∙ sym (
              map-append (request_of (sectors_per_page c1.lbashift)) c1.page_fetches
                (record { lba = lba; paddr = c1.allocated; pf_id = 0 } ∷ []));
    };
    mine = h.mine;
    kept = h.kept;
    same = record {
      shift = h.same.shift;
      capacity = h.same.capacity;
      size = h.same.size;
      disk = h.same.disk;
    };
  };
  there = has_fetch-append lba c1.allocated c1.page_fetches;
}

module _ (me lba : ℕ) (c : Cache) (small : c.lbashift < 12) (mine : c.locked ≡ some me) where
  fetch_page_there :
      has_fetch (page_begin (page_begin lba c) c) c.page_fetches ≡ true → fetch_page me lba c ≡ ok c
  unfolding fetch_page is_fetching
  fetch_page_there there = ground arith

  fetch_page_absent :
      has_fetch (page_begin (page_begin lba c) c) c.page_fetches ≡ false
      → fetch_page me lba c ≡ (make_room 2 me c >>= λ c1. ok (request_page (page_begin lba c) c1))
  unfolding fetch_page is_fetching
  fetch_page_absent absent = ground arith

-- `fetch_page` returns, and its page is then among those asked for.
pub fetch_page-Asked :
    (me lba : ℕ) (c : Cache) (lo : ℕ)
    → InFlight c lo
    → c.locked ≡ some me
    → lba < 2 ^ 32
    → (c' : Cache) × (fetch_page me lba c ≡ ok c') × Asked me (page_begin lba c) c c'
fetch_page-Asked me lba c lo v mine lt =
    let begin = page_begin lba c in
    let idem = page_begin_idem lba c v.small lt in
    elim (Bool-cases (has_fetch begin c.page_fetches)) [
      | inl there ↦ (
        c,
        fetch_page_there me lba c v.small mine (ap (λ n. has_fetch n c.page_fetches) idem ∙ there),
        record {
          held = record { lo = lo; flight = v; mine = mine; kept = λ p e. e; same = Same-self c };
          there = there;
        },
      )
      | inr absent ↦
          (let (c1, run, held) = make_room-Held me c lo v mine in
            (
              request_page begin c1,
              fetch_page_absent me lba c v.small mine
                    (ap (λ n. has_fetch n c.page_fetches) idem ∙ absent)
                  ∙ rw run,
              request_page-Asked me begin c c1 held (
                  rw (held.same.shift) (
                    ap (λ n. n * sectors_per_page c.lbashift) (page_begin-page lba c v.small lt)
                    ∙ sym (page_begin_lem lba c v.small lt))),
            ))
    ]

-- The round of `prefetch` under the lock.
pub ask_page-Held :
    (me lba : ℕ) (c : Cache) (lo : ℕ)
    → InFlight c lo
    → c.locked ≡ some me
    → lba < 2 ^ 32
    → (c' : Cache) × ((if check_present_page lba c then ok c else fetch_page me lba c) ≡ ok c')
      × Held me c c'
ask_page-Held me lba c lo v mine lt = elim (Bool-cases (check_present_page lba c)) [
  | inl there ↦ (
    c,
    rw there,
    record { lo = lo; flight = v; mine = mine; kept = λ p e. e; same = Same-self c },
  )
  | inr absent ↦
      (let (c', run, asked) = fetch_page-Asked me lba c lo v mine lt in
        (c', rw absent run, asked.held))
]
