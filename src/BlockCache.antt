-- ===== src/BlockCache.antt =====
-- kernel/drivers/block_cache.c: the pages of a block device that the kernel keeps in memory. Memory
-- is counted in sectors, since the code moves whole sectors of `1 << lbashift` bytes and a page
-- holds `0x1000 >> lbashift` of them. A physical page is named by the number of its allocation.
-- The thread `me` runs alone: what waits for a lock of another thread waits without end.
pub mod Coherent
pub mod Fetching
pub mod Requests
pub mod Blocking
pub mod Reading
pub mod Opening
pub mod Writing
pub mod Flushing
pub mod Devices
mod Tests
use bincows.Base.{
  ℕ, zero, suc, ◌+◌, ◌-◌, ◌*◌, ◌/◌, ◌%◌, ◌^◌, Bool, true, false, not, Option, none, some, List, [],
  ◌∷◌, ◌++◌, ltb, leb, ◌==◌, if◌then◌else◌, Outcome, ok, panic, hang, no_fuel, ◌>>=◌, ◌>>◌, assert,
  length, copy,
}

-- MAX_PAGE_FETCHES
abbrev pub max_page_fetches : ℕ
max_page_fetches = 128 * 2

-- `struct page_fetch`. No code sets `pf_id`, which is 0 in a new element.
pub record PageFetch : Type 0 where
  pub lba : ℕ
  pub paddr : ℕ
  pub pf_id : ℕ

-- a request of `async_read`: its sectors and the page they go to
pub record Request : Type 0 where
  pub lba : ℕ
  pub paddr : ℕ
  pub count : ℕ

-- `struct block_page_cache` with its interfaces, the pages mapped from `vaddr_base` on, the
-- physical pages, and the device: its sectors and the requests that it has not completed.
pub record Cache : Type 0 where
  pub lbashift : ℕ
  pub capacity : ℕ
  pub virt_size : ℕ
  pub locked : Option ℕ
  pub n_used_page : ℕ
  pub page_fetches : List PageFetch
  pub table : ℕ → Option ℕ
  pub allocated : ℕ
  pub phys : ℕ → ℕ → ℕ
  pub disk : ℕ → ℕ
  pub pending : List Request

unfoldable pub sectors_per_page : ℕ → ℕ
sectors_per_page lbashift = 0x1000 / 2 ^ lbashift

-- A lock that another thread holds is never released here.
unfoldable pub lock_cache : ℕ → Cache → Outcome Cache
lock_cache me c = elim c.locked [
  | none ↦ ok (record c { locked = some me })
  | some pid ↦ if pid == me then panic else hang
]

unfoldable pub unlock_cache : Cache → Cache
unlock_cache c = record c { locked = none }

abbrev pub is_locked : ℕ → Cache → Bool
is_locked me c = elim c.locked [ none ↦ false | some pid ↦ pid == me ]

abbrev pub is_present : Option ℕ → Bool
is_present none = false
is_present (some p) = true

-- whether the page of the sector is mapped
abbrev pub check_present_page : ℕ → Cache → Bool
check_present_page lba c = is_present (c.table (lba / sectors_per_page c.lbashift))

-- `lba & ~(sectors_per_page - 1)`, where the mask has 32 bits
unfoldable pub page_begin : ℕ → Cache → ℕ
page_begin lba c = lba % 2 ^ 32 / sectors_per_page c.lbashift * sectors_per_page c.lbashift

unfoldable pub has_fetch : ℕ → List PageFetch → Bool
has_fetch lba [] = false
has_fetch lba (f ∷ r) = let later = has_fetch lba r in if f.lba == lba then true else later

unfoldable pub is_fetching : ℕ → ℕ → Cache → Outcome Bool
unfolding page_begin has_fetch
is_fetching me lba c = assert (is_locked me c) >> ok (has_fetch (page_begin lba c) c.page_fetches)

-- The device completes one request.
abbrev pub complete : (ℕ → ℕ) → Request → (ℕ → ℕ → ℕ) → ℕ → ℕ → ℕ
complete disk r phys p i =
    if p == r.paddr then (if ltb i r.count then disk (r.lba + i) else phys p i) else phys p i

unfoldable pub complete_all : (ℕ → ℕ) → List Request → (ℕ → ℕ → ℕ) → ℕ → ℕ → ℕ
complete_all disk [] phys = phys
complete_all disk (r ∷ rs) phys = complete_all disk rs (complete disk r phys)

-- `target_interface->sync`: every request is completed.
unfoldable pub sync : Cache → Cache
unfolding complete_all
sync c = record c { phys = complete_all c.disk c.pending c.phys; pending = [] }

abbrev pub put_page : ℕ → ℕ → (ℕ → Option ℕ) → ℕ → Option ℕ
put_page p paddr table q = if q == p then some paddr else table q

abbrev pub last_fetch : PageFetch → List PageFetch → PageFetch
last_fetch f [] = f
last_fetch f (g ∷ r) = last_fetch g r

-- The pages of the fetches with an id up to `last_id` are mapped, and the others stay.
unfoldable pub map_fetched : ℕ → List PageFetch → Cache → Cache
map_fetched last_id [] c = record c { page_fetches = [] }
map_fetched last_id (f ∷ r) c =
    let mapped = map_fetched last_id r (record c {
      table = put_page (f.lba / sectors_per_page c.lbashift) f.paddr c.table;
      n_used_page = c.n_used_page + 1;
    }) in
    if leb f.pf_id last_id then mapped else record c { page_fetches = f ∷ r }

unfoldable pub target_sync : ℕ → Cache → Outcome Cache
unfolding lock_cache unlock_cache sync map_fetched
target_sync me c = do
  c1 ← lock_cache me c
  c2 ← elim c1.page_fetches [
    | [] ↦ ok c1
    | f ∷ r ↦ (do
      c3 ← lock_cache me (sync (unlock_cache c1))
      ok (map_fetched (last_fetch f r).pf_id c3.page_fetches c3))
  ]
  ok (unlock_cache c2)

-- The loop of `fetch_page` while the buffer of fetches is full. The fuel bounds its rounds.
unfoldable pub make_room : ℕ → ℕ → Cache → Outcome Cache
unfolding target_sync lock_cache unlock_cache
make_room zero me c = no_fuel
make_room (suc k) me c = elim (leb max_page_fetches (length c.page_fetches)) [
  | true ↦ (do c1 ← target_sync me (unlock_cache c); c2 ← lock_cache me c1; make_room k me c2)
  | false ↦ ok c
]

-- A new page, the element of `page_fetches` and the call of `async_read`
unfoldable pub request_page : ℕ → Cache → Cache
request_page lba c = record c {
  allocated = c.allocated + 1;
  page_fetches = c.page_fetches ++ (record { lba = lba; paddr = c.allocated; pf_id = 0 } ∷ []);
  pending =
      c.pending
      ++ (record { lba = lba; paddr = c.allocated; count = sectors_per_page c.lbashift } ∷ []);
}

unfoldable pub fetch_page : ℕ → ℕ → Cache → Outcome Cache
unfolding page_begin is_fetching make_room request_page
fetch_page me lba c = do
  assert (is_locked me c)
  assert (ltb c.lbashift 12)
  fetching ← is_fetching me (page_begin lba c) c
  elim fetching [
    | true ↦ ok c
    | false ↦ (do c1 ← make_room 2 me c; ok (request_page (page_begin lba c) c1))
  ]

unfoldable pub sectors_in_iteration : ℕ → ℕ → Cache → ℕ
sectors_in_iteration lba count c =
    let left = sectors_per_page c.lbashift - lba % sectors_per_page c.lbashift in
    if ltb left count then left else count

-- The loop of `prefetch`. Each round takes a sector at least, which bounds the fuel.
unfoldable pub prefetch_loop : ℕ → ℕ → ℕ → ℕ → Cache → Outcome Cache
unfolding lock_cache fetch_page unlock_cache sectors_in_iteration
prefetch_loop zero me lba count c = no_fuel
prefetch_loop (suc k) me lba count c = elim (count == 0) [
  | true ↦ ok c
  | false ↦ (do
    c1 ← lock_cache me c
    c2 ← (if check_present_page lba c1 then ok c1 else fetch_page me lba c1)
    let n = sectors_in_iteration lba count c
    prefetch_loop k me (lba + n) (count - n) (unlock_cache c2))
]

unfoldable pub prefetch : ℕ → ℕ → ℕ → Cache → Outcome Cache
unfolding prefetch_loop target_sync
prefetch me lba count c = do
  assert (ltb c.lbashift 12)
  c1 ← prefetch_loop (count + 1) me lba count c
  target_sync me c1

unfoldable pub blocking_read_cache : ℕ → ℕ → Cache → Outcome Cache
unfolding is_fetching fetch_page unlock_cache target_sync lock_cache
blocking_read_cache me lba c = do
  assert (is_locked me c)
  if check_present_page lba c then ok c else (do
    fetching ← is_fetching me lba c
    c1 ← (if fetching then ok c else fetch_page me lba c)
    c2 ← target_sync me (unlock_cache c1)
    lock_cache me c2)

-- `memcpy(buf, base, …)` from one page of the cache; `block_cache_page_fault` panics.
unfoldable pub copy_out : (ℕ → ℕ) → ℕ → ℕ → ℕ → Cache → Outcome (ℕ → ℕ)
copy_out buf at_ lba n c = elim (c.table (lba / sectors_per_page c.lbashift)) [
  | none ↦ panic
  | some p ↦ ok (copy buf at_ (c.phys p) (lba % sectors_per_page c.lbashift) n)
]

-- The loop of `read`, which has filled the buffer below `at_`
unfoldable pub read_loop : ℕ → ℕ → ℕ → (ℕ → ℕ) → ℕ → ℕ → Cache → Outcome ((ℕ → ℕ) × Cache)
unfolding blocking_read_cache sectors_in_iteration copy_out
read_loop zero me lba buf at_ count c = no_fuel
read_loop (suc k) me lba buf at_ count c = elim (count == 0) [
  | true ↦ ok (buf, c)
  | false ↦ (do
    assert (ltb lba c.capacity)
    assert (ltb lba c.virt_size)
    c1 ← blocking_read_cache me lba c
    let n = sectors_in_iteration lba count c
    buf1 ← copy_out buf at_ lba n c1
    read_loop k me (lba + n) buf1 (at_ + n) (count - n) c1)
]

unfoldable pub read : ℕ → ℕ → (ℕ → ℕ) → ℕ → Cache → Outcome ((ℕ → ℕ) × Cache)
unfolding prefetch lock_cache read_loop unlock_cache
read me lba buf count c = do
  c1 ← prefetch me lba count c
  assert (ltb c1.lbashift 12)
  c2 ← lock_cache me c1
  (buf', c3) ← read_loop (count + 1) me lba buf 0 count c2
  ok (buf', unlock_cache c3)

abbrev pub write_page : ℕ → (ℕ → ℕ) → (ℕ → ℕ → ℕ) → ℕ → ℕ → ℕ
write_page p sectors phys q = if q == p then sectors else phys q

-- `memcpy(base, buf, …)` into one page of the cache
unfoldable pub copy_in : (ℕ → ℕ) → ℕ → ℕ → ℕ → Cache → Outcome Cache
copy_in buf at_ lba n c = elim (c.table (lba / sectors_per_page c.lbashift)) [
  | none ↦ panic
  | some p ↦ ok (record c {
    phys = write_page p (copy (c.phys p) (lba % sectors_per_page c.lbashift) buf at_ n) c.phys;
  })
]

-- `alloc_pages` of one page where none is mapped
unfoldable pub blank_page : ℕ → Cache → Cache
blank_page lba c = if check_present_page lba c then c else (record c {
  table = put_page (lba / sectors_per_page c.lbashift) c.allocated c.table;
  allocated = c.allocated + 1;
  n_used_page = c.n_used_page + 1;
})

-- The loop of `write_cache`: the cache is unlocked at the end of each round.
unfoldable pub write_loop : ℕ → ℕ → ℕ → (ℕ → ℕ) → ℕ → ℕ → Cache → Outcome Cache
unfolding sectors_in_iteration blocking_read_cache blank_page copy_in unlock_cache
write_loop zero me lba buf at_ count c = no_fuel
write_loop (suc k) me lba buf at_ count c = elim (count == 0) [
  | true ↦ ok c
  | false ↦ (do
    let n = sectors_in_iteration lba count c
    assert (ltb lba c.virt_size)
    assert (ltb lba c.capacity)
    c1 ←
        (if ltb n (sectors_per_page c.lbashift)
          then blocking_read_cache me lba c
          else ok (blank_page lba c))
    c2 ← copy_in buf at_ lba n c1
    write_loop k me (lba + n) buf (at_ + n) (count - n) (unlock_cache c2))
]

unfoldable pub write_cache : ℕ → ℕ → (ℕ → ℕ) → ℕ → Cache → Outcome Cache
unfolding lock_cache write_loop
write_cache me lba buf count c = do
  assert (ltb c.lbashift 12)
  c1 ← lock_cache me c
  write_loop (count + 1) me lba buf 0 count c1

-- `write_cache`, the `sync` of the device, and its `write`
unfoldable pub block_cache_write : ℕ → ℕ → (ℕ → ℕ) → ℕ → Cache → Outcome Cache
unfolding write_cache sync
block_cache_write me lba buf count c = do
  c1 ← write_cache me lba buf count c
  let c2 = sync c1
  ok (record c2 { disk = copy c2.disk lba buf 0 count })

-- The fetches under way are waited for, and no other thread ends them; then every page is freed.
unfoldable pub flush_cache : ℕ → Cache → Outcome Cache
unfolding lock_cache unlock_cache
flush_cache me c = do
  c1 ← lock_cache me c
  if ltb 0 (length c1.page_fetches)
      then hang
      else ok (unlock_cache (record c1 { table = λ p. none; n_used_page = 0 }))
