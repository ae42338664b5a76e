-- ===== src/Fat32.antt =====
-- kernel/fs/fat32/fat32.c: the file allocation table and its cache. A sector is its 32-bit words, and
-- the sectors of the partition are counted from its beginning. The device carries a read out when it
-- is asked for: between `async_read` and `sync` only sectors of the table are written, which no file
-- reads. What `malloc` leaves in the buffer of the cache is any value.
pub mod Files
pub mod Resizing
mod Tests
pub mod View
pub mod Entries
pub mod Chains
pub mod Places
pub mod Reading
pub mod GapWrites
pub mod Extending
pub mod FirstCluster
pub mod Booting
pub mod Mounting
pub mod RoundTrip
pub mod FileWrites
pub mod Prefix
pub mod Finishing
pub mod Appending
pub mod Rounds
pub mod Writing
pub mod Apart
pub mod Flushing
pub mod Truncating
pub mod Growing
pub mod FileReads
pub mod Merging
pub mod Allocating
pub mod Linking
use bincows.Base.{
  ℕ, zero, suc, ◌+◌, ◌-◌, ◌*◌, ◌/◌, ◌%◌, ◌^◌, Bool, true, false, not, ◌&&◌, ◌||◌, Option, none,
  some, ltb, leb, ◌==◌, if◌then◌else◌, Outcome, ok, panic, wild, no_fuel, ◌>>=◌, ◌>>◌, assert,
}

abbrev pub fat_cache_size : ℕ
fat_cache_size = 2048

abbrev pub Sector : Type 0
Sector = ℕ → ℕ

-- What stays as it was mounted: the partition and the constants of `fat32_privates_t`. `words` is
-- `block_size(part) / 4`, and `size` is `part->end - part->begin`.
pub record Volume : Type 0 where
  pub words : ℕ
  pub size : ℕ
  pub cluster_size : ℕ
  pub fat_begin : ℕ
  pub data_begin : ℕ
  pub fat_size : ℕ

-- The rest of `fat32_privates_t`, with the entries of `block_cache_t` and its buffer by slot, and the
-- sectors of the partition.
pub record State : Type 0 where
  pub alloc_start : ℕ
  pub tag : ℕ → ℕ
  pub modified : ℕ → Bool
  pub buf : ℕ → Sector
  pub disk : ℕ → Sector

abbrev pub block_size : Volume → ℕ
block_size v = 4 * v.words

-- `n` sectors of `src` from `s` on stand in `dst` from `d` on.
abbrev pub transfer : (ℕ → Sector) → ℕ → (ℕ → Sector) → ℕ → ℕ → ℕ → Sector
transfer dst d src s n i = if leb d i && ltb i (d + n) then src (s + (i - d)) else dst i

-- `async_read` and `read`: `count` sectors into `buf`, from its sector `at_` on
unfoldable pub async_read : Volume → (ℕ → Sector) → ℕ → (ℕ → Sector) → ℕ → ℕ → Outcome (ℕ → Sector)
async_read v disk lba buf at_ count =
    assert (ltb lba v.size) >> ok (transfer buf at_ disk lba count)

unfoldable pub write : Volume → ℕ → (ℕ → Sector) → ℕ → ℕ → State → Outcome State
write v lba buf at_ count s =
    assert (leb lba v.size) >> ok (record s { disk = transfer s.disk lba buf at_ count })

-- in 32 bits
unfoldable pub cluster_begin : Volume → ℕ → ℕ
cluster_begin v cluster =
    ((cluster + 2 ^ 32 - 2) % 2 ^ 32 * v.cluster_size % 2 ^ 32 + v.data_begin) % 2 ^ 32

abbrev pub lba_hash : ℕ → ℕ
lba_hash lba = lba % fat_cache_size

-- `f[k] = x` for the arrays of the cache
abbrev pub update {ℓ} : {A : Type ℓ} → (ℕ → A) → ℕ → A → ℕ → A
update f k x i = if i == k then x else f i

unfoldable pub setup_cache : State → State
setup_cache s = record s { tag = λ h. 0; modified = λ h. false }

-- the slot that `cache_access` points to: the code shifts `lba` where its hash is meant
unfoldable pub cache_access : ℕ → State → Option ℕ
cache_access lba s = if s.tag (lba_hash lba) == lba then some lba else none

-- the loop of `flush_fat_cache` over the last `k` slots
unfoldable pub flush_loop : Volume → ℕ → State → Outcome State
flush_loop v zero s = ok s
flush_loop v (suc k) s = do
  let i = fat_cache_size - suc k
  s1 ← elim (s.modified i) [
    | true ↦ write v (s.tag i) s.buf i 1 (record s { modified = update s.modified i false })
    | false ↦ ok s
  ]
  flush_loop v k s1

unfoldable pub flush_fat_cache : Volume → State → Outcome State
flush_fat_cache v s = flush_loop v fat_cache_size s

-- The slot, whose old sector has been written back
unfoldable pub add_cache_entry : Volume → ℕ → State → Outcome (ℕ × State)
add_cache_entry v lba s = do
  let h = lba_hash lba
  s1 ← elim (s.modified h) [
    | true ↦ (do
      s2 ← write v (s.tag h) s.buf h 1 s
      ok (record s2 { modified = update s2.modified h false }))
    | false ↦ ok s
  ]
  ok (h, record s1 { tag = update s1.tag h lba })

unfoldable pub mark_modified : ℕ → State → Outcome State
mark_modified lba s =
    assert (s.tag (lba_hash lba) == lba)
    >> ok (record s { modified = update s.modified (lba_hash lba) true })

-- The slot that holds the sector
unfoldable pub fetch_fat_sector : Volume → ℕ → State → Outcome (ℕ × State)
fetch_fat_sector v lba s = do
  assert (leb v.fat_begin lba)
  assert (ltb lba ((v.fat_begin + v.fat_size) % 2 ^ 32))
  elim (cache_access lba s) [
    | some slot ↦ ok (slot, s)
    | none ↦ (do
      (slot, s1) ← add_cache_entry v lba s
      buf1 ← async_read v s1.disk lba s1.buf slot 1
      ok (slot, record s1 { buf = buf1 }))
  ]

-- An access to a slot is within the buffer.
abbrev pub check_slot : ℕ → Outcome (Unit {0})
check_slot slot = if ltb slot fat_cache_size then ok tt else wild

-- The sector of the entry of a cluster, and its word there; the sums and products have 32 bits.
abbrev pub entry_lba : Volume → ℕ → ℕ
entry_lba v cluster = (v.fat_begin + cluster * 4 % 2 ^ 32 / block_size v) % 2 ^ 32

abbrev pub entry_word : Volume → ℕ → ℕ
entry_word v cluster = cluster * 4 % 2 ^ 32 % block_size v / 4

unfoldable pub read_fat : Volume → ℕ → State → Outcome (ℕ × State)
read_fat v cluster s = do
  (slot, s1) ← fetch_fat_sector v (entry_lba v cluster) s
  check_slot slot
  let ent = s1.buf slot (entry_word v cluster) % 2 ^ 28
  assert (not (ent == 0))
  assert (not (ent == 1))
  ok ((if leb 0x0FFFFFF8 ent then 0 else ent), s1)

-- the loop of `allocFAT` over the words of one sector, of which `k` are left
unfoldable pub find_free : Sector → ℕ → ℕ → Option ℕ
find_free sector zero i = none
find_free sector (suc k) i =
    let rest = find_free sector k (i + 1) in if sector i == 0 then some i else rest

-- The loop over the sectors. The fuel bounds its rounds, of which there are fewer than sectors.
unfoldable pub alloc_loop : Volume → ℕ → ℕ → ℕ → State → Outcome (ℕ × State)
alloc_loop v zero last_sector lba s = no_fuel
alloc_loop v (suc k) last_sector lba s = elim (lba == last_sector) [
  | true ↦ ok (0, s)
  | false ↦ (do
    (slot, s1) ← fetch_fat_sector v lba s
    check_slot slot
    let begin = if lba == v.fat_begin then 2 else 0
    elim (find_free (s1.buf slot) (v.words - begin) begin) [
      | some i ↦
          ok ((((lba - v.fat_begin) * v.words + i) % 2 ^ 32, record s1 { alloc_start = lba }))
      | none ↦
          alloc_loop v k last_sector
            (if lba == (v.fat_begin + v.fat_size - 1) then v.fat_begin else lba + 1) s1
    ])
]

-- The sector before `alloc_start` ends the search and is not looked at.
unfoldable pub alloc_fat : Volume → State → Outcome (ℕ × State)
alloc_fat v s = do
  assert (leb v.fat_begin s.alloc_start)
  assert (ltb s.alloc_start ((v.fat_begin + v.fat_size) % 2 ^ 32))
  let last_sector =
      (if s.alloc_start == v.fat_begin then v.fat_begin + v.fat_size - 1 else s.alloc_start - 1)
  alloc_loop v v.fat_size last_sector s.alloc_start s

unfoldable pub link_fat : Volume → ℕ → ℕ → State → Outcome State
link_fat v from to s = do
  let lba = entry_lba v from
  let w = entry_word v from
  (slot, s1) ← fetch_fat_sector v lba s
  check_slot slot
  let ent = s1.buf slot w
  assert (leb 0x0FFFFFF8 (ent % 2 ^ 28) || (ent == 0))
  assert ((to / 2 ^ 28) == 0)
  let word = to + ent / 2 ^ 28 * 2 ^ 28
  mark_modified lba (record s1 { buf = update s1.buf slot (update (s1.buf slot) w word) })

unfoldable pub read_or_allocate_fat : Volume → ℕ → State → Outcome (ℕ × State)
read_or_allocate_fat v cluster s = do
  (next, s1) ← read_fat v cluster s
  elim (next == 0) [
    | false ↦ ok (next, s1)
    | true ↦ (do
      (new, s2) ← alloc_fat v s1
      elim (new == 0) [
        | true ↦ ok (0, s2)
        | false ↦ (do
          s3 ← link_fat v new 0x0FFFFFFF s2
          s4 ← link_fat v cluster new s3
          ok (new, s4))
      ])
  ]
