-- ===== src/Fat32/Mounting.antt =====
-- The cache of the table when a partition is mounted, and its second access to a sector, in
-- kernel/fs/fat32/fat32.c.
use bincows.Base.{
  ℕ, ◌+◌, ◌%◌, ◌^◌, ◌≤◌, ◌<◌, ◌≡◌, refl, true, false, inl, ltb, leb, ◌==◌, ok, wild, >>=-run, arith,
}
use bincows.Fat32.{
  Volume, State, fat_cache_size, lba_hash, entry_lba, cache_access, add_cache_entry, async_read,
  fetch_fat_sector, read_fat, setup_cache, transfer, update,
}
use bincows.Fat32.View.{InTable, Cached, view}

-- An empty cache leaves the table to the device.
pub setup_cache-Cached :
    (v : Volume) (s : State)
    → 0 < v.fat_begin
    → InTable v s.alloc_start
    → Cached v (setup_cache s)
      × ((lba i : ℕ) → InTable v lba → view (setup_cache s) lba i ≡ s.disk lba i)
unfolding setup_cache view
setup_cache-Cached v s pos start = (
  record {
    start_in = start;
    tagged = λ h lt. inl refl;
    empty = λ h lt e. refl;
    marked = λ h lt m. absurd cc;
    clean = λ h i (lo, hi) e m. absurd (omega arith);
  },
  λ lba i (lo, hi). ground arith,
)

fetch_unknown :
    (v : Volume) (lba : ℕ) (s : State)
    → leb v.fat_begin lba ≡ true
    → ltb lba ((v.fat_begin + v.fat_size) % 2 ^ 32) ≡ true
    → lba < v.size
    → (s.tag (lba_hash lba) == lba) ≡ false
    → s.modified (lba_hash lba) ≡ false
    → fetch_fat_sector v lba s
      ≡ ok (
        lba_hash lba,
        record s {
          tag = update s.tag (lba_hash lba) lba;
          buf = transfer s.buf (lba_hash lba) s.disk lba 1;
        },
      )
unfolding fetch_fat_sector cache_access add_cache_entry async_read
fetch_unknown v lba s above below inside other unmarked =
    let in_ : ltb lba v.size ≡ true = ground arith in
    let added : add_cache_entry v lba s
        ≡ ok (lba_hash lba, record s { tag = update s.tag (lba_hash lba) lba }) =
      rw (unmarked, add_cache_entry) refl in
    let loaded : async_read v s.disk lba s.buf (lba_hash lba) 1
        ≡ ok (transfer s.buf (lba_hash lba) s.disk lba 1) =
      rw (in_, async_read) refl in
    rw (above, below, other) (>>=-run _ added (>>=-run _ loaded refl))

fetch_known :
    (v : Volume) (lba : ℕ) (s : State)
    → leb v.fat_begin lba ≡ true
    → ltb lba ((v.fat_begin + v.fat_size) % 2 ^ 32) ≡ true
    → (s.tag (lba_hash lba) == lba) ≡ true
    → fetch_fat_sector v lba s ≡ ok (lba, s)
unfolding fetch_fat_sector cache_access
fetch_known v lba s above below here = rw (above, below, here) refl

-- A sector of the table from 2048 on is loaded into the slot of its hash, and the next read of an
-- entry in it is outside of the buffer of the cache.
pub read_fat_again-wild :
    (v : Volume) (cluster : ℕ) (s : State)
    → v.fat_begin ≤ entry_lba v cluster
    → entry_lba v cluster < (v.fat_begin + v.fat_size) % 2 ^ 32
    → entry_lba v cluster < v.size
    → fat_cache_size ≤ entry_lba v cluster
    → (s.tag (lba_hash (entry_lba v cluster)) == entry_lba v cluster) ≡ false
    → s.modified (lba_hash (entry_lba v cluster)) ≡ false
    → (s' : State) × (fetch_fat_sector v (entry_lba v cluster) s
        ≡ ok (lba_hash (entry_lba v cluster), s'))
      × (read_fat v cluster s' ≡ wild)
unfolding read_fat
read_fat_again-wild v cluster s above below inside high other unmarked =
    let lba = entry_lba v cluster in
    let a : leb v.fat_begin lba ≡ true = ground arith in
    let b : ltb lba ((v.fat_begin + v.fat_size) % 2 ^ 32) ≡ true = ground arith in
    let s' = record s {
      tag = update s.tag (lba_hash lba) lba;
      buf = transfer s.buf (lba_hash lba) s.disk lba 1;
    } in
    let out : ltb lba fat_cache_size ≡ false = ground arith in
    (
      s',
      fetch_unknown v lba s a b inside other unmarked,
      >>=-run _ (fetch_known v lba s' a b (ground arith)) (rw out refl),
    )
