-- ===== src/Fat32/Tests.antt =====
-- The theorems at a partition of 24 sectors of 16 bytes, with a table of three sectors and a file of
-- three clusters of two sectors.
use bincows.Base.{
  ℕ, ◌+◌, ◌-◌, ◌*◌, ◌%◌, ◌^◌, ◌<◌, ◌≤◌, ◌≡◌, ◌⊎◌, refl, true, false, List, [], ◌∷◌, ok, some, panic,
  wild, Outcome, ◌>>=◌, ◌==◌, if◌then◌else◌, arith, get_or,
}
use bincows.Fat32.{
  Sector, Volume, State, fat_cache_size, entry_lba, lba_hash, setup_cache, fetch_fat_sector,
  read_fat, alloc_fat, link_fat, read_or_allocate_fat, flush_fat_cache, flush_loop, write,
  add_cache_entry, cache_access, async_read, mark_modified, find_free, alloc_loop, cluster_begin,
}
use bincows.Fat32.Files.{
  File, fetch_cluster, fetch_loop, merge_loop, read_loop, write_loop, fat32_read_file_sectors,
  fat32_write_file_sectors,
}
use bincows.Fat32.Resizing.{fat32_truncate_file}
use bincows.Fat32.View.{Small, Cached, Same, InTable, view}
use bincows.Fat32.Entries.{entry}
use bincows.Fat32.Chains.{Links, last_of}
use bincows.Fat32.Places.{HaveData}
use bincows.Fat32.Apart.{AllData}
use bincows.Fat32.Flushing.{flush_fat_cache-Cached}
use bincows.Fat32.Truncating.{fat32_truncate-panic}
use bincows.Fat32.Mounting.{setup_cache-Cached, read_fat_again-wild}
use bincows.Fat32.Booting.{fat32_mount, BootRecord, IsBoot, described, fat32_mount-Cached}
use bincows.Fat32.Reading.{Filled}
use bincows.Fat32.FileReads.{fat32_read-Filled}
use bincows.Fat32.FileWrites.{Writes, fat32_write-Written}
use bincows.Fat32.FirstCluster.{FirstWrites, fat32_write-first}
use bincows.Fat32.Extending.{Exhausted}
use bincows.Fat32.Appending.{NoCluster}
use bincows.Fat32.GapWrites.{fat32_write-gap}
use bincows.Fat32.Writing.{Written}
use bincows.Fat32.RoundTrip.{read_file_sectors-write}

abbrev volume : Volume
volume = record {
  words = 4;
  size = 24;
  cluster_size = 2;
  fat_begin = 1;
  data_begin = 4;
  fat_size = 3;
}

abbrev words_of : List ℕ → Sector
words_of l i = get_or l i 0

-- the table: the file has the clusters 2, 3 and 5
abbrev sectors : ℕ → Sector
sectors lba i =
    if lba == 1
    then words_of (0x0FFFFFF8 ∷ 0x0FFFFFFF ∷ 3 ∷ 5 ∷ []) i
    else (if lba == 2 then words_of (0 ∷ 0x0FFFFFFF ∷ 0 ∷ 0 ∷ []) i else 100 * lba + i)

abbrev before : State
before = record {
  alloc_start = 1;
  tag = λ h. 7;
  modified = λ h. true;
  buf = λ h i. 9;
  disk = sectors;
}

abbrev mounted : State
mounted = record before { tag = λ h. 0; modified = λ h. false }

mounted-Cached : Cached volume mounted
unfolding setup_cache
mounted-Cached = (setup_cache-Cached volume before (omega arith) (omega arith, omega arith)).0

volume-Small : Small volume
volume-Small = record {
  reserved = omega arith;
  fits = omega arith;
  inside = omega arith;
  within = omega arith;
  narrow = omega arith;
  words_pos = omega arith;
  words_two = omega arith;
  cluster_pos = omega arith;
  clusters = omega arith;
}

volume-AllData : AllData volume
volume-AllData c above low = (above, omega arith)

mounted-Links : Links volume mounted 2 (3 ∷ 5 ∷ [])
unfolding entry view
mounted-Links = (
  omega arith,
  (omega arith, omega arith, refl),
  (omega arith, (omega arith, omega arith, refl), (omega arith, omega arith)),
)

abbrev file : File
file = record { addr = 2; file_size = 90 }

file-HaveData : HaveData volume 2 (3 ∷ 5 ∷ [])
file-HaveData =
    ((omega arith, omega arith), ((omega arith, omega arith), (omega arith, omega arith)))

abbrev blank : ℕ → Sector
blank i j = 0

-- Sectors 1 to 4 of the file, of which 1 to 3 follow each other on the partition
read_four : Outcome (ℕ × ℕ × ℕ × ℕ)
read_four = do
  (n, buf, s) ← fat32_read_file_sectors volume file blank 1 4 mounted
  ok (n, buf 0 0, buf 2 1, buf 3 2)

read_four_lem : read_four ≡ ok (4, 500, 701, 1002)
unfolding read_four fat32_read_file_sectors fetch_cluster fetch_loop read_loop merge_loop read_fat
    fetch_fat_sector cache_access add_cache_entry async_read write cluster_begin
read_four_lem = refl

abbrev data_ : ℕ → Sector
data_ i j = 10 * i + j

-- A write of sectors 4 to 7 of a file of six, which adds a cluster
write_four : Outcome (ℕ × ℕ × ℕ × ℕ)
write_four = do
  (n, fd, s) ← fat32_write_file_sectors volume file data_ 4 4 mounted
  ok (n, s.disk 10 0, s.disk 9 1, s.disk 2 0)

write_four_lem : write_four ≡ ok (2, 0, 31, 0x0FFFFFFF)
unfolding write_four fat32_write_file_sectors fetch_cluster fetch_loop write_loop
    read_or_allocate_fat alloc_fat alloc_loop find_free link_fat mark_modified read_fat
    fetch_fat_sector flush_fat_cache flush_loop cache_access add_cache_entry async_read write
    cluster_begin
write_four_lem = refl

fat32_read-Filled_example :
    (buf' : ℕ → Sector) × (s' : State) × (fat32_read_file_sectors volume file blank 1 4 mounted
      ≡ ok (4 % 2 ^ 32, buf', s'))
    × Same volume mounted s'
    × Filled volume sectors 2 (3 ∷ 5 ∷ []) 1 4 blank 0 buf'
fat32_read-Filled_example =
    fat32_read-Filled volume file (3 ∷ 5 ∷ []) blank 1 4 mounted volume-Small mounted-Cached
      mounted-Links file-HaveData (omega arith) (omega arith) (omega arith) (omega arith)

fat32_write-Written_example : Writes volume file data_ 4 4 mounted (3 ∷ 5 ∷ [])
fat32_write-Written_example =
    fat32_write-Written volume file (3 ∷ 5 ∷ []) data_ 4 4 mounted volume-Small volume-AllData
      mounted-Cached (omega arith) mounted-Links (omega arith) (omega arith) (omega arith)

read_file_sectors-write_example :
    (r : ℕ) × (s1 s2 : State) × (buf' : ℕ → Sector) × (fat32_write_file_sectors volume file data_ 1
        4 mounted
      ≡ ok (r, file, s1))
    × (fat32_read_file_sectors volume file blank 1 4 s1 ≡ ok (4 % 2 ^ 32, buf', s2))
    × ((j : ℕ) → j < 4 → buf' j ≡ data_ j)
read_file_sectors-write_example =
    read_file_sectors-write volume file (3 ∷ 5 ∷ []) data_ blank 1 4 mounted volume-Small
      volume-AllData mounted-Cached (omega arith) mounted-Links (omega arith) (omega arith)
      (omega arith) (omega arith) (omega arith)

flush_fat_cache-Cached_example :
    (s' : State) × (flush_fat_cache volume mounted ≡ ok s')
    × Cached volume s'
    × ((lba i : ℕ)
        → InTable volume lba
        → (s'.disk lba i ≡ view mounted lba i) × (view s' lba i ≡ view mounted lba i))
    × ((lba : ℕ) → 4 ≤ lba → s'.disk lba ≡ mounted.disk lba)
    × ((h : ℕ) → h < fat_cache_size → s'.modified h ≡ false)
flush_fat_cache-Cached_example = flush_fat_cache-Cached volume mounted volume-Small mounted-Cached

-- 90 bytes are cut to 60: from the third cluster of 32 bytes to the second
fat32_truncate-panic_example : fat32_truncate_file volume file 60 mounted ≡ panic
fat32_truncate-panic_example =
    fat32_truncate-panic volume file (3 ∷ 5 ∷ []) 60 mounted volume-Small mounted-Cached
      mounted-Links (omega arith) (omega arith) (omega arith) (omega arith) (omega arith)

abbrev large : Volume
large = record {
  words = 4;
  size = 100000;
  cluster_size = 2;
  fat_begin = 32;
  data_begin = 4032;
  fat_size = 4000;
}

-- the entry of cluster 12000 is in the sector 3032 of the table
read_fat_again-wild_example :
    (s' : State) × (fetch_fat_sector large (entry_lba large 12000) mounted
      ≡ ok (lba_hash (entry_lba large 12000), s'))
    × (read_fat large 12000 s' ≡ wild)
read_fat_again-wild_example =
    read_fat_again-wild large 12000 mounted (omega arith) (omega arith) (omega arith) (omega arith)
      refl refl

-- a boot record: two sectors for a cluster, one reserved, one table of three
abbrev boot : Sector
boot i =
    if i == 3
    then 0x0001_0202
    else (if i == 4
        then 1
        else (if i == 9
            then 3
            else (if i == 11
                then 2
                else (if i == 16 then 0x0029_0000 else (if i == 127 then 0xAA55_0000 else 0)))))

abbrev unmounted : State
unmounted = record before { disk = λ lba. if lba == 0 then boot else blank lba }

abbrev boot_record : BootRecord
boot_record = record {
  bytes_per_sector = 512;
  sectors_per_cluster = 2;
  reserved_sectors = 1;
  tables = 1;
  sectors_per_table = 3;
  root_cluster = 2;
}

boot-IsBoot : IsBoot boot boot_record
boot-IsBoot = record {
  sector_short = omega arith;
  cluster_byte = omega arith;
  reserved_short = omega arith;
  tables_byte = omega arith;
  table_word = omega arith;
  root_word = omega arith;
  word_3 = refl;
  word_4 = refl;
  word_9 = refl;
  word_11 = refl;
  word_16 = omega arith;
  word_127 = omega arith;
}

fat32_mount-Cached_example :
    (s' : State) × (fat32_mount 128 100 true unmounted
      ≡ ok (some (2, described 128 100 boot_record, s')))
    × Cached (described 128 100 boot_record) s'
    × ((lba i : ℕ)
        → InTable (described 128 100 boot_record) lba
        → view s' lba i ≡ unmounted.disk lba i)
    × ((h : ℕ) → s'.modified h ≡ false)
fat32_mount-Cached_example =
    fat32_mount-Cached 128 100 boot_record unmounted (omega arith) boot-IsBoot (omega arith)
      (omega arith)

-- A write of three sectors to an empty file
fat32_write-first_example :
    (c : ℕ) × (s1 : State) × (alloc_fat volume mounted ≡ ok (c, s1))
    × ((c ≡ 0) ⊎ FirstWrites volume (record { addr = 0; file_size = 0 }) data_ 1 3 c mounted)
fat32_write-first_example =
    fat32_write-first volume (record { addr = 0; file_size = 0 }) data_ 1 3 mounted volume-Small
      volume-AllData mounted-Cached refl refl (omega arith) (omega arith) (omega arith)

-- A write of two sectors to the end of a file whose clusters are full
fat32_write-gap_example :
    (r left_ : ℕ) × (s' : State) × (ext : List ℕ) × (fat32_write_file_sectors volume file data_ 6 2
        mounted
      ≡ ok (r, file, s'))
    × (((r ≡ 0) × Exhausted volume 1 2 (3 ∷ 5 ∷ []) ext mounted s')
        ⊎ ((left_ ≤ 2)
            × ((6 + 2 ≤ 2 * 4) → left_ ≡ 0)
            × ((left_ == 0) ≡ false
                → (r ≡ left_ % 2 ^ 32) × NoCluster volume (last_of 2 (3 ∷ 5 ∷ ext)) s')
            × ((left_ == 0) ≡ true → (h : ℕ) → h < fat_cache_size → s'.modified h ≡ false)
            × Written volume mounted 2 5 (3 ∷ 5 ∷ ext) 6 (2 - left_) data_ 0 s'))
fat32_write-gap_example =
    fat32_write-gap volume file (3 ∷ 5 ∷ []) data_ 6 2 mounted volume-Small volume-AllData
      mounted-Cached (omega arith) mounted-Links (omega arith) (omega arith) (omega arith) refl
