-- ===== src/Fat32/Booting.antt =====
-- `fat32_mount` of kernel/fs/fat32/fat32.c.
use bincows.Base.{
  ℕ, ◌+◌, ◌*◌, ◌/◌, ◌%◌, ◌^◌, ◌<◌, ◌≡◌, ◌∙◌, refl, Bool, true, false, not, ◌||◌, Option, none, some,
  ◌==◌, Outcome, ok, ◌>>=◌, ◌>>◌, assert, >>=-run, arith, ltb,
}
use bincows.Fat32.{Sector, Volume, State, async_read, transfer, setup_cache}
use bincows.Fat32.View.{InTable, Cached, view}
use bincows.Fat32.Mounting.{setup_cache-Cached}

-- Fields of one, two and four bytes of a sector
unfoldable pub byte_at : Sector → ℕ → ℕ
byte_at sector i = sector (i / 4) / 2 ^ (8 * (i % 4)) % 256

abbrev pub short_at : Sector → ℕ → ℕ
short_at sector i = byte_at sector i + 256 * byte_at sector (i + 1)

abbrev pub word_at : Sector → ℕ → ℕ
word_at sector i = short_at sector i + 0x10000 * short_at sector (i + 2)

-- Whether the boot record is one of this file system
unfoldable pub is_fat32 : Sector → Bool
is_fat32 boot = not (
    not (short_at boot 510 == 0xAA55)
    || not ((byte_at boot 0x42 / 2 * 2 + 1) == 0x29)
    || not (short_at boot 0x11 == 0))

-- what the boot record says of the partition
abbrev pub volume_of : ℕ → ℕ → Sector → Volume
volume_of words size boot = record {
  words = words;
  size = size;
  cluster_size = byte_at boot 0x0d;
  fat_begin = short_at boot 0x0e;
  data_begin = (short_at boot 0x0e + word_at boot 0x10 * word_at boot 0x24) % 2 ^ 32;
  fat_size = word_at boot 0x24;
}

-- the partition before its boot record is read
abbrev unread : ℕ → ℕ → Volume
unread words size = record {
  words = words;
  size = size;
  cluster_size = 0;
  fat_begin = 0;
  data_begin = 0;
  fat_size = 0;
}

-- The partition has `size` sectors of `words` words. The state has the device, and what the new
-- structure holds before it is set. The result is `root_addr` with what is mounted.
unfoldable pub fat32_mount : ℕ → ℕ → Bool → State → Outcome (Option (ℕ × Volume × State))
fat32_mount words size interrupts s = do
  buf ← async_read (unread words size) s.disk 0 (λ i w. 0) 0 1
  let boot = buf 0
  elim (is_fat32 boot) [
    | false ↦ ok none
    | true ↦ (do
      assert interrupts
      ok (
          some (
            word_at boot 0x2c,
            volume_of words size boot,
            setup_cache (record s { alloc_start = short_at boot 0x0e }),
          )))
  ]

-- The fields of a boot record that a mount depends on
pub record BootRecord : Type 0 where
  pub bytes_per_sector : ℕ
  pub sectors_per_cluster : ℕ
  pub reserved_sectors : ℕ
  pub tables : ℕ
  pub sectors_per_table : ℕ
  pub root_cluster : ℕ

-- The sector, by words of four bytes, is a boot record with these fields: the number of entries of
-- the root directory and the 16-bit number of sectors are 0, and the two signatures are there.
pub record IsBoot (boot : Sector) (b : BootRecord) : Type 0 where
  pub sector_short : b.bytes_per_sector < 2 ^ 16
  pub cluster_byte : b.sectors_per_cluster < 2 ^ 8
  pub reserved_short : b.reserved_sectors < 2 ^ 16
  pub tables_byte : b.tables < 2 ^ 8
  pub table_word : b.sectors_per_table < 2 ^ 32
  pub root_word : b.root_cluster < 2 ^ 32
  pub word_3 :
      boot 3
      ≡ b.bytes_per_sector / 2 ^ 8 + 2 ^ 8 * b.sectors_per_cluster + 2 ^ 16 * b.reserved_sectors
  pub word_4 : boot 4 ≡ b.tables
  pub word_9 : boot 9 ≡ b.sectors_per_table
  pub word_11 : boot 11 ≡ b.root_cluster
  pub word_16 : boot 16 / 2 ^ 16 % 2 ^ 8 ≡ 0x29
  pub word_127 : boot 127 / 2 ^ 16 ≡ 0xAA55

-- the volume of a partition with this boot record
abbrev pub described : ℕ → ℕ → BootRecord → Volume
described words size b = record {
  words = words;
  size = size;
  cluster_size = b.sectors_per_cluster;
  fat_begin = b.reserved_sectors;
  data_begin = (b.reserved_sectors + b.tables * b.sectors_per_table) % 2 ^ 32;
  fat_size = b.sectors_per_table;
}

module _ (boot : Sector) (b : BootRecord) (h : IsBoot boot b) where
  boot_cluster : byte_at boot 0x0d ≡ b.sectors_per_cluster
  unfolding byte_at
  boot_cluster = omega (arith, h.word_3, h.sector_short, h.cluster_byte, h.reserved_short)

  boot_reserved : short_at boot 0x0e ≡ b.reserved_sectors
  unfolding byte_at
  boot_reserved = omega (arith, h.word_3, h.sector_short, h.cluster_byte, h.reserved_short)

  -- The number of tables is one byte, and the code reads four, the others of which are 0.
  boot_tables : word_at boot 0x10 ≡ b.tables
  unfolding byte_at
  boot_tables = omega (arith, h.word_4, h.tables_byte)

  boot_table : word_at boot 0x24 ≡ b.sectors_per_table
  unfolding byte_at
  boot_table = omega (arith, h.word_9, h.table_word)

  boot_root : word_at boot 0x2c ≡ b.root_cluster
  unfolding byte_at
  boot_root = omega (arith, h.word_11, h.root_word)

  boot-is_fat32 : is_fat32 boot ≡ true
  unfolding is_fat32 byte_at
  boot-is_fat32 =
      let magic : short_at boot 510 ≡ 0xAA55 = omega (arith, h.word_127) in
      let signature : byte_at boot 0x42 / 2 * 2 + 1 ≡ 0x29 = omega (arith, h.word_16) in
      let entries : short_at boot 0x11 ≡ 0 = omega (arith, h.word_4, h.tables_byte) in
      ground (arith, magic, signature, entries)

read_boot :
    (v : Volume) (disk : ℕ → Sector)
    → 0 < v.size
    → async_read v disk 0 (λ i w. 0) 0 1 ≡ ok (transfer (λ i w. 0) 0 disk 0 1)
unfolding async_read
read_boot v disk pos = let in_ : ltb 0 v.size ≡ true = ground arith in rw (in_, async_read) refl

mount_run :
    (words size : ℕ) (s : State)
    → 0 < size
    → is_fat32 (s.disk 0) ≡ true
    → fat32_mount words size true s
      ≡ ok (
          some (
            word_at (s.disk 0) 0x2c,
            volume_of words size (s.disk 0),
            setup_cache (record s { alloc_start = short_at (s.disk 0) 0x0e }),
          ))
unfolding fat32_mount
mount_run words size s pos valid =
    >>=-run _ (read_boot (unread words size) s.disk pos) (rw valid refl)

-- A partition whose boot record is not one of this file system is not mounted.
fat32_mount-none :
    (words size : ℕ) (interrupts : Bool) (s : State)
    → 0 < size
    → is_fat32 (s.disk 0) ≡ false
    → fat32_mount words size interrupts s ≡ ok none
unfolding fat32_mount
fat32_mount-none words size interrupts s pos other =
    >>=-run _ (read_boot (unread words size) s.disk pos) (rw other refl)

-- With the interrupts on, a partition that begins with a boot record of this file system, with
-- reserved sectors and a table, is mounted. The volume has the cluster size and the table that the
-- record names, its files begin after as many tables as the record names, and its root directory is at
-- the cluster of the record. The table is that of the device, and nothing of it is marked as modified.
pub fat32_mount-Cached :
    (words size : ℕ) (b : BootRecord) (s : State)
    → 0 < size
    → IsBoot (s.disk 0) b
    → 0 < b.reserved_sectors
    → 0 < b.sectors_per_table
    → (s' : State) × (fat32_mount words size true s
        ≡ ok (some (b.root_cluster, described words size b, s')))
      × Cached (described words size b) s'
      × ((lba i : ℕ) → InTable (described words size b) lba → view s' lba i ≡ s.disk lba i)
      × ((h : ℕ) → s'.modified h ≡ false)
unfolding setup_cache
fat32_mount-Cached words size b s pos is_boot reserved some_ =
    let boot = s.disk 0 in
    let v = described words size b in
    let (cached, views) =
      setup_cache-Cached v (record s { alloc_start = b.reserved_sectors }) reserved
        (omega arith, omega (arith, some_)) in
    (
      setup_cache (record s { alloc_start = b.reserved_sectors }),
      mount_run words size s pos (boot-is_fat32 boot b is_boot)
          ∙ rw
              (
                boot_root boot b is_boot,
                boot_cluster boot b is_boot,
                boot_reserved boot b is_boot,
                boot_tables boot b is_boot,
                boot_table boot b is_boot,
              )
              refl,
      cached,
      views,
      λ h. refl,
    )
