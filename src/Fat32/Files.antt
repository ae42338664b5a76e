-- ===== src/Fat32/Files.antt =====
-- The operations on the sectors of a file, of kernel/fs/fat32/fat32.c.
use bincows.Base.{
  ℕ, zero, suc, ◌+◌, ◌-◌, ◌*◌, ◌/◌, ◌%◌, ◌^◌, true, false, not, ◌||◌, ltb, leb, ◌==◌, if◌then◌else◌,
  Outcome, ok, no_fuel, ◌>>=◌, ◌>>◌, assert,
}
use bincows.Fat32.{
  Sector, Volume, State, block_size, async_read, write, cluster_begin, flush_fat_cache, read_fat,
  alloc_fat, link_fat, read_or_allocate_fat,
}

-- The fields of `file_t` that the file system uses
pub record File : Type 0 where
  pub addr : ℕ
  pub file_size : ℕ

-- `~0llu`
abbrev pub no_end : ℕ
no_end = 0xFFFFFFFFFFFFFFFF

-- The loop of `fetch_cluster`, with `k` clusters to go: the cluster and `*end`. The counter has 32 bits in the code, and no chain is that long.
unfoldable pub fetch_loop : Volume → ℕ → ℕ → ℕ → State → Outcome (ℕ × ℕ × State)
fetch_loop v zero i cluster s = ok (cluster, no_end, s)
fetch_loop v (suc k) i cluster s = do
  (next, s1) ← read_fat v cluster s
  elim (next == 0) [ true ↦ ok (cluster, i, s1) | false ↦ fetch_loop v k (i + 1) next s1 ]

unfoldable pub fetch_cluster : Volume → File → ℕ → State → Outcome (ℕ × ℕ × State)
fetch_cluster v fd off s = fetch_loop v off 0 fd.addr s

unfoldable pub alloc_file_cluster : Volume → File → State → Outcome (File × State)
alloc_file_cluster v fd s = do
  assert (fd.file_size == 0)
  (addr, s1) ← alloc_fat v s
  s2 ← link_fat v addr 0x0FFFFFFF s1
  ok (record fd { addr = addr }, s2)

-- Where the loops of `fat32_read_file_sectors` stand: the cluster, the sector in it, what is left of
-- `n`, and `read_size`.
pub record Run : Type 0 where
  pub cluster : ℕ
  pub cluster_offset : ℕ
  pub n : ℕ
  pub read_size : ℕ

-- The loop that merges clusters that follow each other. Each round takes a sector at least, which
-- bounds the fuel.
unfoldable pub merge_loop : Volume → ℕ → Run → State → Outcome (Run × State)
merge_loop v zero r s = no_fuel
merge_loop v (suc k) r s = elim (r.n == 0) [
  | true ↦ ok (r, s)
  | false ↦
      (let remaining = v.cluster_size - r.cluster_offset in
        elim (ltb r.n remaining) [
          | true ↦ ok (record r { read_size = r.read_size + r.n; n = 0 }, s)
          | false ↦ (do
            (next, s1) ← read_fat v r.cluster s
            let r1 : Run = record {
              cluster = next;
              cluster_offset = 0;
              n = r.n - remaining;
              read_size = r.read_size + remaining;
            }
            assert (not (next == 0) || (r1.n == 0))
            elim (next == (r.cluster + 1)) [ true ↦ merge_loop v k r1 s1 | false ↦ ok (r1, s1) ])
        ])
]

-- The loop of the reads, which has filled the buffer below `at_`
unfoldable pub read_loop :
    Volume → ℕ → (ℕ → Sector) → ℕ → Run → State → Outcome ((ℕ → Sector) × State)
read_loop v zero buf at_ r s = no_fuel
read_loop v (suc k) buf at_ r s = elim (r.n == 0) [
  | true ↦ ok (buf, s)
  | false ↦ (do
    let lba = cluster_begin v r.cluster + r.cluster_offset
    (r1, s1) ← merge_loop v (r.n + 1) (record r { read_size = 0 }) s
    buf1 ← async_read v s1.disk lba buf at_ r1.read_size
    read_loop v k buf1 (at_ + r1.read_size) r1 s1)
]

-- The result is an `int`, given by its bits.
unfoldable pub fat32_read_file_sectors :
    Volume → File → (ℕ → Sector) → ℕ → ℕ → State → Outcome (ℕ × (ℕ → Sector) × State)
fat32_read_file_sectors v fd buf begin n s = do
  assert (not (fd.addr == 0))
  assert (ltb ((begin + n + (2 ^ 64 - 1)) % 2 ^ 64 * v.cluster_size % 2 ^ 64) fd.file_size)
  (cluster, clusterend, s1) ← fetch_cluster v fd (begin / v.cluster_size) s
  assert (clusterend == no_end)
  (buf1, s2) ←
      read_loop v (n + 1) buf 0
        (record {
          cluster = cluster;
          cluster_offset = begin % v.cluster_size;
          n = n;
          read_size = 0;
        })
        s1
  ok (n % 2 ^ 32, buf1, s2)

-- The loop that extends the chain, with `k` clusters to add: the last cluster, or 0 when the drive is full
unfoldable pub extend_loop : Volume → ℕ → ℕ → State → Outcome (ℕ × State)
extend_loop v zero cluster s = ok (cluster, s)
extend_loop v (suc k) cluster s = do
  (cl, s1) ← alloc_fat v s
  elim (cl == 0) [
    | true ↦ ok (0, s1)
    | false ↦ (do
      s2 ← link_fat v cl 0x0FFFFFFF s1
      s3 ← link_fat v cluster cl s2
      extend_loop v k cl s3)
  ]

-- The loop of the writes, which has written the buffer below `at_`: what is left of `n`, `written`,
-- and the state
unfoldable pub write_loop :
    Volume → ℕ → (ℕ → Sector) → ℕ → ℕ → ℕ → ℕ → ℕ → State → Outcome (ℕ × ℕ × State)
write_loop v zero buf at_ cluster cluster_offset n written s = no_fuel
write_loop v (suc k) buf at_ cluster cluster_offset n written s = elim (n == 0) [
  | true ↦ ok (0, written, s)
  | false ↦ (do
    assert (not (cluster == 0))
    let remaining = v.cluster_size - cluster_offset
    let more = ltb remaining n
    let write_size = (if more then remaining else n)
    let next_offset = (if more then 0 else cluster_offset)
    s1 ← write v (cluster_begin v cluster + cluster_offset) buf at_ write_size s
    elim ((n - write_size) == 0) [
      | true ↦ ok (0, written + 1, s1)
      | false ↦ (do
        (next, s2) ← read_or_allocate_fat v cluster s1
        elim (next == 0) [
          | true ↦ ok (n - write_size, written + 1, s2)
          | false ↦
              write_loop v k buf (at_ + write_size) next next_offset (n - write_size) (written + 1)
                s2
        ])
    ])
]

-- `alloc_file_cluster` when the file has no cluster
abbrev pub first_cluster_of : Volume → File → State → Outcome (File × State)
first_cluster_of v fd s = elim (fd.addr == 0) [
  | true ↦ alloc_file_cluster v fd s
  | false ↦ ok (fd, s)
]

-- The result is what is left when the drive is full, and else the number of writes: an `int`, given
-- by its bits.
unfoldable pub fat32_write_file_sectors :
    Volume → File → (ℕ → Sector) → ℕ → ℕ → State → Outcome (ℕ × File × State)
fat32_write_file_sectors v fd buf begin n s = do
  let first_cluster = begin / v.cluster_size % 2 ^ 32
  let cluster_offset = begin % v.cluster_size
  (fd1, s1) ← first_cluster_of v fd s
  (cluster, clusterend, s2) ← fetch_cluster v fd1 first_cluster s1
  assert (not (cluster == 0))
  (cluster1, s3) ← elim (clusterend == no_end) [
    | true ↦ ok (cluster, s2)
    | false ↦ (do
      assert (
          leb fd1.file_size
            ((begin + n + (2 ^ 64 - 1)) % 2 ^ 64 * v.cluster_size % 2 ^ 64 * block_size v % 2 ^ 64))
      assert (ltb clusterend first_cluster)
      extend_loop v (first_cluster - clusterend) cluster s2)
  ]
  elim (cluster1 == 0) [
    | true ↦ ok (0, fd1, s3)
    | false ↦ (do
      (left_, written, s4) ← write_loop v (n + 1) buf 0 cluster1 cluster_offset n 0 s3
      elim (left_ == 0) [
        | true ↦ (do s5 ← flush_fat_cache v s4; ok (written % 2 ^ 32, fd1, s5))
        | false ↦ ok (left_ % 2 ^ 32, fd1, s4)
      ])
  ]
