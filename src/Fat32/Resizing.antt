-- ===== src/Fat32/Resizing.antt =====
-- `fat32_truncate_file` of kernel/fs/fat32/fat32.c.
use bincows.Base.{
  ℕ, zero, suc, ◌+◌, ◌-◌, ◌*◌, ◌/◌, ◌%◌, ◌^◌, true, false, not, ltb, ◌==◌, if◌then◌else◌, Outcome,
  ok, no_fuel, ◌>>=◌, ◌>>◌, assert,
}
use bincows.Fat32.{Volume, State, block_size, read_fat, link_fat}
use bincows.Fat32.Files.{File, no_end, fetch_cluster, first_cluster_of, fat32_write_file_sectors}

abbrev pub max_buf_size : ℕ
max_buf_size = 8 * 1024 * 1024

-- The loop of `extend_file`: zeroes are written at the old end of the file. The fuel bounds its rounds.
unfoldable pub zero_loop : Volume → ℕ → File → ℕ → State → Outcome (File × State)
zero_loop v zero file extend s = no_fuel
zero_loop v (suc k) file extend s = elim (extend == 0) [
  | true ↦ ok (file, s)
  | false ↦ (do
    let rest = extend - (if ltb max_buf_size extend then max_buf_size else extend)
    (_, file1, s1) ← fat32_write_file_sectors v file (λ i w. 0) file.file_size rest s
    zero_loop v k file1 rest s1)
]

-- The test `extend > 1 >> 31` of the code is `extend > (1 >> 31)`.
unfoldable pub extend_file : Volume → File → ℕ → State → Outcome (ℕ × File × State)
extend_file v file file_size s = do
  assert (ltb file.file_size file_size)
  let extend = (file_size - file.file_size) % 2 ^ 32
  (file1, s1) ← first_cluster_of v file s
  elim (ltb (1 / 2 ^ 31) extend) [
    | true ↦ ok (1, file1, s1)
    | false ↦ (do (file2, s2) ← zero_loop v (extend + 1) file1 extend s1; ok (0, file2, s2))
  ]

-- The loop of `trunc_file`, with `k` clusters to free
unfoldable pub free_loop : Volume → ℕ → ℕ → State → Outcome State
free_loop v zero cluster s = ok s
free_loop v (suc k) cluster s = do
  (next, s1) ← read_fat v cluster s
  s2 ← link_fat v cluster 0 s1
  assert (if k == 0 then next == 0 else not (next == 0))
  free_loop v k next s2

-- The result -1 is given by its bits.
unfoldable pub trunc_file : Volume → File → ℕ → State → Outcome (ℕ × State)
trunc_file v file file_size s = do
  assert (ltb file_size file.file_size)
  let cluster_bsize = v.cluster_size * block_size v % 2 ^ 32
  let trunc_clusters = (file.file_size / cluster_bsize - file_size / cluster_bsize) % 2 ^ 32
  assert (ltb trunc_clusters (2 ^ 31))
  elim (ltb cluster_bsize (file.file_size - file_size)) [
    | true ↦ ok (2 ^ 32 - 1, s)
    | false ↦ elim (trunc_clusters == 0) [
      | true ↦ ok (0, s)
      | false ↦ (do
        (cluster, clusterend, s1) ← fetch_cluster v file (file_size / v.cluster_size) s
        assert (not (clusterend == no_end))
        assert (clusterend == (file_size / v.cluster_size))
        s2 ← link_fat v cluster 0x0FFFFFFF s1
        s3 ← free_loop v trunc_clusters cluster s2
        ok (0, s3))
    ]
  ]

unfoldable pub fat32_truncate_file : Volume → File → ℕ → State → Outcome (ℕ × File × State)
fat32_truncate_file v file file_size s = elim (ltb file.file_size file_size) [
  | true ↦ extend_file v file file_size s
  | false ↦ elim (ltb file_size file.file_size) [
    | true ↦ (do (r, s1) ← trunc_file v file file_size s; ok (r, file, s1))
    | false ↦ ok (0, file, s)
  ]
]
