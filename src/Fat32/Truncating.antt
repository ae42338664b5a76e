-- ===== src/Fat32/Truncating.antt =====
-- `fat32_truncate_file` of kernel/fs/fat32/fat32.c.
use native.Mathlib.Nat.{mod-eq_of_lt}
use bincows.Base.{
  ℕ, ◌+◌, ◌-◌, ◌*◌, ◌/◌, ◌%◌, ◌^◌, ◌≤◌, ◌<◌, ◌≡◌, refl, true, false, ◌⊎◌, inl, inr, Bool-cases, ltb,
  leb, ◌==◌, ok, panic, >>=-run, arith, >>=-panic, List, length,
}
use bincows.Fat32.{Volume, State, block_size}
use bincows.Fat32.Files.{File, first_cluster_of, no_end, fetch_cluster}
use bincows.Fat32.Resizing.{trunc_file, extend_file, fat32_truncate_file}
use bincows.Fat32.View.{Small, Cached}
use bincows.Fat32.Chains.{Links, last_of, cluster_of, fetch_loop-inside, fetch_loop-beyond}

-- the size of a cluster in bytes
abbrev pub cluster_bsize : Volume → ℕ
cluster_bsize v = v.cluster_size * block_size v % 2 ^ 32

-- the test of `trunc_file` on what `fetch_cluster` gives never passes
fetch_ends :
    (v : Volume) (fd : File) (l : List ℕ) (off : ℕ) (s : State)
    → Small v
    → Cached v s
    → Links v s fd.addr l
    → length l < no_end
    → (c end_ : ℕ) × (s' : State) × (fetch_cluster v fd off s ≡ ok (c, end_, s'))
      × ((end_ ≡ no_end) ⊎ (end_ < off))
unfolding fetch_cluster
fetch_ends v fd l off s g h r small = elim (Bool-cases (leb off (length l))) [
  | inl le ↦
      (let (s1, run, same, q) = fetch_loop-inside v off 0 fd.addr l s g h r (ground arith) in
        (cluster_of fd.addr l off, no_end, s1, run, inl refl))
  | inr gt ↦
      (let (s1, run, same) = fetch_loop-beyond v off 0 fd.addr l s g h r (ground arith) in
        (last_of fd.addr l, 0 + length l, s1, run, inr (ground arith)))
]

trunc_file-panic :
    (v : Volume) (fd : File) (file_size c end_ : ℕ) (s s1 : State)
    → fetch_cluster v fd (file_size / v.cluster_size) s ≡ ok (c, end_, s1)
    → (end_ ≡ no_end) ⊎ (end_ < file_size / v.cluster_size)
    → file_size < fd.file_size
    → fd.file_size - file_size ≤ cluster_bsize v
    → file_size / cluster_bsize v < fd.file_size / cluster_bsize v
    → fd.file_size / cluster_bsize v < 2 ^ 31
    → trunc_file v fd file_size s ≡ panic
unfolding trunc_file
trunc_file-panic v fd file_size c end_ s s1 run is less near apart low =
    let count = fd.file_size / cluster_bsize v - file_size / cluster_bsize v in
    let shrinks : ltb file_size fd.file_size ≡ true = ground arith in
    let cut : count % 2 ^ 32 ≡ count = mod-eq_of_lt (omega arith) in
    let positive : ltb (count % 2 ^ 32) (2 ^ 31) ≡ true = ground (arith, cut) in
    let one : ltb (cluster_bsize v) (fd.file_size - file_size) ≡ false = ground arith in
    let some_ : (count % 2 ^ 32 == 0) ≡ false = ground (arith, cut) in
    rw (shrinks, trunc_file, positive, one, some_)
      (>>=-run _ run (elim is [
        | inl inside ↦ (let fails : (end_ == no_end) ≡ true = ground arith in rw fails refl)
        | inr beyond ↦
            (let fails : (end_ == (file_size / v.cluster_size)) ≡ false = ground arith in
              elim (Bool-cases (end_ == no_end)) [
                | inl yes_ ↦ rw yes_ refl
                | inr no_ ↦ rw (no_, fails) refl
              ])
      ]))

-- A truncation of at most a cluster that moves the end of the file to another cluster fails an
-- assertion, whatever the chain of the file is.
pub fat32_truncate-panic :
    (v : Volume) (fd : File) (l : List ℕ) (file_size : ℕ) (s : State)
    → Small v
    → Cached v s
    → Links v s fd.addr l
    → length l < no_end
    → file_size < fd.file_size
    → fd.file_size - file_size ≤ cluster_bsize v
    → file_size / cluster_bsize v < fd.file_size / cluster_bsize v
    → fd.file_size / cluster_bsize v < 2 ^ 31
    → fat32_truncate_file v fd file_size s ≡ panic
unfolding fat32_truncate_file
fat32_truncate-panic v fd l file_size s g h r long less near apart low =
    let (c, end_, s1, run, is) = fetch_ends v fd l (file_size / v.cluster_size) s g h r long in
    let grows : ltb fd.file_size file_size ≡ false = ground arith in
    let shrinks : ltb file_size fd.file_size ≡ true = ground arith in
    rw (grows, fat32_truncate_file, shrinks)
      (>>=-panic _ (trunc_file-panic v fd file_size c end_ s s1 run is less near apart low))

-- Growing a file that has a cluster by fewer than 2^32 bytes returns 1, the error, and changes
-- nothing.
pub fat32_truncate-grow :
    (v : Volume) (fd : File) (file_size : ℕ) (s : State)
    → (fd.addr == 0) ≡ false
    → fd.file_size < file_size
    → file_size - fd.file_size < 2 ^ 32
    → fat32_truncate_file v fd file_size s ≡ ok (1, fd, s)
unfolding fat32_truncate_file extend_file
fat32_truncate-grow v fd file_size s has_addr more near =
    let grows : ltb fd.file_size file_size ≡ true = ground arith in
    let cut : (file_size - fd.file_size) % 2 ^ 32 ≡ file_size - fd.file_size = mod-eq_of_lt near in
    let big : ltb (1 / 2 ^ 31) (file_size - fd.file_size) ≡ true = ground arith in
    let kept : first_cluster_of v fd s ≡ ok (fd, s) = rw (has_addr, first_cluster_of) refl in
    let reaches : extend_file v fd file_size s ≡ ok (1, fd, s) =
      rw (grows, extend_file, cut) (>>=-run _ kept (rw big refl)) in
    rw (grows, fat32_truncate_file) reaches
