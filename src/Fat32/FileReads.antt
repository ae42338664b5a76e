-- ===== src/Fat32/FileReads.antt =====
-- `fat32_read_file_sectors` of kernel/fs/fat32/fat32.c against the sectors of the file.
use native.Mathlib.Nat.{
  mod-lt, div-add-mod', div-lt_iff_lt-mul, mul_comm, mul-add, mod-eq_of_lt, mul-le-mul_left,
}
use bincows.Base.{
  ℕ, suc, ◌+◌, ◌-◌, ◌*◌, ◌/◌, ◌%◌, ◌^◌, ◌≤◌, ◌<◌, ◌≡◌, ◌∙◌, refl, ap, true, false, ltb, ◌==◌, ok,
  >>=-run, arith, List, length, drop,
}
use bincows.Fat32.{Sector, Volume, State}
use bincows.Fat32.Files.{
  File, fetch_cluster, fetch_loop, read_loop, no_end, fat32_read_file_sectors,
}
use bincows.Fat32.View.{Small, Cached, Same, Same-trans}
use bincows.Fat32.Chains.{Links, cluster_of, fetch_loop-inside}
use bincows.Fat32.Places.{place, HaveData, HaveData-first, HaveData-drop, length-drop, place-drop}
use bincows.Fat32.Merging.{run_at}
use bincows.Fat32.Reading.{Filled, read_loop-Filled}

-- The number of the cluster of a sector of the file is one of the file's.
pub cluster_inside : (cs begin n k : ℕ) → 0 < cs → 0 < n → begin + n ≤ cs * suc k → begin / cs ≤ k
cluster_inside cs begin n k pos some_ le =
    let q : begin / cs < suc k = (div-lt_iff_lt-mul pos).1 (omega (arith, mul_comm cs (suc k))) in
    omega arith

-- What is left of the file from that cluster on
pub left_inside :
    (cs begin n k : ℕ)
    → begin / cs ≤ k
    → begin + n ≤ cs * suc k
    → begin % cs + n ≤ cs * suc (k - begin / cs)
left_inside cs begin n k le fits =
    let split = div-add-mod' begin cs in
    let sum : begin / cs + suc (k - begin / cs) ≡ suc k = omega arith in
    let parts = mul-add cs (begin / cs) (suc (k - begin / cs)) in
    let whole : cs * (begin / cs + suc (k - begin / cs)) ≡ cs * suc k = ap (λ j. cs * j) sum in
    omega (arith, parts, whole, mul_comm cs (begin / cs))

read_run :
    (v : Volume) (fd : File) (buf buf' : ℕ → Sector) (begin n c : ℕ) (s s1 s2 : State)
    → (fd.addr == 0) ≡ false
    → 0 < n
    → (begin + n - 1) * v.cluster_size < fd.file_size
    → fd.file_size < 2 ^ 64
    → 0 < v.cluster_size
    → fetch_loop v (begin / v.cluster_size) 0 fd.addr s ≡ ok (c, no_end, s1)
    → read_loop v (n + 1) buf 0 (run_at c (begin % v.cluster_size) n 0) s1 ≡ ok (buf', s2)
    → fat32_read_file_sectors v fd buf begin n s ≡ ok (n % 2 ^ 32, buf', s2)
unfolding fat32_read_file_sectors fetch_cluster
read_run v fd buf buf' begin n c s s1 s2 has_addr some_ small narrow pos fetched run =
    let least : (begin + n - 1) * 1 ≤ (begin + n - 1) * v.cluster_size =
      mul-le-mul_left (begin + n - 1) pos in
    let top : (begin + n + (2 ^ 64 - 1)) % 2 ^ 64 ≡ begin + n - 1 = omega (arith, least) in
    let cut : (begin + n - 1) * v.cluster_size % 2 ^ 64 ≡ (begin + n - 1) * v.cluster_size =
      mod-eq_of_lt (omega arith) in
    let passes : ltb ((begin + n - 1) * v.cluster_size) fd.file_size ≡ true = ground arith in
    rw (has_addr, top, cut, passes) (>>=-run _ fetched (>>=-run _ run refl))

-- A read of sectors of the file that passes its test of the size returns `n` in 32 bits: the buffer
-- holds the sectors of the file from `begin` on, and is the same elsewhere. The device and the
-- entries of the table are the same.
pub fat32_read-Filled :
    (v : Volume) (fd : File) (l : List ℕ) (buf : ℕ → Sector) (begin n : ℕ) (s : State)
    → Small v
    → Cached v s
    → Links v s fd.addr l
    → HaveData v fd.addr l
    → 0 < n
    → begin + n ≤ v.cluster_size * suc (length l)
    → (begin + n - 1) * v.cluster_size < fd.file_size
    → fd.file_size < 2 ^ 64
    → (buf' : ℕ → Sector) × (s' : State) × (fat32_read_file_sectors v fd buf begin n s
        ≡ ok (n % 2 ^ 32, buf', s'))
      × Same v s s'
      × Filled v s.disk fd.addr l begin n buf 0 buf'
fat32_read-Filled v fd l buf begin n s g h links data_ some_ fits small narrow =
    let cs = v.cluster_size in
    let q = begin / cs in
    let in_ : q ≤ length l = cluster_inside cs begin n (length l) g.cluster_pos some_ fits in
    let has_addr : (fd.addr == 0) ≡ false = ground (arith, HaveData-first v fd.addr l data_) in
    let (s1, fetched, same, links1) = fetch_loop-inside v q 0 fd.addr l s g h links in_ in
    let left_ : begin % cs + n ≤ cs * suc (length (drop q l)) =
      rw (length-drop l q in_) (left_inside cs begin n (length l) in_ fits) in
    let (buf', s2, run, same2, filled) =
      read_loop-Filled v (n + 1) (cluster_of fd.addr l q) (drop q l) (begin % cs) n 0 buf 0 s1 g
        same.cached links1 (HaveData-drop v fd.addr l q in_ data_) (mod-lt begin g.cluster_pos)
        left_ (omega arith) in
    let split = div-add-mod' begin cs in
    (
      buf',
      s2,
      read_run v fd buf buf' begin n (cluster_of fd.addr l q) s s1 s2 has_addr some_ small narrow
          g.cluster_pos fetched run,
      Same-trans v s s1 s2 same same2,
      record {
        inside = λ j lt.
            filled.inside j lt
            ∙ ap (λ d. d (place v (cluster_of fd.addr l q) (drop q l) (begin % cs + j))) same.disk
            ∙ ap s.disk (
                place-drop v fd.addr l q (begin % cs + j) g.cluster_pos in_
                ∙ ap (place v fd.addr l) (omega (arith, split)));
        outside = filled.outside;
      },
    )
