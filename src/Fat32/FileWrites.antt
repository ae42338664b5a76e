-- ===== src/Fat32/FileWrites.antt =====
-- `fat32_write_file_sectors` of kernel/fs/fat32/fat32.c against the sectors of the file.
use mathlib.Core.Path.{subst}
use native.Mathlib.Nat.{mod-lt, mod-eq_of_lt, div-le_self, div-add-mod'}
use bincows.Base.{
  ℕ, suc, ◌+◌, ◌-◌, ◌*◌, ◌/◌, ◌%◌, ◌^◌, ◌≤◌, ◌<◌, ◌≡◌, refl, true, false, ◌==◌, Outcome, ok, ◌>>=◌,
  >>=-run, arith, List, [], ◌++◌, length, drop,
}
use bincows.Fat32.{Sector, Volume, State, fat_cache_size}
use bincows.Fat32.Files.{
  File, no_end, first_cluster_of, fetch_loop, fetch_cluster, write_loop, fat32_write_file_sectors,
}
use bincows.Fat32.View.{Small, Cached}
use bincows.Fat32.Chains.{Links, Links-first, last_of, cluster_of, fetch_loop-inside}
use bincows.Fat32.Places.{length-drop}
use bincows.Fat32.Apart.{AllData, cluster_of-above}
use bincows.Fat32.FileReads.{left_inside}
use bincows.Fat32.Prefix.{Written-prefix}
use bincows.Fat32.Finishing.{after_writes, after_writes-Written}
use bincows.Fat32.Writing.{Written}
use bincows.Fat32.Appending.{write_loop-Written}

write_run :
    (v : Volume) (fd : File) (buf : ℕ → Sector) (begin n c end_ left_ w : ℕ) (s s1 s2 : State)
    {r : Outcome (ℕ × File × State)}
    → (fd.addr == 0) ≡ false
    → begin < 2 ^ 32
    → (c == 0) ≡ false
    → fetch_loop v (begin / v.cluster_size) 0 fd.addr s ≡ ok (c, end_, s1)
    → (end_ == no_end) ≡ true
    → write_loop v (n + 1) buf 0 c (begin % v.cluster_size) n 0 s1 ≡ ok (left_, w, s2)
    → after_writes v fd left_ w s2 ≡ r
    → fat32_write_file_sectors v fd buf begin n s ≡ r
unfolding fat32_write_file_sectors fetch_cluster
write_run v fd buf begin n c end_ left_ w s s1 s2 has_addr low some_ fetched all_in run rest =
    let same : first_cluster_of v fd s ≡ ok (fd, s) = rw (has_addr, first_cluster_of) refl in
    let cut : begin / v.cluster_size % 2 ^ 32 ≡ begin / v.cluster_size =
      mod-eq_of_lt (omega (arith, div-le_self begin v.cluster_size)) in
    rw cut (
      >>=-run _ same
        (>>=-run _ fetched (rw (some_, all_in) (rw (some_, ◌>>=◌) (>>=-run _ run rest)))))

-- What a write of `n` sectors from `begin` on leaves: the part of `n` that is left, the clusters
-- added and the state; unless something is left, the cache has been written back.
abbrev pub Writes : Volume → File → (ℕ → Sector) → ℕ → ℕ → State → List ℕ → Type 0
Writes v fd buf begin n s l =
    (r left_ : ℕ) × (s' : State) × (ext : List ℕ) × (fat32_write_file_sectors v fd buf begin n s
      ≡ ok (r, fd, s'))
    × (left_ ≤ n)
    × ((begin + n ≤ v.cluster_size * suc (length l)) → (left_ ≡ 0) × (ext ≡ []))
    × ((left_ == 0) ≡ false → r ≡ left_ % 2 ^ 32)
    × ((left_ == 0) ≡ true → (h : ℕ) → h < fat_cache_size → s'.modified h ≡ false)
    × Written v s fd.addr (last_of fd.addr l) (l ++ ext) begin (n - left_) buf 0 s'

-- A write that begins in a cluster of the file returns. The sectors of the file from `begin` on then
-- hold the buffer, up to what is left of it, clusters are only added at the end of the file, and no
-- other sector after the table changes, nor the entry of another cluster in use. Nothing is left and
-- nothing added when the clusters of the file suffice. The result is what is left, if any; if
-- nothing is, no slot of the cache is marked.
pub fat32_write-Written :
    (v : Volume) (fd : File) (l : List ℕ) (buf : ℕ → Sector) (begin n : ℕ) (s : State)
    → Small v
    → AllData v
    → Cached v s
    → 1 < fd.addr
    → Links v s fd.addr l
    → 0 < n
    → begin < 2 ^ 32
    → begin / v.cluster_size ≤ length l
    → Writes v fd buf begin n s l
fat32_write-Written v fd l buf begin n s g all h some_ links pos low in_ =
    let q = begin / v.cluster_size in
    let (s1, fetched, same, links1) = fetch_loop-inside v q 0 fd.addr l s g h links in_ in
    let x = cluster_of fd.addr l q in
    let above = cluster_of-above v s fd.addr l q some_ in_ links in
    let used : (x == 0) ≡ false = ground (arith, above) in
    let (left_, w, s2, ext, run, le, fits, _, written) =
      write_loop-Written v buf g all (n + 1) 0 x (begin % v.cluster_size) n 0 s1 (drop q l)
        same.cached links1 (above, Links-first v s1 x (drop q l) links1)
        (mod-lt begin g.cluster_pos) pos (omega arith) in
    let split = div-add-mod' begin v.cluster_size in
    let whole =
      subst (λ k. Written v s fd.addr (last_of fd.addr l) (l ++ ext) k (n - left_) buf 0 s2) split
        (Written-prefix v s s1 s2 fd.addr l ext q (begin % v.cluster_size) (n - left_) buf g in_
          links same written) in
    let has_addr : (fd.addr == 0) ≡ false = ground arith in
    let (r, s', done, partial, clean, stored) =
      after_writes-Written v fd left_ w fd.addr (last_of fd.addr l) begin (n - left_) buf s s2
        (l ++ ext) g all some_ whole in
    (
      r,
      left_,
      s',
      ext,
      write_run v fd buf begin n x no_end left_ w s s1 s2 has_addr low used fetched refl run done,
      le,
      λ z. fits (rw (length-drop l q in_) (left_inside v.cluster_size begin n (length l) in_ z)),
      λ z. (partial z).0,
      clean,
      stored,
    )
