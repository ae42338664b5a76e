-- ===== src/Fat32/FirstCluster.antt =====
-- A write to an empty file, which gets its first cluster: `alloc_file_cluster` of
-- kernel/fs/fat32/fat32.c.
use bincows.Base.{
  ℕ, ◌+◌, ◌-◌, ◌/◌, ◌%◌, ◌^◌, ◌≤◌, ◌<◌, ◌≡◌, ◌∙◌, refl, sym, ap, true, false, ◌⊎◌, inl, inr,
  Bool-cases, leb, ◌==◌, ◌||◌, ok, >>=-run, >>=-ok, arith, List, [],
}
use native.Mathlib.Nat.{div-eq_of_lt}
use bincows.Fat32.{Sector, Volume, State, alloc_fat}
use bincows.Fat32.Files.{File, alloc_file_cluster, first_cluster_of, fat32_write_file_sectors}
use bincows.Fat32.View.{Small, Cached}
use bincows.Fat32.Entries.{entry, IsCluster, Same-entry}
use bincows.Fat32.Linking.{link_fat-Linked}
use bincows.Fat32.Allocating.{Found, alloc_fat-Found}
use bincows.Fat32.Chains.{Links}
use bincows.Fat32.Apart.{AllData}
use bincows.Fat32.Writing.{Written}
use bincows.Fat32.FileWrites.{fat32_write-Written}

-- The file has one cluster, which was free, and no other entry differs.
record First (v : Volume) (s : State) (c : ℕ) (s' : State) : Type 0 where
  pub cached : Cached v s'
  pub above : 1 < c
  pub links : Links v s' c []
  pub disk : s'.disk ≡ s.disk
  pub others : (d : ℕ) → IsCluster v d → (d == c) ≡ false → entry v s' d ≡ entry v s d

alloc_file_cluster-First :
    (v : Volume) (fd : File) (s s1 : State) (c : ℕ)
    → Small v
    → fd.file_size ≡ 0
    → alloc_fat v s ≡ ok (c, s1)
    → Found v s c s1
    → (c == 0) ≡ false
    → (s2 : State) × (alloc_file_cluster v fd s ≡ ok (record fd { addr = c }, s2)) × First v s c s2
unfolding alloc_file_cluster
alloc_file_cluster-First v fd s s1 c g size_ run found some_ = elim found.free [
  | inl none_ ↦ absurd (ground arith)
  | inr (above, low, zero_) ↦
      (let same = Same-entry v s s1 c g found.same low in
        let free : leb 0x0FFFFFF8 (entry v s1 c % 2 ^ 28) || (entry v s1 c == 0) ≡ true =
          ground (arith, same, zero_) in
        let (s2, linked, w) =
          link_fat-Linked v c 0x0FFFFFFF s1 g found.same.cached low (omega arith) free in
        let blank : (fd.file_size == 0) ≡ true = ground arith in
        (
          s2,
          rw blank (>>=-run _ run (>>=-run _ linked refl)),
          record {
            cached = w.cached;
            above = above;
            links = (low, omega (arith, w.here, same, zero_));
            disk = w.disk ∙ found.same.disk;
            others = λ d ld ne. w.others d ld ne ∙ Same-entry v s s1 d g found.same ld;
          },
        ))
]

write_first :
    (v : Volume) (fd fd1 : File) (buf : ℕ → Sector) (begin n : ℕ) (s s1 : State)
    → first_cluster_of v fd s ≡ ok (fd1, s1)
    → first_cluster_of v fd1 s1 ≡ ok (fd1, s1)
    → fat32_write_file_sectors v fd buf begin n s ≡ fat32_write_file_sectors v fd1 buf begin n s1
unfolding fat32_write_file_sectors
write_first v fd fd1 buf begin n s s1 first again = >>=-ok _ first ∙ sym (>>=-ok _ again)

Written-First :
    (v : Volume) (s s1 s' : State) (c : ℕ) (l : List ℕ) (o n : ℕ) (buf : ℕ → Sector)
    → First v s c s1
    → Written v s1 c c l o n buf 0 s'
    → Written v s c c l o n buf 0 s'
Written-First v s s1 s' c l o n buf f w = record {
  cached = w.cached;
  links = w.links;
  range = w.range;
  inside = w.inside;
  outside = λ lba le out. w.outside lba le out ∙ ap (λ k. k lba) f.disk;
  others = λ d ld ne used.
      (let same = f.others d ld ne in w.others d ld ne (ground (arith, same, used)) ∙ same);
}

-- what such a write leaves, when the cluster found is `c`
abbrev pub FirstWrites : Volume → File → (ℕ → Sector) → ℕ → ℕ → ℕ → State → Type 0
FirstWrites v fd buf begin n c s =
    (r left_ : ℕ) × (s' : State) × (ext : List ℕ) × (fat32_write_file_sectors v fd buf begin n s
      ≡ ok (r, record fd { addr = c }, s'))
    × (left_ ≤ n)
    × ((begin + n ≤ v.cluster_size) → (left_ ≡ 0) × (ext ≡ []))
    × Written v s c c ext begin (n - left_) buf 0 s'

write-Found :
    (v : Volume) (fd : File) (buf : ℕ → Sector) (begin n c : ℕ) (s s1 : State)
    → Small v
    → AllData v
    → fd.addr ≡ 0
    → fd.file_size ≡ 0
    → alloc_fat v s ≡ ok (c, s1)
    → Found v s c s1
    → (c == 0) ≡ false
    → 0 < n
    → begin < v.cluster_size
    → begin < 2 ^ 32
    → FirstWrites v fd buf begin n c s
write-Found v fd buf begin n c s s1 g all none_ size_ run found some_ pos in_ low =
    let (s2, allocated, f) = alloc_file_cluster-First v fd s s1 c g size_ run found some_ in
    let fd1 : File = record fd { addr = c } in
    let empty : (fd.addr == 0) ≡ true = ground arith in
    let first : first_cluster_of v fd s ≡ ok (fd1, s2) = rw (empty, first_cluster_of) allocated in
    let again : first_cluster_of v fd1 s2 ≡ ok (fd1, s2) = rw (some_, first_cluster_of) refl in
    let zeroth : begin / v.cluster_size ≤ 0 = omega (arith, div-eq_of_lt in_) in
    let (r, left_, s', ext, done, le, fits, partial, clean, written) =
      fat32_write-Written v fd1 [] buf begin n s2 g all f.cached f.above f.links pos low zeroth in
    (
      r,
      left_,
      s',
      ext,
      write_first v fd fd1 buf begin n s s2 first again ∙ done,
      le,
      λ e. fits (omega (arith, e)),
      Written-First v s s2 s' c ext begin (n - left_) buf f written,
    )

-- A write to an empty file that begins in its first cluster: allocFAT ends, and unless it finds no
-- cluster, the write returns and the file has this cluster as its first. The sectors of the file
-- from `begin` on hold the buffer, up to what is left, and no other sector after the table changes,
-- nor the entry of a cluster in use. Nothing is left when the one cluster suffices.
pub fat32_write-first :
    (v : Volume) (fd : File) (buf : ℕ → Sector) (begin n : ℕ) (s : State)
    → Small v
    → AllData v
    → Cached v s
    → fd.addr ≡ 0
    → fd.file_size ≡ 0
    → 0 < n
    → begin < v.cluster_size
    → begin < 2 ^ 32
    → (c : ℕ) × (s1 : State) × (alloc_fat v s ≡ ok (c, s1))
      × ((c ≡ 0) ⊎ FirstWrites v fd buf begin n c s)
fat32_write-first v fd buf begin n s g all h none_ size_ pos in_ low =
    let (c, s1, run, found) = alloc_fat-Found v s g h in
    (
      c,
      s1,
      run,
      elim (Bool-cases (c == 0)) [
        | inl full ↦ inl (ground arith)
        | inr some_ ↦
            inr (write-Found v fd buf begin n c s s1 g all none_ size_ run found some_ pos in_ low)
      ],
    )
