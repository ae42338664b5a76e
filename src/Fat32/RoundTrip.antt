-- ===== src/Fat32/RoundTrip.antt =====
-- Reading back what was written to a file, with the code of kernel/fs/fat32/fat32.c.
use bincows.Base.{
  ℕ, suc, ◌+◌, ◌-◌, ◌*◌, ◌%◌, ◌^◌, ◌≤◌, ◌<◌, ◌≡◌, ◌∙◌, sym, ap, ok, arith, List, [], ◌∷◌, ◌++◌,
  append-nil, length,
}
use mathlib.Core.Path.{subst}
use bincows.Fat32.{Sector, Volume, State}
use bincows.Fat32.Files.{File, fat32_read_file_sectors, fat32_write_file_sectors}
use bincows.Fat32.View.{Small, Cached}
use bincows.Fat32.Chains.{Links}
use bincows.Fat32.Places.{place, HaveData}
use bincows.Fat32.Apart.{AllData}
use bincows.Fat32.FileReads.{fat32_read-Filled, cluster_inside}
use bincows.Fat32.FileWrites.{fat32_write-Written}

all_have :
    (v : Volume) (s : State) (c : ℕ) (l : List ℕ)
    → AllData v
    → 1 < c
    → Links v s c l
    → HaveData v c l
all_have v s c [] all some_ (a, e) = all c some_ a
all_have v s c (d ∷ l) all some_ (a, (b, f, e), r) = (all c some_ a, all_have v s d l all b r)

-- After a write to clusters that the file has, a read of the same sectors returns, and the buffer
-- holds what was written.
pub read_file_sectors-write :
    (v : Volume) (fd : File) (l : List ℕ) (data_ buf : ℕ → Sector) (begin n : ℕ) (s : State)
    → Small v
    → AllData v
    → Cached v s
    → 1 < fd.addr
    → Links v s fd.addr l
    → 0 < n
    → begin < 2 ^ 32
    → begin + n ≤ v.cluster_size * suc (length l)
    → (begin + n - 1) * v.cluster_size < fd.file_size
    → fd.file_size < 2 ^ 64
    → (r : ℕ) × (s1 s2 : State) × (buf' : ℕ → Sector) × (fat32_write_file_sectors v fd data_ begin n
          s
        ≡ ok (r, fd, s1))
      × (fat32_read_file_sectors v fd buf begin n s1 ≡ ok (n % 2 ^ 32, buf', s2))
      × ((j : ℕ) → j < n → buf' j ≡ data_ j)
read_file_sectors-write v fd l data_ buf begin n s g all h some_ links pos low fits small narrow =
    let in_ = cluster_inside v.cluster_size begin n (length l) g.cluster_pos pos fits in
    let (r, left_, s1, ext, run, le, whole, full, clean, w) =
      fat32_write-Written v fd l data_ begin n s g all h some_ links pos low in_ in
    let (none_, same) = whole fits in
    let list : l ++ ext ≡ l = ap (λ k. l ++ k) same ∙ append-nil l in
    let links1 = subst (λ k. Links v s1 fd.addr k) list w.links in
    let (buf', s2, got, kept, filled) =
      fat32_read-Filled v fd l buf begin n s1 g w.cached links1
        (all_have v s1 fd.addr l all some_ links1) pos fits small narrow in
    (
      r,
      s1,
      s2,
      buf',
      run,
      got,
      λ j lt.
          ap buf' (omega arith)
          ∙ filled.inside j lt
          ∙ ap (λ k. s1.disk (place v fd.addr k (begin + j))) (sym list)
          ∙ w.inside j (omega (arith, none_))
          ∙ ap data_ (omega arith),
    )
