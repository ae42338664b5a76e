-- ===== src/Fat32/GapWrites.antt =====
-- A write that begins beyond the last cluster of the file, in kernel/fs/fat32/fat32.c.
use mathlib.Core.Path.{subst}
use mathlib.Core.List.{append_assoc}
use native.Mathlib.Nat.{mod-lt, mod-eq_of_lt, div-le_self, div-add-mod'}
use bincows.Base.{
  ℕ, zero, suc, ◌+◌, ◌-◌, ◌*◌, ◌/◌, ◌%◌, ◌^◌, ◌≤◌, ◌<◌, ◌≡◌, ◌∙◌, refl, sym, ap, true, false, ◌⊎◌,
  inl, inr, ltb, leb, ◌==◌, Outcome, ok, ◌>>=◌, ◌>>◌, >>=-run, arith, List, [], ◌∷◌, ◌++◌, length,
  length-append, drop,
}
use bincows.Fat32.{Sector, Volume, State, fat_cache_size, block_size}
use bincows.Fat32.Files.{
  File, no_end, first_cluster_of, fetch_loop, fetch_cluster, extend_loop, write_loop,
  fat32_write_file_sectors,
}
use bincows.Fat32.View.{Small, Cached, Same, Same-self}
use bincows.Fat32.Entries.{entry_apart, Same-entry}
use bincows.Fat32.Chains.{Links, Links-Same, Links-first, last_of, cluster_of, fetch_loop-beyond}
use bincows.Fat32.Places.{length-drop}
use bincows.Fat32.FileReads.{left_inside}
use bincows.Fat32.Apart.{AllData, Links-drop, cluster_of-above}
use bincows.Fat32.Prefix.{Written-prefix}
use bincows.Fat32.Finishing.{after_writes, after_writes-Written}
use bincows.Fat32.Writing.{Written}
use bincows.Fat32.Appending.{NoCluster, write_loop-Written}
use bincows.Fat32.Extending.{Extended, Exhausted, Extended-Same, extend_loop-Extended}

cluster_of-last : (c : ℕ) (l : List ℕ) → cluster_of c l (length l) ≡ last_of c l
cluster_of-last c [] = refl
cluster_of-last c (d ∷ l) = cluster_of-last d l

-- The clusters after the last one of the list
last_of-more :
    (c : ℕ) (l more : List ℕ) (q : ℕ)
    → q ≤ length l
    → last_of (cluster_of c l q) (drop q l ++ more) ≡ last_of c (l ++ more)
last_of-more c l more zero le = refl
last_of-more c [] more (suc q) le = absurd (omega arith)
last_of-more c (d ∷ l) more (suc q) le = last_of-more d l more q (omega arith)

-- The file after an extension and a write from the state that it leaves
Written-Extended :
    (v : Volume) (s s1 s2 s' : State) (c : ℕ) (l ext m : List ℕ) (o n : ℕ) (buf : ℕ → Sector)
    → Small v
    → Same v s s1
    → Extended v s1 c l ext s2
    → Written v s2 c (last_of c (l ++ ext)) m o n buf 0 s'
    → 0 < length ext
    → Written v s c (last_of c l) m o n buf 0 s'
Written-Extended v s s1 s2 s' c l ext m o n buf g same x w pos = record {
  cached = w.cached;
  links = w.links;
  range = w.range;
  inside = w.inside;
  outside = λ lba le out. w.outside lba le out ∙ ap (λ k. k lba) (x.disk ∙ same.disk);
  others = λ d ld ne used.
      (let was = Same-entry v s s1 d g same ld in
        let still = x.others d ld ne (ground (arith, was, used)) in
        let apart : (d == last_of c (l ++ ext)) ≡ false = elim x.fresh [
          | inl none_ ↦ (let short = ap length none_ in absurd (omega (arith, short)))
          | inr (low, zero_) ↦
              entry_apart v s1 d (last_of c (l ++ ext)) (ground (arith, was, used, zero_))
        ] in
        w.others d ld apart (ground (arith, still, was, used)) ∙ still ∙ was);
}

-- what the code does when the chain has been extended to the cluster `c`
abbrev after_extension :
    Volume → File → (ℕ → Sector) → ℕ → ℕ → ℕ → State → Outcome (ℕ × File × State)
after_extension v fd buf begin n c s = elim (c == 0) [
  | true ↦ ok (0, fd, s)
  | false ↦ (do
    (left_, w, s3) ← write_loop v (n + 1) buf 0 c (begin % v.cluster_size) n 0 s
    after_writes v fd left_ w s3)
]

gap_run :
    (v : Volume) (fd : File) (buf : ℕ → Sector) (begin n c end_ : ℕ) (s s1 : State)
    {r : Outcome (ℕ × File × State)}
    → (fd.addr == 0) ≡ false
    → begin < 2 ^ 32
    → (c == 0) ≡ false
    → fetch_loop v (begin / v.cluster_size) 0 fd.addr s ≡ ok (c, end_, s1)
    → (end_ == no_end) ≡ false
    → leb fd.file_size
        ((begin + n + (2 ^ 64 - 1)) % 2 ^ 64 * v.cluster_size % 2 ^ 64 * block_size v % 2 ^ 64)
      ≡ true
    → ltb end_ (begin / v.cluster_size) ≡ true
    → (do
      (c2, s2) ← extend_loop v (begin / v.cluster_size - end_) c s1
      after_extension v fd buf begin n c2 s2)
      ≡ r
    → fat32_write_file_sectors v fd buf begin n s ≡ r
unfolding fat32_write_file_sectors fetch_cluster
gap_run v fd buf begin n c end_ s s1 has_addr low some_ fetched beyond large less rest =
    let same : first_cluster_of v fd s ≡ ok (fd, s) = rw (has_addr, first_cluster_of) refl in
    let cut : begin / v.cluster_size % 2 ^ 32 ≡ begin / v.cluster_size =
      mod-eq_of_lt (omega (arith, div-le_self begin v.cluster_size)) in
    rw cut
      (>>=-run _ same (>>=-run _ fetched (rw (some_, beyond) (rw (large, ◌>>◌, cut, less) rest))))

-- What such a write leaves, when the clusters up to its first sector are there
gap_found :
    (v : Volume) (fd : File) (l ext : List ℕ) (buf : ℕ → Sector) (begin n : ℕ) (s s1 s2 : State)
    → Small v
    → AllData v
    → 1 < fd.addr
    → Same v s s1
    → Extended v s1 fd.addr l ext s2
    → length ext ≡ begin / v.cluster_size - length l
    → length l < begin / v.cluster_size
    → 0 < n
    → (r left_ : ℕ) × (s' : State) × (more : List ℕ) × (after_extension v fd buf begin n
          (last_of fd.addr (l ++ ext))
          s2
        ≡ ok (r, fd, s'))
      × (left_ ≤ n)
      × ((begin + n ≤ v.cluster_size * suc (begin / v.cluster_size)) → left_ ≡ 0)
      × ((left_ == 0) ≡ false
          → (r ≡ left_ % 2 ^ 32) × NoCluster v (last_of fd.addr ((l ++ ext) ++ more)) s')
      × ((left_ == 0) ≡ true → (h : ℕ) → h < fat_cache_size → s'.modified h ≡ false)
      × Written v s fd.addr (last_of fd.addr l) ((l ++ ext) ++ more) begin (n - left_) buf 0 s'
gap_found v fd l ext buf begin n s s1 s2 g all some_ same x count beyond pos =
    let q = begin / v.cluster_size in
    let list = l ++ ext in
    let long : length list ≡ q = length-append l ext ∙ omega (arith, count) in
    let all_in : q ≤ length list = omega arith in
    let c = cluster_of fd.addr list q in
    let is_last : c ≡ last_of fd.addr list =
      ap (cluster_of fd.addr list) (sym long) ∙ cluster_of-last fd.addr list in
    let above = cluster_of-above v s2 fd.addr list q some_ all_in x.links in
    let links = Links-drop v s2 fd.addr list q all_in x.links in
    let used : (c == 0) ≡ false = ground (arith, above) in
    let (left_, w, s3, more, run, le, fits, out, written) =
      write_loop-Written v buf g all (n + 1) 0 c (begin % v.cluster_size) n 0 s2 (drop q list)
        x.cached links (above, Links-first v s2 c (drop q list) links) (mod-lt begin g.cluster_pos)
        pos (omega arith) in
    let split = div-add-mod' begin v.cluster_size in
    let whole =
      subst (λ k. Written v s2 fd.addr (last_of fd.addr list) (list ++ more) k (n - left_) buf 0 s3)
        split
        (Written-prefix v s2 s2 s3 fd.addr list more q (begin % v.cluster_size) (n - left_) buf g
          all_in x.links (Same-self v s2 x.cached) written) in
    let from_start =
      Written-Extended v s s1 s2 s3 fd.addr l ext (list ++ more) begin (n - left_) buf g same x
        whole (omega (arith, count)) in
    let (r, s', done, partial, clean, stored) =
      after_writes-Written v fd left_ w fd.addr (last_of fd.addr l) begin (n - left_) buf s s3
        (list ++ more) g all some_ from_start in
    (
      r,
      left_,
      s',
      more,
      ap (λ k. after_extension v fd buf begin n k s2) (sym is_last)
          ∙ rw (used, after_extension) (>>=-run _ run done),
      le,
      λ e.
          (fits (
            rw (length-drop list q all_in) (
              left_inside v.cluster_size begin n (length list) all_in
                (subst (λ m. begin + n ≤ v.cluster_size * suc m) (sym long) e)))).0,
      λ z. (
        (partial z).0,
        subst (NoCluster v (last_of fd.addr (list ++ more))) (sym (partial z).1)
            (subst (λ k. NoCluster v k s3) (last_of-more fd.addr list more q all_in) (out z)),
      ),
      clean,
      stored,
    )

-- A write that begins beyond the last cluster of the file, and that passes the test of the size,
-- returns. Either its result is 0: then fewer clusters were added at the end of the file than it
-- lacks, and the next search of allocFAT found none. Or the sectors of the file from `begin` on hold
-- the buffer, up to what is left of it, clusters are only added at the end of the file, and no other
-- sector after the table changes, nor the entry of another cluster in use. Nothing is left when the
-- buffer fits in the cluster in which it begins. If something is left, the result is what is left, and
-- the last search for a cluster after the end of the file has found none; if nothing is, no slot of the
-- cache is marked.
pub fat32_write-gap :
    (v : Volume) (fd : File) (l : List ℕ) (buf : ℕ → Sector) (begin n : ℕ) (s : State)
    → Small v
    → AllData v
    → Cached v s
    → 1 < fd.addr
    → Links v s fd.addr l
    → 0 < n
    → begin < 2 ^ 32
    → length l < begin / v.cluster_size
    → leb fd.file_size
        ((begin + n + (2 ^ 64 - 1)) % 2 ^ 64 * v.cluster_size % 2 ^ 64 * block_size v % 2 ^ 64)
      ≡ true
    → (r left_ : ℕ) × (s' : State) × (ext : List ℕ) × (fat32_write_file_sectors v fd buf begin n s
        ≡ ok (r, fd, s'))
      × (((r ≡ 0) × Exhausted v (begin / v.cluster_size - length l) fd.addr l ext s s')
          ⊎ ((left_ ≤ n)
              × ((begin + n ≤ v.cluster_size * suc (begin / v.cluster_size)) → left_ ≡ 0)
              × ((left_ == 0) ≡ false
                  → (r ≡ left_ % 2 ^ 32) × NoCluster v (last_of fd.addr (l ++ ext)) s')
              × ((left_ == 0) ≡ true → (h : ℕ) → h < fat_cache_size → s'.modified h ≡ false)
              × Written v s fd.addr (last_of fd.addr l) (l ++ ext) begin (n - left_) buf 0 s'))
fat32_write-gap v fd l buf begin n s g all h some_ links pos low beyond large =
    let q = begin / v.cluster_size in
    let k = q - length l in
    let (s1, fetched, same) = fetch_loop-beyond v q 0 fd.addr l s g h links beyond in
    let narrow : q < 2 ^ 32 = omega (arith, div-le_self begin v.cluster_size) in
    let links1 = Links-Same v s s1 fd.addr l g same links in
    let (c2, s2, ext, extended, end_) =
      extend_loop-Extended v k fd.addr l s1 g same.cached links1 in
    let has_addr : (fd.addr == 0) ≡ false = ground arith in
    let zeroth : 0 + length l ≡ length l = omega arith in
    let fetched' = fetched ∙ ap (λ e. ok (last_of fd.addr l, e, s1)) zeroth in
    let long = cluster_of-last fd.addr l in
    let last_some : (last_of fd.addr l == 0) ≡ false =
      subst (λ x. (x == 0) ≡ false) long
        (ground (arith, cluster_of-above v s fd.addr l (length l) some_ (omega arith) links)) in
    let run : fat32_write_file_sectors v fd buf begin n s ≡ after_extension v fd buf begin n c2 s2 =
      gap_run v fd buf begin n (last_of fd.addr l) (length l) s s1 has_addr low last_some fetched'
        (ground arith) large (ground arith) (>>=-run _ extended refl) in
    elim end_ [
      | inl (full, e) ↦
          (let none_ : (c2 == 0) ≡ true = ground arith in
            (
              0,
              0,
              s2,
              ext,
              run ∙ rw (none_, after_extension) refl,
              inl (
                refl,
                record {
                  fewer = e.fewer;
                  before = e.before;
                  reached = Extended-Same v s s1 e.before fd.addr l ext g same e.reached;
                  none_left = e.none_left;
                },
              ),
            ))
      | inr (last, count, x) ↦
          (let (r, left_, s', more, done, le, fits, partial, clean, stored) =
              gap_found v fd l ext buf begin n s s1 s2 g all some_ same x count beyond pos in
            (
              r,
              left_,
              s',
              ext ++ more,
              run ∙ ap (λ c. after_extension v fd buf begin n c s2) last ∙ done,
              inr (
                le,
                fits,
                λ z.
                    subst (λ k. (r ≡ left_ % 2 ^ 32) × NoCluster v (last_of fd.addr k) s')
                      (append_assoc l ext more) (partial z),
                clean,
                subst (λ m. Written v s fd.addr (last_of fd.addr l) m begin (n - left_) buf 0 s')
                    (append_assoc l ext more) stored,
              ),
            ))
    ]
