-- ===== src/Fat32/Appending.antt =====
-- The loop of `fat32_write_file_sectors` of kernel/fs/fat32/fat32.c, along the chain of the file and
-- past its end.
use mathlib.Core.Path.{subst}
use native.Mathlib.Nat.{mul-suc}
use bincows.Base.{
  ℕ, zero, suc, ◌+◌, ◌-◌, ◌*◌, ◌%◌, ◌^◌, ◌≤◌, ◌<◌, ◌≡◌, ◌∙◌, refl, sym, ap, false, ◌⊎◌, inl, inr,
  Bool-cases, ltb, ◌==◌, ok, arith, List, [], ◌∷◌, ◌++◌, append-nil, length,
}
use bincows.Fat32.{Sector, Volume, State, cluster_begin, write, read_or_allocate_fat}
use bincows.Fat32.Files.{write_loop}
use bincows.Fat32.View.{Small, Cached, Same}
use bincows.Fat32.Entries.{entry, entry_apart, IsCluster, Same-entry}
use bincows.Fat32.Chains.{Links, Links-entries, Links-first, last_of}
use bincows.Fat32.Growing.{Grown, read_or_allocate_fat-Grown}
use bincows.Fat32.Places.{cluster_begin_lem}
use bincows.Fat32.Apart.{AllData}
use bincows.Fat32.Writing.{Put, write-Put, Put-Same, Written, Written-Put, Written-on}
use bincows.Fat32.Rounds.{
  read_or_allocate_fat-link, first_apart, Grown-apart, write_round, write_full, write_last,
}

-- What a run of the loop ends with: the part of `n` that is left, the clusters added, and the file
-- A search for a cluster after `c` has found none, and has left this state.
abbrev pub NoCluster : Volume → ℕ → State → Type 0
NoCluster v c s = (before : State) × (read_or_allocate_fat v c before ≡ ok (0, s))

abbrev pub Ends : Volume → ℕ → (ℕ → Sector) → ℕ → ℕ → ℕ → ℕ → ℕ → State → List ℕ → Type 0
Ends v k buf at_ c o n w s l =
    (left_ written : ℕ) × (s' : State) × (ext : List ℕ) × (write_loop v k buf at_ c o n w s
      ≡ ok (left_, written, s'))
    × (left_ ≤ n)
    × ((o + n ≤ v.cluster_size * suc (length l)) → (left_ ≡ 0) × (ext ≡ []))
    × ((left_ == 0) ≡ false → NoCluster v (last_of c (l ++ ext)) s')
    × Written v s c (last_of c l) (l ++ ext) o (n - left_) buf at_ s'

module _ (v : Volume) (buf : ℕ → Sector) (g : Small v) (all : AllData v) where
  -- the last write
  Ends-here :
      (k at_ c o n w : ℕ) (s : State) (l : List ℕ)
      → Cached v s
      → Links v s c l
      → (1 < c) × IsCluster v c
      → o < v.cluster_size
      → 0 < n
      → n ≤ v.cluster_size - o
      → Ends v (suc k) buf at_ c o n w s l
  Ends-here k at_ c o n w s l h links (c1, c2) lt pos le =
      let first = all c c1 c2 in
      let begin = cluster_begin_lem v c g (omega (arith, c2, g.clusters)) first in
      let (s1, run, put) =
        write-Put v s (cluster_begin v c + o) buf at_ n g h (omega (arith, begin))
          (omega (arith, begin, first)) in
      let end_ : l ++ [] ≡ l = append-nil l in
      let all_n : n - 0 ≡ n = omega arith in
      (
        0,
        w + 1,
        s1,
        [],
        write_last v k c o n w buf at_ s s1 c1 pos le run,
        omega arith,
        λ fits. (refl, refl),
        λ z. absurd (ground arith),
        rw (end_, all_n) (Written-Put v s s1 c (last_of c l) l o n buf at_ (omega arith) links put),
      )

  -- the write of the rest of a cluster, with another to follow
  Ends-later :
      (k at_ c o n w d : ℕ) (s s1 s2 : State) (l m : List ℕ)
      → (1 < c) × IsCluster v c
      → o < v.cluster_size
      → v.cluster_size - o < n
      → write v (cluster_begin v c + o) buf at_ (v.cluster_size - o) s ≡ ok s1
      → Put v s (cluster_begin v c + o) buf at_ (v.cluster_size - o) s1
      → read_or_allocate_fat v c s1 ≡ ok (d, s2)
      → s2.disk ≡ s1.disk
      → (1 < d) × (d < 0x0FFFFFF8) × (entry v s2 c % 2 ^ 28 ≡ d)
      → (c == last_of d m) ≡ false
      → ((x : ℕ)
          → IsCluster v x
          → (x == last_of c l) ≡ false
          → (entry v s1 x == 0) ≡ false
          → (entry v s2 x ≡ entry v s1 x) × ((x == last_of d m) ≡ false))
      → ((l ≡ d ∷ m) ⊎ ((l ≡ []) × (m ≡ [])))
      → Ends v k buf (at_ + (v.cluster_size - o)) d 0 (n - (v.cluster_size - o)) (w + 1) s2 m
      → Ends v (suc k) buf at_ c o n w s l
  Ends-later k at_ c o n w d s s1 s2 l m (c1, c2) lt more run put step disk next ne keeps parts
        (left_, w2, s', ext, rest, le, all_in, out, written) =
      let some_ : (d == 0) ≡ false = ground arith in
      let count : v.cluster_size - o + (n - (v.cluster_size - o) - left_) ≡ n - left_ =
        omega arith in
      let whole =
        subst (λ q. Written v s c (last_of c l) (d ∷ (m ++ ext)) o q buf at_ s') count
          (Written-on v s s1 s2 s' c (last_of c l) d (last_of d m) (m ++ ext) o _ buf at_ g all
            (c1, c2) lt put disk next ne keeps written) in
      let run' = write_round v k c o n w d buf at_ s s1 s2 c1 more run step some_ rest in
      elim parts [
        | inl link ↦
            (let long : length l ≡ suc (length m) = ap length link in
              let lists : d ∷ (m ++ ext) ≡ l ++ ext = ap (λ q. q ++ ext) (sym link) in
              (
                left_,
                w2,
                s',
                ext,
                run',
                omega (arith, le),
                λ fits. all_in (
                    omega (
                      arith,
                      ap (λ q. v.cluster_size * suc q) long,
                      mul-suc v.cluster_size (suc (length m)),
                    )),
                λ z. subst (λ q. NoCluster v (last_of c q) s') lists (out z),
                subst (λ q. Written v s c (last_of c l) q o (n - left_) buf at_ s') lists whole,
              ))
        | inr (none_, alone) ↦
            (let lists : d ∷ (m ++ ext) ≡ l ++ (d ∷ ext) =
                ap (λ q. d ∷ (q ++ ext)) alone ∙ ap (λ q. q ++ (d ∷ ext)) (sym none_) in
              (
                left_,
                w2,
                s',
                d ∷ ext,
                run',
                omega (arith, le),
                λ fits. absurd (omega (arith, ap (λ q. v.cluster_size * suc (length q)) none_)),
                λ z. subst (λ q. NoCluster v (last_of c q) s') lists (out z),
                subst (λ q. Written v s c (last_of c l) q o (n - left_) buf at_ s') lists whole,
              ))
      ]

  -- the write of the rest of a cluster, when no other is found
  Ends-full :
      (k at_ c o n w d : ℕ) (s s1 s2 : State)
      → 1 < c
      → o < v.cluster_size
      → v.cluster_size - o < n
      → Links v s c []
      → write v (cluster_begin v c + o) buf at_ (v.cluster_size - o) s ≡ ok s1
      → Put v s (cluster_begin v c + o) buf at_ (v.cluster_size - o) s1
      → read_or_allocate_fat v c s1 ≡ ok (d, s2)
      → d ≡ 0
      → Same v s1 s2
      → Ends v (suc k) buf at_ c o n w s []
  Ends-full k at_ c o n w d s s1 s2 some_ lt more links run put step none_ same =
      let count : v.cluster_size - o ≡ n - (n - (v.cluster_size - o)) = omega arith in
      (
        n - (v.cluster_size - o),
        w + 1,
        s2,
        [],
        write_full v k c o n w buf at_ s s1 s2 some_ more run (step ∙ ap (λ q. ok (q, s2)) none_),
        omega arith,
        λ fits. absurd (omega arith),
        λ z. (s1, step ∙ ap (λ q. ok (q, s2)) none_),
        subst (λ q. Written v s c c [] o q buf at_ s2) count
            (Written-Put v s s2 c c [] o (v.cluster_size - o) buf at_ (omega arith) links
              (Put-Same v s s1 s2 (cluster_begin v c + o) buf at_ (v.cluster_size - o) g put same)),
      )

  -- the next cluster, when the file has one
  on_chain :
      (s s1 s2 : State) (c d : ℕ) (m : List ℕ)
      → Same v s1 s2
      → Links v s1 c (d ∷ m)
      → ((1 < d) × (d < 0x0FFFFFF8) × (entry v s2 c % 2 ^ 28 ≡ d))
        × ((x : ℕ)
            → IsCluster v x
            → (x == last_of d m) ≡ false
            → (entry v s1 x == 0) ≡ false
            → (entry v s2 x ≡ entry v s1 x) × ((x == last_of d m) ≡ false))
  on_chain s s1 s2 c d m same (a, (b, f, e), r) = (
    (b, f, ap (λ k. k % 2 ^ 28) (Same-entry v s1 s2 c g same a) ∙ e),
    λ x lx nx ux. (Same-entry v s1 s2 x g same lx, nx),
  )

  -- the next cluster, when it is a new one
  off_chain :
      (s1 s2 : State) (c d : ℕ)
      → Grown v s1 c d s2
      → ((1 < d) × (d < 0x0FFFFFF8) × (entry v s2 c % 2 ^ 28 ≡ d))
        × ((x : ℕ)
            → IsCluster v x
            → (x == c) ≡ false
            → (entry v s1 x == 0) ≡ false
            → (entry v s2 x ≡ entry v s1 x) × ((x == d) ≡ false))
  off_chain s1 s2 c d w = (
    (w.new_in.0, omega (arith, w.new_in.1, g.clusters), w.links),
    λ x lx nx ux.
        (let ne = entry_apart v s1 x d (ground (arith, ux, w.was_free)) in
          (w.others x lx nx ne, ne)),
  )

  goes_on :
      (k at_ c o n w : ℕ) (s : State) (l : List ℕ)
      → Cached v s
      → Links v s c l
      → (1 < c) × IsCluster v c
      → o < v.cluster_size
      → v.cluster_size - o < n
      → n ≤ k
      → ((c1 o1 n1 w1 at1 : ℕ) (s1 : State) (m : List ℕ)
          → Cached v s1
          → Links v s1 c1 m
          → (1 < c1) × IsCluster v c1
          → o1 < v.cluster_size
          → 0 < n1
          → n1 < k
          → Ends v k buf at1 c1 o1 n1 w1 s1 m)
      → Ends v (suc k) buf at_ c o n w s l
  goes_on k at_ c o n w s [] h links (c1, c2) lt more fuel rest =
      let first = all c c1 c2 in
      let begin = cluster_begin_lem v c g (omega (arith, c2, g.clusters)) first in
      let (s1, run, put) =
        write-Put v s (cluster_begin v c + o) buf at_ (v.cluster_size - o) g h
          (omega (arith, begin)) (omega (arith, begin, first)) in
      let links1 = Links-entries v s s1 c [] put.entries links in
      let (d, s2, step, end_) = read_or_allocate_fat-Grown v s1 c [] g put.cached links1 in
      elim end_ [
        | inl (none_, same) ↦
            Ends-full k at_ c o n w d s s1 s2 c1 lt more links run put step none_ same
        | inr (grown, chain) ↦
            (let (next, keeps) = off_chain s1 s2 c d grown in
              let ne = Grown-apart v s1 s2 c d links1 grown in
              Ends-later k at_ c o n w d s s1 s2 [] [] (c1, c2) lt more run put step grown.disk next
                ne keeps (inr (refl, refl))
                (rest d 0 (n - (v.cluster_size - o)) (w + 1) (at_ + (v.cluster_size - o)) s2 []
                  grown.cached grown.ends grown.new_in g.cluster_pos (omega arith) (omega arith)))
      ]
  goes_on k at_ c o n w s (d ∷ m) h links (c1, c2) lt more fuel rest =
      let first = all c c1 c2 in
      let begin = cluster_begin_lem v c g (omega (arith, c2, g.clusters)) first in
      let (s1, run, put) =
        write-Put v s (cluster_begin v c + o) buf at_ (v.cluster_size - o) g h
          (omega (arith, begin)) (omega (arith, begin, first)) in
      let links1 = Links-entries v s s1 c (d ∷ m) put.entries links in
      let (s2, step, same, links2) = read_or_allocate_fat-link v s1 c d m g put.cached links1 in
      let (next, keeps) = on_chain s s1 s2 c d m same links1 in
      Ends-later k at_ c o n w d s s1 s2 (d ∷ m) m (c1, c2) lt more run put step same.disk next
        (first_apart v s1 c d m links1) keeps (inl refl)
        (rest d 0 (n - (v.cluster_size - o)) (w + 1) (at_ + (v.cluster_size - o)) s2 m same.cached
          links2 (next.0, Links-first v s2 d m links2) g.cluster_pos (omega arith) (omega arith))

  -- Along the chain and past its end, the loop writes the sectors of the file; when it stops before
  -- the end of the buffer, no free cluster has been found.
  pub write_loop-Written :
      (k at_ c o n w : ℕ) (s : State) (l : List ℕ)
      → Cached v s
      → Links v s c l
      → (1 < c) × IsCluster v c
      → o < v.cluster_size
      → 0 < n
      → n < k
      → Ends v k buf at_ c o n w s l
  write_loop-Written zero at_ c o n w s l h links in_ lt pos fuel = absurd (omega arith)
  write_loop-Written (suc k) at_ c o n w s l h links in_ lt pos fuel =
      elim (Bool-cases (ltb (v.cluster_size - o) n)) [
        | inr last ↦ Ends-here k at_ c o n w s l h links in_ lt pos (ground arith)
        | inl more ↦
            (let rest : (c1 o1 n1 w1 at1 : ℕ) (s1 : State) (m : List ℕ)
                  → Cached v s1
                  → Links v s1 c1 m
                  → (1 < c1) × IsCluster v c1
                  → o1 < v.cluster_size
                  → 0 < n1
                  → n1 < k
                  → Ends v k buf at1 c1 o1 n1 w1 s1 m =
                λ c1 o1 n1 w1 at1 s1 m. write_loop-Written k at1 c1 o1 n1 w1 s1 m in
              goes_on k at_ c o n w s l h links in_ lt (ground arith) (omega arith) rest)
      ]
