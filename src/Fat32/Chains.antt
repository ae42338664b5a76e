-- ===== src/Fat32/Chains.antt =====
-- The clusters of a file as a list, and `fetch_cluster`, of kernel/fs/fat32/fat32.c.
use bincows.Base.{
  ℕ, zero, suc, ◌+◌, ◌%◌, ◌^◌, ◌≤◌, ◌<◌, ◌≡◌, ◌∙◌, refl, ap, false, ◌==◌, ok, >>=-run, arith, List,
  [], ◌∷◌, length, get_or, drop,
}
use bincows.Fat32.{Volume, State, read_fat}
use bincows.Fat32.Files.{no_end, fetch_loop}
use bincows.Fat32.View.{Small, Cached, Same, Same-self, Same-trans}
use bincows.Fat32.Entries.{entry, IsCluster, Same-entry, read_fat-next, next_of}

-- The table leads from a cluster through those of a list, and the last has the end mark.
abbrev pub Links : Volume → State → ℕ → List ℕ → Type 0
Links v s c [] = IsCluster v c × (0x0FFFFFF8 ≤ entry v s c % 2 ^ 28)
Links v s c (d ∷ l) =
    IsCluster v c × ((1 < d) × (d < 0x0FFFFFF8) × (entry v s c % 2 ^ 28 ≡ d)) × Links v s d l

-- the cluster of the file with a number
abbrev pub cluster_of : ℕ → List ℕ → ℕ → ℕ
cluster_of c l k = get_or (c ∷ l) k 0

abbrev pub last_of : ℕ → List ℕ → ℕ
last_of c [] = c
last_of c (d ∷ l) = last_of d l

pub Links-first : (v : Volume) (s : State) (c : ℕ) (l : List ℕ) → Links v s c l → IsCluster v c
Links-first v s c [] (a, e) = a
Links-first v s c (d ∷ l) (a, b, r) = a

pub Links-entries :
    (v : Volume) (s s' : State) (c : ℕ) (l : List ℕ)
    → ((d : ℕ) → IsCluster v d → entry v s' d ≡ entry v s d)
    → Links v s c l
    → Links v s' c l
Links-entries v s s' c [] same (a, e) = (a, rw (same c a) e)
Links-entries v s s' c (d ∷ l) same (a, (b, f, e), r) =
    (a, (b, f, ap (λ k. k % 2 ^ 28) (same c a) ∙ e), Links-entries v s s' d l same r)

pub Links-Same :
    (v : Volume) (s s' : State) (c : ℕ) (l : List ℕ)
    → Small v
    → Same v s s'
    → Links v s c l
    → Links v s' c l
Links-Same v s s' c l g same r = Links-entries v s s' c l (λ d ld. Same-entry v s s' d g same ld) r

pub read_fat-link :
    (v : Volume) (s : State) (c d : ℕ) (l : List ℕ)
    → Small v
    → Cached v s
    → Links v s c (d ∷ l)
    → (s' : State) × (read_fat v c s ≡ ok (d, s')) × Same v s s' × Links v s' d l
read_fat-link v s c d l g h (a, (b, f, e), r) =
    let (s', run, same) = read_fat-next v c s g h a (omega (arith, b, e)) in
    let is : next_of (entry v s c) ≡ d = ground (arith, e, f) in
    (s', run ∙ ap (λ n. ok (n, s')) is, same, Links-Same v s s' d l g same r)

pub read_fat-end :
    (v : Volume) (s : State) (c : ℕ)
    → Small v
    → Cached v s
    → Links v s c []
    → (s' : State) × (read_fat v c s ≡ ok (0, s')) × Same v s s'
read_fat-end v s c g h (a, e) =
    let (s', run, same) = read_fat-next v c s g h a (omega (arith, e)) in
    let is : next_of (entry v s c) ≡ 0 = ground (arith, e) in
    (s', run ∙ ap (λ n. ok (n, s')) is, same)

-- Within the chain, the loop of `fetch_cluster` gives the cluster with the number asked for.
pub fetch_loop-inside :
    (v : Volume) (k i c : ℕ) (l : List ℕ) (s : State)
    → Small v
    → Cached v s
    → Links v s c l
    → k ≤ length l
    → (s' : State) × (fetch_loop v k i c s ≡ ok (cluster_of c l k, no_end, s'))
      × Same v s s'
      × Links v s' (cluster_of c l k) (drop k l)
unfolding fetch_loop
fetch_loop-inside v zero i c l s g h r le = (s, refl, Same-self v s h, r)
fetch_loop-inside v (suc k) i c [] s g h r le = absurd (omega arith)
fetch_loop-inside v (suc k) i c (d ∷ l) s g h r le =
    let (s1, got, same, r1) = read_fat-link v s c d l g h r in
    let (a, (b, f, e), q) = r in
    let more : (d == 0) ≡ false = ground arith in
    let (s2, run, same2, r2) =
      fetch_loop-inside v k (i + 1) d l s1 g same.cached r1 (omega arith) in
    (s2, >>=-run _ got (rw more run), Same-trans v s s1 s2 same same2, r2)

-- Beyond the chain it gives the last cluster and its number.
pub fetch_loop-beyond :
    (v : Volume) (k i c : ℕ) (l : List ℕ) (s : State)
    → Small v
    → Cached v s
    → Links v s c l
    → length l < k
    → (s' : State) × (fetch_loop v k i c s ≡ ok (last_of c l, i + length l, s')) × Same v s s'
unfolding fetch_loop
fetch_loop-beyond v zero i c l s g h r lt = absurd (omega arith)
fetch_loop-beyond v (suc k) i c [] s g h r lt =
    let (s1, got, same) = read_fat-end v s c g h r in
    (s1, >>=-run _ got (ap (λ n. ok (c, n, s1)) (omega arith)), same)
fetch_loop-beyond v (suc k) i c (d ∷ l) s g h r lt =
    let (s1, got, same, r1) = read_fat-link v s c d l g h r in
    let (a, (b, f, e), q) = r in
    let more : (d == 0) ≡ false = ground arith in
    let (s2, run, same2) = fetch_loop-beyond v k (i + 1) d l s1 g same.cached r1 (omega arith) in
    (
      s2,
      >>=-run _ got (rw more (run ∙ ap (λ n. ok (last_of d l, n, s2)) (omega arith))),
      Same-trans v s s1 s2 same same2,
    )
