-- ===== src/Fat32/Extending.antt =====
-- The clusters that `fat32_write_file_sectors` of kernel/fs/fat32/fat32.c adds when a write begins
-- beyond the last cluster of the file.
use mathlib.Core.Path.{subst}
use mathlib.Core.List.{append_assoc}
use bincows.Base.{
  ℕ, zero, suc, ◌<◌, ◌≡◌, ◌∙◌, refl, sym, ap, true, false, ◌⊎◌, inl, inr, ◌==◌, ok, >>=-run, arith,
  List, [], ◌∷◌, ◌++◌, append-nil, length,
}
use bincows.Fat32.{Volume, State, alloc_fat}
use bincows.Fat32.Files.{extend_loop}
use bincows.Fat32.View.{Small, Cached, Same}
use bincows.Fat32.Entries.{entry, entry_apart, IsCluster, Same-entry}
use bincows.Fat32.Allocating.{alloc_fat-Found}
use bincows.Fat32.Chains.{Links, Links-Same, last_of}
use bincows.Fat32.Growing.{Grown, Grown-Links, Grown-Same, last-Links, link_both}

-- Clusters stand at the end of the chain, and only their entries and that of the old end differ.
pub record Extended (v : Volume) (s : State) (c : ℕ) (l ext : List ℕ) (s' : State) : Type 0 where
  pub cached : Cached v s'
  pub links : Links v s' c (l ++ ext)
  pub disk : s'.disk ≡ s.disk
  pub fresh :
      (ext ≡ []) ⊎ (IsCluster v (last_of c (l ++ ext)) × (entry v s (last_of c (l ++ ext)) ≡ 0))
  pub others :
      (d : ℕ)
      → IsCluster v d
      → (d == last_of c l) ≡ false
      → (entry v s d == 0) ≡ false
      → entry v s' d ≡ entry v s d

last_of-append : (c : ℕ) (l : List ℕ) (d : ℕ) → last_of c (l ++ (d ∷ [])) ≡ d
last_of-append c [] d = refl
last_of-append c (x ∷ l) d = last_of-append x l d

-- What is free after a cluster was added was free before.
free_before :
    (v : Volume) (s s' : State) (c d e : ℕ)
    → Grown v s c d s'
    → IsCluster v e
    → entry v s' e ≡ 0
    → entry v s e ≡ 0
free_before v s s' c d e w low zero_ =
    let nc = entry_apart v s' e c (ground (arith, zero_, w.links, w.new_in)) in
    let nd = entry_apart v s' e d (ground (arith, zero_, w.ends)) in
    sym (w.others e low nc nd) ∙ zero_

Extended-Grown :
    (v : Volume) (s s1 s2 : State) (c d : ℕ) (l ext : List ℕ)
    → Grown v s (last_of c l) d s1
    → Extended v s1 c (l ++ (d ∷ [])) ext s2
    → Extended v s c l (d ∷ ext) s2
Extended-Grown v s s1 s2 c d l ext w x = record {
  cached = x.cached;
  links = subst (λ k. Links v s2 c k) (append_assoc l (d ∷ []) ext) x.links;
  disk = x.disk ∙ w.disk;
  fresh =
      (let lists = append_assoc l (d ∷ []) ext in
        elim x.fresh [
          | inl alone ↦
              (let end_ : last_of c (l ++ (d ∷ ext)) ≡ d =
                  ap (λ k. last_of c (l ++ (d ∷ k))) alone ∙ last_of-append c l d in
                inr (rw end_ (w.new_in.1, w.was_free)))
          | inr (low, zero_) ↦
              (let end_ : last_of c (l ++ (d ∷ ext)) ≡ last_of c ((l ++ (d ∷ [])) ++ ext) =
                  ap (last_of c) (sym lists) in
                inr (rw end_ (low, free_before v s s1 (last_of c l) d _ w low zero_)))
        ]);
  others = λ e le ne used.
      (let nd = entry_apart v s e d (ground (arith, used, w.was_free)) in
        let same = w.others e le ne nd in
        let last = last_of-append c l d in
        x.others e le (subst (λ k. (e == k) ≡ false) (sym last) nd) (ground (arith, same, used))
        ∙ same);
}

Extended-self :
    (v : Volume) (s : State) (c : ℕ) (l : List ℕ)
    → Cached v s
    → Links v s c l
    → Extended v s c l [] s
Extended-self v s c l h links = record {
  cached = h;
  links = rw (append-nil l) links;
  disk = refl;
  fresh = inl refl;
  others = λ d ld ne used. refl;
}

pub Extended-Same :
    (v : Volume) (s s1 s2 : State) (c : ℕ) (l ext : List ℕ)
    → Small v
    → Same v s s1
    → Extended v s1 c l ext s2
    → Extended v s c l ext s2
Extended-Same v s s1 s2 c l ext g same x = record {
  cached = x.cached;
  links = x.links;
  disk = x.disk ∙ same.disk;
  fresh = (elim x.fresh [
    | inl none_ ↦ inl none_
    | inr (low, zero_) ↦ inr (low, sym (Same-entry v s s1 _ g same low) ∙ zero_)
  ]);
  others = λ d ld ne used.
      (let kept = Same-entry v s s1 d g same ld in
        x.others d ld ne (ground (arith, kept, used)) ∙ kept);
}

-- Fewer than `k` clusters are added, and then allocFAT finds none.
pub record Exhausted (v : Volume) (k c : ℕ) (l ext : List ℕ) (s s' : State) : Type 0 where
  pub fewer : length ext < k
  pub before : State
  pub reached : Extended v s c l ext before
  pub none_left : alloc_fat v before ≡ ok (0, s')

-- what the extension of a chain by `k` clusters ends with
abbrev pub Extends : Volume → ℕ → ℕ → List ℕ → State → Type 0
Extends v k c l s =
    (r : ℕ) × (s' : State) × (ext : List ℕ) × (extend_loop v k (last_of c l) s ≡ ok (r, s'))
    × (((r ≡ 0) × Exhausted v k c l ext s s')
        ⊎ ((r ≡ last_of c (l ++ ext)) × (length ext ≡ k) × Extended v s c l ext s'))

-- The extension ends: with 0 when it ran out of clusters, and else with the last of `k` new clusters.
pub extend_loop-Extended :
    (v : Volume) (k c : ℕ) (l : List ℕ) (s : State)
    → Small v
    → Cached v s
    → Links v s c l
    → Extends v k c l s
unfolding extend_loop
extend_loop-Extended v zero c l s g h links =
    let same : l ++ [] ≡ l = append-nil l in
    (last_of c l, s, [], refl, inr (ap (last_of c) (sym same), refl, Extended-self v s c l h links))
extend_loop-Extended v (suc k) c l s g h links =
    let (d, s1, run, found) = alloc_fat-Found v s g h in
    elim found.free [
      | inl none_ ↦
          (let full : (d == 0) ≡ true = ground arith in
            let all : alloc_fat v s ≡ ok (0, s1) = run ∙ ap (λ q. ok (q, s1)) none_ in
            (
              0,
              s1,
              [],
              >>=-run _ run (rw full refl),
              inl (
                refl,
                record {
                  fewer = omega arith;
                  before = s;
                  reached = Extended-self v s c l h links;
                  none_left = all;
                },
              ),
            ))
      | inr (above, low, zero_) ↦
          (let some_ : (d == 0) ≡ false = ground arith in
            let links1 = Links-Same v s s1 c l g found.same links in
            let free = Same-entry v s s1 d g found.same low ∙ zero_ in
            let (s2, s3, run1, run2, grown1) =
              link_both v s1 (last_of c l) d g found.same.cached (last-Links v s1 c l links1)
                (above, low) free in
            let grown = Grown-Same v s s1 s3 (last_of c l) d g found.same grown1 in
            let next = last_of-append c l d in
            let (r, s', ext, rest, end_) =
              extend_loop-Extended v k c (l ++ (d ∷ [])) s3 g grown.cached
                (Grown-Links v s s3 c d l g links grown) in
            let rest' = ap (λ q. extend_loop v k q s3) (sym next) ∙ rest in
            (
              r,
              s',
              d ∷ ext,
              >>=-run _ run (rw some_ (>>=-run _ run1 (>>=-run _ run2 rest'))),
              elim end_ [
                | inl (full, e) ↦ inl (
                  full,
                  record {
                    fewer = omega (arith, e.fewer);
                    before = e.before;
                    reached = Extended-Grown v s s3 e.before c d l ext grown e.reached;
                    none_left = e.none_left;
                  },
                )
                | inr (last, count, x) ↦ inr (
                  last ∙ ap (last_of c) (append_assoc l (d ∷ []) ext),
                  ap suc count,
                  Extended-Grown v s s3 s' c d l ext grown x,
                )
              ],
            ))
    ]
