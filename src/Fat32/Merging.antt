-- ===== src/Fat32/Merging.antt =====
-- The merging of clusters that follow each other, in `fat32_read_file_sectors` of
-- kernel/fs/fat32/fat32.c.
use mathlib.Core.Path.{subst}
use native.Mathlib.Nat.{mul-suc}
use bincows.Base.{
  ℕ, zero, suc, ◌+◌, ◌-◌, ◌*◌, ◌≤◌, ◌<◌, ◌≡◌, ◌∙◌, refl, sym, ap, ap₂, true, false, ◌⊎◌, inl, inr,
  Bool-cases, ltb, ◌==◌, Outcome, ok, assert, not, ◌||◌, ◌>>=◌, ◌>>◌, >>=-run, arith, List, [], ◌∷◌,
  length,
}
use bincows.Fat32.{Volume, State, cluster_begin, read_fat}
use bincows.Fat32.Files.{Run, merge_loop}
use bincows.Fat32.View.{Small, Cached, Same, Same-self, Same-trans}
use bincows.Fat32.Chains.{Links, read_fat-link, read_fat-end}
use bincows.Fat32.Places.{
  place, HasData, HaveData, HaveData-first, place_first, place_later, cluster_begin_next,
}

-- Where a merged read ends: at the end of what is asked for, or at a further cluster of the file
abbrev pub Next : Volume → ℕ → List ℕ → ℕ → Run → State → List ℕ → Type 0
Next v c l p r s m =
    (r.n ≡ 0)
    ⊎ (Links v s r.cluster m
        × HaveData v r.cluster m
        × (r.cluster_offset ≡ 0)
        × (r.n ≤ v.cluster_size * suc (length m))
        × ((j : ℕ) → place v r.cluster m j ≡ place v c l (p + j)))

-- A merged read from the sector `o` of the file takes sectors that follow each other.
pub record Merged (v : Volume) (s : State) (c : ℕ) (l : List ℕ) (o : ℕ) (n size_ : ℕ) (r : Run)
    (s' : State) (m : List ℕ) : Type 0 where
  pub same : Same v s s'
  pub sum : r.n + r.read_size ≡ n + size_
  pub more : size_ ≤ r.read_size
  pub some_ : 0 < n → size_ < r.read_size
  pub runs : (j : ℕ) → j + size_ < r.read_size → place v c l (o + j) ≡ cluster_begin v c + (o + j)
  pub next : Next v c l (o + (r.read_size - size_)) r s' m

abbrev pub run_at : ℕ → ℕ → ℕ → ℕ → Run
run_at c o n size_ = record { cluster = c; cluster_offset = o; n = n; read_size = size_ }

Merged-last :
    (v : Volume) (s s' : State) (c d : ℕ) (l : List ℕ) (o o' n size_ : ℕ)
    → Same v s s'
    → o + n ≤ v.cluster_size
    → Merged v s c l o n size_ (run_at d o' 0 (size_ + n)) s' []
Merged-last v s s' c d l o o' n size_ same le = record {
  same = same;
  sum = omega arith;
  more = omega arith;
  some_ = λ pos. omega arith;
  runs = λ j lt. place_first v c l (o + j) (omega arith);
  next = inl refl;
}

Merged-apart :
    (v : Volume) (s s' : State) (c d : ℕ) (l : List ℕ) (o n size_ : ℕ)
    → Small v
    → Same v s s'
    → Links v s' d l
    → HaveData v d l
    → o < v.cluster_size
    → v.cluster_size - o ≤ n
    → o + n ≤ v.cluster_size * suc (suc (length l))
    → Merged v s c
        (d ∷ l)
        o
        n
        size_
        (run_at d 0 (n - (v.cluster_size - o)) (size_ + (v.cluster_size - o)))
        s'
        l
Merged-apart v s s' c d l o n size_ g same links data_ lt ge le =
    let more = mul-suc v.cluster_size (suc (length l)) in
    record {
      same = same;
      sum = omega arith;
      more = omega arith;
      some_ = λ pos. omega arith;
      runs = λ j lt1. place_first v c (d ∷ l) (o + j) (omega arith);
      next = inr (
        links,
        data_,
        refl,
        omega (arith, more),
        λ j. sym (place_later v c d l j g.cluster_pos) ∙ ap (place v c (d ∷ l)) (omega arith),
      );
    }

Merged-on :
    (v : Volume) (s s1 s2 : State) (c d : ℕ) (l : List ℕ) (o n size_ : ℕ) (r : Run) (m : List ℕ)
    → Small v
    → Same v s s1
    → cluster_begin v d ≡ cluster_begin v c + v.cluster_size
    → o < v.cluster_size
    → v.cluster_size - o ≤ n
    → Merged v s1 d l 0 (n - (v.cluster_size - o)) (size_ + (v.cluster_size - o)) r s2 m
    → Merged v s c (d ∷ l) o n size_ r s2 m
Merged-on v s s1 s2 c d l o n size_ r m g same follows lt ge on_ = record {
  same = Same-trans v s s1 s2 same on_.same;
  sum = omega (arith, on_.sum);
  more = omega (arith, on_.more);
  some_ = λ pos. omega (arith, on_.more);
  runs = λ j lt1. elim (Bool-cases (ltb (o + j) v.cluster_size)) [
    | inl first ↦ place_first v c (d ∷ l) (o + j) (ground arith)
    | inr later ↦
        (let k = o + j - v.cluster_size in
          let at_ : o + j ≡ v.cluster_size + k = ground arith in
          ap (place v c (d ∷ l)) at_
          ∙ place_later v c d l k g.cluster_pos
          ∙ ap (place v d l) (omega arith)
          ∙ on_.runs k (omega arith)
          ∙ omega (arith, follows, at_))
  ];
  next = elim on_.next [
    | inl done ↦ inl done
    | inr (a, b, e, f, p) ↦ inr (
      a,
      b,
      e,
      f,
      λ j.
          p j
          ∙ sym (
              place_later v c d l (0 + (r.read_size - (size_ + (v.cluster_size - o))) + j)
                g.cluster_pos)
          ∙ ap (place v c (d ∷ l)) (omega (arith, on_.more)),
    )
  ];
}

-- what a round does with a cluster that it takes to its end
whole_round : Volume → ℕ → ℕ → ℕ → ℕ → ℕ → State → Outcome (Run × State)
whole_round v k c o n size_ s = do
  (next, s1) ← read_fat v c s
  assert (not (next == 0) || ((n - (v.cluster_size - o)) == 0))
  elim (next == (c + 1)) [
    | true ↦
        merge_loop v k (run_at next 0 (n - (v.cluster_size - o)) (size_ + (v.cluster_size - o))) s1
    | false ↦ ok (run_at next 0 (n - (v.cluster_size - o)) (size_ + (v.cluster_size - o)), s1)
  ]

merge_whole :
    (v : Volume) (k c : ℕ) (l : List ℕ) (o n size_ : ℕ) (s : State)
    → Small v
    → Cached v s
    → Links v s c l
    → HaveData v c l
    → o < v.cluster_size
    → o + n ≤ v.cluster_size * suc (length l)
    → v.cluster_size - o ≤ n
    → ((d : ℕ) (l2 : List ℕ) (s1 : State)
        → Cached v s1
        → Links v s1 d l2
        → HaveData v d l2
        → 0 + (n - (v.cluster_size - o)) ≤ v.cluster_size * suc (length l2)
        → (r : Run) × (s' : State) × (m : List ℕ) × (merge_loop v k
              (run_at d 0 (n - (v.cluster_size - o)) (size_ + (v.cluster_size - o)))
              s1
            ≡ ok (r, s'))
          × Merged v s1 d l2 0 (n - (v.cluster_size - o)) (size_ + (v.cluster_size - o)) r s' m)
    → (r : Run) × (s' : State) × (m : List ℕ) × (whole_round v k c o n size_ s ≡ ok (r, s'))
      × Merged v s c l o n size_ r s' m
unfolding whole_round
merge_whole v k c [] o n size_ s g h links data_ lt le ge rest =
    let (s1, got, same) = read_fat-end v s c g h links in
    let one : v.cluster_size * 1 ≡ v.cluster_size = omega arith in
    let all : n ≡ v.cluster_size - o = omega arith in
    let none_left : n - (v.cluster_size - o) ≡ 0 = omega arith in
    let stop : (0 == (c + 1)) ≡ false = ground arith in
    (
      run_at 0 0 0 (size_ + n),
      s1,
      [],
      >>=-run _ got (
          rw (none_left, stop)
            (ap₂ (λ a b. ok (run_at 0 0 a (size_ + b), s1)) none_left (sym all))),
      Merged-last v s s1 c 0 [] o 0 n size_ same (omega arith),
    )
merge_whole v k c (d ∷ l) o n size_ s g h links (here, data_) lt le ge rest =
    let (s1, got, same, links1) = read_fat-link v s c d l g h links in
    let (in_, (b, f, e), q) = links in
    let more : (d == 0) ≡ false = ground arith in
    let after = mul-suc v.cluster_size (suc (length l)) in
    elim (Bool-cases (d == (c + 1))) [
      | inl follows ↦
          (let is : d ≡ c + 1 = ground arith in
            let (r, s2, m, run, on_) = rest d l s1 same.cached links1 data_ (omega arith) in
            let begin : cluster_begin v d ≡ cluster_begin v c + v.cluster_size =
              ap (cluster_begin v) is
              ∙ cluster_begin_next v c g (omega (arith, in_, g.clusters)) here
                  (subst (HasData v) is (HaveData-first v d l data_)) in
            (
              r,
              s2,
              m,
              >>=-run _ got (rw more (rw follows run)),
              Merged-on v s s1 s2 c d l o n size_ r m g same begin lt ge on_,
            ))
      | inr apart ↦ (
        run_at d 0 (n - (v.cluster_size - o)) (size_ + (v.cluster_size - o)),
        s1,
        l,
        >>=-run _ got (rw more (rw apart refl)),
        Merged-apart v s s1 c d l o n size_ g same links1 data_ lt ge le,
      )
    ]

-- Within a chain the merging ends, and the sectors that it takes follow each other.
pub merge_loop-Merged :
    (v : Volume) (k c : ℕ) (l : List ℕ) (o n size_ : ℕ) (s : State)
    → Small v
    → Cached v s
    → Links v s c l
    → HaveData v c l
    → o < v.cluster_size
    → o + n ≤ v.cluster_size * suc (length l)
    → n < k
    → (r : Run) × (s' : State) × (m : List ℕ) × (merge_loop v k (run_at c o n size_) s ≡ ok (r, s'))
      × Merged v s c l o n size_ r s' m
unfolding merge_loop whole_round
merge_loop-Merged v zero c l o n size_ s g h links data_ lt le fuel = absurd (omega arith)
merge_loop-Merged v (suc k) c l o n size_ s g h links data_ lt le fuel =
    elim (Bool-cases (n == 0)) [
      | inl done ↦
          (let zero_ : n ≡ 0 = ground arith in
            (
              run_at c o n size_,
              s,
              [],
              rw (done, merge_loop) refl,
              record {
                same = Same-self v s h;
                sum = refl;
                more = omega arith;
                some_ = λ pos. absurd (omega arith);
                runs = λ j lt1. absurd (omega arith);
                next = inl zero_;
              },
            ))
      | inr more ↦ elim (Bool-cases (ltb n (v.cluster_size - o))) [
        | inl within ↦ (
          run_at c o 0 (size_ + n),
          s,
          [],
          rw (more, merge_loop) (rw within refl),
          Merged-last v s s c c l o o n size_ (Same-self v s h) (ground arith),
        )
        | inr whole ↦
            (let (r, s', m, run, merged) =
                merge_whole v k c l o n size_ s g h links data_ lt le (ground arith)
                  (λ d l2 s1 c1 l1 d1 e1.
                    merge_loop-Merged v k d l2 0 (n - (v.cluster_size - o))
                      (size_ + (v.cluster_size - o)) s1 g c1 l1 d1 g.cluster_pos e1
                      (ground arith)) in
              (r, s', m, rw (more, merge_loop) (rw whole run), merged))
      ]
    ]
