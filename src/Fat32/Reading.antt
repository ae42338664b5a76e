-- ===== src/Fat32/Reading.antt =====
-- The loop of the reads in `fat32_read_file_sectors` of kernel/fs/fat32/fat32.c.
use mathlib.Core.Path.{subst}
use bincows.Base.{
  ℕ, zero, suc, ◌+◌, ◌-◌, ◌*◌, ◌≤◌, ◌<◌, ◌≡◌, ◌∙◌, refl, sym, ap, true, ◌⊎◌, inl, inr, Bool-cases,
  ltb, leb, ◌==◌, ok, >>=-run, arith, ◌&&◌, List, length,
}
use bincows.Fat32.{Sector, Volume, State, cluster_begin, async_read, transfer}
use bincows.Fat32.Files.{Run, read_loop}
use bincows.Fat32.View.{Small, Cached, Same, Same-self, Same-trans}
use bincows.Fat32.Chains.{Links, Links-first}
use bincows.Fat32.Places.{place, HaveData, HaveData-first, cluster_begin_lem}
use bincows.Fat32.Merging.{Merged, run_at, merge_loop-Merged}

-- The buffer holds `n` sectors of the file from its sector `o` on, and is the same elsewhere.
pub record Filled (v : Volume) (disk : ℕ → Sector) (c : ℕ) (l : List ℕ) (o n : ℕ) (buf : ℕ → Sector)
    (at_ : ℕ) (buf' : ℕ → Sector) : Type 0 where
  pub inside : (j : ℕ) → j < n → buf' (at_ + j) ≡ disk (place v c l (o + j))
  pub outside : (i : ℕ) → (i < at_) ⊎ (at_ + n ≤ i) → buf' i ≡ buf i

Filled-first :
    (v : Volume) (disk : ℕ → Sector) (c : ℕ) (l : List ℕ) (o m : ℕ) (buf : ℕ → Sector) (at_ : ℕ)
    → ((j : ℕ) → j < m → place v c l (o + j) ≡ cluster_begin v c + (o + j))
    → Filled v disk c l o m buf at_ (transfer buf at_ disk (cluster_begin v c + o) m)
Filled-first v disk c l o m buf at_ runs = record {
  inside = λ j lt.
      (let in_ : leb at_ (at_ + j) && ltb (at_ + j) (at_ + m) ≡ true = ground arith in
        let at_' : cluster_begin v c + o + (at_ + j - at_) ≡ cluster_begin v c + (o + j) =
          omega arith in
        rw (in_) (ap disk (at_' ∙ sym (runs j lt))));
  outside = λ i out. ground (arith, out);
}

Filled-join :
    (v : Volume) (disk : ℕ → Sector) (c d : ℕ) (l l2 : List ℕ) (o m n : ℕ)
    (buf buf1 buf2 : ℕ → Sector) (at_ : ℕ)
    → m ≤ n
    → Filled v disk c l o m buf at_ buf1
    → Filled v disk d l2 0 (n - m) buf1 (at_ + m) buf2
    → ((j : ℕ) → place v d l2 j ≡ place v c l (o + m + j))
    → Filled v disk c l o n buf at_ buf2
Filled-join v disk c d l l2 o m n buf buf1 buf2 at_ le f f2 same = record {
  inside = λ j lt. elim (Bool-cases (ltb j m)) [
    | inl first ↦ f2.outside (at_ + j) (inl (ground arith)) ∙ f.inside j (ground arith)
    | inr later ↦
        (let k = j - m in
          let a : at_ + j ≡ at_ + m + k = ground arith in
          let b : o + m + (0 + k) ≡ o + j = ground arith in
          ap buf2 a ∙ f2.inside k (ground arith) ∙ ap disk (same (0 + k) ∙ ap (place v c l) b))
  ];
  outside = λ i out. f2.outside i (omega (arith, out)) ∙ f.outside i (omega (arith, out));
}

read_loop-done :
    (v : Volume) (k : ℕ) (buf : ℕ → Sector) (at_ : ℕ) (r : Run) (s : State)
    → 0 < k
    → r.n ≡ 0
    → read_loop v k buf at_ r s ≡ ok (buf, s)
unfolding read_loop
read_loop-done v zero buf at_ r s pos e = absurd (omega arith)
read_loop-done v (suc k) buf at_ r s pos e =
    let done : (r.n == 0) ≡ true = ground arith in rw (done, read_loop) refl

-- a read that ends, and fills the buffer
abbrev Reads :
    Volume
    → ℕ
    → (ℕ → Sector)
    → ℕ
    → Run
    → State
    → State
    → ℕ
    → List ℕ
    → ℕ
    → ℕ
    → (ℕ → Sector)
    → ℕ
    → Type 0
Reads v k buf1 at1 r s1 s c l o n buf at_ =
    (buf' : ℕ → Sector) × (s' : State) × (read_loop v k buf1 at1 r s1 ≡ ok (buf', s'))
    × Same v s s'
    × Filled v s.disk c l o n buf at_ buf'

read_after :
    (v : Volume) (k c : ℕ) (l : List ℕ) (o n : ℕ) (buf : ℕ → Sector) (at_ : ℕ) (s : State) (r : Run)
    (s1 : State) (m : List ℕ)
    → 0 < k
    → n ≤ k
    → 0 < n
    → Merged v s c l o n 0 r s1 m
    → ((r.n < k)
        → Links v s1 r.cluster m
        → HaveData v r.cluster m
        → 0 + r.n ≤ v.cluster_size * suc (length m)
        → Reads v k
            (transfer buf at_ s.disk (cluster_begin v c + o) r.read_size)
            (at_ + r.read_size)
            (run_at r.cluster 0 r.n r.read_size)
            s1
            s1
            r.cluster
            m
            0
            r.n
            (transfer buf at_ s.disk (cluster_begin v c + o) r.read_size)
            (at_ + r.read_size))
    → Reads v k
        (transfer buf at_ s.disk (cluster_begin v c + o) r.read_size)
        (at_ + r.read_size)
        r
        s1
        s
        c
        l
        o
        n
        buf
        at_
read_after v k c l o n buf at_ s r s1 m pos fuel some_ merged rest =
    let filled =
      Filled-first v s.disk c l o r.read_size buf at_ (λ j lt. merged.runs j (omega (arith, lt))) in
    elim merged.next [
      | inl done ↦
          (let all : r.read_size ≡ n = omega (arith, merged.sum, done) in
            (
              transfer buf at_ s.disk (cluster_begin v c + o) r.read_size,
              s1,
              read_loop-done v k _ (at_ + r.read_size) r s1 pos done,
              merged.same,
              subst
                  (λ k.
                    Filled v s.disk c l o k buf at_
                      (transfer buf at_ s.disk (cluster_begin v c + o) r.read_size))
                  all filled,
            ))
      | inr (links, data_, off, le, places) ↦
          (let more : r.n < k = omega (arith, merged.some_ some_, merged.sum) in
            let (buf2, s2, run, same, filled2) = rest more links data_ (omega (arith, le)) in
            let is : r ≡ run_at r.cluster 0 r.n r.read_size =
              ap (λ q. run_at r.cluster q r.n r.read_size) off in
            let left_ : r.n ≡ n - r.read_size = omega (arith, merged.sum) in
            let disk : s1.disk ≡ s.disk = merged.same.disk in
            (
              buf2,
              s2,
              ap
                    (λ q.
                      read_loop v k (transfer buf at_ s.disk (cluster_begin v c + o) r.read_size)
                        (at_ + r.read_size) q s1)
                    is
                  ∙ run,
              Same-trans v s s1 s2 merged.same same,
              Filled-join v s.disk c r.cluster l m o r.read_size n buf _ buf2 at_
                  (omega (arith, merged.sum)) filled
                  (subst
                    (λ k.
                      Filled v s.disk r.cluster m 0 k
                        (transfer buf at_ s.disk (cluster_begin v c + o) r.read_size)
                        (at_ + r.read_size) buf2)
                    left_
                    (subst
                      (λ d.
                        Filled v d r.cluster m 0 r.n
                          (transfer buf at_ s.disk (cluster_begin v c + o) r.read_size)
                          (at_ + r.read_size) buf2)
                      disk filled2))
                  (λ j. places j ∙ ap (place v c l) (omega arith)),
            ))
    ]

-- The loop of the reads fills the buffer from the file.
pub read_loop-Filled :
    (v : Volume) (k c : ℕ) (l : List ℕ) (o n z : ℕ) (buf : ℕ → Sector) (at_ : ℕ) (s : State)
    → Small v
    → Cached v s
    → Links v s c l
    → HaveData v c l
    → o < v.cluster_size
    → o + n ≤ v.cluster_size * suc (length l)
    → n < k
    → Reads v k buf at_ (run_at c o n z) s s c l o n buf at_
unfolding read_loop async_read
read_loop-Filled v zero c l o n z buf at_ s g h links data_ lt le fuel = absurd (omega arith)
read_loop-Filled v (suc k) c l o n z buf at_ s g h links data_ lt le fuel =
    elim (Bool-cases (n == 0)) [
      | inl done ↦ (
        buf,
        s,
        rw (done, read_loop) refl,
        Same-self v s h,
        record { inside = λ j below. absurd (ground arith); outside = λ i out. refl },
      )
      | inr more ↦
          (let (r, s1, m, run, merged) =
              merge_loop-Merged v (n + 1) c l o n 0 s g h links data_ lt le (omega arith) in
            let first = HaveData-first v c l data_ in
            let low = Links-first v s c l links in
            let begin = cluster_begin_lem v c g (omega (arith, low, g.clusters)) first in
            let on_disk : ltb (cluster_begin v c + o) v.size ≡ true = ground (arith, first) in
            let disk : s1.disk ≡ s.disk = merged.same.disk in
            let (buf2, s2, rest, same, filled) =
              read_after v k c l o n buf at_ s r s1 m (ground arith) (omega arith) (ground arith)
                merged
                (λ fuel1 links1 data1 le1.
                  read_loop-Filled v k r.cluster m 0 r.n r.read_size _ (at_ + r.read_size) s1 g
                    merged.same.cached links1 data1 g.cluster_pos le1 fuel1) in
            (
              buf2,
              s2,
              rw (more, read_loop) (>>=-run _ run (rw (disk) (rw on_disk rest))),
              same,
              filled,
            ))
    ]
