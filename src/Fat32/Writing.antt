-- ===== src/Fat32/Writing.antt =====
-- What the loop of `fat32_write_file_sectors` of kernel/fs/fat32/fat32.c writes.
use mathlib.Core.Path.{subst}
use native.Mathlib.Nat.{mul-suc}
use bincows.Base.{
  ℕ, suc, ◌+◌, ◌-◌, ◌*◌, ◌/◌, ◌%◌, ◌^◌, ◌≤◌, ◌<◌, ◌≡◌, ◌∙◌, refl, sym, ap, true, false, ◌⊎◌, inl,
  inr, Bool-cases, ltb, leb, ◌==◌, ◌&&◌, ok, arith, List, ◌∷◌, length,
}
use bincows.Fat32.{Sector, Volume, State, cluster_begin, write, transfer}
use bincows.Fat32.View.{Small, Cached, view, Same}
use bincows.Fat32.Entries.{entry, IsCluster, IsCluster-InTable, Same-entry}
use bincows.Fat32.Chains.{Links, Links-entries}
use bincows.Fat32.Places.{place, place_first, place_later, cluster_begin_lem}
use bincows.Fat32.Apart.{AllData, place_apart}

-- the state after `write`
abbrev pub put : ℕ → (ℕ → Sector) → ℕ → ℕ → State → State
put lba buf at_ w s = record s { disk = transfer s.disk lba buf at_ w }

-- Sectors after the table are written.
pub record Put (v : Volume) (s : State) (lba : ℕ) (buf : ℕ → Sector) (at_ w : ℕ) (s' : State)
    : Type 0 where
  pub cached : Cached v s'
  pub entries : (d : ℕ) → IsCluster v d → entry v s' d ≡ entry v s d
  pub here : (i : ℕ) → i < w → s'.disk (lba + i) ≡ buf (at_ + i)
  pub apart : (l : ℕ) → (l < lba) ⊎ (lba + w ≤ l) → s'.disk l ≡ s.disk l

pub write-Put :
    (v : Volume) (s : State) (lba : ℕ) (buf : ℕ → Sector) (at_ w : ℕ)
    → Small v
    → Cached v s
    → v.data_begin ≤ lba
    → lba < v.size
    → (s' : State) × (write v lba buf at_ w s ≡ ok s') × Put v s lba buf at_ w s'
unfolding write entry view
write-Put v s lba buf at_ w g h above below =
    let in_ : leb lba v.size ≡ true = ground arith in
    let out : (l : ℕ) → (l < lba) ⊎ (lba + w ≤ l) → (put lba buf at_ w s).disk l ≡ s.disk l =
      λ l apart. ground (arith, apart) in
    (
      put lba buf at_ w s,
      rw (in_, write) refl,
      record {
        cached = record {
          start_in = h.start_in;
          tagged = h.tagged;
          empty = h.empty;
          marked = h.marked;
          clean = λ x i t e m.
              (let (lo, hi) = t in
                h.clean x i t e m ∙ ap (λ z. z i) (sym (out x (inl (omega (arith, g.inside))))));
        };
        entries = λ d ld.
            (let (lo, hi) = IsCluster-InTable v d g ld in
              let same = out (v.fat_begin + d / v.words) (inl (omega (arith, g.inside))) in
              let word = ap (λ z. z (d % v.words)) same in ground (arith, word));
        here = λ i lt.
            (let inside : leb lba (lba + i) && ltb (lba + i) (lba + w) ≡ true = ground arith in
              let word : at_ + (lba + i - lba) ≡ at_ + i = omega arith in rw (inside, word) refl);
        apart = out;
      },
    )

pub Put-Same :
    (v : Volume) (s s1 s2 : State) (lba : ℕ) (buf : ℕ → Sector) (at_ w : ℕ)
    → Small v
    → Put v s lba buf at_ w s1
    → Same v s1 s2
    → Put v s lba buf at_ w s2
Put-Same v s s1 s2 lba buf at_ w g p same = record {
  cached = same.cached;
  entries = λ d ld. Same-entry v s1 s2 d g same ld ∙ p.entries d ld;
  here = λ i lt. ap (λ k. k (lba + i)) same.disk ∙ p.here i lt;
  apart = λ l out. ap (λ k. k l) same.disk ∙ p.apart l out;
}

-- `n` sectors of the file from its sector `o` on hold the buffer, the other sectors after the table
-- are the same, and so are the entries of clusters in use other than the old end of the chain.
pub record Written (v : Volume) (s : State) (c old_end : ℕ) (l : List ℕ) (o n : ℕ)
    (buf : ℕ → Sector) (at_ : ℕ) (s' : State) : Type 0 where
  pub cached : Cached v s'
  pub links : Links v s' c l
  pub range : o + n ≤ v.cluster_size * suc (length l)
  pub inside : (j : ℕ) → j < n → s'.disk (place v c l (o + j)) ≡ buf (at_ + j)
  pub outside :
      (lba : ℕ)
      → v.data_begin ≤ lba
      → ((j : ℕ) → j < n → (lba == place v c l (o + j)) ≡ false)
      → s'.disk lba ≡ s.disk lba
  pub others :
      (d : ℕ)
      → IsCluster v d
      → (d == old_end) ≡ false
      → (entry v s d == 0) ≡ false
      → entry v s' d ≡ entry v s d

-- A sector that is not one of those written
missed :
    (v : Volume) (c : ℕ) (l : List ℕ) (o w lba : ℕ)
    → o + w ≤ v.cluster_size
    → ((j : ℕ) → j < w → (lba == place v c l (o + j)) ≡ false)
    → (lba < cluster_begin v c + o) ⊎ (cluster_begin v c + o + w ≤ lba)
missed v c l o w lba le out =
    elim (Bool-cases (leb (cluster_begin v c + o) lba && ltb lba (cluster_begin v c + o + w))) [
      | inl in_ ↦
          (let j = lba - (cluster_begin v c + o) in
            let no_ = out j (ground arith) in
            let here = place_first v c l (o + j) (ground arith) in
            absurd (ground (arith, no_, here)))
      | inr no_ ↦ ground arith
    ]

-- A write to the first cluster
pub Written-Put :
    (v : Volume) (s s1 : State) (c e : ℕ) (l : List ℕ) (o w : ℕ) (buf : ℕ → Sector) (at_ : ℕ)
    → o + w ≤ v.cluster_size
    → Links v s c l
    → Put v s (cluster_begin v c + o) buf at_ w s1
    → Written v s c e l o w buf at_ s1
Written-Put v s s1 c e l o w buf at_ le links p = record {
  cached = p.cached;
  links = Links-entries v s s1 c l p.entries links;
  range = omega (arith, mul-suc v.cluster_size (length l));
  inside = λ j lt. ap s1.disk (place_first v c l (o + j) (omega arith) ∙ omega arith) ∙ p.here j lt;
  outside = λ lba le1 out. p.apart lba (missed v c l o w lba le out);
  others = λ d ld ne used. p.entries d ld;
}

-- A write to the first cluster and then one to the others
pub Written-on :
    (v : Volume) (s s1 s2 s' : State) (c e d e2 : ℕ) (l : List ℕ) (o m : ℕ) (buf : ℕ → Sector)
    (at_ : ℕ)
    → Small v
    → AllData v
    → (1 < c) × IsCluster v c
    → o < v.cluster_size
    → Put v s (cluster_begin v c + o) buf at_ (v.cluster_size - o) s1
    → s2.disk ≡ s1.disk
    → (1 < d) × (d < 0x0FFFFFF8) × (entry v s2 c % 2 ^ 28 ≡ d)
    → (c == e2) ≡ false
    → ((x : ℕ)
        → IsCluster v x
        → (x == e) ≡ false
        → (entry v s1 x == 0) ≡ false
        → (entry v s2 x ≡ entry v s1 x) × ((x == e2) ≡ false))
    → Written v s2 d e2 l 0 m buf (at_ + (v.cluster_size - o)) s'
    → Written v s c e (d ∷ l) o (v.cluster_size - o + m) buf at_ s'
Written-on v s s1 s2 s' c e d e2 l o m buf at_ g all (c1, c2) lt p disk (d1, d2, d3) ne keeps w =
    let cs = v.cluster_size in
    let used : (entry v s2 c == 0) ≡ false = ground arith in
    let links : Links v s' c (d ∷ l) =
      (c2, (d1, d2, ap (λ k. k % 2 ^ 28) (w.others c c2 ne used) ∙ d3), w.links) in
    let begin = cluster_begin_lem v c g (omega (arith, c2, g.clusters)) (all c c1 c2) in
    record {
      cached = w.cached;
      links = links;
      range = omega (arith, mul-suc cs (suc (length l)), w.range);
      inside = λ j below. elim (Bool-cases (ltb j (cs - o))) [
        | inl first ↦
            (let in_ : o + j < cs = ground arith in
              let same : cluster_begin v c + (o + j) ≡ cluster_begin v c + o + j = omega arith in
              ap s'.disk (place_first v c (d ∷ l) (o + j) in_)
              ∙ w.outside (cluster_begin v c + (o + j)) (omega (arith, begin)) (λ i li.
                place_apart v s' c d l (o + j) (0 + i) g all c1 links in_ (omega (arith, w.range)))
              ∙ ap (λ k. k (cluster_begin v c + (o + j))) disk
              ∙ ap s1.disk same
              ∙ p.here j (ground arith))
        | inr later ↦
            (let i = j - (cs - o) in
              let sum : o + j ≡ cs + (0 + i) = ground arith in
              let byte : at_ + (cs - o) + i ≡ at_ + j = ground arith in
              ap s'.disk (ap (place v c (d ∷ l)) sum ∙ place_later v c d l (0 + i) g.cluster_pos)
              ∙ w.inside i (ground arith)
              ∙ ap buf byte)
      ];
      outside = λ lba le out.
          w.outside lba le (λ i li.
            (let sum : o + (cs - o + i) ≡ cs + (0 + i) = omega arith in
              let at2 = ap (place v c (d ∷ l)) sum ∙ place_later v c d l (0 + i) g.cluster_pos in
              subst (λ k. (lba == k) ≡ false) at2 (out (cs - o + i) (omega arith))))
          ∙ ap (λ k. k lba) disk
          ∙ p.apart lba
              (missed v c (d ∷ l) o (cs - o) lba (omega arith) (λ j lj. out j (omega arith)));
      others = λ x lx nx ux.
          (let a = p.entries x lx in
            let (b, n2) = keeps x lx nx (ground (arith, a)) in
            w.others x lx n2 (ground (arith, a, b)) ∙ b ∙ a);
    }
