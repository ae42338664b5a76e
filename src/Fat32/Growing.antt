-- ===== src/Fat32/Growing.antt =====
-- Adding a cluster to the chain of a file: `read_or_allocateFAT` of kernel/fs/fat32/fat32.c.
use native.Mathlib.Nat.{mod-eq_of_lt, add-mul-mod_self_right}
use bincows.Base.{
  ℕ, ◌/◌, ◌%◌, ◌^◌, ◌<◌, ◌≡◌, ◌∙◌, refl, sym, ap, true, false, ◌⊎◌, inl, inr, leb, ◌==◌, ◌||◌, ok,
  >>=-run, arith, List, [], ◌∷◌, ◌++◌,
}
use bincows.Fat32.{Volume, State, link_fat, read_or_allocate_fat}
use bincows.Fat32.View.{Small, Cached, Same, Same-trans}
use bincows.Fat32.Entries.{entry, entry_apart, IsCluster, Same-entry}
use bincows.Fat32.Linking.{link_fat-Linked}
use bincows.Fat32.Allocating.{alloc_fat-Found}
use bincows.Fat32.Chains.{Links, Links-Same, last_of, read_fat-end}

pub last-Links :
    (v : Volume) (s : State) (c : ℕ) (l : List ℕ) → Links v s c l → Links v s (last_of c l) []
last-Links v s c [] e = e
last-Links v s c (d ∷ l) (a, b, r) = last-Links v s d l r

-- A new cluster stands at the end of the chain, and only its entry and that of the old end differ.
pub record Grown (v : Volume) (s : State) (end_ new : ℕ) (s' : State) : Type 0 where
  pub cached : Cached v s'
  pub disk : s'.disk ≡ s.disk
  pub new_in : (1 < new) × IsCluster v new
  pub was_free : entry v s new ≡ 0
  pub links : entry v s' end_ % 2 ^ 28 ≡ new
  pub ends : Links v s' new []
  pub others :
      (d : ℕ)
      → IsCluster v d
      → (d == end_) ≡ false
      → (d == new) ≡ false
      → entry v s' d ≡ entry v s d

pub Grown-Links :
    (v : Volume) (s s' : State) (c new : ℕ) (l : List ℕ)
    → Small v
    → Links v s c l
    → Grown v s (last_of c l) new s'
    → Links v s' c (l ++ (new ∷ []))
Grown-Links v s s' c new [] g (a, e) w =
    (a, (w.new_in.0, omega (arith, w.new_in.1, g.clusters), w.links), w.ends)
Grown-Links v s s' c new (d ∷ l) g (a, (b, f, e), r) w =
    let (la, le) = last-Links v s d l r in
    let ne = entry_apart v s c (last_of d l) (ground (arith, le, e, f)) in
    let nn = entry_apart v s c new (ground (arith, w.was_free, e, b)) in
    (a, (b, f, ap (λ k. k % 2 ^ 28) (w.others c a ne nn) ∙ e), Grown-Links v s s' d new l g r w)

-- the two links that `read_or_allocateFAT` and `fat32_write_file_sectors` make
pub link_both :
    (v : Volume) (s : State) (c new : ℕ)
    → Small v
    → Cached v s
    → Links v s c []
    → (1 < new) × IsCluster v new
    → entry v s new ≡ 0
    → (s1 : State) × (s2 : State) × (link_fat v new 0x0FFFFFFF s ≡ ok s1)
      × (link_fat v c new s1 ≡ ok s2)
      × Grown v s c new s2
link_both v s c new g h (a, e) (n1, n2) zero_ =
    let free : leb 0x0FFFFFF8 (entry v s new % 2 ^ 28) || (entry v s new == 0) ≡ true =
      ground (arith, zero_) in
    let (s1, run1, w1) = link_fat-Linked v new 0x0FFFFFFF s g h n2 (omega arith) free in
    let ne = entry_apart v s c new (ground (arith, zero_, e)) in
    let en : (new == c) ≡ false = ground (arith, ne) in
    let kept = w1.others c a ne in
    let end_ : leb 0x0FFFFFF8 (entry v s1 c % 2 ^ 28) || (entry v s1 c == 0) ≡ true =
      ground (arith, kept, e) in
    let (s2, run2, w2) =
      link_fat-Linked v c new s1 g w1.cached a (omega (arith, n2, g.clusters)) end_ in
    (
      s1,
      s2,
      run1,
      run2,
      record {
        cached = w2.cached;
        disk = w2.disk ∙ w1.disk;
        new_in = (n1, n2);
        was_free = zero_;
        links =
            ap (λ k. k % 2 ^ 28) w2.here
            ∙ add-mul-mod_self_right new (entry v s1 c / 2 ^ 28) (2 ^ 28)
            ∙ mod-eq_of_lt (omega (arith, n2, g.clusters));
        ends = (n2, omega (arith, w2.others new n2 en, w1.here, zero_));
        others = λ d ld nc nn. w2.others d ld nc ∙ w1.others d ld nn;
      },
    )

pub Grown-Same :
    (v : Volume) (s s1 s2 : State) (c new : ℕ)
    → Small v
    → Same v s s1
    → Grown v s1 c new s2
    → Grown v s c new s2
Grown-Same v s s1 s2 c new g same w = record {
  cached = w.cached;
  disk = w.disk ∙ same.disk;
  new_in = w.new_in;
  was_free = sym (Same-entry v s s1 new g same w.new_in.1) ∙ w.was_free;
  links = w.links;
  ends = w.ends;
  others = λ d ld nc nn. w.others d ld nc nn ∙ Same-entry v s s1 d g same ld;
}

pub read_or_allocate_fat-Grown :
    (v : Volume) (s : State) (c : ℕ) (l : List ℕ)
    → Small v
    → Cached v s
    → Links v s c l
    → (new : ℕ) × (s' : State) × (read_or_allocate_fat v (last_of c l) s ≡ ok (new, s'))
      × (((new ≡ 0) × Same v s s')
          ⊎ (Grown v s (last_of c l) new s' × Links v s' c (l ++ (new ∷ []))))
unfolding read_or_allocate_fat
read_or_allocate_fat-Grown v s c l g h r =
    let end_ = last_of c l in
    let (s1, got, same) = read_fat-end v s end_ g h (last-Links v s c l r) in
    let (new, s2, allocated, found) = alloc_fat-Found v s1 g same.cached in
    let both = Same-trans v s s1 s2 same found.same in
    elim found.free [
      | inl none_ ↦
          (let full : (new == 0) ≡ true = ground arith in
            (0, s2, >>=-run _ got (>>=-run _ allocated (rw full refl)), inl (refl, both)))
      | inr (n1, n2, zero_) ↦
          (let some_ : (new == 0) ≡ false = ground arith in
            let still = last-Links v s2 c l (Links-Same v s s2 c l g both r) in
            let free = Same-entry v s1 s2 new g found.same n2 ∙ zero_ in
            let (s3, s4, run1, run2, grown) =
              link_both v s2 end_ new g found.same.cached still (n1, n2) free in
            let whole = Grown-Same v s s2 s4 end_ new g both grown in
            (
              new,
              s4,
              >>=-run _ got (>>=-run _ allocated (rw some_ (>>=-run _ run1 (>>=-run _ run2 refl)))),
              inr (whole, Grown-Links v s s4 c new l g r whole),
            ))
    ]
