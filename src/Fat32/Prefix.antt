-- ===== src/Fat32/Prefix.antt =====
-- A file of which clusters before the one written to are kept, in kernel/fs/fat32/fat32.c.
use mathlib.Core.Path.{subst}
use native.Mathlib.Nat.{mul-add, mul_comm}
use bincows.Base.{
  ℕ, zero, suc, ◌+◌, ◌*◌, ◌%◌, ◌^◌, ◌≤◌, ◌≡◌, ◌∙◌, refl, sym, ap, false, ◌==◌, arith, List, [], ◌∷◌,
  ◌++◌, length, length-append, drop,
}
use bincows.Fat32.{Sector, Volume, State}
use bincows.Fat32.View.{Small, Same}
use bincows.Fat32.Entries.{entry, IsCluster, Same-entry}
use bincows.Fat32.Chains.{Links, last_of, cluster_of}
use bincows.Fat32.Places.{place, place-drop, length-drop}
use bincows.Fat32.Writing.{Written}
use bincows.Fat32.Rounds.{first_apart}

-- what follows a cluster of the chain when clusters are added
drop-append : (l ext : List ℕ) (q : ℕ) → q ≤ length l → drop q (l ++ ext) ≡ drop q l ++ ext
drop-append l ext zero le = refl
drop-append [] ext (suc q) le = absurd (omega arith)
drop-append (d ∷ l) ext (suc q) le = drop-append l ext q (omega arith)

cluster_of-append :
    (c : ℕ) (l ext : List ℕ) (q : ℕ) → q ≤ length l → cluster_of c (l ++ ext) q ≡ cluster_of c l q
cluster_of-append c l ext zero le = refl
cluster_of-append c [] ext (suc q) le = absurd (omega arith)
cluster_of-append c (d ∷ l) ext (suc q) le = cluster_of-append d l ext q (omega arith)

last_of-drop :
    (c : ℕ) (l : List ℕ) (q : ℕ)
    → q ≤ length l
    → last_of (cluster_of c l q) (drop q l) ≡ last_of c l
last_of-drop c l zero le = refl
last_of-drop c [] (suc q) le = absurd (omega arith)
last_of-drop c (d ∷ l) (suc q) le = last_of-drop d l q (omega arith)

-- The clusters before the one written to are still those of the file.
Links-prefix :
    (v : Volume) (s s' : State) (c : ℕ) (l ext : List ℕ) (q : ℕ)
    → q ≤ length l
    → Links v s c l
    → ((d : ℕ)
        → IsCluster v d
        → (d == last_of c l) ≡ false
        → (entry v s d == 0) ≡ false
        → entry v s' d ≡ entry v s d)
    → Links v s' (cluster_of c l q) (drop q l ++ ext)
    → Links v s' c (l ++ ext)
Links-prefix v s s' c l ext zero le h keeps rest = rest
Links-prefix v s s' c [] ext (suc q) le h keeps rest = absurd (omega arith)
Links-prefix v s s' c (d ∷ l) ext (suc q) le (a, (b, f, e), r) keeps rest =
    let used : (entry v s c == 0) ≡ false = ground arith in
    let same = keeps c a (first_apart v s c d l (a, (b, f, e), r)) used in
    (
      a,
      (b, f, ap (λ k. k % 2 ^ 28) same ∙ e),
      Links-prefix v s s' d l ext q (omega arith) r keeps rest,
    )

pub Written-prefix :
    (v : Volume) (s s1 s' : State) (c : ℕ) (l ext : List ℕ) (q p n : ℕ) (buf : ℕ → Sector)
    → Small v
    → q ≤ length l
    → Links v s c l
    → Same v s s1
    → Written v s1
        (cluster_of c l q)
        (last_of (cluster_of c l q) (drop q l))
        (drop q l ++ ext)
        p
        n
        buf
        0
        s'
    → Written v s c (last_of c l) (l ++ ext) (q * v.cluster_size + p) n buf 0 s'
Written-prefix v s s1 s' c l ext q p n buf g le links same w =
    let others : (d : ℕ)
        → IsCluster v d
        → (d == last_of c l) ≡ false
        → (entry v s d == 0) ≡ false
        → entry v s' d ≡ entry v s d =
      λ d ld ne used.
        (let e = Same-entry v s s1 d g same ld in
          let last = last_of-drop c l q le in
          w.others d ld (subst (λ k. (d == k) ≡ false) (sym last) ne) (ground (arith, e)) ∙ e) in
    let long = length-append l ext in
    let at_ : (j : ℕ)
        → place v (cluster_of c l q) (drop q l ++ ext) (p + j)
          ≡ place v c (l ++ ext) (q * v.cluster_size + p + j) =
      λ j.
        subst
          (λ x.
            place v x (drop q l ++ ext) (p + j)
            ≡ place v (cluster_of c (l ++ ext) q) (drop q (l ++ ext)) (p + j))
          (cluster_of-append c l ext q le)
          (ap (λ x. place v (cluster_of c (l ++ ext) q) x (p + j)) (sym (drop-append l ext q le)))
        ∙ place-drop v c (l ++ ext) q (p + j) g.cluster_pos (omega (arith, long))
        ∙ ap (place v c (l ++ ext)) (omega arith) in
    record {
      cached = w.cached;
      links = Links-prefix v s s' c l ext q le links others w.links;
      range =
          (let rest = length-append (drop q l) ext in
            let short = length-drop l q le in
            let sum : q + suc (length (drop q l ++ ext)) ≡ suc (length (l ++ ext)) = omega arith in
            let parts = mul-add v.cluster_size q (suc (length (drop q l ++ ext))) in
            let whole = ap (λ k. v.cluster_size * k) sum in
            omega (arith, parts, whole, mul_comm v.cluster_size q, w.range));
      inside = λ j lt. ap s'.disk (sym (at_ j)) ∙ w.inside j lt;
      outside = λ lba above out.
          w.outside lba above (λ j lt. subst (λ k. (lba == k) ≡ false) (sym (at_ j)) (out j lt))
          ∙ ap (λ k. k lba) same.disk;
      others = others;
    }
