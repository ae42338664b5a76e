-- ===== src/Fat32/Places.antt =====
-- Where the sectors of a file stand on the partition, in kernel/fs/fat32/fat32.c.
use native.Mathlib.Nat.{mod-eq_of_lt, add-div_left, add-mod_left, div-eq_of_lt, suc-mul}
use bincows.Base.{
  ℕ, zero, suc, ◌+◌, ◌-◌, ◌*◌, ◌/◌, ◌%◌, ◌^◌, ◌≤◌, ◌<◌, ◌≡◌, ◌∙◌, refl, sym, ap, arith, List, [],
  ◌∷◌, length, drop,
}
use bincows.Fat32.{Volume, cluster_begin}
use bincows.Fat32.View.{Small}
use bincows.Fat32.Chains.{cluster_of}

-- The sector `p` of the file whose first cluster and others are given
unfoldable pub place : Volume → ℕ → List ℕ → ℕ → ℕ
place v c l p = cluster_begin v (cluster_of c l (p / v.cluster_size)) + p % v.cluster_size

-- The cluster has its sectors on the partition.
abbrev pub HasData : Volume → ℕ → Type 0
HasData v c = (1 < c) × ((c - 2) * v.cluster_size + v.data_begin + v.cluster_size ≤ v.size)

abbrev pub HaveData : Volume → ℕ → List ℕ → Type 0
HaveData v c [] = HasData v c
HaveData v c (d ∷ l) = HasData v c × HaveData v d l

pub HaveData-first : (v : Volume) (c : ℕ) (l : List ℕ) → HaveData v c l → HasData v c
HaveData-first v c [] h = h
HaveData-first v c (d ∷ l) (h, r) = h

pub cluster_begin_lem :
    (v : Volume) (c : ℕ)
    → Small v
    → c < 2 ^ 32
    → HasData v c
    → cluster_begin v c ≡ (c - 2) * v.cluster_size + v.data_begin
unfolding cluster_begin
cluster_begin_lem v c g small (a, b) =
    let cut : (c + 2 ^ 32 - 2) % 2 ^ 32 ≡ c - 2 = omega arith in
    let p : (c - 2) * v.cluster_size % 2 ^ 32 ≡ (c - 2) * v.cluster_size =
      mod-eq_of_lt (omega (arith, g.narrow, g.cluster_pos)) in
    rw (cut, p) (mod-eq_of_lt (omega (arith, g.narrow, g.cluster_pos)))

pub place_first :
    (v : Volume) (c : ℕ) (l : List ℕ) (p : ℕ)
    → p < v.cluster_size
    → place v c l p ≡ cluster_begin v c + p
unfolding place
place_first v c l p lt = rw (div-eq_of_lt lt, mod-eq_of_lt lt) refl

pub place_later :
    (v : Volume) (c d : ℕ) (l : List ℕ) (p : ℕ)
    → 0 < v.cluster_size
    → place v c (d ∷ l) (v.cluster_size + p) ≡ place v d l p
unfolding place
place_later v c d l p pos =
    let q : (v.cluster_size + p) / v.cluster_size ≡ suc (p / v.cluster_size) =
      add-div_left p pos ∙ omega arith in
    rw (q, add-mod_left v.cluster_size p) refl

-- Clusters that follow each other have their sectors so.
pub cluster_begin_next :
    (v : Volume) (c : ℕ)
    → Small v
    → c < 2 ^ 28
    → HasData v c
    → HasData v (c + 1)
    → cluster_begin v (c + 1) ≡ cluster_begin v c + v.cluster_size
cluster_begin_next v c g small (a, b) next =
    let q : c + 1 - 2 ≡ suc (c - 2) = omega arith in
    let e = cluster_begin_lem v (c + 1) g (omega arith) next in
    let f = cluster_begin_lem v c g (omega arith) (a, b) in
    rw (e, f, q, suc-mul (c - 2) v.cluster_size) (omega arith)

pub HaveData-drop :
    (v : Volume) (c : ℕ) (l : List ℕ) (q : ℕ)
    → q ≤ length l
    → HaveData v c l
    → HaveData v (cluster_of c l q) (drop q l)
HaveData-drop v c l zero le h = h
HaveData-drop v c [] (suc q) le h = absurd (omega arith)
HaveData-drop v c (d ∷ l) (suc q) le (h, r) = HaveData-drop v d l q (omega arith) r

pub length-drop : (l : List ℕ) (q : ℕ) → q ≤ length l → length (drop q l) ≡ length l - q
length-drop l zero le = omega arith
length-drop [] (suc q) le = absurd (omega arith)
length-drop (d ∷ l) (suc q) le = length-drop l q (omega arith) ∙ omega arith

-- The sectors from a cluster of the file on
pub place-drop :
    (v : Volume) (c : ℕ) (l : List ℕ) (q p : ℕ)
    → 0 < v.cluster_size
    → q ≤ length l
    → place v (cluster_of c l q) (drop q l) p ≡ place v c l (q * v.cluster_size + p)
place-drop v c l zero p pos le = ap (place v c l) (omega arith)
place-drop v c [] (suc q) p pos le = absurd (omega arith)
place-drop v c (d ∷ l) (suc q) p pos le =
    place-drop v d l q p pos (omega arith)
    ∙ sym (place_later v c d l (q * v.cluster_size + p) pos)
    ∙ ap (place v c (d ∷ l)) (omega (arith, suc-mul q v.cluster_size))
