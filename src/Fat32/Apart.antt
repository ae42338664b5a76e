-- ===== src/Fat32/Apart.antt =====
-- The clusters of a file differ from each other, and so do its sectors, in kernel/fs/fat32/fat32.c.
use mathlib.Core.Path.{subst}
use native.Mathlib.Nat.{mod-lt, div-lt_iff_lt-mul, mul_comm, mul-le-mul_right, suc-mul}
use bincows.Base.{
  ℕ, zero, suc, ◌+◌, ◌-◌, ◌*◌, ◌/◌, ◌%◌, ◌≤◌, ◌<◌, ◌≡◌, ◌∙◌, refl, sym, ap, false, inl, inr,
  Bool-cases, ltb, ◌==◌, arith, List, [], ◌∷◌, length, drop,
}
use bincows.Fat32.{Volume, State, cluster_begin}
use bincows.Fat32.View.{Small}
use bincows.Fat32.Entries.{IsCluster}
use bincows.Fat32.Chains.{Links, Links-first, cluster_of}
use bincows.Fat32.Places.{place, HasData, cluster_begin_lem, length-drop}

-- Every cluster of the table has its sectors on the partition.
abbrev pub AllData : Volume → Type 0
AllData v = (c : ℕ) → 1 < c → IsCluster v c → HasData v c

pub Links-drop :
    (v : Volume) (s : State) (c : ℕ) (l : List ℕ) (q : ℕ)
    → q ≤ length l
    → Links v s c l
    → Links v s (cluster_of c l q) (drop q l)
Links-drop v s c l zero le h = h
Links-drop v s c [] (suc q) le h = absurd (omega arith)
Links-drop v s c (d ∷ l) (suc q) le (a, b, r) = Links-drop v s d l q (omega arith) r

pub cluster_of-above :
    (v : Volume) (s : State) (c : ℕ) (l : List ℕ) (q : ℕ)
    → 1 < c
    → q ≤ length l
    → Links v s c l
    → 1 < cluster_of c l q
cluster_of-above v s c l zero some_ le h = some_
cluster_of-above v s c [] (suc q) some_ le h = absurd (omega arith)
cluster_of-above v s c (d ∷ l) (suc q) some_ le (a, (b, f, e), r) =
    cluster_of-above v s d l q b (omega arith) r

-- The table leads on from a cluster in one way.
Links-length :
    (v : Volume) (s : State) (c : ℕ) (l m : List ℕ)
    → Links v s c l
    → Links v s c m
    → length l ≡ length m
Links-length v s c [] [] h k = refl
Links-length v s c [] (d ∷ m) (a, e) (b, (f, g, h), r) = absurd (omega (arith, e, g, h))
Links-length v s c (d ∷ l) [] (b, (f, g, h), r) (a, e) = absurd (omega (arith, e, g, h))
Links-length v s c (d ∷ l) (x ∷ m) (a, (b, f, e), r) (a2, (b2, f2, e2), r2) =
    let same : x ≡ d = sym e2 ∙ e in
    ap suc (Links-length v s d l m r (subst (λ y. Links v s y m) same r2))

-- A later cluster of the chain is another one.
later_apart :
    (v : Volume) (s : State) (c d : ℕ) (m : List ℕ) (q : ℕ)
    → Links v s c (d ∷ m)
    → q ≤ length m
    → (cluster_of d m q == c) ≡ false
later_apart v s c d m q (a, b, r) le = elim (Bool-cases (cluster_of d m q == c)) [
  | inl self ↦
      (let same : cluster_of d m q ≡ c = ground arith in
        let rest = subst (λ x. Links v s x (drop q m)) same (Links-drop v s d m q le r) in
        let long = Links-length v s c (d ∷ m) (drop q m) (a, b, r) rest in
        absurd (omega (arith, long, length-drop m q le)))
  | inr other ↦ other
]

begin_apart :
    (x y cs db i j : ℕ)
    → 1 < x
    → 1 < y
    → (x == y) ≡ false
    → i < cs
    → j < cs
    → ((x - 2) * cs + db + i == ((y - 2) * cs + db + j)) ≡ false
begin_apart x y cs db i j px py ne li lj = elim (Bool-cases (ltb x y)) [
  | inl below ↦
      (let step : suc (x - 2) * cs ≤ (y - 2) * cs = mul-le-mul_right cs (ground arith) in
        ground (arith, suc-mul (x - 2) cs))
  | inr above ↦
      (let step : suc (y - 2) * cs ≤ (x - 2) * cs = mul-le-mul_right cs (ground arith) in
        ground (arith, suc-mul (y - 2) cs))
]

-- A sector of the first cluster is not one of the later clusters.
pub place_apart :
    (v : Volume) (s : State) (c d : ℕ) (m : List ℕ) (i p : ℕ)
    → Small v
    → AllData v
    → 1 < c
    → Links v s c (d ∷ m)
    → i < v.cluster_size
    → p < v.cluster_size * suc (length m)
    → (cluster_begin v c + i == (place v d m p)) ≡ false
unfolding place
place_apart v s c d m i p g all some_ links lt below =
    let cs = v.cluster_size in
    let q : p / cs < suc (length m) =
      (div-lt_iff_lt-mul g.cluster_pos).1 (omega (arith, mul_comm cs (suc (length m)))) in
    let le : p / cs ≤ length m = omega arith in
    let x = cluster_of d m (p / cs) in
    let (a, (b, f, e), r) = links in
    let ux = cluster_of-above v s d m (p / cs) b le r in
    let ix = Links-first v s x (drop (p / cs) m) (Links-drop v s d m (p / cs) le r) in
    let ne = later_apart v s c d m (p / cs) links le in
    let en : (c == x) ≡ false = ground (arith, ne) in
    let bc = cluster_begin_lem v c g (omega (arith, a, g.clusters)) (all c some_ a) in
    let bx = cluster_begin_lem v x g (omega (arith, ix, g.clusters)) (all x ux ix) in
    rw (bc, bx) (begin_apart c x cs v.data_begin i (p % cs) some_ ux en lt (mod-lt p g.cluster_pos))

-- The sectors of a file stand after the table.
pub place-data :
    (v : Volume) (s : State) (c : ℕ) (l : List ℕ) (p : ℕ)
    → Small v
    → AllData v
    → 1 < c
    → Links v s c l
    → p < v.cluster_size * suc (length l)
    → v.data_begin ≤ place v c l p
unfolding place
place-data v s c l p g all some_ links below =
    let cs = v.cluster_size in
    let q : p / cs < suc (length l) =
      (div-lt_iff_lt-mul g.cluster_pos).1 (omega (arith, mul_comm cs (suc (length l)))) in
    let le : p / cs ≤ length l = omega arith in
    let x = cluster_of c l (p / cs) in
    let ux = cluster_of-above v s c l (p / cs) some_ le links in
    let ix = Links-first v s x (drop (p / cs) l) (Links-drop v s c l (p / cs) le links) in
    let bx = cluster_begin_lem v x g (omega (arith, ix, g.clusters)) (all x ux ix) in
    omega (arith, bx)
