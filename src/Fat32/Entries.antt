-- ===== src/Fat32/Entries.antt =====
-- The entries of the file allocation table: `readFAT` and `linkFAT` of kernel/fs/fat32/fat32.c.
use native.Mathlib.Nat.{
  mod-eq_of_lt, mod-eq-sub-mul-div, mul-div-mul_left, mul-div_cancel_left, mul_assoc, mul_comm,
  div-lt_iff_lt-mul,
}
use bincows.Base.{
  ℕ, ◌+◌, ◌-◌, ◌*◌, ◌/◌, ◌%◌, ◌^◌, ◌<◌, ◌≡◌, ◌∙◌, refl, ap, true, false, inl, inr, Bool-cases, ltb,
  leb, ◌==◌, if◌then◌else◌, ok, >>=-run, arith,
}
use bincows.Fat32.{Volume, State, fat_cache_size, entry_lba, entry_word, read_fat}
use bincows.Fat32.View.{Small, InTable, Cached, view, Same, Fetched, fetch-Fetched}

-- The word of a cluster in the table
unfoldable pub entry : Volume → State → ℕ → ℕ
entry v s cluster = view s (v.fat_begin + cluster / v.words) (cluster % v.words)

abbrev pub IsCluster : Volume → ℕ → Type 0
IsCluster v cluster = cluster < v.words * v.fat_size

pub IsCluster-InTable :
    (v : Volume) (c : ℕ) → Small v → IsCluster v c → InTable v (v.fat_begin + c / v.words)
IsCluster-InTable v c g lt =
    let q : c / v.words < v.fat_size =
      (div-lt_iff_lt-mul g.words_pos).1 (rw (mul_comm v.fat_size v.words) lt) in
    (omega arith, omega arith)

word_four : (c w : ℕ) → 0 < w → c * 4 % (4 * w) / 4 ≡ c % w
word_four c w pos =
    let d : 4 * c / (4 * w) ≡ c / w = mul-div-mul_left {m = 4} c w (omega arith) in
    let a : 4 * c % (4 * w) ≡ 4 * c - 4 * w * (4 * c / (4 * w)) =
      mod-eq-sub-mul-div (4 * c) (4 * w) in
    let b : 4 * w * (c / w) ≡ 4 * (w * (c / w)) = mul_assoc 4 w (c / w) in
    let e : c % w ≡ c - w * (c / w) = mod-eq-sub-mul-div c w in
    let f : 4 * c % (4 * w) ≡ 4 * (c - w * (c / w)) = a ∙ rw (d, b) (omega arith) in
    rw (mul_comm c 4, f, e) (mul-div_cancel_left (c - w * (c / w)) {n = 4} (omega arith))

pub entry_lba_lem :
    (v : Volume) (c : ℕ) → Small v → IsCluster v c → entry_lba v c ≡ v.fat_begin + c / v.words
entry_lba_lem v c g lt =
    let (lo, hi) = IsCluster-InTable v c g lt in
    let four : c * 4 % 2 ^ 32 ≡ c * 4 = mod-eq_of_lt (omega (arith, g.clusters)) in
    let d : 4 * c / (4 * v.words) ≡ c / v.words =
      mul-div-mul_left {m = 4} c v.words (omega arith) in
    rw (four, mul_comm c 4, d) (mod-eq_of_lt (omega (arith, g.fits)))

pub entry_word_lem : (v : Volume) (c : ℕ) → Small v → IsCluster v c → entry_word v c ≡ c % v.words
entry_word_lem v c g lt =
    let four : c * 4 % 2 ^ 32 ≡ c * 4 = mod-eq_of_lt (omega (arith, g.clusters)) in
    rw four (word_four c v.words g.words_pos)

-- Clusters with other entries are other clusters.
pub entry_apart :
    (v : Volume) (s : State) (c d : ℕ) → (entry v s c == entry v s d) ≡ false → (c == d) ≡ false
entry_apart v s c d ne = elim (Bool-cases (c == d)) [
  | inl self ↦
      (let same : c ≡ d = ground arith in
        let equal = ap (entry v s) same in absurd (ground (arith, ne, equal)))
  | inr other ↦ other
]

pub Same-entry :
    (v : Volume) (s s' : State) (c : ℕ)
    → Small v
    → Same v s s'
    → IsCluster v c
    → entry v s' c ≡ entry v s c
unfolding entry
Same-entry v s s' c g same lt =
    same.views (v.fat_begin + c / v.words) (c % v.words) (IsCluster-InTable v c g lt)

-- The slot of a sector that has been fetched holds it.
pub slot_word :
    (v : Volume) (s s' : State) (c : ℕ)
    → Small v
    → IsCluster v c
    → Fetched v s (v.fat_begin + c / v.words) s'
    → s'.buf (v.fat_begin + c / v.words) (c % v.words) ≡ entry v s c
unfolding entry view
slot_word v s s' c g lt f =
    let seen =
      f.same.views (v.fat_begin + c / v.words) (c % v.words) (IsCluster-InTable v c g lt) in
    ground (arith, seen, f.here)

-- what `readFAT` makes of an entry
abbrev pub next_of : ℕ → ℕ
next_of word = if leb 0x0FFFFFF8 (word % 2 ^ 28) then 0 else word % 2 ^ 28

pub read_fat-next :
    (v : Volume) (c : ℕ) (s : State)
    → Small v
    → Cached v s
    → IsCluster v c
    → 1 < entry v s c % 2 ^ 28
    → (s' : State) × (read_fat v c s ≡ ok (next_of (entry v s c), s')) × Same v s s'
unfolding read_fat
read_fat-next v c s g h lt some_ =
    let lba = v.fat_begin + c / v.words in
    let (s', fetched, f) = fetch-Fetched v lba s g h (IsCluster-InTable v c g lt) in
    let (lo, hi) = IsCluster-InTable v c g lt in
    let in_cache : ltb lba fat_cache_size ≡ true = ground (arith, g.fits) in
    let not_0 : (entry v s c % 2 ^ 28 == 0) ≡ false = ground arith in
    let not_1 : (entry v s c % 2 ^ 28 == 1) ≡ false = ground arith in
    (
      s',
      rw (entry_lba_lem v c g lt, entry_word_lem v c g lt)
          (>>=-run _ fetched
            (rw (in_cache) (rw (slot_word v s s' c g lt f) (rw (not_0, not_1) refl)))),
      f.same,
    )
