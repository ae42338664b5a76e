-- ===== src/Fat32/Allocating.antt =====
-- `allocFAT` of kernel/fs/fat32/fat32.c.
use native.Mathlib.Nat.{
  mod-eq_of_lt, add-mul-div_left, add-mul-mod_self_left, div-eq_of_lt, mul_comm, mul-le-mul_right,
  suc-mul,
}
use bincows.Base.{
  ℕ, zero, suc, ◌+◌, ◌-◌, ◌*◌, ◌/◌, ◌%◌, ◌^◌, ◌≤◌, ◌<◌, ◌≡◌, ◌∙◌, refl, sym, ap, true, false, ◌⊎◌,
  inl, inr, some, Bool-cases, Option-cases, ltb, leb, ◌==◌, if◌then◌else◌, ok, >>=-run, arith,
}
use bincows.Fat32.{Sector, Volume, State, fat_cache_size, find_free, alloc_loop, alloc_fat}
use bincows.Fat32.View.{
  Small, InTable, InTable-slot, Cached, view, Same, Same-self, Same-trans, Fetched, fetch-Fetched,
}
use bincows.Fat32.Entries.{entry, IsCluster, Same-entry}

-- What the search in one sector finds
find_free-some :
    (sector : Sector) (k i j : ℕ)
    → find_free sector k i ≡ some j
    → (i ≤ j) × (j < i + k) × (sector j ≡ 0)
unfolding find_free
find_free-some sector zero i j e = absurd cc
find_free-some sector (suc k) i j e = elim (Bool-cases (sector i == 0)) [
  | inl here ↦
      (let same : i ≡ j = ground (arith, e) in
        (omega (arith, same), omega (arith, same), ap sector (sym same) ∙ ground arith))
  | inr there ↦
      (let later : find_free sector k (i + 1) ≡ some j = ground (arith, e) in
        let (a, b, z) = find_free-some sector k (i + 1) j later in
        (omega (arith, a), omega (arith, b), z))
]

-- rounds from a sector to the one that ends the search
distance : Volume → ℕ → ℕ → ℕ
distance v last lba = if leb lba last then last - lba else last + v.fat_size - lba

-- the sector after the last one of the table is the first
abbrev next_sector : Volume → ℕ → ℕ
next_sector v lba = if lba == (v.fat_begin + v.fat_size - 1) then v.fat_begin else lba + 1

next_sector-InTable : (v : Volume) (lba : ℕ) → InTable v lba → InTable v (next_sector v lba)
next_sector-InTable v lba (lo, hi) = (ground arith, ground arith)

distance-next :
    (v : Volume) (last lba : ℕ)
    → InTable v last
    → InTable v lba
    → (lba == last) ≡ false
    → distance v last (next_sector v lba) < distance v last lba
unfolding distance
distance-next v last lba (a, b) (c, d) ne = ground arith

-- No cluster, or one that is free in the table
abbrev pub Free : Volume → State → ℕ → Type 0
Free v s c = (c ≡ 0) ⊎ ((1 < c) × IsCluster v c × (entry v s c ≡ 0))

abbrev first_word : Volume → ℕ → ℕ
first_word v lba = if lba == v.fat_begin then 2 else 0

-- The cluster of a word of a sector of the table
IsCluster-at :
    (v : Volume) (lba i : ℕ) (s : State)
    → Small v
    → InTable v lba
    → first_word v lba ≤ i
    → i < v.words
    → ((1 < (lba - v.fat_begin) * v.words + i)
        × IsCluster v ((lba - v.fat_begin) * v.words + i)
        × (entry v s ((lba - v.fat_begin) * v.words + i) ≡ view s lba i))
unfolding entry
IsCluster-at v lba i s g (lo, hi) from below =
    let q = lba - v.fat_begin in
    let up : suc q * v.words ≤ v.fat_size * v.words = mul-le-mul_right v.words (omega arith) in
    let one_more = suc-mul q v.words in
    let turn = mul_comm v.fat_size v.words in
    let turned : q * v.words + i ≡ i + v.words * q = omega (arith, mul_comm q v.words) in
    let row : (i + v.words * q) / v.words ≡ q =
      add-mul-div_left i q g.words_pos ∙ rw (div-eq_of_lt below) (omega arith) in
    let column : (i + v.words * q) % v.words ≡ i =
      add-mul-mod_self_left i v.words q ∙ mod-eq_of_lt below in
    let place : v.fat_begin + q ≡ lba = omega arith in
    (
      elim (Bool-cases (lba == v.fat_begin)) [
        | inl first ↦ ground arith
        | inr later ↦
            (let least : 1 * v.words ≤ q * v.words = mul-le-mul_right v.words (ground arith) in
              omega (arith, least, g.words_two))
      ],
      omega (arith, up, one_more, turn),
      rw (turned, row, column, place) refl,
    )

slot_view :
    (v : Volume) (s s' : State) (lba i : ℕ)
    → InTable v lba
    → Fetched v s lba s'
    → s'.buf lba i ≡ view s lba i
unfolding view
slot_view v s s' lba i t f = let seen = f.same.views lba i t in ground (arith, seen, f.here)

-- A search ends with a cluster and the same entries.
pub record Found (v : Volume) (s : State) (c : ℕ) (s' : State) : Type 0 where
  pub same : Same v s s'
  pub free : Free v s c

Found-here :
    (v : Volume) (s s1 : State) (lba i : ℕ)
    → Small v
    → InTable v lba
    → Fetched v s lba s1
    → find_free (s1.buf lba) (v.words - first_word v lba) (first_word v lba) ≡ some i
    → (((lba - v.fat_begin) * v.words + i) % 2 ^ 32 ≡ (lba - v.fat_begin) * v.words + i)
      × Found v s ((lba - v.fat_begin) * v.words + i) (record s1 { alloc_start = lba })
unfolding view
Found-here v s s1 lba i g t f e =
    let (from, below, zero_) =
      find_free-some (s1.buf lba) (v.words - first_word v lba) (first_word v lba) i e in
    let (a, b, z) = IsCluster-at v lba i s g t from (omega (arith, from, below)) in
    (
      mod-eq_of_lt (omega (arith, b, g.clusters)),
      record {
        same = record {
          cached = record {
            start_in = t;
            tagged = f.same.cached.tagged;
            empty = f.same.cached.empty;
            marked = f.same.cached.marked;
            clean = f.same.cached.clean;
          };
          views = f.same.views;
          disk = f.same.disk;
        };
        free = inr (a, b, z ∙ sym (slot_view v s s1 lba i t f) ∙ zero_);
      },
    )

Found-Same :
    (v : Volume) (s s1 s2 : State) (c : ℕ)
    → Small v
    → Same v s s1
    → Found v s1 c s2
    → Found v s c s2
Found-Same v s s1 s2 c g p f = record {
  same = Same-trans v s s1 s2 p f.same;
  free = elim f.free [
    | inl none_ ↦ inl none_
    | inr (a, b, z) ↦ inr (a, b, sym (Same-entry v s s1 c g p b) ∙ z)
  ];
}

-- With rounds enough for the sectors that are left, the search ends.
alloc_loop-Found :
    (v : Volume) (k last lba : ℕ) (s : State)
    → Small v
    → Cached v s
    → InTable v last
    → InTable v lba
    → distance v last lba < k
    → (c : ℕ) × (s' : State) × (alloc_loop v k last lba s ≡ ok (c, s')) × Found v s c s'
unfolding alloc_loop
alloc_loop-Found v zero last lba s g h tl t fuel = absurd (omega arith)
alloc_loop-Found v (suc k) last lba s g h tl t fuel = elim (Bool-cases (lba == last)) [
  | inl end_ ↦
      (0, s, rw (end_, alloc_loop) refl, record { same = Same-self v s h; free = inl refl })
  | inr more ↦
      (let (s1, fetched, f) = fetch-Fetched v lba s g h t in
        let in_cache : ltb lba fat_cache_size ≡ true = ground (arith, InTable-slot v lba g t) in
        elim (Option-cases
          (find_free (s1.buf lba) (v.words - first_word v lba) (first_word v lba))) [
            | inl none_ ↦
                (let (c, s2, run, found) =
                    alloc_loop-Found v k last (next_sector v lba) s1 g f.same.cached tl
                      (next_sector-InTable v lba t)
                      (omega (arith, distance-next v last lba tl t more)) in
                  (
                    c,
                    s2,
                    rw (more, alloc_loop) (>>=-run _ fetched (rw (in_cache) (rw none_ run))),
                    Found-Same v s s1 s2 c g f.same found,
                  ))
            | inr (i, some_) ↦
                (let (narrow, found) = Found-here v s s1 lba i g t f some_ in
                  (
                    (lba - v.fat_begin) * v.words + i,
                    record s1 { alloc_start = lba },
                    rw (more, alloc_loop)
                        (>>=-run _ fetched (
                          rw (in_cache)
                            (rw some_ (ap (λ c. ok (c, record s1 { alloc_start = lba })) narrow)))),
                    found,
                  ))
          ])
]

pub alloc_fat-Found :
    (v : Volume) (s : State)
    → Small v
    → Cached v s
    → (c : ℕ) × (s' : State) × (alloc_fat v s ≡ ok (c, s')) × Found v s c s'
unfolding alloc_fat distance
alloc_fat-Found v s g h =
    let (lo, hi) = h.start_in in
    let a : leb v.fat_begin s.alloc_start ≡ true = ground arith in
    let w : (v.fat_begin + v.fat_size) % 2 ^ 32 ≡ v.fat_begin + v.fat_size =
      mod-eq_of_lt (omega (arith, g.fits)) in
    let b : ltb s.alloc_start (v.fat_begin + v.fat_size) ≡ true = ground arith in
    let last =
      (if s.alloc_start == v.fat_begin then v.fat_begin + v.fat_size - 1 else s.alloc_start - 1) in
    let (c, s', run, found) =
      alloc_loop-Found v v.fat_size last s.alloc_start s g h (ground arith, ground arith) h.start_in
        (ground arith) in
    (c, s', rw (a, w, b) run, found)
