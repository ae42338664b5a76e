-- ===== src/Fat32/View.antt =====
-- The file allocation table that the cache and the device hold together, in kernel/fs/fat32/fat32.c.
use bincows.Base.{
  ℕ, ◌+◌, ◌-◌, ◌*◌, ◌%◌, ◌^◌, ◌≤◌, ◌<◌, ◌≡◌, ◌∙◌, refl, true, false, ◌⊎◌, inl, inr, Bool-cases, ltb,
  leb, ◌==◌, if◌then◌else◌, ok, >>=-run, arith,
}
use native.Mathlib.Nat.{mod-eq_of_lt}
use bincows.Fat32.{
  Sector, Volume, State, fat_cache_size, cache_access, add_cache_entry, async_read,
  fetch_fat_sector, update, transfer,
}

-- A table whose sectors have the numbers of slots, on a partition of fewer than 2^32 sectors
pub record Small (v : Volume) : Type 0 where
  pub reserved : 0 < v.fat_begin
  pub fits : v.fat_begin + v.fat_size ≤ fat_cache_size
  pub inside : v.fat_begin + v.fat_size ≤ v.data_begin
  pub within : v.data_begin ≤ v.size
  pub narrow : v.size ≤ 2 ^ 32
  pub words_pos : 0 < v.words
  pub words_two : 1 < v.words
  pub cluster_pos : 0 < v.cluster_size
  pub clusters : v.words * v.fat_size ≤ 0x0FFFFFF0

abbrev pub InTable : Volume → ℕ → Type 0
InTable v lba = (v.fat_begin ≤ lba) × (lba < v.fat_begin + v.fat_size)

-- A slot is empty or holds the sector of its number, which the device holds too unless it is marked.
pub record Cached (v : Volume) (s : State) : Type 0 where
  pub start_in : InTable v s.alloc_start
  pub tagged : (h : ℕ) → h < fat_cache_size → (s.tag h ≡ 0) ⊎ (s.tag h ≡ h)
  pub empty : (h : ℕ) → h < fat_cache_size → s.tag h ≡ 0 → s.modified h ≡ false
  pub marked : (h : ℕ) → h < fat_cache_size → s.modified h ≡ true → (s.tag h ≡ h) × InTable v h
  pub clean : (h i : ℕ) → InTable v h → s.tag h ≡ h → s.modified h ≡ false → s.buf h i ≡ s.disk h i

-- A sector of the table: the slot of its number, when it is there, and else the device
unfoldable pub view : State → ℕ → Sector
view s lba = if s.tag lba == lba then s.buf lba else s.disk lba

-- The table has the same entries, and the device is the same.
pub record Same (v : Volume) (s s' : State) : Type 0 where
  pub cached : Cached v s'
  pub views : (lba i : ℕ) → InTable v lba → view s' lba i ≡ view s lba i
  pub disk : s'.disk ≡ s.disk

pub Same-self : (v : Volume) (s : State) → Cached v s → Same v s s
Same-self v s c = record { cached = c; views = λ lba i t. refl; disk = refl }

pub Same-trans : (v : Volume) (a b c : State) → Same v a b → Same v b c → Same v a c
Same-trans v a b c p q = record {
  cached = q.cached;
  views = λ lba i t. q.views lba i t ∙ p.views lba i t;
  disk = q.disk ∙ p.disk;
}

-- What fetching a sector of the table leaves in its slot
pub record Fetched (v : Volume) (s : State) (lba : ℕ) (s' : State) : Type 0 where
  pub same : Same v s s'
  pub here : s'.tag lba ≡ lba
  pub marks : (h : ℕ) → s'.modified h ≡ s.modified h

pub InTable-slot : (v : Volume) (lba : ℕ) → Small v → InTable v lba → lba < fat_cache_size
InTable-slot v lba g (lo, hi) = omega (arith, g.fits)

pub hash_same : (lba : ℕ) → lba < fat_cache_size → lba % fat_cache_size ≡ lba
hash_same lba lt = mod-eq_of_lt lt

-- The state after a miss
abbrev loaded : ℕ → State → State
loaded lba s = record s { tag = update s.tag lba lba; buf = transfer s.buf lba s.disk lba 1 }

add_unmarked :
    (v : Volume) (lba : ℕ) (s : State)
    → lba % fat_cache_size ≡ lba
    → s.modified lba ≡ false
    → add_cache_entry v lba s ≡ ok (lba, record s { tag = update s.tag lba lba })
unfolding add_cache_entry
add_unmarked v lba s h unmarked = rw (h, unmarked) refl

fetch_miss :
    (v : Volume) (lba : ℕ) (s : State)
    → Small v
    → Cached v s
    → InTable v lba
    → s.tag lba ≡ 0
    → fetch_fat_sector v lba s ≡ ok (lba, loaded lba s)
unfolding fetch_fat_sector cache_access async_read
fetch_miss v lba s g c (lo, hi) e =
    let h = hash_same lba (InTable-slot v lba g (lo, hi)) in
    let unmarked = c.empty lba (InTable-slot v lba g (lo, hi)) e in
    let a : leb v.fat_begin lba ≡ true = ground (arith) in
    let w : (v.fat_begin + v.fat_size) % 2 ^ 32 ≡ v.fat_begin + v.fat_size =
      mod-eq_of_lt (omega (arith, g.fits)) in
    let b : ltb lba (v.fat_begin + v.fat_size) ≡ true = ground arith in
    let t : (0 == lba) ≡ false = ground (arith, g.reserved) in
    let z : ltb lba v.size ≡ true = ground (arith, g.inside, g.within) in
    let read : async_read v s.disk lba s.buf lba 1 ≡ ok (transfer s.buf lba s.disk lba 1) =
      rw z refl in
    rw (a, w, b, h, e, t) (>>=-run _ (add_unmarked v lba s h unmarked) (>>=-run _ read refl))

fetch_hit :
    (v : Volume) (lba : ℕ) (s : State)
    → Small v
    → InTable v lba
    → s.tag lba ≡ lba
    → fetch_fat_sector v lba s ≡ ok (lba, s)
unfolding fetch_fat_sector cache_access
fetch_hit v lba s g (lo, hi) e =
    let h = hash_same lba (InTable-slot v lba g (lo, hi)) in
    let a : leb v.fat_begin lba ≡ true = ground (arith) in
    let w : (v.fat_begin + v.fat_size) % 2 ^ 32 ≡ v.fat_begin + v.fat_size =
      mod-eq_of_lt (omega (arith, g.fits)) in
    let b : ltb lba (v.fat_begin + v.fat_size) ≡ true = ground arith in
    let t : (lba == lba) ≡ true = ground arith in rw (a, w, b, h, e, t) refl

loaded-Same :
    (v : Volume) (lba : ℕ) (s : State)
    → Small v
    → Cached v s
    → InTable v lba
    → s.tag lba ≡ 0
    → Same v s (loaded lba s)
unfolding view
loaded-Same v lba s g c (lo, hi) e = record {
  cached = record {
    start_in = c.start_in;
    tagged = λ h lt. elim (Bool-cases (h == lba)) [
      | inl self ↦ inr (ground arith)
      | inr other ↦ elim (c.tagged h lt) [ inl z ↦ inl (ground arith) | inr z ↦ inr (ground arith) ]
    ];
    empty = λ h lt z. ground (arith, g.reserved, c.empty h lt);
    marked = λ h lt m. elim (Bool-cases (h == lba)) [
      | inl self ↦ (ground arith, (ground arith, ground arith))
      | inr other ↦ (let (a, b) = c.marked h lt m in (ground arith, b))
    ];
    clean = λ h i t z m. elim (Bool-cases (h == lba)) [
      | inl self ↦
          (let same : h ≡ lba = ground arith in
            let there : lba + (h - lba) ≡ h = omega arith in ground (arith, same, there))
      | inr other ↦ ground (arith, c.clean h i t)
    ];
  };
  views = λ l i (a, b). elim (Bool-cases (l == lba)) [
    | inl self ↦
        (let same : l ≡ lba = ground arith in
          let there : lba + (l - lba) ≡ l = omega arith in ground (arith, g.reserved))
    | inr other ↦ ground arith
  ];
  disk = refl;
}

-- Fetching a sector of a small table loads it into the slot of its number and changes no entry.
pub fetch-Fetched :
    (v : Volume) (lba : ℕ) (s : State)
    → Small v
    → Cached v s
    → InTable v lba
    → (s' : State) × (fetch_fat_sector v lba s ≡ ok (lba, s')) × Fetched v s lba s'
fetch-Fetched v lba s g c t = elim (c.tagged lba (InTable-slot v lba g t)) [
  | inl e ↦ (
    loaded lba s,
    fetch_miss v lba s g c t e,
    record { same = loaded-Same v lba s g c t e; here = ground arith; marks = λ h. refl },
  )
  | inr e ↦
      (s, fetch_hit v lba s g t e, record { same = Same-self v s c; here = e; marks = λ h. refl })
]
