-- ===== src/Fat32/Linking.antt =====
-- `linkFAT` of kernel/fs/fat32/fat32.c.
use native.Mathlib.Nat.{div-add-mod'}
use bincows.Base.{
  ℕ, ◌+◌, ◌*◌, ◌/◌, ◌%◌, ◌^◌, ◌<◌, ◌≡◌, ◌∙◌, refl, ap, true, false, inl, inr, ◌||◌, ◌&&◌,
  Bool-cases, ltb, leb, ◌==◌, ok, >>=-run, arith,
}
use bincows.Fat32.{Volume, State, fat_cache_size, mark_modified, update, link_fat}
use bincows.Fat32.View.{Small, InTable, InTable-slot, hash_same, Cached, view, fetch-Fetched}
use bincows.Fat32.Entries.{
  entry, IsCluster, IsCluster-InTable, entry_lba_lem, entry_word_lem, slot_word, Same-entry,
}

-- The entry of one cluster has changed.
pub record Linked (v : Volume) (s : State) (c word : ℕ) (s' : State) : Type 0 where
  pub cached : Cached v s'
  pub here : entry v s' c ≡ word
  pub others : (d : ℕ) → IsCluster v d → (d == c) ≡ false → entry v s' d ≡ entry v s d
  pub disk : s'.disk ≡ s.disk

-- The state after a write of a word to a slot
abbrev stored : ℕ → ℕ → ℕ → State → State
stored lba w word s = record s {
  buf = update s.buf lba (update (s.buf lba) w word);
  modified = update s.modified lba true;
}

stored-Cached :
    (v : Volume) (lba w word : ℕ) (s : State)
    → InTable v lba
    → 0 < lba
    → s.tag lba ≡ lba
    → Cached v s
    → Cached v (stored lba w word s)
stored-Cached v lba w word s (lo, hi) pos here c = record {
  start_in = c.start_in;
  tagged = c.tagged;
  empty = λ h lt e. ground (arith, c.empty h lt e);
  marked = λ h lt m. elim (Bool-cases (h == lba)) [
    | inl self ↦ (ground arith, (ground arith, ground arith))
    | inr other ↦ c.marked h lt (ground arith)
  ];
  clean = λ h i t e m. ground (arith, c.clean h i t e);
}

stored-entry :
    (v : Volume) (d w word lba : ℕ) (s : State)
    → s.tag lba ≡ lba
    → (v.fat_begin + d / v.words == lba) && (d % v.words == w) ≡ false
    → entry v (stored lba w word s) d ≡ entry v s d
unfolding entry view
stored-entry v d w word lba s here apart = ground arith

apart_words :
    (v : Volume) (c d : ℕ)
    → (d == c) ≡ false
    → (v.fat_begin + d / v.words == (v.fat_begin + c / v.words)) && (d % v.words == (c % v.words))
      ≡ false
apart_words v c d ne =
    let e = div-add-mod' d v.words in
    let f = div-add-mod' c v.words in
    elim (Bool-cases (d / v.words == (c / v.words))) [
      | inl same ↦
          (let q : d / v.words ≡ c / v.words = ground arith in
            let p : d / v.words * v.words ≡ c / v.words * v.words = ap (λ k. k * v.words) q in
            ground arith)
      | inr other ↦ ground arith
    ]

store_here :
    (v : Volume) (c word : ℕ) (s : State)
    → s.tag (v.fat_begin + c / v.words) ≡ v.fat_begin + c / v.words
    → entry v (stored (v.fat_begin + c / v.words) (c % v.words) word s) c ≡ word
unfolding entry view
store_here v c word s here = ground arith

-- `linkFAT` sets one entry, which was free or the end of a chain, and keeps its reserved bits.
pub link_fat-Linked :
    (v : Volume) (c to : ℕ) (s : State)
    → Small v
    → Cached v s
    → IsCluster v c
    → to < 2 ^ 28
    → leb 0x0FFFFFF8 (entry v s c % 2 ^ 28) || (entry v s c == 0) ≡ true
    → (s' : State) × (link_fat v c to s ≡ ok s')
      × Linked v s c (to + entry v s c / 2 ^ 28 * 2 ^ 28) s'
unfolding link_fat mark_modified
link_fat-Linked v c to s g h lt small free =
    let lba = v.fat_begin + c / v.words in
    let t = IsCluster-InTable v c g lt in
    let (lo, hi) = t in
    let (s1, fetched, f) = fetch-Fetched v lba s g h t in
    let in_cache : ltb lba fat_cache_size ≡ true = ground (arith, g.fits) in
    let none_ : (to / 2 ^ 28) == 0 ≡ true = ground arith in
    let word = to + entry v s c / 2 ^ 28 * 2 ^ 28 in
    let same_tag : (s1.tag lba == lba) ≡ true = ground (arith, f.here) in
    let seen = slot_word v s s1 c g lt f in
    (
      stored lba (c % v.words) word s1,
      rw (entry_lba_lem v c g lt, entry_word_lem v c g lt)
          (>>=-run _ fetched (
            rw (in_cache) (
              rw (seen)
                (rw (free, none_, hash_same lba (InTable-slot v lba g t), same_tag) refl)))),
      record {
        cached =
            stored-Cached v lba (c % v.words) word s1 t (omega (arith, g.reserved)) f.here
              f.same.cached;
        here = store_here v c word s1 f.here;
        others = λ d ltd ne.
            stored-entry v d (c % v.words) word lba s1 f.here (apart_words v c d ne)
            ∙ Same-entry v s s1 d g f.same ltd;
        disk = f.same.disk;
      },
    )
