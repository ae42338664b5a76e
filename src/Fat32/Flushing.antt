-- ===== src/Fat32/Flushing.antt =====
-- `flush_fat_cache` of kernel/fs/fat32/fat32.c.
use mathlib.Core.Path.{subst}
use bincows.Base.{
  ℕ, zero, suc, ◌+◌, ◌-◌, ◌≤◌, ◌<◌, ◌≡◌, ◌∙◌, refl, sym, ap, true, false, ◌⊎◌, inl, inr, Bool-cases,
  ◌&&◌, ltb, leb, ◌==◌, ok, >>=-run, arith,
}
use bincows.Fat32.{
  Volume, State, fat_cache_size, write, transfer, update, flush_loop, flush_fat_cache,
}
use bincows.Fat32.View.{Small, Cached, InTable, InTable-slot, view}

-- The marked slots from `i` on stand on the device and are not marked any more.
record From (i : ℕ) (s s' : State) : Type 0 where
  pub tags : s'.tag ≡ s.tag
  pub buffers : s'.buf ≡ s.buf
  pub start : s'.alloc_start ≡ s.alloc_start
  pub unmarked : (h : ℕ) → i ≤ h → h < fat_cache_size → s'.modified h ≡ false
  pub stays : (h : ℕ) → h < i → s'.modified h ≡ s.modified h
  pub written : (h : ℕ) → i ≤ h → h < fat_cache_size → s.modified h ≡ true → s'.disk h ≡ s.buf h
  pub kept :
      (h : ℕ) → (h < i) ⊎ (fat_cache_size ≤ h) ⊎ (s.modified h ≡ false) → s'.disk h ≡ s.disk h

-- The state when a slot has been written
abbrev cleaned : ℕ → State → State
cleaned i s = record s { modified = update s.modified i false; disk = transfer s.disk i s.buf i 1 }

From-marked :
    (i : ℕ) (s s' : State)
    → i < fat_cache_size
    → s.modified i ≡ true
    → From (i + 1) (cleaned i s) s'
    → From i s s'
From-marked i s s' low marked f = record {
  tags = f.tags;
  buffers = f.buffers;
  start = f.start;
  unmarked = λ h a b. elim (Bool-cases (h == i)) [
    | inl self ↦ f.stays h (ground arith) ∙ ground arith
    | inr other ↦ f.unmarked h (ground arith) b
  ];
  stays = λ h lt. f.stays h (omega arith) ∙ ground arith;
  written = λ h a b m. elim (Bool-cases (h == i)) [
    | inl self ↦
        (let here : h ≡ i = ground arith in
          let in_ : leb i h && ltb h (i + 1) ≡ true = ground arith in
          let word : i + (h - i) ≡ h = ground arith in
          f.kept h (inl (ground arith)) ∙ rw (in_, word) refl)
    | inr other ↦ f.written h (ground arith) b (ground arith)
  ];
  kept = λ h c.
      (let other : (h == i) ≡ false = elim (Bool-cases (h == i)) [
        | inl self ↦
            (let here : h ≡ i = ground arith in
              let mark = ap s.modified here ∙ marked in absurd (ground (arith, c)))
        | inr other ↦ other
      ] in
        let out : leb i h && ltb h (i + 1) ≡ false = ground arith in
        f.kept h (ground (arith, c)) ∙ rw out refl);
}

From-clean : (i : ℕ) (s s' : State) → s.modified i ≡ false → From (i + 1) s s' → From i s s'
From-clean i s s' clean f = record {
  tags = f.tags;
  buffers = f.buffers;
  start = f.start;
  unmarked = λ h a b. elim (Bool-cases (h == i)) [
    | inl self ↦
        (let here : h ≡ i = ground arith in f.stays h (ground arith) ∙ ap s.modified here ∙ clean)
    | inr other ↦ f.unmarked h (ground arith) b
  ];
  stays = λ h lt. f.stays h (omega arith);
  written = λ h a b m. elim (Bool-cases (h == i)) [
    | inl self ↦
        (let here : h ≡ i = ground arith in
          let no_ = ap s.modified here in absurd (ground (arith, no_)))
    | inr other ↦ f.written h (ground arith) b m
  ];
  kept = λ h c. f.kept h (ground (arith, c));
}

write_slot :
    (v : Volume) (i : ℕ) (s : State)
    → s.tag i ≡ i
    → i ≤ v.size
    → write v (s.tag i) s.buf i 1 (record s { modified = update s.modified i false })
      ≡ ok (cleaned i s)
unfolding write
write_slot v i s tagged low =
    let in_ : leb i v.size ≡ true = ground arith in
    let there : write v i s.buf i 1 (record s { modified = update s.modified i false })
        ≡ ok (cleaned i s) =
      rw (in_, write) refl in
    ap (λ t. write v t s.buf i 1 (record s { modified = update s.modified i false })) tagged ∙ there

flush_loop-From :
    (v : Volume) (k : ℕ) (s : State)
    → k ≤ fat_cache_size
    → ((h : ℕ) → h < fat_cache_size → s.modified h ≡ true → (s.tag h ≡ h) × (h ≤ v.size))
    → (s' : State) × (flush_loop v k s ≡ ok s') × From (fat_cache_size - k) s s'
unfolding flush_loop
flush_loop-From v zero s le ready = (
  s,
  refl,
  record {
    tags = refl;
    buffers = refl;
    start = refl;
    unmarked = λ h a b. absurd (omega arith);
    stays = λ h lt. refl;
    written = λ h a b m. absurd (omega arith);
    kept = λ h c. refl;
  },
)
flush_loop-From v (suc k) s le ready =
    let i = fat_cache_size - suc k in
    let next : fat_cache_size - k ≡ i + 1 = omega arith in
    elim (Bool-cases (s.modified i)) [
      | inl marked ↦
          (let (tagged, low) = ready i (omega arith) marked in
            let (s', run, f) =
              flush_loop-From v k (cleaned i s) (omega arith)
                (λ h lt m. ready h lt (ground arith)) in
            (
              s',
              rw (marked, flush_loop) (>>=-run _ (write_slot v i s tagged low) run),
              From-marked i s s' (omega arith) marked (subst (λ j. From j (cleaned i s) s') next f),
            ))
      | inr clean ↦
          (let (s', run, f) = flush_loop-From v k s (omega arith) ready in
            (
              s',
              rw (clean, flush_loop) run,
              From-clean i s s' clean (subst (λ j. From j s s') next f),
            ))
    ]

module _ (v : Volume) (s s' : State) (g : Small v) (c : Cached v s) (f : From 0 s s') where
  flushed_sector :
      (h i : ℕ) → h < fat_cache_size → InTable v h → s.tag h ≡ h → s'.disk h i ≡ s.buf h i
  flushed_sector h i lt t e = elim (Bool-cases (s.modified h)) [
    | inl marked ↦ ap (λ x. x i) (f.written h (omega arith) lt marked)
    | inr clean ↦ ap (λ x. x i) (f.kept h (inr (inr clean))) ∙ sym (c.clean h i t e clean)
  ]

  flushed-Cached : Cached v s'
  flushed-Cached = record {
    start_in = rw f.start c.start_in;
    tagged = λ h lt. rw f.tags (c.tagged h lt);
    empty = λ h lt e. f.unmarked h (omega arith) lt;
    marked = λ h lt m. (let no_ = f.unmarked h (omega arith) lt in absurd (ground (arith, no_, m)));
    clean = λ h i t e m.
        ap (λ b. b h i) f.buffers
        ∙ sym (flushed_sector h i (InTable-slot v h g t) t (ap (λ t. t h) (sym f.tags) ∙ e));
  }

  flushed_disk : (lba i : ℕ) → lba < fat_cache_size → InTable v lba → s'.disk lba i ≡ view s lba i
  unfolding view
  flushed_disk lba i lt t = elim (Bool-cases (s.tag lba == lba)) [
    | inl there ↦ rw there (flushed_sector lba i lt t (ground arith))
    | inr out ↦
        (let clean : s.modified lba ≡ false = elim (Bool-cases (s.modified lba)) [
          | inl m ↦ (let (e, b) = c.marked lba lt m in absurd (ground (arith, e)))
          | inr n ↦ n
        ] in
          rw out (ap (λ x. x i) (f.kept lba (inr (inr clean)))))
  ]

  flushed_view : (lba i : ℕ) → lba < fat_cache_size → InTable v lba → view s' lba i ≡ view s lba i
  unfolding view
  flushed_view lba i lt t =
      let d = flushed_disk lba i lt t in
      let same_tag : s'.tag lba ≡ s.tag lba = ap (λ x. x lba) f.tags in
      let b : s'.buf lba i ≡ s.buf lba i = ap (λ x. x lba i) f.buffers in
      elim (Bool-cases (s.tag lba == lba)) [ inl there ↦ ground arith | inr out ↦ ground arith ]

-- Writing the cache back gives the device the table that the two held together. The entries and the
-- sectors of the files stay, and no slot is marked.
pub flush_fat_cache-Cached :
    (v : Volume) (s : State)
    → Small v
    → Cached v s
    → (s' : State) × (flush_fat_cache v s ≡ ok s')
      × Cached v s'
      × ((lba i : ℕ)
          → InTable v lba
          → (s'.disk lba i ≡ view s lba i) × (view s' lba i ≡ view s lba i))
      × ((lba : ℕ) → v.data_begin ≤ lba → s'.disk lba ≡ s.disk lba)
      × ((h : ℕ) → h < fat_cache_size → s'.modified h ≡ false)
unfolding flush_fat_cache
flush_fat_cache-Cached v s g c =
    let outside : (lba : ℕ)
        → v.data_begin ≤ lba
        → (fat_cache_size ≤ lba) ⊎ (s.modified lba ≡ false) =
      λ lba le. elim (Bool-cases (ltb lba fat_cache_size && s.modified lba)) [
        | inl both ↦
            (let (t, (lo, hi)) = c.marked lba (ground arith) (ground arith) in
              absurd (omega (arith, g.inside)))
        | inr no_ ↦ ground arith
      ] in
    let (s', run, f) =
      flush_loop-From v fat_cache_size s (omega arith) (λ h lt m.
        (let (t, (lo, hi)) = c.marked h lt m in (t, omega (arith, g.inside, g.within)))) in
    (
      s',
      run,
      flushed-Cached v s s' g c f,
      λ lba i t.
          (let lt = InTable-slot v lba g t in
            (flushed_disk v s s' g c f lba i lt t, flushed_view v s s' g c f lba i lt t)),
      λ lba le. f.kept lba (inr (outside lba le)),
      λ h lt. f.unmarked h (omega arith) lt,
    )
