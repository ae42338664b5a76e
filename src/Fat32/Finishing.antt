-- ===== src/Fat32/Finishing.antt =====
-- The end of `fat32_write_file_sectors` of kernel/fs/fat32/fat32.c, which writes the cache back.
use bincows.Base.{
  ℕ, ◌+◌, ◌/◌, ◌%◌, ◌^◌, ◌≤◌, ◌<◌, ◌≡◌, ◌∙◌, refl, true, false, inl, inr, Bool-cases, ◌==◌, Outcome,
  ok, ◌>>=◌, >>=-run, arith, List,
}
use bincows.Fat32.{Sector, Volume, State, fat_cache_size, flush_fat_cache}
use bincows.Fat32.Files.{File}
use bincows.Fat32.View.{Small, Cached, InTable, view}
use bincows.Fat32.Entries.{entry, IsCluster, IsCluster-InTable}
use bincows.Fat32.Flushing.{flush_fat_cache-Cached}
use bincows.Fat32.Chains.{Links-entries}
use bincows.Fat32.Places.{place}
use bincows.Fat32.Apart.{AllData, place-data}
use bincows.Fat32.Writing.{Written}

Written-flush :
    (v : Volume) (s s1 s2 : State) (c e : ℕ) (l : List ℕ) (o n : ℕ) (buf : ℕ → Sector)
    → Small v
    → AllData v
    → 1 < c
    → Written v s c e l o n buf 0 s1
    → Cached v s2
    → ((lba i : ℕ)
        → InTable v lba
        → (s2.disk lba i ≡ view s1 lba i) × (view s2 lba i ≡ view s1 lba i))
    → ((lba : ℕ) → v.data_begin ≤ lba → s2.disk lba ≡ s1.disk lba)
    → Written v s c e l o n buf 0 s2
unfolding entry
Written-flush v s s1 s2 c e l o n buf g all some_ w cached views data_ =
    let entries : (d : ℕ) → IsCluster v d → entry v s2 d ≡ entry v s1 d =
      λ d ld. (views (v.fat_begin + d / v.words) (d % v.words) (IsCluster-InTable v d g ld)).1 in
    record {
      cached = cached;
      links = Links-entries v s1 s2 c l entries w.links;
      range = w.range;
      inside = λ j lt.
          data_ (place v c l (o + j))
            (place-data v s1 c l (o + j) g all some_ w.links (omega (arith, w.range)))
          ∙ w.inside j lt;
      outside = λ lba le out. data_ lba le ∙ w.outside lba le out;
      others = λ d ld ne used. entries d ld ∙ w.others d ld ne used;
    }

-- what the code does after the loop of the writes
abbrev pub after_writes : Volume → File → ℕ → ℕ → State → Outcome (ℕ × File × State)
after_writes v fd left_ w s = elim (left_ == 0) [
  | true ↦ (do s5 ← flush_fat_cache v s; ok (w % 2 ^ 32, fd, s5))
  | false ↦ ok (left_ % 2 ^ 32, fd, s)
]

-- The result and the state in which a write ends
pub after_writes-Written :
    (v : Volume) (fd : File) (left_ w c e o n : ℕ) (buf : ℕ → Sector) (s s2 : State) (l : List ℕ)
    → Small v
    → AllData v
    → 1 < c
    → Written v s c e l o n buf 0 s2
    → (r : ℕ) × (s' : State) × (after_writes v fd left_ w s2 ≡ ok (r, fd, s'))
      × ((left_ == 0) ≡ false → (r ≡ left_ % 2 ^ 32) × (s' ≡ s2))
      × ((left_ == 0) ≡ true → (h : ℕ) → h < fat_cache_size → s'.modified h ≡ false)
      × Written v s c e l o n buf 0 s'
after_writes-Written v fd left_ w c e o n buf s s2 l g all some_ written =
    elim (Bool-cases (left_ == 0)) [
      | inl done ↦
          (let (s5, flushed, cached, views, data_, clean) =
              flush_fat_cache-Cached v s2 g written.cached in
            (
              w % 2 ^ 32,
              s5,
              rw (done, after_writes) (>>=-run _ flushed refl),
              λ more. absurd (ground arith),
              λ z. clean,
              Written-flush v s s2 s5 c e l o n buf g all some_ written cached views data_,
            ))
      | inr more ↦ (
        left_ % 2 ^ 32,
        s2,
        rw (more, after_writes) refl,
        λ z. (refl, refl),
        λ z. absurd (ground arith),
        written,
      )
    ]
