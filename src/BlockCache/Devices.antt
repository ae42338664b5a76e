-- ===== src/BlockCache/Devices.antt =====
-- The table `block_caches` of kernel/drivers/block_cache.c: the range of addresses each cache gets.
use bincows.Base.{
  ℕ, ◌+◌, ◌-◌, ◌*◌, ◌%◌, ◌^◌, ◌≤◌, ◌<◌, ◌≡◌, List, [], ◌∷◌, ◌++◌, ◌&&◌, ltb, leb, ◌==◌,
  if◌then◌else◌, arith, Outcome, ok, ◌>>=◌, ◌>>◌, assert,
}

abbrev pub block_cache_begin : ℕ
block_cache_begin = 0xffff900000000000

abbrev pub block_cache_end : ℕ
block_cache_end = 0xffffd00000000000

-- What the table reads of `struct block_page_cache`
pub record Range : Type 0 where
  pub vaddr_base : ℕ
  pub virt_size : ℕ
  pub n_used_page : ℕ

abbrev pub used_pages : List Range → ℕ → ℕ
used_pages [] n_used_pages = n_used_pages
used_pages (b ∷ r) n_used_pages = used_pages r ((n_used_pages + b.n_used_page) % 2 ^ 64)

abbrev pub block_cache_used_pages : List Range → ℕ
block_cache_used_pages caches = used_pages caches 0

-- The loop of `vmap_device`, where `end_` is that of the first range it tries
unfoldable pub skip_ranges : ℕ → List Range → ℕ → ℕ
skip_ranges end_ [] vaddr = vaddr
skip_ranges end_ (b ∷ r) vaddr =
    let skipped = skip_ranges end_ r ((b.vaddr_base + b.virt_size) % 2 ^ 64) in
    let kept = skip_ranges end_ r vaddr in
    if leb vaddr b.vaddr_base && ltb b.vaddr_base end_ then skipped else kept

-- 0 where no room is found
unfoldable pub vmap_device : ℕ → List Range → Outcome ℕ
unfolding skip_ranges
vmap_device vsize caches = do
  assert (leb vsize (block_cache_end - block_cache_begin))
  let vaddr = skip_ranges (block_cache_begin + vsize) caches block_cache_begin
  ok (if ltb block_cache_end ((vaddr + vsize) % 2 ^ 64) then 0 else vaddr)

-- A new element at the end of the table
unfoldable pub block_cache_setup : ℕ → List Range → Outcome (List Range)
unfolding vmap_device
block_cache_setup virt_size caches = do
  assert (virt_size % 2 ^ 39 == 0)
  assert (ltb 0 virt_size)
  vaddr ← vmap_device virt_size caches
  ok (caches ++ (record { vaddr_base = vaddr; virt_size = virt_size; n_used_page = 0 } ∷ []))

-- A cache that holds no page yet
abbrev pub new_range : ℕ → ℕ → Range
new_range vaddr size = record { vaddr_base = vaddr; virt_size = size; n_used_page = 0 }

-- The first two devices of one size get ranges one after the other, and a third device of that size
-- gets the range of the second.
pub block_cache_setup-overlap :
    (s : ℕ)
    → s % 2 ^ 39 ≡ 0
    → 0 < s
    → 2 * s ≤ block_cache_end - block_cache_begin
    → (block_cache_setup s [] >>= λ one. block_cache_setup s one >>= λ two. block_cache_setup s two)
      ≡ ok (
          new_range block_cache_begin s
          ∷ new_range (block_cache_begin + s) s
          ∷ new_range (block_cache_begin + s) s
          ∷ [])
unfolding block_cache_setup vmap_device skip_ranges
block_cache_setup-overlap s aligned pos fits = ground arith
