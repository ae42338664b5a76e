-- ===== src/BlockCache/Coherent.antt =====
-- When the pages of the cache hold what the device holds, and when the requests in flight will.
use bincows.Base.{
  ℕ, zero, suc, ◌+◌, ◌*◌, ◌/◌, ◌≤◌, ◌<◌, ◌≡◌, ◌∙◌, refl, some, List, [], ◌∷◌, ◌++◌, map, Bool, true,
  ◌&&◌, Bool-cases, inl, inr, ltb, ◌==◌, arith,
}
use bincows.BlockCache.{PageFetch, Request, Cache, sectors_per_page, complete, complete_all}

-- whether `p` holds below `n`
all_below : ℕ → (ℕ → Bool) → Bool
all_below zero p = true
all_below (suc n) p = p n && all_below n p

all_below-true : (n : ℕ) (p : ℕ → Bool) (i : ℕ) → all_below n p ≡ true → i < n → p i ≡ true
unfolding all_below
all_below-true zero p i h lt = absurd (omega arith)
all_below-true (suc n) p i h lt = elim (Bool-cases (i == n)) [
  | inl here ↦ (let same : i ≡ n = ground arith in rw same (ground arith))
  | inr lower ↦ all_below-true n p i (ground arith) (ground arith)
]

has_sector : ℕ → Bool
has_sector shift = ltb 0 (sectors_per_page shift)

all_have : all_below 12 has_sector ≡ true
unfolding all_below has_sector sectors_per_page
all_have = refl

-- A page holds a sector at least.
pub sectors_per_page_pos : (shift : ℕ) → shift < 12 → 0 < sectors_per_page shift
unfolding has_sector
sectors_per_page_pos shift lt = ground (arith, all_below-true 12 has_sector shift all_have lt)

-- The device and the geometry of the cache are the same.
pub record Same (c c' : Cache) : Type 0 where
  pub shift : c'.lbashift ≡ c.lbashift
  pub capacity : c'.capacity ≡ c.capacity
  pub size : c'.virt_size ≡ c.virt_size
  pub disk : c'.disk ≡ c.disk

pub Same-self : (c : Cache) → Same c c
Same-self c = record { shift = refl; capacity = refl; size = refl; disk = refl }

pub Same-trans : (a b c : Cache) → Same a b → Same b c → Same a c
Same-trans a b c s t = record {
  shift = t.shift ∙ s.shift;
  capacity = t.capacity ∙ s.capacity;
  size = t.size ∙ s.size;
  disk = t.disk ∙ s.disk;
}

-- The fetches go to pages from `lo` on, in rising order and below `hi`, and each is of a whole page.
abbrev pub Waiting : ℕ → ℕ → List PageFetch → ℕ → Type 0
Waiting spp lo [] hi = lo ≤ hi
Waiting spp lo (f ∷ r) hi =
    (f.lba / spp * spp ≡ f.lba) × (lo ≤ f.paddr) × (f.pf_id ≡ 0) × Waiting spp (f.paddr + 1) r hi

abbrev pub request_of : ℕ → PageFetch → Request
request_of spp f = record { lba = f.lba; paddr = f.paddr; count = spp }

-- Each mapped page is below `lo`, mapped once, and holds the sectors of its place on the device, and the requests
-- of the device are those of the fetches, to other pages.
pub record InFlight (c : Cache) (lo : ℕ) : Type 0 where
  pub small : c.lbashift < 12
  pub table_in : (p f : ℕ) → c.table p ≡ some f → f < lo
  pub table_inj : (p q f : ℕ) → c.table p ≡ some f → c.table q ≡ some f → p ≡ q
  pub table_is :
      (p f i : ℕ)
      → c.table p ≡ some f
      → i < sectors_per_page c.lbashift
      → c.phys f i ≡ c.disk (p * sectors_per_page c.lbashift + i)
  pub waiting : Waiting (sectors_per_page c.lbashift) lo c.page_fetches c.allocated
  pub pending_is : c.pending ≡ map (request_of (sectors_per_page c.lbashift)) c.page_fetches

-- No request is in flight.
pub record Coherent (c : Cache) : Type 0 where
  pub flight : InFlight c c.allocated
  pub idle : c.page_fetches ≡ []

pub Waiting-le : (spp lo hi : ℕ) (l : List PageFetch) → Waiting spp lo l hi → lo ≤ hi
Waiting-le spp lo hi [] w = w
Waiting-le spp lo hi (f ∷ r) (aligned, ge, id, w) =
    omega (arith, ge, Waiting-le spp (f.paddr + 1) hi r w)

pub Waiting-append :
    (spp lo hi : ℕ) (l : List PageFetch) (lba : ℕ)
    → Waiting spp lo l hi
    → lba / spp * spp ≡ lba
    → Waiting spp lo (l ++ (record { lba = lba; paddr = hi; pf_id = 0 } ∷ [])) (hi + 1)
Waiting-append spp lo hi [] lba w aligned = (aligned, w, refl, omega arith)
Waiting-append spp lo hi (f ∷ r) lba (a, ge, id, w) aligned =
    (a, ge, id, Waiting-append spp (f.paddr + 1) hi r lba w aligned)

module _ (disk : ℕ → ℕ) (spp : ℕ) where
  abbrev requests : List PageFetch → List Request
  requests l = map (request_of spp) l

  -- The requests leave lower pages as they are.
  pub complete_all_below :
      (l : List PageFetch) (lo hi : ℕ) (phys : ℕ → ℕ → ℕ) (p i : ℕ)
      → Waiting spp lo l hi
      → p < lo
      → complete_all disk (requests l) phys p i ≡ phys p i
  unfolding complete_all
  complete_all_below [] lo hi phys p i w lt = refl
  complete_all_below (f ∷ r) lo hi phys p i (a, ge, id, w) lt =
      complete_all_below r (f.paddr + 1) hi (complete disk (request_of spp f) phys) p i w
        (omega arith)
      ∙ ground arith

  -- Every fetched page holds its sectors once the requests are completed.
  abbrev pub Landed : (ℕ → ℕ → ℕ) → List PageFetch → Type 0
  Landed phys [] = Unit
  Landed phys (f ∷ r) = ((i : ℕ) → i < spp → phys f.paddr i ≡ disk (f.lba + i)) × Landed phys r

  pub complete_all-Landed :
      (l : List PageFetch) (lo hi : ℕ) (phys : ℕ → ℕ → ℕ)
      → Waiting spp lo l hi
      → Landed (complete_all disk (requests l) phys) l
  unfolding complete_all
  complete_all-Landed [] lo hi phys w = tt
  complete_all-Landed (f ∷ r) lo hi phys (a, ge, id, w) = (
    λ i lt.
        complete_all_below r (f.paddr + 1) hi (complete disk (request_of spp f) phys) f.paddr i w
          (omega arith)
        ∙ ground arith,
    complete_all-Landed r (f.paddr + 1) hi (complete disk (request_of spp f) phys) w,
  )
