-- ===== src/Shm/Slots.antt =====
-- The 512 slots of a process and their addresses.
use bincows.Base.{
  ℕ, zero, suc, ◌+◌, ◌*◌, ◌<◌, ◌≡◌, refl, Bool, true, ◌&&◌, none, some, ◌==◌, arith, Bool-cases,
  inl, inr,
}
use bincows.Shm.{SharedPd, first_free, is_present, slot_addr, user_shared_begin, page_r1_size}

-- whether `p` holds below `n`
all_below : ℕ → (ℕ → Bool) → Bool
all_below zero p = true
all_below (suc n) p = p n && all_below n p

all_below-true : (n : ℕ) (p : ℕ → Bool) (i : ℕ) → all_below n p ≡ true → i < n → p i ≡ true
unfolding all_below
all_below-true zero p i h lt = absurd (omega arith)
all_below-true (suc n) p i h lt = elim (Bool-cases (i == n)) [
  | inl here ↦ (let same : i ≡ n = ground arith in rw same (ground arith))
  | inr lower ↦ all_below-true n p i (ground arith) (ground arith)
]

addr_sum : ℕ → Bool
addr_sum i = slot_addr i == (user_shared_begin + i * page_r1_size)

addr_sums : all_below 512 addr_sum ≡ true
unfolding all_below addr_sum
addr_sums = refl

-- The bitwise or of the code is a sum.
pub slot_addr_lem : (i : ℕ) → i < 512 → slot_addr i ≡ user_shared_begin + i * page_r1_size
unfolding addr_sum
slot_addr_lem i lt = ground (arith, all_below-true 512 addr_sum i addr_sums lt)

-- The slot that `map_shm` takes is one of its 512, and it was not present.
pub first_free_lem :
    (t : SharedPd) (k i j : ℕ) → first_free t k i ≡ some j → (j < i + k) × (t j ≡ none)
unfolding first_free
first_free_lem t zero i j h = cc
first_free_lem t (suc k) i j h = elim (Bool-cases (is_present (t i))) [
  | inl used ↦ (let (lt, free) = first_free_lem t k (i + 1) j (ground arith) in (omega arith, free))
  | inr free ↦ (ground arith, ground arith)
]
