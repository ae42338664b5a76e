-- ===== src/Pmm/Counting.antt =====
-- How many bits of a bitmap are clear.
use bincows.Base.{
  ℕ, zero, suc, ◌+◌, ◌≤◌, ◌<◌, ◌≡◌, refl, Bool, true, false, ◌==◌, if◌then◌else◌, arith, Bool-cases,
  inl, inr,
}
use bincows.Pmm.{Bitmap, set_bit}

-- the number of clear bits below `n`
unfoldable pub free_below : Bitmap → ℕ → ℕ
free_below m zero = 0
free_below m (suc n) = (if m n then 0 else 1) + free_below m n

module _ (m : Bitmap) where
  pub free_below-le : (n : ℕ) → free_below m n ≤ n
  unfolding free_below
  free_below-le zero = omega arith
  free_below-le (suc n) = ground (arith, free_below-le n)

  -- A bit at `n` or above does not count.
  pub free_below_above :
      (i : ℕ) (n : ℕ) (v : Bool) → n ≤ i → free_below (set_bit m i v) n ≡ free_below m n
  unfolding free_below
  free_below_above i zero v h = refl
  free_below_above i (suc n) v h = ground (arith, free_below_above i n v)

  pub free_below-set :
      (i n : ℕ) → i < n → m i ≡ false → free_below (set_bit m i true) n + 1 ≡ free_below m n
  unfolding free_below
  free_below-set i zero h e = absurd (omega arith)
  free_below-set i (suc n) h e = elim (Bool-cases (n == i)) [
    | inl here ↦ ground (arith, free_below_above i n true)
    | inr other ↦ ground (arith, free_below-set i n)
  ]

  pub free_below-clear :
      (i n : ℕ) → i < n → m i ≡ true → free_below (set_bit m i false) n ≡ free_below m n + 1
  unfolding free_below
  free_below-clear i zero h e = absurd (omega arith)
  free_below-clear i (suc n) h e = elim (Bool-cases (n == i)) [
    | inl here ↦ ground (arith, free_below_above i n false)
    | inr other ↦ ground (arith, free_below-clear i n)
  ]

  pub free_below_taken : (i n : ℕ) → m i ≡ true → free_below (set_bit m i true) n ≡ free_below m n
  unfolding free_below
  free_below_taken i zero e = refl
  free_below_taken i (suc n) e = elim (Bool-cases (n == i)) [
    | inl here ↦ ground (arith, free_below_taken i n)
    | inr other ↦ ground (arith, free_below_taken i n)
  ]
