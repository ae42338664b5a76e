-- ===== src/Pmm/Levels.antt =====
-- The levels of bitmaps of a range: a bit stands for a group of bits one level below.
use bincows.Base.{ℕ, ◌/◌, ◌≡◌, refl, Bool, true, false, arith}
use bincows.Pmm.{Bitmap, set_bit, any_of_4, any_of_2, clear_if}

-- Each bit of `hi` says whether any bit of its group in `lo` is set.
abbrev pub Covers4 : Bitmap → Bitmap → Type 0
Covers4 lo hi = (i : ℕ) → hi i ≡ any_of_4 lo i

abbrev pub Covers2 : Bitmap → Bitmap → Type 0
Covers2 lo hi = (i : ℕ) → hi i ≡ any_of_2 lo i

module _ (lo hi : Bitmap) where
  pub Covers4-set :
      (page j : ℕ)
      → Covers4 lo hi
      → j ≡ page / 4
      → Covers4 (set_bit lo page true) (set_bit hi j true)
  Covers4-set page j c e i = ground (arith, c i)

  pub Covers2-set :
      (b j : ℕ) → Covers2 lo hi → j ≡ b / 2 → Covers2 (set_bit lo b true) (set_bit hi j true)
  Covers2-set b j c e i = ground (arith, c i)

  cleared_4 :
      (page j i : ℕ) (used : Bool)
      → Covers4 lo hi
      → lo page ≡ true
      → j ≡ page / 4
      → used ≡ any_of_4 (set_bit lo page false) j
      → clear_if used hi j i ≡ any_of_4 (set_bit lo page false) i
  cleared_4 page j i true c set e u = ground (arith, c i, c j)
  cleared_4 page j i false c set e u = ground (arith, c i, c j)

  pub Covers4-clear :
      (page j : ℕ)
      → Covers4 lo hi
      → lo page ≡ true
      → j ≡ page / 4
      → Covers4 (set_bit lo page false) (clear_if (any_of_4 (set_bit lo page false) j) hi j)
  Covers4-clear page j c set e i =
      cleared_4 page j i (any_of_4 (set_bit lo page false) j) c set e refl

  cleared_2 :
      (b j i : ℕ) (used : Bool)
      → Covers2 lo hi
      → lo b ≡ true
      → j ≡ b / 2
      → used ≡ any_of_2 (set_bit lo b false) j
      → clear_if used hi j i ≡ any_of_2 (set_bit lo b false) i
  cleared_2 b j i true c set e u = ground (arith, c i, c j)
  cleared_2 b j i false c set e u = ground (arith, c i, c j)

  -- One level up, where the bit below may have stayed.
  pub Covers2-clear :
      (used : Bool) (b j : ℕ)
      → Covers2 lo hi
      → lo b ≡ true
      → j ≡ b / 2
      → Covers2 (clear_if used lo b) (clear_if (any_of_2 (clear_if used lo b) j) hi j)
  Covers2-clear true b j c set e i = let kept : any_of_2 lo j ≡ true = ground arith in rw kept (c i)
  Covers2-clear false b j c set e i = cleared_2 b j i (any_of_2 (set_bit lo b false) j) c set e refl
