-- ===== src/Base/Memory.antt =====
-- Memory as a function from addresses to bytes, the copy loop, and the bytes of a range as a list.
use Prim.Native.Nat.{ℕ, zero, suc, ◌+◌, ◌≤◌, ◌<◌}
use mathlib.Core.Path.{◌≡◌, refl, ◌∙◌, ap, ap₂}
use mathlib.Core.Logic.{◌⊎◌}
use mathlib.Core.Bool.{true, false}
use mathlib.Core.List.{List, [], ◌∷◌, ◌++◌}
use native.Mathlib.Omega.{arith}
use bincows.Base.Tests.{◌==◌, if◌then◌else◌}
use bincows.Base.Lists.{length}

abbrev pub Bytes : Type 0
Bytes = ℕ → ℕ

-- `m[a] = v`
abbrev pub put : Bytes → ℕ → ℕ → Bytes
put m a v b = if b == a then v else m b

-- `memcpy(dst + d, src + s, n)` for two objects that do not overlap
unfoldable pub copy : Bytes → ℕ → Bytes → ℕ → ℕ → Bytes
copy dst d src s zero = dst
copy dst d src s (suc n) = copy (put dst d (src s)) (d + 1) src (s + 1) n

-- The bytes from `i` on, `n` of them.
unfoldable pub slice : Bytes → ℕ → ℕ → List ℕ
slice m i zero = []
slice m i (suc n) = m i ∷ slice m (i + 1) n

pub copy_outside :
    (dst : Bytes) (d : ℕ) (src : Bytes) (s n a : ℕ)
    → (a < d) ⊎ (d + n ≤ a)
    → copy dst d src s n a ≡ dst a
unfolding copy
copy_outside dst d src s zero a h = refl
copy_outside dst d src s (suc n) a h =
    let other : (a == d) ≡ false = ground arith in
    copy_outside (put dst d (src s)) (d + 1) src (s + 1) n a (omega arith) ∙ rw other

pub copy_inside :
    (dst : Bytes) (d : ℕ) (src : Bytes) (s n i a b : ℕ)
    → i < n
    → a ≡ d + i
    → b ≡ s + i
    → copy dst d src s n a ≡ src b
unfolding copy
copy_inside dst d src s zero i a b h p q = absurd (omega arith)
copy_inside dst d src s (suc n) zero a b h p q =
    let here : (a == d) ≡ true = ground arith in
    copy_outside (put dst d (src s)) (d + 1) src (s + 1) n a (omega arith)
    ∙ rw here (ap src (omega arith))
copy_inside dst d src s (suc n) (suc i) a b h p q =
    copy_inside (put dst d (src s)) (d + 1) src (s + 1) n i a b (omega arith) (omega arith)
      (omega arith)

pub length-slice : (m : Bytes) (i n : ℕ) → length (slice m i n) ≡ n
unfolding slice
length-slice m i zero = refl
length-slice m i (suc n) = ap suc (length-slice m (i + 1) n)

-- Slices agree where the bytes do; the two may start at different places.
pub slice_ext :
    (m k : Bytes) (i j n : ℕ)
    → ((t : ℕ) → t < n → m (i + t) ≡ k (j + t))
    → slice m i n ≡ slice k j n
unfolding slice
slice_ext m k i j zero h = refl
slice_ext m k i j (suc n) h =
    ap₂ ◌∷◌ (ap m (omega arith) ∙ h 0 (omega arith) ∙ ap k (omega arith)) (
      slice_ext m k (i + 1) (j + 1) n
        (λ t l. ap m (omega arith) ∙ h (suc t) (omega arith) ∙ ap k (omega arith)))

pub slice-append : (m : Bytes) (i a b : ℕ) → slice m i (a + b) ≡ slice m i a ++ slice m (i + a) b
unfolding slice
slice-append m i zero b =
    let e : zero + b ≡ b = omega arith in
    let f : i ≡ i + 0 = omega arith in rw e (ap (λ j. slice m j b) f)
slice-append m i (suc a) b =
    let e : suc a + b ≡ suc (a + b) = omega arith in
    let f : i + 1 + a ≡ i + suc a = omega arith in
    rw e (
      ap (λ l. m i ∷ l) (slice-append m (i + 1) a b ∙ ap (λ j. slice m (i + 1) a ++ slice m j b) f))

pub slice-copy_self :
    (dst : Bytes) (d : ℕ) (src : Bytes) (s n : ℕ) → slice (copy dst d src s n) d n ≡ slice src s n
slice-copy_self dst d src s n =
    slice_ext (copy dst d src s n) src d s n
      (λ t l. copy_inside dst d src s n t (d + t) (s + t) l refl refl)

pub slice-copy_apart :
    (dst : Bytes) (d : ℕ) (src : Bytes) (s n i k : ℕ)
    → (i + k ≤ d) ⊎ (d + n ≤ i)
    → slice (copy dst d src s n) i k ≡ slice dst i k
slice-copy_apart dst d src s n i k h =
    slice_ext (copy dst d src s n) dst i i k
      (λ t l. copy_outside dst d src s n (i + t) (omega arith))
