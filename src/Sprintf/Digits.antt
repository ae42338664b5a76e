-- ===== src/Sprintf/Digits.antt =====
-- The digits that `utos`, `utohex` and `itos` write, read back.
use mathlib.Core.Path.{subst}
use native.Mathlib.Nat.{
  mul-le-mul_right, div-mul-le_self, add-mul, mul_assoc, pow-zero, pow-suc, div-lt_iff_lt-mul,
  div-add-mod', mod-lt, pow-le-pow_right,
}
use bincows.Base.{
  ℕ, zero, suc, ◌+◌, ◌-◌, ◌*◌, ◌/◌, ◌%◌, ◌^◌, ◌≤◌, ◌<◌, ◌≡◌, ◌∙◌, refl, sym, ap, inl, inr,
  Bool-cases, Option, none, some, List, [], ◌∷◌, ◌++◌, ltb, leb, ◌==◌, if◌then◌else◌, arith, length,
  ok, >>=-run,
}
use bincows.Sprintf.{
  count_digits, write_digits, at_least, decimal_digit, hex_digit, utos, utohex, itos,
}

-- The value of digits behind `v`
abbrev pub read_digits : ℕ → (ℕ → ℕ) → ℕ → List ℕ → ℕ
read_digits b value v [] = v
read_digits b value v (c ∷ l) = read_digits b value (v * b + value c) l

-- Each character is a digit of base `b`.
abbrev pub AllDigits : ℕ → (ℕ → ℕ) → List ℕ → Type 0
AllDigits b digit [] = Unit
AllDigits b digit (c ∷ l) = ((d : ℕ) × (d < b) × (c ≡ digit d)) × AllDigits b digit l

-- `l` shows `x` in `n` digits of base `b`.
pub record Shows (b : ℕ) (digit value : ℕ → ℕ) (x n : ℕ) (l : List ℕ) : Type 0 where
  pub shown : read_digits b value 0 l ≡ x
  pub size : length l ≡ n
  pub digits : AllDigits b digit l

-- The least number of digits, 1 at least
pub record Least (b x n : ℕ) : Type 0 where
  pub enough : x < b ^ n
  pub pos : 0 < n
  pub needed : (1 < n) → b ^ (n - 1) ≤ x

module _ (b : ℕ) (digit value : ℕ → ℕ) (base : 1 < b)
    (inverse : (d : ℕ) → d < b → value (digit d) ≡ d) where
  div-below : (n x : ℕ) → x < b ^ suc n → x / b < b ^ n
  div-below n x small =
      (div-lt_iff_lt-mul {x = x} {y = b ^ n} (omega (arith, base))).1
        (omega (arith, small, pow-suc b n))

  write_digits-read_digits :
      (n x v : ℕ) (l : List ℕ)
      → x < b ^ n
      → read_digits b value v (write_digits b digit n x l) ≡ read_digits b value (v * b ^ n + x) l
  unfolding write_digits
  write_digits-read_digits zero x v l small =
      ap (λ y. read_digits b value y l)
        (sym (ap (λ q. v * q + x) (pow-zero b) ∙ omega (arith, pow-zero b, small)))
  write_digits-read_digits (suc n) x v l small =
      let top : x / b < b ^ n = div-below n x small in
      let last : value (digit (x % b)) ≡ x % b = inverse (x % b) (mod-lt x (omega (arith, base))) in
      write_digits-read_digits n (x / b) v (digit (x % b) ∷ l) top
      ∙ ap (λ y. read_digits b value y l)
          (ap (λ d. (v * b ^ n + x / b) * b + d) last
            ∙ omega (
              arith,
              add-mul (v * b ^ n) (x / b) b,
              mul_assoc v (b ^ n) b,
              ap (λ q. v * q) (pow-suc b n),
              div-add-mod' x b,
            ))

  write_digits-AllDigits :
      (n x : ℕ) (l : List ℕ) → AllDigits b digit l → AllDigits b digit (write_digits b digit n x l)
  unfolding write_digits
  write_digits-AllDigits zero x l v = v
  write_digits-AllDigits (suc n) x l v =
      write_digits-AllDigits n (x / b) _ ((x % b, mod-lt x (omega (arith, base)), refl), v)

  length-write_digits : (n x : ℕ) (l : List ℕ) → length (write_digits b digit n x l) ≡ n + length l
  unfolding write_digits
  length-write_digits zero x l = omega arith
  length-write_digits (suc n) x l = length-write_digits n (x / b) _ ∙ omega arith

  pow_one : b ^ 1 ≡ b
  pow_one = pow-suc b 0 ∙ ap (λ q. q * b) (pow-zero b) ∙ omega arith

  -- One more digit than the rest of the number has
  Least-suc : (n x : ℕ) → b ≤ x → Least b (x / b) n → Least b x (suc n)
  Least-suc n x more least = record {
    enough = omega (
      arith,
      (div-lt_iff_lt-mul {k = b} {x = x} {y = b ^ n} (omega (arith, base))).0 least.enough,
      pow-suc b n,
    );
    pos = omega arith;
    needed = λ h. elim (Bool-cases (n == 1)) [
      | inl here ↦
          (let one_left : suc n - 1 ≡ 1 = ground arith in
            rw one_left (omega (arith, pow_one, more)))
      | inr other ↦
          (let same : suc n - 1 ≡ suc (n - 1) = ground (arith, least.pos) in
            let low : b ^ (n - 1) ≤ x / b = least.needed (ground (arith, least.pos)) in
            rw same (
              omega (
                arith,
                pow-suc b (n - 1),
                mul-le-mul_right {m = b ^ (n - 1)} {n = x / b} b low,
                div-mul-le_self x b,
              )))
    ];
  }

  count_digits-Least :
      (k x : ℕ) → 0 < k → x < b ^ k → (n : ℕ) × (count_digits k b x ≡ ok n) × (n ≤ k) × Least b x n
  unfolding count_digits
  count_digits-Least zero x pos small = absurd (omega arith)
  count_digits-Least (suc k) x pos small = elim (Bool-cases (ltb x b)) [
    | inl one_digit ↦
        (let lt : x < b = ground arith in
          (
            1,
            rw (one_digit, count_digits),
            omega arith,
            record {
              enough = omega (arith, pow_one, lt);
              pos = omega arith;
              needed = λ h. absurd (omega arith);
            },
          ))
    | inr more ↦
        (let pos_k : 0 < k = elim (Bool-cases (k == 0)) [
          | inl zero_k ↦
              (let none_left : k ≡ 0 = ground arith in
                let small_1 : x < b ^ 1 = subst (λ q. x < b ^ suc q) none_left small in
                absurd (ground (arith, pow_one, small_1)))
          | inr some_k ↦ ground arith
        ] in
          let (n, run, le, least) = count_digits-Least k (x / b) pos_k (div-below k x small) in
          (
            suc n,
            rw (more, count_digits) (>>=-run _ run (ap ok (omega arith))),
            omega (arith, le),
            Least-suc n x (ground arith) least,
          ))
  ]

  -- More digits than needed are zeros in front.
  write_digits-Shows :
      (x n m : ℕ) → Least b x n → n ≤ m → Shows b digit value x m (write_digits b digit m x [])
  write_digits-Shows x n m least le = record {
    shown =
        write_digits-read_digits m x 0 [] (
          omega (
            arith,
            least.enough,
            pow-le-pow_right {n = b} (omega (arith, base)) {i = n} {j = m} le,
          ))
        ∙ omega arith;
    size = length-write_digits m x [] ∙ omega arith;
    digits = write_digits-AllDigits m x [] tt;
  }

at_least-le : (min_digits : Option ℕ) (n : ℕ) → n ≤ at_least min_digits n
at_least-le none n = omega arith
at_least-le (some m) n = ground arith

abbrev pub decimal_value : ℕ → ℕ
decimal_value c = c - b'0'

abbrev pub hex_value : ℕ → ℕ
hex_value c = if ltb c b'a' then c - b'0' else c - (b'a' - 10)

hex_value-hex_digit : (d : ℕ) → d < 16 → hex_value (hex_digit d) ≡ d
hex_value-hex_digit d lt = elim (Bool-cases (ltb d 10)) [
  | inl decimal ↦ rw decimal (ground arith)
  | inr letter ↦ rw letter (ground arith)
]

-- Every number of 64 bits is printed in decimal digits that have its value, as few as it needs or, where
-- the precision is larger, as many as that.
pub utos-Shows :
    (x : ℕ) (min_digits : Option ℕ)
    → x < 2 ^ 64
    → (n : ℕ) × (l : List ℕ) × (utos x min_digits ≡ ok l)
      × Least 10 x n
      × Shows 10 decimal_digit decimal_value x (at_least min_digits n) l
unfolding utos
utos-Shows x min_digits small =
    let inverse : (d : ℕ) → d < 10 → decimal_value (decimal_digit d) ≡ d = λ d lt. omega arith in
    let (n, run, le, least) =
      count_digits-Least 10 decimal_digit decimal_value (omega arith) inverse 20 x (omega arith)
        (omega arith) in
    (
      n,
      _,
      >>=-run _ run refl,
      least,
      write_digits-Shows 10 decimal_digit decimal_value (omega arith) inverse x n
          (at_least min_digits n) least (at_least-le min_digits n),
    )

-- The same of hexadecimal digits.
pub utohex-Shows :
    (x : ℕ) (min_digits : Option ℕ)
    → x < 2 ^ 64
    → (n : ℕ) × (l : List ℕ) × (utohex x min_digits ≡ ok l)
      × Least 16 x n
      × Shows 16 hex_digit hex_value x (at_least min_digits n) l
unfolding utohex
utohex-Shows x min_digits small =
    let (n, run, le, least) =
      count_digits-Least 16 hex_digit hex_value (omega arith) hex_value-hex_digit 16 x (omega arith)
        (omega arith) in
    (
      n,
      _,
      >>=-run _ run refl,
      least,
      write_digits-Shows 16 hex_digit hex_value (omega arith) hex_value-hex_digit x n
          (at_least min_digits n) least (at_least-le min_digits n),
    )

abbrev pub sign : ℕ → List ℕ
sign x = if leb (2 ^ 63) x then b'-' ∷ [] else []

abbrev pub magnitude : ℕ → ℕ
magnitude x = if leb (2 ^ 63) x then 2 ^ 64 - x else x

-- A signed number is printed with a minus if it is negative, and the digits of its absolute value, which
-- is right for the least number as well.
itos-Shows :
    (x : ℕ) (min_digits : Option ℕ)
    → x < 2 ^ 64
    → (n : ℕ) × (l : List ℕ) × (itos x min_digits ≡ ok (sign x ++ l))
      × Least 10 (magnitude x) n
      × Shows 10 decimal_digit decimal_value (magnitude x) (at_least min_digits n) l
unfolding itos
itos-Shows x min_digits small = elim (Bool-cases (leb (2 ^ 63) x)) [
  | inl negative ↦
      (let wrap : (2 ^ 64 - x) % 2 ^ 64 ≡ 2 ^ 64 - x = ground arith in
        let (n, l, run, least, shows) = utos-Shows (2 ^ 64 - x) min_digits (ground arith) in
        (
          n,
          l,
          rw (negative, itos, wrap) (>>=-run _ run refl),
          rw negative least,
          rw negative shows,
        ))
  | inr positive ↦
      (let (n, l, run, least, shows) = utos-Shows x min_digits small in
        (n, l, rw (positive, itos) run, rw positive least, rw positive shows))
]
