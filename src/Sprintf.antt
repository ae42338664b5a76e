-- ===== src/Sprintf.antt =====
-- kernel/lib/sprintf.c: numbers as digits, and `vsprintf`. A string is the list of its characters, which
-- are not 0, and the output is the list of the characters before `str`. A value on the argument list is
-- the 64 bits that it was passed in. The precision stays below 2^31.
pub mod Digits
pub mod Formats
mod Tests
use bincows.Base.{
  ℕ, zero, suc, ◌+◌, ◌-◌, ◌*◌, ◌/◌, ◌%◌, ◌^◌, Bool, true, false, Option, none, some, List, [], ◌∷◌,
  ◌++◌, ltb, leb, ◌==◌, ◌&&◌, if◌then◌else◌, take, Outcome, ok, wild, no_fuel, ◌>>=◌,
}

-- The first loop of `utos` and `utohex`: how many digits `x` has in base `b`
unfoldable pub count_digits : ℕ → ℕ → ℕ → Outcome ℕ
count_digits zero b x = no_fuel
count_digits (suc k) b x = elim (ltb x b) [
  | true ↦ ok 1
  | false ↦ (do n ← count_digits k b (x / b); ok (n + 1))
]

-- The second loop: `i` digits of `x`, from the last one, in front of what is written
unfoldable pub write_digits : ℕ → (ℕ → ℕ) → ℕ → ℕ → List ℕ → List ℕ
write_digits b digit zero x written = written
write_digits b digit (suc i) x written = write_digits b digit i (x / b) (digit (x % b) ∷ written)

-- `min_digits`, where `none` is -1
abbrev pub at_least : Option ℕ → ℕ → ℕ
at_least none digits = digits
at_least (some min_digits) digits = if ltb digits min_digits then min_digits else digits

abbrev pub decimal_digit : ℕ → ℕ
decimal_digit d = b'0' + d

abbrev pub hex_digit : ℕ → ℕ
hex_digit d = if ltb d 0xa then d + b'0' else d + (b'a' - 10)

-- A number of 64 bits has 20 digits at most.
unfoldable pub utos : ℕ → Option ℕ → Outcome (List ℕ)
unfolding count_digits write_digits
utos x min_digits = do
  digits ← count_digits 20 10 x
  ok (write_digits 10 decimal_digit (at_least min_digits digits) x [])

unfoldable pub utohex : ℕ → Option ℕ → Outcome (List ℕ)
unfolding count_digits write_digits
utohex x min_digits = do
  digits ← count_digits 16 16 x
  ok (write_digits 16 hex_digit (at_least min_digits digits) x [])

-- `x` is the two's complement of an `int64_t`.
unfoldable pub itos : ℕ → Option ℕ → Outcome (List ℕ)
unfolding utos
itos x min_digits = elim (leb (2 ^ 63) x) [
  | true ↦ (do l ← utos ((2 ^ 64 - x) % 2 ^ 64) min_digits; ok (b'-' ∷ l))
  | false ↦ utos x min_digits
]

-- A value of `va_arg`
pub data Arg : Type 0 where
  num : ℕ → Arg
  str : List ℕ → Arg

abbrev pub num_arg : List Arg → Outcome (ℕ × List Arg)
num_arg [] = wild
num_arg (num x ∷ ap) = ok (x, ap)
num_arg (str s ∷ ap) = wild

abbrev pub str_arg : List Arg → Outcome (List ℕ × List Arg)
str_arg [] = wild
str_arg (num x ∷ ap) = wild
str_arg (str s ∷ ap) = ok (s, ap)

-- `ARG(uint32_t)` or `ARG(uint64_t)`
abbrev pub unsigned_of : Bool → ℕ → ℕ
unsigned_of long x = if long then x % 2 ^ 64 else x % 2 ^ 32

-- `ARG(int32_t)`, widened to 64 bits, or `ARG(int64_t)`
abbrev pub signed_of : Bool → ℕ → ℕ
signed_of long x =
    if long
    then x % 2 ^ 64
    else if leb (2 ^ 31) (x % 2 ^ 32)
    then x % 2 ^ 32 + (2 ^ 64 - 2 ^ 32)
    else x % 2 ^ 32

-- The variables of `vsprintf`; `digits` is -1 for `none`.
pub record Printer : Type 0 where
  pub out : List ℕ
  pub ap : List Arg
  pub args_put : ℕ
  pub persent : Bool
  pub digits : Option ℕ
  pub long : Bool

-- `%s` writes as many characters as the precision lets it, all without one.
abbrev pub clip : Option ℕ → List ℕ → List ℕ
clip none s = s
clip (some digits) s = take digits s

-- The switch on the conversion, with the characters that it writes
unfoldable pub convert : ℕ → Printer → Outcome (List ℕ × List Arg)
unfolding utos itos utohex
convert cf p =
    if cf == b'u'
    then (do (x, ap) ← num_arg p.ap; l ← utos (unsigned_of p.long x) p.digits; ok (l, ap))
    else if cf == b'd'
    then (do (x, ap) ← num_arg p.ap; l ← itos (signed_of p.long x) p.digits; ok (l, ap))
    else if cf == b'i'
    then (do (x, ap) ← num_arg p.ap; l ← itos (signed_of p.long x) p.digits; ok (l, ap))
    else if cf == b'h'
    then (do (x, ap) ← num_arg p.ap; l ← utohex (unsigned_of p.long x) p.digits; ok (l, ap))
    else if cf == b'x'
    then (do (x, ap) ← num_arg p.ap; l ← utohex (unsigned_of p.long x) p.digits; ok (l, ap))
    else if cf == b's'
    then (do (s, ap) ← str_arg p.ap; ok (clip p.digits s, ap))
    else if cf == b'c'
    then (do (x, ap) ← num_arg p.ap; ok ((x % 2 ^ 8) ∷ [], ap))
    else ok ([], p.ap)

abbrev pub next_digits : Option ℕ → ℕ → ℕ
next_digits none i = i
next_digits (some digits) i = 10 * digits + i

-- One round of the loop of `vsprintf`. Its test of `persent` where `cf` is a `%` outside of a conversion
-- is always false.
unfoldable pub print_char : ℕ → Printer → Outcome Printer
unfolding convert
print_char cf p =
    if p.persent
    then (if cf == b'.'
        then ok p
        else if cf == b'l'
        then ok (record p { long = true })
        else if leb b'0' cf && leb cf b'9'
        then ok (record p { digits = some (next_digits p.digits (cf - b'0')) })
        else (do
          (l, ap) ← convert cf p
          ok (record p {
            out = p.out ++ l;
            ap = ap;
            args_put = p.args_put + 1;
            persent = false;
            digits = none;
            long = false;
          })))
    else if cf == b'%'
    then ok (record p { persent = true })
    else ok (record p { out = p.out ++ (cf ∷ []) })

-- The loop of `vsprintf`
unfoldable pub print_all : List ℕ → Printer → Outcome Printer
unfolding print_char
print_all [] p = ok p
print_all (cf ∷ format) p = do p1 ← print_char cf p; print_all format p1

-- The characters that are written and the result
unfoldable pub vsprintf : List ℕ → List Arg → Outcome (List ℕ × ℕ)
unfolding print_all
vsprintf format ap = do
  p ←
      print_all format
        (record { out = []; ap = ap; args_put = 0; persent = false; digits = none; long = false })
  ok (p.out, p.args_put)
