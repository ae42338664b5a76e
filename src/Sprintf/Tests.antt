-- ===== src/Sprintf/Tests.antt =====
-- The theorems at some numbers and formats.
use bincows.Base.{ℕ, ◌≡◌, refl, true, false, none, some, List, [], ◌∷◌, ok, wild, arith}
use bincows.Sprintf.{Arg, num, str, at_least, decimal_digit, utos, utohex, vsprintf}
use bincows.Sprintf.Digits.{Least, Shows, decimal_value, utos-Shows}
use bincows.Sprintf.Formats.{
  Piece, text, conversion, unsigned, hex_x, string, percent, format_of, print_pieces,
  vsprintf-pieces,
}

utos_precision : utos 42 (some 4) ≡ ok (b'0' ∷ b'0' ∷ b'4' ∷ b'2' ∷ [])
unfolding utos
utos_precision = refl

utohex_letters : utohex 0xbeef none ≡ ok (b'b' ∷ b'e' ∷ b'e' ∷ b'f' ∷ [])
unfolding utohex
utohex_letters = refl

-- The format `n=%.3u %lx%%%s`, of which the `%%` prints nothing
abbrev pieces : List Piece
pieces =
    text b'n'
    ∷ text b'='
    ∷ conversion (3 ∷ []) false unsigned
    ∷ text b' '
    ∷ conversion [] true hex_x
    ∷ conversion [] false percent
    ∷ conversion [] false string
    ∷ []

abbrev args : List Arg
args = num 0x1_0000_0007 ∷ num 0x1_0000_0007 ∷ str (b'o' ∷ b'k' ∷ []) ∷ []

prints_pieces :
    vsprintf (format_of pieces) args
    ≡ ok (
      b'n' ∷ b'=' ∷ b'0' ∷ b'0' ∷ b'7' ∷ b' ' ∷ b'1' ∷ b'0' ∷ b'0' ∷ b'0' ∷ b'0' ∷ b'0' ∷ b'0'
          ∷ b'0' ∷ b'7' ∷ b'o' ∷ b'k' ∷ [],
      4,
    )
unfolding vsprintf
prints_pieces = refl

no_args : vsprintf (b'%' ∷ b'd' ∷ []) [] ≡ wild
unfolding vsprintf
no_args = refl

vsprintf-pieces_example : vsprintf (format_of pieces) args ≡ print_pieces pieces args
vsprintf-pieces_example = vsprintf-pieces pieces args (
  (λ e. ground arith),
  ((λ e. ground arith), ((omega arith, tt), ((λ e. ground arith), (tt, (tt, (tt, tt)))))),
)

utos-Shows_example :
    (n : ℕ) × (l : List ℕ) × (utos 1234 (some 6) ≡ ok l)
    × Least 10 1234 n
    × Shows 10 decimal_digit decimal_value 1234 (at_least (some 6) n) l
utos-Shows_example = utos-Shows 1234 (some 6) (omega arith)
