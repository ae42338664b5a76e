-- ===== src/Sprintf/Formats.antt =====
-- `vsprintf` on a format that is made of texts and conversions.
use bincows.Base.{
  ℕ, ◌+◌, ◌*◌, ◌-◌, ◌%◌, ◌^◌, ◌<◌, ◌≡◌, ◌≢◌, ◌∙◌, refl, sym, ap, ap₂, Option, none, some, List, [],
  ◌∷◌, ◌++◌, map, append_assoc, append-nil, Bool, true, false, leb, ◌==◌, if◌then◌else◌, arith,
  Outcome, ok, panic, wild, hang, no_fuel, ◌>>=◌,
}
use bincows.Sprintf.{
  Arg, num_arg, str_arg, unsigned_of, signed_of, clip, decimal_digit, Printer, utos, utohex, itos,
  convert, print_char, print_all, vsprintf,
}

pub data Conversion : Type 0 where
  unsigned signed_d signed_i hex_h hex_x string character percent : Conversion

abbrev pub letter : Conversion → ℕ
letter unsigned = b'u'
letter signed_d = b'd'
letter signed_i = b'i'
letter hex_h = b'h'
letter hex_x = b'x'
letter string = b's'
letter character = b'c'
letter percent = b'%'

-- A character, or a conversion with its precision and whether it is long
pub data Piece : Type 0 where
  text : ℕ → Piece
  conversion : List ℕ → Bool → Conversion → Piece

abbrev pub long_mark : Bool → List ℕ
long_mark long = if long then b'l' ∷ [] else []

abbrev pub format_of : List Piece → List ℕ
format_of [] = []
format_of (text c ∷ ps) = c ∷ format_of ps
format_of (conversion ds long k ∷ ps) =
    b'%' ∷ (map decimal_digit ds ++ (long_mark long ++ (letter k ∷ format_of ps)))

abbrev pub AllBelowTen : List ℕ → Type 0
AllBelowTen [] = Unit
AllBelowTen (d ∷ ds) = (d < 10) × AllBelowTen ds

-- No text is a `%`, and a precision consists of digits.
abbrev pub IsFormat : List Piece → Type 0
IsFormat [] = Unit
IsFormat (text c ∷ ps) = (c ≢ b'%') × IsFormat ps
IsFormat (conversion ds long k ∷ ps) = AllBelowTen ds × IsFormat ps

-- The number that the digits stand for behind those of `digits`
abbrev pub precision : Option ℕ → List ℕ → Option ℕ
precision digits [] = digits
precision none (d ∷ ds) = precision (some d) ds
precision (some n) (d ∷ ds) = precision (some (10 * n + d)) ds

-- What one conversion prints, and the arguments that are left
abbrev pub print_number : List Arg → (ℕ → Outcome (List ℕ)) → Outcome (List ℕ × List Arg)
print_number args print = do (x, ap) ← num_arg args; l ← print x; ok (l, ap)

abbrev pub print_one : Option ℕ → Bool → Conversion → List Arg → Outcome (List ℕ × List Arg)
print_one digits long unsigned args = print_number args (λ x. utos (unsigned_of long x) digits)
print_one digits long signed_d args = print_number args (λ x. itos (signed_of long x) digits)
print_one digits long signed_i args = print_number args (λ x. itos (signed_of long x) digits)
print_one digits long hex_h args = print_number args (λ x. utohex (unsigned_of long x) digits)
print_one digits long hex_x args = print_number args (λ x. utohex (unsigned_of long x) digits)
print_one digits long string args = do (s, ap) ← str_arg args; ok (clip digits s, ap)
print_one digits long character args = print_number args (λ x. ok ((x % 2 ^ 8) ∷ []))
print_one digits long percent args = ok ([], args)

-- The pieces one after the other, with the number of conversions
abbrev pub print_pieces : List Piece → List Arg → Outcome (List ℕ × ℕ)
print_pieces [] args = ok ([], 0)
print_pieces (text c ∷ ps) args = do (l, n) ← print_pieces ps args; ok (c ∷ l, n)
print_pieces (conversion ds long k ∷ ps) args = do
  (l, ap) ← print_one (precision none ds) long k args
  (r, n) ← print_pieces ps ap
  ok (l ++ r, n + 1)

-- The state between two pieces
abbrev start : List ℕ → List Arg → ℕ → Printer
start out args n = record {
  out = out;
  ap = args;
  args_put = n;
  persent = false;
  digits = none;
  long = false;
}

abbrev inside : List ℕ → List Arg → ℕ → Option ℕ → Bool → Printer
inside out args n digits long = record {
  out = out;
  ap = args;
  args_put = n;
  persent = true;
  digits = digits;
  long = long;
}

convert-print_one :
    (k : Conversion) (p : Printer) → convert (letter k) p ≡ print_one p.digits p.long k p.ap
unfolding convert
convert-print_one unsigned p = refl
convert-print_one signed_d p = refl
convert-print_one signed_i p = refl
convert-print_one hex_h p = refl
convert-print_one hex_x p = refl
convert-print_one string p = refl
convert-print_one character p = refl
convert-print_one percent p = refl

-- The tests of a round on a digit
digit_tests :
    (d : ℕ)
    → d < 10
    → ((decimal_digit d == b'.') ≡ false)
      × ((decimal_digit d == b'l') ≡ false)
      × (leb b'0' (decimal_digit d) ≡ true)
      × (leb (decimal_digit d) b'9' ≡ true)
      × (decimal_digit d - b'0' ≡ d)
digit_tests d lt = (ground arith, ground arith, ground arith, ground arith, omega arith)

print_all-digits :
    (ds rest out : List ℕ) (args : List Arg) (n : ℕ) (digits : Option ℕ) (long : Bool)
    → AllBelowTen ds
    → print_all (map decimal_digit ds ++ rest) (inside out args n digits long)
      ≡ print_all rest (inside out args n (precision digits ds) long)
unfolding print_all print_char
print_all-digits [] rest out args n digits long v = refl
print_all-digits (d ∷ ds) rest out args n none long (lt, v) =
    let (dot, mark, low, high, same) = digit_tests d lt in
    rw (dot, mark, low, high, same) (print_all-digits ds rest out args n (some d) long v)
print_all-digits (d ∷ ds) rest out args n (some m) long (lt, v) =
    let (dot, mark, low, high, same) = digit_tests d lt in
    rw (dot, mark, low, high, same) (print_all-digits ds rest out args n (some (10 * m + d)) long v)

print_char-letter :
    (k : Conversion) (out : List ℕ) (args : List Arg) (n : ℕ) (digits : Option ℕ) (long : Bool)
    → print_char (letter k) (inside out args n digits long)
      ≡ (print_one digits long k args >>= λ (l, ap). ok (start (out ++ l) ap (n + 1)))
unfolding print_char
print_char-letter unsigned out args n digits long = refl
print_char-letter signed_d out args n digits long = refl
print_char-letter signed_i out args n digits long = refl
print_char-letter hex_h out args n digits long = refl
print_char-letter hex_x out args n digits long = refl
print_char-letter string out args n digits long = refl
print_char-letter character out args n digits long = refl
print_char-letter percent out args n digits long = refl

print_all-long_mark :
    (rest out : List ℕ) (args : List Arg) (n : ℕ) (digits : Option ℕ) (long : Bool) (k : Conversion)
    → print_all (long_mark long ++ (letter k ∷ rest)) (inside out args n digits false)
      ≡ (print_char (letter k) (inside out args n digits long) >>= print_all rest)
unfolding print_all print_char
print_all-long_mark rest out args n digits false k = refl
print_all-long_mark rest out args n digits true k = refl

-- What `vsprintf` returns
abbrev result : Outcome Printer → Outcome (List ℕ × ℕ)
result o = o >>= λ p. ok (p.out, p.args_put)

abbrev behind : List ℕ → ℕ → Outcome (List ℕ × ℕ) → Outcome (List ℕ × ℕ)
behind out n o = o >>= λ (l, m). ok (out ++ l, n + m)

behind-text :
    (out : List ℕ) (n c : ℕ) (o : Outcome (List ℕ × ℕ))
    → behind (out ++ (c ∷ [])) n o ≡ behind out n (o >>= λ (l, m). ok (c ∷ l, m))
behind-text out n c panic = refl
behind-text out n c wild = refl
behind-text out n c hang = refl
behind-text out n c no_fuel = refl
behind-text out n c (ok (l, m)) = ap (λ x. ok (x, n + m)) (append_assoc out (c ∷ []) l)

behind-behind :
    (out l : List ℕ) (n : ℕ) (o : Outcome (List ℕ × ℕ))
    → behind (out ++ l) (n + 1) o ≡ behind out n (o >>= λ (r, m). ok (l ++ r, m + 1))
behind-behind out l n panic = refl
behind-behind out l n wild = refl
behind-behind out l n hang = refl
behind-behind out l n no_fuel = refl
behind-behind out l n (ok (r, m)) = ap₂ (λ x y. ok (x, y)) (append_assoc out l r) (omega arith)

-- The state after a conversion, and what the rest of the format then prints
result-converted :
    (rest out : List ℕ) (n : ℕ) (ps : List Piece) (o : Outcome (List ℕ × List Arg))
    → ((out : List ℕ) (args : List Arg) (n : ℕ)
        → result (print_all rest (start out args n)) ≡ behind out n (print_pieces ps args))
    → result (o >>= (λ (l, ap). ok (start (out ++ l) ap (n + 1))) >>= print_all rest)
      ≡ behind out n (o >>= λ (l, ap). print_pieces ps ap >>= λ (r, m). ok (l ++ r, m + 1))
result-converted rest out n ps panic next = refl
result-converted rest out n ps wild next = refl
result-converted rest out n ps hang next = refl
result-converted rest out n ps no_fuel next = refl
result-converted rest out n ps (ok (l, args)) next =
    next (out ++ l) args (n + 1) ∙ behind-behind out l n (print_pieces ps args)

print_all-pieces :
    (ps : List Piece) (out : List ℕ) (args : List Arg) (n : ℕ)
    → IsFormat ps
    → result (print_all (format_of ps) (start out args n)) ≡ behind out n (print_pieces ps args)
unfolding print_all
print_all-pieces [] out args n v = ap₂ (λ x y. ok (x, y)) (sym (append-nil out)) (omega arith)
print_all-pieces (text c ∷ ps) out args n (other, v) =
    let test : (c == b'%') ≡ false = ground arith in
    rw test
      (print_all-pieces ps (out ++ (c ∷ [])) args n v ∙ behind-text out n c (print_pieces ps args))
print_all-pieces (conversion ds long k ∷ ps) out args n (digits, v) =
    let rest = format_of ps in
    let seen = precision none ds in
    ap result (
      print_all-digits ds (long_mark long ++ (letter k ∷ rest)) out args n none false digits
      ∙ print_all-long_mark rest out args n seen long k
      ∙ ap (λ o. o >>= print_all rest) (print_char-letter k out args n seen long))
    ∙ result-converted rest out n ps (print_one seen long k args)
        (λ out args n. print_all-pieces ps out args n v)

behind_none : (o : Outcome (List ℕ × ℕ)) → behind [] 0 o ≡ o
behind_none panic = refl
behind_none wild = refl
behind_none hang = refl
behind_none no_fuel = refl
behind_none (ok (l, m)) = ap (λ k. ok (l, k)) (omega arith)

-- On a format of texts other than `%` and of conversions, with or without precisions and long marks,
-- vsprintf prints them one after the other and returns the number of the conversions. A `%` as the
-- conversion prints nothing and counts as well. It runs out of arguments where they do.
pub vsprintf-pieces :
    (ps : List Piece) (args : List Arg)
    → IsFormat ps
    → vsprintf (format_of ps) args ≡ print_pieces ps args
unfolding vsprintf
vsprintf-pieces ps args v = print_all-pieces ps [] args 0 v ∙ behind_none (print_pieces ps args)
