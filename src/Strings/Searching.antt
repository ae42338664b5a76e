-- ===== src/Strings/Searching.antt =====
-- `strlen` and `strstr`.
use bincows.Base.{
  ℕ, zero, suc, ◌+◌, ◌-◌, ◌<◌, ◌≤◌, ◌≡◌, ◌≢◌, ◌∙◌, ap, Bool-cases, inl, inr, true, false, some,
  ◌==◌, ok, arith, Bytes,
}
use bincows.Strings.{strlen_from, strlen, strstr_from, strstr}

-- The string at `str` has `n` characters.
pub record IsString (m : Bytes) (str n : ℕ) : Type 0 where
  pub ends : m (str + n) ≡ 0
  pub inner : (i : ℕ) → i < n → m (str + i) ≢ 0

strlen_from_lem :
    (k n : ℕ) (m : Bytes) (str i : ℕ)
    → IsString m str n
    → i ≤ n
    → n < i + k
    → strlen_from k m (str + i) i ≡ ok n
unfolding strlen_from
strlen_from_lem zero n m str i s le fuel = absurd (omega arith)
strlen_from_lem (suc k) n m str i s le fuel = elim (Bool-cases (i == n)) [
  | inl last ↦
      (let same : i ≡ n = ground arith in
        let end_ : (m (str + i) == 0) ≡ true = rw same (ground (arith, s.ends)) in
        rw end_ (ap ok same))
  | inr inner ↦
      (let other : (m (str + i) == 0) ≡ false = ground (arith, s.inner i (ground arith)) in
        let next : str + i + 1 ≡ str + (i + 1) = omega arith in
        rw (other, next) (strlen_from_lem k n m str (i + 1) s (ground arith) (omega arith)))
]

-- `strlen` of a string is the number of its characters.
strlen-IsString : (k n : ℕ) (m : Bytes) (str : ℕ) → IsString m str n → n < k → strlen k m str ≡ ok n
unfolding strlen
strlen-IsString k n m str s fuel =
    let start : str ≡ str + 0 = omega arith in
    ap (λ p. strlen_from k m p 0) start
    ∙ strlen_from_lem k n m str 0 s (omega arith) (omega (arith, fuel))

strstr_from_lem :
    (k n : ℕ) (m : Bytes) (haystack needle i : ℕ)
    → 0 < haystack
    → IsString m needle n
    → ((j : ℕ) → j < n → m (haystack + j) ≡ m (needle + j))
    → i ≤ n
    → n < i + k
    → strstr_from k m (haystack + i) needle i ≡ ok (some (haystack - 1))
unfolding strstr_from
strstr_from_lem zero n m haystack needle i pos s prefix le fuel = absurd (omega arith)
strstr_from_lem (suc k) n m haystack needle i pos s prefix le fuel = elim (Bool-cases (i == n)) [
  | inl last ↦
      (let same : i ≡ n = ground arith in
        let end_ : (m (needle + i) == 0) ≡ true = rw same (ground (arith, s.ends)) in
        rw end_ (ap (λ a. ok (some a)) (omega arith)))
  | inr inner ↦
      (let other : (m (needle + i) == 0) ≡ false = ground (arith, s.inner i (ground arith)) in
        let equal : (m (haystack + i) == m (needle + i)) ≡ true =
          ground (arith, prefix i (ground arith)) in
        let next : haystack + i + 1 ≡ haystack + (i + 1) = omega arith in
        rw (other, equal, next)
          (strstr_from_lem k n m haystack needle (i + 1) pos s prefix (ground arith) (omega arith)))
]

-- Where the needle is the start of the haystack, `strstr` returns the address before the haystack.
strstr_prefix :
    (k n : ℕ) (m : Bytes) (haystack needle : ℕ)
    → 0 < haystack
    → IsString m needle n
    → ((j : ℕ) → j < n → m (haystack + j) ≡ m (needle + j))
    → n < k
    → strstr k m haystack needle ≡ ok (some (haystack - 1))
unfolding strstr
strstr_prefix k n m haystack needle pos s prefix fuel =
    let start : haystack ≡ haystack + 0 = omega arith in
    ap (λ p. strstr_from k m p needle 0) start
    ∙ strstr_from_lem k n m haystack needle 0 pos s prefix (omega arith) (omega (arith, fuel))
