-- ===== src/Strings/Tests.antt =====
-- The theorems at a memory that holds "abc" at 10 and "ab" at 20.
use bincows.Base.{
  ℕ, ◌+◌, ◌<◌, ◌≡◌, ◌==◌, if◌then◌else◌, refl, none, ok, arith, Bytes, [], ◌∷◌, slice,
}
use bincows.Heap.Api.{memcpy}
use bincows.Strings.{memmove, move_back, strstr, strstr_from}
use bincows.Strings.Moving.{Moved, memmove-Moved}
use bincows.Strings.Searching.{IsString}

abbrev memory : Bytes
memory a =
    if a == 10
    then 97
    else if a == 11
    then 98
    else if a == 12
    then 99
    else if a == 20
    then 97
    else if a == 21
    then 98
    else 0

moves : slice (memmove memory 11 10 3) 10 4 ≡ 97 ∷ 97 ∷ 98 ∷ 99 ∷ []
unfolding memmove move_back memcpy slice
moves = refl

needle-IsString : IsString memory 20 2
needle-IsString = record { ends = refl; inner = λ i lt. ground arith }

same_start : (j : ℕ) → j < 2 → memory (10 + j) ≡ memory (20 + j)
same_start j lt = ground arith

memmove-Moved_example : Moved memory 11 10 3 (memmove memory 11 10 3)
memmove-Moved_example = memmove-Moved memory 11 10 3 (omega arith) (omega arith)

-- "aab" at 31 is not found in "aaab" at 30.
abbrev repeated : Bytes
repeated a =
    if a == 30
    then 97
    else if a == 31
    then 97
    else if a == 32
    then 97
    else if a == 33
    then 98
    else 0

misses : strstr 9 repeated 30 31 ≡ ok none
unfolding strstr strstr_from
misses = refl
