-- ===== src/Strings.antt =====
-- kernel/lib/string.c: `memmove`, `strlen` and `strstr` on one memory. A string ends at its first 0.
pub mod Moving
pub mod Searching
mod Tests
use bincows.Base.{
  ℕ, zero, suc, ◌+◌, ◌-◌, ◌%◌, ◌^◌, Bool, true, false, ◌&&◌, Option, none, some, ltb, ◌==◌,
  if◌then◌else◌, Outcome, ok, no_fuel, Bytes, put,
}
use bincows.Heap.Api.{memcpy}

-- The backward loop of `memmove`, where `dest` and `src` are the addresses behind the last bytes.
unfoldable pub move_back : Bytes → ℕ → ℕ → ℕ → Bytes
move_back m dest src zero = m
move_back m dest src (suc n) = move_back (put m (dest - 1) (m (src - 1))) (dest - 1) (src - 1) n

-- The memory that `memmove` leaves.
unfoldable pub memmove : Bytes → ℕ → ℕ → ℕ → Bytes
unfolding move_back
memmove m dest src n =
    if ltb src dest && ltb dest ((src + n) % 2 ^ 64)
    then move_back m (dest + n) (src + n) n
    else memcpy m dest src n

-- The loop of `strlen`, with `len` characters behind it. The fuel bounds the string, which is shorter
-- than 2^31 characters, since `len` is an `int`.
unfoldable pub strlen_from : ℕ → Bytes → ℕ → ℕ → Outcome ℕ
strlen_from zero m ptr len = no_fuel
strlen_from (suc k) m ptr len =
    let longer = strlen_from k m (ptr + 1) (len + 1) in if m ptr == 0 then ok len else longer

unfoldable pub strlen : ℕ → Bytes → ℕ → Outcome ℕ
unfolding strlen_from
strlen k m str = strlen_from k m str 0

-- The loop of `strstr`, `none` for NULL.
unfoldable pub strstr_from : ℕ → Bytes → ℕ → ℕ → ℕ → Outcome (Option ℕ)
strstr_from zero m haystack needle i = no_fuel
strstr_from (suc k) m haystack needle i =
    let next = strstr_from k m (haystack + 1) needle (i + 1) in
    let again = strstr_from k m (haystack + 1) needle 0 in
    if m (needle + i) == 0
    then ok (some (haystack - i - 1))
    else if m haystack == m (needle + i)
    then next
    else if m haystack == 0
    then ok none
    else again

unfoldable pub strstr : ℕ → Bytes → ℕ → ℕ → Outcome (Option ℕ)
unfolding strstr_from
strstr k m haystack needle = strstr_from k m haystack needle 0
