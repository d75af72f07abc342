-- ===== src/Prelude/Decimal.antt =====
-- Python's `int` of a text and `str` of a natural number.
pub mod RoundTrip
use Prim.Native.Nat.{ℕ, zero, suc, ◌+◌, ◌-◌, ◌*◌, ◌/◌, ◌%◌}
use mathlib.Core.Bool.{Bool, true, false, ◌&&◌}
use mathlib.Core.Option.{Option, none, some}
use mathlib.Core.List.{List, [], ◌∷◌, ◌++◌}
use transaction_safe_bidding.Prelude.Tests.{if◌then◌else◌, ltb, leb, ◌==◌}
use transaction_safe_bidding.Prelude.Str.{Text, strip}

-- `pos n` is n, `negsuc n` is -(n + 1).
pub data ℤ : Type 0 where
  pos negsuc : ℕ → ℤ

-- The zeros of the decimal digits of Unicode 14; the other nine follow each.
abbrev pub digit_zeros : List ℕ
digit_zeros =
    0x30 ∷ 0x660 ∷ 0x6f0 ∷ 0x7c0 ∷ 0x966 ∷ 0x9e6 ∷ 0xa66 ∷ 0xae6 ∷ 0xb66 ∷ 0xbe6 ∷ 0xc66 ∷ 0xce6
    ∷ 0xd66 ∷ 0xde6 ∷ 0xe50 ∷ 0xed0 ∷ 0xf20 ∷ 0x1040 ∷ 0x1090 ∷ 0x17e0 ∷ 0x1810 ∷ 0x1946 ∷ 0x19d0
    ∷ 0x1a80 ∷ 0x1a90 ∷ 0x1b50 ∷ 0x1bb0 ∷ 0x1c40 ∷ 0x1c50 ∷ 0xa620 ∷ 0xa8d0 ∷ 0xa900 ∷ 0xa9d0
    ∷ 0xa9f0 ∷ 0xaa50 ∷ 0xabf0 ∷ 0xff10 ∷ 0x104a0 ∷ 0x10d30 ∷ 0x11066 ∷ 0x110f0 ∷ 0x11136 ∷ 0x111d0
    ∷ 0x112f0 ∷ 0x11450 ∷ 0x114d0 ∷ 0x11650 ∷ 0x116c0 ∷ 0x11730 ∷ 0x118e0 ∷ 0x11950 ∷ 0x11c50
    ∷ 0x11d50 ∷ 0x11da0 ∷ 0x16a60 ∷ 0x16ac0 ∷ 0x16b50 ∷ 0x1d7ce ∷ 0x1d7d8 ∷ 0x1d7e2 ∷ 0x1d7ec
    ∷ 0x1d7f6 ∷ 0x1e140 ∷ 0x1e2f0 ∷ 0x1e950 ∷ 0x1fbf0 ∷ []

unfoldable pub digit_from : List ℕ → ℕ → Option ℕ
digit_from [] c = none
digit_from (z ∷ zs) c = if leb z c && ltb c (z + 10) then some (c - z) else digit_from zs c

-- The value of a digit.
unfoldable pub digit : ℕ → Option ℕ
unfolding digit_from
digit c = digit_from digit_zeros c

-- What to do at a character: go on with the value of a digit, skip an underscore, or fail.
abbrev pub next : {A : Type 0} → Option ℕ → Bool → (ℕ → Option A) → (Unit {0} → Option A) → Option A
next (some d) bar go_on skip = go_on d
next none true go_on skip = skip tt
next none false go_on skip = none

-- Digits with single underscores between them: what they say after `total`, and how many they are
-- with `count` before. The flag says that a digit has just been read.
unfoldable pub read : Bool → ℕ → ℕ → Text → Option (ℕ × ℕ)
unfolding digit
read after_digit total count [] = if after_digit then some (total, count) else none
read after_digit total count (c ∷ s) =
    next (digit c) (after_digit && c == 0x5f) (λ d. read true (total * 10 + d) (count + 1) s)
      (λ u. read false total count s)

-- `sys.get_int_max_str_digits()`
abbrev pub max_digits : ℕ
max_digits = 4300

unfoldable pub magnitude : Text → Option ℕ
unfolding read
magnitude s = elim (read false 0 0 s) [
  | some (total, count) ↦ if ltb max_digits count then none else some total
  | none ↦ none
]

abbrev pub negated : ℕ → ℤ
negated zero = pos 0
negated (suc n) = negsuc n

abbrev pub signed : (ℕ → ℤ) → Option ℕ → Option ℤ
signed sign none = none
signed sign (some n) = some (sign n)

unfoldable pub parse_signed : Text → Option ℤ
unfolding magnitude
parse_signed [] = none
parse_signed (c ∷ s) =
    if c == 0x2b
    then signed pos (magnitude s)
    else if c == 0x2d
    then signed negated (magnitude s)
    else signed pos (magnitude (c ∷ s))

-- The separators 28 to 31 are spaces to `strip`, and never allowed in a number.
unfoldable pub has_separator : Text → Bool
has_separator [] = false
has_separator (c ∷ s) = let rest = has_separator s in if leb 28 c && leb c 31 then true else rest

-- `int(text)`, where `none` is a `ValueError`.
unfoldable pub int_of : Text → Option ℤ
unfolding parse_signed has_separator
int_of s = if has_separator s then none else parse_signed (strip s)

-- The last digits of `n`, as many as there are, but `k` at most.
unfoldable pub decimal_on : ℕ → ℕ → Text
decimal_on zero n = []
decimal_on (suc k) n =
    if ltb n 10 then (48 + n) ∷ [] else decimal_on k (n / 10) ++ (48 + n % 10) ∷ []

-- `str(n)`
unfoldable pub decimal : ℕ → Text
unfolding decimal_on
decimal n = decimal_on (n + 1) n
