-- ===== src/Prelude/Decimal/RoundTrip.antt =====
-- `int` reads what `str` writes.
use Prim.Native.Nat.{ℕ, zero, suc, ◌+◌, ◌-◌, ◌*◌, ◌/◌, ◌%◌, ◌≤◌, ◌<◌}
use mathlib.Core.Path.{◌≡◌, refl, sym, ap, ◌∙◌, subst}
use mathlib.Core.Logic.{inl, inr}
use mathlib.Core.Bool.{Bool, true, false, ◌&&◌}
use mathlib.Core.Option.{Option, none, some}
use mathlib.Core.List.{List, [], ◌∷◌, ◌++◌, reverse, reverse-cons}
use native.Mathlib.Omega.{arith}
use transaction_safe_bidding.Prelude.Tests.{ltb, ◌==◌, Bool-cases}
use transaction_safe_bidding.Prelude.Lists.{length, length-append}
use transaction_safe_bidding.Prelude.Str.{Text, is_space}
use transaction_safe_bidding.Prelude.Strip.{IsClean, starts_clean, strip-clean}
use transaction_safe_bidding.Prelude.All.{All, All-append}
use transaction_safe_bidding.Prelude.Decimal.{
  pos, digit_from, digit, digit_zeros, read, max_digits, next, magnitude, parse_signed,
  has_separator, int_of, decimal_on, decimal,
}

digit_from-first :
    (z c : ℕ) (zs : List ℕ) → z ≤ c → c < z + 10 → digit_from (z ∷ zs) c ≡ some (c - z)
unfolding digit_from
digit_from-first z c zs h k = ground arith

abbrev other_zeros : List ℕ
other_zeros = elim digit_zeros [ [] ↦ [] | z ∷ zs ↦ zs ]

pub digit-code : (d : ℕ) → d < 10 → digit (48 + d) ≡ some d
unfolding digit
digit-code d h =
    digit_from-first 48 (48 + d) other_zeros (omega arith) (omega (arith, h))
    ∙ ap some (omega arith)

pub read-digit :
    (b : Bool) (total count d c : ℕ) (s : Text)
    → digit c ≡ some d
    → read b total count (c ∷ s) ≡ read true (total * 10 + d) (count + 1) s
unfolding read
read-digit b total count d c s h =
    ap
      (λ o.
        next o (b && c == 0x5f) (λ v. read true (total * 10 + v) (count + 1) s)
          (λ u. read false total count s))
      h

-- One more digit at the end.
abbrev Grows : Text → ℕ → Type 0
Grows s d =
    (b : Bool) (total count t k : ℕ)
    → read b total count s ≡ some (t, k)
    → read b total count (s ++ (48 + d) ∷ []) ≡ some (t * 10 + d, k + 1)

next-last :
    (s : Text) (o : Option ℕ) (bar : Bool) (total count t k d : ℕ)
    → Grows s d
    → next o bar (λ v. read true (total * 10 + v) (count + 1) s) (λ u. read false total count s)
      ≡ some (t, k)
    → next o bar
        (λ v. read true (total * 10 + v) (count + 1) (s ++ (48 + d) ∷ []))
        (λ u. read false total count (s ++ (48 + d) ∷ []))
      ≡ some (t * 10 + d, k + 1)
next-last s (some v) bar total count t k d grows h = grows true (total * 10 + v) (count + 1) t k h
next-last s none true total count t k d grows h = grows false total count t k h
next-last s none false total count t k d grows h = absurd (cc)

read-last : (s : Text) (d : ℕ) → d < 10 → Grows s d
unfolding read
read-last [] d lt b total count t k h =
    read-digit b total count d (48 + d) [] (digit-code d lt) ∙ ground arith
read-last (c ∷ s) d lt b total count t k h =
    next-last s (digit c) (b && c == 0x5f) total count t k d (read-last s d lt) h

read-decimal_on :
    (k n : ℕ) → n < k → read false 0 0 (decimal_on k n) ≡ some (n, length (decimal_on k n))
unfolding decimal_on read
read-decimal_on zero n h = absurd (omega (arith, h))
read-decimal_on (suc k) n h = elim (Bool-cases (ltb n 10)) [
  | inl small ↦
      rw small (read-digit false 0 0 n (48 + n) [] (digit-code n (ground arith)) ∙ ground arith)
  | inr large ↦ rw large (
      read-last (decimal_on k (n / 10)) (n % 10) (omega arith) false 0 0 (n / 10)
        (length (decimal_on k (n / 10))) (read-decimal_on k (n / 10) (ground arith))
      ∙ ground (arith, length-append (decimal_on k (n / 10)) ((48 + n % 10) ∷ [])))
]

abbrev pub IsDigit : ℕ → Type 0
IsDigit c = (48 ≤ c) × (c < 58)

decimal_on-IsDigit : (k n : ℕ) → All IsDigit (decimal_on k n)
unfolding decimal_on
decimal_on-IsDigit zero n = tt
decimal_on-IsDigit (suc k) n = elim (Bool-cases (ltb n 10)) [
  | inl small ↦ rw small ((omega arith, ground arith), tt)
  | inr large ↦ rw large (
      All-append IsDigit (decimal_on k (n / 10)) ((48 + n % 10) ∷ [])
        (decimal_on-IsDigit k (n / 10)) ((omega arith, omega arith), tt))
]

All-reverse : (P : ℕ → Type 0) (s : Text) → All P s → All P (reverse s)
All-reverse P [] h = tt
All-reverse P (c ∷ s) h =
    subst (All P) (sym (reverse-cons c s))
      (All-append P (reverse s) (c ∷ []) (All-reverse P s h.1) (h.0, tt))

starts_clean-digits : (s : Text) → All IsDigit s → starts_clean s ≡ true
unfolding is_space
starts_clean-digits [] h = refl
starts_clean-digits (c ∷ s) h = ground (arith, h.0)

has_separator-digits : (s : Text) → All IsDigit s → has_separator s ≡ false
unfolding has_separator
has_separator-digits [] h = refl
has_separator-digits (c ∷ s) h = ground (arith, h.0, has_separator-digits s h.1)

parse_signed-digits :
    (s : Text) (n : ℕ) → All IsDigit s → magnitude s ≡ some n → parse_signed s ≡ some (pos n)
unfolding parse_signed
parse_signed-digits [] n h m = absurd (unfold magnitude read in cc)
parse_signed-digits (c ∷ s) n h m = ground (arith, h.0, m)

magnitude-read :
    (s : Text) (n : ℕ)
    → read false 0 0 s ≡ some (n, length s)
    → length s ≤ max_digits
    → magnitude s ≡ some n
unfolding magnitude
magnitude-read s n h fits = ground (arith, h, fits)

pub decimal-IsDigit : (n : ℕ) → All IsDigit (decimal n)
unfolding decimal
decimal-IsDigit n = decimal_on-IsDigit (n + 1) n

pub digits-IsClean : (s : Text) → All IsDigit s → IsClean s
digits-IsClean s h = record {
  start = starts_clean-digits s h;
  end = starts_clean-digits (reverse s) (All-reverse IsDigit s h);
}

length-decimal_on : (k n : ℕ) → 1 ≤ length (decimal_on (suc k) n)
unfolding decimal_on
length-decimal_on k n = elim (Bool-cases (ltb n 10)) [
  | inl small ↦ rw small (omega arith)
  | inr large ↦ rw large (omega (arith, length-append (decimal_on k (n / 10)) ((48 + n % 10) ∷ [])))
]

pub length-decimal : (n : ℕ) → 1 ≤ length (decimal n)
unfolding decimal
length-decimal n =
    let next_ : suc n ≡ n + 1 = omega arith in
    subst (λ k. 1 ≤ length (decimal_on k n)) next_ (length-decimal_on n n)

-- A text of digits is the number that `read` makes of it.
pub int_of-digits :
    (s : Text) (n : ℕ)
    → All IsDigit s
    → read false 0 0 s ≡ some (n, length s)
    → length s ≤ max_digits
    → int_of s ≡ some (pos n)
unfolding int_of
int_of-digits s n digits h fits = rw (has_separator-digits s digits) (
    rw (strip-clean s (digits-IsClean s digits))
      (parse_signed-digits s n digits (magnitude-read s n h fits)))

-- What `str` writes of a number, if it is not too long, `int` reads as this number.
pub int_of-decimal : (n : ℕ) → length (decimal n) ≤ max_digits → int_of (decimal n) ≡ some (pos n)
unfolding decimal
int_of-decimal n h =
    int_of-digits (decimal n) n (decimal-IsDigit n) (read-decimal_on (n + 1) n (omega arith)) h
