-- ===== src/Migrations/Names.antt =====
-- `MIGRATION_NAME` and the name of a file in `migration_from_path` of src/bidding/db/migrations.py.
use transaction_safe_bidding.Prelude.{
  ℕ, ◌+◌, ◌*◌, ◌<◌, ◌≡◌, refl, ap, ◌∙◌, Bool, true, false, ◌&&◌, ◌||◌, Option, none, some, [], ◌∷◌,
  ◌++◌, arith, leb, ◌==◌, if◌then◌else◌, Text, text_eq,
}
use Prim.Native.Nat.{◌/◌, ◌%◌}
use transaction_safe_bidding.Prelude.{codes, ℤ, pos, negsuc, digit, read, int_of}
use transaction_safe_bidding.Prelude.All.{All}
use transaction_safe_bidding.Prelude.Decimal.RoundTrip.{digit-code, read-digit, int_of-digits}
use transaction_safe_bidding.Domain.Errors.{value_error, Result, ok, err}
use transaction_safe_bidding.Domain.Models.{is_some}

-- `[a-z0-9_]`
abbrev pub is_name_char : ℕ → Bool
is_name_char c = (leb 97 c && leb c 122) || (leb 48 c && leb c 57) || c == 95

abbrev pub suffix : Text
suffix = codes ".sql"

abbrev pub prepend : ℕ → Option Text → Option Text
prepend c none = none
prepend c (some s) = some (c ∷ s)

-- `[a-z0-9_]*\.sql` to the end: the part before the suffix.
unfoldable pub match_name : Text → Option Text
match_name [] = none
match_name (c ∷ s) =
    let rest = match_name s in
    if text_eq (c ∷ s) suffix then some [] else if is_name_char c then prepend c rest else none

-- `int(match.group("version"))`, with the name.
unfoldable pub migration_of : Text → Option Text → Result (ℕ × Text)
migration_of version none = err value_error
migration_of version (some []) = err value_error
migration_of version (some (c ∷ name)) = elim (int_of version) [
  | some z ↦ elim z [ pos n ↦ ok (n, c ∷ name) | negsuc n ↦ err value_error ]
  | none ↦ err value_error
]

-- The version and the name of a file, if all of its name matches the pattern: three digits, which may
-- be of any script, an underscore, and the rest.
unfoldable pub migration_from_path : Text → Result (ℕ × Text)
unfolding match_name migration_of
migration_from_path (a ∷ b ∷ c ∷ bar ∷ rest) =
    if is_some (digit a) && is_some (digit b) && is_some (digit c) && bar == 95
    then migration_of (a ∷ b ∷ c ∷ []) (match_name rest)
    else err value_error
migration_from_path _ = err value_error

-- `f"{version:03}"`
abbrev pub three_digits : ℕ → Text
three_digits n = (48 + n / 100) ∷ (48 + n / 10 % 10) ∷ (48 + n % 10) ∷ []

not_dot : (c : ℕ) → is_name_char c ≡ true → (c == 46) ≡ false
not_dot c h = ground (arith, h)

match_name-suffix :
    (name : Text) → All (λ c. is_name_char c ≡ true) name → match_name (name ++ suffix) ≡ some name
unfolding match_name
match_name-suffix [] h = refl
match_name-suffix (c ∷ name) h =
    rw (not_dot c h.0) (rw h.0 (ap (prepend c) (match_name-suffix name h.1)))

int_of-three_digits : (n : ℕ) → n < 1000 → int_of (three_digits n) ≡ some (pos n)
unfolding read
int_of-three_digits n h =
    let a = n / 100 in
    let b = n / 10 % 10 in
    let c = n % 10 in
    int_of-digits (three_digits n) n
      (
        (omega arith, omega (arith, h)),
        ((omega arith, omega arith), ((omega arith, omega arith), tt)),
      )
      (read-digit false 0 0 a (48 + a) ((48 + b) ∷ (48 + c) ∷ []) (digit-code a (omega (arith, h)))
        ∙ read-digit true (0 * 10 + a) (0 + 1) b (48 + b) ((48 + c) ∷ [])
            (digit-code b (omega arith))
        ∙ read-digit true ((0 * 10 + a) * 10 + b) (0 + 1 + 1) c (48 + c) []
            (digit-code c (omega arith))
        ∙ ground arith)
      (omega arith)

migration_of-named :
    (version : Text) (n c : ℕ) (name : Text)
    → int_of version ≡ some (pos n)
    → migration_of version (some (c ∷ name)) ≡ ok (n, c ∷ name)
unfolding migration_of
migration_of-named version n c name h =
    ap
      (λ (o : Option ℤ). elim o [
        | some z ↦ elim z [ pos m ↦ ok (m, c ∷ name) | negsuc m ↦ err value_error ]
        | none ↦ err value_error
      ])
      h

-- A file that is named by a version below 1000 in three digits, an underscore, a name of small letters,
-- digits and underscores that is not empty, and `.sql`, is read as a migration of this version and name.
pub migration_from_path-three_digits :
    (n c : ℕ) (name : Text)
    → n < 1000
    → All (λ d. is_name_char d ≡ true) (c ∷ name)
    → migration_from_path (three_digits n ++ 95 ∷ (c ∷ name) ++ suffix) ≡ ok (n, c ∷ name)
unfolding migration_from_path
migration_from_path-three_digits n c name h chars =
    rw
      (
        digit-code (n / 100) (omega (arith, h)),
        digit-code (n / 10 % 10) (omega arith),
        digit-code (n % 10) (omega arith),
      )
      (ap (migration_of (three_digits n)) (match_name-suffix (c ∷ name) chars)
        ∙ migration_of-named (three_digits n) n c name (int_of-three_digits n h))
