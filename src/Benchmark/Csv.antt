-- ===== src/Benchmark/Csv.antt =====
-- `parse_csv` and `parse_positive_int_csv` of src/bidding/benchmark/cli.py.
use transaction_safe_bidding.Prelude.{
  ℕ, ◌≤◌, ◌<◌, ◌≡◌, refl, sym, ap, ◌∙◌, inl, inr, Bool, true, false, not, ◌||◌, Option, none, some,
  List, [], ◌∷◌, ◌++◌, arith, ltb, ◌==◌, if◌then◌else◌, ==_iff, Bool-cases, length, Text, strip,
}
use transaction_safe_bidding.Prelude.{ℤ, pos, negsuc, int_of, decimal, max_digits}
use mathlib.Core.List.{append-nil}
use transaction_safe_bidding.Prelude.All.{All, All-map}
use transaction_safe_bidding.Prelude.Strip.{IsClean, strip-clean}
use transaction_safe_bidding.Prelude.Decimal.RoundTrip.{
  IsDigit, decimal-IsDigit, digits-IsClean, length-decimal, int_of-decimal,
}
use transaction_safe_bidding.Domain.Errors.{
  value_error, Result, ok, err, ◌>>=◌, ◌>>◌, raise_if, ok-bind, ok-raise_if,
}

-- One more character in front of the first part.
abbrev attach : ℕ → List Text → List Text
attach c [] = (c ∷ []) ∷ []
attach c (part ∷ parts) = (c ∷ part) ∷ parts

-- `text.split(separator)`
unfoldable pub split : ℕ → Text → List Text
split separator [] = [] ∷ []
split separator (c ∷ s) =
    let rest = split separator s in if c == separator then [] ∷ rest else attach c rest

-- The stripped parts that are not empty.
unfoldable pub items : List Text → List Text
items [] = []
items (part ∷ parts) =
    let rest = items parts in if length (strip part) == 0 then rest else strip part ∷ rest

abbrev pub comma : ℕ
comma = 44

unfoldable pub parse_csv : Text → List Text
unfolding split items
parse_csv value = items (split comma value)

unfoldable pub ints : List Text → Result (List ℤ)
ints [] = ok []
ints (item ∷ rest) = elim (int_of item) [
  | none ↦ err value_error
  | some z ↦ ints rest >>= λ zs. ok (z ∷ zs)
]

abbrev pub is_positive : ℤ → Bool
is_positive (pos n) = ltb 0 n
is_positive (negsuc n) = false

-- `any(number <= 0 for number in numbers)`
unfoldable pub any_nonpositive : List ℤ → Bool
any_nonpositive [] = false
any_nonpositive (z ∷ zs) = not (is_positive z) || any_nonpositive zs

abbrev pub is_empty : List ℤ → Bool
is_empty [] = true
is_empty (z ∷ zs) = false

unfoldable pub parse_positive_int_csv : Text → Result (List ℤ)
unfolding parse_csv ints any_nonpositive
parse_positive_int_csv value = do
  numbers ← ints (parse_csv value)
  raise_if (is_empty numbers || any_nonpositive numbers) value_error
  ok numbers

-- The texts with the separator between them.
abbrev pub join : ℕ → List Text → Text
join separator [] = []
join separator (part ∷ []) = part
join separator (part ∷ next ∷ parts) = part ++ separator ∷ join separator (next ∷ parts)

abbrev Lacks : ℕ → Text → Type 0
Lacks separator = All (λ c. (c == separator) ≡ false)

abbrev in_front : Text → List Text → List Text
in_front p [] = p ∷ []
in_front p (part ∷ parts) = (p ++ part) ∷ parts

attach-in_front :
    (c : ℕ) (p : Text) (parts : List Text) → attach c (in_front p parts) ≡ in_front (c ∷ p) parts
attach-in_front c p [] = refl
attach-in_front c p (part ∷ parts) = refl

split-ne :
    (separator : ℕ) (s : Text)
    → (part : Text) × (parts : List Text) × (split separator s ≡ part ∷ parts)
unfolding split
split-ne separator [] = ([], [], refl)
split-ne separator (c ∷ s) = elim (Bool-cases (c == separator)) [
  | inl here ↦ rw here (_, _, refl)
  | inr other ↦ let (part, parts, e) = split-ne separator s in rw (other, e) (_, _, refl)
]

split-append :
    (separator : ℕ) (p s : Text)
    → Lacks separator p
    → split separator (p ++ s) ≡ in_front p (split separator s)
unfolding split
split-append separator [] s h = let (part, parts, e) = split-ne separator s in rw e refl
split-append separator (c ∷ p) s h =
    rw h.0
      (ap (attach c) (split-append separator p s h.1) ∙ attach-in_front c p (split separator s))

split-here : (separator : ℕ) (s : Text) → split separator (separator ∷ s) ≡ [] ∷ split separator s
unfolding split
split-here separator s = rw ((==_iff separator separator).1 refl) refl

-- Splitting what was joined gives the parts back, if there is one and none has the separator.
split-join :
    (separator : ℕ) (p : Text) (parts : List Text)
    → Lacks separator p
    → All (Lacks separator) parts
    → split separator (join separator (p ∷ parts)) ≡ p ∷ parts
unfolding split
split-join separator p [] h k =
    ap (split separator) (sym (append-nil p))
    ∙ split-append separator p [] h
    ∙ ap (λ (t : Text). t ∷ []) (append-nil p)
split-join separator p (q ∷ parts) h k =
    let rest = join separator (q ∷ parts) in
    split-append separator p (separator ∷ rest) h
    ∙ ap (in_front p) (split-here separator rest)
    ∙ ap (λ (t : Text). t ∷ split separator rest) (append-nil p)
    ∙ ap (λ (ts : List Text). p ∷ ts) (split-join separator q parts k.0 k.1)

-- Items that are kept as they are.
abbrev IsItem : Text → Type 0
IsItem s = IsClean s × (1 ≤ length s)

items-IsItem : (parts : List Text) → All IsItem parts → items parts ≡ parts
unfolding items
items-IsItem [] h = refl
items-IsItem (p ∷ parts) h =
    ap (λ (s : Text). if length s == 0 then items parts else s ∷ items parts) (strip-clean p h.0.0)
    ∙ elim (Bool-cases (length p == 0)) [
      | inl empty ↦ absurd (ground (arith, empty, h.0.1))
      | inr full ↦ rw full (ap (λ (ts : List Text). p ∷ ts) (items-IsItem parts h.1))
    ]

-- `[str(n) for n in numbers]`
abbrev pub decimals : List ℕ → List Text
decimals [] = []
decimals (n ∷ ns) = decimal n ∷ decimals ns

abbrev pub positives : List ℕ → List ℤ
positives [] = []
positives (n ∷ ns) = pos n ∷ positives ns

-- A number that the program can write and read.
abbrev pub IsLevel : ℕ → Type 0
IsLevel n = (0 < n) × (length (decimal n) ≤ max_digits)

digit-not_comma : (c : ℕ) → IsDigit c → (c == comma) ≡ false
digit-not_comma c h = ground (arith, h)

decimals-Lacks : (ns : List ℕ) → All (Lacks comma) (decimals ns)
decimals-Lacks [] = tt
decimals-Lacks (n ∷ ns) = (
  All-map IsDigit (λ c. (c == comma) ≡ false) (decimal n) digit-not_comma (decimal-IsDigit n),
  decimals-Lacks ns,
)

decimals-IsItem : (ns : List ℕ) → All IsItem (decimals ns)
decimals-IsItem [] = tt
decimals-IsItem (n ∷ ns) =
    ((digits-IsClean (decimal n) (decimal-IsDigit n), length-decimal n), decimals-IsItem ns)

ints-decimals : (ns : List ℕ) → All IsLevel ns → ints (decimals ns) ≡ ok (positives ns)
unfolding ints
ints-decimals [] h = refl
ints-decimals (n ∷ ns) h =
    ap
      (λ (o : Option ℤ). elim o [
        | none ↦ err value_error
        | some z ↦ ints (decimals ns) >>= λ zs. ok (z ∷ zs)
      ])
      (int_of-decimal n h.0.1)
    ∙ ap (λ (r : Result (List ℤ)). r >>= λ zs. ok (pos n ∷ zs)) (ints-decimals ns h.1)

any_nonpositive-positives : (ns : List ℕ) → All IsLevel ns → any_nonpositive (positives ns) ≡ false
unfolding any_nonpositive
any_nonpositive-positives [] h = refl
any_nonpositive-positives (n ∷ ns) h = ground (arith, h.0.0, any_nonpositive-positives ns h.1)

-- Concurrency levels that are positive, at least one, and no longer than `int` takes are read back from
-- their decimal texts with commas between them.
pub parse_positive_int_csv-join :
    (n : ℕ) (ns : List ℕ)
    → All IsLevel (n ∷ ns)
    → parse_positive_int_csv (join comma (decimals (n ∷ ns))) ≡ ok (positives (n ∷ ns))
unfolding parse_positive_int_csv parse_csv
parse_positive_int_csv-join n ns h =
    let texts = decimals (n ∷ ns) in
    let lacks = decimals-Lacks (n ∷ ns) in
    let read_ : ints (items (split comma (join comma texts))) ≡ ok (positives (n ∷ ns)) =
      ap (λ (ts : List Text). ints (items ts))
        (split-join comma (decimal n) (decimals ns) lacks.0 lacks.1)
      ∙ ap ints (items-IsItem texts (decimals-IsItem (n ∷ ns)))
      ∙ ints-decimals (n ∷ ns) h in
    ok-bind (ints (items (split comma (join comma texts)))) _ (positives (n ∷ ns)) read_
    ∙ ok-raise_if (any_nonpositive (positives (n ∷ ns))) value_error (ok (positives (n ∷ ns)))
        (any_nonpositive-positives (n ∷ ns) h)
