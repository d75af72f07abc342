-- ===== src/Benchmark/Percentile.antt =====
-- `percentile_ns` of src/bidding/benchmark/models.py. The rank, `math.ceil(percentile / 100 * n)`, is
-- computed in floating point and is an argument.
use transaction_safe_bidding.Prelude.{
  ℕ, zero, suc, ◌+◌, ◌-◌, ◌≤◌, ◌<◌, ◌≡◌, refl, sym, ap, ◌∙◌, inl, inr, Bool, true, false, not, ◌&&◌,
  Option, none, some, List, [], ◌∷◌, arith, ltb, leb, if◌then◌else◌, leb→le, Bool-cases, length,
}
use transaction_safe_bidding.Prelude.All.{All-In, All, All-map, All-at, In}
use transaction_safe_bidding.Domain.Errors.{value_error, runtime_error, Result, ok, err}

unfoldable pub insert_sorted : ℕ → List ℕ → List ℕ
insert_sorted x [] = x ∷ []
insert_sorted x (y ∷ ys) = let rest = insert_sorted x ys in if leb x y then x ∷ y ∷ ys else y ∷ rest

-- `sorted(samples)`
unfoldable pub sorted : List ℕ → List ℕ
unfolding insert_sorted
sorted [] = []
sorted (x ∷ xs) = insert_sorted x (sorted xs)

-- `ordered[index]`, where `none` is an `IndexError`.
unfoldable pub get_elem? : List ℕ → ℕ → Option ℕ
get_elem? [] n = none
get_elem? (x ∷ xs) zero = some x
get_elem? (x ∷ xs) (suc n) = get_elem? xs n

abbrev pub is_empty : List ℕ → Bool
is_empty [] = true
is_empty (x ∷ xs) = false

abbrev pub found : Option ℕ → Result ℕ
found none = err runtime_error
found (some x) = ok x

-- The subtraction stops at 0, as `max(0, ... - 1)` does.
unfoldable pub percentile_ns : (ℕ → ℕ → ℕ) → List ℕ → ℕ → Result ℕ
unfolding sorted get_elem?
percentile_ns rank samples percentile =
    if is_empty samples
    then err value_error
    else if not (ltb 0 percentile && leb percentile 100)
    then err value_error
    else found (get_elem? (sorted samples) (rank percentile (length samples) - 1))

-- How many numbers pass a test.
abbrev pub count_if : (ℕ → Bool) → List ℕ → ℕ
count_if p [] = 0
count_if p (x ∷ xs) = let rest = count_if p xs in if p x then suc rest else rest

abbrev IsSorted : List ℕ → Type 0
IsSorted [] = Unit
IsSorted (x ∷ xs) = All (λ y. x ≤ y) xs × IsSorted xs

insert_sorted-All :
    (P : ℕ → Type 0) (x : ℕ) (ys : List ℕ) → P x → All P ys → All P (insert_sorted x ys)
unfolding insert_sorted
insert_sorted-All P x [] h k = (h, tt)
insert_sorted-All P x (y ∷ ys) h k = elim (Bool-cases (leb x y)) [
  | inl le ↦ rw le (h, k)
  | inr gt ↦ rw gt (k.0, insert_sorted-All P x ys h k.1)
]

insert_sorted-IsSorted : (x : ℕ) (ys : List ℕ) → IsSorted ys → IsSorted (insert_sorted x ys)
unfolding insert_sorted
insert_sorted-IsSorted x [] h = (tt, tt)
insert_sorted-IsSorted x (y ∷ ys) h = elim (Bool-cases (leb x y)) [
  | inl le ↦ rw le (
    (
      (leb→le x y le),
      All-map (λ z. y ≤ z) (λ z. x ≤ z) ys (λ z k. omega (arith, k, leb→le x y le)) h.0,
    ),
    h,
  )
  | inr gt ↦ rw gt (
    insert_sorted-All (λ z. y ≤ z) x ys (ground (arith, gt)) h.0,
    insert_sorted-IsSorted x ys h.1,
  )
]

sorted-IsSorted : (xs : List ℕ) → IsSorted (sorted xs)
unfolding sorted
sorted-IsSorted [] = tt
sorted-IsSorted (x ∷ xs) = insert_sorted-IsSorted x (sorted xs) (sorted-IsSorted xs)

count_if-insert_sorted :
    (p : ℕ → Bool) (x : ℕ) (ys : List ℕ) → count_if p (insert_sorted x ys) ≡ count_if p (x ∷ ys)
unfolding insert_sorted
count_if-insert_sorted p x [] = refl
count_if-insert_sorted p x (y ∷ ys) = elim (Bool-cases (leb x y)) [
  | inl le ↦ rw le refl
  | inr gt ↦ rw gt (ground (arith, count_if-insert_sorted p x ys))
]

count_if-sorted : (p : ℕ → Bool) (xs : List ℕ) → count_if p (sorted xs) ≡ count_if p xs
unfolding sorted
count_if-sorted p [] = refl
count_if-sorted p (x ∷ xs) =
    count_if-insert_sorted p x (sorted xs) ∙ ground (arith, count_if-sorted p xs)

count_if-All : (p : ℕ → Bool) (xs : List ℕ) → All (λ x. p x ≡ true) xs → count_if p xs ≡ length xs
count_if-All p [] h = refl
count_if-All p (x ∷ xs) h = ground (arith, h.0, count_if-All p xs h.1)

length-sorted : (xs : List ℕ) → length (sorted xs) ≡ length xs
length-sorted xs =
    sym (count_if-All (λ x. true) (sorted xs) (always (sorted xs)))
    ∙ count_if-sorted (λ x. true) xs
    ∙ count_if-All (λ x. true) xs (always xs)
  where
    always : (ys : List ℕ) → All (λ y. true ≡ true) ys
    always [] = tt
    always (y ∷ ys) = (refl, always ys)

-- Where a number stands in a list: as many before it, and those that it bounds.
abbrev Stands : List ℕ → ℕ → ℕ → Type 0
Stands xs n v =
    (get_elem? xs n ≡ some v)
    × In v xs
    × (n + 1 ≤ count_if (λ x. leb x v) xs)
    × (length xs ≤ n + count_if (λ x. leb v x) xs)

IsSorted-Stands : (xs : List ℕ) (n : ℕ) → IsSorted xs → n < length xs → (v : ℕ) × Stands xs n v
unfolding get_elem?
IsSorted-Stands [] n h lt = absurd (omega (arith, lt))
IsSorted-Stands (x ∷ xs) zero h lt = (
  x,
  (
    refl,
    inl refl,
    ground arith,
    omega (
      arith,
      count_if-All (λ y. leb x y) (x ∷ xs)
          (
            ground arith,
            All-map (λ y. x ≤ y) (λ y. leb x y ≡ true) xs (λ y k. ground (arith, k)) h.0,
          ),
    ),
  ),
)
IsSorted-Stands (x ∷ xs) (suc n) h lt =
    let (v, (at, m, low, high)) = IsSorted-Stands xs n h.1 (omega (arith, lt)) in
    let le : x ≤ v = All-at (λ y. x ≤ y) v xs h.0 m in
    (v, (at, inr m, ground (arith, le, low), ground (arith, high)))

sorted-All : (P : ℕ → Type 0) (xs : List ℕ) → All P xs → All P (sorted xs)
unfolding sorted
sorted-All P [] h = tt
sorted-All P (x ∷ xs) h = insert_sorted-All P x (sorted xs) h.0 (sorted-All P xs h.1)

percentile_ns-found :
    (rank : ℕ → ℕ → ℕ) (samples : List ℕ) (percentile v : ℕ)
    → 0 < length samples
    → 0 < percentile
    → percentile ≤ 100
    → get_elem? (sorted samples) (rank percentile (length samples) - 1) ≡ some v
    → percentile_ns rank samples percentile ≡ ok v
unfolding percentile_ns
percentile_ns-found rank [] percentile v some_left lo hi h = absurd (omega (arith, some_left))
percentile_ns-found rank (x ∷ xs) percentile v some_left lo hi h =
    let in_range : (ltb 0 percentile && leb percentile 100) ≡ true = ground (arith, lo, hi) in
    ap
      (λ (b : Bool).
        let r : Result ℕ =
          if not b
          then err value_error
          else found (get_elem? (sorted (x ∷ xs)) (rank percentile (length (x ∷ xs)) - 1)) in
        r)
      in_range
    ∙ ap found h

-- On samples that are not empty, for a percentile from 1 to 100, where the rank is at most their number:
-- the result is one of the samples. At least as many samples as the rank says, and at least one, are at
-- most the result; and at least as many as remain from this place on are at least the result.
pub percentile_ns-bounds :
    (rank : ℕ → ℕ → ℕ) (samples : List ℕ) (percentile : ℕ)
    → 0 < length samples
    → 0 < percentile
    → percentile ≤ 100
    → rank percentile (length samples) ≤ length samples
    → (v : ℕ) × (percentile_ns rank samples percentile ≡ ok v)
      × In v samples
      × (1 ≤ count_if (λ x. leb x v) samples)
      × (rank percentile (length samples) ≤ count_if (λ x. leb x v) samples)
      × (length samples ≤ (rank percentile (length samples) - 1) + count_if (λ x. leb v x) samples)
percentile_ns-bounds rank samples percentile some_left lo hi fits =
    let n = rank percentile (length samples) - 1 in
    let (v, (at, m, low, high)) =
      IsSorted-Stands (sorted samples) n (sorted-IsSorted samples)
        (omega (arith, fits, some_left, length-sorted samples)) in
    let below = count_if-sorted (λ x. leb x v) samples in
    let above = count_if-sorted (λ x. leb v x) samples in
    (
      v,
      percentile_ns-found rank samples percentile v some_left lo hi at,
      All-at (λ y. In y samples) v (sorted samples)
          (sorted-All (λ y. In y samples) samples (All-In samples)) m,
      omega (arith, low, below),
      omega (arith, low, below),
      omega (arith, high, above, length-sorted samples),
    )
