-- ===== src/Prelude/All.antt =====
-- Predicates on lists by recursion: every element, membership, and two lists with nothing in common.
use mathlib.Core.Path.{◌≡◌, refl, subst, sym}
use mathlib.Core.Logic.{◌⊎◌, inl, inr}
use mathlib.Core.List.{List, [], ◌∷◌, ◌++◌}

abbrev pub All {ℓ κ} : {A : Type ℓ} → (A → Type κ) → List A → Type κ
All P [] = Unit
All P (x ∷ xs) = P x × All P xs

pub All-append {ℓ κ} :
    {A : Type ℓ} (P : A → Type κ) (xs ys : List A) → All P xs → All P ys → All P (xs ++ ys)
All-append P [] ys hx hy = hy
All-append P (x ∷ xs) ys hx hy = (hx.0, All-append P xs ys hx.1 hy)

pub All-map {ℓ κ} :
    {A : Type ℓ} (P Q : A → Type κ) (xs : List A) → ((x : A) → P x → Q x) → All P xs → All Q xs
All-map P Q [] f h = tt
All-map P Q (x ∷ xs) f h = (f x h.0, All-map P Q xs f h.1)

pub All-zip {ℓ κ} :
    {A : Type ℓ} (P Q R : A → Type κ) (xs : List A)
    → ((x : A) → P x → Q x → R x)
    → All P xs
    → All Q xs
    → All R xs
All-zip P Q R [] f h k = tt
All-zip P Q R (x ∷ xs) f h k = (f x h.0 k.0, All-zip P Q R xs f h.1 k.1)

abbrev pub In : {A : Type 0} → A → List A → Type 0
In a [] = ⊥
In a (x ∷ xs) = (a ≡ x) ⊎ In a xs

module _ {A : Type 0} where
  pub In-append_left : (a : A) (xs ys : List A) → In a xs → In a (xs ++ ys)
  In-append_left a [] ys h = absurd h
  In-append_left a (x ∷ xs) ys (inl e) = inl e
  In-append_left a (x ∷ xs) ys (inr h) = inr (In-append_left a xs ys h)

  pub In-append_right : (a : A) (xs ys : List A) → In a ys → In a (xs ++ ys)
  In-append_right a [] ys h = h
  In-append_right a (x ∷ xs) ys h = inr (In-append_right a xs ys h)

pub All-In : {A : Type 0} (xs : List A) → All (λ x. In x xs) xs
All-In [] = tt
All-In (x ∷ xs) =
    (inl refl, All-map (λ y. In y xs) (λ y. In y (x ∷ xs)) xs (λ y m. inr m) (All-In xs))

pub All-In_right : {A : Type 0} (xs ys : List A) → All (λ y. In y (xs ++ ys)) ys
All-In_right xs ys =
    All-map (λ y. In y ys) (λ y. In y (xs ++ ys)) ys (λ y m. In-append_right y xs ys m) (All-In ys)

pub All-at {κ} : {A : Type 0} (P : A → Type κ) (a : A) (xs : List A) → All P xs → In a xs → P a
All-at P a [] h m = absurd m
All-at P a (x ∷ xs) h (inl e) = subst P (sym e) h.0
All-at P a (x ∷ xs) h (inr m) = All-at P a xs h.1 m

-- Every element of one list stands in the relation to every element of the other.
abbrev pub Across {ℓ} : {A : Type ℓ} → (A → A → Type 0) → List A → List A → Type 0
Across R xs ys = All (λ x. All (λ y. R x y) ys) xs

module _ {ℓ} {A : Type ℓ} (R : A → A → Type 0) where
  pub Across-nil : (xs : List A) → Across R xs []
  Across-nil [] = tt
  Across-nil (x ∷ xs) = (tt, Across-nil xs)

  pub Across-cons :
      (y : A) (xs ys : List A) → All (λ x. R x y) xs → Across R xs ys → Across R xs (y ∷ ys)
  Across-cons y [] ys h k = tt
  Across-cons y (x ∷ xs) ys h k = ((h.0, k.0), Across-cons y xs ys h.1 k.1)

  pub Across-append : (xs ys zs : List A) → Across R xs ys → Across R xs zs → Across R xs (ys ++ zs)
  Across-append [] ys zs h k = tt
  Across-append (x ∷ xs) ys zs h k =
      (All-append (R x) ys zs h.0 k.0, Across-append xs ys zs h.1 k.1)
