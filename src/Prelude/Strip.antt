-- ===== src/Prelude/Strip.antt =====
-- What `str.strip` leaves: text with no space at either end, which it keeps.
use Prim.Native.Nat.{◌≤◌}
use mathlib.Core.Path.{◌≡◌, refl, sym, ap, ◌∙◌, subst}
use mathlib.Core.Bool.{Bool, true, not}
use mathlib.Core.List.{[], ◌∷◌, ◌++◌, reverse, reverse-append, reverse-reverse}
use native.Mathlib.Omega.{arith}
use mathlib.Core.Logic.{inl, inr}
use transaction_safe_bidding.Prelude.Tests.{if◌then◌else◌, Bool-cases}
use transaction_safe_bidding.Prelude.Lists.{length, length-append}
use transaction_safe_bidding.Prelude.Str.{Text, is_space, lstrip, strip}

-- The text does not begin with a space.
abbrev pub starts_clean : Text → Bool
starts_clean [] = true
starts_clean (c ∷ s) = not (is_space c)

pub record IsClean (s : Text) : Type 0 where
  pub start : starts_clean s ≡ true
  pub end : starts_clean (reverse s) ≡ true

starts_clean-prefix : (a b : Text) → starts_clean (a ++ b) ≡ true → starts_clean a ≡ true
starts_clean-prefix [] b h = refl
starts_clean-prefix (c ∷ a) b h = h

starts_clean-lstrip : (s : Text) → starts_clean (lstrip s) ≡ true
unfolding lstrip
starts_clean-lstrip [] = refl
starts_clean-lstrip (c ∷ s) = ground (arith, starts_clean-lstrip s)

pub lstrip-clean : (s : Text) → starts_clean s ≡ true → lstrip s ≡ s
unfolding lstrip
lstrip-clean [] h = refl
lstrip-clean (c ∷ s) h = ground arith

dropped : Text → Text
dropped [] = []
dropped (c ∷ s) = if is_space c then c ∷ dropped s else []

dropped-lstrip : (s : Text) → dropped s ++ lstrip s ≡ s
unfolding dropped lstrip
dropped-lstrip [] = refl
dropped-lstrip (c ∷ s) = elim (Bool-cases (is_space c)) [
  | inl space ↦ rw space (ap (λ t. c ∷ t) (dropped-lstrip s))
  | inr other ↦ rw other refl
]

-- Stripping the right end takes a suffix off.
rstrip-suffix : (s : Text) → reverse (lstrip (reverse s)) ++ reverse (dropped (reverse s)) ≡ s
rstrip-suffix s =
    sym (reverse-append (dropped (reverse s)) (lstrip (reverse s)))
    ∙ ap reverse (dropped-lstrip (reverse s))
    ∙ reverse-reverse s

pub strip-IsClean : (s : Text) → IsClean (strip s)
unfolding strip
strip-IsClean s = record {
  start =
      starts_clean-prefix (reverse (lstrip (reverse (lstrip s))))
        (reverse (dropped (reverse (lstrip s))))
        (subst (λ t. starts_clean t ≡ true) (sym (rstrip-suffix (lstrip s)))
          (starts_clean-lstrip s));
  end =
      subst (λ t. starts_clean t ≡ true) (sym (reverse-reverse (lstrip (reverse (lstrip s)))))
        (starts_clean-lstrip (reverse (lstrip s)));
}

pub strip-clean : (s : Text) → IsClean s → strip s ≡ s
unfolding strip
strip-clean s h =
    ap (λ t. reverse (lstrip (reverse t))) (lstrip-clean s h.start)
    ∙ ap reverse (lstrip-clean (reverse s) h.end)
    ∙ reverse-reverse s

pub strip-strip : (s : Text) → strip (strip s) ≡ strip s
strip-strip s = strip-clean (strip s) (strip-IsClean s)

length-lstrip : (s : Text) → length (lstrip s) ≤ length s
length-lstrip s = omega (arith, length-append (dropped s) (lstrip s), ap length (dropped-lstrip s))

pub length-strip : (s : Text) → length (strip s) ≤ length s
unfolding strip
length-strip s =
    let r = lstrip s in
    omega (
      arith,
      length-append (reverse (lstrip (reverse r))) (reverse (dropped (reverse r))),
      ap length (rstrip-suffix r),
      length-lstrip s,
    )
