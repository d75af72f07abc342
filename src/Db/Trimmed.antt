-- ===== src/Db/Trimmed.antt =====
-- `btrim` of PostgreSQL leaves what `str.strip` of Python leaves.
use transaction_safe_bidding.Prelude.{
  ℕ, ◌≡◌, refl, ap, ◌∙◌, subst, inl, inr, true, false, not, [], ◌∷◌, ◌==◌, ==_iff, Bool-cases, Text,
  is_space, strip,
}
use mathlib.Core.List.{reverse, reverse-reverse}
use transaction_safe_bidding.Prelude.Strip.{IsClean, starts_clean, strip-IsClean}
use transaction_safe_bidding.Db.Tables.{ltrim, btrim}

space_32 : is_space 32 ≡ true
unfolding is_space
space_32 = refl

not_blank : (c : ℕ) → not (is_space c) ≡ true → (c == 32) ≡ false
not_blank c h = elim (Bool-cases (c == 32)) [
  | inl blank ↦
      let here : not (is_space 32) ≡ true =
        subst (λ d. not (is_space d) ≡ true) ((==_iff c 32).0 blank) h in
      absurd (cc (here, space_32))
  | inr other ↦ other
]

ltrim-clean : (s : Text) → starts_clean s ≡ true → ltrim s ≡ s
unfolding ltrim
ltrim-clean [] h = refl
ltrim-clean (c ∷ s) h = rw (not_blank c h) refl

btrim-clean : (s : Text) → IsClean s → btrim s ≡ s
unfolding btrim
btrim-clean s h =
    ap (λ t. reverse (ltrim (reverse t))) (ltrim-clean s h.start)
    ∙ ap reverse (ltrim-clean (reverse s) h.end)
    ∙ reverse-reverse s

pub btrim-strip : (s : Text) → btrim (strip s) ≡ strip s
btrim-strip s = btrim-clean (strip s) (strip-IsClean s)
