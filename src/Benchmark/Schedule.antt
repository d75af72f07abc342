-- ===== src/Benchmark/Schedule.antt =====
-- `build_trial_schedule` of src/bidding/benchmark/cli.py. `shuffle` of a `random.Random` is an argument;
-- it moves the elements of a list about.
use transaction_safe_bidding.Prelude.{
  ℕ, zero, suc, ◌+◌, ◌*◌, ◌≤◌, ◌<◌, ◌≡◌, refl, sym, ap, ◌∙◌, subst, ◌⊎◌, inl, inr, Bool, true,
  false, List, [], ◌∷◌, ◌++◌, arith, ◌==◌, if◌then◌else◌, ==_iff, Bool-cases, length, length-append,
  Text,
}
use mathlib.Core.Logic.{◌↔◌}
use mathlib.Core.List.{Permᴰ}
use mathlib.Core.List.Permᴰ
use mathlib.Core.List.Permᴰ.{nil, cons, swap, trans}
use transaction_safe_bidding.Prelude.All.{In, In-append_left, In-append_right}

-- `[y for x in xs for y in f(x)]`
unfoldable pub for_each {ℓ κ} : {A : Type ℓ} {B : Type κ} → List A → (A → List B) → List B
for_each [] f = []
for_each (x ∷ xs) f = f x ++ for_each xs f

-- The `count` numbers from `first` on.
unfoldable pub range_from : ℕ → ℕ → List ℕ
range_from first zero = []
range_from first (suc count) = first ∷ range_from (first + 1) count

-- A strategy, a workload, a concurrency and a repetition.
pub record Trial : Type 0 where
  pub strategy : Text
  pub workload : Text
  pub concurrency : ℕ
  pub repetition : ℕ

unfoldable pub fixed_schedule : List Text → List Text → List ℕ → ℕ → List Trial
unfolding for_each range_from
fixed_schedule strategies workloads concurrency_levels repetitions = for_each strategies λ strategy.
    for_each concurrency_levels λ concurrency. for_each workloads λ workload.
      for_each (range_from 1 repetitions) λ repetition.
        record {
          strategy = strategy;
          workload = workload;
          concurrency = concurrency;
          repetition = repetition;
        }
        ∷ []

unfoldable pub build_trial_schedule :
    (ℕ → List Trial → List Trial) → List Text → List Text → List ℕ → ℕ → ℕ → Bool → List Trial
unfolding fixed_schedule
build_trial_schedule shuffle strategies workloads concurrency_levels repetitions random_seed
      randomized =
    let schedule = fixed_schedule strategies workloads concurrency_levels repetitions in
    if randomized then shuffle random_seed schedule else schedule

In-append : {A : Type 0} (a : A) (xs ys : List A) → In a (xs ++ ys) → In a xs ⊎ In a ys
In-append a [] ys h = inr h
In-append a (x ∷ xs) ys (inl e) = inl (inl e)
In-append a (x ∷ xs) ys (inr h) = elim (In-append a xs ys h) [ inl k ↦ inl (inr k) | inr k ↦ inr k ]

-- Something comes of an element of the list.
abbrev Comes : {A B : Type 0} → B → List A → (A → List B) → Type 0
Comes {A} b xs f = (a : A) × In a xs × In b (f a)

for_each-In :
    {A B : Type 0} (b : B) (xs : List A) (f : A → List B) → In b (for_each xs f) → Comes b xs f
unfolding for_each
for_each-In b [] f h = absurd h
for_each-In b (x ∷ xs) f h = elim (In-append b (f x) (for_each xs f) h) [
  | inl k ↦ (x, inl refl, k)
  | inr k ↦ let (a, m, n) = for_each-In b xs f k in (a, inr m, n)
]

In-for_each :
    {A B : Type 0} (b : B) (a : A) (xs : List A) (f : A → List B)
    → In a xs
    → In b (f a)
    → In b (for_each xs f)
unfolding for_each
In-for_each b a [] f m h = absurd m
In-for_each b a (x ∷ xs) f (inl e) h =
    In-append_left b (f x) (for_each xs f) (subst (λ y. In b (f y)) e h)
In-for_each b a (x ∷ xs) f (inr m) h =
    In-append_right b (f x) (for_each xs f) (In-for_each b a xs f m h)

length-for_each :
    {A B : Type 0} (xs : List A) (f : A → List B) (n : ℕ)
    → ((a : A) → length (f a) ≡ n)
    → length (for_each xs f) ≡ length xs * n
unfolding for_each
length-for_each [] f n h = omega arith
length-for_each (x ∷ xs) f n h =
    length-append (f x) (for_each xs f)
    ∙ ap (λ (k : ℕ). k + length (for_each xs f)) (h x)
    ∙ ap (λ (k : ℕ). n + k) (length-for_each xs f n h)
    ∙ grind arith

range_from-In :
    (first count r : ℕ) → In r (range_from first count) → (first ≤ r) × (r < first + count)
unfolding range_from
range_from-In first zero r h = absurd h
range_from-In first (suc count) r (inl e) = (omega (arith, e), omega (arith, e))
range_from-In first (suc count) r (inr h) =
    let k = range_from-In (first + 1) count r h in (omega (arith, k), omega (arith, k))

In-range_from : (first count r : ℕ) → first ≤ r → r < first + count → In r (range_from first count)
unfolding range_from
In-range_from first zero r lo hi = absurd (omega (arith, lo, hi))
In-range_from first (suc count) r lo hi = elim (Bool-cases (r == first)) [
  | inl same ↦ inl ((==_iff r first).0 same)
  | inr other ↦ inr (In-range_from (first + 1) count r (ground (arith, other)) (omega (arith, hi)))
]

length-range_from : (first count : ℕ) → length (range_from first count) ≡ count
unfolding range_from
length-range_from first zero = refl
length-range_from first (suc count) = ap suc (length-range_from (first + 1) count)

Perm-In : {A : Type 0} {xs ys : List A} (a : A) → Permᴰ xs ys → In a xs → In a ys
Perm-In a nil h = h
Perm-In a (cons e p) (inl k) = inl (k ∙ e)
Perm-In a (cons e p) (inr m) = inr (Perm-In a p m)
Perm-In a (swap e f) (inl k) = inr (inl (k ∙ e))
Perm-In a (swap e f) (inr (inl k)) = inl (k ∙ f)
Perm-In a (swap e f) (inr (inr m)) = inr (inr m)
Perm-In a (trans p q) m = Perm-In a q (Perm-In a p m)

Perm-length : {A : Type 0} {xs ys : List A} → Permᴰ xs ys → length xs ≡ length ys
Perm-length nil = refl
Perm-length (cons e p) = ap suc (Perm-length p)
Perm-length (swap e f) = refl
Perm-length (trans p q) = Perm-length p ∙ Perm-length q

only : {A : Type 0} (a x : A) → In a (x ∷ []) → a ≡ x
only a x (inl e) = e
only a x (inr h) = absurd h

-- The trial is one of those that were asked for.
abbrev pub Planned : List Text → List Text → List ℕ → ℕ → Trial → Type 0
Planned strategies workloads levels repetitions t =
    In t.strategy strategies
    × In t.concurrency levels
    × In t.workload workloads
    × (1 ≤ t.repetition)
    × (t.repetition ≤ repetitions)

module _ (strategies workloads : List Text) (levels : List ℕ) (repetitions : ℕ) where
  fixed_schedule-Planned :
      (t : Trial)
      → In t (fixed_schedule strategies workloads levels repetitions)
      → Planned strategies workloads levels repetitions t
  unfolding fixed_schedule
  fixed_schedule-Planned t h =
      let (s, ms, h1) = for_each-In t strategies _ h in
      let (c, mc, h2) = for_each-In t levels _ h1 in
      let (w, mw, h3) = for_each-In t workloads _ h2 in
      let (r, mr, h4) = for_each-In t (range_from 1 repetitions) _ h3 in
      let n = range_from-In 1 repetitions r mr in
      subst (Planned strategies workloads levels repetitions) (sym (only t _ h4))
        (ms, mc, mw, n.0, omega (arith, n))

  Planned-fixed_schedule :
      (t : Trial)
      → Planned strategies workloads levels repetitions t
      → In t (fixed_schedule strategies workloads levels repetitions)
  unfolding fixed_schedule
  Planned-fixed_schedule t (ms, mc, mw, lo, hi) = In-for_each t t.strategy strategies _ ms (
      In-for_each t t.concurrency levels _ mc (
        In-for_each t t.workload workloads _ mw (
          In-for_each t t.repetition (range_from 1 repetitions) _
            (In-range_from 1 repetitions t.repetition lo (omega (arith, hi))) (inl refl))))

  length-fixed_schedule :
      length (fixed_schedule strategies workloads levels repetitions)
      ≡ length strategies * (length levels * (length workloads * repetitions))
  unfolding fixed_schedule
  length-fixed_schedule = length-for_each strategies _ _ λ s. length-for_each levels _ _ λ c.
      length-for_each workloads _ _ λ w.
        length-for_each (range_from 1 repetitions) _ 1 (λ r. refl)
        ∙ omega (arith, length-range_from 1 repetitions)

-- Whatever the order, the schedule has exactly the trials with one of the strategies, one of the
-- workloads, one of the concurrency levels, and a repetition from 1 to the last, and as many entries as
-- there are such combinations, provided that `shuffle` permutes the list.
pub build_trial_schedule-Planned :
    (shuffle : ℕ → List Trial → List Trial) (strategies workloads : List Text) (levels : List ℕ)
    (repetitions seed : ℕ) (randomized : Bool) (t : Trial)
    → ((n : ℕ) (ts : List Trial) → Permᴰ ts (shuffle n ts))
    → (In t (build_trial_schedule shuffle strategies workloads levels repetitions seed randomized)
        ↔ Planned strategies workloads levels repetitions t)
      × (length
            (build_trial_schedule shuffle strategies workloads levels repetitions seed randomized)
          ≡ length strategies * (length levels * (length workloads * repetitions)))
unfolding build_trial_schedule
build_trial_schedule-Planned shuffle strategies workloads levels repetitions seed true t permutes =
    let moved = permutes seed (fixed_schedule strategies workloads levels repetitions) in
    (
      (
        (λ h.
            fixed_schedule-Planned strategies workloads levels repetitions t
              (Perm-In t (Permᴰ.symm moved) h)),
        (λ h. Perm-In t moved (Planned-fixed_schedule strategies workloads levels repetitions t h)),
      ),
      sym (Perm-length moved) ∙ length-fixed_schedule strategies workloads levels repetitions,
    )
build_trial_schedule-Planned shuffle strategies workloads levels repetitions seed false t permutes =
    (
      (
        fixed_schedule-Planned strategies workloads levels repetitions t,
        Planned-fixed_schedule strategies workloads levels repetitions t,
      ),
      length-fixed_schedule strategies workloads levels repetitions,
    )
