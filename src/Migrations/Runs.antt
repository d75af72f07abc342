-- ===== src/Migrations/Runs.antt =====
-- What a run of the migrations leaves.
use transaction_safe_bidding.Prelude.{
  ℕ, ◌≡◌, refl, sym, ap, ◌∙◌, subst, inl, inr, true, false, Option, none, some, List, [], ◌∷◌, ◌++◌,
  arith, if◌then◌else◌, ==_iff, Bool-cases, Text, text_eq_refl,
}
use transaction_safe_bidding.Prelude.All.{All, All-at, In}
use transaction_safe_bidding.Domain.Errors.{
  bind-ok, unique_violation, runtime_error, raise_if, Exn, Result, ok, err, ◌>>=◌,
}
use transaction_safe_bidding.Domain.Models.{is_some}
use transaction_safe_bidding.Migrations.Defs.{
  Migration, Applied, State, record_of, previous, same_migration, turn, end_transaction,
  discover_migrations, apply_migration, apply_all, migrate,
}

-- The table has the row of the migration.
abbrev pub IsApplied : List Applied → Migration → Type 0
IsApplied rows m = (a : Applied) × (previous m.version rows ≡ some a) × (same_migration a m ≡ true)

-- Every row that is found in one table is found in the other.
abbrev pub Keeps : List Applied → List Applied → Type 0
Keeps rows rows' = (v : ℕ) (a : Applied) → previous v rows ≡ some a → previous v rows' ≡ some a

same_migration-record_of : (m : Migration) → same_migration (record_of m) m ≡ true
unfolding same_migration
same_migration-record_of m = rw (text_eq_refl m.name, text_eq_refl m.checksum) refl

previous-append :
    (v : ℕ) (rows : List Applied) (a b : Applied)
    → previous v rows ≡ some b
    → previous v (rows ++ a ∷ []) ≡ some b
unfolding previous
previous-append v [] a b h = cc
previous-append v (r ∷ rows) a b h = ground (arith, previous-append v rows a b)

previous-appended :
    (a : Applied) (rows : List Applied)
    → previous a.version rows ≡ none
    → previous a.version (rows ++ a ∷ []) ≡ some a
unfolding previous
previous-appended a [] h = rw ((==_iff a.version a.version).1 refl) refl
previous-appended a (r ∷ rows) h = ground (arith, previous-appended a rows)

module _ {A : Type 0} (execute : Text → A → Result A) where
  unique_row :
      (o : Option Applied) (s s' : State A)
      → (raise_if (is_some o) unique_violation >>= λ _. ok s) ≡ ok s'
      → (o ≡ none) × (s' ≡ s)
  unique_row none s s' h = (refl, cc)
  unique_row (some a) s s' h = absurd (cc)

  apply_migration-applied :
      (m : Migration) (s s' : State A)
      → apply_migration execute m s ≡ ok s'
      → (previous m.version s.applied ≡ none) × (s'.applied ≡ s.applied ++ record_of m ∷ [])
  unfolding apply_migration
  apply_migration-applied m s s' h =
      let (schema, _, g) = bind-ok (execute m.sql s.schema) _ s' h in
      let (absent, e) = unique_row (previous m.version s.applied) _ s' g in
      (absent, ap (λ (x : State A). x.applied) e)

  -- What holds once the loop has ended.
  abbrev Done : List Migration → State A → State A → Type 0
  Done ms s s' = All (IsApplied s'.applied) ms × Keeps s.applied s'.applied

  -- One turn of the loop, where the others keep to it.
  turn-Done :
      (existing : List Applied) (m : Migration) (ms : List Migration) (s : State A)
      (o : Option Applied) (r : State A × List ℕ)
      → previous m.version existing ≡ o
      → Keeps existing s.applied
      → ((t : State A) (r : State A × List ℕ)
          → Keeps existing t.applied
          → apply_all execute existing ms t ≡ ok r
          → Done ms t r.0)
      → turn execute m s o (apply_all execute existing ms) ≡ ok r
      → Done (m ∷ ms) s r.0
  unfolding turn
  turn-Done existing m ms s (some a) r found keeps ih h = elim (Bool-cases (same_migration a m)) [
    | inl alike ↦
        let d = ih s r keeps (
          rw
            (sym (ap (λ b. if b then apply_all execute existing ms s else err runtime_error) alike))
            h) in
        (((a, d.1 m.version a (keeps m.version a found), alike), d.0), d.1)
    | inr changed ↦ absurd (cc (h, changed))
  ]
  turn-Done existing m ms s none r found keeps ih h =
      let (s', ran, g) = bind-ok (apply_migration execute m s) _ r h in
      let (r', rest, e) = bind-ok (apply_all execute existing ms s') _ r g in
      let (absent, rows) = apply_migration-applied m s s' ran in
      let kept : Keeps s.applied s'.applied =
        λ v a p. rw rows (previous-append v s.applied (record_of m) a p) in
      let d = ih s' r' (λ v a p. kept v a (keeps v a p)) rest in
      let end : r'.0 ≡ r.0 = cc in
      let inserted : previous m.version s'.applied ≡ some (record_of m) =
        rw rows (previous-appended (record_of m) s.applied absent) in
      subst (Done (m ∷ ms) s) end (
        ((record_of m, d.1 m.version (record_of m) inserted, same_migration-record_of m), d.0),
        λ v a p. d.1 v a (kept v a p),
      )

  apply_all-Done :
      (existing : List Applied) (ms : List Migration) (s : State A) (r : State A × List ℕ)
      → Keeps existing s.applied
      → apply_all execute existing ms s ≡ ok r
      → Done ms s r.0
  unfolding apply_all
  apply_all-Done existing [] s r keeps h = let e : r.0 ≡ s = cc in (tt, λ v a p. rw e p)
  apply_all-Done existing (m ∷ ms) s r keeps h =
      turn-Done existing m ms s (previous m.version existing) r refl keeps
        (apply_all-Done existing ms) h

  -- Nothing is done where the table has every row.
  apply_all-applied :
      (rows : List Applied) (ms : List Migration) (s : State A)
      → All (IsApplied rows) ms
      → apply_all execute rows ms s ≡ ok (s, [])
  unfolding apply_all turn
  apply_all-applied rows [] s h = refl
  apply_all-applied rows (m ∷ ms) s ((a, found, alike), h) =
      rw (found, turn, alike) (apply_all-applied rows ms s h)

  finished :
      (s s' : State A) (x : Result (State A × List ℕ)) (versions : List ℕ)
      → end_transaction execute s x ≡ (ok versions, s')
      → (r : State A × List ℕ) × (x ≡ ok r) × (r.0 ≡ s')
  unfolding end_transaction
  finished s s' (ok r) versions h = (r, refl, cc)
  finished s s' (err e) versions h = absurd (cc)

  discovered : (files ms : List Migration) → discover_migrations files ≡ ok ms → ms ≡ files
  unfolding discover_migrations
  discovered files ms h = ground arith

  -- A run of the migrations that succeeds leaves every migration of the files recorded with its name
  -- and checksum, and a second run of the same files succeeds, applies none, and changes nothing.
  pub migrate_again :
      (files : List Migration) (s s' : State A) (versions : List ℕ)
      → migrate execute files s ≡ (ok versions, s')
      → All (IsApplied s'.applied) files × (migrate execute files s' ≡ (ok [], s'))
  unfolding migrate end_transaction
  migrate_again files s s' versions h =
      let (r, g, e) =
        finished s s' (discover_migrations files >>= λ ms. apply_all execute s.applied ms s)
          versions h in
      let (ms, found, ran) =
        bind-ok (discover_migrations files) (λ ms. apply_all execute s.applied ms s) r g in
      let known : All (IsApplied s'.applied) ms =
        subst (λ (t : State A). All (IsApplied t.applied) ms) e
          (apply_all-Done s.applied ms s r (λ v a p. p) ran).0 in
      (
        subst (All (IsApplied s'.applied)) (discovered files ms found) known,
        rw (found, apply_all-applied s'.applied ms s' known) refl,
      )

  -- The loop cannot end well with a row that differs.
  drifted :
      (ms : List Migration) (s : State A) (m : Migration) (a : Applied) (r : State A × List ℕ)
      → In m ms
      → previous m.version s.applied ≡ some a
      → same_migration a m ≡ false
      → ¬ (apply_all execute s.applied ms s ≡ ok r)
  drifted ms s m a r m_in found changed h =
      let done = apply_all-Done s.applied ms s r (λ v b p. p) h in
      let (b, kept, alike) = All-at (IsApplied r.0.applied) m ms done.0 m_in in
      let row : some b ≡ some a = sym kept ∙ done.1 m.version a found in cc (row, alike, changed)

  refused :
      (s : State A) (x : Result (State A × List ℕ))
      → ((r : State A × List ℕ) → ¬ (x ≡ ok r))
      → (e : Exn) × (end_transaction execute s x ≡ (err e, s))
  unfolding end_transaction
  refused s (ok r) h = absurd (h r refl)
  refused s (err e) h = (e, refl)

  -- If a migration of the files has the version of a recorded one, but another name or checksum, the
  -- run fails, and the schema and the records are as before.
  pub migrate_drift :
      (files : List Migration) (s : State A) (m : Migration) (a : Applied)
      → In m files
      → previous m.version s.applied ≡ some a
      → same_migration a m ≡ false
      → (e : Exn) × (migrate execute files s ≡ (err e, s))
  unfolding migrate
  migrate_drift files s m a m_in found changed =
      refused s (discover_migrations files >>= λ ms. apply_all execute s.applied ms s) (λ r h.
        let (ms, same_files, ran) =
          bind-ok (discover_migrations files) (λ ms. apply_all execute s.applied ms s) r h in
        drifted ms s m a r (subst (In m) (sym (discovered files ms same_files)) m_in) found changed
          ran)
