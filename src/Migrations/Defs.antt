-- ===== src/Migrations/Defs.antt =====
-- `migrate` of src/bidding/db/migrations.py. The migration files are given as a list in the order of
-- `discover_migrations`; what PostgreSQL makes of the SQL of one is a parameter, on a schema of any
-- type. The advisory lock keeps other runners out, so that a run is one step.
use transaction_safe_bidding.Prelude.{
  ℕ, Bool, true, not, ◌&&◌, Option, none, some, List, [], ◌∷◌, ◌++◌, ◌==◌, if◌then◌else◌,
  find_first, Text, text_eq,
}
use transaction_safe_bidding.Domain.Models.{is_some}
use transaction_safe_bidding.Domain.Errors.{
  value_error, runtime_error, Result, ok, err, unique_violation, ◌>>=◌, ◌>>◌, raise_if,
}

-- `Migration`; its SQL is what the parameter `execute` gets.
pub record Migration : Type 0 where
  pub version : ℕ
  pub name : Text
  pub sql : Text
  pub checksum : Text

-- A row of `schema_migrations`.
pub record Applied : Type 0 where
  pub version : ℕ
  pub name : Text
  pub checksum : Text

-- The schema, and the table `schema_migrations`.
pub record State (A : Type 0) : Type 0 where
  pub schema : A
  pub applied : List Applied

abbrev pub record_of : Migration → Applied
record_of m = record { version = m.version; name = m.name; checksum = m.checksum }

-- `existing.get(version)`
unfoldable pub previous : ℕ → List Applied → Option Applied
previous version rows = find_first (λ (a : Applied). a.version == version) rows

-- `previous == (migration.name, migration.checksum)`
unfoldable pub same_migration : Applied → Migration → Bool
same_migration a m = text_eq a.name m.name && text_eq a.checksum m.checksum

-- `len(versions) == len(set(versions))`
unfoldable pub unique_versions : List Migration → Bool
unique_versions [] = true
unique_versions (m ∷ ms) =
    not (is_some (find_first (λ (n : Migration). n.version == m.version) ms)) && unique_versions ms

-- The end of `discover_migrations`.
unfoldable pub discover_migrations : List Migration → Result (List Migration)
unfolding unique_versions
discover_migrations files = do raise_if (not (unique_versions files)) value_error; ok files

module _ {A : Type 0} (execute : Text → A → Result A) where
  -- The migration runs, and its row is inserted; a second row of a version breaks the primary key.
  unfoldable pub apply_migration : Migration → State A → Result (State A)
  unfolding previous
  apply_migration m s = do
    schema ← execute m.sql s.schema
    raise_if (is_some (previous m.version s.applied)) unique_violation
    ok (record { schema = schema; applied = s.applied ++ record_of m ∷ [] })

  -- A turn of the loop, and the turns after it.
  unfoldable pub turn :
      Migration
      → State A
      → Option Applied
      → (State A → Result (State A × List ℕ))
      → Result (State A × List ℕ)
  unfolding same_migration apply_migration
  turn m s (some a) rest = if same_migration a m then rest s else err runtime_error
  turn m s none rest = do s' ← apply_migration m s; r ← rest s'; ok (r.0, m.version ∷ r.1)

  -- The loop, with what the table held when it began.
  unfoldable pub apply_all : List Applied → List Migration → State A → Result (State A × List ℕ)
  unfolding previous turn
  apply_all existing [] s = ok (s, [])
  apply_all existing (m ∷ ms) s =
      turn m s (previous m.version existing) (λ t. apply_all existing ms t)

  -- The end of the transaction: an error leaves the state as it was.
  unfoldable pub end_transaction : State A → Result (State A × List ℕ) → Result (List ℕ) × State A
  end_transaction s (ok r) = (ok r.1, r.0)
  end_transaction s (err e) = (err e, s)

  unfoldable pub migrate : List Migration → State A → Result (List ℕ) × State A
  unfolding discover_migrations apply_all end_transaction
  migrate files s = end_transaction s (discover_migrations files >>= λ ms. apply_all s.applied ms s)
