-- ===== src/Db/Sequential/Exec.antt =====
-- Runs without interference, with one reading of the clock and one new identifier: how they follow the
-- structure of a program.
use transaction_safe_bidding.Prelude.{ℕ, ◌+◌, ◌≡◌, refl, ap, Bool, true, false, ◌++◌, if◌then◌else◌}
use transaction_safe_bidding.Domain.Errors.{Exn, foreign_key_violation, Result, ok, err}
use transaction_safe_bidding.Db.Tables.{Database}
use transaction_safe_bidding.Db.Statements.{Txn, ended, Env, commits, written, commit}
use transaction_safe_bidding.Db.Perform.{perform}
use transaction_safe_bidding.Db.Program.{
  Prog, ret, raise, call, ◌>>=◌, lift, query, attempt, after_commit, finish, transaction, run,
}

-- What a run leaves: the result, the connection and the tables.
abbrev pub State : Type 0 → Type 0
State A = Result A × Txn × Database

module _ (env : Env) where
  abbrev pub exec : {A : Type 0} → Database → Txn → Prog A → State A
  exec db t (ret a) = (ok a, t, db)
  exec db t (raise e) = (err e, t, db)
  exec db t (call s k) = let (reply, t', db') = perform env db t s in exec db' t' (k reply)

  pub run-exec :
      {A : Type 0} (n : ℕ) (db : Database) (t : Txn) (m : Prog A)
      → run (λ _. env) n db t m ≡ exec db t m
  unfolding run
  run-exec n db t (ret a) = refl
  run-exec n db t (raise e) = refl
  run-exec n db t (call s k) =
      let (reply, t', db') = perform env db t s in run-exec (n + 1) db' t' (k reply)

  -- What follows a value; an error is passed on.
  abbrev pub go_on : {A B : Type 0} → (A → Prog B) → State A → State B
  go_on f (ok a, t, db) = exec db t (f a)
  go_on f (err e, t, db) = (err e, t, db)

  pub exec-bind :
      {A B : Type 0} (db : Database) (t : Txn) (m : Prog A) (f : A → Prog B)
      → exec db t (m >>= f) ≡ go_on f (exec db t m)
  unfolding ◌>>=◌
  exec-bind db t (ret a) f = refl
  exec-bind db t (raise e) f = refl
  exec-bind db t (call s k) f =
      let (reply, t', db') = perform env db t s in exec-bind db' t' (k reply) f

  -- What follows an error; a value is passed on.
  abbrev pub handle : {A : Type 0} → (Exn → Prog A) → State A → State A
  handle h (ok a, t, db) = (ok a, t, db)
  handle h (err e, t, db) = exec db t (h e)

  pub exec-attempt :
      {A : Type 0} (db : Database) (t : Txn) (m : Prog A) (h : Exn → Prog A)
      → exec db t (attempt m h) ≡ handle h (exec db t m)
  unfolding attempt
  exec-attempt db t (ret a) h = refl
  exec-attempt db t (raise e) h = refl
  exec-attempt db t (call s k) h =
      let (reply, t', db') = perform env db t s in exec-attempt db' t' (k reply) h

  -- The end of a transaction.
  abbrev pub committed : {A : Type 0} → A → Txn → Database → Bool → State A
  committed a t db true = (ok a, record (ended t) { saved = t.saved ++ t.bids }, written db t)
  committed a t db false = (err foreign_key_violation, ended t, db)

  abbrev pub close : {A : Type 0} → State A → State A
  close (ok a, t, db) = committed a t db (commits db t)
  close (err e, t, db) = (err e, ended t, db)

  exec-commit :
      {A : Type 0} (a : A) (t : Txn) (db : Database) (b : Bool)
      → commits db t ≡ b
      → exec db t (call commit (after_commit a)) ≡ committed a t db b
  unfolding perform after_commit
  exec-commit a t db true h =
      ap
        (λ (c : Bool).
          let p : Result (Unit {0}) × Txn × Database =
            if c
            then (ok tt, record (ended t) { saved = t.saved ++ t.bids }, written db t)
            else (err foreign_key_violation, ended t, db) in
          exec p.2 p.1 (after_commit a p.0))
        h
  exec-commit a t db false h =
      ap
        (λ (c : Bool).
          let p : Result (Unit {0}) × Txn × Database =
            if c
            then (ok tt, record (ended t) { saved = t.saved ++ t.bids }, written db t)
            else (err foreign_key_violation, ended t, db) in
          exec p.2 p.1 (after_commit a p.0))
        h

  exec-finish :
      {A : Type 0} (db : Database) (t : Txn) (m : Prog A)
      → exec db t (finish m) ≡ close (exec db t m)
  unfolding finish
  exec-finish db t (ret a) = exec-commit a t db (commits db t) refl
  exec-finish db t (raise e) = unfold perform in refl
  exec-finish db t (call s k) =
      let (reply, t', db') = perform env db t s in exec-finish db' t' (k reply)

  pub exec-transaction :
      {A : Type 0} (db : Database) (t : Txn) (m : Prog A)
      → exec db t (transaction m) ≡ close (exec db (ended t) m)
  unfolding transaction query lift ◌>>=◌ perform
  exec-transaction db t m = exec-finish db (ended t) m

  pub exec-lift :
      {A : Type 0} (db : Database) (t : Txn) (r : Result A) → exec db t (lift r) ≡ (r, t, db)
  unfolding lift
  exec-lift db t (ok a) = refl
  exec-lift db t (err e) = refl
