-- ===== src/Db/Program.antt =====
-- A program that talks to PostgreSQL: it ends with a value or an exception, or makes a statement and
-- goes on with the answer or the error. The constructs of Python that the strategies are written with.
use transaction_safe_bidding.Prelude.{ℕ, ◌+◌}
use transaction_safe_bidding.Domain.Errors.{Exn, Result, ok, err}
use transaction_safe_bidding.Db.Tables.{Database}
use transaction_safe_bidding.Db.Statements.{Stmt, connect, commit, rollback, Answer, Txn, Env}
use transaction_safe_bidding.Db.Perform.{perform}

pub data Prog (A : Type 0) : Type 0 where
  ret : A → Prog A
  raise : Exn → Prog A
  call : (s : Stmt) → (Result (Answer s) → Prog A) → Prog A

infixl 5 ◌>>=◌ ◌>>◌
unfoldable pub ◌>>=◌ : {A B : Type 0} → Prog A → (A → Prog B) → Prog B
ret a >>= f = f a
raise e >>= f = raise e
call s k >>= f = call s (λ r. k r >>= f)

abbrev pub ◌>>◌ : {B : Type 0} → Prog (Unit {0}) → Prog B → Prog B
m >> k = m >>= λ _. k

unfoldable pub lift : {A : Type 0} → Result A → Prog A
lift (ok a) = ret a
lift (err e) = raise e

unfoldable pub query : (s : Stmt) → Prog (Answer s)
unfolding lift
query s = call s lift

-- `try: m except ...: handler`
unfoldable pub attempt : {A : Type 0} → Prog A → (Exn → Prog A) → Prog A
attempt (ret a) handler = ret a
attempt (raise e) handler = handler e
attempt (call s k) handler = call s (λ r. attempt (k r) handler)

unfoldable pub after_commit : {A : Type 0} → A → Result (Unit {0}) → Prog A
after_commit a (ok _) = ret a
after_commit a (err e) = raise e

-- The end of the `with` block: COMMIT where the body returns, ROLLBACK where it raises.
unfoldable pub finish : {A : Type 0} → Prog A → Prog A
unfolding after_commit
finish (ret a) = call commit (after_commit a)
finish (raise e) = call rollback (λ _. raise e)
finish (call s k) = call s (λ r. finish (k r))

-- `with pool.connection() as connection:`, with `connection.transaction()` inside or without: psycopg
-- opens a transaction at the first statement in both cases.
unfoldable pub transaction : {A : Type 0} → Prog A → Prog A
unfolding ◌>>=◌ query finish
transaction body = query connect >>= λ _. finish body

-- A run with no other connection at work; `envs` are the choices of the environment, one for each
-- statement, and `start` its number.
unfoldable pub run :
    {A : Type 0} → (ℕ → Env) → ℕ → Database → Txn → Prog A → Result A × Txn × Database
unfolding perform
run envs start db t (ret a) = (ok a, t, db)
run envs start db t (raise e) = (err e, t, db)
run envs start db t (call s k) =
    let (reply, t', db') = perform (envs start) db t s in run envs (start + 1) db' t' (k reply)
