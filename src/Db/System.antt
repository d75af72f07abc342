-- ===== src/Db/System.antt =====
-- Connections at work on one database: each runs its program, a statement at a time, in any order. A
-- statement waits while a row that it locks is locked by another connection, or a key that it inserts
-- is in an open transaction of another; it may fail at any time, as by a timeout.
use transaction_safe_bidding.Prelude.{ℕ, ◌+◌, ◌≤◌, ◌≡◌, false, ◌==◌, if◌then◌else◌}
use transaction_safe_bidding.Domain.Errors.{Exn, Result, err}
use transaction_safe_bidding.Domain.Outcome.{BidOutcome}
use transaction_safe_bidding.Db.Tables.{Database}
use transaction_safe_bidding.Db.Statements.{Stmt, Answer, Txn, ended, idle, Env}
use transaction_safe_bidding.Db.Perform.{perform, blocks}
use transaction_safe_bidding.Db.Program.{Prog, call}

-- `seen` is the clock at the end of the last statement.
pub record Session : Type 0 where
  pub prog : Prog BidOutcome
  pub txn : Txn
  pub seen : ℕ

pub record System : Type 0 where
  pub db : Database
  pub clock : ℕ
  pub sessions : ℕ → Session

abbrev pub with_session : (ℕ → Session) → ℕ → Session → ℕ → Session
with_session f i s j = if j == i then s else f j

abbrev pub after : System → ℕ → (s : Stmt) → (Result (Answer s) → Prog BidOutcome) → Env → System
after x i s k env =
    let (reply, t, db) = perform env x.db (x.sessions i).txn s in
    record {
      db = db;
      clock = x.clock;
      sessions = with_session x.sessions i (record { prog = k reply; txn = t; seen = x.clock });
    }

abbrev pub after_failure :
    System → ℕ → (s : Stmt) → (Result (Answer s) → Prog BidOutcome) → Exn → System
after_failure x i s k e = record x {
  sessions =
      with_session x.sessions i
        (record { prog = k (err e); txn = ended (x.sessions i).txn; seen = x.clock });
}

-- No other connection makes the statement wait.
abbrev pub Unblocked : System → ℕ → Stmt → Type 0
Unblocked x i s = (j : ℕ) → ¬ (j ≡ i) → blocks s (x.sessions j).txn ≡ false

pub data Step (x y : System) : Type 0 where
  runs :
      (i : ℕ) (s : Stmt) (k : Result (Answer s) → Prog BidOutcome) (env : Env)
      → (x.sessions i).prog ≡ call s k
      → Unblocked x i s
      → (x.sessions i).seen ≤ env.time
      → env.time ≤ x.clock
      → y ≡ after x i s k env
      → Step x y
  fails :
      (i : ℕ) (s : Stmt) (k : Result (Answer s) → Prog BidOutcome) (e : Exn)
      → (x.sessions i).prog ≡ call s k
      → y ≡ after_failure x i s k e
      → Step x y
  ticks : (n : ℕ) → y ≡ record x { clock = x.clock + n } → Step x y

pub data Reach (x : System) : System → Type 0 where
  start : Reach x x
  later : {y z : System} → Reach x y → Step y z → Reach x z

-- Every connection is about to run its program, and the clock stands at `now`.
abbrev pub opening : Database → ℕ → (ℕ → Prog BidOutcome) → System
opening db now progs = record {
  db = db;
  clock = now;
  sessions = λ i. record { prog = progs i; txn = idle; seen = now };
}
