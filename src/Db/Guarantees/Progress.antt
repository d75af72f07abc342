-- ===== src/Db/Guarantees/Progress.antt =====
-- Requests are served: from a reachable state in which the others are at rest, a connection that has not
-- begun, with a usable strategy and tables that are ready, can go on to its end.
use transaction_safe_bidding.Prelude.{
  ℕ, zero, suc, ◌≤◌, ◌≡◌, refl, sym, ap, ◌∙◌, subst, inl, inr, arith, ◌==◌, Bool-cases,
}
use transaction_safe_bidding.Domain.Errors.{Result}
use transaction_safe_bidding.Domain.Models.{BidCommand}
use transaction_safe_bidding.Domain.Outcome.{BidOutcome}
use transaction_safe_bidding.Db.Tables.{Database}
use transaction_safe_bidding.Db.Statements.{Stmt, connect, Answer, Txn, Env, idle}
use transaction_safe_bidding.Db.Perform.{perform}
use transaction_safe_bidding.Db.Program.{Prog, call, run, ◌>>=◌, query, attempt, transaction}
use transaction_safe_bidding.Db.Strategies.{BidStrategy, unsafe, pessimistic, optimistic, place_bid}
use transaction_safe_bidding.Db.Strategies.Unsafe as Unsafe
use transaction_safe_bidding.Db.Strategies.Pessimistic as Pessimistic
use transaction_safe_bidding.Db.Strategies.Optimistic as Optimistic
use transaction_safe_bidding.Db.Safety.Outcomes.{Quiet}
use transaction_safe_bidding.Db.System.{
  Session, System, with_session, Step, runs, fails, ticks, Reach, start, later, opening,
}
use transaction_safe_bidding.Db.Solo.{done, alone, Reach-solo, blocks-Quiet}
use transaction_safe_bidding.Db.Sequential.Ends.{view}
use transaction_safe_bidding.Db.Sequential.Spec.{place, IsReady}
use transaction_safe_bidding.Db.Sequential.Refinement.{IsUsable, run-place}
use transaction_safe_bidding.Db.Guarantees.Histories.{clients}

-- No connection is ahead of the clock.
abbrev InTime : System → Type 0
InTime x = (j : ℕ) → (x.sessions j).seen ≤ x.clock

with_session-InTime :
    (sessions : ℕ → Session) (i j now : ℕ) (s : Session)
    → s.seen ≤ now
    → (sessions j).seen ≤ now
    → (with_session sessions i s j).seen ≤ now
with_session-InTime sessions i j now s h k = elim (Bool-cases (j == i)) [
  | inl own ↦ rw own h
  | inr other ↦ rw other k
]

Step-InTime : (x y : System) → Step x y → InTime x → InTime y
Step-InTime x y (runs i s k env is free lo hi e) h =
    subst InTime (sym e) (λ j. with_session-InTime x.sessions i j x.clock _ (omega arith) (h j))
Step-InTime x y (fails i s k er is e) h =
    subst InTime (sym e) (λ j. with_session-InTime x.sessions i j x.clock _ (omega arith) (h j))
Step-InTime x y (ticks n e) h = subst InTime (sym e) (λ j. omega (arith, h j))

Reach-InTime :
    (db : Database) (now : ℕ) (progs : ℕ → Prog BidOutcome) (x : System)
    → Reach (opening db now progs) x
    → InTime x
Reach-InTime db now progs x start j = omega arith
Reach-InTime db now progs x (later {y} r s) j = Step-InTime y x s (Reach-InTime db now progs y r) j

-- The first statement of a connection, and then the others without interference.
Reach-run :
    (x₀ x : System) (c : ℕ) (envs : ℕ → Env) (s : Stmt) (k : Result (Answer s) → Prog BidOutcome)
    → Reach x₀ x
    → ((j : ℕ) → Quiet (x.sessions j).txn)
    → (x.sessions c).seen ≤ x.clock
    → ((n : ℕ) → (envs n).time ≡ x.clock)
    → (x.sessions c).prog ≡ call s k
    → (let (r, t, db) = run envs 0 x.db (x.sessions c).txn (call s k) in
        Reach x₀ (alone c x.sessions x.clock db t (done r)))
unfolding run
Reach-run x₀ x c envs s k reach quiet seen times is =
    let (reply, t, db) = perform (envs 0) x.db (x.sessions c).txn s in
    Reach-solo c x.sessions x.clock quiet envs x₀ 1 db t (k reply) times (
      later reach (
        runs c s k (envs 0) is (λ j other. blocks-Quiet s (x.sessions j).txn (quiet j))
          (omega (arith, seen, times 0)) (omega (arith, times 0)) refl))

place_bid-call :
    (strategy : BidStrategy) (command : BidCommand)
    → IsUsable strategy
    → (k : Result (Answer connect) → Prog BidOutcome) × (place_bid strategy command
        ≡ call connect k)
unfolding place_bid Unsafe.place_bid Pessimistic.place_bid Optimistic.place_bid Optimistic.turns
    Optimistic.attempt_once attempt transaction query ◌>>=◌
place_bid-call unsafe command usable = (_, refl)
place_bid-call pessimistic command usable = (_, refl)
place_bid-call (optimistic zero) command usable = absurd (omega (arith, usable))
place_bid-call (optimistic (suc n)) command usable = (_, refl)

-- Whatever connections have done to reach a state: take a request there that has not begun, while no
-- connection holds a lock or has a pending write. If its strategy is usable, with at least one attempt
-- where it is the optimistic one, and if the tables of that state and the command are ready at the
-- present instant, with an identifier that is new, then the request can go on to its end at that
-- instant: it ends with the outcome, and leaves the tables, that the specification gives on the tables
-- of that state, and no other connection has moved.
pub request-served :
    (db : Database) (now : ℕ) (strategies : ℕ → BidStrategy) (commands : ℕ → BidCommand)
    (x : System) (c : ℕ) (env : Env)
    → Reach (opening db now (clients strategies commands)) x
    → (x.sessions c).prog ≡ place_bid (strategies c) (commands c)
    → (x.sessions c).txn ≡ idle
    → ((j : ℕ) → Quiet (x.sessions j).txn)
    → IsUsable (strategies c)
    → env.time ≡ x.clock
    → IsReady env x.db (commands c)
    → (t : Txn) × Reach (opening db now (clients strategies commands)) (
        alone c x.sessions x.clock
          (place env x.db (commands c)).1
          t
          (done (place env x.db (commands c)).0))
request-served db now strategies commands x c env reach begins at_rest quiet usable now_ ready =
    let x₀ = opening db now (clients strategies commands) in
    let (k, starts) = place_bid-call (strategies c) (commands c) usable in
    let seen = Reach-InTime db now (clients strategies commands) x reach c in
    let end_ = run (λ _. env) 0 x.db (x.sessions c).txn (call connect k) in
    let is : view end_ ≡ place env x.db (commands c) =
      ap (λ (m : Prog BidOutcome). view (run (λ _. env) 0 x.db (x.sessions c).txn m)) (sym starts)
      ∙ ap (λ (u : Txn). view (run (λ _. env) 0 x.db u (place_bid (strategies c) (commands c))))
          at_rest
      ∙ run-place env x.db (commands c) (strategies c) 0 usable ready in
    (
      end_.1,
      subst
          (λ (v : Result BidOutcome × Database).
            Reach x₀ (alone c x.sessions x.clock v.1 end_.1 (done v.0)))
          is (Reach-run x₀ x c (λ _. env) connect k reach quiet seen (λ n. now_) (begins ∙ starts)),
    )
