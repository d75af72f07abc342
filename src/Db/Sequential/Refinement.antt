-- ===== src/Db/Sequential/Refinement.antt =====
-- The strategies, alone, do what the specification says, and all the same.
use transaction_safe_bidding.Prelude.{ℕ, ◌<◌, ◌≡◌, ap, ◌∙◌}
use transaction_safe_bidding.Domain.Models.{BidCommand}
use transaction_safe_bidding.Db.Tables.{Database}
use transaction_safe_bidding.Db.Statements.{Env, idle}
use transaction_safe_bidding.Db.Program.{run}
use transaction_safe_bidding.Db.Strategies.{BidStrategy, unsafe, pessimistic, optimistic, place_bid}
use transaction_safe_bidding.Db.Sequential.Exec.{exec, run-exec}
use transaction_safe_bidding.Db.Sequential.Spec.{place, IsReady}
use transaction_safe_bidding.Db.Sequential.Ends.{view}
use transaction_safe_bidding.Db.Sequential.Unsafe.{unsafe-place}
use transaction_safe_bidding.Db.Sequential.Pessimistic.{pessimistic-place}
use transaction_safe_bidding.Db.Sequential.Optimistic.{optimistic-place}

-- The strategies that `optimistic_strategy` and the classes let through.
abbrev pub IsUsable : BidStrategy → Type 0
IsUsable unsafe = Unit
IsUsable pessimistic = Unit
IsUsable (optimistic max_attempts) = 0 < max_attempts

exec-place :
    (env : Env) (db : Database) (command : BidCommand) (strategy : BidStrategy)
    → IsUsable strategy
    → IsReady env db command
    → view (exec env db idle (place_bid strategy command)) ≡ place env db command
unfolding place_bid
exec-place env db command unsafe usable ready = unsafe-place env db command ready
exec-place env db command pessimistic usable ready = pessimistic-place env db command ready
exec-place env db command (optimistic max_attempts) usable ready =
    optimistic-place env db command max_attempts ready usable

-- A request that runs to its end without interference, at one instant, on tables and with a command
-- that are ready for it, refines the specification, whatever the strategy, with at least one attempt:
-- it has the outcome and leaves the tables that `place` says.
pub run-place :
    (env : Env) (db : Database) (command : BidCommand) (strategy : BidStrategy) (n : ℕ)
    → IsUsable strategy
    → IsReady env db command
    → view (run (λ _. env) n db idle (place_bid strategy command)) ≡ place env db command
run-place env db command strategy n usable ready =
    ap view (run-exec env n db idle (place_bid strategy command))
    ∙ exec-place env db command strategy usable ready
