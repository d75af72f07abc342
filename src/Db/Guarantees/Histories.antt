-- ===== src/Db/Guarantees/Histories.antt =====
-- Concurrent bids by the safe strategies keep the history of every auction.
use transaction_safe_bidding.Prelude.{ℕ, ◌≡◌, refl, none, some, arith}
use transaction_safe_bidding.Domain.Errors.{Result}
use transaction_safe_bidding.Domain.Models.{Uuid, BidCommand}
use transaction_safe_bidding.Domain.Outcome.{BidOutcome}
use transaction_safe_bidding.Db.Tables.{AuctionRow, Database, lookup_auction}
use transaction_safe_bidding.Db.Statements.{Txn, idle}
use transaction_safe_bidding.Db.Program.{Prog}
use transaction_safe_bidding.Db.Strategies.{BidStrategy, unsafe, pessimistic, optimistic, place_bid}
use transaction_safe_bidding.Db.Protocol.Defs.{Policy, Safe}
use transaction_safe_bidding.Db.Protocol.Rules.{Safe-relax}
use transaction_safe_bidding.Db.Safety.Outcomes.{Settled, Writes}
use transaction_safe_bidding.Db.Safety.Pessimistic.{NotEarly, pessimistic-Safe}
use transaction_safe_bidding.Db.Safety.Optimistic.{InWindow}
use transaction_safe_bidding.Db.Safety.Retries.{optimistic-Safe}
use transaction_safe_bidding.Db.History.{IsSound}
use transaction_safe_bidding.Db.System.{System, Reach, opening}
use transaction_safe_bidding.Db.Soundness.Invariant.{Inv, Reach-Inv, opening-Inv}

-- One of the strategies that are meant to be correct.
abbrev pub IsSafe : BidStrategy → Type 0
IsSafe unsafe = ⊥
IsSafe pessimistic = Unit
IsSafe (optimistic max_attempts) = Unit

abbrev pub IsOptimistic : BidStrategy → Type 0
IsOptimistic unsafe = ⊥
IsOptimistic pessimistic = ⊥
IsOptimistic (optimistic max_attempts) = Unit

-- The start of each auction in the tables.
abbrev pub start_in : Database → Uuid → ℕ
start_in db key = elim (lookup_auction key db.auctions) [ none ↦ 0 | some r ↦ r.starts_at ]

abbrev pub policy : (ℕ → ℕ → ℕ → Type 0) → Database → Policy
policy Timely db = record { Timely = Timely; start = start_in db }

-- The connections of the system, one for each request: how it is placed, and what it asks for.
abbrev pub clients : (ℕ → BidStrategy) → (ℕ → BidCommand) → ℕ → Prog BidOutcome
clients strategies commands i = place_bid (strategies i) (commands i)

abbrev pub Promised : (ℕ → BidCommand) → ℕ → Result BidOutcome → Txn → ℕ → Type 0
Promised commands i = Settled (Writes (commands i))

start_in-found :
    (db : Database) (y : AuctionRow)
    → lookup_auction y.id db.auctions ≡ some y
    → y.starts_at ≡ start_in db y.id
start_in-found db y h = ground arith

place_bid-Safe :
    (start : Uuid → ℕ) (strategy : BidStrategy) (command : BidCommand) (now : ℕ)
    → IsSafe strategy
    → Safe
        (record { Timely = NotEarly; start = start })
        (place_bid strategy command)
        idle
        now
        (Settled (Writes command))
unfolding place_bid
place_bid-Safe start unsafe command now h = absurd h
place_bid-Safe start pessimistic command now h = pessimistic-Safe start command idle now refl
place_bid-Safe start (optimistic max_attempts) command now h =
    Safe-relax start InWindow NotEarly _ idle now (Settled (Writes command)) (λ s e at w. w.0)
      (optimistic-Safe start command max_attempts idle now (refl, refl, refl) refl)

place_bid-InWindow :
    (start : Uuid → ℕ) (strategy : BidStrategy) (command : BidCommand) (now : ℕ)
    → IsOptimistic strategy
    → Safe
        (record { Timely = InWindow; start = start })
        (place_bid strategy command)
        idle
        now
        (Settled (Writes command))
unfolding place_bid
place_bid-InWindow start unsafe command now h = absurd h
place_bid-InWindow start pessimistic command now h = absurd h
place_bid-InWindow start (optimistic max_attempts) command now h =
    optimistic-Safe start command max_attempts idle now (refl, refl, refl) refl

module _ (db : Database) (now : ℕ) (strategies : ℕ → BidStrategy) (commands : ℕ → BidCommand)
    {y : System} where
  pub clients-Inv :
      ((i : ℕ) → IsSafe (strategies i))
      → IsSound (policy NotEarly db) db
      → Reach (opening db now (clients strategies commands)) y
      → Inv (policy NotEarly db) (Promised commands) y
  clients-Inv safe sound reach =
      Reach-Inv (policy NotEarly db) (Promised commands)
        (opening-Inv (policy NotEarly db) (Promised commands) db now (clients strategies commands)
          sound (start_in-found db)
          (λ i. place_bid-Safe (start_in db) (strategies i) (commands i) now (safe i)))
        reach

  -- Whatever the number of connections, each placing its bid by the pessimistic or the optimistic
  -- strategy, whatever the order of their statements, the failures and the passing of time: from
  -- tables with sound histories only tables with sound histories are reached. In a sound history the
  -- bids of an auction are numbered 1, 2, 3 and so on, each is at least the starting price or the
  -- price before it plus the increment, none is dated before the start, the auction's version, price
  -- and winner are those of the last bid, and no two bids have one id or one request.
  pub concurrent_bids-IsSound :
      ((i : ℕ) → IsSafe (strategies i))
      → IsSound (policy NotEarly db) db
      → Reach (opening db now (clients strategies commands)) y
      → IsSound (policy NotEarly db) y.db
  concurrent_bids-IsSound safe sound reach = (clients-Inv safe sound reach).sound

  pub optimistic-Inv :
      ((i : ℕ) → IsOptimistic (strategies i))
      → IsSound (policy InWindow db) db
      → Reach (opening db now (clients strategies commands)) y
      → Inv (policy InWindow db) (Promised commands) y
  optimistic-Inv all_optimistic sound reach =
      Reach-Inv (policy InWindow db) (Promised commands)
        (opening-Inv (policy InWindow db) (Promised commands) db now (clients strategies commands)
          sound (start_in-found db)
          (λ i.
            place_bid-InWindow (start_in db) (strategies i) (commands i) now (all_optimistic i)))
        reach

  -- If all of them use the optimistic strategy, every bid is dated inside the window of its auction
  -- too, from the start on and before the end, provided that this held of the bids at the beginning.
  pub optimistic_bids-InWindow :
      ((i : ℕ) → IsOptimistic (strategies i))
      → IsSound (policy InWindow db) db
      → Reach (opening db now (clients strategies commands)) y
      → IsSound (policy InWindow db) y.db
  optimistic_bids-InWindow all_optimistic sound reach =
      (optimistic-Inv all_optimistic sound reach).sound
