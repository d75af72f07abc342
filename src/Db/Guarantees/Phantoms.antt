-- ===== src/Db/Guarantees/Phantoms.antt =====
-- Where the committed bids come from, and what is reported of them.
use transaction_safe_bidding.Prelude.{ℕ, arith, ◌≡◌, subst, ◌⊎◌, inl, inr, some}
use transaction_safe_bidding.Prelude.All.{All-at, In}
use transaction_safe_bidding.Domain.Errors.{ok, err, connection_lost}
use transaction_safe_bidding.Domain.Models.{BidCommand, BidOutcomeStatus, AcceptedBid}
use transaction_safe_bidding.Domain.Outcome.{BidOutcome}
use transaction_safe_bidding.Db.Tables.{BidRow, Database, bid_from_row}
use transaction_safe_bidding.Db.Statements.{Txn, ended}
use transaction_safe_bidding.Db.Program.{Prog, ret, raise, call}
use transaction_safe_bidding.Db.Strategies.{BidStrategy}
use transaction_safe_bidding.Db.Safety.Outcomes.{Records, Settled, Writes}
use transaction_safe_bidding.Db.Protocol.Defs.{Policy, Safe}
use transaction_safe_bidding.Db.Safety.Pessimistic.{NotEarly}
use transaction_safe_bidding.Db.History.{IsSound}
use transaction_safe_bidding.Db.System.{Session, System, Reach, opening}
use transaction_safe_bidding.Db.Guarantees.Histories.{IsSafe, policy, clients, clients-Inv}
use transaction_safe_bidding.Db.Guarantees.Requests.{WritesFor-In}
use transaction_safe_bidding.Db.Guarantees.Sources.{HasSource, Reach-sourced, All-self}

-- What the outcome says of a row that its connection has committed: where the program has ended with an
-- outcome, it is accepted and holds the bid of this row.
abbrev pub Reported : BidRow → Prog BidOutcome → Type 0
Reported row (ret o) =
    (o.status ≡ BidOutcomeStatus.accepted)
    × ((bid : AcceptedBid) × (o.bid ≡ some bid) × (bid_from_row row ≡ ok bid))
Reported row (raise x) = Unit
Reported row (call s k) = Unit

-- The connection has committed the row, for its command, and reports it.
abbrev pub Wrote : BidCommand → BidRow → Session → Type 0
Wrote command row session =
    In row session.txn.saved × Records command row × Reported row session.prog

-- What was committed is for the command: were every later statement to fail, the program would still
-- end, and with what it owes then.
Safe-Records :
    (P : Policy) (command : BidCommand) (row : BidRow) (m : Prog BidOutcome) (t : Txn) (at : ℕ)
    → Safe P m t at (Settled (Writes command))
    → In row t.saved
    → Records command row
Safe-Records P command row (ret o) t at (q, w) h =
    (WritesFor-In command o.status o.bid t.saved row w h).2
Safe-Records P command row (raise x) t at (q, s) h = absurd (subst (λ bs. In row bs) s h)
Safe-Records P command row (call s k) t at w h =
    Safe-Records P command row (k (err connection_lost)) (ended t) at
      (w.2 connection_lost at (omega arith)) h

Safe-Reported :
    (P : Policy) (command : BidCommand) (row : BidRow) (m : Prog BidOutcome) (t : Txn) (at : ℕ)
    → Safe P m t at (Settled (Writes command))
    → In row t.saved
    → Reported row m
Safe-Reported P command row (ret o) t at (q, w) h =
    let (status, bid, _) = WritesFor-In command o.status o.bid t.saved row w h in (status, bid)
Safe-Reported P command row (raise x) t at w h = tt
Safe-Reported P command row (call s k) t at w h = tt

-- While connections place bids by the safe strategies on tables with sound histories: every committed
-- bid was there at the beginning, or a connection has committed it, and then the bid has the request,
-- the auction, the stripped bidder and the amount of the command of this connection. Where the program
-- of this connection has ended with an outcome, the outcome is accepted and holds this bid.
pub no_phantom_bids :
    (db : Database) (now : ℕ) (strategies : ℕ → BidStrategy) (commands : ℕ → BidCommand)
    {y : System}
    → ((i : ℕ) → IsSafe (strategies i))
    → IsSound (policy NotEarly db) db
    → Reach (opening db now (clients strategies commands)) y
    → (row : BidRow) → In row y.db.bids
    → In row db.bids ⊎ ((i : ℕ) × Wrote (commands i) row (y.sessions i))
no_phantom_bids db now strategies commands {y} safe sound reach row m =
    elim (All-at (HasSource db y.sessions) row y.db.bids
      (Reach-sourced db {x = opening db now (clients strategies commands)}
        (All-self db (opening db now (clients strategies commands)).sessions) reach)
      m) [
        | inl old ↦ inl old
        | inr (i, h) ↦
            let keeps = (clients-Inv db now strategies commands safe sound reach).safe i in
            let session = y.sessions i in
            inr (
              i,
              (
                h,
                Safe-Records (policy NotEarly db) (commands i) row session.prog session.txn
                    session.seen keeps h,
                Safe-Reported (policy NotEarly db) (commands i) row session.prog session.txn
                    session.seen keeps h,
              ),
            )
      ]
