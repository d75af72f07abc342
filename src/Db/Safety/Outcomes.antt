-- ===== src/Db/Safety/Outcomes.antt =====
-- What an outcome says of the rows that were written for it.
use transaction_safe_bidding.Prelude.{ℕ, ◌≡◌, refl, Option, none, some, List, [], ◌∷◌, arith, strip}
use transaction_safe_bidding.Domain.Errors.{Result, ok, err}
use transaction_safe_bidding.Domain.Models.{
  BidCommand, BidRejectionReason, BidEvaluation, BidOutcomeStatus, AcceptedBid,
}
use transaction_safe_bidding.Domain.Outcome.{BidOutcome, accepted, replayed, rejected}
use transaction_safe_bidding.Db.Tables.{BidRow, bid_from_row}
use transaction_safe_bidding.Db.Statements.{Txn}
use transaction_safe_bidding.Db.Strategies.Shared.{replay_or_reject, refuse}
use transaction_safe_bidding.Db.Protocol.Defs.{Policy, CanCommit}

-- The row holds the command.
pub record Records (command : BidCommand) (row : BidRow) : Type 0 where
  pub request : row.request_id ≡ command.request_id
  pub auction : row.auction_id ≡ command.auction_id
  pub bidder : row.bidder_id ≡ strip command.bidder_id
  pub amount : row.amount_cents ≡ command.amount_cents

abbrev pub WritesFor : BidCommand → BidOutcomeStatus → Option AcceptedBid → List BidRow → Type 0
WritesFor command BidOutcomeStatus.accepted none bs = ⊥
WritesFor command BidOutcomeStatus.accepted (some bid) bs =
    (row : BidRow) × (bs ≡ row ∷ []) × (bid_from_row row ≡ ok bid) × Records command row
WritesFor command BidOutcomeStatus.replayed bid bs = bs ≡ []
WritesFor command BidOutcomeStatus.rejected bid bs = bs ≡ []

-- For an accepted outcome one row was written, that of its bid, which holds the command; for any
-- other outcome none.
abbrev pub Writes : BidCommand → BidOutcome → List BidRow → Type 0
Writes command o bs = WritesFor command o.status o.bid bs

pub WritesFor-nothing :
    (command : BidCommand) (status : BidOutcomeStatus) (bid : Option AcceptedBid)
    → ¬ (status ≡ BidOutcomeStatus.accepted)
    → WritesFor command status bid []
WritesFor-nothing command BidOutcomeStatus.accepted bid h = absurd (h refl)
WritesFor-nothing command BidOutcomeStatus.replayed bid h = refl
WritesFor-nothing command BidOutcomeStatus.rejected bid h = refl

not_accepted-rejected :
    (reason : BidRejectionReason) (minimum : Option ℕ) (attempts conflicts : ℕ) (o : BidOutcome)
    → rejected reason minimum attempts conflicts ≡ ok o
    → ¬ (o.status ≡ BidOutcomeStatus.accepted)
unfolding rejected
not_accepted-rejected reason minimum attempts conflicts o h e = ground arith

not_accepted-refuse :
    (evaluation : BidEvaluation) (attempts conflicts : ℕ) (o : BidOutcome)
    → refuse evaluation attempts conflicts ≡ ok o
    → ¬ (o.status ≡ BidOutcomeStatus.accepted)
unfolding refuse rejected
not_accepted-refuse evaluation attempts conflicts o h e = ground arith

not_accepted-replay_or_reject :
    (existing : AcceptedBid) (command : BidCommand) (o : BidOutcome)
    → replay_or_reject existing command ≡ ok o
    → ¬ (o.status ≡ BidOutcomeStatus.accepted)
unfolding replay_or_reject replayed rejected
not_accepted-replay_or_reject existing command o h e = ground arith

module _ (command : BidCommand) where
  pub Writes-rejected :
      (reason : BidRejectionReason) (minimum : Option ℕ) (attempts conflicts : ℕ) (o : BidOutcome)
      → rejected reason minimum attempts conflicts ≡ ok o
      → Writes command o []
  Writes-rejected reason minimum attempts conflicts o h =
      WritesFor-nothing command o.status o.bid
        (not_accepted-rejected reason minimum attempts conflicts o h)

  pub Writes-refuse :
      (evaluation : BidEvaluation) (attempts conflicts : ℕ) (o : BidOutcome)
      → refuse evaluation attempts conflicts ≡ ok o
      → Writes command o []
  Writes-refuse evaluation attempts conflicts o h =
      WritesFor-nothing command o.status o.bid
        (not_accepted-refuse evaluation attempts conflicts o h)

  pub Writes-replay_or_reject :
      (existing : AcceptedBid) (o : BidOutcome)
      → replay_or_reject existing command ≡ ok o
      → Writes command o []
  Writes-replay_or_reject existing o h =
      WritesFor-nothing command o.status o.bid (not_accepted-replay_or_reject existing command o h)

  accepted-fields :
      (bid : AcceptedBid) (attempts conflicts : ℕ) (o : BidOutcome)
      → accepted bid attempts conflicts ≡ ok o
      → (o.status ≡ BidOutcomeStatus.accepted) × (o.bid ≡ some bid)
  unfolding accepted
  accepted-fields bid attempts conflicts o h = ground arith

  pub Writes-accepted :
      (bid : AcceptedBid) (attempts conflicts : ℕ) (o : BidOutcome) (row : BidRow)
      → accepted bid attempts conflicts ≡ ok o
      → bid_from_row row ≡ ok bid
      → Records command row
      → Writes command o (row ∷ [])
  Writes-accepted bid attempts conflicts o row h e r =
      let (p, q) = accepted-fields bid attempts conflicts o h in rw (p, q) (row, refl, e, r)

-- The body of a transaction has ended, and the transaction is open: what it may commit is what its
-- value says, and no earlier commit wrote anything.
abbrev pub Ready : {A : Type 0} → Policy → (A → List BidRow → Type 0) → Result A → Txn → ℕ → Type 0
Ready P W (ok a) t now = (t.saved ≡ []) × CanCommit P t × W a t.bids
Ready P W (err e) t now = t.saved ≡ []

-- No transaction is open: no row is locked, and nothing waits to be written.
abbrev pub Quiet : Txn → Type 0
Quiet t = (t.locked ≡ []) × (t.bids ≡ []) × (t.rows ≡ [])

-- The connection is at rest, and its commits wrote what the value says; nothing after an exception.
abbrev pub Settled : {A : Type 0} → (A → List BidRow → Type 0) → Result A → Txn → ℕ → Type 0
Settled W (ok a) t now = Quiet t × W a t.saved
Settled W (err e) t now = Quiet t × (t.saved ≡ [])
