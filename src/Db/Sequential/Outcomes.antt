-- ===== src/Db/Sequential/Outcomes.antt =====
-- The outcomes of the specification: there always is one, and an accepted one leaves its bid in the
-- tables.
use transaction_safe_bidding.Prelude.{
  ◌≡◌, refl, sym, subst, inl, inr, Bool, true, false, Option, none, some, List, [], ◌∷◌, ◌++◌,
  arith, ◌==◌, if◌then◌else◌, Bool-cases, Option-cases, strip, text_eq_refl,
}
use transaction_safe_bidding.Domain.Errors.{Result, ok, err}
use transaction_safe_bidding.Domain.Models.{
  Uuid, BidCommand, BidEvaluation, BidOutcomeStatus, AcceptedBid,
}
use transaction_safe_bidding.Domain.Outcome.{
  BidOutcome, bid_outcome, outcome_fits, accepted, rejected, replayed,
}
use transaction_safe_bidding.Db.Tables.{
  AuctionRow, BidRow, Database, lookup_auction, lookup_request, bid_from_row,
}
use transaction_safe_bidding.Db.Statements.{Env}
use transaction_safe_bidding.Db.Safety.Calls.{lookup_auction-id}
use transaction_safe_bidding.Db.Mapped.{snapshot_of, bid_of}
use transaction_safe_bidding.Db.Strategies.Shared.{evaluate, refuse, same_payload, replay_or_reject}
use transaction_safe_bidding.Db.Sequential.Spec.{
  placed_row, raised_tables, settle, bid_on, answer, place, IsReady,
}
use transaction_safe_bidding.Db.Sequential.Ends.{evaluated, refused}
use transaction_safe_bidding.Db.Sequential.Steps.{placed_row-fits}

-- An outcome that its constructor lets through.
abbrev pub IsMade : Result BidOutcome → Type 0
IsMade x = (o : BidOutcome) × (x ≡ ok o) × (outcome_fits o.status o.bid o.rejection_reason ≡ true)

refuse-fits :
    (e : BidEvaluation) (o : BidOutcome)
    → refuse e 1 0 ≡ ok o
    → outcome_fits o.status o.bid o.rejection_reason ≡ true
unfolding refuse rejected bid_outcome outcome_fits
refuse-fits e o h = elim (Option-cases e.rejection_reason) [
  | inl p ↦ absurd (ground (arith, p, h))
  | inr (reason, p) ↦ ground (arith, p, h)
]

replay_or_reject-IsMade :
    (b : AcceptedBid) (command : BidCommand) → IsMade (replay_or_reject b command)
unfolding replay_or_reject replayed rejected bid_outcome outcome_fits
replay_or_reject-IsMade b command = elim (Bool-cases (same_payload b command)) [
  | inl yes_ ↦ rw yes_ (_, refl, refl)
  | inr no_ ↦ rw no_ (_, refl, refl)
]

module _ (env : Env) (db : Database) (command : BidCommand) (ready : IsReady env db command) where
  settle-IsMade :
      (r : AuctionRow) (e : BidEvaluation)
      → lookup_auction command.auction_id db.auctions ≡ some r
      → evaluate (snapshot_of r) command env.time ≡ ok e
      → (b : Bool) → e.accepted ≡ b
      → IsMade
          (if◌then◌else◌ {A = Result BidOutcome × Database} b
            (accepted (bid_of (placed_row env command r)) 1 0, raised_tables env db command r)
            (refuse e 1 0, db)).0
  unfolding accepted bid_outcome outcome_fits
  settle-IsMade r e found h true is = (_, refl, refl)
  settle-IsMade r e found h false is =
      let (o, made) = refused env db command ready r found e h is in (o, made, refuse-fits e o made)

  bid_on-IsMade :
      (x : Option AuctionRow)
      → lookup_auction command.auction_id db.auctions ≡ x
      → IsMade (bid_on env db command x).0
  unfolding bid_on settle
  bid_on-IsMade none found = unfold rejected bid_outcome outcome_fits in (_, refl, refl)
  bid_on-IsMade (some r) found =
      let (e, h) = evaluated env db command ready r found in
      subst (λ x. IsMade (settle env db command r x).0) (sym h)
        (settle-IsMade r e found h e.accepted refl)

  answer-IsMade : (x : Option BidRow) → IsMade (answer env db command x).0
  unfolding answer
  answer-IsMade none = bid_on-IsMade (lookup_auction command.auction_id db.auctions) refl
  answer-IsMade (some row) = replay_or_reject-IsMade (bid_of row) command

  pub place-IsMade : IsMade (place env db command).0
  unfolding place
  place-IsMade = answer-IsMade (lookup_request command.request_id db.bids)

-- After a request has been looked up and is new, its bid at the end of the table is found.
lookup_request-last :
    (key : Uuid) (bids : List BidRow) (row : BidRow)
    → lookup_request key bids ≡ none
    → row.request_id ≡ key
    → lookup_request key (bids ++ row ∷ []) ≡ some row
unfolding lookup_request
lookup_request-last key [] row h is = ground (arith, is)
lookup_request-last key (b ∷ bids) row h is = elim (Bool-cases (b.request_id == key)) [
  | inl hit ↦ absurd (ground (arith, hit, h))
  | inr other ↦ rw other (lookup_request-last key bids row (ground (arith, other, h)) is)
]

-- What an accepted outcome leaves in the tables.
abbrev pub Placed : BidCommand → BidOutcome → Database → Type 0
Placed command o db =
    (row : BidRow) × (lookup_request command.request_id db.bids ≡ some row)
    × (bid_from_row row ≡ ok (bid_of row))
    × (o.bid ≡ some (bid_of row))
    × (same_payload (bid_of row) command ≡ true)

same_payload-placed :
    (env : Env) (command : BidCommand) (r : AuctionRow)
    → r.id ≡ command.auction_id
    → same_payload (bid_of (placed_row env command r)) command ≡ true
unfolding same_payload
same_payload-placed env command r is = ground (arith, text_eq_refl (strip command.bidder_id))

abbrev pub Answers : BidCommand → Result BidOutcome × Database → Type 0
Answers command x =
    (o : BidOutcome) → x.0 ≡ ok o → o.status ≡ BidOutcomeStatus.accepted → Placed command o x.1

refuse-rejected :
    (e : BidEvaluation) (o : BidOutcome)
    → refuse e 1 0 ≡ ok o
    → ¬ (o.status ≡ BidOutcomeStatus.accepted)
unfolding refuse rejected bid_outcome outcome_fits
refuse-rejected e o h is = elim (Option-cases e.rejection_reason) [
  | inl p ↦ ground (arith, p, h)
  | inr (reason, p) ↦ ground (arith, p, h, is)
]

replay_or_reject-not_accepted :
    (b : AcceptedBid) (command : BidCommand) (o : BidOutcome)
    → replay_or_reject b command ≡ ok o
    → ¬ (o.status ≡ BidOutcomeStatus.accepted)
unfolding replay_or_reject replayed rejected bid_outcome outcome_fits
replay_or_reject-not_accepted b command o h is = ground (arith, h, is)

module _ (env : Env) (db : Database) (command : BidCommand) (ready : IsReady env db command)
    (absent : lookup_request command.request_id db.bids ≡ none) where
  settle-Answers :
      (r : AuctionRow) (e : BidEvaluation) (b : Bool)
      → lookup_auction command.auction_id db.auctions ≡ some r
      → Answers command (
          if◌then◌else◌ {A = Result BidOutcome × Database} b
            (accepted (bid_of (placed_row env command r)) 1 0, raised_tables env db command r)
            (refuse e 1 0, db))
  unfolding accepted bid_outcome outcome_fits
  settle-Answers r e true found o h yes_ = (
    placed_row env command r,
    lookup_request-last command.request_id db.bids (placed_row env command r) absent refl,
    (placed_row-fits env db command r ready found).1,
    ground (arith, h),
    same_payload-placed env command r (lookup_auction-id command.auction_id db.auctions r found),
  )
  settle-Answers r e false found o h yes_ = absurd (refuse-rejected e o h yes_)

  settled-Answers :
      (r : AuctionRow) (x : Result BidEvaluation)
      → lookup_auction command.auction_id db.auctions ≡ some r
      → Answers command (settle env db command r x)
  unfolding settle
  settled-Answers r (err e) found o h yes_ = absurd (cc)
  settled-Answers r (ok e) found o h yes_ = settle-Answers r e e.accepted found o h yes_

  bid_on-Answers :
      (x : Option AuctionRow)
      → lookup_auction command.auction_id db.auctions ≡ x
      → Answers command (bid_on env db command x)
  unfolding bid_on
  bid_on-Answers none found o h yes_ =
      absurd (unfold rejected bid_outcome outcome_fits in ground (arith, h, yes_))
  bid_on-Answers (some r) found o h yes_ =
      settled-Answers r (evaluate (snapshot_of r) command env.time) found o h yes_

answer-Answers :
    (env : Env) (db : Database) (command : BidCommand)
    → IsReady env db command
    → (x : Option BidRow) → lookup_request command.request_id db.bids ≡ x
    → Answers command (answer env db command x)
unfolding answer
answer-Answers env db command ready none absent o h yes_ =
    bid_on-Answers env db command ready absent (lookup_auction command.auction_id db.auctions) refl
      o h yes_
answer-Answers env db command ready (some row) known o h yes_ =
    absurd (replay_or_reject-not_accepted (bid_of row) command o h yes_)

pub place-Answers :
    (env : Env) (db : Database) (command : BidCommand)
    → IsReady env db command
    → Answers command (place env db command)
unfolding place
place-Answers env db command ready =
    answer-Answers env db command ready (lookup_request command.request_id db.bids) refl
