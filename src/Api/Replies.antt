-- ===== src/Api/Replies.antt =====
-- The handler of a POST to /auctions/{auction_id}/bids in src/bidding/api/routes.py, from the outcome
-- on, with `BidPlacementResponse` and `AuctionStateEvent` of src/bidding/api/schemas.py. A
-- `BidResponse` has the fields of the bid itself.
use transaction_safe_bidding.Prelude.{ℕ, ◌≡◌, refl, Bool, true, false, Option, none, some, arith}
use mathlib.Core.Logic.{◌↔◌}
use transaction_safe_bidding.Domain.Errors.{
  value_error, assertion_error, strategy_busy, Result, ok, err, ◌>>=◌,
}
use transaction_safe_bidding.Domain.Models.{
  Uuid, BidRejectionReason, auction_not_found, conflict_retry_exhausted, BidOutcomeStatus,
  AcceptedBid,
}
use transaction_safe_bidding.Domain.Outcome.{BidOutcome, bid_outcome, outcome_fits}

pub record BidPlacementResponse : Type 0 where
  pub status : BidOutcomeStatus
  pub bid : AcceptedBid
  pub attempts : ℕ
  pub conflicts : ℕ

pub record AuctionStateEvent : Type 0 where
  pub auction_id : Uuid
  pub version : ℕ
  pub bid : AcceptedBid

-- What the client gets: 503 with `database_busy`; a status with a reason and a minimum; or 200 with
-- the response, and what is broadcast then.
pub data Reply : Type 0 where
  busy : Reply
  refused : ℕ → BidRejectionReason → Option ℕ → Reply
  placed : BidPlacementResponse → Option AuctionStateEvent → Reply

-- `_rejection_status`
unfoldable pub rejection_status : BidRejectionReason → ℕ
rejection_status auction_not_found = 404
rejection_status conflict_retry_exhausted = 503
rejection_status _ = 409

-- `BidPlacementResponse.from_domain`
unfoldable pub placement_response : BidOutcome → Option AcceptedBid → Result BidPlacementResponse
placement_response o none = err value_error
placement_response o (some bid) =
    ok (record { status = o.status; bid = bid; attempts = o.attempts; conflicts = o.conflicts })

unfoldable pub refusal : Option BidRejectionReason → Option ℕ → Result Reply
unfolding rejection_status
refusal none minimum = err assertion_error
refusal (some reason) minimum = ok (refused (rejection_status reason) reason minimum)

-- The event of an accepted bid.
unfoldable pub state_event : Uuid → Option AcceptedBid → Result AuctionStateEvent
state_event auction none = err assertion_error
state_event auction (some bid) =
    ok (record { auction_id = auction; version = bid.auction_version; bid = bid })

-- The handler after the call, by the status, the bid and the reason of the outcome.
unfoldable pub reply_of :
    Uuid
    → BidOutcome
    → BidOutcomeStatus
    → Option AcceptedBid
    → Option BidRejectionReason
    → Result Reply
unfolding refusal placement_response state_event
reply_of auction o BidOutcomeStatus.rejected bid reason = refusal reason o.minimum_acceptable_cents
reply_of auction o BidOutcomeStatus.replayed bid reason = do
  response ← placement_response o bid
  ok (placed response none)
reply_of auction o BidOutcomeStatus.accepted bid reason = do
  response ← placement_response o bid
  event ← state_event auction bid
  ok (placed response (some event))

-- What `service.place_bid` returns or raises, and what comes of it; other exceptions pass.
unfoldable pub place_bid_reply : Uuid → Result BidOutcome → Result Reply
unfolding reply_of
place_bid_reply auction (ok o) = reply_of auction o o.status o.bid o.rejection_reason
place_bid_reply auction (err strategy_busy) = ok busy
place_bid_reply auction (err e) = err e

-- The status code that goes with a reply.
unfoldable pub status_code : Reply → ℕ
status_code busy = 503
status_code (refused code reason minimum) = code
status_code (placed response event) = 200

-- Whether the handler broadcasts.
unfoldable pub has_event : Reply → Bool
has_event busy = false
has_event (refused code reason minimum) = false
has_event (placed response none) = false
has_event (placed response (some event)) = true

rejection_status-not_200 : (r : BidRejectionReason) → ¬ (rejection_status r ≡ 200)
unfolding rejection_status
rejection_status-not_200 BidRejectionReason.auction_not_found = λ e. absurd (omega (arith, e))
rejection_status-not_200 BidRejectionReason.auction_not_started = λ e. absurd (omega (arith, e))
rejection_status-not_200 BidRejectionReason.auction_closed = λ e. absurd (omega (arith, e))
rejection_status-not_200 BidRejectionReason.bid_too_low = λ e. absurd (omega (arith, e))
rejection_status-not_200 BidRejectionReason.request_id_reused = λ e. absurd (omega (arith, e))
rejection_status-not_200 BidRejectionReason.conflict_retry_exhausted =
    λ e. absurd (omega (arith, e))

-- The reply goes with the outcome.
abbrev pub GoesWith : BidOutcomeStatus → Reply → Type 0
GoesWith status reply =
    ((status_code reply ≡ 200) ↔ ¬ (status ≡ BidOutcomeStatus.rejected))
    × ((has_event reply ≡ true) ↔ (status ≡ BidOutcomeStatus.accepted))

pub reply_of-fits :
    (auction : Uuid) (o : BidOutcome) (status : BidOutcomeStatus) (bid : Option AcceptedBid)
    (reason : Option BidRejectionReason)
    → outcome_fits status bid reason ≡ true
    → (reply : Reply) × (reply_of auction o status bid reason ≡ ok reply) × GoesWith status reply
unfolding outcome_fits reply_of status_code has_event placement_response state_event refusal
reply_of-fits auction o BidOutcomeStatus.accepted none reason h = absurd (cc)
reply_of-fits auction o BidOutcomeStatus.accepted (some b) reason h =
    (_, refl, (((λ e r. cc (r)), λ n. refl), ((λ e. refl), λ e. refl)))
reply_of-fits auction o BidOutcomeStatus.replayed none reason h = absurd (cc)
reply_of-fits auction o BidOutcomeStatus.replayed (some b) reason h =
    (_, refl, (((λ e r. cc (r)), λ n. refl), ((λ e. absurd (cc)), λ e. absurd (cc))))
reply_of-fits auction o BidOutcomeStatus.rejected none none h = absurd (cc)
reply_of-fits auction o BidOutcomeStatus.rejected none (some r) h = (
  _,
  refl,
  (
    ((λ e. absurd (rejection_status-not_200 r e)), λ n. absurd (n refl)),
    ((λ e. absurd (cc)), λ e. absurd (cc)),
  ),
)
reply_of-fits auction o BidOutcomeStatus.rejected (some b) reason h = absurd (cc)

-- For every outcome that its constructor lets through, the handler replies without an exception: with
-- status 200 unless the outcome is a rejection, and with a broadcast exactly if it is accepted.
pub place_bid_reply-GoesWith :
    (auction : Uuid) (status : BidOutcomeStatus) (bid : Option AcceptedBid)
    (reason : Option BidRejectionReason) (minimum : Option ℕ) (attempts conflicts : ℕ)
    (o : BidOutcome)
    → bid_outcome status bid reason minimum attempts conflicts ≡ ok o
    → (reply : Reply) × (place_bid_reply auction (ok o) ≡ ok reply) × GoesWith o.status reply
unfolding place_bid_reply bid_outcome
place_bid_reply-GoesWith auction status bid reason minimum attempts conflicts o h =
    let fits : outcome_fits o.status o.bid o.rejection_reason ≡ true = ground arith in
    reply_of-fits auction o o.status o.bid o.rejection_reason fits
