-- ===== src/Api/Delivered.antt =====
-- What is broadcast is committed.
use transaction_safe_bidding.Prelude.{ℕ, ◌≡◌, sym, ap, ◌∙◌, Option, none, some, arith}
use transaction_safe_bidding.Prelude.All.{In}
use transaction_safe_bidding.Domain.Errors.{ok}
use transaction_safe_bidding.Domain.Models.{
  Uuid, BidCommand, BidOutcomeStatus, BidRejectionReason, AcceptedBid,
}
use transaction_safe_bidding.Domain.Outcome.{BidOutcome}
use transaction_safe_bidding.Db.Tables.{BidRow, Database, bid_from_row}
use transaction_safe_bidding.Db.Mapped.{bid_from_row-columns}
use transaction_safe_bidding.Db.Program.{ret}
use transaction_safe_bidding.Db.Strategies.{BidStrategy}
use transaction_safe_bidding.Db.Safety.Pessimistic.{NotEarly}
use transaction_safe_bidding.Db.History.{IsSound}
use transaction_safe_bidding.Db.System.{System, Reach, opening}
use transaction_safe_bidding.Db.Guarantees.Histories.{IsSafe, policy, clients}
use transaction_safe_bidding.Db.Guarantees.Requests.{accepted-committed}
use transaction_safe_bidding.Api.Replies.{
  BidPlacementResponse, AuctionStateEvent, placed, placement_response, state_event, refusal,
  reply_of, place_bid_reply,
}

-- Where a reply has an event, the outcome is accepted, and the event is about its bid.
event_bid :
    (auction : Uuid) (o : BidOutcome) (status : BidOutcomeStatus) (bid : Option AcceptedBid)
    (reason : Option BidRejectionReason) (response : BidPlacementResponse)
    (event : AuctionStateEvent)
    → reply_of auction o status bid reason ≡ ok (placed response (some event))
    → (status ≡ BidOutcomeStatus.accepted)
      × (bid ≡ some event.bid)
      × (event.auction_id ≡ auction)
      × (event.version ≡ event.bid.auction_version)
unfolding reply_of placement_response state_event refusal
event_bid auction o BidOutcomeStatus.accepted none reason response event h = absurd (cc)
event_bid auction o BidOutcomeStatus.accepted (some b) reason response event h = ground arith
event_bid auction o BidOutcomeStatus.replayed none reason response event h = absurd (cc)
event_bid auction o BidOutcomeStatus.replayed (some b) reason response event h = ground arith
event_bid auction o BidOutcomeStatus.rejected bid none response event h = absurd (cc)
event_bid auction o BidOutcomeStatus.rejected bid (some r) response event h = absurd (cc)

some-injective : (b c : AcceptedBid) → some b ≡ some c → b ≡ c
some-injective b c e = cc

-- While connections place bids by the safe strategies on tables with sound histories: where a request
-- has ended and its handler broadcasts an event, the event holds a committed bid of the auction, with
-- the version of this bid.
pub broadcast-committed :
    (db : Database) (now : ℕ) (strategies : ℕ → BidStrategy) (commands : ℕ → BidCommand)
    {y : System}
    → ((i : ℕ) → IsSafe (strategies i))
    → IsSound (policy NotEarly db) db
    → Reach (opening db now (clients strategies commands)) y
    → (i : ℕ) (o : BidOutcome) (response : BidPlacementResponse) (event : AuctionStateEvent)
    → (y.sessions i).prog ≡ ret o
    → place_bid_reply (commands i).auction_id (ok o) ≡ ok (placed response (some event))
    → (row : BidRow) × In row y.db.bids
      × (bid_from_row row ≡ ok event.bid)
      × (event.auction_id ≡ row.auction_id)
      × (event.version ≡ row.auction_version)
unfolding place_bid_reply
broadcast-committed db now strategies commands {y} safe sound reach i o response event e h =
    let (acc, held, at_auction, version) =
      event_bid (commands i).auction_id o o.status o.bid o.rejection_reason response event h in
    let (row, b, m, ob, mapped, rec) =
      accepted-committed db now strategies commands safe sound reach i o e acc in
    let same : b ≡ event.bid = some-injective b event.bid (sym ob ∙ held) in
    (
      row,
      m,
      mapped ∙ ap ok same,
      at_auction ∙ sym rec.auction,
      version
          ∙ ap (λ (x : AcceptedBid). x.auction_version)
              (sym same ∙ bid_from_row-columns row b mapped),
    )
