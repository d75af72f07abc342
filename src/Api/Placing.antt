-- ===== src/Api/Placing.antt =====
-- A valid body is a command that can be placed, and placing it gives a reply.
use transaction_safe_bidding.Prelude.{◌≤◌, ◌<◌, ◌≡◌, ap, ◌∙◌, none, some, arith, length, strip}
use transaction_safe_bidding.Prelude.All.{In}
use transaction_safe_bidding.Domain.Errors.{Result, ok, ok-bind}
use transaction_safe_bidding.Domain.Models.{
  Uuid, int, BidCommand, bid_command, require_text, require_money, max_bidder_id_length,
  max_money_cents,
}
use transaction_safe_bidding.Domain.Outcome.{BidOutcome}
use transaction_safe_bidding.Domain.Texts.{require_text-fits}
use transaction_safe_bidding.Domain.Verdicts.{floor_of}
use transaction_safe_bidding.Db.Tables.{
  AuctionRow, BidRow, Database, lookup_auction, lookup_request, auction_row_error, auction_from_row,
  bid_from_row, bigint_max, btrim,
}
use transaction_safe_bidding.Db.Trimmed.{btrim-strip}
use transaction_safe_bidding.Db.Statements.{Env}
use transaction_safe_bidding.Db.Mapped.{snapshot_of, bid_of}
use transaction_safe_bidding.Db.Sequential.Spec.{place, IsReady}
use transaction_safe_bidding.Db.Sequential.Refinement.{IsUsable, run-place}
use transaction_safe_bidding.Db.Sequential.Outcomes.{place-IsMade}
use transaction_safe_bidding.Api.Replies.{Reply, place_bid_reply, GoesWith, reply_of-fits}
use transaction_safe_bidding.Api.Requests.{
  PlaceBidRequest, IsDeclaredBid, IsValidBid, strip_bidder, strip_bidder-IsValid,
}
use transaction_safe_bidding.Api.Service.{BiddingService}
use transaction_safe_bidding.Api.Service as Service
use transaction_safe_bidding.Api.Handlers.{command_of, place_command, place_bid}

abbrev pub command_from : Uuid → PlaceBidRequest → BidCommand
command_from auction_id body = record {
  request_id = body.request_id;
  auction_id = auction_id;
  bidder_id = body.bidder_id;
  amount_cents = body.amount_cents;
}

command_of-valid :
    (auction_id : Uuid) (body : PlaceBidRequest)
    → IsValidBid body
    → command_of auction_id body ≡ ok (command_from auction_id body)
unfolding command_of bid_command
command_of-valid auction_id body v =
    ok-bind (require_text max_bidder_id_length body.bidder_id) _ tt (
      require_text-fits max_bidder_id_length body.bidder_id v.bidder.kept v.bidder.size.0
        v.bidder.size.1)
    ∙ ok-bind (require_money (int body.amount_cents)) _ body.amount_cents
        (unfold require_money in ground (arith, v.amount))

-- What the tables have to fulfil: the rows that the command leads to satisfy the constraints and can be
-- mapped, the numbers have room, and the new identifier is new.
pub record AreReady (env : Env) (db : Database) (auction_id request_id : Uuid) : Type 0 where
  pub bid :
      (row : BidRow)
      → lookup_request request_id db.bids ≡ some row
      → bid_from_row row ≡ ok (bid_of row)
  pub auction :
      (r : AuctionRow)
      → lookup_auction auction_id db.auctions ≡ some r
      → (auction_from_row r ≡ ok (snapshot_of r))
        × (auction_row_error r ≡ none)
        × (r.version < bigint_max)
        × (floor_of (snapshot_of r) ≤ max_money_cents)
  pub fresh : (b : BidRow) → In b db.bids → ¬ (b.id ≡ env.uuid)

valid-IsReady :
    (env : Env) (db : Database) (auction_id : Uuid) (body : PlaceBidRequest)
    → IsValidBid body
    → AreReady env db auction_id body.request_id
    → IsReady env db (command_from auction_id body)
valid-IsReady env db auction_id body v tables =
    let kept : length (btrim (strip body.bidder_id)) ≡ length body.bidder_id =
      ap length (btrim-strip body.bidder_id ∙ v.bidder.kept) in
    record {
      bid = tables.bid;
      auction = tables.auction;
      amount = v.amount;
      bidder = (omega (arith, kept, v.bidder.size), omega (arith, kept, v.bidder.size));
      fresh = tables.fresh;
    }

-- The body of a bid, with fields as declared and let through by the validator, is placed by a usable
-- strategy, at one instant, with no other connection at work and no statement that fails from outside,
-- as one with a text that the driver cannot send would.
-- The tables are ready: the bid with this request id and the auction, where they are there, can be
-- mapped, the row of the auction fits its constraints, its version is below the largest BIGINT and its
-- lowest acceptable bid is at most MAX_MONEY_CENTS, and the identifier for the new bid is not in use.
-- Then the command is constructed, the tables are left as the specification says, and the handler
-- replies without an exception, to the outcome of the specification.
pub place_bid-place :
    (service : BiddingService) (env : Env) (db : Database) (auction_id : Uuid)
    (request body : PlaceBidRequest)
    → IsDeclaredBid request
    → strip_bidder request ≡ ok body
    → IsUsable service.bid_strategy
    → AreReady env db auction_id body.request_id
    → (reply : Reply) × (o : BidOutcome) × (place_bid service (λ _. env) db auction_id body
        ≡ (ok reply, (place env db (command_from auction_id body)).1))
      × ((place env db (command_from auction_id body)).0 ≡ ok o)
      × GoesWith o.status reply
unfolding place_bid place_command Service.place_bid place_bid_reply
place_bid-place service env db auction_id request body declared validated usable tables =
    let v = strip_bidder-IsValid request body declared validated in
    let ready = valid-IsReady env db auction_id body v tables in
    let command = command_from auction_id body in
    let (o, outcome, fits) = place-IsMade env db command ready in
    let (reply, replied, goes) =
      reply_of-fits auction_id o o.status o.bid o.rejection_reason fits in
    let answered : Result BidOutcome × Database → Result Reply × Database =
      λ x. (place_bid_reply auction_id x.0, x.1) in
    (
      reply,
      o,
      ap (place_command service (λ _. env) db auction_id) (command_of-valid auction_id body v)
          ∙ ap answered (run-place env db command service.bid_strategy 0 usable ready)
          ∙ ap
              (λ (x : Result BidOutcome).
                let y : Result Reply × Database =
                  (place_bid_reply auction_id x, (place env db command).1) in
                y)
              outcome
          ∙ ap
              (λ (x : Result Reply).
                let y : Result Reply × Database = (x, (place env db command).1) in y)
              replied,
      outcome,
      goes,
    )
