-- ===== src/Tests/Requests.antt =====
-- The theorems on the handlers at concrete inputs.
use transaction_safe_bidding.Prelude.{
  ◌≡◌, refl, Bool, Option, not, leb, true, false, none, some, [], ◌∷◌, arith, ◌==◌, if◌then◌else◌,
  Text, is_space, strip,
}
use transaction_safe_bidding.Domain.Errors.{Exn, value_error, ok}
use transaction_safe_bidding.Db.Repository.{Driver}
use transaction_safe_bidding.Domain.Outcome.{BidOutcome}
use transaction_safe_bidding.Db.Tables.{lookup_auction, lookup_request}
use transaction_safe_bidding.Db.Mapped.{snapshot_of}
use transaction_safe_bidding.Db.Strategies.{optimistic}
use transaction_safe_bidding.Db.Sequential.Spec.{place}
use transaction_safe_bidding.Api.Replies.{Reply, GoesWith}
use transaction_safe_bidding.Api.Requests.{
  CreateAuctionRequest, IsDeclared, validate_values, PlaceBidRequest, IsDeclaredBid, strip_bidder,
}
use transaction_safe_bidding.Api.Service.{BiddingService}
use transaction_safe_bidding.Api.Handlers.{created, found, create_auction, get_auction, place_bid}
use transaction_safe_bidding.Api.Placing.{command_from, AreReady, place_bid-place}
use transaction_safe_bidding.Api.Creating.{
  IsCarried, row_of, response_of, inserted, create_auction-get,
}
use transaction_safe_bidding.Api.Sockets.{Connections, connected, has}
use transaction_safe_bidding.Api.Visits.{
  joined, left, broadcasted, auction_websocket, websocket_disconnect, Surroundings,
}
use transaction_safe_bidding.Api.Listening.{Visits, auction_websocket-connected}
use transaction_safe_bidding.Tests.Data.{text_a, auction, tables, envs}
use transaction_safe_bidding.Tests.Sequential.{row_of-Fits}

abbrev service : BiddingService
service = record { bid_strategy = optimistic 5 }

-- The letter A between spaces.
abbrev spaced : Text
spaced = 32 ∷ 65 ∷ 32 ∷ []

abbrev bid_request : PlaceBidRequest
bid_request = record { request_id = 200; bidder_id = spaced; amount_cents = 100 }

abbrev bid_body : PlaceBidRequest
bid_body = record { request_id = 200; bidder_id = text_a; amount_cents = 100 }

bid_validated : strip_bidder bid_request ≡ ok bid_body
unfolding strip_bidder strip is_space
bid_validated = refl

bid-IsDeclaredBid : IsDeclaredBid bid_request
bid-IsDeclaredBid = record {
  bidder = (omega arith, omega arith);
  amount = (omega arith, omega arith);
}

tables-AreReady : AreReady (envs 1000 0) tables 1 200
unfolding lookup_request
tables-AreReady = record {
  bid = λ row h. absurd (cc);
  auction = row_of-Fits;
  fresh = λ b h. absurd h;
}

place_bid-place_example :
    (reply : Reply) × (o : BidOutcome) × (place_bid service (λ _. envs 1000 0) tables 1 bid_body
      ≡ (ok reply, (place (envs 1000 0) tables (command_from 1 bid_body)).1))
    × ((place (envs 1000 0) tables (command_from 1 bid_body)).0 ≡ ok o)
    × GoesWith o.status reply
place_bid-place_example =
    place_bid-place service (envs 1000 0) tables 1 bid_request bid_body bid-IsDeclaredBid
      bid_validated (omega arith) tables-AreReady

abbrev auction_request : CreateAuctionRequest
auction_request = record {
  title = spaced;
  starting_price_cents = 100;
  minimum_increment_cents = 10;
  starts_at = 10;
  ends_at = 50;
}

abbrev auction_body : CreateAuctionRequest
auction_body = record auction_request { title = text_a }

auction_validated : validate_values auction_request ≡ ok auction_body
unfolding validate_values strip is_space
auction_validated = refl

auction-IsDeclared : IsDeclared auction_request
auction-IsDeclared = record {
  title = (omega arith, omega arith);
  starting = (omega arith, omega arith);
  increment = (omega arith, omega arith);
}

not_there : lookup_auction 2 tables.auctions ≡ none
unfolding lookup_auction
not_there = refl

-- A driver that sends texts without U+0000 and loads instants up to 1000.
abbrev sent_if : Bool → Option Exn
sent_if true = none
sent_if false = some value_error

abbrev driver : Driver
driver = record {
  dump_error = λ text. sent_if (not (has 0 text));
  load_error = λ instant. sent_if (leb instant 1000);
}

body-IsCarried : IsCarried driver auction_body 20
unfolding has
body-IsCarried = record { title = refl; starts = refl; ends = refl; clock = refl }

create_auction-get_example :
    (create_auction driver service tables auction_body 2 20
      ≡ (ok (created (response_of auction_body 2 20)), inserted tables (row_of auction_body 2 20)))
    × (get_auction service (inserted tables (row_of auction_body 2 20)) 2
        ≡ ok (found (response_of auction_body 2 20)))
    × (get_auction service (inserted tables (row_of auction_body 2 20)) 1
        ≡ get_auction service tables 1)
create_auction-get_example =
    create_auction-get driver service tables auction_request auction_body 2 1 20 body-IsCarried
      auction-IsDeclared auction_validated not_there (λ e. absurd (omega (arith, e)))

-- Socket 7 listens to auction 1 already.
abbrev listeners : Connections
listeners key = if key == 1 then some (7 ∷ []) else none

-- While the snapshot of socket 9 is sent, another socket joins and a bid is broadcast that only socket 9
-- takes; later socket 7 leaves, and then socket 9 is gone.
abbrev surroundings : Surroundings
surroundings = record {
  close = none;
  accept = none;
  send_json = none;
  receive_text = websocket_disconnect;
  early = joined 1 8 ∷ broadcasted 1 (λ s. s == 9) ∷ [];
  late = left 1 7 ∷ [];
}

auction_websocket-connected_example :
    Visits listeners 1 9 1 8 true
      (auction_websocket listeners 1 9 surroundings (ok (some (snapshot_of auction))))
unfolding has connected
auction_websocket-connected_example =
    auction_websocket-connected listeners 1 1 9 8 surroundings (ok (some (snapshot_of auction)))
      refl refl (tt, (refl, tt)) (refl, tt)
