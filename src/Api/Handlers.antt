-- ===== src/Api/Handlers.antt =====
-- The handlers of src/bidding/api/routes.py on auctions and bids, with `AuctionResponse` of
-- src/bidding/api/schemas.py. A `BidResponse` has the fields of the bid itself.
use transaction_safe_bidding.Prelude.{ℕ, Option, none, some, List, Text}
use transaction_safe_bidding.Domain.Errors.{Result, ok, err, ◌>>=◌}
use transaction_safe_bidding.Domain.Models.{
  Uuid, int, BidCommand, bid_command, AuctionSnapshot, AcceptedBid,
}
use transaction_safe_bidding.Db.Tables.{Database}
use transaction_safe_bidding.Db.Statements.{Env, idle}
use transaction_safe_bidding.Db.Program.{run}
use transaction_safe_bidding.Db.Repository.{Driver, NewAuction}
use transaction_safe_bidding.Api.Replies.{Reply, place_bid_reply}
use transaction_safe_bidding.Api.Requests.{CreateAuctionRequest, PlaceBidRequest}
use transaction_safe_bidding.Api.Service.{BiddingService}
use transaction_safe_bidding.Api.Service as Service

pub record AuctionResponse : Type 0 where
  pub id : Uuid
  pub title : Text
  pub starting_price_cents : ℕ
  pub current_price_cents : Option ℕ
  pub minimum_increment_cents : ℕ
  pub winning_bid_id : Option Uuid
  pub version : ℕ
  pub starts_at : ℕ
  pub ends_at : ℕ
  pub created_at : ℕ

-- `AuctionResponse.from_domain`
unfoldable pub auction_response : AuctionSnapshot → AuctionResponse
auction_response auction = record {
  id = auction.id;
  title = auction.title;
  starting_price_cents = auction.starting_price_cents;
  current_price_cents = auction.current_price_cents;
  minimum_increment_cents = auction.minimum_increment_cents;
  winning_bid_id = auction.winning_bid_id;
  version = auction.version;
  starts_at = auction.starts_at;
  ends_at = auction.ends_at;
  created_at = auction.created_at;
}

-- A reply with a body, or 404 with `auction_not_found`.
pub data Response (A : Type 0) : Type 0 where
  created found : A → Response A
  not_found : Response A

unfoldable pub created_reply : Result AuctionSnapshot → Result (Response AuctionResponse)
unfolding auction_response
created_reply (err e) = err e
created_reply (ok auction) = ok (created (auction_response auction))

abbrev pub new_auction : CreateAuctionRequest → NewAuction
new_auction body = record {
  title = body.title;
  starting_price_cents = body.starting_price_cents;
  minimum_increment_cents = body.minimum_increment_cents;
  starts_at = body.starts_at;
  ends_at = body.ends_at;
}

-- POST /auctions, with the identifier that the repository draws and the clock of its statement.
unfoldable pub create_auction :
    Driver
    → BiddingService
    → Database
    → CreateAuctionRequest
    → Uuid
    → ℕ
    → Result (Response AuctionResponse) × Database
unfolding created_reply
create_auction driver service db body identifier now =
    let (auction, db') =
      Service.create_auction driver service db (new_auction body) identifier now in
    (created_reply auction, db')

unfoldable pub found_reply : Option AuctionSnapshot → Response AuctionResponse
unfolding auction_response
found_reply none = not_found
found_reply (some auction) = found (auction_response auction)

-- GET /auctions/{auction_id}
unfoldable pub get_auction : BiddingService → Database → Uuid → Result (Response AuctionResponse)
unfolding found_reply
get_auction service db auction_id = do
  auction ← Service.get_auction service db auction_id
  ok (found_reply auction)

-- What follows when the auction has been looked up.
unfoldable pub bids_reply :
    BiddingService → Database → Uuid → Option AuctionSnapshot → Result (Response (List AcceptedBid))
bids_reply service db auction_id none = ok not_found
bids_reply service db auction_id (some auction) = do
  bids ← Service.list_bids service db auction_id
  ok (found bids)

-- GET /auctions/{auction_id}/bids: two statements, on the tables at two instants.
unfoldable pub list_bids :
    BiddingService → Database → Database → Uuid → Result (Response (List AcceptedBid))
unfolding bids_reply
list_bids service db later auction_id = do
  auction ← Service.get_auction service db auction_id
  bids_reply service later auction_id auction

-- The command of a body; its constructor may raise.
unfoldable pub command_of : Uuid → PlaceBidRequest → Result BidCommand
unfolding bid_command
command_of auction_id body =
    bid_command body.request_id auction_id body.bidder_id (int body.amount_cents)

unfoldable pub place_command :
    BiddingService → (ℕ → Env) → Database → Uuid → Result BidCommand → Result Reply × Database
place_command service envs db auction_id (err e) = (err e, db)
place_command service envs db auction_id (ok command) =
    let (outcome, t, db') = run envs 0 db idle (Service.place_bid service command) in
    (place_bid_reply auction_id outcome, db')

-- POST /auctions/{auction_id}/bids, where no other connection interferes: the reply, what is broadcast
-- with it, and the tables afterwards.
unfoldable pub place_bid :
    BiddingService → (ℕ → Env) → Database → Uuid → PlaceBidRequest → Result Reply × Database
unfolding command_of place_command
place_bid service envs db auction_id body =
    place_command service envs db auction_id (command_of auction_id body)
