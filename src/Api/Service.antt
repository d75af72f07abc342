-- ===== src/Api/Service.antt =====
-- `BiddingService` of src/bidding/application/service.py: the repository and the strategy behind one
-- object. Its methods pass their arguments on.
use transaction_safe_bidding.Prelude.{ℕ, Option, List}
use transaction_safe_bidding.Domain.Errors.{Result}
use transaction_safe_bidding.Domain.Models.{Uuid, BidCommand, AuctionSnapshot, AcceptedBid}
use transaction_safe_bidding.Domain.Outcome.{BidOutcome}
use transaction_safe_bidding.Db.Tables.{Database}
use transaction_safe_bidding.Db.Program.{Prog}
use transaction_safe_bidding.Db.Strategies.{BidStrategy}
use transaction_safe_bidding.Db.Strategies as Strategies
use transaction_safe_bidding.Db.Repository.{Driver, NewAuction}
use transaction_safe_bidding.Db.Repository as Repository

-- The repository has no state but the tables.
pub record BiddingService : Type 0 where
  pub bid_strategy : BidStrategy

unfoldable pub create_auction :
    Driver → BiddingService → Database → NewAuction → Uuid → ℕ → Result AuctionSnapshot × Database
create_auction driver service db auction identifier now =
    Repository.create driver db auction identifier now

unfoldable pub get_auction : BiddingService → Database → Uuid → Result (Option AuctionSnapshot)
get_auction service db auction_id = Repository.get db auction_id

unfoldable pub list_bids : BiddingService → Database → Uuid → Result (List AcceptedBid)
list_bids service db auction_id = Repository.list_bids db auction_id

unfoldable pub place_bid : BiddingService → BidCommand → Prog BidOutcome
place_bid service command = Strategies.place_bid service.bid_strategy command
