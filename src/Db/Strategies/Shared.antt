-- ===== src/Db/Strategies/Shared.antt =====
-- src/bidding/db/strategies.py: the parts that the three strategies share.
use transaction_safe_bidding.Prelude.{
  ℕ, Bool, ◌&&◌, Option, none, some, ◌==◌, if◌then◌else◌, strip, text_eq,
}
use transaction_safe_bidding.Domain.Errors.{runtime_error, assertion_error, Result, ok, err}
use transaction_safe_bidding.Domain.Models.{
  Uuid, int, aware, AuctionSnapshot, BidCommand, BidEvaluation, request_id_reused, AcceptedBid,
}
use transaction_safe_bidding.Domain.Outcome.{BidOutcome, replayed, rejected}
use transaction_safe_bidding.Domain.Rules.{evaluate_bid}
use transaction_safe_bidding.Db.Tables.{auction_from_row, bid_from_row}
use transaction_safe_bidding.Db.Statements.{find_bid, find_auction, database_clock, insert_bid}
use transaction_safe_bidding.Db.Program.{Prog, raise, ◌>>=◌, lift, query, transaction}

abbrev pub some_row {ℓ} : {B : Type ℓ} → Result B → Result (Option B)
some_row (ok b) = ok (some b)
some_row (err e) = err e

-- `None if row is None else f(row)`
abbrev pub map_row {ℓ κ} : {A : Type ℓ} {B : Type κ} → (A → Result B) → Option A → Result (Option B)
map_row f none = ok none
map_row f (some row) = some_row (f row)

-- `_existing_bid`
unfoldable pub existing_bid : Uuid → Prog (Option AcceptedBid)
existing_bid request = query (find_bid request) >>= λ row. lift (map_row bid_from_row row)

-- `_read_auction`
unfoldable pub read_auction : Uuid → Bool → Prog (Option AuctionSnapshot)
read_auction auction for_update =
    query (find_auction auction for_update) >>= λ row. lift (map_row auction_from_row row)

-- `_database_time`
unfoldable pub database_time : Prog ℕ
database_time = query database_clock

unfoldable pub same_payload : AcceptedBid → BidCommand → Bool
same_payload existing command =
    existing.auction_id == command.auction_id
    && text_eq existing.bidder_id (strip command.bidder_id)
    && existing.amount_cents == command.amount_cents

-- `_replay_or_reject`
unfoldable pub replay_or_reject : AcceptedBid → BidCommand → Result BidOutcome
replay_or_reject existing command =
    if same_payload existing command
    then replayed existing 1 0
    else rejected request_id_reused none 1 0

unfoldable pub resolve_existing : BidCommand → Option AcceptedBid → Prog BidOutcome
resolve_existing command none = raise runtime_error
resolve_existing command (some existing) = lift (replay_or_reject existing command)

-- `_resolve_duplicate_request`: a connection of its own, after the failed transaction.
unfoldable pub resolve_duplicate_request : BidCommand → Prog BidOutcome
resolve_duplicate_request command =
    transaction (existing_bid command.request_id) >>= resolve_existing command

-- `_insert_bid`
unfoldable pub insert_new_bid : BidCommand → Uuid → ℕ → Prog AcceptedBid
insert_new_bid command bid_id version =
    query (
      insert_bid (record {
        id = bid_id;
        request_id = command.request_id;
        auction_id = command.auction_id;
        bidder_id = strip command.bidder_id;
        amount_cents = command.amount_cents;
        auction_version = version;
      }))
    >>= λ row. lift (bid_from_row row)

-- `evaluate_bid(auction, amount_cents=command.amount_cents, now=...)` on the clock's reading
abbrev pub evaluate : AuctionSnapshot → BidCommand → ℕ → Result BidEvaluation
evaluate auction command now = evaluate_bid auction (int command.amount_cents) (aware now)

-- A rejection of the rules: the reason is asserted to be there.
unfoldable pub refuse : BidEvaluation → ℕ → ℕ → Result BidOutcome
refuse evaluation attempts conflicts = elim evaluation.rejection_reason [
  | none ↦ err assertion_error
  | some reason ↦ rejected reason (some evaluation.minimum_acceptable_cents) attempts conflicts
]
