-- ===== src/Tests/Edges.antt =====
-- The theorems on the API and on the migrations at concrete inputs.
use transaction_safe_bidding.Prelude.{
  ℕ, ◌+◌, ◌≡◌, refl, inl, not, ◌&&◌, ◌||◌, none, some, List, [], ◌∷◌, ◌==◌, if◌then◌else◌, Text,
}
use transaction_safe_bidding.Prelude.All.{All, In}
use transaction_safe_bidding.Domain.Errors.{Exn, Result, ok, err}
use transaction_safe_bidding.Domain.Models.{BidOutcomeStatus, AcceptedBid}
use transaction_safe_bidding.Domain.Outcome.{bid_outcome, outcome_fits}
use transaction_safe_bidding.Db.Tables.{BidRow, bid_from_row}
use transaction_safe_bidding.Db.Safety.Pessimistic.{NotEarly}
use transaction_safe_bidding.Db.Guarantees.Histories.{policy}
use transaction_safe_bidding.Api.Sockets.{
  Connections, connected, connect, broadcast, has, connect-connected, broadcast-connected,
}
use transaction_safe_bidding.Api.Replies.{
  BidPlacementResponse, AuctionStateEvent, Reply, placement_response, state_event, reply_of,
  place_bid_reply, GoesWith, place_bid_reply-GoesWith,
}
use transaction_safe_bidding.Api.Delivered.{broadcast-committed}
use transaction_safe_bidding.Migrations.Defs.{
  Migration, State, record_of, previous, same_migration, unique_versions, discover_migrations,
  apply_migration, turn, apply_all, end_transaction, migrate,
}
use transaction_safe_bidding.Prelude.{codes, arith}
use transaction_safe_bidding.Migrations.Names.{
  migration_from_path, migration_from_path-three_digits,
}
use transaction_safe_bidding.Migrations.Runs.{IsApplied, migrate_again, migrate_drift}
use transaction_safe_bidding.Tests.Data.{
  text_a, tables, command, mixed, mixed-IsSafe, tables-IsSound,
}
use transaction_safe_bidding.Tests.Runs.{outcome, two_placed, Reach-two}

abbrev placed_bid : AcceptedBid
placed_bid = record {
  id = 1100;
  request_id = 201;
  auction_id = 1;
  bidder_id = text_a;
  amount_cents = 110;
  auction_version = 2;
  accepted_at = 20;
}

place_bid_reply-GoesWith_example :
    (reply : Reply) × (place_bid_reply 1 (ok (outcome 1)) ≡ ok reply)
    × GoesWith BidOutcomeStatus.accepted reply
unfolding bid_outcome outcome_fits
place_bid_reply-GoesWith_example =
    place_bid_reply-GoesWith 1 BidOutcomeStatus.accepted (some placed_bid) none none 1 0 (outcome 1)
      refl

abbrev response : BidPlacementResponse
response = record {
  status = BidOutcomeStatus.accepted;
  bid = placed_bid;
  attempts = 1;
  conflicts = 0;
}

abbrev event : AuctionStateEvent
event = record { auction_id = 1; version = 2; bid = placed_bid }

broadcast-committed_example :
    (row : BidRow) × In row two_placed.db.bids
    × (bid_from_row row ≡ ok event.bid)
    × (event.auction_id ≡ row.auction_id)
    × (event.version ≡ row.auction_version)
unfolding place_bid_reply reply_of placement_response state_event
broadcast-committed_example =
    broadcast-committed tables 20 mixed command mixed-IsSafe
      (tables-IsSound (policy NotEarly tables)) Reach-two 1 (outcome 1) response event refl refl

-- Two sockets listen to auction 1.
abbrev listeners : Connections
listeners key = if key == 1 then some (7 ∷ 8 ∷ []) else none

connect-connected_example :
    has 9 (connected (connect listeners 1 9) 1)
    ≡ ((1 == 1 && 9 == 9) || has 9 (connected listeners 1))
connect-connected_example = connect-connected listeners 1 1 9 9

-- Socket 8 does not take the payload.
broadcast-connected_example :
    has 8 (connected (broadcast listeners 1 (λ s. s == 7)) 1)
    ≡ (has 8 (connected listeners 1) && (not (1 == 1) || 8 == 7))
broadcast-connected_example = broadcast-connected listeners 1 1 (λ s. s == 7) 8

-- A schema that counts the scripts that have run.
abbrev count_scripts : Text → ℕ → Result ℕ
count_scripts sql n = ok (n + 1)

abbrev initial_schema : Migration
initial_schema = record { version = 1; name = text_a; sql = text_a; checksum = text_a }

abbrev second_schema : Migration
second_schema = record { version = 2; name = text_a; sql = text_a; checksum = text_a }

abbrev files : List Migration
files = initial_schema ∷ second_schema ∷ []

abbrev one_applied : State ℕ
one_applied = record { schema = 1; applied = record_of initial_schema ∷ [] }

abbrev both_applied : State ℕ
both_applied = record {
  schema = 2;
  applied = record_of initial_schema ∷ record_of second_schema ∷ [];
}

migrate_again_example :
    All (IsApplied both_applied.applied) files
    × (migrate count_scripts files both_applied ≡ (ok [], both_applied))
unfolding migrate discover_migrations unique_versions end_transaction apply_all turn apply_migration
    previous same_migration
migrate_again_example = migrate_again count_scripts files one_applied both_applied (2 ∷ []) refl

-- The recorded migration 1 has an empty checksum.
abbrev drifted_state : State ℕ
drifted_state = record {
  schema = 1;
  applied = record { version = 1; name = text_a; checksum = [] } ∷ [];
}

migrate_drift_example :
    (e : Exn) × (migrate count_scripts files drifted_state ≡ (err e, drifted_state))
unfolding previous same_migration
migrate_drift_example =
    migrate_drift count_scripts files drifted_state initial_schema
      (record { version = 1; name = text_a; checksum = [] }) (inl refl) refl refl

migration_from_path-three_digits_example :
    migration_from_path (codes "001_bids.sql") ≡ ok (1, codes "bids")
migration_from_path-three_digits_example =
    migration_from_path-three_digits 1 98 (codes "ids") (omega arith)
      (refl, (refl, (refl, (refl, tt))))
