-- ===== src/Checker/Reports.antt =====
-- What the check reports of sound tables.
use transaction_safe_bidding.Prelude.{
  ◌<◌, ◌≡◌, refl, sym, ap, ◌∙◌, subst, none, some, List, [], ◌==◌, length,
}
use transaction_safe_bidding.Domain.Models.{Uuid, AuctionSnapshot, AcceptedBid}
use transaction_safe_bidding.Domain.Errors.{ok}
use transaction_safe_bidding.Domain.Snapshots.{auction_snapshot-IsValid}
use transaction_safe_bidding.Db.Tables.{
  AuctionRow, Database, lookup_auction, row_fields, auction_from_row,
}
use transaction_safe_bidding.Db.Repository.{get, list_bids, bids_from_rows, ordered}
use transaction_safe_bidding.Db.Mapped.{auction_from_row-columns}
use transaction_safe_bidding.Db.Safety.Optimistic.{InWindow}
use transaction_safe_bidding.Db.Safety.Calls.{lookup_auction-id}
use mathlib.Core.Logic.{◌↔◌}
use transaction_safe_bidding.Checker.Defs.{InvariantReport}
use transaction_safe_bidding.Db.History.{Unique}
use transaction_safe_bidding.Db.Mapped.{snapshot_of}
use transaction_safe_bidding.Checker.Defs.{violations_of}
use transaction_safe_bidding.Checker.Converse.{violations_of-Linked}
use transaction_safe_bidding.Checker.Sorting.{ordered-Unique, bids_map}
use transaction_safe_bidding.Db.History.{Linked, IsSound, bids_of}
use transaction_safe_bidding.Db.Guarantees.Histories.{policy}
use transaction_safe_bidding.Checker.Defs.{report_of, violations_of, check_auction_invariants}
use transaction_safe_bidding.Checker.Sorting.{ordered-Counts, bids_from_rows-columns}
use transaction_safe_bidding.Checker.Agreement.{
  violations_of-InWindow, keep_if-Unique, Linked-Counts,
}

increment_positive :
    (r : AuctionRow) (a : AuctionSnapshot)
    → auction_from_row r ≡ ok a
    → 0 < r.minimum_increment_cents
unfolding auction_from_row
increment_positive r a h =
    subst (λ (x : AuctionSnapshot). 0 < x.minimum_increment_cents) (auction_from_row-columns r a h)
      (auction_snapshot-IsValid (row_fields r) a h).increment.0

-- Where the histories are sound and every bid is dated inside its window, the check of an auction that
-- is in the table, and whose row and bids can be mapped, returns a report without violations that
-- counts the bids.
pub check-InWindow :
    (db start_db : Database) (key : Uuid) (r : AuctionRow) (a : AuctionSnapshot)
    (bids : List AcceptedBid)
    → IsSound (policy InWindow start_db) db
    → lookup_auction key db.auctions ≡ some r
    → auction_from_row r ≡ ok a
    → bids_from_rows (bids_of key db.bids) ≡ ok bids
    → check_auction_invariants db key
      ≡ ok (record { auction_id = key; bid_count = length bids; violations = [] })
unfolding check_auction_invariants get list_bids report_of
check-InWindow db start_db key r a bids sound found mapped listed =
    let at_key = lookup_auction-id key db.auctions r found in
    let history : Linked InWindow r 0 none none (bids_of key db.bids) =
      subst (λ k. Linked InWindow r 0 none none (bids_of k db.bids)) at_key
        (sound.linked r (subst (λ k. lookup_auction k db.auctions ≡ some r) (sym at_key) found)) in
    let sorted : ordered (bids_of key db.bids) ≡ bids_of key db.bids =
      ordered-Counts 1 (bids_of key db.bids)
        (Linked-Counts InWindow r 0 none none (bids_of key db.bids) history) in
    let clean : violations_of a bids ≡ [] =
      rw
        (
          auction_from_row-columns r a mapped,
          bids_from_rows-columns (bids_of key db.bids) bids listed,
        )
        (violations_of-InWindow r (bids_of key db.bids) (increment_positive r a mapped)
          (keep_if-Unique (λ b. b.auction_id == key) db.bids sound.unique) history) in
    rw (found, mapped, sorted, listed, clean) refl

clean_report : (r s : InvariantReport) → ok r ≡ ok s → r.violations ≡ s.violations
clean_report r s e = cc

-- Where no two bids have one id or one request: for an auction that is in the table, and whose row and
-- bids can be mapped, the check returns a report without violations exactly if the bids of the auction,
-- in the order of their versions, form a sound history that leads to the row, with every bid dated
-- inside the window.
pub check-Linked :
    (db : Database) (key : Uuid) (r : AuctionRow) (a : AuctionSnapshot) (bids : List AcceptedBid)
    → Unique db.bids
    → lookup_auction key db.auctions ≡ some r
    → auction_from_row r ≡ ok a
    → list_bids db key ≡ ok bids
    → (check_auction_invariants db key
        ≡ ok (record { auction_id = key; bid_count = length bids; violations = [] }))
      ↔ Linked InWindow r 0 none none (ordered (bids_of key db.bids))
unfolding check_auction_invariants get list_bids report_of
check-Linked db key r a bids unique found mapped listed =
    let rows = ordered (bids_of key db.bids) in
    let positive = increment_positive r a mapped in
    let one_each : Unique rows =
      ordered-Unique (bids_of key db.bids)
        (keep_if-Unique (λ b. b.auction_id == key) db.bids unique) in
    let is_a : a ≡ snapshot_of r = auction_from_row-columns r a mapped in
    let is_bids : bids ≡ bids_map rows = bids_from_rows-columns rows bids listed in
    let result : check_auction_invariants db key
        ≡ ok (record {
          auction_id = key;
          bid_count = length bids;
          violations = violations_of a bids;
        }) =
      rw (found, mapped, listed) refl in
    (
      (λ e.
          violations_of-Linked r rows positive one_each
            (rw⁻¹ (is_a, is_bids) (clean_report _ _ (sym result ∙ e)))),
      λ history.
          result
          ∙ ap (λ v. ok (record { auction_id = key; bid_count = length bids; violations = v }))
              (rw (is_a, is_bids) (violations_of-InWindow r rows positive one_each history)),
    )
