-- ===== src/Db/Perform.antt =====
-- One statement of a connection, with the answer or the error of PostgreSQL. After an error the
-- transaction cannot commit any more: its writes are dropped at once.
use transaction_safe_bidding.Prelude.{
  ℕ, ◌+◌, Bool, true, false, Option, none, some, ◌++◌, if◌then◌else◌,
}
use transaction_safe_bidding.Domain.Errors.{foreign_key_violation, Result, ok, err}
use transaction_safe_bidding.Domain.Models.{Uuid, is_some}
use transaction_safe_bidding.Db.Tables.{
  AuctionRow, Database, lookup_auction, lookup_request, clashes,
}
use transaction_safe_bidding.Db.Statements.{
  Stmt, connect, commit, rollback, find_bid, find_auction, database_clock, new_uuid, insert_bid,
  update_to, update_next, update_if, Answer, Txn, ended, Env, visible, lock, stage, written,
  commits, new_row, inserted, insert_error, matches, with_bid,
}

unfoldable pub locking : Txn → Bool → Option AuctionRow → Txn
unfolding lock
locking t false o = t
locking t true none = t
locking t true (some r) = lock t r

-- An unconditional UPDATE of the row with the key of the statement, if there is one.
unfoldable pub update_row :
    Txn → Option AuctionRow → (AuctionRow → AuctionRow) → Result (Unit {0}) × Txn
unfolding stage
update_row t none change = (ok tt, t)
update_row t (some r) change = stage t r (change r)

abbrev pub returning : ℕ → Result (Unit {0}) × Txn → Result (Option ℕ) × Txn
returning version (ok _, t) = (ok (some version), t)
returning version (err e, t) = (err e, t)

-- `UPDATE ... RETURNING auction.version`, by whether the WHERE clause holds of the row.
unfoldable pub update_matched : Txn → AuctionRow → AuctionRow → Bool → Result (Option ℕ) × Txn
unfolding stage
update_matched t r new false = (ok none, t)
update_matched t r new true = returning new.version (stage t r new)

unfoldable pub update_guarded : Txn → Option AuctionRow → ℕ → Uuid → ℕ → ℕ → Result (Option ℕ) × Txn
unfolding update_matched with_bid
update_guarded t none amount bid observed time = (ok none, t)
update_guarded t (some r) amount bid observed time =
    update_matched t r (with_bid r amount bid (r.version + 1)) (matches r amount observed time)

unfoldable pub perform : Env → Database → Txn → (s : Stmt) → Result (Answer s) × Txn × Database
unfolding visible written new_row inserted with_bid locking update_row update_guarded
perform env db t connect = (ok tt, ended t, db)
perform env db t commit =
    if commits db t
    then (ok tt, record (ended t) { saved = t.saved ++ t.bids }, written db t)
    else (err foreign_key_violation, ended t, db)
perform env db t rollback = (ok tt, ended t, db)
perform env db t (find_bid request) = (ok (lookup_request request (db.bids ++ t.bids)), t, db)
perform env db t (find_auction key for_update) =
    let row = visible db t key in (ok row, locking t for_update row, db)
perform env db t database_clock = (ok env.time, t, db)
perform env db t new_uuid = (ok env.uuid, t, db)
perform env db t (insert_bid b) =
    let row = new_row b env.time in
    let (reply, t') = inserted t row (insert_error db t row) in (reply, t', db)
perform env db t (update_to amount bid version key) =
    let (reply, t') = update_row t (visible db t key) (λ r. with_bid r amount bid version) in
    (reply, t', db)
perform env db t (update_next amount bid key) =
    let (reply, t') =
      update_row t (visible db t key) (λ r. with_bid r amount bid (r.version + 1)) in
    (reply, t', db)
perform env db t (update_if amount bid key observed) =
    let (reply, t') = update_guarded t (visible db t key) amount bid observed env.time in
    (reply, t', db)

-- A row lock, or a unique key that another open transaction has inserted, makes a statement wait.
unfoldable pub blocks : Stmt → Txn → Bool
unfolding lookup_auction clashes
blocks (find_auction key true) other = is_some (lookup_auction key other.locked)
blocks (insert_bid b) other = clashes b.id b.request_id other.bids
blocks (update_to _ _ _ key) other = is_some (lookup_auction key other.locked)
blocks (update_next _ _ key) other = is_some (lookup_auction key other.locked)
blocks (update_if _ _ key _) other = is_some (lookup_auction key other.locked)
blocks _ other = false
