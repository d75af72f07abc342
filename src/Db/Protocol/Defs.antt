-- ===== src/Db/Protocol/Defs.antt =====
-- What a connection may rely on between its statements, what it owes before a commit, and the
-- programs that keep to it.
use transaction_safe_bidding.Prelude.{ℕ, ◌+◌, ◌≤◌, ◌≡◌, true, false, some, [], ◌∷◌}
use transaction_safe_bidding.Prelude.All.{All, In}
use transaction_safe_bidding.Domain.Errors.{Exn, Result, ok, err}
use transaction_safe_bidding.Domain.Models.{Uuid}
use transaction_safe_bidding.Db.Tables.{AuctionRow, BidRow, Database, lookup_auction, clashes}
use transaction_safe_bidding.Db.Statements.{
  Stmt, commit, find_auction, update_to, update_next, update_if, Txn, ended, Env, required_price,
  with_bid,
}
use transaction_safe_bidding.Db.Perform.{perform}
use transaction_safe_bidding.Db.Program.{Prog, ret, raise, call}

-- What a set of strategies agrees on: what is asked of the instant of a bid, by the start and the end
-- of its auction, and the start of each auction, which never changes.
pub record Policy : Type 1 where
  pub Timely : ℕ → ℕ → ℕ → Type 0
  pub start : Uuid → ℕ

-- What stays true of the tables while the transaction is open: a locked row is as it was, the keys of
-- the new bids are free, and what was committed is there.
pub record Knows (P : Policy) (db : Database) (t : Txn) : Type 0 where
  pub starts :
      (r : AuctionRow) → lookup_auction r.id db.auctions ≡ some r → r.starts_at ≡ P.start r.id
  pub locked : All (λ r. lookup_auction r.id db.auctions ≡ some r) t.locked
  pub fresh : All (λ b. clashes b.id b.request_id db.bids ≡ false) t.bids
  pub saved : All (λ b. In b db.bids) t.saved

-- A new version of a row of an auction is made by the row of an accepted bid.
pub record Extends (P : Policy) (r : AuctionRow) (b : BidRow) (new : AuctionRow) : Type 0 where
  pub auction : b.auction_id ≡ r.id
  pub version : b.auction_version ≡ r.version + 1
  pub price : required_price r ≤ b.amount_cents
  pub timely : P.Timely r.starts_at r.ends_at b.accepted_at
  pub row : new ≡ with_bid r b.amount_cents b.id (r.version + 1)

-- What a transaction may commit: nothing, or one bid with the new version of the row that it locked.
pub data CanCommit (P : Policy) (t : Txn) : Type 0 where
  clean : t.bids ≡ [] → t.rows ≡ [] → CanCommit P t
  full :
      (r : AuctionRow) (b : BidRow) (new : AuctionRow)
      → t.locked ≡ r ∷ []
      → t.bids ≡ b ∷ []
      → t.rows ≡ new ∷ []
      → Extends P r b new
      → CanCommit P t

-- What is owed before a statement.
abbrev pub Allowed : Policy → Stmt → Txn → Type 0
Allowed P commit t = CanCommit P t
Allowed P (find_auction _ true) t = t.rows ≡ []
Allowed P (update_to _ _ _ _) t = t.rows ≡ []
Allowed P (update_next _ _ _) t = t.rows ≡ []
Allowed P (update_if _ _ _ _) t = t.rows ≡ []
Allowed P _ t = Unit

-- The program keeps to the discipline from this transaction and instant on, and ends in `Q`. Between
-- two statements the tables may change as far as `Knows` allows, the clock goes on, and a statement
-- may fail with any error.
abbrev pub Safe : Policy → {A : Type 0} → Prog A → Txn → ℕ → (Result A → Txn → ℕ → Type 0) → Type 0
Safe P (ret a) t now Q = Q (ok a) t now
Safe P (raise e) t now Q = Q (err e) t now
Safe P (call s k) t now Q =
    Allowed P s t
    × ((env : Env) (db : Database) (later : ℕ)
        → Knows P db t
        → now ≤ env.time
        → env.time ≤ later
        → let (reply, t', _) = perform env db t s in Safe P (k reply) t' later Q)
    × ((e : Exn) (later : ℕ) → now ≤ later → Safe P (k (err e)) (ended t) later Q)
