-- ===== src/Db/Safety/Calls.antt =====
-- The reads of the strategies, each with what the rest of the program may rely on.
use transaction_safe_bidding.Prelude.{
  ℕ, ◌≤◌, ◌≡◌, refl, sym, subst, true, false, Option, none, some, List, [], ◌∷◌, ◌++◌, arith,
}
use transaction_safe_bidding.Domain.Errors.{Result, ok, err}
use transaction_safe_bidding.Domain.Models.{Uuid, AuctionSnapshot, AcceptedBid}
use transaction_safe_bidding.Db.Tables.{
  AuctionRow, BidRow, Database, lookup_auction, lookup_request, auction_from_row, bid_from_row,
}
use transaction_safe_bidding.Db.Statements.{Txn, new_uuid, lock}
use transaction_safe_bidding.Db.Perform.{perform, locking}
use transaction_safe_bidding.Db.Program.{Prog, ◌>>=◌, lift, query}
use transaction_safe_bidding.Db.Strategies.Shared.{
  some_row, map_row, existing_bid, read_auction, database_time,
}
use transaction_safe_bidding.Db.Protocol.Defs.{Policy, Knows, Safe}
use transaction_safe_bidding.Db.Protocol.Rules.{Safe-lift}
use transaction_safe_bidding.Db.Safety.Outcomes.{Ready}

-- An open transaction of a connection that has committed nothing.
abbrev pub open_txn : List AuctionRow → List BidRow → List AuctionRow → Txn
open_txn locked bids rows = record { locked = locked; bids = bids; rows = rows; saved = [] }

pub lookup_auction-id :
    (key : Uuid) (rows : List AuctionRow) (r : AuctionRow)
    → lookup_auction key rows ≡ some r
    → r.id ≡ key
unfolding lookup_auction
lookup_auction-id key [] r h = cc
lookup_auction-id key (a ∷ rows) r h = ground (arith, lookup_auction-id key rows r)

pub lock_held :
    (r : AuctionRow) (bs : List BidRow) → lock (open_txn (r ∷ []) bs []) r ≡ open_txn (r ∷ []) bs []
unfolding lock
lock_held r bs = ground arith

pub start-of_key :
    (P : Policy) (db : Database) (t : Txn) (key : Uuid)
    → Knows P db t
    → (r : AuctionRow) → lookup_auction key db.auctions ≡ some r
    → r.starts_at ≡ P.start key
start-of_key P db t key knows r e =
    let at = lookup_auction-id key db.auctions r e in
    subst (λ k. r.starts_at ≡ P.start k) at
      (knows.starts r (subst (λ k. lookup_auction k db.auctions ≡ some r) (sym at) e))

pub some_row-ok :
    {A : Type 0} (x : Result A) (o : Option A)
    → some_row x ≡ ok o
    → (a : A) × (o ≡ some a) × (x ≡ ok a)
some_row-ok (ok a) o h = (a, ground arith, refl)
some_row-ok (err e) o h = cc

module _ (P : Policy) {B : Type 0} (W : B → List BidRow → Type 0) where
  abbrev pub SafeBody : Prog B → Txn → ℕ → Type 0
  SafeBody m t now = Safe P m t now (Ready P W)

  module _ (now : ℕ) (ls : List AuctionRow) (bs : List BidRow) where
    pub Safe-existing_bid :
        (request : Uuid) (f : Option AcceptedBid → Prog B)
        → ((o : Option AcceptedBid) (later : ℕ)
            → now ≤ later
            → SafeBody (f o) (open_txn ls bs []) later)
        → SafeBody (existing_bid request >>= f) (open_txn ls bs []) now
    unfolding existing_bid query ◌>>=◌ perform
    Safe-existing_bid request f go = (
      tt,
      λ env db later knows lo hi.
          Safe-lift P (map_row bid_from_row (lookup_request request (db.bids ++ bs))) f
            (open_txn ls bs []) later (Ready P W) (λ o e. go o later (omega arith)) (λ e. refl),
      λ e later lo. refl,
    )

    pub Safe-database_time :
        (f : ℕ → Prog B)
        → ((time later : ℕ)
            → now ≤ time
            → time ≤ later
            → SafeBody (f time) (open_txn ls bs []) later)
        → SafeBody (database_time >>= f) (open_txn ls bs []) now
    unfolding database_time query ◌>>=◌ perform
    Safe-database_time f go =
        (tt, λ env db later knows lo hi. go env.time later lo hi, λ e later lo. refl)

    pub Safe-new_uuid :
        (f : Uuid → Prog B)
        → ((id : Uuid) (later : ℕ) → now ≤ later → SafeBody (f id) (open_txn ls bs []) later)
        → SafeBody (query new_uuid >>= f) (open_txn ls bs []) now
    unfolding query lift ◌>>=◌ perform
    Safe-new_uuid f go =
        (tt, λ env db later knows lo hi. go env.uuid later (omega arith), λ e later lo. refl)

  pub Safe-some_row :
      (g : AuctionRow → Result AuctionSnapshot) (r : AuctionRow)
      (f : Option AuctionSnapshot → Prog B) (t : Txn) (now : ℕ)
      → t.saved ≡ []
      → ((a : AuctionSnapshot) → g r ≡ ok a → SafeBody (f (some a)) t now)
      → SafeBody (lift (map_row g (some r)) >>= f) t now
  Safe-some_row g r f t now s go =
      Safe-lift P (map_row g (some r)) f t now (Ready P W)
        (λ o e.
          let (a, p, q) = some_row-ok (g r) o e in
          subst (λ x. SafeBody (f x) t now) (sym p) (go a q))
        (λ e. s)

  -- A read with no lock tells of the window of the auction, and of nothing that may change.
  pub Safe-read_auction :
      (now : ℕ) (key : Uuid) (f : Option AuctionSnapshot → Prog B)
      → ((later : ℕ) → now ≤ later → SafeBody (f none) (open_txn [] [] []) later)
      → ((r : AuctionRow) (a : AuctionSnapshot) (later : ℕ)
          → auction_from_row r ≡ ok a
          → r.starts_at ≡ P.start key
          → now ≤ later
          → SafeBody (f (some a)) (open_txn [] [] []) later)
      → SafeBody (read_auction key false >>= f) (open_txn [] [] []) now
  unfolding read_auction query ◌>>=◌ perform
  Safe-read_auction now key f missing found = (
    tt,
    λ env db later knows lo hi.
        at_row later (omega arith) (lookup_auction key db.auctions)
          (start-of_key P db (open_txn [] [] []) key knows),
    λ e later lo. refl,
  )
    where
      at_row :
          (later : ℕ)
          → now ≤ later
          → (o : Option AuctionRow) → ((r : AuctionRow) → o ≡ some r → r.starts_at ≡ P.start key)
          → SafeBody (lift (map_row auction_from_row o) >>= f) (open_txn [] [] []) later
      at_row later le none at = missing later le
      at_row later le (some r) at =
          Safe-some_row auction_from_row r f (open_txn [] [] []) later refl
            (λ a e. found r a later e (at r refl) le)

  -- FOR UPDATE: the row is locked, or there is none.
  pub Safe-read_locked :
      (now : ℕ) (key : Uuid) (f : Option AuctionSnapshot → Prog B)
      → ((later : ℕ) → now ≤ later → SafeBody (f none) (open_txn [] [] []) later)
      → ((r : AuctionRow) (a : AuctionSnapshot) (later : ℕ)
          → r.id ≡ key
          → auction_from_row r ≡ ok a
          → now ≤ later
          → SafeBody (f (some a)) (open_txn (r ∷ []) [] []) later)
      → SafeBody (read_auction key true >>= f) (open_txn [] [] []) now
  unfolding read_auction query ◌>>=◌ perform
  Safe-read_locked now key f missing found = (
    refl,
    λ env db later knows lo hi.
        at_row later (omega arith) (lookup_auction key db.auctions)
          (lookup_auction-id key db.auctions),
    λ e later lo. refl,
  )
    where
      at_row :
          (later : ℕ)
          → now ≤ later
          → (o : Option AuctionRow) → ((r : AuctionRow) → o ≡ some r → r.id ≡ key)
          → SafeBody
              (lift (map_row auction_from_row o) >>= f)
              (locking (open_txn [] [] []) true o)
              later
      at_row later le none at = missing later le
      at_row later le (some r) at =
          Safe-some_row auction_from_row r f (open_txn (r ∷ []) [] []) later refl
            (λ a e. found r a later (at r refl) e le)
