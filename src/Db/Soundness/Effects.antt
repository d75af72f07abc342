-- ===== src/Db/Soundness/Effects.antt =====
-- What a statement other than COMMIT does to the locks and the pending bids of its connection.
use transaction_safe_bidding.Prelude.{
  ℕ, ◌+◌, ◌≡◌, refl, sym, subst, ◌≢◌, inl, inr, Bool, true, false, Option, none, some, List, [],
  ◌∷◌, ◌++◌, arith, Bool-cases,
}
use transaction_safe_bidding.Domain.Errors.{Exn, Result, ok, err}
use transaction_safe_bidding.Domain.Models.{Uuid, is_some}
use transaction_safe_bidding.Db.Tables.{
  AuctionRow, BidRow, Database, lookup_auction, clashes, auction_row_error,
}
use transaction_safe_bidding.Db.Statements.{
  Stmt, connect, commit, rollback, find_bid, find_auction, database_clock, new_uuid, insert_bid,
  update_to, update_next, update_if, Txn, Env, visible, lock, staged, stage, new_row, inserted,
  insert_error, with_bid, matches,
}
use transaction_safe_bidding.Db.Perform.{
  perform, locking, update_row, returning, update_matched, update_guarded, blocks,
}
use transaction_safe_bidding.Db.Protocol.Defs.{Policy, Allowed}
use transaction_safe_bidding.Db.Safety.Calls.{lookup_auction-id}
use transaction_safe_bidding.Db.History.{clashes-append_left}

-- `other` does not make a statement wait that locks or inserts such a row.
pub data Effect (db : Database) (s : Stmt) (t t' : Txn) : Type 0 where
  keeps : t'.locked ≡ t.locked → t'.bids ≡ t.bids → t'.saved ≡ t.saved → Effect db s t t'
  drops : t'.locked ≡ [] → t'.bids ≡ [] → t'.saved ≡ t.saved → Effect db s t t'
  locks :
      (r : AuctionRow)
      → lookup_auction r.id db.auctions ≡ some r
      → t'.locked ≡ r ∷ t.locked
      → t'.bids ≡ t.bids
      → t'.saved ≡ t.saved
      → ((other : Txn) → blocks s other ≡ false → lookup_auction r.id other.locked ≡ none)
      → Effect db s t t'
  inserts :
      (b : BidRow)
      → clashes b.id b.request_id db.bids ≡ false
      → t'.locked ≡ t.locked
      → t'.bids ≡ t.bids ++ b ∷ []
      → t'.saved ≡ t.saved
      → ((other : Txn) → blocks s other ≡ false → clashes b.id b.request_id other.bids ≡ false)
      → Effect db s t t'

Effect-rows :
    (db : Database) (s : Stmt) (t t' : Txn) (rows : List AuctionRow)
    → Effect db s t t'
    → Effect db s t (record t' { rows = rows })
Effect-rows db s t t' rows (keeps p q v) = keeps p q v
Effect-rows db s t t' rows (drops p q v) = drops p q v
Effect-rows db s t t' rows (locks r e p q v w) = locks r e p q v w
Effect-rows db s t t' rows (inserts b e p q v w) = inserts b e p q v w

visible_committed :
    (db : Database) (t : Txn) (key : Uuid)
    → t.rows ≡ []
    → visible db t key ≡ lookup_auction key db.auctions
unfolding visible
visible_committed db t key h = rw h refl

none_of_not_some : (o : Option AuctionRow) → is_some o ≡ false → o ≡ none
none_of_not_some none h = refl
none_of_not_some (some r) h = cc

module _ (db : Database) (s : Stmt) (t : Txn) (key : Uuid)
    (waits : (other : Txn) → blocks s other ≡ false → lookup_auction key other.locked ≡ none) where
  -- Locking a committed row.
  lock-Effect :
      (r : AuctionRow) → lookup_auction key db.auctions ≡ some r → Effect db s t (lock t r)
  unfolding lock
  lock-Effect r e = elim (Bool-cases (is_some (lookup_auction r.id t.locked))) [
    | inl held ↦ keeps (rw held refl) (rw held refl) (rw held refl)
    | inr new ↦
        locks r (subst (λ k. lookup_auction k db.auctions ≡ some r) (sym at) e) (rw new refl)
          (rw new refl) (rw new refl)
          (λ other h. subst (λ k. lookup_auction k other.locked ≡ none) (sym at) (waits other h))
  ]
    where
      at : r.id ≡ key
      at = lookup_auction-id key db.auctions r e

  staged-Effect :
      (r new : AuctionRow) (o : Option Exn)
      → lookup_auction key db.auctions ≡ some r
      → Effect db s t (staged t r new o).1
  unfolding staged
  staged-Effect r new (some x) e = drops refl refl refl
  staged-Effect r new none e = Effect-rows db s t (lock t r) _ (lock-Effect r e)

  locking-Effect :
      (o : Option AuctionRow)
      → lookup_auction key db.auctions ≡ o
      → Effect db s t (locking t true o)
  unfolding locking
  locking-Effect none e = keeps refl refl refl
  locking-Effect (some r) e = lock-Effect r e

  update_row-Effect :
      (o : Option AuctionRow) (change : AuctionRow → AuctionRow)
      → lookup_auction key db.auctions ≡ o
      → Effect db s t (update_row t o change).1
  unfolding update_row stage
  update_row-Effect none change e = keeps refl refl refl
  update_row-Effect (some r) change e = staged-Effect r (change r) (auction_row_error (change r)) e

  returning-Effect :
      (version : ℕ) (x : Result (Unit {0}) × Txn)
      → Effect db s t x.1
      → Effect db s t (returning version x).1
  returning-Effect version (ok _, t') h = h
  returning-Effect version (err e, t') h = h

  update_matched-Effect :
      (r new : AuctionRow) (m : Bool)
      → lookup_auction key db.auctions ≡ some r
      → Effect db s t (update_matched t r new m).1
  unfolding update_matched stage
  update_matched-Effect r new false e = keeps refl refl refl
  update_matched-Effect r new true e =
      returning-Effect new.version (staged t r new (auction_row_error new))
        (staged-Effect r new (auction_row_error new) e)

  update_guarded-Effect :
      (o : Option AuctionRow) (amount : ℕ) (bid : Uuid) (observed time : ℕ)
      → lookup_auction key db.auctions ≡ o
      → Effect db s t (update_guarded t o amount bid observed time).1
  unfolding update_guarded
  update_guarded-Effect none amount bid observed time e = keeps refl refl refl
  update_guarded-Effect (some r) amount bid observed time e =
      update_matched-Effect r (with_bid r amount bid (r.version + 1))
        (matches r amount observed time) e

insert_error-free :
    (db : Database) (t : Txn) (b : BidRow)
    → insert_error db t b ≡ none
    → clashes b.id b.request_id (db.bids ++ t.bids) ≡ false
unfolding insert_error
insert_error-free db t b h = ground arith

inserted-Effect :
    (db : Database) (s : Stmt) (t : Txn) (b : BidRow) (o : Option Exn)
    → insert_error db t b ≡ o
    → ((other : Txn) → blocks s other ≡ false → clashes b.id b.request_id other.bids ≡ false)
    → Effect db s t (inserted t b o).1
unfolding inserted
inserted-Effect db s t b (some e) h w = drops refl refl refl
inserted-Effect db s t b none h w =
    inserts b (clashes-append_left b.id b.request_id db.bids t.bids (insert_error-free db t b h))
      refl refl refl w

module _ (P : Policy) (env : Env) (db : Database) (t : Txn) where
  -- A statement that no other connection makes wait, before any COMMIT.
  pub perform-Effect :
      (s : Stmt) → s ≢ commit → Allowed P s t → Effect db s t (perform env db t s).1
  unfolding perform blocks
  perform-Effect connect no_commit h = drops refl refl refl
  perform-Effect commit no_commit h = absurd (no_commit refl)
  perform-Effect rollback no_commit h = drops refl refl refl
  perform-Effect (find_bid request) no_commit h = keeps refl refl refl
  perform-Effect (find_auction key false) no_commit h = unfold locking in keeps refl refl refl
  perform-Effect (find_auction key true) no_commit h =
      locking-Effect db (find_auction key true) t key
        (λ other w. none_of_not_some (lookup_auction key other.locked) w) (visible db t key)
        (sym (visible_committed db t key h))
  perform-Effect database_clock no_commit h = keeps refl refl refl
  perform-Effect new_uuid no_commit h = keeps refl refl refl
  perform-Effect (insert_bid b) no_commit h =
      inserted-Effect db (insert_bid b) t (new_row b env.time)
        (insert_error db t (new_row b env.time)) refl (λ other w. unfold new_row in w)
  perform-Effect (update_to amount bid version key) no_commit h =
      update_row-Effect db (update_to amount bid version key) t key
        (λ other w. none_of_not_some (lookup_auction key other.locked) w) (visible db t key)
        (λ r. with_bid r amount bid version) (sym (visible_committed db t key h))
  perform-Effect (update_next amount bid key) no_commit h =
      update_row-Effect db (update_next amount bid key) t key
        (λ other w. none_of_not_some (lookup_auction key other.locked) w) (visible db t key)
        (λ r. with_bid r amount bid (r.version + 1)) (sym (visible_committed db t key h))
  perform-Effect (update_if amount bid key observed) no_commit h =
      update_guarded-Effect db (update_if amount bid key observed) t key
        (λ other w. none_of_not_some (lookup_auction key other.locked) w) (visible db t key) amount
        bid observed env.time (sym (visible_committed db t key h))

  -- Only COMMIT changes the tables.
  pub perform-tables : (s : Stmt) → s ≢ commit → (perform env db t s).2 ≡ db
  unfolding perform
  perform-tables commit no_commit = absurd (no_commit refl)
  perform-tables connect no_commit = refl
  perform-tables _ no_commit = refl
