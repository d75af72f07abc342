-- ===== src/Db/Soundness/Apart.antt =====
-- Two connections that hold no lock and no pending key in common.
use transaction_safe_bidding.Prelude.{◌≡◌, sym, false, none, List, [], ◌∷◌, arith}
use transaction_safe_bidding.Prelude.All.{
  All, Across, All-append, Across-nil, Across-cons, Across-append, All-map,
}
use transaction_safe_bidding.Db.Tables.{AuctionRow, BidRow, Database, lookup_auction, clashes}
use transaction_safe_bidding.Db.Statements.{Stmt, Txn}
use transaction_safe_bidding.Db.Perform.{blocks}
use transaction_safe_bidding.Db.Protocol.Defs.{Policy, Knows}
use transaction_safe_bidding.Db.Soundness.Effects.{Effect, keeps, drops, locks, inserts}

abbrev pub OtherRow : AuctionRow → AuctionRow → Type 0
OtherRow r s = ¬ (r.id ≡ s.id)

abbrev pub OtherKeys : BidRow → BidRow → Type 0
OtherKeys b c = ¬ (b.id ≡ c.id) × ¬ (b.request_id ≡ c.request_id)

pub record Apart (t o : Txn) : Type 0 where
  pub rows : Across OtherRow t.locked o.locked
  pub keys : Across OtherKeys t.bids o.bids

pub other_rows :
    (r : AuctionRow) (rows : List AuctionRow)
    → lookup_auction r.id rows ≡ none
    → All (λ x. OtherRow r x) rows
unfolding lookup_auction
other_rows r [] h = tt
other_rows r (x ∷ rows) h = (λ e. ground arith, other_rows r rows (ground arith))

pub other_keys :
    (b : BidRow) (bids : List BidRow)
    → clashes b.id b.request_id bids ≡ false
    → All (λ x. OtherKeys b x) bids
unfolding clashes
other_keys b [] h = tt
other_keys b (x ∷ bids) h =
    ((λ e. ground arith, λ e. ground arith), other_keys b bids (ground arith))

swap_rows :
    (r : AuctionRow) (rows : List AuctionRow)
    → All (λ x. OtherRow r x) rows
    → All (λ x. OtherRow x r) rows
swap_rows r rows h = All-map (λ x. OtherRow r x) (λ x. OtherRow x r) rows (λ x n e. n (sym e)) h

swap_keys :
    (b : BidRow) (bids : List BidRow)
    → All (λ x. OtherKeys b x) bids
    → All (λ x. OtherKeys x b) bids
swap_keys b bids h =
    All-map (λ x. OtherKeys b x) (λ x. OtherKeys x b) bids
      (λ x n. (λ e. n.0 (sym e), λ e. n.1 (sym e))) h

-- Both directions survive a statement that the other connection does not make wait.
pub Apart-Effect :
    (db : Database) (s : Stmt) (t t' o : Txn)
    → Effect db s t t'
    → blocks s o ≡ false
    → Apart t o
    → Apart o t
    → Apart t' o × Apart o t'
Apart-Effect db s t t' o (keeps p q v) free a b = (
  record { rows = rw p a.rows; keys = rw q a.keys },
  record { rows = rw p b.rows; keys = rw q b.keys },
)
Apart-Effect db s t t' o (drops p q v) free a b = (
  record { rows = rw p tt; keys = rw q tt },
  record { rows = rw p (Across-nil OtherRow o.locked); keys = rw q (Across-nil OtherKeys o.bids) },
)
Apart-Effect db s t t' o (locks r e p q v w) free a b =
    let new = other_rows r o.locked (w o free) in
    (
      record { rows = rw p (new, a.rows); keys = rw q a.keys },
      record {
        rows = rw p (Across-cons OtherRow r o.locked t.locked (swap_rows r o.locked new) b.rows);
        keys = rw q b.keys;
      },
    )
Apart-Effect db s t t' o (inserts c e p q v w) free a b =
    let new = other_keys c o.bids (w o free) in
    (
      record { rows = rw p a.rows; keys = rw q (All-append _ t.bids (c ∷ []) a.keys (new, tt)) },
      record {
        rows = rw p b.rows;
        keys = rw q (
            Across-append OtherKeys o.bids t.bids (c ∷ []) b.keys (
              Across-cons OtherKeys c o.bids [] (swap_keys c o.bids new)
                (Across-nil OtherKeys o.bids)));
      },
    )

-- What the connection itself relies on survives too.
pub Knows-Effect :
    (P : Policy) (db : Database) (s : Stmt) (t t' : Txn)
    → Effect db s t t'
    → Knows P db t
    → Knows P db t'
Knows-Effect P db s t t' (keeps p q v) k = record {
  starts = k.starts;
  locked = rw p k.locked;
  fresh = rw q k.fresh;
  saved = rw v k.saved;
}
Knows-Effect P db s t t' (drops p q v) k = record {
  starts = k.starts;
  locked = rw p tt;
  fresh = rw q tt;
  saved = rw v k.saved;
}
Knows-Effect P db s t t' (locks r e p q v w) k = record {
  starts = k.starts;
  locked = rw p (e, k.locked);
  fresh = rw q k.fresh;
  saved = rw v k.saved;
}
Knows-Effect P db s t t' (inserts c e p q v w) k = record {
  starts = k.starts;
  locked = rw p k.locked;
  fresh = rw q (All-append _ t.bids (c ∷ []) k.fresh (e, tt));
  saved = rw v k.saved;
}
