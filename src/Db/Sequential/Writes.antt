-- ===== src/Db/Sequential/Writes.antt =====
-- The UPDATE of the two safe strategies and the end of their transactions, without interference.
use transaction_safe_bidding.Prelude.{
  ℕ, ◌+◌, ◌≡◌, refl, ap, ◌∙◌, Bool, true, false, Option, none, some, List, [], ◌∷◌, if◌then◌else◌,
}
use transaction_safe_bidding.Domain.Errors.{Result, ok}
use transaction_safe_bidding.Domain.Models.{BidCommand, is_some}
use transaction_safe_bidding.Db.Tables.{
  AuctionRow, BidRow, Database, lookup_auction, auction_row_error,
}
use transaction_safe_bidding.Db.Statements.{
  Txn, Env, visible, stage, staged, lock, with_bid, update_to, update_next, update_if, matches,
}
use transaction_safe_bidding.Db.Perform.{
  perform, update_row, update_matched, update_guarded, returning,
}
use transaction_safe_bidding.Db.Program.{Prog, ◌>>=◌, lift, query}
use transaction_safe_bidding.Db.Safety.Calls.{open_txn}
use transaction_safe_bidding.Db.Sequential.Exec.{exec, exec-lift}
use transaction_safe_bidding.Db.Sequential.Spec.{raised_row}

module _ (env : Env) (db : Database) (command : BidCommand) (r : AuctionRow)
    (found : lookup_auction command.auction_id db.auctions ≡ some r)
    (fits : auction_row_error (raised_row env command r) ≡ none) where
  relocked :
      (locked : List AuctionRow) (bids : List BidRow) (b : Bool)
      → (locked' : List AuctionRow) × ((if b
            then open_txn locked bids []
            else record (open_txn locked bids []) { locked = r ∷ locked })
          ≡ open_txn locked' bids [])
  relocked locked bids true = (locked, refl)
  relocked locked bids false = (r ∷ locked, refl)

  -- The row that the lock of an UPDATE leaves.
  lock-open :
      (locked : List AuctionRow) (bids : List BidRow)
      → (locked' : List AuctionRow) × (lock (open_txn locked bids []) r ≡ open_txn locked' bids [])
  unfolding lock
  lock-open locked bids = relocked locked bids (is_some (lookup_auction r.id locked))

  stage-open :
      (locked : List AuctionRow) (bids : List BidRow)
      → (locked' : List AuctionRow) × (stage (open_txn locked bids []) r (raised_row env command r)
          ≡ (ok tt, open_txn locked' bids (raised_row env command r ∷ [])))
  unfolding stage staged
  stage-open locked bids =
      let (locked', e) = lock-open locked bids in
      let new = raised_row env command r in
      (
        locked',
        ap (staged (open_txn locked bids []) r new) fits
            ∙ ap (λ (t : Txn). (ok tt, record t { rows = new ∷ [] })) e,
      )

  pub exec-update_next :
      {A : Type 0} (locked : List AuctionRow) (bids : List BidRow) (x : Result A)
      → (locked' : List AuctionRow) × (exec env db
            (open_txn locked bids [])
            (query (update_next command.amount_cents env.uuid command.auction_id) >>= λ _. lift x)
          ≡ (x, open_txn locked' bids (raised_row env command r ∷ []), db))
  unfolding query lift ◌>>=◌ perform visible lookup_auction update_row with_bid raised_row
  exec-update_next locked bids x =
      let (locked', e) = stage-open locked bids in
      (
        locked',
        ap
              (λ (o : Option AuctionRow).
                let p =
                  update_row (open_txn locked bids []) o
                    (λ a. with_bid a command.amount_cents env.uuid (a.version + 1)) in
                exec env db p.1 (lift p.0 >>= λ _. lift x))
              found
            ∙ ap (λ (p : Result (Unit {0}) × Txn). exec env db p.1 (lift p.0 >>= λ _. lift x)) e
            ∙ exec-lift env db (open_txn locked' bids (raised_row env command r ∷ [])) x,
      )

  pub exec-update_to :
      {A : Type 0} (locked : List AuctionRow) (bids : List BidRow) (x : Result A)
      → (locked' : List AuctionRow) × (exec env db (open_txn locked bids []) (
            query (update_to command.amount_cents env.uuid (r.version + 1) command.auction_id)
            >>= λ _. lift x)
          ≡ (x, open_txn locked' bids (raised_row env command r ∷ []), db))
  unfolding query lift ◌>>=◌ perform visible lookup_auction update_row with_bid raised_row
  exec-update_to locked bids x =
      let (locked', e) = stage-open locked bids in
      (
        locked',
        ap
              (λ (o : Option AuctionRow).
                let p =
                  update_row (open_txn locked bids []) o
                    (λ a. with_bid a command.amount_cents env.uuid (r.version + 1)) in
                exec env db p.1 (lift p.0 >>= λ _. lift x))
              found
            ∙ ap (λ (p : Result (Unit {0}) × Txn). exec env db p.1 (lift p.0 >>= λ _. lift x)) e
            ∙ exec-lift env db (open_txn locked' bids (raised_row env command r ∷ [])) x,
      )

  pub exec-update_if :
      {A : Type 0} (locked : List AuctionRow) (bids : List BidRow) (k : Option ℕ → Prog A)
      → matches r command.amount_cents r.version env.time ≡ true
      → (locked' : List AuctionRow) × (exec env db
            (open_txn locked bids [])
            (query (update_if command.amount_cents env.uuid command.auction_id r.version) >>= k)
          ≡ exec env db
              (open_txn locked' bids (raised_row env command r ∷ []))
              (k (some (r.version + 1))))
  unfolding query lift ◌>>=◌ perform visible lookup_auction update_guarded update_matched with_bid
      raised_row
  exec-update_if locked bids k holds =
      let (locked', e) = stage-open locked bids in
      let new = raised_row env command r in
      (
        locked',
        ap
              (λ (o : Option AuctionRow).
                let p =
                  update_guarded (open_txn locked bids []) o command.amount_cents env.uuid r.version
                    env.time in
                exec env db p.1 (lift p.0 >>= k))
              found
            ∙ ap
                (λ b.
                  let p = update_matched (open_txn locked bids []) r new b in
                  exec env db p.1 (lift p.0 >>= k))
                holds
            ∙ ap
                (λ (q : Result (Unit {0}) × Txn).
                  let p = returning (r.version + 1) q in exec env db p.1 (lift p.0 >>= k))
                e,
      )
