-- ===== src/Db/Safety/Writes.antt =====
-- The writes of the strategies, each with what the rest of the program may rely on.
use transaction_safe_bidding.Prelude.{
  ℕ, ◌+◌, ◌≤◌, ◌≡◌, refl, sym, subst, Bool, true, false, Option, none, some, List, [], ◌∷◌, arith,
  strip,
}
use transaction_safe_bidding.Domain.Errors.{Exn, Result, ok, err}
use transaction_safe_bidding.Domain.Models.{Uuid, BidCommand, AcceptedBid}
use transaction_safe_bidding.Db.Tables.{
  AuctionRow, BidRow, Database, lookup_auction, auction_row_error, bid_from_row,
}
use transaction_safe_bidding.Db.Statements.{
  Txn, ended, update_next, update_if, insert_error, inserted, new_row, matches, with_bid, staged,
}
use transaction_safe_bidding.Db.Perform.{
  perform, update_row, returning, update_matched, update_guarded,
}
use transaction_safe_bidding.Db.Program.{Prog, ◌>>=◌, lift, query}
use transaction_safe_bidding.Db.Strategies.Shared.{insert_new_bid}
use transaction_safe_bidding.Db.Protocol.Defs.{Policy}
use transaction_safe_bidding.Db.Protocol.Rules.{Safe-lift}
use transaction_safe_bidding.Db.Safety.Outcomes.{Ready, Records}
use transaction_safe_bidding.Db.Safety.Calls.{
  open_txn, lookup_auction-id, lock_held, start-of_key, SafeBody,
}

module _ (P : Policy) {B : Type 0} (W : B → List BidRow → Type 0) where
  -- The INSERT: a row of the values at the reading of the clock, or an error.
  pub Safe-insert_new_bid :
      (now : ℕ) (ls : List AuctionRow) (command : BidCommand) (id : Uuid) (version : ℕ)
      (f : AcceptedBid → Prog B)
      → ((row : BidRow) (bid : AcceptedBid) (later : ℕ)
          → Records command row
          → row.id ≡ id
          → row.auction_version ≡ version
          → now ≤ row.accepted_at
          → row.accepted_at ≤ later
          → bid_from_row row ≡ ok bid
          → SafeBody P W (f bid) (open_txn ls (row ∷ []) []) later)
      → SafeBody P W (insert_new_bid command id version >>= f) (open_txn ls [] []) now
  unfolding insert_new_bid query ◌>>=◌ perform
  Safe-insert_new_bid now ls command id version f go = (
    tt,
    λ env db later knows lo hi.
        at_row env.time later lo hi (insert_error db (open_txn ls [] []) (row_at env.time)),
    λ e later lo. refl,
  )
    where
      row_at : ℕ → BidRow
      row_at time =
          new_row
            (record {
              id = id;
              request_id = command.request_id;
              auction_id = command.auction_id;
              bidder_id = strip command.bidder_id;
              amount_cents = command.amount_cents;
              auction_version = version;
            })
            time

      at_row :
          (time later : ℕ)
          → now ≤ time
          → time ≤ later
          → (o : Option Exn)
          → let (reply, t') = inserted (open_txn ls [] []) (row_at time) o in
            SafeBody P W (lift reply >>= (λ row. lift (bid_from_row row)) >>= f) t' later
      at_row time later lo hi (some e) = unfold inserted ◌>>=◌ lift in refl
      at_row time later lo hi none =
          Safe-lift P (bid_from_row (row_at time)) f (open_txn ls (row_at time ∷ []) []) later
            (Ready P W)
            (λ bid e.
              go (row_at time) bid later
                (unfold new_row in
                  record { request = refl; auction = refl; bidder = refl; amount = refl })
                (unfold new_row in refl) (unfold new_row in refl) (unfold new_row in lo)
                (unfold new_row in hi) e)
            (λ e. refl)

  Safe-staged :
      {R : Type 0} (t : Txn) (old new : AuctionRow) (later : ℕ) (o : Option Exn)
      (answer : Result (Unit {0}) × Txn → Result R × Txn) (f : R → Prog B)
      → t.saved ≡ []
      → ((e : Exn) (t' : Txn) → answer (err e, t') ≡ (err e, t'))
      → SafeBody P W
          (lift (answer (staged t old new none)).0 >>= f)
          (answer (staged t old new none)).1
          later
      → SafeBody P W
          (lift (answer (staged t old new o)).0 >>= f)
          (answer (staged t old new o)).1
          later
  Safe-staged t old new later none answer f s errs h = h
  Safe-staged t old new later (some e) answer f s errs h =
      unfold staged in
      (subst (λ x. SafeBody P W (lift x.0 >>= f) x.1 later) (sym (errs e (ended t)))
        (unfold lift ◌>>=◌ in s))

  -- The UPDATE of a row that this transaction has locked.
  pub Safe-update_next :
      (now amount : ℕ) (bid key : Uuid) (r : AuctionRow) (b : BidRow) (f : Unit {0} → Prog B)
      → r.id ≡ key
      → ((later : ℕ)
          → now ≤ later
          → SafeBody P W
              (f tt)
              (open_txn (r ∷ []) (b ∷ []) (with_bid r amount bid (r.version + 1) ∷ []))
              later)
      → SafeBody P W (query (update_next amount bid key) >>= f) (open_txn (r ∷ []) (b ∷ []) []) now
  unfolding query ◌>>=◌ perform
  Safe-update_next now amount bid key r b f at go = (
    refl,
    λ env db later knows lo hi.
        subst
          (λ o. SafeBody P W (lift (update_row t o change).0 >>= f) (update_row t o change).1 later)
          (sym (found db knows.locked.0)) (written later (omega arith)),
    λ e later lo. refl,
  )
    where
      t : Txn
      t = open_txn (r ∷ []) (b ∷ []) []

      change : AuctionRow → AuctionRow
      change x = with_bid x amount bid (x.version + 1)

      found :
          (db : Database)
          → lookup_auction r.id db.auctions ≡ some r
          → lookup_auction key db.auctions ≡ some r
      found db h = subst (λ k. lookup_auction k db.auctions ≡ some r) at h

      written :
          (later : ℕ)
          → now ≤ later
          → SafeBody P W
              (lift (update_row t (some r) change).0 >>= f)
              (update_row t (some r) change).1
              later
      written later le =
          Safe-staged t r (change r) later (auction_row_error (change r)) (λ x. x) f refl
            (λ e t'. refl)
            (unfold staged in
              (subst
                (λ x.
                  SafeBody P W (lift {A = Unit {0}} (ok tt) >>= f)
                    (record x { rows = change r ∷ [] }) later)
                (sym (lock_held r (b ∷ []))) (unfold lift ◌>>=◌ in go later le)))

  -- The guarded UPDATE: no row, or the row under a lock and the conditions as they hold of it.
  pub Safe-update_if :
      (now amount : ℕ) (bid key : Uuid) (observed : ℕ) (b : BidRow) (f : Option ℕ → Prog B)
      → ((later : ℕ) → now ≤ later → SafeBody P W (f none) (open_txn [] (b ∷ []) []) later)
      → ((r : AuctionRow) (time later : ℕ)
          → r.id ≡ key
          → r.starts_at ≡ P.start key
          → matches r amount observed time ≡ true
          → now ≤ time
          → time ≤ later
          → SafeBody P W
              (f (some (r.version + 1)))
              (open_txn (r ∷ []) (b ∷ []) (with_bid r amount bid (r.version + 1) ∷ []))
              later)
      → SafeBody P W (query (update_if amount bid key observed) >>= f) (open_txn [] (b ∷ []) []) now
  unfolding query ◌>>=◌ perform
  Safe-update_if now amount bid key observed b f missed hit = (
    refl,
    λ env db later knows lo hi.
        at_row env.time later lo hi (lookup_auction key db.auctions)
          (λ r e. (lookup_auction-id key db.auctions r e, start-of_key P db t key knows r e)),
    λ e later lo. refl,
  )
    where
      t : Txn
      t = open_txn [] (b ∷ []) []

      new : AuctionRow → AuctionRow
      new r = with_bid r amount bid (r.version + 1)

      at_match :
          (time later : ℕ) (r : AuctionRow)
          → now ≤ time
          → time ≤ later
          → (r.id ≡ key) × (r.starts_at ≡ P.start key)
          → (m : Bool) → matches r amount observed time ≡ m
          → SafeBody P W
              (lift (update_matched t r (new r) m).0 >>= f)
              (update_matched t r (new r) m).1
              later
      at_match time later r lo hi id false e =
          unfold update_matched lift ◌>>=◌ in missed later (omega arith)
      at_match time later r lo hi id true e =
          unfold update_matched in
          (Safe-staged t r (new r) later (auction_row_error (new r)) (returning (new r).version) f
            refl (λ x t'. refl)
            (unfold staged lift ◌>>=◌ with_bid in hit r time later id.0 id.1 e lo hi))

      at_row :
          (time later : ℕ)
          → now ≤ time
          → time ≤ later
          → (o : Option AuctionRow)
          → ((r : AuctionRow) → o ≡ some r → (r.id ≡ key) × (r.starts_at ≡ P.start key))
          → SafeBody P W
              (lift (update_guarded t o amount bid observed time).0 >>= f)
              (update_guarded t o amount bid observed time).1
              later
      at_row time later lo hi none at =
          unfold update_guarded lift ◌>>=◌ in missed later (omega arith)
      at_row time later lo hi (some r) at =
          unfold update_guarded in
          at_match time later r lo hi (at r refl) (matches r amount observed time) refl
