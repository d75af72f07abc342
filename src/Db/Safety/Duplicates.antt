-- ===== src/Db/Safety/Duplicates.antt =====
-- `_resolve_duplicate_request`: it reads, and writes nothing.
use transaction_safe_bidding.Prelude.{
  ℕ, ◌≤◌, ◌≡◌, refl, sym, subst, Option, none, some, List, [], ◌++◌,
}
use transaction_safe_bidding.Domain.Models.{BidCommand, AcceptedBid}
use transaction_safe_bidding.Db.Tables.{BidRow, lookup_request, bid_from_row}
use transaction_safe_bidding.Db.Statements.{Txn}
use transaction_safe_bidding.Db.Perform.{perform}
use transaction_safe_bidding.Db.Program.{Prog, ◌>>=◌, query, transaction}
use transaction_safe_bidding.Db.Strategies.Shared.{
  map_row, existing_bid, replay_or_reject, resolve_existing, resolve_duplicate_request,
}
use transaction_safe_bidding.Db.Protocol.Defs.{Policy, clean, Safe}
use transaction_safe_bidding.Db.Protocol.Rules.{Safe-bind, Safe-lift_last, Safe-transaction}
use transaction_safe_bidding.Db.Safety.Outcomes.{
  Ready, Settled, Quiet, Writes, Writes-replay_or_reject,
}
use transaction_safe_bidding.Db.Safety.Calls.{open_txn}

module _ (P : Policy) where
  -- A transaction whose body is ready to commit leaves the connection at rest.
  pub Safe-with_body :
      {A : Type 0} (W : A → List BidRow → Type 0) (m : Prog A) (t : Txn) (now : ℕ)
      → t.saved ≡ []
      → ((later : ℕ) → now ≤ later → Safe P m (open_txn [] [] []) later (Ready P W))
      → Safe P (transaction m) t now (Settled W)
  Safe-with_body {A} W m t now s h =
      Safe-transaction P m t now (Ready P W) (Settled W)
        (λ a t' n ready. (
          ready.1,
          λ later le. ((refl, refl, refl), subst (λ x. W a (x ++ t'.bids)) (sym ready.0) ready.2),
          λ e later le. ((refl, refl, refl), ready.0),
        ))
        (λ e t' n saved later le. ((refl, refl, refl), saved))
        (λ e later le. ((refl, refl, refl), s))
        (λ later le.
          subst
            (λ x.
              Safe P m (record { locked = []; bids = []; rows = []; saved = x }) later (Ready P W))
            (sym s) (h later le))

  abbrev pub NoRows {ℓ} : {A : Type ℓ} → A → List BidRow → Type 0
  NoRows a bs = bs ≡ []

  existing_bid-reads :
      (command : BidCommand) (now : ℕ)
      → Safe P (existing_bid command.request_id) (open_txn [] [] []) now (Ready P NoRows)
  unfolding existing_bid query ◌>>=◌ perform
  existing_bid-reads command now = (
    tt,
    λ env db later knows lo hi.
        Safe-lift_last P (map_row bid_from_row (lookup_request command.request_id (db.bids ++ [])))
          (open_txn [] [] []) later (Ready P NoRows) (λ a e. (refl, clean refl refl, refl))
          (λ e. refl),
    λ e later lo. refl,
  )

  resolve_existing-settles :
      (command : BidCommand) (o : Option AcceptedBid) (t : Txn) (now : ℕ)
      → Quiet t
      → t.saved ≡ []
      → Safe P (resolve_existing command o) t now (Settled (Writes command))
  unfolding resolve_existing
  resolve_existing-settles command none t now q s = (q, s)
  resolve_existing-settles command (some b) t now q s =
      Safe-lift_last P (replay_or_reject b command) t now (Settled (Writes command))
        (λ o e. (q, subst (Writes command o) (sym s) (Writes-replay_or_reject command b o e)))
        (λ e. (q, s))

  pub resolve_duplicate_request-settles :
      (command : BidCommand) (t : Txn) (now : ℕ)
      → t.saved ≡ []
      → Safe P (resolve_duplicate_request command) t now (Settled (Writes command))
  unfolding resolve_duplicate_request
  resolve_duplicate_request-settles command t now s =
      Safe-bind P (transaction (existing_bid command.request_id)) (resolve_existing command) t now
        (Settled NoRows) (Settled (Writes command))
        (λ o t' later settled. resolve_existing-settles command o t' later settled.0 settled.1)
        (λ e t' later settled. settled)
        (Safe-with_body NoRows (existing_bid command.request_id) t now s
          (λ later le. existing_bid-reads command later))
