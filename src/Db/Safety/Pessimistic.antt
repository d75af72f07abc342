-- ===== src/Db/Safety/Pessimistic.antt =====
-- The pessimistic strategy: between the lock and the commit the row is as it was validated.
use transaction_safe_bidding.Prelude.{
  ℕ, ◌+◌, ◌≤◌, ◌≡◌, refl, sym, ◌∙◌, subst, inl, inr, Option, none, some, List, [], ◌∷◌, arith,
  Bool-cases,
}
use transaction_safe_bidding.Domain.Errors.{
  Exn, unique_violation, lock_not_available, query_canceled, Result, ok,
}
use transaction_safe_bidding.Domain.Models.{
  Uuid, BidCommand, BidEvaluation, AcceptedBid, auction_not_found,
}
use transaction_safe_bidding.Domain.Outcome.{BidOutcome, accepted, rejected}
use transaction_safe_bidding.Domain.Verdicts.{accepted_iff}
use transaction_safe_bidding.Db.Tables.{AuctionRow, BidRow}
use transaction_safe_bidding.Db.Statements.{Txn, required_price, with_bid, update_next}
use transaction_safe_bidding.Db.Mapped.{
  snapshot_of, auction_from_row-columns, required_price-eq-floor,
}
use transaction_safe_bidding.Db.Program.{Prog, ◌>>=◌, lift, query, transaction}
use transaction_safe_bidding.Db.Strategies.Shared.{
  existing_bid, evaluate, refuse, replay_or_reject, insert_new_bid,
}
use transaction_safe_bidding.Db.Strategies.Pessimistic.{
  write, decide, recheck, validate, unless_existing, on_error, place_bid,
}
use transaction_safe_bidding.Db.Protocol.Defs.{Policy, clean, full, Safe}
use transaction_safe_bidding.Db.Protocol.Rules.{Safe-attempt, Safe-lift, Safe-lift_last}
use transaction_safe_bidding.Db.Safety.Outcomes.{
  Ready, Settled, Quiet, Writes, Writes-replay_or_reject, Writes-rejected, Writes-refuse,
  Writes-accepted,
}
use transaction_safe_bidding.Db.Safety.Writes
use transaction_safe_bidding.Db.Safety.Calls
use transaction_safe_bidding.Db.Safety.Calls.{open_txn, SafeBody}
use transaction_safe_bidding.Db.Safety.Duplicates.{
  Safe-with_body, resolve_duplicate_request-settles,
}

-- The bid is not dated before the auction starts. Its date is read after the validation, so that it
-- may lie behind the end.
abbrev pub NotEarly : ℕ → ℕ → ℕ → Type 0
NotEarly starts ends at = starts ≤ at

module _ (start : Uuid → ℕ) (command : BidCommand) where
  abbrev P : Policy
  P = record { Timely = NotEarly; start = start }

  abbrev Body : Prog BidOutcome → Txn → ℕ → Type 0
  Body m t now = SafeBody P (Writes command) m t now

  -- A result that writes nothing ends the body, whatever is locked.
  result-Body :
      (r : Result BidOutcome) (ls : List AuctionRow) (now : ℕ)
      → ((o : BidOutcome) → r ≡ ok o → Writes command o [])
      → Body (lift r) (open_txn ls [] []) now
  result-Body r ls now h =
      Safe-lift_last P r (open_txn ls [] []) now (Ready P (Writes command))
        (λ o e. (refl, clean refl refl, h o e)) (λ e. refl)

  write-Safe :
      (r : AuctionRow) (now : ℕ)
      → r.id ≡ command.auction_id
      → r.starts_at ≤ now
      → required_price r ≤ command.amount_cents
      → Body (write command (snapshot_of r)) (open_txn (r ∷ []) [] []) now
  unfolding write
  write-Safe r now at starts price = Calls.Safe-new_uuid P W now (r ∷ []) [] inserting (λ id t1 le1.
      Writes.Safe-insert_new_bid P W t1 (r ∷ []) command id (r.version + 1) (updating id)
        (λ row bid t2 rec rid ver lo hi mapped.
          Writes.Safe-update_next P W t2 command.amount_cents id command.auction_id r row
            (accepting bid) at
            (λ t3 le3.
              Safe-lift_last P (accepted bid 1 0)
                (open_txn (r ∷ []) (row ∷ [])
                  (with_bid r command.amount_cents id (r.version + 1) ∷ []))
                t3 (Ready P W)
                (λ o e. (
                  refl,
                  full r row _ refl refl refl (record {
                    auction = rec.auction ∙ sym at;
                    version = ver;
                    price = omega (arith, rec.amount);
                    timely = omega arith;
                    row = rw (rec.amount, rid);
                  }),
                  Writes-accepted command bid 1 0 o row e mapped rec,
                ))
                (λ e. refl))))
    where
      W : BidOutcome → List BidRow → Type 0
      W = Writes command

      accepting : AcceptedBid → Unit {0} → Prog BidOutcome
      accepting bid _ = lift (accepted bid 1 0)

      updating : Uuid → AcceptedBid → Prog BidOutcome
      updating id bid =
          query (update_next command.amount_cents id command.auction_id) >>= accepting bid

      inserting : Uuid → Prog BidOutcome
      inserting id = insert_new_bid command id (r.version + 1) >>= updating id

  decide-Safe :
      (r : AuctionRow) (time now : ℕ) (e : BidEvaluation)
      → r.id ≡ command.auction_id
      → time ≤ now
      → evaluate (snapshot_of r) command time ≡ ok e
      → Body (decide command (snapshot_of r) e) (open_txn (r ∷ []) [] []) now
  unfolding decide refuse
  decide-Safe r time now e at le h = elim (Bool-cases e.accepted) [
    | inl yes_ ↦
        let (starts, ends, price) =
          (accepted_iff (snapshot_of r) command.amount_cents time e h).0.0 yes_ in
        rw yes_ (write-Safe r now at (omega arith) (rw required_price-eq-floor price))
    | inr no_ ↦ rw no_ (result-Body (refuse e 1 0) (r ∷ []) now (Writes-refuse command e 1 0))
  ]

  recheck-Safe :
      (r : AuctionRow) (time now : ℕ) (o : Option AcceptedBid)
      → r.id ≡ command.auction_id
      → time ≤ now
      → Body (recheck command (snapshot_of r) time o) (open_txn (r ∷ []) [] []) now
  unfolding recheck
  recheck-Safe r time now (some b) at le =
      result-Body (replay_or_reject b command) (r ∷ []) now (Writes-replay_or_reject command b)
  recheck-Safe r time now none at le =
      Safe-lift P (evaluate (snapshot_of r) command time) (decide command (snapshot_of r))
        (open_txn (r ∷ []) [] []) now (Ready P (Writes command))
        (λ e h. decide-Safe r time now e at le h) (λ e. refl)

  validate-Safe :
      (r : AuctionRow) (now : ℕ)
      → r.id ≡ command.auction_id
      → Body (validate command (some (snapshot_of r))) (open_txn (r ∷ []) [] []) now
  unfolding validate
  validate-Safe r now at =
      Calls.Safe-database_time P (Writes command) now (r ∷ []) []
        (λ time. existing_bid command.request_id >>= recheck command (snapshot_of r) time)
        (λ time t1 lo hi.
          Calls.Safe-existing_bid P (Writes command) t1 (r ∷ []) [] command.request_id
            (recheck command (snapshot_of r) time)
            (λ o t2 le. recheck-Safe r time t2 o at (omega arith)))

  missing-Safe : (now : ℕ) → Body (validate command none) (open_txn [] [] []) now
  unfolding validate
  missing-Safe now =
      result-Body (rejected auction_not_found none 1 0) [] now
        (Writes-rejected command auction_not_found none 1 0)

  unless_existing-Safe :
      (now : ℕ) (o : Option AcceptedBid) → Body (unless_existing command o) (open_txn [] [] []) now
  unfolding unless_existing
  unless_existing-Safe now (some b) =
      result-Body (replay_or_reject b command) [] now (Writes-replay_or_reject command b)
  unless_existing-Safe now none =
      Calls.Safe-read_locked P (Writes command) now command.auction_id (validate command)
        (λ later le. missing-Safe later)
        (λ r a later at mapped le.
          subst (λ x. Body (validate command (some x)) (open_txn (r ∷ []) [] []) later)
            (sym (auction_from_row-columns r a mapped)) (validate-Safe r later at))

  on_error-Safe :
      (e : Exn) (t : Txn) (now : ℕ)
      → Quiet t
      → t.saved ≡ []
      → Safe P (on_error command e) t now (Settled (Writes command))
  unfolding on_error
  on_error-Safe unique_violation t now q s = resolve_duplicate_request-settles P command t now s
  on_error-Safe lock_not_available t now q s = (q, s)
  on_error-Safe query_canceled t now q s = (q, s)
  on_error-Safe _ t now q s = (q, s)

  -- The pessimistic strategy keeps to the discipline, and ends at rest, with exactly the row of an
  -- accepted bid written.
  pub pessimistic-Safe :
      (t : Txn) (now : ℕ)
      → t.saved ≡ []
      → Safe P (place_bid command) t now (Settled (Writes command))
  unfolding place_bid
  pessimistic-Safe t now s =
      Safe-attempt P (transaction (existing_bid command.request_id >>= unless_existing command))
        (on_error command) t now (Settled (Writes command)) (Settled (Writes command))
        (λ o t' later settled. settled)
        (λ e t' later settled. on_error-Safe e t' later settled.0 settled.1)
        (Safe-with_body P (Writes command)
          (existing_bid command.request_id >>= unless_existing command) t now s
          (λ later le.
            Calls.Safe-existing_bid P (Writes command) later [] [] command.request_id
              (unless_existing command) (λ o n le'. unless_existing-Safe n o)))
