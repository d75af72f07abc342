-- ===== src/Db/Safety/Retries.antt =====
-- The classification of a miss, and the loop of the optimistic strategy.
use transaction_safe_bidding.Prelude.{
  ℕ, zero, suc, ◌-◌, ◌≡◌, refl, sym, subst, ◌⊎◌, inl, inr, Option, none, some, List, [], arith,
}
use transaction_safe_bidding.Domain.Errors.{
  Exn, unique_violation, optimistic_miss, query_canceled, Result, ok,
}
use transaction_safe_bidding.Domain.Models.{
  Uuid, AuctionSnapshot, BidCommand, BidEvaluation, AcceptedBid, BidOutcomeStatus,
  auction_not_found, conflict_retry_exhausted,
}
use transaction_safe_bidding.Domain.Outcome.{BidOutcome, rejected}
use transaction_safe_bidding.Db.Tables.{BidRow}
use transaction_safe_bidding.Db.Statements.{Txn}
use transaction_safe_bidding.Db.Program.{Prog, ret, ◌>>=◌, lift, transaction}
use transaction_safe_bidding.Db.Strategies.Shared.{existing_bid, evaluate, refuse, replay_or_reject}
use transaction_safe_bidding.Db.Strategies.Optimistic.{
  attempt_once, classify_auction, classify_existing, classify_evaluation, classify_after_miss,
  or_retry, on_error, turns, place_bid,
}
use transaction_safe_bidding.Db.Protocol.Defs.{Policy, clean, Safe}
use transaction_safe_bidding.Db.Protocol.Rules.{Safe-attempt, Safe-bind, Safe-lift, Safe-lift_last}
use transaction_safe_bidding.Db.Safety.Outcomes.{
  Ready, Settled, Quiet, Writes, Writes-replay_or_reject, Writes-rejected, WritesFor-nothing,
}
use transaction_safe_bidding.Db.Safety.Calls
use transaction_safe_bidding.Db.Safety.Calls.{open_txn, SafeBody}
use transaction_safe_bidding.Db.Safety.Duplicates.{
  Safe-with_body, resolve_duplicate_request-settles,
}
use transaction_safe_bidding.Db.Safety.Optimistic.{InWindow, attempt_once-Safe}

abbrev Classified : BidCommand → BidOutcome ⊎ BidEvaluation → List BidRow → Type 0
Classified command (inl o) bs = Writes command o bs
Classified command (inr e) bs = bs ≡ []

abbrev Decided : BidCommand → Option BidOutcome → List BidRow → Type 0
Decided command none bs = bs ≡ []
Decided command (some o) bs = Writes command o bs

module _ (start : Uuid → ℕ) (command : BidCommand) where
  abbrev P : Policy
  P = record { Timely = InWindow; start = start }

  abbrev Body : Prog (BidOutcome ⊎ BidEvaluation) → Txn → ℕ → Type 0
  Body m t now = SafeBody P (Classified command) m t now

  -- An outcome of the classification, which reads and writes nothing.
  classified :
      (r : Result BidOutcome) (now : ℕ)
      → ((o : BidOutcome) → r ≡ ok o → Writes command o [])
      → Body (lift r >>= λ outcome. ret (inl outcome)) (open_txn [] [] []) now
  classified r now h =
      Safe-lift P r (λ outcome. ret (inl outcome)) (open_txn [] [] []) now
        (Ready P (Classified command)) (λ o e. (refl, clean refl refl, h o e)) (λ e. refl)

  classify_auction-Safe :
      (attempts now : ℕ) (o : Option AuctionSnapshot)
      → Body (classify_auction command attempts o) (open_txn [] [] []) now
  unfolding classify_auction
  classify_auction-Safe attempts now none =
      classified (rejected auction_not_found none attempts attempts) now
        (Writes-rejected command auction_not_found none attempts attempts)
  classify_auction-Safe attempts now (some a) =
      Calls.Safe-database_time P (Classified command) now [] []
        (λ time. lift (evaluate a command time) >>= λ e. ret (inr e))
        (λ time t1 lo hi.
          Safe-lift P (evaluate a command time) (λ e. ret (inr e)) (open_txn [] [] []) t1
            (Ready P (Classified command)) (λ e h. (refl, clean refl refl, refl)) (λ e. refl))

  classify_existing-Safe :
      (attempts now : ℕ) (o : Option AcceptedBid)
      → Body (classify_existing command attempts o) (open_txn [] [] []) now
  unfolding classify_existing
  classify_existing-Safe attempts now (some b) =
      classified (replay_or_reject b command) now (Writes-replay_or_reject command b)
  classify_existing-Safe attempts now none =
      Calls.Safe-read_auction P (Classified command) now command.auction_id
        (classify_auction command attempts) (λ later le. classify_auction-Safe attempts later none)
        (λ r a later mapped st le. classify_auction-Safe attempts later (some a))

  not_accepted-classified :
      (max_attempts attempts : ℕ) (e : BidEvaluation) (o : BidOutcome)
      → classify_evaluation max_attempts attempts (inr e) ≡ ok (some o)
      → ¬ (o.status ≡ BidOutcomeStatus.accepted)
  unfolding classify_evaluation refuse rejected
  not_accepted-classified max_attempts attempts e o h p = ground arith

  classify_evaluation-Decided :
      (max_attempts attempts : ℕ) (e : BidEvaluation) (d : Option BidOutcome)
      → classify_evaluation max_attempts attempts (inr e) ≡ ok d
      → Decided command d []
  classify_evaluation-Decided max_attempts attempts e none h = refl
  classify_evaluation-Decided max_attempts attempts e (some o) h =
      WritesFor-nothing command o.status o.bid (not_accepted-classified max_attempts attempts e o h)

  classify_evaluation-Safe :
      (max_attempts attempts : ℕ) (found : BidOutcome ⊎ BidEvaluation) (t : Txn) (now : ℕ)
      → Settled (Classified command) (ok found) t now
      → Safe P
          (lift (classify_evaluation max_attempts attempts found))
          t
          now
          (Settled (Decided command))
  classify_evaluation-Safe max_attempts attempts (inl o) t now settled =
      unfold classify_evaluation lift in settled
  classify_evaluation-Safe max_attempts attempts (inr e) t now settled =
      Safe-lift_last P (classify_evaluation max_attempts attempts (inr e)) t now
        (Settled (Decided command))
        (λ d h. (
          settled.0,
          subst (Decided command d) (sym settled.1)
              (classify_evaluation-Decided max_attempts attempts e d h),
        ))
        (λ x. settled)

  classify_after_miss-Safe :
      (max_attempts attempts : ℕ) (t : Txn) (now : ℕ)
      → t.saved ≡ []
      → Safe P (classify_after_miss max_attempts command attempts) t now (Settled (Decided command))
  unfolding classify_after_miss
  classify_after_miss-Safe max_attempts attempts t now s =
      Safe-bind P
        (transaction (existing_bid command.request_id >>= classify_existing command attempts))
        (λ found. lift (classify_evaluation max_attempts attempts found)) t now
        (Settled (Classified command)) (Settled (Decided command))
        (λ found t' later settled.
          classify_evaluation-Safe max_attempts attempts found t' later settled)
        (λ e t' later settled. settled)
        (Safe-with_body P (Classified command)
          (existing_bid command.request_id >>= classify_existing command attempts) t now s
          (λ later le.
            Calls.Safe-existing_bid P (Classified command) later [] [] command.request_id
              (classify_existing command attempts)
              (λ o n le'. classify_existing-Safe attempts n o)))

  on_error-Safe :
      (max_attempts attempts : ℕ) (retry : Prog BidOutcome) (e : Exn) (t : Txn) (now : ℕ)
      → Quiet t
      → t.saved ≡ []
      → ((t' : Txn) (later : ℕ)
          → Quiet t'
          → t'.saved ≡ []
          → Safe P retry t' later (Settled (Writes command)))
      → Safe P (on_error max_attempts command attempts retry e) t now (Settled (Writes command))
  unfolding on_error
  on_error-Safe max_attempts attempts retry (optimistic_miss v) t now q s again =
      Safe-bind P (classify_after_miss max_attempts command attempts) (or_retry retry) t now
        (Settled (Decided command)) (Settled (Writes command))
        (λ d t' later settled. or_retry-Safe d t' later settled) (λ e t' later settled. settled)
        (classify_after_miss-Safe max_attempts attempts t now s)
    where
      or_retry-Safe :
          (d : Option BidOutcome) (t' : Txn) (later : ℕ)
          → Settled (Decided command) (ok d) t' later
          → Safe P (or_retry retry d) t' later (Settled (Writes command))
      or_retry-Safe none t' later settled = unfold or_retry in again t' later settled.0 settled.1
      or_retry-Safe (some o) t' later settled = unfold or_retry in settled
  on_error-Safe max_attempts attempts retry unique_violation t now q s again =
      resolve_duplicate_request-settles P command t now s
  on_error-Safe max_attempts attempts retry query_canceled t now q s again = (q, s)
  on_error-Safe max_attempts attempts retry _ t now q s again = (q, s)

  turns-Safe :
      (max_attempts left : ℕ) (t : Txn) (now : ℕ)
      → Quiet t
      → t.saved ≡ []
      → Safe P (turns max_attempts command left) t now (Settled (Writes command))
  unfolding turns
  turns-Safe max_attempts zero t now q s =
      Safe-lift_last P (rejected conflict_retry_exhausted none max_attempts max_attempts) t now
        (Settled (Writes command))
        (λ o e. (
          q,
          subst (Writes command o) (sym s)
              (Writes-rejected command conflict_retry_exhausted none max_attempts max_attempts o e),
        ))
        (λ e. (q, s))
  turns-Safe max_attempts (suc left) t now q s =
      Safe-attempt P (attempt_once command (max_attempts - left))
        (on_error max_attempts command (max_attempts - left) (turns max_attempts command left)) t
        now (Settled (Writes command)) (Settled (Writes command)) (λ o t' later settled. settled)
        (λ e t' later settled.
          on_error-Safe max_attempts (max_attempts - left) (turns max_attempts command left) e t'
            later settled.0 settled.1 (λ t2 n q2 s2. turns-Safe max_attempts left t2 n q2 s2))
        (attempt_once-Safe start command (max_attempts - left) t now s)

  -- The optimistic strategy keeps to the discipline whatever the number of its attempts, and ends at
  -- rest, with exactly the row of an accepted bid written.
  pub optimistic-Safe :
      (max_attempts : ℕ) (t : Txn) (now : ℕ)
      → Quiet t
      → t.saved ≡ []
      → Safe P (place_bid max_attempts command) t now (Settled (Writes command))
  unfolding place_bid
  optimistic-Safe max_attempts t now q s = turns-Safe max_attempts max_attempts t now q s
