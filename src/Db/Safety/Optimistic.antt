-- ===== src/Db/Safety/Optimistic.antt =====
-- The optimistic strategy: the guarded UPDATE finds the version that the bid was made for.
use transaction_safe_bidding.Prelude.{
  ℕ, ◌+◌, ◌-◌, ◌≤◌, ◌<◌, ◌≡◌, refl, sym, ap, ◌∙◌, subst, inl, inr, true, Option, none, some, List,
  [], ◌∷◌, arith, Bool-cases,
}
use transaction_safe_bidding.Domain.Errors.{Result, ok, err}
use transaction_safe_bidding.Domain.Models.{
  Uuid, AuctionSnapshot, BidCommand, BidEvaluation, AcceptedBid, auction_not_found,
}
use transaction_safe_bidding.Domain.Outcome.{BidOutcome, bid_outcome, accepted, rejected}
use transaction_safe_bidding.Domain.Verdicts.{accepted_iff}
use transaction_safe_bidding.Db.Tables.{AuctionRow, BidRow}
use transaction_safe_bidding.Db.Statements.{Txn, required_price, matches, with_bid, update_if}
use transaction_safe_bidding.Db.Mapped.{auction_from_row-columns}
use transaction_safe_bidding.Db.Program.{Prog, ◌>>=◌, lift, query}
use transaction_safe_bidding.Db.Strategies.Shared.{
  existing_bid, evaluate, refuse, replay_or_reject, insert_new_bid,
}
use transaction_safe_bidding.Db.Strategies.Optimistic.{
  conclude, write, decide, validate, counted, unless_existing, attempt_once,
}
use transaction_safe_bidding.Db.Protocol.Defs.{Policy, clean, full, Safe}
use transaction_safe_bidding.Db.Protocol.Rules.{Safe-lift, Safe-lift_last}
use transaction_safe_bidding.Db.Safety.Outcomes.{
  Ready, Settled, Writes, Writes-replay_or_reject, Writes-rejected, Writes-refuse, Writes-accepted,
}
use transaction_safe_bidding.Db.Safety.Writes
use transaction_safe_bidding.Db.Safety.Calls
use transaction_safe_bidding.Db.Safety.Calls.{open_txn, SafeBody}
use transaction_safe_bidding.Db.Safety.Duplicates.{Safe-with_body}

-- The bid is dated inside the window of the auction: after the evaluation, and before the reading of
-- the clock by the UPDATE.
abbrev pub InWindow : ℕ → ℕ → ℕ → Type 0
InWindow starts ends at = (starts ≤ at) × (at < ends)

-- What the guarded UPDATE has found.
matches-facts :
    (r : AuctionRow) (amount observed time : ℕ)
    → matches r amount observed time ≡ true
    → (r.version ≡ observed)
      × (r.starts_at ≤ time)
      × (time < r.ends_at)
      × (required_price r ≤ amount)
unfolding matches
matches-facts r amount observed time h = ground arith

module _ (start : Uuid → ℕ) (command : BidCommand) where
  abbrev P : Policy
  P = record { Timely = InWindow; start = start }

  abbrev Body : Prog BidOutcome → Txn → ℕ → Type 0
  Body m t now = SafeBody P (Writes command) m t now

  result-Body :
      (r : Result BidOutcome) (bs : List BidRow) (now : ℕ)
      → bs ≡ []
      → ((o : BidOutcome) → r ≡ ok o → Writes command o [])
      → Body (lift r) (open_txn [] bs []) now
  result-Body r bs now empty h =
      Safe-lift_last P r (open_txn [] bs []) now (Ready P (Writes command))
        (λ o e. (refl, clean empty refl, subst (Writes command o) (sym empty) (h o e))) (λ e. refl)

  -- The start of the auction is the one that it had when it was validated.
  write-Safe :
      (a : AuctionSnapshot) (attempts now : ℕ)
      → start command.auction_id ≤ now
      → Body (write command attempts a) (open_txn [] [] []) now
  unfolding write
  write-Safe a attempts now starts = Calls.Safe-new_uuid P W now [] [] inserting (λ id t1 le1.
      Writes.Safe-insert_new_bid P W t1 [] command id (a.version + 1) (updating id)
        (λ row bid t2 rec rid ver lo hi mapped.
          Writes.Safe-update_if P W t2 command.amount_cents id command.auction_id a.version row
            (conclude a bid attempts) (λ t3 le3. unfold conclude in refl)
            (λ r time t3 at st m lo3 hi3.
              let (ver', early, late, price) =
                matches-facts r command.amount_cents a.version time m in
              unfold conclude in
              (Safe-lift_last P (accepted bid attempts (attempts - 1))
                (open_txn (r ∷ []) (row ∷ [])
                  (with_bid r command.amount_cents id (r.version + 1) ∷ []))
                t3 (Ready P W)
                (λ o e. (
                  refl,
                  full r row _ refl refl refl (record {
                    auction = rec.auction ∙ sym at;
                    version = omega (arith, ver, ver');
                    price = omega (arith, rec.amount);
                    timely = (omega (arith, st), omega arith);
                    row = rw (rec.amount, rid);
                  }),
                  Writes-accepted command bid attempts (attempts - 1) o row e mapped rec,
                ))
                (λ e. refl)))))
    where
      W : BidOutcome → List BidRow → Type 0
      W = Writes command

      updating : Uuid → AcceptedBid → Prog BidOutcome
      updating id bid =
          query (update_if command.amount_cents id command.auction_id a.version)
          >>= conclude a bid attempts

      inserting : Uuid → Prog BidOutcome
      inserting id = insert_new_bid command id (a.version + 1) >>= updating id

  decide-Safe :
      (a : AuctionSnapshot) (attempts time now : ℕ) (e : BidEvaluation)
      → a.starts_at ≡ start command.auction_id
      → time ≤ now
      → evaluate a command time ≡ ok e
      → Body (decide command attempts a e) (open_txn [] [] []) now
  unfolding decide refuse
  decide-Safe a attempts time now e st le h = elim (Bool-cases e.accepted) [
    | inl yes_ ↦
        let (starts, ends, price) = (accepted_iff a command.amount_cents time e h).0.0 yes_ in
        rw yes_ (write-Safe a attempts now (omega (arith, st)))
    | inr no_ ↦
        rw no_ (result-Body (refuse e attempts 0) [] now refl (Writes-refuse command e attempts 0))
  ]

  validate-Safe :
      (a : AuctionSnapshot) (attempts now : ℕ)
      → a.starts_at ≡ start command.auction_id
      → Body (validate command attempts (some a)) (open_txn [] [] []) now
  unfolding validate
  validate-Safe a attempts now st =
      Calls.Safe-database_time P (Writes command) now [] []
        (λ time. lift (evaluate a command time) >>= decide command attempts a)
        (λ time t1 lo hi.
          Safe-lift P (evaluate a command time) (decide command attempts a) (open_txn [] [] []) t1
            (Ready P (Writes command)) (λ e h. decide-Safe a attempts time t1 e st hi h)
            (λ e. refl))

  missing-Safe : (attempts now : ℕ) → Body (validate command attempts none) (open_txn [] [] []) now
  unfolding validate
  missing-Safe attempts now =
      result-Body (rejected auction_not_found none attempts 0) [] now refl
        (Writes-rejected command auction_not_found none attempts 0)

  counted-fields :
      (attempts : ℕ) (p o : BidOutcome)
      → counted attempts (ok p) ≡ ok o
      → (o.status ≡ p.status) × (o.bid ≡ p.bid)
  unfolding counted bid_outcome
  counted-fields attempts p o h = ground arith

  counted-Writes :
      (attempts : ℕ) (x : Result BidOutcome) (o : BidOutcome)
      → ((p : BidOutcome) → x ≡ ok p → Writes command p [])
      → counted attempts x ≡ ok o
      → Writes command o []
  unfolding counted
  counted-Writes attempts (err e) o w h = cc
  counted-Writes attempts (ok p) o w h =
      let (same, bid) = counted-fields attempts p o h in rw (same, bid) (w p refl)

  unless_existing-Safe :
      (attempts now : ℕ) (o : Option AcceptedBid)
      → Body (unless_existing command attempts o) (open_txn [] [] []) now
  unfolding unless_existing
  unless_existing-Safe attempts now (some b) =
      result-Body (counted attempts (replay_or_reject b command)) [] now refl (λ o e.
        counted-Writes attempts (replay_or_reject b command) o (Writes-replay_or_reject command b)
          e)
  unless_existing-Safe attempts now none =
      Calls.Safe-read_auction P (Writes command) now command.auction_id (validate command attempts)
        (λ later le. missing-Safe attempts later)
        (λ r a later mapped st le.
          validate-Safe a attempts later
            (ap (λ (x : AuctionSnapshot). x.starts_at) (auction_from_row-columns r a mapped) ∙ st))

  pub attempt_once-Safe :
      (attempts : ℕ) (t : Txn) (now : ℕ)
      → t.saved ≡ []
      → Safe P (attempt_once command attempts) t now (Settled (Writes command))
  unfolding attempt_once
  attempt_once-Safe attempts t now s =
      Safe-with_body P (Writes command)
        (existing_bid command.request_id >>= unless_existing command attempts) t now s
        (λ later le.
          Calls.Safe-existing_bid P (Writes command) later [] [] command.request_id
            (unless_existing command attempts) (λ o n le'. unless_existing-Safe attempts n o))
