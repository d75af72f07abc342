-- ===== src/Db/Sequential/Repeats.antt =====
-- A request that is repeated: every strategy, alone, finds the first bid before anything else.
use transaction_safe_bidding.Prelude.{
  ℕ, none, true, zero, suc, ◌-◌, ◌≡◌, sym, ap, ◌∙◌, subst, Option, some, [], arith, Bool,
  if◌then◌else◌,
}
use transaction_safe_bidding.Domain.Errors.{Exn, Result, ok}
use transaction_safe_bidding.Domain.Models.{
  BidCommand, BidOutcomeStatus, AcceptedBid, request_id_reused,
}
use transaction_safe_bidding.Domain.Outcome.{BidOutcome, rejected, replayed}
use transaction_safe_bidding.Db.Tables.{BidRow, Database, lookup_request, bid_from_row}
use transaction_safe_bidding.Db.Statements.{Env, idle}
use transaction_safe_bidding.Db.Program.{Prog, run, attempt, transaction, ◌>>=◌}
use transaction_safe_bidding.Db.Mapped.{bid_of}
use transaction_safe_bidding.Db.Strategies.{BidStrategy, unsafe, pessimistic, optimistic, place_bid}
use transaction_safe_bidding.Db.Strategies.Shared.{
  map_row, some_row, existing_bid, same_payload, replay_or_reject,
}
use transaction_safe_bidding.Db.Strategies.Unsafe as Unsafe
use transaction_safe_bidding.Db.Strategies.Pessimistic as Pessimistic
use transaction_safe_bidding.Db.Strategies.Optimistic as Optimistic
use transaction_safe_bidding.Db.Sequential.Exec.{exec, go_on, run-exec, exec-bind, exec-lift}
use transaction_safe_bidding.Db.Sequential.Steps.{exec-existing_bid, replay_ok}
use transaction_safe_bidding.Db.Sequential.Ends.{view, seen, exec-seen, seen-unwritten}
use transaction_safe_bidding.Db.Sequential.Spec.{IsReady}
use transaction_safe_bidding.Db.Sequential.Outcomes.{Placed, place-Answers}
use transaction_safe_bidding.Db.Sequential.Refinement.{IsUsable, run-place}

module _ (env : Env) (db : Database) (command : BidCommand) (row : BidRow)
    (known : lookup_request command.request_id db.bids ≡ some row)
    (mapped : bid_from_row row ≡ ok (bid_of row)) where
  abbrev reply : Result BidOutcome
  reply = replay_or_reject (bid_of row) command

  exec-known :
      exec env db idle (existing_bid command.request_id) ≡ (ok (some (bid_of row)), idle, db)
  exec-known =
      exec-existing_bid env db [] command.request_id
      ∙ ap (λ o. (map_row bid_from_row o, idle, db)) known
      ∙ ap (λ b. (some_row b, idle, db)) mapped

  -- A transaction that looks the request up and answers it from the bid that it finds.
  attempt-known :
      (next : Option AcceptedBid → Prog BidOutcome) (h : Exn → Prog BidOutcome)
      → exec env db idle (next (some (bid_of row))) ≡ (reply, idle, db)
      → view (exec env db idle (attempt (transaction (existing_bid command.request_id >>= next)) h))
        ≡ (reply, db)
  attempt-known next h answers =
      let (o, p, _, _, _) = replay_ok (bid_of row) command in
      exec-seen env db (existing_bid command.request_id >>= next) h
      ∙ ap (seen env h) (
          exec-bind env db idle (existing_bid command.request_id) next
          ∙ ap (go_on env next) exec-known
          ∙ answers)
      ∙ seen-unwritten env h reply o [] db p

  counted-reply : Optimistic.counted 1 reply ≡ reply
  unfolding Optimistic.counted
  counted-reply =
      let (o, p, _, _, again) = replay_ok (bid_of row) command in
      ap (Optimistic.counted 1) p ∙ again ∙ sym p

  optimistic-known :
      (max_attempts : ℕ)
      → IsUsable (optimistic max_attempts)
      → view (exec env db idle (Optimistic.place_bid max_attempts command)) ≡ (reply, db)
  unfolding Optimistic.place_bid Optimistic.turns Optimistic.attempt_once Optimistic.unless_existing
  optimistic-known zero usable = absurd (omega (arith, usable))
  optimistic-known (suc left) usable =
      let one : suc left - left ≡ 1 = omega arith in
      let retry = Optimistic.turns (suc left) command left in
      ap
        (λ n. view (
          exec env db idle (
            attempt (Optimistic.attempt_once command n)
              (Optimistic.on_error (suc left) command n retry))))
        one
      ∙ attempt-known (Optimistic.unless_existing command 1)
          (Optimistic.on_error (suc left) command 1 retry)
          (exec-lift env db idle (Optimistic.counted 1 reply)
            ∙ ap (λ y. (y, idle, db)) counted-reply)

  run-known :
      (strategy : BidStrategy) (n : ℕ)
      → IsUsable strategy
      → view (run (λ _. env) n db idle (place_bid strategy command)) ≡ (reply, db)
  unfolding place_bid Unsafe.place_bid Unsafe.unless_existing Pessimistic.place_bid
      Pessimistic.unless_existing
  run-known unsafe n usable =
      ap view (run-exec env n db idle (Unsafe.place_bid command))
      ∙ attempt-known (Unsafe.unless_existing command) (Unsafe.on_error command)
          (exec-lift env db idle reply)
  run-known pessimistic n usable =
      ap view (run-exec env n db idle (Pessimistic.place_bid command))
      ∙ attempt-known (Pessimistic.unless_existing command) (Pessimistic.on_error command)
          (exec-lift env db idle reply)
  run-known (optimistic max_attempts) n usable =
      ap view (run-exec env n db idle (Optimistic.place_bid max_attempts command))
      ∙ optimistic-known max_attempts usable

-- A bid that the command has made, and what it is answered with.
replay_or_reject-same :
    (b : AcceptedBid) (command : BidCommand)
    → same_payload b command ≡ true
    → replay_or_reject b command ≡ replayed b 1 0
unfolding replay_or_reject
replay_or_reject-same b command same =
    ap (λ (c : Bool). if c then replayed b 1 0 else rejected request_id_reused none 1 0) same

-- A request that runs without interference, by a usable strategy, at one instant, and on tables and
-- with a command that are ready, and that ends with an accepted outcome: the same command, run once
-- more without interference, by any usable strategy and at any instant, on the tables that the first
-- run has left, ends with a replay of the same bid, and leaves these tables as they are.
pub run-again :
    (env later : Env) (db : Database) (command : BidCommand) (first again : BidStrategy) (n m : ℕ)
    (o : BidOutcome) (b : AcceptedBid)
    → IsUsable first
    → IsUsable again
    → IsReady env db command
    → (view (run (λ _. env) n db idle (place_bid first command))).0 ≡ ok o
    → o.status ≡ BidOutcomeStatus.accepted
    → o.bid ≡ some b
    → (let tables = (view (run (λ _. env) n db idle (place_bid first command))).1 in
        view (run (λ _. later) m tables idle (place_bid again command)) ≡ (replayed b 1 0, tables))
run-again env later db command first again n m o b usable usable' ready h yes_ bid =
    let ran = run-place env db command first n usable ready in
    let (row, found, mapped, same, payload) =
      subst (λ (x : Result BidOutcome × Database). Placed command o x.1) (sym ran)
        (place-Answers env db command ready o
          (sym (ap (λ (x : Result BidOutcome × Database). x.0) ran) ∙ h) yes_) in
    let tables = (view (run (λ _. env) n db idle (place_bid first command))).1 in
    let mine : bid_of row ≡ b = cc (same, bid) in
    run-known later tables command row found mapped again m usable'
    ∙ ap (λ (x : Result BidOutcome). let y : Result BidOutcome × Database = (x, tables) in y)
        (replay_or_reject-same (bid_of row) command payload
          ∙ ap (λ (a : AcceptedBid). replayed a 1 0) mine)
