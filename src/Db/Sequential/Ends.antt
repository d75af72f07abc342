-- ===== src/Db/Sequential/Ends.antt =====
-- How a request ends: what its transaction, its handlers and the evaluation leave.
use transaction_safe_bidding.Prelude.{
  ℕ, ◌<◌, ◌≡◌, refl, ap, ◌∙◌, false, Option, none, some, List, [], arith,
}
use transaction_safe_bidding.Domain.Errors.{Exn, Result, ok, err, ok_of_no_error}
use transaction_safe_bidding.Domain.Models.{BidCommand, BidEvaluation, BidRejectionReason}
use transaction_safe_bidding.Domain.Outcome.{BidOutcome, bid_outcome, outcome_fits, rejected}
use transaction_safe_bidding.Domain.Verdicts.{accepted_iff, evaluate_total}
use transaction_safe_bidding.Db.Tables.{AuctionRow, Database, lookup_auction}
use transaction_safe_bidding.Db.Statements.{idle, Env}
use transaction_safe_bidding.Db.Program.{Prog, attempt, transaction}
use transaction_safe_bidding.Db.Mapped.{snapshot_of}
use transaction_safe_bidding.Db.Safety.Calls.{open_txn}
use transaction_safe_bidding.Db.Strategies.Shared.{evaluate, refuse}
use transaction_safe_bidding.Db.Sequential.Exec.{
  State, exec, handle, close, exec-attempt, exec-transaction,
}
use transaction_safe_bidding.Db.Sequential.Spec.{IsReady}
use transaction_safe_bidding.Db.Sequential.Steps.{close-unwritten}

-- What the caller and the tables see of a run.
abbrev pub view : {A : Type 0} → State A → Result A × Database
view (r, t, db) = (r, db)

-- The result of a body, seen after its transaction and the handlers round it.
abbrev pub seen : Env → (Exn → Prog BidOutcome) → State BidOutcome → Result BidOutcome × Database
seen env h s = view (handle env h (close env s))

pub exec-seen :
    (env : Env) (db : Database) (m : Prog BidOutcome) (h : Exn → Prog BidOutcome)
    → view (exec env db idle (attempt (transaction m) h)) ≡ seen env h (exec env db idle m)
exec-seen env db m h =
    ap view (exec-attempt env db idle (transaction m) h)
    ∙ ap (λ s. view (handle env h s)) (exec-transaction env db idle m)

seen-ok :
    (env : Env) (h : Exn → Prog BidOutcome) (x : Result BidOutcome) (o : BidOutcome) (db : Database)
    → x ≡ ok o
    → view (handle env h (x, idle, db)) ≡ (x, db)
seen-ok env h (ok p) o db e = refl
seen-ok env h (err x) o db e = absurd (cc)

-- A body that ends with an outcome and has written nothing.
pub seen-unwritten :
    (env : Env) (h : Exn → Prog BidOutcome) (x : Result BidOutcome) (o : BidOutcome)
    (locked : List AuctionRow) (db : Database)
    → x ≡ ok o
    → seen env h (x, open_txn locked [] [], db) ≡ (x, db)
seen-unwritten env h x o locked db e =
    ap (λ s. view (handle env h s)) (close-unwritten env x locked db) ∙ seen-ok env h x o db e

refuse_some :
    (e : BidEvaluation) (n c : ℕ) (reason : Option BidRejectionReason)
    → e.rejection_reason ≡ reason
    → ¬ (reason ≡ none)
    → 0 < n
    → (o : BidOutcome) × (refuse e n c ≡ ok o)
unfolding refuse rejected bid_outcome outcome_fits
refuse_some e n c none p h pos = absurd (h refl)
refuse_some e n c (some r) p h pos = ok_of_no_error (refuse e n c) (λ x bad. ground (arith, p))

module _ (env : Env) (db : Database) (command : BidCommand) (ready : IsReady env db command)
    (r : AuctionRow) (found : lookup_auction command.auction_id db.auctions ≡ some r) where
  -- The auction can be evaluated.
  pub evaluated : (e : BidEvaluation) × (evaluate (snapshot_of r) command env.time ≡ ok e)
  evaluated =
      evaluate_total (snapshot_of r) command.amount_cents env.time ready.amount.0 ready.amount.1
        (ready.auction r found).3

  pub refused :
      (e : BidEvaluation)
      → evaluate (snapshot_of r) command env.time ≡ ok e
      → e.accepted ≡ false
      → (o : BidOutcome) × (refuse e 1 0 ≡ ok o)
  refused e h no_ =
      refuse_some e 1 0 e.rejection_reason refl
        (λ n.
          let yes_ = (accepted_iff (snapshot_of r) command.amount_cents env.time e h).1.1 n in
          cc (yes_, no_))
        (omega arith)
