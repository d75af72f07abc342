-- ===== src/Db/Sequential/Unsafe.antt =====
-- The unsafe strategy without interference.
use transaction_safe_bidding.Prelude.{
  ◌+◌, ◌≤◌, ◌≡◌, refl, sym, ap, ◌∙◌, Bool, true, false, not, Option, none, some, List, [], ◌∷◌,
  if◌then◌else◌,
}
use transaction_safe_bidding.Domain.Errors.{Exn, ok}
use transaction_safe_bidding.Domain.Models.{BidCommand, BidEvaluation}
use transaction_safe_bidding.Domain.Outcome.{
  BidOutcome, bid_outcome, outcome_fits, rejected, accepted,
}
use transaction_safe_bidding.Domain.Verdicts.{accepted_iff, floor_of}
use transaction_safe_bidding.Db.Tables.{
  AuctionRow, BidRow, Database, lookup_auction, lookup_request, auction_from_row, bid_from_row,
}
use transaction_safe_bidding.Db.Statements.{idle, Env, update_to}
use transaction_safe_bidding.Db.Perform.{perform, locking}
use transaction_safe_bidding.Db.Program.{Prog, ◌>>=◌, lift, query}
use transaction_safe_bidding.Db.Mapped.{snapshot_of, bid_of}
use transaction_safe_bidding.Db.Safety.Calls.{open_txn, lookup_auction-id}
use transaction_safe_bidding.Db.Strategies.Shared.{
  map_row, some_row, existing_bid, read_auction, database_time, replay_or_reject, insert_new_bid,
  evaluate, refuse,
}
use transaction_safe_bidding.Db.Strategies.Unsafe.{
  write, decide, validate, unless_existing, on_error, place_bid,
}
use transaction_safe_bidding.Db.Sequential.Exec.{exec, go_on, handle, exec-lift, exec-bind}
use transaction_safe_bidding.Db.Sequential.Spec.{
  placed_row, raised_tables, settle, bid_on, answer, place, IsReady,
}
use transaction_safe_bidding.Db.Sequential.Steps.{
  exec-existing_bid, exec-read_auction, exec-insert_new_bid, raised_row-fits, close-written,
  replay_ok,
}
use transaction_safe_bidding.Db.Sequential.Writes.{exec-update_to}
use transaction_safe_bidding.Db.Sequential.Ends.{
  view, seen, exec-seen, seen-unwritten, evaluated, refused,
}

module _ (env : Env) (db : Database) (command : BidCommand) (ready : IsReady env db command) where
  abbrev h : Exn → Prog BidOutcome
  h = on_error command

  module _ (r : AuctionRow) (found : lookup_auction command.auction_id db.auctions ≡ some r)
      (absent : lookup_request command.request_id db.bids ≡ none) where
    -- An accepted evaluation.
    seen-write :
        (locked : List AuctionRow)
        → floor_of (snapshot_of r) ≤ command.amount_cents
        → seen env h (exec env db (open_txn locked [] []) (write command (snapshot_of r)))
          ≡ (accepted (bid_of (placed_row env command r)) 1 0, raised_tables env db command r)
    unfolding write perform query lift ◌>>=◌ accepted bid_outcome outcome_fits
    seen-write locked low =
        let row = placed_row env command r in
        let win = accepted (bid_of row) 1 0 in
        let (mapped, checked, room, bound) = ready.auction r found in
        let fits = raised_row-fits env db command r checked room ready.amount.1 low in
        let (locked', updated) = exec-update_to env db command r found fits locked (row ∷ []) win in
        let key = lookup_auction-id command.auction_id db.auctions r found in
        ap (seen env h) (
          exec-bind env db (open_txn locked [] []) (insert_new_bid command env.uuid (r.version + 1))
            (λ bid.
              query (update_to command.amount_cents env.uuid (r.version + 1) command.auction_id)
              >>= λ _. lift (accepted bid 1 0))
          ∙ ap
              (go_on env (λ bid.
                query (update_to command.amount_cents env.uuid (r.version + 1) command.auction_id)
                >>= λ _. lift (accepted bid 1 0)))
              (exec-insert_new_bid env db locked command r ready found absent)
          ∙ updated)
        ∙ ap (λ s. view (handle env h s)) (close-written env db _ command r locked' key)

    seen-verdict :
        (e : BidEvaluation) (b : Bool)
        → evaluate (snapshot_of r) command env.time ≡ ok e
        → e.accepted ≡ b
        → seen env h (
            exec env db idle (if not b then lift (refuse e 1 0) else write command (snapshot_of r)))
          ≡ (if b
              then (
                accepted (bid_of (placed_row env command r)) 1 0,
                raised_tables env db command r,
              )
              else (refuse e 1 0, db))
    seen-verdict e true he yes_ =
        seen-write [] ((accepted_iff (snapshot_of r) command.amount_cents env.time e he).0.0 yes_).2
    seen-verdict e false he no_ =
        let (o, p) = refused env db command ready r found e he no_ in
        ap (seen env h) (exec-lift env db idle (refuse e 1 0))
        ∙ seen-unwritten env h (refuse e 1 0) o [] db p

    seen-validate :
        seen env h (exec env db idle (validate command (some (snapshot_of r))))
        ≡ bid_on env db command (some r)
    unfolding validate database_time query ◌>>=◌ perform bid_on decide settle lift
    seen-validate =
        let (e, he) = evaluated env db command ready r found in
        let k = decide command (snapshot_of r) in
        ap (seen env h) (
          exec-bind env db idle (lift (evaluate (snapshot_of r) command env.time)) k
          ∙ ap (go_on env k) (
              exec-lift env db idle (evaluate (snapshot_of r) command env.time)
              ∙ ap (λ x. (x, idle, db)) he))
        ∙ seen-verdict e e.accepted he refl
        ∙ ap (settle env db command r) (sym he)

  seen-auction :
      (o : Option AuctionRow)
      → lookup_auction command.auction_id db.auctions ≡ o
      → lookup_request command.request_id db.bids ≡ none
      → seen env h
          (go_on env (validate command) (map_row auction_from_row o, locking idle false o, db))
        ≡ bid_on env db command o
  unfolding locking
  seen-auction none found absent =
      unfold validate lift bid_on rejected bid_outcome outcome_fits in
      seen-unwritten env h (ok _) _ [] db refl
  seen-auction (some r) found absent =
      ap (λ a. seen env h (go_on env (validate command) (some_row a, idle, db)))
        (ready.auction r found).0
      ∙ seen-validate r found absent

  seen-existing :
      (o : Option BidRow)
      → lookup_request command.request_id db.bids ≡ o
      → seen env h (go_on env (unless_existing command) (map_row bid_from_row o, idle, db))
        ≡ answer env db command o
  unfolding unless_existing answer
  seen-existing (some row) known =
      let (o, p, _, _, _) = replay_ok (bid_of row) command in
      ap (λ b. seen env h (go_on env (unless_existing command) (some_row b, idle, db)))
        (ready.bid row known)
      ∙ ap (seen env h) (exec-lift env db idle (replay_or_reject (bid_of row) command))
      ∙ seen-unwritten env h (replay_or_reject (bid_of row) command) o [] db p
  seen-existing none absent =
      let k = validate command in
      ap (seen env h) (
        exec-bind env db idle (read_auction command.auction_id false) k
        ∙ ap (go_on env k) (exec-read_auction env db command.auction_id false))
      ∙ seen-auction (lookup_auction command.auction_id db.auctions) refl absent

  pub unsafe-place : view (exec env db idle (place_bid command)) ≡ place env db command
  unfolding place_bid place
  unsafe-place =
      exec-seen env db (existing_bid command.request_id >>= unless_existing command) h
      ∙ ap (seen env h) (
          exec-bind env db idle (existing_bid command.request_id) (unless_existing command)
          ∙ ap (go_on env (unless_existing command))
              (exec-existing_bid env db [] command.request_id))
      ∙ seen-existing (lookup_request command.request_id db.bids) refl
