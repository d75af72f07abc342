-- ===== src/Db/Guarantees/Requests.antt =====
-- What the client of a finished request may conclude from its outcome.
use transaction_safe_bidding.Prelude.{
  ℕ, ◌≡◌, refl, length, sym, ap, subst, inl, inr, true, Option, none, some, List, [], ◌∷◌, arith,
}
use transaction_safe_bidding.Prelude.All.{All, In}
use transaction_safe_bidding.Domain.Errors.{ok}
use transaction_safe_bidding.Domain.Models.{BidCommand, BidOutcomeStatus, AcceptedBid}
use transaction_safe_bidding.Domain.Outcome.{BidOutcome}
use transaction_safe_bidding.Db.Tables.{BidRow, Database, clashes, bid_from_row}
use transaction_safe_bidding.Db.Statements.{Txn}
use transaction_safe_bidding.Db.Program.{Prog, ret, raise, call}
use transaction_safe_bidding.Db.Strategies.{BidStrategy}
use transaction_safe_bidding.Db.Protocol.Defs.{Policy, Safe}
use transaction_safe_bidding.Db.Safety.Outcomes.{Quiet, Settled, Writes, WritesFor, Records}
use transaction_safe_bidding.Db.Safety.Pessimistic.{NotEarly}
use transaction_safe_bidding.Db.History.{IsSound}
use transaction_safe_bidding.Db.System.{System, Reach, opening}
use transaction_safe_bidding.Db.Guarantees.Histories.{
  IsSafe, policy, clients, Promised, clients-Inv,
}

pub accepted-written :
    (command : BidCommand) (status : BidOutcomeStatus) (bid : Option AcceptedBid)
    (saved : List BidRow)
    → status ≡ BidOutcomeStatus.accepted
    → WritesFor command status bid saved
    → (row : BidRow) × (b : AcceptedBid) × (saved ≡ row ∷ [])
      × (bid ≡ some b)
      × (bid_from_row row ≡ ok b)
      × Records command row
accepted-written command BidOutcomeStatus.accepted none saved h w = absurd w
accepted-written command BidOutcomeStatus.accepted (some b) saved h (row, s, m, r) =
    (row, b, s, refl, m, r)
accepted-written command BidOutcomeStatus.replayed bid saved h w = absurd (cc)
accepted-written command BidOutcomeStatus.rejected bid saved h w = absurd (cc)

-- A row among those written for an outcome.
pub WritesFor-In :
    (command : BidCommand) (status : BidOutcomeStatus) (bid : Option AcceptedBid)
    (saved : List BidRow) (row : BidRow)
    → WritesFor command status bid saved
    → In row saved
    → (status ≡ BidOutcomeStatus.accepted)
      × ((b : AcceptedBid) × (bid ≡ some b) × (bid_from_row row ≡ ok b))
      × Records command row
WritesFor-In command BidOutcomeStatus.accepted none saved row w h = absurd w
WritesFor-In command BidOutcomeStatus.accepted (some b) saved row (r, s, m, rec) h =
    let e : row ≡ r = elim (subst (λ bs. In row bs) s h) [ inl e ↦ e | inr n ↦ absurd n ] in
    (
      refl,
      (b, refl, subst (λ x. bid_from_row x ≡ ok b) (sym e) m),
      subst (Records command) (sym e) rec,
    )
WritesFor-In command BidOutcomeStatus.replayed bid saved row w h =
    absurd (subst (λ bs. In row bs) w h)
WritesFor-In command BidOutcomeStatus.rejected bid saved row w h =
    absurd (subst (λ bs. In row bs) w h)

-- How many bids an outcome stands for.
abbrev pub bid_count : BidOutcomeStatus → ℕ
bid_count BidOutcomeStatus.accepted = 1
bid_count BidOutcomeStatus.replayed = 0
bid_count BidOutcomeStatus.rejected = 0

-- What a connection holds once its program has ended: no lock and no pending write. With an outcome it
-- has committed as many bids as the outcome stands for.
abbrev pub IsClean : Prog BidOutcome → Txn → Type 0
IsClean (ret o) t = Quiet t × (length t.saved ≡ bid_count o.status)
IsClean (raise x) t = Quiet t
IsClean (call s k) t = Unit

saved-count :
    (command : BidCommand) (status : BidOutcomeStatus) (bid : Option AcceptedBid)
    (saved : List BidRow)
    → WritesFor command status bid saved
    → length saved ≡ bid_count status
saved-count command BidOutcomeStatus.accepted none saved w = absurd w
saved-count command BidOutcomeStatus.accepted (some b) saved (row, s, _, _) = ap length s
saved-count command BidOutcomeStatus.replayed bid saved w = ap length w
saved-count command BidOutcomeStatus.rejected bid saved w = ap length w

pub Safe-IsClean :
    (P : Policy) (command : BidCommand) (m : Prog BidOutcome) (t : Txn) (at : ℕ)
    → Safe P m t at (Settled (Writes command))
    → IsClean m t
Safe-IsClean P command (ret o) t at (q, w) = (q, saved-count command o.status o.bid t.saved w)
Safe-IsClean P command (raise x) t at h = h.0
Safe-IsClean P command (call s k) t at h = tt

module _ (db : Database) (now : ℕ) (strategies : ℕ → BidStrategy) (commands : ℕ → BidCommand)
    {y : System} (safe : (i : ℕ) → IsSafe (strategies i)) (sound : IsSound (policy NotEarly db) db)
    (reach : Reach (opening db now (clients strategies commands)) y) where
  pub settled :
      (i : ℕ) (o : BidOutcome)
      → (y.sessions i).prog ≡ ret o
      → Promised commands i (ok o) (y.sessions i).txn (y.sessions i).seen
  settled i o e =
      subst
        (λ m.
          Safe (policy NotEarly db) m (y.sessions i).txn (y.sessions i).seen (Promised commands i))
        e ((clients-Inv db now strategies commands safe sound reach).safe i)

  -- While connections place bids by the safe strategies on tables with sound histories: where a
  -- request has ended with an accepted outcome, a row of the committed bids maps to the bid of the
  -- outcome, and holds the request, the auction, the stripped bidder and the amount of the command.
  pub accepted-committed :
      (i : ℕ) (o : BidOutcome)
      → (y.sessions i).prog ≡ ret o
      → o.status ≡ BidOutcomeStatus.accepted
      → (row : BidRow) × (b : AcceptedBid) × In row y.db.bids
        × (o.bid ≡ some b)
        × (bid_from_row row ≡ ok b)
        × Records (commands i) row
  accepted-committed i o e acc =
      let (row, b, s, ob, m, r) =
        accepted-written (commands i) o.status o.bid (y.sessions i).txn.saved acc
          (settled i o e).1 in
      (
        row,
        b,
        (subst (λ saved. All (λ c. In c y.db.bids) saved) s
            ((clients-Inv db now strategies commands safe sound reach).knows i).saved).0,
        ob,
        m,
        r,
      )

  -- While connections place bids by the safe strategies on tables with sound histories: a request that
  -- has ended, with an outcome or an error, holds no lock and has no pending write. If it has ended with
  -- an outcome, it has committed exactly one bid where the outcome is accepted, and none where it is a
  -- replay or a rejection.
  pub ended-IsClean : (i : ℕ) → IsClean (y.sessions i).prog (y.sessions i).txn
  ended-IsClean i =
      Safe-IsClean (policy NotEarly db) (commands i) (y.sessions i).prog (y.sessions i).txn
        (y.sessions i).seen ((clients-Inv db now strategies commands safe sound reach).safe i)

pub same_key-clashes :
    (b c : BidRow) (bs : List BidRow)
    → In c bs
    → b.request_id ≡ c.request_id
    → clashes b.id b.request_id bs ≡ true
unfolding clashes
same_key-clashes b c [] h e = absurd h
same_key-clashes b c (x ∷ bs) (inl p) e = ground (arith, ap (λ (r : BidRow). r.request_id) p)
same_key-clashes b c (x ∷ bs) (inr h) e = ground (arith, same_key-clashes b c bs h e)
