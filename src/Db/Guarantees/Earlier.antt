-- ===== src/Db/Guarantees/Earlier.antt =====
-- A request id that was committed before is not accepted again.
use transaction_safe_bidding.Prelude.{ℕ, ◌≡◌, refl, sym, ◌∙◌, subst, inl, inr, ◌==◌, Bool-cases}
use transaction_safe_bidding.Prelude.All.{In, In-append_left}
use transaction_safe_bidding.Domain.Models.{BidCommand, BidOutcomeStatus}
use transaction_safe_bidding.Domain.Outcome.{BidOutcome}
use transaction_safe_bidding.Db.Tables.{BidRow, Database}
use transaction_safe_bidding.Db.Statements.{Txn}
use transaction_safe_bidding.Db.Perform.{perform}
use transaction_safe_bidding.Db.Program.{Prog, ret, raise, call}
use transaction_safe_bidding.Db.Strategies.{BidStrategy}
use transaction_safe_bidding.Db.Protocol.Defs.{Policy, Knows}
use transaction_safe_bidding.Db.Safety.Pessimistic.{NotEarly}
use transaction_safe_bidding.Db.History.{IsSound}
use transaction_safe_bidding.Db.System.{
  Session, System, with_session, Step, runs, fails, ticks, Reach, start, later, opening,
}
use transaction_safe_bidding.Db.Guarantees.Histories.{IsSafe, policy, clients, clients-Inv}
use transaction_safe_bidding.Db.Guarantees.Requests.{same_key-clashes, accepted-written, settled}
use transaction_safe_bidding.Db.Guarantees.Sources.{Grows, same, adds, perform-Grows}
use transaction_safe_bidding.Db.Guarantees.Once.{IsNew, Grows-IsNew}

-- A bid that stays in the table, and whose request no connection has committed.
abbrev IsOld : BidRow → System → Type 0
IsOld c x =
    In c x.db.bids
    × ((i : ℕ) (b : BidRow) → In b (x.sessions i).txn.saved → ¬ (b.request_id ≡ c.request_id))

Grows-In :
    (db db' : Database) (t t' : Txn) (c : BidRow) → Grows db db' t t' → In c db.bids → In c db'.bids
Grows-In db db' t t' c (same p q) h = subst (λ bs. In c bs) (sym p) h
Grows-In db db' t t' c (adds p q) h =
    subst (λ bs. In c bs) (sym p) (In-append_left c db.bids t.bids h)

moves-IsOld :
    (x : System) (c : BidRow) (i : ℕ) (new : Session)
    → IsNew x.db (x.sessions i).txn new.txn
    → IsOld c x
    → (j : ℕ) (b : BidRow) → In b (with_session x.sessions i new j).txn.saved
    → ¬ (b.request_id ≡ c.request_id)
moves-IsOld x c i new fresh old j b = elim (Bool-cases (j == i)) [
  | inl own ↦ rw own (λ h. elim (fresh b h) [
    | inl before ↦ old.1 i b before
    | inr f ↦ λ e. let clash = same_key-clashes b c x.db.bids old.0 e in cc (f, clash)
  ])
  | inr other ↦ rw other (old.1 j b)
]

Step-IsOld :
    (P : Policy) (x y : System) (c : BidRow)
    → ((j : ℕ) → Knows P x.db (x.sessions j).txn)
    → IsOld c x
    → Step x y
    → IsOld c y
Step-IsOld P x y c known old (runs i s k env at free lo hi e) =
    let grows = perform-Grows env x.db (x.sessions i).txn s in
    rw e (
      Grows-In x.db (perform env x.db (x.sessions i).txn s).2 (x.sessions i).txn
          (perform env x.db (x.sessions i).txn s).1 c grows old.0,
      moves-IsOld x c i _
          (Grows-IsNew P x.db (perform env x.db (x.sessions i).txn s).2 (x.sessions i).txn
            (perform env x.db (x.sessions i).txn s).1 (known i) grows)
          old,
    )
Step-IsOld P x y c known old (fails i s k e' at e) =
    rw e (old.0, moves-IsOld x c i _ (λ b h. inl h) old)
Step-IsOld P x y c known old (ticks n e) = rw e old

module _ (db : Database) (now : ℕ) (strategies : ℕ → BidStrategy) (commands : ℕ → BidCommand)
    (c : BidRow) where
  Reach-IsOld :
      {y : System}
      → ((i : ℕ) → IsSafe (strategies i))
      → IsSound (policy NotEarly db) db
      → In c db.bids
      → Reach (opening db now (clients strategies commands)) y
      → IsOld c y
  Reach-IsOld safe sound m start = (m, λ i b h. absurd h)
  Reach-IsOld safe sound m (later {y} {z} r st) =
      Step-IsOld (policy NotEarly db) y z c
        (clients-Inv db now strategies commands safe sound r).knows (Reach-IsOld safe sound m r) st

-- The program has ended with an accepted outcome.
abbrev pub IsAccepted : Prog BidOutcome → Type 0
IsAccepted (ret o) = o.status ≡ BidOutcomeStatus.accepted
IsAccepted (raise e) = ⊥
IsAccepted (call s k) = ⊥

IsAccepted-ret : (m : Prog BidOutcome) → IsAccepted m → (o : BidOutcome) × (m ≡ ret o)
IsAccepted-ret (ret o) h = (o, refl)
IsAccepted-ret (raise e) h = absurd h
IsAccepted-ret (call s k) h = absurd h

-- While connections place bids by the safe strategies on tables with sound histories: in every state
-- that is reached, each bid that was in the table at the beginning is still in it as it was, and no
-- request with its request id has ended with an accepted outcome.
pub earlier_bid-final :
    (db : Database) (now : ℕ) (strategies : ℕ → BidStrategy) (commands : ℕ → BidCommand)
    {y : System}
    → ((i : ℕ) → IsSafe (strategies i))
    → IsSound (policy NotEarly db) db
    → Reach (opening db now (clients strategies commands)) y
    → (c : BidRow) (i : ℕ) → In c db.bids
    → In c y.db.bids × ¬ (((commands i).request_id ≡ c.request_id) × IsAccepted (y.sessions i).prog)
earlier_bid-final db now strategies commands {y} safe sound reach c i m =
    let old = Reach-IsOld db now strategies commands c safe sound m reach in
    (
      old.0,
      λ h.
          let (o, e) = IsAccepted-ret (y.sessions i).prog h.1 in
          let (r, _, hr, _, _, rec) =
            accepted-written (commands i) o.status o.bid (y.sessions i).txn.saved
              (subst IsAccepted e h.1)
              (settled db now strategies commands safe sound reach i o e).1 in
          old.1 i r (subst (λ bs. In r bs) (sym hr) (inl refl)) (rec.request ∙ h.0),
    )
