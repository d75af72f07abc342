-- ===== src/Db/Guarantees/Once.antt =====
-- A request id is accepted at most once.
use transaction_safe_bidding.Prelude.{
  ℕ, ◌≡◌, refl, sym, ◌∙◌, subst, ◌⊎◌, inl, inr, false, List, [], ◌∷◌, ◌++◌, ◌==◌, ==_iff,
  Bool-cases,
}
use transaction_safe_bidding.Prelude.All.{All-at, In}
use transaction_safe_bidding.Domain.Models.{BidCommand, BidOutcomeStatus}
use transaction_safe_bidding.Domain.Outcome.{BidOutcome}
use transaction_safe_bidding.Db.Tables.{BidRow, Database, clashes}
use transaction_safe_bidding.Db.Statements.{Txn}
use transaction_safe_bidding.Db.Perform.{perform}
use transaction_safe_bidding.Db.Program.{ret}
use transaction_safe_bidding.Db.Strategies.{BidStrategy}
use transaction_safe_bidding.Db.Protocol.Defs.{Policy, Knows}
use transaction_safe_bidding.Db.Safety.Pessimistic.{NotEarly}
use transaction_safe_bidding.Db.History.{IsSound}
use transaction_safe_bidding.Db.System.{
  Session, System, with_session, Step, runs, fails, ticks, Reach, start, later, opening,
}
use transaction_safe_bidding.Db.Guarantees.Histories.{IsSafe, policy, clients, clients-Inv}
use transaction_safe_bidding.Db.Guarantees.Requests.{same_key-clashes, accepted-written, settled}
use transaction_safe_bidding.Db.Guarantees.Sources.{Grows, same, adds, perform-Grows}

-- No two connections have committed bids with one request id.
abbrev Separate : (ℕ → Session) → Type 0
Separate sessions =
    (i j : ℕ)
    → ¬ (i ≡ j)
    → (b c : BidRow) → In b (sessions i).txn.saved
    → In c (sessions j).txn.saved
    → ¬ (b.request_id ≡ c.request_id)

In-append : (b : BidRow) (xs ys : List BidRow) → In b (xs ++ ys) → In b xs ⊎ In b ys
In-append b [] ys h = inr h
In-append b (x ∷ xs) ys (inl e) = inl (inl e)
In-append b (x ∷ xs) ys (inr h) = elim (In-append b xs ys h) [ inl m ↦ inl (inr m) | inr m ↦ inr m ]

-- What a statement adds to the commits of its connection is new to the table.
abbrev pub IsNew : Database → Txn → Txn → Type 0
IsNew db t t' =
    (b : BidRow) → In b t'.saved → In b t.saved ⊎ (clashes b.id b.request_id db.bids ≡ false)

pub Grows-IsNew :
    (P : Policy) (db db' : Database) (t t' : Txn) → Knows P db t → Grows db db' t t' → IsNew db t t'
Grows-IsNew P db db' t t' known (same p q) b h = inl (subst (λ bs. In b bs) q h)
Grows-IsNew P db db' t t' known (adds p q) b h =
    elim (In-append b t.saved t.bids (subst (λ bs. In b bs) q h)) [
      | inl m ↦ inl m
      | inr m ↦ inr (All-at (λ c. clashes c.id c.request_id db.bids ≡ false) b t.bids known.fresh m)
    ]

module _ (P : Policy) (x : System) (known : (j : ℕ) → Knows P x.db (x.sessions j).txn) where
  new_differs :
      (j : ℕ) (b c : BidRow)
      → clashes b.id b.request_id x.db.bids ≡ false
      → In c (x.sessions j).txn.saved
      → ¬ (b.request_id ≡ c.request_id)
  new_differs j b c fresh m e =
      let clash =
        same_key-clashes b c x.db.bids
          (All-at (λ d. In d x.db.bids) c (x.sessions j).txn.saved (known j).saved m) e in
      cc (fresh, clash)

  moves-Separate :
      (i : ℕ) (new : Session)
      → IsNew x.db (x.sessions i).txn new.txn
      → Separate x.sessions
      → Separate (with_session x.sessions i new)
  moves-Separate i new fresh sep k j differ b c = elim (Bool-cases (k == i)) [
    | inl ki ↦ elim (Bool-cases (j == i)) [
      | inl ji ↦ λ hb hc e. absurd (differ ((==_iff k i).0 ki ∙ sym ((==_iff j i).0 ji)))
      | inr ji ↦
          rw (ki, ji)
            (λ hb hc. elim (fresh b hb) [
              | inl old ↦ sep i j (λ e. differ ((==_iff k i).0 ki ∙ e)) b c old hc
              | inr f ↦ new_differs j b c f hc
            ])
    ]
    | inr ki ↦ elim (Bool-cases (j == i)) [
      | inl ji ↦
          rw (ki, ji)
            (λ hb hc. elim (fresh c hc) [
              | inl old ↦ sep k i (λ e. differ (e ∙ sym ((==_iff j i).0 ji))) b c hb old
              | inr f ↦ λ e. new_differs k c b f hb (sym e)
            ])
      | inr ji ↦ rw (ki, ji) (sep k j differ b c)
    ]
  ]

Step-Separate :
    (P : Policy) (x y : System)
    → ((j : ℕ) → Knows P x.db (x.sessions j).txn)
    → Separate x.sessions
    → Step x y
    → Separate y.sessions
Step-Separate P x y known sep (runs i s k env at free lo hi e) = rw e (
    moves-Separate P x known i _
      (Grows-IsNew P x.db (perform env x.db (x.sessions i).txn s).2 (x.sessions i).txn
        (perform env x.db (x.sessions i).txn s).1 (known i)
        (perform-Grows env x.db (x.sessions i).txn s))
      sep)
Step-Separate P x y known sep (fails i s k e' at e) =
    rw e (moves-Separate P x known i _ (λ b h. inl h) sep)
Step-Separate P x y known sep (ticks n e) = rw e sep

module _ (db : Database) (now : ℕ) (strategies : ℕ → BidStrategy) (commands : ℕ → BidCommand) where
  Reach-Separate :
      {y : System}
      → ((i : ℕ) → IsSafe (strategies i))
      → IsSound (policy NotEarly db) db
      → Reach (opening db now (clients strategies commands)) y
      → Separate y.sessions
  Reach-Separate safe sound start = λ i j differ b c h. absurd h
  Reach-Separate safe sound (later {y} {z} r st) =
      Step-Separate (policy NotEarly db) y z
        (clients-Inv db now strategies commands safe sound r).knows (Reach-Separate safe sound r) st

-- While connections place bids by the safe strategies on tables with sound histories: of different
-- requests that end with an accepted outcome, no two have the same request id.
pub accepted_once :
    (db : Database) (now : ℕ) (strategies : ℕ → BidStrategy) (commands : ℕ → BidCommand)
    {y : System}
    → ((i : ℕ) → IsSafe (strategies i))
    → IsSound (policy NotEarly db) db
    → Reach (opening db now (clients strategies commands)) y
    → (i j : ℕ) (o p : BidOutcome) → ¬ (i ≡ j)
    → (y.sessions i).prog ≡ ret o
    → o.status ≡ BidOutcomeStatus.accepted
    → (y.sessions j).prog ≡ ret p
    → p.status ≡ BidOutcomeStatus.accepted
    → ¬ ((commands i).request_id ≡ (commands j).request_id)
accepted_once db now strategies commands {y} safe sound reach i j o p differ ei ai ej aj e =
    let (r, _, hr, _, _, rec) =
      accepted-written (commands i) o.status o.bid (y.sessions i).txn.saved ai
        (settled db now strategies commands safe sound reach i o ei).1 in
    let (s, _, hs, _, _, rec') =
      accepted-written (commands j) p.status p.bid (y.sessions j).txn.saved aj
        (settled db now strategies commands safe sound reach j p ej).1 in
    Reach-Separate db now strategies commands safe sound reach i j differ r s
      (subst (λ bs. In r bs) (sym hr) (inl refl)) (subst (λ bs. In s bs) (sym hs) (inl refl))
      (rec.request ∙ e ∙ sym rec'.request)
