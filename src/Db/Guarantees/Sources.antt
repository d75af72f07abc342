-- ===== src/Db/Guarantees/Sources.antt =====
-- Where the rows of the table come from.
use transaction_safe_bidding.Prelude.{
  ℕ, ◌+◌, ◌≡◌, refl, ap, ◌∙◌, subst, ◌⊎◌, inl, inr, Bool, true, false, Option, none, some, ◌++◌,
  arith, ◌==◌, ==_iff, Bool-cases,
}
use transaction_safe_bidding.Prelude.All.{All, In, All-append, All-map, In-append_left}
use transaction_safe_bidding.Domain.Errors.{Exn, Result, ok, err}
use transaction_safe_bidding.Domain.Models.{Uuid}
use transaction_safe_bidding.Domain.Outcome.{BidOutcome}
use transaction_safe_bidding.Db.Tables.{AuctionRow, BidRow, Database, auction_row_error}
use transaction_safe_bidding.Db.Statements.{
  Stmt, connect, commit, rollback, find_bid, find_auction, database_clock, new_uuid, insert_bid,
  update_to, update_next, update_if, Answer, Txn, Env, commits, written, lock, staged, stage,
  visible, inserted, insert_error, new_row, with_bid, matches,
}
use transaction_safe_bidding.Db.Perform.{
  perform, locking, update_row, returning, update_matched, update_guarded,
}
use transaction_safe_bidding.Db.Program.{Prog}
use transaction_safe_bidding.Prelude.All.{All-In, All-In_right}
use transaction_safe_bidding.Db.System.{
  Session, System, with_session, after, Step, runs, fails, ticks, Reach, start, later,
}

-- The row was there at the beginning, or a connection committed it.
abbrev pub HasSource : Database → (ℕ → Session) → BidRow → Type 0
HasSource db sessions b = In b db.bids ⊎ ((i : ℕ) × In b (sessions i).txn.saved)

-- A statement adds only what its connection has then committed, and forgets nothing of that.
pub data Grows (db db' : Database) (t t' : Txn) : Type 0 where
  same : db'.bids ≡ db.bids → t'.saved ≡ t.saved → Grows db db' t t'
  adds : db'.bids ≡ db.bids ++ t.bids → t'.saved ≡ t.saved ++ t.bids → Grows db db' t t'

lock-saved : (t : Txn) (r : AuctionRow) → (lock t r).saved ≡ t.saved
unfolding lock
lock-saved t r = ground arith

staged-saved :
    (t : Txn) (r new : AuctionRow) (o : Option Exn) → (staged t r new o).1.saved ≡ t.saved
unfolding staged
staged-saved t r new none = lock-saved t r
staged-saved t r new (some e) = refl

locking-saved : (t : Txn) (b : Bool) (o : Option AuctionRow) → (locking t b o).saved ≡ t.saved
unfolding locking
locking-saved t false o = refl
locking-saved t true none = refl
locking-saved t true (some r) = lock-saved t r

update_row-saved :
    (t : Txn) (o : Option AuctionRow) (change : AuctionRow → AuctionRow)
    → (update_row t o change).1.saved ≡ t.saved
unfolding update_row stage
update_row-saved t none change = refl
update_row-saved t (some r) change = staged-saved t r (change r) (auction_row_error (change r))

returning-txn : (version : ℕ) (x : Result (Unit {0}) × Txn) → (returning version x).1 ≡ x.1
returning-txn version (ok _, t) = refl
returning-txn version (err e, t) = refl

update_matched-saved :
    (t : Txn) (r new : AuctionRow) (m : Bool) → (update_matched t r new m).1.saved ≡ t.saved
unfolding update_matched stage
update_matched-saved t r new false = refl
update_matched-saved t r new true =
    ap (λ (x : Txn). x.saved) (returning-txn new.version (staged t r new (auction_row_error new)))
    ∙ staged-saved t r new (auction_row_error new)

update_guarded-saved :
    (t : Txn) (o : Option AuctionRow) (amount : ℕ) (bid : Uuid) (observed time : ℕ)
    → (update_guarded t o amount bid observed time).1.saved ≡ t.saved
unfolding update_guarded
update_guarded-saved t none amount bid observed time = refl
update_guarded-saved t (some r) amount bid observed time =
    update_matched-saved t r (with_bid r amount bid (r.version + 1))
      (matches r amount observed time)

inserted-saved : (t : Txn) (b : BidRow) (o : Option Exn) → (inserted t b o).1.saved ≡ t.saved
unfolding inserted
inserted-saved t b none = refl
inserted-saved t b (some e) = refl

pub perform-Grows :
    (env : Env) (db : Database) (t : Txn) (s : Stmt)
    → Grows db (perform env db t s).2 t (perform env db t s).1
unfolding perform
perform-Grows env db t commit = elim (Bool-cases (commits db t)) [
  | inl fine ↦ rw fine (unfold written in adds refl refl)
  | inr broken ↦ rw broken (same refl refl)
]
perform-Grows env db t connect = same refl refl
perform-Grows env db t rollback = same refl refl
perform-Grows env db t (find_bid request) = same refl refl
perform-Grows env db t (find_auction key b) = same refl (locking-saved t b (visible db t key))
perform-Grows env db t database_clock = same refl refl
perform-Grows env db t new_uuid = same refl refl
perform-Grows env db t (insert_bid b) =
    same refl (inserted-saved t (new_row b env.time) (insert_error db t (new_row b env.time)))
perform-Grows env db t (update_to amount bid version key) =
    same refl (update_row-saved t (visible db t key) _)
perform-Grows env db t (update_next amount bid key) =
    same refl (update_row-saved t (visible db t key) _)
perform-Grows env db t (update_if amount bid key observed) =
    same refl (update_guarded-saved t (visible db t key) amount bid observed env.time)

-- A row with a source keeps it when connection `i` moves on.
source-moves :
    (db : Database) (x : System) (i : ℕ) (new : Session) (b : BidRow)
    → (In b (x.sessions i).txn.saved → In b new.txn.saved)
    → HasSource db x.sessions b
    → HasSource db (with_session x.sessions i new) b
source-moves db x i new b mono (inl h) = inl h
source-moves db x i new b mono (inr (j, h)) = inr (
  j,
  elim (Bool-cases (j == i)) [
    | inl same_session ↦
        rw same_session
          (mono (subst (λ n. In b (x.sessions n).txn.saved) ((==_iff j i).0 same_session) h))
    | inr differ ↦ rw differ h
  ],
)

source-own :
    (db : Database) (x : System) (i : ℕ) (new : Session) (b : BidRow)
    → In b new.txn.saved
    → HasSource db (with_session x.sessions i new) b
source-own db x i new b h = inr (i, rw ((==_iff i i).1 refl) h)

module _ (db : Database) where
  abbrev AllSourced : System → Type 0
  AllSourced x = All (HasSource db x.sessions) x.db.bids

  runs-sourced :
      (x : System) (i : ℕ) (s : Stmt) (k : Result (Answer s) → Prog BidOutcome) (env : Env)
      → Grows x.db
          (perform env x.db (x.sessions i).txn s).2
          (x.sessions i).txn
          (perform env x.db (x.sessions i).txn s).1
      → AllSourced x
      → AllSourced (after x i s k env)
  runs-sourced x i s k env (same p q) h =
      rw p (
        All-map (HasSource db x.sessions) _ x.db.bids (λ b. source-moves db x i _ b (λ m. rw q m))
          h)
  runs-sourced x i s k env (adds p q) h = rw p (
      All-append _ x.db.bids (x.sessions i).txn.bids
        (All-map (HasSource db x.sessions) _ x.db.bids
          (λ b.
            source-moves db x i _ b
              (λ m. rw q (In-append_left b (x.sessions i).txn.saved (x.sessions i).txn.bids m)))
          h)
        (All-map (λ b. In b ((x.sessions i).txn.saved ++ (x.sessions i).txn.bids)) _
          (x.sessions i).txn.bids (λ b m. source-own db x i _ b (rw q m))
          (All-In_right (x.sessions i).txn.saved (x.sessions i).txn.bids)))

  Step-sourced : (x y : System) → AllSourced x → Step x y → AllSourced y
  Step-sourced x y h (runs i s k env at free lo hi e) =
      rw e (runs-sourced x i s k env (perform-Grows env x.db (x.sessions i).txn s) h)
  Step-sourced x y h (fails i s k e' at e) =
      rw e (All-map (HasSource db x.sessions) _ x.db.bids (λ b. source-moves db x i _ b (λ m. m)) h)
  Step-sourced x y h (ticks n e) = rw e (All-map (HasSource db x.sessions) _ x.db.bids (λ b s. s) h)

  pub Reach-sourced : {x y : System} → AllSourced x → Reach x y → AllSourced y
  Reach-sourced h start = h
  Reach-sourced h (later {y} {z} r st) = Step-sourced y z (Reach-sourced h r) st

pub All-self : (db : Database) (sessions : ℕ → Session) → All (HasSource db sessions) db.bids
All-self db sessions =
    All-map (λ b. In b db.bids) (HasSource db sessions) db.bids (λ b h. inl h) (All-In db.bids)
