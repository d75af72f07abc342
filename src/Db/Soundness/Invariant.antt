-- ===== src/Db/Soundness/Invariant.antt =====
-- The invariant of a system whose connections keep to the discipline, and that every step keeps it.
use transaction_safe_bidding.Prelude.{
  ℕ, ◌+◌, ◌≤◌, ◌≡◌, refl, sym, subst, ◌≢◌, inl, inr, false, some, List, [], ◌++◌, arith, ◌==◌,
  ==_iff, Bool-cases,
}
use transaction_safe_bidding.Prelude.All.{Across-nil}
use transaction_safe_bidding.Domain.Errors.{Exn, Result}
use transaction_safe_bidding.Domain.Outcome.{BidOutcome}
use transaction_safe_bidding.Db.Tables.{AuctionRow, BidRow, Database, lookup_auction}
use transaction_safe_bidding.Db.Statements.{
  Stmt, connect, commit, rollback, find_bid, find_auction, database_clock, new_uuid, insert_bid,
  update_to, update_next, update_if, Answer, Txn, ended, idle, Env, commits,
}
use transaction_safe_bidding.Db.Perform.{perform, blocks}
use transaction_safe_bidding.Db.Program.{Prog, call}
use transaction_safe_bidding.Db.Protocol.Defs.{Policy, Knows, CanCommit, Allowed, Safe}
use transaction_safe_bidding.Db.History.{IsSound}
use transaction_safe_bidding.Db.System.{
  Session, System, with_session, after, after_failure, Unblocked, Step, runs, fails, ticks, Reach,
  start, later, opening,
}
use transaction_safe_bidding.Db.Soundness.Effects.{perform-Effect, perform-tables}
use transaction_safe_bidding.Db.Soundness.Apart.{
  Apart, OtherRow, OtherKeys, Apart-Effect, Knows-Effect,
}
use transaction_safe_bidding.Db.Soundness.Commits.{commit-IsSound, commit-Knows, commit-Knows_self}

-- `Q` is what each program promises at its end.
pub record Inv (P : Policy) (Q : ℕ → Result BidOutcome → Txn → ℕ → Type 0) (x : System)
    : Type 0 where
  pub sound : IsSound P x.db
  pub safe : (i : ℕ) → Safe P (x.sessions i).prog (x.sessions i).txn (x.sessions i).seen (Q i)
  pub knows : (i : ℕ) → Knows P x.db (x.sessions i).txn
  pub past : (i : ℕ) → (x.sessions i).seen ≤ x.clock
  pub apart : (i j : ℕ) → ¬ (i ≡ j) → Apart (x.sessions i).txn (x.sessions j).txn

-- Whether a statement is COMMIT.
data CommitOrNot : Stmt → Type 0 where
  is_commit : CommitOrNot commit
  no_commit : {s : Stmt} → s ≢ commit → CommitOrNot s

commit_or_not : (s : Stmt) → CommitOrNot s
commit_or_not commit = is_commit
commit_or_not connect = no_commit (λ e. cc)
commit_or_not rollback = no_commit (λ e. cc)
commit_or_not (find_bid _) = no_commit (λ e. cc)
commit_or_not (find_auction _ _) = no_commit (λ e. cc)
commit_or_not database_clock = no_commit (λ e. cc)
commit_or_not new_uuid = no_commit (λ e. cc)
commit_or_not (insert_bid _) = no_commit (λ e. cc)
commit_or_not (update_to _ _ _ _) = no_commit (λ e. cc)
commit_or_not (update_next _ _ _) = no_commit (λ e. cc)
commit_or_not (update_if _ _ _ _) = no_commit (λ e. cc)

-- A connection at rest is apart from every other.
abbrev rest : List BidRow → Txn
rest saved = record { locked = []; bids = []; rows = []; saved = saved }

rest-Apart : (saved : List BidRow) (o : Txn) → Apart (rest saved) o × Apart o (rest saved)
rest-Apart saved o = (
  record { rows = tt; keys = tt },
  record { rows = Across-nil OtherRow o.locked; keys = Across-nil OtherKeys o.bids },
)

ended-Knows : (P : Policy) (db : Database) (t : Txn) → Knows P db t → Knows P db (ended t)
ended-Knows P db t k = record { starts = k.starts; locked = tt; fresh = tt; saved = k.saved }

-- What one statement of the connection does to the tables, to itself, and to another connection.
module _ (P : Policy) (env : Env) (db : Database) (t : Txn) (known : Knows P db t) where
  record Kept (s : Stmt) : Type 0 where
    sound : IsSound P db → IsSound P (perform env db t s).2
    self : Knows P (perform env db t s).2 (perform env db t s).1
    others : (o : Txn) → Apart t o → Knows P db o → Knows P (perform env db t s).2 o
    apart :
        (o : Txn)
        → blocks s o ≡ false
        → Apart t o
        → Apart o t
        → Apart (perform env db t s).1 o × Apart o (perform env db t s).1

  commit-Kept : CanCommit P t → Kept commit
  unfolding perform
  commit-Kept can = elim (Bool-cases (commits db t)) [
    | inl fine ↦ record {
      sound = λ h. rw fine (commit-IsSound P db t known can h);
      self = rw fine (commit-Knows_self P db t known can);
      others = λ o a k. rw fine (commit-Knows P db t known o can a k);
      apart = λ o w a b. rw fine (rest-Apart (t.saved ++ t.bids) o);
    }
    | inr broken ↦ record {
      sound = λ h. rw broken h;
      self = rw broken (ended-Knows P db t known);
      others = λ o a k. rw broken k;
      apart = λ o w a b. rw broken (rest-Apart t.saved o);
    }
  ]

  other-Kept : (s : Stmt) → s ≢ commit → Allowed P s t → Kept s
  other-Kept s n allowed =
      let same = perform-tables P env db t s n in
      let effect = perform-Effect P env db t s n allowed in
      record {
        sound = λ h. rw same h;
        self = rw same (Knows-Effect P db s t (perform env db t s).1 effect known);
        others = λ o a k. rw same k;
        apart = λ o w a b. Apart-Effect db s t (perform env db t s).1 o effect w a b;
      }

  perform-Kept : (s : Stmt) → CommitOrNot s → Allowed P s t → Kept s
  perform-Kept s is_commit allowed = commit-Kept allowed
  perform-Kept s (no_commit n) allowed = other-Kept s n allowed

-- A property of each connection after one of them has moved.
with_session-each :
    (f : ℕ → Session) (i : ℕ) (new : Session) (C : ℕ → Session → Type 0)
    → C i new
    → ((j : ℕ) → ¬ (j ≡ i) → C j (f j))
    → (j : ℕ) → C j (with_session f i new j)
with_session-each f i new C mine others j = elim (Bool-cases (j == i)) [
  | inl same ↦ rw same (subst (λ n. C n new) (sym ((==_iff j i).0 same)) mine)
  | inr differ ↦ rw differ (others j (λ e. ground arith))
]

module _ (P : Policy) (Q : ℕ → Result BidOutcome → Txn → ℕ → Type 0) where
  -- One connection moves, and the tables change as the others allow.
  moved-Inv :
      (x : System) (i : ℕ) (db : Database) (new : Session)
      → Inv P Q x
      → IsSound P db
      → Safe P new.prog new.txn new.seen (Q i)
      → Knows P db new.txn
      → new.seen ≤ x.clock
      → ((j : ℕ)
          → ¬ (j ≡ i)
          → Knows P db (x.sessions j).txn
            × Apart new.txn (x.sessions j).txn
            × Apart (x.sessions j).txn new.txn)
      → Inv P Q (record { db = db; clock = x.clock; sessions = with_session x.sessions i new })
  moved-Inv x i db new inv sound safe knows past others = record {
    sound = sound;
    safe =
        with_session-each x.sessions i new (λ j t. Safe P t.prog t.txn t.seen (Q j)) safe
          (λ j n. inv.safe j);
    knows =
        with_session-each x.sessions i new (λ j t. Knows P db t.txn) knows (λ j n. (others j n).0);
    past = with_session-each x.sessions i new (λ j t. t.seen ≤ x.clock) past (λ j n. inv.past j);
    apart = λ j l.
        with_session-each x.sessions i new
          (λ j t. ¬ (j ≡ l) → Apart t.txn (with_session x.sessions i new l).txn)
          (with_session-each x.sessions i new (λ l u. ¬ (i ≡ l) → Apart new.txn u.txn)
            (λ n. absurd (n refl)) (λ l n _. (others l n).1) l)
          (λ j m.
            with_session-each x.sessions i new (λ l u. ¬ (j ≡ l) → Apart (x.sessions j).txn u.txn)
              (λ _. (others j m).2) (λ l n d. inv.apart j l d) l)
          j;
  }

  runs-Inv :
      (x : System) (i : ℕ) (s : Stmt) (k : Result (Answer s) → Prog BidOutcome) (env : Env)
      → Inv P Q x
      → (x.sessions i).prog ≡ call s k
      → Unblocked x i s
      → (x.sessions i).seen ≤ env.time
      → env.time ≤ x.clock
      → Inv P Q (after x i s k env)
  runs-Inv x i s k env inv at free lo hi =
      let t : Txn = (x.sessions i).txn in
      let (allowed, goes, _) = subst (λ m. Safe P m t (x.sessions i).seen (Q i)) at (inv.safe i) in
      let kept = perform-Kept P env x.db t (inv.knows i) s (commit_or_not s) allowed in
      moved-Inv x i (perform env x.db t s).2 _ inv (kept.sound inv.sound)
        (goes env x.db x.clock (inv.knows i) lo hi) kept.self (omega arith)
        (λ j n.
          let (a, b) =
            kept.apart (x.sessions j).txn (free j n) (inv.apart i j (λ e. n (sym e)))
              (inv.apart j i n) in
          (kept.others (x.sessions j).txn (inv.apart i j (λ e. n (sym e))) (inv.knows j), a, b))

  fails-Inv :
      (x : System) (i : ℕ) (s : Stmt) (k : Result (Answer s) → Prog BidOutcome) (e : Exn)
      → Inv P Q x
      → (x.sessions i).prog ≡ call s k
      → Inv P Q (after_failure x i s k e)
  fails-Inv x i s k e inv at =
      let t : Txn = (x.sessions i).txn in
      let (_, _, bad) = subst (λ m. Safe P m t (x.sessions i).seen (Q i)) at (inv.safe i) in
      moved-Inv x i x.db _ inv inv.sound (bad e x.clock (inv.past i))
        (ended-Knows P x.db t (inv.knows i)) (omega arith)
        (λ j n. let (a, b) = rest-Apart t.saved (x.sessions j).txn in (inv.knows j, a, b))

  ticks-Inv : (x : System) (n : ℕ) → Inv P Q x → Inv P Q (record x { clock = x.clock + n })
  ticks-Inv x n inv = record {
    sound = inv.sound;
    safe = inv.safe;
    knows = inv.knows;
    past = λ i. omega (arith, inv.past i);
    apart = inv.apart;
  }

  pub Step-Inv : (x y : System) → Inv P Q x → Step x y → Inv P Q y
  Step-Inv x y inv (runs i s k env at free lo hi e) = rw e (runs-Inv x i s k env inv at free lo hi)
  Step-Inv x y inv (fails i s k x' at e) = rw e (fails-Inv x i s k x' inv at)
  Step-Inv x y inv (ticks n e) = rw e (ticks-Inv x n inv)

  pub Reach-Inv : {x y : System} → Inv P Q x → Reach x y → Inv P Q y
  Reach-Inv inv start = inv
  Reach-Inv inv (later {y} {z} r st) = Step-Inv y z (Reach-Inv inv r) st

  -- At the start nothing is locked or pending.
  pub opening-Inv :
      (db : Database) (now : ℕ) (progs : ℕ → Prog BidOutcome)
      → IsSound P db
      → ((y : AuctionRow) → lookup_auction y.id db.auctions ≡ some y → y.starts_at ≡ P.start y.id)
      → ((i : ℕ) → Safe P (progs i) idle now (Q i))
      → Inv P Q (opening db now progs)
  opening-Inv db now progs sound starts safe = record {
    sound = sound;
    safe = safe;
    knows = λ i. record { starts = starts; locked = tt; fresh = tt; saved = tt };
    past = λ i. omega arith;
    apart = λ i j n. record { rows = tt; keys = tt };
  }
