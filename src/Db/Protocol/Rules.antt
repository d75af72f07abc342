-- ===== src/Db/Protocol/Rules.antt =====
-- One rule for each construct that the strategies are written with.
use transaction_safe_bidding.Prelude.{
  ℕ, ◌≤◌, ◌≡◌, refl, inl, inr, true, false, ◌++◌, arith, Bool-cases,
}
use transaction_safe_bidding.Domain.Errors.{Exn, Result, ok, err}
use transaction_safe_bidding.Domain.Models.{Uuid}
use transaction_safe_bidding.Db.Statements.{
  Stmt, commit, find_auction, update_to, update_next, update_if, Txn, ended, commits,
}
use transaction_safe_bidding.Db.Perform.{perform}
use transaction_safe_bidding.Db.Program.{
  Prog, ret, raise, call, ◌>>=◌, lift, query, attempt, finish, transaction,
}
use transaction_safe_bidding.Db.Protocol.Defs.{Policy, CanCommit, clean, full, Allowed, Safe}

module _ (P : Policy) where
  pub Safe-weaken :
      {A : Type 0} (m : Prog A) (t : Txn) (now : ℕ) (R Q : Result A → Txn → ℕ → Type 0)
      → ((r : Result A) (t' : Txn) (later : ℕ) → R r t' later → Q r t' later)
      → Safe P m t now R
      → Safe P m t now Q
  Safe-weaken (ret a) t now R Q f h = f (ok a) t now h
  Safe-weaken (raise e) t now R Q f h = f (err e) t now h
  Safe-weaken (call s k) t now R Q f (allowed, goes, fails) = (
    allowed,
    λ env db later knows lo hi.
        Safe-weaken (k (perform env db t s).0) (perform env db t s).1 later R Q f
          (goes env db later knows lo hi),
    λ e later lo. Safe-weaken (k (err e)) (ended t) later R Q f (fails e later lo),
  )

  pub Safe-bind :
      {A B : Type 0} (m : Prog A) (f : A → Prog B) (t : Txn) (now : ℕ)
      (R : Result A → Txn → ℕ → Type 0) (Q : Result B → Txn → ℕ → Type 0)
      → ((a : A) (t' : Txn) (later : ℕ) → R (ok a) t' later → Safe P (f a) t' later Q)
      → ((e : Exn) (t' : Txn) (later : ℕ) → R (err e) t' later → Q (err e) t' later)
      → Safe P m t now R
      → Safe P (m >>= f) t now Q
  unfolding ◌>>=◌
  Safe-bind (ret a) f t now R Q go bad h = go a t now h
  Safe-bind (raise e) f t now R Q go bad h = bad e t now h
  Safe-bind (call s k) f t now R Q go bad (allowed, goes, fails) = (
    allowed,
    λ env db later knows lo hi.
        Safe-bind (k (perform env db t s).0) f (perform env db t s).1 later R Q go bad
          (goes env db later knows lo hi),
    λ e later lo. Safe-bind (k (err e)) f (ended t) later R Q go bad (fails e later lo),
  )

  pub Safe-attempt :
      {A : Type 0} (m : Prog A) (handler : Exn → Prog A) (t : Txn) (now : ℕ)
      (R Q : Result A → Txn → ℕ → Type 0)
      → ((a : A) (t' : Txn) (later : ℕ) → R (ok a) t' later → Q (ok a) t' later)
      → ((e : Exn) (t' : Txn) (later : ℕ) → R (err e) t' later → Safe P (handler e) t' later Q)
      → Safe P m t now R
      → Safe P (attempt m handler) t now Q
  unfolding attempt
  Safe-attempt (ret a) handler t now R Q good caught h = good a t now h
  Safe-attempt (raise e) handler t now R Q good caught h = caught e t now h
  Safe-attempt (call s k) handler t now R Q good caught (allowed, goes, fails) = (
    allowed,
    λ env db later knows lo hi.
        Safe-attempt (k (perform env db t s).0) handler (perform env db t s).1 later R Q good caught
          (goes env db later knows lo hi),
    λ e later lo.
        Safe-attempt (k (err e)) handler (ended t) later R Q good caught (fails e later lo),
  )

  -- A computed result.
  pub Safe-lift :
      {A B : Type 0} (r : Result A) (f : A → Prog B) (t : Txn) (now : ℕ)
      (Q : Result B → Txn → ℕ → Type 0)
      → ((a : A) → r ≡ ok a → Safe P (f a) t now Q)
      → ((e : Exn) → Q (err e) t now)
      → Safe P (lift r >>= f) t now Q
  unfolding ◌>>=◌ lift
  Safe-lift (ok a) f t now Q good bad = good a refl
  Safe-lift (err e) f t now Q good bad = bad e

  pub Safe-lift_last :
      {A : Type 0} (r : Result A) (t : Txn) (now : ℕ) (Q : Result A → Txn → ℕ → Type 0)
      → ((a : A) → r ≡ ok a → Q (ok a) t now)
      → ((e : Exn) → Q (err e) t now)
      → Safe P (lift r) t now Q
  unfolding lift
  Safe-lift_last (ok a) t now Q good bad = good a refl
  Safe-lift_last (err e) t now Q good bad = bad e

  -- The state that a commit leaves.
  abbrev pub closed : Txn → Txn
  closed t = record (ended t) { saved = t.saved ++ t.bids }

  pub Safe-finish :
      {A : Type 0} (m : Prog A) (t : Txn) (now : ℕ) (R Q : Result A → Txn → ℕ → Type 0)
      → ((a : A) (t' : Txn) (n : ℕ)
          → R (ok a) t' n
          → CanCommit P t'
            × ((later : ℕ) → n ≤ later → Q (ok a) (closed t') later)
            × ((e : Exn) (later : ℕ) → n ≤ later → Q (err e) (ended t') later))
      → ((e : Exn) (t' : Txn) (n : ℕ)
          → R (err e) t' n
          → (later : ℕ) → n ≤ later
          → Q (err e) (ended t') later)
      → Safe P m t now R
      → Safe P (finish m) t now Q
  unfolding finish perform
  Safe-finish (ret a) t now R Q good bad h =
      let (can, done, lost) = good a t now h in
      (
        can,
        λ env db later knows lo hi. elim (Bool-cases (commits db t)) [
          | inl fine ↦ rw fine (done later (omega arith))
          | inr broken ↦ rw broken (lost _ later (omega arith))
        ],
        λ e later lo. lost e later lo,
      )
  Safe-finish (raise e) t now R Q good bad h = (
    tt,
    λ env db later knows lo hi. bad e t now h later (omega arith),
    λ e' later lo. bad e t now h later lo,
  )
  Safe-finish (call s k) t now R Q good bad (allowed, goes, fails) = (
    allowed,
    λ env db later knows lo hi.
        Safe-finish (k (perform env db t s).0) (perform env db t s).1 later R Q good bad
          (goes env db later knows lo hi),
    λ e later lo. Safe-finish (k (err e)) (ended t) later R Q good bad (fails e later lo),
  )

  -- A `with` block, from any state of the connection.
  pub Safe-transaction :
      {A : Type 0} (m : Prog A) (t : Txn) (now : ℕ) (R Q : Result A → Txn → ℕ → Type 0)
      → ((a : A) (t' : Txn) (n : ℕ)
          → R (ok a) t' n
          → CanCommit P t'
            × ((later : ℕ) → n ≤ later → Q (ok a) (closed t') later)
            × ((e : Exn) (later : ℕ) → n ≤ later → Q (err e) (ended t') later))
      → ((e : Exn) (t' : Txn) (n : ℕ)
          → R (err e) t' n
          → (later : ℕ) → n ≤ later
          → Q (err e) (ended t') later)
      → ((e : Exn) (later : ℕ) → now ≤ later → Q (err e) (ended t) later)
      → ((later : ℕ) → now ≤ later → Safe P m (ended t) later R)
      → Safe P (transaction m) t now Q
  unfolding transaction query lift ◌>>=◌ perform
  Safe-transaction m t now R Q good bad refused h = (
    tt,
    λ env db later knows lo hi. Safe-finish m (ended t) later R Q good bad (h later (omega arith)),
    refused,
  )

CanCommit-relax :
    (start : Uuid → ℕ) (Strict Loose : ℕ → ℕ → ℕ → Type 0) (t : Txn)
    → ((s e at : ℕ) → Strict s e at → Loose s e at)
    → CanCommit (record { Timely = Strict; start = start }) t
    → CanCommit (record { Timely = Loose; start = start }) t
CanCommit-relax start Strict Loose t f (clean p q) = clean p q
CanCommit-relax start Strict Loose t f (full r b new p q n x) = full r b new p q n (record {
  auction = x.auction;
  version = x.version;
  price = x.price;
  timely = f r.starts_at r.ends_at b.accepted_at x.timely;
  row = x.row;
})

Allowed-relax :
    (start : Uuid → ℕ) (Strict Loose : ℕ → ℕ → ℕ → Type 0) (s : Stmt) (t : Txn)
    → ((s e at : ℕ) → Strict s e at → Loose s e at)
    → Allowed (record { Timely = Strict; start = start }) s t
    → Allowed (record { Timely = Loose; start = start }) s t
Allowed-relax start Strict Loose commit t f h = CanCommit-relax start Strict Loose t f h
Allowed-relax start Strict Loose (find_auction key true) t f h = h
Allowed-relax start Strict Loose (find_auction key false) t f h = h
Allowed-relax start Strict Loose (update_to _ _ _ _) t f h = h
Allowed-relax start Strict Loose (update_next _ _ _) t f h = h
Allowed-relax start Strict Loose (update_if _ _ _ _) t f h = h
Allowed-relax start Strict Loose _ t f h = tt

-- A policy that asks for less of the instants is met too.
pub Safe-relax :
    {A : Type 0} (start : Uuid → ℕ) (Strict Loose : ℕ → ℕ → ℕ → Type 0) (m : Prog A) (t : Txn)
    (now : ℕ) (Q : Result A → Txn → ℕ → Type 0)
    → ((s e at : ℕ) → Strict s e at → Loose s e at)
    → Safe (record { Timely = Strict; start = start }) m t now Q
    → Safe (record { Timely = Loose; start = start }) m t now Q
Safe-relax start Strict Loose (ret a) t now Q f h = h
Safe-relax start Strict Loose (raise e) t now Q f h = h
Safe-relax start Strict Loose (call s k) t now Q f (allowed, goes, fails) = (
  Allowed-relax start Strict Loose s t f allowed,
  λ env db later knows lo hi.
      Safe-relax start Strict Loose (k (perform env db t s).0) (perform env db t s).1 later Q f (
        goes env db later
          (record {
            starts = knows.starts;
            locked = knows.locked;
            fresh = knows.fresh;
            saved = knows.saved;
          })
          lo hi),
  λ e later lo. Safe-relax start Strict Loose (k (err e)) (ended t) later Q f (fails e later lo),
)
