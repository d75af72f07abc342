-- ===== src/Db/Solo.antt =====
-- A connection that runs while the others wait to begin.
use transaction_safe_bidding.Prelude.{
  ℕ, ◌+◌, ◌≡◌, refl, sym, ap, ◌∙◌, subst, inl, inr, Bool, true, false, arith, ◌==◌, if◌then◌else◌,
  ==_iff, Bool-cases,
}
use transaction_safe_bidding.Domain.Errors.{Result, ok, err}
use transaction_safe_bidding.Domain.Outcome.{BidOutcome}
use transaction_safe_bidding.Db.Tables.{Database, lookup_auction, clashes}
use transaction_safe_bidding.Db.Statements.{
  Stmt, connect, commit, rollback, find_bid, find_auction, database_clock, new_uuid, insert_bid,
  update_to, update_next, update_if, Answer, Txn, Env,
}
use transaction_safe_bidding.Db.Perform.{perform, blocks}
use transaction_safe_bidding.Db.Program.{Prog, ret, raise, call, run}
use transaction_safe_bidding.Db.Safety.Outcomes.{Quiet}
use transaction_safe_bidding.Db.System.{
  Unblocked, Session, System, with_session, after, runs, Reach, later,
}

abbrev pub done : Result BidOutcome → Prog BidOutcome
done (ok o) = ret o
done (err e) = raise e

-- Connection `c` at `m`, the others as in `sessions`; it has just run a statement.
abbrev pub alone : ℕ → (ℕ → Session) → ℕ → Database → Txn → Prog BidOutcome → System
alone c others now db t m = record {
  db = db;
  clock = now;
  sessions = with_session others c (record { prog = m; txn = t; seen = now });
}

with_session-again :
    (others : ℕ → Session) (i : ℕ) (s s' : Session)
    → with_session (with_session others i s) i s' ≡ with_session others i s'
with_session-again others i s s' = λ k j. case_eq (j == i) s' (others j) k
  where
    case_eq :
        (b : Bool) (s'' : Session) (o : Session)
        → (if b then s'' else (if b then s else o)) ≡ (if b then s'' else o)
    case_eq true s'' o = refl
    case_eq false s'' o = refl

own_session :
    (c : ℕ) (others : ℕ → Session) (now : ℕ) (t : Txn) (m : Prog BidOutcome)
    → with_session others c (record { prog = m; txn = t; seen = now }) c
      ≡ record { prog = m; txn = t; seen = now }
own_session c others now t m = rw ((==_iff c c).1 refl) refl

-- The state after a statement of the connection that runs.
after-alone :
    (c : ℕ) (others : ℕ → Session) (now : ℕ) (db : Database) (t : Txn) (s : Stmt)
    (k : Result (Answer s) → Prog BidOutcome) (env : Env) (m : Prog BidOutcome)
    → (let (reply, t', db') = perform env db t s in
        after (alone c others now db t m) c s k env ≡ alone c others now db' t' (k reply))
after-alone c others now db t s k env m =
    ap
      (λ (v : Session). record {
        db = (perform env db v.txn s).2;
        clock = now;
        sessions =
            with_session (with_session others c (record { prog = m; txn = t; seen = now })) c
              (record {
                prog = k (perform env db v.txn s).0;
                txn = (perform env db v.txn s).1;
                seen = now;
              });
      })
      (own_session c others now t m)
    ∙ ap (λ f. record { db = (perform env db t s).2; clock = now; sessions = f })
        (with_session-again others c (record { prog = m; txn = t; seen = now })
          (record { prog = k (perform env db t s).0; txn = (perform env db t s).1; seen = now }))

-- Nobody waits for a connection without locks and pending writes.
pub blocks-Quiet : (s : Stmt) (t : Txn) → Quiet t → blocks s t ≡ false
unfolding blocks lookup_auction clashes
blocks-Quiet (find_auction key true) t (l, b, r) = rw l refl
blocks-Quiet (find_auction key false) t q = refl
blocks-Quiet (insert_bid n) t (l, b, r) = rw b refl
blocks-Quiet (update_to _ _ _ key) t (l, b, r) = rw l refl
blocks-Quiet (update_next _ _ key) t (l, b, r) = rw l refl
blocks-Quiet (update_if _ _ key _) t (l, b, r) = rw l refl
blocks-Quiet connect t q = refl
blocks-Quiet commit t q = refl
blocks-Quiet rollback t q = refl
blocks-Quiet (find_bid request) t q = refl
blocks-Quiet database_clock t q = refl
blocks-Quiet new_uuid t q = refl

module _ (c : ℕ) (others : ℕ → Session) (now : ℕ) (quiet : (j : ℕ) → Quiet (others j).txn) where
  free_alone :
      (db : Database) (t : Txn) (m : Prog BidOutcome) (s : Stmt)
      → Unblocked (alone c others now db t m) c s
  free_alone db t m s j other = elim (Bool-cases (j == c)) [
    | inl own ↦ absurd (other ((==_iff j c).0 own))
    | inr differs ↦ rw differs (blocks-Quiet s (others j).txn (quiet j))
  ]

  -- What a connection does alone is a run of the system.
  pub Reach-solo :
      (envs : ℕ → Env) (x : System) (n : ℕ) (db : Database) (t : Txn) (m : Prog BidOutcome)
      → ((k : ℕ) → (envs k).time ≡ now)
      → Reach x (alone c others now db t m)
      → (let (r, t', db') = run envs n db t m in Reach x (alone c others now db' t' (done r)))
  unfolding run
  Reach-solo envs x n db t (ret o) times r = r
  Reach-solo envs x n db t (raise e) times r = r
  Reach-solo envs x n db t (call s k) times r =
      let (reply, t', db') = perform (envs n) db t s in
      Reach-solo envs x (n + 1) db' t' (k reply) times (
        later r (
          runs c s k (envs n) (ap (λ (v : Session). v.prog) (own_session c others now t (call s k)))
            (free_alone db t (call s k) s)
            (rw (own_session c others now t (call s k)) (omega (arith, times n)))
            (omega (arith, times n)) (sym (after-alone c others now db t s k (envs n) (call s k)))))

taken :
    (c : ℕ) (others : ℕ → Session) (now : ℕ)
    → (others c).seen ≡ now
    → (j : ℕ)
    → others j
      ≡ with_session others c
          (record { prog = (others c).prog; txn = (others c).txn; seen = now })
          j
taken c others now e j = elim (Bool-cases (j == c)) [
  | inl own ↦ rw own (
      ap others ((==_iff j c).0 own)
      ∙ ap (λ n. record { prog = (others c).prog; txn = (others c).txn; seen = n }) e)
  | inr differs ↦ rw differs refl
]

-- A connection of the system may be taken as the one that runs.
pub Reach-alone :
    (c : ℕ) (others : ℕ → Session) (now : ℕ) (x : System) (db : Database)
    → (others c).seen ≡ now
    → Reach x (record { db = db; clock = now; sessions = others })
    → Reach x (alone c others now db (others c).txn (others c).prog)
Reach-alone c others now x db e r =
    subst (λ f. Reach x (record { db = db; clock = now; sessions = f }))
      (λ k j. taken c others now e j k) r
