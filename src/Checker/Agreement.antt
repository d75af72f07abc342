-- ===== src/Checker/Agreement.antt =====
-- The check finds nothing wrong with a sound history.
use transaction_safe_bidding.Prelude.{
  ℕ, ◌+◌, ◌<◌, ◌≡◌, refl, inl, inr, Bool, true, false, Option, none, some, List, [], ◌∷◌, arith,
  ltb, ◌==◌, ==_iff, Bool-cases, length, keep_if, find_first,
}
use transaction_safe_bidding.Domain.Models.{Uuid}
use transaction_safe_bidding.Db.Tables.{AuctionRow, BidRow, clashes}
use transaction_safe_bidding.Db.Mapped.{bid_of, snapshot_of}
use transaction_safe_bidding.Db.Safety.Optimistic.{InWindow}
use transaction_safe_bidding.Db.History.{Linked, Unique}
use transaction_safe_bidding.Checker.Sorting.{Counts, bids_map}
use transaction_safe_bidding.Checker.Defs.{
  check_bids, check_versions, check_empty, check_winner, highest, is_winner, versions_from,
  required, violations_of, price_is,
}

-- The numbers of a history.
pub Linked-Counts :
    (Timely : ℕ → ℕ → ℕ → Type 0) (r : AuctionRow) (version : ℕ) (price : Option ℕ)
    (winner : Option Uuid) (bs : List BidRow)
    → Linked Timely r version price winner bs
    → Counts (version + 1) bs
Linked-Counts Timely r version price winner [] l = tt
Linked-Counts Timely r version price winner (b ∷ bs) (v, p, t, l) =
    (v, Linked-Counts Timely r (version + 1) (some b.amount_cents) (some b.id) bs l)

Linked-version :
    (Timely : ℕ → ℕ → ℕ → Type 0) (r : AuctionRow) (version : ℕ) (price : Option ℕ)
    (winner : Option Uuid) (bs : List BidRow)
    → Linked Timely r version price winner bs
    → r.version ≡ version + length (bids_map bs)
Linked-version Timely r version price winner [] (v, p, w) = omega (arith, v)
Linked-version Timely r version price winner (b ∷ bs) (v, p, t, l) =
    omega (arith, Linked-version Timely r (version + 1) (some b.amount_cents) (some b.id) bs l)

versions_from-Counts :
    (next : ℕ) (bs : List BidRow) → Counts next bs → versions_from next (bids_map bs) ≡ true
unfolding versions_from
versions_from-Counts next [] h = refl
versions_from-Counts next (b ∷ bs) h = ground (arith, h.0, versions_from-Counts (next + 1) bs h.1)

-- Of a history whose bids lie in the window, nothing is reported about the bids.
check_bids-InWindow :
    (r : AuctionRow) (version : ℕ) (price : Option ℕ) (winner : Option Uuid) (bs : List BidRow)
    → Linked InWindow r version price winner bs
    → check_bids (snapshot_of r) price (bids_map bs) ≡ []
unfolding check_bids required
check_bids-InWindow r version price winner [] l = refl
check_bids-InWindow r version none winner (b ∷ bs) (v, p, t, l) =
    rw (check_bids-InWindow r (version + 1) (some b.amount_cents) (some b.id) bs l)
      (ground (arith, p, t))
check_bids-InWindow r version (some q) winner (b ∷ bs) (v, p, t, l) =
    rw (check_bids-InWindow r (version + 1) (some b.amount_cents) (some b.id) bs l)
      (ground (arith, p, t))

-- A bid before others of the history is not the winner.
not_winner :
    (Timely : ℕ → ℕ → ℕ → Type 0) (r : AuctionRow) (version : ℕ) (b c : BidRow) (bs : List BidRow)
    → Linked Timely r version (some c.amount_cents) (some c.id) bs
    → clashes b.id b.request_id (c ∷ bs) ≡ false
    → is_winner (snapshot_of r) (bid_of b) ≡ false
unfolding clashes is_winner
not_winner Timely r version b c [] (v, p, w) h = rw w (ground arith)
not_winner Timely r version b c (d ∷ bs) (v, p, t, l) h =
    not_winner Timely r (version + 1) b d bs l (ground arith)

-- The winner is found, and is the first of the highest bids.
winner-highest :
    (Timely : ℕ → ℕ → ℕ → Type 0) (r : AuctionRow) (version : ℕ) (b : BidRow) (bs : List BidRow)
    → 0 < r.minimum_increment_cents
    → Unique (b ∷ bs)
    → Linked Timely r version (some b.amount_cents) (some b.id) bs
    → (find_first (is_winner (snapshot_of r)) (bid_of b ∷ bids_map bs)
        ≡ some (highest (bid_of b) (bids_map bs)))
      × (r.current_price_cents ≡ some (highest (bid_of b) (bids_map bs)).amount_cents)
unfolding highest is_winner
winner-highest Timely r version b [] pos u (v, p, w) = (rw (w, (==_iff b.id b.id).1 refl) refl, p)
winner-highest Timely r version b (c ∷ bs) pos u (v, p, t, l) =
    let higher : ltb b.amount_cents c.amount_cents ≡ true = ground arith in
    let rest = winner-highest Timely r (version + 1) c bs pos u.1 l in
    (
      rw (not_winner Timely r (version + 1) b c bs l u.0, highest, higher) rest.0,
      rw (highest, higher) rest.1,
    )

-- Nothing is reported of a sound history inside the window.
pub violations_of-InWindow :
    (r : AuctionRow) (bs : List BidRow)
    → 0 < r.minimum_increment_cents
    → Unique bs
    → Linked InWindow r 0 none none bs
    → violations_of (snapshot_of r) (bids_map bs) ≡ []
unfolding violations_of check_versions check_empty check_winner price_is
violations_of-InWindow r [] pos u (v, p, w) = ground arith
violations_of-InWindow r (b ∷ bs) pos u l =
    let (found, price) = winner-highest InWindow r 1 b bs pos u l.3 in
    let top = highest (bid_of b) (bids_map bs) in
    let counted =
      versions_from-Counts 1 (b ∷ bs) (Linked-Counts InWindow r 0 none none (b ∷ bs) l) in
    let last : (r.version == length (bids_map (b ∷ bs))) ≡ true =
      (==_iff r.version (length (bids_map (b ∷ bs)))).1
        (omega (arith, Linked-version InWindow r 0 none none (b ∷ bs) l)) in
    rw
      (
        counted,
        last,
        check_bids-InWindow r 0 none none (b ∷ bs) l,
        found,
        price,
        (==_iff top.amount_cents top.amount_cents).1 refl,
        (==_iff top.id top.id).1 refl,
      )
      refl

clashes-keep_if :
    (p : BidRow → Bool) (id request : Uuid) (bs : List BidRow)
    → clashes id request bs ≡ false
    → clashes id request (keep_if p bs) ≡ false
unfolding clashes
clashes-keep_if p id request [] h = refl
clashes-keep_if p id request (b ∷ bs) h = elim (Bool-cases (p b)) [
  | inl kept ↦ rw kept (ground (arith, clashes-keep_if p id request bs))
  | inr dropped ↦ rw dropped (clashes-keep_if p id request bs (ground arith))
]

-- The bids of one auction are as unique as all.
pub keep_if-Unique : (p : BidRow → Bool) (bs : List BidRow) → Unique bs → Unique (keep_if p bs)
keep_if-Unique p [] u = tt
keep_if-Unique p (b ∷ bs) u = elim (Bool-cases (p b)) [
  | inl kept ↦ rw kept (clashes-keep_if p b.id b.request_id bs u.0, keep_if-Unique p bs u.1)
  | inr dropped ↦ rw dropped (keep_if-Unique p bs u.1)
]
