-- ===== src/Checker/Converse.antt =====
-- A report without violations implies a sound history inside the window.
use transaction_safe_bidding.Prelude.{
  ℕ, ◌+◌, ◌≤◌, ◌<◌, ◌≡◌, refl, sym, ap, ◌∙◌, subst, inl, inr, Bool, true, false, not, ◌&&◌, Option,
  none, some, List, [], ◌∷◌, ◌++◌, arith, ltb, leb, if◌then◌else◌, Bool-cases, Option-cases, length,
  find_first,
}
use transaction_safe_bidding.Prelude.All.{In}
use transaction_safe_bidding.Domain.Models.{Uuid, AuctionSnapshot, AcceptedBid}
use transaction_safe_bidding.Db.Tables.{AuctionRow, BidRow, clashes}
use transaction_safe_bidding.Db.Mapped.{bid_of, snapshot_of}
use transaction_safe_bidding.Db.Safety.Optimistic.{InWindow}
use transaction_safe_bidding.Db.History.{Linked, Unique, required_after}
use transaction_safe_bidding.Checker.Sorting.{bids_map}
use transaction_safe_bidding.Checker.Defs.{
  Code, non_monotonic_bid, accepted_outside_window, check_bids, check_versions, check_empty,
  check_winner, highest, is_winner, versions_from, required, report_if, violations_of, price_is,
}

no_reports :
    (c d : Bool) (x y : Code) (rest : List Code)
    → report_if c x ++ report_if d y ++ rest ≡ []
    → (c ≡ false) × (d ≡ false) × (rest ≡ [])
no_reports true d x y rest h = absurd (cc)
no_reports false true x y rest h = absurd (cc)
no_reports false false x y rest h = (refl, refl, h)

-- The last price and winner of the bids.
abbrev final_price : Option ℕ → List BidRow → Option ℕ
final_price price [] = price
final_price price (b ∷ bs) = final_price (some b.amount_cents) bs

abbrev final_winner : Option Uuid → List BidRow → Option Uuid
final_winner winner [] = winner
final_winner winner (b ∷ bs) = final_winner (some b.id) bs

-- A bid of which nothing is reported.
unreported :
    (r : AuctionRow) (price : Option ℕ) (b : BidRow) (bs : List BidRow)
    → check_bids (snapshot_of r) price (bids_map (b ∷ bs)) ≡ []
    → (required_after r.starting_price_cents r.minimum_increment_cents price ≤ b.amount_cents)
      × InWindow r.starts_at r.ends_at b.accepted_at
      × (check_bids (snapshot_of r) (some b.amount_cents) (bids_map bs) ≡ [])
unfolding check_bids required
unreported r none b bs h =
    let (low, window, rest) =
      no_reports (ltb b.amount_cents (required (snapshot_of r) none))
        (not (leb r.starts_at b.accepted_at && ltb b.accepted_at r.ends_at)) non_monotonic_bid
        accepted_outside_window (check_bids (snapshot_of r) (some b.amount_cents) (bids_map bs))
        h in
    (ground (arith, low), ground (arith, window), rest)
unreported r (some price) b bs h =
    let (low, window, rest) =
      no_reports (ltb b.amount_cents (required (snapshot_of r) (some price)))
        (not (leb r.starts_at b.accepted_at && ltb b.accepted_at r.ends_at)) non_monotonic_bid
        accepted_outside_window (check_bids (snapshot_of r) (some b.amount_cents) (bids_map bs))
        h in
    (ground (arith, low), ground (arith, window), rest)

Linked-unreported :
    (r : AuctionRow) (version : ℕ) (price : Option ℕ) (winner : Option Uuid) (bs : List BidRow)
    → check_bids (snapshot_of r) price (bids_map bs) ≡ []
    → versions_from (version + 1) (bids_map bs) ≡ true
    → r.version ≡ version + length (bids_map bs)
    → r.current_price_cents ≡ final_price price bs
    → r.winning_bid_id ≡ final_winner winner bs
    → Linked InWindow r version price winner bs
unfolding versions_from
Linked-unreported r version price winner [] h v n p w = (omega (arith, n), p, w)
Linked-unreported r version price winner (b ∷ bs) h v n p w =
    let (least, window, rest) = unreported r price b bs h in
    (
      ground arith,
      least,
      window,
      Linked-unreported r (version + 1) (some b.amount_cents) (some b.id) bs rest (ground arith)
          (omega (arith, n)) p w,
    )

-- The first of the highest bids is the last one.
highest-final :
    (r : AuctionRow) (b : BidRow) (bs : List BidRow)
    → 0 < r.minimum_increment_cents
    → check_bids (snapshot_of r) (some b.amount_cents) (bids_map bs) ≡ []
    → (final_price (some b.amount_cents) bs ≡ some (highest (bid_of b) (bids_map bs)).amount_cents)
      × (final_winner (some b.id) bs ≡ some (highest (bid_of b) (bids_map bs)).id)
      × In (highest (bid_of b) (bids_map bs)) (bids_map (b ∷ bs))
unfolding highest
highest-final r b [] pos h = (refl, refl, inl refl)
highest-final r b (c ∷ bs) pos h =
    let (least, window, rest) = unreported r (some b.amount_cents) c bs h in
    let higher : ltb b.amount_cents c.amount_cents ≡ true = ground arith in
    let (p, w, m) = highest-final r c bs pos rest in
    let step : highest (bid_of c) (bids_map bs) ≡ highest (bid_of b) (bids_map (c ∷ bs)) =
      ap (λ up. highest (if up then bid_of c else bid_of b) (bids_map bs)) (sym higher) in
    subst
      (λ (top : AcceptedBid).
        (final_price (some b.amount_cents) (c ∷ bs) ≡ some top.amount_cents)
        × (final_winner (some b.id) (c ∷ bs) ≡ some top.id)
        × In top (bids_map (b ∷ c ∷ bs)))
      step (p, w, inr m)

same_id-clashes :
    (b : BidRow) (bs : List BidRow) (y : AcceptedBid)
    → In y (bids_map bs)
    → b.id ≡ y.id
    → clashes b.id b.request_id bs ≡ true
unfolding clashes
same_id-clashes b [] y m e = absurd m
same_id-clashes b (c ∷ bs) y (inl p) e = ground (arith, ap (λ (x : AcceptedBid). x.id) p)
same_id-clashes b (c ∷ bs) y (inr m) e = ground (arith, same_id-clashes b bs y m e)

one_bid :
    (bs : List BidRow) (x y : AcceptedBid)
    → Unique bs
    → In x (bids_map bs)
    → In y (bids_map bs)
    → x.id ≡ y.id
    → x ≡ y
one_bid [] x y u hx hy e = absurd hx
one_bid (b ∷ bs) x y u (inl p) (inl q) e = p ∙ sym q
one_bid (b ∷ bs) x y u (inl p) (inr m) e =
    let clash = same_id-clashes b bs y m (ap (λ (z : AcceptedBid). z.id) (sym p) ∙ e) in
    cc (u.0, clash)
one_bid (b ∷ bs) x y u (inr m) (inl q) e =
    let clash = same_id-clashes b bs x m (ap (λ (z : AcceptedBid). z.id) (sym q) ∙ sym e) in
    cc (u.0, clash)
one_bid (b ∷ bs) x y u (inr m) (inr n) e = one_bid bs x y u.1 m n e

is_winner-id :
    (a : AuctionSnapshot) (x : AcceptedBid) → is_winner a x ≡ true → a.winning_bid_id ≡ some x.id
unfolding is_winner
is_winner-id a x h = elim (Option-cases a.winning_bid_id) [
  | inl n ↦ ground arith
  | inr (w, e) ↦ ground arith
]

found_winner :
    (a : AuctionSnapshot) (xs : List AcceptedBid) (w : AcceptedBid)
    → find_first (is_winner a) xs ≡ some w
    → (a.winning_bid_id ≡ some w.id) × In w xs
found_winner a [] w h = absurd (cc)
found_winner a (x ∷ xs) w h = elim (Bool-cases (is_winner a x)) [
  | inl won ↦
      let e : some x ≡ some w =
        sym (ap (λ b. if b then some x else find_first (is_winner a) xs) won) ∙ h in
      let same : w ≡ x = cc in
      (
        subst (λ (v : AcceptedBid). a.winning_bid_id ≡ some v.id) (sym same) (is_winner-id a x won),
        inl same,
      )
  | inr lost ↦
      let e : find_first (is_winner a) xs ≡ some w =
        sym (ap (λ b. if b then some x else find_first (is_winner a) xs) lost) ∙ h in
      let (won, m) = found_winner a xs w e in (won, inr m)
]

winner_agrees :
    (a : AuctionSnapshot) (top : AcceptedBid) (found : Option AcceptedBid)
    → check_winner a top found ≡ []
    → (w : AcceptedBid) × (found ≡ some w)
      × (a.current_price_cents ≡ some w.amount_cents)
      × (w.id ≡ top.id)
unfolding check_winner price_is
winner_agrees a top none h = absurd (cc)
winner_agrees a top (some w) h = elim (Option-cases a.current_price_cents) [
  | inl n ↦ ground arith
  | inr (price, e) ↦ (w, refl, ground arith, ground arith)
]

append-nil : (xs ys : List Code) → xs ++ ys ≡ [] → (xs ≡ []) × (ys ≡ [])
append-nil [] ys h = (refl, h)
append-nil (x ∷ xs) ys h = absurd (cc)

empty_agrees :
    (r : AuctionRow) → check_empty (snapshot_of r) ≡ [] → Linked InWindow r 0 none none []
unfolding check_empty
empty_agrees r h = elim (Option-cases r.current_price_cents) [
  | inl n ↦ elim (Option-cases r.winning_bid_id) [
    | inl m ↦ ground arith
    | inr (w, e) ↦ ground arith
  ]
  | inr (price, e) ↦ ground arith
]

versions_agree :
    (a : AuctionSnapshot) (bids : List AcceptedBid)
    → check_versions a bids ≡ []
    → (versions_from 1 bids ≡ true) × (a.version ≡ length bids)
unfolding check_versions
versions_agree a bids h = ground arith

violations_of-parts :
    (a : AuctionSnapshot) (x : AcceptedBid) (xs : List AcceptedBid)
    → violations_of a (x ∷ xs)
      ≡ check_versions a (x ∷ xs)
        ++ check_bids a none (x ∷ xs)
        ++ check_winner a (highest x xs) (find_first (is_winner a) (x ∷ xs))
unfolding violations_of
violations_of-parts a x xs = refl

pub violations_of-Linked :
    (r : AuctionRow) (bs : List BidRow)
    → 0 < r.minimum_increment_cents
    → Unique bs
    → violations_of (snapshot_of r) (bids_map bs) ≡ []
    → Linked InWindow r 0 none none bs
violations_of-Linked r [] pos u h = empty_agrees r (unfold violations_of in h)
violations_of-Linked r (b ∷ bs) pos u h =
    let a = snapshot_of r in
    let top = highest (bid_of b) (bids_map bs) in
    let found = find_first (is_winner a) (bids_map (b ∷ bs)) in
    let (both, hw) =
      append-nil (check_versions a (bids_map (b ∷ bs)) ++ check_bids a none (bids_map (b ∷ bs)))
        (check_winner a top found) (sym (violations_of-parts a (bid_of b) (bids_map bs)) ∙ h) in
    let (hv, hb) =
      append-nil (check_versions a (bids_map (b ∷ bs))) (check_bids a none (bids_map (b ∷ bs)))
        both in
    let (counted, last) = versions_agree a (bids_map (b ∷ bs)) hv in
    let (w, is_found, price, same) = winner_agrees a top found hw in
    let (won, m) = found_winner a (bids_map (b ∷ bs)) w is_found in
    let (fp, fw, mt) = highest-final r b bs pos (unreported r none b bs hb).2 in
    let one : w ≡ top = one_bid (b ∷ bs) w top u m mt same in
    Linked-unreported r 0 none none (b ∷ bs) hb counted (omega (arith, last))
      (price ∙ ap (λ (x : AcceptedBid). some x.amount_cents) one ∙ sym fp)
      (won ∙ ap (λ (x : AcceptedBid). some x.id) one ∙ sym fw)
