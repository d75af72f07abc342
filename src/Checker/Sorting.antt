-- ===== src/Checker/Sorting.antt =====
-- The order of `list_bids` keeps bids that stand by their versions.
use transaction_safe_bidding.Prelude.{
  ℕ, ◌+◌, ◌≡◌, refl, sym, ap, ◌∙◌, subst, inl, inr, false, ◌||◌, List, [], ◌∷◌, arith, ◌==◌,
  Bool-cases,
}
use transaction_safe_bidding.Domain.Models.{AcceptedBid}
use transaction_safe_bidding.Domain.Errors.{Result, ok, err, ◌>>=◌}
use transaction_safe_bidding.Db.Tables.{BidRow, bid_from_row}
use transaction_safe_bidding.Domain.Models.{Uuid}
use transaction_safe_bidding.Db.History.{Unique}
use transaction_safe_bidding.Db.Tables.{clashes}
use transaction_safe_bidding.Db.Repository.{precedes, insert_ordered, ordered, bids_from_rows}
use transaction_safe_bidding.Db.Mapped.{bid_of, bid_from_row-columns}

-- The bids are numbered one after the other, from `next` on.
abbrev pub Counts : ℕ → List BidRow → Type 0
Counts next [] = Unit
Counts next (b ∷ bs) = (b.auction_version ≡ next) × Counts (next + 1) bs

insert_ordered-first :
    (b : BidRow) (bs : List BidRow)
    → Counts (b.auction_version + 1) bs
    → insert_ordered b bs ≡ b ∷ bs
unfolding insert_ordered precedes
insert_ordered-first b [] h = refl
insert_ordered-first b (c ∷ cs) h = ground (arith, h.0)

pub ordered-Counts : (next : ℕ) (bs : List BidRow) → Counts next bs → ordered bs ≡ bs
unfolding ordered
ordered-Counts next [] h = refl
ordered-Counts next (b ∷ bs) h =
    ap (insert_ordered b) (ordered-Counts (next + 1) bs h.1)
    ∙ insert_ordered-first b bs (subst (λ n. Counts (n + 1) bs) (sym h.0) h.1)

abbrev pub bids_map : List BidRow → List AcceptedBid
bids_map [] = []
bids_map (b ∷ bs) = bid_of b ∷ bids_map bs

columns_step :
    (row : BidRow) (rows : List BidRow) (x : Result AcceptedBid) (y : Result (List AcceptedBid))
    (bids : List AcceptedBid)
    → bid_from_row row ≡ x
    → ((bs : List AcceptedBid) → y ≡ ok bs → bs ≡ bids_map rows)
    → (x >>= λ b. y >>= λ bs. ok (b ∷ bs)) ≡ ok bids
    → bids ≡ bid_of row ∷ bids_map rows
columns_step row rows (err e) y bids p ih h = cc
columns_step row rows (ok b) (err e) bids p ih h = cc
columns_step row rows (ok b) (ok bs) bids p ih h = cc (h, bid_from_row-columns row b p, ih bs refl)

pub bids_from_rows-columns :
    (rows : List BidRow) (bids : List AcceptedBid)
    → bids_from_rows rows ≡ ok bids
    → bids ≡ bids_map rows
unfolding bids_from_rows
bids_from_rows-columns [] bids h = ground arith
bids_from_rows-columns (row ∷ rows) bids h =
    columns_step row rows (bid_from_row row) (bids_from_rows rows) bids refl
      (bids_from_rows-columns rows) h

clashes-insert_ordered :
    (id request : Uuid) (b : BidRow) (bs : List BidRow)
    → clashes id request (insert_ordered b bs) ≡ clashes id request (b ∷ bs)
unfolding insert_ordered clashes
clashes-insert_ordered id request b [] = refl
clashes-insert_ordered id request b (c ∷ cs) = elim (Bool-cases (precedes b c)) [
  | inl first ↦ rw first refl
  | inr after ↦ rw (after, clashes-insert_ordered id request b cs) (ground arith)
]

insert_ordered-Unique :
    (b : BidRow) (bs : List BidRow)
    → clashes b.id b.request_id bs ≡ false
    → Unique bs
    → Unique (insert_ordered b bs)
unfolding insert_ordered clashes
insert_ordered-Unique b [] fresh u = (refl, tt)
insert_ordered-Unique b (c ∷ cs) fresh u = elim (Bool-cases (precedes b c)) [
  | inl first ↦ rw first (fresh, u)
  | inr after ↦ rw after (
    clashes-insert_ordered c.id c.request_id b cs ∙ ground (arith, u.0),
    insert_ordered-Unique b cs (ground arith) u.1,
  )
]

clashes-ordered :
    (id request : Uuid) (bs : List BidRow) → clashes id request (ordered bs) ≡ clashes id request bs
unfolding ordered clashes
clashes-ordered id request [] = refl
clashes-ordered id request (b ∷ bs) =
    clashes-insert_ordered id request b (ordered bs)
    ∙ ap (λ c. b.id == id || b.request_id == request || c) (clashes-ordered id request bs)

-- Sorting keeps the bids unique.
pub ordered-Unique : (bs : List BidRow) → Unique bs → Unique (ordered bs)
unfolding ordered
ordered-Unique [] u = tt
ordered-Unique (b ∷ bs) u =
    insert_ordered-Unique b (ordered bs) (clashes-ordered b.id b.request_id bs ∙ u.0)
      (ordered-Unique bs u.1)
