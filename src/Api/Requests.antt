-- ===== src/Api/Requests.antt =====
-- The bodies of requests in src/bidding/api/schemas.py: what the fields are declared to be, and the
-- validators that run on a body whose fields are right. Checking a field against its declaration is
-- the work of pydantic.
use transaction_safe_bidding.Prelude.{
  ℕ, ◌≤◌, ◌<◌, ◌≡◌, subst, false, arith, leb, ◌==◌, length, Text, strip,
}
use transaction_safe_bidding.Prelude.Strip.{length-strip, strip-strip}
use transaction_safe_bidding.Domain.Errors.{
  value_error, Result, ok, ◌>>◌, raise_if, raise_if-ok, eq_of_ok-eq,
}
use transaction_safe_bidding.Domain.Models.{
  Uuid, max_money_cents, max_title_length, max_bidder_id_length,
}

-- `MoneyCents`
abbrev pub IsMoney : ℕ → Type 0
IsMoney n = (0 < n) × (n ≤ max_money_cents)

-- The dates of an auction are aware, and stand as their instants.
pub record CreateAuctionRequest : Type 0 where
  pub title : Text
  pub starting_price_cents : ℕ
  pub minimum_increment_cents : ℕ
  pub starts_at : ℕ
  pub ends_at : ℕ

-- The declarations of the fields.
pub record IsDeclared (r : CreateAuctionRequest) : Type 0 where
  pub title : (1 ≤ length r.title) × (length r.title ≤ max_title_length)
  pub starting : IsMoney r.starting_price_cents
  pub increment : IsMoney r.minimum_increment_cents

-- `CreateAuctionRequest.validate_values`
unfoldable pub validate_values : CreateAuctionRequest → Result CreateAuctionRequest
validate_values r = do
  raise_if (length (strip r.title) == 0) value_error
  raise_if (leb r.ends_at r.starts_at) value_error
  ok (record r { title = strip r.title })

pub record PlaceBidRequest : Type 0 where
  pub request_id : Uuid
  pub bidder_id : Text
  pub amount_cents : ℕ

pub record IsDeclaredBid (r : PlaceBidRequest) : Type 0 where
  pub bidder : (1 ≤ length r.bidder_id) × (length r.bidder_id ≤ max_bidder_id_length)
  pub amount : IsMoney r.amount_cents

-- `PlaceBidRequest.strip_bidder`
unfoldable pub strip_bidder : PlaceBidRequest → Result PlaceBidRequest
strip_bidder r = do
  raise_if (length (strip r.bidder_id) == 0) value_error
  ok (record r { bidder_id = strip r.bidder_id })

-- A text that has been stripped, and is not empty and not too long.
pub record IsStripped (bound : ℕ) (s : Text) : Type 0 where
  pub kept : strip s ≡ s
  pub size : (1 ≤ length s) × (length s ≤ bound)

strip-IsStripped :
    (bound : ℕ) (s : Text)
    → length s ≤ bound
    → (length (strip s) == 0) ≡ false
    → IsStripped bound (strip s)
strip-IsStripped bound s most some_left = record {
  kept = strip-strip s;
  size = (ground (arith, some_left), omega (arith, most, length-strip s));
}

-- What a body is after its validator.
pub record IsValid (r : CreateAuctionRequest) : Type 0 where
  pub title : IsStripped max_title_length r.title
  pub starting : IsMoney r.starting_price_cents
  pub increment : IsMoney r.minimum_increment_cents
  pub window : r.starts_at < r.ends_at

pub record IsValidBid (r : PlaceBidRequest) : Type 0 where
  pub bidder : IsStripped max_bidder_id_length r.bidder_id
  pub amount : IsMoney r.amount_cents

pub validate_values-IsValid :
    (r s : CreateAuctionRequest) → IsDeclared r → validate_values r ≡ ok s → IsValid s
unfolding validate_values
validate_values-IsValid r s d h =
    let (some_left, h1) = raise_if-ok (length (strip r.title) == 0) value_error _ s h in
    let (order, h2) = raise_if-ok (leb r.ends_at r.starts_at) value_error _ s h1 in
    subst IsValid (eq_of_ok-eq (record r { title = strip r.title }) s h2) (record {
      title = strip-IsStripped max_title_length r.title d.title.1 some_left;
      starting = d.starting;
      increment = d.increment;
      window = ground (arith, order);
    })

pub strip_bidder-IsValid :
    (r s : PlaceBidRequest) → IsDeclaredBid r → strip_bidder r ≡ ok s → IsValidBid s
unfolding strip_bidder
strip_bidder-IsValid r s d h =
    let (some_left, h1) = raise_if-ok (length (strip r.bidder_id) == 0) value_error _ s h in
    subst IsValidBid (eq_of_ok-eq (record r { bidder_id = strip r.bidder_id }) s h1) (record {
      bidder = strip-IsStripped max_bidder_id_length r.bidder_id d.bidder.1 some_left;
      amount = d.amount;
    })
