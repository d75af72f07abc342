-- ===== src/Domain/Models.antt =====
-- src/bidding/domain/models.py: the values of the domain and the checks of their constructors.
-- A constructor takes what Python may be given, `Value` for a field that must be an integer and
-- `DateTime` for a date, and returns the record of the checked values: a sum of money is its number
-- of cents, and an aware date is its instant.
use transaction_safe_bidding.Prelude.{
  ℕ, Bool, true, false, not, ◌&&◌, ◌||◌, Option, none, some, ltb, leb, ◌==◌, if◌then◌else◌, length,
  Text, strip,
}
use transaction_safe_bidding.Domain.Errors.{
  value_error, type_error, Result, ok, err, ◌>>=◌, ◌>>◌, raise_if,
}

abbrev pub max_money_cents : ℕ
max_money_cents = 9_000_000_000_000_000

abbrev pub max_title_length : ℕ
max_title_length = 200

abbrev pub max_bidder_id_length : ℕ
max_bidder_id_length = 128

abbrev pub Uuid : Type 0
Uuid = ℕ

pub data AuctionState : Type 0 where
  scheduled open_now closed : AuctionState

pub data BidRejectionReason : Type 0 where
  auction_not_found auction_not_started auction_closed : BidRejectionReason
  bid_too_low request_id_reused conflict_retry_exhausted : BidRejectionReason

pub data BidOutcomeStatus : Type 0 where
  accepted replayed rejected : BidOutcomeStatus

-- What may stand where an integer is expected: an `int` (`minus n` is -(n + 1)), a `bool`, which
-- Python counts among the integers, or a value of another type.
pub data Value : Type 0 where
  int minus : ℕ → Value
  boolean : Bool → Value
  other : Value

-- A `datetime`: its instant, and whether `tzinfo` and `utcoffset()` are set.
pub record DateTime : Type 0 where
  pub instant : ℕ
  pub has_tzinfo : Bool
  pub has_utcoffset : Bool

-- What psycopg gives for a `timestamptz`.
abbrev pub aware : ℕ → DateTime
aware t = record { instant = t; has_tzinfo = true; has_utcoffset = true }

unfoldable pub require_aware : DateTime → Result ℕ
require_aware value =
    if not value.has_tzinfo || not value.has_utcoffset then err value_error else ok value.instant

unfoldable pub require_money : Value → Result ℕ
require_money (int n) = if not (ltb 0 n && leb n max_money_cents) then err value_error else ok n
require_money (minus n) = err value_error
require_money (boolean b) = err type_error
require_money other = err type_error

-- The checks on `version`: an integer that is no `bool`, and not negative.
unfoldable pub require_version : Value → Result ℕ
require_version (int n) = ok n
require_version (minus n) = err value_error
require_version (boolean b) = err type_error
require_version other = err type_error

-- `not text.strip() or len(text.strip()) > bound`
unfoldable pub require_text : ℕ → Text → Result (Unit {0})
require_text bound text =
    let stripped = strip text in
    raise_if (length stripped == 0 || ltb bound (length stripped)) value_error

pub record AuctionFields : Type 0 where
  pub id : Uuid
  pub title : Text
  pub starting_price_cents : Value
  pub current_price_cents : Option Value
  pub minimum_increment_cents : Value
  pub winning_bid_id : Option Uuid
  pub version : Value
  pub starts_at : DateTime
  pub ends_at : DateTime
  pub created_at : DateTime

pub record AuctionSnapshot : Type 0 where
  pub id : Uuid
  pub title : Text
  pub starting_price_cents : ℕ
  pub current_price_cents : Option ℕ
  pub minimum_increment_cents : ℕ
  pub winning_bid_id : Option Uuid
  pub version : ℕ
  pub starts_at : ℕ
  pub ends_at : ℕ
  pub created_at : ℕ

-- Lines 82 to 93: the price, the winner and the version fit together. The result is the checked
-- price.
unfoldable pub check_bid_state : ℕ → Option Value → Option Uuid → ℕ → Result (Option ℕ)
unfolding require_money
check_bid_state starting none none version = if not (version == 0) then err value_error else ok none
check_bid_state starting none (some winner) version = err value_error
check_bid_state starting (some price) none version = err value_error
check_bid_state starting (some price) (some winner) version = do
  cents ← require_money price
  raise_if (ltb cents starting) value_error
  raise_if (version == 0) value_error
  ok (some cents)

-- `AuctionSnapshot.__post_init__`
unfoldable pub auction_snapshot : AuctionFields → Result AuctionSnapshot
unfolding require_money require_aware require_version
auction_snapshot f = do
  require_text max_title_length f.title
  starting ← require_money f.starting_price_cents
  increment ← require_money f.minimum_increment_cents
  starts ← require_aware f.starts_at
  ends ← require_aware f.ends_at
  created ← require_aware f.created_at
  raise_if (leb ends starts) value_error
  version ← require_version f.version
  current ← check_bid_state starting f.current_price_cents f.winning_bid_id version
  ok (record {
    id = f.id;
    title = f.title;
    starting_price_cents = starting;
    current_price_cents = current;
    minimum_increment_cents = increment;
    winning_bid_id = f.winning_bid_id;
    version = version;
    starts_at = starts;
    ends_at = ends;
    created_at = created;
  })

pub record BidCommand : Type 0 where
  pub request_id : Uuid
  pub auction_id : Uuid
  pub bidder_id : Text
  pub amount_cents : ℕ

-- `BidCommand.__post_init__`
unfoldable pub bid_command : Uuid → Uuid → Text → Value → Result BidCommand
unfolding require_text require_money
bid_command request auction bidder amount = do
  require_text max_bidder_id_length bidder
  cents ← require_money amount
  ok (record {
    request_id = request;
    auction_id = auction;
    bidder_id = bidder;
    amount_cents = cents;
  })

pub record BidEvaluation : Type 0 where
  pub accepted : Bool
  pub state : AuctionState
  pub minimum_acceptable_cents : ℕ
  pub rejection_reason : Option BidRejectionReason

abbrev pub is_some {ℓ} : {A : Type ℓ} → Option A → Bool
is_some none = false
is_some (some _) = true

abbrev pub bool_eq : Bool → Bool → Bool
bool_eq true b = b
bool_eq false b = not b

-- `BidEvaluation.__post_init__`
unfoldable pub bid_evaluation :
    Bool → AuctionState → ℕ → Option BidRejectionReason → Result BidEvaluation
bid_evaluation verdict state minimum reason = do
  raise_if (bool_eq verdict (is_some reason)) value_error
  ok (record {
    accepted = verdict;
    state = state;
    minimum_acceptable_cents = minimum;
    rejection_reason = reason;
  })

pub record AcceptedBid : Type 0 where
  pub id : Uuid
  pub request_id : Uuid
  pub auction_id : Uuid
  pub bidder_id : Text
  pub amount_cents : ℕ
  pub auction_version : ℕ
  pub accepted_at : ℕ
