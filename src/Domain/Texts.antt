-- ===== src/Domain/Texts.antt =====
-- Texts that are stripped already pass the checks of the constructors.
use transaction_safe_bidding.Prelude.{ℕ, ◌≤◌, ◌≡◌, ap, arith, length, Text, strip}
use transaction_safe_bidding.Domain.Errors.{ok}
use transaction_safe_bidding.Domain.Models.{require_text}

pub require_text-fits :
    (bound : ℕ) (s : Text)
    → strip s ≡ s
    → 1 ≤ length s
    → length s ≤ bound
    → require_text bound s ≡ ok tt
unfolding require_text
require_text-fits bound s kept least most = ground (arith, ap length kept)
