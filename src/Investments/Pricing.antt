-- ===== src/Investments/Pricing.antt =====
-- investments/services/pricing.py: the newest price on or before a date.
pub mod Newest
use vault.Base.{ℕ, Bool, ◌&&◌, Option, List, leb, ◌==◌, get_or, where_rows}
use vault.Core.Ordering.{Collation, Observation, first}
use vault.Investments.Models.{Security, SecurityPrice}

abbrev pub priced : SecurityPrice → Observation
priced p = record { date = p.date; source = p.source; created_at = p.created_at }

abbrev pub price_of : Security → ℕ → SecurityPrice → Bool
price_of security cutoff p = (p.security.pk == security.pk) && leb p.date cutoff

unfoldable pub get_latest_price :
    ⦃o : Collation⦄ → List SecurityPrice → ℕ → Security → Option ℕ → Option SecurityPrice
get_latest_price prices today security as_of_date =
    first priced (where_rows (price_of security (get_or as_of_date today)) prices)
