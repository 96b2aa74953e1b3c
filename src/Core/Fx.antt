-- ===== src/Core/Fx.antt =====
-- core/services/fx.py: the rate between two currencies on a date. The table of rates and today's
-- date are arguments; a currency is given as a row, never by its code.
pub mod Laws
use vault.Base.{
  ℕ, ◌≤◌, ◌≡◌, Bool, true, false, ◌&&◌, List, [], ◌∷◌, Option, none, some, leb, ltb, ◌==◌, get_or,
  if◌then◌else◌, where_rows, Result, ok, err, ◌>>=◌, missing_exchange_rate,
}
use vault.Decimal.{Context, Decimal, whole, divide, ◌⊗◌}
use vault.Core.Models.{Currency, ExchangeRate}
use vault.Core.Ordering.{Collation, Observation, first}

abbrev pub observed : ExchangeRate → Observation
observed r = record { date = r.date; source = r.source; created_at = r.created_at }

-- `filter(base_currency=base, quote_currency=quote, date__lte=cutoff)`
abbrev pub quotes : Currency → Currency → ℕ → ExchangeRate → Bool
quotes base quote cutoff r =
    r.base_currency.pk == base.pk && r.quote_currency.pk == quote.pk && leb r.date cutoff

-- `direct and (inverse is None or direct.date >= inverse.date)`
abbrev prefers_direct : ExchangeRate → Option ExchangeRate → Bool
prefers_direct direct none = true
prefers_direct direct (some inverse) = leb inverse.date direct.date

module _ ⦃c : Context⦄ where
  pick_inverse : Option ExchangeRate → Result Decimal
  pick_inverse none = err missing_exchange_rate
  pick_inverse (some inverse) = divide (whole 1) inverse.rate

  pick_rate : Option ExchangeRate → Option ExchangeRate → Result Decimal
  unfolding pick_inverse
  pick_rate none inverse = pick_inverse inverse
  pick_rate (some direct) inverse =
      if prefers_direct direct inverse then ok direct.rate else pick_inverse inverse

  module _ ⦃o : Collation⦄ (rates : List ExchangeRate) (today : ℕ) where
    unfoldable pub get_fx_rate : Currency → Currency → Option ℕ → Result Decimal
    unfolding pick_rate
    get_fx_rate source target as_of_date =
        let cutoff = get_or as_of_date today in
        let direct = first observed (where_rows (quotes source target cutoff) rates) in
        let inverse = first observed (where_rows (quotes target source cutoff) rates) in
        if source.pk == target.pk then ok (whole 1) else pick_rate direct inverse

    unfoldable pub convert_currency : Decimal → Currency → Currency → Option ℕ → Result Decimal
    unfolding get_fx_rate
    convert_currency amount source target as_of_date = do
      rate ← get_fx_rate source target as_of_date
      ok (amount ⊗ rate)
