-- ===== src/Investments/Valuation.antt =====
-- investments/services/valuation.py: the value of a brokerage account on a date. What is missing
-- makes the valuation incomplete. Warnings are values; the text of each is not modelled.
mod Models
mod Allocation
pub mod Completeness
pub use Models.*
use vault.Base.{
  ℕ, ◌+◌, Bool, true, false, not, ◌&&◌, ◌||◌, Option, none, some, String, List, [], ◌∷◌, ◌++◌, ◌==◌,
  if◌then◌else◌, get_or, is_none, ltb_ℤ, eqb_ℤ, where_rows, map, Result, ok, err, ◌>>=◌, ◌⊎◌, inl,
  inr, missing_exchange_rate, str_eq, any, Error,
}
use vault.Base.Order.{text_less}
use vault.Decimal.{Context, Decimal, decimal_zero, whole, ◌⊕◌, ◌⊖◌, ◌⊗◌, quotient}
use vault.Core.Models.{Currency}
use vault.Core.Ordering.{Collation}
use vault.Core.Fx.{convert_currency}
use vault.Accounts.Models.{FinancialAccount}
use vault.Ledger.Services.{account_balance}
use vault.Investments.Models.{Security, SecurityPrice, SecurityType}
use vault.Investments.Holdings.{HoldingSnapshot, calculate_holdings, sort}
use vault.Investments.Pricing.{get_latest_price}
use vault.Database.{Database}
use vault.Investments.Valuation.Allocation.{allocate, allocation_of, value_or_zero}

-- `dict.fromkeys(warnings)`: each once, at its first place.
abbrev same_warning : Warning → Warning → Bool
same_warning (price_unavailable s) (price_unavailable t) = str_eq s t
same_warning (rate_unavailable a b) (rate_unavailable a' b') =
    str_eq a.code a'.code && str_eq b.code b'.code
same_warning _ _ = false

unfoldable pub distinct : List Warning → List Warning → List Warning
distinct found [] = []
distinct found (w ∷ ws) =
    let old = any (same_warning w) found in
    let rest = distinct (if old then found else w ∷ found) ws in if old then rest else w ∷ rest

-- `except MissingExchangeRate`
abbrev pub caught : Warning → Result Decimal → Result (Warning ⊎ Decimal)
caught w (ok a) = ok (inr a)
caught w (err missing_exchange_rate) = ok (inl w)
caught w (err e) = err e

abbrev pub is_empty : List Warning → Bool
is_empty [] = true
is_empty (w ∷ ws) = false

abbrev pub nothing : Warning → Converted
nothing w = record { cash = none; total_cost = none; realized = none; missing = w ∷ [] }

abbrev pub all_converted : Warning ⊎ Decimal → Warning ⊎ Decimal → Warning ⊎ Decimal → Converted
all_converted (inr x) (inr y) (inr z) = record {
  cash = some x;
  total_cost = some y;
  realized = some z;
  missing = [];
}
all_converted (inl w) y z = nothing w
all_converted (inr x) (inl w) z = nothing w
all_converted (inr x) (inr y) (inl w) = nothing w

module _ ⦃c : Context⦄ where
  -- `a / b * Decimal(100) if b else None`
  abbrev pub percent_of : Decimal → Decimal → Option Decimal
  percent_of a b = if eqb_ℤ b decimal_zero then none else some (quotient a b ⊗ whole 100)

  -- A row whose market value is not known.
  abbrev pub open_row :
      HoldingSnapshot → Option SecurityPrice → Option Decimal → Warning → HoldingValuation
  open_row h price native w = record {
    holding = h;
    latest_price = price;
    market_value_native = native;
    market_value = none;
    cost_basis = h.base_cost_basis;
    unrealized_gain = none;
    unrealized_gain_percent = none;
    allocation_percent = none;
    warning = some w;
  }

  abbrev pub valued_row :
      HoldingSnapshot → SecurityPrice → Decimal → Decimal → Decimal → HoldingValuation
  valued_row h price native market cost =
      let gain = market ⊖ cost in
      record {
        holding = h;
        latest_price = some price;
        market_value_native = some native;
        market_value = some market;
        cost_basis = cost;
        unrealized_gain = some gain;
        unrealized_gain_percent = percent_of gain cost;
        allocation_percent = none;
        warning = none;
      }

  -- The row joins the others; a warning makes the valuation incomplete.
  abbrev pub add_row : Totals → HoldingValuation → Totals
  add_row t row = record {
    rows = t.rows ++ row ∷ [];
    warnings = elim row.warning [ none ↦ t.warnings | some w ↦ t.warnings ++ w ∷ [] ];
    total_market = elim row.market_value [ none ↦ t.total_market | some m ↦ t.total_market ⊕ m ];
    total_cost = t.total_cost ⊕ row.holding.base_cost_basis;
    complete = t.complete && is_none row.warning;
  }

  abbrev sum_realized : List HoldingSnapshot → Decimal → Decimal
  sum_realized [] acc = acc
  sum_realized (h ∷ hs) acc = sum_realized hs (acc ⊕ h.realized_gain_base)

  abbrev pub open_holding : HoldingSnapshot → Bool
  open_holding h = not (eqb_ℤ h.quantity decimal_zero)

  module _ ⦃o : Collation⦄ (db : Database) (today : ℕ) (account : FinancialAccount)
      (as_of_date : Option ℕ) (reporting : Currency) where
    unfoldable pub conversion : Decimal → Currency → Result (Warning ⊎ Decimal)
    conversion amount currency =
        caught (rate_unavailable currency reporting)
          (convert_currency db.rates today amount currency reporting as_of_date)

    abbrev pub row_of_cost :
        HoldingSnapshot → SecurityPrice → Decimal → Decimal → Warning ⊎ Decimal → HoldingValuation
    row_of_cost h price native market (inl w) = open_row h (some price) (some native) w
    row_of_cost h price native market (inr cost) = valued_row h price native market cost

    abbrev row_of_market :
        HoldingSnapshot → SecurityPrice → Decimal → Warning ⊎ Decimal → Result HoldingValuation
    row_of_market h price native (inl w) = ok (open_row h (some price) (some native) w)
    row_of_market h price native (inr market) =
        conversion h.base_cost_basis account.currency >>= λ cost.
        ok (row_of_cost h price native market cost)

    -- The row of a priced holding: its market value is converted first, then its cost.
    abbrev priced_row : HoldingSnapshot → SecurityPrice → Result HoldingValuation
    priced_row h price =
        let native = h.quantity ⊗ price.price in
        conversion native price.currency >>= λ market. row_of_market h price native market

    abbrev value_at : HoldingSnapshot → Option SecurityPrice → Result HoldingValuation
    value_at h none = ok (open_row h none none (price_unavailable h.security.symbol))
    value_at h (some price) = priced_row h price

    unfoldable pub value_holding : HoldingSnapshot → Result HoldingValuation
    value_holding h = value_at h (get_latest_price db.prices today h.security as_of_date)

    unfoldable pub value_holdings : Totals → List HoldingSnapshot → Result Totals
    value_holdings t [] = ok t
    value_holdings t (h ∷ hs) = value_holding h >>= λ row. value_holdings (add_row t row) hs

    -- The three totals, one after the other; the first that has no rate leaves none of them.
    convert_totals : Decimal → Decimal → Decimal → Result Converted
    unfolding conversion
    convert_totals cash cost realized =
        if reporting.pk == account.currency.pk
        then ok (record {
          cash = some cash;
          total_cost = some cost;
          realized = some realized;
          missing = [];
        })
        else (do
          a ← conversion cash account.currency
          b ← conversion cost account.currency
          r ← conversion realized account.currency
          ok (all_converted a b r))

    abbrev start : Totals
    start = record {
      rows = [];
      warnings = [];
      total_market = decimal_zero;
      total_cost = decimal_zero;
      complete = true;
    }

    abbrev if_complete : Bool → Decimal → Option Decimal
    if_complete complete a = if complete then some a else none

    -- Total minus cost, and cash plus total: of a complete valuation only.
    abbrev gain_of : Bool → Decimal → Option Decimal → Option Decimal
    gain_of true market (some cost) = some (market ⊖ cost)
    gain_of _ market cost = none

    abbrev gain_percent : Option Decimal → Option Decimal → Option Decimal
    gain_percent (some gain) (some cost) = percent_of gain cost
    gain_percent _ _ = none

    abbrev value_of : Bool → Decimal → Option Decimal → Option Decimal
    value_of true market (some cash) = some (cash ⊕ market)
    value_of _ market cash = none

    summarise : Totals → Converted → PortfolioValuation
    unfolding allocation_of distinct
    summarise t v =
        let complete = t.complete && is_empty v.missing in
        let gain = gain_of complete t.total_market v.total_cost in
        let rows = allocate t.total_market t.rows in
        record {
          account = account;
          reporting_currency = reporting;
          holdings = rows;
          market_value = if_complete complete t.total_market;
          cost_basis = v.total_cost;
          unrealized_gain = gain;
          unrealized_gain_percent = gain_percent gain v.total_cost;
          realized_gain = v.realized;
          cash_balance = v.cash;
          total_account_value = value_of complete t.total_market v.cash;
          complete = complete;
          warnings = distinct [] (t.warnings ++ v.missing);
          allocation = allocation_of complete t.rows (value_or_zero v.cash);
        }

    -- `calculate_portfolio_value` with its reporting currency chosen
    unfoldable pub portfolio_value : Result PortfolioValuation
    unfolding value_holdings convert_totals summarise
    portfolio_value = do
      all ← calculate_holdings db.investments account as_of_date true
      t ← value_holdings start (where_rows open_holding all)
      v ←
          convert_totals (account_balance account as_of_date db) t.total_cost
            (sum_realized all decimal_zero)
      ok (summarise t v)

  unfoldable pub calculate_portfolio_value :
      ⦃o : Collation⦄
      → Database
      → ℕ
      → FinancialAccount
      → Option ℕ
      → Option Currency
      → Result PortfolioValuation
  unfolding portfolio_value
  calculate_portfolio_value db today account as_of_date reporting_currency =
      portfolio_value db today account as_of_date (get_or reporting_currency account.currency)
