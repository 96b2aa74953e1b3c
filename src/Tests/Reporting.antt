-- ===== src/Tests/Reporting.antt =====
-- Exchange rates, interest, fixed terms and a valuation.
use vault.Base.{
  map_result, where_rows, ◌&&◌, ◌≡◌, ◌↔◌, refl, [], ◌∷◌, none, some, true, false, pos, negsuc, neg,
  ◌+ℤ◌, ◌-ℤ◌, ◌≤ℤ◌, ◌≤◌, arith, All, upper, ok, err, missing_exchange_rate,
}
use vault.Decimal.{Decimal, decimal_zero, ◌⊕◌, ◌⊖◌, ◌⊗◌, divide, whole, quotient, min}
use vault.Core.Ordering.{first}
use vault.Core.Fx.{convert_currency, get_fx_rate}
use vault.Core.Fx.Laws.{usable, Newest, get_fx_rate-Newest, get_fx_rate-missing}
use vault.Ledger.Services.{account_balance}
use vault.Ledger.Interest.{calculate_simple_interest}
use vault.Ledger.Interest.Growth.{calculate_simple_interest_nonneg}
use vault.Accounts.FixedTerm.{
  FixedTermProjection, FixedTermProgress, closed, get_fixed_term_status,
  calculate_fixed_term_progress, calculate_fixed_term_projection,
}
use vault.Accounts.FixedTerm.Progress.{
  IsProgress, stage, calculate_fixed_term_progress-IsProgress, get_fixed_term_status_mono,
}
use vault.Accounts.Models.{clean_fixed_term}
use vault.Accounts.FixedTerm.Projections.{IsProjection, calculate_fixed_term_projection-ok}
use vault.Investments.Holdings.{calculate_holdings, replay, apply_item, apply_buy, apply_sell, sort}
use vault.Investments.Pricing.{get_latest_price}
use vault.Investments.Valuation.{
  PortfolioValuation, HoldingValuation, AssetAllocation, calculate_portfolio_value, conversion,
  distinct, value_holding, value_holdings,
}
use vault.Investments.Valuation.Completeness.{IsHonest, calculate_portfolio_value-IsHonest}
use vault.Investments.Views.{PortfolioSummary, brokerage_of, value_account, portfolio}
use vault.Investments.Views.Totals.{IsSummary, portfolio-ok}
use vault.Tests.Data.{
  decimal_context, text_collation, rates, checking, brokerage, euro, dollar, contract, price_on,
}
use vault.Tests.Trading.{with_trades, six_left}

-- On day 25 the newest rate is the one stated the other way round.
rate_found : get_fx_rate rates 99 euro dollar (some 25) ≡ ok (pos 133)
unfolding get_fx_rate first divide whole
rate_found = refl

get_fx_rate-Newest_example : Newest rates euro dollar 25 (pos 133)
get_fx_rate-Newest_example =
    get_fx_rate-Newest rates 99 euro dollar (some 25) (pos 133) (λ e. omega arith) rate_found

get_fx_rate-missing_example :
    (get_fx_rate rates 99 euro dollar (some 9) ≡ err missing_exchange_rate)
    ↔ All (λ x. usable euro dollar 9 x ≡ false) rates
get_fx_rate-missing_example = get_fx_rate-missing rates 99 euro dollar (some 9) (λ e. omega arith)

-- 1000 at 5 percent for 73 days.
interest_found : calculate_simple_interest (pos 100000) (pos 5) 100 173 ≡ ok (pos 1000)
unfolding calculate_simple_interest ◌⊗◌ divide whole ◌-ℤ◌
interest_found = refl

calculate_simple_interest_nonneg_example : decimal_zero ≤ℤ pos 1000
calculate_simple_interest_nonneg_example =
    calculate_simple_interest_nonneg (pos 100000) (pos 5) 100 173 (pos 1000) (omega arith)
      (omega arith) interest_found

-- Any function does for the power of a contract with simple interest.
abbrev power : Decimal → Decimal → Decimal
power a b = a

abbrev halfway : FixedTermProgress
halfway = record {
  accrued_interest = pos 685;
  days_elapsed = 50;
  days_remaining = 50;
  progress_percent = pos 5000;
}

progress_found : calculate_fixed_term_progress power contract 150 ≡ ok halfway
unfolding calculate_fixed_term_progress calculate_fixed_term_projection upper
    calculate_simple_interest divide whole ◌⊗◌ ◌-ℤ◌ min
progress_found = refl

calculate_fixed_term_progress-IsProgress_example : IsProgress contract 150 halfway
calculate_fixed_term_progress-IsProgress_example =
    calculate_fixed_term_progress-IsProgress power contract 150 halfway (omega arith) progress_found

abbrev whole_term : FixedTermProjection
whole_term = record {
  principal = pos 100000;
  gross_interest = pos 1370;
  maturity_value = pos 101370;
  duration_days = 100;
}

projection_found :
    calculate_fixed_term_projection power (pos 100000) (pos 5) 100 200 "simple" none ≡ ok whole_term
unfolding calculate_fixed_term_projection upper calculate_simple_interest divide whole ◌⊗◌ ◌⊕◌ ◌+ℤ◌
    ◌-ℤ◌
projection_found = refl

contract_passes : clean_fixed_term contract ≡ []
unfolding clean_fixed_term
contract_passes = refl

calculate_fixed_term_projection-ok_example :
    (p : FixedTermProjection) × (calculate_fixed_term_projection power
        (pos 100000)
        (pos 5)
        100
        200
        "SIMPLE"
        none
      ≡ ok p)
    × IsProjection power contract p
calculate_fixed_term_projection-ok_example =
    calculate_fixed_term_projection-ok power contract contract_passes (omega arith) (omega arith)

get_fixed_term_status_mono_example :
    stage (get_fixed_term_status contract 90) ≤ stage (get_fixed_term_status contract 150)
    × ((get_fixed_term_status contract 90 ≡ closed) ↔ (get_fixed_term_status contract 150 ≡ closed))
get_fixed_term_status_mono_example = get_fixed_term_status_mono contract 90 150 (omega arith)

-- Six shares at 12 EUR, in dollars at 1.33.
abbrev share_row : HoldingValuation
share_row = record {
  holding = six_left;
  latest_price = some (price_on 18 (pos 1200));
  market_value_native = some (pos 7200);
  market_value = some (pos 9576);
  cost_basis = pos 8060;
  unrealized_gain = some (pos 1516);
  unrealized_gain_percent = some (pos 1900);
  allocation_percent = some (pos 10000);
  warning = none;
}

abbrev stock_allocation : AssetAllocation
stock_allocation = record { category = "Stock"; market_value = pos 9576; percentage = pos 10000 }

abbrev in_dollars : PortfolioValuation
in_dollars = record {
  account = brokerage;
  reporting_currency = dollar;
  holdings = share_row ∷ [];
  market_value = some (pos 9576);
  cost_basis = some (pos 8060);
  unrealized_gain = some (pos 1516);
  unrealized_gain_percent = some (pos 1900);
  realized_gain = some (negsuc 185);
  cash_balance = some (pos 0);
  total_account_value = some (pos 9576);
  complete = true;
  warnings = [];
  allocation = stock_allocation ∷ [];
}

valuation_found :
    calculate_portfolio_value with_trades 99 brokerage (some 20) (some dollar) ≡ ok in_dollars
unfolding calculate_portfolio_value conversion distinct value_holding value_holdings
    get_latest_price convert_currency get_fx_rate first account_balance calculate_holdings replay
    apply_item apply_buy apply_sell sort ◌⊕◌ ◌⊖◌ ◌⊗◌ divide whole quotient neg ◌+ℤ◌ ◌-ℤ◌
valuation_found = refl

calculate_portfolio_value-IsHonest_example : IsHonest in_dollars
calculate_portfolio_value-IsHonest_example =
    calculate_portfolio_value-IsHonest with_trades 99 brokerage (some 20) (some dollar) in_dollars
      valuation_found

-- The portfolio page of the user with that one brokerage account, and another account beside it.
valuations_found :
    map_result
      (value_account with_trades 20 (some dollar))
      (where_rows (λ a. brokerage_of 7 a && a.active) (checking ∷ brokerage ∷ []))
    ≡ ok (in_dollars ∷ [])
unfolding value_account calculate_portfolio_value conversion distinct value_holding value_holdings
    get_latest_price convert_currency get_fx_rate first account_balance calculate_holdings replay
    apply_item apply_buy apply_sell sort ◌⊕◌ ◌⊖◌ ◌⊗◌ divide whole quotient neg ◌+ℤ◌ ◌-ℤ◌
valuations_found = refl

portfolio-ok_example :
    (s : PortfolioSummary) × (portfolio 7 20 (some dollar) (checking ∷ brokerage ∷ []) with_trades
      ≡ ok (in_dollars ∷ [], s))
    × IsSummary (some dollar) (in_dollars ∷ []) s
portfolio-ok_example =
    portfolio-ok 7 20 (some dollar) (checking ∷ brokerage ∷ []) with_trades (in_dollars ∷ [])
      valuations_found
