-- ===== src/Investments/Views.antt =====
-- investments/views.py and investments/forms.py: the totals over a user's brokerage accounts, the
-- checks of an order's form, and the posting from it. `default_currency` is the row of
-- `settings.DEFAULT_CURRENCY`, if there is one.
pub mod Totals
use vault.Base.{
  ℕ, Bool, true, false, not, ◌&&◌, ◌||◌, Option, none, some, String, List, [], ◌∷◌, ◌++◌, find,
  ◌==◌, where_rows, if◌then◌else◌, is_none, get_or, upper, eqb_ℤ, ltb_ℤ, Result, ok, err, ◌>>=◌,
  map_result, type_error,
}
use vault.Decimal.{Context, Decimal, decimal_zero, whole, ◌⊕◌, ◌⊗◌, quantize}
use vault.Text.{strip}
use vault.Core.Models.{Currency, ExchangeRate}
use vault.Core.Ordering.{Collation}
use vault.Accounts.Models.{FinancialAccount, is_brokerage}
use vault.Ledger.Models.{TransactionType, buy, sell, is_type}
use vault.Investments.Models.{Security, SecurityPrice, InvestmentTransaction}
use vault.Investments.Holdings.{calculate_holding_quantity, required}
use vault.Investments.Pricing.{get_latest_price}
use vault.Investments.Posting.{Order, create_investment_transaction}
use vault.Investments.Valuation.{HoldingValuation, PortfolioValuation, calculate_portfolio_value}
use vault.Database.{Database}

-- The sum of values that are there; a value of `None` cannot be added.
module _ ⦃c : Context⦄ where
  unfoldable pub sum_values : Decimal → List (Option Decimal) → Result Decimal
  unfolding ◌⊕◌
  sum_values total [] = ok total
  sum_values total (none ∷ values) = err type_error
  sum_values total (some a ∷ values) = sum_values (total ⊕ a) values

  -- `sum(...) if test else None`
  unfoldable pub sum_if : Bool → List (Option Decimal) → Result (Option Decimal)
  unfolding sum_values
  sum_if test values =
      if test then (sum_values decimal_zero values >>= λ total. ok (some total)) else ok none

abbrev pub all {ℓ} : {A : Type ℓ} → (A → Bool) → List A → Bool
all p [] = true
all p (x ∷ xs) = p x && all p xs

pub record PortfolioSummary : Type 0 where
  pub reporting_currency : Option Currency
  pub complete : Bool
  pub total_account_value : Option Decimal
  pub cash : Option Decimal
  pub cost_basis : Option Decimal
  pub unrealized_gain : Option Decimal
  pub realized_gain : Option Decimal

abbrev pub values_of :
    (PortfolioValuation → Option Decimal) → List PortfolioValuation → List (Option Decimal)
values_of f [] = []
values_of f (v ∷ valuations) = f v ∷ values_of f valuations

abbrev pub brokerage_of : ℕ → FinancialAccount → Bool
brokerage_of user a = (a.owner_id == user) && is_brokerage a.account_type

module _ ⦃c : Context⦄ ⦃o : Collation⦄ where
  unfoldable pub value_account :
      Database → ℕ → Option Currency → FinancialAccount → Result PortfolioValuation
  unfolding calculate_portfolio_value
  value_account db today default_currency account =
      calculate_portfolio_value db today account none
        (some (get_or default_currency account.currency))

  unfoldable pub portfolio_summary :
      Option Currency → List PortfolioValuation → Result PortfolioSummary
  unfolding sum_if
  portfolio_summary default_currency valuations = do
    let complete = all (λ (v : PortfolioValuation). v.complete) valuations
    total ←
        sum_if (complete && not (is_none default_currency))
          (values_of (λ v. v.total_account_value) valuations)
    cash ← sum_if complete (values_of (λ v. v.cash_balance) valuations)
    cost ← sum_if complete (values_of (λ v. v.cost_basis) valuations)
    unrealized ← sum_if complete (values_of (λ v. v.unrealized_gain) valuations)
    realized ← sum_if complete (values_of (λ v. v.realized_gain) valuations)
    ok (record {
      reporting_currency = default_currency;
      complete = complete;
      total_account_value = total;
      cash = cash;
      cost_basis = cost;
      unrealized_gain = unrealized;
      realized_gain = realized;
    })

  -- `PortfolioView.get_context_data`: the valuations and their summary
  unfoldable pub portfolio :
      ℕ
      → ℕ
      → Option Currency
      → List FinancialAccount
      → Database
      → Result (List PortfolioValuation × PortfolioSummary)
  unfolding value_account portfolio_summary
  portfolio user today default_currency accounts db = do
    valuations ←
        map_result (value_account db today default_currency)
          (where_rows (λ a. brokerage_of user a && a.active) accounts)
    summary ← portfolio_summary default_currency valuations
    ok (valuations, summary)

-- What the form of an order holds once its fields are cleaned.
pub record OrderForm : Type 0 where
  pub account : Option FinancialAccount
  pub security : Option Security
  pub trade_date : Option ℕ
  pub settlement_date : Option ℕ
  pub quantity : Option Decimal
  pub price_per_unit : Option Decimal
  pub gross_amount : Option Decimal
  pub currency : Option Currency
  pub exchange_rate : Option Decimal

pub data OrderMessage : Type 0 where
  account_of_another_user security_in_another_currency : OrderMessage
  rate_required rate_not_one : OrderMessage
  -- with what is held
  sells_too_much : Decimal → OrderMessage

-- A check of two values, made where both are there.
abbrev both : {A B : Type 0} → (A → B → List OrderMessage) → Option A → Option B → List OrderMessage
both f none b = []
both f (some a) none = []
both f (some a) (some b) = f a b

module _ ⦃c : Context⦄ where
  -- `not cleaned.get("exchange_rate")`: there is none, or it is zero
  abbrev no_rate : Option Decimal → Bool
  no_rate none = true
  no_rate (some rate) = eqb_ℤ rate decimal_zero

  abbrev other_than_one : Option Decimal → Bool
  other_than_one none = false
  other_than_one (some rate) = not (eqb_ℤ rate (whole 1))

  unfoldable check_rate : Option Decimal → FinancialAccount → Currency → List OrderMessage
  unfolding whole
  check_rate rate account currency =
      if not (account.currency.pk == currency.pk)
      then (if no_rate rate then rate_required ∷ [] else [])
      else if other_than_one rate
      then rate_not_one ∷ []
      else []

  -- The gross amount of a buy or a sale whose quantity and price are given.
  unfoldable pub gross_of : TransactionType → OrderForm → Option Decimal
  unfolding quantize ◌⊗◌
  gross_of kind form =
      if is_type kind buy || is_type kind sell
      then product form.quantity form.price_per_unit
      else form.gross_amount
    where
      product : Option Decimal → Option Decimal → Option Decimal
      product (some quantity) (some price) = some (quantize 4 (quantity ⊗ price))
      product _ _ = form.gross_amount

  unfoldable held_too_little :
      List InvestmentTransaction
      → Option ℕ
      → Decimal
      → FinancialAccount
      → Security
      → Result (List OrderMessage)
  unfolding calculate_holding_quantity
  held_too_little trades trade_date quantity account security =
      calculate_holding_quantity trades account security trade_date >>= λ held.
      ok (if ltb_ℤ held quantity then sells_too_much held ∷ [] else [])

  -- The check of a sale, made where the account, the security and a quantity are there.
  unfoldable check_sale :
      List InvestmentTransaction
      → Option ℕ
      → Option Decimal
      → Option FinancialAccount
      → Option Security
      → Result (List OrderMessage)
  unfolding held_too_little
  check_sale trades trade_date (some quantity) (some account) (some security) =
      if eqb_ℤ quantity decimal_zero
      then ok []
      else held_too_little trades trade_date quantity account security
  check_sale trades trade_date _ _ _ = ok []

  -- `InvestmentTransactionForm.clean`: the gross amount and the messages
  unfoldable pub clean_order_form :
      ℕ
      → TransactionType
      → OrderForm
      → List InvestmentTransaction
      → Result (Option Decimal × List OrderMessage)
  unfolding gross_of check_sale check_rate
  clean_order_form user kind form trades = do
    sale ←
        (if is_type kind sell
          then check_sale trades form.trade_date form.quantity form.account form.security
          else ok [])
    ok (
      gross_of kind form,
      foreign form.account
          ++ (both
                (λ (s : Security) (currency : Currency).
                  if s.currency.pk == currency.pk then [] else security_in_another_currency ∷ [])
                form.security form.currency
              ++ (both (check_rate form.exchange_rate) form.account form.currency ++ sale)),
    )
    where
      foreign : Option FinancialAccount → List OrderMessage
      foreign none = []
      foreign (some a) = if a.owner_id == user then [] else account_of_another_user ∷ []

-- `clean_symbol` and `clean_isin` of `SecurityForm`
unfoldable pub clean_code : String → String
unfolding strip upper
clean_code s = upper (strip s)

-- `ExchangeRateForm.clean`, where both currencies are there: whether it passes.
abbrev pub rate_form_passes : Currency → Currency → Bool
rate_form_passes base quote = not (base.pk == quote.pk)

-- `SecurityPriceForm.clean`, where both are there: whether it passes.
abbrev pub price_form_passes : Security → Currency → Bool
price_form_passes security currency = security.currency.pk == currency.pk

-- One account's holding of a security.
pub record Position : Type 0 where
  pub account : FinancialAccount
  pub valuation : HoldingValuation

pub record PositionSummary : Type 0 where
  pub currency : Option Currency
  pub quantity : Decimal
  pub market_value : Option Decimal
  pub cost_basis : Option Decimal
  pub unrealized_gain : Option Decimal

abbrev pub figures_of : (HoldingValuation → Option Decimal) → List Position → List (Option Decimal)
figures_of f [] = []
figures_of f (p ∷ positions) = f p.valuation ∷ figures_of f positions

-- `next((row for row in valuation.holdings if ...), None)`
abbrev pub row_of : Security → PortfolioValuation → Option HoldingValuation
row_of security v = find (λ (r : HoldingValuation). r.holding.security.pk == security.pk) v.holdings

module _ ⦃c : Context⦄ ⦃o : Collation⦄ where
  unfoldable position_in :
      FinancialAccount → Option HoldingValuation → List Position → List Position
  position_in account none positions = positions
  position_in account (some row) positions =
      record { account = account; valuation = row } ∷ positions

  -- The loop over the accounts.
  unfoldable pub positions_of :
      Database → ℕ → Option Currency → Security → List FinancialAccount → Result (List Position)
  unfolding value_account position_in
  positions_of db today default_currency security [] = ok []
  positions_of db today default_currency security (account ∷ accounts) = do
    valuation ← value_account db today default_currency account
    rest ← positions_of db today default_currency security accounts
    ok (position_in account (row_of security valuation) rest)

  -- `position_summary`
  unfoldable pub position_summary : Option Currency → List Position → Result PositionSummary
  unfolding sum_values sum_if
  position_summary default_currency positions = do
    let complete = all (λ (p : Position). not (is_none p.valuation.market_value)) positions
    quantity ← sum_values decimal_zero (figures_of (λ r. some r.holding.quantity) positions)
    market ← sum_if complete (figures_of (λ r. r.market_value) positions)
    cost ← sum_if complete (figures_of (λ r. some r.cost_basis) positions)
    unrealized ← sum_if complete (figures_of (λ r. r.unrealized_gain) positions)
    ok (record {
      currency = default_currency;
      quantity = quantity;
      market_value = market;
      cost_basis = cost;
      unrealized_gain = unrealized;
    })

  pub record SecurityDetail : Type 0 where
    pub positions : List Position
    pub summary : PositionSummary
    pub latest_price : Option SecurityPrice

  -- `SecurityDetailView.get_context_data`; its lists of prices and transactions are left out.
  unfoldable pub security_detail :
      ℕ → ℕ → Option Currency → Security → List FinancialAccount → Database → Result SecurityDetail
  unfolding positions_of position_summary get_latest_price
  security_detail user today default_currency security accounts db = do
    positions ←
        positions_of db today default_currency security (where_rows (brokerage_of user) accounts)
    summary ← position_summary default_currency positions
    ok (record {
      positions = positions;
      summary = summary;
      latest_price = get_latest_price db.prices today security none;
    })
