-- ===== src/Tax/Aggregation/Collect.antt =====
-- tax/services/aggregation.py: the events of the year, converted and booked. A missing rate is noted
-- among the reasons and its line has no reporting amount.
use vault.Base.{
  ℕ, Bool, ◌&&◌, Option, none, some, List, [], ◌∷◌, ◌++◌, leb, ltb, ◌==◌, if◌then◌else◌, leb_ℤ,
  ltb_ℤ, neg, Result, ok, err, ◌>>=◌, ◌⊎◌, inl, inr, missing_exchange_rate, cost_basis_unavailable,
}
use vault.Decimal.{Context, Decimal, decimal_zero, ◌⊕◌, ◌⊖◌, ◌⊗◌}
use vault.Core.Models.{Currency}
use vault.Core.Ordering.{Collation}
use vault.Core.Fx.{convert_currency}
use vault.Accounts.Models.{FinancialAccount}
use vault.Ledger.Models.{TransactionEntry, TransactionType, is_type}
use vault.Investments.Models.{InvestmentTransaction}
use vault.Investments.CostBasis.{RealizedGainEvent, calculate_realized_gain_events}
use vault.Tax.Models.{TaxableCategory, TaxYear}
use vault.Tax.Aggregation.Models.{
  InterestTaxLine, DividendTaxLine, CapitalGainTaxLine, TaxPaymentLine, CategoryTaxBreakdown,
  Reason, rate_missing, cost_basis_missing, Breakdowns, change, same_category,
}
use vault.Database.{Database}

-- The local variables of `build_tax_year_summary` while the events are read.
pub record Collected : Type 0 where
  pub rows : Breakdowns
  pub interest_lines : List InterestTaxLine
  pub dividend_lines : List DividendTaxLine
  pub capital_lines : List CapitalGainTaxLine
  pub payment_lines : List TaxPaymentLine
  pub reasons : List Reason
  pub tax_paid : Decimal
  pub manual_allowances : TaxableCategory → Decimal
  pub manual_deductions : TaxableCategory → Decimal
  pub manual_withholding : Decimal

-- `except MissingExchangeRate as exc: reasons.append(...)`
abbrev pub noted : Reason → Result Decimal → Result (Reason ⊎ Decimal)
noted r (ok a) = ok (inr a)
noted r (err missing_exchange_rate) = ok (inl r)
noted r (err e) = err e

abbrev pub amount_of : Reason ⊎ Decimal → Option Decimal
amount_of (inl r) = none
amount_of (inr a) = some a

abbrev pub note : Reason ⊎ Decimal → List Reason → List Reason
note (inl r) reasons = reasons ++ r ∷ []
note (inr a) reasons = reasons

abbrev pub in_year : TaxYear → ℕ → Bool
in_year y date = leb y.start_date date && leb date y.end_date

module _ ⦃c : Context⦄ where
  abbrev pub add_known : Option Decimal → Decimal → Decimal
  add_known none total = total
  add_known (some a) total = total ⊕ a

  abbrev pub add_gross : Option Decimal → CategoryTaxBreakdown → CategoryTaxBreakdown
  add_gross amount row = record row { gross_amount = add_known amount row.gross_amount }

  abbrev pub add_withholding : Option Decimal → CategoryTaxBreakdown → CategoryTaxBreakdown
  add_withholding amount row = record row { withholding = add_known amount row.withholding }

  -- A gain adds to the gross amount, a loss to the losses.
  abbrev pub add_gain : Option Decimal → CategoryTaxBreakdown → CategoryTaxBreakdown
  add_gain none row = row
  add_gain (some gain) row =
      if leb_ℤ decimal_zero gain
      then record row { gross_amount = row.gross_amount ⊕ gain }
      else record row { losses = row.losses ⊕ gain }

  abbrev pub add_to :
      TaxableCategory → Option Decimal → (TaxableCategory → Decimal) → TaxableCategory → Decimal
  add_to category amount d x = if same_category category x then add_known amount (d x) else d x

  module _ ⦃o : Collation⦄ (db : Database) (today : ℕ) (y : TaxYear) where
    -- `_convert`
    unfoldable pub convert : Decimal → Currency → ℕ → Result (Reason ⊎ Decimal)
    convert amount currency date =
        noted (rate_missing currency y.reporting_currency date)
          (convert_currency db.rates today amount currency y.reporting_currency (some date))

    abbrev at_trade_rate :
        Option Decimal → Decimal → InvestmentTransaction → Result (Reason ⊎ Decimal)
    at_trade_rate none amount i = convert amount i.currency i.transaction.transaction_date
    at_trade_rate (some rate) amount i =
        convert (amount ⊗ rate) i.account.currency i.transaction.transaction_date

    -- `_convert_investment`
    unfoldable pub convert_investment : Decimal → InvestmentTransaction → Result (Reason ⊎ Decimal)
    unfolding convert
    convert_investment amount i =
        if i.currency.pk == y.reporting_currency.pk
        then ok (inr amount)
        else at_trade_rate i.exchange_rate amount i

    abbrev pub is_interest : TransactionEntry → Bool
    is_interest e =
        (e.transaction.owner_id == y.owner_id)
        && (is_type e.transaction.transaction_type TransactionType.interest
            && (ltb_ℤ decimal_zero e.amount && in_year y e.transaction.transaction_date))

    unfoldable pub add_interest : Collected → List TransactionEntry → Result Collected
    unfolding convert
    add_interest s [] = ok s
    add_interest s (e ∷ es) = do
      converted ← convert e.amount e.currency e.transaction.transaction_date
      add_interest
          (record s {
            reasons = note converted s.reasons;
            interest_lines =
                s.interest_lines
                ++ record {
                  account = e.account;
                  date = e.transaction.transaction_date;
                  description = e.transaction.description;
                  original_amount = e.amount;
                  currency = e.currency;
                  reporting_amount = amount_of converted;
                }
                  ∷ [];
            rows = change TaxableCategory.interest (add_gross (amount_of converted)) s.rows;
          })
          es

    abbrev pub is_dividend : InvestmentTransaction → Bool
    is_dividend i =
        (i.account.owner_id == y.owner_id)
        && (is_type i.transaction.transaction_type TransactionType.dividend
            && in_year y i.transaction.transaction_date)

    unfoldable pub add_dividends : Collected → List InvestmentTransaction → Result Collected
    unfolding convert_investment
    add_dividends s [] = ok s
    add_dividends s (i ∷ items) = do
      let net = i.gross_amount ⊖ i.taxes ⊖ i.fees
      gross ← convert_investment i.gross_amount i
      taxes ← convert_investment i.taxes i
      net' ← convert_investment net i
      add_dividends
          (record s {
            reasons = note net' (note taxes (note gross s.reasons));
            dividend_lines =
                s.dividend_lines
                ++ record {
                  investment_transaction = i;
                  gross_original = i.gross_amount;
                  withholding_original = i.taxes;
                  net_original = net;
                  gross_reporting = amount_of gross;
                  withholding_reporting = amount_of taxes;
                  net_reporting = amount_of net';
                }
                  ∷ [];
            rows =
                change TaxableCategory.dividend
                  (λ row. add_withholding (amount_of taxes) (add_gross (amount_of gross) row))
                  s.rows;
          })
          items

    -- The sales of one account; those before the year carry cost, and are no events of the year.
    add_events : FinancialAccount → Collected → List RealizedGainEvent → Result Collected
    unfolding convert
    add_events account s [] = ok s
    add_events account s (e ∷ es) =
        let date = e.investment_transaction.transaction.transaction_date in
        let skipped = add_events account s es in
        let taken = (do
          proceeds ← convert e.net_proceeds_base account.currency date
          cost ← convert e.allocated_cost_basis_base account.currency date
          gain ← convert e.gain_base account.currency date
          add_events account
              (record s {
                reasons = note gain (note cost (note proceeds s.reasons));
                capital_lines =
                    s.capital_lines
                    ++ record {
                      event = e;
                      net_proceeds_reporting = amount_of proceeds;
                      allocated_cost_reporting = amount_of cost;
                      gain_reporting = amount_of gain;
                    }
                      ∷ [];
                rows = change TaxableCategory.capital_gain (add_gain (amount_of gain)) s.rows;
              })
              es) in
        if ltb date y.start_date then skipped else taken

    -- `except ValidationError`: the replay raises no other of that class.
    add_account : FinancialAccount → Collected → Result (List RealizedGainEvent) → Result Collected
    unfolding add_events
    add_account account s (ok events) = add_events account s events
    add_account account s (err (cost_basis_unavailable symbol)) =
        ok (record s { reasons = s.reasons ++ cost_basis_missing symbol ∷ [] })
    add_account account s (err e) = err e

    unfoldable pub add_gains : Collected → List FinancialAccount → Result Collected
    unfolding add_account
    add_gains s [] = ok s
    add_gains s (account ∷ accounts) = do
      s' ←
          add_account account s
            (calculate_realized_gain_events db.investments account (some y.end_date))
      add_gains s' accounts

    abbrev pub is_payment : TransactionEntry → Bool
    is_payment e =
        (e.transaction.owner_id == y.owner_id)
        && (is_type e.transaction.transaction_type TransactionType.tax
            && (ltb_ℤ e.amount decimal_zero && in_year y e.transaction.transaction_date))

    unfoldable pub add_payments : Collected → List TransactionEntry → Result Collected
    unfolding convert
    add_payments s [] = ok s
    add_payments s (e ∷ es) = do
      converted ← convert (neg e.amount) e.currency e.transaction.transaction_date
      add_payments
          (record s {
            reasons = note converted s.reasons;
            tax_paid = add_known (amount_of converted) s.tax_paid;
            payment_lines =
                s.payment_lines
                ++ record {
                  account = e.account;
                  date = e.transaction.transaction_date;
                  description = e.transaction.description;
                  original_amount = neg e.amount;
                  currency = e.currency;
                  reporting_amount = amount_of converted;
                }
                  ∷ [];
          })
          es
