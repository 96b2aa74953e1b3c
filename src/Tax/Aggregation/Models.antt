-- ===== src/Tax/Aggregation/Models.antt =====
-- The lines and results of tax/services/aggregation.py. A reason stands for its text.
use vault.Base.{ℕ, Bool, Option, String, List, [], ◌∷◌, ◌==◌, if◌then◌else◌}
use vault.Decimal.{Decimal, decimal_zero}
use vault.Core.Models.{Currency}
use vault.Accounts.Models.{FinancialAccount}
use vault.Ledger.Models.{Transaction}
use vault.Investments.Models.{InvestmentTransaction}
use vault.Investments.CostBasis.{RealizedGainEvent}
use vault.Tax.Models.{
  TaxableCategory, interest, dividend, capital_gain, employment_income, other_income, overall,
  TaxRule, TaxYear,
}

pub record InterestTaxLine : Type 0 where
  pub account : FinancialAccount
  pub date : ℕ
  pub description : String
  pub original_amount : Decimal
  pub currency : Currency
  pub reporting_amount : Option Decimal

pub record DividendTaxLine : Type 0 where
  pub investment_transaction : InvestmentTransaction
  pub gross_original : Decimal
  pub withholding_original : Decimal
  pub net_original : Decimal
  pub gross_reporting : Option Decimal
  pub withholding_reporting : Option Decimal
  pub net_reporting : Option Decimal

pub record CapitalGainTaxLine : Type 0 where
  pub event : RealizedGainEvent
  pub net_proceeds_reporting : Option Decimal
  pub allocated_cost_reporting : Option Decimal
  pub gain_reporting : Option Decimal

pub record TaxPaymentLine : Type 0 where
  pub account : FinancialAccount
  pub date : ℕ
  pub description : String
  pub original_amount : Decimal
  pub currency : Currency
  pub reporting_amount : Option Decimal

pub record RuleTrace : Type 0 where
  pub rule : TaxRule
  pub input_amount : Decimal
  pub adjustment : Decimal
  pub output_amount : Decimal
  pub tax : Decimal

pub record CategoryTaxBreakdown : Type 0 where
  pub category : TaxableCategory
  pub gross_amount : Decimal
  pub losses : Decimal
  pub allowances : Decimal
  pub deductions : Decimal
  pub taxable_amount : Decimal
  pub estimated_tax : Decimal
  pub withholding : Decimal
  pub applied_rules : List RuleTrace

pub data Reason : Type 0 where
  rate_missing : Currency → Currency → ℕ → Reason
  cost_basis_missing : String → Reason
  unclassified_transaction : Transaction → Reason
  no_flat_rate_rule : TaxableCategory → Reason

pub data Completeness : Type 0 where
  incomplete needs_review complete : Completeness

pub record TaxYearSummary : Type 0 where
  pub tax_year : TaxYear
  pub categories : List CategoryTaxBreakdown
  pub interest_lines : List InterestTaxLine
  pub dividend_lines : List DividendTaxLine
  pub capital_gain_lines : List CapitalGainTaxLine
  pub tax_payment_lines : List TaxPaymentLine
  pub gross_interest : Decimal
  pub gross_dividends : Decimal
  pub realized_capital_gains : Decimal
  pub realized_capital_losses : Decimal
  pub net_realized_gain : Decimal
  pub deductions : Decimal
  pub allowances : Decimal
  pub tax_withheld : Decimal
  pub tax_paid : Decimal
  pub gross_taxable_income : Decimal
  pub estimated_tax_liability : Decimal
  pub estimated_tax_due : Decimal
  pub estimated_refund_credit : Decimal
  pub completeness : Completeness
  pub reasons : List Reason
  pub unclassified_transactions : List Transaction

abbrev pub category_order : List TaxableCategory
category_order = interest ∷ dividend ∷ capital_gain ∷ employment_income ∷ other_income ∷ []

abbrev category_index : TaxableCategory → ℕ
category_index interest = 0
category_index dividend = 1
category_index capital_gain = 2
category_index employment_income = 3
category_index other_income = 4
category_index overall = 5

abbrev pub same_category : TaxableCategory → TaxableCategory → Bool
same_category a b = category_index a == category_index b

abbrev pub empty_row : TaxableCategory → CategoryTaxBreakdown
empty_row category = record {
  category = category;
  gross_amount = decimal_zero;
  losses = decimal_zero;
  allowances = decimal_zero;
  deductions = decimal_zero;
  taxable_amount = decimal_zero;
  estimated_tax = decimal_zero;
  withholding = decimal_zero;
  applied_rules = [];
}

-- The dict `breakdowns`, in its order of insertion, which is `CATEGORY_ORDER`.
abbrev pub Breakdowns : Type 0
Breakdowns = List CategoryTaxBreakdown

-- `breakdowns[category]` changed in place
abbrev pub change :
    TaxableCategory → (CategoryTaxBreakdown → CategoryTaxBreakdown) → Breakdowns → Breakdowns
change category f [] = []
change category f (row ∷ rows) =
    (if same_category row.category category then f row else row) ∷ change category f rows

-- `breakdowns[category]`
abbrev pub row_of : TaxableCategory → Breakdowns → CategoryTaxBreakdown
row_of category [] = empty_row category
row_of category (row ∷ rows) =
    if same_category row.category category then row else row_of category rows
