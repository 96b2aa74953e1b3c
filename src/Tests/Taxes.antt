-- ===== src/Tests/Taxes.antt =====
-- Tax years, returns and a summary.
use vault.Base.{
  ◌≢◌, find, ◌≤◌, ℕ, ◌≡◌, ◌↔◌, inr, refl, List, [], ◌∷◌, none, some, true, false, pos, neg, ◌+ℤ◌,
  ◌-ℤ◌, arith, All, upper, ok, err, forbidden, String,
}
use vault.Decimal.{Decimal, ◌⊕◌, ◌⊖◌, ◌⊗◌, divide, whole, quotient, min, max}
use vault.Core.Fx.{convert_currency}
use vault.Ledger.Models.{sell}
use vault.Investments.Models.{InvestmentTransaction}
use vault.Investments.CostBasis.{RealizedGainEvent, trade, calculate_realized_gain_events}
use vault.Tax.Models.{
  TaxDeduction, ReturnTaxTreatment, TreatmentType, TaxYear, TaxYearStatus, TaxRule, RuleType,
  TaxableCategory, TaxAllowance,
}
use vault.Tax.Checks.{
  with_pk, clean_deduction, clean_rule, is_filed, save_year, clean_year, year_messages,
}
use vault.Tax.Items.{IsOwned, lacks_amount, clean_deduction_iff, clean_rule_iff}
use vault.Tax.Years.{IsCalendar, save_year-IsCalendar}
use vault.Tax.Years.Filed.{IsKept, save_year-filed}
use vault.Tax.Returns.{ReturnTaxResult, calculate_return_tax}
use vault.Tax.Returns.Laws.{IsAccounted, calculate_return_tax-IsAccounted}
use vault.Tax.Aggregation.Models.{
  CategoryTaxBreakdown, CapitalGainTaxLine, RuleTrace, TaxYearSummary, complete, empty_row,
}
use vault.Tax.Aggregation.Build.{TaxTables, build_tax_year_summary}
use vault.Tax.Aggregation.Build.Outcome.{
  IsSettled, build_tax_year_summary-IsTaxable, build_tax_year_summary-IsSettled,
}
use vault.Tax.Aggregation.Reductions.{apply_flat_rule}
use vault.Tax.Aggregation.Reductions.Bounds.{IsTaxable}
use vault.Tax.Views.{
  get_year, editable_year, archive_tax_item, archive_tax_treatment, Cell, text_cell, date_cell,
  number_cell, begins_formula, csv_safe, event_row, capital_gain_row, deduction_row, deductions_of,
  line_rows, header_row, summary_row, export_tax_year_csv,
}
use vault.Tax.Views.Report.{IsReport, export_tax_year_csv-IsReport}
use vault.Database.{Database}
use vault.Tests.Data.{
  decimal_context, text_collation, brokerage, euro, empty_database, bought, trade_on,
}

abbrev year_of : ℕ → ℕ → ℕ → TaxYearStatus → TaxYear
year_of pk start_date end_date status = record {
  pk = pk;
  owner_id = 7;
  name = "Year";
  jurisdiction = "IT";
  start_date = start_date;
  end_date = end_date;
  reporting_currency = euro;
  status = status;
  notes = "";
}

abbrev first_year : TaxYear
first_year = year_of 1 1 365 TaxYearStatus.filed

abbrev calendar : List TaxYear
calendar = first_year ∷ []

calendar_kept : IsCalendar calendar
calendar_kept = record {
  saved = (omega arith, tt);
  ordered = (omega arith, tt);
  keyed = (tt, tt);
  apart = (tt, tt);
}

-- The next year is new.
abbrev next_calendar : List TaxYear
next_calendar = year_of 2 366 730 TaxYearStatus.opened ∷ first_year ∷ []

year_saved : save_year calendar (year_of 0 366 730 TaxYearStatus.opened) ≡ inr next_calendar
unfolding save_year clean_year year_messages upper
year_saved = refl

save_year-IsCalendar_example : IsCalendar next_calendar
save_year-IsCalendar_example =
    save_year-IsCalendar calendar next_calendar (year_of 0 366 730 TaxYearStatus.opened)
      calendar_kept year_saved

filed_saved : save_year calendar first_year ≡ inr calendar
unfolding save_year clean_year year_messages upper
filed_saved = refl

save_year-filed_example :
    ((saved : TaxYear) × (find (with_pk 1) calendar ≡ some saved) × IsKept first_year saved)
    × ((pk : ℕ) → pk ≢ 1 → find (with_pk pk) calendar ≡ find (with_pk pk) calendar)
save_year-filed_example =
    save_year-filed calendar calendar first_year first_year (λ e. omega arith) refl refl filed_saved

abbrev at_source : ReturnTaxTreatment
at_source = record {
  pk = 1;
  owner_id = 7;
  name = "Withheld";
  treatment_type = TreatmentType.withholding;
  tax_rate = some (pos 2600);
  jurisdiction = "IT";
  tax_deducted_at_source = true;
  notes = "";
  active = true;
}

abbrev withheld : ReturnTaxResult
withheld = record {
  gross_return = pos 10000;
  estimated_tax = pos 2600;
  tax_withheld = pos 2600;
  estimated_tax_due_later = pos 0;
  net_return = pos 7400;
  effective_tax_rate = pos 26;
}

return_taxed : calculate_return_tax (pos 10000) (some at_source) ≡ ok withheld
unfolding calculate_return_tax ◌⊗◌ ◌⊖◌ ◌-ℤ◌ quotient whole
return_taxed = refl

calculate_return_tax-IsAccounted_example : IsAccounted (some at_source) (pos 10000) withheld
unfolding whole
calculate_return_tax-IsAccounted_example =
    calculate_return_tax-IsAccounted (pos 10000) (some at_source) withheld (omega arith)
      (10000, 0, omega arith, refl) (omega arith) (omega arith) return_taxed

abbrev open_year : TaxYear
open_year = year_of 3 1 365 TaxYearStatus.opened

-- Four of ten shares sold at twice their price, with an allowance of 10 and a tax of 26 percent.
abbrev dear_sale : InvestmentTransaction
dear_sale = trade_on 2 20 sell (pos 400) (pos 8000)

abbrev sold_dear : Database
sold_dear = record empty_database { investments = bought ∷ dear_sale ∷ [] }

abbrev flat_rule : TaxRule
flat_rule = record {
  pk = 1;
  owner_id = some 7;
  tax_year = some open_year;
  jurisdiction = "IT";
  rule_type = RuleType.flat_rate;
  category = TaxableCategory.capital_gain;
  name = "Flat";
  rate = some (pos 2600);
  threshold = none;
  lower_bound = none;
  upper_bound = none;
  fixed_amount = none;
  priority = 1;
  effective_from = none;
  effective_to = none;
  active = true;
}

abbrev gain_allowance : TaxAllowance
gain_allowance = record {
  item = record { pk = 1; owner_id = 7; tax_year = open_year; active = true };
  name = "Allowance";
  category = TaxableCategory.capital_gain;
  amount = pos 1000;
  currency = euro;
  notes = "";
}

abbrev tables : TaxTables
tables = record {
  accounts = brokerage ∷ [];
  allowances = gain_allowance ∷ [];
  deductions = [];
  adjustments = [];
  rules = flat_rule ∷ [];
}

abbrev gain_event : RealizedGainEvent
gain_event = record {
  investment_transaction = dear_sale;
  net_proceeds = pos 7900;
  allocated_cost_basis = pos 4040;
  gain = pos 3860;
  net_proceeds_base = pos 7900;
  allocated_cost_basis_base = pos 4040;
  gain_base = pos 3860;
}

abbrev gain_line : CapitalGainTaxLine
gain_line = record {
  event = gain_event;
  net_proceeds_reporting = some (pos 7900);
  allocated_cost_reporting = some (pos 4040);
  gain_reporting = some (pos 3860);
}

abbrev flat_trace : RuleTrace
flat_trace = record {
  rule = flat_rule;
  input_amount = pos 2860;
  adjustment = pos 0;
  output_amount = pos 2860;
  tax = pos 744;
}

abbrev gain_row : CategoryTaxBreakdown
gain_row = record {
  category = TaxableCategory.capital_gain;
  gross_amount = pos 3860;
  losses = pos 0;
  allowances = pos 1000;
  deductions = pos 0;
  taxable_amount = pos 2860;
  estimated_tax = pos 744;
  withholding = pos 0;
  applied_rules = flat_trace ∷ [];
}

abbrev gain_summary : TaxYearSummary
gain_summary = record {
  tax_year = open_year;
  categories =
      empty_row TaxableCategory.interest
      ∷ empty_row TaxableCategory.dividend
      ∷ gain_row
      ∷ empty_row TaxableCategory.employment_income
      ∷ empty_row TaxableCategory.other_income
      ∷ [];
  interest_lines = [];
  dividend_lines = [];
  capital_gain_lines = gain_line ∷ [];
  tax_payment_lines = [];
  gross_interest = pos 0;
  gross_dividends = pos 0;
  realized_capital_gains = pos 3860;
  realized_capital_losses = pos 0;
  net_realized_gain = pos 3860;
  deductions = pos 0;
  allowances = pos 1000;
  tax_withheld = pos 0;
  tax_paid = pos 0;
  gross_taxable_income = pos 0;
  estimated_tax_liability = pos 744;
  estimated_tax_due = pos 744;
  estimated_refund_credit = pos 0;
  completeness = complete;
  reasons = [];
  unclassified_transactions = [];
}

summary_built : build_tax_year_summary sold_dear tables 400 open_year ≡ ok gain_summary
unfolding build_tax_year_summary calculate_realized_gain_events trade ◌⊕◌ ◌+ℤ◌ divide
    convert_currency apply_flat_rule ◌⊗◌ ◌⊖◌ ◌-ℤ◌ whole min max neg
summary_built = refl

build_tax_year_summary-IsTaxable_example : All IsTaxable gain_summary.categories
build_tax_year_summary-IsTaxable_example =
    build_tax_year_summary-IsTaxable sold_dear tables 400 open_year gain_summary summary_built

build_tax_year_summary-IsSettled_example : IsSettled gain_summary
build_tax_year_summary-IsSettled_example =
    build_tax_year_summary-IsSettled sold_dear tables 400 open_year gain_summary summary_built

abbrev donation : TaxDeduction
donation = record {
  item = record { pk = 2; owner_id = 7; tax_year = open_year; active = true };
  name = "Donation";
  category = TaxableCategory.overall;
  amount = pos 500;
  currency = euro;
  date = 40;
  notes = "";
}

clean_deduction_iff_example : (clean_deduction donation ≡ []) ↔ (
    (is_filed TaxYearStatus.opened ≡ false)
    × (donation.item.owner_id ≡ open_year.owner_id)
    × (1 ≤ 40)
    × (40 ≤ 365))
clean_deduction_iff_example = clean_deduction_iff donation

clean_rule_iff_example :
    ((clean_rule flat_rule).1 ≡ [])
    ↔ (IsOwned (some 7) (some open_year) × (lacks_amount RuleType.flat_rate flat_rule ≡ false))
clean_rule_iff_example = clean_rule_iff flat_rule

-- The allowance archived, and what is left to deduct.
abbrev without_allowance : TaxTables
without_allowance = record tables {
  allowances = record gain_allowance { item = record gain_allowance.item { active = false } } ∷ [];
}

filed_refused : archive_tax_item 7 1 "allowance" 1 calendar tables ≡ err forbidden
unfolding archive_tax_item editable_year get_year
filed_refused = refl

abbrev label_row : String → Decimal → List Cell
label_row label amount = summary_row open_year label amount

abbrev tax_file : List (List Cell)
tax_file =
    header_row
    ∷ (text_cell "capital_gain"
        ∷ date_cell 20
        ∷ text_cell dear_sale.security.symbol
        ∷ text_cell "CAPITAL_GAIN"
        ∷ number_cell (pos 3860)
        ∷ text_cell "EUR"
        ∷ number_cell (pos 3860)
        ∷ [])
    ∷ label_row "Estimated tax liability" (pos 744)
    ∷ label_row "Tax withheld" (pos 0)
    ∷ label_row "Tax paid" (pos 0)
    ∷ label_row "Estimated due" (pos 744)
    ∷ label_row "Estimated refund or credit" (pos 0)
    ∷ []

file_made : export_tax_year_csv 7 400 3 (open_year ∷ []) tables sold_dear ≡ ok tax_file
unfolding export_tax_year_csv get_year deductions_of line_rows capital_gain_row event_row csv_safe
    begins_formula build_tax_year_summary calculate_realized_gain_events trade ◌⊕◌ ◌+ℤ◌ divide
    convert_currency apply_flat_rule ◌⊗◌ ◌⊖◌ ◌-ℤ◌ whole min max neg
file_made = refl

export_tax_year_csv-IsReport_example :
    (y : TaxYear) × (summary : TaxYearSummary) × (get_year 7 3 (open_year ∷ []) ≡ ok y)
    × (build_tax_year_summary sold_dear tables 400 y ≡ ok summary)
    × IsReport 7 tables y summary tax_file
export_tax_year_csv-IsReport_example =
    export_tax_year_csv-IsReport 7 400 3 (open_year ∷ []) tables sold_dear tax_file file_made

treatment_archived :
    archive_tax_treatment 7 1 (at_source ∷ []) ≡ ok (record at_source { active = false } ∷ [])
unfolding archive_tax_treatment
treatment_archived = refl

donation_listed :
    deduction_row donation
    ≡ text_cell "deduction"
      ∷ date_cell 40
      ∷ text_cell "Donation"
      ∷ text_cell "OVERALL"
      ∷ number_cell (pos 500)
      ∷ text_cell "EUR"
      ∷ text_cell ""
      ∷ []
unfolding deduction_row event_row csv_safe begins_formula
donation_listed = refl
