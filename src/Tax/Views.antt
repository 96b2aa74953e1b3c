-- ===== src/Tax/Views.antt =====
-- tax/views.py: what the views for tax years and their items read and write. `user` is the one who is
-- logged in. A file exported is the cells that `csv.writer` is given.
pub mod Archive
pub mod Report
use Prim.Native.Char.{char}
use vault.Base.{
  ℕ, Bool, true, false, not, ◌&&◌, ◌||◌, Option, none, some, String, List, [], ◌∷◌, ◌++◌, map, find,
  any, ltb, ◌==◌, if◌then◌else◌, str_eq, where_rows, Result, ok, err, ◌>>=◌, ◌>>◌, raise_if,
  not_found, forbidden, item_invalid,
}
use vault.Decimal.{Context, Decimal}
use vault.Text.{startswith}
use vault.Core.Models.{Currency}
use vault.Core.Ordering.{Collation}
use vault.Investments.Holdings.{sort}
use vault.Tax.Models.{
  TaxableCategory, ReturnTaxTreatment, TaxYear, TaxYearItem, TaxDeduction, TaxAllowance,
  TaxAdjustment, TaxRule,
}
use vault.Tax.Checks.{is_filed, clean_deduction, clean_allowance, clean_adjustment, clean_rule}
use vault.Tax.Aggregation.Models.{
  InterestTaxLine, DividendTaxLine, CapitalGainTaxLine, TaxPaymentLine, TaxYearSummary,
}
use vault.Tax.Aggregation.Build.{TaxTables, owned_by, for_year, build_tax_year_summary}
use vault.Database.{Database}

-- `get_object_or_404`
abbrev pub found : {A : Type 0} → Option A → Result A
found none = err not_found
found (some a) = ok a

-- `get_object_or_404(TaxYear, pk=pk, owner=user)`
unfoldable pub get_year : ℕ → ℕ → List TaxYear → Result TaxYear
get_year user pk years = found (find (λ (y : TaxYear). (y.pk == pk) && (y.owner_id == user)) years)

-- The gate before every change of a year, its items and its rules: `TaxYearOwnedMixin.dispatch`.
unfoldable pub editable_year : ℕ → ℕ → List TaxYear → Result TaxYear
unfolding get_year
editable_year user pk years = do
  y ← get_year user pk years
  raise_if (is_filed y.status) forbidden >> ok y

-- `archive_tax_treatment`
unfoldable pub archive_tax_treatment :
    ℕ → ℕ → List ReturnTaxTreatment → Result (List ReturnTaxTreatment)
archive_tax_treatment user pk treatments = do
  t ← found (find (λ (t : ReturnTaxTreatment). (t.pk == pk) && (t.owner_id == user)) treatments)
  ok (
      map (λ (x : ReturnTaxTreatment). if x.pk == t.pk then record t { active = false } else x)
        treatments)

pub data ItemKind : Type 0 where
  deductions_kind allowances_kind adjustments_kind rules_kind : ItemKind

unfoldable pub kind_of : String → Option ItemKind
kind_of kind =
    if str_eq kind "deduction"
    then some deductions_kind
    else if str_eq kind "allowance"
    then some allowances_kind
    else if str_eq kind "adjustment"
    then some adjustments_kind
    else if str_eq kind "rule"
    then some rules_kind
    else none

-- `get_object_or_404(model, pk=pk, owner=user, tax_year=tax_year)`, for rules and for the others.
abbrev pub is_item_of : ℕ → TaxYear → ℕ → TaxYearItem → Bool
is_item_of user y pk i = (i.pk == pk) && ((i.owner_id == user) && (i.tax_year.pk == y.pk))

abbrev pub is_rule_of : ℕ → TaxYear → ℕ → TaxRule → Bool
is_rule_of user y pk r = (r.pk == pk) && (owned_by r.owner_id user && for_year r.tax_year y)

-- The item as it is read, with the year as it is now, and set inactive.
abbrev pub archived : TaxYear → TaxYearItem → TaxYearItem
archived y i = record i { tax_year = y; active = false }

-- `save` after `full_clean`
abbrev pub checked : {M A : Type 0} → List M → A → Result A
checked [] a = ok a
checked (m ∷ ms) a = err item_invalid

-- A row written under its key.
abbrev pub put_row : {A : Type 0} → (A → ℕ) → A → List A → List A
put_row key a [] = []
put_row key a (x ∷ xs) = (if key x == key a then a else x) ∷ put_row key a xs

unfoldable pub archive_kind : ℕ → TaxYear → ItemKind → ℕ → TaxTables → Result TaxTables
unfolding clean_deduction clean_allowance clean_adjustment clean_rule
archive_kind user y deductions_kind pk tables = do
  d ← found (find (λ (x : TaxDeduction). is_item_of user y pk x.item) tables.deductions)
  let row = record d { item = archived y d.item }
  checked (clean_deduction row) (record tables {
    deductions = put_row (λ (x : TaxDeduction). x.item.pk) row tables.deductions;
  })
archive_kind user y allowances_kind pk tables = do
  a ← found (find (λ (x : TaxAllowance). is_item_of user y pk x.item) tables.allowances)
  let row = record a { item = archived y a.item }
  checked (clean_allowance row) (record tables {
    allowances = put_row (λ (x : TaxAllowance). x.item.pk) row tables.allowances;
  })
archive_kind user y adjustments_kind pk tables = do
  a ← found (find (λ (x : TaxAdjustment). is_item_of user y pk x.item) tables.adjustments)
  let row = record a { item = archived y a.item }
  checked (clean_adjustment row) (record tables {
    adjustments = put_row (λ (x : TaxAdjustment). x.item.pk) row tables.adjustments;
  })
archive_kind user y rules_kind pk tables = do
  r ← found (find (is_rule_of user y pk) tables.rules)
  let (row, messages) = clean_rule (record r { tax_year = some y; active = false })
  checked messages (record tables { rules = put_row (λ (x : TaxRule). x.pk) row tables.rules })

-- `archive_tax_item`
unfoldable pub archive_tax_item : ℕ → ℕ → String → ℕ → List TaxYear → TaxTables → Result TaxTables
unfolding editable_year kind_of archive_kind
archive_tax_item user year_pk kind pk years tables = do
  y ← editable_year user year_pk years
  item_kind ← found (kind_of kind)
  archive_kind user y item_kind pk tables

-- A cell of the file: `csv.writer` prints a date and a number as `str` does.
pub data Cell : Type 0 where
  text_cell : String → Cell
  date_cell : ℕ → Cell
  number_cell : Decimal → Cell

unfoldable pub begins_formula : String → Bool
unfolding startswith
begins_formula text = any (startswith text) ("=" ∷ "+" ∷ "-" ∷ "@" ∷ [])

-- `_csv_safe`
unfoldable pub csv_safe : String → String
unfolding begins_formula
csv_safe text = if begins_formula text then String.◌∷◌ (char 39 tt) text else text

-- `_csv_amount`
abbrev pub csv_amount : Option Decimal → Cell
csv_amount none = text_cell ""
csv_amount (some amount) = number_cell amount

abbrev pub category_value : TaxableCategory → String
category_value TaxableCategory.interest = "INTEREST"
category_value TaxableCategory.dividend = "DIVIDEND"
category_value TaxableCategory.capital_gain = "CAPITAL_GAIN"
category_value TaxableCategory.employment_income = "EMPLOYMENT_INCOME"
category_value TaxableCategory.other_income = "OTHER_INCOME"
category_value TaxableCategory.overall = "OVERALL"

-- A row: section, date, source, category, original amount, currency and reporting amount.
unfoldable pub event_row : String → ℕ → String → String → Decimal → Currency → Cell → List Cell
unfolding csv_safe
event_row section date source category amount currency reporting =
    text_cell section
    ∷ date_cell date
    ∷ text_cell (csv_safe source)
    ∷ text_cell category
    ∷ number_cell amount
    ∷ text_cell currency.code
    ∷ reporting
    ∷ []

unfoldable pub interest_row : InterestTaxLine → List Cell
unfolding event_row
interest_row line =
    event_row "interest" line.date line.description "INTEREST" line.original_amount line.currency
      (csv_amount line.reporting_amount)

unfoldable pub dividend_row : DividendTaxLine → List Cell
unfolding event_row
dividend_row line =
    let item = line.investment_transaction in
    event_row "dividend" item.transaction.transaction_date item.security.symbol "DIVIDEND"
      line.gross_original item.currency (csv_amount line.gross_reporting)

unfoldable pub capital_gain_row : CapitalGainTaxLine → List Cell
unfolding event_row
capital_gain_row line =
    let item = line.event.investment_transaction in
    event_row "capital_gain" item.transaction.transaction_date item.security.symbol "CAPITAL_GAIN"
      line.event.gain item.currency (csv_amount line.gain_reporting)

unfoldable pub payment_row : TaxPaymentLine → List Cell
unfolding event_row
payment_row line =
    event_row "tax_payment" line.date line.description "TAX_PAYMENT" line.original_amount
      line.currency (csv_amount line.reporting_amount)

unfoldable pub deduction_row : TaxDeduction → List Cell
unfolding event_row
deduction_row item =
    event_row "deduction" item.date item.name (category_value item.category) item.amount
      item.currency (text_cell "")

abbrev pub summary_row : TaxYear → String → Decimal → List Cell
summary_row y label amount =
    text_cell "summary"
    ∷ text_cell ""
    ∷ text_cell label
    ∷ text_cell ""
    ∷ text_cell ""
    ∷ text_cell y.reporting_currency.code
    ∷ number_cell amount
    ∷ []

abbrev pub header_row : List Cell
header_row = map text_cell (
    "section" ∷ "date" ∷ "source" ∷ "category" ∷ "original_amount" ∷ "currency" ∷ "reporting_amount"
    ∷ [])

abbrev pub summary_rows : TaxYear → TaxYearSummary → List (List Cell)
summary_rows y summary =
    summary_row y "Estimated tax liability" summary.estimated_tax_liability
    ∷ summary_row y "Tax withheld" summary.tax_withheld
    ∷ summary_row y "Tax paid" summary.tax_paid
    ∷ summary_row y "Estimated due" summary.estimated_tax_due
    ∷ summary_row y "Estimated refund or credit" summary.estimated_refund_credit
    ∷ []

module _ ⦃o : Collation⦄ where
  -- The order of deductions: by date and name.
  abbrev pub deduction_before : TaxDeduction → TaxDeduction → Bool
  deduction_before a b = ltb a.date b.date || ((a.date == b.date) && o.less a.name b.name)

  unfoldable pub deductions_of : ℕ → TaxYear → List TaxDeduction → List TaxDeduction
  unfolding sort
  deductions_of user y deductions = sort deduction_before (
      where_rows
        (λ (d : TaxDeduction).
          (d.item.owner_id == user) && ((d.item.tax_year.pk == y.pk) && d.item.active))
        deductions)

  -- The rows between the header and the summary.
  unfoldable pub line_rows : TaxYearSummary → List TaxDeduction → List (List Cell)
  unfolding interest_row dividend_row capital_gain_row payment_row deduction_row
  line_rows summary deductions =
      map interest_row summary.interest_lines
      ++ (map dividend_row summary.dividend_lines
          ++ (map capital_gain_row summary.capital_gain_lines
              ++ (map payment_row summary.tax_payment_lines ++ map deduction_row deductions)))

  module _ ⦃c : Context⦄ where
    -- `export_tax_year_csv` on the day `today`
    unfoldable pub export_tax_year_csv :
        ℕ → ℕ → ℕ → List TaxYear → TaxTables → Database → Result (List (List Cell))
    unfolding get_year build_tax_year_summary deductions_of line_rows
    export_tax_year_csv user today pk years tables db = do
      y ← get_year user pk years
      summary ← build_tax_year_summary db tables today y
      ok (
          header_row
          ∷ (line_rows summary (deductions_of user y tables.deductions) ++ summary_rows y summary))
