-- ===== src/Tax/Aggregation/Build.antt =====
-- tax/services/aggregation.py: `build_tax_year_summary`. Rows come from the tables of accounts and of
-- tax items beside the database.
pub mod Outcome
use vault.Base.{
  ℕ, Bool, true, false, not, ◌&&◌, ◌||◌, Option, none, some, String, List, [], ◌∷◌, ◌++◌, leb, ltb,
  ◌==◌, if◌then◌else◌, str_eq, leb_ℤ, ltb_ℤ, neg, where_rows, any, map, Result, ok, err, ◌>>=◌,
}
use vault.Decimal.{Context, Decimal, decimal_zero, ◌⊕◌, ◌⊖◌, max}
use vault.Core.Ordering.{Collation}
use vault.Accounts.Models.{FinancialAccount, is_brokerage}
use vault.Ledger.Models.{Transaction, TransactionType, is_type}
use vault.Ledger.Services.{has_detail}
use vault.Investments.Holdings.{sort}
use vault.Tax.Models.{
  TaxableCategory, TaxYear, TaxYearItem, TaxDeduction, TaxAllowance, TaxAdjustment, TaxRule,
}
use vault.Tax.Aggregation.Models.{
  CategoryTaxBreakdown, Breakdowns, RuleTrace, Reason, rate_missing, cost_basis_missing,
  unclassified_transaction, no_flat_rate_rule, Completeness, incomplete, needs_review, complete,
  TaxYearSummary, category_order, empty_row, row_of, same_category,
}
use vault.Tax.Aggregation.Reductions.{
  Attribute, apply_overall_reduction, apply_manual, apply_reduction_rules, apply_flat_rules,
  is_flat_rate,
}
use vault.Tax.Aggregation.Collect.{
  Collected, in_year, is_interest, is_dividend, is_payment, add_interest, add_dividends, add_gains,
  add_payments,
}
use vault.Tax.Aggregation.Items.{add_allowances, add_deductions, add_adjustments}
use vault.Database.{Database}

pub record TaxTables : Type 0 where
  pub accounts : List FinancialAccount
  pub allowances : List TaxAllowance
  pub deductions : List TaxDeduction
  pub adjustments : List TaxAdjustment
  pub rules : List TaxRule

abbrev pub collected : Collected
collected = record {
  rows = map empty_row category_order;
  interest_lines = [];
  dividend_lines = [];
  capital_lines = [];
  payment_lines = [];
  reasons = [];
  tax_paid = decimal_zero;
  manual_allowances = λ category. decimal_zero;
  manual_deductions = λ category. decimal_zero;
  manual_withholding = decimal_zero;
}

-- `filter(owner=tax_year.owner, tax_year=tax_year, active=True)`
abbrev pub is_item : TaxYear → TaxYearItem → Bool
is_item y i = (i.owner_id == y.owner_id) && ((i.tax_year.pk == y.pk) && i.active)

abbrev pub owned_by : Option ℕ → ℕ → Bool
owned_by none owner = false
owned_by (some o) owner = o == owner

abbrev pub for_year : Option TaxYear → TaxYear → Bool
for_year none y = false
for_year (some x) y = x.pk == y.pk

abbrev pub is_rule : TaxYear → TaxRule → Bool
is_rule y r = owned_by r.owner_id y.owner_id && (for_year r.tax_year y && r.active)

abbrev pub rule_before : TaxRule → TaxRule → Bool
rule_before a b = ltb a.priority b.priority || ((a.priority == b.priority) && ltb a.pk b.pk)

abbrev oldest_first : Transaction → Transaction → Bool
oldest_first a b =
    ltb a.transaction_date b.transaction_date
    || ((a.transaction_date == b.transaction_date) && ltb a.pk b.pk)

-- The default order of transactions; keys are given in the order of creation.
abbrev newest_first : Transaction → Transaction → Bool
newest_first a b = oldest_first b a

abbrev is_unclassified : TaxYear → Transaction → Bool
is_unclassified y t =
    (t.owner_id == y.owner_id)
    && (in_year y t.transaction_date
        && (is_type t.transaction_type TransactionType.income
            || is_type t.transaction_type TransactionType.adjustment))

abbrev is_generic_dividend : Database → TaxYear → Transaction → Bool
is_generic_dividend db y t =
    (t.owner_id == y.owner_id)
    && (in_year y t.transaction_date
        && (is_type t.transaction_type TransactionType.dividend
            && not (has_detail t db.investments)))

unfoldable pub unclassified_of : Database → TaxYear → List Transaction
unfolding sort
unclassified_of db y =
    sort oldest_first (where_rows (is_unclassified y) db.transactions)
    ++ sort newest_first (where_rows (is_generic_dividend db y) db.transactions)

abbrev pub has_flat_trace : List RuleTrace → Bool
has_flat_trace = any (λ trace. is_flat_rate trace.rule.rule_type)

-- A row with a taxable amount that no flat-rate rule was applied to.
abbrev pub is_uncovered : CategoryTaxBreakdown → Bool
is_uncovered row = ltb_ℤ decimal_zero row.taxable_amount && not (has_flat_trace row.applied_rules)

abbrev pub review_reasons : List Transaction → Breakdowns → List Reason
review_reasons unclassified rows =
    map unclassified_transaction unclassified
    ++ map (λ row. no_flat_rate_rule row.category) (where_rows is_uncovered rows)

abbrev pub completeness_of : List Reason → List Reason → Completeness
completeness_of (r ∷ reasons) reviews = incomplete
completeness_of [] (r ∷ reviews) = needs_review
completeness_of [] [] = complete

-- Whether two reasons have one text.
abbrev same_reason : Reason → Reason → Bool
same_reason (rate_missing a b d) (rate_missing a' b' d') =
    str_eq a.code a'.code && (str_eq b.code b'.code && (d == d'))
same_reason (cost_basis_missing s) (cost_basis_missing t) = str_eq s t
same_reason (unclassified_transaction t) (unclassified_transaction t') =
    str_eq t.description t'.description && (t.transaction_date == t'.transaction_date)
same_reason (no_flat_rate_rule a) (no_flat_rate_rule b) = same_category a b
same_reason _ _ = false

-- `dict.fromkeys`: each text once, at its first place.
distinct_reasons : List Reason → List Reason → List Reason
distinct_reasons found [] = []
distinct_reasons found (r ∷ reasons) =
    let old = any (same_reason r) found in
    let rest = distinct_reasons (if old then found else r ∷ found) reasons in
    if old then rest else r ∷ rest

module _ ⦃c : Context⦄ where
  -- `sum((f(row) for row in rows), ZERO)`
  abbrev pub sum_rows : (CategoryTaxBreakdown → Decimal) → Breakdowns → Decimal → Decimal
  sum_rows f [] acc = acc
  sum_rows f (row ∷ rows) acc = sum_rows f rows (acc ⊕ f row)

  abbrev is_income_row : CategoryTaxBreakdown → Bool
  is_income_row row = not (same_category row.category TaxableCategory.capital_gain)

  -- Manual reductions by category, then the overall ones, then the rules but for the flat rates.
  unfoldable pub reduce_rows : Collected → List TaxRule → Breakdowns
  unfolding apply_overall_reduction apply_manual apply_reduction_rules
  reduce_rows s rules =
      let manual = map (apply_manual s.manual_allowances s.manual_deductions) s.rows in
      let allowed =
        apply_overall_reduction Attribute.allowances (s.manual_allowances TaxableCategory.overall)
          manual in
      let deducted =
        apply_overall_reduction Attribute.deductions (s.manual_deductions TaxableCategory.overall)
          allowed in
      apply_reduction_rules rules deducted

  abbrev pub due_of : Decimal → Decimal → Decimal → Decimal
  due_of estimated_tax tax_withheld tax_paid = estimated_tax ⊖ tax_withheld ⊖ tax_paid

  -- The summary from what was collected, the taxed rows and the unclassified transactions.
  unfoldable pub summarise : TaxYear → Collected → List Transaction → Breakdowns → TaxYearSummary
  unfolding distinct_reasons
  summarise y s unclassified rows =
      let reviews = review_reasons unclassified rows in
      let withheld = sum_rows (λ row. row.withholding) rows decimal_zero ⊕ s.manual_withholding in
      let estimated_tax = sum_rows (λ row. row.estimated_tax) rows decimal_zero in
      let due = due_of estimated_tax withheld s.tax_paid in
      let capital = row_of TaxableCategory.capital_gain rows in
      record {
        tax_year = y;
        categories = rows;
        interest_lines = s.interest_lines;
        dividend_lines = s.dividend_lines;
        capital_gain_lines = s.capital_lines;
        tax_payment_lines = s.payment_lines;
        gross_interest = (row_of TaxableCategory.interest rows).gross_amount;
        gross_dividends = (row_of TaxableCategory.dividend rows).gross_amount;
        realized_capital_gains = capital.gross_amount;
        realized_capital_losses = capital.losses;
        net_realized_gain = capital.gross_amount ⊕ capital.losses;
        deductions = sum_rows (λ row. row.deductions) rows decimal_zero;
        allowances = sum_rows (λ row. row.allowances) rows decimal_zero;
        tax_withheld = withheld;
        tax_paid = s.tax_paid;
        gross_taxable_income =
            sum_rows (λ row. row.gross_amount) (where_rows is_income_row rows) decimal_zero;
        estimated_tax_liability = estimated_tax;
        estimated_tax_due = max decimal_zero due;
        estimated_refund_credit = max decimal_zero (neg due);
        completeness = completeness_of s.reasons reviews;
        reasons = distinct_reasons [] (s.reasons ++ reviews);
        unclassified_transactions = unclassified;
      }

  module _ ⦃o : Collation⦄ (db : Database) (tables : TaxTables) (today : ℕ) (y : TaxYear) where
    -- The events of the year and the manual items, in the order in which the source reads them.
    unfoldable pub collect : Result Collected
    unfolding add_interest add_dividends add_gains add_payments add_allowances add_deductions
        add_adjustments
    collect = do
      a ← add_interest db today y collected (where_rows (is_interest db today y) db.entries)
      b ← add_dividends db today y a (where_rows (is_dividend db today y) db.investments)
      g ← add_gains db today y b (
          where_rows (λ x. (x.owner_id == y.owner_id) && is_brokerage x.account_type)
            tables.accounts)
      p ← add_payments db today y g (where_rows (is_payment db today y) db.entries)
      l ← add_allowances db today y p (where_rows (λ x. is_item y x.item) tables.allowances)
      d ← add_deductions db today y l (where_rows (λ x. is_item y x.item) tables.deductions)
      add_adjustments db today y d (where_rows (λ x. is_item y x.item) tables.adjustments)

    unfoldable pub build_tax_year_summary : Result TaxYearSummary
    unfolding collect reduce_rows summarise apply_flat_rules unclassified_of sort
    build_tax_year_summary =
        let rules = sort rule_before (where_rows (is_rule y) tables.rules) in
        do
          s ← collect
          rows ← apply_flat_rules rules (reduce_rows s rules)
          ok (summarise y s (unclassified_of db y) rows)
