-- ===== src/Tax/Aggregation/Reductions.antt =====
-- tax/services/aggregation.py: manual reductions, overall reductions and rules, on the breakdown by
-- category. A rule touches the rows of its targets one by one, each row on its own.
pub mod Bounds
use vault.Base.{
  ℕ, Bool, true, false, not, ◌||◌, Option, none, some, List, [], ◌∷◌, ◌++◌, if◌then◌else◌, leb_ℤ,
  get_or, map, map_result, neg, Result, ok, err, ◌>>=◌,
}
use vault.Decimal.{Context, Decimal, decimal_zero, whole, ◌⊕◌, ◌⊖◌, ◌⊗◌, quotient, min, max}
use vault.Investments.Holdings.{required}
use vault.Tax.Models.{TaxableCategory, overall, TaxRule, RuleType, flat_rate, threshold, allowance}
use vault.Tax.Aggregation.Models.{CategoryTaxBreakdown, Breakdowns, RuleTrace, same_category}

-- The attribute that an overall reduction is booked under.
pub data Attribute : Type 0 where
  allowances deductions : Attribute

abbrev pub is_flat_rate : RuleType → Bool
is_flat_rate flat_rate = true
is_flat_rate _ = false

-- `rule.threshold if ... else rule.fixed_amount`
abbrev pub reduction_limit : RuleType → TaxRule → Option Decimal
reduction_limit threshold r = r.threshold
reduction_limit _ r = r.fixed_amount

-- The rows that a rule applies to.
abbrev pub is_target : TaxRule → CategoryTaxBreakdown → Bool
is_target r row = same_category r.category overall || same_category r.category row.category

module _ ⦃c : Context⦄ where
  abbrev pub book : Attribute → Decimal → CategoryTaxBreakdown → CategoryTaxBreakdown
  book allowances used row = record row {
    taxable_amount = row.taxable_amount ⊖ used;
    allowances = row.allowances ⊕ used;
  }
  book deductions used row = record row {
    taxable_amount = row.taxable_amount ⊖ used;
    deductions = row.deductions ⊕ used;
  }

  -- What a reduction of the remaining amount can use of a row.
  abbrev pub used_of : CategoryTaxBreakdown → Decimal → Decimal
  used_of row remaining = min (max decimal_zero row.taxable_amount) remaining

  -- `_apply_overall_reduction`
  unfoldable pub apply_overall_reduction : Attribute → Decimal → Breakdowns → Breakdowns
  apply_overall_reduction attribute remaining [] = []
  apply_overall_reduction attribute remaining (row ∷ rows) =
      let used = used_of row remaining in
      let rest = apply_overall_reduction attribute (remaining ⊖ used) rows in
      if leb_ℤ remaining decimal_zero then row ∷ rows else book attribute used row ∷ rest

  -- The loop over `breakdowns.items()` that applies the manual reductions of the categories.
  unfoldable pub apply_manual :
      (TaxableCategory → Decimal)
      → (TaxableCategory → Decimal)
      → CategoryTaxBreakdown
      → CategoryTaxBreakdown
  apply_manual manual_allowances manual_deductions row =
      let basis = max decimal_zero (row.gross_amount ⊕ row.losses) in
      let allowance = min basis (manual_allowances row.category) in
      let reduced = basis ⊖ allowance in
      let deduction = min reduced (manual_deductions row.category) in
      record row {
        allowances = row.allowances ⊕ allowance;
        deductions = row.deductions ⊕ deduction;
        taxable_amount = reduced ⊖ deduction;
      }

  abbrev book_reduction : RuleType → Decimal → CategoryTaxBreakdown → CategoryTaxBreakdown
  book_reduction allowance used row = book allowances used row
  book_reduction _ used row = book deductions used row

  reduce : TaxRule → CategoryTaxBreakdown → CategoryTaxBreakdown
  reduce r row =
      let reduction =
        min row.taxable_amount (get_or (reduction_limit r.rule_type r) decimal_zero) in
      let booked = book_reduction r.rule_type reduction row in
      record booked {
        applied_rules =
            row.applied_rules
            ++ record {
              rule = r;
              input_amount = row.taxable_amount;
              adjustment = neg reduction;
              output_amount = booked.taxable_amount;
              tax = decimal_zero;
            }
              ∷ [];
      }

  -- A threshold, allowance or deduction rule on one row.
  unfoldable pub apply_reduction_rule : TaxRule → CategoryTaxBreakdown → CategoryTaxBreakdown
  unfolding reduce
  apply_reduction_rule r row = if is_target r row then reduce r row else row

  tax_row : TaxRule → Decimal → CategoryTaxBreakdown → CategoryTaxBreakdown
  tax_row r rate row =
      let tax = quotient (row.taxable_amount ⊗ rate) (whole 100) in
      record row {
        estimated_tax = row.estimated_tax ⊕ tax;
        applied_rules =
            row.applied_rules
            ++ record {
              rule = r;
              input_amount = row.taxable_amount;
              adjustment = decimal_zero;
              output_amount = row.taxable_amount;
              tax = tax;
            }
              ∷ [];
      }

  -- A flat-rate rule on one row; a rule without a rate raises `TypeError`.
  unfoldable pub apply_flat_rule : TaxRule → CategoryTaxBreakdown → Result CategoryTaxBreakdown
  unfolding tax_row
  apply_flat_rule r row =
      if is_target r row then (required r.rate >>= λ rate. ok (tax_row r rate row)) else ok row

  -- The two loops over the rules, which come in the order of priority and key.
  unfoldable pub apply_reduction_rules : List TaxRule → Breakdowns → Breakdowns
  apply_reduction_rules [] rows = rows
  apply_reduction_rules (r ∷ rules) rows =
      apply_reduction_rules rules
        (if is_flat_rate r.rule_type then rows else map (apply_reduction_rule r) rows)

  unfoldable pub apply_flat_rules : List TaxRule → Breakdowns → Result Breakdowns
  apply_flat_rules [] rows = ok rows
  apply_flat_rules (r ∷ rules) rows =
      (if is_flat_rate r.rule_type then map_result (apply_flat_rule r) rows else ok rows)
      >>= λ rows'. apply_flat_rules rules rows'
