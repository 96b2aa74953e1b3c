-- ===== src/Tax/Aggregation/Build/Outcome.antt =====
-- The summary of tax/services/aggregation.py as a whole: its rows, its balance and its completeness.
use vault.Base.{
  ℕ, ◌≡◌, ◌≢◌, ◌↔◌, ◌⊎◌, refl, List, [], ◌∷◌, ◌++◌, ◌≤ℤ◌, neg, ◌-ℤ◌, arith, subst, All, All_of,
  All-map, ok, >>=-eq-ok, ok-injective, where_rows,
}
use vault.Decimal.{Context, Decimal, decimal_zero, ◌⊖◌, max}
use vault.Core.Ordering.{Collation}
use vault.Ledger.Models.{Transaction}
use vault.Investments.Holdings.{sort}
use vault.Tax.Models.{TaxYear, TaxRule}
use vault.Tax.Aggregation.Models.{Breakdowns, Reason, incomplete, complete, TaxYearSummary}
use vault.Tax.Aggregation.Reductions.{Attribute, apply_manual, apply_flat_rules}
use vault.Tax.Aggregation.Reductions.Bounds.{
  IsTaxable, apply_overall_reduction-IsTaxable, apply_manual-IsTaxable,
  apply_reduction_rules-IsTaxable, apply_flat_rules-IsTaxable,
}
use vault.Tax.Aggregation.Collect.{Collected}
use vault.Tax.Aggregation.Build.{
  TaxTables, sum_rows, reduce_rows, summarise, collect, build_tax_year_summary, unclassified_of,
  is_rule, rule_before, completeness_of, distinct_reasons, review_reasons,
}
use vault.Database.{Database}

reasons_empty :
    (found : List Reason) (reasons reviews : List Reason)
    → (completeness_of reasons reviews ≡ complete) ↔ (distinct_reasons [] (reasons ++ reviews) ≡ [])
unfolding distinct_reasons
reasons_empty found [] [] = (λ h. refl, λ h. refl)
reasons_empty found [] (r ∷ reviews) = (λ h. absurd (cc), λ h. absurd (cc))
reasons_empty found (r ∷ reasons) reviews = (λ h. absurd (cc), λ h. absurd (cc))

reasons_first :
    (reasons reviews : List Reason)
    → (completeness_of reasons reviews ≡ incomplete) ↔ (reasons ≢ [])
reasons_first [] [] = (λ h. absurd (cc), λ h. absurd (h refl))
reasons_first [] (r ∷ reviews) = (λ h. absurd (cc), λ h. absurd (h refl))
reasons_first (r ∷ reasons) reviews = (λ h e. cc, λ h. refl)

balance_of :
    (due : Decimal)
    → (decimal_zero ≤ℤ max decimal_zero due)
      × (decimal_zero ≤ℤ max decimal_zero (neg due))
      × ((max decimal_zero due ≡ decimal_zero) ⊎ (max decimal_zero (neg due) ≡ decimal_zero))
      × (max decimal_zero due -ℤ max decimal_zero (neg due) ≡ due)
unfolding max neg ◌-ℤ◌
balance_of due = ground arith

module _ ⦃c : Context⦄ where
  -- After the manual and overall reductions and the reducing rules no category has a negative taxable
  -- amount, whatever amounts, allowances, deductions and rules there are.
  pub reduce_rows-IsTaxable :
      (s : Collected) (rules : List TaxRule) → All IsTaxable (reduce_rows s rules)
  unfolding reduce_rows
  reduce_rows-IsTaxable s rules =
      let step = apply_manual s.manual_allowances s.manual_deductions in
      let manual =
        All-map {0, 0} (λ row. Unit) IsTaxable step s.rows
          (λ row h. apply_manual-IsTaxable s.manual_allowances s.manual_deductions row)
          (All_of {0} (λ row. Unit) s.rows (λ row. tt)) in
      apply_reduction_rules-IsTaxable rules _ (
        apply_overall_reduction-IsTaxable Attribute.deductions _ _
          (apply_overall_reduction-IsTaxable Attribute.allowances _ _ manual))

  -- A summary says that it is complete exactly when it gives no reason.
  pub summarise-complete :
      (y : TaxYear) (s : Collected) (unclassified : List Transaction) (rows : Breakdowns)
      → ((summarise y s unclassified rows).completeness ≡ complete)
        ↔ ((summarise y s unclassified rows).reasons ≡ [])
  unfolding summarise
  summarise-complete y s unclassified rows =
      reasons_empty [] s.reasons (review_reasons unclassified rows)

  -- A summary says that it is incomplete exactly when a rate or a cost basis was missing.
  pub summarise-incomplete :
      (y : TaxYear) (s : Collected) (unclassified : List Transaction) (rows : Breakdowns)
      → ((summarise y s unclassified rows).completeness ≡ incomplete) ↔ (s.reasons ≢ [])
  unfolding summarise
  summarise-incomplete y s unclassified rows =
      reasons_first s.reasons (review_reasons unclassified rows)

  -- What a summary says of the balance.
  abbrev pub IsSettled : TaxYearSummary → Type 0
  IsSettled t =
      (decimal_zero ≤ℤ t.estimated_tax_due)
      × (decimal_zero ≤ℤ t.estimated_refund_credit)
      × ((t.estimated_tax_due ≡ decimal_zero) ⊎ (t.estimated_refund_credit ≡ decimal_zero))
      × (t.estimated_tax_due -ℤ t.estimated_refund_credit
          ≡ t.estimated_tax_liability ⊖ t.tax_withheld ⊖ t.tax_paid)
      × (t.estimated_tax_liability ≡ sum_rows (λ row. row.estimated_tax) t.categories decimal_zero)

  -- A summary asks for a tax or grants a refund and never both, neither is negative, and their
  -- difference is the liability less what was withheld and paid.
  pub summarise-IsSettled :
      (y : TaxYear) (s : Collected) (unclassified : List Transaction) (rows : Breakdowns)
      → IsSettled (summarise y s unclassified rows)
  unfolding summarise
  summarise-IsSettled y s unclassified rows =
      let (due, refund, one, rest) = balance_of _ in (due, refund, one, rest, refl)

  module _ ⦃o : Collation⦄ where
    -- No summary that is built has a category with a negative taxable amount, whatever the tables,
    -- losses, allowances, deductions and rules.
    pub build_tax_year_summary-IsTaxable :
        (db : Database) (tables : TaxTables) (today : ℕ) (y : TaxYear) (t : TaxYearSummary)
        → build_tax_year_summary db tables today y ≡ ok t
        → All IsTaxable t.categories
    unfolding build_tax_year_summary summarise
    build_tax_year_summary-IsTaxable db tables today y t h =
        let rules = sort rule_before (where_rows (is_rule y) tables.rules) in
        let (s, _, h') = >>=-eq-ok (collect db tables today y) _ h in
        let (rows, taxed, done) = >>=-eq-ok (apply_flat_rules rules (reduce_rows s rules)) _ h' in
        subst (λ (x : TaxYearSummary). All IsTaxable x.categories) (ok-injective _ _ done)
          (apply_flat_rules-IsTaxable rules (reduce_rows s rules) rows
            (reduce_rows-IsTaxable s rules) taxed)

    -- Every summary that is built asks for a tax or grants a refund and never both, neither is
    -- negative, their difference is the liability less the tax withheld less the tax paid, and the
    -- liability is the sum of the estimated taxes of the categories.
    pub build_tax_year_summary-IsSettled :
        (db : Database) (tables : TaxTables) (today : ℕ) (y : TaxYear) (t : TaxYearSummary)
        → build_tax_year_summary db tables today y ≡ ok t
        → IsSettled t
    unfolding build_tax_year_summary
    build_tax_year_summary-IsSettled db tables today y t h =
        let rules = sort rule_before (where_rows (is_rule y) tables.rules) in
        let (s, _, h') = >>=-eq-ok (collect db tables today y) _ h in
        let (rows, taxed, done) = >>=-eq-ok (apply_flat_rules rules (reduce_rows s rules)) _ h' in
        subst IsSettled (ok-injective _ _ done)
          (summarise-IsSettled y s (unclassified_of db y) rows)
