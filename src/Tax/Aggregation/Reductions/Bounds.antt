-- ===== src/Tax/Aggregation/Reductions/Bounds.antt =====
-- The sign of the taxable amounts under the reductions and rules of tax/services/aggregation.py.
use vault.Base.{
  ◌≡◌, List, [], ◌∷◌, leb_ℤ, ◌≤ℤ◌, map, map_result, ok, >>=-eq-ok, ok-injective, All, All-map,
  arith, Bool-cases, inl, inr, subst,
}
use vault.Decimal.{Context, Decimal, decimal_zero, ◌⊖◌, min, max}
use vault.Decimal.Laws.{⊖_nonneg, min_le}
use vault.Investments.Holdings.{required}
use vault.Tax.Models.{
  TaxableCategory, TaxRule, RuleType, flat_rate, threshold, allowance, deduction,
}
use vault.Tax.Aggregation.Models.{CategoryTaxBreakdown, Breakdowns}
use vault.Tax.Aggregation.Reductions.{
  Attribute, book_reduction, is_flat_rate, is_target, book, used_of, apply_overall_reduction,
  apply_manual, reduce, apply_reduction_rule, tax_row, apply_flat_rule, apply_reduction_rules,
  apply_flat_rules,
}

abbrev pub IsTaxable : CategoryTaxBreakdown → Type 0
IsTaxable row = decimal_zero ≤ℤ row.taxable_amount

module _ ⦃c : Context⦄ where
  used-le :
      (row : CategoryTaxBreakdown) (remaining : Decimal)
      → IsTaxable row
      → used_of row remaining ≤ℤ row.taxable_amount
  unfolding min max
  used-le row remaining h = ground arith

  book-IsTaxable :
      (a : Attribute) (used : Decimal) (row : CategoryTaxBreakdown)
      → used ≤ℤ row.taxable_amount
      → IsTaxable (book a used row)
  book-IsTaxable Attribute.allowances used row h = ⊖_nonneg row.taxable_amount used h
  book-IsTaxable Attribute.deductions used row h = ⊖_nonneg row.taxable_amount used h

  -- An overall reduction leaves no taxable amount below zero.
  pub apply_overall_reduction-IsTaxable :
      (a : Attribute) (remaining : Decimal) (rows : Breakdowns)
      → All IsTaxable rows
      → All IsTaxable (apply_overall_reduction a remaining rows)
  unfolding apply_overall_reduction
  apply_overall_reduction-IsTaxable a remaining [] h = tt
  apply_overall_reduction-IsTaxable a remaining (row ∷ rows) h =
      elim (Bool-cases (leb_ℤ remaining decimal_zero)) [
        | inl e ↦ rw e h
        | inr e ↦ rw e (
          book-IsTaxable a (used_of row remaining) row (used-le row remaining h.0),
          apply_overall_reduction-IsTaxable a (remaining ⊖ used_of row remaining) rows h.1,
        )
      ]

  -- A manual reduction starts from gross amount and losses, and leaves no less than zero.
  pub apply_manual-IsTaxable :
      (allowances deductions : TaxableCategory → Decimal) (row : CategoryTaxBreakdown)
      → IsTaxable (apply_manual allowances deductions row)
  unfolding apply_manual
  apply_manual-IsTaxable allowances deductions row =
      ⊖_nonneg _ _ (min_le _ (deductions row.category)).0

  book_reduction-IsTaxable :
      (kind : RuleType) (used : Decimal) (row : CategoryTaxBreakdown)
      → used ≤ℤ row.taxable_amount
      → IsTaxable (book_reduction kind used row)
  book_reduction-IsTaxable flat_rate used row h = ⊖_nonneg row.taxable_amount used h
  book_reduction-IsTaxable threshold used row h = ⊖_nonneg row.taxable_amount used h
  book_reduction-IsTaxable allowance used row h = ⊖_nonneg row.taxable_amount used h
  book_reduction-IsTaxable deduction used row h = ⊖_nonneg row.taxable_amount used h

  apply_reduction_rule-IsTaxable :
      (r : TaxRule) (row : CategoryTaxBreakdown)
      → IsTaxable row
      → IsTaxable (apply_reduction_rule r row)
  unfolding apply_reduction_rule reduce
  apply_reduction_rule-IsTaxable r row h = elim (Bool-cases (is_target r row)) [
    | inl e ↦ rw e (book_reduction-IsTaxable r.rule_type _ row (min_le row.taxable_amount _).0)
    | inr e ↦ rw e h
  ]

  -- The rules that reduce leave no taxable amount below zero.
  pub apply_reduction_rules-IsTaxable :
      (rules : List TaxRule) (rows : Breakdowns)
      → All IsTaxable rows
      → All IsTaxable (apply_reduction_rules rules rows)
  unfolding apply_reduction_rules
  apply_reduction_rules-IsTaxable [] rows h = h
  apply_reduction_rules-IsTaxable (r ∷ rules) rows h =
      elim (Bool-cases (is_flat_rate r.rule_type)) [
        | inl e ↦ rw e (apply_reduction_rules-IsTaxable rules rows h)
        | inr e ↦ rw e (
            apply_reduction_rules-IsTaxable rules (map (apply_reduction_rule r) rows) (
              All-map IsTaxable IsTaxable (apply_reduction_rule r) rows
                (apply_reduction_rule-IsTaxable r) h))
      ]

  apply_flat_rule-IsTaxable :
      (r : TaxRule) (row row' : CategoryTaxBreakdown)
      → IsTaxable row
      → apply_flat_rule r row ≡ ok row'
      → IsTaxable row'
  unfolding apply_flat_rule tax_row
  apply_flat_rule-IsTaxable r row row' h k = elim (Bool-cases (is_target r row)) [
    | inl e ↦
        let (rate, _, done) = >>=-eq-ok (required r.rate) _ (rw e at k) in
        subst IsTaxable (ok-injective _ _ done) h
    | inr e ↦ subst IsTaxable (ok-injective _ _ (rw e at k)) h
  ]

  flat_row-IsTaxable :
      (r : TaxRule) (rows rows' : Breakdowns)
      → All IsTaxable rows
      → map_result (apply_flat_rule r) rows ≡ ok rows'
      → All IsTaxable rows'
  flat_row-IsTaxable r [] rows' h k = subst (All IsTaxable) (ok-injective _ _ k) h
  flat_row-IsTaxable r (row ∷ rows) rows' h k =
      let (x, one, k') = >>=-eq-ok (apply_flat_rule r row) _ k in
      let (xs, rest, done) = >>=-eq-ok (map_result (apply_flat_rule r) rows) _ k' in
      subst (All IsTaxable) (ok-injective _ _ done)
        (apply_flat_rule-IsTaxable r row x h.0 one, flat_row-IsTaxable r rows xs h.1 rest)

  -- The flat rates leave the taxable amounts.
  pub apply_flat_rules-IsTaxable :
      (rules : List TaxRule) (rows rows' : Breakdowns)
      → All IsTaxable rows
      → apply_flat_rules rules rows ≡ ok rows'
      → All IsTaxable rows'
  unfolding apply_flat_rules
  apply_flat_rules-IsTaxable [] rows rows' h k = subst (All IsTaxable) (ok-injective _ _ k) h
  apply_flat_rules-IsTaxable (r ∷ rules) rows rows' h k =
      elim (Bool-cases (is_flat_rate r.rule_type)) [
        | inl e ↦
            let (xs, one, rest) = >>=-eq-ok (map_result (apply_flat_rule r) rows) _ (rw e at k) in
            apply_flat_rules-IsTaxable rules xs rows' (flat_row-IsTaxable r rows xs h one) rest
        | inr e ↦ apply_flat_rules-IsTaxable rules rows rows' h (rw e at k)
      ]
