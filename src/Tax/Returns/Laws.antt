-- ===== src/Tax/Returns/Laws.antt =====
-- The estimate of tax/services/returns.py: its parts, its refusal and its bounds.
use vault.Base.{
  ◌<◌, ◌≡◌, ◌↔◌, inl, inr, refl, Bool, true, false, Option, ◌<ℤ◌, ◌≤ℤ◌, arith, ltb_ℤ, if◌then◌else◌,
  ok, err, return_negative, Bool-cases, ok-injective, subst,
}
use vault.Decimal.{Context, Decimal, decimal_zero, whole}
use vault.Decimal.Laws.{
  IsExact, ⊗_nonneg, ⊖_nonneg, ⊖-le, quotient_nonneg, whole_nonneg, percentage-le,
}
use vault.Tax.Models.{TreatmentType, ReturnTaxTreatment}
use vault.Tax.Checks.{is_taxable_type}
use vault.Tax.Returns.{
  ReturnTaxResult, calculate_return_tax, split_tax, treatment_type_of, rate_of, deducted_at_source,
}

-- Where each treatment puts the tax: at once, later, or nowhere.
abbrev pub IsSplit : TreatmentType → Bool → Decimal → Decimal → Decimal → Type 0
IsSplit TreatmentType.withholding at_source tax withheld later =
    (withheld ≡ tax) × (later ≡ decimal_zero)
IsSplit TreatmentType.year_end at_source tax withheld later =
    (withheld ≡ decimal_zero) × (later ≡ tax)
IsSplit TreatmentType.custom true tax withheld later = (withheld ≡ tax) × (later ≡ decimal_zero)
IsSplit TreatmentType.custom false tax withheld later = (withheld ≡ decimal_zero) × (later ≡ tax)
IsSplit TreatmentType.no_tax at_source tax withheld later =
    (tax ≡ decimal_zero) × (withheld ≡ decimal_zero) × (later ≡ decimal_zero)
IsSplit TreatmentType.exempt at_source tax withheld later =
    (tax ≡ decimal_zero) × (withheld ≡ decimal_zero) × (later ≡ decimal_zero)

split_tax-IsSplit :
    (t : TreatmentType) (b : Bool) (tax : Decimal)
    → (is_taxable_type t ≡ false → tax ≡ decimal_zero)
    → IsSplit t b tax (split_tax t b tax).0 (split_tax t b tax).1
split_tax-IsSplit TreatmentType.withholding b tax h = (refl, refl)
split_tax-IsSplit TreatmentType.year_end b tax h = (refl, refl)
split_tax-IsSplit TreatmentType.custom true tax h = (refl, refl)
split_tax-IsSplit TreatmentType.custom false tax h = (refl, refl)
split_tax-IsSplit TreatmentType.no_tax b tax h = (h refl, refl, refl)
split_tax-IsSplit TreatmentType.exempt b tax h = (h refl, refl, refl)

module _ ⦃c : Context⦄ where
  -- What a result satisfies: each treatment puts the tax where it belongs, and the tax and the net
  -- return lie between zero and the gross return.
  pub record IsAccounted (treatment : Option ReturnTaxTreatment) (gross : Decimal)
      (r : ReturnTaxResult) : Type 0 where
    pub split :
        IsSplit
          (treatment_type_of treatment)
          (deducted_at_source treatment)
          r.estimated_tax
          r.tax_withheld
          r.estimated_tax_due_later
    pub tax : (decimal_zero ≤ℤ r.estimated_tax) × (r.estimated_tax ≤ℤ gross)
    pub net : (decimal_zero ≤ℤ r.net_return) × (r.net_return ≤ℤ gross)

  -- The estimate is refused exactly when the gross return is negative.
  pub calculate_return_tax-err :
      (gross : Decimal) (treatment : Option ReturnTaxTreatment)
      → (calculate_return_tax gross treatment ≡ err return_negative) ↔ (gross <ℤ decimal_zero)
  unfolding calculate_return_tax
  calculate_return_tax-err gross treatment = elim (Bool-cases (ltb_ℤ gross decimal_zero)) [
    | inl e ↦ rw e (λ h. ground arith, λ h. refl)
    | inr e ↦ rw e (λ h. absurd (cc), λ h. absurd (ground arith))
  ]

  untaxed :
      (t : TreatmentType) (tax : Decimal)
      → is_taxable_type t ≡ false
      → (if is_taxable_type t then tax else decimal_zero) ≡ decimal_zero
  untaxed t tax h = rw h refl

  taxed-between :
      (b : Bool) (a gross : Decimal)
      → decimal_zero ≤ℤ gross
      → decimal_zero ≤ℤ a
      → a ≤ℤ gross
      → (decimal_zero ≤ℤ (if b then a else decimal_zero))
        × ((if b then a else decimal_zero) ≤ℤ gross)
  taxed-between true a gross g h k = (h, k)
  taxed-between false a gross g h k = (omega arith, g)

  -- Under a context of at least one digit that holds the gross return exactly, at a rate from 0 to
  -- 100 percent, an estimate that is not refused puts the tax where its treatment belongs: at once
  -- for a withholding tax and a custom tax deducted at source, later for a year-end tax and any
  -- other custom tax, and no tax at all without a tax or where it is exempt. The tax and the net
  -- return both lie between zero and the gross return.
  pub calculate_return_tax-IsAccounted :
      (gross : Decimal) (treatment : Option ReturnTaxTreatment) (r : ReturnTaxResult)
      → 0 < c.prec
      → IsExact gross
      → decimal_zero ≤ℤ rate_of treatment
      → rate_of treatment ≤ℤ whole 100
      → calculate_return_tax gross treatment ≡ ok r
      → IsAccounted treatment gross r
  unfolding calculate_return_tax
  calculate_return_tax-IsAccounted gross treatment r digits exact low high h =
      elim (Bool-cases (ltb_ℤ gross decimal_zero)) [
        | inl e ↦ absurd (cc (rw e at h))
        | inr e ↦
            let positive : decimal_zero ≤ℤ gross = ground arith in
            let rate = rate_of treatment in
            let (least, most) =
              taxed-between (is_taxable_type (treatment_type_of treatment)) _ gross positive
                (⊗_nonneg gross _ positive
                  (quotient_nonneg rate (whole 100) low (whole_nonneg 100)))
                (percentage-le gross rate digits exact positive low high) in
            subst (IsAccounted treatment gross) (ok-injective _ _ (rw e at h)) (record {
              split =
                  split_tax-IsSplit (treatment_type_of treatment) (deducted_at_source treatment) _
                    (untaxed (treatment_type_of treatment) _);
              tax = (least, most);
              net = (⊖_nonneg gross _ most, ⊖-le gross _ digits exact least);
            })
      ]
