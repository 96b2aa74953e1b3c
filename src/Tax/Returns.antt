-- ===== src/Tax/Returns.antt =====
-- tax/services/returns.py: the estimated tax on one gross return.
pub mod Laws
use vault.Base.{
  Bool, true, false, Option, none, some, if◌then◌else◌, ltb_ℤ, get_or, Result, ok, err,
  return_negative,
}
use vault.Decimal.{Context, Decimal, decimal_zero, whole, ◌⊖◌, ◌⊗◌, quotient}
use vault.Tax.Models.{TreatmentType, ReturnTaxTreatment}
use vault.Tax.Checks.{is_taxable_type}

pub record ReturnTaxResult : Type 0 where
  pub gross_return : Decimal
  pub estimated_tax : Decimal
  pub tax_withheld : Decimal
  pub estimated_tax_due_later : Decimal
  pub net_return : Decimal
  pub effective_tax_rate : Decimal

abbrev pub treatment_type_of : Option ReturnTaxTreatment → TreatmentType
treatment_type_of none = TreatmentType.no_tax
treatment_type_of (some t) = t.treatment_type

abbrev pub rate_of : Option ReturnTaxTreatment → Decimal
rate_of none = decimal_zero
rate_of (some t) = get_or t.tax_rate decimal_zero

abbrev pub deducted_at_source : Option ReturnTaxTreatment → Bool
deducted_at_source none = false
deducted_at_source (some t) = t.tax_deducted_at_source

-- (withheld, due later)
abbrev pub split_tax : TreatmentType → Bool → Decimal → Decimal × Decimal
split_tax TreatmentType.withholding at_source tax = (tax, decimal_zero)
split_tax TreatmentType.year_end at_source tax = (decimal_zero, tax)
split_tax TreatmentType.custom at_source tax =
    if at_source then (tax, decimal_zero) else (decimal_zero, tax)
split_tax TreatmentType.no_tax at_source tax = (decimal_zero, decimal_zero)
split_tax TreatmentType.exempt at_source tax = (decimal_zero, decimal_zero)

module _ ⦃c : Context⦄ where
  unfoldable pub calculate_return_tax : Decimal → Option ReturnTaxTreatment → Result ReturnTaxResult
  calculate_return_tax gross_return tax_treatment =
      let treatment_type = treatment_type_of tax_treatment in
      let rate_fraction = quotient (rate_of tax_treatment) (whole 100) in
      let estimated_tax =
        if is_taxable_type treatment_type then gross_return ⊗ rate_fraction else decimal_zero in
      let (withheld, due_later) =
        split_tax treatment_type (deducted_at_source tax_treatment) estimated_tax in
      if ltb_ℤ gross_return decimal_zero
      then err return_negative
      else ok (record {
        gross_return = gross_return;
        estimated_tax = estimated_tax;
        tax_withheld = withheld;
        estimated_tax_due_later = due_later;
        net_return = gross_return ⊖ estimated_tax;
        effective_tax_rate = if is_taxable_type treatment_type then rate_fraction else decimal_zero;
      })
