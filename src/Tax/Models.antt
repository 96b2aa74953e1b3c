-- ===== src/Tax/Models.antt =====
-- tax/models.py: return-tax treatments, tax years, their manual items and rules, with the checks
-- that `clean` makes. A check returns the messages that it would raise; none means that it passes.
-- Foreign keys that may still be empty on an unsaved form are options.
use vault.Base.{ℕ, Bool, Option, String}
use vault.Decimal.{Decimal}
use vault.Core.Models.{Currency}

pub data TaxCategory : Type 0 where
  interest dividend capital_gain capital_loss employment_income other_income : TaxCategory
  deduction allowance withholding_tax tax_payment : TaxCategory

pub data TaxableCategory : Type 0 where
  interest dividend capital_gain employment_income other_income overall : TaxableCategory

pub data TreatmentType : Type 0 where
  no_tax withholding year_end exempt custom : TreatmentType

pub record ReturnTaxTreatment : Type 0 where
  pub pk : ℕ
  pub owner_id : ℕ
  pub name : String
  pub treatment_type : TreatmentType
  pub tax_rate : Option Decimal
  pub jurisdiction : String
  pub tax_deducted_at_source : Bool
  pub notes : String
  pub active : Bool

pub data TaxYearStatus : Type 0 where
  opened closed filed archived : TaxYearStatus

pub record TaxYear : Type 0 where
  pub pk : ℕ
  pub owner_id : ℕ
  pub name : String
  pub jurisdiction : String
  pub start_date : ℕ
  pub end_date : ℕ
  pub reporting_currency : Currency
  pub status : TaxYearStatus
  pub notes : String

-- The fields of the abstract `TaxYearItem`.
pub record TaxYearItem : Type 0 where
  pub pk : ℕ
  pub owner_id : ℕ
  pub tax_year : TaxYear
  pub active : Bool

pub record TaxDeduction : Type 0 where
  pub item : TaxYearItem
  pub name : String
  pub category : TaxableCategory
  pub amount : Decimal
  pub currency : Currency
  pub date : ℕ
  pub notes : String

pub record TaxAllowance : Type 0 where
  pub item : TaxYearItem
  pub name : String
  pub category : TaxableCategory
  pub amount : Decimal
  pub currency : Currency
  pub notes : String

pub record TaxAdjustment : Type 0 where
  pub item : TaxYearItem
  pub category : TaxCategory
  pub applies_to : Option TaxableCategory
  pub description : String
  pub amount : Decimal
  pub currency : Currency
  pub date : ℕ
  pub notes : String

pub data RuleType : Type 0 where
  flat_rate threshold allowance deduction : RuleType

pub record TaxRule : Type 0 where
  pub pk : ℕ
  pub owner_id : Option ℕ
  pub tax_year : Option TaxYear
  pub jurisdiction : String
  pub rule_type : RuleType
  pub category : TaxableCategory
  pub name : String
  pub rate : Option Decimal
  pub threshold : Option Decimal
  pub lower_bound : Option Decimal
  pub upper_bound : Option Decimal
  pub fixed_amount : Option Decimal
  pub priority : ℕ
  pub effective_from : Option ℕ
  pub effective_to : Option ℕ
  pub active : Bool
