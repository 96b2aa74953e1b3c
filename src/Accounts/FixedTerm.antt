-- ===== src/Accounts/FixedTerm.antt =====
-- accounts/services/fixed_term.py: projections, progress and status of a fixed-term contract. The
-- source asks of a stored contract that it matures after it starts.
pub mod Progress
pub mod Projections
use Prim.Native.Nat.{min as min_ℕ}
use vault.Base.{
  ℕ, ◌+◌, ◌-◌, Bool, true, false, not, ◌&&◌, ◌||◌, Option, none, some, String, List, [], ◌∷◌, leb,
  ltb, ◌==◌, if◌then◌else◌, is_none, str_eq, leb_ℤ, ltb_ℤ, where_rows, Result, ok, err, ◌>>=◌, ◌>>◌,
  raise_if, principal_not_positive, rate_negative, maturity_not_after_start, frequency_missing,
  unsupported_method, upper, lower,
}
use vault.Decimal.{Context, Decimal, decimal_zero, whole, ◌⊕◌, ◌⊗◌, divide, min}
use vault.Accounts.Models.{
  FinancialAccount, FixedTermDetails, InterestMethod, simple, CompoundingFrequency,
}
use vault.Ledger.Interest.{calculate_simple_interest, calculate_compound_interest}

pub record FixedTermProjection : Type 0 where
  pub principal : Decimal
  pub gross_interest : Decimal
  pub maturity_value : Decimal
  pub duration_days : ℕ

pub record FixedTermProgress : Type 0 where
  pub accrued_interest : Decimal
  pub days_elapsed : ℕ
  pub days_remaining : ℕ
  pub progress_percent : Decimal

-- The texts that the columns hold.
abbrev pub method_name : InterestMethod → String
method_name simple = "SIMPLE"
method_name InterestMethod.compound = "COMPOUND"

abbrev pub frequency_name : CompoundingFrequency → String
frequency_name CompoundingFrequency.daily = "DAILY"
frequency_name CompoundingFrequency.monthly = "MONTHLY"
frequency_name CompoundingFrequency.quarterly = "QUARTERLY"
frequency_name CompoundingFrequency.annually = "ANNUALLY"

abbrev pub frequency_or_none : Option CompoundingFrequency → Option String
frequency_or_none none = none
frequency_or_none (some f) = some (frequency_name f)

pub data Status : Type 0 where
  closed planned active matured : Status

module _ ⦃c : Context⦄ (power : Decimal → Decimal → Decimal) where
  -- `not compounding_frequency` holds of `None` and of an empty text.
  interest_by : String → Decimal → Decimal → ℕ → ℕ → Option String → Result Decimal
  interest_by method principal rate start_date maturity_date frequency =
      if str_eq method "SIMPLE"
      then calculate_simple_interest principal rate start_date maturity_date
      else if str_eq method "COMPOUND"
      then elim frequency [
        | none ↦ err frequency_missing
        | some f ↦
            if str_eq f ""
            then err frequency_missing
            else calculate_compound_interest power principal rate start_date maturity_date (lower f)
      ]
      else err unsupported_method

  unfoldable pub calculate_fixed_term_projection :
      Decimal → Decimal → ℕ → ℕ → String → Option String → Result FixedTermProjection
  unfolding interest_by
  calculate_fixed_term_projection principal rate start_date maturity_date method frequency = do
    raise_if (leb_ℤ principal decimal_zero) principal_not_positive
    raise_if (ltb_ℤ rate decimal_zero) rate_negative
    raise_if (leb maturity_date start_date) maturity_not_after_start
    interest ← interest_by (upper method) principal rate start_date maturity_date frequency
    ok (record {
      principal = principal;
      gross_interest = interest;
      maturity_value = principal ⊕ interest;
      duration_days = maturity_date - start_date;
    })

  -- The interest up to a date: none on the first day, and no projection is asked for then.
  accrued : FixedTermDetails → ℕ → Result Decimal
  accrued details effective_date =
      if (effective_date - details.start_date) == 0 then ok decimal_zero else (do
        projection ←
            calculate_fixed_term_projection details.principal details.annual_interest_rate
              details.start_date effective_date (method_name details.interest_method)
              (frequency_or_none details.compounding_frequency)
        ok projection.gross_interest)

  unfoldable pub calculate_fixed_term_progress : FixedTermDetails → ℕ → Result FixedTermProgress
  unfolding accrued
  calculate_fixed_term_progress details as_of_date =
      let duration_days = details.maturity_date - details.start_date in
      let effective_date = min_ℕ as_of_date details.maturity_date in
      let elapsed = effective_date - details.start_date in
      if ltb as_of_date details.start_date
      then ok (record {
        accrued_interest = decimal_zero;
        days_elapsed = 0;
        days_remaining = duration_days;
        progress_percent = decimal_zero;
      })
      else (do
        accrued_interest ← accrued details effective_date
        percent ← divide (whole elapsed ⊗ whole 100) (whole duration_days)
        ok (record {
          accrued_interest = accrued_interest;
          days_elapsed = elapsed;
          days_remaining = details.maturity_date - as_of_date;
          progress_percent = min percent (whole 100);
        }))

unfoldable pub get_fixed_term_status : FixedTermDetails → ℕ → Status
get_fixed_term_status details as_of_date =
    if not details.account.active || not (is_none details.account.closing_date)
    then closed
    else if ltb as_of_date details.start_date
    then planned
    else if ltb as_of_date details.maturity_date
    then active
    else matured

unfoldable pub get_upcoming_maturities : ℕ → ℕ → ℕ → List FixedTermDetails → List FixedTermDetails
get_upcoming_maturities owner as_of_date days table =
    where_rows
      (λ d.
        (d.account.owner_id == owner)
        && (d.account.active
            && (leb as_of_date d.maturity_date && leb d.maturity_date (as_of_date + days))))
      table
