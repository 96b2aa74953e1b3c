-- ===== src/Ledger/Interest.antt =====
-- ledger/calculations/interest.py: interest on an actual/365 day count. Decimal's power has a
-- fractional exponent here and is a parameter.
pub mod Growth
use vault.Base.{
  ℕ, ◌-ℤ◌, Option, none, some, String, ltb, if◌then◌else◌, str_eq, Result, ok, err, ◌>>=◌,
  dates_out_of_order, unsupported_frequency,
}
use vault.Decimal.{Context, Decimal, whole, ◌⊕◌, ◌⊖◌, ◌⊗◌, divide}

abbrev pub periods : String → Option ℕ
periods name =
    if str_eq name "daily"
    then some 365
    else if str_eq name "monthly"
    then some 12
    else if str_eq name "quarterly"
    then some 4
    else if str_eq name "annually"
    then some 1
    else none

module _ ⦃c : Context⦄ where
  -- `Decimal((end_date - start_date).days)`, which is negative where the end is before the start
  abbrev pub days_between : ℕ → ℕ → Decimal
  days_between start_date end_date = whole end_date -ℤ whole start_date

  unfoldable pub calculate_simple_interest : Decimal → Decimal → ℕ → ℕ → Result Decimal
  calculate_simple_interest principal annual_rate start_date end_date =
      if ltb end_date start_date
      then err dates_out_of_order
      else divide (principal ⊗ annual_rate ⊗ days_between start_date end_date) (whole 365)

  module _ (power : Decimal → Decimal → Decimal) where
    unfoldable pub compound : Decimal → Decimal → Decimal → ℕ → Result Decimal
    compound principal annual_rate days n = do
      years ← divide days (whole 365)
      per_period ← divide annual_rate (whole n)
      ok (principal ⊗ (power (whole 1 ⊕ per_period) (whole n ⊗ years) ⊖ whole 1))

    abbrev is_supported : Option ℕ → Result ℕ
    is_supported none = err unsupported_frequency
    is_supported (some n) = ok n

    unfoldable pub calculate_compound_interest : Decimal → Decimal → ℕ → ℕ → String → Result Decimal
    unfolding compound
    calculate_compound_interest principal annual_rate start_date end_date frequency = do
      n ← is_supported (periods frequency)
      if ltb end_date start_date
          then err dates_out_of_order
          else compound principal annual_rate (days_between start_date end_date) n
