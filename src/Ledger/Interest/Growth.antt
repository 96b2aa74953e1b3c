-- ===== src/Ledger/Interest/Growth.antt =====
-- Simple interest of ledger/calculations/interest.py: its error and its sign.
use vault.Base.{
  ℕ, ◌^◌, ◌≤◌, ◌<◌, int_laws, ◌≡◌, ◌↔◌, ltb, ◌≤ℤ◌, arith, ok, err, ok-injective, subst, Bool-cases,
  inl, inr, Error, dates_out_of_order,
}
use vault.Decimal.{Context, Decimal, decimal_zero, whole, ◌⊗◌}
use vault.Decimal.Laws.{⊗_nonneg, quotient_nonneg, whole_nonneg, whole-ne_zero, divide-ne_zero}
use native.Mathlib.Nat.{mul-le-mul_right}
use vault.Ledger.Interest.{days_between, calculate_simple_interest}

module _ ⦃c : Context⦄ where
  -- Simple interest fails exactly when the end is before the start, and with that error only.
  pub calculate_simple_interest-err :
      (principal rate : Decimal) (start_date end_date : ℕ) (e : Error)
      → (calculate_simple_interest principal rate start_date end_date ≡ err e)
        ↔ ((end_date < start_date) × (e ≡ dates_out_of_order))
  unfolding calculate_simple_interest
  calculate_simple_interest-err principal rate start_date end_date e =
      elim (Bool-cases (ltb end_date start_date)) [
        | inl late ↦ rw late (λ h. (ground arith, cc), λ h. cc (h.1))
        | inr fine ↦
            rw
              (
                fine,
                divide-ne_zero (principal ⊗ rate ⊗ days_between start_date end_date) (whole 365)
                    (whole-ne_zero 365 (omega arith)),
              )
              (λ h. absurd (cc), λ h. absurd (ground arith))
      ]

  pub days_between_nonneg :
      (start_date end_date : ℕ)
      → start_date ≤ end_date
      → decimal_zero ≤ℤ days_between start_date end_date
  unfolding whole
  days_between_nonneg start_date end_date h =
      let units = mul-le-mul_right (10 ^ c.places) h in omega (int_laws, arith, units)

  -- Simple interest on a principal and at a rate that are not negative is not negative.
  pub calculate_simple_interest_nonneg :
      (principal rate : Decimal) (start_date end_date : ℕ) (interest : Decimal)
      → decimal_zero ≤ℤ principal
      → decimal_zero ≤ℤ rate
      → calculate_simple_interest principal rate start_date end_date ≡ ok interest
      → decimal_zero ≤ℤ interest
  unfolding calculate_simple_interest
  calculate_simple_interest_nonneg principal rate start_date end_date interest h k e =
      elim (Bool-cases (ltb end_date start_date)) [
        | inl late ↦ absurd (cc (rw late at e))
        | inr fine ↦
            let amount = principal ⊗ rate ⊗ days_between start_date end_date in
            subst (λ (x : Decimal). decimal_zero ≤ℤ x)
              (ok-injective _ _ (
                rw (divide-ne_zero amount (whole 365) (whole-ne_zero 365 (omega arith))) at
                  (rw fine at e)))
              (quotient_nonneg amount (whole 365)
                (⊗_nonneg _ _ (⊗_nonneg principal rate h k)
                  (days_between_nonneg start_date end_date (ground arith)))
                (whole_nonneg 365))
      ]
