-- ===== src/Accounts/FixedTerm/Progress.antt =====
-- Projections, progress and status of accounts/services/fixed_term.py as the date moves on.
use Prim.Native.Nat.{min as min_ℕ}
use vault.Base.{
  ℕ, ◌+◌, ◌-◌, ◌≤◌, ◌<◌, ◌≡◌, ◌↔◌, ltb, ◌≤ℤ◌, arith, ok, >>=-eq-ok, ok-injective, subst, Bool-cases,
  inl, inr,
}
use vault.Decimal.{Context, Decimal, whole, divide}
use vault.Decimal.Laws.{min_le}
use vault.Accounts.Models.{FixedTermDetails}
use vault.Accounts.FixedTerm.{
  FixedTermProgress, Status, closed, planned, active, matured, accrued,
  calculate_fixed_term_progress, get_fixed_term_status,
}

module _ ⦃c : Context⦄ where
  -- What a progress satisfies on a date of a contract.
  abbrev pub IsProgress : FixedTermDetails → ℕ → FixedTermProgress → Type 0
  IsProgress details date p =
      (p.days_elapsed + p.days_remaining ≡ details.maturity_date - details.start_date)
      × (p.progress_percent ≤ℤ whole 100)

  -- Where a contract matures after it starts and its progress on a date is given, the days elapsed
  -- and the days remaining make up its duration, whether the date is before, in or after the
  -- contract, and the progress never exceeds 100 percent.
  pub calculate_fixed_term_progress-IsProgress :
      (power : Decimal → Decimal → Decimal) (details : FixedTermDetails) (date : ℕ)
      (p : FixedTermProgress)
      → details.start_date < details.maturity_date
      → calculate_fixed_term_progress power details date ≡ ok p
      → IsProgress details date p
  unfolding calculate_fixed_term_progress whole
  calculate_fixed_term_progress-IsProgress power details date p valid h =
      elim (Bool-cases (ltb date details.start_date)) [
        | inl e ↦
            subst (IsProgress details date) (ok-injective _ _ (rw e at h))
              (omega arith, omega arith)
        | inr e ↦
            let (interest, _, h') =
              >>=-eq-ok (accrued power details (min_ℕ date details.maturity_date)) _ (rw e at h) in
            let (percent, _, done) = >>=-eq-ok (divide _ _) _ h' in
            subst (IsProgress details date) (ok-injective _ _ done)
              (ground arith, (min_le percent (whole 100)).1)
      ]

-- The stages of a contract in their order; a closed one has no place among them.
abbrev pub stage : Status → ℕ
stage closed = 0
stage planned = 1
stage active = 2
stage matured = 3

-- The status of a contract never goes back as the date moves on: a closed one stays closed, and any
-- other goes from planned to active to matured.
pub get_fixed_term_status_mono :
    (details : FixedTermDetails) (date later : ℕ)
    → date ≤ later
    → stage (get_fixed_term_status details date) ≤ stage (get_fixed_term_status details later)
      × ((get_fixed_term_status details date ≡ closed)
          ↔ (get_fixed_term_status details later ≡ closed))
unfolding get_fixed_term_status
get_fixed_term_status_mono details date later h = ground arith
