-- ===== src/Accounts/FixedTerm/Projections.antt =====
-- The projection of accounts/services/fixed_term.py for a contract that accounts/models.py accepts.
use vault.Base.{
  ℕ, ◌+◌, ◌-◌, ◌<◌, ◌≡◌, refl, Bool, true, false, ◌&&◌, Option, none, some, List, [], ◌∷◌, ◌++◌,
  is_none, if◌then◌else◌, leb, ltb, str_eq, leb_ℤ, ltb_ℤ, ◌≤ℤ◌, ◌<ℤ◌, arith, ok, >>=-pass, upper,
  lower,
}
use vault.Decimal.{Context, Decimal, decimal_zero, whole, ◌⊕◌, ◌⊖◌, ◌⊗◌, quotient}
use vault.Decimal.Laws.{⊗_nonneg, quotient_nonneg, whole_nonneg, whole-ne_zero, divide-ne_zero}
use vault.Accounts.Models.{
  FixedTermDetails, InterestMethod, simple, CompoundingFrequency, clean_fixed_term, is_compound,
}
use vault.Accounts.FixedTerm.{
  FixedTermProjection, method_name, frequency_name, frequency_or_none,
  calculate_fixed_term_projection, interest_by,
}
use vault.Ledger.Interest.{
  days_between, calculate_simple_interest, calculate_compound_interest, compound,
}
use vault.Ledger.Interest.Growth.{days_between_nonneg}

append-nil : {A : Type 0} (xs ys : List A) → xs ++ ys ≡ [] → (xs ≡ []) × (ys ≡ [])
append-nil [] ys h = (refl, h)
append-nil (x ∷ xs) ys h = cc

no_message : {A : Type 0} (test : Bool) (m : A) → (if test then m ∷ [] else []) ≡ [] → test ≡ false
no_message true m h = cc
no_message false m h = refl

-- What a contract that passes its checks satisfies, of its dates and its frequency.
clean_fixed_term-dates :
    (d : FixedTermDetails)
    → clean_fixed_term d ≡ []
    → (d.start_date < d.maturity_date)
      × ((is_compound d.interest_method && is_none d.compounding_frequency) ≡ false)
unfolding clean_fixed_term
clean_fixed_term-dates d h =
    let (_, h1) = append-nil _ _ h in
    let (a, h2) = append-nil _ _ h1 in
    let (b, _) = append-nil _ _ h2 in
    let late = no_message (leb d.maturity_date d.start_date) _ a in (ground arith, no_message _ _ b)

-- How often a year interest is added.
abbrev pub times_a_year : CompoundingFrequency → ℕ
times_a_year CompoundingFrequency.daily = 365
times_a_year CompoundingFrequency.monthly = 12
times_a_year CompoundingFrequency.quarterly = 4
times_a_year CompoundingFrequency.annually = 1

module _ ⦃c : Context⦄ (power : Decimal → Decimal → Decimal) where
  -- The interest of n additions a year over a number of days.
  abbrev pub compounded : Decimal → Decimal → Decimal → ℕ → Decimal
  compounded principal rate days n =
      principal
      ⊗ (power (whole 1 ⊕ quotient rate (whole n)) (whole n ⊗ quotient days (whole 365)) ⊖ whole 1)

  -- The interest that each method asks for.
  abbrev pub IsInterest :
      InterestMethod → Option CompoundingFrequency → Decimal → Decimal → Decimal → Decimal → Type 0
  IsInterest simple frequency principal rate days interest =
      (interest ≡ quotient (principal ⊗ rate ⊗ days) (whole 365)) × (decimal_zero ≤ℤ interest)
  IsInterest InterestMethod.compound none principal rate days interest = ⊥
  IsInterest InterestMethod.compound (some f) principal rate days interest =
      interest ≡ compounded principal rate days (times_a_year f)

  compound-ok :
      (principal rate days : Decimal) (n : ℕ)
      → 0 < n
      → compound power principal rate days n ≡ ok (compounded principal rate days n)
  unfolding compound
  compound-ok principal rate days n h =
      rw
        (
          divide-ne_zero days (whole 365) (whole-ne_zero 365 (omega arith)),
          divide-ne_zero rate (whole n) (whole-ne_zero n h),
        )
        refl

  module _ (principal rate : Decimal) (start_date maturity_date : ℕ)
      (positive : decimal_zero <ℤ principal) (low : decimal_zero ≤ℤ rate)
      (later : start_date < maturity_date) where
    in_order : ltb maturity_date start_date ≡ false
    in_order = ground arith

    simple-ok :
        (interest : Decimal) × (calculate_simple_interest principal rate start_date maturity_date
          ≡ ok interest)
        × IsInterest simple none principal rate (days_between start_date maturity_date) interest
    unfolding calculate_simple_interest
    simple-ok =
        let days = days_between start_date maturity_date in
        (
          quotient (principal ⊗ rate ⊗ days) (whole 365),
          rw in_order (
              divide-ne_zero (principal ⊗ rate ⊗ days) (whole 365)
                (whole-ne_zero 365 (omega arith))),
          (
            refl,
            quotient_nonneg _ (whole 365)
                (⊗_nonneg _ days (⊗_nonneg principal rate (omega arith) low)
                  (days_between_nonneg start_date maturity_date (omega arith)))
                (whole_nonneg 365),
          ),
        )

    compound_interest-ok :
        (f : CompoundingFrequency)
        → calculate_compound_interest power principal rate start_date maturity_date
            (lower (frequency_name f))
          ≡ ok (compounded principal rate (days_between start_date maturity_date) (times_a_year f))
    unfolding calculate_compound_interest lower
    compound_interest-ok CompoundingFrequency.daily =
        rw in_order
          (compound-ok principal rate (days_between start_date maturity_date) 365 (omega arith))
    compound_interest-ok CompoundingFrequency.monthly =
        rw in_order
          (compound-ok principal rate (days_between start_date maturity_date) 12 (omega arith))
    compound_interest-ok CompoundingFrequency.quarterly =
        rw in_order
          (compound-ok principal rate (days_between start_date maturity_date) 4 (omega arith))
    compound_interest-ok CompoundingFrequency.annually =
        rw in_order
          (compound-ok principal rate (days_between start_date maturity_date) 1 (omega arith))

    named : (f : CompoundingFrequency) → str_eq (frequency_name f) "" ≡ false
    named CompoundingFrequency.daily = refl
    named CompoundingFrequency.monthly = refl
    named CompoundingFrequency.quarterly = refl
    named CompoundingFrequency.annually = refl

    interest_by-ok :
        (method : InterestMethod) (frequency : Option CompoundingFrequency)
        → (is_compound method && is_none frequency) ≡ false
        → (interest : Decimal) × (interest_by power
              (upper (method_name method))
              principal
              rate
              start_date
              maturity_date
              (frequency_or_none frequency)
            ≡ ok interest)
          × IsInterest method frequency principal rate
              (days_between start_date maturity_date)
              interest
    unfolding interest_by upper
    interest_by-ok simple frequency h = simple-ok
    interest_by-ok InterestMethod.compound none h = cc
    interest_by-ok InterestMethod.compound (some f) h =
        (_, rw (named f) (compound_interest-ok f), refl)

  -- What the projection of a contract says.
  pub record IsProjection (d : FixedTermDetails) (p : FixedTermProjection) : Type 0 where
    pub principal : p.principal ≡ d.principal
    pub duration : p.duration_days + d.start_date ≡ d.maturity_date
    pub value : p.maturity_value ≡ d.principal ⊕ p.gross_interest
    pub interest :
        IsInterest d.interest_method d.compounding_frequency d.principal d.annual_interest_rate
          (days_between d.start_date d.maturity_date)
          p.gross_interest

  -- A contract that passes its own checks, with a positive principal and a rate that is not
  -- negative, always has a projection, whatever the power function of Decimal is. Its duration is
  -- the days from the start to the maturity, its maturity value is the principal with the interest,
  -- and the interest is that of its method: simple interest, which is not negative, or interest
  -- compounded daily, monthly, quarterly or annually.
  pub calculate_fixed_term_projection-ok :
      (d : FixedTermDetails)
      → clean_fixed_term d ≡ []
      → decimal_zero <ℤ d.principal
      → decimal_zero ≤ℤ d.annual_interest_rate
      → (p : FixedTermProjection) × (calculate_fixed_term_projection power d.principal
            d.annual_interest_rate d.start_date d.maturity_date
            (method_name d.interest_method)
            (frequency_or_none d.compounding_frequency)
          ≡ ok p)
        × IsProjection d p
  unfolding calculate_fixed_term_projection
  calculate_fixed_term_projection-ok d valid positive low =
      let (later, given) = clean_fixed_term-dates d valid in
      let (interest, e, found) =
        interest_by-ok d.principal d.annual_interest_rate d.start_date d.maturity_date positive low
          later d.interest_method d.compounding_frequency given in
      let a : leb_ℤ d.principal decimal_zero ≡ false = ground arith in
      let b : ltb_ℤ d.annual_interest_rate decimal_zero ≡ false = ground arith in
      let l : leb d.maturity_date d.start_date ≡ false = ground arith in
      (
        record {
          principal = d.principal;
          gross_interest = interest;
          maturity_value = d.principal ⊕ interest;
          duration_days = d.maturity_date - d.start_date;
        },
        rw (a, b, l) (>>=-pass _ _ interest _ e refl),
        record { principal = refl; duration = omega arith; value = refl; interest = found },
      )
