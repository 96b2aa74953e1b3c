-- ===== src/Tax/Aggregation/Items.antt =====
-- tax/services/aggregation.py: the manual allowances, deductions and adjustments of the year.
use vault.Base.{ℕ, Option, none, some, List, [], ◌∷◌, Result, ok, ◌>>=◌, ◌⊎◌, inl, inr, get_or}
use vault.Decimal.{Context, Decimal, ◌⊕◌, ◌⊖◌, abs}
use vault.Core.Ordering.{Collation}
use vault.Tax.Models.{
  TaxCategory, TaxableCategory, TaxYear, TaxDeduction, TaxAllowance, TaxAdjustment,
}
use vault.Tax.Aggregation.Models.{Reason, change}
use vault.Database.{Database}
use vault.Tax.Aggregation.Collect.{
  Collected, amount_of, note, add_gross, add_withholding, add_to, convert,
}

module _ ⦃c : Context⦄ where
  -- `manual_x[item.applies_to or OVERALL]`
  abbrev target_of : Option TaxableCategory → TaxableCategory
  target_of o = get_or o TaxableCategory.overall

  abbrev withhold : Option TaxableCategory → Decimal → Collected → Collected
  withhold none a s = record s { manual_withholding = s.manual_withholding ⊕ a }
  withhold (some TaxableCategory.overall) a s = record s {
    manual_withholding = s.manual_withholding ⊕ a;
  }
  withhold (some category) a s = record s {
    rows = change category (add_withholding (some a)) s.rows;
  }

  -- A manual adjustment that is converted already.
  unfoldable pub book_adjustment :
      TaxCategory → Option TaxableCategory → Decimal → Collected → Collected
  book_adjustment TaxCategory.interest applies_to a s = record s {
    rows = change TaxableCategory.interest (add_gross (some a)) s.rows;
  }
  book_adjustment TaxCategory.dividend applies_to a s = record s {
    rows = change TaxableCategory.dividend (add_gross (some a)) s.rows;
  }
  book_adjustment TaxCategory.capital_gain applies_to a s = record s {
    rows = change TaxableCategory.capital_gain (add_gross (some a)) s.rows;
  }
  book_adjustment TaxCategory.employment_income applies_to a s = record s {
    rows = change TaxableCategory.employment_income (add_gross (some a)) s.rows;
  }
  book_adjustment TaxCategory.other_income applies_to a s = record s {
    rows = change TaxableCategory.other_income (add_gross (some a)) s.rows;
  }
  book_adjustment TaxCategory.capital_loss applies_to a s = record s {
    rows =
        change TaxableCategory.capital_gain (λ row. record row { losses = row.losses ⊖ abs a })
          s.rows;
  }
  book_adjustment TaxCategory.allowance applies_to a s = record s {
    manual_allowances = add_to (target_of applies_to) (some (abs a)) s.manual_allowances;
  }
  book_adjustment TaxCategory.deduction applies_to a s = record s {
    manual_deductions = add_to (target_of applies_to) (some (abs a)) s.manual_deductions;
  }
  book_adjustment TaxCategory.withholding_tax applies_to a s = withhold applies_to (abs a) s
  book_adjustment TaxCategory.tax_payment applies_to a s = record s {
    tax_paid = s.tax_paid ⊕ abs a;
  }

  module _ ⦃o : Collation⦄ (db : Database) (today : ℕ) (y : TaxYear) where
    unfoldable pub add_allowances : Collected → List TaxAllowance → Result Collected
    unfolding convert
    add_allowances s [] = ok s
    add_allowances s (a ∷ items) = do
      converted ← convert db today y a.amount a.currency y.start_date
      add_allowances
          (record s {
            reasons = note converted s.reasons;
            manual_allowances = add_to a.category (amount_of converted) s.manual_allowances;
          })
          items

    unfoldable pub add_deductions : Collected → List TaxDeduction → Result Collected
    unfolding convert
    add_deductions s [] = ok s
    add_deductions s (d ∷ items) = do
      converted ← convert db today y d.amount d.currency d.date
      add_deductions
          (record s {
            reasons = note converted s.reasons;
            manual_deductions = add_to d.category (amount_of converted) s.manual_deductions;
          })
          items

    abbrev pub booked : TaxAdjustment → Reason ⊎ Decimal → Collected → Collected
    booked a (inl r) s = s
    booked a (inr amount) s = book_adjustment a.category a.applies_to amount s

    unfoldable pub add_adjustments : Collected → List TaxAdjustment → Result Collected
    unfolding convert book_adjustment
    add_adjustments s [] = ok s
    add_adjustments s (a ∷ items) = do
      converted ← convert db today y a.amount a.currency a.date
      add_adjustments (booked a converted (record s { reasons = note converted s.reasons })) items
