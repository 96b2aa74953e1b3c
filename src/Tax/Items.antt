-- ===== src/Tax/Items.antt =====
-- Which items and rules of a tax year tax/models.py accepts.
use vault.Base.{
  ℕ, ◌≤◌, ◌≡◌, ◌↔◌, refl, Bool, false, Option, none, some, List, [], ◌∷◌, ◌++◌, is_none, arith,
  Bool-cases, inl, inr,
}
use vault.Tax.Models.{
  TaxYear, TaxDeduction, RuleType, flat_rate, threshold, allowance, deduction, TaxRule,
}
use vault.Tax.Checks.{
  is_filed, clean_item, clean_deduction, clean_rule_owner, clean_rule_year, clean_rule_amounts,
  clean_rule,
}

-- A deduction is accepted exactly when its owner is the owner of its tax year, the year is not
-- filed, and its date lies in the year.
pub clean_deduction_iff :
    (d : TaxDeduction)
    → (clean_deduction d ≡ []) ↔ (
        (is_filed d.item.tax_year.status ≡ false)
        × (d.item.owner_id ≡ d.item.tax_year.owner_id)
        × (d.item.tax_year.start_date ≤ d.date)
        × (d.date ≤ d.item.tax_year.end_date))
unfolding clean_deduction clean_item
clean_deduction_iff d = elim (Bool-cases (is_filed d.item.tax_year.status)) [
  | inl e ↦ rw e (ground arith)
  | inr e ↦ rw e (ground arith)
]

-- Whether a rule lacks the amount that its type requires.
abbrev pub lacks_amount : RuleType → TaxRule → Bool
lacks_amount flat_rate r = is_none r.rate
lacks_amount threshold r = is_none r.threshold
lacks_amount allowance r = is_none r.fixed_amount
lacks_amount deduction r = is_none r.fixed_amount

abbrev pub IsOwned : Option ℕ → Option TaxYear → Type 0
IsOwned none y = ⊥
IsOwned (some owner) none = ⊥
IsOwned (some owner) (some y) = (owner ≡ y.owner_id) × (is_filed y.status ≡ false)

IsOwned-iff :
    (owner : Option ℕ) (year : Option TaxYear)
    → (clean_rule_owner owner ++ clean_rule_year owner year ≡ []) ↔ IsOwned owner year
IsOwned-iff none year = (λ h. absurd (cc), λ h. absurd h)
IsOwned-iff (some owner) none = (λ h. absurd (cc), λ h. absurd h)
IsOwned-iff (some owner) (some y) = ground arith

amounts_iff :
    (kind : RuleType) (r : TaxRule)
    → (clean_rule_amounts kind r ≡ []) ↔ (lacks_amount kind r ≡ false)
amounts_iff flat_rate r = ground arith
amounts_iff threshold r = ground arith
amounts_iff allowance r = ground arith
amounts_iff deduction r = ground arith

append_iff :
    {A : Type 0} (xs ys zs : List A) → (xs ++ (ys ++ zs) ≡ []) ↔ ((xs ++ ys ≡ []) × (zs ≡ []))
append_iff [] [] zs = (λ h. (refl, h), λ h. h.1)
append_iff [] (y ∷ ys) zs = (λ h. absurd (cc), λ h. absurd (cc (h.0)))
append_iff (x ∷ xs) ys zs = (λ h. absurd (cc), λ h. absurd (cc (h.0)))

-- A rule is accepted exactly when it has an owner and a tax year, the year is the owner's and is
-- not filed, and the amount that its type requires is there.
pub clean_rule_iff :
    (r : TaxRule)
    → ((clean_rule r).1 ≡ [])
      ↔ (IsOwned r.owner_id r.tax_year × (lacks_amount r.rule_type r ≡ false))
unfolding clean_rule
clean_rule_iff r =
    let split =
      append_iff (clean_rule_owner r.owner_id) (clean_rule_year r.owner_id r.tax_year)
        (clean_rule_amounts r.rule_type r) in
    (
      λ h. (
        (IsOwned-iff r.owner_id r.tax_year).0 (split.0 h).0,
        (amounts_iff r.rule_type r).0 (split.0 h).1,
      ),
      λ h. split.1 ((IsOwned-iff r.owner_id r.tax_year).1 h.0, (amounts_iff r.rule_type r).1 h.1),
    )
