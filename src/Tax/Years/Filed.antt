-- ===== src/Tax/Years/Filed.antt =====
-- What a save of tax/models.py leaves of a tax year that is filed.
use vault.Base.{
  ◌≡◌, ◌≢◌, refl, sym, ap, ◌∙◌, true, false, ℕ, some, List, [], ◌∷◌, ◌==◌, if◌then◌else◌, eq_iff,
  any, find, inl, inr, arith, Bool-cases,
}
use vault.Tax.Models.{TaxYear, TaxYearStatus, opened, closed, filed, archived}
use vault.Tax.Checks.{
  is_filed, same_status, tracked_differ, upper_year, with_pk, replace, save_year,
}
use vault.Tax.Years.{save_year-IsChecked}

-- What a row has in common with an earlier one.
pub record IsKept (previous y : TaxYear) : Type 0 where
  pub name : y.name ≡ previous.name
  pub jurisdiction : y.jurisdiction ≡ previous.jurisdiction
  pub start_date : y.start_date ≡ previous.start_date
  pub end_date : y.end_date ≡ previous.end_date
  pub currency : y.reporting_currency.pk ≡ previous.reporting_currency.pk
  pub status : y.status ≡ previous.status
  pub notes : y.notes ≡ previous.notes

same_status-eq : (a b : TaxYearStatus) → same_status a b ≡ true → a ≡ b
same_status-eq opened opened h = refl
same_status-eq closed closed h = refl
same_status-eq filed filed h = refl
same_status-eq archived archived h = refl
same_status-eq opened closed h = cc
same_status-eq opened filed h = cc
same_status-eq opened archived h = cc
same_status-eq closed opened h = cc
same_status-eq closed filed h = cc
same_status-eq closed archived h = cc
same_status-eq filed opened h = cc
same_status-eq filed closed h = cc
same_status-eq filed archived h = cc
same_status-eq archived opened h = cc
same_status-eq archived closed h = cc
same_status-eq archived filed h = cc

tracked-IsKept : (a b : TaxYear) → tracked_differ a b ≡ false → IsKept a b
tracked-IsKept a b h = record {
  name = sym ((eq_iff a.name b.name).0 (ground arith));
  jurisdiction = sym ((eq_iff a.jurisdiction b.jurisdiction).0 (ground arith));
  start_date = ground arith;
  end_date = ground arith;
  currency = ground arith;
  status = sym (same_status-eq a.status b.status (ground arith));
  notes = sym ((eq_iff a.notes b.notes).0 (ground arith));
}

-- The row under a key that the table has, once it is replaced.
find-replace :
    (y : TaxYear) (years : List TaxYear) (previous : TaxYear)
    → find (with_pk y.pk) years ≡ some previous
    → (any (with_pk y.pk) years ≡ true) × (find (with_pk y.pk) (replace y years) ≡ some y)
find-replace y [] previous h = cc
find-replace y (x ∷ years) previous h = elim (Bool-cases (x.pk == y.pk)) [
  | inl e ↦ let self : (y.pk == y.pk) ≡ true = ground arith in rw (e, self) (refl, refl)
  | inr e ↦ let rest = find-replace y years previous (rw e at h) in rw (e, e) rest
]

-- The rows under other keys.
find-replace_other :
    (y : TaxYear) (years : List TaxYear) (pk : ℕ)
    → pk ≢ y.pk
    → find (with_pk pk) (replace y years) ≡ find (with_pk pk) years
find-replace_other y [] pk ne = refl
find-replace_other y (x ∷ years) pk ne = elim (Bool-cases (x.pk == y.pk)) [
  | inl e ↦
      let a : (x.pk == pk) ≡ false = ground arith in
      let b : (y.pk == pk) ≡ false = ground arith in rw (e, a, b) (find-replace_other y years pk ne)
  | inr e ↦ rw e (ap (λ o. if x.pk == pk then some x else o) (find-replace_other y years pk ne))
]

-- Once a stored year is filed, a save under its key that goes through leaves in the table a row of
-- that key with the same name, jurisdiction, dates, reporting currency, status and notes, and
-- leaves the rows under every other key as they are.
pub save_year-filed :
    (years years' : List TaxYear) (y previous : TaxYear)
    → y.pk ≢ 0
    → find (with_pk y.pk) years ≡ some previous
    → previous.status ≡ filed
    → save_year years y ≡ inr years'
    → ((saved : TaxYear) × (find (with_pk y.pk) years' ≡ some saved) × IsKept previous saved)
      × ((pk : ℕ) → pk ≢ y.pk → find (with_pk pk) years' ≡ find (with_pk pk) years)
save_year-filed years years' y previous stored found is_final h =
    let (k, e) = save_year-IsChecked years years' y h in
    let key : (y.pk == 0) ≡ false = ground arith in
    let (here, after) = find-replace (upper_year y) years previous found in
    let final : is_filed previous.status ≡ true = ap is_filed is_final in
    let same = rw (key, found, final) at k.unfiled in
    let written : replace (upper_year y) years ≡ years' = rw (key, here) at e in
    (
      (
        upper_year y,
        ap (find (with_pk y.pk)) (sym written) ∙ after,
        tracked-IsKept previous (upper_year y) same,
      ),
      λ pk ne. ap (find (with_pk pk)) (sym written) ∙ find-replace_other (upper_year y) years pk ne,
    )
