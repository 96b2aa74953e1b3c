-- ===== src/Tax/Checks.antt =====
-- tax/models.py: `clean`, `save` and `delete` of tax years, their items and their rules. The checks
-- of the framework's own field validators are not modelled. A primary key of 0 stands for a row
-- that is not saved yet.
use vault.Base.{
  ℕ, suc, Bool, true, false, not, ◌&&◌, Option, none, some, String, List, [], ◌∷◌, ◌++◌, leb, ltb,
  ◌==◌, if◌then◌else◌, is_none, eqb_ℤ, str_eq, any, find, ◌⊎◌, inl, inr, where_rows, upper,
}
use vault.Decimal.{Decimal, decimal_zero}
use vault.Tax.Models.{
  TreatmentType, ReturnTaxTreatment, TaxYearStatus, TaxYear, TaxYearItem, TaxDeduction,
  TaxAllowance, TaxAdjustment, RuleType, TaxRule,
}

pub data TreatmentMessage : Type 0 where
  rate_required zero_or_blank_rate : TreatmentMessage

abbrev pub is_taxable_type : TreatmentType → Bool
is_taxable_type TreatmentType.withholding = true
is_taxable_type TreatmentType.year_end = true
is_taxable_type TreatmentType.custom = true
is_taxable_type TreatmentType.no_tax = false
is_taxable_type TreatmentType.exempt = false

-- `self.tax_rate not in (None, 0)`
abbrev nonzero_rate : Option Decimal → Bool
nonzero_rate none = false
nonzero_rate (some rate) = not (eqb_ℤ rate decimal_zero)

-- `ReturnTaxTreatment.clean`; the two tests exclude one another. An empty code stays empty.
unfoldable pub clean_treatment : ReturnTaxTreatment → ReturnTaxTreatment × List TreatmentMessage
clean_treatment t = (
  record t { jurisdiction = upper t.jurisdiction },
  (if is_taxable_type t.treatment_type && is_none t.tax_rate
      then TreatmentMessage.rate_required ∷ []
      else if not (is_taxable_type t.treatment_type) && nonzero_rate t.tax_rate
      then TreatmentMessage.zero_or_blank_rate ∷ []
      else []),
)

abbrev pub is_filed : TaxYearStatus → Bool
is_filed TaxYearStatus.filed = true
is_filed _ = false

abbrev pub same_status : TaxYearStatus → TaxYearStatus → Bool
same_status TaxYearStatus.opened TaxYearStatus.opened = true
same_status TaxYearStatus.closed TaxYearStatus.closed = true
same_status TaxYearStatus.filed TaxYearStatus.filed = true
same_status TaxYearStatus.archived TaxYearStatus.archived = true
same_status _ _ = false

pub data YearMessage : Type 0 where
  ends_before_start overlapping filed_is_final : YearMessage

-- The query for other years of the owner and jurisdiction that share a day with this one.
abbrev pub overlaps : TaxYear → TaxYear → Bool
overlaps y other =
    (other.owner_id == y.owner_id)
    && (str_eq other.jurisdiction y.jurisdiction
        && (leb other.start_date y.end_date
            && (leb y.start_date other.end_date && not (other.pk == y.pk))))

-- Whether any of the tracked fields differs.
abbrev pub tracked_differ : TaxYear → TaxYear → Bool
tracked_differ a b = not (
    str_eq a.name b.name
    && (str_eq a.jurisdiction b.jurisdiction
        && (a.start_date == b.start_date
            && (a.end_date == b.end_date
                && (a.reporting_currency.pk == b.reporting_currency.pk
                    && (same_status a.status b.status && str_eq a.notes b.notes))))))

abbrev pub edits_filed : Option TaxYear → TaxYear → Bool
edits_filed none y = false
edits_filed (some previous) y = is_filed previous.status && tracked_differ previous y

abbrev pub upper_year : TaxYear → TaxYear
upper_year y = record y { jurisdiction = upper y.jurisdiction }

abbrev pub with_pk : ℕ → TaxYear → Bool
with_pk pk y = y.pk == pk

-- The messages for a year whose jurisdiction is in upper case already; owner and dates are set.
unfoldable pub year_messages : List TaxYear → TaxYear → List YearMessage
year_messages years y =
    (if ltb y.end_date y.start_date then ends_before_start ∷ [] else [])
    ++ ((if not (str_eq y.jurisdiction "") && any (overlaps y) years then overlapping ∷ [] else [])
        ++ (if not (y.pk == 0) && edits_filed (find (with_pk y.pk) years) y
            then filed_is_final ∷ []
            else []))

-- `TaxYear.clean`
unfoldable pub clean_year : List TaxYear → TaxYear → TaxYear × List YearMessage
unfolding year_messages
clean_year years y = (upper_year y, year_messages years (upper_year y))

-- The key that the database gives to a new row.
abbrev pub fresh : List TaxYear → ℕ
fresh [] = 1
fresh (y ∷ years) = if leb (fresh years) y.pk then suc y.pk else fresh years

abbrev pub replace : TaxYear → List TaxYear → List TaxYear
replace y [] = []
replace y (x ∷ years) = (if x.pk == y.pk then y else x) ∷ replace y years

-- A row without a key is new; a key that the table lacks is inserted, too.
abbrev pub store : List TaxYear → TaxYear → List TaxYear
store years y =
    if y.pk == 0
    then record y { pk = fresh years } ∷ years
    else if any (with_pk y.pk) years
    then replace y years
    else y ∷ years

abbrev pub save_if : List YearMessage → List TaxYear → TaxYear → List YearMessage ⊎ List TaxYear
save_if [] years y = inr (store years y)
save_if (m ∷ ms) years y = inl (m ∷ ms)

-- `TaxYear.save`: the messages of a refusal, or the table after it.
unfoldable pub save_year : List TaxYear → TaxYear → List YearMessage ⊎ List TaxYear
unfolding clean_year
save_year years y = let (cleaned, messages) = clean_year years y in save_if messages years cleaned

pub data ItemMessage : Type 0 where
  year_of_another_user year_is_filed date_outside_year : ItemMessage

-- `TaxYearItem.clean`; the later message under the key `tax_year` replaces the earlier.
unfoldable pub clean_item : TaxYearItem → List ItemMessage
clean_item i =
    if is_filed i.tax_year.status
    then year_is_filed ∷ []
    else if not (i.owner_id == i.tax_year.owner_id)
    then year_of_another_user ∷ []
    else []

abbrev pub check_date : List ItemMessage → TaxYear → ℕ → List ItemMessage
check_date [] year date =
    if leb year.start_date date && leb date year.end_date then [] else date_outside_year ∷ []
check_date (m ∷ ms) year date = m ∷ ms

unfoldable pub clean_deduction : TaxDeduction → List ItemMessage
unfolding clean_item
clean_deduction d = check_date (clean_item d.item) d.item.tax_year d.date

unfoldable pub clean_adjustment : TaxAdjustment → List ItemMessage
unfolding clean_item
clean_adjustment a = check_date (clean_item a.item) a.item.tax_year a.date

-- An allowance has no date, and the check of its item alone.
unfoldable pub clean_allowance : TaxAllowance → List ItemMessage
unfolding clean_item
clean_allowance a = clean_item a.item

-- `TaxYearItem.delete`: `none` is the refusal.
unfoldable pub delete_item : List TaxYearItem → TaxYearItem → Option (List TaxYearItem)
delete_item items i =
    if is_filed i.tax_year.status then none else some (where_rows (λ x. not (x.pk == i.pk)) items)

pub data RuleMessage : Type 0 where
  owner_required year_required rule_of_another_user rule_year_is_filed : RuleMessage
  rule_rate_required threshold_required fixed_amount_required : RuleMessage

abbrev pub clean_rule_owner : Option ℕ → List RuleMessage
clean_rule_owner none = owner_required ∷ []
clean_rule_owner (some o) = []

-- `self.owner_id and self.owner_id != self.tax_year.owner_id`
abbrev pub other_owner : Option ℕ → TaxYear → Bool
other_owner none y = false
other_owner (some o) y = not (o == y.owner_id)

abbrev pub clean_rule_year : Option ℕ → Option TaxYear → List RuleMessage
clean_rule_year owner none = year_required ∷ []
clean_rule_year owner (some y) =
    if other_owner owner y
    then rule_of_another_user ∷ []
    else if is_filed y.status
    then rule_year_is_filed ∷ []
    else []

-- What each type of rule requires, and what it clears.
abbrev pub clean_rule_amounts : RuleType → TaxRule → List RuleMessage
clean_rule_amounts RuleType.flat_rate r = if is_none r.rate then rule_rate_required ∷ [] else []
clean_rule_amounts RuleType.threshold r =
    if is_none r.threshold then threshold_required ∷ [] else []
clean_rule_amounts _ r = if is_none r.fixed_amount then fixed_amount_required ∷ [] else []

abbrev pub normalise_rule : RuleType → TaxRule → TaxRule
normalise_rule RuleType.flat_rate r = record r { threshold = none; fixed_amount = none }
normalise_rule RuleType.threshold r = record r { rate = none; fixed_amount = none }
normalise_rule _ r = record r { rate = none; threshold = none }

abbrev rule_jurisdiction : Option TaxYear → String → String
rule_jurisdiction none own = own
rule_jurisdiction (some y) own = y.jurisdiction

-- `TaxRule.clean`
unfoldable pub clean_rule : TaxRule → TaxRule × List RuleMessage
clean_rule r = (
  normalise_rule r.rule_type
      (record r { jurisdiction = rule_jurisdiction r.tax_year r.jurisdiction }),
  clean_rule_owner r.owner_id
      ++ (clean_rule_year r.owner_id r.tax_year ++ clean_rule_amounts r.rule_type r),
)

abbrev rule_year_filed : Option TaxYear → Bool
rule_year_filed none = false
rule_year_filed (some y) = is_filed y.status

-- `TaxRule.delete`: `none` is the refusal.
unfoldable pub delete_rule : List TaxRule → TaxRule → Option (List TaxRule)
delete_rule rules r =
    if rule_year_filed r.tax_year then none else some (where_rows (λ x. not (x.pk == r.pk)) rules)
