-- ===== src/Tax/Years.antt =====
-- The calendar of tax years that `TaxYear.save` of tax/models.py works on.
pub mod Filed
use vault.Base.{
  ◌≤◌, ◌<◌, ◌≡◌, ◌≢◌, refl, sym, ap, ◌∙◌, Bool, true, false, not, ◌&&◌, ℕ, some, String, List, [],
  ◌∷◌, ◌++◌, leb, ◌==◌, if◌then◌else◌, str_eq, eq_iff, any, any-none, find, inl, inr, arith, subst,
  All, All_map, All_zip, All_of, Bool-cases,
}
use vault.Tax.Models.{TaxYear, TaxYearStatus, opened, closed, filed, archived}
use vault.Tax.Checks.{
  YearMessage, is_filed, same_status, overlaps, tracked_differ, edits_filed, upper_year, with_pk,
  year_messages, clean_year, fresh, replace, store, save_if, save_year,
}

-- Two years of one owner and jurisdiction that share a day.
abbrev pub clash : TaxYear → TaxYear → Bool
clash y x =
    not (str_eq y.jurisdiction "")
    && ((x.owner_id == y.owner_id)
        && (str_eq x.jurisdiction y.jurisdiction
            && (leb x.start_date y.end_date && leb y.start_date x.end_date)))

abbrev pub Pairwise : (TaxYear → TaxYear → Type 0) → List TaxYear → Type 0
Pairwise R [] = Unit
Pairwise R (x ∷ xs) = All (R x) xs × Pairwise R xs

abbrev pub Apart : TaxYear → TaxYear → Type 0
Apart x y = clash x y ≡ false

abbrev pub Keyed : TaxYear → TaxYear → Type 0
Keyed x y = x.pk ≢ y.pk

-- A calendar: every row is saved and ends no earlier than it starts, keys differ, and no two years
-- of one owner and jurisdiction share a day.
pub record IsCalendar (years : List TaxYear) : Type 0 where
  pub saved : All (λ y. 0 < y.pk) years
  pub ordered : All (λ y. y.start_date ≤ y.end_date) years
  pub keyed : Pairwise Keyed years
  pub apart : Pairwise Apart years

str_eq_sym : (a b : String) → str_eq a b ≡ false → str_eq b a ≡ false
str_eq_sym a b h = elim (Bool-cases (str_eq b a)) [
  | inl e ↦ absurd (cc ((eq_iff a b).1 (sym ((eq_iff b a).0 e))))
  | inr e ↦ e
]

Apart-sym : (x y : TaxYear) → Apart x y → Apart y x
Apart-sym x y h = elim (Bool-cases (str_eq x.jurisdiction y.jurisdiction)) [
  | inl e ↦
      let same = (eq_iff x.jurisdiction y.jurisdiction).0 e in
      let blank = ap (λ j. str_eq j "") same in ground (arith, blank, e)
  | inr e ↦ ground (arith, e)
]

All-replace :
    (P : TaxYear → Type 0) (y : TaxYear) (xs : List TaxYear) → P y → All P xs → All P (replace y xs)
All-replace P y [] h k = tt
All-replace P y (x ∷ xs) h k = elim (Bool-cases (x.pk == y.pk)) [
  | inl e ↦ rw e (h, All-replace P y xs h k.1)
  | inr e ↦ rw e (k.0, All-replace P y xs h k.1)
]

replace-same : (y : TaxYear) (xs : List TaxYear) → All (λ x. x.pk ≢ y.pk) xs → replace y xs ≡ xs
replace-same y [] h = refl
replace-same y (x ∷ xs) h =
    let e : (x.pk == y.pk) ≡ false = ground (arith, h.0) in
    rw e (ap (λ t. x ∷ t) (replace-same y xs h.1))

replace-Pairwise :
    (R : TaxYear → TaxYear → Type 0) (y : TaxYear) (xs : List TaxYear)
    → ((a b : TaxYear) → R a b → R b a)
    → Pairwise Keyed xs
    → All (λ x. x.pk ≢ y.pk → R y x) xs
    → Pairwise R xs
    → Pairwise R (replace y xs)
replace-Pairwise R y [] s d h k = tt
replace-Pairwise R y (x ∷ xs) s d h k = elim (Bool-cases (x.pk == y.pk)) [
  | inl e ↦
      let others = All_map (Keyed x) (λ z. z.pk ≢ y.pk) xs (λ z ne same. ground arith) d.0 in
      rw (e, replace-same y xs others)
        (All_map _ (R y) xs (λ z p. p.0 p.1) (All_zip _ _ xs h.1 others), k.1)
  | inr e ↦ rw e (
    All-replace (R x) y xs (s y x (h.0 (λ same. ground arith))) k.0,
    replace-Pairwise R y xs s d.1 h.1 k.1,
  )
]

fresh-above : (years : List TaxYear) → All (λ y. y.pk < fresh years) years
fresh-above [] = tt
fresh-above (y ∷ years) =
    let rest = fresh-above years in
    let step : fresh years ≤ fresh (y ∷ years) = ground arith in
    (ground arith, All_map _ _ years (λ x h. omega arith) rest)

fresh-positive : (years : List TaxYear) → 0 < fresh years
fresh-positive [] = omega arith
fresh-positive (y ∷ years) = ground (arith, fresh-positive years)

-- What passing the check says of the stored years.
overlaps-Apart :
    (y : TaxYear) (years : List TaxYear)
    → (not (str_eq y.jurisdiction "") && any (overlaps y) years) ≡ false
    → All (λ x. x.pk ≢ y.pk → Apart y x) years
overlaps-Apart y years h = elim (Bool-cases (str_eq y.jurisdiction "")) [
  | inl e ↦ All_of _ years (λ x ne. ground arith)
  | inr e ↦ All_map _ _ years (λ x k ne. ground arith) (any-none (overlaps y) years (rw e at h))
]

-- What the check of a year that is saved has established.
pub record IsChecked (years : List TaxYear) (y : TaxYear) : Type 0 where
  pub ordered : y.start_date ≤ y.end_date
  pub apart : All (λ x. x.pk ≢ y.pk → Apart y x) years
  pub unfiled : (not (y.pk == 0) && edits_filed (find (with_pk y.pk) years) y) ≡ false

no_message :
    (a b d : Bool)
    → (if a then YearMessage.ends_before_start ∷ [] else [])
        ++ ((if b then YearMessage.overlapping ∷ [] else [])
            ++ (if d then YearMessage.filed_is_final ∷ [] else []))
      ≡ []
    → (a ≡ false) × (b ≡ false) × (d ≡ false)
no_message true b d h = cc
no_message false true d h = cc
no_message false false true h = cc
no_message false false false h = (refl, refl, refl)

year_messages-IsChecked :
    (years : List TaxYear) (y : TaxYear) → year_messages years y ≡ [] → IsChecked years y
unfolding year_messages
year_messages-IsChecked years y h =
    let (a, b, d) = no_message _ _ _ h in
    record { ordered = ground arith; apart = overlaps-Apart y years b; unfiled = d }

save_if-saved :
    (ms : List YearMessage) (years years' : List TaxYear) (y : TaxYear)
    → save_if ms years y ≡ inr years'
    → (ms ≡ []) × (store years y ≡ years')
save_if-saved [] years years' y h = (refl, cc)
save_if-saved (m ∷ ms) years years' y h = cc

save_year-IsChecked :
    (years years' : List TaxYear) (y : TaxYear)
    → save_year years y ≡ inr years'
    → IsChecked years (upper_year y) × (store years (upper_year y) ≡ years')
unfolding save_year clean_year
save_year-IsChecked years years' y h =
    let (none_left, e) =
      save_if-saved (year_messages years (upper_year y)) years years' (upper_year y) h in
    (year_messages-IsChecked years (upper_year y) none_left, e)

All_zero : (years : List TaxYear) → All (λ y. 0 < y.pk) years → All (λ x. x.pk ≢ 0) years
All_zero years h = All_map _ _ years (λ x p e. omega arith) h

store-IsCalendar :
    (years : List TaxYear) (y : TaxYear)
    → IsCalendar years
    → IsChecked years y
    → IsCalendar (store years y)
store-IsCalendar years y v k = elim (Bool-cases (y.pk == 0)) [
  | inl e ↦
      let new = record y { pk = fresh years } in
      let zero_key : y.pk ≡ 0 = ground arith in
      let others =
        All_map _ (λ x. x.pk ≢ y.pk) years (λ x ne same. ne (same ∙ zero_key))
          (All_zero years v.saved) in
      rw e (record {
        saved = (fresh-positive years, v.saved);
        ordered = (k.ordered, v.ordered);
        keyed = (
          All_map _ (Keyed new) years (λ x below same. omega arith) (fresh-above years),
          v.keyed,
        );
        apart = (
          All_map _ (Apart new) years (λ x p. p.0 p.1) (All_zip _ _ years k.apart others),
          v.apart,
        );
      })
  | inr e ↦ elim (Bool-cases (any (with_pk y.pk) years)) [
    | inl here ↦
        rw (e, here)
          (record {
            saved = All-replace _ y years (ground arith) v.saved;
            ordered = All-replace _ y years k.ordered v.ordered;
            keyed =
                replace-Pairwise Keyed y years (λ a b ne same. ne (sym same)) v.keyed
                  (All_of _ years (λ x ne same. ne (sym same))) v.keyed;
            apart = replace-Pairwise Apart y years Apart-sym v.keyed k.apart v.apart;
          })
    | inr gone ↦
        let others =
          All_map _ (λ x. x.pk ≢ y.pk) years (λ x h same. ground arith)
            (any-none (with_pk y.pk) years gone) in
        rw (e, gone)
          (record {
            saved = (ground arith, v.saved);
            ordered = (k.ordered, v.ordered);
            keyed = (All_map _ (Keyed y) years (λ x ne same. ne (sym same)) others, v.keyed);
            apart = (
              All_map _ (Apart y) years (λ x p. p.0 p.1) (All_zip _ _ years k.apart others),
              v.apart,
            );
          })
  ]
]

-- A save of a tax year that goes through keeps the calendar: every row has a key, the keys differ,
-- every year ends no earlier than it starts, and no two years of one owner and one jurisdiction
-- that is not blank share a day.
pub save_year-IsCalendar :
    (years years' : List TaxYear) (y : TaxYear)
    → IsCalendar years
    → save_year years y ≡ inr years'
    → IsCalendar years'
save_year-IsCalendar years years' y v h =
    let (k, e) = save_year-IsChecked years years' y h in
    subst IsCalendar e (store-IsCalendar years (upper_year y) v k)
