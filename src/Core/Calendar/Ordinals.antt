-- ===== src/Core/Calendar/Ordinals.antt =====
-- Day numbers of Core/Calendar: `fromordinal` after `toordinal`.
use mathlib.Core.Option.{some-injective}
use vault.Base.{
  ℕ, zero, suc, ◌+◌, ◌-◌, ◌≤◌, ◌<◌, ◌≡◌, refl, ap, Bool, true, false, ◌&&◌, Option, none, some, leb,
  ◌==◌, if◌then◌else◌, arith, Bool-cases, inl, inr, subst,
}
use vault.Core.Calendar.{
  Date, date_of, is_leap, days_in_month, days_through, days_before_year, to_ordinal, valid_date,
  month_walk, year_walk, from_ordinal,
}

through_mono : (y a b : ℕ) → a ≤ b → days_through y a ≤ days_through y b
unfolding days_through
through_mono y a zero h = let e : a ≡ 0 = omega arith in rw e (omega arith)
through_mono y a (suc b) h = elim (Bool-cases (leb a b)) [
  | inl e ↦ let k = through_mono y a b (ground arith) in omega arith
  | inr e ↦ let same : a ≡ suc b = ground arith in rw same (omega arith)
]

-- From month m0 + 1 on, with the days before it taken, the walk finds the month of the day.
month_walk-finds :
    (fuel y m0 m d n : ℕ)
    → days_through y m0 + n ≡ days_through y m + d
    → m0 ≤ m
    → m < m0 + fuel
    → 1 ≤ d
    → d ≤ days_in_month y (suc m)
    → month_walk fuel y (suc m0) n ≡ some (date_of y (suc m) d)
unfolding month_walk days_through
month_walk-finds zero y m0 m d n e a b p q = absurd (omega arith)
month_walk-finds (suc fuel) y m0 m d n e a b p q = elim (Bool-cases (leb m m0)) [
  | inl h ↦
      let here : m0 ≡ m = ground arith in
      let day : n ≡ d = let k = ap (days_through y) here in omega arith in
      let fits : leb d (days_in_month y (suc m)) ≡ true = ground arith in rw (here, day, fits) refl
  | inr h ↦
      let below = through_mono y (suc m0) m (ground arith) in
      let late : leb n (days_in_month y (suc m0)) ≡ false = ground arith in
      rw late (
        month_walk-finds fuel y (suc m0) m d (n - days_in_month y (suc m0)) (ground arith)
          (ground arith) (ground arith) p q)
]

year_length :
    (y : ℕ)
    → 1 ≤ y
    → days_before_year (suc y) ≡ days_before_year y + (if is_leap y then 366 else 365)
unfolding days_before_year is_leap
year_length y h = ground arith

through-12 : (y : ℕ) → days_through y 12 ≡ (if is_leap y then 366 else 365)
unfolding days_through days_in_month
through-12 y = ground arith

before_mono : (x y : ℕ) → x ≤ y → days_before_year x ≤ days_before_year y
unfolding days_before_year
before_mono x y h = omega arith

-- From year y0 on, with the days before it taken, the walk finds the year of the day.
year_walk-finds :
    (fuel y0 y m d n : ℕ)
    → days_before_year y0 + n ≡ days_before_year y + (days_through y m + d)
    → 1 ≤ y0
    → y0 ≤ y
    → y < y0 + fuel
    → m < 12
    → 1 ≤ d
    → d ≤ days_in_month y (suc m)
    → year_walk fuel y0 n ≡ some (date_of y (suc m) d)
unfolding year_walk days_through
year_walk-finds zero y0 y m d n e z a b l p q = absurd (omega arith)
year_walk-finds (suc fuel) y0 y m d n e z a b l p q =
    let length : ℕ = if is_leap y0 then 366 else 365 in
    elim (Bool-cases (leb y y0)) [
      | inl h ↦
          let here : y0 ≡ y = ground arith in
          let day : n ≡ days_through y m + d = let k = ap days_before_year here in omega arith in
          let whole = through-12 y in
          let within = through_mono y (suc m) 12 l in
          let fits : leb n (if is_leap y then 366 else 365) ≡ true = ground arith in
          rw here (rw fits (month_walk-finds 12 y 0 m d n (ground arith) (omega arith) l p q))
      | inr h ↦
          let year = year_length y0 z in
          let below = before_mono (suc y0) y (ground arith) in
          let late : leb n (if is_leap y0 then 366 else 365) ≡ false = ground arith in
          rw late (
            year_walk-finds fuel (suc y0) y m d (n - length) (ground arith) (omega arith)
              (ground arith) (ground arith) l p q)
    ]

-- The ranges of a date that is valid.
pub valid_date-ranges :
    (y m d : ℕ) (t : Date)
    → valid_date y m d ≡ some t
    → (1 ≤ y)
      × (y ≤ 9999)
      × (1 ≤ m)
      × (m ≤ 12)
      × (1 ≤ d)
      × (d ≤ days_in_month y m)
      × (date_of y m d ≡ t)
unfolding valid_date
valid_date-ranges y m d t h =
    elim (Bool-cases
      (leb 1 y && leb y 9999 && leb 1 m && leb m 12 && leb 1 d && leb d (days_in_month y m))) [
        | inl e ↦
            let same : date_of y m d ≡ t = some-injective _ _ (rw e at h) in
            (
              ground arith,
              ground arith,
              ground arith,
              ground arith,
              ground arith,
              ground arith,
              same,
            )
        | inr e ↦ absurd (cc (rw e at h))
      ]

year_one : (n k : ℕ) → n ≡ k → days_before_year 1 + n ≡ k
unfolding days_before_year
year_one n k h = omega arith

otherwise :
    (b : Bool) (o : Option Date) (t : Date)
    → b ≡ false
    → o ≡ some t
    → (if b then none else o) ≡ some t
otherwise true o t h k = cc
otherwise false o t h k = k

from_ordinal-walk :
    (n : ℕ) (t : Date) → (n == 0) ≡ false → year_walk 9999 1 n ≡ some t → from_ordinal n ≡ some t
unfolding from_ordinal
from_ordinal-walk n t h k = otherwise (n == 0) (year_walk 9999 1 n) t h k

to_ordinal-sum :
    (y m d : ℕ) → to_ordinal (date_of y (suc m) d) ≡ days_before_year y + days_through y m + d
unfolding to_ordinal
to_ordinal-sum y m d =
    let e : suc m - 1 ≡ m = omega arith in ap (λ k. days_before_year y + days_through y k + d) e

from_ordinal-finds :
    (y m d n : ℕ)
    → n ≡ days_before_year y + days_through y m + d
    → 1 ≤ y
    → y ≤ 9999
    → m < 12
    → 1 ≤ d
    → d ≤ days_in_month y (suc m)
    → from_ordinal n ≡ some (date_of y (suc m) d)
from_ordinal-finds y m d n e a b l p q = from_ordinal-walk n (date_of y (suc m) d) (ground arith) (
    year_walk-finds 9999 1 y m d n (year_one n _ (omega arith)) (omega arith) a (omega arith) l p q)

-- The date of the day number of a date that exists is that date.
pub from_ordinal-to_ordinal :
    (y m d : ℕ) (t : Date) → valid_date y m d ≡ some t → from_ordinal (to_ordinal t) ≡ some t
from_ordinal-to_ordinal y zero d t h =
    let c = (valid_date-ranges y 0 d t h).2 in absurd (omega arith)
from_ordinal-to_ordinal y (suc m) d t h =
    let (a, b, c, l, p, q, same) = valid_date-ranges y (suc m) d t h in
    subst (λ (x : Date). from_ordinal (to_ordinal x) ≡ some x) same
      (from_ordinal-finds y m d _ (to_ordinal-sum y m d) a b (omega arith) p q)
