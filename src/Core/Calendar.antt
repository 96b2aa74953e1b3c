-- ===== src/Core/Calendar.antt =====
-- `datetime.date`: the dates that the source reads from a text and prints. Elsewhere in the model a
-- date is its day number, `date.toordinal`.
pub mod Ordinals
pub mod Reading
use Prim.Native.Char.{char, code}
use vault.Base.{
  ℕ, zero, suc, ◌+◌, ◌-◌, ◌*◌, ◌/◌, ◌%◌, Bool, not, ◌&&◌, ◌||◌, Option, none, some, String, List,
  [], ◌∷◌, ℤ, pos, leb, ◌==◌, if◌then◌else◌,
}
use vault.Text.{Unicode, ascii_decimal, is_char, split_on, has_char}
use vault.Text.Numbers.{◌>>=◌, parse_int, pad}

pub record Date : Type 0 where
  pub year : ℕ
  pub month : ℕ
  pub day : ℕ

abbrev pub date_of : ℕ → ℕ → ℕ → Date
date_of year month day = record { year = year; month = month; day = day }

is_leap : ℕ → Bool
is_leap y = y % 4 == 0 && (not (y % 100 == 0) || y % 400 == 0)

unfoldable pub days_in_month : ℕ → ℕ → ℕ
unfolding is_leap
days_in_month y m =
    if m == 2
    then (if is_leap y then 29 else 28)
    else if m == 4 || m == 6 || m == 9 || m == 11
    then 30
    else 31

-- The days of a year before its month m + 1.
unfoldable pub days_through : ℕ → ℕ → ℕ
unfolding days_in_month
days_through y zero = 0
days_through y (suc m) = days_through y m + days_in_month y (suc m)

unfoldable pub days_before_year : ℕ → ℕ
days_before_year y = let p = y - 1 in p * 365 + p / 4 - p / 100 + p / 400

-- `date.toordinal`
unfoldable pub to_ordinal : Date → ℕ
unfolding days_before_year days_through
to_ordinal t = days_before_year t.year + days_through t.year (t.month - 1) + t.day

-- `date(year, month, day)`, which raises out of these ranges
unfoldable pub valid_date : ℕ → ℕ → ℕ → Option Date
unfolding days_in_month
valid_date y m d =
    if leb 1 y && leb y 9999 && leb 1 m && leb m 12 && leb 1 d && leb d (days_in_month y m)
    then some (date_of y m d)
    else none

-- The month that a day of the year is in, from month m on; the days of the months before are taken.
month_walk : ℕ → ℕ → ℕ → ℕ → Option Date
unfolding days_in_month
month_walk zero y m n = none
month_walk (suc fuel) y m n =
    let later = month_walk fuel y (suc m) (n - days_in_month y m) in
    if leb n (days_in_month y m) then some (date_of y m n) else later

year_walk : ℕ → ℕ → ℕ → Option Date
unfolding month_walk is_leap
year_walk zero y n = none
year_walk (suc fuel) y n =
    let length = if is_leap y then 366 else 365 in
    let later = year_walk fuel (suc y) (n - length) in
    if leb n length then month_walk 12 y 1 n else later

-- `date.fromordinal`: at most 9999 years are walked through.
unfoldable pub from_ordinal : ℕ → Option Date
unfolding year_walk
from_ordinal n = if n == 0 then none else year_walk 9999 1 n

put : ℕ → ℕ → Date → Date
put field d t =
    if field == b'Y'
    then record t { year = t.year * 10 + d }
    else if field == b'M'
    then record t { month = t.month * 10 + d }
    else record t { day = t.day * 10 + d }

-- A text of a fixed form: Y, M and D stand for a digit of the year, of the month or week, and of the
-- day, any other character for itself. Only ASCII digits count.
read_form : String → String → Date → Option Date
unfolding put
read_form String.[] String.[] t = some t
read_form (String.◌∷◌ f form) (String.◌∷◌ c s) t =
    if code f == b'Y' || code f == b'M' || code f == b'D'
    then (ascii_decimal c >>= λ d. read_form form s (put (code f) d t))
    else if code c == code f
    then read_form form s t
    else none
read_form _ _ t = none

-- The Monday of the first ISO week of a year: the week of 4 January. Day 1 is a Monday.
first_monday : ℕ → ℕ
unfolding days_before_year
first_monday y = let n = days_before_year y + 4 in n - (n - 1) % 7

-- The ISO weeks of a year: 53 if it starts on a Thursday, or on a Wednesday in a leap year.
weeks_in : ℕ → ℕ
unfolding days_before_year is_leap
weeks_in y =
    let weekday = days_before_year y % 7 in
    if weekday == 3 || (weekday == 2 && is_leap y) then 53 else 52

week_date : ℕ → ℕ → ℕ → Option Date
unfolding first_monday weeks_in from_ordinal
week_date y week day =
    if leb 1 y && leb y 9999 && leb 1 week && leb week (weeks_in y) && leb 1 day && leb day 7
    then from_ordinal (first_monday y + (week - 1) * 7 + (day - 1))
    else none

or_else : Option Date → Option Date → Option Date
or_else none other = other
or_else (some t) other = some t

-- `date.fromisoformat`: the calendar forms, and the week forms with and without a day.
unfoldable pub from_isoformat : String → Option Date
unfolding read_form week_date valid_date or_else
from_isoformat s =
    let read = λ (form : String). read_form form s (date_of 0 0 0) in
    let calendar : String → Option Date =
      λ form. read form >>= λ t. valid_date t.year t.month t.day in
    let week : String → Option Date = λ form. read form >>= λ t. week_date t.year t.month t.day in
    let monday : String → Option Date = λ form. read form >>= λ t. week_date t.year t.month 1 in
    or_else (calendar "YYYY-MM-DD") (
      or_else (calendar "YYYYMMDD") (
        or_else (week "YYYY-WMM-D")
          (or_else (week "YYYYWMMD") (or_else (monday "YYYY-WMM") (monday "YYYYWMM")))))

-- `t.isoformat()`
unfoldable pub isoformat : Date → String
unfolding pad
isoformat t =
    pad 4 t.year
      (String.◌∷◌ (char 45 tt) (pad 2 t.month (String.◌∷◌ (char 45 tt) (pad 2 t.day ""))))

-- `t.strftime("%d/%m/%Y")`
unfoldable pub day_first : Date → String
unfolding pad
day_first t =
    pad 2 t.day
      (String.◌∷◌ (char 47 tt) (pad 2 t.month (String.◌∷◌ (char 47 tt) (pad 4 t.year ""))))

three_ints : Option ℤ → Option ℤ → Option ℤ → Option Date
unfolding valid_date
three_ints (some (pos d)) (some (pos m)) (some (pos y)) = valid_date y m d
three_ints _ _ _ = none

module _ ⦃u : Unicode⦄ where
  from_parts : List String → Option Date
  unfolding parse_int three_ints
  from_parts (day ∷ month ∷ year ∷ []) =
      three_ints (parse_int day) (parse_int month) (parse_int year)
  from_parts _ = none

  -- Three numbers with strokes between them, the day first; otherwise an ISO date.
  unfoldable pub read_date : String → Option Date
  unfolding has_char split_on from_parts from_isoformat
  read_date s = if has_char b'/' s then from_parts (split_on (is_char b'/') s) else from_isoformat s
