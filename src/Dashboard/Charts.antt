-- ===== src/Dashboard/Charts.antt =====
-- The charts of dashboard/views.py: their order, their length and their percentages.
use native.Mathlib.Nat.{div-le_of_le-mul}
use vault.Base.{
  ℕ, zero, suc, ◌^◌, ◌≤◌, ◌<◌, ◌≡◌, refl, false, String, List, [], ◌∷◌, map, ltb, if◌then◌else◌,
  length, magnitude, pos, negsuc, ◌≤ℤ◌, ◌<ℤ◌, ltb_ℤ, eqb_ℤ, All, All_map, All_zip, All-map,
  Bool-cases, inl, inr, arith,
}
use vault.Decimal.{Context, Decimal, decimal_zero, whole, abs}
use vault.Decimal.Laws.{percent-le}
use vault.Core.Calendar.{Date, date_of}
use vault.Dashboard.{
  Balanced, Bar, bars_of, insert_bar, sort_bars, maximum_from, maximum, first_eight, whole_part,
  share_of, with_share, account_chart, month_row, cashflow_chart, months_to, month_amount, first_of,
}
use vault.Database.{Database}

larger : (m x : Decimal) → (m ≤ℤ (if ltb_ℤ m x then x else m)) × (x ≤ℤ (if ltb_ℤ m x then x else m))
larger m x = ground arith

maximum_from-le :
    (m : Decimal) (xs : List Decimal)
    → (m ≤ℤ maximum_from m xs) × All (λ x. x ≤ℤ maximum_from m xs) xs
unfolding maximum_from
maximum_from-le m [] = (omega arith, tt)
maximum_from-le m (x ∷ xs) =
    let (a, b) = maximum_from-le (if ltb_ℤ m x then x else m) xs in
    let (m_le, x_le) = larger m x in (omega (arith, m_le, a), (omega (arith, x_le, a), b))

le_maximum : (xs : List Decimal) (d : Decimal) → All (λ x. x ≤ℤ maximum xs d) xs
unfolding maximum
le_maximum [] d = tt
le_maximum (x ∷ xs) d = maximum_from-le x xs

All-unmap :
    {A : Type 0} (f : A → Decimal) (P : Decimal → Type 0) (xs : List A)
    → All P (map f xs)
    → All (λ x. P (f x)) xs
All-unmap f P [] h = tt
All-unmap f P (x ∷ xs) h = (h.0, All-unmap f P xs h.1)

-- Every amount is at least those after it.
abbrev pub IsDescending : List Bar → Type 0
IsDescending [] = Unit
IsDescending (x ∷ xs) = All (λ y. y.amount ≤ℤ x.amount) xs × IsDescending xs

All-insert_bar :
    (P : Bar → Type 0) (x : Bar) (ys : List Bar) → P x → All P ys → All P (insert_bar x ys)
unfolding insert_bar
All-insert_bar P x [] h k = (h, tt)
All-insert_bar P x (y ∷ ys) h k = elim (Bool-cases (ltb_ℤ x.amount y.amount)) [
  | inl e ↦ rw e (k.0, All-insert_bar P x ys h k.1)
  | inr e ↦ rw e (h, k)
]

below_trans :
    (a b : Decimal) (ys : List Bar)
    → a ≤ℤ b
    → All (λ y. y.amount ≤ℤ a) ys
    → All (λ y. y.amount ≤ℤ b) ys
below_trans a b ys h k = All_map _ _ ys (λ y p. omega arith) k

insert_bar-IsDescending :
    (x : Bar) (ys : List Bar) → IsDescending ys → IsDescending (insert_bar x ys)
unfolding insert_bar
insert_bar-IsDescending x [] h = (tt, tt)
insert_bar-IsDescending x (y ∷ ys) h = elim (Bool-cases (ltb_ℤ x.amount y.amount)) [
  | inl e ↦ rw e (
    All-insert_bar (λ z. z.amount ≤ℤ y.amount) x ys (ground arith) h.0,
    insert_bar-IsDescending x ys h.1,
  )
  | inr e ↦ rw e ((ground arith, below_trans y.amount x.amount ys (ground arith) h.0), h)
]

All-sort_bars : (P : Bar → Type 0) (xs : List Bar) → All P xs → All P (sort_bars xs)
unfolding sort_bars
All-sort_bars P [] h = tt
All-sort_bars P (x ∷ xs) h = All-insert_bar P x (sort_bars xs) h.0 (All-sort_bars P xs h.1)

sort_bars-IsDescending : (xs : List Bar) → IsDescending (sort_bars xs)
unfolding sort_bars
sort_bars-IsDescending [] = tt
sort_bars-IsDescending (x ∷ xs) =
    insert_bar-IsDescending x (sort_bars xs) (sort_bars-IsDescending xs)

All-first_eight : (P : Bar → Type 0) (n : ℕ) (xs : List Bar) → All P xs → All P (first_eight n xs)
unfolding first_eight
All-first_eight P zero xs h = tt
All-first_eight P (suc n) [] h = tt
All-first_eight P (suc n) (x ∷ xs) h = (h.0, All-first_eight P n xs h.1)

first_eight-IsDescending :
    (n : ℕ) (xs : List Bar) → IsDescending xs → IsDescending (first_eight n xs)
unfolding first_eight
first_eight-IsDescending zero xs h = tt
first_eight-IsDescending (suc n) [] h = tt
first_eight-IsDescending (suc n) (x ∷ xs) h =
    (All-first_eight _ n xs h.0, first_eight-IsDescending n xs h.1)

length-first_eight : (n : ℕ) (xs : List Bar) → length (first_eight n xs) ≤ n
unfolding first_eight
length-first_eight zero xs = omega arith
length-first_eight (suc n) [] = omega arith
length-first_eight (suc n) (x ∷ xs) = omega (arith, length-first_eight n xs)

abs_positive : (a : Decimal) → eqb_ℤ (abs a) decimal_zero ≡ false → decimal_zero <ℤ abs a
unfolding abs
abs_positive a h = ground arith

bars_of-positive :
    (accounts : List Balanced) → All (λ b. decimal_zero <ℤ b.amount) (bars_of accounts)
unfolding bars_of
bars_of-positive [] = tt
bars_of-positive (a ∷ accounts) = elim (Bool-cases (eqb_ℤ (abs a.balance) decimal_zero)) [
  | inl e ↦ rw e (bars_of-positive accounts)
  | inr e ↦ rw e (abs_positive a.balance e, bars_of-positive accounts)
]

module _ ⦃c : Context⦄ where
  -- A share of a whole that is at least as large is at most 100.
  pub share_of-le :
      (a m : Decimal)
      → 0 < c.prec
      → decimal_zero ≤ℤ a
      → a ≤ℤ m
      → decimal_zero <ℤ m
      → share_of a m ≤ 100
  unfolding share_of whole_part
  share_of-le (negsuc n) m pr h k p = absurd (omega arith)
  share_of-le (pos n) (negsuc m) pr h k p = absurd (omega arith)
  share_of-le (pos n) (pos m) pr h k p =
      div-le_of_le-mul (10 ^ c.places)
        (omega (arith, percent-le n m pr (omega arith) (omega arith)))

  -- What a chart of accounts satisfies.
  pub record IsChart (bars : List Bar) : Type 0 where
    pub descending : IsDescending bars
    pub short : length bars ≤ 8
    pub shares : All (λ b. (4 ≤ b.percentage) × (b.percentage ≤ 100)) bars

  with_share-IsDescending :
      (m : Decimal) (xs : List Bar) → IsDescending xs → IsDescending (map (with_share m) xs)
  unfolding with_share
  with_share-IsDescending m [] h = tt
  with_share-IsDescending m (x ∷ xs) h = (
    All-map (λ y. y.amount ≤ℤ x.amount) (λ y. y.amount ≤ℤ x.amount) (with_share m) xs (λ y p. p)
        h.0,
    with_share-IsDescending m xs h.1,
  )

  at_least_four :
      (n : ℕ) → n ≤ 100 → (4 ≤ (if ltb 4 n then n else 4)) × ((if ltb 4 n then n else 4) ≤ 100)
  at_least_four n h = ground arith

  with_share-bounds :
      (m : Decimal) (b : Bar)
      → 0 < c.prec
      → decimal_zero <ℤ b.amount
      → b.amount ≤ℤ m
      → (4 ≤ (with_share m b).percentage) × ((with_share m b).percentage ≤ 100)
  unfolding with_share
  with_share-bounds m b pr h k =
      at_least_four (share_of b.amount m) (share_of-le b.amount m pr (omega arith) k (omega arith))

  -- Under a context of at least one digit, the chart of accounts has at most eight bars, in
  -- descending order of amount, and every percentage is from 4 to 100.
  pub account_chart-IsChart :
      (accounts : List Balanced) → 0 < c.prec → IsChart (account_chart accounts)
  unfolding account_chart
  account_chart-IsChart accounts pr =
      let bars = sort_bars (bars_of accounts) in
      let m = maximum (map (λ (b : Bar). b.amount) bars) (whole 1) in
      let positive = All-sort_bars _ (bars_of accounts) (bars_of-positive accounts) in
      let below = All-unmap (λ (b : Bar). b.amount) (λ x. x ≤ℤ m) bars (le_maximum _ (whole 1)) in
      record {
        descending =
            first_eight-IsDescending 8 _
              (with_share-IsDescending m bars (sort_bars-IsDescending (bars_of accounts)));
        short = length-first_eight 8 (map (with_share m) bars);
        shares = All-first_eight _ 8 _ (
            All-map (λ (b : Bar). (decimal_zero <ℤ b.amount) × (b.amount ≤ℤ m)) _ (with_share m)
              bars (λ b p. with_share-bounds m b pr p.0 p.1) (All_zip _ _ bars positive below));
      }

  month_row-le :
      (m amount : Decimal) (month : Date)
      → 0 < c.prec
      → abs amount ≤ℤ m
      → (month_row m month amount).percentage ≤ 100
  unfolding month_row abs
  month_row-le m amount month pr h = elim (Bool-cases (eqb_ℤ m decimal_zero)) [
    | inl e ↦ rw e (omega arith)
    | inr e ↦ rw e (share_of-le (pos (magnitude amount)) m pr (omega arith) h (ground arith))
  ]

  pub cashflow_chart-IsShare :
      (user : ℕ) (code : String) (today : Date) (db : Database)
      → 0 < c.prec
      → (length (cashflow_chart user code today db) ≡ 6)
        × All (λ row. row.percentage ≤ 100) (cashflow_chart user code today db)
  unfolding cashflow_chart months_to
  cashflow_chart-IsShare user code today db pr =
      let this_month = date_of today.year today.month 1 in
      let months = months_to 6 this_month [] in
      let amount = month_amount user code (first_of months this_month) db in
      let m = maximum (map (λ (t : Date). abs (amount t)) months) (whole 1) in
      let amounts = map (λ (t : Date). abs (amount t)) months in
      (
        refl,
        All-map (λ (t : Date). abs (amount t) ≤ℤ m) (λ row. row.percentage ≤ 100)
            (λ t. month_row m t (amount t)) months (λ t h. month_row-le m (amount t) t pr h)
            (All-unmap (λ (t : Date). abs (amount t)) (λ x. x ≤ℤ m) months
              (le_maximum amounts (whole 1))),
      )
