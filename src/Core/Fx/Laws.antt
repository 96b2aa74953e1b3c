-- ===== src/Core/Fx/Laws.antt =====
-- What the lookup of core/services/fx.py finds in the table of rates.
use vault.Base.{
  ℕ, ◌≤◌, ◌≡◌, ◌≢◌, ◌↔◌, ◌⊎◌, inl, inr, refl, Bool, true, false, ◌||◌, List, [], ◌∷◌, Option, none,
  some, leb, ◌==◌, get_or, where_rows, Result, ok, err, missing_exchange_rate, arith, Error, ◌>>=◌,
  at_member, All, Has, Has-where_rows, All-where_rows, where_rows-nil, Bool-cases, ok-injective,
}
use vault.Decimal.{Context, Decimal, whole, divide, ◌⊗◌}
use vault.Core.Models.{Currency, ExchangeRate}
use vault.Core.Ordering.{Collation, first, first-IsNewest, first-none}
use vault.Core.Fx.{observed, quotes, pick_rate, get_fx_rate, convert_currency}

-- A row that states the rate between the two currencies, in one direction or the other, and is not
-- dated after the cutoff.
abbrev pub usable : Currency → Currency → ℕ → ExchangeRate → Bool
usable source target cutoff r = quotes source target cutoff r || quotes target source cutoff r

abbrev pub Gives : ⦃c : Context⦄ → Currency → Currency → ℕ → ExchangeRate → Decimal → Type 0
Gives source target cutoff row r =
    ((quotes source target cutoff row ≡ true) × (row.rate ≡ r))
    ⊎ ((quotes target source cutoff row ≡ true) × (divide (whole 1) row.rate ≡ ok r))

differ_pk : (source target : Currency) → source.pk ≢ target.pk → (source.pk == target.pk) ≡ false
differ_pk source target ne = ground arith

neither :
    (p q : ExchangeRate → Bool) (xs : List ExchangeRate)
    → All (λ x. p x ≡ false) xs
    → All (λ x. q x ≡ false) xs
    → All (λ x. (p x || q x) ≡ false) xs
neither p q [] h k = tt
neither p q (x ∷ xs) h k = (ground (arith, h.0, k.0), neither p q xs h.1 k.1)

module _ ⦃c : Context⦄ ⦃o : Collation⦄ (rates : List ExchangeRate) where
  abbrev Bounded : (ExchangeRate → Bool) → ℕ → Type 0
  Bounded p d = All (λ x. p x ≡ true → x.date ≤ d) rates

  -- What the two queries find.
  abbrev Found : (ExchangeRate → Bool) → Option ExchangeRate → Type 0
  Found p none = All (λ x. p x ≡ false) rates
  Found p (some row) = (p row ≡ true) × Has (λ x. x ≡ row) rates × Bounded p row.date

  Found-first : (p : ExchangeRate → Bool) → Found p (first observed (where_rows p rates))
  Found-first p = go (first observed (where_rows p rates)) refl
    where
      go : (r : Option ExchangeRate) → first observed (where_rows p rates) ≡ r → Found p r
      go none e = where_rows-nil p rates (first-none observed (where_rows p rates) e)
      go (some row) e =
          let (member, newest) = first-IsNewest observed (where_rows p rates) row e in
          let (passes, here) = Has-where_rows p rates row member in
          (passes, here, All-where_rows (λ x. x.date ≤ row.date) p rates newest)

  both_dates :
      (p q : ExchangeRate → Bool) (d : ℕ) (xs : List ExchangeRate)
      → All (λ x. p x ≡ true → x.date ≤ d) xs
      → All (λ x. q x ≡ true → x.date ≤ d) xs
      → All (λ x. (p x || q x) ≡ true → x.date ≤ d) xs
  both_dates p q d [] h k = tt
  both_dates p q d (x ∷ xs) h k = (λ e. ground (arith, h.0, k.0), both_dates p q d xs h.1 k.1)

  weaken :
      (p : ExchangeRate → Bool) (d d' : ℕ) (xs : List ExchangeRate)
      → d ≤ d'
      → All (λ x. p x ≡ true → x.date ≤ d) xs
      → All (λ x. p x ≡ true → x.date ≤ d') xs
  weaken p d d' [] l h = tt
  weaken p d d' (x ∷ xs) l h = (λ e. ground (arith, h.0 e), weaken p d d' xs l h.1)

  none_bounded :
      (p : ExchangeRate → Bool) (d : ℕ) (xs : List ExchangeRate)
      → All (λ x. p x ≡ false) xs
      → All (λ x. p x ≡ true → x.date ≤ d) xs
  none_bounded p d [] h = tt
  none_bounded p d (x ∷ xs) h = (λ e. absurd (cc (h.0)), none_bounded p d xs h.1)

  abbrev pub Newest : Currency → Currency → ℕ → Decimal → Type 0
  Newest source target cutoff r =
      (row : ExchangeRate) × Has (λ x. x ≡ row) rates
      × Gives source target cutoff row r
      × All (λ x. usable source target cutoff x ≡ true → x.date ≤ row.date) rates

  pick_rate-Newest :
      (source target : Currency) (cutoff : ℕ) (direct inverse : Option ExchangeRate) (r : Decimal)
      → Found (quotes source target cutoff) direct
      → Found (quotes target source cutoff) inverse
      → pick_rate direct inverse ≡ ok r
      → Newest source target cutoff r
  unfolding pick_rate
  pick_rate-Newest source target cutoff none none r d i h = cc
  pick_rate-Newest source target cutoff none (some b) r d i h =
      let p = quotes source target cutoff in
      let q = quotes target source cutoff in
      (b, i.1, inr (i.0, h), both_dates p q b.date rates (none_bounded p b.date rates d) i.2)
  pick_rate-Newest source target cutoff (some a) none r d i h =
      let p = quotes source target cutoff in
      let q = quotes target source cutoff in
      (a, d.1, inl (d.0, cc), both_dates p q a.date rates d.2 (none_bounded q a.date rates i))
  pick_rate-Newest source target cutoff (some a) (some b) r d i h =
      let p = quotes source target cutoff in
      let q = quotes target source cutoff in
      elim (Bool-cases (leb b.date a.date)) [
        | inl e ↦ (
          a,
          d.1,
          inl (d.0, ok-injective _ _ (rw e at h)),
          both_dates p q a.date rates d.2 (weaken q b.date a.date rates (ground arith) i.2),
        )
        | inr e ↦ (
          b,
          i.1,
          inr (i.0, rw e at h),
          both_dates p q b.date rates (weaken p a.date b.date rates (ground arith) d.2) i.2,
        )
      ]

  -- Between two different currencies a rate that is found comes from a row of the table in one
  -- direction or the other, not dated after the cutoff, such that no other such row is newer: it is
  -- the row's rate, or one divided by it if the row is stated the other way round.
  pub get_fx_rate-Newest :
      (today : ℕ) (source target : Currency) (as_of_date : Option ℕ) (r : Decimal)
      → source.pk ≢ target.pk
      → get_fx_rate rates today source target as_of_date ≡ ok r
      → Newest source target (get_or as_of_date today) r
  unfolding get_fx_rate
  get_fx_rate-Newest today source target as_of_date r ne h =
      let cutoff = get_or as_of_date today in
      pick_rate-Newest source target cutoff _ _ r (Found-first (quotes source target cutoff))
        (Found-first (quotes target source cutoff)) (rw (differ_pk source target ne) at h)

  pick_rate-missing :
      (source target : Currency) (cutoff : ℕ) (direct inverse : Option ExchangeRate)
      → Found (quotes source target cutoff) direct
      → Found (quotes target source cutoff) inverse
      → pick_rate direct inverse ≡ err missing_exchange_rate
      → All (λ x. usable source target cutoff x ≡ false) rates
  unfolding pick_rate divide
  pick_rate-missing source target cutoff none none d i h = neither _ _ rates d i
  pick_rate-missing source target cutoff none (some b) d i h = absurd (ground arith)
  pick_rate-missing source target cutoff (some a) none d i h = cc
  pick_rate-missing source target cutoff (some a) (some b) d i h = absurd (ground arith)

  pick_rate_empty :
      (source target : Currency) (cutoff : ℕ) (direct inverse : Option ExchangeRate)
      → Found (quotes source target cutoff) direct
      → Found (quotes target source cutoff) inverse
      → All (λ x. usable source target cutoff x ≡ false) rates
      → pick_rate direct inverse ≡ err missing_exchange_rate
  unfolding pick_rate
  pick_rate_empty source target cutoff none none d i h = refl
  pick_rate_empty source target cutoff none (some b) d i h =
      absurd (ground (arith, at_member _ rates b h i.1))
  pick_rate_empty source target cutoff (some a) inverse d i h =
      absurd (ground (arith, at_member _ rates a h d.1))

  -- Between two different currencies the missing rate is reported exactly when the table holds no
  -- observation in either direction on or before the cutoff.
  pub get_fx_rate-missing :
      (today : ℕ) (source target : Currency) (as_of_date : Option ℕ)
      → source.pk ≢ target.pk
      → (get_fx_rate rates today source target as_of_date ≡ err missing_exchange_rate)
        ↔ All (λ x. usable source target (get_or as_of_date today) x ≡ false) rates
  unfolding get_fx_rate
  get_fx_rate-missing today source target as_of_date ne =
      let cutoff = get_or as_of_date today in
      let d = Found-first (quotes source target cutoff) in
      let i = Found-first (quotes target source cutoff) in
      (
        λ h. pick_rate-missing source target cutoff _ _ d i (rw (differ_pk source target ne) at h),
        λ h. rw (differ_pk source target ne) (pick_rate_empty source target cutoff _ _ d i h),
      )

  -- A conversion fails exactly when the lookup of its rate does, with the same error.
  pub convert_currency-err :
      (today : ℕ) (amount : Decimal) (source target : Currency) (as_of_date : Option ℕ) (e : Error)
      → (convert_currency rates today amount source target as_of_date ≡ err e)
        ↔ (get_fx_rate rates today source target as_of_date ≡ err e)
  unfolding convert_currency
  convert_currency-err today amount source target as_of_date e =
      go (get_fx_rate rates today source target as_of_date)
    where
      go : (m : Result Decimal) → ((m >>= λ rate. ok (amount ⊗ rate)) ≡ err e) ↔ (m ≡ err e)
      go (ok rate) = (λ h. absurd (cc), λ h. absurd (cc))
      go (err e') = (λ h. h, λ h. h)
