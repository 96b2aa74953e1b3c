-- ===== src/Investments/Pricing/Newest.antt =====
-- What the query of investments/services/pricing.py finds in the table of prices.
use vault.Base.{
  ◌<◌, arith, All_map, ℕ, ◌≤◌, ◌≡◌, ◌↔◌, refl, true, false, Option, none, some, List, All, Has,
  get_or, where_rows, All-where_rows, Has-where_rows, where_rows-nil, where_rows-none,
}
use vault.Core.Ordering.{Collation, first, first-none, first-IsNewest}
use vault.Investments.Models.{Security, SecurityPrice}
use vault.Investments.Pricing.{priced, price_of, get_latest_price}

module _ ⦃o : Collation⦄ (prices : List SecurityPrice) (today : ℕ) (security : Security)
    (as_of_date : Option ℕ) where
  -- A price that is found is a price of the security in the table, not dated after the cutoff, and
  -- no other such price is newer.
  pub get_latest_price-Newest :
      (p : SecurityPrice)
      → get_latest_price prices today security as_of_date ≡ some p
      → Has (λ x. x ≡ p) prices
        × (price_of security (get_or as_of_date today) p ≡ true)
        × All (λ x. price_of security (get_or as_of_date today) x ≡ true → x.date ≤ p.date) prices
  unfolding get_latest_price
  get_latest_price-Newest p h =
      let test = price_of security (get_or as_of_date today) in
      let (member, newest) = first-IsNewest priced (where_rows test prices) p h in
      let (passes, here) = Has-where_rows test prices p member in
      (here, passes, All-where_rows (λ x. x.date ≤ p.date) test prices newest)

  price_of-false :
      (cutoff : ℕ) (x : SecurityPrice)
      → (price_of security cutoff x ≡ false) ↔ (x.security.pk ≡ security.pk → cutoff < x.date)
  price_of-false cutoff x = ground arith

  -- No price is found exactly when every price of the security in the table is dated after the
  -- cutoff, which is today where no date is given.
  pub get_latest_price-none :
      (get_latest_price prices today security as_of_date ≡ none)
      ↔ All (λ x. x.security.pk ≡ security.pk → get_or as_of_date today < x.date) prices
  unfolding get_latest_price first
  get_latest_price-none =
      let cutoff = get_or as_of_date today in
      let test = price_of security cutoff in
      (
        λ h.
            All_map _ _ prices (λ x. (price_of-false cutoff x).0)
              (where_rows-nil test prices (first-none priced (where_rows test prices) h)),
        λ h.
            rw
              (where_rows-none test prices
                (All_map _ _ prices (λ x. (price_of-false cutoff x).1) h))
              refl,
      )
