-- ===== src/Investments/Views/Totals.antt =====
-- The totals of investments/views.py over the accounts.
use vault.Base.{
  ℕ, ◌≡◌, refl, ap, subst, ◌∙◌, Bool, true, false, not, ◌&&◌, Option, none, some, List, [], ◌∷◌,
  where_rows, is_none, get_or, All, All_map, All_zip, Bool-cases, Option-cases, inl, inr, ok,
  ok-injective, >>=-eq-ok, >>=-pass, map_result,
}
use vault.Decimal.{Context, Decimal, decimal_zero, ◌⊕◌}
use vault.Core.Models.{Currency}
use vault.Core.Ordering.{Collation}
use vault.Accounts.Models.{FinancialAccount}
use vault.Investments.Valuation.{PortfolioValuation}
use vault.Investments.Valuation.Completeness.{IsHonest, calculate_portfolio_value-IsHonest}
use vault.Investments.Views.{
  sum_values, sum_if, all, values_of, PortfolioSummary, brokerage_of, value_account,
  portfolio_summary, portfolio,
}
use vault.Database.{Database}

all-true :
    (p : PortfolioValuation → Bool) (vs : List PortfolioValuation)
    → all p vs ≡ true
    → All (λ v. p v ≡ true) vs
all-true p [] h = tt
all-true p (v ∷ vs) h = elim (Bool-cases (p v)) [
  | inl e ↦ (e, all-true p vs (rw e at h))
  | inr e ↦ absurd (cc (rw e at h))
]

module _ ⦃c : Context⦄ where
  sum_values-ok :
      (f : PortfolioValuation → Option Decimal) (vs : List PortfolioValuation) (total : Decimal)
      → All (λ v. is_none (f v) ≡ false) vs
      → (sum : Decimal) × (sum_values total (values_of f vs) ≡ ok sum)
  unfolding sum_values
  sum_values-ok f [] total h = (total, refl)
  sum_values-ok f (v ∷ vs) total h = elim (Option-cases (f v)) [
    | inl e ↦ absurd (cc (rw e at h.0))
    | inr (a, e) ↦ let (sum, done) = sum_values-ok f vs (total ⊕ a) h.1 in (sum, rw e done)
  ]

  -- A total is there exactly when it is asked for.
  sum_if-ok :
      (f : PortfolioValuation → Option Decimal) (vs : List PortfolioValuation) (test : Bool)
      → (test ≡ true → All (λ v. is_none (f v) ≡ false) vs)
      → (sum : Option Decimal) × (sum_if test (values_of f vs) ≡ ok sum) × (is_none sum ≡ not test)
  unfolding sum_if
  sum_if-ok f vs false h = (none, refl, refl)
  sum_if-ok f vs true h =
      let (sum, e) = sum_values-ok f vs decimal_zero (h refl) in
      (some sum, >>=-pass (sum_values decimal_zero (values_of f vs)) _ sum _ e refl, refl)

  -- What a summary of valuations says: every figure is there exactly when all valuations are
  -- complete, and the total value only if the reporting currency is known, too.
  pub record IsSummary (currency : Option Currency) (vs : List PortfolioValuation)
      (s : PortfolioSummary) : Type 0 where
    pub complete : s.complete ≡ all (λ v. v.complete) vs
    pub total : is_none s.total_account_value ≡ not (s.complete && not (is_none currency))
    pub cash : is_none s.cash ≡ not s.complete
    pub cost : is_none s.cost_basis ≡ not s.complete
    pub unrealized : is_none s.unrealized_gain ≡ not s.complete
    pub realized : is_none s.realized_gain ≡ not s.complete

  and_left : (a b : Bool) → (a && b) ≡ true → a ≡ true
  and_left true b h = refl
  and_left false b h = h

  -- A figure that is there in every complete valuation.
  there :
      (f : PortfolioValuation → Option Decimal) (vs : List PortfolioValuation)
      → ((v : PortfolioValuation) → IsHonest v → v.complete ≡ true → is_none (f v) ≡ false)
      → All IsHonest vs
      → all (λ v. v.complete) vs ≡ true
      → All (λ v. is_none (f v) ≡ false) vs
  there f vs figure honest complete =
      All_map (λ v. IsHonest v × (v.complete ≡ true)) (λ v. is_none (f v) ≡ false) vs
        (λ v p. figure v p.0 p.1) (All_zip _ _ vs honest (all-true (λ v. v.complete) vs complete))

  module _ ⦃o : Collation⦄ where
    portfolio_summary-ok :
        (currency : Option Currency) (vs : List PortfolioValuation)
        → All IsHonest vs
        → (s : PortfolioSummary) × (portfolio_summary currency vs ≡ ok s) × IsSummary currency vs s
    unfolding portfolio_summary
    portfolio_summary-ok currency vs honest =
        let complete = all (λ (v : PortfolioValuation). v.complete) vs in
        let known = complete && not (is_none currency) in
        let (total, t, ht) =
          sum_if-ok (λ v. v.total_account_value) vs known
            (λ e.
              there (λ v. v.total_account_value) vs (λ v h w. h.3 ∙ ap not w) honest
                (and_left complete _ e)) in
        let (cash, a, ha) =
          sum_if-ok (λ v. v.cash_balance) vs complete
            (there (λ v. v.cash_balance) vs (λ v h w. (h.4 w).1) honest) in
        let (cost, b, hb) =
          sum_if-ok (λ v. v.cost_basis) vs complete
            (there (λ v. v.cost_basis) vs (λ v h w. (h.4 w).0) honest) in
        let (gain, g, hg) =
          sum_if-ok (λ v. v.unrealized_gain) vs complete
            (there (λ v. v.unrealized_gain) vs (λ v h w. h.2 ∙ ap not w) honest) in
        let (real, r, hr) =
          sum_if-ok (λ v. v.realized_gain) vs complete
            (there (λ v. v.realized_gain) vs (λ v h w. (h.4 w).2) honest) in
        (
          _,
          >>=-pass (sum_if known (values_of (λ v. v.total_account_value) vs)) _ total _ t (
              >>=-pass (sum_if complete (values_of (λ v. v.cash_balance) vs)) _ cash _ a (
                >>=-pass (sum_if complete (values_of (λ v. v.cost_basis) vs)) _ cost _ b (
                  >>=-pass (sum_if complete (values_of (λ v. v.unrealized_gain) vs)) _ gain _ g (
                    >>=-pass (sum_if complete (values_of (λ v. v.realized_gain) vs)) _ real _ r
                      refl)))),
          record {
            complete = refl;
            total = ht;
            cash = ha;
            cost = hb;
            unrealized = hg;
            realized = hr;
          },
        )

    valuations-IsHonest :
        (db : Database) (today : ℕ) (currency : Option Currency) (accounts : List FinancialAccount)
        (vs : List PortfolioValuation)
        → map_result (value_account db today currency) accounts ≡ ok vs
        → All IsHonest vs
    unfolding value_account
    valuations-IsHonest db today currency [] vs h = subst (All IsHonest) (ok-injective _ _ h) tt
    valuations-IsHonest db today currency (a ∷ accounts) vs h =
        let (v, e, h1) = >>=-eq-ok (value_account db today currency a) _ h in
        let (rest, r, done) =
          >>=-eq-ok (map_result (value_account db today currency) accounts) _ h1 in
        subst (All IsHonest) (ok-injective _ _ done) (
          calculate_portfolio_value-IsHonest db today a none (some (get_or currency a.currency)) v
              e,
          valuations-IsHonest db today currency accounts rest r,
        )

    -- Where the valuations of the user's active brokerage accounts are all returned, the portfolio
    -- page is, too: no missing figure is added. The page is complete exactly when all valuations
    -- are, and each of its figures is there exactly then, the total value only if the default
    -- currency is known as well.
    pub portfolio-ok :
        (user today : ℕ) (currency : Option Currency) (accounts : List FinancialAccount)
        (db : Database) (vs : List PortfolioValuation)
        → map_result
            (value_account db today currency)
            (where_rows (λ a. brokerage_of user a && a.active) accounts)
          ≡ ok vs
        → (s : PortfolioSummary) × (portfolio user today currency accounts db ≡ ok (vs, s))
          × IsSummary currency vs s
    unfolding portfolio
    portfolio-ok user today currency accounts db vs h =
        let chosen = where_rows (λ a. brokerage_of user a && a.active) accounts in
        let (s, e, summary) =
          portfolio_summary-ok currency vs (valuations-IsHonest db today currency chosen vs h) in
        (
          s,
          >>=-pass (map_result (value_account db today currency) chosen) _ vs _ h
              (>>=-pass (portfolio_summary currency vs) _ s _ e refl),
          summary,
        )
