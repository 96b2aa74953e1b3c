-- ===== src/Investments/Valuation/Completeness.antt =====
-- The flag and the warnings of a valuation of investments/services/valuation.py.
use vault.Base.{
  ℕ, ◌≡◌, ◌∙◌, refl, sym, ap, Bool, true, false, not, ◌&&◌, Option, none, some, List, [], ◌∷◌, ◌++◌,
  ◌==◌, is_none, get_or, where_rows, ◌⊎◌, inl, inr, ok, >>=-eq-ok, ok-injective, subst, Bool-cases,
}
use vault.Decimal.{Context, Decimal}
use vault.Core.Models.{Currency}
use vault.Core.Ordering.{Collation}
use vault.Accounts.Models.{FinancialAccount}
use vault.Investments.Holdings.{HoldingSnapshot, calculate_holdings}
use vault.Investments.Valuation.{
  Warning, HoldingValuation, PortfolioValuation, Totals, Converted, is_empty, distinct, add_row,
  start, convert_totals, all_converted, conversion, summarise, value_holding, value_holdings,
  open_holding, portfolio_value, calculate_portfolio_value, gain_of, value_of, if_complete,
}
use vault.Database.{Database}

-- The flag and the warnings agree.
abbrev IsWarned : Totals → Type 0
IsWarned t = t.complete ≡ is_empty t.warnings

is_empty-snoc : (ws : List Warning) (w : Warning) → is_empty (ws ++ w ∷ []) ≡ false
is_empty-snoc [] w = refl
is_empty-snoc (x ∷ ws) w = refl

is_empty-append : (ws vs : List Warning) → is_empty (ws ++ vs) ≡ (is_empty ws && is_empty vs)
is_empty-append [] vs = refl
is_empty-append (w ∷ ws) vs = refl

is_empty-distinct : (ws : List Warning) → is_empty (distinct [] ws) ≡ is_empty ws
unfolding distinct
is_empty-distinct [] = refl
is_empty-distinct (w ∷ ws) = refl

and_true : (b : Bool) → (b && true) ≡ b
and_true true = refl
and_true false = refl

and_false : (b : Bool) → (b && false) ≡ false
and_false true = refl
and_false false = refl

-- What the conversion of the totals leaves: all of them, or none and a warning.
abbrev IsConverted : Converted → Type 0
IsConverted v =
    (is_none v.cash ≡ not (is_empty v.missing))
    × (is_none v.total_cost ≡ not (is_empty v.missing))
    × (is_none v.realized ≡ not (is_empty v.missing))

all_converted-IsConverted : (a b r : Warning ⊎ Decimal) → IsConverted (all_converted a b r)
all_converted-IsConverted (inr x) (inr y) (inr z) = (refl, refl, refl)
all_converted-IsConverted (inl w) b r = (refl, refl, refl)
all_converted-IsConverted (inr x) (inl w) r = (refl, refl, refl)
all_converted-IsConverted (inr x) (inr y) (inl w) = (refl, refl, refl)

and_right : (a b : Bool) → (a && b) ≡ true → b ≡ true
and_right true b h = h
and_right false b h = cc

-- What a valuation satisfies: it is complete exactly when it gives no warning, and each figure
-- that needs every price and rate is there exactly when it is complete.
abbrev pub IsHonest : PortfolioValuation → Type 0
IsHonest v =
    (v.complete ≡ is_empty v.warnings)
    × (is_none v.market_value ≡ not v.complete)
    × (is_none v.unrealized_gain ≡ not v.complete)
    × (is_none v.total_account_value ≡ not v.complete)
    × (v.complete ≡ true
        → (is_none v.cost_basis ≡ false)
          × (is_none v.cash_balance ≡ false)
          × (is_none v.realized_gain ≡ false))

module _ ⦃c : Context⦄ where
  add_row-IsWarned :
      (t : Totals) (row : HoldingValuation) (o : Option Warning)
      → row.warning ≡ o
      → IsWarned t
      → IsWarned (add_row t row)
  add_row-IsWarned t row none e h = rw e (and_true t.complete ∙ h)
  add_row-IsWarned t row (some w) e h =
      rw e (and_false t.complete ∙ sym (is_empty-snoc t.warnings w))

  module _ ⦃o : Collation⦄ (db : Database) (today : ℕ) (account : FinancialAccount)
      (as_of_date : Option ℕ) (reporting : Currency) where
    value_holdings-IsWarned :
        (t t' : Totals) (hs : List HoldingSnapshot)
        → IsWarned t
        → value_holdings db today account as_of_date reporting t hs ≡ ok t'
        → IsWarned t'
    unfolding value_holdings
    value_holdings-IsWarned t t' [] v h = subst IsWarned (ok-injective _ _ h) v
    value_holdings-IsWarned t t' (x ∷ hs) v h =
        let (row, _, rest) =
          >>=-eq-ok (value_holding db today account as_of_date reporting x) _ h in
        value_holdings-IsWarned (add_row t row) t' hs (add_row-IsWarned t row row.warning refl v)
          rest

    convert_totals-IsConverted :
        (cash cost realized : Decimal) (v : Converted)
        → convert_totals db today account as_of_date reporting cash cost realized ≡ ok v
        → IsConverted v
    unfolding convert_totals
    convert_totals-IsConverted cash cost realized v h =
        elim (Bool-cases (reporting.pk == account.currency.pk)) [
          | inl e ↦ subst IsConverted (ok-injective _ _ (rw e at h)) (refl, refl, refl)
          | inr e ↦
              let (a, _, h1) =
                >>=-eq-ok (conversion db today account as_of_date reporting cash account.currency) _
                  (rw e at h) in
              let (b, _, h2) =
                >>=-eq-ok (conversion db today account as_of_date reporting cost account.currency) _
                  h1 in
              let (r, _, done) =
                >>=-eq-ok
                  (conversion db today account as_of_date reporting realized account.currency) _
                  h2 in
              subst IsConverted (ok-injective _ _ done) (all_converted-IsConverted a b r)
        ]

    figures :
        (b m : Bool) (cost cash : Option Decimal) (market : Decimal)
        → is_none cash ≡ not m
        → is_none cost ≡ not m
        → (is_none (if_complete db today account as_of_date reporting (b && m) market)
            ≡ not (b && m))
          × (is_none (gain_of db today account as_of_date reporting (b && m) market cost)
              ≡ not (b && m))
          × (is_none (value_of db today account as_of_date reporting (b && m) market cash)
              ≡ not (b && m))
    figures false m cost cash market h k = (refl, refl, refl)
    figures true false cost cash market h k = (refl, refl, refl)
    figures true true none none market h k = cc
    figures true true none (some y) market h k = cc
    figures true true (some x) none market h k = cc
    figures true true (some x) (some y) market h k = (refl, refl, refl)

    summarise-IsHonest :
        (t : Totals) (v : Converted)
        → IsWarned t
        → IsConverted v
        → IsHonest (summarise db today account as_of_date reporting t v)
    unfolding summarise
    summarise-IsHonest t v h k =
        let (market, gain, total) =
          figures t.complete (is_empty v.missing) v.total_cost v.cash t.total_market k.0 k.1 in
        (
          ap (λ b. b && is_empty v.missing) h
              ∙ sym (is_empty-append t.warnings v.missing)
              ∙ sym (is_empty-distinct (t.warnings ++ v.missing)),
          market,
          gain,
          total,
          λ whole.
              let none_missing = and_right t.complete (is_empty v.missing) whole in
              (k.1 ∙ ap not none_missing, k.0 ∙ ap not none_missing, k.2 ∙ ap not none_missing),
        )

    portfolio_value-IsHonest :
        (v : PortfolioValuation)
        → portfolio_value db today account as_of_date reporting ≡ ok v
        → IsHonest v
    unfolding portfolio_value
    portfolio_value-IsHonest v h =
        let (all, _, h1) =
          >>=-eq-ok (calculate_holdings db.investments account as_of_date true) _ h in
        let (t, two, h2) =
          >>=-eq-ok
            (value_holdings db today account as_of_date reporting
              (start db today account as_of_date reporting) (where_rows open_holding all))
            _ h1 in
        let (x, three, done) =
          >>=-eq-ok (convert_totals db today account as_of_date reporting _ _ _) _ h2 in
        subst IsHonest (ok-injective _ _ done) (
          summarise-IsHonest t x (value_holdings-IsWarned _ t _ refl two)
            (convert_totals-IsConverted _ _ _ x three))

  -- A valuation that is returned is complete exactly when it gives no warning, and its market
  -- value, its unrealized gain and its total value are there exactly when it is complete. When it
  -- is complete its cost basis, its cash and its realized gain are there, too.
  pub calculate_portfolio_value-IsHonest :
      ⦃o : Collation⦄ (db : Database) (today : ℕ) (account : FinancialAccount)
      (as_of_date : Option ℕ) (reporting_currency : Option Currency) (v : PortfolioValuation)
      → calculate_portfolio_value db today account as_of_date reporting_currency ≡ ok v
      → IsHonest v
  unfolding calculate_portfolio_value
  calculate_portfolio_value-IsHonest db today account as_of_date reporting_currency v h =
      portfolio_value-IsHonest db today account as_of_date
        (get_or reporting_currency account.currency) v h
