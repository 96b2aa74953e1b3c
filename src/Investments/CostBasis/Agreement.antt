-- ===== src/Investments/CostBasis/Agreement.antt =====
-- One step of the audit trail of investments/services/cost_basis.py beside one step of the replay of
-- holdings.py.
use mathlib.Core.Path.{subst}
use vault.Base.{
  Error, ap₂, ◌≡◌, refl, ap, sym, ◌∙◌, Bool, true, false, ◌||◌, Option, none, some, List, [], ◌∷◌,
  if◌then◌else◌, All, Result, ok, err, ◌>>=◌, >>=-eq-ok, >>=-pass, if-true, if-false, ok-injective,
  ◌⊎◌, inl, inr, ltb_ℤ, eqb_ℤ, arith,
}
use vault.Decimal.{Context, Decimal, decimal_zero, ◌⊕◌, divide, quotient}
use vault.Decimal.Laws.{divide-ne_zero}
use vault.Accounts.Models.{FinancialAccount}
use vault.Ledger.Models.{TransactionType, buy, sell, is_type}
use vault.Investments.Models.{InvestmentTransaction}
use vault.Investments.Holdings.{
  Position, required, rate_to_account, buy_at, apply_buy, apply_sell, sell_at, apply_by, apply_item,
}
use vault.Investments.CostBasis.{RealizedGainEvent, Cost, event_rate, buy_trade, sell_trade, trade}

-- The part of a position that the audit trail keeps.
abbrev pub cost_of : Position → Cost
cost_of p = record { quantity = p.quantity; native_cost = p.native_cost; base_cost = p.base_cost }

abbrev pub IsTrade : InvestmentTransaction → Type 0
IsTrade i = (i.transaction.transaction_type ≡ buy) ⊎ (i.transaction.transaction_type ≡ sell)

required-ok : (o : Option Decimal) (q : Decimal) → required o ≡ ok q → o ≡ some q
required-ok none q h = cc
required-ok (some a) q h = cc

is_buy : (t : TransactionType) → t ≡ buy → is_type t buy ≡ true
is_buy t e = rw e refl

is_sell : (t : TransactionType) → t ≡ sell → is_type t buy ≡ false
is_sell t e = rw e refl

if-err :
    {A : Type 0} (b : Bool) (e : Error) (m : Result A) (a : A)
    → (if b then err e else m) ≡ ok a
    → (b ≡ false) × (m ≡ ok a)
if-err true e m a h = cc
if-err false e m a h = (refl, h)

neither_of : (a b : Bool) → (a || b) ≡ false → (a ≡ false) × (b ≡ false)
neither_of a b h = ground arith

module _ ⦃c : Context⦄ where
  -- The gains of the events, added in their order to a start.
  abbrev pub sum_gain : List RealizedGainEvent → Decimal → Decimal
  sum_gain [] acc = acc
  sum_gain (e ∷ es) acc = sum_gain es (acc ⊕ e.gain)

  abbrev pub sum_gain_base : List RealizedGainEvent → Decimal → Decimal
  sum_gain_base [] acc = acc
  sum_gain_base (e ∷ es) acc = sum_gain_base es (acc ⊕ e.gain_base)

  -- A step of both replays from the same position.
  abbrev pub Agrees : Position → InvestmentTransaction → Cost → List RealizedGainEvent → Type 0
  Agrees p i cost es =
      (p' : Position) × (apply_item p i ≡ ok p')
      × (cost_of p' ≡ cost)
      × (p'.realized ≡ sum_gain es p.realized)
      × (p'.realized_base ≡ sum_gain_base es p.realized_base)
      × All (λ e. e.investment_transaction ≡ i) es

  rate_agrees :
      (account : FinancialAccount) (i : InvestmentTransaction)
      → i.account.currency.pk ≡ account.currency.pk
      → event_rate account i ≡ rate_to_account i
  unfolding event_rate rate_to_account
  rate_agrees account i same = rw same refl

  buy_runs :
      (p : Position) (i : InvestmentTransaction) (q r : Decimal)
      → i.quantity ≡ some q
      → rate_to_account i ≡ ok r
      → apply_by buy p i ≡ ok (buy_at p i q r)
  unfolding apply_by apply_buy
  buy_runs p i q r eq rate = ground (arith, eq, rate)

  sell_runs :
      (p : Position) (i : InvestmentTransaction) (q r : Decimal)
      → i.quantity ≡ some q
      → ltb_ℤ p.quantity q ≡ false
      → eqb_ℤ p.quantity decimal_zero ≡ false
      → rate_to_account i ≡ ok r
      → apply_by sell p i
        ≡ ok (sell_at p i q (quotient p.native_cost p.quantity) (quotient p.base_cost p.quantity) r)
  unfolding apply_by apply_sell
  sell_runs p i q r eq enough held rate =
      let native = quotient p.native_cost p.quantity in
      let base = quotient p.base_cost p.quantity in
      >>=-pass (required i.quantity) _ q _ (ap required eq) (
        if-false (ltb_ℤ p.quantity q) _ _ enough
        ∙ >>=-pass (divide p.native_cost p.quantity) _ native _ (divide-ne_zero _ _ held) (
            >>=-pass (divide p.base_cost p.quantity) _ base _ (divide-ne_zero _ _ held)
              (>>=-pass (rate_to_account i) _ r _ rate refl)))

  buy-Agrees :
      (account : FinancialAccount) (p : Position) (i : InvestmentTransaction) (q : Decimal)
      (cost : Cost) (es : List RealizedGainEvent)
      → i.account.currency.pk ≡ account.currency.pk
      → i.transaction.transaction_type ≡ buy
      → i.quantity ≡ some q
      → (event_rate account i >>= λ rate. ok (buy_trade (cost_of p) i q rate)) ≡ ok (cost, es)
      → Agrees p i cost es
  unfolding apply_item buy_at
  buy-Agrees account p i q cost es same kind eq h =
      let (r, er, h') = >>=-eq-ok (event_rate account i) _ h in
      let e = ok-injective _ _ h' in
      let rate = sym (rate_agrees account i same) ∙ er in
      (
        buy_at p i q r,
        ap (λ t. apply_by t p i) kind ∙ buy_runs p i q r eq rate,
        ap (λ t. t.0) e,
        ap (λ t. sum_gain t.1 p.realized) e,
        ap (λ t. sum_gain_base t.1 p.realized_base) e,
        subst (λ t. All (λ x. x.investment_transaction ≡ i) t.1) e tt,
      )

  sell-Agrees :
      (account : FinancialAccount) (p : Position) (i : InvestmentTransaction) (q : Decimal)
      (cost : Cost) (es : List RealizedGainEvent)
      → i.account.currency.pk ≡ account.currency.pk
      → i.transaction.transaction_type ≡ sell
      → i.quantity ≡ some q
      → ltb_ℤ p.quantity q ≡ false
      → eqb_ℤ p.quantity decimal_zero ≡ false
      → (event_rate account i >>= λ rate. ok (
          sell_trade
            (cost_of p)
            i
            q
            (quotient p.native_cost p.quantity)
            (quotient p.base_cost p.quantity)
            rate))
        ≡ ok (cost, es)
      → Agrees p i cost es
  unfolding apply_item sell_at
  sell-Agrees account p i q cost es same kind eq enough held h =
      let (r, er, h') = >>=-eq-ok (event_rate account i) _ h in
      let e = ok-injective _ _ h' in
      let rate = sym (rate_agrees account i same) ∙ er in
      let native = quotient p.native_cost p.quantity in
      let base = quotient p.base_cost p.quantity in
      (
        sell_at p i q native base r,
        ap (λ t. apply_by t p i) kind ∙ sell_runs p i q r eq enough held rate,
        ap (λ t. t.0) e,
        ap (λ t. sum_gain t.1 p.realized) e,
        ap (λ t. sum_gain_base t.1 p.realized_base) e,
        subst (λ t. All (λ x. x.investment_transaction ≡ i) t.1) e (refl, tt),
      )

  pub trade-Agrees :
      (account : FinancialAccount) (p : Position) (i : InvestmentTransaction) (cost : Cost)
      (es : List RealizedGainEvent)
      → i.account.currency.pk ≡ account.currency.pk
      → IsTrade i
      → trade account (cost_of p) i ≡ ok (cost, es)
      → Agrees p i cost es
  unfolding trade
  trade-Agrees account p i cost es same (inl kind) h =
      let (q, eq, h') = >>=-eq-ok (required i.quantity) _ h in
      buy-Agrees account p i q cost es same kind (required-ok i.quantity q eq)
        (sym (if-true (is_type i.transaction.transaction_type buy) _ _ (is_buy _ kind)) ∙ h')
  trade-Agrees account p i cost es same (inr kind) h =
      let (q, eq, h') = >>=-eq-ok (required i.quantity) _ h in
      let h2 =
        sym (if-false (is_type i.transaction.transaction_type buy) _ _ (is_sell _ kind)) ∙ h' in
      let (short, h3) = if-err (ltb_ℤ p.quantity q || eqb_ℤ p.quantity decimal_zero) _ _ _ h2 in
      let (enough, held) = neither_of _ _ short in
      let (native, en, h4) = >>=-eq-ok (divide p.native_cost p.quantity) _ h3 in
      let (base, eb, h5) = >>=-eq-ok (divide p.base_cost p.quantity) _ h4 in
      let native_is = ok-injective _ _ (sym (divide-ne_zero p.native_cost p.quantity held) ∙ en) in
      let base_is = ok-injective _ _ (sym (divide-ne_zero p.base_cost p.quantity held) ∙ eb) in
      sell-Agrees account p i q cost es same kind (required-ok i.quantity q eq) enough held (
        ap₂ (λ n b. event_rate account i >>= λ rate. ok (sell_trade (cost_of p) i q n b rate))
          native_is base_is
        ∙ h5)
