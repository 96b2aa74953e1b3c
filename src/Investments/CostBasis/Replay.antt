-- ===== src/Investments/CostBasis/Replay.antt =====
-- The whole audit trail of investments/services/cost_basis.py beside the replay of holdings.py.
use mathlib.Core.Path.{subst}
use vault.Base.{
  if-true, if-false, ==_iff, ℕ, ◌≡◌, refl, ap, sym, ◌∙◌, true, false, List, [], ◌∷◌, ◌++◌, ◌==◌,
  where_rows, where_rows-append, where_rows-all, where_rows-none, All, All_map, ok, >>=-eq-ok,
  >>=-pass, ok-injective, inl, inr, arith, Bool-cases,
}
use vault.Decimal.{Context, Decimal, decimal_zero, ◌⊕◌}
use vault.Accounts.Models.{FinancialAccount}
use vault.Investments.Models.{InvestmentTransaction}
use vault.Investments.Holdings.{Position, empty_position, apply_item, replay}
use vault.Investments.CostBasis.{
  RealizedGainEvent, Cost, Positions, put, no_positions, trade, replay_events,
}
use vault.Investments.CostBasis.Agreement.{cost_of, IsTrade, sum_gain, sum_gain_base, trade-Agrees}

-- The trades and the events of the security with a key.
abbrev pub trades_of : ℕ → List InvestmentTransaction → List InvestmentTransaction
trades_of k = where_rows (λ i. i.security.pk == k)

abbrev pub events_of : ℕ → List RealizedGainEvent → List RealizedGainEvent
events_of k = where_rows (λ e. e.investment_transaction.security.pk == k)

-- A position that holds a cost.
abbrev position_of : Cost → Position
position_of x = record {
  quantity = x.quantity;
  native_cost = x.native_cost;
  base_cost = x.base_cost;
  realized = decimal_zero;
  realized_base = decimal_zero;
}

-- Trades of the account, in its currency.
abbrev pub IsTradeOf : FinancialAccount → InvestmentTransaction → Type 0
IsTradeOf account i = (i.account.currency.pk ≡ account.currency.pk) × IsTrade i

abbrev Mine : InvestmentTransaction → RealizedGainEvent → Type 0
Mine i e = e.investment_transaction ≡ i

events_same :
    (k : ℕ) (i : InvestmentTransaction) (new es : List RealizedGainEvent)
    → All (Mine i) new
    → (i.security.pk == k) ≡ true
    → events_of k (new ++ es) ≡ new ++ events_of k es
events_same k i new es mine same =
    where_rows-append _ new es
    ∙ ap (λ t. t ++ events_of k es)
        (where_rows-all _ new (
          All_map _ _ new (λ e m. ap (λ (t : InvestmentTransaction). t.security.pk == k) m ∙ same)
            mine))

events_other :
    (k : ℕ) (i : InvestmentTransaction) (new es : List RealizedGainEvent)
    → All (Mine i) new
    → (i.security.pk == k) ≡ false
    → events_of k (new ++ es) ≡ events_of k es
events_other k i new es mine other =
    where_rows-append _ new es
    ∙ ap (λ t. t ++ events_of k es)
        (where_rows-none _ new (
          All_map _ _ new (λ e m. ap (λ (t : InvestmentTransaction). t.security.pk == k) m ∙ other)
            mine))

put-same :
    (k : ℕ) (i : InvestmentTransaction) (x : Cost) (positions : Positions)
    → (i.security.pk == k) ≡ true
    → put i.security.pk x positions k ≡ x
put-same k i x positions h = if-true (k == i.security.pk) x (positions k) (ground arith)

put-other :
    (k : ℕ) (i : InvestmentTransaction) (x : Cost) (positions : Positions)
    → (i.security.pk == k) ≡ false
    → put i.security.pk x positions k ≡ positions k
put-other k i x positions h = if-false (k == i.security.pk) x (positions k) (ground arith)

module _ ⦃c : Context⦄ where
  sum_gain-append :
      (xs ys : List RealizedGainEvent) (acc : Decimal)
      → sum_gain (xs ++ ys) acc ≡ sum_gain ys (sum_gain xs acc)
  sum_gain-append [] ys acc = refl
  sum_gain-append (x ∷ xs) ys acc = sum_gain-append xs ys (acc ⊕ x.gain)

  sum_gain_base-append :
      (xs ys : List RealizedGainEvent) (acc : Decimal)
      → sum_gain_base (xs ++ ys) acc ≡ sum_gain_base ys (sum_gain_base xs acc)
  sum_gain_base-append [] ys acc = refl
  sum_gain_base-append (x ∷ xs) ys acc = sum_gain_base-append xs ys (acc ⊕ x.gain_base)

  -- The holding that a replay from p reaches, and what it has in common with the audit trail.
  abbrev pub Matches :
      ℕ → Position → List InvestmentTransaction → Positions → List RealizedGainEvent → Type 0
  Matches k p items positions es =
      (p' : Position) × (replay p (trades_of k items) ≡ ok p')
      × (positions k ≡ cost_of p')
      × (p'.realized ≡ sum_gain (events_of k es) p.realized)
      × (p'.realized_base ≡ sum_gain_base (events_of k es) p.realized_base)

  -- A trade of the security itself: both replays take it.
  step_same :
      (account : FinancialAccount) (k : ℕ) (i : InvestmentTransaction)
      (items : List InvestmentTransaction) (positions positions' : Positions) (x : Cost)
      (new es : List RealizedGainEvent) (p : Position)
      → IsTradeOf account i
      → positions k ≡ cost_of p
      → (i.security.pk == k) ≡ true
      → trade account (positions i.security.pk) i ≡ ok (x, new)
      → ((p1 : Position)
          → put i.security.pk x positions k ≡ cost_of p1
          → Matches k p1 items positions' es)
      → Matches k p (i ∷ items) positions' (new ++ es)
  unfolding replay
  step_same account k i items positions positions' x new es p trades e same ht rest =
      let key : i.security.pk ≡ k = (==_iff i.security.pk k).0 same in
      let held = ap (λ t. trade account t i) (sym (ap positions key ∙ e)) ∙ ht in
      let (p1, run, cost, gain, base, mine) =
        trade-Agrees account p i x new trades.0 trades.1 held in
      let (p', hr, hc, g, b) = rest p1 (put-same k i x positions same ∙ sym cost) in
      let events = events_same k i new es mine same in
      (
        p',
        ap (replay p) (if-true (i.security.pk == k) _ _ same)
            ∙ >>=-pass (apply_item p i) _ p1 _ run hr,
        hc,
        g
            ∙ ap (sum_gain (events_of k es)) gain
            ∙ sym (sum_gain-append new (events_of k es) p.realized)
            ∙ ap (λ t. sum_gain t p.realized) (sym events),
        b
            ∙ ap (sum_gain_base (events_of k es)) base
            ∙ sym (sum_gain_base-append new (events_of k es) p.realized_base)
            ∙ ap (λ t. sum_gain_base t p.realized_base) (sym events),
      )

  -- A trade of another security: the holding does not see it.
  step_other :
      (account : FinancialAccount) (k : ℕ) (i : InvestmentTransaction)
      (items : List InvestmentTransaction) (positions positions' : Positions) (x : Cost)
      (new es : List RealizedGainEvent) (p : Position)
      → IsTradeOf account i
      → positions k ≡ cost_of p
      → (i.security.pk == k) ≡ false
      → trade account (positions i.security.pk) i ≡ ok (x, new)
      → (put i.security.pk x positions k ≡ cost_of p → Matches k p items positions' es)
      → Matches k p (i ∷ items) positions' (new ++ es)
  step_other account k i items positions positions' x new es p trades e other ht rest =
      let q = position_of (positions i.security.pk) in
      let (_, _, _, _, _, mine) = trade-Agrees account q i x new trades.0 trades.1 ht in
      let (p', hr, hc, g, b) = rest (put-other k i x positions other ∙ e) in
      let events = events_other k i new es mine other in
      (
        p',
        ap (replay p) (if-false (i.security.pk == k) _ _ other) ∙ hr,
        hc,
        g ∙ ap (λ t. sum_gain t p.realized) (sym events),
        b ∙ ap (λ t. sum_gain_base t p.realized_base) (sym events),
      )

  replay-Matches :
      (account : FinancialAccount) (k : ℕ) (items : List InvestmentTransaction)
      (positions positions' : Positions) (es : List RealizedGainEvent) (p : Position)
      → All (IsTradeOf account) items
      → positions k ≡ cost_of p
      → replay_events account positions items ≡ ok (positions', es)
      → Matches k p items positions' es
  unfolding replay replay_events
  replay-Matches account k [] positions positions' es p trades e h =
      let done = ok-injective _ _ h in
      (
        p,
        refl,
        ap (λ t. t k) (sym (ap (λ t. t.0) done)) ∙ e,
        ap (λ t. sum_gain (events_of k t.1) p.realized) done,
        ap (λ t. sum_gain_base (events_of k t.1) p.realized_base) done,
      )
  replay-Matches account k (i ∷ items) positions positions' es p trades e h =
      let (first, ht, h1) = >>=-eq-ok (trade account (positions i.security.pk) i) _ h in
      let (rest, hr, h2) =
        >>=-eq-ok (replay_events account (put i.security.pk first.0 positions) items) _ h1 in
      subst (λ t. Matches k p (i ∷ items) t.0 t.1) (ok-injective _ _ h2)
        (elim (Bool-cases (i.security.pk == k)) [
          | inl same ↦
              step_same account k i items positions rest.0 first.0 first.1 rest.1 p trades.0 e same
                ht (λ p1 e1. replay-Matches account k items _ rest.0 rest.1 p1 trades.1 e1 hr)
          | inr other ↦
              step_other account k i items positions rest.0 first.0 first.1 rest.1 p trades.0 e
                other ht (λ e1. replay-Matches account k items _ rest.0 rest.1 p trades.1 e1 hr)
        ])

  -- The audit trail agrees with the holdings, rounding included: for a list of buys and sells of
  -- accounts in the currency of the given account whose audit trail exists, the replay of the
  -- trades of any one security succeeds, ends in the position that the trail keeps for it, and has
  -- realized gains equal to the sums of the gains of that security's events, in both currencies.
  pub events_match_holding :
      (account : FinancialAccount) (k : ℕ) (items : List InvestmentTransaction)
      (positions : Positions) (es : List RealizedGainEvent)
      → All (IsTradeOf account) items
      → replay_events account no_positions items ≡ ok (positions, es)
      → Matches k empty_position items positions es
  events_match_holding account k items positions es trades h =
      replay-Matches account k items no_positions positions es empty_position trades refl h
