-- ===== src/Investments/CostBasis.antt =====
-- investments/services/cost_basis.py: the gain of one sale, and the audit trail of all sales.
pub mod Agreement
pub mod Replay
use vault.Base.{
  ℕ, Bool, true, false, not, ◌&&◌, ◌||◌, Option, none, some, List, [], ◌∷◌, ◌++◌, ◌==◌,
  if◌then◌else◌, ltb_ℤ, leb_ℤ, eqb_ℤ, where_rows, Result, ok, err, ◌>>=◌, ◌>>◌, raise_if,
  cost_basis_unavailable, insufficient_holdings, quantity_not_positive,
}
use vault.Decimal.{Context, Decimal, decimal_zero, whole, ◌⊕◌, ◌⊖◌, ◌⊗◌, divide}
use vault.Accounts.Models.{FinancialAccount}
use vault.Ledger.Models.{buy, sell, is_type}
use vault.Ledger.Services.{on_or_before}
use vault.Investments.Models.{Security, InvestmentTransaction}
use vault.Investments.Holdings.{
  HoldingSnapshot, calculate_holding, required, sort, trades_before, zero_if,
}

pub record RealizedGainResult : Type 0 where
  pub net_proceeds : Decimal
  pub allocated_cost_basis : Decimal
  pub gain : Decimal

pub record RealizedGainEvent : Type 0 where
  pub investment_transaction : InvestmentTransaction
  pub net_proceeds : Decimal
  pub allocated_cost_basis : Decimal
  pub gain : Decimal
  pub net_proceeds_base : Decimal
  pub allocated_cost_basis_base : Decimal
  pub gain_base : Decimal

-- (quantity, native_cost, base_cost)
pub record Cost : Type 0 where
  pub quantity : Decimal
  pub native_cost : Decimal
  pub base_cost : Decimal

-- The dict `positions`, with the default of its `get`.
abbrev pub Positions : Type 0
Positions = ℕ → Cost

abbrev pub no_positions : Positions
no_positions pk = record {
  quantity = decimal_zero;
  native_cost = decimal_zero;
  base_cost = decimal_zero;
}

abbrev pub put : ℕ → Cost → Positions → Positions
put k v positions j = if j == k then v else positions j

module _ ⦃c : Context⦄ where
  unfoldable pub calculate_realized_gain :
      List InvestmentTransaction
      → FinancialAccount
      → Security
      → Decimal
      → Decimal
      → Decimal
      → Decimal
      → Result RealizedGainResult
  calculate_realized_gain table account security quantity gross_proceeds fees taxes = do
    holding ← calculate_holding table account security none
    raise_if (leb_ℤ quantity decimal_zero) quantity_not_positive
    raise_if (ltb_ℤ holding.quantity quantity) insufficient_holdings
    let allocated = holding.average_cost ⊗ quantity
    let net = gross_proceeds ⊖ fees ⊖ taxes
    ok (record { net_proceeds = net; allocated_cost_basis = allocated; gain = net ⊖ allocated })

  unfoldable pub event_rate : FinancialAccount → InvestmentTransaction → Result Decimal
  event_rate account i =
      if i.currency.pk == account.currency.pk then ok (whole 1) else required i.exchange_rate

  abbrev pub bought : Cost → InvestmentTransaction → Decimal → Decimal → Cost
  bought p i quantity rate =
      let acquisition = i.gross_amount ⊕ i.fees ⊕ i.taxes in
      record {
        quantity = p.quantity ⊕ quantity;
        native_cost = p.native_cost ⊕ acquisition;
        base_cost = p.base_cost ⊕ acquisition ⊗ rate;
      }

  abbrev pub event_at : InvestmentTransaction → Decimal → Decimal → Decimal → RealizedGainEvent
  event_at i allocated allocated_base rate =
      let net = i.gross_amount ⊖ i.fees ⊖ i.taxes in
      let net_base = net ⊗ rate in
      record {
        investment_transaction = i;
        net_proceeds = net;
        allocated_cost_basis = allocated;
        gain = net ⊖ allocated;
        net_proceeds_base = net_base;
        allocated_cost_basis_base = allocated_base;
        gain_base = net_base ⊖ allocated_base;
      }

  abbrev pub sold : Cost → Decimal → Decimal → Decimal → Cost
  sold p quantity allocated allocated_base =
      let left = p.quantity ⊖ quantity in
      record {
        quantity = left;
        native_cost = zero_if (eqb_ℤ left decimal_zero) (p.native_cost ⊖ allocated);
        base_cost = zero_if (eqb_ℤ left decimal_zero) (p.base_cost ⊖ allocated_base);
      }

  -- The outcome of a buy, and of a sale at the average costs, for the position of the security.
  abbrev pub buy_trade :
      Cost → InvestmentTransaction → Decimal → Decimal → Cost × List RealizedGainEvent
  buy_trade p i quantity rate = (bought p i quantity rate, [])

  abbrev pub sell_trade :
      Cost
      → InvestmentTransaction
      → Decimal
      → Decimal
      → Decimal
      → Decimal
      → Cost × List RealizedGainEvent
  sell_trade p i quantity native_average base_average rate =
      let allocated = native_average ⊗ quantity in
      let allocated_base = base_average ⊗ quantity in
      (sold p quantity allocated allocated_base, event_at i allocated allocated_base rate ∷ [])

  -- A trade on the position of its security: the new position, and the event of a sale. The query
  -- lets through buys and sells only, so what is no buy is a sell.
  unfoldable pub trade :
      FinancialAccount → Cost → InvestmentTransaction → Result (Cost × List RealizedGainEvent)
  unfolding event_rate
  trade account p i = do
    quantity ← required i.quantity
    if is_type i.transaction.transaction_type buy
        then (do rate ← event_rate account i; ok (buy_trade p i quantity rate))
        else if ltb_ℤ p.quantity quantity || eqb_ℤ p.quantity decimal_zero
        then err (cost_basis_unavailable i.security.symbol)
        else (do
          native_average ← divide p.native_cost p.quantity
          base_average ← divide p.base_cost p.quantity
          rate ← event_rate account i
          ok (sell_trade p i quantity native_average base_average rate))

  unfoldable pub replay_events :
      FinancialAccount
      → Positions
      → List InvestmentTransaction
      → Result (Positions × List RealizedGainEvent)
  replay_events account positions [] = ok (positions, [])
  replay_events account positions (i ∷ items) = do
    (p, new) ← trade account (positions i.security.pk) i
    (positions', events) ← replay_events account (put i.security.pk p positions) items
    ok (positions', new ++ events)

  unfoldable pub calculate_realized_gain_events :
      List InvestmentTransaction → FinancialAccount → Option ℕ → Result (List RealizedGainEvent)
  unfolding replay_events sort
  calculate_realized_gain_events table account as_of_date = do
    (positions, events) ← replay_events account no_positions (
        sort trades_before (
          where_rows
            (λ i.
              (i.account.pk == account.pk)
              && ((is_type i.transaction.transaction_type buy
                    || is_type i.transaction.transaction_type sell)
                  && on_or_before as_of_date i.transaction.transaction_date))
            table))
    ok events
