-- ===== src/Investments/Holdings.antt =====
-- investments/services/holdings.py: a position replayed from its trades at weighted-average cost.
pub mod Positions
pub mod Sorting
use vault.Base.{
  ℕ, Bool, true, false, not, ◌&&◌, ◌||◌, Option, none, some, String, List, [], ◌∷◌, leb, ltb, ◌==◌,
  if◌then◌else◌, ltb_ℤ, eqb_ℤ, where_rows, any, Result, ok, err, ◌>>=◌, type_error,
  historical_oversell, map_result,
}
use vault.Base.Order.{text_less}
use vault.Decimal.{Context, Decimal, decimal_zero, whole, ◌⊕◌, ◌⊖◌, ◌⊗◌, divide}
use vault.Core.Models.{Currency}
use vault.Accounts.Models.{FinancialAccount}
use vault.Ledger.Models.{TransactionType, buy, sell}
use vault.Ledger.Services.{on_or_before}
use vault.Investments.Models.{Security, InvestmentTransaction}

pub record HoldingSnapshot : Type 0 where
  pub security : Security
  pub quantity : Decimal
  pub total_cost_basis : Decimal
  pub average_cost : Decimal
  pub native_currency : Currency
  pub base_cost_basis : Decimal
  pub realized_gain : Decimal
  pub realized_gain_base : Decimal

-- The local variables of the loop.
pub record Position : Type 0 where
  pub quantity : Decimal
  pub native_cost : Decimal
  pub base_cost : Decimal
  pub realized : Decimal
  pub realized_base : Decimal

abbrev pub empty_position : Position
empty_position = record {
  quantity = decimal_zero;
  native_cost = decimal_zero;
  base_cost = decimal_zero;
  realized = decimal_zero;
  realized_base = decimal_zero;
}

-- `order_by("transaction__transaction_date", "transaction_id")`
abbrev pub trades_before : InvestmentTransaction → InvestmentTransaction → Bool
trades_before a b =
    ltb a.transaction.transaction_date b.transaction.transaction_date
    || ((a.transaction.transaction_date == b.transaction.transaction_date)
        && ltb a.transaction.pk b.transaction.pk)

-- A stable insertion sort.
module _ {A : Type 0} (before : A → A → Bool) where
  place : A → List A → List A
  place x [] = x ∷ []
  place x (y ∷ ys) = if before y x then y ∷ place x ys else x ∷ y ∷ ys

  unfoldable pub sort : List A → List A
  unfolding place
  sort [] = []
  sort (x ∷ xs) = place x (sort xs)

abbrev pub for_security : Option Security → InvestmentTransaction → Bool
for_security none i = true
for_security (some s) i = i.security.pk == s.pk

-- `_transactions`
unfoldable pub transactions :
    FinancialAccount
    → Option Security
    → Option ℕ
    → List InvestmentTransaction
    → List InvestmentTransaction
unfolding sort
transactions account security as_of_date table = sort trades_before (
    where_rows
      (λ i.
        (i.account.pk == account.pk)
        && (for_security security i && on_or_before as_of_date i.transaction.transaction_date))
      table)

-- Arithmetic on a column that holds no value raises `TypeError`.
abbrev pub required : Option Decimal → Result Decimal
required none = err type_error
required (some a) = ok a

module _ ⦃c : Context⦄ where
  unfoldable pub rate_to_account : InvestmentTransaction → Result Decimal
  rate_to_account i =
      if i.currency.pk == i.account.currency.pk then ok (whole 1) else required i.exchange_rate

  unfoldable pub buy_at : Position → InvestmentTransaction → Decimal → Decimal → Position
  buy_at p i quantity rate =
      let acquisition_cost = i.gross_amount ⊕ i.fees ⊕ i.taxes in
      record p {
        quantity = p.quantity ⊕ quantity;
        native_cost = p.native_cost ⊕ acquisition_cost;
        base_cost = p.base_cost ⊕ acquisition_cost ⊗ rate;
      }

  unfoldable pub apply_buy : Position → InvestmentTransaction → Result Position
  unfolding rate_to_account buy_at
  apply_buy p i = do
    quantity ← required i.quantity
    rate ← rate_to_account i
    ok (buy_at p i quantity rate)

  abbrev pub zero_if : Bool → Decimal → Decimal
  zero_if closed cost = if closed then decimal_zero else cost

  unfoldable pub sell_at :
      Position → InvestmentTransaction → Decimal → Decimal → Decimal → Decimal → Position
  sell_at p i quantity native_average base_average rate =
      let allocated_native = native_average ⊗ quantity in
      let allocated_base = base_average ⊗ quantity in
      let net_proceeds = i.gross_amount ⊖ i.fees ⊖ i.taxes in
      let left = p.quantity ⊖ quantity in
      record {
        quantity = left;
        native_cost = zero_if (eqb_ℤ left decimal_zero) (p.native_cost ⊖ allocated_native);
        base_cost = zero_if (eqb_ℤ left decimal_zero) (p.base_cost ⊖ allocated_base);
        realized = p.realized ⊕ (net_proceeds ⊖ allocated_native);
        realized_base = p.realized_base ⊕ (net_proceeds ⊗ rate ⊖ allocated_base);
      }

  unfoldable pub apply_sell : Position → InvestmentTransaction → Result Position
  unfolding rate_to_account sell_at
  apply_sell p i = do
    quantity ← required i.quantity
    if ltb_ℤ p.quantity quantity then err historical_oversell else (do
      native_average ← divide p.native_cost p.quantity
      base_average ← divide p.base_cost p.quantity
      rate ← rate_to_account i
      ok (sell_at p i quantity native_average base_average rate))

  unfoldable pub apply_by : TransactionType → Position → InvestmentTransaction → Result Position
  apply_by buy p i = apply_buy p i
  apply_by sell p i = apply_sell p i
  apply_by _ p i = ok p

  -- One round of the loop, and the loop.
  unfoldable pub apply_item : Position → InvestmentTransaction → Result Position
  unfolding apply_by
  apply_item p i = apply_by i.transaction.transaction_type p i

  unfoldable pub replay : Position → List InvestmentTransaction → Result Position
  replay p [] = ok p
  replay p (i ∷ items) = apply_item p i >>= λ p'. replay p' items

  abbrev average_of : Position → Result Decimal
  average_of p =
      if eqb_ℤ p.quantity decimal_zero then ok decimal_zero else divide p.native_cost p.quantity

  -- `_calculate_from_items`
  unfoldable pub calculate_from_items :
      Security → List InvestmentTransaction → Result HoldingSnapshot
  calculate_from_items security items = do
    p ← replay empty_position items
    average ← average_of p
    ok (record {
      security = security;
      quantity = p.quantity;
      total_cost_basis = p.native_cost;
      average_cost = average;
      native_currency = security.currency;
      base_cost_basis = p.base_cost;
      realized_gain = p.realized;
      realized_gain_base = p.realized_base;
    })

  module _ (table : List InvestmentTransaction) where
    unfoldable pub calculate_holding :
        FinancialAccount → Security → Option ℕ → Result HoldingSnapshot
    unfolding calculate_from_items transactions
    calculate_holding account security as_of_date =
        calculate_from_items security (transactions account (some security) as_of_date table)

    -- The securities of the items, each once, in the order in which they first occur.
    abbrev seen : Security → List Security → Bool
    seen s = any (λ x. x.pk == s.pk)

    securities_of : List InvestmentTransaction → List Security → List Security
    securities_of [] found = []
    securities_of (i ∷ items) found =
        let s = i.security in
        let rest = securities_of items (if seen s found then found else s ∷ found) in
        if seen s found then rest else s ∷ rest

    abbrev symbol_before : Security → Security → Bool
    symbol_before a b = text_less a.symbol b.symbol

    abbrev is_open : HoldingSnapshot → Bool
    is_open h = not (eqb_ℤ h.quantity decimal_zero)

    unfoldable pub calculate_holdings :
        FinancialAccount → Option ℕ → Bool → Result (List HoldingSnapshot)
    unfolding calculate_from_items transactions securities_of sort
    calculate_holdings account as_of_date include_closed =
        let items = transactions account none as_of_date table in
        do
          snapshots ←
              map_result (λ s. calculate_from_items s (where_rows (for_security (some s)) items))
                (sort symbol_before (securities_of items []))
          ok (if include_closed then snapshots else where_rows is_open snapshots)

    unfoldable pub calculate_holding_quantity :
        FinancialAccount → Security → Option ℕ → Result Decimal
    unfolding calculate_holding
    calculate_holding_quantity account security as_of_date = do
      h ← calculate_holding account security as_of_date
      ok h.quantity

    unfoldable pub calculate_holding_cost_basis :
        FinancialAccount → Security → Option ℕ → Result Decimal
    unfolding calculate_holding
    calculate_holding_cost_basis account security as_of_date = do
      h ← calculate_holding account security as_of_date
      ok h.total_cost_basis

    unfoldable pub calculate_average_cost : FinancialAccount → Security → Option ℕ → Result Decimal
    unfolding calculate_holding
    calculate_average_cost account security as_of_date = do
      h ← calculate_holding account security as_of_date
      ok h.average_cost
