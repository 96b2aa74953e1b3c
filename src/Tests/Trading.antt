-- ===== src/Tests/Trading.antt =====
-- Holdings, the audit trail, prices and valuations.
use vault.Base.{
  ◌<◌, ◌≡◌, ◌↔◌, inl, inr, refl, List, [], ◌∷◌, none, some, true, pos, negsuc, ◌+ℤ◌, ◌-ℤ◌, ◌<ℤ◌,
  ◌≤◌, arith, All, Has, ok, err, historical_oversell, neg, subst,
}
use mathlib.Core.Option.{some-injective}
use vault.Decimal.{Decimal, decimal_zero, whole, divide, ◌⊕◌, ◌⊖◌, ◌⊗◌, quantize}
use vault.Core.Ordering.{first}
use vault.Investments.Models.{SecurityPrice}
use vault.Investments.Holdings.{
  HoldingSnapshot, empty_position, calculate_holding, replay, apply_item, apply_buy, apply_sell,
}
use vault.Investments.Holdings.Positions.{
  IsTrade, IsSnapshot, IsRefusal, calculate_holding-IsSnapshot, replay-IsRefusal,
}
use vault.Investments.CostBasis.{
  RealizedGainEvent, Cost, Positions, no_positions, put, trade, replay_events,
}
use vault.Investments.CostBasis.Replay.{IsTradeOf, Matches, events_match_holding}
use vault.Investments.Pricing.{price_of, get_latest_price}
use vault.Investments.Pricing.Newest.{get_latest_price-Newest, get_latest_price-none}
use vault.Investments.Views.{
  OrderForm, account_of_another_user, rate_not_one, sells_too_much, clean_order_form,
}
use vault.Ledger.Models.{sell}
use vault.Database.{Database}
use vault.Tests.Data.{
  decimal_context, text_collation, brokerage, share, euro, empty_database, sold, trades, price_on,
}

-- Six shares are left, at a cost of 60.60; the sale of four gained -1.40.
abbrev pub six_left : HoldingSnapshot
six_left = record {
  security = share;
  quantity = pos 600;
  total_cost_basis = pos 6060;
  average_cost = pos 1010;
  native_currency = euro;
  base_cost_basis = pos 6060;
  realized_gain = negsuc 139;
  realized_gain_base = negsuc 139;
}

holding_found : calculate_holding trades brokerage share none ≡ ok six_left
unfolding calculate_holding replay apply_item apply_buy apply_sell ◌⊕◌ ◌+ℤ◌ divide ◌⊖◌ ◌-ℤ◌ ◌⊗◌
    whole neg
holding_found = refl

positive_trades : All IsTrade trades
positive_trades = (
  λ quantity e. subst (λ (q : Decimal). decimal_zero <ℤ q) (some-injective _ _ e) (omega arith),
  (
    λ quantity e. subst (λ (q : Decimal). decimal_zero <ℤ q) (some-injective _ _ e) (omega arith),
    tt,
  ),
)

calculate_holding-IsSnapshot_example : IsSnapshot six_left
calculate_holding-IsSnapshot_example =
    calculate_holding-IsSnapshot trades brokerage share none six_left (omega arith) positive_trades
      holding_found

-- Four shares are sold before any is bought.
replay_fails : replay empty_position (sold ∷ []) ≡ err historical_oversell
unfolding replay apply_item apply_sell
replay_fails = refl

only_sale : All IsTrade (sold ∷ [])
only_sale = positive_trades.1

replay-IsRefusal_example : IsRefusal historical_oversell
replay-IsRefusal_example =
    replay-IsRefusal (sold ∷ []) empty_position historical_oversell only_sale replay_fails

trades_of_brokerage : All (IsTradeOf brokerage) trades
trades_of_brokerage = ((refl, inl refl), ((refl, inr refl), tt))

-- Where the audit trail of the two trades ends, and its one event.
abbrev sale_event : RealizedGainEvent
sale_event = record {
  investment_transaction = sold;
  net_proceeds = pos 3900;
  allocated_cost_basis = pos 4040;
  gain = negsuc 139;
  net_proceeds_base = pos 3900;
  allocated_cost_basis_base = pos 4040;
  gain_base = negsuc 139;
}

abbrev after_buy : Cost
after_buy = record { quantity = pos 1000; native_cost = pos 10100; base_cost = pos 10100 }

abbrev after_sale : Cost
after_sale = record { quantity = pos 600; native_cost = pos 6060; base_cost = pos 6060 }

abbrev final_positions : Positions
final_positions = put 5 after_sale (put 5 after_buy no_positions)

trail_found : replay_events brokerage no_positions trades ≡ ok (final_positions, sale_event ∷ [])
unfolding replay_events trade ◌⊕◌ ◌+ℤ◌ divide ◌⊖◌ ◌⊗◌ ◌-ℤ◌ neg whole
trail_found = refl

events_match_holding_example : Matches 5 empty_position trades final_positions (sale_event ∷ [])
events_match_holding_example =
    events_match_holding brokerage 5 trades final_positions (sale_event ∷ []) trades_of_brokerage
      trail_found

abbrev prices : List SecurityPrice
prices = price_on 12 (pos 1100) ∷ price_on 18 (pos 1200) ∷ price_on 30 (pos 1300) ∷ []

price_found : get_latest_price prices 99 share (some 20) ≡ some (price_on 18 (pos 1200))
unfolding get_latest_price first
price_found = refl

get_latest_price-Newest_example :
    Has (λ x. x ≡ price_on 18 (pos 1200)) prices
    × (price_of share 20 (price_on 18 (pos 1200)) ≡ true)
    × All (λ x. price_of share 20 x ≡ true → x.date ≤ 18) prices
get_latest_price-Newest_example =
    get_latest_price-Newest prices 99 share (some 20) (price_on 18 (pos 1200)) price_found

get_latest_price-none_example :
    (get_latest_price prices 99 share (some 5) ≡ none)
    ↔ All (λ x. x.security.pk ≡ share.pk → 5 < x.date) prices
get_latest_price-none_example = get_latest_price-none prices 99 share (some 5)

abbrev pub with_trades : Database
with_trades = record empty_database { investments = trades; prices = prices }

-- Six shares are held when seven are to be sold in an account of another user.
abbrev order_form : OrderForm
order_form = record {
  account = some brokerage;
  security = some share;
  trade_date = some 30;
  settlement_date = none;
  quantity = some (pos 700);
  price_per_unit = some (pos 1000);
  gross_amount = none;
  currency = some euro;
  exchange_rate = some (pos 200);
}

order_refused :
    clean_order_form 8 sell order_form trades
    ≡ ok (some (pos 7000), account_of_another_user ∷ rate_not_one ∷ sells_too_much (pos 600) ∷ [])
unfolding clean_order_form calculate_holding replay apply_item apply_buy apply_sell ◌⊕◌ ◌+ℤ◌ divide
    ◌⊖◌ ◌-ℤ◌ ◌⊗◌ whole neg quantize
order_refused = refl
