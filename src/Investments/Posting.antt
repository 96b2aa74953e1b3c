-- ===== src/Investments/Posting.antt =====
-- investments/services/transactions.py: a trade is posted with its one cash entry, or not at all.
-- `select_for_update` serialises the posts on one account, so a post sees the others' results whole;
-- that is the explicit database here.
pub mod Effects
pub mod Records
pub mod Trades
use vault.Base.{
  ℕ, suc, Bool, true, false, not, ◌&&◌, ◌||◌, Option, none, some, String, List, [], ◌∷◌, ◌++◌, ◌==◌,
  if◌then◌else◌, ltb_ℤ, eqb_ℤ, Result, ok, err, ◌>>=◌, ◌>>◌, raise_if, account_not_owned,
  brokerage_required, unsupported_type, insufficient_holdings, invalid_investment, net_cash_zero,
}
use Prim.Native.String.{◌++◌ as join}
use vault.Decimal.{Context, Decimal, decimal_zero, whole, ◌⊗◌, quantize}
use vault.Core.Models.{Currency}
use vault.Accounts.Models.{FinancialAccount, is_brokerage}
use vault.Ledger.Models.{
  Transaction, TransactionEntry, TransactionType, buy, sell, dividend, fee, tax, of_type, is_type,
}
use vault.Ledger.Services.{insert_transaction, insert_entry, new_transaction}
use vault.Investments.Models.{
  Security, InvestmentTransaction, InvestmentMessage, clean_investment, net_cash_impact_native,
}
use vault.Investments.Holdings.{calculate_holding_quantity, required}
use vault.Database.{Database}

abbrev pub is_supported : TransactionType → Bool
is_supported buy = true
is_supported sell = true
is_supported dividend = true
is_supported fee = true
is_supported tax = true
is_supported _ = false

-- `transaction_type.title()` of the supported types
abbrev title : TransactionType → String
title buy = "Buy"
title sell = "Sell"
title dividend = "Dividend"
title fee = "Fee"
title tax = "Tax"
title _ = ""

-- The keyword arguments.
pub record Order : Type 0 where
  pub account : FinancialAccount
  pub security : Security
  pub transaction_type : TransactionType
  pub trade_date : ℕ
  pub gross_amount : Decimal
  pub currency : Currency
  pub quantity : Option Decimal
  pub price_per_unit : Option Decimal
  pub fees : Decimal
  pub taxes : Decimal
  pub settlement_date : Option ℕ
  pub exchange_rate : Option Decimal
  pub reference : String
  pub notes : String

abbrev pub order_transaction : ℕ → ℕ → Order → Transaction
order_transaction pk owner q =
    new_transaction pk owner q.transaction_type q.trade_date
      (join (title q.transaction_type) (join " " q.security.symbol)) q.notes q.reference

abbrev pub order_detail : Transaction → Order → InvestmentTransaction
order_detail t q = record {
  transaction = t;
  account = q.account;
  security = q.security;
  settlement_date = q.settlement_date;
  quantity = q.quantity;
  price_per_unit = q.price_per_unit;
  gross_amount = q.gross_amount;
  fees = q.fees;
  taxes = q.taxes;
  currency = q.currency;
  exchange_rate = q.exchange_rate;
}

abbrev pub order_entry : ℕ → Transaction → Order → Decimal → Decimal → TransactionEntry
order_entry pk t q cash_amount rate = record {
  pk = pk;
  transaction = t;
  account = q.account;
  amount = cash_amount;
  currency = q.account.currency;
  exchange_rate = some rate;
  base_currency_amount = some cash_amount;
  entry_type = of_type q.transaction_type;
}

-- `detail.save()`
unfoldable pub insert_investment : InvestmentTransaction → Database → Database
insert_investment i db = record db { investments = db.investments ++ i ∷ [] }

-- `detail.full_clean()`, of which the model's own `clean` is modelled
abbrev raise_messages : List InvestmentMessage → Result (Unit {0})
raise_messages [] = ok tt
raise_messages (m ∷ ms) = err invalid_investment

module _ ⦃c : Context⦄ where
  -- `quantity is None or quantity > held`
  abbrev exceeds : Option Decimal → Decimal → Bool
  exceeds none held = true
  exceeds (some quantity) held = ltb_ℤ held quantity

  unfoldable pub check_holding : Order → Database → Result (Unit {0})
  check_holding q db =
      if is_type q.transaction_type sell
      then (do
        held ← calculate_holding_quantity db.investments q.account q.security (some q.trade_date)
        raise_if (exceeds q.quantity held) insufficient_holdings)
      else ok tt

  abbrev pub order_rate : Order → Result Decimal
  order_rate q =
      if q.currency.pk == q.account.currency.pk then ok (whole 1) else required q.exchange_rate

  unfoldable pub create_investment_transaction :
      ℕ → Order → Database → Result (InvestmentTransaction × Database)
  unfolding insert_transaction insert_entry insert_investment check_holding
  create_investment_transaction owner q db = do
    raise_if (not (q.account.owner_id == owner)) account_not_owned
    raise_if (not (is_brokerage q.account.account_type)) brokerage_required
    raise_if (not (is_supported q.transaction_type)) unsupported_type
    check_holding q db
    let t = order_transaction db.next_transaction owner q
    let detail = order_detail t q
    raise_messages (clean_investment detail)
    rate ← order_rate q
    let cash_amount = quantize 4 (net_cash_impact_native detail ⊗ rate)
    raise_if (eqb_ℤ cash_amount decimal_zero) net_cash_zero
    let posted = insert_investment detail (insert_transaction t db)
    ok (detail, insert_entry (order_entry db.next_entry t q cash_amount rate) posted)
