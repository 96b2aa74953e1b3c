-- ===== src/Tests/Posting.antt =====
-- Deposits, transfers, deletions and trades.
use mathlib.Core.Option.{some-injective}
use vault.Base.{
  err, historical_oversell, ◌<ℤ◌, subst, ℕ, ◌≡◌, ◌≢◌, refl, ap, [], ◌∷◌, none, some, pos, pos_part,
  neg, ◌+ℤ◌, ◌-ℤ◌, ◌≤ℤ◌, arith, All, ok,
}
use vault.Decimal.{decimal_zero, Decimal, whole, quantize, divide, ◌⊕◌, ◌⊖◌, ◌⊗◌}
use vault.Ledger.Models.{Transaction, deposit, sell}
use vault.Ledger.Services.{
  create, create_transfer, delete_transaction, delete_account_transactions, account_balance,
  insert_transaction, insert_entry,
}
use vault.Ledger.Services.Balances.{
  posted, transferred, moved, balance-create, balance-create_transfer, ledger_total,
  ledger_total-create_transfer, create_iff, create_transfer_iff,
}
use vault.Ledger.Services.Validity.{IsValid, create-IsValid, create_transfer-IsValid}
use vault.Ledger.Services.Deletion.{delete_transaction-create, delete_account_transactions_clears}
use vault.Investments.Models.{InvestmentTransaction, clean_investment, net_cash_impact_native}
use vault.Investments.Posting.{
  Order, create_investment_transaction, insert_investment, check_holding, order_rate,
}
use vault.Investments.Posting.Trades.{create_investment_transaction-IsTrade}
use vault.Investments.Holdings.Positions.{IsTrade}
use vault.Investments.Posting.Records.{IsRecorded, create_investment_transaction-IsRecorded}
use vault.Investments.Posting.Effects.{
  ordered, cash_of, balance-create_investment_transaction, create_investment_transaction-held,
}
use vault.Investments.Holdings.{
  calculate_holding_quantity, replay, apply_item, apply_buy, apply_sell,
}
use vault.Database.{Database}
use vault.Tests.Data.{
  trade_on, decimal_context, checking, savings, brokerage, share, euro, empty_database, bought,
}

-- 50 on the checking account on day 5, by the rules of `create`.
abbrev pub deposited : Transaction × Database
deposited = posted 7 checking (pos 5000) deposit 5 "Salary" "" "" empty_database

pub deposit_passes :
    create 7 checking (pos 5000) deposit 5 "Salary" "" "" empty_database ≡ ok deposited
deposit_passes =
    (create_iff 7 checking (pos 5000) deposit 5 "Salary" "" "" empty_database deposited).1
      (λ e. omega (arith, ap pos_part e), refl, refl)

pub empty-IsValid : IsValid empty_database
empty-IsValid = record { entries_posted = tt; keys_below = tt; details_below = tt }

-- 20 of it moved to the savings account on day 6.
abbrev pub moved_on : Transaction × Database
moved_on = transferred 7 checking savings (pos 2000) 6 "Save" "" (deposited.1)

pub transfer_passes :
    create_transfer 7 checking savings (pos 2000) 6 "Save" "" deposited.1 ≡ ok moved_on
transfer_passes =
    (create_transfer_iff 7 checking savings (pos 2000) 6 "Save" "" deposited.1 moved_on).1
      (omega arith, λ e. omega arith, refl, refl, refl, refl)

balance_after : account_balance checking (some 9) moved_on.1 ≡ pos 3000
unfolding account_balance insert_transaction insert_entry neg ◌+ℤ◌
balance_after = refl

balance-create_example :
    account_balance checking (some 9) deposited.1
    ≡ account_balance checking (some 9) empty_database
      +ℤ moved checking (pos 5000) 5 checking (some 9)
balance-create_example =
    balance-create 7 checking (pos 5000) deposit 5 "Salary" "" "" empty_database deposited
      deposit_passes checking (some 9)

balance-create_transfer_example :
    account_balance savings (some 9) moved_on.1
    ≡ account_balance savings (some 9) deposited.1
      +ℤ moved checking (neg (pos 2000)) 6 savings (some 9)
      +ℤ moved savings (pos 2000) 6 savings (some 9)
balance-create_transfer_example =
    balance-create_transfer 7 checking savings (pos 2000) 6 "Save" "" deposited.1 moved_on
      transfer_passes savings (some 9)

ledger_total-create_transfer_example :
    ledger_total (some 9) moved_on.1 ≡ ledger_total (some 9) deposited.1
ledger_total-create_transfer_example =
    ledger_total-create_transfer 7 checking savings (pos 2000) 6 "Save" "" deposited.1 moved_on
      transfer_passes (some 9)

deposited-IsValid : IsValid deposited.1
deposited-IsValid =
    create-IsValid 7 checking (pos 5000) deposit 5 "Salary" "" "" empty_database deposited
      deposit_passes empty-IsValid

moved_on-IsValid : IsValid moved_on.1
moved_on-IsValid =
    create_transfer-IsValid 7 checking savings (pos 2000) 6 "Save" "" deposited.1 moved_on
      transfer_passes deposited-IsValid

delete_transaction-create_example :
    delete_transaction 7 deposited.0 deposited.1
    ≡ ok (record empty_database { next_transaction = 2; next_entry = 2 })
delete_transaction-create_example =
    delete_transaction-create 7 checking (pos 5000) deposit 5 "Salary" "" "" empty_database
      deposited empty-IsValid deposit_passes

-- The transfer deleted again.
abbrev pub transfer_deleted : Database
transfer_deleted = record (deposited.1) {
  transactions = deposited.1.transactions;
  entries = deposited.1.entries;
  next_transaction = 3;
  next_entry = 4;
}

pub deletion_passes : delete_transaction 7 moved_on.0 moved_on.1 ≡ ok transfer_deleted
unfolding delete_transaction insert_transaction insert_entry
deletion_passes = refl

-- Every transaction with an entry on the checking account deleted.
abbrev pub account_cleared : ℕ × Database
account_cleared = (2, record empty_database { next_transaction = 3; next_entry = 4 })

clearing_passes : delete_account_transactions 7 checking moved_on.1 ≡ ok account_cleared
unfolding delete_account_transactions insert_transaction insert_entry
clearing_passes = refl

one_owner :
    All
      (λ e. e.account.pk ≡ checking.pk → e.account.owner_id ≡ checking.owner_id)
      moved_on.1.entries
unfolding insert_transaction insert_entry
one_owner = (λ h. refl, (λ h. refl, (λ h. refl, tt)))

delete_account_transactions_clears_example :
    All (λ e. e.account.pk ≢ checking.pk) account_cleared.1.entries
delete_account_transactions_clears_example =
    delete_account_transactions_clears 7 checking moved_on.1 account_cleared moved_on-IsValid
      one_owner clearing_passes

-- The shares are bought before, and four of the ten are sold on day 20.
abbrev with_shares : Database
with_shares = record empty_database {
  transactions = bought.transaction ∷ [];
  investments = bought ∷ [];
  next_transaction = 2;
}

with_shares-IsValid : IsValid with_shares
with_shares-IsValid = record {
  entries_posted = tt;
  keys_below = (omega arith, tt);
  details_below = (omega arith, tt);
}

abbrev sale : Order
sale = record {
  account = brokerage;
  security = share;
  transaction_type = sell;
  trade_date = 20;
  gross_amount = pos 4000;
  currency = euro;
  quantity = some (pos 400);
  price_per_unit = some (pos 1000);
  fees = pos 100;
  taxes = pos 0;
  settlement_date = none;
  exchange_rate = none;
  reference = "";
  notes = "";
}

abbrev sale_posted : InvestmentTransaction × Database
sale_posted = ordered 7 sale with_shares (pos 100)

sale_passes : create_investment_transaction 7 sale with_shares ≡ ok sale_posted
unfolding create_investment_transaction insert_transaction insert_entry insert_investment
    check_holding net_cash_impact_native calculate_holding_quantity clean_investment replay
    apply_item apply_buy whole quantize divide ◌⊕◌ ◌⊖◌ ◌⊗◌ ◌+ℤ◌ ◌-ℤ◌
sale_passes = refl

create_investment_transaction-IsRecorded_example : IsRecorded 7 sale with_shares sale_posted
create_investment_transaction-IsRecorded_example =
    create_investment_transaction-IsRecorded 7 sale with_shares sale_posted sale_passes

with_shares-IsTrade : All IsTrade with_shares.investments
with_shares-IsTrade = (
  λ quantity e. subst (λ (x : Decimal). decimal_zero <ℤ x) (some-injective _ _ e) (omega arith),
  tt,
)

create_investment_transaction-IsTrade_example : All IsTrade sale_posted.1.investments
create_investment_transaction-IsTrade_example =
    create_investment_transaction-IsTrade 7 sale with_shares sale_posted with_shares-IsTrade
      sale_passes

balance-create_investment_transaction_example :
    (rate : Decimal) × (order_rate sale ≡ ok rate)
    × (account_balance brokerage none sale_posted.1
        ≡ account_balance brokerage none with_shares
          +ℤ moved brokerage (cash_of 7 sale with_shares rate) 20 brokerage none)
balance-create_investment_transaction_example =
    balance-create_investment_transaction 7 sale with_shares sale_posted sale_passes brokerage none

create_investment_transaction-held_example :
    (held quantity : Decimal) × (calculate_holding_quantity (bought ∷ []) brokerage share (some 20)
      ≡ ok held)
    × (some (pos 400) ≡ some quantity)
    × (quantity ≤ℤ held)
create_investment_transaction-held_example =
    create_investment_transaction-held 7 sale with_shares sale_posted refl sale_passes

-- Eight of the ten shares are sold on day 30; four more sold on day 20 are accepted after that, and
-- then the holding cannot be calculated any more.
abbrev sold_later : Database
sold_later = record with_shares {
  investments = bought ∷ trade_on 2 30 sell (pos 800) (pos 8000) ∷ [];
  next_transaction = 3;
}

backdated_passes :
    create_investment_transaction 7 sale sold_later ≡ ok (ordered 7 sale sold_later (pos 100))
unfolding create_investment_transaction insert_transaction insert_entry insert_investment
    check_holding net_cash_impact_native calculate_holding_quantity clean_investment replay
    apply_item apply_buy whole quantize divide ◌⊕◌ ◌⊖◌ ◌⊗◌ ◌+ℤ◌ ◌-ℤ◌
backdated_passes = refl

holding_lost :
    calculate_holding_quantity
      (ordered 7 sale sold_later (pos 100)).1.investments
      brokerage
      share
      none
    ≡ err historical_oversell
unfolding insert_transaction insert_entry insert_investment calculate_holding_quantity replay
    apply_item apply_buy apply_sell whole divide ◌⊕◌ ◌⊖◌ ◌⊗◌ ◌+ℤ◌ ◌-ℤ◌
holding_lost = refl
