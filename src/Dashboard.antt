-- ===== src/Dashboard.antt =====
-- dashboard/views.py: the figures of the start page. The accounts and contracts are the rows of their
-- tables, in the order in which the database gives them; `default_currency` is
-- `settings.DEFAULT_CURRENCY`. The list of recent transactions and the labels of months are left out.
pub mod Charts
use vault.Base.{
  ℕ, zero, suc, ◌+◌, ◌-◌, ◌/◌, ◌^◌, Bool, true, false, not, ◌&&◌, ◌||◌, Option, none, some, String,
  List, [], ◌∷◌, map, where_rows, leb, ltb, ◌==◌, if◌then◌else◌, str_eq, length, magnitude, neg,
  ltb_ℤ, leb_ℤ, eqb_ℤ,
}
use vault.Decimal.{Context, Decimal, decimal_zero, ◌⊕◌, ◌⊖◌, ◌⊗◌, whole, quotient, abs}
use vault.Core.Calendar.{Date, date_of, from_ordinal, to_ordinal}
use vault.Accounts.Models.{
  FinancialAccount, AccountType, credit_card, loan, mortgage, is_fixed_term, FixedTermDetails,
}
use vault.Ledger.Models.{TransactionEntry}
use vault.Ledger.Services.{account_balance, sum_amounts}
use vault.Database.{Database}

-- An account with the balance that the view puts on it.
pub record Balanced : Type 0 where
  pub account : FinancialAccount
  pub balance : Decimal

unfoldable pub with_balance : Database → FinancialAccount → Balanced
unfolding account_balance
with_balance db account = record { account = account; balance = account_balance account none db }

abbrev pub is_liability : AccountType → Bool
is_liability credit_card = true
is_liability loan = true
is_liability mortgage = true
is_liability _ = false

abbrev pub owned_active : ℕ → FinancialAccount → Bool
owned_active user account = (account.owner_id == user) && account.active

abbrev pub in_currency : String → Balanced → Bool
in_currency code a = str_eq a.account.currency.code code

-- A bar of the chart of accounts.
pub record Bar : Type 0 where
  pub name : String
  pub amount : Decimal
  pub is_liability : Bool
  pub percentage : ℕ

-- A month of the chart of cash flows; the month is its first day.
pub record Month : Type 0 where
  pub month : Date
  pub amount : Decimal
  pub percentage : ℕ
  pub is_positive : Bool

unfoldable pub bars_of : List Balanced → List Bar
unfolding abs
bars_of [] = []
bars_of (a ∷ accounts) =
    let rest = bars_of accounts in
    if eqb_ℤ (abs a.balance) decimal_zero
    then rest
    else record {
      name = a.account.name;
      amount = abs a.balance;
      is_liability = is_liability a.account.account_type;
      percentage = 0;
    }
      ∷ rest

insert_bar : Bar → List Bar → List Bar
insert_bar x [] = x ∷ []
insert_bar x (y ∷ ys) =
    let rest = insert_bar x ys in if ltb_ℤ x.amount y.amount then y ∷ rest else x ∷ y ∷ ys

-- `sort(key=amount, reverse=True)`, which keeps the order of equals
unfoldable pub sort_bars : List Bar → List Bar
unfolding insert_bar
sort_bars [] = []
sort_bars (x ∷ xs) = insert_bar x (sort_bars xs)

-- `max(values, default)`
unfoldable pub maximum_from : Decimal → List Decimal → Decimal
maximum_from m [] = m
maximum_from m (x ∷ xs) = maximum_from (if ltb_ℤ m x then x else m) xs

unfoldable pub maximum : List Decimal → Decimal → Decimal
unfolding maximum_from
maximum [] default = default
maximum (x ∷ xs) default = maximum_from x xs

unfoldable pub first_eight : ℕ → List Bar → List Bar
first_eight zero bars = []
first_eight (suc n) [] = []
first_eight (suc n) (b ∷ bars) = b ∷ first_eight n bars

-- The first day of the month before.
unfoldable pub previous_month : Date → Date
previous_month t =
    if t.month == 1 then date_of (t.year - 1) 12 1 else date_of t.year (t.month - 1) 1

-- The n months before a month and it, the oldest first.
unfoldable pub months_to : ℕ → Date → List Date → List Date
unfolding previous_month
months_to zero t later = later
months_to (suc n) t later = months_to n (previous_month t) (t ∷ later)

-- `TruncMonth("transaction__transaction_date")`
falls_in : Date → Option Date → Bool
falls_in month none = false
falls_in month (some t) = (t.year == month.year) && (t.month == month.month)

abbrev pub counts_in : ℕ → String → Date → Date → TransactionEntry → Bool
unfolding to_ordinal from_ordinal falls_in
counts_in user code first month e =
    (e.transaction.owner_id == user)
    && str_eq e.account.currency.code code
    && leb (to_ordinal first) e.transaction.transaction_date
    && falls_in month (from_ordinal e.transaction.transaction_date)

unfoldable pub first_of : List Date → Date → Date
first_of [] t = t
first_of (x ∷ xs) t = x

module _ ⦃c : Context⦄ where
  -- `int(a)` of a value that is not negative
  unfoldable pub whole_part : Decimal → ℕ
  whole_part a = magnitude a / 10 ^ c.places

  -- `int(amount / maximum * 100)`
  unfoldable pub share_of : Decimal → Decimal → ℕ
  unfolding whole_part quotient ◌⊗◌ whole
  share_of amount maximum = whole_part (quotient amount maximum ⊗ whole 100)

  unfoldable pub with_share : Decimal → Bar → Bar
  unfolding share_of
  with_share m bar =
      let share = share_of bar.amount m in
      record bar { percentage = if ltb 4 share then share else 4 }

  -- `_account_chart`. The maximum is not zero: a bar has an amount.
  unfoldable pub account_chart : List Balanced → List Bar
  unfolding bars_of sort_bars maximum with_share first_eight whole
  account_chart accounts =
      let bars = sort_bars (bars_of accounts) in
      let m = maximum (map (λ (b : Bar). b.amount) bars) (whole 1) in
      first_eight 8 (map (with_share m) bars)

  unfoldable pub month_amount : ℕ → String → Date → Database → Date → Decimal
  unfolding counts_in
  month_amount user code first db month =
      sum_amounts (where_rows (counts_in user code first month) db.entries)

  unfoldable pub month_row : Decimal → Date → Decimal → Month
  unfolding share_of abs
  month_row m month amount = record {
    month = month;
    amount = amount;
    percentage = if eqb_ℤ m decimal_zero then 0 else share_of (abs amount) m;
    is_positive = leb_ℤ decimal_zero amount;
  }

  -- `_cashflow_chart` on the day `today`
  unfoldable pub cashflow_chart : ℕ → String → Date → Database → List Month
  unfolding months_to first_of month_amount maximum month_row abs whole
  cashflow_chart user code today db =
      let this_month = date_of today.year today.month 1 in
      let months = months_to 6 this_month [] in
      let amount = month_amount user code (first_of months this_month) db in
      let m = maximum (map (λ t. abs (amount t)) months) (whole 1) in
      map (λ t. month_row m t (amount t)) months

  -- `sum(values, Decimal(0))`
  unfoldable pub sum_from : Decimal → List Decimal → Decimal
  unfolding ◌⊕◌
  sum_from total [] = total
  sum_from total (x ∷ xs) = sum_from (total ⊕ x) xs

  pub record Summary : Type 0 where
    pub accounts : List Balanced
    pub total_assets : Decimal
    pub total_liabilities : Decimal
    pub net_worth : Decimal
    pub unvalued_account_count : ℕ
    pub fixed_term_total : Decimal
    pub fixed_term_count : ℕ
    pub next_fixed_term_maturity : Option ℕ
    pub account_bars : List Bar
    pub cashflow : List Month

  abbrev balances : List Balanced → List Decimal
  balances = map (λ (a : Balanced). a.balance)

  earliest : Option ℕ → List FixedTermDetails → Option ℕ
  earliest found [] = found
  earliest none (d ∷ ds) = earliest (some d.maturity_date) ds
  earliest (some date) (d ∷ ds) =
      earliest (some (if ltb d.maturity_date date then d.maturity_date else date)) ds

  abbrev matures : ℕ → ℕ → FixedTermDetails → Bool
  matures user today d =
      owned_active user d.account
      && is_fixed_term d.account.account_type
      && leb today d.maturity_date

  -- `get_context_data` on the day `today`
  unfoldable pub dashboard :
      ℕ → String → Date → List FinancialAccount → List FixedTermDetails → Database → Summary
  unfolding with_balance sum_from ◌⊖◌ earliest account_chart cashflow_chart to_ordinal
  dashboard user code today table contracts db =
      let accounts = map (with_balance db) (where_rows (owned_active user) table) in
      let reporting = where_rows (in_currency code) accounts in
      let assets =
        sum_from decimal_zero
          (balances (where_rows (λ a. not (is_liability a.account.account_type)) reporting)) in
      let liability = sum_from decimal_zero (
        map (λ (a : Balanced). neg a.balance)
          (where_rows (λ a. is_liability a.account.account_type) reporting)) in
      let fixed_term = where_rows (λ a. is_fixed_term a.account.account_type) reporting in
      record {
        accounts = accounts;
        total_assets = assets;
        total_liabilities = liability;
        net_worth = assets ⊖ liability;
        unvalued_account_count = length accounts - length reporting;
        fixed_term_total = sum_from decimal_zero (balances fixed_term);
        fixed_term_count = length fixed_term;
        next_fixed_term_maturity =
            earliest none (where_rows (matures user (to_ordinal today)) contracts);
        account_bars = account_chart reporting;
        cashflow = cashflow_chart user code today db;
      }
