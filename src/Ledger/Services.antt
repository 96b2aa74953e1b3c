-- ===== src/Ledger/Services.antt =====
-- ledger/services.py. An operation returns its result with the new database, or an exception, and
-- then the caller's database stands: the writes are inside `atomic`.
pub mod Balances
pub mod Validity
pub mod Deletion
use vault.Base.{
  ℕ, zero, suc, ◌+◌, Bool, true, false, not, ◌&&◌, ◌||◌, Option, none, some, String, List, [], ◌∷◌,
  ◌++◌, leb, ltb, ◌==◌, if◌then◌else◌, any, where_rows, length, ℤ, pos, ◌+ℤ◌, neg, leb_ℤ, ltb_ℤ,
  eqb_ℤ, Result, ok, err, ◌>>=◌, ◌>>◌, raise_if, amount_zero, amount_not_positive,
  account_not_owned, accounts_not_owned, transaction_not_owned, same_account, cross_currency,
  immutable_investment,
}
use vault.Decimal.{Decimal, decimal_zero}
use vault.Accounts.Models.{FinancialAccount}
use vault.Ledger.Models.{
  Transaction, TransactionEntry, TransactionType, transfer, EntryType, of_type, transfer_out,
  transfer_in,
}
use vault.Investments.Models.{InvestmentTransaction}
use vault.Database.{Database}

-- `Transaction.objects.create(...)`
unfoldable pub insert_transaction : Transaction → Database → Database
insert_transaction t db = record db {
  transactions = db.transactions ++ t ∷ [];
  next_transaction = suc db.next_transaction;
}

-- `TransactionEntry.objects.create(...)`
unfoldable pub insert_entry : TransactionEntry → Database → Database
insert_entry e db = record db { entries = db.entries ++ e ∷ []; next_entry = suc db.next_entry }

abbrev pub new_transaction : ℕ → ℕ → TransactionType → ℕ → String → String → String → Transaction
new_transaction pk owner transaction_type date description notes reference = record {
  pk = pk;
  owner_id = owner;
  transaction_date = date;
  description = description;
  transaction_type = transaction_type;
  reference = reference;
  notes = notes;
}

abbrev pub new_entry : ℕ → Transaction → FinancialAccount → Decimal → EntryType → TransactionEntry
new_entry pk t account amount entry_type = record {
  pk = pk;
  transaction = t;
  account = account;
  amount = amount;
  currency = account.currency;
  exchange_rate = none;
  base_currency_amount = none;
  entry_type = entry_type;
}

-- `_create`
unfoldable pub create :
    ℕ
    → FinancialAccount
    → Decimal
    → TransactionType
    → ℕ
    → String
    → String
    → String
    → Database
    → Result (Transaction × Database)
unfolding insert_transaction insert_entry
create owner account amount transaction_type date description notes reference db = do
  raise_if (eqb_ℤ amount decimal_zero) amount_zero
  raise_if (not (account.owner_id == owner)) account_not_owned
  let t =
      new_transaction db.next_transaction owner transaction_type date description notes reference
  let e = new_entry db.next_entry t account amount (of_type transaction_type)
  ok (t, insert_entry e (insert_transaction t db))

unfoldable pub create_deposit :
    ℕ
    → FinancialAccount
    → Decimal
    → ℕ
    → String
    → TransactionType
    → String
    → Database
    → Result (Transaction × Database)
unfolding create
create_deposit owner account amount date description transaction_type notes db =
    create owner account amount transaction_type date description notes "" db

unfoldable pub create_withdrawal :
    ℕ
    → FinancialAccount
    → Decimal
    → ℕ
    → String
    → TransactionType
    → String
    → Database
    → Result (Transaction × Database)
unfolding create
create_withdrawal owner account amount date description transaction_type notes db =
    if ltb_ℤ decimal_zero amount
    then create owner account (neg amount) transaction_type date description notes "" db
    else err amount_not_positive

unfoldable pub create_transfer :
    ℕ
    → FinancialAccount
    → FinancialAccount
    → Decimal
    → ℕ
    → String
    → String
    → Database
    → Result (Transaction × Database)
unfolding insert_transaction insert_entry
create_transfer owner source destination amount date description notes db = do
  raise_if (leb_ℤ amount decimal_zero) amount_not_positive
  raise_if (source.pk == destination.pk) same_account
  raise_if (not (source.owner_id == owner) || not (destination.owner_id == owner))
      accounts_not_owned
  raise_if (not (source.currency.pk == destination.currency.pk)) cross_currency
  let t = new_transaction db.next_transaction owner transfer date description notes ""
  let out = new_entry db.next_entry t source (neg amount) transfer_out
  let into = new_entry (suc db.next_entry) t destination amount transfer_in
  ok (t, insert_entry into (insert_entry out (insert_transaction t db)))

-- `transaction_date__lte`, if a date is given
abbrev pub on_or_before : Option ℕ → ℕ → Bool
on_or_before none date = true
on_or_before (some as_of_date) date = leb date as_of_date

abbrev pub counts_for : FinancialAccount → Option ℕ → TransactionEntry → Bool
counts_for account as_of_date e =
    (e.account.pk == account.pk) && on_or_before as_of_date e.transaction.transaction_date

-- `aggregate(Sum("amount"))`, which the database computes exactly; of no rows it is zero.
abbrev pub sum_amounts : List TransactionEntry → Decimal
sum_amounts [] = decimal_zero
sum_amounts (e ∷ es) = e.amount +ℤ sum_amounts es

unfoldable pub account_balance : FinancialAccount → Option ℕ → Database → Decimal
account_balance account as_of_date db =
    sum_amounts (where_rows (counts_for account as_of_date) db.entries)

abbrev pub of_transaction : Transaction → TransactionEntry → Bool
of_transaction t e = e.transaction.pk == t.pk

-- `hasattr(entry_transaction, "investment_detail")`
abbrev pub has_detail : Transaction → List InvestmentTransaction → Bool
has_detail t = any (λ i. i.transaction.pk == t.pk)

unfoldable pub delete_transaction : ℕ → Transaction → Database → Result Database
delete_transaction owner t db = do
  raise_if (not (t.owner_id == owner)) transaction_not_owned
  raise_if (has_detail t db.investments) immutable_investment
  ok (record db {
    entries = where_rows (λ e. not (of_transaction t e)) db.entries;
    transactions = where_rows (λ x. not (x.pk == t.pk)) db.transactions;
  })

-- The transactions of the owner with an entry on the account. A row of the table is listed once,
-- which is what `distinct` asks.
abbrev pub touches : ℕ → FinancialAccount → List TransactionEntry → Transaction → Bool
touches owner account entries t =
    (t.owner_id == owner)
    && any (λ e. (e.transaction.pk == t.pk) && (e.account.pk == account.pk)) entries

abbrev pub is_listed : List Transaction → ℕ → Bool
is_listed ts pk = any (λ t. t.pk == pk) ts

unfoldable pub delete_account_transactions : ℕ → FinancialAccount → Database → Result (ℕ × Database)
delete_account_transactions owner account db = do
  raise_if (not (account.owner_id == owner)) account_not_owned
  raise_if (any (λ i. i.account.pk == account.pk) db.investments) immutable_investment
  let doomed = where_rows (touches owner account db.entries) db.transactions
  ok (
    length doomed,
    record db {
      entries = where_rows (λ e. not (is_listed doomed e.transaction.pk)) db.entries;
      transactions =
          where_rows (λ t. not (is_listed doomed t.pk && (t.owner_id == owner))) db.transactions;
    },
  )
