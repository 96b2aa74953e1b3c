-- ===== src/Ledger/Models.antt =====
-- ledger/models.py. An amount is exact to four places; a positive entry raises the balance.
use vault.Base.{ℕ, Bool, Option, String, ◌==◌}
use vault.Decimal.{Decimal}
use vault.Core.Models.{Currency}
use vault.Accounts.Models.{FinancialAccount}

pub data TransactionType : Type 0 where
  deposit withdrawal transfer income expense interest : TransactionType
  dividend buy sell fee tax adjustment : TransactionType

abbrev index : TransactionType → ℕ
index deposit = 0
index withdrawal = 1
index transfer = 2
index income = 3
index expense = 4
index interest = 5
index dividend = 6
index buy = 7
index sell = 8
index fee = 9
index tax = 10
index adjustment = 11

abbrev pub is_type : TransactionType → TransactionType → Bool
is_type a b = index a == index b

pub record Transaction : Type 0 where
  pub pk : ℕ
  pub owner_id : ℕ
  pub transaction_date : ℕ
  pub description : String
  pub transaction_type : TransactionType
  pub reference : String
  pub notes : String

-- The texts that the source stores in `entry_type`.
pub data EntryType : Type 0 where
  of_type : TransactionType → EntryType
  transfer_out transfer_in : EntryType

pub record TransactionEntry : Type 0 where
  pub pk : ℕ
  pub transaction : Transaction
  pub account : FinancialAccount
  pub amount : Decimal
  pub currency : Currency
  pub exchange_rate : Option Decimal
  pub base_currency_amount : Option Decimal
  pub entry_type : EntryType
