-- ===== src/Database.antt =====
-- The tables that the services read and write. Rows are kept in the order of insertion; a related
-- row is kept by value, and an operation that changes such a row changes every copy of it.
use vault.Base.{ℕ, List}
use vault.Core.Models.{ExchangeRate}
use vault.Ledger.Models.{Transaction, TransactionEntry}
use vault.Investments.Models.{SecurityPrice, InvestmentTransaction}

pub record Database : Type 0 where
  pub transactions : List Transaction
  pub entries : List TransactionEntry
  pub investments : List InvestmentTransaction
  pub prices : List SecurityPrice
  pub rates : List ExchangeRate
  -- the keys of the next transaction and the next entry
  pub next_transaction : ℕ
  pub next_entry : ℕ
