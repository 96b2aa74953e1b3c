-- ===== src/Core/Models.antt =====
-- core/models.py. `pk` is the row's primary key; dates are day numbers (`date.toordinal`). Of the
-- two time stamps only `created_at` is read, by the orderings of observations.
use vault.Base.{ℕ, Bool, String}
use vault.Decimal.{Decimal}

pub record Currency : Type 0 where
  pub pk : ℕ
  pub code : String
  pub name : String
  pub symbol : String
  pub decimal_places : ℕ
  pub active : Bool

-- 1 base_currency = rate quote_currency
pub record ExchangeRate : Type 0 where
  pub created_at : ℕ
  pub date : ℕ
  pub base_currency : Currency
  pub quote_currency : Currency
  pub rate : Decimal
  pub source : String
