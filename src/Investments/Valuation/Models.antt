-- ===== src/Investments/Valuation/Models.antt =====
-- The results of investments/services/valuation.py. A warning stands for its text: a missing price
-- of a symbol, or a missing rate between two currencies on the date of the valuation.
use vault.Base.{Bool, Option, String, List}
use vault.Decimal.{Decimal}
use vault.Core.Models.{Currency}
use vault.Accounts.Models.{FinancialAccount}
use vault.Investments.Models.{SecurityPrice}
use vault.Investments.Holdings.{HoldingSnapshot}

pub data Warning : Type 0 where
  price_unavailable : String → Warning
  rate_unavailable : Currency → Currency → Warning

pub record HoldingValuation : Type 0 where
  pub holding : HoldingSnapshot
  pub latest_price : Option SecurityPrice
  pub market_value_native : Option Decimal
  pub market_value : Option Decimal
  pub cost_basis : Decimal
  pub unrealized_gain : Option Decimal
  pub unrealized_gain_percent : Option Decimal
  pub allocation_percent : Option Decimal
  pub warning : Option Warning

pub record AssetAllocation : Type 0 where
  pub category : String
  pub market_value : Decimal
  pub percentage : Decimal

pub record PortfolioValuation : Type 0 where
  pub account : FinancialAccount
  pub reporting_currency : Currency
  pub holdings : List HoldingValuation
  pub market_value : Option Decimal
  pub cost_basis : Option Decimal
  pub unrealized_gain : Option Decimal
  pub unrealized_gain_percent : Option Decimal
  pub realized_gain : Option Decimal
  pub cash_balance : Option Decimal
  pub total_account_value : Option Decimal
  pub complete : Bool
  pub warnings : List Warning
  pub allocation : List AssetAllocation

-- The local variables of the loop over the open holdings.
pub record Totals : Type 0 where
  pub rows : List HoldingValuation
  pub warnings : List Warning
  pub total_market : Decimal
  pub total_cost : Decimal
  pub complete : Bool

-- The values of the summary, converted into the reporting currency.
pub record Converted : Type 0 where
  pub cash : Option Decimal
  pub total_cost : Option Decimal
  pub realized : Option Decimal
  pub missing : List Warning
