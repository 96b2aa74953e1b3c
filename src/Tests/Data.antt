-- ===== src/Tests/Data.antt =====
-- One user's currencies, accounts and tables.
use vault.Base.{ℕ, List, [], ◌∷◌, none, some, true, false, pos}
use vault.Base.Order.{text_less}
use vault.Decimal.{Context, Decimal}
use vault.Core.Models.{Currency, ExchangeRate}
use vault.Core.Ordering.{Collation}
use vault.Accounts.Models.{
  FinancialAccount, AccountType, FixedTermDetails, simple, at_maturity, capitalized, undecided,
}
use vault.Ledger.Models.{TransactionType, buy, sell}
use vault.Investments.Models.{Security, stock, SecurityPrice, InvestmentTransaction}
use vault.Database.{Database}

-- Two digits after the point, which is enough for the amounts below.
instance abbrev pub decimal_context : Context
decimal_context = record { prec = 12; places = 2 }

instance abbrev pub text_collation : Collation
text_collation = record { less = text_less }

abbrev pub euro : Currency
euro = record {
  pk = 1;
  code = "EUR";
  name = "Euro";
  symbol = "€";
  decimal_places = 2;
  active = true;
}

abbrev pub dollar : Currency
dollar = record {
  pk = 2;
  code = "USD";
  name = "US dollar";
  symbol = "$";
  decimal_places = 2;
  active = true;
}

abbrev account_of : ℕ → AccountType → FinancialAccount
account_of pk account_type = record {
  pk = pk;
  owner_id = 7;
  name = "Account";
  institution = none;
  account_type = account_type;
  currency = euro;
  account_number_last4 = "";
  opening_date = none;
  closing_date = none;
  active = true;
  notes = "";
  return_tax_treatment = none;
  savings_annual_interest_rate = none;
}

abbrev pub checking : FinancialAccount
checking = account_of 1 AccountType.checking

abbrev pub savings : FinancialAccount
savings = account_of 2 AccountType.savings

abbrev pub brokerage : FinancialAccount
brokerage = account_of 3 AccountType.brokerage

abbrev pub term_account : FinancialAccount
term_account = account_of 4 AccountType.fixed_term

-- 1000 at 5 percent from day 100 to day 200.
abbrev pub contract : FixedTermDetails
contract = record {
  account = term_account;
  principal = pos 100000;
  start_date = 100;
  maturity_date = 200;
  annual_interest_rate = pos 5;
  interest_method = simple;
  compounding_frequency = none;
  interest_payment_method = at_maturity;
  interest_destination = capitalized;
  interest_destination_account = none;
  early_withdrawal_allowed = false;
  early_withdrawal_penalty_notes = "";
  maturity_instruction = undecided;
  maturity_destination_account = none;
}

-- 1 EUR = 1.25 USD on day 10, and 1 USD = 0.75 EUR on day 20.
abbrev pub rate_on_10 : ExchangeRate
rate_on_10 = record {
  created_at = 1;
  date = 10;
  base_currency = euro;
  quote_currency = dollar;
  rate = pos 125;
  source = "ECB";
}

abbrev pub rate_on_20 : ExchangeRate
rate_on_20 = record {
  created_at = 2;
  date = 20;
  base_currency = dollar;
  quote_currency = euro;
  rate = pos 75;
  source = "ECB";
}

abbrev pub rates : List ExchangeRate
rates = rate_on_10 ∷ rate_on_20 ∷ []

abbrev pub empty_database : Database
empty_database = record {
  transactions = [];
  entries = [];
  investments = [];
  prices = [];
  rates = rates;
  next_transaction = 1;
  next_entry = 1;
}

abbrev pub share : Security
share = record {
  pk = 5;
  symbol = "ABC";
  name = "ABC plc";
  security_type = stock;
  currency = euro;
  isin = "";
  exchange = "";
  active = true;
}

abbrev pub price_on : ℕ → Decimal → SecurityPrice
price_on date price = record {
  created_at = date;
  security = share;
  date = date;
  price = price;
  currency = euro;
  source = "";
}

-- A trade of the share at 10 each, with a fee of 1.
abbrev pub trade_on : ℕ → ℕ → TransactionType → Decimal → Decimal → InvestmentTransaction
trade_on pk date kind quantity gross = record {
  transaction = record {
    pk = pk;
    owner_id = 7;
    transaction_date = date;
    description = "";
    transaction_type = kind;
    reference = "";
    notes = "";
  };
  account = brokerage;
  security = share;
  settlement_date = none;
  quantity = some quantity;
  price_per_unit = some (pos 1000);
  gross_amount = gross;
  fees = pos 100;
  taxes = pos 0;
  currency = euro;
  exchange_rate = none;
}

-- Ten shares bought on day 10, four sold on day 20.
abbrev pub bought : InvestmentTransaction
bought = trade_on 1 10 buy (pos 1000) (pos 10000)

abbrev pub sold : InvestmentTransaction
sold = trade_on 2 20 sell (pos 400) (pos 4000)

abbrev pub trades : List InvestmentTransaction
trades = bought ∷ sold ∷ []
