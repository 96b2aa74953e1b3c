-- ===== src/Tests/Opening.antt =====
-- An account of a fixed term opened, and the charts of the start page.
use vault.Base.{◌≡◌, refl, none, some, false, List, [], ◌∷◌, pos, negsuc, arith, ok}
use vault.Decimal.{quotient, whole}
use vault.Accounts.Models.{
  fixed_term, FinancialAccount, FixedTermDetails, simple, at_maturity, capitalized, undecided,
}
use vault.Accounts.Forms.{AccountForm}
use vault.Accounts.Views.{Books, create_account}
use vault.Accounts.Views.Opening.{IsOpened, create_account-IsOpened}
use vault.Ledger.Services.Balances.{transferred}
use vault.Dashboard.{Balanced, account_chart}
use vault.Dashboard.Charts.{IsChart, account_chart-IsChart}
use vault.Tests.Data.{decimal_context, checking, savings, euro, empty_database}

-- 1000 at 5 percent, from the checking account.
abbrev term_form : AccountForm
term_form = record {
  name = "Term";
  institution = none;
  account_type = some fixed_term;
  currency = some euro;
  account_number_last4 = "";
  opening_date = none;
  notes = "";
  return_tax_treatment = none;
  savings_annual_interest_rate_percent = none;
  fixed_principal = some (pos 100000);
  fixed_start_date = some 100;
  fixed_maturity_date = some 200;
  fixed_annual_rate_percent = some (pos 500);
  fixed_interest_method = some simple;
  fixed_compounding_frequency = none;
  fixed_interest_payment_method = some at_maturity;
  fixed_interest_destination = some capitalized;
  fixed_interest_destination_account = none;
  fixed_early_withdrawal_allowed = false;
  fixed_early_withdrawal_penalty_notes = "";
  fixed_maturity_instruction = some undecided;
  fixed_maturity_destination_account = none;
  funding_account = some checking;
}

abbrev before_opening : Books
before_opening = record {
  accounts = checking ∷ [];
  contracts = [];
  next_account = 8;
  ledger = empty_database;
}

abbrev term_account : FinancialAccount
term_account = record checking { pk = 8; name = "Term"; account_type = fixed_term }

abbrev term_contract : FixedTermDetails
term_contract = record {
  account = term_account;
  principal = pos 100000;
  start_date = 100;
  maturity_date = 200;
  annual_interest_rate = pos 5;
  interest_method = simple;
  compounding_frequency = none;
  interest_payment_method = at_maturity;
  interest_destination = capitalized;
  interest_destination_account = none;
  early_withdrawal_allowed = false;
  early_withdrawal_penalty_notes = "";
  maturity_instruction = undecided;
  maturity_destination_account = none;
}

abbrev after_opening : Books
after_opening = record {
  accounts = checking ∷ term_account ∷ [];
  contracts = term_contract ∷ [];
  next_account = 9;
  ledger = (transferred 7 checking term_account (pos 100000) 100 "Fund Term" "" empty_database).1;
}

opening_passes : create_account 7 term_form before_opening ≡ ok (term_account, after_opening)
unfolding create_account quotient whole
opening_passes = refl

create_account-IsOpened_example : IsOpened term_form before_opening (term_account, after_opening)
create_account-IsOpened_example =
    create_account-IsOpened 7 term_form before_opening (term_account, after_opening) refl
      opening_passes

-- A debt of 30, nothing, and 60.
abbrev three_accounts : List Balanced
three_accounts =
    record { account = checking; balance = negsuc 2999 }
    ∷ record { account = savings; balance = pos 0 }
    ∷ record { account = term_account; balance = pos 6000 }
    ∷ []

account_chart-IsChart_example : IsChart (account_chart three_accounts)
account_chart-IsChart_example = account_chart-IsChart three_accounts (omega arith)
