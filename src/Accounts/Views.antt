-- ===== src/Accounts/Views.antt =====
-- accounts/views.py: what the views for accounts compute and write. A view that raises leaves the
-- tables: its writes are inside `atomic`. `user` is the one who is logged in.
pub mod Opening
use Prim.Native.String.{◌++◌ as join}
use vault.Base.{
  ℕ, suc, Bool, true, false, not, ◌&&◌, Option, none, some, String, List, [], ◌∷◌, ◌++◌, map, find,
  ◌==◌, if◌then◌else◌, where_rows, length, get_or, eqb_ℤ, Result, ok, err, ◌>>=◌, ◌>>◌, type_error,
  contract_invalid, not_found,
}
use vault.Decimal.{Context, Decimal, whole, ◌⊕◌, ◌⊗◌}
use vault.Accounts.Models.{FinancialAccount, AccountType, other, FixedTermDetails}
use vault.Accounts.FixedTerm.{
  FixedTermProjection, FixedTermProgress, Status, method_name, frequency_or_none,
  calculate_fixed_term_projection, calculate_fixed_term_progress, get_fixed_term_status,
}
use vault.Accounts.Forms.{
  AccountForm, given, savings_rate, save_fixed_term_details, without_contract,
}
use vault.Investments.Models.{InvestmentTransaction}
use vault.Ledger.Models.{TransactionEntry, deposit}
use vault.Ledger.Services.{account_balance, create_deposit, create_transfer}
use vault.Ledger.Exports.{export_account_transactions, newest_first}
use vault.Tax.Returns.{ReturnTaxResult, calculate_return_tax}
use vault.Database.{Database}

-- The tables of accounts beside those of the ledger.
pub record Books : Type 0 where
  pub accounts : List FinancialAccount
  pub contracts : List FixedTermDetails
  pub next_account : ℕ
  pub ledger : Database

abbrev pub is_account : ℕ → ℕ → FinancialAccount → Bool
is_account user pk a = (a.pk == pk) && (a.owner_id == user)

-- `get_object_or_404(FinancialAccount, pk=pk, owner=user)`
unfoldable pub get_account : ℕ → ℕ → Books → Result FinancialAccount
get_account user pk books = elim (find (is_account user pk) books.accounts) [
  | none ↦ err not_found
  | some a ↦ ok a
]

abbrev pub renew : FinancialAccount → FinancialAccount → FinancialAccount
renew account a = if a.pk == account.pk then account else a

abbrev renew_destination : FinancialAccount → Option FinancialAccount → Option FinancialAccount
renew_destination account none = none
renew_destination account (some a) = some (renew account a)

abbrev renew_contract : FinancialAccount → FixedTermDetails → FixedTermDetails
renew_contract account d = record d {
  account = renew account d.account;
  interest_destination_account = renew_destination account d.interest_destination_account;
  maturity_destination_account = renew_destination account d.maturity_destination_account;
}

-- `save` of a changed row. The rows that refer to it hold it by value, so each is given the new one.
unfoldable pub save_account : FinancialAccount → Books → Books
save_account account books = record books {
  accounts = map (renew account) books.accounts;
  contracts = map (renew_contract account) books.contracts;
  ledger = record books.ledger {
    entries =
        map (λ (e : TransactionEntry). record e { account = renew account e.account })
          books.ledger.entries;
    investments =
        map (λ (i : InvestmentTransaction). record i { account = renew account i.account })
          books.ledger.investments;
  };
}

module _ ⦃c : Context⦄ where
  -- The row that a valid form makes of a new instance.
  unfoldable pub new_account : ℕ → ℕ → AccountForm → Result FinancialAccount
  unfolding savings_rate
  new_account user pk form = do
    account_type ← given form.account_type
    currency ← given form.currency
    ok (record {
      pk = pk;
      owner_id = user;
      name = form.name;
      institution = form.institution;
      account_type = account_type;
      currency = currency;
      account_number_last4 = form.account_number_last4;
      opening_date = form.opening_date;
      closing_date = none;
      active = true;
      notes = form.notes;
      return_tax_treatment = form.return_tax_treatment;
      savings_annual_interest_rate = savings_rate form;
    })

  -- The cash that opens a contract: from the funding account, or from outside.
  unfoldable pub fund :
      ℕ → FinancialAccount → Option FinancialAccount → FixedTermDetails → Database → Result Database
  unfolding create_deposit create_transfer
  fund user account none details db = do
    r ←
        create_deposit user account details.principal details.start_date
          (join "Opening principal: " account.name) deposit "" db
    ok r.1
  fund user account (some funding) details db = do
    r ←
        create_transfer user funding account details.principal details.start_date
          (join "Fund " account.name) "" db
    ok r.1

  unfoldable pub fund_if :
      ℕ
      → FinancialAccount
      → Option FinancialAccount
      → Option FixedTermDetails
      → Database
      → Result Database
  unfolding fund
  fund_if user account funding none db = ok db
  fund_if user account funding (some details) db = fund user account funding details db

  -- `AccountCreateView.form_valid`
  unfoldable pub create_account : ℕ → AccountForm → Books → Result (FinancialAccount × Books)
  unfolding new_account save_fixed_term_details fund_if
  create_account user form books = do
    account ← new_account user books.next_account form
    saved ← save_fixed_term_details form account books.contracts
    ledger ← fund_if user account form.funding_account saved.0 books.ledger
    ok (
      account,
      record {
        accounts = books.accounts ++ account ∷ [];
        contracts = saved.1;
        next_account = suc books.next_account;
        ledger = ledger;
      },
    )

  -- `AccountUpdateView.form_valid`
  unfoldable pub update_account : ℕ → ℕ → AccountForm → Books → Result (FinancialAccount × Books)
  unfolding get_account savings_rate save_fixed_term_details save_account
  update_account user pk form books = do
    stored ← get_account user pk books
    account_type ← given form.account_type
    currency ← given form.currency
    let account = record stored {
      name = form.name;
      institution = form.institution;
      account_type = account_type;
      currency = currency;
      account_number_last4 = form.account_number_last4;
      opening_date = form.opening_date;
      notes = form.notes;
      return_tax_treatment = form.return_tax_treatment;
      savings_annual_interest_rate = savings_rate form;
    }
    let renewed = save_account account books
    saved ← save_fixed_term_details form account renewed.contracts
    ok (account, record renewed { contracts = saved.1 })

  -- `archive_account`
  unfoldable pub archive_account : ℕ → ℕ → Books → Result Books
  unfolding get_account save_account
  archive_account user pk books = do
    account ← get_account user pk books
    ok (save_account (record account { active = false }) books)

  -- `export_account_csv`
  unfoldable pub export_account_csv : ℕ → ℕ → Books → Result (List (List String))
  unfolding get_account export_account_transactions
  export_account_csv user pk books = do
    account ← get_account user pk books
    ok (export_account_transactions account books.ledger)

  pub record ContractDetail : Type 0 where
    pub details : FixedTermDetails
    pub projection : FixedTermProjection
    pub progress : FixedTermProgress
    pub status : Status
    pub rate_percent : Decimal
    pub principal_differs_from_balance : Bool
    pub tax_result : ReturnTaxResult
    pub net_maturity_value : Decimal

  pub record AccountDetail : Type 0 where
    pub balance : Decimal
    pub recent_entries : List TransactionEntry
    pub contract : Option ContractDetail

  take_entries : ℕ → List TransactionEntry → List TransactionEntry
  take_entries ℕ.zero es = []
  take_entries (suc n) [] = []
  take_entries (suc n) (e ∷ es) = e ∷ take_entries n es

  module _ (power : Decimal → Decimal → Decimal) where
    contract_detail :
        FinancialAccount → Decimal → ℕ → Option FixedTermDetails → Result (Option ContractDetail)
    unfolding calculate_fixed_term_projection calculate_fixed_term_progress calculate_return_tax
        get_fixed_term_status ◌⊕◌ ◌⊗◌ whole
    contract_detail account balance today none = ok none
    contract_detail account balance today (some d) = do
      projection ←
          calculate_fixed_term_projection power d.principal d.annual_interest_rate d.start_date
            d.maturity_date (method_name d.interest_method)
            (frequency_or_none d.compounding_frequency)
      progress ← calculate_fixed_term_progress power d today
      tax_result ← calculate_return_tax projection.gross_interest account.return_tax_treatment
      ok (
          some (record {
            details = d;
            projection = projection;
            progress = progress;
            status = get_fixed_term_status d today;
            rate_percent = d.annual_interest_rate ⊗ whole 100;
            principal_differs_from_balance = not (eqb_ℤ balance d.principal);
            tax_result = tax_result;
            net_maturity_value = d.principal ⊕ tax_result.net_return;
          }))

    -- `AccountDetailView.get_context_data` on the day `today`
    unfoldable pub account_detail : ℕ → ℕ → ℕ → Books → Result AccountDetail
    unfolding get_account account_balance newest_first contract_detail take_entries
    account_detail user pk today books = do
      account ← get_account user pk books
      let balance = account_balance account none books.ledger
      contract ←
          contract_detail account balance today
            (find (λ d. d.account.pk == account.pk) books.contracts)
      ok (record {
        balance = balance;
        recent_entries =
            take_entries 20
              (newest_first (where_rows (λ e. e.account.pk == account.pk) books.ledger.entries));
        contract = contract;
      })
