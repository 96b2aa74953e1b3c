-- ===== src/Accounts/Views/Opening.antt =====
-- What accounts/views.py writes when an account is opened.
use Prim.Native.String.{◌++◌ as join}
use vault.Base.{
  ℕ, suc, ◌≡◌, refl, ap, subst, sym, ◌∙◌, true, Option, none, some, List, [], ◌∷◌, ◌++◌, ◌+ℤ◌, neg,
  ok, ok-injective, >>=-eq-ok, Result, ◌>>◌,
}
use vault.Decimal.{Context, Decimal}
use vault.Accounts.Models.{
  FinancialAccount, AccountType, fixed_term, is_fixed_term, FixedTermDetails, FixedTermMessage,
  clean_fixed_term,
}
use vault.Accounts.Forms.{
  AccountForm, given, number_given, read_contract, raise_contract, contract_of,
  save_fixed_term_details, without_contract,
}
use vault.Accounts.Views.{Books, new_account, fund, fund_if, create_account}
use vault.Ledger.Models.{deposit}
use vault.Ledger.Services.{account_balance, create, create_deposit, create_transfer}
use vault.Ledger.Services.Balances.{moved, balance-create, balance-create_transfer}
use vault.Database.{Database}

-- What the opening of a contract does to a balance: the principal comes from the funding account, or
-- from outside.
abbrev pub opened :
    FinancialAccount
    → Option FinancialAccount
    → FixedTermDetails
    → FinancialAccount
    → Option ℕ
    → Decimal
    → Decimal
opened account none d other as_of_date before =
    before +ℤ moved account d.principal d.start_date other as_of_date
opened account (some funding) d other as_of_date before =
    before
    +ℤ moved funding (neg d.principal) d.start_date other as_of_date
    +ℤ moved account d.principal d.start_date other as_of_date

term_of : (t : AccountType) → ok fixed_term ≡ ok t → is_fixed_term t ≡ true
term_of t h = subst (λ (x : AccountType). is_fixed_term x ≡ true) (ok-injective _ _ h) refl

module _ ⦃c : Context⦄ where
  balance-fund :
      (user : ℕ) (account : FinancialAccount) (funding : Option FinancialAccount)
      (d : FixedTermDetails) (db db' : Database)
      → fund user account funding d db ≡ ok db'
      → (other : FinancialAccount) (as_of_date : Option ℕ)
      → account_balance other as_of_date db'
        ≡ opened account funding d other as_of_date (account_balance other as_of_date db)
  unfolding fund create_deposit
  balance-fund user account none d db db' h other as_of_date =
      let (r, e, done) =
        >>=-eq-ok
          (create user account d.principal deposit d.start_date
            (join "Opening principal: " account.name) "" "" db)
          _ h in
      subst
        (λ (x : Database).
          account_balance other as_of_date x
          ≡ opened account none d other as_of_date (account_balance other as_of_date db))
        (ok-injective _ _ done)
        (balance-create user account d.principal deposit d.start_date
          (join "Opening principal: " account.name) "" "" db r e other as_of_date)
  balance-fund user account (some funding) d db db' h other as_of_date =
      let (r, e, done) =
        >>=-eq-ok
          (create_transfer user funding account d.principal d.start_date (join "Fund " account.name)
            "" db)
          _ h in
      subst
        (λ (x : Database).
          account_balance other as_of_date x
          ≡ opened account (some funding) d other as_of_date (account_balance other as_of_date db))
        (ok-injective _ _ done)
        (balance-create_transfer user funding account d.principal d.start_date
          (join "Fund " account.name) "" db r e other as_of_date)

  -- What the view has done once it returns with an account of a fixed term.
  pub record IsOpened (form : AccountForm) (books : Books) (r : FinancialAccount × Books)
      : Type 0 where
    pub details : FixedTermDetails
    pub of_account : details.account ≡ r.0
    pub clean : clean_fixed_term details ≡ []
    pub stored : r.1.contracts ≡ without_contract r.0 books.contracts ++ details ∷ []
    pub moves :
        (other : FinancialAccount) (as_of_date : Option ℕ)
        → account_balance other as_of_date r.1.ledger
          ≡ opened r.0 form.funding_account details other as_of_date
              (account_balance other as_of_date books.ledger)

  read_contract-account :
      (form : AccountForm) (account : FinancialAccount) (d : FixedTermDetails)
      → read_contract form account ≡ ok d
      → d.account ≡ account
  unfolding read_contract
  read_contract-account form account d h =
      let (_, _, h1) = >>=-eq-ok (number_given form.fixed_annual_rate_percent) _ h in
      let (_, _, h2) = >>=-eq-ok (given form.fixed_principal) _ h1 in
      let (_, _, h3) = >>=-eq-ok (given form.fixed_start_date) _ h2 in
      let (_, _, h4) = >>=-eq-ok (given form.fixed_maturity_date) _ h3 in
      let (_, _, h5) = >>=-eq-ok (given form.fixed_interest_method) _ h4 in
      let (_, _, h6) = >>=-eq-ok (given form.fixed_interest_payment_method) _ h5 in
      let (_, _, h7) = >>=-eq-ok (given form.fixed_interest_destination) _ h6 in
      let (_, _, done) = >>=-eq-ok (given form.fixed_maturity_instruction) _ h7 in
      sym (ap (λ (x : FixedTermDetails). x.account) (ok-injective _ _ done))

  raise_contract-pass :
      (ms : List FixedTermMessage) (m : Result FixedTermDetails) (d : FixedTermDetails)
      → (raise_contract ms >> m) ≡ ok d
      → (ms ≡ []) × (m ≡ ok d)
  unfolding raise_contract
  raise_contract-pass [] m d h = (refl, h)
  raise_contract-pass (x ∷ xs) m d h = cc

  contract_of-clean :
      (form : AccountForm) (account : FinancialAccount) (d : FixedTermDetails)
      → contract_of form account ≡ ok d
      → (d.account ≡ account) × (clean_fixed_term d ≡ [])
  unfolding contract_of
  contract_of-clean form account d h =
      let (read, e, h1) = >>=-eq-ok (read_contract form account) _ h in
      let (clean, done) = raise_contract-pass (clean_fixed_term read) _ d h1 in
      subst (λ (x : FixedTermDetails). (x.account ≡ account) × (clean_fixed_term x ≡ []))
        (ok-injective _ _ done) (read_contract-account form account read e, clean)

  -- The row of a new account has the type of the form.
  new_account-type :
      (user pk : ℕ) (form : AccountForm) (account : FinancialAccount)
      → new_account user pk form ≡ ok account
      → given form.account_type ≡ ok account.account_type
  unfolding new_account
  new_account-type user pk form account h =
      let (kind, e, h1) = >>=-eq-ok (given form.account_type) _ h in
      let (_, _, done) = >>=-eq-ok (given form.currency) _ h1 in
      e ∙ ap (λ (x : FinancialAccount). ok x.account_type) (ok-injective _ _ done)

  IsOpened-by :
      (user : ℕ) (form : AccountForm) (books : Books) (account : FinancialAccount)
      (saved : Option FixedTermDetails × List FixedTermDetails) (ledger : Database)
      (d : FixedTermDetails)
      → (d.account ≡ account) × (clean_fixed_term d ≡ [])
      → (some d, without_contract account books.contracts ++ d ∷ []) ≡ saved
      → fund_if user account form.funding_account saved.0 books.ledger ≡ ok ledger
      → IsOpened form books (
        account,
        record {
          accounts = books.accounts ++ account ∷ [];
          contracts = saved.1;
          next_account = suc books.next_account;
          ledger = ledger;
        },
      )
  unfolding fund_if
  IsOpened-by user form books account saved ledger d k e l = record {
    details = d;
    of_account = k.0;
    clean = k.1;
    stored = sym (ap (λ (x : Option FixedTermDetails × List FixedTermDetails). x.1) e);
    moves = balance-fund user account form.funding_account d books.ledger ledger (
        subst
          (λ (x : Option FixedTermDetails × List FixedTermDetails).
            fund_if user account form.funding_account x.0 books.ledger ≡ ok ledger)
          (sym e) l);
  }

  -- When the view that creates an account returns for a form of a fixed term, a contract of the new
  -- account that passes its checks is stored as the only one of the account, and every balance on
  -- every date has moved by exactly the principal from the start date on: into the new account, and
  -- out of the funding account if one is given.
  pub create_account-IsOpened :
      (user : ℕ) (form : AccountForm) (books : Books) (r : FinancialAccount × Books)
      → form.account_type ≡ some fixed_term
      → create_account user form books ≡ ok r
      → IsOpened form books r
  unfolding create_account save_fixed_term_details
  create_account-IsOpened user form books r kind h =
      let (account, a, h1) = >>=-eq-ok (new_account user books.next_account form) _ h in
      let (saved, s, h2) = >>=-eq-ok (save_fixed_term_details form account books.contracts) _ h1 in
      let (ledger, l, done) =
        >>=-eq-ok (fund_if user account form.funding_account saved.0 books.ledger) _ h2 in
      let is_term : is_fixed_term account.account_type ≡ true =
        term_of account.account_type
          (sym (ap given kind) ∙ new_account-type user _ form account a) in
      let (d, k, saves) = >>=-eq-ok (contract_of form account) _ (rw is_term at s) in
      subst (IsOpened form books) (ok-injective _ _ done) (
        IsOpened-by user form books account saved ledger d (contract_of-clean form account d k)
          (ok-injective _ _ saves) l)
