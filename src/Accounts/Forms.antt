-- ===== src/Accounts/Forms.antt =====
-- accounts/forms.py: `FinancialAccountForm` from its cleaned fields on. A field that is missing, or that
-- its own validation refused, is none; `user` is set, as the views do.
use vault.Base.{
  ℕ, Bool, false, not, ◌&&◌, Option, none, some, String, List, [], ◌∷◌, ◌++◌, leb, ◌==◌,
  if◌then◌else◌, is_none, Result, ok, err, ◌>>=◌, ◌>>◌, where_rows, type_error, contract_invalid,
}
use vault.Decimal.{Context, Decimal, whole, quotient}
use vault.Core.Models.{Currency}
use vault.Tax.Models.{ReturnTaxTreatment}
use vault.Accounts.Models.{
  Institution, FinancialAccount, AccountType, is_savings, is_fixed_term, FixedTermDetails,
  InterestMethod, CompoundingFrequency, PaymentMethod, InterestDestination, MaturityInstruction,
  FixedTermMessage, clean_fixed_term, is_compound, is_paid_out,
}

pub record AccountForm : Type 0 where
  pub name : String
  pub institution : Option Institution
  pub account_type : Option AccountType
  pub currency : Option Currency
  pub account_number_last4 : String
  pub opening_date : Option ℕ
  pub notes : String
  pub return_tax_treatment : Option ReturnTaxTreatment
  pub savings_annual_interest_rate_percent : Option Decimal
  pub fixed_principal : Option Decimal
  pub fixed_start_date : Option ℕ
  pub fixed_maturity_date : Option ℕ
  pub fixed_annual_rate_percent : Option Decimal
  pub fixed_interest_method : Option InterestMethod
  pub fixed_compounding_frequency : Option CompoundingFrequency
  pub fixed_interest_payment_method : Option PaymentMethod
  pub fixed_interest_destination : Option InterestDestination
  pub fixed_interest_destination_account : Option FinancialAccount
  pub fixed_early_withdrawal_allowed : Bool
  pub fixed_early_withdrawal_penalty_notes : String
  pub fixed_maturity_instruction : Option MaturityInstruction
  pub fixed_maturity_destination_account : Option FinancialAccount
  pub funding_account : Option FinancialAccount

pub data RequiredField : Type 0 where
  principal start_date maturity_date annual_rate interest_method payment_method : RequiredField
  interest_destination maturity_instruction : RequiredField

pub data FormMessage : Type 0 where
  type_changed foreign_treatment maturity_not_after_start frequency_required : FormMessage
  payout_account_required funding_currency_differs : FormMessage
  is_required : RequiredField → FormMessage

abbrev type_index : AccountType → ℕ
type_index AccountType.checking = 0
type_index AccountType.savings = 1
type_index AccountType.fixed_term = 2
type_index AccountType.cash = 3
type_index AccountType.brokerage = 4
type_index AccountType.credit_card = 5
type_index AccountType.loan = 6
type_index AccountType.mortgage = 7
type_index AccountType.crypto = 8
type_index AccountType.other = 9

abbrev when {ℓ} : {A : Type ℓ} → Bool → A → List A
when test message = if test then message ∷ [] else []

-- What is true of a value that is there.
abbrev has : {A : Type 0} → (A → Bool) → Option A → Bool
has p none = false
has p (some a) = p a

abbrev changes_type : Option FinancialAccount → Option AccountType → Bool
changes_type none account_type = false
changes_type (some instance_account) account_type =
    has (λ t. not (type_index t == type_index instance_account.account_type)) account_type

abbrev missing : {A : Type 0} → RequiredField → Option A → List FormMessage
missing field value = when (is_none value) (is_required field)

-- `cleaned_maturity <= cleaned_start`, where both are there
abbrev not_after : Option ℕ → Option ℕ → Bool
not_after maturity start = has (λ m. has (λ s. leb m s) start) maturity

abbrev funding_differs : Option FinancialAccount → Option Currency → Bool
funding_differs funding currency =
    has (λ f. has (λ (c : Currency). not (f.currency.pk == c.pk)) currency) funding

-- The checks of a fixed term.
unfoldable pub clean_fixed : AccountForm → List FormMessage
clean_fixed form =
    missing principal form.fixed_principal
    ++ (missing start_date form.fixed_start_date
        ++ (missing maturity_date form.fixed_maturity_date
            ++ (missing annual_rate form.fixed_annual_rate_percent
                ++ (missing interest_method form.fixed_interest_method
                    ++ (missing payment_method form.fixed_interest_payment_method
                        ++ (missing interest_destination form.fixed_interest_destination
                            ++ (missing maturity_instruction form.fixed_maturity_instruction
                                ++ (when (not_after form.fixed_maturity_date form.fixed_start_date)
                                      maturity_not_after_start
                                    ++ (when
                                          (has is_compound form.fixed_interest_method
                                            && is_none form.fixed_compounding_frequency)
                                          frequency_required
                                        ++ (when
                                              (has is_paid_out form.fixed_interest_destination
                                                && is_none form.fixed_interest_destination_account)
                                              payout_account_required
                                            ++ when
                                                (funding_differs form.funding_account form.currency)
                                                funding_currency_differs))))))))))

-- `clean`, of the form of a stored account or of a new one: the fields and the messages.
unfoldable pub clean_form :
    ℕ → Option FinancialAccount → AccountForm → AccountForm × List FormMessage
unfolding clean_fixed
clean_form user stored form = (
  if has is_savings form.account_type
      then form
      else record form { savings_annual_interest_rate_percent = none },
  when (changes_type stored form.account_type) type_changed
      ++ (when
            (has (λ (t : ReturnTaxTreatment). not (t.owner_id == user)) form.return_tax_treatment)
            foreign_treatment
          ++ (if has is_fixed_term form.account_type then clean_fixed form else [])),
)

-- A field that the view reads from `cleaned_data`.
abbrev pub given {ℓ} : {A : Type ℓ} → Option A → Result A
given none = err contract_invalid
given (some a) = ok a

unfoldable pub raise_contract : List FixedTermMessage → Result (Unit {0})
raise_contract [] = ok tt
raise_contract (m ∷ ms) = err contract_invalid

abbrev pub number_given : Option Decimal → Result Decimal
number_given none = err type_error
number_given (some a) = ok a

module _ ⦃c : Context⦄ where
  -- `save`: what the instance takes as its savings rate.
  unfoldable pub savings_rate : AccountForm → Option Decimal
  savings_rate form =
      if has is_savings form.account_type
      then elim form.savings_annual_interest_rate_percent [
        | none ↦ none
        | some percent ↦ some (quotient percent (whole 100))
      ]
      else none

  -- The contract that the fields of a form describe.
  unfoldable pub read_contract : AccountForm → FinancialAccount → Result FixedTermDetails
  read_contract form account = do
    rate_percent ← number_given form.fixed_annual_rate_percent
    sum ← given form.fixed_principal
    start ← given form.fixed_start_date
    maturity ← given form.fixed_maturity_date
    method ← given form.fixed_interest_method
    payment ← given form.fixed_interest_payment_method
    destination ← given form.fixed_interest_destination
    instruction ← given form.fixed_maturity_instruction
    ok (record {
      account = account;
      principal = sum;
      start_date = start;
      maturity_date = maturity;
      annual_interest_rate = quotient rate_percent (whole 100);
      interest_method = method;
      compounding_frequency = form.fixed_compounding_frequency;
      interest_payment_method = payment;
      interest_destination = destination;
      interest_destination_account = form.fixed_interest_destination_account;
      early_withdrawal_allowed = form.fixed_early_withdrawal_allowed;
      early_withdrawal_penalty_notes = form.fixed_early_withdrawal_penalty_notes;
      maturity_instruction = instruction;
      maturity_destination_account = form.fixed_maturity_destination_account;
    })

  -- The contract that `save_fixed_term_details` writes for an account of a fixed term.
  unfoldable pub contract_of : AccountForm → FinancialAccount → Result FixedTermDetails
  unfolding read_contract raise_contract clean_fixed_term
  contract_of form account = do
    details ← read_contract form account
    raise_contract (clean_fixed_term details)
    ok details

abbrev pub without_contract : FinancialAccount → List FixedTermDetails → List FixedTermDetails
without_contract account = where_rows (λ d. not (d.account.pk == account.pk))

module _ ⦃c : Context⦄ where
  -- `save_fixed_term_details`: the contract of the account, if it is of a fixed term, and the table
  -- with that contract alone for the account.
  unfoldable pub save_fixed_term_details :
      AccountForm
      → FinancialAccount
      → List FixedTermDetails
      → Result (Option FixedTermDetails × List FixedTermDetails)
  unfolding contract_of
  save_fixed_term_details form account contracts =
      if is_fixed_term account.account_type
      then (do
        details ← contract_of form account
        ok (some details, without_contract account contracts ++ details ∷ []))
      else ok (none, without_contract account contracts)
