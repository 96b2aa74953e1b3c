-- ===== src/Accounts/Models.antt =====
-- accounts/models.py: the tables, and the checks that `clean` makes. A check returns the messages
-- that it would raise; none means that it passes.
use vault.Base.{
  ℕ, Bool, true, false, not, ◌&&◌, Option, none, some, String, List, [], ◌∷◌, ◌++◌, leb, ◌==◌,
  if◌then◌else◌, is_none,
}
use vault.Decimal.{Context, Decimal, whole, ◌⊗◌}
use vault.Core.Models.{Currency}
use vault.Tax.Models.{ReturnTaxTreatment}

pub data InstitutionType : Type 0 where
  bank broker lender crypto_exchange other : InstitutionType

pub record Institution : Type 0 where
  pub pk : ℕ
  pub owner_id : ℕ
  pub name : String
  pub institution_type : InstitutionType
  pub country : String
  pub website : String
  pub notes : String
  pub active : Bool

pub data AccountType : Type 0 where
  checking savings fixed_term cash brokerage credit_card : AccountType
  loan mortgage crypto other : AccountType

abbrev pub is_brokerage : AccountType → Bool
is_brokerage brokerage = true
is_brokerage _ = false

abbrev pub is_savings : AccountType → Bool
is_savings savings = true
is_savings _ = false

abbrev pub is_fixed_term : AccountType → Bool
is_fixed_term fixed_term = true
is_fixed_term _ = false

pub record FinancialAccount : Type 0 where
  pub pk : ℕ
  pub owner_id : ℕ
  pub name : String
  pub institution : Option Institution
  pub account_type : AccountType
  pub currency : Currency
  pub account_number_last4 : String
  pub opening_date : Option ℕ
  pub closing_date : Option ℕ
  pub active : Bool
  pub notes : String
  pub return_tax_treatment : Option ReturnTaxTreatment
  pub savings_annual_interest_rate : Option Decimal

pub data AccountMessage : Type 0 where
  treatment_of_another_user rate_on_other_than_savings : AccountMessage

-- `self.return_tax_treatment_id and self.return_tax_treatment.owner_id != self.owner_id`
abbrev foreign_treatment : Option ReturnTaxTreatment → ℕ → Bool
foreign_treatment none owner_id = false
foreign_treatment (some t) owner_id = not (t.owner_id == owner_id)

unfoldable pub clean_account : FinancialAccount → List AccountMessage
clean_account a =
    (if foreign_treatment a.return_tax_treatment a.owner_id
      then treatment_of_another_user ∷ []
      else [])
    ++ (if not (is_none a.savings_annual_interest_rate) && not (is_savings a.account_type)
        then rate_on_other_than_savings ∷ []
        else [])

pub data InterestMethod : Type 0 where
  simple compound : InterestMethod

pub data CompoundingFrequency : Type 0 where
  daily monthly quarterly annually : CompoundingFrequency

pub data PaymentMethod : Type 0 where
  at_maturity monthly quarterly annually : PaymentMethod

pub data InterestDestination : Type 0 where
  capitalized paid_out : InterestDestination

pub data MaturityInstruction : Type 0 where
  return_to_account renew_principal renew_principal_and_interest undecided : MaturityInstruction

pub record FixedTermDetails : Type 0 where
  pub account : FinancialAccount
  pub principal : Decimal
  pub start_date : ℕ
  pub maturity_date : ℕ
  pub annual_interest_rate : Decimal
  pub interest_method : InterestMethod
  pub compounding_frequency : Option CompoundingFrequency
  pub interest_payment_method : PaymentMethod
  pub interest_destination : InterestDestination
  pub interest_destination_account : Option FinancialAccount
  pub early_withdrawal_allowed : Bool
  pub early_withdrawal_penalty_notes : String
  pub maturity_instruction : MaturityInstruction
  pub maturity_destination_account : Option FinancialAccount

pub data FixedTermField : Type 0 where
  interest_destination_account maturity_destination_account : FixedTermField

pub data FixedTermMessage : Type 0 where
  not_a_fixed_term_account maturity_not_after_start frequency_required : FixedTermMessage
  destination_of_another_user destination_is_this_account : FixedTermField → FixedTermMessage
  select_interest_destination : FixedTermMessage

-- One round of the loop over the two destination fields.
abbrev clean_destination :
    FixedTermField → Option FinancialAccount → FinancialAccount → List FixedTermMessage
clean_destination field none account = []
clean_destination field (some destination) account =
    if not (destination.owner_id == account.owner_id)
    then destination_of_another_user field ∷ []
    else if destination.pk == account.pk
    then destination_is_this_account field ∷ []
    else []

abbrev pub is_compound : InterestMethod → Bool
is_compound simple = false
is_compound compound = true

abbrev pub is_paid_out : InterestDestination → Bool
is_paid_out capitalized = false
is_paid_out paid_out = true

-- `FixedTermDetails.clean` on a contract whose account and dates are set. A missing destination for
-- paid-out interest has no other message under its key, so nothing is overwritten.
unfoldable pub clean_fixed_term : FixedTermDetails → List FixedTermMessage
clean_fixed_term d =
    (if not (is_fixed_term d.account.account_type) then not_a_fixed_term_account ∷ [] else [])
    ++ ((if leb d.maturity_date d.start_date then maturity_not_after_start ∷ [] else [])
        ++ ((if is_compound d.interest_method && is_none d.compounding_frequency
              then frequency_required ∷ []
              else [])
            ++ (clean_destination interest_destination_account d.interest_destination_account
                  d.account
                ++ (clean_destination maturity_destination_account d.maturity_destination_account
                      d.account
                    ++ (if is_paid_out d.interest_destination
                          && is_none d.interest_destination_account
                        then select_interest_destination ∷ []
                        else [])))))

module _ ⦃c : Context⦄ where
  unfoldable pub savings_annual_interest_rate_percent : FinancialAccount → Option Decimal
  savings_annual_interest_rate_percent a = elim a.savings_annual_interest_rate [
    | none ↦ none
    | some rate ↦ some (rate ⊗ whole 100)
  ]

  unfoldable pub annual_interest_rate_percent : FixedTermDetails → Decimal
  annual_interest_rate_percent d = d.annual_interest_rate ⊗ whole 100
