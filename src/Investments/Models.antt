-- ===== src/Investments/Models.antt =====
-- investments/models.py. A text that is empty stands for a blank.
use vault.Base.{
  ℕ, Bool, true, false, not, ◌||◌, Option, none, some, String, List, [], ◌∷◌, ◌++◌, ltb, ◌==◌,
  if◌then◌else◌, is_none, neg, ltb_ℤ, leb_ℤ, eqb_ℤ,
}
use vault.Decimal.{Context, Decimal, decimal_zero, whole, ◌⊕◌, ◌⊖◌, ◌⊗◌, quantize}
use vault.Core.Models.{Currency}
use vault.Accounts.Models.{FinancialAccount, is_brokerage}
use vault.Ledger.Models.{Transaction, TransactionType, buy, sell, dividend, is_type}

pub data SecurityType : Type 0 where
  stock etf fund bond crypto cash_equivalent other : SecurityType

pub record Security : Type 0 where
  pub pk : ℕ
  pub symbol : String
  pub name : String
  pub security_type : SecurityType
  pub currency : Currency
  pub isin : String
  pub exchange : String
  pub active : Bool

pub record SecurityPrice : Type 0 where
  pub created_at : ℕ
  pub security : Security
  pub date : ℕ
  pub price : Decimal
  pub currency : Currency
  pub source : String

pub record InvestmentTransaction : Type 0 where
  pub transaction : Transaction
  pub account : FinancialAccount
  pub security : Security
  pub settlement_date : Option ℕ
  pub quantity : Option Decimal
  pub price_per_unit : Option Decimal
  pub gross_amount : Decimal
  pub fees : Decimal
  pub taxes : Decimal
  pub currency : Currency
  pub exchange_rate : Option Decimal

pub data InvestmentMessage : Type 0 where
  brokerage_required owners_must_match security_inactive currency_mismatch : InvestmentMessage
  settled_before_trade quantity_not_positive price_negative gross_mismatch : InvestmentMessage
  quantity_and_price_not_used exchange_rate_required exchange_rate_not_one : InvestmentMessage

module _ ⦃c : Context⦄ where
  net_by_type : TransactionType → Decimal → Decimal → Decimal → Decimal
  net_by_type buy gross fees taxes = neg (gross ⊕ fees ⊕ taxes)
  net_by_type sell gross fees taxes = gross ⊖ fees ⊖ taxes
  net_by_type dividend gross fees taxes = gross ⊖ fees ⊖ taxes
  net_by_type _ gross fees taxes = neg gross

  unfoldable pub net_cash_impact_native : InvestmentTransaction → Decimal
  unfolding net_by_type
  net_cash_impact_native i =
      net_by_type i.transaction.transaction_type i.gross_amount i.fees i.taxes

  -- The message under the key `account`: the later test replaces the earlier.
  abbrev pub clean_owner : InvestmentTransaction → List InvestmentMessage
  clean_owner i =
      if not (i.transaction.owner_id == i.account.owner_id)
      then owners_must_match ∷ []
      else if not (is_brokerage i.account.account_type)
      then brokerage_required ∷ []
      else []

  abbrev pub clean_settlement : Option ℕ → ℕ → List InvestmentMessage
  clean_settlement none trade_date = []
  clean_settlement (some date) trade_date =
      if ltb date trade_date then settled_before_trade ∷ [] else []

  abbrev pub not_positive : Option Decimal → Bool
  not_positive none = true
  not_positive (some quantity) = leb_ℤ quantity decimal_zero

  abbrev missing_or_negative : Option Decimal → Bool
  missing_or_negative none = true
  missing_or_negative (some price) = ltb_ℤ price decimal_zero

  -- `gross_amount != (quantity * price_per_unit).quantize(Decimal("0.0001"))`, where both are given
  abbrev gross_differs : Option Decimal → Option Decimal → Decimal → Bool
  gross_differs (some quantity) (some price) gross =
      not (eqb_ℤ gross (quantize 4 (quantity ⊗ price)))
  gross_differs _ _ gross = false

  abbrev pub clean_quantities : InvestmentTransaction → List InvestmentMessage
  clean_quantities i =
      if is_type i.transaction.transaction_type buy || is_type i.transaction.transaction_type sell
      then (if not_positive i.quantity then quantity_not_positive ∷ [] else [])
        ++ ((if missing_or_negative i.price_per_unit then price_negative ∷ [] else [])
            ++ (if gross_differs i.quantity i.price_per_unit i.gross_amount
                then gross_mismatch ∷ []
                else []))
      else if not (is_none i.quantity) || not (is_none i.price_per_unit)
      then quantity_and_price_not_used ∷ []
      else []

  -- `self.exchange_rate not in (None, Decimal(1))`
  abbrev rate_not_one : Option Decimal → Bool
  rate_not_one none = false
  rate_not_one (some rate) = not (eqb_ℤ rate (whole 1))

  abbrev pub clean_rate : InvestmentTransaction → List InvestmentMessage
  clean_rate i =
      if i.currency.pk == i.account.currency.pk
      then (if rate_not_one i.exchange_rate then exchange_rate_not_one ∷ [] else [])
      else if is_none i.exchange_rate
      then exchange_rate_required ∷ []
      else []

  -- `InvestmentTransaction.clean` with its relations set.
  unfoldable pub clean_investment : InvestmentTransaction → List InvestmentMessage
  clean_investment i =
      clean_owner i
      ++ ((if not i.security.active then security_inactive ∷ [] else [])
          ++ ((if not (i.security.currency.pk == i.currency.pk) then currency_mismatch ∷ [] else [])
              ++ (clean_settlement i.settlement_date i.transaction.transaction_date
                  ++ (clean_quantities i ++ clean_rate i))))
