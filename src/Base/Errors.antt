-- ===== src/Base/Errors.antt =====
-- Exceptions as values. A database operation returns the new database beside its result, and an
-- error carries none: an `atomic` block that raises leaves the database that the caller has.
use Prim.Native.Nat.{ℕ}
use Prim.Native.String.{String}
use mathlib.Core.Bool.{Bool, true, false}
use mathlib.Core.List.{List, [], ◌∷◌}
use mathlib.Core.Path.{◌≡◌, refl, ap, ◌∙◌}

-- What is wrong with a row of an imported file.
pub data RowProblem : Type 0 where
  date_format not_a_number not_finite amount_is_zero too_many_digits : RowProblem
  too_many_values description_missing description_too_long does_not_reconcile : RowProblem

-- The row that a message names: by its number, or by the date or the words in its place.
pub data RowLabel : Type 0 where
  numbered : ℕ → RowLabel
  dated : String → RowLabel

-- One constructor for each exception that the modelled code raises.
pub data Error : Type 0 where
  -- `decimal.DivisionByZero` and `decimal.InvalidOperation`
  division_by_zero : Error
  -- `ledger.services`
  amount_zero amount_not_positive : Error
  account_not_owned accounts_not_owned transaction_not_owned : Error
  same_account cross_currency : Error
  immutable_investment : Error
  -- `core.services.fx`
  missing_exchange_rate : Error
  -- `None` where a Decimal is needed
  type_error : Error
  -- `ledger.calculations.interest` and `accounts.services.fixed_term`
  dates_out_of_order unsupported_frequency : Error
  principal_not_positive rate_negative maturity_not_after_start : Error
  frequency_missing unsupported_method : Error
  -- `investments.services` and `tax.services`
  historical_oversell insufficient_holdings : Error
  -- with the symbol that the message names
  cost_basis_unavailable : String → Error
  brokerage_required unsupported_type invalid_investment net_cash_zero : Error
  quantity_not_positive return_negative : Error
  -- a contract that `full_clean` refuses
  contract_invalid : Error
  -- `get_object_or_404`, and a year that is filed
  not_found forbidden : Error
  -- a tax item or rule that `full_clean` refuses
  item_invalid : Error
  -- `ledger.imports`
  import_row : RowLabel → RowProblem → Error
  not_utf8 file_empty header_missing no_rows : Error
  columns_missing : List String → Error
  pdf_protected pdf_too_long pdf_unreadable pdf_without_text pdf_too_large : Error
  unsupported_layout no_transactions several_currencies statement_currency : Error

-- What a call that may raise gives back.
pub data Result {ℓ} (A : Type ℓ) : Type ℓ where
  err : Error → Result A
  ok : A → Result A

-- `if test: raise error`
abbrev pub raise_if : Bool → Error → Result (Unit {0})
raise_if false e = ok tt
raise_if true e = err e

module _ {ℓ κ} {A : Type ℓ} {B : Type κ} where
  infixl 5 ◌>>=◌
  abbrev pub ◌>>=◌ : Result A → (A → Result B) → Result B
  err e >>= rest = err e
  ok value >>= rest = rest value

  -- A call that returned: its own value, and what was done with it.
  pub >>=-eq-ok :
      (call : Result A) (rest : A → Result B) {b : B}
      → (call >>= rest) ≡ ok b
      → (value : A) × (call ≡ ok value) × (rest value ≡ ok b)
  >>=-eq-ok (err e) rest h = cc
  >>=-eq-ok (ok value) rest h = (value, refl, h)

infixl 5 ◌>>◌
abbrev pub ◌>>◌ {ℓ} : {B : Type ℓ} → Result (Unit {0}) → Result B → Result B
call >> rest = call >>= λ _. rest

-- A computation over the elements in turn, which the first exception ends.
abbrev pub map_result {ℓ κ} : {A : Type ℓ} {B : Type κ} → (A → Result B) → List A → Result (List B)
map_result f [] = ok []
map_result f (x ∷ xs) = f x >>= λ y. map_result f xs >>= λ ys. ok (y ∷ ys)

pub ok-injective {ℓ} : {A : Type ℓ} (a b : A) → ok a ≡ ok b → a ≡ b
ok-injective a b h = cc

-- A guard that is passed.
pub raise_if-eq-ok {ℓ} :
    {A : Type ℓ} (b : Bool) (e : Error) (m : Result A) (a : A)
    → (raise_if b e >> m) ≡ ok a
    → (b ≡ false) × (m ≡ ok a)
raise_if-eq-ok true e m a h = cc
raise_if-eq-ok false e m a h = (refl, h)

pub raise_if-pass {ℓ} :
    {A : Type ℓ} (b : Bool) (e : Error) (m : Result A) (a : A)
    → b ≡ false
    → m ≡ ok a
    → (raise_if b e >> m) ≡ ok a
raise_if-pass true e m a h k = cc
raise_if-pass false e m a h k = k

-- A step that is known to succeed.
pub >>=-pass {ℓ κ} :
    {A : Type ℓ} {B : Type κ} (m : Result A) (f : A → Result B) (a : A) (r : Result B)
    → m ≡ ok a
    → f a ≡ r
    → (m >>= f) ≡ r
>>=-pass m f a r h k = ap (λ t. t >>= f) h ∙ k
