-- ===== src/Ledger/Imports.antt =====
-- ledger/imports.py: the rows of a file, and how their dates, amounts and types are read.
pub mod Csv
pub mod Pdf
pub mod Statement
pub mod Posting
pub mod Columns
use vault.Base.{
  ℕ, zero, suc, ◌*◌, ◌^◌, Bool, true, false, not, ◌&&◌, ◌||◌, Option, none, some, String, leb, ltb,
  ◌==◌, if◌then◌else◌, ℤ, pos, negsuc, neg_part, magnitude, ltb_ℤ, eqb_ℤ, Result, ok, err, Error,
  RowProblem, RowLabel, import_row, date_format, not_a_number, not_finite, amount_is_zero,
  too_many_digits,
}
use vault.Decimal.{Context, Decimal, decimal_zero}
use vault.Core.Calendar.{Date, read_date}
use vault.Text.{
  Unicode, is_char, strip, split, join_with, casefold, remove, comma_to_point, has_char, last_of,
  contains,
}
use vault.Text.Numbers.{Literal, special, finite, parse_literal, literal_value}
use vault.Ledger.Models.{TransactionType, deposit, withdrawal, interest, fee, tax}

pub record ImportedRow : Type 0 where
  pub transaction_date : Date
  pub description : String
  pub amount : Decimal
  pub transaction_type : TransactionType
  pub notes : String
  pub reference : String
  pub currency_code : Option String

-- `date(...)` or the exception
abbrev pub found : Option Date → RowLabel → Result Date
found none label = err (import_row label date_format)
found (some date) label = ok date

-- A comma is the decimal point unless a point comes after it: then it separates thousands.
unfoldable pub normalise_amount : String → String
unfolding strip remove has_char last_of comma_to_point
normalise_amount s =
    let value = remove (is_char 32) (remove (is_char 160) (strip s)) in
    if has_char b',' value && has_char b'.' value
    then (if last_of b',' b'.' value
        then comma_to_point (remove (is_char b'.') value)
        else remove (is_char b',') value)
    else if has_char b',' value
    then comma_to_point value
    else value

module _ ⦃c : Context⦄ where
  -- 10^16
  abbrev pub amount_limit : ℕ
  amount_limit = 10 ^ 16 * 10 ^ c.places

  -- The last checks of an amount that is finite and not zero: the columns hold four places, and
  -- sixteen digits before the point.
  unfoldable pub check_size : RowLabel → ℤ → Decimal → Result Decimal
  check_size label exponent amount =
      if ltb 4 (neg_part exponent) || leb amount_limit (magnitude amount)
      then err (import_row label too_many_digits)
      else ok amount

  unfoldable pub check_literal : Option Literal → RowLabel → Result Decimal
  unfolding check_size literal_value
  check_literal none label = err (import_row label not_a_number)
  check_literal (some special) label = err (import_row label not_finite)
  check_literal (some (finite negative n exponent)) label =
      if n == 0
      then err (import_row label amount_is_zero)
      else check_size label exponent (literal_value negative n exponent)

module _ ⦃u : Unicode⦄ where
  -- `_normalise_header`; `None` counts as the empty text
  unfoldable pub normalise_header : String → String
  unfolding strip casefold split join_with
  normalise_header value = join_with " " (split (casefold (strip value)))

  -- `_parse_date`
  unfoldable pub parse_date : String → RowLabel → Result Date
  unfolding strip read_date
  parse_date value label = found (read_date (strip value)) label

  -- `_transaction_type`
  unfoldable pub transaction_type : String → Decimal → TransactionType
  unfolding casefold contains
  transaction_type description amount =
      let folded = casefold description in
      if contains "interest" folded
      then interest
      else if contains "tax" folded
      then tax
      else if contains "fee" folded || contains "charge" folded
      then fee
      else if ltb_ℤ decimal_zero amount
      then deposit
      else withdrawal

  module _ ⦃c : Context⦄ where
    -- `_parse_amount`
    unfoldable pub parse_amount : String → RowLabel → Result Decimal
    unfolding normalise_amount parse_literal check_literal
    parse_amount value label = check_literal (parse_literal (normalise_amount value)) label
