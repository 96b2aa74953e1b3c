-- ===== src/Ledger/Exports.antt =====
-- ledger/exports.py. A file is the rows of cells that `csv.writer` is given.
pub mod Safety
pub mod Dates
use Prim.Native.Char.{char, code}
use vault.Base.{
  ℕ, Bool, true, false, not, ◌&&◌, ◌||◌, Option, none, some, String, List, [], ◌∷◌, map, any, ltb,
  ◌==◌, if◌then◌else◌, where_rows, get_or,
}
use vault.Decimal.{Context, Decimal, quantize}
use vault.Text.{strip, lstrip, startswith, removeprefix, splitlines}
use vault.Text.Numbers.{show_amount}
use vault.Core.Calendar.{Date, from_ordinal, from_isoformat, day_first}
use vault.Accounts.Models.{FinancialAccount}
use vault.Ledger.Models.{TransactionEntry}
use vault.Database.{Database}

-- A text that a spreadsheet may take for a formula.
unfoldable pub is_formula : String → Bool
unfolding lstrip startswith
is_formula value = any (startswith (lstrip value)) ("=" ∷ "+" ∷ "-" ∷ "@" ∷ [])

-- `_spreadsheet_safe`
unfoldable pub spreadsheet_safe : String → String
unfolding is_formula
spreadsheet_safe value = if is_formula value then String.◌∷◌ (char 39 tt) value else value

-- The first line that begins as a value date does decides.
value_date_of : Option String → Option Date → Option Date
unfolding strip from_isoformat
value_date_of none later = later
value_date_of (some rest) later = from_isoformat (strip rest)

dates_of_lines : List String → Option Date
unfolding removeprefix value_date_of
dates_of_lines [] = none
dates_of_lines (line ∷ lines) =
    value_date_of (removeprefix "Value date: " line) (dates_of_lines lines)

-- `_value_date`
unfoldable pub value_date : String → Option Date
unfolding splitlines dates_of_lines
value_date notes = dates_of_lines (splitlines notes)

-- `order_by("-transaction__transaction_date", "-id")`
abbrev pub comes_before : TransactionEntry → TransactionEntry → Bool
comes_before x y =
    let a = x.transaction.transaction_date in
    let b = y.transaction.transaction_date in ltb b a || (a == b && ltb y.pk x.pk)

insert_sorted : TransactionEntry → List TransactionEntry → List TransactionEntry
insert_sorted x [] = x ∷ []
insert_sorted x (y ∷ ys) =
    let rest = insert_sorted x ys in if comes_before y x then y ∷ rest else x ∷ y ∷ ys

unfoldable pub newest_first : List TransactionEntry → List TransactionEntry
unfolding insert_sorted
newest_first [] = []
newest_first (x ∷ xs) = insert_sorted x (newest_first xs)

-- A date as the file prints it; no date is an empty cell.
unfoldable pub date_cell : Option Date → String
unfolding day_first
date_cell none = ""
date_cell (some t) = day_first t

module _ ⦃c : Context⦄ where
  -- A stored date is its day number; `from_ordinal` gives its year, month and day.
  unfoldable pub entry_row : TransactionEntry → List String
  unfolding date_cell from_ordinal value_date spreadsheet_safe show_amount quantize
  entry_row e =
      date_cell (from_ordinal e.transaction.transaction_date)
      ∷ date_cell (value_date e.transaction.notes)
      ∷ spreadsheet_safe e.transaction.description
      ∷ show_amount (quantize 2 e.amount)
      ∷ []

  unfoldable pub export_account_transactions : FinancialAccount → Database → List (List String)
  unfolding newest_first entry_row
  export_account_transactions account db =
      ("Transaction Date" ∷ "Value Date" ∷ "Description" ∷ "Amount" ∷ [])
      ∷ map entry_row (newest_first (where_rows (λ e. e.account.pk == account.pk) db.entries))
