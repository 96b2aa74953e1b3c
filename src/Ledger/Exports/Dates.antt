-- ===== src/Ledger/Exports/Dates.antt =====
-- The dates in the rows that ledger/exports.py writes, read by ledger/imports.py.
use vault.Base.{ℕ, ◌≡◌, refl, ap, ◌∙◌, Option, some, String, List, ◌∷◌}
use vault.Decimal.{Context}
use vault.Core.Calendar.{Date, to_ordinal, from_ordinal, valid_date, day_first, read_date}
use vault.Text.{Unicode}
use vault.Core.Calendar.Reading.{read_date-day_first}
use vault.Core.Calendar.Ordinals.{from_ordinal-to_ordinal}
use vault.Ledger.Models.{TransactionEntry}
use vault.Ledger.Exports.{date_cell, entry_row}

-- The cell of a date that was found.
date_cell-day_first : (o : Option Date) (t : Date) → o ≡ some t → date_cell o ≡ day_first t
unfolding date_cell
date_cell-day_first o t h = ap date_cell h

module _ ⦃c : Context⦄ ⦃u : Unicode⦄ where
  -- The first cell of the row that the export writes for an entry, of a transaction on a date that
  -- exists, is a text that the import of CSV files reads as that date.
  pub read_date-entry_row :
      (y m d : ℕ) (t : Date) (e : TransactionEntry)
      → valid_date y m d ≡ some t
      → e.transaction.transaction_date ≡ to_ordinal t
      → (cell : String) × (cells : List String) × (entry_row e ≡ cell ∷ cells)
        × (read_date cell ≡ some t)
  unfolding entry_row
  read_date-entry_row y m d t e h k =
      let back = ap from_ordinal k ∙ from_ordinal-to_ordinal y m d t h in
      (
        date_cell (from_ordinal e.transaction.transaction_date),
        _,
        refl,
        ap read_date (date_cell-day_first _ t back) ∙ read_date-day_first y m d t h,
      )
