-- ===== src/Ledger/Imports/Posting.antt =====
-- ledger/imports.py: `import_transactions`. The rows are posted inside `atomic`, so a row that is
-- refused leaves the tables.
pub mod Outcome
use vault.Base.{
  ℕ, suc, Bool, true, false, not, ◌&&◌, ◌||◌, Option, none, some, String, List, [], ◌∷◌, any, ◌==◌,
  if◌then◌else◌, str_eq, length, Result, ok, err, ◌>>=◌, ◌>>◌, raise_if, account_not_owned,
  statement_currency,
}
use vault.Decimal.{Context}
use vault.Text.{Unicode, casefold, is_empty}
use vault.Core.Calendar.{to_ordinal}
use vault.Accounts.Models.{FinancialAccount}
use vault.Ledger.Services.{create}
use vault.Ledger.Imports.{ImportedRow}
use vault.Ledger.Imports.Csv.{parse_transaction_csv}
use vault.Ledger.Imports.Pdf.{Document}
use vault.Ledger.Imports.Statement.{parse_transaction_pdf}
use vault.Database.{Database}

-- An uploaded file: its name, what it decodes to, and what `pypdf` makes of it.
pub record Upload : Type 0 where
  pub name : String
  pub content : Option String
  pub document : Option Document

-- What the library code makes of a text: the rows of a CSV file, and the NFKC form.
pub record Readers : Type 0 where
  pub csv : String → List (List String)
  pub normalise : String → String

unfoldable pub endswith : String → String → Bool
endswith String.[] t = is_empty t
endswith (String.◌∷◌ c s) t = str_eq (String.◌∷◌ c s) t || endswith s t

-- `row.currency_code and row.currency_code != account.currency.code`
abbrev pub other_currency : FinancialAccount → ImportedRow → Bool
other_currency account row = elim row.currency_code [
  | none ↦ false
  | some code ↦ not (is_empty code) && not (str_eq code account.currency.code)
]

-- The loop inside `atomic`.
unfoldable pub post_rows : ℕ → FinancialAccount → List ImportedRow → Database → Result Database
unfolding create to_ordinal
post_rows owner account [] db = ok db
post_rows owner account (row ∷ rows) db = do
  posted ←
      create owner account row.amount row.transaction_type (to_ordinal row.transaction_date)
        row.description row.notes row.reference db
  post_rows owner account rows posted.1

module _ ⦃u : Unicode⦄ ⦃c : Context⦄ ⦃readers : Readers⦄ where
  unfoldable pub parse_upload : Upload → Result (List ImportedRow)
  unfolding casefold endswith parse_transaction_pdf parse_transaction_csv
  parse_upload file =
      if endswith (casefold file.name) ".pdf"
      then parse_transaction_pdf readers.normalise file.document
      else parse_transaction_csv readers.csv file.content

  unfoldable pub import_transactions :
      ℕ → FinancialAccount → Upload → Database → Result (ℕ × Database)
  unfolding parse_upload post_rows
  import_transactions owner account file db = do
    raise_if (not (account.owner_id == owner)) account_not_owned
    rows ← parse_upload file
    raise_if (any (other_currency account) rows) statement_currency
    db' ← post_rows owner account rows db
    ok (length rows, db')
