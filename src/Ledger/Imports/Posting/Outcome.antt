-- ===== src/Ledger/Imports/Posting/Outcome.antt =====
-- What an import does to the tables: the posting loop of ledger/imports.py over the rows it read.
use vault.Base.{
  ℕ, ◌≤◌, ◌≡◌, refl, sym, ap, subst, false, not, Option, List, [], ◌∷◌, ◌==◌, any, All, ◌+ℤ◌,
  int_laws, pos_part, neg_part, Bool-cases, inl, inr, arith, length, ok, ok-injective, >>=-eq-ok,
  >>=-pass, raise_if-eq-ok, raise_if-pass, account_not_owned, statement_currency,
}
use vault.Decimal.{Context, Decimal, decimal_zero}
use vault.Text.{Unicode, casefold}
use vault.Core.Calendar.{to_ordinal}
use vault.Accounts.Models.{FinancialAccount}
use vault.Ledger.Services.{create, account_balance}
use vault.Ledger.Services.Balances.{moved, posted, create_iff, balance-create}
use vault.Ledger.History.{Reachable, start, step, post, IsSound, Reachable-IsSound}
use vault.Ledger.Imports.{ImportedRow}
use vault.Ledger.Imports.Columns.{IsImportable, parse_transaction_csv-IsImportable}
use vault.Ledger.Imports.Statement.Bounds.{parse_transaction_pdf-IsImportable}
use vault.Ledger.Imports.Posting.{
  Upload, Readers, endswith, other_currency, post_rows, parse_upload, import_transactions,
}
use vault.Database.{Database}

-- What the rows add to a balance.
abbrev pub imported : FinancialAccount → List ImportedRow → FinancialAccount → Option ℕ → Decimal
imported account [] other as_of_date = decimal_zero
imported account (row ∷ rows) other as_of_date =
    moved account row.amount (to_ordinal row.transaction_date) other as_of_date
    +ℤ imported account rows other as_of_date

-- The balance of every account on every date has grown by the rows.
abbrev pub HasRows : FinancialAccount → List ImportedRow → Database → Database → Type 0
HasRows account rows db db' =
    (other : FinancialAccount) (as_of_date : Option ℕ)
    → account_balance other as_of_date db'
      ≡ account_balance other as_of_date db +ℤ imported account rows other as_of_date

same_owner : (a b : ℕ) → a ≡ b → not (a == b) ≡ false
same_owner a b h = ground arith

add_zero : (a b : Decimal) → a ≡ b → a ≡ b +ℤ decimal_zero
add_zero a b e = omega (int_laws, ap pos_part e, ap neg_part e)

add_rows : (a b d m n : Decimal) → a ≡ b +ℤ n → b ≡ d +ℤ m → a ≡ d +ℤ (m +ℤ n)
add_rows a b d m n e f =
    omega (int_laws, ap pos_part e, ap neg_part e, ap pos_part f, ap neg_part f)

post_rows-HasRows :
    (owner : ℕ) (account : FinancialAccount) (rows : List ImportedRow) (db db' : Database)
    → post_rows owner account rows db ≡ ok db'
    → HasRows account rows db db'
unfolding post_rows
post_rows-HasRows owner account [] db db' h other as_of_date =
    add_zero _ _ (ap (account_balance other as_of_date) (sym (ok-injective _ _ h)))
post_rows-HasRows owner account (row ∷ rows) db db' h other as_of_date =
    let date = to_ordinal row.transaction_date in
    let (r, e, rest) =
      >>=-eq-ok
        (create owner account row.amount row.transaction_type date row.description row.notes
          row.reference db)
        _ h in
    add_rows (account_balance other as_of_date db') (account_balance other as_of_date r.1)
      (account_balance other as_of_date db) _ _
      (post_rows-HasRows owner account rows r.1 db' rest other as_of_date)
      (balance-create owner account row.amount row.transaction_type date row.description row.notes
        row.reference db r e other as_of_date)

module _ ⦃c : Context⦄ where
  -- Rows that the columns hold are all posted to an account of the owner.
  post_rows-ok :
      (owner : ℕ) (account : FinancialAccount) (rows : List ImportedRow) (db : Database)
      → account.owner_id ≡ owner
      → All IsImportable rows
      → (db' : Database) × (post_rows owner account rows db ≡ ok db')
  unfolding post_rows
  post_rows-ok owner account [] db owned fit = (db, refl)
  post_rows-ok owner account (row ∷ rows) db owned fit =
      let date = to_ordinal row.transaction_date in
      let r =
        posted owner account row.amount row.transaction_type date row.description row.notes
          row.reference db in
      let (db', rest) = post_rows-ok owner account rows r.1 owned fit.1 in
      (
        db',
        >>=-pass _ _ r _
            ((create_iff owner account row.amount row.transaction_type date row.description
                row.notes row.reference db r).1
              (fit.0.amount_fits.nonzero, owned, refl))
            rest,
      )

  post_rows-Reachable :
      (owner : ℕ) (account : FinancialAccount) (rows : List ImportedRow) (first db db' : Database)
      → Reachable first db
      → post_rows owner account rows db ≡ ok db'
      → Reachable first db'
  unfolding post_rows
  post_rows-Reachable owner account [] first db db' reached h =
      subst (Reachable first) (ok-injective _ _ h) reached
  post_rows-Reachable owner account (row ∷ rows) first db db' reached h =
      let date = to_ordinal row.transaction_date in
      let (r, e, rest) =
        >>=-eq-ok
          (create owner account row.amount row.transaction_type date row.description row.notes
            row.reference db)
          _ h in
      post_rows-Reachable owner account rows first r.1 db'
        (step reached (
          post owner account row.amount row.transaction_type date row.description row.notes
            row.reference e))
        rest

module _ ⦃u : Unicode⦄ ⦃c : Context⦄ ⦃readers : Readers⦄ where
  -- Where amounts have at least four places, every row that is read from a file, in CSV or in PDF,
  -- fits its columns: the amount is not zero, is exact to four places and below 10^16, the
  -- description has at most 255 characters and the reference at most 100.
  pub parse_upload-IsImportable :
      (file : Upload) (rows : List ImportedRow)
      → 4 ≤ c.places
      → parse_upload file ≡ ok rows
      → All IsImportable rows
  unfolding parse_upload
  parse_upload-IsImportable file rows p h =
      elim (Bool-cases (endswith (casefold file.name) ".pdf")) [
        | inl e ↦
            parse_transaction_pdf-IsImportable readers.normalise file.document rows p (rw e at h)
        | inr e ↦ parse_transaction_csv-IsImportable readers.csv file.content rows p (rw e at h)
      ]

  -- Where amounts have at least four places, a file that is read, for an account of the owner and
  -- in no other currency, is always imported: no row is refused, the count is that of the rows, and
  -- the balance of every account on every date grows by exactly the rows that are of it and not
  -- after the date.
  pub import_transactions-ok :
      (owner : ℕ) (account : FinancialAccount) (file : Upload) (rows : List ImportedRow)
      (db : Database)
      → 4 ≤ c.places
      → account.owner_id ≡ owner
      → parse_upload file ≡ ok rows
      → any (other_currency account) rows ≡ false
      → (db' : Database) × (import_transactions owner account file db ≡ ok (length rows, db'))
        × HasRows account rows db db'
  unfolding import_transactions
  import_transactions-ok owner account file rows db p owned parsed same =
      let (db', done) =
        post_rows-ok owner account rows db owned (parse_upload-IsImportable file rows p parsed) in
      let foreign = not (account.owner_id == owner) in
      (
        db',
        raise_if-pass foreign account_not_owned _ _ (same_owner account.owner_id owner owned) (
            >>=-pass (parse_upload file) _ rows _ parsed (
              raise_if-pass (any (other_currency account) rows) statement_currency _ _ same
                (>>=-pass (post_rows owner account rows db) _ db' _ done refl))),
        post_rows-HasRows owner account rows db db' done,
      )

  pub import_transactions-IsSound :
      (owner : ℕ) (account : FinancialAccount) (file : Upload) (db : Database) (r : ℕ × Database)
      → import_transactions owner account file db ≡ ok r
      → IsSound db
      → IsSound r.1
  unfolding import_transactions
  import_transactions-IsSound owner account file db r h s =
      let foreign = not (account.owner_id == owner) in
      let (_, h1) = raise_if-eq-ok foreign account_not_owned _ r h in
      let (rows, _, h2) = >>=-eq-ok (parse_upload file) _ h1 in
      let (_, h3) = raise_if-eq-ok (any (other_currency account) rows) statement_currency _ r h2 in
      let (db', e, done) = >>=-eq-ok (post_rows owner account rows db) _ h3 in
      subst (λ (x : ℕ × Database). IsSound x.1) (ok-injective _ _ done)
        (Reachable-IsSound (post_rows-Reachable owner account rows db db db' start e) s)
