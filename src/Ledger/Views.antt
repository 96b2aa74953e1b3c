-- ===== src/Ledger/Views.antt =====
-- ledger/views.py and ledger/forms.py: the checks of the forms, and what the views ask of the services.
-- A message to the user that tells of a success is left out; a refusal of the service is its error.
pub mod Notice
use vault.Base.{
  ℕ, suc, Bool, true, false, not, ◌&&◌, ◌||◌, Option, none, some, String, List, [], ◌∷◌, ltb, ◌==◌,
  if◌then◌else◌, find, any, where_rows, length, str_eq, Result, ok, err, ◌>>=◌, ◌>>◌, not_found,
}
use vault.Decimal.{Context, Decimal}
use vault.Text.{Unicode, casefold, contains}
use vault.Accounts.Models.{FinancialAccount}
use vault.Accounts.Views.{Books, get_account}
use vault.Ledger.Models.{
  Transaction, TransactionType, deposit, income, withdrawal, expense, TransactionEntry,
}
use vault.Ledger.Services.{
  create_deposit, create_withdrawal, create_transfer, delete_transaction,
  delete_account_transactions, touches, is_listed,
}
use vault.Ledger.Imports.Posting.{Upload, Readers, endswith, import_transactions}
use vault.Database.{Database}

-- `EntryForm` and `TransferForm` from the cleaned fields on.
pub record EntryForm : Type 0 where
  pub account : FinancialAccount
  pub amount : Decimal
  pub transaction_date : ℕ
  pub description : String

pub record TransferForm : Type 0 where
  pub source : FinancialAccount
  pub destination : FinancialAccount
  pub amount : Decimal
  pub transaction_date : ℕ
  pub description : String

-- `TransferForm.clean`, where both accounts are there: whether it passes.
abbrev pub transfer_form_passes : TransferForm → Bool
transfer_form_passes form = not (form.source.pk == form.destination.pk)

pub data ImportFormMessage : Type 0 where
  file_too_large neither_csv_nor_pdf not_a_pdf : ImportFormMessage

-- What the form sees of an uploaded file: its name, its size, and its first 1024 bytes as a text.
pub record FileHeader : Type 0 where
  pub name : String
  pub size : ℕ
  pub header : String

module _ ⦃u : Unicode⦄ where
  -- `clean_csv_file`: the message, if there is one
  unfoldable pub clean_csv_file : FileHeader → Option ImportFormMessage
  unfolding casefold endswith contains
  clean_csv_file file =
      let filename = casefold file.name in
      if ltb 5242880 file.size
      then some file_too_large
      else if not (endswith filename ".csv" || endswith filename ".pdf")
      then some neither_csv_nor_pdf
      else if endswith filename ".pdf" && not (contains "%PDF-" file.header)
      then some not_a_pdf
      else none

-- The operation that the address of `EntryCreateView` stands for.
pub data Operation : Type 0 where
  deposit_view income_view expense_view withdrawal_view : Operation

-- `EntryCreateView.form_valid`
unfoldable pub create_entry : ℕ → Operation → EntryForm → Database → Result (Transaction × Database)
unfolding create_deposit create_withdrawal
create_entry user deposit_view form =
    create_deposit user form.account form.amount form.transaction_date form.description deposit ""
create_entry user income_view form =
    create_deposit user form.account form.amount form.transaction_date form.description income ""
create_entry user expense_view form =
    create_withdrawal user form.account form.amount form.transaction_date form.description expense
      ""
create_entry user withdrawal_view form =
    create_withdrawal user form.account form.amount form.transaction_date form.description
      withdrawal ""

-- `TransferCreateView.form_valid`
unfoldable pub create_transfer_entry : ℕ → TransferForm → Database → Result (Transaction × Database)
unfolding create_transfer
create_transfer_entry user form =
    create_transfer user form.source form.destination form.amount form.transaction_date
      form.description ""

-- `get_object_or_404(Transaction, pk=pk, owner=user)`
unfoldable pub get_transaction : ℕ → ℕ → Database → Result Transaction
get_transaction user pk db =
    elim (find (λ (t : Transaction). (t.pk == pk) && (t.owner_id == user)) db.transactions) [
      | none ↦ err not_found
      | some t ↦ ok t
    ]

-- `TransactionDeleteView.post`
unfoldable pub delete_transaction_view : ℕ → ℕ → Database → Result Database
unfolding get_transaction delete_transaction
delete_transaction_view user pk db = do t ← get_transaction user pk db; delete_transaction user t db

-- `AccountTransactionsDeleteView.post`
unfoldable pub delete_account_transactions_view : ℕ → ℕ → Books → Result (ℕ × Database)
unfolding get_account delete_account_transactions
delete_account_transactions_view user pk books = do
  account ← get_account user pk books
  delete_account_transactions user account books.ledger

-- What the page that asks for confirmation says: how many transactions go, and whether entries of
-- other accounts go with them.
pub record DeletionNotice : Type 0 where
  pub transaction_count : ℕ
  pub affects_other_accounts : Bool

-- `AccountTransactionsDeleteView.get_context_data`
unfoldable pub deletion_notice : ℕ → ℕ → Books → Result DeletionNotice
unfolding get_account
deletion_notice user pk books = do
  account ← get_account user pk books
  let db = books.ledger
  let doomed = where_rows (touches user account db.entries) db.transactions
  ok (record {
    transaction_count = length doomed;
    affects_other_accounts =
        any (λ e. is_listed doomed e.transaction.pk && not (e.account.pk == account.pk)) db.entries;
  })

module _ ⦃u : Unicode⦄ ⦃c : Context⦄ ⦃readers : Readers⦄ where
  -- `TransactionImportView.form_valid`
  unfoldable pub import_view : ℕ → ℕ → Upload → Books → Result (ℕ × Database)
  unfolding get_account import_transactions
  import_view user pk file books = do
    account ← get_account user pk books
    import_transactions user account file books.ledger
