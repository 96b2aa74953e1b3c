-- ===== src/Tests/Files.antt =====
-- Files imported and exported.
use vault.Base.{
  ◌≡◌, refl, none, some, String, List, [], ◌∷◌, pos, negsuc, arith, All, false, ok, ◌-ℤ◌, ◌+ℤ◌, neg,
  lower,
}
use vault.Decimal.{Context, ◌⊖◌, quantize, digits}
use vault.Text.{Unicode, ascii_decimal}
use vault.Core.Calendar.{date_of, to_ordinal, valid_date, read_date}
use vault.Ledger.Models.{interest, deposit, withdrawal}
use vault.Ledger.Imports.{ImportedRow}
use vault.Ledger.Imports.Columns.{IsImportable}
use vault.Ledger.Imports.Posting.{Upload, Readers, parse_upload, import_transactions}
use vault.Ledger.Imports.Posting.Outcome.{
  HasRows, parse_upload-IsImportable, import_transactions-ok,
}
use vault.Ledger.Models.{Transaction, TransactionEntry, EntryType}
use vault.Ledger.Services.{insert_transaction, insert_entry}
use vault.Ledger.Services.Balances.{posted}
use vault.Ledger.Exports.{entry_row, export_account_transactions}
use vault.Ledger.Exports.Dates.{read_date-entry_row}
use vault.Ledger.Exports.Safety.{IsSafeRow, export_account_transactions-IsSafeRow}
use vault.Ledger.Views.{ImportFormMessage, clean_csv_file}
use vault.Database.{Database}
use vault.Tests.Data.{checking, empty_database}

instance abbrev six_places : Context
six_places = record { prec = 28; places = 6 }

instance abbrev ascii : Unicode
ascii = record {
  fold = λ c. lower (String.◌∷◌ c "");
  decimal = ascii_decimal;
  decimal_ascii = λ c h. refl;
}

instance abbrev readers : Readers
readers = record {
  csv = λ s.
      (" Transaction  Date" ∷ "DESCRIPTION" ∷ "Amount" ∷ "Value Date" ∷ [])
      ∷ ("31/12/2025" ∷ " interest paid " ∷ "1.234,50" ∷ "" ∷ [])
      ∷ []
      ∷ ("2026-01-02" ∷ "Shop" ∷ "-20" ∷ "2026-01-05" ∷ [])
      ∷ [];
  normalise = λ s. s;
}

abbrev csv_upload : Upload
csv_upload = record { name = "bank.csv"; content = some "x"; document = none }

abbrev csv_rows : List ImportedRow
csv_rows =
    record {
      transaction_date = date_of 2025 12 31;
      description = "interest paid";
      amount = pos 1234500000;
      transaction_type = interest;
      notes = "";
      reference = "";
      currency_code = none;
    }
    ∷ record {
      transaction_date = date_of 2026 1 2;
      description = "Shop";
      amount = negsuc 19999999;
      transaction_type = withdrawal;
      notes = "Value date: 2026-01-05";
      reference = "";
      currency_code = none;
    }
    ∷ []

csv_parses : parse_upload csv_upload ≡ ok csv_rows
unfolding parse_upload lower ◌-ℤ◌ ◌+ℤ◌
csv_parses = refl

abbrev statement : Upload
statement = record {
  name = "A.PDF";
  content = none;
  document = some (record {
    is_encrypted = false;
    opens = false;
    page_texts =
        some
          "DATE/REF  TRANSACTION DETAILS  BALANCE AFTER\nOpening Balance 01/01/2026 100.00 EUR\n 02/01/2026  Shop visit  20.00 EUR  80.00 EUR\n   12345678  ACME Ltd\n   more text\nGenerated on: x"
        ∷ [];
  });
}

abbrev statement_rows : List ImportedRow
statement_rows =
    record {
      transaction_date = date_of 2026 1 2;
      description = "Shop visit more text";
      amount = negsuc 19999999;
      transaction_type = withdrawal;
      notes = "Related account: ACME Ltd\nBalance after: 80.00 EUR";
      reference = "12345678";
      currency_code = some "EUR";
    }
    ∷ []

statement_parses : parse_upload statement ≡ ok statement_rows
unfolding parse_upload lower ◌-ℤ◌ ◌+ℤ◌ ◌⊖◌ quantize digits neg
statement_parses = refl

parse_upload-IsImportable_example : All IsImportable statement_rows
parse_upload-IsImportable_example =
    parse_upload-IsImportable statement statement_rows (omega arith) statement_parses

import_transactions-ok_example :
    (db' : Database) × (import_transactions 7 checking csv_upload empty_database ≡ ok (2, db'))
    × HasRows checking csv_rows empty_database db'
import_transactions-ok_example =
    import_transactions-ok 7 checking csv_upload csv_rows empty_database (omega arith) refl
      csv_parses refl

-- A description that looks like a formula.
abbrev suspicious : Transaction × Database
suspicious =
    posted 7 checking (pos 12500000) deposit 738000 " =1+1" "Value date: 2026-01-05" ""
      empty_database

export_prints :
    export_account_transactions checking suspicious.1
    ≡ ("Transaction Date" ∷ "Value Date" ∷ "Description" ∷ "Amount" ∷ [])
      ∷ ("29/07/2021" ∷ "05/01/2026" ∷ "' =1+1" ∷ "12.50" ∷ [])
      ∷ []
unfolding export_account_transactions insert_transaction insert_entry digits quantize neg
export_prints = refl

export_account_transactions-IsSafeRow_example :
    All IsSafeRow (export_account_transactions checking suspicious.1)
export_account_transactions-IsSafeRow_example =
    export_account_transactions-IsSafeRow checking suspicious.1

-- The form tells a file by its name, in any case, and a PDF by its first bytes.
form_passes : clean_csv_file (record { name = "May.PDF"; size = 2000; header = "%PDF-1.7" }) ≡ none
unfolding clean_csv_file lower
form_passes = refl

form_refuses :
    clean_csv_file (record { name = "may.pdf"; size = 2000; header = "PK" })
    ≡ some ImportFormMessage.not_a_pdf
unfolding clean_csv_file lower
form_refuses = refl

form_limits :
    clean_csv_file (record { name = "may.csv"; size = 5242881; header = "" })
    ≡ some ImportFormMessage.file_too_large
unfolding clean_csv_file
form_limits = refl

abbrev posted_entry : TransactionEntry
posted_entry = record {
  pk = 1;
  transaction = record suspicious.0 { transaction_date = 738000 };
  account = checking;
  amount = pos 12500000;
  currency = checking.currency;
  exchange_rate = none;
  base_currency_amount = none;
  entry_type = EntryType.of_type deposit;
}

-- Day 738000 is 29 July 2021.
day_number : 738000 ≡ to_ordinal (date_of 2021 7 29)
unfolding to_ordinal
day_number = refl

day_exists : valid_date 2021 7 29 ≡ some (date_of 2021 7 29)
unfolding valid_date
day_exists = refl

read_date-entry_row_example :
    (cell : String) × (cells : List String) × (entry_row posted_entry ≡ cell ∷ cells)
    × (read_date cell ≡ some (date_of 2021 7 29))
read_date-entry_row_example =
    read_date-entry_row 2021 7 29 (date_of 2021 7 29) posted_entry day_exists day_number
