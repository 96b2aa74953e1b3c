-- ===== src/Ledger/Imports/Csv.antt =====
-- ledger/imports.py: `parse_transaction_csv`. What `csv` makes of the text (the guessed delimiter, the
-- quoting) is a parameter: the rows of values, a blank line being a row of none. `csv.DictReader`,
-- which reads the header and makes a dictionary of each row, is written out.
use Prim.Native.String.{◌++◌ as join}
use vault.Base.{
  ℕ, suc, Bool, not, Option, none, some, String, List, [], ◌∷◌, any, where_rows, ltb, if◌then◌else◌,
  is_none, get_or, length, Result, ok, err, ◌>>=◌, ◌>>◌, raise_if, RowLabel, numbered, import_row,
  not_utf8, file_empty, header_missing, no_rows, columns_missing, too_many_values,
  description_missing, description_too_long,
}
use vault.Base.Dict.{Dict, set, get}
use vault.Decimal.{Context}
use vault.Text.{Unicode, is_empty, strip, text_length}
use vault.Core.Calendar.{isoformat}
use vault.Ledger.Imports.{ImportedRow, normalise_header, parse_date, parse_amount, transaction_type}

-- `dict(zip(fieldnames, row))`, and `None` for the fieldnames that are left.
zip_row : List String → List String → Dict (Option String) → Dict (Option String)
unfolding set
zip_row [] row d = d
zip_row (name ∷ names) [] d = zip_row names [] (set name none d)
zip_row (name ∷ names) (value ∷ row) d = zip_row names row (set name (some value) d)

-- A row as `DictReader` gives it. Values beyond the header stand under the key `None`.
pub record RawRow : Type 0 where
  pub values : Dict (Option String)
  pub has_more : Bool

unfoldable pub dict_row : List String → List String → RawRow
unfolding zip_row
dict_row fieldnames row = record {
  values = zip_row fieldnames row [];
  has_more = ltb (length fieldnames) (length row);
}

-- `raw_row.get(key) or ""`
unfoldable pub text_at : String → RawRow → String
unfolding get
text_at key row = get_or (get_or (get key row.values) none) ""

-- `any((value or "").strip() for value in raw_row.values())`
abbrev pub has_text : RawRow → Bool
has_text row = any (λ v. not (is_empty (strip (get_or v.1 "")))) row.values

-- The headers that the columns are found under.
pub record Headers : Type 0 where
  pub transaction_date : String
  pub description : String
  pub amount : String
  pub value_date : Option String

abbrev raise_missing : List String → Result (Unit {0})
raise_missing [] = ok tt
raise_missing (name ∷ names) = err (columns_missing (name ∷ names))

module _ ⦃u : Unicode⦄ where
  -- `{_normalise_header(header): header for header in fieldnames}`
  unfoldable pub header_map : List String → Dict String → Dict String
  unfolding set normalise_header
  header_map [] headers = headers
  header_map (h ∷ hs) headers = header_map hs (set (normalise_header h) h headers)

  absent : Dict String → String → Bool
  unfolding get
  absent headers name = is_none (get name headers)

  unfoldable pub find_headers : List String → Result Headers
  unfolding header_map get absent
  find_headers fieldnames =
      let headers = header_map fieldnames [] in
      let missing =
        where_rows (absent headers) ("transaction date" ∷ "description" ∷ "amount" ∷ []) in
      raise_missing missing
      >> ok (record {
        transaction_date = get_or (get "transaction date" headers) "";
        description = get_or (get "description" headers) "";
        amount = get_or (get "amount" headers) "";
        value_date = get "value date" headers;
      })

  -- The note of a value date, if the row has one.
  unfoldable pub value_date_note : Option String → RawRow → RowLabel → Result String
  unfolding text_at parse_date isoformat
  value_date_note none row label = ok ""
  value_date_note (some header) row label =
      if is_empty (strip (text_at header row)) then ok "" else (do
        date ← parse_date (text_at header row) label
        ok (join "Value date: " (isoformat date)))

  module _ ⦃c : Context⦄ where
    -- A row that is not blank.
    unfoldable pub parse_row : Headers → RawRow → RowLabel → Result ImportedRow
    unfolding text_at parse_date parse_amount value_date_note transaction_type
    parse_row headers row label = do
      let description = strip (text_at headers.description row)
      raise_if (is_empty description) (import_row label description_missing)
      raise_if (ltb 255 (text_length description)) (import_row label description_too_long)
      date ← parse_date (text_at headers.transaction_date row) label
      amount ← parse_amount (text_at headers.amount row) label
      notes ← value_date_note headers.value_date row label
      ok (record {
        transaction_date = date;
        description = description;
        amount = amount;
        transaction_type = transaction_type description amount;
        notes = notes;
        reference = "";
        currency_code = none;
      })

    -- The loop over the reader. It passes over rows of no values and does not count them.
    unfoldable pub parse_rows :
        List String → Headers → ℕ → List (List String) → Result (List ImportedRow)
    unfolding dict_row parse_row
    parse_rows fieldnames headers number [] = ok []
    parse_rows fieldnames headers number ([] ∷ more) = parse_rows fieldnames headers number more
    parse_rows fieldnames headers number ((value ∷ values) ∷ more) =
        let row = dict_row fieldnames (value ∷ values) in
        let rest = parse_rows fieldnames headers (suc number) more in
        raise_if row.has_more (import_row (numbered number) too_many_values)
        >> (if has_text row
            then (parse_row headers row (numbered number) >>= λ r. rest >>= λ rs. ok (r ∷ rs))
            else rest)

    unfoldable pub parse_table : List (List String) → Result (List ImportedRow)
    unfolding find_headers parse_rows
    parse_table [] = err header_missing
    parse_table ([] ∷ more) = err header_missing
    parse_table ((name ∷ names) ∷ more) =
        find_headers (name ∷ names) >>= λ headers. parse_rows (name ∷ names) headers 2 more

    unfoldable pub some_rows : List ImportedRow → Result (List ImportedRow)
    some_rows [] = err no_rows
    some_rows (r ∷ rs) = ok (r ∷ rs)

    -- `parse_transaction_csv` on what the file decodes to, if it is UTF-8.
    unfoldable pub parse_transaction_csv :
        (String → List (List String)) → Option String → Result (List ImportedRow)
    unfolding parse_table some_rows
    parse_transaction_csv read none = err not_utf8
    parse_transaction_csv read (some content) =
        raise_if (is_empty (strip content)) file_empty >> parse_table (read content) >>= some_rows
