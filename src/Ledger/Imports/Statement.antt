-- ===== src/Ledger/Imports/Statement.antt =====
-- ledger/imports.py: `parse_transaction_pdf`, from the records of a statement to rows that agree with
-- its running balance.
pub mod Bounds
use Prim.Native.Char.{char}
use Prim.Native.String.{◌++◌ as join}
use vault.Base.{
  ℕ, zero, suc, Bool, true, false, not, ◌&&◌, ◌||◌, Option, none, some, String, List, [], ◌∷◌, ◌++◌,
  map, any, where_rows, ltb, leb, ◌==◌, if◌then◌else◌, is_none, get_or, str_eq, length, ℤ, neg_part,
  magnitude, eqb_ℤ, Result, ok, err, ◌>>=◌, ◌>>◌, raise_if, map_result, RowLabel, dated, import_row,
  not_a_number, not_finite, amount_is_zero, too_many_digits, does_not_reconcile, pdf_protected,
  pdf_too_long, pdf_unreadable, pdf_without_text, pdf_too_large, unsupported_layout,
  no_transactions, several_currencies,
}
use vault.Base.Dict.{Dict, set, get}
use vault.Decimal.{Context, Decimal, decimal_zero, ◌⊖◌, abs}
use vault.Text.{
  Unicode, is_space, is_char, is_empty, text_length, take, strip, remove, startswith, contains,
  join_with, splitlines,
}
use vault.Text.Numbers.{Literal, special, finite, parse_literal, literal_value, show_amount}
use vault.Text.Regex.{
  Class, space, non_space, digit, number_char, capital, any_char, exactly, Item, one, greedy, lazy,
  optional, group_start, group_end, same_as, at_end, Groups, no_groups, run, search,
}
use vault.Core.Calendar.{Date}
use vault.Ledger.Imports.Pdf.{
  Document, extract_pdf_text, RawRecord, group_text, raw_pdf_transactions, pdf_opening_balance,
}
use vault.Ledger.Imports.{ImportedRow, parse_date, transaction_type, check_size}

module _ ⦃u : Unicode⦄ where
  module _ ⦃c : Context⦄ where
    -- A number with the power of ten of its last digit.
    pub record PdfNumber : Type 0 where
      pub exponent : ℤ
      pub value : Decimal

    unfoldable pub number_of : Option Literal → RowLabel → Result PdfNumber
    unfolding literal_value
    number_of none label = err (import_row label not_a_number)
    number_of (some special) label = err (import_row label not_finite)
    number_of (some (finite negative n exponent)) label =
        ok (record { exponent = exponent; value = literal_value negative n exponent })

    -- `_parse_pdf_number`
    unfoldable pub parse_pdf_number : String → RowLabel → Result PdfNumber
    unfolding remove parse_literal number_of
    parse_pdf_number value label = number_of (parse_literal (remove (is_char b',') value)) label

    -- The amount of a row: the change of the balance, if one came before.
    unfoldable pub reconcile : Option Decimal → Decimal → Decimal → RowLabel → Result Decimal
    unfolding ◌⊖◌ abs
    reconcile none balance raw_amount label = ok raw_amount
    reconcile (some previous) balance raw_amount label = do
      let change = balance ⊖ previous
      raise_if (not (eqb_ℤ (abs change) (abs raw_amount))) (import_row label does_not_reconcile)
      ok change

    unfoldable pub full_description : RawRecord → String
    unfolding strip join_with
    full_description r =
        strip (join_with " " (where_rows (λ part. not (is_empty part)) (r.description ∷ r.details)))

    -- `len(description) > 255`: the first 252 characters and three points.
    unfoldable pub shorten : String → String
    unfolding text_length take
    shorten description =
        if ltb 255 (text_length description) then join (take 252 description) "..." else description

    unfoldable pub pdf_notes : RawRecord → Decimal → String → String
    unfolding join_with show_amount text_length
    pdf_notes r balance description =
        let after = join "Balance after: " (join (show_amount balance) (join " " r.currency)) in
        join_with (String.◌∷◌ (char 10 tt) "") (
          (if is_empty r.related then [] else join "Related account: " r.related ∷ [])
          ++ (after
              ∷ (if ltb 255 (text_length description)
                  then join "Full description: " description ∷ []
                  else [])))

    unfoldable pub pdf_row : RawRecord → Decimal → Decimal → Date → ImportedRow
    unfolding full_description shorten pdf_notes transaction_type take
    pdf_row r balance amount date =
        let description = shorten (full_description r) in
        record {
          transaction_date = date;
          description = description;
          amount = amount;
          transaction_type = transaction_type description amount;
          notes = pdf_notes r balance (full_description r);
          reference = take 100 r.reference;
          currency_code = some r.currency;
        }

    -- The loop over the records, with the balance after the one before.
    unfoldable pub pdf_rows : Option Decimal → List RawRecord → Result (List ImportedRow)
    unfolding parse_pdf_number check_size reconcile parse_date pdf_row
    pdf_rows previous [] = ok []
    pdf_rows previous (r ∷ rs) = do
      let label = dated r.date
      raw_amount ← parse_pdf_number r.amount label
      balance ← parse_pdf_number r.balance label
      raise_if (eqb_ℤ raw_amount.value decimal_zero) (import_row label amount_is_zero)
      sized ← check_size label raw_amount.exponent raw_amount.value
      amount ← reconcile previous balance.value sized label
      date ← parse_date r.date label
      rows ← pdf_rows (some balance.value) rs
      ok (pdf_row r balance.value amount date ∷ rows)

    unfoldable pub opening_balance : Option Groups → Result (Option Decimal)
    unfolding parse_pdf_number
    opening_balance none = ok none
    opening_balance (some g) = do
      number ← parse_pdf_number (group_text "balance" g) (dated "opening balance")
      ok (some number.value)

    add_currency : Option String → Dict (Unit {0}) → Dict (Unit {0})
    unfolding set
    add_currency none codes = codes
    add_currency (some code) codes = set code tt codes

    row_currencies : List ImportedRow → Dict (Unit {0}) → Dict (Unit {0})
    unfolding add_currency
    row_currencies [] codes = codes
    row_currencies (row ∷ rows) codes = row_currencies rows (add_currency row.currency_code codes)

    opening_currency : Option Groups → Option String
    opening_currency none = none
    opening_currency (some g) = some (group_text "currency" g)

    -- `parse_transaction_pdf`
    unfoldable pub parse_transaction_pdf :
        (String → String) → Option Document → Result (List ImportedRow)
    unfolding extract_pdf_text raw_pdf_transactions search pdf_opening_balance opening_balance
        pdf_rows row_currencies add_currency opening_currency
    parse_transaction_pdf normalise document = do
      extracted ← extract_pdf_text normalise document
      records ← raw_pdf_transactions extracted.0
      let opening_match = search pdf_opening_balance extracted.1
      previous ← opening_balance opening_match
      rows ← pdf_rows previous records
      let codes = add_currency (opening_currency opening_match) (row_currencies rows [])
      raise_if (not (length codes == 1)) several_currencies
      ok rows
