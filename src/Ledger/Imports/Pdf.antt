-- ===== src/Ledger/Imports/Pdf.antt =====
-- ledger/imports.py: the records of a statement in PDF. The text that `pypdf` finds in a file, and the
-- NFKC form of a text, are parameters.
use Prim.Native.Char.{char}
use vault.Base.{
  Bool, false, not, ◌&&◌, Option, none, some, String, List, [], ◌∷◌, ◌++◌, any, ltb, if◌then◌else◌,
  get_or, length, Result, ok, err, ◌>>=◌, ◌>>◌, raise_if, map_result, pdf_protected, pdf_too_long,
  pdf_unreadable, pdf_without_text, pdf_too_large, unsupported_layout, no_transactions,
}
use vault.Base.Dict.{get}
use vault.Text.{
  Unicode, is_space, is_empty, text_length, strip, startswith, contains, join_with, splitlines,
}
use vault.Text.Regex.{
  Class, space, non_space, digit, number_char, capital, any_char, exactly, Item, one, greedy, lazy,
  optional, group_start, group_end, same_as, at_end, Groups, no_groups, run,
}

-- `pattern+`
abbrev many : Class → List Item → List Item
many p items = one p ∷ greedy p ∷ items

-- `\s{2}`
abbrev gap : List Item → List Item
gap items = one space ∷ many space items

-- `\d{2}/\d{2}/\d{4}`
abbrev a_date : List Item → List Item
a_date items =
    let stroke = exactly (char 47 tt) in
    one digit
    ∷ one digit
    ∷ one stroke
    ∷ one digit
    ∷ one digit
    ∷ one stroke
    ∷ one digit
    ∷ one digit
    ∷ one digit
    ∷ one digit
    ∷ items

-- `-?[\d,.]+`
abbrev a_number : List Item → List Item
a_number items = optional (exactly (char 45 tt)) ∷ many number_char items

abbrev group : String → (List Item → List Item) → List Item → List Item
group name pattern items = group_start ∷ pattern (group_end name ∷ items)

abbrev code_letters : List Item → List Item
code_letters items = one capital ∷ one capital ∷ one capital ∷ items

abbrev pub pdf_transaction_row : List Item
pdf_transaction_row =
    greedy space
    ∷ group "date" a_date (
        gap (
          group "description" (λ items. lazy any_char ∷ items)
            (gap (
              group "amount" a_number (
                many space (
                  group "currency" code_letters (
                    gap (
                      group "balance" a_number
                        (many space (same_as "currency" ∷ greedy space ∷ at_end ∷ []))))))))))

abbrev eight_digits : List Item → List Item
eight_digits items =
    one digit
    ∷ one digit
    ∷ one digit
    ∷ one digit
    ∷ one digit
    ∷ one digit
    ∷ one digit
    ∷ many digit items

abbrev pub pdf_reference_row : List Item
pdf_reference_row =
    greedy space
    ∷ group "reference" eight_digits (
        gap (
          group "related" (λ items. one non_space ∷ lazy any_char ∷ items)
            (greedy space ∷ at_end ∷ [])))

-- A text that stands for itself.
literally : String → List Item → List Item
literally String.[] items = items
literally (String.◌∷◌ c s) items = one (exactly c) ∷ literally s items

unfoldable pub pdf_opening_balance : List Item
unfolding literally
pdf_opening_balance = literally "Opening Balance" (
    many space (
      a_date
        (many space (group "balance" a_number (many space (group "currency" code_letters []))))))

-- What `pypdf` says of a file that it can read: whether it is encrypted, whether the empty password
-- opens it, and the text of each page, if it can be extracted.
pub record Document : Type 0 where
  pub is_encrypted : Bool
  pub opens : Bool
  pub page_texts : List (Option String)

page_text : (String → String) → Option String → Result String
page_text normalise none = err pdf_unreadable
page_text normalise (some text) = ok (normalise text)

-- `_extract_pdf_text`: the pages, and the text that joins them.
unfoldable pub extract_pdf_text :
    (String → String) → Option Document → Result (List String × String)
unfolding page_text join_with strip text_length
extract_pdf_text normalise none = err pdf_unreadable
extract_pdf_text normalise (some d) = do
  raise_if (d.is_encrypted && not d.opens) pdf_protected
  raise_if (ltb 100 (length d.page_texts)) pdf_too_long
  pages ← map_result (page_text normalise) d.page_texts
  let text = join_with (String.◌∷◌ (char 10 tt) "") pages
  raise_if (is_empty (strip text)) pdf_without_text
  raise_if (ltb 2000000 (text_length text)) pdf_too_large
  ok (pages, text)

pub record RawRecord : Type 0 where
  pub date : String
  pub description : String
  pub amount : String
  pub currency : String
  pub balance : String
  pub details : List String
  pub reference : String
  pub related : String

abbrev pub group_text : String → Groups → String
unfolding get
group_text name g = get_or (get name g.closed) ""

abbrev pub raw_record : Groups → RawRecord
raw_record g = record {
  date = group_text "date" g;
  description = group_text "description" g;
  amount = group_text "amount" g;
  currency = group_text "currency" g;
  balance = group_text "balance" g;
  details = [];
  reference = "";
  related = "";
}

-- The records that are over, and the one that the lines still belong to.
pub record Scan : Type 0 where
  pub records : List RawRecord
  pub current : Option RawRecord

-- `if current: records.append(current)`
abbrev pub flush : Scan → List RawRecord
flush scan = elim scan.current [ none ↦ scan.records | some r ↦ scan.records ++ r ∷ [] ]

abbrev begins_indented : String → Bool
begins_indented String.[] = false
begins_indented (String.◌∷◌ c s) = is_space c

ends_record : String → Bool
unfolding startswith
ends_record stripped =
    any (startswith stripped)
      ("Credit balances" ∷ "Generated on:" ∷ "DATE/REF" ∷ "Opening Balance" ∷ [])

-- A line that belongs to an open record, after its own.
abbrev pub detail_line : Option Groups → String → String → RawRecord → RawRecord
detail_line reference_match line stripped r =
    let indented =
      if begins_indented line then record r { details = r.details ++ stripped ∷ [] } else r in
    if is_empty r.reference
    then (elim reference_match [
      | none ↦ indented
      | some g ↦ record r { reference = group_text "reference" g; related = group_text "related" g }
    ])
    else indented

module _ ⦃u : Unicode⦄ where
  unfoldable pub open_line : RawRecord → String → Scan → Scan
  unfolding strip ends_record run
  open_line r line scan =
      let stripped = strip line in
      if is_empty stripped
      then scan
      else if ends_record stripped
      then record { records = scan.records ++ r ∷ []; current = none }
      else record scan {
        current = some (detail_line (run pdf_reference_row line no_groups) line stripped r);
      }

  abbrev pub other_line : Option RawRecord → String → Scan → Scan
  other_line none line scan = scan
  other_line (some r) line scan = open_line r line scan

  abbrev pub start_record : Option Groups → String → Scan → Scan
  start_record (some g) line scan = record { records = flush scan; current = some (raw_record g) }
  start_record none line scan = other_line scan.current line scan

  unfoldable pub scan_lines : List String → Scan → Scan
  unfolding run open_line
  scan_lines [] scan = scan
  scan_lines (line ∷ lines) scan =
      scan_lines lines (start_record (run pdf_transaction_row line no_groups) line scan)

  unfoldable pub scan_pages : List String → List RawRecord → List RawRecord
  unfolding scan_lines splitlines
  scan_pages [] records = records
  scan_pages (page ∷ pages) records =
      scan_pages pages
        (flush (scan_lines (splitlines page) (record { records = records; current = none })))

  is_statement : String → Bool
  unfolding contains
  is_statement page =
      contains "DATE/REF" page
      && contains "TRANSACTION DETAILS" page
      && contains "BALANCE AFTER" page

  some_records : List RawRecord → Result (List RawRecord)
  some_records [] = err no_transactions
  some_records (r ∷ rs) = ok (r ∷ rs)

  -- `_raw_pdf_transactions`
  unfoldable pub raw_pdf_transactions : List String → Result (List RawRecord)
  unfolding scan_pages is_statement some_records
  raw_pdf_transactions pages =
      raise_if (not (any is_statement pages)) unsupported_layout
      >> some_records (scan_pages pages [])
