-- ===== src/Ledger/Imports/Statement/Bounds.antt =====
-- The rows of a statement, against the columns they go to and against its running balance.
use vault.Base.{
  ℕ, ◌≤◌, ◌<◌, ◌≡◌, ◌≢◌, refl, sym, subst, ◌∙◌, Option, none, some, String, List, [], ◌∷◌, Bool,
  false, not, ltb, magnitude, eqb_ℤ, eqb_ℤ→ne, All, Bool-cases, inl, inr, arith, ok, ok-injective,
  >>=-eq-ok, raise_if-eq-ok, RowLabel, dated, import_row, amount_is_zero, does_not_reconcile,
  several_currencies,
}
use vault.Decimal.{Context, Decimal, decimal_zero, ◌⊖◌, abs}
use vault.Text.{Unicode, text_length, take, remove, is_char}
use vault.Text.Lengths.{text_length-join, text_length-take}
use vault.Text.Regex.{search}
use vault.Text.Numbers.{Literal, special, finite, parse_literal, literal_value}
use vault.Core.Calendar.{Date}
use vault.Ledger.Imports.{ImportedRow, check_size, parse_date, amount_limit}
use vault.Ledger.Imports.Pdf.{
  Document, RawRecord, extract_pdf_text, raw_pdf_transactions, pdf_opening_balance,
}
use vault.Ledger.Imports.Statement.{
  PdfNumber, number_of, parse_pdf_number, reconcile, shorten, pdf_row, pdf_rows, full_description,
  opening_balance, parse_transaction_pdf,
}
use vault.Ledger.Imports.Columns.{
  FitsColumn, IsImportable, check_size-eq-ok, literal_value-FitsColumn,
}

same_length : (s : String) → ltb 255 (text_length s) ≡ false → text_length s ≤ 255
same_length s h = ground arith

three_points : text_length "..." ≡ 3
unfolding text_length
three_points = refl

same_size : (a b : Decimal) → not (eqb_ℤ (abs a) (abs b)) ≡ false → magnitude b ≡ magnitude a
unfolding abs
same_size a b h = ground arith

ne_zero : (a : Decimal) → eqb_ℤ a decimal_zero ≡ false → a ≢ decimal_zero
ne_zero a h = eqb_ℤ→ne a decimal_zero h

module _ ⦃c : Context⦄ where
  -- A value of the size of one that fits.
  FitsColumn-magnitude : (a b : Decimal) → magnitude a ≡ magnitude b → FitsColumn a → FitsColumn b
  FitsColumn-magnitude a b e f = record {
    units = f.units;
    exact = sym e ∙ f.exact;
    small = subst (λ (n : ℕ). n < amount_limit) e f.small;
    nonzero = λ z. f.nonzero (ground arith);
  }

  module _ ⦃u : Unicode⦄ where
    pub reconcile-FitsColumn :
        (previous : Option Decimal) (balance raw_amount : Decimal) (label : RowLabel)
        (amount : Decimal)
        → reconcile previous balance raw_amount label ≡ ok amount
        → FitsColumn raw_amount
        → FitsColumn amount
    unfolding reconcile abs
    reconcile-FitsColumn none balance raw_amount label amount h f =
        subst FitsColumn (ok-injective _ _ h) f
    reconcile-FitsColumn (some previous) balance raw_amount label amount h f =
        let change = balance ⊖ previous in
        let (same, done) =
          raise_if-eq-ok (not (eqb_ℤ (abs change) (abs raw_amount)))
            (import_row label does_not_reconcile) _ amount h in
        subst FitsColumn (ok-injective _ _ done)
          (FitsColumn-magnitude raw_amount change (same_size change raw_amount same) f)

    number_of-value :
        (l : Option Literal) (label : RowLabel) (number : PdfNumber)
        → number_of l label ≡ ok number
        → (negative : Bool) × (n : ℕ) × (number.value ≡ literal_value negative n number.exponent)
    unfolding number_of literal_value
    number_of-value none label number h = cc
    number_of-value (some special) label number h = cc
    number_of-value (some (finite negative n exponent)) label number h = (
      negative,
      n,
      subst (λ (m : PdfNumber). m.value ≡ literal_value negative n m.exponent) (ok-injective _ _ h)
          refl,
    )

    pub text_length-shorten : (s : String) → text_length (shorten s) ≤ 255
    unfolding shorten
    text_length-shorten s = elim (Bool-cases (ltb 255 (text_length s))) [
      | inl e ↦
          rw e (
            omega
              (arith, text_length-join (take 252 s) "...", text_length-take 252 s, three_points))
      | inr e ↦ rw e (same_length s e)
    ]

    -- A printed amount that passes the checks.
    sized-FitsColumn :
        (text : String) (label : RowLabel) (raw : PdfNumber) (sized : Decimal)
        → 4 ≤ c.places
        → parse_pdf_number text label ≡ ok raw
        → check_size label raw.exponent raw.value ≡ ok sized
        → eqb_ℤ raw.value decimal_zero ≡ false
        → FitsColumn sized
    unfolding parse_pdf_number
    sized-FitsColumn text label raw sized p e s nonzero =
        let (negative, n, v) =
          number_of-value (parse_literal (remove (is_char b',') text)) label raw e in
        let (few, small, same) = check_size-eq-ok label raw.exponent raw.value sized s in
        subst FitsColumn (sym v ∙ same) (
          literal_value-FitsColumn negative n raw.exponent p few
            (subst (λ (x : Decimal). magnitude x < amount_limit) v small)
            (subst (λ (x : Decimal). x ≢ decimal_zero) v (ne_zero raw.value nonzero)))

    pdf_row-IsImportable :
        (r : RawRecord) (balance amount : Decimal) (date : Date)
        → FitsColumn amount
        → IsImportable (pdf_row r balance amount date)
    unfolding pdf_row
    pdf_row-IsImportable r balance amount date f = record {
      amount_fits = f;
      description_fits = text_length-shorten (full_description r);
      reference_fits = text_length-take 100 r.reference;
    }

    pub pdf_rows-IsImportable :
        (previous : Option Decimal) (records : List RawRecord) (rows : List ImportedRow)
        → 4 ≤ c.places
        → pdf_rows previous records ≡ ok rows
        → All IsImportable rows
    unfolding pdf_rows
    pdf_rows-IsImportable previous [] rows p h = subst (All IsImportable) (ok-injective _ _ h) tt
    pdf_rows-IsImportable previous (r ∷ rs) rows p h =
        let label = dated r.date in
        let (raw, e, h1) = >>=-eq-ok (parse_pdf_number r.amount label) _ h in
        let (balance, _, h2) = >>=-eq-ok (parse_pdf_number r.balance label) _ h1 in
        let (nonzero, h3) =
          raise_if-eq-ok (eqb_ℤ raw.value decimal_zero) (import_row label amount_is_zero) _ rows
            h2 in
        let (sized, s, h4) = >>=-eq-ok (check_size label raw.exponent raw.value) _ h3 in
        let (amount, a, h5) = >>=-eq-ok (reconcile previous balance.value sized label) _ h4 in
        let (date, _, h6) = >>=-eq-ok (parse_date r.date label) _ h5 in
        let (others, o, done) = >>=-eq-ok (pdf_rows (some balance.value) rs) _ h6 in
        subst (All IsImportable) (ok-injective _ _ done) (
          pdf_row-IsImportable r balance.value amount date (
              reconcile-FitsColumn previous balance.value sized label amount a
                (sized-FitsColumn r.amount label raw sized p e s nonzero)),
          pdf_rows-IsImportable (some balance.value) rs others p o,
        )

    pub parse_transaction_pdf-IsImportable :
        (normalise : String → String) (document : Option Document) (rows : List ImportedRow)
        → 4 ≤ c.places
        → parse_transaction_pdf normalise document ≡ ok rows
        → All IsImportable rows
    unfolding parse_transaction_pdf
    parse_transaction_pdf-IsImportable normalise document rows p h =
        let (extracted, _, h1) = >>=-eq-ok (extract_pdf_text normalise document) _ h in
        let (records, _, h2) = >>=-eq-ok (raw_pdf_transactions extracted.0) _ h1 in
        let (previous, _, h3) =
          >>=-eq-ok (opening_balance (search pdf_opening_balance extracted.1)) _ h2 in
        let (given, g, h4) = >>=-eq-ok (pdf_rows previous records) _ h3 in
        let (_, done) = raise_if-eq-ok _ several_currencies _ rows h4 in
        subst (All IsImportable) (ok-injective _ _ done)
          (pdf_rows-IsImportable previous records given p g)
