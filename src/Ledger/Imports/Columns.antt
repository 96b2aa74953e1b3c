-- ===== src/Ledger/Imports/Columns.antt =====
-- The rows that ledger/imports.py reads, against the columns of ledger/models.py that they go to.
use native.Mathlib.Nat.{mul-pos}
use vault.Base.{
  ℕ, ◌-◌, ◌*◌, ◌^◌, ◌≤◌, ◌<◌, ◌≡◌, ◌≢◌, ap, subst, Option, none, some, String, List, [], ◌∷◌, Bool,
  false, leb, ltb, ◌||◌, ◌==◌, ℤ, pos, pos_part, neg_part, magnitude, ◌+ℤ◌, ◌-ℤ◌, All, Bool-cases,
  inl, inr, arith, ok, ok-injective, >>=-eq-ok, raise_if-eq-ok, RowLabel, numbered, import_row,
  description_missing, description_too_long, too_many_values, suc, file_empty, raise_if, ◌>>◌,
}
use vault.Decimal.{Context, Decimal, decimal_zero}
use vault.Decimal.Rounding.{pow_pos, pow_split}
use vault.Text.{Unicode, text_length, strip, is_empty}
use vault.Text.Numbers.{Literal, special, finite, parse_literal, literal_value, signed}
use vault.Ledger.Imports.{
  ImportedRow, amount_limit, check_size, check_literal, parse_amount, normalise_amount, parse_date,
}
use vault.Ledger.Imports.Csv.{
  RawRow, Headers, dict_row, text_at, has_text, value_date_note, parse_row, parse_rows, parse_table,
  some_rows, find_headers, parse_transaction_csv,
}

module _ ⦃c : Context⦄ where
  -- A value that the amount column holds exactly: four places, and less than 10^16.
  pub record FitsColumn (amount : Decimal) : Type 0 where
    pub units : ℕ
    pub exact : magnitude amount ≡ units * 10 ^ (c.places - 4)
    pub small : magnitude amount < amount_limit
    pub nonzero : amount ≢ decimal_zero

  pub check_size-eq-ok :
      (label : RowLabel) (exponent : ℤ) (amount a : Decimal)
      → check_size label exponent amount ≡ ok a
      → (neg_part exponent ≤ 4) × (magnitude amount < amount_limit) × (amount ≡ a)
  unfolding check_size
  check_size-eq-ok label exponent amount a h =
      elim (Bool-cases (ltb 4 (neg_part exponent) || leb amount_limit (magnitude amount))) [
        | inl e ↦ absurd (cc (rw e at h))
        | inr e ↦ (ground arith, ground arith, ok-injective _ _ (rw e at h))
      ]

  magnitude-signed : (negative : Bool) (n : ℕ) → magnitude (signed negative n) ≡ n
  unfolding ◌-ℤ◌
  magnitude-signed negative n = ground arith

  -- A power of ten with at most four places below the point.
  places_of : (e : ℤ) → neg_part e ≤ 4 → 4 ≤ c.places → c.places - 4 ≤ pos_part (pos c.places +ℤ e)
  unfolding ◌+ℤ◌
  places_of e h p = ground arith

  -- The value of a literal that passes the checks, if it is not zero.
  pub literal_value-FitsColumn :
      (negative : Bool) (n : ℕ) (exponent : ℤ)
      → 4 ≤ c.places
      → neg_part exponent ≤ 4
      → magnitude (literal_value negative n exponent) < amount_limit
      → literal_value negative n exponent ≢ decimal_zero
      → FitsColumn (literal_value negative n exponent)
  unfolding literal_value
  literal_value-FitsColumn negative n exponent p few small nonzero =
      let k = pos_part (pos c.places +ℤ exponent) in
      let size : magnitude (literal_value negative n exponent) ≡ n * 10 ^ k =
        magnitude-signed negative _ in
      let split = pow_split k (c.places - 4) (places_of exponent few p) in
      record {
        units = n * 10 ^ (k - (c.places - 4));
        exact = omega (arith, size, ap (λ (t : ℕ). n * t) split);
        small = small;
        nonzero = nonzero;
      }

  literal_value-ne-zero :
      (negative : Bool) (n : ℕ) (exponent : ℤ)
      → 0 < n
      → literal_value negative n exponent ≢ decimal_zero
  unfolding literal_value
  literal_value-ne-zero negative n exponent h z =
      let k = pos_part (pos c.places +ℤ exponent) in
      omega (arith, magnitude-signed negative (n * 10 ^ k), ap magnitude z, mul-pos h (pow_pos k))

  check_literal-FitsColumn :
      (l : Option Literal) (label : RowLabel) (amount : Decimal)
      → 4 ≤ c.places
      → check_literal l label ≡ ok amount
      → FitsColumn amount
  unfolding check_literal
  check_literal-FitsColumn none label amount p h = cc
  check_literal-FitsColumn (some special) label amount p h = cc
  check_literal-FitsColumn (some (finite negative n exponent)) label amount p h =
      elim (Bool-cases (n == 0)) [
        | inl e ↦ absurd (cc (rw e at h))
        | inr e ↦
            let value = literal_value negative n exponent in
            let (few, small, same) = check_size-eq-ok label exponent value amount (rw e at h) in
            subst FitsColumn same (
              literal_value-FitsColumn negative n exponent p few small
                (literal_value-ne-zero negative n exponent (ground arith)))
      ]

  -- A row that the columns of a transaction and its entry hold.
  pub record IsImportable (row : ImportedRow) : Type 0 where
    pub amount_fits : FitsColumn row.amount
    pub description_fits : text_length row.description ≤ 255
    pub reference_fits : text_length row.reference ≤ 100

  length_fits : (n : ℕ) → ltb 255 n ≡ false → n ≤ 255
  length_fits n h = ground arith

  empty_fits : text_length "" ≤ 100
  unfolding text_length
  empty_fits = omega arith

  module _ ⦃u : Unicode⦄ where
    parse_amount-FitsColumn :
        (value : String) (label : RowLabel) (amount : Decimal)
        → 4 ≤ c.places
        → parse_amount value label ≡ ok amount
        → FitsColumn amount
    unfolding parse_amount
    parse_amount-FitsColumn value label amount p h =
        check_literal-FitsColumn (parse_literal (normalise_amount value)) label amount p h

    parse_row-IsImportable :
        (headers : Headers) (raw : RawRow) (label : RowLabel) (row : ImportedRow)
        → 4 ≤ c.places
        → parse_row headers raw label ≡ ok row
        → IsImportable row
    unfolding parse_row
    parse_row-IsImportable headers raw label row p h =
        let description = strip (text_at headers.description raw) in
        let (_, h1) =
          raise_if-eq-ok (is_empty description) (import_row label description_missing) _ row h in
        let (short, h2) =
          raise_if-eq-ok (ltb 255 (text_length description)) (import_row label description_too_long)
            _ row h1 in
        let (date, _, h3) =
          >>=-eq-ok (parse_date (text_at headers.transaction_date raw) label) _ h2 in
        let (amount, a, h4) = >>=-eq-ok (parse_amount (text_at headers.amount raw) label) _ h3 in
        let (notes, _, done) = >>=-eq-ok (value_date_note headers.value_date raw label) _ h4 in
        subst IsImportable (ok-injective _ _ done) (record {
          amount_fits = parse_amount-FitsColumn (text_at headers.amount raw) label amount p a;
          description_fits = length_fits _ short;
          reference_fits = empty_fits;
        })

    parse_rows-IsImportable :
        (fieldnames : List String) (headers : Headers) (number : ℕ) (table : List (List String))
        (rows : List ImportedRow)
        → 4 ≤ c.places
        → parse_rows fieldnames headers number table ≡ ok rows
        → All IsImportable rows
    unfolding parse_rows
    parse_rows-IsImportable fieldnames headers number [] rows p h = rw (← ok-injective _ _ h) tt
    parse_rows-IsImportable fieldnames headers number ([] ∷ more) rows p h =
        parse_rows-IsImportable fieldnames headers number more rows p h
    parse_rows-IsImportable fieldnames headers number ((v ∷ vs) ∷ more) rows p h =
        let raw = dict_row fieldnames (v ∷ vs) in
        let (_, rest) =
          raise_if-eq-ok raw.has_more (import_row (numbered number) too_many_values) _ rows h in
        elim (Bool-cases (has_text raw)) [
          | inl e ↦
              let (row, r, h1) =
                >>=-eq-ok (parse_row headers raw (numbered number)) _ (rw e at rest) in
              let (others, o, done) =
                >>=-eq-ok (parse_rows fieldnames headers (suc number) more) _ h1 in
              subst (All IsImportable) (ok-injective _ _ done) (
                parse_row-IsImportable headers raw (numbered number) row p r,
                parse_rows-IsImportable fieldnames headers (suc number) more others p o,
              )
          | inr e ↦
              parse_rows-IsImportable fieldnames headers (suc number) more rows p (rw e at rest)
        ]

    some_rows-IsImportable :
        (given rows : List ImportedRow)
        → some_rows given ≡ ok rows
        → All IsImportable given
        → All IsImportable rows
    unfolding some_rows
    some_rows-IsImportable [] rows h k = cc
    some_rows-IsImportable (r ∷ rs) rows h k = rw (← ok-injective _ _ h) k

    parse_table-IsImportable :
        (table : List (List String)) (rows : List ImportedRow)
        → 4 ≤ c.places
        → parse_table table ≡ ok rows
        → All IsImportable rows
    unfolding parse_table
    parse_table-IsImportable [] rows p h = cc
    parse_table-IsImportable ([] ∷ more) rows p h = cc
    parse_table-IsImportable ((name ∷ names) ∷ more) rows p h =
        let (headers, _, rest) = >>=-eq-ok (find_headers (name ∷ names)) _ h in
        parse_rows-IsImportable (name ∷ names) headers 2 more rows p rest

    pub parse_transaction_csv-IsImportable :
        (read : String → List (List String)) (content : Option String) (rows : List ImportedRow)
        → 4 ≤ c.places
        → parse_transaction_csv read content ≡ ok rows
        → All IsImportable rows
    unfolding parse_transaction_csv
    parse_transaction_csv-IsImportable read none rows p h = cc
    parse_transaction_csv-IsImportable read (some content) rows p h =
        let (given, g, done) =
          >>=-eq-ok (raise_if (is_empty (strip content)) file_empty >> parse_table (read content)) _
            h in
        let (_, table) = raise_if-eq-ok (is_empty (strip content)) file_empty _ given g in
        some_rows-IsImportable given rows done
          (parse_table-IsImportable (read content) given p table)
