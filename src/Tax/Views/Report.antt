-- ===== src/Tax/Views/Report.antt =====
-- The file that tax/views.py exports for a tax year.
use vault.Base.{
  length-append, length-map, ◌+◌, ◌==◌, ◌&&◌, length, where_rows, ap, ◌∙◌, ℕ, ◌≡◌, refl, false,
  String, List, [], ◌∷◌, ◌++◌, map, All, All-map, All_of, Bool-cases, inl, inr, ok, ok-injective,
  >>=-eq-ok, sym, subst,
}
use vault.Decimal.{Context, Decimal}
use vault.Core.Ordering.{Collation}
use vault.Investments.Holdings.Sorting.{length-sort}
use vault.Tax.Models.{TaxYear, TaxDeduction}
use vault.Tax.Aggregation.Models.{TaxYearSummary}
use vault.Tax.Aggregation.Build.{TaxTables, build_tax_year_summary}
use vault.Tax.Aggregation.Build.Outcome.{IsSettled, build_tax_year_summary-IsSettled}
use vault.Tax.Views.{
  get_year, Cell, text_cell, number_cell, deduction_before, begins_formula, csv_safe, event_row,
  interest_row, dividend_row, capital_gain_row, payment_row, deduction_row, header_row,
  summary_rows, deductions_of, line_rows, export_tax_year_csv,
}
use vault.Database.{Database}

csv_safe-IsPlain : (text : String) → begins_formula (csv_safe text) ≡ false
unfolding csv_safe begins_formula
csv_safe-IsPlain text = elim (Bool-cases (begins_formula text)) [
  | inl e ↦ rw e refl
  | inr e ↦ rw (e, e) refl
]

-- Seven cells, of which the third is a text that does not begin as a formula does.
abbrev pub IsReportRow : List Cell → Type 0
IsReportRow (section ∷ date ∷ text_cell source ∷ category ∷ amount ∷ currency ∷ reporting ∷ []) =
    begins_formula source ≡ false
IsReportRow _ = ⊥

All-append :
    (P : List Cell → Type 0) (xs ys : List (List Cell)) → All P xs → All P ys → All P (xs ++ ys)
All-append P [] ys h k = k
All-append P (x ∷ xs) ys h k = (h.0, All-append P xs ys h.1 k)

rows-IsReportRow :
    {A : Type 0} (f : A → List Cell) (xs : List A)
    → ((x : A) → IsReportRow (f x))
    → All IsReportRow (map f xs)
rows-IsReportRow f xs h =
    All-map (λ x. Unit {0}) IsReportRow f xs (λ x _. h x) (All_of _ xs (λ x. tt))

module _ ⦃o : Collation⦄ where
  line_rows-IsReportRow :
      (summary : TaxYearSummary) (deductions : List TaxDeduction)
      → All IsReportRow (line_rows summary deductions)
  unfolding line_rows interest_row dividend_row capital_gain_row payment_row deduction_row event_row
  line_rows-IsReportRow summary deductions =
      All-append IsReportRow (map interest_row summary.interest_lines) _
        (rows-IsReportRow interest_row summary.interest_lines (λ x. csv_safe-IsPlain x.description))
        (All-append IsReportRow (map dividend_row summary.dividend_lines) _
          (rows-IsReportRow dividend_row summary.dividend_lines
            (λ x. csv_safe-IsPlain x.investment_transaction.security.symbol))
          (All-append IsReportRow (map capital_gain_row summary.capital_gain_lines) _
            (rows-IsReportRow capital_gain_row summary.capital_gain_lines
              (λ x. csv_safe-IsPlain x.event.investment_transaction.security.symbol))
            (All-append IsReportRow (map payment_row summary.tax_payment_lines) _
              (rows-IsReportRow payment_row summary.tax_payment_lines
                (λ x. csv_safe-IsPlain x.description))
              (rows-IsReportRow deduction_row deductions (λ x. csv_safe-IsPlain x.name)))))

  length-line_rows :
      (summary : TaxYearSummary) (deductions : List TaxDeduction)
      → length (line_rows summary deductions)
        ≡ length summary.interest_lines
          + (length summary.dividend_lines
              + (length summary.capital_gain_lines
                  + (length summary.tax_payment_lines + length deductions)))
  unfolding line_rows
  length-line_rows summary deductions =
      rw
        (
          length-append (map interest_row summary.interest_lines),
          length-append (map dividend_row summary.dividend_lines),
          length-append (map capital_gain_row summary.capital_gain_lines),
          length-append (map payment_row summary.tax_payment_lines),
          length-map interest_row summary.interest_lines,
          length-map dividend_row summary.dividend_lines,
          length-map capital_gain_row summary.capital_gain_lines,
          length-map payment_row summary.tax_payment_lines,
          length-map deduction_row deductions,
        )
        refl

  module _ ⦃c : Context⦄ where
    -- A figure of the summary, under its name.
    abbrev pub figure : TaxYear → String → Decimal → List Cell
    figure y label amount =
        text_cell "summary"
        ∷ text_cell ""
        ∷ text_cell label
        ∷ text_cell ""
        ∷ text_cell ""
        ∷ text_cell y.reporting_currency.code
        ∷ number_cell amount
        ∷ []

    -- The file of a year: a line for each event of the summary and each deduction that counts, and
    -- last the five figures of the summary.
    pub record IsReport (user : ℕ) (tables : TaxTables) (y : TaxYear) (summary : TaxYearSummary)
        (file : List (List Cell)) : Type 0 where
      pub lines : List (List Cell)
      pub parts :
          file
          ≡ header_row
            ∷ (lines
                ++ (figure y "Estimated tax liability" summary.estimated_tax_liability
                    ∷ figure y "Tax withheld" summary.tax_withheld
                    ∷ figure y "Tax paid" summary.tax_paid
                    ∷ figure y "Estimated due" summary.estimated_tax_due
                    ∷ figure y "Estimated refund or credit" summary.estimated_refund_credit
                    ∷ []))
      pub count :
          length lines
          ≡ length summary.interest_lines
            + (length summary.dividend_lines
                + (length summary.capital_gain_lines
                    + (length summary.tax_payment_lines
                        + length (
                            where_rows
                              (λ (d : TaxDeduction).
                                (d.item.owner_id == user)
                                && ((d.item.tax_year.pk == y.pk) && d.item.active))
                              tables.deductions))))
      pub rows : All IsReportRow file
      pub settled : IsSettled summary

    -- Whenever the file of a tax year is exported, the year is the user's, every row has seven
    -- cells whose third does not begin with one of the four characters that begin a formula, there
    -- is one line for each interest, dividend, gain and payment of the summary and for each active
    -- deduction of the year, and the file ends with the liability, the tax withheld, the tax paid,
    -- the tax due and the refund of that summary, each under its own name, of which the last two
    -- are settled: neither is negative, one is zero, and their difference is the liability less
    -- what was withheld and paid.
    pub export_tax_year_csv-IsReport :
        (user today pk : ℕ) (years : List TaxYear) (tables : TaxTables) (db : Database)
        (file : List (List Cell))
        → export_tax_year_csv user today pk years tables db ≡ ok file
        → (y : TaxYear) × (summary : TaxYearSummary) × (get_year user pk years ≡ ok y)
          × (build_tax_year_summary db tables today y ≡ ok summary)
          × IsReport user tables y summary file
    unfolding export_tax_year_csv begins_formula deductions_of
    export_tax_year_csv-IsReport user today pk years tables db file h =
        let (y, e, rest) = >>=-eq-ok (get_year user pk years) _ h in
        let (summary, built, done) = >>=-eq-ok (build_tax_year_summary db tables today y) _ rest in
        let lines = line_rows summary (deductions_of user y tables.deductions) in
        let same = ok-injective _ _ done in
        (
          y,
          summary,
          e,
          built,
          record {
            lines = lines;
            parts = sym same;
            count =
                length-line_rows summary (deductions_of user y tables.deductions)
                ∙ ap
                    (λ k.
                      length summary.interest_lines
                      + (length summary.dividend_lines
                          + (length summary.capital_gain_lines
                              + (length summary.tax_payment_lines + k))))
                    (length-sort deduction_before _);
            rows = subst (All IsReportRow) same (
              refl,
              All-append IsReportRow lines (summary_rows y summary)
                  (line_rows-IsReportRow summary (deductions_of user y tables.deductions))
                  (refl, (refl, (refl, (refl, (refl, tt))))),
            );
            settled = build_tax_year_summary-IsSettled db tables today y summary built;
          },
        )
