-- ===== src/Investments/Valuation/Allocation.antt =====
-- investments/services/valuation.py: the shares of the rows and of the kinds of security.
use vault.Base.{
  Bool, true, false, Option, none, some, String, List, [], ◌∷◌, ◌++◌, if◌then◌else◌, get_or, ltb_ℤ,
  eqb_ℤ, map, str_eq,
}
use vault.Base.Order.{text_less}
use vault.Decimal.{Context, Decimal, decimal_zero, whole, ◌⊕◌, ◌⊗◌, quotient}
use vault.Investments.Models.{SecurityType}
use vault.Investments.Holdings.{sort}
use vault.Investments.Valuation.Models.{HoldingValuation, AssetAllocation}

abbrev display : SecurityType → String
display SecurityType.stock = "Stock"
display SecurityType.etf = "ETF"
display SecurityType.fund = "Fund"
display SecurityType.bond = "Bond"
display SecurityType.crypto = "Crypto"
display SecurityType.cash_equivalent = "Cash equivalent"
display SecurityType.other = "Other"

-- The dict of values by label: `d[label] = d.get(label, ZERO) + value`.
abbrev Labelled : Type 0
Labelled = List (String × Decimal)

abbrev label_before : String × Decimal → String × Decimal → Bool
label_before (a, _) (b, _) = text_less a b

module _ ⦃c : Context⦄ where
  add_label : String → Decimal → Labelled → Labelled
  add_label label value [] = (label, decimal_zero ⊕ value) ∷ []
  add_label label value ((l, v) ∷ d) =
      if str_eq l label then (l, v ⊕ value) ∷ d else (l, v) ∷ add_label label value d

  abbrev set_allocation : Decimal → HoldingValuation → HoldingValuation
  set_allocation total row = elim row.market_value [
    | none ↦ row
    | some m ↦ record row { allocation_percent = some (quotient m total ⊗ whole 100) }
  ]

  -- `if total_market: for row in rows: ...`
  abbrev pub allocate : Decimal → List HoldingValuation → List HoldingValuation
  allocate total rows = if eqb_ℤ total decimal_zero then rows else map (set_allocation total) rows

  abbrev pub value_or_zero : Option Decimal → Decimal
  value_or_zero o = get_or o decimal_zero

  label_rows : List HoldingValuation → Labelled → Labelled
  unfolding add_label
  label_rows [] d = d
  label_rows (row ∷ rows) d =
      label_rows rows
        (add_label (display row.holding.security.security_type) (value_or_zero row.market_value) d)

  abbrev label_cash : Decimal → Labelled → Labelled
  label_cash cash d = if ltb_ℤ decimal_zero cash then d ++ ("Cash", cash) ∷ [] else d

  abbrev sum_labels : Labelled → Decimal → Decimal
  sum_labels [] acc = acc
  sum_labels ((l, v) ∷ d) acc = sum_labels d (acc ⊕ v)

  share : Decimal → String × Decimal → AssetAllocation
  share total (label, amount) = record {
    category = label;
    market_value = amount;
    percentage = quotient amount total ⊗ whole 100;
  }

  abbrev shares : Decimal → Labelled → List AssetAllocation
  shares total d = if eqb_ℤ total decimal_zero then [] else map (share total) (sort label_before d)

  -- The allocation of a complete valuation; of any other it is empty.
  unfoldable pub allocation_of : Bool → List HoldingValuation → Decimal → List AssetAllocation
  unfolding label_rows share sort
  allocation_of false rows cash = []
  allocation_of true rows cash =
      let d = label_cash cash (label_rows rows []) in shares (sum_labels d decimal_zero) d
