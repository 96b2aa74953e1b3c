-- ===== src/Tax/Views/Archive.antt =====
-- What archiving an item in tax/views.py changes.
use vault.Base.{ℕ, ◌≡◌, Bool, not, ◌&&◌, Option, String, List, ◌==◌, where_rows}
use vault.Tax.Models.{TaxDeduction, TaxAllowance, TaxAdjustment, TaxRule}
use vault.Tax.Aggregation.Build.{TaxTables}
use vault.Tax.Views.{ItemKind, deductions_kind, allowances_kind, adjustments_kind, rules_kind}

-- The active rows under another key.
abbrev pub others : {A : Type 0} → (A → ℕ) → (A → Bool) → ℕ → List A → List A
others key active pk xs = where_rows (λ x. active x && not (key x == pk)) xs

-- The table of the kind keeps its active rows but for those under the key; the other tables stay.
abbrev pub IsArchived : ItemKind → ℕ → TaxTables → TaxTables → Type 0
IsArchived deductions_kind pk before after =
    (after ≡ record before { deductions = after.deductions })
    × (where_rows (λ (d : TaxDeduction). d.item.active) after.deductions
        ≡ others (λ (d : TaxDeduction). d.item.pk) (λ d. d.item.active) pk before.deductions)
IsArchived allowances_kind pk before after =
    (after ≡ record before { allowances = after.allowances })
    × (where_rows (λ (a : TaxAllowance). a.item.active) after.allowances
        ≡ others (λ (a : TaxAllowance). a.item.pk) (λ a. a.item.active) pk before.allowances)
IsArchived adjustments_kind pk before after =
    (after ≡ record before { adjustments = after.adjustments })
    × (where_rows (λ (a : TaxAdjustment). a.item.active) after.adjustments
        ≡ others (λ (a : TaxAdjustment). a.item.pk) (λ a. a.item.active) pk before.adjustments)
IsArchived rules_kind pk before after =
    (after ≡ record before { rules = after.rules })
    × (where_rows (λ (r : TaxRule). r.active) after.rules
        ≡ others (λ (r : TaxRule). r.pk) (λ r. r.active) pk before.rules)

-- How the address names each kind.
abbrev pub kind_name : ItemKind → String
kind_name deductions_kind = "deduction"
kind_name allowances_kind = "allowance"
kind_name adjustments_kind = "adjustment"
kind_name rules_kind = "rule"
