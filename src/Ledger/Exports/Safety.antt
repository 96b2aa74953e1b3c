-- ===== src/Ledger/Exports/Safety.antt =====
-- The cells of ledger/exports.py that a spreadsheet could take for formulas.
use Prim.Native.Char.{char}
use vault.Base.{
  ◌≡◌, refl, false, String, List, [], ◌∷◌, where_rows, All, All-map, All_of, Bool-cases, inl, inr,
  ◌==◌,
}
use vault.Decimal.{Context}
use vault.Accounts.Models.{FinancialAccount}
use vault.Ledger.Models.{TransactionEntry}
use vault.Ledger.Exports.{
  is_formula, spreadsheet_safe, newest_first, entry_row, export_account_transactions,
}
use vault.Database.{Database}

quoted : (s : String) → is_formula (String.◌∷◌ (char 39 tt) s) ≡ false
unfolding is_formula
quoted s = refl

spreadsheet_safe-IsPlain : (value : String) → is_formula (spreadsheet_safe value) ≡ false
unfolding spreadsheet_safe
spreadsheet_safe-IsPlain value = elim (Bool-cases (is_formula value)) [
  | inl e ↦ rw e (quoted value)
  | inr e ↦ rw (e, e) refl
]

-- Four cells, of which the third is the description.
abbrev pub IsSafeRow : List String → Type 0
IsSafeRow (date ∷ value_date ∷ description ∷ amount ∷ []) = is_formula description ≡ false
IsSafeRow _ = ⊥

module _ ⦃c : Context⦄ where
  entry_row-IsSafeRow : (e : TransactionEntry) → IsSafeRow (entry_row e)
  unfolding entry_row
  entry_row-IsSafeRow e = spreadsheet_safe-IsPlain e.transaction.description

  -- Every row of an exported account has four cells, and its description is never one that a
  -- spreadsheet may take for a formula, white space before it included.
  pub export_account_transactions-IsSafeRow :
      (account : FinancialAccount) (db : Database)
      → All IsSafeRow (export_account_transactions account db)
  unfolding export_account_transactions is_formula
  export_account_transactions-IsSafeRow account db =
      let entries = newest_first (where_rows (λ e. e.account.pk == account.pk) db.entries) in
      (
        refl,
        All-map (λ (e : TransactionEntry). Unit {0}) IsSafeRow entry_row entries
            (λ e _. entry_row-IsSafeRow e) (All_of _ entries (λ e. tt)),
      )
