-- ===== src/Investments/Posting/Trades.antt =====
-- The quantities of the details that investments/services/transactions.py stores, for the replay of
-- holdings.py.
use mathlib.Core.Option.{some-injective}
use vault.Base.{
  ℕ, ◌≡◌, Bool, true, false, not, ◌||◌, Option, none, some, List, [], ◌∷◌, ◌++◌, if◌then◌else◌,
  ◌<ℤ◌, arith, refl, subst, ◌==◌, is_none, All, All-snoc, Bool-cases, inl, inr, ok,
}
use vault.Decimal.{Context, Decimal, decimal_zero}
use vault.Ledger.Models.{buy, sell, is_type}
use vault.Ledger.Services.{insert_transaction, insert_entry}
use vault.Investments.Models.{
  InvestmentTransaction, InvestmentMessage, security_inactive, currency_mismatch, clean_owner,
  clean_settlement, clean_rate, not_positive, clean_quantities, clean_investment,
}
use vault.Investments.Holdings.Positions.{IsTrade}
use vault.Investments.Posting.{Order, insert_investment, create_investment_transaction}
use vault.Investments.Posting.Effects.{create_investment_transaction-IsOrdered}
use vault.Database.{Database}

append-nil : {A : Type 0} (xs ys : List A) → xs ++ ys ≡ [] → (xs ≡ []) × (ys ≡ [])
append-nil [] ys h = (refl, h)
append-nil (x ∷ xs) ys h = cc

no_message : (b : Bool) (m : InvestmentMessage) → (if b then m ∷ [] else []) ≡ [] → b ≡ false
no_message true m h = cc
no_message false m h = refl

absent_of : (o p : Option Decimal) → (not (is_none o) || not (is_none p)) ≡ false → o ≡ none
absent_of none p h = refl
absent_of (some a) p h = cc

module _ ⦃c : Context⦄ where
  positive_of :
      (o : Option Decimal) (q : Decimal) → not_positive o ≡ false → o ≡ some q → decimal_zero <ℤ q
  positive_of none q h e = cc
  positive_of (some a) q h e =
      subst (λ (x : Decimal). decimal_zero <ℤ x) (some-injective _ _ e) (ground arith)

  clean_quantities-IsTrade : (i : InvestmentTransaction) → clean_quantities i ≡ [] → IsTrade i
  clean_quantities-IsTrade i h quantity e =
      elim (Bool-cases (
        is_type i.transaction.transaction_type buy
        || is_type i.transaction.transaction_type sell)) [
          | inl t ↦
              let (first, _) = append-nil _ _ (rw t at h) in
              positive_of i.quantity quantity (no_message (not_positive i.quantity) _ first) e
          | inr t ↦ absurd (cc (absent_of i.quantity i.price_per_unit (no_message _ _ (rw t at h))))
        ]

  clean_investment-IsTrade : (i : InvestmentTransaction) → clean_investment i ≡ [] → IsTrade i
  unfolding clean_investment
  clean_investment-IsTrade i h =
      let inactive = if not i.security.active then security_inactive ∷ [] else [] in
      let mismatch =
        if not (i.security.currency.pk == i.currency.pk) then currency_mismatch ∷ [] else [] in
      let settled = clean_settlement i.settlement_date i.transaction.transaction_date in
      let (_, h1) =
        append-nil (clean_owner i)
          (inactive ++ (mismatch ++ (settled ++ (clean_quantities i ++ clean_rate i)))) h in
      let (_, h2) =
        append-nil inactive (mismatch ++ (settled ++ (clean_quantities i ++ clean_rate i))) h1 in
      let (_, h3) = append-nil mismatch (settled ++ (clean_quantities i ++ clean_rate i)) h2 in
      let (_, h4) = append-nil settled (clean_quantities i ++ clean_rate i) h3 in
      clean_quantities-IsTrade i (append-nil (clean_quantities i) (clean_rate i) h4).0

  -- An order that is posted keeps the details fit for replay: if every stored detail with a
  -- quantity has a positive one, then so it is after the post.
  pub create_investment_transaction-IsTrade :
      (owner : ℕ) (q : Order) (db : Database) (r : InvestmentTransaction × Database)
      → All IsTrade db.investments
      → create_investment_transaction owner q db ≡ ok r
      → All IsTrade r.1.investments
  unfolding insert_investment insert_transaction insert_entry
  create_investment_transaction-IsTrade owner q db r v h =
      let p = create_investment_transaction-IsOrdered owner q db r h in
      rw (← p.result) (
        All-snoc IsTrade db.investments _ v
          (clean_investment-IsTrade _ (rw (← p.result) at p.clean)))
