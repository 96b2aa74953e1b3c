-- ===== src/Investments/Posting/Records.antt =====
-- The rows that investments/services/transactions.py adds for an order, figure by figure.
use vault.Base.{
  ℕ, ◌≡◌, ◌≢◌, ◌⊎◌, inl, inr, refl, sym, ap, none, subst, Option, some, [], ◌∷◌, ◌++◌, ◌==◌, neg,
  arith, Bool-cases, ok, ok-injective,
}
use vault.Decimal.{Context, Decimal, decimal_zero, whole, ◌⊕◌, ◌⊖◌, ◌⊗◌, quantize}
use vault.Ledger.Models.{TransactionEntry, TransactionType, buy, sell, dividend}
use vault.Ledger.Services.{insert_transaction, insert_entry}
use vault.Investments.Models.{InvestmentTransaction, net_cash_impact_native}
use vault.Investments.Holdings.{required}
use vault.Investments.Posting.{
  Order, order_rate, order_entry, order_detail, order_transaction, insert_investment,
  create_investment_transaction,
}
use vault.Investments.Posting.Effects.{cash_of, create_investment_transaction-IsOrdered}
use vault.Database.{Database}

-- A detail carries every figure of its order.
pub record IsDetailOf (owner : ℕ) (q : Order) (i : InvestmentTransaction) : Type 0 where
  pub owned : i.transaction.owner_id ≡ owner
  pub kind : i.transaction.transaction_type ≡ q.transaction_type
  pub date : i.transaction.transaction_date ≡ q.trade_date
  pub account : i.account ≡ q.account
  pub security : i.security ≡ q.security
  pub settlement : i.settlement_date ≡ q.settlement_date
  pub quantity : i.quantity ≡ q.quantity
  pub price : i.price_per_unit ≡ q.price_per_unit
  pub gross : i.gross_amount ≡ q.gross_amount
  pub fees : i.fees ≡ q.fees
  pub taxes : i.taxes ≡ q.taxes
  pub currency : i.currency ≡ q.currency
  pub rate : i.exchange_rate ≡ q.exchange_rate

module _ ⦃c : Context⦄ where
  -- The rate of an order: one in the currency of the account, else the rate that it names.
  abbrev pub IsRate : Order → Decimal → Type 0
  IsRate q rate =
      ((q.currency.pk ≡ q.account.currency.pk) × (rate ≡ whole 1))
      ⊎ ((q.currency.pk ≢ q.account.currency.pk) × (q.exchange_rate ≡ some rate))

  -- What an order pays in its own currency: a purchase costs its charges on top, a sale and a
  -- dividend yield what the charges leave, and a fee and a tax are paid.
  abbrev pub paid : TransactionType → Order → Decimal
  paid buy q = neg (q.gross_amount ⊕ q.fees ⊕ q.taxes)
  paid sell q = q.gross_amount ⊖ q.fees ⊖ q.taxes
  paid dividend q = q.gross_amount ⊖ q.fees ⊖ q.taxes
  paid _ q = neg q.gross_amount

  required-some : (o : Option Decimal) (a : Decimal) → required o ≡ ok a → o ≡ some a
  required-some (some b) a h = ap some (ok-injective b a h)
  required-some none a h = cc

  order_rate-IsRate : (q : Order) (rate : Decimal) → order_rate q ≡ ok rate → IsRate q rate
  order_rate-IsRate q rate h = elim (Bool-cases (q.currency.pk == q.account.currency.pk)) [
    | inl e ↦ inl (ground arith, ok-injective rate (whole 1) (sym (rw e at h)))
    | inr e ↦ inr (ground arith, required-some q.exchange_rate rate (rw e at h))
  ]

  net-paid :
      (kind : TransactionType) (pk owner : ℕ) (q : Order)
      → net_cash_impact_native (
          order_detail
            (order_transaction pk owner (record q { transaction_type = kind }))
            (record q { transaction_type = kind }))
        ≡ paid kind q
  unfolding net_cash_impact_native
  net-paid TransactionType.deposit pk owner q = refl
  net-paid TransactionType.withdrawal pk owner q = refl
  net-paid TransactionType.transfer pk owner q = refl
  net-paid TransactionType.income pk owner q = refl
  net-paid TransactionType.expense pk owner q = refl
  net-paid TransactionType.interest pk owner q = refl
  net-paid TransactionType.dividend pk owner q = refl
  net-paid TransactionType.buy pk owner q = refl
  net-paid TransactionType.sell pk owner q = refl
  net-paid TransactionType.fee pk owner q = refl
  net-paid TransactionType.tax pk owner q = refl
  net-paid TransactionType.adjustment pk owner q = refl

  -- What is added for an order: one transaction and its detail, and one entry of its cash.
  pub record IsRecorded (owner : ℕ) (q : Order) (db : Database)
      (r : InvestmentTransaction × Database) : Type 0 where
    pub detail : IsDetailOf owner q r.0
    pub details : r.1.investments ≡ db.investments ++ r.0 ∷ []
    pub transactions : r.1.transactions ≡ db.transactions ++ r.0.transaction ∷ []
    pub rate : Decimal
    pub rated : IsRate q rate
    pub entry : TransactionEntry
    pub entries : r.1.entries ≡ db.entries ++ entry ∷ []
    pub posted : entry.transaction ≡ r.0.transaction
    pub on : entry.account ≡ q.account
    pub cash : entry.amount ≡ quantize 4 (paid q.transaction_type q ⊗ rate)
    pub moves : entry.amount ≢ decimal_zero

  -- An order that is posted adds one transaction, one detail and one entry to the tables. The
  -- detail carries every figure of the order: owner, type, dates, account, security, quantity,
  -- price, gross amount, fees, taxes, currency and rate. The entry is on the order's account and is
  -- of some cash: what a purchase costs with its charges on top, what a sale or a dividend yields
  -- less its charges, or what a fee or a tax takes, at a rate of one in the account's currency and
  -- else at the rate that the order names, to four places.
  pub create_investment_transaction-IsRecorded :
      (owner : ℕ) (q : Order) (db : Database) (r : InvestmentTransaction × Database)
      → create_investment_transaction owner q db ≡ ok r
      → IsRecorded owner q db r
  unfolding insert_transaction insert_entry insert_investment
  create_investment_transaction-IsRecorded owner q db r h =
      let p = create_investment_transaction-IsOrdered owner q db r h in
      let t = order_transaction db.next_transaction owner q in
      subst (IsRecorded owner q db) p.result (record {
        detail = record {
          owned = refl;
          kind = refl;
          date = refl;
          account = refl;
          security = refl;
          settlement = refl;
          quantity = refl;
          price = refl;
          gross = refl;
          fees = refl;
          taxes = refl;
          currency = refl;
          rate = refl;
        };
        details = refl;
        transactions = refl;
        rate = p.rate;
        rated = order_rate-IsRate q p.rate p.rated;
        entry = order_entry db.next_entry t q (cash_of owner q db p.rate) p.rate;
        entries = refl;
        posted = refl;
        on = refl;
        cash =
            ap (λ (x : Decimal). quantize 4 (x ⊗ p.rate))
              (net-paid q.transaction_type db.next_transaction owner q);
        moves = p.moves;
      })
