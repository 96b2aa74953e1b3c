-- ===== src/Investments/Posting/Effects.antt =====
-- What investments/services/transactions.py writes, and what it has checked before.
use vault.Base.{
  ℕ, ◌≡◌, ◌≢◌, refl, Bool, true, false, not, Option, none, some, List, [], ◌∷◌, ◌==◌, eqb_ℤ,
  eqb_ℤ→ne, ◌≤ℤ◌, ◌+ℤ◌, arith, Error, Result, ok, ◌>>◌, raise_if, >>=-eq-ok, raise_if-eq-ok,
  ok-injective, account_not_owned, brokerage_required, unsupported_type, insufficient_holdings,
  net_cash_zero, ◌<◌, All-snoc, Has-last,
}
use vault.Decimal.{Context, Decimal, decimal_zero, ◌⊗◌, quantize}
use vault.Accounts.Models.{FinancialAccount, is_brokerage}
use vault.Ledger.Models.{sell, is_type}
use vault.Ledger.Services.{insert_transaction, insert_entry, account_balance}
use vault.Ledger.Services.Validity.{IsValid, insert_transaction-IsValid, insert_entry-IsValid}
use vault.Ledger.Services.Balances.{moved, balance-insert_entry}
use vault.Investments.Models.{
  InvestmentTransaction, InvestmentMessage, clean_investment, net_cash_impact_native,
}
use vault.Investments.Holdings.{calculate_holding_quantity}
use vault.Investments.Posting.{
  Order, is_supported, exceeds, raise_messages, order_transaction, order_detail, order_entry,
  order_rate, insert_investment, check_holding, create_investment_transaction,
}
use vault.Database.{Database}

raise_messages-eq-ok :
    {A : Type 0} (ms : List InvestmentMessage) (m : Result A) (a : A)
    → (raise_messages ms >> m) ≡ ok a
    → (ms ≡ []) × (m ≡ ok a)
raise_messages-eq-ok [] m a h = (refl, h)
raise_messages-eq-ok (x ∷ ms) m a h = cc

raise_if-passed : (b : Bool) (e : Error) → raise_if b e ≡ ok tt → b ≡ false
raise_if-passed true e h = cc
raise_if-passed false e h = refl

module _ ⦃c : Context⦄ where
  -- The cash that an order moves at a rate.
  abbrev pub cash_of : ℕ → Order → Database → Decimal → Decimal
  cash_of owner q db rate = quantize 4 (
      net_cash_impact_native (order_detail (order_transaction db.next_transaction owner q) q)
      ⊗ rate)

  -- The detail and the database after an order that is not refused.
  abbrev pub ordered : ℕ → Order → Database → Decimal → InvestmentTransaction × Database
  ordered owner q db rate =
      let t = order_transaction db.next_transaction owner q in
      let detail = order_detail t q in
      (
        detail,
        insert_entry (order_entry db.next_entry t q (cash_of owner q db rate) rate)
            (insert_investment detail (insert_transaction t db)),
      )

  -- What a posted order satisfies.
  pub record IsOrdered (owner : ℕ) (q : Order) (db : Database)
      (r : InvestmentTransaction × Database) : Type 0 where
    pub rate : Decimal
    pub owned : q.account.owner_id ≡ owner
    pub brokerage : is_brokerage q.account.account_type ≡ true
    pub supported : is_supported q.transaction_type ≡ true
    pub held : check_holding q db ≡ ok tt
    pub clean : clean_investment r.0 ≡ []
    pub rated : order_rate q ≡ ok rate
    pub moves : cash_of owner q db rate ≢ decimal_zero
    pub result : ordered owner q db rate ≡ r

  -- An order that is posted is on the owner's brokerage account, of a supported type, passes the
  -- check of holdings, has a clean detail and moves some cash; and the new database is the old one
  -- with one transaction, one detail and one entry of that cash.
  pub create_investment_transaction-IsOrdered :
      (owner : ℕ) (q : Order) (db : Database) (r : InvestmentTransaction × Database)
      → create_investment_transaction owner q db ≡ ok r
      → IsOrdered owner q db r
  unfolding create_investment_transaction
  create_investment_transaction-IsOrdered owner q db r h =
      let (a, h1) = raise_if-eq-ok (not (q.account.owner_id == owner)) account_not_owned _ r h in
      let (b, h2) =
        raise_if-eq-ok (not (is_brokerage q.account.account_type)) brokerage_required _ r h1 in
      let (s, h3) =
        raise_if-eq-ok (not (is_supported q.transaction_type)) unsupported_type _ r h2 in
      let (_, k, h4) = >>=-eq-ok (check_holding q db) _ h3 in
      let detail = order_detail (order_transaction db.next_transaction owner q) q in
      let (m, h5) = raise_messages-eq-ok (clean_investment detail) _ r h4 in
      let (rate, o, h6) = >>=-eq-ok (order_rate q) _ h5 in
      let (z, done) =
        raise_if-eq-ok (eqb_ℤ (cash_of owner q db rate) decimal_zero) net_cash_zero _ r h6 in
      let e = ok-injective _ _ done in
      record {
        rate = rate;
        owned = ground arith;
        brokerage = ground arith;
        supported = ground arith;
        held = k;
        clean = rw (← e) m;
        rated = o;
        moves = eqb_ℤ→ne _ decimal_zero z;
        result = e;
      }

  -- An order that is posted moves the balance of its account by its cash, on every date from the
  -- trade date on, and leaves every other balance.
  pub balance-create_investment_transaction :
      (owner : ℕ) (q : Order) (db : Database) (r : InvestmentTransaction × Database)
      → create_investment_transaction owner q db ≡ ok r
      → (other : FinancialAccount) (as_of_date : Option ℕ)
      → (rate : Decimal) × (order_rate q ≡ ok rate)
        × (account_balance other as_of_date r.1
            ≡ account_balance other as_of_date db
              +ℤ moved q.account (cash_of owner q db rate) q.trade_date other as_of_date)
  unfolding insert_investment insert_transaction account_balance
  balance-create_investment_transaction owner q db r h other as_of_date =
      let p = create_investment_transaction-IsOrdered owner q db r h in
      (p.rate, p.rated, rw (← p.result) (balance-insert_entry other as_of_date _ _))

  exceeds-no :
      (o : Option Decimal) (held : Decimal)
      → exceeds o held ≡ false
      → (quantity : Decimal) × (o ≡ some quantity) × (quantity ≤ℤ held)
  exceeds-no none held h = cc
  exceeds-no (some quantity) held h = (quantity, refl, ground arith)

  -- A sale that is posted names a quantity, and no more than is held on its trade date.
  pub create_investment_transaction-held :
      (owner : ℕ) (q : Order) (db : Database) (r : InvestmentTransaction × Database)
      → is_type q.transaction_type sell ≡ true
      → create_investment_transaction owner q db ≡ ok r
      → (held quantity : Decimal) × (calculate_holding_quantity db.investments q.account q.security
            (some q.trade_date)
          ≡ ok held)
        × (q.quantity ≡ some quantity)
        × (quantity ≤ℤ held)
  unfolding check_holding
  create_investment_transaction-held owner q db r is_sale h =
      let p = create_investment_transaction-IsOrdered owner q db r h in
      let (held, e, k) =
        >>=-eq-ok
          (calculate_holding_quantity db.investments q.account q.security (some q.trade_date)) _
          (rw is_sale at p.held) in
      let fits = raise_if-passed (exceeds q.quantity held) insufficient_holdings k in
      let (quantity, given, le) = exceeds-no q.quantity held fits in (held, quantity, e, given, le)

  insert_investment-IsValid :
      (i : InvestmentTransaction) (db : Database)
      → i.transaction.pk < db.next_transaction
      → IsValid db
      → IsValid (insert_investment i db)
  unfolding insert_investment
  insert_investment-IsValid i db below v = record {
    entries_posted = v.entries_posted;
    keys_below = v.keys_below;
    details_below = All-snoc _ db.investments i v.details_below below;
  }

  -- An order that is posted keeps the tables valid.
  pub create_investment_transaction-IsValid :
      (owner : ℕ) (q : Order) (db : Database) (r : InvestmentTransaction × Database)
      → create_investment_transaction owner q db ≡ ok r
      → IsValid db
      → IsValid r.1
  unfolding insert_transaction insert_entry insert_investment
  create_investment_transaction-IsValid owner q db r h v =
      let p = create_investment_transaction-IsOrdered owner q db r h in
      rw (← p.result) (
        insert_entry-IsValid _ _
          (record {
            listed = Has-last _ db.transactions _ refl;
            nonzero = p.moves;
            owned = p.owned;
          })
          (insert_investment-IsValid _ _ (omega arith) (insert_transaction-IsValid _ db refl v)))
