-- ===== src/Investments/Holdings/Positions.antt =====
-- The positions that the replay of investments/services/holdings.py goes through, and its errors.
use native.Mathlib.Nat.{pow-le-pow_right}
use vault.Base.{
  ◌^◌, ℕ, ◌<◌, ◌≡◌, ◌⊎◌, refl, ap, true, false, Option, none, some, List, [], ◌∷◌, ◌==◌,
  if◌then◌else◌, ◌≤ℤ◌, ◌<ℤ◌, ◌+ℤ◌, pos, pos_part, neg_part, int_laws, ltb_ℤ, eqb_ℤ, arith, All,
  All-where_rows_keep, Result, Error, ok, err, ◌>>=◌, >>=-eq-ok, ok-injective, type_error,
  historical_oversell, subst, Bool-cases, inl, inr,
}
use vault.Decimal.{Context, Decimal, decimal_zero, ◌⊕◌, ◌⊖◌, divide, quotient}
use vault.Decimal.Laws.{⊖_nonneg, divide-ok, fit_mono, fit-IsExact}
use vault.Accounts.Models.{FinancialAccount}
use vault.Ledger.Models.{TransactionType, buy, sell}
use vault.Investments.Models.{Security, InvestmentTransaction}
use vault.Investments.Holdings.{
  HoldingSnapshot, Position, empty_position, trades_before, place, sort, transactions, required,
  rate_to_account, buy_at, apply_buy, sell_at, apply_sell, apply_by, apply_item, replay, average_of,
  calculate_from_items, calculate_holding,
}

-- A trade whose quantity, if it has one, is positive, as `clean` demands of it.
abbrev pub IsTrade : InvestmentTransaction → Type 0
IsTrade i = (quantity : Decimal) → i.quantity ≡ some quantity → decimal_zero <ℤ quantity

abbrev pub IsPosition : Position → Type 0
IsPosition p =
    (decimal_zero ≤ℤ p.quantity)
    × (p.quantity ≡ decimal_zero → (p.native_cost ≡ decimal_zero) × (p.base_cost ≡ decimal_zero))

required-eq-ok : (o : Option Decimal) (a : Decimal) → required o ≡ ok a → o ≡ some a
required-eq-ok none a h = cc
required-eq-ok (some b) a h = ap some (ok-injective _ _ h)

required-err : (o : Option Decimal) (e : Error) → required o ≡ err e → e ≡ type_error
required-err none e h = cc
required-err (some b) e h = cc

module _ ⦃c : Context⦄ where
  -- Adding what is positive to what is not negative is positive.
  ⊕_pos :
      (a b : Decimal) → 0 < c.prec → decimal_zero ≤ℤ a → decimal_zero <ℤ b → decimal_zero <ℤ a ⊕ b
  unfolding ◌⊕◌
  ⊕_pos a b pr h k =
      let below : 1 < 10 ^ c.prec =
        omega (arith, pow-le-pow_right {n = 10} (omega arith) {i = 1} pr) in
      let one = fit-IsExact (pos 1) (1, 0, below, omega arith) in
      omega (arith, fit_mono (pos 1) (a +ℤ b) pr (omega int_laws), ap pos_part one, ap neg_part one)

  buy-IsPosition :
      (p p' : Position) (i : InvestmentTransaction)
      → 0 < c.prec
      → IsTrade i
      → IsPosition p
      → apply_buy p i ≡ ok p'
      → IsPosition p'
  unfolding apply_buy buy_at
  buy-IsPosition p p' i pr t v h =
      let (quantity, given, h1) = >>=-eq-ok (required i.quantity) _ h in
      let (rate, _, done) = >>=-eq-ok (rate_to_account i) _ h1 in
      let positive =
        ⊕_pos p.quantity quantity pr v.0 (t quantity (required-eq-ok i.quantity quantity given)) in
      subst IsPosition (ok-injective _ _ done)
        (omega arith, λ e. absurd (omega (arith, positive, ap pos_part e, ap neg_part e)))

  sell_at-IsPosition :
      (p : Position) (i : InvestmentTransaction) (quantity a b rate : Decimal)
      → quantity ≤ℤ p.quantity
      → IsPosition (sell_at p i quantity a b rate)
  unfolding sell_at
  sell_at-IsPosition p i quantity a b rate h = (
    ⊖_nonneg p.quantity quantity h,
    λ e.
        let closed : eqb_ℤ (p.quantity ⊖ quantity) decimal_zero ≡ true = rw e refl in
        rw closed (refl, refl),
  )

  sell-IsPosition :
      (p p' : Position) (i : InvestmentTransaction)
      → IsPosition p
      → apply_sell p i ≡ ok p'
      → IsPosition p'
  unfolding apply_sell
  sell-IsPosition p p' i v h =
      let (quantity, given, h1) = >>=-eq-ok (required i.quantity) _ h in
      elim (Bool-cases (ltb_ℤ p.quantity quantity)) [
        | inl e ↦ absurd (cc (rw e at h1))
        | inr e ↦
            let (a, _, h2) = >>=-eq-ok (divide p.native_cost p.quantity) _ (rw e at h1) in
            let (b, _, h3) = >>=-eq-ok (divide p.base_cost p.quantity) _ h2 in
            let (rate, _, done) = >>=-eq-ok (rate_to_account i) _ h3 in
            subst IsPosition (ok-injective _ _ done)
              (sell_at-IsPosition p i quantity a b rate (ground arith))
      ]

  apply_by-IsPosition :
      (kind : TransactionType) (p p' : Position) (i : InvestmentTransaction)
      → 0 < c.prec
      → IsTrade i
      → IsPosition p
      → apply_by kind p i ≡ ok p'
      → IsPosition p'
  unfolding apply_by
  apply_by-IsPosition buy p p' i pr t v h = buy-IsPosition p p' i pr t v h
  apply_by-IsPosition sell p p' i pr t v h = sell-IsPosition p p' i v h
  apply_by-IsPosition kind p p' i pr t v h = subst IsPosition (ok-injective _ _ h) v

  replay-IsPosition :
      (items : List InvestmentTransaction) (p p' : Position)
      → 0 < c.prec
      → All IsTrade items
      → IsPosition p
      → replay p items ≡ ok p'
      → IsPosition p'
  unfolding replay apply_item
  replay-IsPosition [] p p' pr t v h = subst IsPosition (ok-injective _ _ h) v
  replay-IsPosition (i ∷ items) p p' pr t v h =
      let (q, one, rest) = >>=-eq-ok (apply_item p i) _ h in
      replay-IsPosition items q p' pr t.1
        (apply_by-IsPosition i.transaction.transaction_type p q i pr t.0 v one) rest

  -- What a snapshot satisfies.
  abbrev pub IsSnapshot : HoldingSnapshot → Type 0
  IsSnapshot h =
      (decimal_zero ≤ℤ h.quantity)
      × (h.quantity ≡ decimal_zero
          → (h.total_cost_basis ≡ decimal_zero)
            × (h.base_cost_basis ≡ decimal_zero)
            × (h.average_cost ≡ decimal_zero))

  average_closed :
      (p : Position) (a : Decimal)
      → average_of p ≡ ok a
      → p.quantity ≡ decimal_zero
      → a ≡ decimal_zero
  average_closed p a h e =
      let closed : eqb_ℤ p.quantity decimal_zero ≡ true = rw e refl in
      cc (ok-injective _ _ (rw closed at h))

  calculate_from_items-IsSnapshot :
      (security : Security) (items : List InvestmentTransaction) (h : HoldingSnapshot)
      → 0 < c.prec
      → All IsTrade items
      → calculate_from_items security items ≡ ok h
      → IsSnapshot h
  unfolding calculate_from_items
  calculate_from_items-IsSnapshot security items h pr t k =
      let (p, one, k1) = >>=-eq-ok (replay empty_position items) _ k in
      let (a, two, done) = >>=-eq-ok (average_of p) _ k1 in
      let v = replay-IsPosition items empty_position p pr t (omega arith, λ e. (refl, refl)) one in
      subst IsSnapshot (ok-injective _ _ done)
        (v.0, λ e. ((v.1 e).0, (v.1 e).1, average_closed p a two e))

  All-place :
      (x : InvestmentTransaction) (xs : List InvestmentTransaction)
      → IsTrade x
      → All IsTrade xs
      → All IsTrade (place trades_before x xs)
  unfolding place
  All-place x [] h k = (h, tt)
  All-place x (y ∷ ys) h k = elim (Bool-cases (trades_before y x)) [
    | inl e ↦ rw e (k.0, All-place x ys h k.1)
    | inr e ↦ rw e (h, k)
  ]

  All-sort :
      (xs : List InvestmentTransaction) → All IsTrade xs → All IsTrade (sort trades_before xs)
  unfolding sort
  All-sort [] h = tt
  All-sort (x ∷ xs) h = All-place x (sort trades_before xs) h.0 (All-sort xs h.1)

  -- Under a context of at least one digit, a holding calculated from trades whose quantities, where
  -- given, are positive is never short, and once its quantity is zero it has no cost basis left, in
  -- either currency, and no average cost.
  pub calculate_holding-IsSnapshot :
      (table : List InvestmentTransaction) (account : FinancialAccount) (security : Security)
      (as_of_date : Option ℕ) (h : HoldingSnapshot)
      → 0 < c.prec
      → All IsTrade table
      → calculate_holding table account security as_of_date ≡ ok h
      → IsSnapshot h
  unfolding calculate_holding transactions
  calculate_holding-IsSnapshot table account security as_of_date h pr t k =
      calculate_from_items-IsSnapshot security _ h pr
        (All-sort _ (All-where_rows_keep IsTrade _ table t)) k

  -- How a replay can fail: by selling more than is held, or on a column without a value.
  abbrev pub IsRefusal : Error → Type 0
  IsRefusal e = (e ≡ historical_oversell) ⊎ (e ≡ type_error)

  rate_to_account-err :
      (i : InvestmentTransaction) (e : Error) → rate_to_account i ≡ err e → e ≡ type_error
  unfolding rate_to_account
  rate_to_account-err i e h = elim (Bool-cases (i.currency.pk == i.account.currency.pk)) [
    | inl same ↦ absurd (cc (rw same at h))
    | inr other ↦ required-err i.exchange_rate e (rw other at h)
  ]

  sold-positive :
      (p : Position) (quantity : Decimal)
      → decimal_zero <ℤ quantity
      → ltb_ℤ p.quantity quantity ≡ false
      → decimal_zero <ℤ p.quantity
  sold-positive p quantity h k = ground arith

  buy-err :
      (p : Position) (i : InvestmentTransaction) (e : Error)
      → apply_buy p i ≡ err e
      → e ≡ type_error
  unfolding apply_buy
  buy-err p i e h = go (required i.quantity) refl (rate_to_account i) refl h
    where
      go :
          (m : Result Decimal)
          → required i.quantity ≡ m
          → (r : Result Decimal) → rate_to_account i ≡ r
          → (m >>= λ quantity. r >>= λ rate. ok (buy_at p i quantity rate)) ≡ err e
          → e ≡ type_error
      go (err x) a r b k = required-err i.quantity e (cc)
      go (ok q) a (err x) b k = rate_to_account-err i e (cc)
      go (ok q) a (ok r) b k = cc

  sell-err :
      (p : Position) (i : InvestmentTransaction) (e : Error)
      → IsTrade i
      → apply_sell p i ≡ err e
      → IsRefusal e
  unfolding apply_sell
  sell-err p i e t h = go (required i.quantity) refl h
    where
      priced :
          (r : Result Decimal)
          → rate_to_account i ≡ r
          → (f : Decimal → Position) → (r >>= λ rate. ok (f rate)) ≡ err e
          → e ≡ type_error
      priced (err x) a f k = rate_to_account-err i e (cc)
      priced (ok r) a f k = cc

      go :
          (m : Result Decimal)
          → required i.quantity ≡ m
          → (m >>= λ quantity.
              if ltb_ℤ p.quantity quantity
              then err historical_oversell
              else (divide p.native_cost p.quantity >>= λ a. divide p.base_cost p.quantity >>= λ b.
                  rate_to_account i >>= λ rate. ok (sell_at p i quantity a b rate)))
            ≡ err e
          → IsRefusal e
      go (err x) a k = inr (required-err i.quantity e (cc))
      go (ok q) a k = elim (Bool-cases (ltb_ℤ p.quantity q)) [
        | inl o ↦ inl (cc (rw o at k))
        | inr o ↦
            let positive = sold-positive p q (t q (required-eq-ok i.quantity q a)) o in
            let k' =
              rw
                (
                  divide-ok p.native_cost p.quantity positive,
                  divide-ok p.base_cost p.quantity positive,
                )
                at (rw o at k) in
            inr (
              priced (rate_to_account i) refl
                (λ rate.
                  sell_at p i q (quotient p.native_cost p.quantity)
                    (quotient p.base_cost p.quantity) rate)
                k')
      ]

  apply_by-err :
      (kind : TransactionType) (p : Position) (i : InvestmentTransaction) (e : Error)
      → IsTrade i
      → apply_by kind p i ≡ err e
      → IsRefusal e
  unfolding apply_by
  apply_by-err buy p i e t h = inr (buy-err p i e h)
  apply_by-err sell p i e t h = sell-err p i e t h
  apply_by-err kind p i e t h = absurd (cc)

  -- A replay of trades whose quantities, where given, are positive never divides by zero: when it
  -- fails, a sale exceeds what is held at that point, or a row has no quantity or no exchange rate
  -- where it needs one.
  pub replay-IsRefusal :
      (items : List InvestmentTransaction) (p : Position) (e : Error)
      → All IsTrade items
      → replay p items ≡ err e
      → IsRefusal e
  unfolding replay apply_item
  replay-IsRefusal [] p e t h = absurd (cc)
  replay-IsRefusal (i ∷ items) p e t h =
      go (apply_item p i) refl (λ q. replay-IsRefusal items q e t.1) h
    where
      go :
          (m : Result Position)
          → apply_item p i ≡ m
          → ((q : Position) → replay q items ≡ err e → IsRefusal e)
          → (m >>= λ p'. replay p' items) ≡ err e
          → IsRefusal e
      go (err x) a later k = apply_by-err i.transaction.transaction_type p i e t.0 (cc)
      go (ok q) a later k = later q k
