-- ===== src/Ledger/History.antt =====
-- The operations on the tables in any order: ledger/services.py, and the posting of trades in
-- investments/services/transactions.py. A call that raises leaves the tables, so a step is a call
-- that returned; prices and rates are entered by the user at any time.
use vault.Base.{
  suc, ◌<◌, All-snoc, All_map, All-where_rows_keep, ℕ, ◌≡◌, refl, ap, ◌∙◌, Bool, true, false, not,
  ◌&&◌, String, List, [], ◌∷◌, ◌++◌, ◌==◌, if◌then◌else◌, where_rows, any, All, ok, raise_if-eq-ok,
  ok-injective, neg, ◌+ℤ◌, int_laws, transaction_not_owned, immutable_investment, account_not_owned,
  arith, Bool-cases, inl, inr, subst,
}
use vault.Decimal.{Context, Decimal, decimal_zero}
use vault.Core.Models.{ExchangeRate}
use vault.Accounts.Models.{FinancialAccount}
use vault.Ledger.Models.{
  Transaction, TransactionEntry, TransactionType, EntryType, of_type, transfer_out, transfer_in,
}
use vault.Investments.Models.{SecurityPrice, InvestmentTransaction}
use vault.Investments.Holdings.Positions.{IsTrade}
use vault.Investments.Posting.{Order, insert_investment, create_investment_transaction}
use vault.Investments.Posting.Effects.{
  create_investment_transaction-IsOrdered, create_investment_transaction-IsValid,
}
use vault.Investments.Posting.Trades.{create_investment_transaction-IsTrade}
use vault.Database.{Database}
use vault.Ledger.Services.{
  insert_transaction, insert_entry, create, create_transfer, delete_transaction,
  delete_account_transactions, sum_amounts, touches, is_listed, has_detail,
}
use vault.Ledger.Services.Balances.{create_iff, create_transfer_iff, sum_where_append}
use vault.Ledger.Services.Validity.{
  IsValid, create-IsValid, create_transfer-IsValid, delete_transaction-IsValid,
  delete_account_transactions-IsValid,
}

module _ ⦃c : Context⦄ where
  pub data Step : Database → Database → Type 0 where
    post :
        {db : Database} {r : Transaction × Database} (owner : ℕ) (account : FinancialAccount)
        (amount : Decimal) (kind : TransactionType) (date : ℕ)
        (description notes reference : String)
        → create owner account amount kind date description notes reference db ≡ ok r
        → Step db r.1
    move :
        {db : Database} {r : Transaction × Database} (owner : ℕ)
        (source destination : FinancialAccount) (amount : Decimal) (date : ℕ)
        (description notes : String)
        → create_transfer owner source destination amount date description notes db ≡ ok r
        → Step db r.1
    delete :
        {db db' : Database} (owner : ℕ) (t : Transaction)
        → delete_transaction owner t db ≡ ok db'
        → Step db db'
    clear :
        {db : Database} {r : ℕ × Database} (owner : ℕ) (account : FinancialAccount)
        → delete_account_transactions owner account db ≡ ok r
        → Step db r.1
    trade :
        {db : Database} {r : InvestmentTransaction × Database} (owner : ℕ) (q : Order)
        → create_investment_transaction owner q db ≡ ok r
        → Step db r.1
    observe :
        {db : Database} (prices : List SecurityPrice) (rates : List ExchangeRate)
        → Step db (record db { prices = prices; rates = rates })

  -- The tables that some sequence of calls leads to.
  pub data Reachable (start : Database) : Database → Type 0 where
    start : Reachable start start
    step : {db db' : Database} → Reachable start db → Step db db' → Reachable start db'

-- An entry that a transfer wrote.
abbrev pub is_leg : EntryType → Bool
is_leg (of_type kind) = false
is_leg transfer_out = true
is_leg transfer_in = true

abbrev pub leg_of : ℕ → TransactionEntry → Bool
leg_of pk e = (e.transaction.pk == pk) && is_leg e.entry_type

-- What is left of a transfer.
abbrev pub transfer_total : ℕ → List TransactionEntry → Decimal
transfer_total pk entries = sum_amounts (where_rows (leg_of pk) entries)

abbrev pub IsBalanced : List TransactionEntry → Type 0
IsBalanced entries = (pk : ℕ) → transfer_total pk entries ≡ decimal_zero

key_of : (pk : ℕ) (e : TransactionEntry) → leg_of pk e ≡ true → e.transaction.pk ≡ pk
key_of pk e h = ground arith

-- Filtering by the key of the transaction keeps the legs of a transfer together.
transfer_total-where_rows :
    (keep : ℕ → Bool) (pk : ℕ) (entries : List TransactionEntry)
    → transfer_total pk (where_rows (λ e. keep e.transaction.pk) entries)
      ≡ (if keep pk then transfer_total pk entries else decimal_zero)
transfer_total-where_rows keep pk [] = elim (Bool-cases (keep pk)) [
  | inl h ↦ rw h refl
  | inr h ↦ rw h refl
]
transfer_total-where_rows keep pk (e ∷ es) =
    let rest = transfer_total-where_rows keep pk es in
    elim (Bool-cases (keep e.transaction.pk)) [
      | inl k ↦ elim (Bool-cases (leg_of pk e)) [
        | inl l ↦
            let same : keep pk ≡ true = subst (λ (x : ℕ). keep x ≡ true) (key_of pk e l) k in
            rw (k, l, same) (ap (λ (x : Decimal). e.amount +ℤ x) (rest ∙ rw same refl))
        | inr l ↦ rw (k, l) rest
      ]
      | inr k ↦ elim (Bool-cases (leg_of pk e)) [
        | inl l ↦
            let same : keep pk ≡ false = subst (λ (x : ℕ). keep x ≡ false) (key_of pk e l) k in
            rw (k, same) (rest ∙ rw same refl)
        | inr l ↦ rw (k, l) rest
      ]
    ]

filtered-IsBalanced :
    (keep : ℕ → Bool) (entries : List TransactionEntry)
    → IsBalanced entries
    → IsBalanced (where_rows (λ e. keep e.transaction.pk) entries)
filtered-IsBalanced keep entries h pk =
    transfer_total-where_rows keep pk entries
    ∙ elim (Bool-cases (keep pk)) [ inl k ↦ rw k (h pk) | inr k ↦ rw k refl ]

and_false : (b : Bool) → (b && false) ≡ false
and_false b = ground arith

-- An entry of no transfer.
appended-IsBalanced :
    (entries : List TransactionEntry) (e : TransactionEntry)
    → is_leg e.entry_type ≡ false
    → IsBalanced entries
    → IsBalanced (entries ++ e ∷ [])
appended-IsBalanced entries e l h pk =
    sum_where_append (leg_of pk) entries e ∙ rw (h pk) (rw (l, and_false) (omega int_laws))

-- The two legs of a transfer.
transferred-IsBalanced :
    (entries : List TransactionEntry) (out into : TransactionEntry)
    → out.transaction.pk ≡ into.transaction.pk
    → is_leg out.entry_type ≡ true
    → is_leg into.entry_type ≡ true
    → out.amount ≡ neg into.amount
    → IsBalanced entries
    → IsBalanced ((entries ++ out ∷ []) ++ into ∷ [])
transferred-IsBalanced entries out into k l l' e h pk =
    sum_where_append (leg_of pk) (entries ++ out ∷ []) into
    ∙ rw (sum_where_append (leg_of pk) entries out, h pk, l, l', k, e)
        (elim (Bool-cases (into.transaction.pk == pk)) [
          | inl same ↦ rw same (omega int_laws)
          | inr other ↦ rw other (omega int_laws)
        ])

-- The keys of entries are below the next one.
abbrev pub KeysBelow : ℕ → List TransactionEntry → Type 0
KeysBelow next entries = All (λ (e : TransactionEntry). e.pk < next) entries

KeysBelow-snoc :
    (next : ℕ) (entries : List TransactionEntry) (e : TransactionEntry)
    → e.pk ≡ next
    → KeysBelow next entries
    → KeysBelow (suc next) (entries ++ e ∷ [])
KeysBelow-snoc next entries e k h =
    All-snoc _ entries e (All_map _ _ entries (λ x below. omega arith) h) (omega arith)

-- What every sequence of calls keeps.
pub record IsSound (db : Database) : Type 0 where
  pub valid : IsValid db
  pub entry_keys : KeysBelow db.next_entry db.entries
  pub trades : All IsTrade db.investments
  pub balanced : IsBalanced db.entries

create-IsSound :
    (owner : ℕ) (account : FinancialAccount) (amount : Decimal) (kind : TransactionType) (date : ℕ)
    (description notes reference : String) (db : Database) (r : Transaction × Database)
    → create owner account amount kind date description notes reference db ≡ ok r
    → IsSound db
    → IsSound r.1
unfolding insert_transaction insert_entry
create-IsSound owner account amount kind date description notes reference db r h s =
    let (_, _, e) =
      (create_iff owner account amount kind date description notes reference db r).0 h in
    record {
      valid =
          create-IsValid owner account amount kind date description notes reference db r h s.valid;
      entry_keys = rw (← e) (KeysBelow-snoc db.next_entry db.entries _ refl s.entry_keys);
      trades = rw (← e) s.trades;
      balanced = rw (← e) (appended-IsBalanced db.entries _ refl s.balanced);
    }

create_transfer-IsSound :
    (owner : ℕ) (source destination : FinancialAccount) (amount : Decimal) (date : ℕ)
    (description notes : String) (db : Database) (r : Transaction × Database)
    → create_transfer owner source destination amount date description notes db ≡ ok r
    → IsSound db
    → IsSound r.1
unfolding insert_transaction insert_entry
create_transfer-IsSound owner source destination amount date description notes db r h s =
    let (_, _, _, _, _, e) =
      (create_transfer_iff owner source destination amount date description notes db r).0 h in
    record {
      valid =
          create_transfer-IsValid owner source destination amount date description notes db r h
            s.valid;
      entry_keys = rw (← e) (
          KeysBelow-snoc (suc db.next_entry) _ _ refl
            (KeysBelow-snoc db.next_entry db.entries _ refl s.entry_keys));
      trades = rw (← e) s.trades;
      balanced = rw (← e) (transferred-IsBalanced db.entries _ _ refl refl refl refl s.balanced);
    }

delete_transaction-IsSound :
    (owner : ℕ) (t : Transaction) (db db' : Database)
    → delete_transaction owner t db ≡ ok db'
    → IsSound db
    → IsSound db'
unfolding delete_transaction
delete_transaction-IsSound owner t db db' h s =
    let (_, rest) = raise_if-eq-ok (not (t.owner_id == owner)) transaction_not_owned _ db' h in
    let (_, done) = raise_if-eq-ok (has_detail t db.investments) immutable_investment _ db' rest in
    let e = ok-injective _ _ done in
    record {
      valid = delete_transaction-IsValid owner t db db' h s.valid;
      entry_keys = rw (← e) (All-where_rows_keep _ _ db.entries s.entry_keys);
      trades = rw (← e) s.trades;
      balanced = rw (← e) (filtered-IsBalanced (λ pk. not (pk == t.pk)) db.entries s.balanced);
    }

delete_account_transactions-IsSound :
    (owner : ℕ) (account : FinancialAccount) (db : Database) (r : ℕ × Database)
    → delete_account_transactions owner account db ≡ ok r
    → IsSound db
    → IsSound r.1
unfolding delete_account_transactions
delete_account_transactions-IsSound owner account db r h s =
    let (_, rest) = raise_if-eq-ok (not (account.owner_id == owner)) account_not_owned _ r h in
    let (_, done) =
      raise_if-eq-ok (any (λ i. i.account.pk == account.pk) db.investments) immutable_investment _ r
        rest in
    let doomed = where_rows (touches owner account db.entries) db.transactions in
    let e = ok-injective _ _ done in
    record {
      valid = delete_account_transactions-IsValid owner account db r h s.valid;
      entry_keys = rw (← e) (All-where_rows_keep _ _ db.entries s.entry_keys);
      trades = rw (← e) s.trades;
      balanced =
          rw (← e) (filtered-IsBalanced (λ pk. not (is_listed doomed pk)) db.entries s.balanced);
    }

module _ ⦃c : Context⦄ where
  create_investment_transaction-IsSound :
      (owner : ℕ) (q : Order) (db : Database) (r : InvestmentTransaction × Database)
      → create_investment_transaction owner q db ≡ ok r
      → IsSound db
      → IsSound r.1
  unfolding insert_transaction insert_entry insert_investment
  create_investment_transaction-IsSound owner q db r h s =
      let p = create_investment_transaction-IsOrdered owner q db r h in
      record {
        valid = create_investment_transaction-IsValid owner q db r h s.valid;
        entry_keys = rw (← p.result) (KeysBelow-snoc db.next_entry db.entries _ refl s.entry_keys);
        trades = create_investment_transaction-IsTrade owner q db r s.trades h;
        balanced = rw (← p.result) (appended-IsBalanced db.entries _ refl s.balanced);
      }

  Step-IsSound : {db db' : Database} → Step db db' → IsSound db → IsSound db'
  Step-IsSound (post owner account amount kind date description notes reference h) s =
      create-IsSound owner account amount kind date description notes reference _ _ h s
  Step-IsSound (move owner source destination amount date description notes h) s =
      create_transfer-IsSound owner source destination amount date description notes _ _ h s
  Step-IsSound (delete owner t h) s = delete_transaction-IsSound owner t _ _ h s
  Step-IsSound (clear owner account h) s = delete_account_transactions-IsSound owner account _ _ h s
  Step-IsSound (trade owner q h) s = create_investment_transaction-IsSound owner q _ _ h s
  Step-IsSound (observe prices rates) s = record {
    valid = record {
      entries_posted = s.valid.entries_posted;
      keys_below = s.valid.keys_below;
      details_below = s.valid.details_below;
    };
    entry_keys = s.entry_keys;
    trades = s.trades;
    balanced = s.balanced;
  }

  -- Every sequence of postings, transfers, deletions, trades and new prices and rates, in any
  -- order, keeps the tables sound. Sound are tables in which every entry refers to a listed
  -- transaction of the owner of its account and is not of zero; the next transaction key is above
  -- the keys of all transactions and trades, and the next entry key above those of all entries; a
  -- quantity that a stored trade gives is positive; and for every transaction the entries that a
  -- transfer wrote sum to zero, so no half of a transfer is ever left.
  pub Reachable-IsSound : {start db : Database} → Reachable start db → IsSound start → IsSound db
  Reachable-IsSound start s = s
  Reachable-IsSound (step r st) s = Step-IsSound st (Reachable-IsSound r s)
