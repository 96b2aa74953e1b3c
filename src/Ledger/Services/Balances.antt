-- ===== src/Ledger/Services/Balances.antt =====
-- The postings of ledger/services.py and the balances of every account, on every date.
use vault.Base.{
  amount_zero, account_not_owned, amount_not_positive, same_account, accounts_not_owned,
  cross_currency, raise_if-eq-ok, raise_if-pass, ne→eqb_ℤ, eqb_ℤ→ne, ok-injective, ℕ, suc, ◌≡◌, ◌≢◌,
  refl, ap, ◌∙◌, Bool, not, ◌&&◌, ◌||◌, ◌↔◌, Option, String, List, [], ◌∷◌, ◌++◌, ◌==◌,
  if◌then◌else◌, where_rows, ◌+ℤ◌, neg, ◌<ℤ◌, leb_ℤ, eqb_ℤ, int_laws, ok, arith, Bool-cases, inl,
  inr, pos_part, neg_part,
}
use vault.Decimal.{Decimal, decimal_zero}
use vault.Accounts.Models.{FinancialAccount}
use vault.Ledger.Models.{
  Transaction, TransactionEntry, TransactionType, of_type, transfer, transfer_out, transfer_in,
}
use vault.Database.{Database}
use vault.Ledger.Services.{
  insert_transaction, insert_entry, new_transaction, new_entry, create, create_transfer,
  on_or_before, counts_for, sum_amounts, account_balance,
}

-- What an entry adds to the balance of an account on a date.
abbrev pub contribution : FinancialAccount → Option ℕ → TransactionEntry → Decimal
contribution account as_of_date e =
    if counts_for account as_of_date e then e.amount else decimal_zero

-- What a posting of an amount to an account adds to a balance.
abbrev pub moved : FinancialAccount → Decimal → ℕ → FinancialAccount → Option ℕ → Decimal
moved account amount date other as_of_date =
    if (account.pk == other.pk) && on_or_before as_of_date date then amount else decimal_zero

pub sum_where_append :
    (p : TransactionEntry → Bool) (es : List TransactionEntry) (e : TransactionEntry)
    → sum_amounts (where_rows p (es ++ e ∷ []))
      ≡ sum_amounts (where_rows p es) +ℤ (if p e then e.amount else decimal_zero)
sum_where_append p [] e = elim (Bool-cases (p e)) [
  | inl h ↦ rw h (omega int_laws)
  | inr h ↦ rw h (omega int_laws)
]
sum_where_append p (x ∷ es) e = elim (Bool-cases (p x)) [
  | inl h ↦ rw h (
      omega
        (int_laws, ap pos_part (sum_where_append p es e), ap neg_part (sum_where_append p es e)))
  | inr h ↦ rw h (sum_where_append p es e)
]

pub balance-insert_entry :
    (account : FinancialAccount) (as_of_date : Option ℕ) (e : TransactionEntry) (db : Database)
    → account_balance account as_of_date (insert_entry e db)
      ≡ account_balance account as_of_date db +ℤ contribution account as_of_date e
unfolding account_balance insert_entry
balance-insert_entry account as_of_date e db =
    sum_where_append (counts_for account as_of_date) db.entries e

pub balance-insert_transaction :
    (account : FinancialAccount) (as_of_date : Option ℕ) (t : Transaction) (db : Database)
    → account_balance account as_of_date (insert_transaction t db)
      ≡ account_balance account as_of_date db
unfolding account_balance insert_transaction
balance-insert_transaction account as_of_date t db = refl

-- The database after a posting that is not refused.
abbrev pub posted :
    ℕ
    → FinancialAccount
    → Decimal
    → TransactionType
    → ℕ
    → String
    → String
    → String
    → Database
    → Transaction × Database
posted owner account amount kind date description notes reference db =
    let t = new_transaction db.next_transaction owner kind date description notes reference in
    (
      t,
      insert_entry (new_entry db.next_entry t account amount (of_type kind))
          (insert_transaction t db),
    )

-- A posting goes through exactly when its amount is not zero and the account is the owner's, and
-- then with the one transaction and entry.
pub create_iff :
    (owner : ℕ) (account : FinancialAccount) (amount : Decimal) (kind : TransactionType) (date : ℕ)
    (description notes reference : String) (db : Database) (r : Transaction × Database)
    → (create owner account amount kind date description notes reference db ≡ ok r) ↔ (
        (amount ≢ decimal_zero)
        × (account.owner_id ≡ owner)
        × (posted owner account amount kind date description notes reference db ≡ r))
unfolding create
create_iff owner account amount kind date description notes reference db r =
    let a = eqb_ℤ amount decimal_zero in
    let b = not (account.owner_id == owner) in
    (
      λ h.
          let (nonzero, rest) = raise_if-eq-ok a amount_zero _ r h in
          let (owned, done) = raise_if-eq-ok b account_not_owned _ r rest in
          (eqb_ℤ→ne amount decimal_zero nonzero, ground arith, ok-injective _ _ done),
      λ h.
          raise_if-pass a amount_zero _ r (ne→eqb_ℤ amount decimal_zero h.0)
            (raise_if-pass b account_not_owned _ r (ground arith) (ap ok h.2)),
    )

-- A posting that goes through moves the balance of its account by exactly its amount, on every date
-- from its own on, and leaves every other balance.
pub balance-create :
    (owner : ℕ) (account : FinancialAccount) (amount : Decimal) (kind : TransactionType) (date : ℕ)
    (description notes reference : String) (db : Database) (r : Transaction × Database)
    → create owner account amount kind date description notes reference db ≡ ok r
    → (other : FinancialAccount) (as_of_date : Option ℕ)
    → account_balance other as_of_date r.1
      ≡ account_balance other as_of_date db +ℤ moved account amount date other as_of_date
balance-create owner account amount kind date description notes reference db r h other as_of_date =
    let (_, _, e) =
      (create_iff owner account amount kind date description notes reference db r).0 h in
    rw (← e) (balance-insert_entry other as_of_date _ _ ∙ rw balance-insert_transaction refl)

-- The database after a transfer that is not refused.
abbrev pub transferred :
    ℕ
    → FinancialAccount
    → FinancialAccount
    → Decimal
    → ℕ
    → String
    → String
    → Database
    → Transaction × Database
transferred owner source destination amount date description notes db =
    let t = new_transaction db.next_transaction owner transfer date description notes "" in
    let out = new_entry db.next_entry t source (neg amount) transfer_out in
    let into = new_entry (suc db.next_entry) t destination amount transfer_in in
    (t, insert_entry into (insert_entry out (insert_transaction t db)))

-- A transfer goes through exactly when the amount is positive, the accounts differ, both are the
-- owner's, and they share a currency; and then with one transaction and its two entries.
pub create_transfer_iff :
    (owner : ℕ) (source destination : FinancialAccount) (amount : Decimal) (date : ℕ)
    (description notes : String) (db : Database) (r : Transaction × Database)
    → (create_transfer owner source destination amount date description notes db ≡ ok r) ↔ (
        (decimal_zero <ℤ amount)
        × (source.pk ≢ destination.pk)
        × (source.owner_id ≡ owner)
        × (destination.owner_id ≡ owner)
        × (source.currency.pk ≡ destination.currency.pk)
        × (transferred owner source destination amount date description notes db ≡ r))
unfolding create_transfer
create_transfer_iff owner source destination amount date description notes db r =
    let a = leb_ℤ amount decimal_zero in
    let b = source.pk == destination.pk in
    let o = not (source.owner_id == owner) || not (destination.owner_id == owner) in
    let d = not (source.currency.pk == destination.currency.pk) in
    (
      λ h.
          let (positive, rest) = raise_if-eq-ok a amount_not_positive _ r h in
          let (differ, rest') = raise_if-eq-ok b same_account _ r rest in
          let (owned, rest'') = raise_if-eq-ok o accounts_not_owned _ r rest' in
          let (same, done) = raise_if-eq-ok d cross_currency _ r rest'' in
          (
            ground arith,
            ground arith,
            ground arith,
            ground arith,
            ground arith,
            ok-injective _ _ done,
          ),
      λ h. raise_if-pass a amount_not_positive _ r (ground arith) (
          raise_if-pass b same_account _ r (ground arith) (
            raise_if-pass o accounts_not_owned _ r (ground arith)
              (raise_if-pass d cross_currency _ r (ground arith) (ap ok h.5)))),
    )

-- A transfer that goes through takes its amount from the source and gives it to the destination, on
-- every date from its own on, and leaves every other balance.
pub balance-create_transfer :
    (owner : ℕ) (source destination : FinancialAccount) (amount : Decimal) (date : ℕ)
    (description notes : String) (db : Database) (r : Transaction × Database)
    → create_transfer owner source destination amount date description notes db ≡ ok r
    → (other : FinancialAccount) (as_of_date : Option ℕ)
    → account_balance other as_of_date r.1
      ≡ account_balance other as_of_date db
        +ℤ moved source (neg amount) date other as_of_date
        +ℤ moved destination amount date other as_of_date
balance-create_transfer owner source destination amount date description notes db r h other
      as_of_date =
    let (_, _, _, _, _, e) =
      (create_transfer_iff owner source destination amount date description notes db r).0 h in
    rw (← e) (
      balance-insert_entry other as_of_date _ _
      ∙ rw balance-insert_entry (rw balance-insert_transaction refl))

-- The entries of all accounts together, up to a date.
abbrev pub ledger_total : Option ℕ → Database → Decimal
ledger_total as_of_date db =
    sum_amounts
      (where_rows (λ e. on_or_before as_of_date e.transaction.transaction_date) db.entries)

-- A transfer that goes through conserves the ledger: the entries of all accounts up to any date sum
-- to what they did before.
pub ledger_total-create_transfer :
    (owner : ℕ) (source destination : FinancialAccount) (amount : Decimal) (date : ℕ)
    (description notes : String) (db : Database) (r : Transaction × Database)
    → create_transfer owner source destination amount date description notes db ≡ ok r
    → (as_of_date : Option ℕ) → ledger_total as_of_date r.1 ≡ ledger_total as_of_date db
unfolding insert_entry insert_transaction
ledger_total-create_transfer owner source destination amount date description notes db r h
      as_of_date =
    let (_, _, _, _, _, e) =
      (create_transfer_iff owner source destination amount date description notes db r).0 h in
    let dated = λ (x : TransactionEntry). on_or_before as_of_date x.transaction.transaction_date in
    rw (← e) (
      sum_where_append dated (db.entries ++ _ ∷ []) _
      ∙ rw (sum_where_append dated db.entries) (elim (Bool-cases (on_or_before as_of_date date)) [
        | inl q ↦ rw q (omega int_laws)
        | inr q ↦ rw q (omega int_laws)
      ]))
