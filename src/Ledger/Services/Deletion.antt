-- ===== src/Ledger/Services/Deletion.antt =====
-- Deletion in ledger/services.py, beside posting and over an account.
use vault.Base.{
  ℕ, suc, ◌<◌, ◌≡◌, ◌≢◌, sym, ◌∙◌, true, false, not, ◌&&◌, String, ◌==◌, where_rows, any, All, Has,
  All_map, All-where_rows_keep, All-where_rows_test, Has-where_rows_keep, any-false, any-true,
  at_member, All_zip, All_members, ap₂, where_rows-snoc, ok, raise_if-eq-ok, raise_if-pass,
  ok-injective, transaction_not_owned, immutable_investment, account_not_owned, arith,
}
use vault.Decimal.{Decimal}
use vault.Accounts.Models.{FinancialAccount}
use vault.Ledger.Models.{Transaction, TransactionEntry, TransactionType}
use vault.Database.{Database}
use vault.Ledger.Services.{
  insert_transaction, insert_entry, create, delete_transaction, delete_account_transactions,
  touches, is_listed,
}
use vault.Ledger.Services.Balances.{create_iff}
use vault.Ledger.Services.Validity.{IsPosted, IsValid}

-- The key of a listed transaction is not the next key.
key_ne : (pk next : ℕ) → pk < next → not (pk == next) ≡ true
key_ne pk next h = ground arith

key_eq : (pk : ℕ) → not (pk == pk) ≡ false
key_eq pk = ground arith

entry_key :
    (db : Database) (e : TransactionEntry)
    → All (λ t. t.pk < db.next_transaction) db.transactions
    → IsPosted db.transactions e
    → not (e.transaction.pk == db.next_transaction) ≡ true
entry_key db e h p =
    key_ne e.transaction.pk db.next_transaction
      (at_member (λ t. t.pk < db.next_transaction) db.transactions e.transaction h p.listed)

-- Where the tables are valid, deleting what was just posted restores every table; only the next
-- keys have moved on.
pub delete_transaction-create :
    (owner : ℕ) (account : FinancialAccount) (amount : Decimal) (kind : TransactionType) (date : ℕ)
    (description notes reference : String) (db : Database) (r : Transaction × Database)
    → IsValid db
    → create owner account amount kind date description notes reference db ≡ ok r
    → delete_transaction owner r.0 r.1
      ≡ ok
          (record db { next_transaction = suc db.next_transaction; next_entry = suc db.next_entry })
unfolding delete_transaction insert_transaction insert_entry
delete_transaction-create owner account amount kind date description notes reference db r v h =
    let (_, _, e) =
      (create_iff owner account amount kind date description notes reference db r).0 h in
    let next = db.next_transaction in
    rw (← e) (
      raise_if-pass (not (owner == owner)) transaction_not_owned _ _ (key_eq owner) (
        raise_if-pass (any (λ i. i.transaction.pk == next) db.investments) immutable_investment _ _
          (any-false _ db.investments
            (All_map _ _ db.investments (λ i b. ground arith) v.details_below))
          (ap₂
            (λ ts es. ok (record db {
              transactions = ts;
              entries = es;
              next_transaction = suc next;
              next_entry = suc db.next_entry;
            }))
            (where_rows-snoc (λ t. not (t.pk == next)) db.transactions _
              (All_map _ _ db.transactions (λ t b. key_ne t.pk next b) v.keys_below) (key_eq next))
            (where_rows-snoc (λ x. not (x.transaction.pk == next)) db.entries _
              (All_map _ _ db.entries (λ x p. entry_key db x v.keys_below p) v.entries_posted)
              (key_eq next)))))

-- A transaction that an entry on the account belongs to is among the deleted.
touched :
    (owner : ℕ) (account : FinancialAccount) (db : Database) (e : TransactionEntry)
    → account.owner_id ≡ owner
    → (e.account.pk ≡ account.pk → e.account.owner_id ≡ account.owner_id)
    → IsPosted db.transactions e
    → Has (λ x. x ≡ e) db.entries
    → not
        (is_listed (where_rows (touches owner account db.entries) db.transactions) e.transaction.pk)
      ≡ true
    → e.account.pk ≢ account.pk
touched owner account db e owned row p member kept same =
    let hit =
      any-true (λ x. (x.transaction.pk == e.transaction.pk) && (x.account.pk == account.pk))
        db.entries e (ground arith) member in
    let owns : e.transaction.owner_id ≡ owner = sym p.owned ∙ row same ∙ owned in
    let doomed =
      Has-where_rows_keep (touches owner account db.entries) db.transactions e.transaction
        (rw hit (ground arith)) p.listed in
    let found = any-true (λ t. t.pk == e.transaction.pk) _ e.transaction (ground arith) doomed in
    cc (rw found at kept)

-- Where the tables are valid and the entries under the account's key carry the account's owner, no
-- entry is left on an account after its transactions are deleted.
pub delete_account_transactions_clears :
    (owner : ℕ) (account : FinancialAccount) (db : Database) (r : ℕ × Database)
    → IsValid db
    → All (λ e. e.account.pk ≡ account.pk → e.account.owner_id ≡ account.owner_id) db.entries
    → delete_account_transactions owner account db ≡ ok r
    → All (λ e. e.account.pk ≢ account.pk) r.1.entries
unfolding delete_account_transactions
delete_account_transactions_clears owner account db r v rows h =
    let (owned, rest) = raise_if-eq-ok (not (account.owner_id == owner)) account_not_owned _ r h in
    let (_, done) =
      raise_if-eq-ok (any (λ i. i.account.pk == account.pk) db.investments) immutable_investment _ r
        rest in
    let keep = λ (e : TransactionEntry). not (
      is_listed (where_rows (touches owner account db.entries) db.transactions) e.transaction.pk) in
    let facts =
      All_zip _ _ db.entries v.entries_posted
        (All_zip _ _ db.entries rows (All_members db.entries)) in
    rw (← ok-injective _ _ done) (
      All_map _ _ (where_rows keep db.entries)
        (λ e k. touched owner account db e (ground arith) k.0.1.0 k.0.0 k.0.1.1 k.1)
        (All_zip _ _ (where_rows keep db.entries) (All-where_rows_keep _ keep db.entries facts)
          (All-where_rows_test keep db.entries)))
