-- ===== src/Ledger/Services/Validity.antt =====
-- The invariant of the tables that ledger/services.py writes.
use vault.Base.{
  ℕ, ◌<◌, ◌≡◌, ◌≢◌, refl, Bool, true, not, ◌&&◌, String, List, [], ◌∷◌, ◌++◌, ◌==◌, where_rows, any,
  All, Has, All-snoc, Has-snoc, Has-last, All_map, All-where_rows_keep, All-where_rows_test,
  Has-where_rows_keep, ok, raise_if-eq-ok, ok-injective, ne-zero_of_pos, neg-ne-zero_of_pos,
  transaction_not_owned, immutable_investment, account_not_owned, arith,
}
use vault.Decimal.{Decimal, decimal_zero}
use vault.Accounts.Models.{FinancialAccount}
use vault.Ledger.Models.{Transaction, TransactionEntry, TransactionType}
use vault.Database.{Database}
use vault.Ledger.Services.{
  insert_transaction, insert_entry, create, create_transfer, delete_transaction,
  delete_account_transactions, of_transaction, has_detail, touches, is_listed,
}
use vault.Ledger.Services.Balances.{create_iff, create_transfer_iff}

-- An entry refers to a listed transaction, of the owner of its account, and is not of zero.
pub record IsPosted (transactions : List Transaction) (e : TransactionEntry) : Type 0 where
  pub listed : Has (λ t. t ≡ e.transaction) transactions
  pub nonzero : e.amount ≢ decimal_zero
  pub owned : e.account.owner_id ≡ e.transaction.owner_id

-- No entry dangles, and the next key is above every key in use.
pub record IsValid (db : Database) : Type 0 where
  pub entries_posted : All (IsPosted db.transactions) db.entries
  pub keys_below : All (λ t. t.pk < db.next_transaction) db.transactions
  pub details_below : All (λ i. i.transaction.pk < db.next_transaction) db.investments

IsPosted-snoc :
    (ts : List Transaction) (t : Transaction) (es : List TransactionEntry)
    → All (IsPosted ts) es
    → All (IsPosted (ts ++ t ∷ [])) es
IsPosted-snoc ts t es h =
    All_map (IsPosted ts) (IsPosted (ts ++ t ∷ [])) es
      (λ e p. record {
        listed = Has-snoc (λ x. x ≡ e.transaction) ts t p.listed;
        nonzero = p.nonzero;
        owned = p.owned;
      })
      h

-- The new transaction is listed by the time its entry is.
pub insert_transaction-IsValid :
    (t : Transaction) (db : Database)
    → t.pk ≡ db.next_transaction
    → IsValid db
    → IsValid (insert_transaction t db)
unfolding insert_transaction
insert_transaction-IsValid t db e v = record {
  entries_posted = IsPosted-snoc db.transactions t db.entries v.entries_posted;
  keys_below =
      All-snoc _ db.transactions t (All_map _ _ db.transactions (λ x h. omega arith) v.keys_below)
        (omega arith);
  details_below = All_map _ _ db.investments (λ x h. omega arith) v.details_below;
}

pub insert_entry-IsValid :
    (e : TransactionEntry) (db : Database)
    → IsPosted db.transactions e
    → IsValid db
    → IsValid (insert_entry e db)
unfolding insert_entry
insert_entry-IsValid e db p v = record {
  entries_posted = All-snoc _ db.entries e v.entries_posted p;
  keys_below = v.keys_below;
  details_below = v.details_below;
}

-- A posting that goes through keeps the tables valid: every entry refers to a listed transaction of
-- the owner of its account and is not of zero, and every key of a transaction in use is below the
-- next one.
pub create-IsValid :
    (owner : ℕ) (account : FinancialAccount) (amount : Decimal) (kind : TransactionType) (date : ℕ)
    (description notes reference : String) (db : Database) (r : Transaction × Database)
    → create owner account amount kind date description notes reference db ≡ ok r
    → IsValid db
    → IsValid r.1
unfolding insert_transaction insert_entry
create-IsValid owner account amount kind date description notes reference db r h v =
    let (nonzero, owned, e) =
      (create_iff owner account amount kind date description notes reference db r).0 h in
    rw (← e) (
      insert_entry-IsValid _ _
        (record { listed = Has-last _ db.transactions _ refl; nonzero = nonzero; owned = owned })
        (insert_transaction-IsValid _ db refl v))

-- A transfer that goes through keeps the tables valid.
pub create_transfer-IsValid :
    (owner : ℕ) (source destination : FinancialAccount) (amount : Decimal) (date : ℕ)
    (description notes : String) (db : Database) (r : Transaction × Database)
    → create_transfer owner source destination amount date description notes db ≡ ok r
    → IsValid db
    → IsValid r.1
unfolding insert_transaction insert_entry
create_transfer-IsValid owner source destination amount date description notes db r h v =
    let (positive, _, source_owned, destination_owned, _, e) =
      (create_transfer_iff owner source destination amount date description notes db r).0 h in
    rw (← e) (
      insert_entry-IsValid _ _
        (record {
          listed = Has-last _ db.transactions _ refl;
          nonzero = ne-zero_of_pos amount positive;
          owned = destination_owned;
        })
        (insert_entry-IsValid _ _
          (record {
            listed = Has-last _ db.transactions _ refl;
            nonzero = neg-ne-zero_of_pos amount positive;
            owned = source_owned;
          })
          (insert_transaction-IsValid _ db refl v)))

-- Rows that do not refer to a deleted transaction may stay.
kept_IsPosted :
    (keep : Transaction → Bool) (ts : List Transaction) (es : List TransactionEntry)
    → All (IsPosted ts) es
    → All (λ e. keep e.transaction ≡ true) es
    → All (IsPosted (where_rows keep ts)) es
kept_IsPosted keep ts [] h k = tt
kept_IsPosted keep ts (e ∷ es) h k = (
  record {
    listed = Has-where_rows_keep keep ts e.transaction k.0 h.0.listed;
    nonzero = h.0.nonzero;
    owned = h.0.owned;
  },
  kept_IsPosted keep ts es h.1 k.1,
)

not_and : (a b : Bool) → not a ≡ true → not (a && b) ≡ true
not_and a b h = ground arith

-- A deletion that goes through keeps the tables valid: the entries go with their transaction.
pub delete_transaction-IsValid :
    (owner : ℕ) (t : Transaction) (db db' : Database)
    → delete_transaction owner t db ≡ ok db'
    → IsValid db
    → IsValid db'
unfolding delete_transaction
delete_transaction-IsValid owner t db db' h v =
    let (_, rest) = raise_if-eq-ok (not (t.owner_id == owner)) transaction_not_owned _ db' h in
    let (_, done) = raise_if-eq-ok (has_detail t db.investments) immutable_investment _ db' rest in
    let keep = λ (x : Transaction). not (x.pk == t.pk) in
    let keep_entry = λ (e : TransactionEntry). not (of_transaction t e) in
    rw (← ok-injective _ _ done) (record {
      entries_posted =
          kept_IsPosted keep db.transactions (where_rows keep_entry db.entries)
            (All-where_rows_keep _ keep_entry db.entries v.entries_posted)
            (All-where_rows_test keep_entry db.entries);
      keys_below = All-where_rows_keep _ keep db.transactions v.keys_below;
      details_below = v.details_below;
    })

-- Deleting the transactions of an account, if it goes through, keeps the tables valid.
pub delete_account_transactions-IsValid :
    (owner : ℕ) (account : FinancialAccount) (db : Database) (r : ℕ × Database)
    → delete_account_transactions owner account db ≡ ok r
    → IsValid db
    → IsValid r.1
unfolding delete_account_transactions
delete_account_transactions-IsValid owner account db r h v =
    let (_, rest) = raise_if-eq-ok (not (account.owner_id == owner)) account_not_owned _ r h in
    let (_, done) =
      raise_if-eq-ok (any (λ i. i.account.pk == account.pk) db.investments) immutable_investment _ r
        rest in
    let doomed = where_rows (touches owner account db.entries) db.transactions in
    let keep = λ (t : Transaction). not (is_listed doomed t.pk && (t.owner_id == owner)) in
    let keep_entry = λ (e : TransactionEntry). not (is_listed doomed e.transaction.pk) in
    rw (← ok-injective _ _ done) (record {
      entries_posted =
          kept_IsPosted keep db.transactions (where_rows keep_entry db.entries)
            (All-where_rows_keep _ keep_entry db.entries v.entries_posted)
            (All_map _ _ (where_rows keep_entry db.entries) (λ e k. not_and _ _ k)
              (All-where_rows_test keep_entry db.entries));
      keys_below = All-where_rows_keep _ keep db.transactions v.keys_below;
      details_below = v.details_below;
    })
