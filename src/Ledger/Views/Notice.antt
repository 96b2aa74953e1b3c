-- ===== src/Ledger/Views/Notice.antt =====
-- The page of ledger/views.py that asks before an account's transactions are deleted, and the deletion.
use vault.Base.{
  ℕ, ◌≡◌, ◌≢◌, refl, ap, sym, subst, ◌∙◌, Bool, true, false, not, ◌&&◌, Option, List, [], ◌∷◌, ◌==◌,
  where_rows, any, any-none, All, All_map, Bool-cases, inl, inr, arith, ok, ok-injective, >>=-eq-ok,
  raise_if-eq-ok, account_not_owned, immutable_investment, ◌+ℤ◌, length,
}
use vault.Decimal.{Decimal}
use vault.Accounts.Models.{FinancialAccount}
use vault.Accounts.Views.{Books, get_account}
use vault.Ledger.Models.{TransactionEntry}
use vault.Ledger.Services.{
  sum_amounts, counts_for, account_balance, delete_account_transactions, touches, is_listed,
}
use vault.Ledger.Views.{DeletionNotice, deletion_notice, delete_account_transactions_view}
use vault.Database.{Database}

-- A filter that keeps all the rows that a sum is over.
sum_where_kept :
    (p keep : TransactionEntry → Bool) (es : List TransactionEntry)
    → All (λ e. p e ≡ true → keep e ≡ true) es
    → sum_amounts (where_rows p (where_rows keep es)) ≡ sum_amounts (where_rows p es)
sum_where_kept p keep [] h = refl
sum_where_kept p keep (e ∷ es) h =
    let rest = sum_where_kept p keep es h.1 in
    elim (Bool-cases (p e)) [
      | inl q ↦ rw (h.0 q, q) (ap (λ (x : Decimal). e.amount +ℤ x) rest)
      | inr q ↦ elim (Bool-cases (keep e)) [ inl k ↦ rw (k, q) rest | inr k ↦ rw (k, q) rest ]
    ]

-- An entry on another account is not among those that go.
stays :
    (listed other_date : Bool) (e_pk account_pk other_pk : ℕ)
    → other_pk ≢ account_pk
    → (listed && not (e_pk == account_pk)) ≡ false
    → ((e_pk == other_pk) && other_date) ≡ true
    → not listed ≡ true
stays listed other_date e_pk account_pk other_pk h k p = ground arith

-- What the page says holds of the deletion that follows.
pub record IsTrue (pk : ℕ) (notice : DeletionNotice) (db : Database) (r : ℕ × Database)
    : Type 0 where
  pub count : r.0 ≡ notice.transaction_count
  pub others :
      notice.affects_other_accounts ≡ false
      → (other : FinancialAccount) (as_of_date : Option ℕ) → other.pk ≢ pk
      → account_balance other as_of_date r.1 ≡ account_balance other as_of_date db

delete_account_transactions-IsTrue :
    (user : ℕ) (account : FinancialAccount) (db : Database) (r : ℕ × Database)
    → delete_account_transactions user account db ≡ ok r
    → IsTrue account.pk
        (record {
          transaction_count = length (where_rows (touches user account db.entries) db.transactions);
          affects_other_accounts =
              any
                (λ e.
                  is_listed
                    (where_rows (touches user account db.entries) db.transactions)
                    e.transaction.pk
                  && not (e.account.pk == account.pk))
                db.entries;
        })
        db
        r
unfolding delete_account_transactions account_balance
delete_account_transactions-IsTrue user account db r h =
    let (_, rest) = raise_if-eq-ok (not (account.owner_id == user)) account_not_owned _ r h in
    let (_, done) =
      raise_if-eq-ok (any (λ i. i.account.pk == account.pk) db.investments) immutable_investment _ r
        rest in
    let doomed = where_rows (touches user account db.entries) db.transactions in
    let keep = λ (e : TransactionEntry). not (is_listed doomed e.transaction.pk) in
    subst (IsTrue account.pk _ db) (ok-injective _ _ done) (record {
      count = refl;
      others = λ quiet other as_of_date differs.
          sum_where_kept (counts_for other as_of_date) keep db.entries (
            All_map _ _ db.entries
              (λ e k p.
                stays (is_listed doomed e.transaction.pk) _ e.account.pk account.pk other.pk differs
                  k p)
              (any-none _ db.entries quiet));
    })

-- What the page says before an account's transactions are deleted is true of a deletion that then
-- succeeds: it deletes as many transactions as the page counts, and if the page says that no other
-- account is affected, the balance of every other account stays as it is on every date.
pub deletion_notice-IsTrue :
    (user pk : ℕ) (books : Books) (notice : DeletionNotice) (r : ℕ × Database)
    → deletion_notice user pk books ≡ ok notice
    → delete_account_transactions_view user pk books ≡ ok r
    → (account : FinancialAccount) × (get_account user pk books ≡ ok account)
      × IsTrue account.pk notice books.ledger r
unfolding deletion_notice delete_account_transactions_view
deletion_notice-IsTrue user pk books notice r h k =
    let (account, a, shown) = >>=-eq-ok (get_account user pk books) _ h in
    let (account', a', done) = >>=-eq-ok (get_account user pk books) _ k in
    let same : account' ≡ account = ok-injective _ _ (sym a' ∙ a) in
    (
      account,
      a,
      subst (λ (n : DeletionNotice). IsTrue account.pk n books.ledger r) (ok-injective _ _ shown)
          (delete_account_transactions-IsTrue user account books.ledger r (
            subst (λ (x : FinancialAccount). delete_account_transactions user x books.ledger ≡ ok r)
              same done)),
    )
