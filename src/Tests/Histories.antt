-- ===== src/Tests/Histories.antt =====
-- A history of the ledger.
use vault.Base.{◌≡◌, refl, pos, true, [], ◌∷◌, ok}
use vault.Ledger.Models.{deposit}
use vault.Ledger.History.{Reachable, start, step, post, move, delete, IsSound, Reachable-IsSound}
use vault.Tests.Data.{decimal_context, checking, savings, empty_database}
use vault.Tests.Posting.{
  moved_on, transfer_deleted, deposit_passes, transfer_passes, deletion_passes, empty-IsValid,
  account_cleared,
}
use vault.Ledger.Services.{insert_transaction, insert_entry}
use vault.Accounts.Models.{FinancialAccount}
use vault.Accounts.Views.{Books, get_account}
use vault.Ledger.Views.{DeletionNotice, deletion_notice, delete_account_transactions_view}
use vault.Ledger.Views.Notice.{IsTrue, deletion_notice-IsTrue}

-- A deposit, a transfer, and the deletion of the transfer.
deleted_again : Reachable empty_database transfer_deleted
deleted_again =
    step
      (step (step start (post 7 checking (pos 5000) deposit 5 "Salary" "" "" deposit_passes))
        (move 7 checking savings (pos 2000) 6 "Save" "" transfer_passes))
      (delete 7 moved_on.0 deletion_passes)

empty-IsSound : IsSound empty_database
empty-IsSound = record {
  valid = empty-IsValid;
  entry_keys = tt;
  trades = tt;
  balanced = λ pk. refl;
}

Reachable-IsSound_example : IsSound transfer_deleted
Reachable-IsSound_example = Reachable-IsSound deleted_again empty-IsSound

-- The page before the deletion of the checking account's transactions, one of which is a transfer.
abbrev books_moved_on : Books
books_moved_on = record {
  accounts = checking ∷ savings ∷ [];
  contracts = [];
  next_account = 3;
  ledger = moved_on.1;
}

abbrev warning : DeletionNotice
warning = record { transaction_count = 2; affects_other_accounts = true }

warning_shown : deletion_notice 7 1 books_moved_on ≡ ok warning
unfolding deletion_notice insert_transaction insert_entry
warning_shown = refl

clearing_through_view : delete_account_transactions_view 7 1 books_moved_on ≡ ok account_cleared
unfolding delete_account_transactions_view insert_transaction insert_entry
clearing_through_view = refl

deletion_notice-IsTrue_example :
    (account : FinancialAccount) × (get_account 7 1 books_moved_on ≡ ok account)
    × IsTrue account.pk warning moved_on.1 account_cleared
deletion_notice-IsTrue_example =
    deletion_notice-IsTrue 7 1 books_moved_on warning account_cleared warning_shown
      clearing_through_view
