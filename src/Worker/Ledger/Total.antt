-- ===== src/Worker/Ledger/Total.antt =====
-- The money in the platform: the sum of all balances, and how a posting moves it.
use financial_data_platform.Prelude.{ℕ, ◌≡◌, some}
use financial_data_platform.Prelude.Int.{ℤ, ◌+ℤ◌, ◌-ℤ◌, int_laws}
use financial_data_platform.Prelude.Sum.{summed, summed-set}
use financial_data_platform.Prelude.Table.{Table}
use financial_data_platform.Store.Tables.{AccountRow, EntryType, debit_entry, credit_entry, Db}
use financial_data_platform.Worker.Postings.{with_balance}
use financial_data_platform.Worker.Postings.Spec.{post, post-eq-some, moved}

abbrev pub total : Table AccountRow → ℤ
total = summed (λ a. a.balance)

-- A debit lowers the sum by its amount, a credit raises it.
abbrev pub shifted : EntryType → ℤ → ℤ → ℤ
shifted debit_entry amount sum = sum -ℤ amount
shifted credit_entry amount sum = sum +ℤ amount

pub total-post :
    (now transaction_id : ℕ) (kind : EntryType) (id : ℕ) (amount : ℤ) (db : Db) {db' : Db}
    → post now transaction_id kind id amount db ≡ some db'
    → total db'.accounts ≡ shifted kind amount (total db.accounts)
total-post now transaction_id kind id amount db e =
    let (a, found, _, _, same) = post-eq-some now transaction_id kind id amount db e in
    rw same (
      moves kind a.balance amount _ _ (
        summed-set (λ r. r.balance) id (with_balance (moved kind a.balance amount) now a) a
          db.accounts found))
  where
    moves :
        (kind : EntryType) (b amount after before : ℤ)
        → after +ℤ b ≡ before +ℤ moved kind b amount
        → after ≡ shifted kind amount before
    moves debit_entry b amount after before h = grind int_laws
    moves credit_entry b amount after before h = grind int_laws
