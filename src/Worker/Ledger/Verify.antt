-- ===== src/Worker/Ledger/Verify.antt =====
-- Reconciliation: the job reports exactly the accounts whose ledger disagrees with their balance.
use financial_data_platform.Prelude.{ℕ, ◌≡◌, ◌≢◌, some, none, ok, arith}
use financial_data_platform.Prelude.Int.{ℤ, eq_of_parts}
use financial_data_platform.Prelude.Table.{find, set, find-set_self}
use financial_data_platform.Store.Tables.{AccountRow, Db}
use financial_data_platform.Worker.Ledger.{verify_account_balance}
use financial_data_platform.Worker.Ledger.Books.{Books}

-- Over books that balance the comparison reports nothing, for every account that exists.
pub verify_account_balance-Books :
    (id : ℕ) (a : AccountRow) (db : Db)
    → Books db
    → find id db.accounts ≡ some a
    → verify_account_balance id db ≡ ok none
unfolding verify_account_balance
verify_account_balance-Books id a db books found = ground (arith, books.balanced id a found)

-- A row whose balance somebody changed.
abbrev pub drifted : ℕ → AccountRow → ℤ → Db → Db
drifted id a balance db = record db {
  accounts = set id (record a { balance = balance }) db.accounts;
}

-- Over books that balance, a balance that is changed afterwards is reported, with the ledger's.
pub verify_account_balance-drifted :
    (id : ℕ) (a : AccountRow) (balance : ℤ) (db : Db)
    → Books db
    → find id db.accounts ≡ some a
    → balance ≢ a.balance
    → verify_account_balance id (drifted id a balance db) ≡ ok (some (a.balance, balance))
unfolding verify_account_balance
verify_account_balance-drifted id a balance db books found ne =
    let there = find-set_self id (record a { balance = balance }) a db.accounts found in
    ground (arith, there, books.balanced id a found, eq_of_parts a.balance balance)
