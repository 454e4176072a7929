-- ===== src/Store/Statements.antt =====
-- SQL statements on the tables, with the checks of migrations/001_initial_schema.sql: each one is a
-- function from the working copy to its answer and the new copy, or the error that it raises.
use financial_data_platform.Prelude.{
  ℕ, ◌+◌, ◌-◌, ◌^◌, ⊤, Bool, true, false, Option, none, some, List, [], ◌∷◌, ◌&&◌, not, Result, ok,
  err, ltb, leb, ◌==◌, if◌then◌else◌,
}
use financial_data_platform.Prelude.Int.{ℤ, pos, leb_ℤ, ltb_ℤ}
use financial_data_platform.Prelude.Table.{find, set}
use financial_data_platform.Shared.Error.{SqlError, database}
use financial_data_platform.Shared.Domain.{max_i64}
use financial_data_platform.Store.Tables.{AccountRow, TransactionRow, LedgerRow, AuditRow, Db}

abbrev pub Statement : Type 0 → Type 0
Statement A = Db → Result SqlError (A × Db)

-- NUMERIC(19,4), for a value that is not negative: fifteen digits before the point, four behind.
abbrev pub numeric_max : ℕ
numeric_max = 10 ^ 19

abbrev pub fits_numeric : ℤ → Bool
fits_numeric a = ltb_ℤ a (pos numeric_max)

-- INT
abbrev pub max_i32 : ℕ
max_i32 = 2 ^ 31 - 1

-- BIGINT and NUMERIC columns in range, and `accounts_balance_non_negative`.
abbrev pub account_fits : AccountRow → Bool
account_fits a = leb_ℤ (pos 0) a.balance && fits_numeric a.balance && leb a.version max_i64

abbrev pub transaction_fits : TransactionRow → Bool
transaction_fits t = leb t.version max_i64 && leb t.retry_count max_i32

unfoldable pub select_account : ℕ → Statement (Option AccountRow)
select_account id db = ok (find id db.accounts, db)

unfoldable pub select_transaction : ℕ → Statement (Option TransactionRow)
select_transaction id db = ok (find id db.transactions, db)

-- `UPDATE accounts SET … WHERE id = … AND …`; the answer is `rows_affected`.
unfoldable pub update_account : ℕ → (AccountRow → Bool) → (AccountRow → AccountRow) → Statement ℕ
update_account id where_clause f db = elim (find id db.accounts) [
  | none ↦ ok (0, db)
  | some a ↦
      if where_clause a
      then if account_fits (f a)
        then ok (1, record db { accounts = set id (f a) db.accounts })
        else err (database "new row for accounts out of range")
      else ok (0, db)
]

-- `UPDATE transactions SET … WHERE id = … AND …`
unfoldable pub update_transaction :
    ℕ → (TransactionRow → Bool) → (TransactionRow → TransactionRow) → Statement ℕ
update_transaction id where_clause f db = elim (find id db.transactions) [
  | none ↦ ok (0, db)
  | some t ↦
      if where_clause t
      then if transaction_fits (f t)
        then ok (1, record db { transactions = set id (f t) db.transactions })
        else err (database "new row for transactions out of range")
      else ok (0, db)
]

-- `COALESCE(MAX(sequence_num), 0)` over the entries of an account.
unfoldable pub max_sequence : ℕ → List LedgerRow → ℕ
max_sequence id [] = 0
max_sequence id (e ∷ es) =
    let rest = max_sequence id es in
    if e.account_id == id then (if ltb rest e.sequence_num then e.sequence_num else rest) else rest

unfoldable pub select_next_sequence : ℕ → Statement ℕ
select_next_sequence id db = ok (max_sequence id db.ledger_entries + 1, db)

-- `idx_ledger_sequence`: is the account's sequence number taken?
unfoldable pub sequence_taken : ℕ → ℕ → List LedgerRow → Bool
sequence_taken id n [] = false
sequence_taken id n (e ∷ es) =
    let rest = sequence_taken id n es in
    if (e.account_id == id) && (e.sequence_num == n) then true else rest

-- `INSERT INTO ledger_entries … SELECT … FROM accounts a WHERE a.id = …`: no account, no row. The
-- row is made from the account's; its amount must be positive and its two amounts in range. The
-- `sequence_num` is a number without the bound of BIGINT, which an account meets after 2^63 entries.
unfoldable pub insert_ledger_entry : ℕ → (AccountRow → LedgerRow) → Statement ⊤
insert_ledger_entry id row db = elim (find id db.accounts) [
  | none ↦ ok (tt, db)
  | some a ↦
      let e = row a in
      if ltb_ℤ (pos 0) e.amount
        && fits_numeric e.amount
        && fits_numeric e.running_balance
        && not (sequence_taken e.account_id e.sequence_num db.ledger_entries)
      then ok (tt, record db { ledger_entries = e ∷ db.ledger_entries })
      else err (database "new row for ledger_entries violates a constraint")
]

unfoldable pub insert_audit : AuditRow → Statement ⊤
insert_audit row db = ok (tt, record db { audit_log = row ∷ db.audit_log })
