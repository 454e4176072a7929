-- ===== src/Worker/Ledger.antt =====
-- crates/worker/src/ledger.rs: the balance that the ledger gives an account, and its comparison with
-- the account's row.
pub mod Books
pub mod Total
pub mod Operations
pub mod Conserve
pub mod Verify
use financial_data_platform.Prelude.{
  ℕ, Bool, not, ◌&&◌, Option, none, some, List, [], ◌∷◌, Result, ok, err, ◌==◌, if◌then◌else◌,
}
use financial_data_platform.Prelude.Int.{ℤ, pos, ◌+ℤ◌, ◌-ℤ◌, leb_ℤ}
use financial_data_platform.Prelude.Table.{find}
use financial_data_platform.Shared.Error.{SqlError, row_not_found}
use financial_data_platform.Store.Tables.{EntryType, debit_entry, credit_entry, LedgerRow, Db}

-- `entry_type = 'CREDIT'` adds the amount, anything else takes it away.
abbrev pub entry_effect : EntryType → ℤ → ℤ → ℤ
entry_effect credit_entry amount rest = rest +ℤ amount
entry_effect debit_entry amount rest = rest -ℤ amount

-- The SUM over the entries of an account; no entry gives zero, as `unwrap_or(Decimal::ZERO)` does.
unfoldable pub ledger_balance : ℕ → List LedgerRow → ℤ
ledger_balance id [] = pos 0
ledger_balance id (e ∷ es) =
    let rest = ledger_balance id es in
    if e.account_id == id then entry_effect e.entry_type e.amount rest else rest

abbrev equal_ℤ : ℤ → ℤ → Bool
equal_ℤ a b = leb_ℤ a b && leb_ℤ b a

-- `verify_account_balance`, by `fetch_one`: no account, no row.
unfoldable pub verify_account_balance : ℕ → Db → Result SqlError (Option (ℤ × ℤ))
verify_account_balance id db = elim (find id db.accounts) [
  | none ↦ err row_not_found
  | some a ↦
      let ledger = ledger_balance id db.ledger_entries in
      if not (equal_ℤ ledger a.balance) then ok (some (ledger, a.balance)) else ok none
]
