-- ===== src/Worker/Postings.antt =====
-- The business logic of crates/worker/src/processor.rs: a transfer, a credit and a debit inside the
-- open transaction, and the rows that they write to the ledger and the audit log.
pub mod Spec
pub mod Steps
pub mod Refine
pub mod Frame
pub mod Undisturbed
pub mod Succeed
pub mod Locks
use financial_data_platform.Prelude.{
  ℕ, ◌+◌, ⊤, Bool, true, false, not, String, Option, none, some, ok_or, leb, ◌==◌, if◌then◌else◌,
}
use financial_data_platform.Prelude.Int.{ℤ, ◌+ℤ◌, ◌-ℤ◌, ltb_ℤ}
use financial_data_platform.Shared.Error.{row_not_found, account_inactive, insufficient_funds}
use financial_data_platform.Shared.Domain.{failed}
use financial_data_platform.Shared.Audit.{record_audit}
use financial_data_platform.Store.Tables.{
  AccountRow, TransactionRow, EntryType, debit_entry, credit_entry, settled_state, failed_state,
}
use financial_data_platform.Store.Session.{
  Env, M, pure, throw, lift, ◌>>=◌, ◌>>◌, lock_account, execute,
}
use financial_data_platform.Store.Statements.{
  Statement, select_account, update_account, update_transaction, select_next_sequence,
  insert_ledger_entry,
}
use financial_data_platform.Worker.Error.{ProcessError, domain, database, permanent}

abbrev pub Process : Type 0 → Type 0
Process = M ProcessError

abbrev pub fail_if : Bool → ProcessError → Process ⊤
fail_if true e = throw e
fail_if false e = pure tt

-- `UPDATE accounts SET balance = …, version = version + 1, updated_at = NOW()`
abbrev pub with_balance : ℤ → ℕ → AccountRow → AccountRow
with_balance b now a = record a { balance = b; version = a.version + 1; updated_at = now }

module _ (env : Env) where
  abbrev pub run : {A : Type 0} → Statement A → Process A
  run = execute database env

  -- `SELECT … FROM accounts WHERE id = … FOR UPDATE`, by `fetch_one`.
  unfoldable pub fetch_account : ℕ → Process AccountRow
  fetch_account id = do
    row ← run (select_account id)
    a ← lift (ok_or row (database row_not_found))
    lock_account id
    pure a

  unfoldable pub write_ledger_entry :
      (transaction_id account_id : ℕ) → EntryType → (amount running_balance : ℤ) → Process ⊤
  write_ledger_entry transaction_id account_id entry_type amount running_balance = do
    seq ← run (select_next_sequence account_id)
    run (
        insert_ledger_entry account_id (λ a. record {
          transaction_id = transaction_id;
          account_id = account_id;
          entry_type = entry_type;
          amount = amount;
          currency = a.currency;
          running_balance = running_balance;
          posted_at = env.now;
          sequence_num = seq;
        }))

  -- The audit row that closes each of the three operations.
  abbrev pub audit_settled : ℕ → String → ℤ → Option ℕ → Option ℕ → ℕ → Process ⊤
  audit_settled transaction_id type amount source dest =
      record_audit database env "Transaction" transaction_id "SETTLED" none
        (settled_state type amount source dest) "worker" "WORKER"

  -- A transfer between two locked rows: the checks, the two updates, the two ledger entries.
  unfoldable pub move_funds :
      (transaction_id : ℕ)
      → (amount : ℤ) → (source_id dest_id : ℕ) → (s d : AccountRow) → (correlation_id : ℕ)
      → Process ⊤
  move_funds transaction_id amount source_id dest_id s d correlation_id = do
    fail_if (not s.is_active) (domain (account_inactive source_id))
    fail_if (ltb_ℤ s.balance amount) (
        domain
          (insufficient_funds source_id (env.render.decimal amount) (env.render.decimal s.balance)))
    fail_if (not d.is_active) (domain (account_inactive dest_id))
    let new_source_balance = s.balance -ℤ amount
    let new_dest_balance = d.balance +ℤ amount
    run (
        update_account source_id (λ a. a.version == s.version)
          (with_balance new_source_balance env.now))
    run (
        update_account dest_id (λ a. a.version == d.version)
          (with_balance new_dest_balance env.now))
    write_ledger_entry transaction_id source_id debit_entry amount new_source_balance
    write_ledger_entry transaction_id dest_id credit_entry amount new_dest_balance
    audit_settled transaction_id "TRANSFER" amount (some source_id) (some dest_id) correlation_id

  -- The rows are locked in the order of their identifiers and then given back their roles.
  unfoldable pub process_transfer :
      (transaction_id : ℕ)
      → (amount : ℤ) → (source_id dest_id : Option ℕ) → (correlation_id : ℕ) → Process ⊤
  unfolding move_funds
  process_transfer transaction_id amount source dest correlation_id = do
    source_id ← lift (ok_or source (permanent "TRANSFER missing source_account_id"))
    dest_id ← lift (ok_or dest (permanent "TRANSFER missing dest_account_id"))
    let first_id = if leb source_id dest_id then source_id else dest_id
    let second_id = if leb source_id dest_id then dest_id else source_id
    first ← fetch_account first_id
    second ← fetch_account second_id
    move_funds transaction_id amount source_id dest_id
        (if first_id == source_id then first else second)
        (if first_id == dest_id then first else second) correlation_id

  unfoldable pub process_credit :
      (transaction_id : ℕ) → (amount : ℤ) → (dest_id : Option ℕ) → (correlation_id : ℕ) → Process ⊤
  process_credit transaction_id amount dest correlation_id = do
    dest_id ← lift (ok_or dest (permanent "CREDIT missing dest_account_id"))
    d ← fetch_account dest_id
    fail_if (not d.is_active) (domain (account_inactive dest_id))
    let new_balance = d.balance +ℤ amount
    run (update_account dest_id (λ _. true) (with_balance new_balance env.now))
    write_ledger_entry transaction_id dest_id credit_entry amount new_balance
    audit_settled transaction_id "CREDIT" amount none (some dest_id) correlation_id

  unfoldable pub process_debit :
      (transaction_id : ℕ)
      → (amount : ℤ) → (source_id : Option ℕ) → (correlation_id : ℕ) → Process ⊤
  process_debit transaction_id amount source correlation_id = do
    source_id ← lift (ok_or source (permanent "DEBIT missing source_account_id"))
    s ← fetch_account source_id
    fail_if (not s.is_active) (domain (account_inactive source_id))
    fail_if (ltb_ℤ s.balance amount) (
        domain
          (insufficient_funds source_id (env.render.decimal amount) (env.render.decimal s.balance)))
    let new_balance = s.balance -ℤ amount
    run (update_account source_id (λ _. true) (with_balance new_balance env.now))
    write_ledger_entry transaction_id source_id debit_entry amount new_balance
    audit_settled transaction_id "DEBIT" amount (some source_id) none correlation_id

  -- `UPDATE transactions SET status = 'FAILED', …`
  abbrev pub as_failed : String → TransactionRow → TransactionRow
  as_failed error t = record t {
    status = failed;
    last_error = some error;
    processed_at = some env.now;
    version = t.version + 1;
  }

  unfoldable pub mark_failed : (transaction_id : ℕ) → String → (correlation_id : ℕ) → Process ⊤
  mark_failed transaction_id error correlation_id = do
    run (update_transaction transaction_id (λ _. true) (as_failed error))
    record_audit database env "Transaction" transaction_id "FAILED" none (failed_state error)
        "worker" "WORKER" correlation_id
