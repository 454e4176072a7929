-- ===== src/Worker/Tests.antt =====
-- Tests of the worker on a small database, and the theorems about it at that database: account 1
-- holds 50.0000 from a settled credit, account 2 holds nothing, and transaction 20 is a pending
-- transfer of 30.0000 from 1 to 2.
use mathlib.Core.Option
use financial_data_platform.Prelude.{
  ℕ, ⊤, ◌≡◌, refl, true, false, Option, none, some, [], ◌∷◌, Result, ok, arith, ltb,
}
use financial_data_platform.Prelude.Int.{ℤ, pos, ◌+ℤ◌, ◌-ℤ◌}
use financial_data_platform.Prelude.Table.{find, set}
use financial_data_platform.Shared.Domain.{
  usd, pending, settled, TransactionStatus, TransactionType, credit_type, transfer_type,
}
use financial_data_platform.Shared.Events.{EventEnvelope}
use financial_data_platform.Shared.Error.{Render}
use financial_data_platform.Store.Session.{
  Env, Session, done, ◌>>=◌, inject, begin, execute, conclude, commit, rollback, lock_account,
}
use financial_data_platform.Store.Tables.{AccountRow, TransactionRow, LedgerRow, credit_entry, Db}
use financial_data_platform.Worker.Error.{ProcessError, is_retryable}
use financial_data_platform.Worker.Processor.{process_transaction, fraud_check}
use financial_data_platform.Shared.Fault.{should_fail}
use financial_data_platform.Store.Statements.{
  select_transaction, update_transaction, select_account, update_account, select_next_sequence,
  max_sequence, sequence_taken, insert_ledger_entry, insert_audit,
}
use financial_data_platform.Shared.Audit.{record_audit}
use financial_data_platform.Worker.Fraud.{check}
use financial_data_platform.Worker.Postings.{
  process_transfer, fetch_account, write_ledger_entry, mark_failed,
}
use financial_data_platform.Store.Tables.{debit_entry}
use financial_data_platform.Worker.Ledger.Operations.{entries_of}
use financial_data_platform.Worker.Ledger.Books.{Books}
use financial_data_platform.Worker.Ledger.{ledger_balance}
use financial_data_platform.Worker.Processor.Consistent.{Consistent}
use financial_data_platform.Worker.Processor.Outcome.{AllTwoParties}

abbrev pub account : ℤ → AccountRow
account balance = record {
  external_id = "";
  owner_id = "";
  currency = usd;
  balance = balance;
  version = 1;
  is_active = true;
  created_at = 0;
  updated_at = 0;
}

abbrev pub order : TransactionType → TransactionStatus → ℤ → Option ℕ → Option ℕ → TransactionRow
order type status amount source dest = record {
  idempotency_key = "";
  transaction_type = type;
  status = status;
  amount = amount;
  currency = usd;
  source_account_id = source;
  dest_account_id = dest;
  description = none;
  metadata = none;
  request_hash = "";
  submitted_at = 0;
  processed_at = none;
  settled_at = none;
  version = 1;
  worker_id = none;
  retry_count = 0;
  last_error = none;
  risk_score = none;
  compliance_checked = false;
}

abbrev pub first_entry : LedgerRow
first_entry = record {
  transaction_id = 10;
  account_id = 1;
  entry_type = credit_entry;
  amount = pos 500000;
  currency = usd;
  running_balance = pos 500000;
  posted_at = 0;
  sequence_num = 1;
}

abbrev pub small_db : Db
small_db = record {
  accounts = (1, account (pos 500000)) ∷ (2, account (pos 0)) ∷ [];
  transactions =
      (10, order credit_type settled (pos 500000) none (some 1))
      ∷ (20, order transfer_type pending (pos 300000) (some 1) (some 2))
      ∷ [];
  ledger_entries = first_entry ∷ [];
  audit_log = [];
  outbox_events = [];
  dead_letter_queue = [];
}

abbrev pub session : Db → Session
session db = record {
  committed = db;
  working = db;
  statements = 0;
  aborted = false;
  account_locks = [];
  counters = [];
}

abbrev pub render : Render
render = record {
  uuid = λ _. "id";
  decimal = λ _. "decimal";
  number = λ _. "number";
  sql = λ _. "sql";
  json = λ _. "json";
}

abbrev pub quiet : Env
quiet = record {
  begin_error = none;
  statement_error = λ _. none;
  commit_outcome = done;
  lock_granted = some true;
  timeout_expires = λ limit seconds. ltb limit seconds;
  now = 7;
  rules = [];
  render = render;
}

abbrev pub event : EventEnvelope
event = record {
  event_id = 1;
  event_type = "TransactionSubmitted";
  aggregate_type = "Transaction";
  aggregate_id = 20;
  occurred_at = 0;
  aggregate_version = 1;
  correlation_id = 99;
  payload = record {
    transaction_id = 20;
    idempotency_key = "";
    transaction_type = transfer_type;
    amount = record { mantissa = pos 30; scale = 0 };
    currency = usd;
    source_account_id = some 1;
    dest_account_id = some 2;
  };
}

pub processed : Env → Db → Result ProcessError ⊤ × Session
unfolding process_transaction ◌>>=◌ inject should_fail begin execute conclude commit rollback
    select_transaction update_transaction find set fraud_check check process_transfer fetch_account
    lock_account select_account update_account write_ledger_entry select_next_sequence max_sequence
    sequence_taken insert_ledger_entry insert_audit record_audit mark_failed is_retryable ◌+ℤ◌ ◌-ℤ◌
processed env db = process_transaction env event "worker-0" (session db)

abbrev pub after : Db
after = (processed quiet small_db).1.committed

-- The transfer goes through: an Ok, the two balances, and two new entries.
transfer_settles :
    ((processed quiet small_db).0 ≡ ok tt)
    × (Option.map (λ (a : AccountRow). a.balance) (find 1 after.accounts) ≡ some (pos 200000))
    × (Option.map (λ (a : AccountRow). a.balance) (find 2 after.accounts) ≡ some (pos 300000))
    × (entries_of 20 after.ledger_entries
        ≡ record { account_id = 2; entry_type = credit_entry; amount = pos 300000 }
          ∷ record { account_id = 1; entry_type = debit_entry; amount = pos 300000 }
          ∷ [])
unfolding processed
transfer_settles = (refl, refl, refl, refl)

pub small_db-Books : Books small_db
unfolding find ledger_balance ◌+ℤ◌ ◌-ℤ◌
small_db-Books = record {
  sound = ground arith;
  balanced = λ id a e. ground arith;
  non_negative = λ id a e. ground arith;
  unopened = λ id e. ground arith;
}

pub small_db-Consistent : Consistent small_db
unfolding find
small_db-Consistent = record {
  books = small_db-Books;
  posted = λ id t e. ground arith;
  parties = λ id t e. ground arith;
  unposted = λ id e. ground arith;
}

pub found_settled :
    find 10 small_db.transactions ≡ some (order credit_type settled (pos 500000) none (some 1))
unfolding find
found_settled = refl

pub found_account : find 1 small_db.accounts ≡ some (account (pos 500000))
unfolding find
found_account = refl

-- The outcome at the transfer, with the sides that the database gives it.
pub small_db-parties : AllTwoParties quiet event "worker-0" small_db
unfolding find
small_db-parties = small_db-Consistent.parties 20
