-- ===== src/Worker/Examples.antt =====
-- The theorems about the worker at the database of its tests.
use financial_data_platform.Prelude.{if◌then◌else◌, some, none, ok, err}
use financial_data_platform.Shared.Fault.{same_text}
use financial_data_platform.Shared.Settings.{Settings, invalid_type}
use financial_data_platform.Worker.Start.{load}
use financial_data_platform.Prelude.{suc, ◌/◌}
use financial_data_platform.Reporting.{Calendar, select_summary}
use financial_data_platform.Reporting.Settled.{summary, process_transaction-summary}
use financial_data_platform.Prelude.{⊤, ◌≡◌, refl, none, some, List, [], ◌∷◌, Result, ok, arith}
use financial_data_platform.Prelude.Int.{pos, ◌+ℤ◌, ◌-ℤ◌}
use financial_data_platform.Prelude.Table.{find, set}
use financial_data_platform.Shared.Domain.{pending, settled, credit_type, transfer_type}
use financial_data_platform.Shared.Error.{pool_timed_out}
use financial_data_platform.Store.Session.{Session, refused, ◌>>=◌, execute, conclude, lock_account}
use financial_data_platform.Worker.Error.{ProcessError}
use financial_data_platform.Worker.Processor.{process_transaction}
use financial_data_platform.Store.Statements.{
  select_account, update_account, select_next_sequence, max_sequence, sequence_taken,
  insert_ledger_entry, insert_audit,
}
use financial_data_platform.Shared.Audit.{record_audit}
use financial_data_platform.Worker.Postings.{
  process_transfer, process_credit, process_debit, fetch_account, write_ledger_entry,
}
use financial_data_platform.Store.Tables.{credit_entry}
use financial_data_platform.Worker.Ledger.Operations.{entries_of}
use financial_data_platform.Worker.Processor.Outcome.{process_transaction-outcome, Fails, Done}
use financial_data_platform.Worker.Processor.Replay.{
  deliver_all-row, Delivery, deliver_all, deliver_all-entries,
}
use financial_data_platform.Worker.Postings.Steps.{FailsSafe}
use financial_data_platform.Worker.Postings.Spec.{credited, debited, transferred}
use financial_data_platform.Worker.Postings.Refine.{
  Refines, process_credit-Refines, process_debit-Refines, process_transfer-Refines,
}
use financial_data_platform.Store.Logic.{Ensures}
use financial_data_platform.Worker.Tests.{
  account, order, small_db, session, quiet, event, small_db-Consistent, small_db-parties,
  found_settled,
}
use financial_data_platform.Worker.Postings.Locks.{TakesInOrder, process_transfer-locks}
use financial_data_platform.Worker.Processor.Succeed.{Quiet}
use financial_data_platform.Worker.Processor.Undisturbed.{Ready}
use financial_data_platform.Worker.Processor.Settle.{process_transaction-Settles}
use financial_data_platform.Worker.Processor.Effect.{Settles}

found_drifted : find 1 ((1, account (pos 400000)) ∷ []) ≡ some (account (pos 400000))
unfolding find
found_drifted = refl

process_transaction-outcome_example :
    Ensures
      (Fails quiet event "worker-0" small_db)
      (Done quiet event "worker-0" small_db)
      (process_transaction quiet event "worker-0" (session small_db))
process_transaction-outcome_example =
    process_transaction-outcome quiet event "worker-0" small_db (session small_db) refl
      small_db-parties

-- The same event three times, for two workers; the second one meets a refused COMMIT.
abbrev deliveries : List Delivery
deliveries =
    (quiet, event, "worker-0")
    ∷ (record quiet { commit_outcome = refused pool_timed_out }, event, "worker-1")
    ∷ (quiet, event, "worker-0")
    ∷ []

-- Transaction 10 is settled, and the events are for transaction 20.
deliver_all-row_example :
    find 10 (deliver_all deliveries (session small_db)).committed.transactions
    ≡ some (order credit_type settled (pos 500000) none (some 1))
deliver_all-row_example =
    deliver_all-row deliveries (session small_db) 10
      (order credit_type settled (pos 500000) none (some 1)) small_db-Consistent found_settled refl

deliver_all-entries_example :
    entries_of 10 (deliver_all deliveries (session small_db)).committed.ledger_entries
    ≡ record { account_id = 1; entry_type = credit_entry; amount = pos 500000 } ∷ []
deliver_all-entries_example =
    deliver_all-entries deliveries (session small_db) 10
      (order credit_type settled (pos 500000) none (some 1)) small_db-Consistent
      (deliver_all-row deliveries (session small_db) 10
        (order credit_type settled (pos 500000) none (some 1)) small_db-Consistent found_settled
        refl)

process_transfer-Refines_example :
    Ensures
      (FailsSafe (session small_db))
      (Refines (transferred 7 20 99 (pos 300000) (some 1) (some 2)) (session small_db))
      (process_transfer quiet 20 (pos 300000) (some 1) (some 2) 99 (session small_db))
process_transfer-Refines_example =
    process_transfer-Refines quiet 20 99 (pos 300000) (session small_db) refl (some 1) (some 2)
      (ground arith)

process_credit-Refines_example :
    Ensures
      (FailsSafe (session small_db))
      (Refines (credited 7 20 99 (pos 300000) (some 2)) (session small_db))
      (process_credit quiet 20 (pos 300000) (some 2) 99 (session small_db))
process_credit-Refines_example =
    process_credit-Refines quiet 20 99 (pos 300000) (session small_db) refl (some 2)

process_debit-Refines_example :
    Ensures
      (FailsSafe (session small_db))
      (Refines (debited 7 20 99 (pos 300000) (some 1)) (session small_db))
      (process_debit quiet 20 (pos 300000) (some 1) 99 (session small_db))
process_debit-Refines_example =
    process_debit-Refines quiet 20 99 (pos 300000) (session small_db) refl (some 1)

abbrev transfer_run : Result ProcessError ⊤ × Session
transfer_run = process_transfer quiet 20 (pos 300000) (some 1) (some 2) 99 (session small_db)

transfer_fine : transfer_run.0 ≡ ok tt
unfolding ◌>>=◌ execute conclude find set process_transfer fetch_account lock_account select_account
    update_account write_ledger_entry select_next_sequence max_sequence sequence_taken
    insert_ledger_entry insert_audit record_audit ◌+ℤ◌ ◌-ℤ◌
transfer_fine = refl

quiet-Quiet : Quiet quiet
quiet-Quiet = record {
  begins = refl;
  answers = λ n. refl;
  commits = refl;
  granted = refl;
  patient = refl;
  no_faults = refl;
}

found_order :
    find 20 small_db.transactions
    ≡ some (order transfer_type pending (pos 300000) (some 1) (some 2))
unfolding find
found_order = refl

order-Ready : Ready quiet (order transfer_type pending (pos 300000) (some 1) (some 2)) small_db
unfolding find ◌+ℤ◌ ◌-ℤ◌
order-Ready = record {
  open_status = refl;
  positive = ground arith;
  allowed = ground arith;
  version_room = ground arith;
  retry_room = ground arith;
  payable = (
    account (pos 500000),
    account (pos 0),
    record { payer_found = refl; payer_active = refl; rich = refl; payer_fits = refl },
    record { payee_found = refl; payee_active = refl; payee_fits = refl },
    refl,
    refl,
  );
}

process_transaction-Settles_example :
    ((process_transaction quiet event "worker-0" (session small_db)).0 ≡ ok tt)
    × Settles quiet event small_db
        (process_transaction quiet event "worker-0" (session small_db)).1.committed
process_transaction-Settles_example =
    process_transaction-Settles quiet event "worker-0"
      (order transfer_type pending (pos 300000) (some 1) (some 2)) (session small_db) quiet-Quiet
      found_order order-Ready

-- From the account with the greater identifier to the other one.
process_transfer-locks_example :
    TakesInOrder []
      (process_transfer quiet 20
        (pos 300000)
        (some 2)
        (some 1)
        99
        (session small_db)).1.account_locks
process_transfer-locks_example =
    process_transfer-locks quiet 20 (pos 300000) (some 2) (some 1) 99 (session small_db)

abbrev calendar : Calendar
calendar = record { date_of = λ time. time / 86_400_000_000; date_text = λ _. "1970-01-01" }

process_transaction-summary_example :
    let db' = (process_transaction quiet event "worker-0" (session small_db)).1.committed in
    select_summary calendar 0 db'
    ≡ ok (
      record (summary calendar 0 small_db) {
        settled_count = suc (summary calendar 0 small_db).settled_count;
      },
      db',
    )
process_transaction-summary_example =
    process_transaction-summary calendar quiet event "worker-0"
      (order transfer_type pending (pos 300000) (some 1) (some 2)) (session small_db) quiet-Quiet
      found_order order-Ready

-- Sources that hold what has no default, and one number.
abbrev settings : Settings
settings = record {
  get = λ key.
      if same_text key "max_retries"
      then some "7"
      else if same_text key "worker_concurrency"
      then none
      else some "text";
  unsigned = λ text. if same_text text "7" then some 7 else none;
  signed = λ _. none;
}

abbrev sparse : Settings
sparse = record settings {
  get = λ key.
      if same_text key "database_url"
      then some "postgres://"
      else if same_text key "kafka_brokers"
      then some "kafka:9092"
      else if same_text key "kafka_group_id"
      then some "workers"
      else if same_text key "max_retries"
      then some "7"
      else none;
}

-- The defaults count but for what a source holds, and a text is no number.
configured :
    (load sparse
      ≡ ok (record {
        database_url = "postgres://";
        kafka_brokers = "kafka:9092";
        kafka_group_id = "workers";
        kafka_topic_transactions = "financial.transactions.v1";
        kafka_topic_dlq = "financial.transactions.dlq";
        db_max_connections = 10;
        worker_concurrency = 4;
        max_retries = 7;
        retry_backoff_ms = 1000;
        log_level = "info";
        worker_id_prefix = "worker";
      }))
    × (load settings ≡ err (invalid_type "db_max_connections"))
unfolding load
configured = (refl, refl)
