-- ===== src/System/Tests.antt =====
-- The platform's theorems at two steps from the worker's test database, and at the whole way of a
-- transaction from an empty database: an account is opened, a credit to it is submitted, the broker
-- rejects its event at first, the relay publishes it later, and the worker settles it.
use financial_data_platform.Store.Session.{
  ◌>>=◌, inject, begin, execute, conclude, commit, end_commit, rollback, autocommit, lock_account,
}
use financial_data_platform.Shared.Fault.{should_fail}
use financial_data_platform.Store.Inserts.{
  insert_account, external_id_taken, insert_transaction, find_claim, insert_outbox,
}
use financial_data_platform.Ingestion.Transactions.{
  prepare, idempotency_check_and_insert, resolve, write_event,
}
use financial_data_platform.Shared.Idempotency.{new_key, all_chars, is_url_safe}
use financial_data_platform.Ingestion.Transactions.{validate_parties, status_text}
use financial_data_platform.Shared.Decimal.{to_numeric}
use financial_data_platform.Prelude.Table.{append, set}
use financial_data_platform.Store.Statements.{
  insert_audit, select_transaction, update_transaction, select_account, update_account,
  select_next_sequence, max_sequence, sequence_taken, insert_ledger_entry,
}
use financial_data_platform.Shared.Audit.{record_audit}
use financial_data_platform.Relay.{
  fetch, select_pending, send_all, after_fetch, conclude_batch, mark_if_any, mark_published,
  record_failures, record_failure,
}
use financial_data_platform.Worker.Consumer.{
  handle_message, handle_payload, process_with_retry, after_processing,
}
use financial_data_platform.Worker.Consumer.Tests.{retry_by}
use financial_data_platform.Worker.Processor.{process_transaction, fraud_check}
use financial_data_platform.Worker.Fraud.{check}
use financial_data_platform.Worker.Postings.{process_credit, fetch_account, write_ledger_entry}
use financial_data_platform.Worker.Error.{is_retryable}
use financial_data_platform.Prelude.Int.{◌-ℤ◌}
use financial_data_platform.Prelude.Sum.{summed}
use financial_data_platform.Prelude.{ℕ, arith, refl, ◌≡◌, false, [], ◌∷◌, ok}
use financial_data_platform.Prelude.Int.{pos}
use financial_data_platform.Prelude.Table.{find}
use financial_data_platform.Shared.Domain.{usd}
use financial_data_platform.Worker.Tests.{small_db, session, quiet, small_db-Consistent}
use financial_data_platform.Ingestion.Accounts.{CreateAccountRequest, create_account}
use financial_data_platform.Relay.{
  SendResult, Link, RelayState, acknowledged, rejected, relay_batch,
}
use financial_data_platform.Prelude.Int.{◌+ℤ◌}
use financial_data_platform.Shared.Events.{EventEnvelope}
use financial_data_platform.Store.Tables.{Db}
use financial_data_platform.Ingestion.Tests.{body, req, host, draws}
use financial_data_platform.Ingestion.Transactions.{submitted_event, submit_transaction}
use financial_data_platform.Worker.Consumer.{TransactionConsumer, received, State, turn}
use financial_data_platform.Worker.Consumer.Tests.{consumer, message, calm}
use financial_data_platform.Worker.Ledger.{ledger_balance}
use financial_data_platform.Worker.Ledger.Total.{total}
use financial_data_platform.Prelude.{some, none}
use financial_data_platform.Store.Tables.{AccountRow}
use financial_data_platform.Ingestion.Accounts.{new_account}
use financial_data_platform.Worker.Postings.{with_balance}
use financial_data_platform.Worker.Ledger.{verify_account_balance}
use financial_data_platform.Worker.Ledger.Verify.{drifted}
use financial_data_platform.System.Reconciled.{Reaches-reconciles}
use financial_data_platform.System.Commits.{Commits}
use financial_data_platform.System.Frames.{Evolves}
use financial_data_platform.System.Evolves.{Reaches-Evolves}
use financial_data_platform.System.Money.{flow, Reaches-flow}
use financial_data_platform.System.Paired.{Paired}
use financial_data_platform.System.Outbox.{Reaches-Paired}
use financial_data_platform.System.{
  link_of, submitting, consuming, System, opening, relaying, Reaches, here, next, Safe,
  Reaches-Safe,
}

abbrev pub link : Link
link = record { to_vec = λ _. ok (1 ∷ []); send = λ _. acknowledged; locked_elsewhere = λ _. false }

abbrev account_body : CreateAccountRequest
account_body = record { external_id = "ext-3"; owner_id = "owner"; currency = usd }

abbrev first : System
first = record { db = small_db; log = [] }

abbrev second : System
second = record {
  db = (create_account quiet 3 account_body (session small_db)).1.committed;
  log = [];
}

abbrev relay_state : RelayState
relay_state = record { session = session second.db; log = [] }

abbrev third : System
third = record {
  db = (relay_batch quiet link (pos 100) relay_state).1.session.committed;
  log = (relay_batch quiet link (pos 100) relay_state).1.log;
}

two_steps : Reaches link.to_vec first third
two_steps = next first second third (opening quiet 3 account_body (session small_db) []) (
    next second third third (relaying quiet link.send link.locked_elsewhere (pos 100) relay_state)
      (here third))

first-Safe : Safe link.to_vec first
unfolding find
first-Safe = (
  small_db-Consistent,
  record { distinct = tt; delivered = λ id row e s. absurd (cc); fit = λ id row e. absurd (cc) },
)

Reaches-Safe_example : Safe link.to_vec third
Reaches-Safe_example = Reaches-Safe link.to_vec first third two_steps first-Safe

abbrev empty_db : Db
empty_db = record {
  accounts = [];
  transactions = [];
  ledger_entries = [];
  audit_log = [];
  outbox_events = [];
  dead_letter_queue = [];
}

abbrev nothing_yet : System
nothing_yet = record { db = empty_db; log = [] }

abbrev with_account : System
with_account = record {
  db = (create_account quiet 1 account_body (session empty_db)).1.committed;
  log = [];
}

abbrev with_order : System
with_order = record {
  db = (submit_transaction quiet host draws req (session with_account.db)).1.committed;
  log = [];
}

abbrev before_outage : RelayState
before_outage = record { session = session with_order.db; log = [] }

-- The broker rejects the first send.
abbrev broker_down : ℕ → SendResult
broker_down _ = rejected "broker down" false

abbrev outage_link : Link
outage_link = link_of link.to_vec broker_down link.locked_elsewhere

abbrev with_failure : System
with_failure = record {
  db = (relay_batch quiet outage_link (pos 100) before_outage).1.session.committed;
  log = (relay_batch quiet outage_link (pos 100) before_outage).1.log;
}

abbrev before_relay : RelayState
before_relay = record { session = session with_failure.db; log = with_failure.log }

abbrev with_record : System
with_record = record {
  db = (relay_batch quiet link (pos 100) before_relay).1.session.committed;
  log = (relay_batch quiet link (pos 100) before_relay).1.log;
}

-- The bytes of the record are decoded to the event that the ingestion wrote.
abbrev pub told : EventEnvelope
told = submitted_event 7 101 100 "key-1" body 103

abbrev pub reader : TransactionConsumer
reader = record consumer { codec = record (consumer.codec) { from_slice = λ _. ok told } }

abbrev before_turn : State
before_turn = record { session = session with_record.db; offsets = λ _. 0 }

abbrev with_settlement : System
with_settlement = record {
  db = (turn reader (received (message 0) calm) before_turn).session.committed;
  log = with_record.log;
}

whole_way : Reaches link.to_vec nothing_yet with_settlement
whole_way =
    next nothing_yet with_account with_settlement
      (opening quiet 1 account_body (session empty_db) [])
      (next with_account with_order with_settlement
        (submitting quiet host draws req (session with_account.db) [])
        (next with_order with_failure with_settlement
          (relaying quiet broker_down link.locked_elsewhere (pos 100) before_outage)
          (next with_failure with_record with_settlement
            (relaying quiet link.send link.locked_elsewhere (pos 100) before_relay)
            (next with_record with_settlement with_settlement
              (consuming reader (received (message 0) calm) before_turn with_record.log)
              (here with_settlement)))))

nothing_yet-Safe : Safe link.to_vec nothing_yet
unfolding find ledger_balance
nothing_yet-Safe = (
  record {
    books = record {
      sound = ground arith;
      balanced = λ id a e. absurd (cc);
      non_negative = λ id a e. absurd (cc);
      unopened = λ id e. ground arith;
    };
    posted = λ id t e. absurd (cc);
    parties = λ id t e. absurd (cc);
    unposted = λ id e. ground arith;
  },
  record { distinct = tt; delivered = λ id row e s. absurd (cc); fit = λ id row e. absurd (cc) },
)

nothing_yet-Paired : Paired empty_db
unfolding find
nothing_yet-Paired = record {
  announced = λ id t e. absurd (cc);
  backed = λ k e there. absurd (cc);
  single = λ k j e f there other alike. absurd (cc);
}

Reaches-Evolves_example : Evolves nothing_yet with_settlement
Reaches-Evolves_example =
    Reaches-Evolves link.to_vec nothing_yet with_settlement whole_way nothing_yet-Safe

Reaches-Paired_example : Paired with_settlement.db
Reaches-Paired_example =
    Reaches-Paired link.to_vec nothing_yet with_settlement whole_way nothing_yet-Safe
      nothing_yet-Paired

Reaches-flow_example :
    total with_settlement.db.accounts +ℤ flow empty_db.transactions
    ≡ total empty_db.accounts +ℤ flow with_settlement.db.transactions
Reaches-flow_example =
    Reaches-flow link.to_vec nothing_yet with_settlement whole_way nothing_yet-Safe

-- The 25.0000 have arrived.
arrived : total with_settlement.db.accounts ≡ pos 250000
unfolding ◌>>=◌ inject should_fail begin execute conclude commit end_commit rollback autocommit
    create_account insert_account external_id_taken submit_transaction prepare new_key all_chars
    is_url_safe validate_parties to_numeric idempotency_check_and_insert insert_transaction
    find_claim find append set resolve write_event status_text insert_outbox insert_audit
    record_audit relay_batch fetch select_pending send_all after_fetch conclude_batch mark_if_any
    mark_published record_failures turn handle_message handle_payload process_with_retry retry_by
    after_processing process_transaction select_transaction update_transaction fraud_check check
    process_credit fetch_account lock_account select_account update_account write_ledger_entry
    select_next_sequence max_sequence sequence_taken insert_ledger_entry is_retryable ◌+ℤ◌ ◌-ℤ◌
    summed record_failure
arrived = refl

abbrev paid_account : AccountRow
paid_account = with_balance (pos 250000) 7 (new_account 7 account_body)

found_paid : find 1 with_settlement.db.accounts ≡ some paid_account
unfolding ◌>>=◌ inject should_fail begin execute conclude commit end_commit rollback autocommit
    create_account insert_account external_id_taken submit_transaction prepare new_key all_chars
    is_url_safe validate_parties to_numeric idempotency_check_and_insert insert_transaction
    find_claim find append set resolve write_event status_text insert_outbox insert_audit
    record_audit relay_batch fetch select_pending send_all after_fetch conclude_batch mark_if_any
    mark_published record_failures turn handle_message handle_payload process_with_retry retry_by
    after_processing process_transaction select_transaction update_transaction fraud_check check
    process_credit fetch_account lock_account select_account update_account write_ledger_entry
    select_next_sequence max_sequence sequence_taken insert_ledger_entry is_retryable ◌+ℤ◌ ◌-ℤ◌
    record_failure
found_paid = refl

Reaches-reconciles_example :
    (verify_account_balance 1 with_settlement.db ≡ ok none)
    × (verify_account_balance 1 (drifted 1 paid_account (pos 240000) with_settlement.db)
        ≡ ok (some (pos 250000, pos 240000)))
Reaches-reconciles_example =
    Reaches-reconciles link.to_vec nothing_yet with_settlement 1 paid_account (pos 240000) whole_way
      nothing_yet-Safe found_paid (λ e. absurd (ground (arith, e)))
