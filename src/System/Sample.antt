-- ===== src/System/Sample.antt =====
-- The way of one request, at a credit to an account of the worker's test database.
use financial_data_platform.Shared.Decimal.{to_numeric}
use financial_data_platform.Prelude.Table.{append}
use financial_data_platform.Worker.Consumer.{handle_message}
use financial_data_platform.Prelude.Int.{◌-ℤ◌}
use financial_data_platform.Prelude.{arith, refl, ◌≡◌, false, [], ◌∷◌, ok}
use financial_data_platform.Prelude.Int.{pos}
use financial_data_platform.Prelude.Table.{find}
use financial_data_platform.Worker.Tests.{small_db, session, quiet}
use financial_data_platform.Prelude.Int.{◌+ℤ◌}
use financial_data_platform.Store.Tables.{Db}
use financial_data_platform.Ingestion.Tests.{body, req, host, draws}
use financial_data_platform.Ingestion.Transactions.{submit_transaction}
use financial_data_platform.Worker.Consumer.Tests.{calm}
use financial_data_platform.Ingestion.Tests.{
  prepared, req-prepared, key-CanStore, event-CanAnnounce, quiet-Serves,
}
use financial_data_platform.Ingestion.Transactions.{new_transaction, outbox_row}
use financial_data_platform.Ingestion.Transactions.Accept.{submit_transaction-accepts}
use financial_data_platform.Ingestion.Transactions.Spec.{accepted}
use financial_data_platform.Prelude.{ap, ◌∙◌, true, none, some}
use financial_data_platform.Relay.Backlog.{backlog}
use financial_data_platform.Relay.Loop.{RelayConfig, Round, LoopState, poll_all}
use financial_data_platform.Relay.Rounds.{IsCalm, IsSent}
use financial_data_platform.Store.Session.{Session}
use financial_data_platform.Store.Tables.{TransactionRow}
use financial_data_platform.Worker.Tests.{account, render}
use financial_data_platform.Worker.Processor.Succeed.{Quiet}
use financial_data_platform.Worker.Processor.Undisturbed.{Ready}
use financial_data_platform.System.Arrives.{IsSettled, submit_transaction-arrives}
use financial_data_platform.System.Tests.{link, reader, told}

abbrev round : Round
round = record { env = quiet; link = link }

round-IsCalm : IsCalm (λ _. 1 ∷ []) round
round-IsCalm = record {
  calm = record {
    serves = quiet-Serves;
    serialises = λ v. (1 ∷ [], refl);
    acknowledges = λ id. refl;
  };
  alone = λ id. refl;
  encodes = λ v. refl;
}

abbrev cfg : RelayConfig
cfg = record {
  database_url = "";
  kafka_brokers = "";
  batch_size = pos 100;
  poll_interval_ms = 200;
  log_level = "info";
}

abbrev submitted_run : Session
submitted_run = (submit_transaction quiet host draws req (session small_db)).1

abbrev before_loop : LoopState
before_loop = record { relay = record { session = submitted_run; log = [] }; slept = 0 }

abbrev after_loop : LoopState
after_loop = poll_all cfg (round ∷ []) before_loop

abbrev at_consumer : Session
at_consumer = session after_loop.relay.session.committed

one_event : backlog (accepted quiet draws "key-1" "hash" body 103 small_db).outbox_events ≡ 1
unfolding backlog append
one_event = refl

one_waits : backlog submitted_run.committed.outbox_events ≡ 1
one_waits =
    ap (λ (d : Db). backlog d.outbox_events)
      (submit_transaction-accepts quiet host draws req (session small_db) prepared quiet-Serves
        req-prepared key-CanStore event-CanAnnounce).1
    ∙ one_event

abbrev ordered : TransactionRow
ordered = new_transaction 7 "key-1" "hash" body

ordered-Ready : Ready quiet ordered small_db
unfolding find to_numeric ◌+ℤ◌ ◌-ℤ◌
ordered-Ready = record {
  open_status = refl;
  positive = ground arith;
  allowed = ground arith;
  version_room = ground arith;
  retry_room = ground arith;
  payable =
      (account (pos 500000), record { payee_found = refl; payee_active = refl; payee_fits = refl });
}

quiet-Quiet : Quiet quiet
quiet-Quiet = record {
  begins = refl;
  answers = λ n. refl;
  commits = refl;
  granted = refl;
  patient = refl;
  no_faults = refl;
}

submit_transaction-arrives_example :
    ((submit_transaction quiet host draws req (session small_db)).0
      ≡ ok (record {
        status_code = 202;
        response = record {
          transaction_id = 100;
          status = "PENDING";
          idempotency_key = "key-1";
          was_duplicate = false;
        };
      }))
    × IsSent (λ _. 1 ∷ []) (outbox_row render 7 told none) after_loop.relay.log
    × ((handle_message reader (some (1 ∷ [])) calm at_consumer).0 ≡ true)
    × IsSettled 100 ordered (handle_message reader (some (1 ∷ [])) calm at_consumer).1.committed
submit_transaction-arrives_example =
    submit_transaction-arrives quiet host draws req (session small_db) prepared (λ _. 1 ∷ []) cfg
      100 (round ∷ []) before_loop reader calm at_consumer quiet-Serves req-prepared key-CanStore
      event-CanAnnounce refl (round-IsCalm, tt) tt refl (omega (arith, one_waits)) refl refl
      quiet-Quiet ordered-Ready
