-- ===== src/Relay/Tests.antt =====
-- The relay's theorems at an outbox with one event.
use financial_data_platform.Prelude.{
  ℕ, length, All, ◌⊎◌, ◌≡◌, refl, false, none, some, [], ◌∷◌, ok, arith,
}
use financial_data_platform.Prelude.Int.{pos}
use financial_data_platform.Prelude.Table.{find}
use financial_data_platform.Store.Tables.{OutboxRow, event_pending, Db}
use financial_data_platform.Worker.Tests.{small_db, session, quiet, event}
use financial_data_platform.Relay.{
  Link, RelayState, acknowledged, relay_batch, batch_of, as_published,
}
use financial_data_platform.Relay.Delivered.{IsWell, relay_batch-IsWell}
use financial_data_platform.Relay.Backlog.{backlog}
use financial_data_platform.Relay.Drain.{poll_all-drains}
use financial_data_platform.Relay.Loop.{RelayConfig, Round, poll_all}
use financial_data_platform.Relay.Rounds.{IsCalm, IsSent}
use financial_data_platform.Relay.Order.{Among, NotNewer, IsOrdered, batch_of-oldest}
use financial_data_platform.Relay.Publish.{Calm, relay_batch-publishes}
use financial_data_platform.Relay.Send.{InLog}

abbrev waiting : OutboxRow
waiting = record {
  aggregate_type = "Transaction";
  aggregate_id = 20;
  event_type = "TransactionSubmitted";
  payload = event;
  status = event_pending;
  topic = "financial.transactions.v1";
  partition_key = "id";
  created_at = 0;
  published_at = none;
  retry_count = 0;
  last_error = none;
}

abbrev outbox_db : Db
outbox_db = record small_db { outbox_events = (102, waiting) ∷ [] }

abbrev link : Link
link = record { to_vec = λ _. ok (1 ∷ []); send = λ _. acknowledged; locked_elsewhere = λ _. false }

abbrev state : RelayState
state = record { session = session outbox_db; log = [] }

outbox-IsWell : IsWell link.to_vec [] outbox_db.outbox_events
unfolding find
outbox-IsWell = record {
  distinct = (tt, tt);
  delivered = λ id row e s. absurd (ground (arith, e, s));
  fit = λ id row e. ground (arith, e);
}

relay_batch-IsWell_example :
    IsWell link.to_vec
      (relay_batch quiet link (pos 100) state).1.log
      (relay_batch quiet link (pos 100) state).1.session.committed.outbox_events
relay_batch-IsWell_example = relay_batch-IsWell quiet link (pos 100) state outbox-IsWell

found_waiting : find 102 outbox_db.outbox_events ≡ some waiting
unfolding find
found_waiting = refl

quiet-Calm : Calm quiet link
quiet-Calm = record {
  serves = record { begins = refl; answers = λ n. refl; commits = refl };
  serialises = λ v. (1 ∷ [], refl);
  acknowledges = λ id. refl;
}

relay_batch-publishes_example :
    let batch = batch_of (λ _. false) 100 outbox_db.outbox_events in
    let (answer, st') = relay_batch quiet link (pos 100) state in
    (answer ≡ ok (length batch))
    × (((find 102 st'.session.committed.outbox_events ≡ some (as_published 7 waiting))
          × InLog link waiting st'.log)
        ⊎ ((length batch ≡ 100)
            × All (λ e. NotNewer (102, waiting) e × InLog link e.1 st'.log) batch))
relay_batch-publishes_example =
    relay_batch-publishes quiet link 100 state 102 waiting quiet-Calm found_waiting refl refl

batch_of-oldest_example :
    IsOrdered (batch_of (λ _. false) 1 outbox_db.outbox_events)
    × (Among (102, waiting) (batch_of (λ _. false) 1 outbox_db.outbox_events)
        ⊎ ((length (batch_of (λ _. false) 1 outbox_db.outbox_events) ≡ 1)
            × All
                (λ e. NotNewer (102, waiting) e)
                (batch_of (λ _. false) 1 outbox_db.outbox_events)))
batch_of-oldest_example =
    batch_of-oldest (λ _. false) 1 outbox_db.outbox_events 102 waiting found_waiting refl refl

abbrev cfg : RelayConfig
cfg = record {
  database_url = "";
  kafka_brokers = "";
  batch_size = pos 100;
  poll_interval_ms = 200;
  log_level = "info";
}

abbrev round : Round
round = record { env = quiet; link = link }

round-IsCalm : IsCalm (λ _. 1 ∷ []) round
round-IsCalm = record { calm = quiet-Calm; alone = λ id. refl; encodes = λ v. refl }

one_waits : backlog outbox_db.outbox_events ≡ 1
unfolding backlog
one_waits = refl

poll_all-drains_example :
    let st' = poll_all cfg (round ∷ []) (record { relay = state; slept = 0 }) in
    ((now : ℕ) × (find 102 st'.relay.session.committed.outbox_events
        ≡ some (as_published now waiting))
      × IsSent (λ _. 1 ∷ []) waiting st'.relay.log)
    × (st'.slept ≡ 0)
poll_all-drains_example =
    poll_all-drains (λ _. 1 ∷ []) cfg 100 (round ∷ []) (record { relay = state; slept = 0 }) 102
      waiting refl (omega arith) (round-IsCalm, tt) (tt, tt) (omega (arith, one_waits))
      (omega (arith, one_waits)) found_waiting refl
