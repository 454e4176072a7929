-- ===== src/System/Arrives.antt =====
-- The way of one request through all services, where nothing disturbs them.
use financial_data_platform.Prelude.{
  ℕ, ◌*◌, ◌≤◌, ◌≡◌, refl, sym, ap, ◌∙◌, subst, inl, inr, Option-cases, true, false, some, String,
  List, ok, arith, All, length,
}
use financial_data_platform.Prelude.Int.{pos}
use financial_data_platform.Prelude.Keyed.{Distinct, Distinct-append}
use financial_data_platform.Prelude.Table.{find, find-append_self, find-set_self}
use financial_data_platform.Shared.Domain.{settled}
use financial_data_platform.Shared.Events.{EventEnvelope}
use financial_data_platform.Shared.Idempotency.{IdempotencyKey}
use financial_data_platform.Store.Serve.{Serves}
use financial_data_platform.Store.Session.{Env, Session}
use financial_data_platform.Store.Tables.{TransactionRow, OutboxRow, Db}
use financial_data_platform.Ingestion.Transactions.{
  SubmitTransactionRequest, Request, Host, Draws, new_transaction, submitted_event, outbox_row,
  prepare, correlation_of, submit_transaction,
}
use financial_data_platform.Ingestion.Transactions.Accept.{submit_transaction-accepts}
use financial_data_platform.Ingestion.Transactions.Spec.{accepted, CanStore, CanAnnounce}
use financial_data_platform.Relay.Backlog.{backlog}
use financial_data_platform.Relay.Drain.{drained, poll_all-frame}
use financial_data_platform.Relay.Loop.{RelayConfig, Round, LoopState, poll_all}
use financial_data_platform.Relay.Rounds.{IsCalm, IsSent}
use financial_data_platform.Worker.Consumer.{TransactionConsumer, Around, handle_message}
use financial_data_platform.Worker.Consumer.Succeed.{handle_message-Settles}
use financial_data_platform.Worker.Processor.Effect.{SameOrder, Settles, settles}
use financial_data_platform.Worker.Processor.Succeed.{Quiet, Payable}
use financial_data_platform.Worker.Processor.Undisturbed.{Ready}

-- The transaction is there and settled, as it was ordered.
abbrev pub IsSettled : ℕ → TransactionRow → Db → Type 0
IsSettled id ordered db =
    (r : TransactionRow) × (find id db.transactions ≡ some r)
    × (r.status ≡ settled)
    × SameOrder ordered r

Settles-IsSettled :
    (env : Env) (event : EventEnvelope) (t : TransactionRow) (db db' : Db)
    → find event.aggregate_id db.transactions ≡ some t
    → Settles env event db db'
    → IsSettled event.aggregate_id t db'
Settles-IsSettled env event t db db' there (settles r d b worked same) = (
  r,
  ap (λ e. find event.aggregate_id e.transactions) same
      ∙ find-set_self event.aggregate_id r b.before db.transactions b.was_there,
  b.now_status,
  subst (λ o. SameOrder o r) before b.order,
)
  where
    before : b.before ≡ t
    before = ground (arith, b.was_there, there)

Ready-accounts :
    (env : Env) (t : TransactionRow) (db db' : Db)
    → db'.accounts ≡ db.accounts
    → Ready env t db
    → Ready env t db'
Ready-accounts env t db db' same ready = record {
  open_status = ready.open_status;
  positive = ready.positive;
  allowed = ready.allowed;
  version_room = ready.version_room;
  retry_room = ready.retry_room;
  payable =
      subst (Payable env.now t.transaction_type t.amount t.source_account_id t.dest_account_id)
        (sym same) ready.payable;
}

module _ (env : Env) (draws : Draws) (key request_hash : String) (body : SubmitTransactionRequest)
    (correlation_id : ℕ) (db : Db) where
  abbrev pub event : EventEnvelope
  event = submitted_event env.now draws.event_id draws.transaction_id key body correlation_id

  abbrev pub order : TransactionRow
  order = new_transaction env.now key request_hash body

  abbrev new_db : Db
  new_db = accepted env draws key request_hash body correlation_id db

  abbrev event_row : OutboxRow
  event_row = outbox_row env.render env.now event body.source_account_id

  order_there :
      CanStore env draws key request_hash body correlation_id db
      → find draws.transaction_id new_db.transactions ≡ some order
  order_there (_, fits) = elim (Option-cases (find draws.transaction_id db.transactions)) [
    | inl free ↦ find-append_self draws.transaction_id order db.transactions free
    | inr (t, there) ↦ absurd (ground (arith, fits, there))
  ]

  event_there :
      CanAnnounce env draws key request_hash body correlation_id db
      → find draws.outbox_id new_db.outbox_events ≡ some event_row
  event_there free = find-append_self draws.outbox_id event_row db.outbox_events free

  -- From the database that the submission left, over the relay, to the consumer.
  delivered :
      (encode : EventEnvelope → List ℕ) (cfg : RelayConfig) (n : ℕ) (rounds : List Round)
      (st : LoopState) (self : TransactionConsumer) (around : Around) (u : Session)
      → CanStore env draws key request_hash body correlation_id db
      → CanAnnounce env draws key request_hash body correlation_id db
      → cfg.batch_size ≡ pos n
      → All (IsCalm encode) rounds
      → Distinct db.outbox_events
      → st.relay.session.committed ≡ new_db
      → backlog st.relay.session.committed.outbox_events ≤ length rounds * n
      → u.committed ≡ (poll_all cfg rounds st).relay.session.committed
      → self.codec.from_slice (encode event) ≡ ok event
      → Quiet (around.attempts 0)
      → Ready (around.attempts 0) order db
      → IsSent encode event_row (poll_all cfg rounds st).relay.log
        × ((handle_message self (some (encode event)) around u).0 ≡ true)
        × IsSettled draws.transaction_id order
            (handle_message self (some (encode event)) around u).1.committed
  delivered encode cfg n rounds st self around u can free size calm d at_relay enough at_worker
        decoded quiet ready =
      let distinct : Distinct st.relay.session.committed.outbox_events =
        subst (λ e. Distinct e.outbox_events) (sym at_relay)
          (Distinct-append draws.outbox_id event_row db.outbox_events free d) in
      let (_, _, sent) =
        drained encode cfg n size rounds st draws.outbox_id event_row calm distinct enough
          (ap (λ e. find draws.outbox_id e.outbox_events) at_relay ∙ event_there free) refl in
      let frame = at_worker ∙ poll_all-frame encode cfg n size rounds st calm distinct in
      let there : find draws.transaction_id u.committed.transactions ≡ some order =
        ap (λ e. find draws.transaction_id e.transactions) frame
        ∙ ap (λ e. find draws.transaction_id e.transactions) at_relay
        ∙ order_there can in
      let accounts : u.committed.accounts ≡ db.accounts =
        ap (λ e. e.accounts) frame ∙ ap (λ e. e.accounts) at_relay in
      let (committed, done) =
        handle_message-Settles self around (encode event) event u order decoded quiet there
          (Ready-accounts (around.attempts 0) order db u.committed accounts ready) in
      (sent, committed, Settles-IsSettled (around.attempts 0) event order u.committed _ there done)

-- Where the database, the broker, the lock, the timer and the fault rules do not interfere, no other
-- relay is at work and no two rows of the outbox have the same key, a valid request whose key is
-- free, whose row meets the table's constraints and whose event's identifier is free is answered
-- with 202 and arrives: the relay's loop, on what the submission left, puts the record of its event
-- in the topic within the rounds that the waiting events need, and a consumer that decodes the
-- record to the event, on what the relay left, settles the transaction as it was ordered and lets
-- its offset be committed. The order must be one that the accounts can carry out and that the fraud
-- check lets pass.
pub submit_transaction-arrives :
    (env : Env) (host : Host) (draws : Draws) (req : Request) (s : Session)
    (q : IdempotencyKey × String) (encode : EventEnvelope → List ℕ) (cfg : RelayConfig) (n : ℕ)
    (rounds : List Round) (st : LoopState) (self : TransactionConsumer) (around : Around)
    (u : Session)
    → let c = correlation_of env host draws req.x_request_id in
      let sent = event env draws q.0.as_str q.1 req.body c s.committed in
      let ordered = order env draws q.0.as_str q.1 req.body c s.committed in
      Serves env
      → prepare env host req ≡ ok q
      → CanStore env draws q.0.as_str q.1 req.body c s.committed
      → CanAnnounce env draws q.0.as_str q.1 req.body c s.committed
      → cfg.batch_size ≡ pos n
      → All (IsCalm encode) rounds
      → Distinct s.committed.outbox_events
      → st.relay.session.committed ≡ (submit_transaction env host draws req s).1.committed
      → backlog st.relay.session.committed.outbox_events ≤ length rounds * n
      → u.committed ≡ (poll_all cfg rounds st).relay.session.committed
      → self.codec.from_slice (encode sent) ≡ ok sent
      → Quiet (around.attempts 0)
      → Ready (around.attempts 0) ordered s.committed
      → ((submit_transaction env host draws req s).0
          ≡ ok (record {
            status_code = 202;
            response = record {
              transaction_id = draws.transaction_id;
              status = "PENDING";
              idempotency_key = q.0.as_str;
              was_duplicate = false;
            };
          }))
        × IsSent encode
            (outbox_row env.render env.now sent req.body.source_account_id)
            (poll_all cfg rounds st).relay.log
        × ((handle_message self (some (encode sent)) around u).0 ≡ true)
        × IsSettled draws.transaction_id ordered
            (handle_message self (some (encode sent)) around u).1.committed
submit_transaction-arrives env host draws req s q encode cfg n rounds st self around u serves fine
      can free size calm d at_relay enough at_worker decoded quiet ready =
    let (answer, left) = submit_transaction-accepts env host draws req s q serves fine can free in
    let (sent, committed, done) =
      delivered env draws q.0.as_str q.1 req.body (correlation_of env host draws req.x_request_id)
        s.committed encode cfg n rounds st self around u can free size calm d (at_relay ∙ left)
        enough at_worker decoded quiet ready in
    (answer, sent, committed, done)
