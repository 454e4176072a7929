-- ===== src/Worker/Consumer/Outbox.antt =====
-- The consumer leaves the outbox alone.
use financial_data_platform.Prelude.{ℕ, ◌≡◌, refl, ap, ◌∙◌, inl, inr, Bool, Option, List}
use financial_data_platform.Shared.Events.{EventEnvelope}
use financial_data_platform.Store.Session.{Env}
use financial_data_platform.Store.Tables.{Db, DeadLetterRow}
use financial_data_platform.Worker.Processor.Consistent.{Consistent}
use financial_data_platform.Worker.Ledger.Operations.{performed-Change}
use financial_data_platform.Worker.Processor.Effect.{
  Settles, settles, Effect, unchanged, settlement, failure, retry, Accepted, held_elsewhere,
  settled_before, settled_now,
}
use financial_data_platform.Worker.Consumer.{
  TransactionConsumer, Around, Received, receive_error, received, State, turn,
}
use financial_data_platform.Worker.Consumer.Handled.{
  Trail, start, tried, MaybeLetter, Handled, empty, malformed, processed, buried, unburied,
  handle_message-outcome,
}

-- The worker does not touch the outbox.
Settles-outbox :
    (env : Env) (event : EventEnvelope) (db db' : Db)
    → Settles env event db db'
    → db'.outbox_events ≡ db.outbox_events
Settles-outbox env event db db' (settles r d _ done same) =
    ap (λ d. d.outbox_events) same
    ∙ (performed-Change env.now event.aggregate_id event.correlation_id r.transaction_type r.amount
        r.source_account_id r.dest_account_id db done).same_outbox

Effect-outbox :
    (env : Env) (event : EventEnvelope) (db db' : Db)
    → Effect env event db db'
    → db'.outbox_events ≡ db.outbox_events
Effect-outbox env event db db' (unchanged same) = ap (λ d. d.outbox_events) same
Effect-outbox env event db db' (settlement s) = Settles-outbox env event db db' s
Effect-outbox env event db db' (failure _ _ _ same) = ap (λ d. d.outbox_events) same
Effect-outbox env event db db' (retry _ _ same) = ap (λ d. d.outbox_events) same

Accepted-outbox :
    (env : Env) (event : EventEnvelope) (db db' : Db)
    → Accepted env event db db'
    → db'.outbox_events ≡ db.outbox_events
Accepted-outbox env event db db' (held_elsewhere _ same) = ap (λ d. d.outbox_events) same
Accepted-outbox env event db db' (settled_before _ _ _ same) = ap (λ d. d.outbox_events) same
Accepted-outbox env event db db' (settled_now s) = Settles-outbox env event db db' s

Trail-outbox :
    {event : EventEnvelope} {db db' : Db}
    → Trail event db db'
    → db'.outbox_events ≡ db.outbox_events
Trail-outbox (start db) = refl
Trail-outbox {event} (tried env db db₁ db₂ trail effect) =
    Effect-outbox env event db₁ db₂ effect ∙ Trail-outbox trail

MaybeLetter-outbox :
    (row : DeadLetterRow) (db db' : Db)
    → MaybeLetter row db db'
    → db'.outbox_events ≡ db.outbox_events
MaybeLetter-outbox row db db' (inl same) = ap (λ d. d.outbox_events) same
MaybeLetter-outbox row db db' (inr same) = ap (λ d. d.outbox_events) same

module _ (self : TransactionConsumer) where
  Handled-outbox :
      (around : Around) (body : Option (List ℕ)) (db db' : Db) (b : Bool)
      → Handled self around body db db' b
      → db'.outbox_events ≡ db.outbox_events
  Handled-outbox around body db db' _ (empty _ same) = ap (λ d. d.outbox_events) same
  Handled-outbox around body db db' _ (malformed _ _ _ _ maybe) = MaybeLetter-outbox _ db db' maybe
  Handled-outbox around body db db' _ (processed _ event db₁ n _ _ trail accepted) =
      Accepted-outbox (around.attempts n) event db₁ db' accepted ∙ Trail-outbox trail
  Handled-outbox around body db db' _ (buried _ _ db₁ _ _ _ trail same) =
      ap (λ d. d.outbox_events) same ∙ Trail-outbox trail
  Handled-outbox around body db db' _ (unburied _ _ db₁ _ _ _ trail maybe) =
      MaybeLetter-outbox _ db₁ db' maybe ∙ Trail-outbox trail

  pub turn-outbox :
      (r : Received) (st : State)
      → Consistent st.session.committed
      → (turn self r st).session.committed.outbox_events ≡ st.session.committed.outbox_events
  unfolding turn
  turn-outbox receive_error st c = refl
  turn-outbox (received msg around) st c =
      Handled-outbox around msg.payload st.session.committed _ _
        (handle_message-outcome self around msg.payload st.session c)
