-- ===== src/Worker/Consumer.antt =====
-- crates/worker/src/consumer.rs: the consumer loop, over one delivery after another. The payload of
-- a message is its bytes; the JSON parser, the hexadecimal encoder and the retry library are
-- parameters, and so is whether the broker stores an offset that is committed asynchronously.
pub mod Retries
pub mod Handled
pub mod Run
pub mod Outbox
pub mod Succeed
pub mod Tests
use financial_data_platform.Prelude.{
  ℕ, ◌+◌, ⊤, Bool, true, false, String, Option, none, some, List, [], ◌∷◌, Result, ok, err, ◌==◌,
  if◌then◌else◌,
}
use financial_data_platform.Shared.Error.{SqlError, io, SerdeError}
use financial_data_platform.Shared.Events.{EventEnvelope}
use financial_data_platform.Store.Inserts.{insert_dead_letter}
use financial_data_platform.Store.Session.{
  Env, Session, M, pure, throw, ◌>>=◌, ◌>>◌, inject, autocommit,
}
use financial_data_platform.Store.Tables.{DeadPayload, parsed, raw, DeadLetterRow}
use financial_data_platform.Worker.Error.{ProcessError, is_retryable, display_process_error}
use financial_data_platform.Worker.Postings.{Process}
use financial_data_platform.Worker.Processor.{process_transaction}
use financial_data_platform.Worker.Consumer.Retries.{Backon}

-- `WorkerConfig` of crates/worker/src/config.rs.
pub record WorkerConfig : Type 0 where
  pub database_url : String
  pub kafka_brokers : String
  pub kafka_group_id : String
  pub kafka_topic_transactions : String
  pub kafka_topic_dlq : String
  pub db_max_connections : ℕ
  pub worker_concurrency : ℕ
  pub max_retries : ℕ
  pub retry_backoff_ms : ℕ
  pub log_level : String
  pub worker_id_prefix : String

-- What the JSON and the hexadecimal libraries compute.
pub record Codec : Type 0 where
  pub from_slice : List ℕ → Result SerdeError EventEnvelope
  pub to_value : List ℕ → Option String
  pub hex_encode : List ℕ → String

pub record TransactionConsumer : Type 0 where
  pub worker_id : String
  pub config : WorkerConfig
  pub codec : Codec
  pub backon : Backon

pub record Message : Type 0 where
  pub partition : ℕ
  pub offset : ℕ
  pub payload : Option (List ℕ)

-- What surrounds the handling of one message: each attempt's environment, the dead letter's, and
-- whether the broker stores the offset.
pub record Around : Type 0 where
  pub attempts : ℕ → Env
  pub dlq : Env
  pub offset_stored : Bool

-- `consumer.recv()`
pub data Received : Type 0 where
  receive_error : Received
  received : Message → Around → Received

-- The worker's connection, and the offset from which each partition is read after a restart.
pub record State : Type 0 where
  pub session : Session
  pub offsets : ℕ → ℕ

abbrev pub dead_payload : Codec → List ℕ → DeadPayload
dead_payload codec payload = elim (codec.to_value payload) [
  | some value ↦ parsed value
  | none ↦ raw (codec.hex_encode payload)
]

abbrev pub dead_letter : TransactionConsumer → (now : ℕ) → List ℕ → String → DeadLetterRow
dead_letter self now payload error_message = record {
  source_topic = self.config.kafka_topic_transactions;
  payload = dead_payload self.codec payload;
  error_message = error_message;
  first_failed_at = now;
}

-- `consumer.commit_message(&msg, CommitMode::Async).ok()`
abbrev pub commit_message : Message → Bool → (ℕ → ℕ) → ℕ → ℕ
commit_message msg stored offsets partition =
    if stored
    then (if partition == msg.partition then msg.offset + 1 else offsets partition)
    else offsets partition

module _ (self : TransactionConsumer) where
  unfoldable pub process_with_retry : (ℕ → Env) → EventEnvelope → Process ⊤
  process_with_retry attempts envelope =
      self.backon.retry self.config.retry_backoff_ms 30000 self.config.max_retries
        (λ n. process_transaction (attempts n) envelope self.worker_id) is_retryable

  abbrev pub refuse_dlq : Bool → M SqlError ⊤
  refuse_dlq true = throw (io "fault injected: dlq.write")
  refuse_dlq false = pure tt

  unfoldable pub send_to_dlq : Env → List ℕ → String → Option ℕ → M SqlError ⊤
  send_to_dlq env payload error_message correlation_id = do
    injected ← inject env.rules "dlq.write" correlation_id
    refuse_dlq injected
    autocommit (λ e. e) env (insert_dead_letter (dead_letter self env.now payload error_message))

  -- The arms of the loop answer whether they commit the offset.
  abbrev pub after_dlq : Result SqlError ⊤ × Session → Bool × Session
  after_dlq (ok _, s) = (true, s)
  after_dlq (err _, s) = (false, s)

  unfoldable pub after_processing :
      Env → List ℕ → EventEnvelope → Result ProcessError ⊤ × Session → Bool × Session
  after_processing env payload envelope (ok _, s) = (true, s)
  after_processing env payload envelope (err e, s) = after_dlq (
      send_to_dlq env payload (display_process_error env.render e) (some envelope.correlation_id) s)

  unfoldable pub handle_payload : Around → List ℕ → Session → Bool × Session
  unfolding after_processing
  handle_payload around payload s = elim (self.codec.from_slice payload) [
    | err e ↦ (true, (send_to_dlq around.dlq payload (around.dlq.render.json e) none s).1)
    | ok envelope ↦
        after_processing around.dlq payload envelope (process_with_retry around.attempts envelope s)
  ]

  -- By the payload of the message, which may be missing.
  unfoldable pub handle_message : Option (List ℕ) → Around → Session → Bool × Session
  unfolding handle_payload
  handle_message none around s = (true, s)
  handle_message (some payload) around s = handle_payload around payload s

  abbrev pub acknowledge : Message → Around → (ℕ → ℕ) → Bool × Session → State
  acknowledge msg around offsets (commit, s) = record {
    session = s;
    offsets = if commit then commit_message msg around.offset_stored offsets else offsets;
  }

  -- One turn of the loop.
  unfoldable pub turn : Received → State → State
  unfolding handle_message
  turn receive_error st = st
  turn (received msg around) st =
      acknowledge msg around st.offsets (handle_message msg.payload around st.session)

  unfoldable pub run : List Received → State → State
  unfolding turn
  run [] st = st
  run (r ∷ rs) st = run rs (turn r st)
