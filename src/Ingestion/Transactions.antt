-- ===== src/Ingestion/Transactions.antt =====
-- crates/ingestion/src/handlers/transactions.rs: the submission of a transaction. A request has the
-- texts of its two headers and its body; identifiers that are drawn on the way are arguments.
mod Requests
pub mod Spec
pub mod Outcome
pub mod Accept
pub mod Replay
pub mod Leaves
pub mod Consistent
use Prim.Native.Char.{Char}
use Prim.Native.String.{count}
use financial_data_platform.Prelude.{
  ℕ, ⊤, Bool, true, false, not, ◌||◌, String, Option, none, some, List, Result, ok, err, ok_or,
  map_err, ltb, ◌==◌, if◌then◌else◌,
}
use financial_data_platform.Prelude.Int.{ℤ}
use financial_data_platform.Shared.Audit.{record_audit}
use financial_data_platform.Shared.Decimal.{Decimal, to_numeric, le_zero}
use financial_data_platform.Shared.Domain.{
  Currency, TransactionStatus, pending, processing, settled, failed, reversed, TransactionType,
  credit_type, debit_type, transfer_type, fee_type, reversal_type, adjustment_type,
}
use financial_data_platform.Shared.Error.{SerdeError, Render, row_not_found}
use financial_data_platform.Shared.Events.{EventEnvelope, new_envelope, topic_transactions}
use financial_data_platform.Shared.Fault.{same_text}
use financial_data_platform.Shared.Idempotency.{
  IdempotencyKey, new_key, display_key_error, compute_request_hash,
}
use financial_data_platform.Store.Inserts.{insert_transaction, select_claim, insert_outbox}
use financial_data_platform.Store.Session.{
  Env, M, pure, throw, lift, ◌>>=◌, ◌>>◌, rollback, begin, commit, execute, autocommit,
}
use financial_data_platform.Store.Statements.{Statement, select_transaction}
use financial_data_platform.Store.Tables.{TransactionRow, OutboxRow, event_pending, submitted_state}
use financial_data_platform.Ingestion.Api.{
  ApiError, missing_idempotency_key, invalid_idempotency_key, idempotency_key_reused,
  validation_error, not_found, database, serialization,
}
pub use financial_data_platform.Ingestion.Transactions.Requests.{
  SubmitTransactionRequest, SubmitTransactionResponse, Request, Host, Draws, same_option, is_none,
  check_parties, validate_description, or_else, new_transaction, submitted_event, partition_of,
  outbox_row, InsertResult, Standing, respond, TransactionView,
}
unfoldable pub use financial_data_platform.Ingestion.Transactions.Requests.{
  validate_parties, status_text, transaction_view,
}

abbrev pub Api : Type 0 → Type 0
Api = M ApiError

module _ (env : Env) where
  abbrev pub run : {A : Type 0} → Statement A → Api A
  run = execute database env

  -- The claimed key belongs to the same request or to another one.
  unfoldable pub match_hash : (key request_hash : String) → ℕ × TransactionRow → Api Standing
  unfolding status_text
  match_hash key request_hash (id, t) =
      if same_text t.request_hash request_hash
      then pure (record { actual_id = id; status = status_text t.status; was_duplicate = true })
      else (do rollback; throw (idempotency_key_reused key))

  -- The `else` after the insert.
  unfoldable pub load_existing : (key request_hash : String) → Api Standing
  unfolding match_hash
  load_existing key request_hash = do
    row ← run (select_claim key)
    found ← lift (ok_or row (database row_not_found))
    match_hash key request_hash found

  unfoldable pub resolve : (key request_hash : String) → Option (ℕ × TransactionRow) → Api Standing
  unfolding load_existing
  resolve key request_hash (some (id, t)) =
      pure (record { actual_id = id; status = status_text t.status; was_duplicate = false })
  resolve key request_hash none = load_existing key request_hash

  -- The outbox event and the audit row of a fresh insert.
  unfoldable pub write_event :
      Draws → (key : String) → SubmitTransactionRequest → (correlation_id actual_id : ℕ) → Api ⊤
  write_event draws key body correlation_id actual_id = do
    run (
        insert_outbox draws.outbox_id (
          outbox_row env.render env.now
            (submitted_event env.now draws.event_id actual_id key body correlation_id)
            body.source_account_id))
    record_audit database env "Transaction" actual_id "SUBMITTED" none
        (submitted_state actual_id key body.amount body.currency) "api" "SYSTEM" correlation_id

  -- `if !was_duplicate`
  abbrev pub announce :
      Draws → (key : String) → SubmitTransactionRequest → (correlation_id : ℕ) → Standing → Api ⊤
  announce draws key body correlation_id found =
      if not found.was_duplicate
      then write_event draws key body correlation_id found.actual_id
      else pure tt

  unfoldable pub idempotency_check_and_insert :
      Draws
      → (key request_hash : String) → SubmitTransactionRequest
      → (correlation_id : ℕ) → Api InsertResult
  unfolding resolve write_event
  idempotency_check_and_insert draws key request_hash body correlation_id = do
    begin database env
    existing ←
        run
          (insert_transaction draws.transaction_id (new_transaction env.now key request_hash body))
    found ← resolve key request_hash existing
    announce draws key body correlation_id found
    commit database env
    pure (respond key found)

  -- The parts of a request that `submit_transaction` works out before it opens a transaction.
  unfoldable pub prepare : Host → Request → Result ApiError (IdempotencyKey × String)
  unfolding validate_parties new_key
  prepare host req = elim req.idempotency_key [
    | none ↦ err missing_idempotency_key
    | some raw_key ↦ elim (new_key host.is_alphanumeric raw_key) [
      | err e ↦ err (invalid_idempotency_key (display_key_error env.render.number e))
      | ok key ↦ elim (validate_description req.body.description) [
        | err e ↦ err e
        | ok _ ↦
            if le_zero req.body.amount
            then err (validation_error "amount must be positive")
            else elim (validate_parties req.body) [
              | err e ↦ err e
              | ok _ ↦ elim (host.to_vec req.body) [
                | err e ↦ err (serialization e)
                | ok canonical ↦ ok (key, compute_request_hash host.sha256 host.hex canonical)
              ]
            ]
      ]
    ]
  ]

  abbrev pub correlation_of : Host → Draws → Option String → ℕ
  correlation_of host draws none = draws.correlation_id
  correlation_of host draws (some text) = elim (host.parse_uuid text) [
    | none ↦ draws.correlation_id
    | some id ↦ id
  ]

  unfoldable pub submit_transaction : Host → Draws → Request → Api InsertResult
  submit_transaction host draws req = do
    (key, request_hash) ← lift (prepare host req)
    idempotency_check_and_insert draws key.as_str request_hash req.body
        (correlation_of host draws req.x_request_id)

  -- `get_transaction`, on the pool.
  unfoldable pub get_transaction : ℕ → Api TransactionView
  get_transaction id = do
    row ← autocommit database env (select_transaction id)
    t ← lift (ok_or row (not_found id))
    pure (transaction_view id t)
