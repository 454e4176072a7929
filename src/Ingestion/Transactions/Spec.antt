-- ===== src/Ingestion/Transactions/Spec.antt =====
-- What a submission promises: it is stored with its event and its audit row, or it is answered from
-- the row that holds its key, or nothing happens.
use financial_data_platform.Prelude.{ℕ, ◌≡◌, String, none, some, true, false, ◌∷◌}
use financial_data_platform.Prelude.Table.{append, find}
use financial_data_platform.Shared.Fault.{same_text}
use financial_data_platform.Store.Inserts.{find_claim, admits}
use financial_data_platform.Store.Session.{Env}
use financial_data_platform.Store.Tables.{TransactionRow, submitted_state, Db}
use financial_data_platform.Ingestion.Transactions.{
  SubmitTransactionRequest, Draws, new_transaction, submitted_event, outbox_row, InsertResult,
}

module _ (env : Env) (draws : Draws) (key request_hash : String) (body : SubmitTransactionRequest)
    (correlation_id : ℕ) where
  -- The row, its event in the outbox and its audit row, together.
  abbrev pub accepted : Db → Db
  accepted db = record db {
    transactions =
        append draws.transaction_id (new_transaction env.now key request_hash body) db.transactions;
    outbox_events =
        append draws.outbox_id
          (outbox_row env.render env.now
            (submitted_event env.now draws.event_id draws.transaction_id key body correlation_id)
            body.source_account_id)
          db.outbox_events;
    audit_log =
        record {
          entity_type = "Transaction";
          entity_id = draws.transaction_id;
          action = "SUBMITTED";
          old_state = none;
          new_state = submitted_state draws.transaction_id key body.amount body.currency;
          actor_id = "api";
          actor_type = "SYSTEM";
          correlation_id = correlation_id;
          occurred_at = env.now;
        }
        ∷ db.audit_log;
  }

  -- The key is free, and the row meets the table's constraints.
  abbrev pub CanStore : Db → Type 0
  CanStore db =
      (find_claim key db.transactions ≡ none)
      × (admits draws.transaction_id (new_transaction env.now key request_hash body) db ≡ true)

  -- The identifier of the event is free.
  abbrev pub CanAnnounce : Db → Type 0
  CanAnnounce db = find draws.outbox_id db.outbox_events ≡ none

  -- What an error may leave: nothing, or all of it where only the answer to the COMMIT was lost.
  pub data Landed (db db' : Db) : Type 0 where
    nothing : db' ≡ db → Landed db db'
    stored : CanStore db → CanAnnounce db → db' ≡ accepted db → Landed db db'

  -- What a success says.
  pub data Answered (r : InsertResult) (db db' : Db) : Type 0 where
    replayed :
        (id : ℕ) (t : TransactionRow)
        → find_claim key db.transactions ≡ some (id, t)
        → same_text t.request_hash request_hash ≡ true
        → r.status_code ≡ 200
        → r.response.transaction_id ≡ id
        → r.response.was_duplicate ≡ true
        → db' ≡ db
        → Answered r db db'
    fresh :
        CanStore db
        → CanAnnounce db
        → r.status_code ≡ 202
        → r.response.transaction_id ≡ draws.transaction_id
        → r.response.was_duplicate ≡ false
        → db' ≡ accepted db
        → Answered r db db'
