-- ===== src/Worker/Processor/Effect.antt =====
-- What the processing of one event may leave in the database: nothing, a settlement, a failure that
-- is on record, or a row that waits for its retry.
use financial_data_platform.Prelude.{ℕ, ◌≡◌, ◌≢◌, ◌⊎◌, ◌∷◌, String, some, none, true}
use financial_data_platform.Prelude.Table.{find, set}
use financial_data_platform.Shared.Domain.{TransactionStatus, pending, settled, failed, reversed}
use financial_data_platform.Shared.Events.{EventEnvelope}
use financial_data_platform.Store.Session.{Env}
use financial_data_platform.Store.Tables.{TransactionRow, failed_state, Db}
use financial_data_platform.Worker.Postings.Spec.{performed}
use financial_data_platform.Worker.Processor.{is_open}

-- What a transaction asks for, which its processing does not change.
pub record SameOrder (t r : TransactionRow) : Type 0 where
  pub same_type : r.transaction_type ≡ t.transaction_type
  pub same_amount : r.amount ≡ t.amount
  pub same_source : r.source_account_id ≡ t.source_account_id
  pub same_dest : r.dest_account_id ≡ t.dest_account_id
  pub same_currency : r.currency ≡ t.currency
  pub same_key : r.idempotency_key ≡ t.idempotency_key
  pub same_hash : r.request_hash ≡ t.request_hash
  pub same_submission : r.submitted_at ≡ t.submitted_at

module _ (env : Env) (event : EventEnvelope) where
  abbrev id : ℕ
  id = event.aggregate_id

  -- The row of the transaction is replaced.
  abbrev pub with_row : TransactionRow → Db → Db
  with_row r db = record db { transactions = set id r db.transactions }

  abbrev pub with_failure : String → Db → Db
  with_failure message db = record db {
    audit_log =
        record {
          entity_type = "Transaction";
          entity_id = id;
          action = "FAILED";
          old_state = none;
          new_state = failed_state message;
          actor_id = "worker";
          actor_type = "WORKER";
          correlation_id = event.correlation_id;
          occurred_at = env.now;
        }
        ∷ db.audit_log;
  }

  -- The open transaction has become `r`, with the order unchanged.
  pub record Becomes (db : Db) (status : TransactionStatus) (r : TransactionRow) : Type 0 where
    pub before : TransactionRow
    pub was_there : find id db.transactions ≡ some before
    pub was_open : is_open before.status ≡ true
    pub order : SameOrder before r
    pub now_status : r.status ≡ status

  pub data Settles (db db' : Db) : Type 0 where
    settles :
        (r : TransactionRow) (d : Db)
        → Becomes db settled r
        → performed env.now id event.correlation_id r.transaction_type r.amount r.source_account_id
            r.dest_account_id db
          ≡ some d
        → db' ≡ record d { transactions = set id r db.transactions }
        → Settles db db'

  pub data Effect (db db' : Db) : Type 0 where
    unchanged : db' ≡ db → Effect db db'
    settlement : Settles db db' → Effect db db'
    failure :
        (r : TransactionRow) (message : String)
        → Becomes db failed r
        → db' ≡ with_failure message (with_row r db)
        → Effect db db'
    retry : (r : TransactionRow) → Becomes db pending r → db' ≡ with_row r db → Effect db db'

  -- What an Ok says: another worker holds the lock, or the transaction was already settled or
  -- reversed, or it has just been settled.
  pub data Accepted (db db' : Db) : Type 0 where
    held_elsewhere : env.lock_granted ≢ some true → db' ≡ db → Accepted db db'
    settled_before :
        (t : TransactionRow)
        → find id db.transactions ≡ some t
        → (t.status ≡ settled) ⊎ (t.status ≡ reversed)
        → db' ≡ db
        → Accepted db db'
    settled_now : Settles db db' → Accepted db db'
