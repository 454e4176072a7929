-- ===== src/Store/Tables.antt =====
-- The tables of migrations/001_initial_schema.sql, as far as the services read or write them. A row
-- stands under its primary key; identifiers that the database makes up for rows which nothing
-- refers to (ledger, audit, dead letters) are left out, and so are the columns that no code names.
-- Amounts are in ten-thousandths. Append-only tables are newest first.
use financial_data_platform.Prelude.{ℕ, Bool, String, Option, List}
use financial_data_platform.Prelude.Int.{ℤ}
use financial_data_platform.Prelude.Table.{Table}
use financial_data_platform.Shared.Decimal.{Decimal}
use financial_data_platform.Shared.Events.{EventEnvelope}
use financial_data_platform.Shared.Domain.{Currency, TransactionStatus, TransactionType}

pub record AccountRow : Type 0 where
  pub external_id : String
  pub owner_id : String
  pub currency : Currency
  pub balance : ℤ
  pub version : ℕ
  pub is_active : Bool
  pub created_at : ℕ
  pub updated_at : ℕ

pub record TransactionRow : Type 0 where
  pub idempotency_key : String
  pub transaction_type : TransactionType
  pub status : TransactionStatus
  pub amount : ℤ
  pub currency : Currency
  pub source_account_id : Option ℕ
  pub dest_account_id : Option ℕ
  pub description : Option String
  pub metadata : Option String
  pub request_hash : String
  pub submitted_at : ℕ
  pub processed_at : Option ℕ
  pub settled_at : Option ℕ
  pub version : ℕ
  pub worker_id : Option String
  pub retry_count : ℕ
  pub last_error : Option String
  pub risk_score : Option ℤ
  pub compliance_checked : Bool

-- `entry_type` is 'DEBIT' or 'CREDIT' by a check of the table.
pub data EntryType : Type 0 where
  debit_entry credit_entry : EntryType

pub record LedgerRow : Type 0 where
  pub transaction_id : ℕ
  pub account_id : ℕ
  pub entry_type : EntryType
  pub amount : ℤ
  pub currency : Currency
  pub running_balance : ℤ
  pub posted_at : ℕ
  pub sequence_num : ℕ

-- The JSON objects that the services write as an audit row's new state.
pub data AuditState : Type 0 where
  submitted_state : (id : ℕ) (key : String) (amount : Decimal) (currency : Currency) → AuditState
  settled_state :
      (type : String) (amount : ℤ) (source_account_id dest_account_id : Option ℕ) → AuditState
  failed_state : (error : String) → AuditState

pub record AuditRow : Type 0 where
  pub entity_type : String
  pub entity_id : ℕ
  pub action : String
  pub old_state : Option AuditState
  pub new_state : AuditState
  pub actor_id : String
  pub actor_type : String
  pub correlation_id : ℕ
  pub occurred_at : ℕ

-- `event_status`
pub data EventStatus : Type 0 where
  event_pending event_published event_failed : EventStatus

-- The payload is the envelope, which the ingestion service serialises.
pub record OutboxRow : Type 0 where
  pub aggregate_type : String
  pub aggregate_id : ℕ
  pub event_type : String
  pub payload : EventEnvelope
  pub status : EventStatus
  pub topic : String
  pub partition_key : String
  pub created_at : ℕ
  pub published_at : Option ℕ
  pub retry_count : ℕ
  pub last_error : Option String

-- The JSON that a dead letter keeps: the message's own, or its bytes in hexadecimal.
pub data DeadPayload : Type 0 where
  parsed raw : String → DeadPayload

pub record DeadLetterRow : Type 0 where
  pub source_topic : String
  pub payload : DeadPayload
  pub error_message : String
  pub first_failed_at : ℕ

pub record Db : Type 0 where
  pub accounts : Table AccountRow
  pub transactions : Table TransactionRow
  pub ledger_entries : List LedgerRow
  pub audit_log : List AuditRow
  pub outbox_events : Table OutboxRow
  pub dead_letter_queue : List DeadLetterRow
