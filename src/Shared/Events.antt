-- ===== src/Shared/Events.antt =====
-- crates/shared/src/events.rs: the envelope of an event, and the event that is published. The
-- payload is the event itself, whose JSON form no service reads back.
use financial_data_platform.Prelude.{ℕ, String, Option}
use financial_data_platform.Shared.Decimal.{Decimal}
use financial_data_platform.Shared.Domain.{Currency, TransactionType}

abbrev pub topic_transactions : String
topic_transactions = "financial.transactions.v1"

pub record TransactionSubmitted : Type 0 where
  pub transaction_id : ℕ
  pub idempotency_key : String
  pub transaction_type : TransactionType
  pub amount : Decimal
  pub currency : Currency
  pub source_account_id : Option ℕ
  pub dest_account_id : Option ℕ

pub record EventEnvelope : Type 0 where
  pub event_id : ℕ
  pub event_type : String
  pub aggregate_type : String
  pub aggregate_id : ℕ
  pub occurred_at : ℕ
  pub aggregate_version : ℕ
  pub correlation_id : ℕ
  pub payload : TransactionSubmitted

-- `EventEnvelope::new`, at a time and with the identifier that it draws.
abbrev pub new_envelope :
    (now event_id : ℕ)
    → (aggregate_type : String) → (aggregate_id aggregate_version : ℕ) → (event_type : String)
    → (correlation_id : ℕ) → TransactionSubmitted
    → EventEnvelope
new_envelope now event_id aggregate_type aggregate_id aggregate_version event_type correlation_id
      payload =
    record {
      event_id = event_id;
      event_type = event_type;
      aggregate_type = aggregate_type;
      aggregate_id = aggregate_id;
      occurred_at = now;
      aggregate_version = aggregate_version;
      correlation_id = correlation_id;
      payload = payload;
    }
