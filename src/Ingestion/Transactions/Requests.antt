-- ===== src/Ingestion/Transactions/Requests.antt =====
-- The requests and answers of crates/ingestion/src/handlers/transactions.rs, their validation, and the
-- rows that a submission writes.
use Prim.Native.Char.{Char}
use Prim.Native.String.{count}
use financial_data_platform.Prelude.{
  ℕ, ⊤, Bool, true, false, ◌||◌, String, Option, none, some, List, Result, ok, err, ltb, ◌==◌,
  if◌then◌else◌,
}
use financial_data_platform.Prelude.Int.{ℤ}
use financial_data_platform.Shared.Decimal.{Decimal, to_numeric}
use financial_data_platform.Shared.Domain.{
  Currency, TransactionStatus, pending, processing, settled, failed, reversed, TransactionType,
  credit_type, debit_type, transfer_type, fee_type, reversal_type, adjustment_type,
}
use financial_data_platform.Shared.Error.{SerdeError, Render}
use financial_data_platform.Shared.Events.{EventEnvelope, new_envelope, topic_transactions}
use financial_data_platform.Store.Tables.{TransactionRow, OutboxRow, event_pending}
use financial_data_platform.Ingestion.Api.{ApiError, validation_error}

pub record SubmitTransactionRequest : Type 0 where
  pub transaction_type : TransactionType
  pub amount : Decimal
  pub currency : Currency
  pub source_account_id : Option ℕ
  pub dest_account_id : Option ℕ
  pub description : Option String
  pub metadata : Option String

pub record SubmitTransactionResponse : Type 0 where
  pub transaction_id : ℕ
  pub status : String
  pub idempotency_key : String
  pub was_duplicate : Bool

-- The headers `Idempotency-Key` and `x-request-id`, where they are there and are text.
pub record Request : Type 0 where
  pub idempotency_key : Option String
  pub x_request_id : Option String
  pub body : SubmitTransactionRequest

-- What the libraries compute.
pub record Host : Type 0 where
  pub is_alphanumeric : Char → Bool
  pub parse_uuid : String → Option ℕ
  pub to_vec : SubmitTransactionRequest → Result SerdeError (List ℕ)
  pub sha256 : List ℕ → List ℕ
  pub hex : List ℕ → String

-- The identifiers that one submission draws.
pub record Draws : Type 0 where
  pub transaction_id : ℕ
  pub event_id : ℕ
  pub outbox_id : ℕ
  pub correlation_id : ℕ

abbrev pub same_option : Option ℕ → Option ℕ → Bool
same_option none none = true
same_option (some a) (some b) = a == b
same_option _ _ = false

abbrev pub is_none : Option ℕ → Bool
is_none none = true
is_none (some _) = false

abbrev pub check_parties : TransactionType → Option ℕ → Option ℕ → Result ApiError ⊤
check_parties transfer_type source dest =
    if is_none source || is_none dest
    then err (validation_error "TRANSFER requires both source_account_id and dest_account_id")
    else if same_option source dest
    then err (validation_error "source and destination accounts must differ")
    else ok tt
check_parties debit_type source dest =
    if is_none source then err (validation_error "DEBIT/FEE requires source_account_id") else ok tt
check_parties fee_type source dest =
    if is_none source then err (validation_error "DEBIT/FEE requires source_account_id") else ok tt
check_parties credit_type source dest =
    if is_none dest
    then err (validation_error "CREDIT/ADJUSTMENT requires dest_account_id")
    else ok tt
check_parties adjustment_type source dest =
    if is_none dest
    then err (validation_error "CREDIT/ADJUSTMENT requires dest_account_id")
    else ok tt
check_parties reversal_type source dest = ok tt

-- `validate_parties`
unfoldable pub validate_parties : SubmitTransactionRequest → Result ApiError ⊤
validate_parties body =
    check_parties body.transaction_type body.source_account_id body.dest_account_id

-- `body.validate()`: the derived check counts characters, and has no message of its own.
abbrev pub validate_description : Option String → Result ApiError ⊤
validate_description none = ok tt
validate_description (some text) =
    if ltb 500 (count text) then err (validation_error "description: invalid") else ok tt

-- `status::text`
unfoldable pub status_text : TransactionStatus → String
status_text pending = "PENDING"
status_text processing = "PROCESSING"
status_text settled = "SETTLED"
status_text failed = "FAILED"
status_text reversed = "REVERSED"

abbrev pub or_else : Option String → String → String
or_else none d = d
or_else (some s) d = s

-- The row of a fresh submission, with the columns' defaults.
abbrev pub new_transaction :
    (now : ℕ) → (key request_hash : String) → SubmitTransactionRequest → TransactionRow
new_transaction now key request_hash body = record {
  idempotency_key = key;
  transaction_type = body.transaction_type;
  status = pending;
  amount = to_numeric body.amount;
  currency = body.currency;
  source_account_id = body.source_account_id;
  dest_account_id = body.dest_account_id;
  description = body.description;
  metadata = some (or_else body.metadata "{}");
  request_hash = request_hash;
  submitted_at = now;
  processed_at = none;
  settled_at = none;
  version = 1;
  worker_id = none;
  retry_count = 0;
  last_error = none;
  risk_score = none;
  compliance_checked = false;
}

-- `EventEnvelope::new(…)` of a submission.
abbrev pub submitted_event :
    (now event_id id : ℕ)
    → (key : String) → SubmitTransactionRequest
    → (correlation_id : ℕ) → EventEnvelope
submitted_event now event_id id key body correlation_id =
    new_envelope now event_id "Transaction" id 1 "TransactionSubmitted" correlation_id (record {
      transaction_id = id;
      idempotency_key = key;
      transaction_type = body.transaction_type;
      amount = body.amount;
      currency = body.currency;
      source_account_id = body.source_account_id;
      dest_account_id = body.dest_account_id;
    })

-- The source account's events go to one partition.
abbrev pub partition_of : Render → Option ℕ → ℕ → String
partition_of r none id = r.uuid id
partition_of r (some account) id = r.uuid account

abbrev pub outbox_row : Render → (now : ℕ) → EventEnvelope → Option ℕ → OutboxRow
outbox_row r now event source = record {
  aggregate_type = "Transaction";
  aggregate_id = event.aggregate_id;
  event_type = "TransactionSubmitted";
  payload = event;
  status = event_pending;
  topic = topic_transactions;
  partition_key = partition_of r source event.aggregate_id;
  created_at = now;
  published_at = none;
  retry_count = 0;
  last_error = none;
}

pub record InsertResult : Type 0 where
  pub status_code : ℕ
  pub response : SubmitTransactionResponse

-- The row that stands for a key: its id, its status, and whether it was there before.
pub record Standing : Type 0 where
  pub actual_id : ℕ
  pub status : String
  pub was_duplicate : Bool

abbrev pub respond : (key : String) → Standing → InsertResult
respond key found = record {
  status_code = if found.was_duplicate then 200 else 202;
  response = record {
    transaction_id = found.actual_id;
    status = found.status;
    idempotency_key = key;
    was_duplicate = found.was_duplicate;
  };
}

-- The body of the answer to a query.
pub record TransactionView : Type 0 where
  pub id : ℕ
  pub status : String
  pub amount : ℤ
  pub currency : Currency
  pub transaction_type : TransactionType
  pub submitted_at : ℕ
  pub settled_at : Option ℕ

unfoldable pub transaction_view : ℕ → TransactionRow → TransactionView
unfolding status_text
transaction_view id t = record {
  id = id;
  status = status_text t.status;
  amount = t.amount;
  currency = t.currency;
  transaction_type = t.transaction_type;
  submitted_at = t.submitted_at;
  settled_at = t.settled_at;
}
