-- ===== src/Ingestion/Tests.antt =====
-- The theorems about the ingestion service at the worker's test database.
use financial_data_platform.Prelude.{String, err, ◌≡◌, refl, true, false, none, some, [], ok}
use financial_data_platform.Prelude.Int.{pos}
use financial_data_platform.Prelude.Table.{find, append}
use financial_data_platform.Shared.Domain.{credit_type, settled, usd}
use financial_data_platform.Shared.Decimal.{to_numeric}
use financial_data_platform.Shared.Audit.{record_audit}
use financial_data_platform.Store.Inserts.{
  find_claim, insert_transaction, select_claim, insert_outbox,
}
use financial_data_platform.Store.Logic.{Ensures}
use financial_data_platform.Store.Session.{
  Session, ◌>>=◌, begin, execute, conclude, commit, end_commit, rollback,
}
use financial_data_platform.Store.Statements.{insert_audit}
use financial_data_platform.Worker.Tests.{small_db, session, quiet, order}
use financial_data_platform.Ingestion.Accounts.{CreateAccountRequest, create_account}
use financial_data_platform.Ingestion.Accounts.Laws.{
  Opening, CanOpen, opened, create_account-outcome,
}
use financial_data_platform.Ingestion.Transactions.{
  SubmitTransactionRequest, Request, Host, Draws, InsertResult, respond, match_hash, load_existing,
  resolve, write_event, status_text, idempotency_check_and_insert, submit_transaction, prepare,
  validate_parties,
}
use financial_data_platform.Ingestion.Transactions.Accept.{submit_transaction-accepts}
use financial_data_platform.Ingestion.Transactions.Spec.{
  Landed, Answered, accepted, CanStore, CanAnnounce,
}
use financial_data_platform.Ingestion.Transactions.Outcome.{idempotency_check_and_insert-outcome}
use financial_data_platform.Ingestion.Transactions.Replay.{
  idempotency_check_and_insert-reused, idempotency_check_and_insert-twice,
}
use financial_data_platform.Ingestion.Transactions.Leaves.{submit_transaction_rounded}
use financial_data_platform.Ingestion.Api.{database}
use financial_data_platform.Shared.Error.{database as database_error}
use financial_data_platform.Store.Serve.{Serves}
use financial_data_platform.Shared.Idempotency.{IdempotencyKey, new_key, all_chars, is_url_safe}

abbrev pub body : SubmitTransactionRequest
body = record {
  transaction_type = credit_type;
  amount = record { mantissa = pos 25; scale = 0 };
  currency = usd;
  source_account_id = none;
  dest_account_id = some 1;
  description = some "gift";
  metadata = none;
}

abbrev pub req : Request
req = record { idempotency_key = some "key-1"; x_request_id = none; body = body }

abbrev pub host : Host
host = record {
  is_alphanumeric = λ _. true;
  parse_uuid = λ _. none;
  to_vec = λ _. ok [];
  sha256 = λ bytes. bytes;
  hex = λ _. "hash";
}

abbrev pub draws : Draws
draws = record { transaction_id = 100; event_id = 101; outbox_id = 102; correlation_id = 103 }

abbrev pub other_draws : Draws
other_draws = record { transaction_id = 200; event_id = 201; outbox_id = 202; correlation_id = 203 }

abbrev fresh_answer : InsertResult
fresh_answer =
    respond "key-1" (record { actual_id = 100; status = "PENDING"; was_duplicate = false })

submitted_once :
    (idempotency_check_and_insert quiet draws "key-1" "hash" body 103 (session small_db)).0
    ≡ ok fresh_answer
unfolding idempotency_check_and_insert ◌>>=◌ begin execute conclude commit end_commit rollback
    insert_transaction find_claim find append match_hash load_existing resolve write_event
    status_text select_claim insert_outbox insert_audit record_audit to_numeric
submitted_once = refl

idempotency_check_and_insert-outcome_example :
    Ensures
      (λ _ s. Landed quiet draws "key-1" "hash" body 103 small_db s.committed)
      (λ r s. Answered quiet draws "key-1" "hash" body 103 r small_db s.committed)
      (idempotency_check_and_insert quiet draws "key-1" "hash" body 103 (session small_db))
idempotency_check_and_insert-outcome_example =
    idempotency_check_and_insert-outcome quiet draws "key-1" "hash" body 103 small_db
      (session small_db) refl

abbrev after_first : Session
after_first =
    (idempotency_check_and_insert quiet draws "key-1" "hash" body 103 (session small_db)).1

idempotency_check_and_insert-twice_example :
    Ensures
      (λ _ u. u.committed ≡ after_first.committed)
      (λ r' u.
        (r'.status_code ≡ 200)
        × (r'.response.transaction_id ≡ 100)
        × (u.committed ≡ after_first.committed))
      (idempotency_check_and_insert quiet other_draws "key-1" "hash" body 203 after_first)
idempotency_check_and_insert-twice_example =
    idempotency_check_and_insert-twice quiet quiet draws other_draws "key-1" "hash" body body 103
      203 (session small_db) fresh_answer submitted_once

claimed_by_first :
    find_claim "" small_db.transactions
    ≡ some (10, order credit_type settled (pos 500000) none (some 1))
unfolding find_claim
claimed_by_first = refl

idempotency_check_and_insert-reused_example :
    Ensures
      (λ _ s'. s'.committed ≡ small_db)
      (λ _ _. ⊥)
      (idempotency_check_and_insert quiet draws "" "other" body 103 (session small_db))
idempotency_check_and_insert-reused_example =
    idempotency_check_and_insert-reused quiet draws "" "other" body 103 (session small_db) 10
      (order credit_type settled (pos 500000) none (some 1)) claimed_by_first refl

-- 0.00001
abbrev dust : Request
dust = record req { body = record body { amount = record { mantissa = pos 1; scale = 5 } } }

dust_rounds : to_numeric dust.body.amount ≡ pos 0
unfolding to_numeric
dust_rounds = refl

-- It is accepted by the validation, and refused by the table.
dust_fails :
    ((prepare quiet host dust) ≡ ok (record { as_str = "key-1" }, "hash"))
    × ((submit_transaction quiet host draws dust (session small_db)).0
        ≡ err (database (database_error "new row for transactions violates a constraint")))
unfolding submit_transaction prepare new_key all_chars is_url_safe validate_parties to_numeric
    idempotency_check_and_insert ◌>>=◌ begin execute conclude insert_transaction find_claim find
dust_fails = (refl, refl)

submit_transaction_rounded_example :
    (submit_transaction quiet host draws dust (session small_db)).1.committed ≡ small_db
submit_transaction_rounded_example =
    submit_transaction_rounded quiet host draws dust (session small_db) dust_rounds

abbrev account_body : CreateAccountRequest
account_body = record { external_id = "ext-3"; owner_id = "owner"; currency = usd }

create_account-outcome_example :
    Ensures
      (λ _ s'. Opening quiet 3 account_body small_db s'.committed)
      (λ r s'.
        (r.status_code ≡ 201)
        × (r.id ≡ 3)
        × CanOpen quiet 3 account_body small_db
        × (s'.committed ≡ opened quiet 3 account_body small_db))
      (create_account quiet 3 account_body (session small_db))
create_account-outcome_example =
    create_account-outcome quiet 3 account_body small_db (session small_db) refl

abbrev pub prepared : IdempotencyKey × String
prepared = (record { as_str = "key-1" }, "hash")

pub req-prepared : prepare quiet host req ≡ ok prepared
unfolding prepare new_key all_chars is_url_safe validate_parties
req-prepared = refl

pub key-CanStore : CanStore quiet draws "key-1" "hash" body 103 small_db
unfolding find_claim find to_numeric
key-CanStore = (refl, refl)

pub event-CanAnnounce : CanAnnounce quiet draws "key-1" "hash" body 103 small_db
unfolding find
event-CanAnnounce = refl

pub quiet-Serves : Serves quiet
quiet-Serves = record { begins = refl; answers = λ n. refl; commits = refl }

submit_transaction-accepts_example :
    let (r, s') = submit_transaction quiet host draws req (session small_db) in
    (r
      ≡ ok (record {
        status_code = 202;
        response = record {
          transaction_id = 100;
          status = "PENDING";
          idempotency_key = "key-1";
          was_duplicate = false;
        };
      }))
    × (s'.committed ≡ accepted quiet draws "key-1" "hash" body 103 small_db)
submit_transaction-accepts_example =
    submit_transaction-accepts quiet host draws req (session small_db) prepared quiet-Serves
      req-prepared key-CanStore event-CanAnnounce
