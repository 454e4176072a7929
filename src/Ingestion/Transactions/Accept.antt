-- ===== src/Ingestion/Transactions/Accept.antt =====
-- A submission that nothing disturbs is accepted.
use financial_data_platform.Prelude.{ℕ, ◌≡◌, refl, ap, ◌∙◌, false, String, some, ok}
use financial_data_platform.Prelude.Table.{append}
use financial_data_platform.Shared.Idempotency.{IdempotencyKey}
use financial_data_platform.Shared.Audit.{record_audit}
use financial_data_platform.Store.Inserts.{insert_transaction, insert_outbox}
use financial_data_platform.Store.Serve.{Serves, >>=-ok, begin-ok, execute-ok, commit-ok}
use financial_data_platform.Store.Session.{Env, Session, lift}
use financial_data_platform.Store.Statements.{insert_audit}
use financial_data_platform.Store.Tables.{TransactionRow, Db}
use financial_data_platform.Ingestion.Api.{database}
use financial_data_platform.Ingestion.Transactions.{
  SubmitTransactionRequest, Request, Host, prepare, correlation_of, submit_transaction, Draws,
  InsertResult, new_transaction, outbox_row, submitted_event, run, resolve, write_event,
  status_text, respond, idempotency_check_and_insert,
}
use financial_data_platform.Ingestion.Transactions.Spec.{accepted, CanStore, CanAnnounce}

module _ (env : Env) (serves : Serves env) (draws : Draws) (key request_hash : String)
    (body : SubmitTransactionRequest) (correlation_id : ℕ) (s : Session) where
  abbrev db : Db
  db = s.committed

  abbrev row : TransactionRow
  row = new_transaction env.now key request_hash body

  -- What the three statements leave, one after the other.
  abbrev with_row : Db
  with_row = record db { transactions = append draws.transaction_id row db.transactions }

  abbrev with_event : Db
  with_event = record with_row {
    outbox_events =
        append draws.outbox_id
          (outbox_row env.render env.now
            (submitted_event env.now draws.event_id draws.transaction_id key body correlation_id)
            body.source_account_id)
          db.outbox_events;
  }

  abbrev pub new_db : Db
  new_db = accepted env draws key request_hash body correlation_id db

  abbrev at : ℕ → Db → Session
  at n d = record s { working = d; statements = n; aborted = false }

  stored :
      CanStore env draws key request_hash body correlation_id db
      → run env (insert_transaction draws.transaction_id row) (at 0 db)
        ≡ (ok (some (draws.transaction_id, row)), at 1 with_row)
  unfolding insert_transaction
  stored (free, fits) =
      execute-ok database env serves (insert_transaction draws.transaction_id row) (at 0 db) refl
        (rw (free, insert_transaction, fits) refl)

  announced :
      CanAnnounce env draws key request_hash body correlation_id db
      → write_event env draws key body correlation_id draws.transaction_id (at 1 with_row)
        ≡ (ok tt, at 3 new_db)
  unfolding write_event insert_outbox record_audit insert_audit
  announced free =
      >>=-ok _ _ (at 1 with_row)
        (execute-ok database env serves _ (at 1 with_row) refl (rw free refl))
      ∙ execute-ok database env serves _ (at 2 with_event) refl refl

  abbrev pub answer : InsertResult
  answer =
      respond key
        (record { actual_id = draws.transaction_id; status = "PENDING"; was_duplicate = false })

  checked :
      CanStore env draws key request_hash body correlation_id db
      → CanAnnounce env draws key request_hash body correlation_id db
      → idempotency_check_and_insert env draws key request_hash body correlation_id s
        ≡ (ok answer, record (at 3 new_db) { committed = new_db })
  unfolding idempotency_check_and_insert resolve status_text
  checked can free =
      >>=-ok _ _ s (begin-ok database env serves s)
      ∙ >>=-ok _ _ (at 0 db) (stored can)
      ∙ >>=-ok (resolve env key request_hash (some (draws.transaction_id, row))) _ (at 1 with_row)
          refl
      ∙ >>=-ok _ _ (at 1 with_row) (announced free)
      ∙ >>=-ok _ _ (at 3 new_db) (commit-ok database env serves (at 3 new_db) refl)

-- Where the database answers and commits, a request that passes the validation, whose key is free,
-- whose row meets the constraints of the table and whose event's identifier is free, is answered
-- with 202, its new identifier and the status PENDING, and its row, its event and its audit row are
-- committed.
pub submit_transaction-accepts :
    (env : Env) (host : Host) (draws : Draws) (req : Request) (s : Session)
    (q : IdempotencyKey × String)
    → Serves env
    → prepare env host req ≡ ok q
    → CanStore env draws q.0.as_str q.1 req.body
        (correlation_of env host draws req.x_request_id)
        s.committed
    → CanAnnounce env draws q.0.as_str q.1 req.body
        (correlation_of env host draws req.x_request_id)
        s.committed
    → let (r, s') = submit_transaction env host draws req s in
      (r
        ≡ ok (record {
          status_code = 202;
          response = record {
            transaction_id = draws.transaction_id;
            status = "PENDING";
            idempotency_key = q.0.as_str;
            was_duplicate = false;
          };
        }))
      × (s'.committed
          ≡ accepted env draws q.0.as_str q.1 req.body
              (correlation_of env host draws req.x_request_id)
              s.committed)
unfolding submit_transaction
submit_transaction-accepts env host draws req s q serves fine can free =
    let whole =
      >>=-ok (lift (prepare env host req)) _ s (ap (λ r. (r, s)) fine)
      ∙ checked env serves draws q.0.as_str q.1 req.body
          (correlation_of env host draws req.x_request_id) s can free in
    (ap (λ p. p.0) whole, ap (λ p. p.1.committed) whole)
