-- ===== src/Worker/Processor.antt =====
-- `process_transaction` of crates/worker/src/processor.rs, in the steps that it takes: the injected
-- faults, the advisory lock, the row, its status, the optimistic lock, the fraud check, the business
-- logic, and the settlement or the record of the failure. The statements run in one database
-- transaction; what a session leaves in `committed` is what the database keeps.
pub mod Effect
pub mod Steps
pub mod Attempt
pub mod Finish
pub mod Correct
pub mod Outcome
pub mod Consistent
pub mod Replay
pub mod Succeed
pub mod Undisturbed
pub mod Carry
pub mod Settle
use Prim.Native.String.{◌++◌}
use financial_data_platform.Prelude.{
  ℕ, ◌+◌, ◌-◌, ◌/◌, ◌%◌, ◌^◌, bit_xor, ⊤, Bool, true, false, not, ◌&&◌, String, Option, none, some,
  Result, ok, err, ok_or, ltb, ◌==◌, if◌then◌else◌,
}
use financial_data_platform.Prelude.Int.{ℤ, pos, negsuc}
use financial_data_platform.Shared.Error.{pool_timed_out, optimistic_lock_conflict}
use financial_data_platform.Shared.Domain.{
  TransactionStatus, pending, processing, settled, failed, reversed, TransactionType, credit_type,
  debit_type, transfer_type, fee_type, display_type,
}
use financial_data_platform.Shared.Events.{EventEnvelope}
use financial_data_platform.Store.Tables.{TransactionRow}
use financial_data_platform.Store.Session.{
  Env, pure, throw, lift, ◌>>=◌, ◌>>◌, inject, rollback, begin, commit,
}
use financial_data_platform.Store.Statements.{select_transaction, update_transaction}
use financial_data_platform.Worker.Error.{
  ProcessError, not_found, domain, database, fraud_blocked, fraud_check_timeout, permanent,
  display_process_error, is_retryable,
}
use financial_data_platform.Worker.Fraud.{FraudResult, Timed, check}
use financial_data_platform.Worker.Postings.{
  Process, fail_if, run, process_transfer, process_credit, process_debit, mark_failed,
}

-- FRAUD_CHECK_TIMEOUT_SECS
abbrev pub fraud_check_timeout_secs : ℕ
fraud_check_timeout_secs = 5

-- `derive_advisory_lock_key`: the two halves of the 128 bits, xor-ed, as an i64.
unfoldable pub derive_advisory_lock_key : ℕ → ℤ
derive_advisory_lock_key id =
    let bits = bit_xor (id / 2 ^ 64) (id % 2 ^ 64) in
    if ltb bits (2 ^ 63) then pos bits else negsuc (2 ^ 64 - 1 - bits)

-- `tokio::time::timeout` over a check.
abbrev pub timeout : Env → ℕ → Timed → Option FraudResult
timeout env limit t = if env.timeout_expires limit t.seconds then none else some t.result

-- `status IN ('PENDING', 'PROCESSING')`
abbrev pub is_open : TransactionStatus → Bool
is_open pending = true
is_open processing = true
is_open _ = false

-- The `SET` lists of the statements on `transactions`.
abbrev pub as_processing : String → TransactionRow → TransactionRow
as_processing worker_id t = record t {
  status = processing;
  worker_id = some worker_id;
  version = t.version + 1;
}

abbrev pub as_checked : ℤ → TransactionRow → TransactionRow
as_checked score t = record t { compliance_checked = true; risk_score = some score }

abbrev pub as_settled : ℕ → TransactionRow → TransactionRow
as_settled now t = record t {
  status = settled;
  processed_at = some now;
  settled_at = some now;
  version = t.version + 1;
}

abbrev pub as_retried : String → TransactionRow → TransactionRow
as_retried error t = record t {
  status = pending;
  retry_count = t.retry_count + 1;
  last_error = some error;
  version = t.version + 1;
}

-- The result of a computation as a value.
abbrev pub attempt : {A : Type 0} → Process A → Process (Result ProcessError A)
attempt m s = let (r, s') = m s in (ok r, s')

module _ (env : Env) (event : EventEnvelope) (worker_id : String) where
  -- `mark_failed(…)`, `tx.commit()`, `return Err(…)`
  unfoldable pub give_up : String → ProcessError → Process ⊤
  give_up message e = do
    mark_failed env event.aggregate_id message event.correlation_id
    commit database env
    throw e

  unfoldable pub judge : Option FraudResult → Process ⊤
  unfolding give_up
  judge none =
      give_up
        ("fraud_check_timeout: no response within "
          ++ env.render.number (pos fraud_check_timeout_secs)
          ++ "s")
        (fraud_check_timeout fraud_check_timeout_secs)
  judge (some r) =
      if r.is_blocked then give_up ("fraud_blocked: " ++ r.reason) (fraud_blocked r.reason) else do
        run env (update_transaction event.aggregate_id (λ _. true) (as_checked r.risk_score))
        pure tt

  -- `FraudChecker::check`, on the process's fault counters.
  unfoldable pub fraud_check : TransactionRow → Process Timed
  fraud_check t s =
      let (timed, m) = check env.rules event.aggregate_id t.amount s.counters in
      (ok timed, record s { counters = m })

  unfoldable pub compliance : TransactionRow → Process ⊤
  unfolding fraud_check judge
  compliance t =
      if not t.compliance_checked
      then (do timed ← fraud_check t; judge (timeout env fraud_check_timeout_secs timed))
      else pure tt

  unfoldable pub business : TransactionType → TransactionRow → Process ⊤
  business transfer_type t =
      process_transfer env event.aggregate_id t.amount t.source_account_id t.dest_account_id
        event.correlation_id
  business credit_type t =
      process_credit env event.aggregate_id t.amount t.dest_account_id event.correlation_id
  business debit_type t =
      process_debit env event.aggregate_id t.amount t.source_account_id event.correlation_id
  business fee_type t =
      process_debit env event.aggregate_id t.amount t.source_account_id event.correlation_id
  business other t = throw (permanent ("unknown transaction type: " ++ display_type other))

  -- The `match result` that ends the function.
  unfoldable pub finish : Result ProcessError ⊤ → Process ⊤
  unfolding give_up
  finish (ok _) = do
    run env (update_transaction event.aggregate_id (λ _. true) (as_settled env.now))
    commit database env
  finish (err e) =
      if is_retryable e
      then (do
        run env (
            update_transaction event.aggregate_id (λ _. true)
              (as_retried (display_process_error env.render e)))
        commit database env
        throw e)
      else give_up (display_process_error env.render e) e

  -- From the optimistic lock on, for a row that is open.
  unfoldable pub process_open : TransactionRow → Process ⊤
  unfolding compliance business finish
  process_open t = do
    rows_updated ← run env (
        update_transaction event.aggregate_id (λ r. (r.version == t.version) && is_open r.status)
          (as_processing worker_id))
    if rows_updated == 0
        then (do
          rollback
          throw (
              domain (
                optimistic_lock_conflict "Transaction" event.aggregate_id (pos t.version)
                  (pos (t.version + 1)))))
        else (do compliance t; result ← attempt (business t.transaction_type t); finish result)

  -- The `match current_status`.
  unfoldable pub process_row : TransactionStatus → TransactionRow → Process ⊤
  unfolding process_open
  process_row settled t = rollback
  process_row reversed t = rollback
  process_row failed t = do
    rollback
    throw
        (permanent ("transaction " ++ env.render.uuid event.aggregate_id ++ " is in FAILED state"))
  process_row other t = process_open t

  unfoldable pub process_locked : Process ⊤
  unfolding process_row
  process_locked = do
    row ← run env (select_transaction event.aggregate_id)
    t ← lift (ok_or row (not_found event.aggregate_id))
    process_row t.status t

  -- `SELECT pg_try_advisory_xact_lock(…)`: the environment grants the lock or not.
  unfoldable pub try_lock : ℤ → Process (Option Bool)
  try_lock key = run env (λ db. ok (env.lock_granted, db))

  -- `locked.unwrap_or(false)`: without the lock the event is skipped.
  unfoldable pub after_lock : Option Bool → Process ⊤
  unfolding process_locked
  after_lock (some true) = process_locked
  after_lock (some false) = rollback
  after_lock none = rollback

  unfoldable pub process_transaction : Process ⊤
  unfolding after_lock try_lock
  process_transaction = do
    transient ← inject env.rules "processor.transient" (some event.correlation_id)
    fail_if transient (database pool_timed_out)
    broken ← inject env.rules "processor.permanent" (some event.correlation_id)
    fail_if broken (permanent "fault injected: processor.permanent")
    begin database env
    locked ← try_lock (derive_advisory_lock_key event.aggregate_id)
    after_lock locked
