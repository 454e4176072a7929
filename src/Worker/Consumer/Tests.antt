-- ===== src/Worker/Consumer/Tests.antt =====
-- A retry library that keeps the documented behaviour, and the consumer's theorems at the worker's
-- test database.
use financial_data_platform.Prelude.{
  ℕ, zero, suc, ◌<◌, ⊤, ◌≡◌, refl, Bool, Bool-cases, inl, inr, true, false, none, some, [], ◌∷◌,
  Result, ok, err, if◌then◌else◌, arith,
}
use financial_data_platform.Shared.Fault.{always, should_fail}
use financial_data_platform.Store.Session.{Env, Session, ◌>>=◌, inject}
use financial_data_platform.Worker.Error.{ProcessError, is_retryable}
use financial_data_platform.Worker.Postings.{Process}
use financial_data_platform.Worker.Processor.{process_transaction}
use financial_data_platform.Worker.Tests.{small_db, session, quiet, event, small_db-Consistent}
use financial_data_platform.Worker.Consumer.{
  TransactionConsumer, WorkerConfig, Message, Around, received, State, process_with_retry,
  send_to_dlq, handle_message, turn, run,
}
use financial_data_platform.Worker.Consumer.Handled.{Handled, handle_message-outcome}
use financial_data_platform.Worker.Consumer.Retries.{
  Retries, succeeded, refused, exhausted, again, Backon,
}
use financial_data_platform.Worker.Consumer.Run.{run-passes}

abbrev retry_after :
    (ProcessError → Bool)
    → (Session → Result ProcessError ⊤ × Session)
    → Result ProcessError ⊤ × Session
    → Result ProcessError ⊤ × Session
retry_after retry_when more (ok a, s) = (ok a, s)
retry_after retry_when more (err e, s) = if retry_when e then more s else (err e, s)

unfoldable pub retry_by : ℕ → ℕ → (ℕ → Process ⊤) → (ProcessError → Bool) → Process ⊤
retry_by zero n attempt retry_when s = attempt n s
retry_by (suc left) n attempt retry_when s =
    retry_after retry_when (λ s'. retry_by left (suc n) attempt retry_when s') (attempt n s)

pub retry_by-Retries :
    (left n : ℕ) (attempt : ℕ → Process ⊤) (retry_when : ProcessError → Bool) (s : Session)
    → Retries attempt retry_when left n s (retry_by left n attempt retry_when s)
unfolding retry_by
retry_by-Retries zero n attempt retry_when s = last (attempt n s) refl
  where
    last :
        (p : Result ProcessError ⊤ × Session) → attempt n s ≡ p → Retries attempt retry_when 0 n s p
    last (ok a, s') e = succeeded 0 n s s' e
    last (err x, s') e = elim (Bool-cases (retry_when x)) [
      | inl more ↦ exhausted n s s' x e more
      | inr stop ↦ refused 0 n s s' x e stop
    ]
retry_by-Retries (suc left) n attempt retry_when s =
    next (attempt n s) refl λ s'. retry_by-Retries left (suc n) attempt retry_when s'
  where
    next :
        (p : Result ProcessError ⊤ × Session)
        → attempt n s ≡ p
        → ((s' : Session)
            → Retries attempt retry_when left
                (suc n)
                s'
                (retry_by left (suc n) attempt retry_when s'))
        → Retries attempt retry_when
            (suc left)
            n
            s
            (retry_after retry_when (λ s'. retry_by left (suc n) attempt retry_when s') p)
    next (ok a, s') e rest = succeeded (suc left) n s s' e
    next (err x, s') e rest = elim (Bool-cases (retry_when x)) [
      | inl more ↦ rw more (again left n s s' x _ e more (rest s'))
      | inr stop ↦ rw stop (refused (suc left) n s s' x e stop)
    ]

abbrev backon : Backon
backon = record {
  retry = λ _ _ times attempt retry_when. retry_by times 0 attempt retry_when;
  retries = λ _ _ times attempt retry_when s. retry_by-Retries times 0 attempt retry_when s;
}

abbrev pub config : WorkerConfig
config = record {
  database_url = "";
  kafka_brokers = "";
  kafka_group_id = "workers";
  kafka_topic_transactions = "financial.transactions.v1";
  kafka_topic_dlq = "financial.transactions.dlq";
  db_max_connections = 10;
  worker_concurrency = 4;
  max_retries = 2;
  retry_backoff_ms = 1000;
  log_level = "info";
  worker_id_prefix = "worker";
}

abbrev pub consumer : TransactionConsumer
consumer = record {
  worker_id = "worker-0";
  config = config;
  codec = record { from_slice = λ _. ok event; to_value = λ _. some "{}"; hex_encode = λ _. "" };
  backon = backon;
}

abbrev pub calm : Around
calm = record { attempts = λ _. quiet; dlq = quiet; offset_stored = true }

-- Each attempt fails for good, and so does the write of the dead letter.
abbrev broken_env : Env
broken_env = record quiet { rules = ("processor.permanent", always) ∷ ("dlq.write", always) ∷ [] }

abbrev broken : Around
broken = record { attempts = λ _. broken_env; dlq = broken_env; offset_stored = true }

abbrev pub message : ℕ → Message
message offset = record { partition = 0; offset = offset; payload = some (123 ∷ []) }

abbrev blank : ℕ → Message
blank offset = record { partition = 0; offset = offset; payload = none }

abbrev state : State
state = record { session = session small_db; offsets = λ _. 0 }

handle_message-outcome_example :
    Handled consumer calm
      (some (123 ∷ []))
      small_db
      (handle_message consumer (some (123 ∷ [])) calm (session small_db)).1.committed
      (handle_message consumer (some (123 ∷ [])) calm (session small_db)).0
handle_message-outcome_example =
    handle_message-outcome consumer calm (some (123 ∷ [])) (session small_db) small_db-Consistent

first_refused : (handle_message consumer (some (123 ∷ [])) broken (session small_db)).0 ≡ false
unfolding handle_message process_with_retry retry_by process_transaction ◌>>=◌ inject should_fail
    is_retryable send_to_dlq
first_refused = refl

-- A message of another partition comes between.
abbrev elsewhere : Message
elsewhere = record { partition = 1; offset = 3; payload = none }

abbrev after_refusal : State
after_refusal = turn consumer (received (message 5) broken) state

third_committed :
    (handle_message consumer none calm
      (turn consumer (received elsewhere calm) after_refusal).session).0
    ≡ true
unfolding handle_message
third_committed = refl

run-passes_example :
    Handled consumer broken (some (123 ∷ [])) small_db after_refusal.session.committed false
    × (5
        < (run consumer
              (received (message 5) broken ∷ received elsewhere calm ∷ received (blank 7) calm ∷ [])
              state).offsets
            0)
run-passes_example =
    run-passes consumer (message 5) broken (received elsewhere calm ∷ received (blank 7) calm ∷ [])
      state small_db-Consistent first_refused (inl refl, (inr (omega arith), tt))
      (inr (inl (refl, refl, third_committed)))

abbrev attempt : ℕ → Process ⊤
attempt n = process_transaction broken_env event "worker-0"
