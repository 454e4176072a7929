-- ===== src/Worker/Start.antt =====
-- crates/worker/src/config.rs and crates/worker/src/main.rs: the worker's configuration, and the
-- consumers that it starts. The pool, the migrations and the tasks are the libraries'.
use Prim.Native.String.{◌++◌}
use financial_data_platform.Prelude.{
  ℕ, zero, suc, ◌≡◌, refl, ap, none, some, List, [], ◌∷◌, ok, length,
}
use financial_data_platform.Prelude.Int.{pos}
use financial_data_platform.Shared.Error.{Render}
use financial_data_platform.Shared.Settings.{
  Settings, Loading, ◌>>=◌, text, number, max_u32, max_u64,
}
use financial_data_platform.Worker.Consumer.{WorkerConfig, TransactionConsumer, Codec}
use financial_data_platform.Worker.Consumer.Retries.{Backon}

-- `WorkerConfig::load`
unfoldable pub load : Settings → Loading WorkerConfig
load s = do
  database_url ← text s "database_url" none
  kafka_brokers ← text s "kafka_brokers" none
  kafka_group_id ← text s "kafka_group_id" none
  kafka_topic_transactions ← text s "kafka_topic_transactions" (some "financial.transactions.v1")
  kafka_topic_dlq ← text s "kafka_topic_dlq" (some "financial.transactions.dlq")
  db_max_connections ← number s "db_max_connections" max_u32 10
  worker_concurrency ← number s "worker_concurrency" max_u64 4
  max_retries ← number s "max_retries" max_u32 5
  retry_backoff_ms ← number s "retry_backoff_ms" max_u64 1000
  log_level ← text s "log_level" (some "info")
  worker_id_prefix ← text s "worker_id_prefix" (some "worker")
  ok (record {
    database_url = database_url;
    kafka_brokers = kafka_brokers;
    kafka_group_id = kafka_group_id;
    kafka_topic_transactions = kafka_topic_transactions;
    kafka_topic_dlq = kafka_topic_dlq;
    db_max_connections = db_max_connections;
    worker_concurrency = worker_concurrency;
    max_retries = max_retries;
    retry_backoff_ms = retry_backoff_ms;
    log_level = log_level;
    worker_id_prefix = worker_id_prefix;
  })

module _ (render : Render) (codec : Codec) (backon : Backon) (cfg : WorkerConfig) where
  abbrev pub consumer : ℕ → TransactionConsumer
  consumer i = record {
    worker_id = cfg.worker_id_prefix ++ "-" ++ render.number (pos i);
    config = cfg;
    codec = codec;
    backon = backon;
  }

  abbrev pub spawn_from : (next left : ℕ) → List TransactionConsumer
  spawn_from next zero = []
  spawn_from next (suc left) = consumer next ∷ spawn_from (suc next) left

  -- `for worker_id in 0..cfg.worker_concurrency`
  unfoldable pub spawn : List TransactionConsumer
  spawn = spawn_from 0 cfg.worker_concurrency

  length-spawn_from : (next left : ℕ) → length (spawn_from next left) ≡ left
  length-spawn_from next zero = refl
  length-spawn_from next (suc left) = ap suc (length-spawn_from (suc next) left)

  -- As many consumers as the configuration says.
  pub length-spawn : length spawn ≡ cfg.worker_concurrency
  unfolding spawn
  length-spawn = length-spawn_from 0 cfg.worker_concurrency
