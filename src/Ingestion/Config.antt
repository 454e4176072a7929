-- ===== src/Ingestion/Config.antt =====
-- crates/ingestion/src/config.rs: the configuration of the ingestion service.
use financial_data_platform.Prelude.{ℕ, String, Option, none, some, ok}
use financial_data_platform.Shared.Settings.{
  Settings, Loading, ◌>>=◌, text, optional_text, number, max_u32, max_u64,
}

pub record AppConfig : Type 0 where
  pub database_url : String
  pub redis_url : String
  pub listen_addr : String
  pub log_level : String
  pub db_max_connections : ℕ
  pub rate_limit_per_minute : ℕ
  pub otlp_endpoint : Option String
  pub environment : String

-- `AppConfig::load`
unfoldable pub load : Settings → Loading AppConfig
load s = do
  database_url ← text s "database_url" none
  redis_url ← text s "redis_url" none
  listen_addr ← text s "listen_addr" (some "0.0.0.0:8080")
  log_level ← text s "log_level" (some "info")
  db_max_connections ← number s "db_max_connections" max_u32 20
  rate_limit_per_minute ← number s "rate_limit_per_minute" max_u64 1000
  otlp_endpoint ← optional_text s "otlp_endpoint"
  environment ← text s "environment" (some "development")
  ok (record {
    database_url = database_url;
    redis_url = redis_url;
    listen_addr = listen_addr;
    log_level = log_level;
    db_max_connections = db_max_connections;
    rate_limit_per_minute = rate_limit_per_minute;
    otlp_endpoint = otlp_endpoint;
    environment = environment;
  })
