-- ===== src/Reporting/Config.antt =====
-- crates/reporting/src/config.rs: the configuration of the reporting service.
use financial_data_platform.Prelude.{ℕ, String, none, some, ok}
use financial_data_platform.Shared.Settings.{Settings, Loading, ◌>>=◌, text, number, max_u32}

pub record ReportingConfig : Type 0 where
  pub database_url : String
  pub listen_addr : String
  pub db_max_connections : ℕ
  pub log_level : String

-- `ReportingConfig::load`
unfoldable pub load : Settings → Loading ReportingConfig
load s = do
  database_url ← text s "database_url" none
  listen_addr ← text s "listen_addr" (some "0.0.0.0:8082")
  db_max_connections ← number s "db_max_connections" max_u32 5
  log_level ← text s "log_level" (some "info")
  ok (record {
    database_url = database_url;
    listen_addr = listen_addr;
    db_max_connections = db_max_connections;
    log_level = log_level;
  })
