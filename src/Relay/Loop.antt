-- ===== src/Relay/Loop.antt =====
-- crates/outbox-relay/src/main.rs, `main`: the polling loop, over any number of rounds, and
-- crates/outbox-relay/src/config.rs.
use financial_data_platform.Prelude.{
  ℕ, ◌+◌, String, List, [], ◌∷◌, Result, ok, err, none, some, ltb, if◌then◌else◌,
}
use financial_data_platform.Prelude.Int.{ℤ, pos}
use financial_data_platform.Shared.Settings.{
  Settings, Loading, ◌>>=◌, text, number, integer, max_u64,
}
use financial_data_platform.Store.Session.{Env}
use financial_data_platform.Relay.{RelayError, Link, RelayState, relay_batch}

pub record RelayConfig : Type 0 where
  pub database_url : String
  pub kafka_brokers : String
  pub batch_size : ℤ
  pub poll_interval_ms : ℕ
  pub log_level : String

-- `RelayConfig::load`
unfoldable pub load : Settings → Loading RelayConfig
load s = do
  database_url ← text s "database_url" none
  kafka_brokers ← text s "kafka_brokers" none
  batch_size ← integer s "batch_size" (pos 100)
  poll_interval_ms ← number s "poll_interval_ms" max_u64 200
  log_level ← text s "log_level" (some "info")
  ok (record {
    database_url = database_url;
    kafka_brokers = kafka_brokers;
    batch_size = batch_size;
    poll_interval_ms = poll_interval_ms;
    log_level = log_level;
  })

-- What surrounds one round.
pub record Round : Type 0 where
  pub env : Env
  pub link : Link

-- The relay and the milliseconds that it has slept.
pub record LoopState : Type 0 where
  pub relay : RelayState
  pub slept : ℕ

abbrev pub pause_ms : RelayConfig → Result RelayError ℕ → ℕ
pause_ms cfg (ok count) = if ltb 0 count then 0 else cfg.poll_interval_ms
pause_ms cfg (err _) = 5000

unfoldable pub poll : RelayConfig → Round → LoopState → LoopState
poll cfg round st =
    let (answer, relay) = relay_batch round.env round.link cfg.batch_size st.relay in
    record { relay = relay; slept = st.slept + pause_ms cfg answer }

-- The loop, which has no end of its own.
unfoldable pub poll_all : RelayConfig → List Round → LoopState → LoopState
unfolding poll
poll_all cfg [] st = st
poll_all cfg (round ∷ rounds) st = poll_all cfg rounds (poll cfg round st)
