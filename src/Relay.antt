-- ===== src/Relay.antt =====
-- crates/outbox-relay/src/main.rs: one batch of the outbox relay. What the producer sends goes to a
-- log, newest first; whether a send is acknowledged, and whether a rejected one reached the broker
-- all the same, is decided outside, and so is which rows another relay holds.
pub mod Select
pub mod Order
pub mod Send
pub mod Mark
pub mod Batch
pub mod Delivered
pub mod Publish
pub mod Backlog
pub mod Loop
pub mod Rounds
pub mod Drain
mod Tests
use financial_data_platform.Prelude.{
  ℕ, suc, ◌+◌, ◌-◌, ⊤, Bool, true, false, not, ◌&&◌, ◌||◌, String, Option, none, some, List, [],
  ◌∷◌, Result, ok, err, ltb, leb, ◌==◌, if◌then◌else◌, length,
}
use financial_data_platform.Prelude.Int.{ℤ, pos, negsuc}
use financial_data_platform.Prelude.Table.{Table, find, set}
use financial_data_platform.Shared.Error.{SqlError, database, SerdeError}
use financial_data_platform.Shared.Events.{EventEnvelope}
use financial_data_platform.Store.Session.{
  Env, Session, M, pure, ◌>>=◌, ◌>>◌, begin, commit, rollback, execute,
}
use financial_data_platform.Store.Statements.{Statement, max_i32}
use financial_data_platform.Store.Tables.{
  EventStatus, event_pending, event_published, event_failed, OutboxRow, Db,
}

-- The `anyhow::Error`s of a batch.
pub data RelayError : Type 0 where
  sqlx : SqlError → RelayError
  serialization : SerdeError → RelayError

-- A record that the broker has, as its topic, key and payload.
pub record Sent : Type 0 where
  pub topic : String
  pub key : String
  pub payload : List ℕ

-- The answer to `producer.send`.
pub data SendResult : Type 0 where
  acknowledged : SendResult
  rejected : (error : String) (reached : Bool) → SendResult

pub record Link : Type 0 where
  pub to_vec : EventEnvelope → Result SerdeError (List ℕ)
  pub send : ℕ → SendResult
  pub locked_elsewhere : ℕ → Bool

abbrev pub Events : Type 0
Events = List (ℕ × OutboxRow)

abbrev pub Failures : Type 0
Failures = List (ℕ × String)

abbrev pub is_pending : EventStatus → Bool
is_pending event_pending = true
is_pending _ = false

-- `WHERE status = 'PENDING' … SKIP LOCKED`
abbrev pub pending_rows : (ℕ → Bool) → Events → Events
pending_rows locked [] = []
pending_rows locked ((id, row) ∷ rows) =
    let rest = pending_rows locked rows in
    if is_pending row.status && not (locked id) then (id, row) ∷ rest else rest

abbrev pub insert_by_time : ℕ × OutboxRow → Events → Events
insert_by_time e [] = e ∷ []
insert_by_time e (f ∷ fs) =
    let rest = insert_by_time e fs in
    if leb e.1.created_at f.1.created_at then e ∷ f ∷ fs else f ∷ rest

-- `ORDER BY created_at ASC`; rows of the same time keep the table's order.
abbrev pub order_by_time : Events → Events
order_by_time [] = []
order_by_time (e ∷ es) = insert_by_time e (order_by_time es)

abbrev pub take {ℓ} : {A : Type ℓ} → ℕ → List A → List A
take n [] = []
take n (x ∷ xs) = let rest = take (n - 1) xs in if n == 0 then [] else x ∷ rest

abbrev pub batch_of : (ℕ → Bool) → ℕ → Table OutboxRow → Events
batch_of locked n rows = take n (order_by_time (pending_rows locked rows))

-- `LIMIT`, which must not be negative.
unfoldable pub select_pending : (ℕ → Bool) → ℤ → Statement Events
select_pending locked (pos n) db = ok (batch_of locked n db.outbox_events, db)
select_pending locked (negsuc _) db = err (database "LIMIT must not be negative")

abbrev pub sent_of : OutboxRow → List ℕ → Sent
sent_of row payload = record { topic = row.topic; key = row.partition_key; payload = payload }

abbrev pub deliver : SendResult → Sent → List Sent → List Sent
deliver acknowledged x log = x ∷ log
deliver (rejected _ true) x log = x ∷ log
deliver (rejected _ false) x log = log

abbrev pub Tally : Type 0
Tally = Result RelayError (List ℕ × Failures) × List Sent

-- `published_ids.push` or `failed_ids.push`, before the events that follow.
abbrev pub note : ℕ → SendResult → Tally → Tally
note id answer (err e, log) = (err e, log)
note id acknowledged (ok (published, failed), log) = (ok (id ∷ published, failed), log)
note id (rejected e _) (ok (published, failed), log) = (ok (published, (id, e) ∷ failed), log)

-- The loop over the batch: a payload that cannot be serialised ends it.
unfoldable pub send_all : Link → Events → List Sent → Tally
send_all link [] log = (ok ([], []), log)
send_all link ((id, row) ∷ events) log = elim (link.to_vec row.payload) [
  | err e ↦ (err (serialization e), log)
  | ok payload ↦
      note id (link.send id)
        (send_all link events (deliver (link.send id) (sent_of row payload) log))
]

abbrev pub contains : ℕ → List ℕ → Bool
contains id [] = false
contains id (j ∷ js) = let rest = contains id js in if j == id then true else rest

abbrev pub as_published : (now : ℕ) → OutboxRow → OutboxRow
as_published now row = record row { status = event_published; published_at = some now }

abbrev pub publish_rows : (now : ℕ) → List ℕ → Table OutboxRow → Table OutboxRow
publish_rows now ids [] = []
publish_rows now ids ((id, row) ∷ rows) =
    let rest = publish_rows now ids rows in
    if contains id ids then (id, as_published now row) ∷ rest else (id, row) ∷ rest

-- `UPDATE … WHERE id = ANY(…)`
unfoldable pub mark_published : (now : ℕ) → List ℕ → Statement ⊤
mark_published now ids db =
    ok (tt, record db { outbox_events = publish_rows now ids db.outbox_events })

-- The `CASE` sees the old count.
abbrev pub as_bounced : String → OutboxRow → OutboxRow
as_bounced error row = record row {
  retry_count = row.retry_count + 1;
  last_error = some error;
  status = if leb 10 row.retry_count then event_failed else row.status;
}

unfoldable pub record_failure : ℕ → String → Statement ⊤
record_failure id error db = elim (find id db.outbox_events) [
  | none ↦ ok (tt, db)
  | some row ↦
      if leb (row.retry_count + 1) max_i32
      then ok (tt, record db { outbox_events = set id (as_bounced error row) db.outbox_events })
      else err (database "integer out of range")
]

abbrev pub Relaying : Type 0 → Type 0
Relaying = M RelayError

-- The connection and the broker's log.
pub record RelayState : Type 0 where
  pub session : Session
  pub log : List Sent

module _ (env : Env) where
  abbrev pub run : {A : Type 0} → Statement A → Relaying A
  run = execute sqlx env

  unfoldable pub mark_if_any : List ℕ → Relaying ⊤
  mark_if_any [] = pure tt
  mark_if_any (id ∷ ids) = run (mark_published env.now (id ∷ ids))

  unfoldable pub record_failures : Failures → Relaying ⊤
  record_failures [] = pure tt
  record_failures ((id, error) ∷ failed) = do run (record_failure id error); record_failures failed

  unfoldable pub conclude_batch : List ℕ → Failures → Relaying ℕ
  unfolding mark_if_any record_failures
  conclude_batch published failed = do
    mark_if_any published
    record_failures failed
    commit sqlx env
    pure (length published)

  unfoldable pub fetch : Link → ℤ → Relaying Events
  fetch link batch_size = do begin sqlx env; run (select_pending link.locked_elsewhere batch_size)

  abbrev pub after_send : Session → Tally → Result RelayError ℕ × RelayState
  after_send s (err e, log) = (err e, record { session = s; log = log })
  after_send s (ok (published, failed), log) =
      let (r, s') = conclude_batch published failed s in (r, record { session = s'; log = log })

  unfoldable pub after_fetch :
      Link → List Sent → Result RelayError Events × Session → Result RelayError ℕ × RelayState
  unfolding conclude_batch send_all
  after_fetch link log (err e, s) = (err e, record { session = s; log = log })
  after_fetch link log (ok [], s) =
      (ok 0, record { session = record s { working = s.committed; aborted = false }; log = log })
  after_fetch link log (ok (e ∷ es), s) = after_send s (send_all link (e ∷ es) log)

  unfoldable pub relay_batch : Link → ℤ → RelayState → Result RelayError ℕ × RelayState
  unfolding after_fetch fetch
  relay_batch link batch_size st = after_fetch link st.log (fetch link batch_size st.session)
