-- ===== src/Worker/Processor/Replay.antt =====
-- At-least-once delivery: an event that comes again, and any sequence of events, in any order, each
-- under its own environment.
use financial_data_platform.Prelude.{
  ℕ, ⊤, ◌≡◌, refl, false, String, some, List, [], ◌∷◌, arith, Result, ok, err,
}
use financial_data_platform.Prelude.Table.{find, set, find-set_ne}
use financial_data_platform.Shared.Domain.{TransactionStatus, settled, failed}
use financial_data_platform.Shared.Events.{EventEnvelope}
use financial_data_platform.Store.Logic.{Ensures}
use financial_data_platform.Store.Session.{Env, Session}
use financial_data_platform.Store.Tables.{TransactionRow, Db}
use financial_data_platform.Worker.Error.{ProcessError}
use financial_data_platform.Worker.Ledger.Operations.{entries_of}
use financial_data_platform.Worker.Processor.{is_open, process_transaction}
use financial_data_platform.Worker.Processor.Effect.{
  Becomes, Settles, settles, Effect, unchanged, settlement, failure, retry, Accepted,
  held_elsewhere, settled_before, settled_now,
}
use financial_data_platform.Worker.Processor.Outcome.{process_transaction-outcome, Fails, Done}
use financial_data_platform.Worker.Processor.Consistent.{
  Consistent, process_transaction-Consistent, expected_entries,
}

module _ (env : Env) (event : EventEnvelope) (db : Db) (j : ℕ) (t : TransactionRow)
    (found : find j db.transactions ≡ some t) (closed : is_open t.status ≡ false) where
  -- The row that an event replaces is open, so it is another one.
  other_row :
      (status : TransactionStatus) (r : TransactionRow)
      → Becomes env event db status r
      → find j (set event.aggregate_id r db.transactions) ≡ some t
  other_row status r b =
      ground (arith, b.was_there, b.was_open, find-set_ne j event.aggregate_id r db.transactions)

  Settles-row : (db' : Db) → Settles env event db db' → find j db'.transactions ≡ some t
  Settles-row db' (settles r d b done same) = rw same (other_row settled r b)

  Effect-row : (db' : Db) → Effect env event db db' → find j db'.transactions ≡ some t
  Effect-row db' (unchanged same) = rw same found
  Effect-row db' (settlement s) = Settles-row db' s
  Effect-row db' (failure r message b same) = rw same (other_row failed r b)
  Effect-row db' (retry r b same) = rw same (other_row _ r b)

  Accepted-row : (db' : Db) → Accepted env event db db' → find j db'.transactions ≡ some t
  Accepted-row db' (held_elsewhere _ same) = rw same found
  Accepted-row db' (settled_before _ _ _ same) = rw same found
  Accepted-row db' (settled_now s) = Settles-row db' s

process_transaction-row :
    (env : Env) (event : EventEnvelope) (worker_id : String) (s : Session) (j : ℕ)
    (t : TransactionRow)
    → Consistent s.committed
    → find j s.committed.transactions ≡ some t
    → is_open t.status ≡ false
    → find j (process_transaction env event worker_id s).1.committed.transactions ≡ some t
process_transaction-row env event worker_id s j t c found closed =
    by_result (process_transaction env event worker_id s) (
      process_transaction-outcome env event worker_id s.committed s refl
        (c.parties event.aggregate_id))
  where
    by_result :
        (p : Result ProcessError ⊤ × Session)
        → Ensures (Fails env event worker_id s.committed) (Done env event worker_id s.committed) p
        → find j p.1.committed.transactions ≡ some t
    by_result (ok _, s') done =
        Accepted-row env event s.committed j t found closed s'.committed done
    by_result (err _, s') effect =
        Effect-row env event s.committed j t found closed s'.committed effect

-- A delivery: the environment that it meets, the event, and the worker that takes it.
abbrev pub Delivery : Type 0
Delivery = Env × EventEnvelope × String

unfoldable pub deliver_all : List Delivery → Session → Session
deliver_all [] s = s
deliver_all ((env, event, worker_id) ∷ rest) s =
    deliver_all rest (process_transaction env event worker_id s).1

-- A consistent database stays consistent over every sequence of deliveries, repeated ones too, each
-- with its own environment, event and worker.
pub deliver_all-Consistent :
    (ds : List Delivery) (s : Session)
    → Consistent s.committed
    → Consistent (deliver_all ds s).committed
unfolding deliver_all
deliver_all-Consistent [] s c = c
deliver_all-Consistent ((env, event, worker_id) ∷ rest) s c =
    deliver_all-Consistent rest _ (process_transaction-Consistent env event worker_id s c)

-- In a consistent database a settled, failed or reversed transaction keeps its row over every
-- sequence of deliveries, whatever fails on the way.
pub deliver_all-row :
    (ds : List Delivery) (s : Session) (j : ℕ) (t : TransactionRow)
    → Consistent s.committed
    → find j s.committed.transactions ≡ some t
    → is_open t.status ≡ false
    → find j (deliver_all ds s).committed.transactions ≡ some t
unfolding deliver_all
deliver_all-row [] s j t c found closed = found
deliver_all-row ((env, event, worker_id) ∷ rest) s j t c found closed =
    deliver_all-row rest _ j t (process_transaction-Consistent env event worker_id s c)
      (process_transaction-row env event worker_id s j t c found closed) closed

-- After any sequence of deliveries to a consistent database, the ledger entries of a transaction are
-- those of one settlement if it is settled or reversed, and none otherwise: a settled transfer has
-- the destination's credit after the source's debit, a credit the destination's entry, a debit or a
-- fee the source's, each of the transaction's amount and on its account.
pub deliver_all-entries :
    (ds : List Delivery) (s : Session) (j : ℕ) (t : TransactionRow)
    → Consistent s.committed
    → find j (deliver_all ds s).committed.transactions ≡ some t
    → entries_of j (deliver_all ds s).committed.ledger_entries ≡ expected_entries t.status t
deliver_all-entries ds s j t c found = (deliver_all-Consistent ds s c).posted j t found
