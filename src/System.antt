-- ===== src/System.antt =====
-- The services together, over one database and one topic. A step is one call of one service, on a
-- session of its own that starts from what is committed; the calls of different services follow each
-- other in any order. Each batch of the relay has the broker's answers to its own sends, so that a
-- send may fail in one batch and be acknowledged in a later one.
pub mod Commits
pub mod Frames
pub mod Evolves
pub mod Money
pub mod Paired
pub mod Outbox
pub mod Reconciled
pub mod Arrives
mod Tests
mod Sample
use financial_data_platform.Prelude.{ℕ, List, Bool, Result}
use financial_data_platform.Prelude.Int.{ℤ}
use financial_data_platform.Shared.Error.{SerdeError}
use financial_data_platform.Shared.Events.{EventEnvelope}
use financial_data_platform.Store.Session.{Env, Session}
use financial_data_platform.Store.Tables.{Db}
use financial_data_platform.Ingestion.Accounts.{CreateAccountRequest, create_account}
use financial_data_platform.Ingestion.Accounts.Laws.{
  create_account-Consistent, create_account-outbox,
}
use financial_data_platform.Ingestion.Transactions.{Request, Host, Draws, submit_transaction}
use financial_data_platform.Ingestion.Transactions.Consistent.{
  submit_transaction-Consistent, submit_transaction-IsWell,
}
use financial_data_platform.Relay.{Sent, SendResult, Link, RelayState, relay_batch}
use financial_data_platform.Relay.Delivered.{IsWell, relay_batch-IsWell, relay_batch-Consistent}
use financial_data_platform.Worker.Consumer.{TransactionConsumer, Received, State, turn}
use financial_data_platform.Worker.Consumer.Run.{turn-Consistent}
use financial_data_platform.Worker.Consumer.Outbox.{turn-outbox}
use financial_data_platform.Worker.Processor.Consistent.{Consistent}

pub record System : Type 0 where
  pub db : Db
  pub log : List Sent

-- The relay's links: the bytes of an event are the same on every one of them; what the broker answers
-- to a send, and the rows that another relay has locked, are each batch's own.
abbrev pub link_of :
    (EventEnvelope → Result SerdeError (List ℕ)) → (ℕ → SendResult) → (ℕ → Bool) → Link
link_of to_vec send locked_elsewhere = record {
  to_vec = to_vec;
  send = send;
  locked_elsewhere = locked_elsewhere;
}

module _ (to_vec : EventEnvelope → Result SerdeError (List ℕ)) where
  pub data Step : System → System → Type 0 where
    submitting :
        (env : Env) (host : Host) (draws : Draws) (req : Request) (s : Session) (log : List Sent)
        → Step
            (record { db = s.committed; log = log })
            (record { db = (submit_transaction env host draws req s).1.committed; log = log })
    opening :
        (env : Env) (id : ℕ) (body : CreateAccountRequest) (s : Session) (log : List Sent)
        → Step
            (record { db = s.committed; log = log })
            (record { db = (create_account env id body s).1.committed; log = log })
    relaying :
        (env : Env) (send : ℕ → SendResult) (locked_elsewhere : ℕ → Bool) (batch_size : ℤ)
        (st : RelayState)
        → Step
            (record { db = st.session.committed; log = st.log })
            (record {
              db =
                  (relay_batch env
                    (link_of to_vec send locked_elsewhere)
                    batch_size
                    st).1.session.committed;
              log = (relay_batch env (link_of to_vec send locked_elsewhere) batch_size st).1.log;
            })
    consuming :
        (self : TransactionConsumer) (r : Received) (st : State) (log : List Sent)
        → Step
            (record { db = st.session.committed; log = log })
            (record { db = (turn self r st).session.committed; log = log })

  pub data Reaches : System → System → Type 0 where
    here : (x : System) → Reaches x x
    next : (x y z : System) → Step x y → Reaches y z → Reaches x z

  abbrev pub Safe : System → Type 0
  Safe x = Consistent x.db × IsWell to_vec x.log x.db.outbox_events

  pub Step-Safe : (x y : System) → Step x y → Safe x → Safe y
  Step-Safe x y (submitting env host draws req s log) (c, w) = (
    submit_transaction-Consistent env host draws req s c,
    submit_transaction-IsWell env host draws req s to_vec log w,
  )
  Step-Safe x y (opening env id body s log) (c, w) =
      (create_account-Consistent env id body s c, rw (create_account-outbox env id body s) w)
  Step-Safe x y (relaying env send locked_elsewhere batch_size st) (c, w) = (
    relay_batch-Consistent env (link_of to_vec send locked_elsewhere) batch_size st w.distinct c,
    relay_batch-IsWell env (link_of to_vec send locked_elsewhere) batch_size st w,
  )
  Step-Safe x y (consuming self r st log) (c, w) =
      (turn-Consistent self r st c, rw (turn-outbox self r st c) w)

  -- Whatever the services do, in any order and whatever fails, they keep the platform safe. The
  -- database is consistent: the books balance, a transaction has its entries exactly when it is
  -- settled or reversed, and the two sides of a transfer differ. Every published event is in the
  -- topic, every event that was given up failed exactly eleven times and every other one at most ten
  -- times, and no two events have the same key.
  pub Reaches-Safe : (x y : System) → Reaches x y → Safe x → Safe y
  Reaches-Safe x y (here _) h = h
  Reaches-Safe x z (next _ y _ step rest) h = Reaches-Safe y z rest (Step-Safe x y step h)
