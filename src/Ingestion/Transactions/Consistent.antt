-- ===== src/Ingestion/Transactions/Consistent.antt =====
-- A submission keeps the invariant of the whole database, which the worker relies on.
use financial_data_platform.Prelude.{
  List, ℕ, ◌≡◌, ◌≢◌, refl, sym, ◌∙◌, subst, inl, inr, Bool-cases, String, Option, some, none, ok,
  arith, ◌==◌, Option-cases, Result,
}
use financial_data_platform.Prelude.Table.{find, find-append_self, find-append_ne}
use financial_data_platform.Shared.Domain.{TransactionType, transfer_type}
use financial_data_platform.Shared.Error.{SerdeError}
use financial_data_platform.Shared.Events.{EventEnvelope}
use financial_data_platform.Shared.Idempotency.{IdempotencyKey}
use financial_data_platform.Store.Session.{Env, Session}
use financial_data_platform.Store.Tables.{TransactionRow, Db}
use financial_data_platform.Worker.Ledger.Books.{Books-same}
use financial_data_platform.Worker.Processor.Correct.{TwoParties}
use financial_data_platform.Worker.Processor.Consistent.{Consistent}
use financial_data_platform.Ingestion.Transactions.{
  SubmitTransactionRequest, Request, Host, Draws, new_transaction, check_parties, validate_parties,
  prepare, correlation_of, submit_transaction,
}
use financial_data_platform.Ingestion.Transactions.Spec.{accepted, CanStore}
use financial_data_platform.Ingestion.Transactions.Leaves.{
  Left, refused, submitted, submit_transaction-leaves,
}
use financial_data_platform.Relay.{Sent}
use financial_data_platform.Relay.Delivered.{IsWell, append-IsWell}

-- A transfer that passes has two sides, which differ.
check_parties-TwoParties :
    (type : TransactionType) (source dest : Option ℕ)
    → check_parties type source dest ≡ ok tt
    → type ≡ transfer_type
    → source ≢ dest
check_parties-TwoParties type (some a) (some b) fine same = λ e. absurd (ground (arith))
check_parties-TwoParties type none dest fine same = absurd (ground arith)
check_parties-TwoParties type (some a) none fine same = absurd (ground arith)

module _ (env : Env) (draws : Draws) (key request_hash : String) (body : SubmitTransactionRequest)
    (correlation_id : ℕ) (db : Db) (c : Consistent db)
    (parties : TwoParties (new_transaction env.now key request_hash body)) where
  abbrev row : TransactionRow
  row = new_transaction env.now key request_hash body

  abbrev id : ℕ
  id = draws.transaction_id

  accepted-Consistent :
      CanStore env draws key request_hash body correlation_id db
      → Consistent (accepted env draws key request_hash body correlation_id db)
  accepted-Consistent can = record {
    books = Books-same db _ refl refl c.books;
    posted = λ j t e. ground (
      arith,
      find-append_self id row db.transactions absent,
      find-append_ne j id row db.transactions,
      c.posted j t,
      c.unposted id absent,
    );
    parties = λ j t e. elim (Bool-cases (j == id)) [
      | inl same ↦
          (let it : row ≡ t = ground (arith, e, find-append_self id row db.transactions absent) in
            subst TwoParties it parties)
      | inr other ↦ c.parties j t (sym (find-append_ne j id row db.transactions other) ∙ e)
    ];
    unposted = λ j e. ground (
      arith,
      find-append_self id row db.transactions absent,
      find-append_ne j id row db.transactions,
      c.unposted j,
    );
  }
    where
      absent : find id db.transactions ≡ none
      absent = elim (Option-cases (find id db.transactions)) [
        | inl none_there ↦ none_there
        | inr (t, there) ↦ absurd (ground (arith, can.1))
      ]

prepare-TwoParties :
    (env : Env) (host : Host) (req : Request) (q : IdempotencyKey × String) (now : ℕ)
    → prepare env host req ≡ ok q
    → TwoParties (new_transaction now q.0.as_str q.1 req.body)
unfolding prepare validate_parties
prepare-TwoParties env host req q now h =
    check_parties-TwoParties req.body.transaction_type req.body.source_account_id
      req.body.dest_account_id (ground arith)

-- Submitting a request keeps the committed database consistent, whatever fails on the way.
pub submit_transaction-Consistent :
    (env : Env) (host : Host) (draws : Draws) (req : Request) (s : Session)
    → Consistent s.committed
    → Consistent (submit_transaction env host draws req s).1.committed
submit_transaction-Consistent env host draws req s c =
    by_left (submit_transaction-leaves env host draws req s)
  where
    by_left : {db' : Db} → Left env host draws req s.committed db' → Consistent db'
    by_left (refused same) = subst Consistent (sym same) c
    by_left (submitted q fine can _ now) = subst Consistent (sym now) (
        accepted-Consistent env draws q.0.as_str q.1 req.body
          (correlation_of env host draws req.x_request_id) s.committed c
          (prepare-TwoParties env host req q env.now fine) can)

-- Submitting a request keeps, whatever fails on the way, what the relay keeps of the outbox: every
-- published event is in the broker's log, every event that was given up failed exactly eleven times
-- and every other one at most ten times, and no two events have the same key.
pub submit_transaction-IsWell :
    (env : Env) (host : Host) (draws : Draws) (req : Request) (s : Session)
    (to_vec : EventEnvelope → Result SerdeError (List ℕ)) (log : List Sent)
    → IsWell to_vec log s.committed.outbox_events
    → IsWell to_vec log (submit_transaction env host draws req s).1.committed.outbox_events
submit_transaction-IsWell env host draws req s to_vec log w =
    by_left (submit_transaction-leaves env host draws req s)
  where
    by_left :
        {db' : Db} → Left env host draws req s.committed db' → IsWell to_vec log db'.outbox_events
    by_left (refused same) = subst (λ d. IsWell to_vec log d.outbox_events) (sym same) w
    by_left (submitted q fine _ free now) =
        subst (λ d. IsWell to_vec log d.outbox_events) (sym now)
          (append-IsWell to_vec log draws.outbox_id _ s.committed.outbox_events free refl refl w)
