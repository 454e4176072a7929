-- ===== src/Worker/Processor/Correct.antt =====
-- Whatever the database, the network and the clock do, processing an event ends in an effect that
-- the specification allows, and an Ok means that the transaction is settled or was not to be touched.
use financial_data_platform.Prelude.{
  ⊤, ℕ, ◌≡◌, ◌≢◌, inl, inr, Bool-cases, ◌==◌, ◌&&◌, true, false, String, some, Result, ok, err,
  arith,
}
use financial_data_platform.Prelude.Table.{find}
use financial_data_platform.Shared.Domain.{transfer_type}
use financial_data_platform.Shared.Events.{EventEnvelope}
use financial_data_platform.Store.Logic.{Ensures, bind-Ensures, weaken-Ensures}
use financial_data_platform.Store.Session.{Env, Session, ◌>>=◌, execute, conclude}
use financial_data_platform.Store.Statements.{update_transaction}
use financial_data_platform.Store.Tables.{TransactionRow, Db}
use financial_data_platform.Worker.Error.{ProcessError, is_retryable}
use financial_data_platform.Worker.Postings.{Process, run, mark_failed}
use financial_data_platform.Worker.Processor.{is_open, as_processing, finish, give_up, process_open}
use financial_data_platform.Worker.Processor.Effect.{SameOrder, Settles, Effect, unchanged}
use financial_data_platform.Worker.Processor.Attempt.{
  Fails, Row, Attempted, attempt-Ensures, compliance-Ensures,
}
use financial_data_platform.Worker.Processor.Finish.{
  aborted-Ensures, settle_and_commit-Ensures, fail-Ensures,
}

-- A transfer is between two accounts, as the ingestion service checks.
abbrev pub TwoParties : TransactionRow → Type 0
TwoParties t = t.transaction_type ≡ transfer_type → t.source_account_id ≢ t.dest_account_id

module _ (env : Env) (event : EventEnvelope) (worker_id : String) (db : Db) (t : TransactionRow)
    (found : find event.aggregate_id db.transactions ≡ some t)
    (was_open : is_open t.status ≡ true) where
  abbrev Fail : ProcessError → Session → Type 0
  Fail = Fails env event worker_id db t found was_open

  abbrev Done : ⊤ → Session → Type 0
  Done _ s = Settles env event db s.committed

  -- Each way of ending starts with an update, which an aborted transaction refuses.
  module _ (s : Session) (broken : s.aborted ≡ true) (kept : s.committed ≡ db) where
    refused :
        {B : Type 0} (Q : B → Session → Type 0) (f : TransactionRow → TransactionRow)
        (k : ℕ → Process B)
        → Ensures Fail Q ((run env (update_transaction event.aggregate_id (λ _. true) f) >>= k) s)
    refused Q f k =
        bind-Ensures Fail (λ _ _. ⊥) Q _ k s
          (aborted-Ensures env event worker_id db t found was_open (λ _ _. ⊥) f s broken kept)
          λ _ _ impossible. absurd impossible

    refused_failure :
        (message : String)
        → Ensures Fail
            (λ _ _. ⊥)
            (mark_failed env event.aggregate_id message event.correlation_id s)
    unfolding mark_failed
    refused_failure message = refused (λ _ _. ⊥) _ _

    refused_give_up :
        (message : String) (e : ProcessError)
        → Ensures Fail Done (give_up env event worker_id message e s)
    unfolding give_up
    refused_give_up message e =
        bind-Ensures Fail (λ _ _. ⊥) Done _ _ s (refused_failure message)
          λ _ _ impossible. absurd impossible

    refused_finish : (e : ProcessError) → Ensures Fail Done (finish env event worker_id (err e) s)
    unfolding finish
    refused_finish e = elim (Bool-cases (is_retryable e)) [
      | inl again ↦ rw again (refused Done _ _)
      | inr final ↦ rw final (refused_give_up _ e)
    ]

  finish-Ensures :
      (r : TransactionRow) (result : Result ProcessError ⊤) (s : Session)
      → SameOrder t r
      → Attempted env event worker_id db t found was_open r result s
      → Ensures Fail Done (finish env event worker_id result s)
  finish-Ensures r (ok _) s o done =
      settle_and_commit-Ensures env event worker_id db t found was_open r s o done
  finish-Ensures r (err e) s o (left, kept) = elim (Bool-cases s.aborted) [
    | inl broken ↦ refused_finish s broken kept e
    | inr live ↦
        weaken-Ensures Fail (λ _ _. ⊥) Done _
          (fail-Ensures env event worker_id db t found was_open e r s
            (record { live = live; kept = kept; working = ground arith; order = o }))
          λ _ _ impossible. absurd impossible
  ]

  pub claim-Ensures :
      (s : Session)
      → s.aborted ≡ false
      → s.committed ≡ db
      → s.working ≡ db
      → Ensures Fail
          (λ n s'.
            Row env event worker_id db t found was_open (as_processing worker_id t) s' × (n ≡ 1))
          (run env
            (update_transaction event.aggregate_id
              (λ r. (r.version == t.version) && is_open r.status)
              (as_processing worker_id))
            s)
  unfolding execute conclude update_transaction
  claim-Ensures s live kept same =
      let quiet : Effect env event db s.committed = unchanged kept in
      ground (arith, quiet, found, was_open)

  pub process_open-Ensures :
      (s : Session)
      → s.aborted ≡ false
      → s.committed ≡ db
      → s.working ≡ db
      → TwoParties t
      → Ensures Fail Done (process_open env event worker_id t s)
  unfolding process_open
  process_open-Ensures s live kept same parties =
      bind-Ensures Fail _ Done _ _ s (claim-Ensures s live kept same) λ n s₁ h₁. rw h₁.1 (
        bind-Ensures Fail _ Done _ _ s₁
          (compliance-Ensures env event worker_id db t found was_open _ s₁ h₁.0)
          λ _ s₂ h₂.
            bind-Ensures Fail _ Done _ _ s₂
              (attempt-Ensures env event worker_id db t found was_open h₂.0 s₂ h₂.1 parties)
              λ result s₃ h₃. finish-Ensures h₂.0 result s₃ h₂.1.order h₃)
