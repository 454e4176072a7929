-- ===== src/Worker/Processor/Carry.antt =====
-- The processing of an open transaction whose order can be carried out ends without an error.
use financial_data_platform.Prelude.{
  ◌+◌, ⊤, ◌≡◌, refl, ◌∙◌, false, ◌&&◌, String, some, Result, ok, err, arith, ◌==◌, ==_refl, ap,
}
use financial_data_platform.Prelude.Table.{find, find-set_self}
use financial_data_platform.Shared.Events.{EventEnvelope}
use financial_data_platform.Store.Logic.{Ensures, bind-Ensures, weaken-Ensures, both-Ensures}
use financial_data_platform.Store.Session.{Env, Session}
use financial_data_platform.Store.Statements.{update_transaction}
use financial_data_platform.Store.Tables.{TransactionRow, Db}
use financial_data_platform.Worker.Error.{ProcessError}
use financial_data_platform.Worker.Postings.{run}
use financial_data_platform.Worker.Postings.Undisturbed.{Never}
use financial_data_platform.Worker.Processor.{
  business, attempt, is_open, as_processing, finish, process_open,
}
use financial_data_platform.Worker.Processor.Correct.{TwoParties, claim-Ensures}
use financial_data_platform.Worker.Processor.Attempt.{
  Fails, Row, Attempted, compliance-Ensures, attempt-Ensures,
}
use financial_data_platform.Worker.Processor.Undisturbed.{
  Ready, Held, compliance-Never, business-Never, finish-Never,
}
use financial_data_platform.Worker.Processor.Succeed.{Quiet, update_transaction-Never}

module _ (env : Env) (event : EventEnvelope) (worker_id : String) (quiet : Quiet env)
    (t : TransactionRow) (db : Db) (ready : Ready env t db)
    (found : find event.aggregate_id db.transactions ≡ some t) (parties : TwoParties t) where
  claim-Never :
      (s : Session)
      → s.aborted ≡ false
      → s.working ≡ db
      → Ensures Never
          (λ n s'. Held env event worker_id quiet t db ready s')
          (run env
            (update_transaction event.aggregate_id
              (λ r. (r.version == t.version) && is_open r.status)
              (as_processing worker_id))
            s)
  claim-Never s live same =
      weaken-Ensures Never _ (λ n s'. Held env event worker_id quiet t db ready s') _
        (update_transaction-Never env event worker_id quiet _ (as_processing worker_id) t s live
          (ground (arith, found)) (ground (arith, ready.open_status, ==_refl t.version))
          (ground (arith, ready.version_room, ready.retry_room)))
        λ n s₁ h₁. record {
          row = as_processing worker_id t;
          live = h₁.0;
          there = h₁.3;
          accounts = h₁.2 ∙ ap (λ (d : Db). d.accounts) same;
          same_version = refl;
          same_retries = refl;
        }

  same_row :
      (r : TransactionRow) (s : Session)
      → Row env event worker_id db t found ready.open_status r s
      → (h : Held env event worker_id quiet t db ready s) → r ≡ h.row
  same_row r s row h =
      ground
        (arith, h.there, row.working, find-set_self event.aggregate_id r t db.transactions found)

  finished :
      (r row : TransactionRow) (result : Result ProcessError ⊤) (s : Session)
      → Attempted env event worker_id db t found ready.open_status r result s
      → result ≡ ok tt
      → r ≡ row
      → row.version ≡ t.version + 1
      → row.retry_count ≡ t.retry_count
      → Ensures Never (λ _ _. ⊤) (finish env event worker_id result s)
  finished r row (err e) s h fine same version retries = absurd (cc)
  finished r row (ok _) s (live, kept, d, made, working) fine same version retries =
      finish-Never env event worker_id quiet t db ready row s live
        (ground (arith, working, same, find-set_self event.aggregate_id r t db.transactions found))
        version retries

  pub process_open-Never :
      (s : Session)
      → s.aborted ≡ false
      → s.committed ≡ db
      → s.working ≡ db
      → Ensures Never (λ _ _. ⊤) (process_open env event worker_id t s)
  unfolding process_open
  process_open-Never s live kept same =
      bind-Ensures Never _ _ _ _ s
        (both-Ensures _ _ _ _
          (claim-Ensures env event worker_id db t found ready.open_status s live kept same)
          (claim-Never s live same))
        λ n s₁ h₁. rw h₁.0.1 (
          bind-Ensures Never _ _ _ _ s₁
            (both-Ensures _ _ _ _
              (compliance-Ensures env event worker_id db t found ready.open_status _ s₁ h₁.0.0)
              (compliance-Never env event worker_id quiet t db ready s₁ h₁.1))
            λ _ s₂ h₂.
              bind-Ensures Never
                (λ x u.
                  Attempted env event worker_id db t found ready.open_status h₂.0.0 x u
                  × ((x ≡ ok tt) × (u.aborted ≡ false)))
                _ _ _ s₂
                (both-Ensures (Fails env event worker_id db t found ready.open_status)
                  (Attempted env event worker_id db t found ready.open_status h₂.0.0)
                  (λ result s'. (result ≡ ok tt) × (s'.aborted ≡ false))
                  (attempt (business env event worker_id t.transaction_type t) s₂)
                  (attempt-Ensures env event worker_id db t found ready.open_status h₂.0.0 s₂ h₂.0.1
                    parties)
                  (business-Never env event worker_id quiet t db ready s₂ h₂.1))
                λ result s₃ h₃.
                  finished h₂.0.0 h₂.1.row result s₃ h₃.0 h₃.1.0 (same_row h₂.0.0 s₂ h₂.0.1 h₂.1)
                    h₂.1.same_version h₂.1.same_retries)
