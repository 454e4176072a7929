-- ===== src/Worker/Processor/Steps.antt =====
-- The steps of `process_transaction` from the optimistic lock on, for an open transaction `t` of the
-- database `db`: each one keeps the working copy at `db` with one row replaced, or ends in an effect
-- that the specification allows.
use financial_data_platform.Prelude.{
  ℕ, ◌≡◌, refl, sym, subst, Bool, true, false, String, none, some, arith,
}
use financial_data_platform.Prelude.Table.{find, find-set_self, set-set}
use financial_data_platform.Shared.Audit.{record_audit}
use financial_data_platform.Shared.Domain.{failed}
use financial_data_platform.Shared.Events.{EventEnvelope}
use financial_data_platform.Store.Logic.{Ensures, bind-Ensures}
use financial_data_platform.Store.Session.{
  Env, Session, conclude, execute, commit, end_commit, CommitOutcome, done, refused, unreported,
}
use financial_data_platform.Store.Statements.{update_transaction, insert_audit}
use financial_data_platform.Store.Tables.{TransactionRow, Db, failed_state}
use financial_data_platform.Worker.Error.{ProcessError, database}
use financial_data_platform.Worker.Postings.{run, mark_failed, as_failed}
use financial_data_platform.Worker.Processor.{give_up, is_open}
use financial_data_platform.Worker.Processor.Effect.{
  SameOrder, with_row, with_failure, Becomes, Effect, unchanged, failure,
}

module _ (env : Env) (event : EventEnvelope) (worker_id : String) (db : Db) (t : TransactionRow)
    (found : find event.aggregate_id db.transactions ≡ some t)
    (was_open : is_open t.status ≡ true) where
  abbrev pub id : ℕ
  id = event.aggregate_id

  abbrev pub Failed : ProcessError → Session → Type 0
  Failed e s = Effect env event db s.committed

  -- The working copy is the database with the transaction's row replaced by `r`.
  pub record At (r : TransactionRow) (s : Session) : Type 0 where
    pub live : s.aborted ≡ false
    pub kept : s.committed ≡ db
    pub working : s.working ≡ with_row env event r db
    pub order : SameOrder t r

  pub update-Ensures :
      (w : TransactionRow → Bool) (f : TransactionRow → TransactionRow) (r : TransactionRow)
      (s : Session)
      → At r s
      → w r ≡ true
      → SameOrder t (f r)
      → Ensures Failed (λ n s'. At (f r) s' × (n ≡ 1)) (run env (update_transaction id w f) s)
  unfolding execute conclude update_transaction
  update-Ensures w f r s h passes same = ground (
    arith,
    h.live,
    h.kept,
    h.working,
    find-set_self id r t db.transactions found,
    set-set id (f r) r db.transactions,
  )

  pub mark_failed-Ensures :
      (message : String) (r : TransactionRow) (s : Session)
      → At r s
      → Ensures Failed
          (λ _ s'.
            (s'.aborted ≡ false)
            × (s'.committed ≡ db)
            × (s'.working
                ≡ with_failure env event message (with_row env event (as_failed env message r) db)))
          (mark_failed env id message event.correlation_id s)
  unfolding mark_failed
  mark_failed-Ensures message r s h =
      bind-Ensures Failed _ _ _ _ s
        (update-Ensures (λ _. true) (as_failed env message) r s h refl
          (record {
            same_type = h.order.same_type;
            same_amount = h.order.same_amount;
            same_source = h.order.same_source;
            same_dest = h.order.same_dest;
            same_currency = h.order.same_currency;
            same_key = h.order.same_key;
            same_hash = h.order.same_hash;
            same_submission = h.order.same_submission;
          }))
        λ n s₁ h₁. recorded s₁ h₁.0
    where
      recorded :
          (s₁ : Session)
          → At (as_failed env message r) s₁
          → Ensures Failed
              (λ _ s'.
                (s'.aborted ≡ false)
                × (s'.committed ≡ db)
                × (s'.working
                    ≡ with_failure env event message
                        (with_row env event (as_failed env message r) db)))
              (record_audit database env "Transaction" id "FAILED" none
                (failed_state message)
                "worker"
                "WORKER"
                event.correlation_id
                s₁)
      recorded s₁ h₁ =
          unfold record_audit execute conclude insert_audit in
          ground (arith, h₁.live, h₁.kept, h₁.working)

  -- A commit of an effect that is allowed, whatever becomes of the answer.
  pub commit-Ensures :
      (s : Session)
      → s.aborted ≡ false
      → s.committed ≡ db
      → Effect env event db s.working
      → Ensures Failed (λ _ s'. s'.committed ≡ s.working) (commit database env s)
  unfolding commit
  commit-Ensures s live kept allowed = by_outcome s.aborted env.commit_outcome live
    where
      by_outcome :
          (b : Bool) (o : CommitOutcome)
          → b ≡ false
          → Ensures Failed (λ _ s'. s'.committed ≡ s.working) (end_commit database env b o s)
      by_outcome true o impossible = absurd (cc)
      by_outcome false done _ = refl
      by_outcome false (refused e) _ = unchanged kept
      by_outcome false (unreported e) _ = allowed

  Becomes-as_failed :
      (message : String) (r : TransactionRow)
      → SameOrder t r
      → Becomes env event db failed (as_failed env message r)
  Becomes-as_failed message r o = record {
    before = t;
    was_there = found;
    was_open = was_open;
    order = record {
      same_type = o.same_type;
      same_amount = o.same_amount;
      same_source = o.same_source;
      same_dest = o.same_dest;
      same_currency = o.same_currency;
      same_key = o.same_key;
      same_hash = o.same_hash;
      same_submission = o.same_submission;
    };
    now_status = refl;
  }

  -- `give_up` never returns Ok, and leaves the failure on record or nothing at all.
  pub give_up-Ensures :
      (message : String) (e : ProcessError) (r : TransactionRow) (s : Session)
      → At r s
      → Ensures Failed (λ _ _. ⊥) (give_up env event worker_id message e s)
  unfolding give_up
  give_up-Ensures message e r s h =
      bind-Ensures Failed _ _ _ _ s (mark_failed-Ensures message r s h) λ _ s₁ h₁.
        bind-Ensures Failed _ _ _ _ s₁
          (commit-Ensures s₁ h₁.0 h₁.1
            (failure (as_failed env message r) message (Becomes-as_failed message r h.order) h₁.2))
          λ _ s₂ h₂.
            subst (Effect env event db) (sym h₂)
              (failure (as_failed env message r) message (Becomes-as_failed message r h.order) h₁.2)
