-- ===== src/Worker/Processor/Finish.antt =====
-- The `match result` that ends the processing: a settlement is committed with the postings, and an
-- error leaves the failure or the retry on record, or nothing.
use financial_data_platform.Prelude.{
  ◌≡◌, refl, sym, subst, inl, inr, Bool-cases, true, false, String, some, ℕ, ◌∙◌, ok, err, arith,
}
use financial_data_platform.Prelude.Table.{find, set, find-set_self, set-set}
use financial_data_platform.Shared.Events.{EventEnvelope}
use financial_data_platform.Store.Logic.{Ensures, bind-Ensures, weaken-Ensures}
use financial_data_platform.Store.Session.{Env, Session, execute, conclude}
use financial_data_platform.Store.Statements.{update_transaction}
use financial_data_platform.Store.Tables.{TransactionRow, Db}
use financial_data_platform.Worker.Error.{ProcessError, display_process_error, is_retryable}
use financial_data_platform.Worker.Postings.{run}
use financial_data_platform.Worker.Processor.{is_open, as_settled, as_retried, finish}
use financial_data_platform.Worker.Processor.Effect.{
  SameOrder, Becomes, Settles, settles, Effect, unchanged, settlement, retry,
}
use financial_data_platform.Worker.Processor.Steps.{
  At, Failed, update-Ensures, commit-Ensures, give_up-Ensures,
}
use financial_data_platform.Worker.Processor.Attempt.{Attempted}

module _ (env : Env) (event : EventEnvelope) (worker_id : String) (db : Db) (t : TransactionRow)
    (found : find event.aggregate_id db.transactions ≡ some t)
    (was_open : is_open t.status ≡ true) where
  abbrev Fails : ProcessError → Session → Type 0
  Fails = Failed env event worker_id db t found was_open

  abbrev Row : TransactionRow → Session → Type 0
  Row = At env event worker_id db t found was_open

  -- In an aborted transaction the next statement ends the processing.
  pub aborted-Ensures :
      (P : ℕ → Session → Type 0) (f : TransactionRow → TransactionRow) (s : Session)
      → s.aborted ≡ true
      → s.committed ≡ db
      → Ensures Fails P (run env (update_transaction event.aggregate_id (λ _. true) f) s)
  unfolding execute conclude
  aborted-Ensures P f s broken kept = rw broken (unchanged kept)

  becomes :
      (r r' : TransactionRow) → SameOrder t r → SameOrder r r' → Becomes env event db r'.status r'
  becomes r r' o same = record {
    before = t;
    was_there = found;
    was_open = was_open;
    order = record {
      same_type = same.same_type ∙ o.same_type;
      same_amount = same.same_amount ∙ o.same_amount;
      same_source = same.same_source ∙ o.same_source;
      same_dest = same.same_dest ∙ o.same_dest;
      same_currency = same.same_currency ∙ o.same_currency;
      same_key = same.same_key ∙ o.same_key;
      same_hash = same.same_hash ∙ o.same_hash;
      same_submission = same.same_submission ∙ o.same_submission;
    };
    now_status = refl;
  }

  abbrev settled_db : TransactionRow → Db → Db
  settled_db r d = record d {
    transactions = set event.aggregate_id (as_settled env.now r) db.transactions;
  }

  settle-Ensures :
      (r : TransactionRow) (d : Db) (s : Session)
      → s.aborted ≡ false
      → s.committed ≡ db
      → s.working ≡ record d { transactions = set event.aggregate_id r db.transactions }
      → Ensures Fails
          (λ _ s'. (s'.aborted ≡ false) × (s'.committed ≡ db) × (s'.working ≡ settled_db r d))
          (run env (update_transaction event.aggregate_id (λ _. true) (as_settled env.now)) s)
  unfolding execute conclude update_transaction
  settle-Ensures r d s live kept working =
      let same : Effect env event db s.committed = unchanged kept in
      ground (
        arith,
        same,
        find-set_self event.aggregate_id r t db.transactions found,
        set-set event.aggregate_id (as_settled env.now r) r db.transactions,
      )

  pub settle_and_commit-Ensures :
      (r : TransactionRow) (s : Session)
      → SameOrder t r
      → Attempted env event worker_id db t found was_open r (ok tt) s
      → Ensures Fails
          (λ _ s'. Settles env event db s'.committed)
          (finish env event worker_id (ok tt) s)
  unfolding finish
  settle_and_commit-Ensures r s o (live, kept, d, done, working) =
      bind-Ensures Fails _ _ _ _ s (settle-Ensures r d s live kept working) λ _ s₁ h₁.
        weaken-Ensures Fails _ (λ _ s'. Settles env event db s'.committed) _
          (commit-Ensures env event worker_id db t found was_open s₁ h₁.0 h₁.1
            (subst (Effect env event db) (sym h₁.2) (settlement allowed)))
          λ _ s₂ h₂. subst (Settles env event db) (sym (h₂ ∙ h₁.2)) allowed
    where
      allowed : Settles env event db (settled_db r d)
      allowed =
          settles (as_settled env.now r) d
            (becomes r (as_settled env.now r) o (record {
              same_type = refl;
              same_amount = refl;
              same_source = refl;
              same_dest = refl;
              same_currency = refl;
              same_key = refl;
              same_hash = refl;
              same_submission = refl;
            }))
            (cc (done, o.same_type, o.same_amount, o.same_source, o.same_dest)) refl

  -- An error is never reported as Ok.
  pub fail-Ensures :
      (e : ProcessError) (r : TransactionRow) (s : Session)
      → Row r s
      → Ensures Fails (λ _ _. ⊥) (finish env event worker_id (err e) s)
  unfolding finish
  fail-Ensures e r s h = elim (Bool-cases (is_retryable e)) [
    | inl again ↦ rw again (
        bind-Ensures Fails _ _ _ _ s
          (update-Ensures env event worker_id db t found was_open (λ _. true) (retried e) r s h refl
            (order h.order))
          λ _ s₁ h₁.
            bind-Ensures Fails _ _ _ _ s₁
              (commit-Ensures env event worker_id db t found was_open s₁ h₁.0.live h₁.0.kept
                (retry (retried e r) (becomes r (retried e r) h.order plain) h₁.0.working))
              λ _ s₂ h₂.
                subst (Effect env event db) (sym h₂)
                  (retry (retried e r) (becomes r (retried e r) h.order plain) h₁.0.working))
    | inr final ↦ rw final (give_up-Ensures env event worker_id db t found was_open _ e r s h)
  ]
    where
      retried : ProcessError → TransactionRow → TransactionRow
      retried e = as_retried (display_process_error env.render e)

      plain : SameOrder r (retried e r)
      plain = record {
        same_type = refl;
        same_amount = refl;
        same_source = refl;
        same_dest = refl;
        same_currency = refl;
        same_key = refl;
        same_hash = refl;
        same_submission = refl;
      }

      order : SameOrder t r → SameOrder t (retried e r)
      order o = record {
        same_type = o.same_type;
        same_amount = o.same_amount;
        same_source = o.same_source;
        same_dest = o.same_dest;
        same_currency = o.same_currency;
        same_key = o.same_key;
        same_hash = o.same_hash;
        same_submission = o.same_submission;
      }
