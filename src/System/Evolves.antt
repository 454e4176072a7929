-- ===== src/System/Evolves.antt =====
-- What no call of any service ever undoes.
use financial_data_platform.Prelude.{
  ◌≡◌, refl, sym, subst, inl, inr, true, List, none, Option-cases, arith,
}
use financial_data_platform.Prelude.Table.{find}
use financial_data_platform.Shared.Domain.{pending, settled, failed, can_transition_to}
use financial_data_platform.Shared.Events.{EventEnvelope}
use financial_data_platform.Store.Grows.{
  Persists, Persists-append, SameAccount, SameAccount-refl, as_before, with_new, Grows-trans,
  Grows-rows,
}
use financial_data_platform.Store.Session.{Env}
use financial_data_platform.Store.Tables.{Db}
use financial_data_platform.Store.Inserts.{admits}
use financial_data_platform.Ingestion.Transactions.{new_transaction}
use financial_data_platform.Relay.{Sent}
use financial_data_platform.Worker.Ledger.Operations.{performed-Change}
use financial_data_platform.Worker.Processor.Effect.{Settles, settles}
use financial_data_platform.Prelude.{List, ℕ, Result}
use financial_data_platform.Shared.Error.{SerdeError}
use financial_data_platform.Shared.Events.{EventEnvelope}
use financial_data_platform.System.{link_of, System, Reaches, Safe}
use financial_data_platform.System.Commits.{
  at, Commit, accepting, opening_account, publishing, settling, failing, waiting, burying, Commits,
  done, then, Reaches-Commits,
}
use financial_data_platform.System.Frames.{
  Evolves, Evolves-refl, Evolves-trans, Progress, Progress-refl, SameEvent, SameEvent-refl,
  Moved-SameEvent, replaced, unchanged-events, unchanged-transactions,
}

settled-Evolves :
    (env : Env) (event : EventEnvelope) (db db' : Db) (log : List Sent)
    → Settles env event db db'
    → Evolves (at db log) (at db' log)
unfolding can_transition_to
settled-Evolves env event db db' log (settles r d b worked same) =
    subst (λ e. Evolves (at db log) (at e log)) (sym same)
      (let change =
          performed-Change env.now event.aggregate_id event.correlation_id r.transaction_type
            r.amount r.source_account_id r.dest_account_id db worked in
        record {
          grows = Grows-trans db d _ change.grows (
              Grows-rows d _ refl (as_before d.ledger_entries refl) (as_before d.audit_log refl)
                (as_before d.dead_letter_queue refl));
          transactions = replaced env event settled r db b refl;
          events =
              subst (Persists SameEvent db.outbox_events) (sym change.same_outbox)
                (unchanged-events db);
          topic = λ s h. h;
        })

module _ (to_vec : EventEnvelope → Result SerdeError (List ℕ)) where
  pub Commit-Evolves : (x y : System) → Commit to_vec x y → Evolves x y
  unfolding can_transition_to
  Commit-Evolves x y (accepting env draws key hash body c db log can free) = record {
    grows =
        Grows-rows db y.db refl (as_before db.ledger_entries refl)
          (with_new _ db.audit_log (as_before db.audit_log refl))
          (as_before db.dead_letter_queue refl);
    transactions =
        Persists-append Progress draws.transaction_id _ db.transactions Progress-refl
          (free_id can.1);
    events = Persists-append SameEvent draws.outbox_id _ db.outbox_events SameEvent-refl free;
    topic = λ s h. h;
  }
    where
      free_id :
          admits draws.transaction_id (new_transaction env.now key hash body) db ≡ true
          → find draws.transaction_id db.transactions ≡ none
      free_id h = elim (Option-cases (find draws.transaction_id db.transactions)) [
        | inl free ↦ free
        | inr (t, there) ↦ absurd (ground (arith, h, there))
      ]
  Commit-Evolves x y (opening_account env id body db log can) = record {
    grows = record {
      accounts = Persists-append SameAccount id _ db.accounts SameAccount-refl can.0;
      ledger = as_before db.ledger_entries refl;
      audit = as_before db.audit_log refl;
      letters = as_before db.dead_letter_queue refl;
    };
    transactions = unchanged-transactions db;
    events = unchanged-events db;
    topic = λ s h. h;
  }
  Commit-Evolves x y (publishing send locked_elsewhere now db db' log log' (frame, relayed) grows) =
      subst (λ e. Evolves (at db log) (at e log')) (sym frame)
        (record {
          grows =
              Grows-rows db _ refl (as_before db.ledger_entries refl) (as_before db.audit_log refl)
                (as_before db.dead_letter_queue refl);
          transactions = unchanged-transactions db;
          events = λ id row there.
              let (row', found, moved) = relayed.rows id row there in
              (
                row',
                found,
                Moved-SameEvent (link_of to_vec send locked_elsewhere) log' now row row' moved,
              );
          topic = grows;
        })
  Commit-Evolves x y (settling env event db db' log h) = settled-Evolves env event db db' log h
  Commit-Evolves x y (failing env event r message db log b) = record {
    grows =
        Grows-rows db y.db refl (as_before db.ledger_entries refl)
          (with_new _ db.audit_log (as_before db.audit_log refl))
          (as_before db.dead_letter_queue refl);
    transactions = replaced env event failed r db b refl;
    events = unchanged-events db;
    topic = λ s h. h;
  }
  Commit-Evolves x y (waiting env event r db log b) = record {
    grows =
        Grows-rows db y.db refl (as_before db.ledger_entries refl) (as_before db.audit_log refl)
          (as_before db.dead_letter_queue refl);
    transactions = replaced env event pending r db b refl;
    events = unchanged-events db;
    topic = λ s h. h;
  }
  Commit-Evolves x y (burying row db log) = record {
    grows =
        Grows-rows db y.db refl (as_before db.ledger_entries refl) (as_before db.audit_log refl)
          (with_new _ db.dead_letter_queue (as_before db.dead_letter_queue refl));
    transactions = unchanged-transactions db;
    events = unchanged-events db;
    topic = λ s h. h;
  }

  Commits-Evolves : (x y : System) → Commits to_vec x y → Evolves x y
  Commits-Evolves x y (done _) = Evolves-refl x
  Commits-Evolves x z (then _ y _ first rest) =
      Evolves-trans x y z (Commit-Evolves x y first) (Commits-Evolves y z rest)

  -- From a safe state, no call of any service undoes what is committed. No account goes, and each
  -- keeps its holder, its currency and whether it is active. Each transaction keeps its order, and
  -- its status only goes along the transitions that the state machine allows. Entries of the ledger,
  -- audit rows and dead letters are only added. Each event keeps what it publishes, and one that is
  -- published or given up is never touched again, so that no recovery of the broker brings an event
  -- back that was given up; no record leaves the topic.
  pub Reaches-Evolves : (x y : System) → Reaches to_vec x y → Safe to_vec x → Evolves x y
  Reaches-Evolves x y steps h = Commits-Evolves x y (Reaches-Commits to_vec x y steps h)
