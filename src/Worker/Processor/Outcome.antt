-- ===== src/Worker/Processor/Outcome.antt =====
-- The whole of `process_transaction`: its outcome, whatever the environment does.
use financial_data_platform.Prelude.{
  ⊤, ℕ, ◌≡◌, refl, sym, ◌∙◌, inl, inr, true, false, Bool, String, Option, none, some, Option-cases,
  arith, ok_or,
}
use financial_data_platform.Prelude.Table.{find}
use financial_data_platform.Prelude.Int.{ℤ}
use financial_data_platform.Shared.Domain.{
  TransactionStatus, pending, processing, settled, failed, reversed,
}
use financial_data_platform.Shared.Events.{EventEnvelope}
use financial_data_platform.Store.Logic.{Ensures, bind-Ensures, weaken-Ensures}
use financial_data_platform.Store.Session.{
  Env, Session, ◌>>=◌, execute, conclude, rollback, begin, inject, lift,
}
use financial_data_platform.Store.Statements.{select_transaction}
use financial_data_platform.Store.Tables.{TransactionRow, Db}
use financial_data_platform.Worker.Error.{ProcessError, database, not_found}
use financial_data_platform.Worker.Postings.{run, fail_if}
use financial_data_platform.Worker.Processor.{
  is_open, process_open, process_row, process_locked, after_lock, process_transaction, try_lock,
  derive_advisory_lock_key, derive_advisory_lock_key,
}
use financial_data_platform.Worker.Processor.Effect.{
  Effect, unchanged, Accepted, held_elsewhere, settled_before, settled_now,
}
use financial_data_platform.Worker.Processor.Correct.{TwoParties, process_open-Ensures}

module _ (env : Env) (event : EventEnvelope) (worker_id : String) (db : Db) where
  abbrev pub Fails : ProcessError → Session → Type 0
  Fails e s = Effect env event db s.committed

  abbrev pub Done : ⊤ → Session → Type 0
  Done _ s = Accepted env event db s.committed

  -- The transaction is open, fresh from the committed state.
  abbrev pub Fresh : Session → Type 0
  Fresh s = (s.aborted ≡ false) × (s.committed ≡ db) × (s.working ≡ db)

  abbrev pub AllTwoParties : Type 0
  AllTwoParties =
      (t : TransactionRow) → find event.aggregate_id db.transactions ≡ some t → TwoParties t

  opened :
      (t : TransactionRow) (s : Session)
      → find event.aggregate_id db.transactions ≡ some t
      → is_open t.status ≡ true
      → Fresh s
      → TwoParties t
      → Ensures Fails Done (process_open env event worker_id t s)
  opened t s found was_open fresh parties =
      weaken-Ensures Fails _ Done _
        (process_open-Ensures env event worker_id db t found was_open s fresh.0 fresh.1 fresh.2
          parties)
        λ _ _ done. settled_now done

  process_row-Ensures :
      (status : TransactionStatus) (t : TransactionRow) (s : Session)
      → status ≡ t.status
      → find event.aggregate_id db.transactions ≡ some t
      → Fresh s
      → TwoParties t
      → Ensures Fails Done (process_row env event worker_id status t s)
  unfolding process_row rollback ◌>>=◌
  process_row-Ensures settled t s e found fresh parties =
      settled_before t found (inl (sym e)) fresh.1
  process_row-Ensures reversed t s e found fresh parties =
      settled_before t found (inr (sym e)) fresh.1
  process_row-Ensures failed t s e found fresh parties = unchanged fresh.1
  process_row-Ensures pending t s e found fresh parties =
      opened t s found (ground (arith, e)) fresh parties
  process_row-Ensures processing t s e found fresh parties =
      opened t s found (ground (arith, e)) fresh parties

  select-Ensures :
      (s : Session)
      → Fresh s
      → Ensures Fails
          (λ row s'. Fresh s' × (row ≡ find event.aggregate_id db.transactions))
          (run env (select_transaction event.aggregate_id) s)
  unfolding execute conclude select_transaction
  select-Ensures s fresh =
      let quiet : Effect env event db s.committed = unchanged fresh.1 in ground (arith, quiet)

  process_locked-Ensures :
      (s : Session)
      → Fresh s
      → AllTwoParties
      → Ensures Fails Done (process_locked env event worker_id s)
  unfolding process_locked
  process_locked-Ensures s fresh parties =
      bind-Ensures Fails _ Done _ _ s (select-Ensures s fresh) λ row s₁ h₁.
        bind-Ensures Fails (λ t s'. Fresh s' × (row ≡ some t)) Done _ _ s₁ (present row s₁ h₁.0)
          λ t s₂ h₂.
            process_row-Ensures t.status t s₂ refl (sym h₁.1 ∙ h₂.1) h₂.0
              (parties t (sym h₁.1 ∙ h₂.1))
    where
      present :
          (row : Option TransactionRow) (s : Session)
          → Fresh s
          → Ensures Fails
              (λ t s'. Fresh s' × (row ≡ some t))
              (lift (ok_or row (not_found event.aggregate_id)) s)
      present none s h = unchanged h.1
      present (some t) s h = (h, refl)

  try_lock-Ensures :
      (key : ℤ) (s : Session)
      → Fresh s
      → Ensures Fails
          (λ locked s'. Fresh s' × (locked ≡ env.lock_granted))
          (try_lock env event worker_id key s)
  unfolding try_lock execute conclude
  try_lock-Ensures key s fresh =
      let quiet : Effect env event db s.committed = unchanged fresh.1 in ground (arith, quiet)

  -- One of the two injected faults that open the function.
  inject-Ensures :
      (point : String) (id : Option ℕ) (s : Session)
      → s.committed ≡ db
      → Ensures Fails (λ _ s'. s'.committed ≡ db) (inject env.rules point id s)
  unfolding inject
  inject-Ensures point id s kept = kept

  fail_if-Ensures :
      (b : Bool) (e : ProcessError) (s : Session)
      → s.committed ≡ db
      → Ensures Fails (λ _ s'. s'.committed ≡ db) (fail_if b e s)
  fail_if-Ensures true e s kept = unchanged kept
  fail_if-Ensures false e s kept = kept

  begin-Ensures :
      (s : Session) → s.committed ≡ db → Ensures Fails (λ _ s'. Fresh s') (begin database env s)
  unfolding begin
  begin-Ensures s kept = elim (Option-cases env.begin_error) [
    | inl fine ↦ rw (fine, begin) (refl, kept, kept)
    | inr (e, bad) ↦ rw (bad, begin) (unchanged kept)
  ]

  after_lock-Ensures :
      (locked : Option Bool) (s : Session)
      → locked ≡ env.lock_granted
      → Fresh s
      → AllTwoParties
      → Ensures Fails Done (after_lock env event worker_id locked s)
  unfolding after_lock rollback
  after_lock-Ensures (some true) s e fresh parties = process_locked-Ensures s fresh parties
  after_lock-Ensures (some false) s e fresh parties = held_elsewhere (λ h. cc) fresh.1
  after_lock-Ensures none s e fresh parties = held_elsewhere (λ h. cc) fresh.1

  -- Where a transfer in the database is between two different accounts, an error leaves the
  -- committed database unchanged, or with the settlement, the recorded failure or the waiting retry
  -- of this transaction; and an Ok means that the lock was not granted, or that the transaction was
  -- already settled or reversed, both with nothing changed, or that it has now been settled.
  pub process_transaction-outcome :
      (s : Session)
      → s.committed ≡ db
      → AllTwoParties
      → Ensures Fails Done (process_transaction env event worker_id s)
  unfolding process_transaction
  process_transaction-outcome s kept parties =
      bind-Ensures Fails _ Done _ _ s (inject-Ensures _ _ s kept) λ transient s₁ h₁.
        bind-Ensures Fails _ Done _ _ s₁ (fail_if-Ensures transient _ s₁ h₁) λ _ s₂ h₂.
          bind-Ensures Fails _ Done _ _ s₂ (inject-Ensures _ _ s₂ h₂) λ broken s₃ h₃.
            bind-Ensures Fails _ Done _ _ s₃ (fail_if-Ensures broken _ s₃ h₃) λ _ s₄ h₄.
              bind-Ensures Fails _ Done _ _ s₄ (begin-Ensures s₄ h₄) λ _ s₅ h₅.
                bind-Ensures Fails _ Done _ _ s₅
                  (try_lock-Ensures (derive_advisory_lock_key event.aggregate_id) s₅ h₅)
                  λ locked s₆ h₆. after_lock-Ensures locked s₆ h₆.1 h₆.0 parties
