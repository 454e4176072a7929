-- ===== src/Ingestion/Transactions/Outcome.antt =====
-- The outcome of a submission, whatever the database does.
use financial_data_platform.Prelude.{
  ℕ, ⊤, ◌≡◌, refl, ◌⊎◌, inl, inr, Bool, true, false, String, Option, none, some, Option-cases,
  Bool-cases, ok, arith, ok_or, not, if◌then◌else◌,
}
use financial_data_platform.Prelude.Table.{append, find}
use financial_data_platform.Shared.Audit.{record_audit}
use financial_data_platform.Shared.Error.{row_not_found}
use financial_data_platform.Shared.Fault.{same_text}
use financial_data_platform.Store.Inserts.{
  find_claim, insert_transaction, select_claim, insert_outbox,
}
use financial_data_platform.Store.Logic.{
  Ensures, bind-Ensures, weaken-Ensures, execute-Ensures, advanced,
}
use financial_data_platform.Store.Session.{
  Env, Session, CommitOutcome, done, refused, unreported, ◌>>=◌, begin, commit, end_commit,
  rollback, lift, pure,
}
use financial_data_platform.Store.Statements.{insert_audit}
use financial_data_platform.Store.Tables.{TransactionRow, Db}
use financial_data_platform.Ingestion.Api.{ApiError, database}
use financial_data_platform.Ingestion.Transactions.{
  SubmitTransactionRequest, Draws, new_transaction, Standing, run, match_hash, load_existing,
  resolve, announce, write_event, respond, idempotency_check_and_insert,
}
use financial_data_platform.Ingestion.Transactions.Spec.{
  accepted, CanStore, CanAnnounce, Landed, nothing, stored, Answered, replayed, fresh,
}

module _ (env : Env) (draws : Draws) (key request_hash : String) (body : SubmitTransactionRequest)
    (correlation_id : ℕ) (db : Db) where
  abbrev row : TransactionRow
  row = new_transaction env.now key request_hash body

  abbrev Fails : ApiError → Session → Type 0
  Fails _ s = Landed env draws key request_hash body correlation_id db s.committed

  abbrev Fresh : Session → Type 0
  Fresh s = (s.aborted ≡ false) × (s.committed ≡ db) × (s.working ≡ db)

  begin-Ensures :
      (s : Session) → s.committed ≡ db → Ensures Fails (λ _ s'. Fresh s') (begin database env s)
  unfolding begin
  begin-Ensures s kept = elim (Option-cases env.begin_error) [
    | inl fine ↦ rw (fine, begin) (refl, kept, kept)
    | inr (e, bad) ↦ rw (bad, begin) (nothing kept)
  ]

  -- After the insert: the row is there, or its key was claimed before.
  abbrev Inserted : Option (ℕ × TransactionRow) → Session → Type 0
  Inserted none s = Fresh s × ((p : ℕ × TransactionRow) × (find_claim key db.transactions ≡ some p))
  Inserted (some p) s =
      (s.aborted ≡ false)
      × (s.committed ≡ db)
      × (s.working ≡ record db { transactions = append draws.transaction_id row db.transactions })
      × (p ≡ (draws.transaction_id, row))
      × CanStore env draws key request_hash body correlation_id db

  inserted :
      (s : Session) (a : Option (ℕ × TransactionRow)) (db' : Db)
      → Fresh s
      → insert_transaction draws.transaction_id row s.working ≡ ok (a, db')
      → Inserted a (advanced s db')
  unfolding insert_transaction
  inserted s none db' h e = elim (Option-cases (find_claim key s.working.transactions)) [
    | inl free ↦ absurd (ground arith)
    | inr (p, claimed) ↦ ((refl, h.1, ground (arith, h.2)), (p, ground (arith, h.2)))
  ]
  inserted s (some p) db' h e = elim (Option-cases (find_claim key s.working.transactions)) [
    | inl free ↦
        (refl, h.1, ground (arith, h.2), ground arith, (ground (arith, h.2), ground (arith, h.2)))
    | inr (q, claimed) ↦ absurd (ground arith)
  ]

  insert-Ensures :
      (s : Session)
      → Fresh s
      → Ensures Fails Inserted (run env (insert_transaction draws.transaction_id row) s)
  insert-Ensures s h =
      execute-Ensures Fails database env Inserted (insert_transaction draws.transaction_id row) s
        h.0 (λ e. nothing h.1) λ a db' e. inserted s a db' h e

  abbrev Held : Standing → Session → Type 0
  Held found s =
      (id : ℕ) × (t : TransactionRow) × (find_claim key db.transactions ≡ some (id, t))
      × (same_text t.request_hash request_hash ≡ true)
      × (found.actual_id ≡ id)
      × (found.was_duplicate ≡ true)
      × Fresh s

  -- The row of the key is the new one, over the working copy `w`, or one that was there.
  abbrev Stands : Db → Type 0 → Standing → Session → Type 0
  Stands w Can found s =
      ((found.was_duplicate ≡ false)
        × (found.actual_id ≡ draws.transaction_id)
        × (s.aborted ≡ false)
        × (s.committed ≡ db)
        × (s.working ≡ w)
        × Can)
      ⊎ Held found s

  abbrev Stored : Type 0
  Stored = CanStore env draws key request_hash body correlation_id db

  abbrev Announced : Type 0
  Announced = Stored × CanAnnounce env draws key request_hash body correlation_id db

  abbrev with_new_row : Db
  with_new_row = record db { transactions = append draws.transaction_id row db.transactions }

  match_hash-Ensures :
      (id : ℕ) (t : TransactionRow) (s : Session)
      → find_claim key db.transactions ≡ some (id, t)
      → Fresh s
      → Ensures Fails Held (match_hash env key request_hash (id, t) s)
  unfolding match_hash rollback ◌>>=◌
  match_hash-Ensures id t s claimed h = elim (Bool-cases (same_text t.request_hash request_hash)) [
    | inl same ↦ rw same (id, t, claimed, same, refl, refl, h)
    | inr other ↦ rw other (nothing h.1)
  ]

  load_existing-Ensures :
      (p : ℕ × TransactionRow) (s : Session)
      → find_claim key db.transactions ≡ some p
      → Fresh s
      → Ensures Fails Held (load_existing env key request_hash s)
  unfolding load_existing
  load_existing-Ensures p s claimed h =
      bind-Ensures Fails (λ row s'. Fresh s' × (row ≡ some p)) Held _ _ s (selected s h)
        λ row s₁ h₁.
          bind-Ensures Fails (λ q s'. Fresh s' × (q ≡ p)) Held _ _ s₁ (present row s₁ h₁.1 h₁.0)
            λ q s₂ h₂. rw h₂.1 (match_hash-Ensures p.0 p.1 s₂ claimed h₂.0)
    where
      selected :
          (s : Session)
          → Fresh s
          → Ensures Fails (λ row s'. Fresh s' × (row ≡ some p)) (run env (select_claim key) s)
      selected s h =
          execute-Ensures Fails database env (λ row s'. Fresh s' × (row ≡ some p))
            (select_claim key) s h.0 (λ e. nothing h.1)
            λ a db' e. unfold select_claim in ground (arith, e, h.1, h.2, claimed)

      present :
          (row : Option (ℕ × TransactionRow)) (s : Session)
          → row ≡ some p
          → Fresh s
          → Ensures Fails (λ q s'. Fresh s' × (q ≡ p)) (lift (ok_or row (database row_not_found)) s)
      present none s e h = absurd (cc)
      present (some q) s e h = (h, cc)

  resolve-Ensures :
      (existing : Option (ℕ × TransactionRow)) (s : Session)
      → Inserted existing s
      → Ensures Fails (Stands with_new_row Stored) (resolve env key request_hash existing s)
  unfolding resolve
  resolve-Ensures (some (id, t)) s (live, kept, working, same, can) =
      inl (refl, cc, live, kept, working, can)
  resolve-Ensures none s (h, (p, claimed)) =
      weaken-Ensures Fails Held (Stands with_new_row Stored) _ (load_existing-Ensures p s claimed h)
        λ a t held. inr held

  abbrev stored_db : Db
  stored_db = accepted env draws key request_hash body correlation_id db

  -- Both rows are in the working copy, and nothing is committed.
  abbrev Written : ⊤ → Session → Type 0
  Written _ s =
      (s.aborted ≡ false)
      × (s.committed ≡ db)
      × (s.working ≡ stored_db)
      × CanAnnounce env draws key request_hash body correlation_id db

  write_event-Ensures :
      (s : Session)
      → s.aborted ≡ false
      → s.committed ≡ db
      → s.working ≡ with_new_row
      → Ensures Fails Written (write_event env draws key body correlation_id draws.transaction_id s)
  unfolding write_event record_audit insert_outbox insert_audit
  write_event-Ensures s live kept working =
      bind-Ensures Fails
        (λ _ s'.
          (s'.aborted ≡ false)
          × (s'.committed ≡ db)
          × (record (s'.working) { audit_log = stored_db.audit_log } ≡ stored_db)
          × (s'.working.audit_log ≡ db.audit_log)
          × CanAnnounce env draws key request_hash body correlation_id db)
        Written _ _ s
        (execute-Ensures Fails database env _ _ s live (λ e. nothing kept)
          λ a db' e. elim (Option-cases (find draws.outbox_id db.outbox_events)) [
            | inl free ↦ (
              refl,
              kept,
              ground (arith, e, working, free),
              ground (arith, e, working, free),
              free,
            )
            | inr (r, taken) ↦ absurd (ground (arith, e, working, taken))
          ])
        λ _ s₁ h₁.
          execute-Ensures Fails database env Written _ s₁ h₁.0 (λ e. nothing h₁.1)
            λ a db' e. (refl, h₁.1, ground (arith, e, h₁.2, h₁.3), h₁.4)

  announced :
      (b : Bool) (id : ℕ) (s : Session)
      → b ≡ false
      → id ≡ draws.transaction_id
      → s.aborted ≡ false
      → s.committed ≡ db
      → s.working ≡ with_new_row
      → Ensures Fails Written
          ((if not b then write_event env draws key body correlation_id id else pure tt) s)
  announced true id s new same live kept working = absurd (cc)
  announced false id s new same live kept working =
      rw same (write_event-Ensures s live kept working)

  announced_before :
      (b : Bool) (id : ℕ) (s : Session)
      → b ≡ true
      → Fresh s
      → Ensures Fails
          (λ _ s'. Fresh s')
          ((if not b then write_event env draws key body correlation_id id else pure tt) s)
  announced_before false id s old h = absurd (cc)
  announced_before true id s old h = h

  announce-Ensures :
      (found : Standing) (s : Session)
      → Stands with_new_row Stored found s
      → Ensures Fails
          (λ _ s'. Stands stored_db Announced found s')
          (announce env draws key body correlation_id found s)
  announce-Ensures found s (inr (id, t, claimed, same, which, old, h)) =
      weaken-Ensures Fails (λ _ s'. Fresh s') (λ _ s'. Stands stored_db Announced found s') _
        (announced_before found.was_duplicate found.actual_id s old h)
        λ _ s' h'. inr (id, t, claimed, same, which, old, h')
  announce-Ensures found s (inl (new, same, live, kept, working, can)) =
      weaken-Ensures Fails Written (λ _ s'. Stands stored_db Announced found s') _
        (announced found.was_duplicate found.actual_id s new same live kept working)
        λ _ s' w. inl (new, same, w.0, w.1, w.2, (can, w.3))

  commit_by :
      (found : Standing) (s : Session) (b : Bool) (o : CommitOutcome)
      → b ≡ false
      → Stands stored_db Announced found s
      → Ensures Fails
          (λ _ s'.
            Answered env draws key request_hash body correlation_id
              (respond key found)
              db
              s'.committed)
          (end_commit database env b o s)
  unfolding end_commit
  commit_by found s true o live h = absurd (cc)
  commit_by found s false done live (inl (new, same, _, kept, working, can)) =
      fresh can.0 can.1 (ground (arith, new)) same new working
  commit_by found s false done live (inr (id, t, claimed, same, which, old, h)) =
      replayed id t claimed same (ground (arith, old)) which old h.2
  commit_by found s false (refused e) live (inl (new, same, _, kept, working, can)) = nothing kept
  commit_by found s false (refused e) live (inr (id, t, claimed, same, which, old, h)) = nothing h.1
  commit_by found s false (unreported e) live (inl (new, same, _, kept, working, can)) =
      stored can.0 can.1 working
  commit_by found s false (unreported e) live (inr (id, t, claimed, same, which, old, h)) =
      nothing h.2

  live_of :
      (found : Standing) (s : Session) → Stands stored_db Announced found s → s.aborted ≡ false
  live_of found s (inl (new, same, live, kept, working, can)) = live
  live_of found s (inr (id, t, claimed, same, which, old, h)) = h.0

  -- An error leaves the committed database as it was, or with the whole submission where only the
  -- answer to the COMMIT was lost. A success is either a 200 for the row that held the key before,
  -- whose hash is the request's, with nothing changed, or a 202 for the new row, whose key was free,
  -- stored together with its event in the outbox and its audit row.
  pub idempotency_check_and_insert-outcome :
      (s : Session)
      → s.committed ≡ db
      → Ensures Fails
          (λ r s'. Answered env draws key request_hash body correlation_id r db s'.committed)
          (idempotency_check_and_insert env draws key request_hash body correlation_id s)
  unfolding idempotency_check_and_insert commit
  idempotency_check_and_insert-outcome s kept =
      bind-Ensures Fails _ _ _ _ s (begin-Ensures s kept) λ _ s₁ h₁.
        bind-Ensures Fails Inserted _ _ _ s₁ (insert-Ensures s₁ h₁) λ existing s₂ h₂.
          bind-Ensures Fails (Stands with_new_row Stored) _ _ _ s₂ (resolve-Ensures existing s₂ h₂)
            λ found s₃ h₃.
              bind-Ensures Fails (λ _ s'. Stands stored_db Announced found s') _ _ _ s₃
                (announce-Ensures found s₃ h₃)
                λ _ s₄ h₄.
                  bind-Ensures Fails
                    (λ _ s'.
                      Answered env draws key request_hash body correlation_id (respond key found) db
                        s'.committed)
                    _ _ _ s₄
                    (commit_by found s₄ s₄.aborted env.commit_outcome (live_of found s₄ h₄) h₄)
                    λ _ s₅ h₅. h₅
