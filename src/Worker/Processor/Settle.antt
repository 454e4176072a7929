-- ===== src/Worker/Processor/Settle.antt =====
-- A payable order is settled: the whole of `process_transaction`, where nothing around it fails.
use financial_data_platform.Prelude.{
  ℕ, ⊤, Bool, ◌≡◌, ◌≢◌, refl, true, false, String, Option, none, some, Result, ok, err, arith,
  ok_or, ap, subst,
}
use financial_data_platform.Prelude.Int.{ℤ}
use financial_data_platform.Prelude.Table.{Table, find}
use financial_data_platform.Shared.Domain.{
  TransactionType, TransactionStatus, pending, processing, settled, failed, reversed, transfer_type,
  credit_type, debit_type, fee_type, reversal_type, adjustment_type,
}
use financial_data_platform.Shared.Events.{EventEnvelope}
use financial_data_platform.Store.Logic.{Ensures, bind-Ensures, both-Ensures}
use financial_data_platform.Store.Session.{Env, Session, execute, conclude, begin, inject, lift}
use financial_data_platform.Store.Statements.{select_transaction}
use financial_data_platform.Store.Tables.{AccountRow, TransactionRow, Db}
use financial_data_platform.Worker.Error.{ProcessError, database, not_found}
use financial_data_platform.Worker.Postings.{run, fail_if}
use financial_data_platform.Worker.Postings.Undisturbed.{Never}
use financial_data_platform.Worker.Processor.{
  process_row, process_locked, after_lock, try_lock, process_transaction, derive_advisory_lock_key,
}
use financial_data_platform.Worker.Processor.Correct.{TwoParties}
use financial_data_platform.Worker.Processor.Outcome
use financial_data_platform.Worker.Processor.Outcome.{
  process_transaction-outcome, AllTwoParties, Fresh,
}
use financial_data_platform.Worker.Processor.Effect.{
  Settles, Accepted, held_elsewhere, settled_before, settled_now,
}
use financial_data_platform.Worker.Processor.Undisturbed.{Ready, no_fault}
use financial_data_platform.Worker.Processor.Succeed.{Quiet, Payable}
use financial_data_platform.Worker.Processor.Carry.{process_open-Never}

module _ (env : Env) (event : EventEnvelope) (worker_id : String) (quiet : Quiet env)
    (t : TransactionRow) (db : Db) (ready : Ready env t db)
    (found : find event.aggregate_id db.transactions ≡ some t) (parties : TwoParties t) where
  process_row-Never :
      (status : TransactionStatus) (s : Session)
      → status ≡ t.status
      → s.aborted ≡ false
      → s.committed ≡ db
      → s.working ≡ db
      → Ensures Never (λ _ _. ⊤) (process_row env event worker_id status t s)
  unfolding process_row
  process_row-Never settled s e live kept same = absurd (ground (arith, ready.open_status))
  process_row-Never reversed s e live kept same = absurd (ground (arith, ready.open_status))
  process_row-Never failed s e live kept same = absurd (ground (arith, ready.open_status))
  process_row-Never pending s e live kept same =
      process_open-Never env event worker_id quiet t db ready found parties s live kept same
  process_row-Never processing s e live kept same =
      process_open-Never env event worker_id quiet t db ready found parties s live kept same

  selected :
      (s : Session)
      → s.aborted ≡ false
      → s.committed ≡ db
      → s.working ≡ db
      → Ensures Never
          (λ row s'.
            (s'.aborted ≡ false) × (s'.committed ≡ db) × (s'.working ≡ db) × (row ≡ some t))
          (run env (select_transaction event.aggregate_id) s)
  unfolding execute conclude select_transaction
  selected s live kept same = ground (arith, quiet.answers s.statements, found)

  process_locked-Never :
      (s : Session)
      → s.aborted ≡ false
      → s.committed ≡ db
      → s.working ≡ db
      → Ensures Never (λ _ _. ⊤) (process_locked env event worker_id s)
  unfolding process_locked
  process_locked-Never s live kept same =
      bind-Ensures Never _ _ _ _ s (selected s live kept same) λ row s₁ h₁.
        bind-Ensures Never (λ r s'. (r ≡ t) × (s' ≡ s₁)) _ _ _ s₁ (present row s₁ h₁.3)
          λ r s₂ h₂. rw (h₂.0, h₂.1) (process_row-Never t.status s₁ refl h₁.0 h₁.1 h₁.2)
    where
      present :
          (row : Option TransactionRow) (s : Session)
          → row ≡ some t
          → Ensures Never
              (λ r s'. (r ≡ t) × (s' ≡ s))
              (lift (ok_or row (not_found event.aggregate_id)) s)
      present none s e = absurd (cc)
      present (some r) s e = (cc, refl)

  inject-Never :
      (point : String) (id : Option ℕ) (s : Session)
      → s.committed ≡ db
      → Ensures Never (λ hit s'. (s'.committed ≡ db) × (hit ≡ false)) (inject env.rules point id s)
  unfolding inject
  inject-Never point id s kept =
      (kept, ap (λ p. p.0) (no_fault env event worker_id quiet t db ready point id s.counters))

  passed :
      (b : Bool) (e : ProcessError) (s : Session)
      → s.committed ≡ db
      → b ≡ false
      → Ensures Never (λ _ s'. s'.committed ≡ db) (fail_if b e s)
  passed true e s kept h = absurd (cc)
  passed false e s kept h = kept

  begin-Never :
      (s : Session)
      → s.committed ≡ db
      → Ensures Never (λ _ s'. Fresh env event worker_id db s') (begin database env s)
  unfolding begin
  begin-Never s kept = rw (quiet.begins) (refl, kept, kept)

  try_lock-Never :
      (key : ℤ) (s : Session)
      → Fresh env event worker_id db s
      → Ensures Never
          (λ locked s'. Fresh env event worker_id db s' × (locked ≡ some true))
          (try_lock env event worker_id key s)
  unfolding try_lock execute conclude
  try_lock-Never key s h = ground (arith, quiet.answers s.statements, quiet.granted)

  after_lock-Never :
      (locked : Option Bool) (s : Session)
      → locked ≡ some true
      → Fresh env event worker_id db s
      → Ensures Never (λ _ _. ⊤) (after_lock env event worker_id locked s)
  unfolding after_lock
  after_lock-Never (some true) s e h = process_locked-Never s h.0 h.1 h.2
  after_lock-Never (some false) s e h = absurd (ground (arith))
  after_lock-Never none s e h = absurd (cc)

  process_transaction-Never :
      (s : Session)
      → s.committed ≡ db
      → Ensures Never (λ _ _. ⊤) (process_transaction env event worker_id s)
  unfolding process_transaction
  process_transaction-Never s kept =
      bind-Ensures Never _ _ _ _ s (inject-Never _ _ s kept) λ transient s₁ h₁.
        bind-Ensures Never _ _ _ _ s₁ (passed transient _ s₁ h₁.0 h₁.1) λ _ s₂ h₂.
          bind-Ensures Never _ _ _ _ s₂ (inject-Never _ _ s₂ h₂) λ broken s₃ h₃.
            bind-Ensures Never _ _ _ _ s₃ (passed broken _ s₃ h₃.0 h₃.1) λ _ s₄ h₄.
              bind-Ensures Never _ _ _ _ s₄ (begin-Never s₄ h₄) λ _ s₅ h₅.
                bind-Ensures Never _ _ _ _ s₅
                  (try_lock-Never (derive_advisory_lock_key event.aggregate_id) s₅ h₅)
                  λ locked s₆ h₆. after_lock-Never locked s₆ h₆.1 h₆.0

-- A transfer that can be carried out is between two accounts.
Payable-TwoParties :
    (now : ℕ) (type : TransactionType) (amount : ℤ) (source dest : Option ℕ)
    (accounts : Table AccountRow)
    → Payable now type amount source dest accounts
    → type ≡ transfer_type
    → source ≢ dest
Payable-TwoParties now transfer_type amount (some j) (some k) accounts (_, _, _, _, ne, _) same =
    λ e. absurd (ground arith)
Payable-TwoParties now transfer_type amount (some j) none accounts p same = absurd p
Payable-TwoParties now transfer_type amount none dest accounts p same = absurd p
Payable-TwoParties now credit_type amount source dest accounts p same = absurd (cc)
Payable-TwoParties now debit_type amount source dest accounts p same = absurd (cc)
Payable-TwoParties now fee_type amount source dest accounts p same = absurd (cc)
Payable-TwoParties now reversal_type amount source dest accounts p same = absurd (cc)
Payable-TwoParties now adjustment_type amount source dest accounts p same = absurd (cc)

-- Where the database, the lock, the timer and the fault rules do not interfere, an event for an open
-- transaction whose order can be carried out (an amount that is positive and within the limit of
-- the fraud check, accounts that are active and have the funds, and columns with room) is answered
-- with Ok, and what is committed is the settlement that the specification names.
pub process_transaction-Settles :
    (env : Env) (event : EventEnvelope) (worker_id : String) (t : TransactionRow) (s : Session)
    → Quiet env
    → find event.aggregate_id s.committed.transactions ≡ some t
    → Ready env t s.committed
    → ((process_transaction env event worker_id s).0 ≡ ok tt)
      × Settles env event s.committed (process_transaction env event worker_id s).1.committed
process_transaction-Settles env event worker_id t s quiet found ready =
    by_result (process_transaction env event worker_id s) (
      both-Ensures (Outcome.Fails env event worker_id s.committed)
        (Outcome.Done env event worker_id s.committed) (λ _ _. ⊤) _
        (process_transaction-outcome env event worker_id s.committed s refl all_parties)
        (process_transaction-Never env event worker_id quiet t s.committed ready found parties s
          refl))
  where
    parties : TwoParties t
    parties =
        Payable-TwoParties env.now t.transaction_type t.amount t.source_account_id t.dest_account_id
          s.committed.accounts ready.payable

    all_parties : AllTwoParties env event worker_id s.committed
    all_parties r there = let same : t ≡ r = ground (arith, found) in subst TwoParties same parties

    by_result :
        (p : Result ProcessError ⊤ × Session)
        → Ensures Never (λ _ s'. Accepted env event s.committed s'.committed × ⊤) p
        → (p.0 ≡ ok tt) × Settles env event s.committed p.1.committed
    by_result (err _, s') impossible = absurd impossible
    by_result (ok _, s') (held_elsewhere other _, _) = absurd (other quiet.granted)
    by_result (ok _, s') (settled_before r there closed _, _) =
        absurd (ground (arith, found, ready.open_status))
    by_result (ok _, s') (settled_now h, _) = (refl, h)
