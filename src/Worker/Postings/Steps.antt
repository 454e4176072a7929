-- ===== src/Worker/Postings/Steps.antt =====
-- What each step of the business logic does to the session: it fails and leaves the working copy or
-- an aborted transaction, or it has done just what its statements say.
use financial_data_platform.Prelude.{
  ℕ, ◌≡◌, ◌⊎◌, ◌∷◌, Bool, true, false, Option, none, some, ok_or, String, arith,
}
use financial_data_platform.Prelude.Int.{ℤ, pos, ◌<ℤ◌}
use financial_data_platform.Prelude.Table.{find, set}
use financial_data_platform.Store.Tables.{AccountRow, EntryType, settled_state}
use financial_data_platform.Store.Session.{
  Env, Session, lift, ◌>>=◌, conclude, execute, lock_account,
}
use financial_data_platform.Store.Statements.{
  select_account, update_account, select_next_sequence, insert_ledger_entry, insert_audit,
}
use financial_data_platform.Store.Logic.{Ensures}
use financial_data_platform.Shared.Audit.{record_audit}
use financial_data_platform.Worker.Error.{ProcessError}
use financial_data_platform.Worker.Postings.{
  fetch_account, write_ledger_entry, run, fail_if, audit_settled,
}
use financial_data_platform.Worker.Postings.Spec.{entry_of, audited}

-- The transaction is open and nothing is committed since `t`.
abbrev pub Live : Session → Session → Type 0
Live t s = (s.aborted ≡ false) × (s.committed ≡ t.committed)

-- An error leaves the working copy of `t`, or a transaction that cannot be committed.
abbrev pub FailsSafe : Session → {E : Type 0} → E → Session → Type 0
FailsSafe t e s = ((s.aborted ≡ true) ⊎ (s.working ≡ t.working)) × (s.committed ≡ t.committed)

module _ (env : Env) (t s : Session) (live : Live t s) where
  pub fetch_account-Ensures :
      (id : ℕ)
      → s.working ≡ t.working
      → Ensures
          (FailsSafe t)
          (λ a s'. Live t s' × (s'.working ≡ s.working) × (find id s.working.accounts ≡ some a))
          (fetch_account env id s)
  unfolding fetch_account ◌>>=◌ execute conclude select_account lock_account
  fetch_account-Ensures id same = ground arith

  pub write_ledger_entry-Ensures :
      (transaction_id id : ℕ) (kind : EntryType) (amount running_balance : ℤ) (a : AccountRow)
      → find id s.working.accounts ≡ some a
      → Ensures
          (FailsSafe t)
          (λ _ s'.
            Live t s'
            × (pos 0 <ℤ amount)
            × (s'.working ≡ record (s.working) {
              ledger_entries =
                  record (entry_of env.now transaction_id id kind amount a s.working) {
                    running_balance = running_balance;
                  }
                  ∷ s.working.ledger_entries;
            }))
          (write_ledger_entry env transaction_id id kind amount running_balance s)
  unfolding write_ledger_entry ◌>>=◌ execute conclude select_next_sequence insert_ledger_entry
  write_ledger_entry-Ensures transaction_id id kind amount running_balance a found = ground arith

  pub update_account-Ensures :
      (id : ℕ) (w : AccountRow → Bool) (f : AccountRow → AccountRow) (a : AccountRow)
      → find id s.working.accounts ≡ some a
      → w a ≡ true
      → Ensures
          (FailsSafe t)
          (λ _ s'.
            Live t s'
            × (s'.working ≡ record (s.working) { accounts = set id (f a) s.working.accounts }))
          (run env (update_account id w f) s)
  unfolding execute conclude update_account
  update_account-Ensures id w f a found passes = ground arith

  pub audit_settled-Ensures :
      (transaction_id correlation_id : ℕ) (type : String) (amount : ℤ) (source dest : Option ℕ)
      → Ensures
          (FailsSafe t)
          (λ _ s'.
            Live t s'
            × (s'.working
                ≡ audited env.now transaction_id correlation_id
                    (settled_state type amount source dest)
                    s.working))
          (audit_settled env transaction_id type amount source dest correlation_id s)
  unfolding record_audit execute conclude insert_audit
  audit_settled-Ensures transaction_id correlation_id type amount source dest = ground arith

  pub fail_if-Ensures :
      (b : Bool) (e : ProcessError)
      → s.working ≡ t.working
      → Ensures
          (FailsSafe t)
          (λ _ s'. Live t s' × (s'.working ≡ s.working) × (b ≡ false))
          (fail_if b e s)
  fail_if-Ensures true e same = ground arith
  fail_if-Ensures false e same = ground arith

  pub ok_or-Ensures :
      {A : Type 0} (o : Option A) (e : ProcessError)
      → s.working ≡ t.working
      → Ensures
          (FailsSafe t)
          (λ a s'. Live t s' × (s'.working ≡ s.working) × (o ≡ some a))
          (lift (ok_or o e) s)
  ok_or-Ensures none e same = ground arith
  ok_or-Ensures (some a) e same = ground arith
