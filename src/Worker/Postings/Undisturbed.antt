-- ===== src/Worker/Postings/Undisturbed.antt =====
-- Each statement of the business logic succeeds where none is made to fail and the new rows fit.
use financial_data_platform.Prelude.{
  ℕ, suc, ◌+◌, ◌<◌, ◌≡◌, refl, Option, none, some, Bool, false, true, arith, List, [], ◌∷◌, String,
}
use financial_data_platform.Prelude.Int.{ℤ, pos, ◌<ℤ◌}
use financial_data_platform.Prelude.Table.{find, set}
use financial_data_platform.Store.Tables.{AccountRow, EntryType, LedgerRow}
use financial_data_platform.Store.Session.{Env, Session, ◌>>=◌, conclude, execute, lock_account}
use financial_data_platform.Store.Statements.{
  account_fits, fits_numeric, max_sequence, sequence_taken, select_account, update_account,
  select_next_sequence, insert_ledger_entry, insert_audit,
}
use financial_data_platform.Store.Logic.{Ensures}
use financial_data_platform.Shared.Audit.{record_audit}
use financial_data_platform.Worker.Error.{ProcessError}
use financial_data_platform.Worker.Postings.{
  fetch_account, write_ledger_entry, run, fail_if, audit_settled,
}

-- No error at all.
abbrev pub Never : ProcessError → Session → Type 0
Never _ _ = ⊥

sequence_taken-max :
    (id n : ℕ) (es : List LedgerRow) → max_sequence id es < n → sequence_taken id n es ≡ false
unfolding sequence_taken max_sequence
sequence_taken-max id n [] h = refl
sequence_taken-max id n (e ∷ es) h = ground (arith, sequence_taken-max id n es)

module _ (env : Env) (quiet : (n : ℕ) → env.statement_error n ≡ none) where
  module _ (s : Session) (live : s.aborted ≡ false) where
    pub fetch_account-Never :
        (id : ℕ) (a : AccountRow)
        → find id s.working.accounts ≡ some a
        → Ensures Never
            (λ b s'. (s'.aborted ≡ false) × (s'.working ≡ s.working) × (b ≡ a))
            (fetch_account env id s)
    unfolding fetch_account ◌>>=◌ execute conclude select_account lock_account
    fetch_account-Never id a found = ground (arith, quiet s.statements)

    pub update_account-Never :
        (id : ℕ) (w : AccountRow → Bool) (f : AccountRow → AccountRow) (a : AccountRow)
        → find id s.working.accounts ≡ some a
        → w a ≡ true
        → account_fits (f a) ≡ true
        → Ensures Never
            (λ _ s'. (s'.aborted ≡ false) × (s'.working.accounts ≡ set id (f a) s.working.accounts))
            (run env (update_account id w f) s)
    unfolding execute conclude update_account
    update_account-Never id w f a found passes fits = ground (arith, quiet s.statements)

    pub write_ledger_entry-Never :
        (transaction_id id : ℕ) (kind : EntryType) (amount running_balance : ℤ) (a : AccountRow)
        → find id s.working.accounts ≡ some a
        → pos 0 <ℤ amount
        → fits_numeric amount ≡ true
        → fits_numeric running_balance ≡ true
        → Ensures Never
            (λ _ s'. (s'.aborted ≡ false) × (s'.working.accounts ≡ s.working.accounts))
            (write_ledger_entry env transaction_id id kind amount running_balance s)
    unfolding write_ledger_entry ◌>>=◌ execute conclude select_next_sequence insert_ledger_entry
    write_ledger_entry-Never transaction_id id kind amount running_balance a found positive fits
          room =
        ground (
          arith,
          quiet s.statements,
          quiet (suc s.statements),
          sequence_taken-max id (max_sequence id s.working.ledger_entries + 1)
              s.working.ledger_entries,
        )

    pub audit_settled-Never :
        (transaction_id correlation_id : ℕ) (type : String) (amount : ℤ) (source dest : Option ℕ)
        → Ensures Never
            (λ _ s'. s'.aborted ≡ false)
            (audit_settled env transaction_id type amount source dest correlation_id s)
    unfolding record_audit execute conclude insert_audit
    audit_settled-Never transaction_id correlation_id type amount source dest =
        ground (arith, quiet s.statements)

    pub fail_if-Never :
        (b : Bool) (e : ProcessError)
        → b ≡ false
        → Ensures Never (λ _ s'. (s'.aborted ≡ false) × (s'.working ≡ s.working)) (fail_if b e s)
    fail_if-Never true e h = absurd (cc)
    fail_if-Never false e h = (live, refl)
