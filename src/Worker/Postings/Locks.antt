-- ===== src/Worker/Postings/Locks.antt =====
-- The order in which a transfer locks the rows of its accounts.
use financial_data_platform.Prelude.{
  ℕ, ⊤, ◌≤◌, ◌≡◌, refl, ap, ◌⊎◌, inl, inr, Bool, true, false, Option, none, some, List, ◌∷◌, Result,
  ok, err, arith, ok_or, leb, ◌==◌, if◌then◌else◌,
}
use financial_data_platform.Prelude.Int.{ℤ}
use financial_data_platform.Shared.Error.{SqlError}
use financial_data_platform.Shared.Audit.{record_audit}
use financial_data_platform.Store.Logic.{Ensures, bind-Ensures}
use financial_data_platform.Store.Session.{Env, Session, conclude, execute, lift, lock_account}
use financial_data_platform.Store.Statements.{Statement, select_account}
use financial_data_platform.Store.Tables.{AccountRow, EntryType, Db}
use financial_data_platform.Worker.Error.{ProcessError, database}
use financial_data_platform.Worker.Postings.{
  run, fail_if, fetch_account, write_ledger_entry, move_funds, process_transfer,
}

-- At most two locks more, the lower account first.
abbrev pub TakesInOrder : List ℕ → List ℕ → Type 0
TakesInOrder before after =
    (after ≡ before)
    ⊎ ((i : ℕ) × (after ≡ i ∷ before))
    ⊎ ((i : ℕ) × (j : ℕ) × (i ≤ j) × (after ≡ j ∷ i ∷ before))

module _ (env : Env) (locks : List ℕ) where
  abbrev Same : {A : Type 0} → A → Session → Type 0
  Same _ s = s.account_locks ≡ locks

  conclude-Same :
      {A : Type 0} (b : Bool) (o : Option SqlError) (r : Result SqlError (A × Db)) (s : Session)
      → Same tt s
      → Ensures {E = ProcessError} Same Same (conclude database env b o r s)
  unfolding conclude
  conclude-Same true o r s h = h
  conclude-Same false (some e) r s h = h
  conclude-Same false none (err e) s h = h
  conclude-Same false none (ok (a, db)) s h = h

  run-Same :
      {A : Type 0} (q : Statement A) (s : Session) → Same tt s → Ensures Same Same (run env q s)
  unfolding execute
  run-Same q s h = conclude-Same s.aborted (env.statement_error s.statements) (q s.working) s h

  fail_if-Same :
      (b : Bool) (e : ProcessError) (s : Session) → Same tt s → Ensures Same Same (fail_if b e s)
  fail_if-Same true e s h = h
  fail_if-Same false e s h = h

  lift-Same :
      {A : Type 0} (r : Result ProcessError A) (s : Session)
      → Same tt s
      → Ensures Same Same (lift r s)
  lift-Same (ok a) s h = h
  lift-Same (err e) s h = h

  write_ledger_entry-Same :
      (transaction_id id : ℕ) (kind : EntryType) (amount running : ℤ) (s : Session)
      → Same tt s
      → Ensures Same Same (write_ledger_entry env transaction_id id kind amount running s)
  unfolding write_ledger_entry
  write_ledger_entry-Same transaction_id id kind amount running s h =
      bind-Ensures Same Same Same _ _ s (run-Same _ s h) λ n s₁ h₁. run-Same _ s₁ h₁

  move_funds-Same :
      (transaction_id : ℕ) (amount : ℤ) (j k : ℕ) (x y : AccountRow) (c : ℕ) (s : Session)
      → Same tt s
      → Ensures Same Same (move_funds env transaction_id amount j k x y c s)
  unfolding move_funds record_audit
  move_funds-Same transaction_id amount j k x y c s h =
      bind-Ensures Same Same Same _ _ s (fail_if-Same _ _ s h) λ _ s₁ h₁.
        bind-Ensures Same Same Same _ _ s₁ (fail_if-Same _ _ s₁ h₁) λ _ s₂ h₂.
          bind-Ensures Same Same Same _ _ s₂ (fail_if-Same _ _ s₂ h₂) λ _ s₃ h₃.
            bind-Ensures Same Same Same _ _ s₃ (run-Same _ s₃ h₃) λ _ s₄ h₄.
              bind-Ensures Same Same Same _ _ s₄ (run-Same _ s₄ h₄) λ _ s₅ h₅.
                bind-Ensures Same Same Same _ _ s₅ (write_ledger_entry-Same _ _ _ _ _ s₅ h₅)
                  λ _ s₆ h₆.
                    bind-Ensures Same Same Same _ _ s₆ (write_ledger_entry-Same _ _ _ _ _ s₆ h₆)
                      λ _ s₇ h₇. run-Same _ s₇ h₇

-- A row is fetched with its lock, or the fetch fails without it.
fetch_account-locks :
    (env : Env) (id : ℕ) (locks : List ℕ) (s : Session)
    → s.account_locks ≡ locks
    → Ensures
        (λ _ s'. s'.account_locks ≡ locks)
        (λ _ s'. s'.account_locks ≡ id ∷ locks)
        (fetch_account env id s)
unfolding fetch_account lock_account
fetch_account-locks env id locks s h =
    bind-Ensures (Same env locks) (Same env locks) _ _ _ s
      (run-Same env locks (select_account id) s h)
      λ row s₁ h₁.
        bind-Ensures (Same env locks) (Same env locks) _ _ _ s₁
          (lift-Same env locks (ok_or row _) s₁ h₁)
          λ a s₂ h₂.
            bind-Ensures (Same env locks) (λ _ s'. s'.account_locks ≡ id ∷ locks) _ _ _ s₂
              (ap (λ l. id ∷ l) h₂) λ _ s₃ h₃. h₃

widen :
    {A : Type 0} (F F' : ProcessError → Session → Type 0) (Q Q' : A → Session → Type 0)
    (r : Result ProcessError A × Session)
    → Ensures F Q r
    → ((e : ProcessError) (s : Session) → F e s → F' e s)
    → ((a : A) (s : Session) → Q a s → Q' a s)
    → Ensures F' Q' r
widen F F' Q Q' (ok a, s) h f q = q a s h
widen F F' Q Q' (err e, s) h f q = f e s h

module _ (env : Env) (transaction_id : ℕ) (amount : ℤ) (correlation_id : ℕ) (before : List ℕ) where
  abbrev Ordered : {A : Type 0} → A → Session → Type 0
  Ordered _ s = TakesInOrder before s.account_locks

  lower_first : (j k : ℕ) → (if leb j k then j else k) ≤ (if leb j k then k else j)
  lower_first j k = ground arith

  process_transfer-Ordered :
      (source dest : Option ℕ) (s : Session)
      → s.account_locks ≡ before
      → Ensures Ordered Ordered
          (process_transfer env transaction_id amount source dest correlation_id s)
  unfolding process_transfer
  process_transfer-Ordered source dest s h =
      bind-Ensures Ordered (Same env before) Ordered _ _ s
        (widen _ Ordered _ (Same env before) _ (lift-Same env before (ok_or source _) s h)
          (λ _ _ e. inl e) (λ _ _ e. e))
        λ j s₁ h₁.
          bind-Ensures Ordered (Same env before) Ordered _ _ s₁
            (widen _ Ordered _ (Same env before) _ (lift-Same env before (ok_or dest _) s₁ h₁)
              (λ _ _ e. inl e) (λ _ _ e. e))
            λ k s₂ h₂.
              let i = if leb j k then j else k in
              let l = if leb j k then k else j in
              bind-Ensures Ordered (λ _ u. u.account_locks ≡ i ∷ before) Ordered _ _ s₂
                (widen {A = AccountRow} _ Ordered (λ _ u. u.account_locks ≡ i ∷ before)
                  (λ _ u. u.account_locks ≡ i ∷ before) (fetch_account env i s₂)
                  (fetch_account-locks env i before s₂ h₂) (λ _ _ e. inl e) (λ _ _ e. e))
                λ x s₃ h₃.
                  bind-Ensures Ordered (λ _ u. u.account_locks ≡ l ∷ i ∷ before) Ordered _ _ s₃
                    (widen {A = AccountRow} _ Ordered (λ _ u. u.account_locks ≡ l ∷ i ∷ before)
                      (λ _ u. u.account_locks ≡ l ∷ i ∷ before) (fetch_account env l s₃)
                      (fetch_account-locks env l (i ∷ before) s₃ h₃) (λ _ _ e. inr (inl (i, e)))
                      (λ _ _ e. e))
                    λ y s₄ h₄.
                      widen (Same env (l ∷ i ∷ before)) Ordered (Same env (l ∷ i ∷ before)) Ordered
                        _
                        (move_funds-Same env (l ∷ i ∷ before) transaction_id amount j k
                          (if i == j then x else y) (if i == k then x else y) correlation_id s₄ h₄)
                        (λ _ _ e. inr (inr (i, l, lower_first j k, e)))
                        (λ _ _ e. inr (inr (i, l, lower_first j k, e)))

-- Whatever happens in it, a transfer adds to the locks of its session no account, or one, or two with
-- the lower identifier first.
pub process_transfer-locks :
    (env : Env) (transaction_id : ℕ) (amount : ℤ) (source dest : Option ℕ) (correlation_id : ℕ)
    (s : Session)
    → TakesInOrder s.account_locks
        (process_transfer env transaction_id amount source dest correlation_id s).1.account_locks
process_transfer-locks env transaction_id amount source dest correlation_id s =
    by_result (process_transfer env transaction_id amount source dest correlation_id s) (
      process_transfer-Ordered env transaction_id amount correlation_id s.account_locks source dest
        s refl)
  where
    by_result :
        (p : Result ProcessError ⊤ × Session)
        → Ensures
            (λ _ u. TakesInOrder s.account_locks u.account_locks)
            (λ _ u. TakesInOrder s.account_locks u.account_locks)
            p
        → TakesInOrder s.account_locks p.1.account_locks
    by_result (ok _, u) h = h
    by_result (err _, u) h = h
