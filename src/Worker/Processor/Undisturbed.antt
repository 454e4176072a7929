-- ===== src/Worker/Processor/Undisturbed.antt =====
-- What the compliance check, the business logic and the end of `process_transaction` do for an order
-- that can be carried out, where nothing around the code fails.
use financial_data_platform.Prelude.{
  ℕ, ◌+◌, ◌≤◌, ⊤, Bool, ◌≡◌, refl, ◌∙◌, true, false, not, if◌then◌else◌, String, Option, none, some,
  Result, ok, err, arith, ap,
}
use financial_data_platform.Prelude.Int.{pos, ◌≤ℤ◌, ◌<ℤ◌}
use financial_data_platform.Prelude.Table.{find}
use financial_data_platform.Shared.Domain.{max_i64}
use financial_data_platform.Shared.Events.{EventEnvelope}
use financial_data_platform.Shared.Fault.{Counters, lookup, should_fail, apply_rule}
use financial_data_platform.Store.Logic.{Ensures, bind-Ensures}
use financial_data_platform.Store.Session.{Env, Session, pure, ◌>>=◌, commit, end_commit}
use financial_data_platform.Store.Statements.{max_i32}
use financial_data_platform.Store.Tables.{TransactionRow, Db}
use financial_data_platform.Worker.Error.{ProcessError, database}
use financial_data_platform.Worker.Fraud.{FraudResult, check, assess}
use financial_data_platform.Worker.Postings.Undisturbed.{Never}
use financial_data_platform.Worker.Processor.{
  business, attempt, fraud_check_timeout_secs, judge, compliance, fraud_check, timeout, is_open,
  as_checked, as_settled, finish,
}
use financial_data_platform.Worker.Processor.Succeed.{
  Quiet, Payable, business_by, update_transaction-Never,
}

-- An open transaction whose order can be carried out: its amount is positive and not above the
-- limit of the fraud check, and its counters have room.
pub record Ready (env : Env) (t : TransactionRow) (db : Db) : Type 0 where
  pub open_status : is_open t.status ≡ true
  pub positive : pos 0 <ℤ t.amount
  pub allowed : t.amount ≤ℤ pos 1_000_000_000
  pub version_room : t.version + 2 ≤ max_i64
  pub retry_room : t.retry_count ≤ max_i32
  pub payable :
      Payable env.now t.transaction_type t.amount t.source_account_id t.dest_account_id db.accounts

module _ (env : Env) (event : EventEnvelope) (worker_id : String) (quiet : Quiet env)
    (t : TransactionRow) (db : Db) (ready : Ready env t db) where
  -- The row is as the two updates leave it, the accounts are untouched.
  pub record Held (s : Session) : Type 0 where
    pub row : TransactionRow
    pub live : s.aborted ≡ false
    pub there : find event.aggregate_id s.working.transactions ≡ some row
    pub accounts : s.working.accounts ≡ db.accounts
    pub same_version : row.version ≡ t.version + 1
    pub same_retries : row.retry_count ≡ t.retry_count

  cleared : (assess t.amount).is_blocked ≡ false
  unfolding assess
  cleared = ground (arith, ready.allowed)

  pub no_fault :
      (point : String) (id : Option ℕ) (m : Counters)
      → should_fail env.rules point id m ≡ (false, m)
  unfolding should_fail lookup apply_rule
  no_fault point id m = ap (λ rules. should_fail rules point id m) quiet.no_faults

  fraud_check-Never :
      (s : Session)
      → Held s
      → Ensures Never
          (λ timed s'.
            Held s' × (timeout env fraud_check_timeout_secs timed ≡ some (assess t.amount)))
          (fraud_check env event worker_id t s)
  unfolding fraud_check check
  fraud_check-Never s h = (
    record {
      row = h.row;
      live = h.live;
      there = h.there;
      accounts = h.accounts;
      same_version = h.same_version;
      same_retries = h.same_retries;
    },
    rw (no_fault "fraud.hang" (some event.aggregate_id) s.counters, quiet.patient) refl,
  )

  judge-Never :
      (o : Option FraudResult) (s : Session)
      → o ≡ some (assess t.amount)
      → Held s
      → Ensures Never (λ _ s'. Held s') (judge env event worker_id o s)
  unfolding judge
  judge-Never none s e h = absurd (cc)
  judge-Never (some f) s e h = rw (ap is_blocked_of e ∙ cleared) (
      bind-Ensures Never _ _ _ _ s
        (update_transaction-Never env event worker_id quiet (λ _. true) (as_checked f.risk_score)
          h.row s h.live h.there refl
          (ground (arith, h.same_version, h.same_retries, ready.version_room, ready.retry_room)))
        λ n s₁ h₁. record {
          row = as_checked f.risk_score h.row;
          live = h₁.0;
          there = h₁.3;
          accounts = h₁.2 ∙ h.accounts;
          same_version = h.same_version;
          same_retries = h.same_retries;
        })
    where
      is_blocked_of : Option FraudResult → Bool
      is_blocked_of none = true
      is_blocked_of (some r) = r.is_blocked

  pub compliance-Never :
      (s : Session) → Held s → Ensures Never (λ _ s'. Held s') (compliance env event worker_id t s)
  unfolding compliance
  compliance-Never s h = by_check t.compliance_checked
    where
      by_check :
          (b : Bool)
          → Ensures Never
              (λ _ s'. Held s')
              ((if not b
                  then (fraud_check env event worker_id t >>= λ timed.
                      judge env event worker_id (timeout env fraud_check_timeout_secs timed))
                  else pure tt)
                s)
      by_check true = h
      by_check false =
          bind-Ensures Never
            (λ timed s'.
              Held s' × (timeout env fraud_check_timeout_secs timed ≡ some (assess t.amount)))
            _ _ _ s (fraud_check-Never s h)
            λ timed s₁ h₁. judge-Never (timeout env fraud_check_timeout_secs timed) s₁ h₁.1 h₁.0

  pub business-Never :
      (s : Session)
      → Held s
      → Ensures Never
          (λ result s'. (result ≡ ok tt) × (s'.aborted ≡ false))
          (attempt (business env event worker_id t.transaction_type t) s)
  business-Never s h = by_result (business env event worker_id t.transaction_type t s) (
      business_by env event worker_id quiet t.transaction_type t t.source_account_id
        t.dest_account_id s refl refl h.live ready.positive (ground (arith, ready.allowed))
        (rw h.accounts ready.payable))
    where
      by_result :
          (p : Result ProcessError ⊤ × Session)
          → Ensures Never (λ _ s'. s'.aborted ≡ false) p
          → (p.0 ≡ ok tt) × (p.1.aborted ≡ false)
      by_result (ok _, s') live = (refl, live)
      by_result (err _, s') impossible = absurd impossible

  commit-Never :
      (s : Session) → s.aborted ≡ false → Ensures Never (λ _ _. ⊤) (commit database env s)
  unfolding commit end_commit
  commit-Never s live = rw (live, quiet.commits) tt

  pub finish-Never :
      (row : TransactionRow) (s : Session)
      → s.aborted ≡ false
      → find event.aggregate_id s.working.transactions ≡ some row
      → row.version ≡ t.version + 1
      → row.retry_count ≡ t.retry_count
      → Ensures Never (λ _ _. ⊤) (finish env event worker_id (ok tt) s)
  unfolding finish
  finish-Never row s live there version retries =
      bind-Ensures Never _ _ _ _ s
        (update_transaction-Never env event worker_id quiet (λ _. true) (as_settled env.now) row s
          live there refl (ground (arith, version, retries, ready.version_room, ready.retry_room)))
        λ n s₁ h₁. commit-Never s₁ h₁.0
