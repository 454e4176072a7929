-- ===== src/Worker/Processor/Attempt.antt =====
-- The compliance check and the business logic, inside the processing of an open transaction `t`.
use financial_data_platform.Prelude.{
  ⊤, ◌≡◌, ◌≢◌, refl, ◌∙◌, subst, ◌⊎◌, inl, inr, true, false, String, Option, none, some, Bool-cases,
  Result, ok, err, arith,
}
use financial_data_platform.Prelude.Table.{find, set}
use financial_data_platform.Shared.Domain.{
  TransactionType, transfer_type, credit_type, debit_type, fee_type, reversal_type, adjustment_type,
}
use financial_data_platform.Shared.Events.{EventEnvelope}
use financial_data_platform.Store.Logic.{Ensures, bind-Ensures, weaken-Ensures}
use financial_data_platform.Store.Session.{Env, Session}
use financial_data_platform.Store.Tables.{TransactionRow, Db}
use financial_data_platform.Worker.Error.{ProcessError}
use financial_data_platform.Worker.Fraud.{FraudResult}
use financial_data_platform.Worker.Postings.Steps.{FailsSafe}
use financial_data_platform.Worker.Postings.Spec.{performed}
use financial_data_platform.Worker.Postings.Frame.{performed-Framed}
use financial_data_platform.Worker.Postings.Refine.{
  Refines, process_transfer-Refines, process_credit-Refines, process_debit-Refines,
}
use financial_data_platform.Worker.Processor.{
  business, attempt, fraud_check_timeout_secs, give_up, judge, compliance, fraud_check, timeout,
  is_open, as_checked,
}
use financial_data_platform.Worker.Processor.Effect.{with_row}
use financial_data_platform.Worker.Processor.Steps.{At, Failed, update-Ensures, give_up-Ensures}

module _ (env : Env) (event : EventEnvelope) (worker_id : String) (db : Db) (t : TransactionRow)
    (found : find event.aggregate_id db.transactions ≡ some t)
    (was_open : is_open t.status ≡ true) where
  abbrev pub Fails : ProcessError → Session → Type 0
  Fails = Failed env event worker_id db t found was_open

  abbrev pub Row : TransactionRow → Session → Type 0
  Row = At env event worker_id db t found was_open

  abbrev pub Open : ⊤ → Session → Type 0
  Open _ s = (r : TransactionRow) × Row r s

  given_up :
      (message : String) (e : ProcessError) (r : TransactionRow) (s : Session)
      → Row r s
      → Ensures Fails Open (give_up env event worker_id message e s)
  given_up message e r s h =
      weaken-Ensures Fails _ Open _
        (give_up-Ensures env event worker_id db t found was_open message e r s h)
        λ a s₁ impossible. absurd impossible

  judge-Ensures :
      (o : Option FraudResult) (r : TransactionRow) (s : Session)
      → Row r s
      → Ensures Fails Open (judge env event worker_id o s)
  unfolding judge
  judge-Ensures none r s h = given_up _ _ r s h
  judge-Ensures (some f) r s h = elim (Bool-cases f.is_blocked) [
    | inl blocked ↦ rw blocked (given_up _ _ r s h)
    | inr passed ↦ rw passed (
        bind-Ensures Fails _ _ _ _ s
          (update-Ensures env event worker_id db t found was_open (λ _. true)
            (as_checked f.risk_score) r s h refl
            (record {
              same_type = h.order.same_type;
              same_amount = h.order.same_amount;
              same_source = h.order.same_source;
              same_dest = h.order.same_dest;
              same_currency = h.order.same_currency;
              same_key = h.order.same_key;
              same_hash = h.order.same_hash;
              same_submission = h.order.same_submission;
            }))
          λ n s₁ h₁. (as_checked f.risk_score r, h₁.0))
  ]

  fraud_check-Ensures :
      (r : TransactionRow) (s : Session)
      → Row r s
      → Ensures Fails (λ _ s'. Row r s') (fraud_check env event worker_id t s)
  unfolding fraud_check
  fraud_check-Ensures r s h = record {
    live = h.live;
    kept = h.kept;
    working = h.working;
    order = h.order;
  }

  pub compliance-Ensures :
      (r : TransactionRow) (s : Session)
      → Row r s
      → Ensures Fails Open (compliance env event worker_id t s)
  unfolding compliance
  compliance-Ensures r s h = elim (Bool-cases t.compliance_checked) [
    | inl checked ↦ rw checked (r, h)
    | inr unchecked ↦ rw unchecked (
        bind-Ensures Fails _ _ _ _ s (fraud_check-Ensures r s h)
          λ timed s₁ h₁. judge-Ensures (timeout env fraud_check_timeout_secs timed) r s₁ h₁)
  ]

  -- The outcome of the business logic over the row `r`.
  abbrev pub Attempted : TransactionRow → Result ProcessError ⊤ → Session → Type 0
  Attempted r (ok _) s =
      (s.aborted ≡ false)
      × (s.committed ≡ db)
      × (d : Db) × (performed env.now event.aggregate_id event.correlation_id t.transaction_type
            t.amount t.source_account_id t.dest_account_id db
          ≡ some d)
      × (s.working ≡ record d { transactions = set event.aggregate_id r db.transactions })
  Attempted r (err _) s =
      ((s.aborted ≡ true) ⊎ (s.working ≡ with_row env event r db)) × (s.committed ≡ db)

  business-Refines :
      (type : TransactionType) (s : Session)
      → s.aborted ≡ false
      → (type ≡ transfer_type → t.source_account_id ≢ t.dest_account_id)
      → Ensures
          (FailsSafe s)
          (Refines
            (performed env.now event.aggregate_id event.correlation_id type t.amount
              t.source_account_id t.dest_account_id)
            s)
          (business env event worker_id type t s)
  unfolding business performed
  business-Refines transfer_type s live differ =
      process_transfer-Refines env event.aggregate_id event.correlation_id t.amount s live
        t.source_account_id t.dest_account_id (differ refl)
  business-Refines credit_type s live differ =
      process_credit-Refines env event.aggregate_id event.correlation_id t.amount s live
        t.dest_account_id
  business-Refines debit_type s live differ =
      process_debit-Refines env event.aggregate_id event.correlation_id t.amount s live
        t.source_account_id
  business-Refines fee_type s live differ =
      process_debit-Refines env event.aggregate_id event.correlation_id t.amount s live
        t.source_account_id
  business-Refines reversal_type s live differ = (inr refl, refl)
  business-Refines adjustment_type s live differ = (inr refl, refl)

  pub attempt-Ensures :
      (r : TransactionRow) (s : Session)
      → Row r s
      → (t.transaction_type ≡ transfer_type → t.source_account_id ≢ t.dest_account_id)
      → Ensures Fails (Attempted r) (attempt (business env event worker_id t.transaction_type t) s)
  attempt-Ensures r s h differ =
      by_result (business env event worker_id t.transaction_type t s)
        (business-Refines t.transaction_type s h.live differ)
    where
      by_result :
          (p : Result ProcessError ⊤ × Session)
          → Ensures
              (FailsSafe s)
              (Refines
                (performed env.now event.aggregate_id event.correlation_id t.transaction_type
                  t.amount t.source_account_id t.dest_account_id)
                s)
              p
          → Attempted r p.0 p.1
      by_result (ok _, s') done =
          let framed =
            performed-Framed env.now event.aggregate_id event.correlation_id
              (set event.aggregate_id r db.transactions) t.transaction_type t.amount
              t.source_account_id t.dest_account_id db s'.working
              (subst
                (λ w.
                  performed env.now event.aggregate_id event.correlation_id t.transaction_type
                    t.amount t.source_account_id t.dest_account_id w
                  ≡ some s'.working)
                h.working done.1) in
          (done.0.0, done.0.1 ∙ h.kept, framed.0, framed.1, framed.2)
      by_result (err e, s') safe = ground (arith, h.working, h.kept)
