-- ===== src/Worker/Processor/Succeed.antt =====
-- The steps of `process_transaction` succeed where nothing around it fails: the database answers, the
-- lock is granted, no fault is injected, the timer does not expire, and the order can be paid.
use financial_data_platform.Prelude.{
  ℕ, Bool, [], ◌≡◌, true, false, String, Option, none, some, arith, ◌==◌,
}
use financial_data_platform.Prelude.Int.{ℤ, pos, ◌+ℤ◌, ◌-ℤ◌, ◌<ℤ◌, ltb_ℤ}
use financial_data_platform.Prelude.Table.{Table, find, find-set_self}
use financial_data_platform.Shared.Domain.{
  TransactionType, transfer_type, credit_type, debit_type, fee_type, reversal_type, adjustment_type,
}
use financial_data_platform.Shared.Events.{EventEnvelope}
use financial_data_platform.Store.Logic.{Ensures}
use financial_data_platform.Store.Session.{Env, Session, done, execute, conclude}
use financial_data_platform.Store.Statements.{
  account_fits, fits_numeric, update_transaction, transaction_fits,
}
use financial_data_platform.Store.Tables.{AccountRow, TransactionRow}
use financial_data_platform.Worker.Postings.{run, with_balance}
use financial_data_platform.Worker.Postings.Undisturbed.{Never}
use financial_data_platform.Worker.Postings.Succeed.{
  process_credit-succeeds, process_debit-succeeds, process_transfer-succeeds,
}
use financial_data_platform.Worker.Processor.{business, fraud_check_timeout_secs}

-- Nothing outside the code gets in the way.
pub record Quiet (env : Env) : Type 0 where
  pub begins : env.begin_error ≡ none
  pub answers : (n : ℕ) → env.statement_error n ≡ none
  pub commits : env.commit_outcome ≡ done
  pub granted : env.lock_granted ≡ some true
  pub patient : env.timeout_expires fraud_check_timeout_secs 0 ≡ false
  pub no_faults : env.rules ≡ []

-- An active account that has the amount, or that can hold it, with room in its columns.
module _ (now : ℕ) (amount : ℤ) (k : ℕ) (a : AccountRow) (accounts : Table AccountRow) where
  pub record CanPay : Type 0 where
    pub payer_found : find k accounts ≡ some a
    pub payer_active : a.is_active ≡ true
    pub rich : ltb_ℤ a.balance amount ≡ false
    pub payer_fits : account_fits (with_balance (a.balance -ℤ amount) now a) ≡ true

  pub record CanReceive : Type 0 where
    pub payee_found : find k accounts ≡ some a
    pub payee_active : a.is_active ≡ true
    pub payee_fits : account_fits (with_balance (a.balance +ℤ amount) now a) ≡ true

-- The order of a transaction can be carried out.
abbrev pub Payable : ℕ → TransactionType → ℤ → Option ℕ → Option ℕ → Table AccountRow → Type 0
Payable now transfer_type amount (some j) (some k) accounts =
    (x : AccountRow) × (y : AccountRow) × CanPay now amount j x accounts
    × CanReceive now amount k y accounts
    × ((j == k) ≡ false)
    × ((k == j) ≡ false)
Payable now transfer_type amount (some j) none accounts = ⊥
Payable now transfer_type amount none dest accounts = ⊥
Payable now credit_type amount source (some k) accounts =
    (y : AccountRow) × CanReceive now amount k y accounts
Payable now credit_type amount source none accounts = ⊥
Payable now debit_type amount (some j) dest accounts =
    (x : AccountRow) × CanPay now amount j x accounts
Payable now debit_type amount none dest accounts = ⊥
Payable now fee_type amount (some j) dest accounts =
    (x : AccountRow) × CanPay now amount j x accounts
Payable now fee_type amount none dest accounts = ⊥
Payable now reversal_type amount source dest accounts = ⊥
Payable now adjustment_type amount source dest accounts = ⊥

module _ (env : Env) (event : EventEnvelope) (worker_id : String) (quiet : Quiet env) where
  pub business_by :
      (type : TransactionType) (t : TransactionRow) (source dest : Option ℕ) (s : Session)
      → t.source_account_id ≡ source
      → t.dest_account_id ≡ dest
      → s.aborted ≡ false
      → pos 0 <ℤ t.amount
      → fits_numeric t.amount ≡ true
      → Payable env.now type t.amount source dest s.working.accounts
      → Ensures Never (λ _ s'. s'.aborted ≡ false) (business env event worker_id type t s)
  unfolding business
  business_by transfer_type t (some j) (some k) s es ed live positive narrow (x, y, p, q, ne, ne') =
      rw (es, ed)
        (process_transfer-succeeds env quiet.answers event.aggregate_id event.correlation_id
          t.amount positive narrow j k x y ne ne' p.payer_active p.rich q.payee_active p.payer_fits
          q.payee_fits s live p.payer_found q.payee_found)
  business_by transfer_type t (some j) none s es ed live positive narrow p = absurd p
  business_by transfer_type t none dest s es ed live positive narrow p = absurd p
  business_by credit_type t source (some k) s es ed live positive narrow (y, q) = rw ed (
      process_credit-succeeds env quiet.answers event.aggregate_id event.correlation_id t.amount
        positive narrow k y s live q.payee_found q.payee_active q.payee_fits)
  business_by credit_type t source none s es ed live positive narrow p = absurd p
  business_by debit_type t (some j) dest s es ed live positive narrow (x, p) = rw es (
      process_debit-succeeds env quiet.answers event.aggregate_id event.correlation_id t.amount
        positive narrow j x s live p.payer_found p.payer_active p.rich p.payer_fits)
  business_by debit_type t none dest s es ed live positive narrow p = absurd p
  business_by fee_type t (some j) dest s es ed live positive narrow (x, p) = rw es (
      process_debit-succeeds env quiet.answers event.aggregate_id event.correlation_id t.amount
        positive narrow j x s live p.payer_found p.payer_active p.rich p.payer_fits)
  business_by fee_type t none dest s es ed live positive narrow p = absurd p
  business_by reversal_type t source dest s es ed live positive narrow p = absurd p
  business_by adjustment_type t source dest s es ed live positive narrow p = absurd p

  -- An update that its row passes and fits.
  pub update_transaction-Never :
      (w : TransactionRow → Bool) (f : TransactionRow → TransactionRow) (r : TransactionRow)
      (s : Session)
      → s.aborted ≡ false
      → find event.aggregate_id s.working.transactions ≡ some r
      → w r ≡ true
      → transaction_fits (f r) ≡ true
      → Ensures Never
          (λ n s'.
            (s'.aborted ≡ false)
            × (n ≡ 1)
            × (s'.working.accounts ≡ s.working.accounts)
            × (find event.aggregate_id s'.working.transactions ≡ some (f r)))
          (run env (update_transaction event.aggregate_id w f) s)
  unfolding execute conclude update_transaction
  update_transaction-Never w f r s live found passes fits = ground (
    arith,
    quiet.answers s.statements,
    find-set_self event.aggregate_id (f r) r s.working.transactions found,
  )
