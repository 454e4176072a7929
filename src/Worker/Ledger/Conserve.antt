-- ===== src/Worker/Ledger/Conserve.antt =====
-- No money is made or lost between accounts.
use financial_data_platform.Prelude.{ℕ, ⊤, ◌≡◌, ◌≢◌, Option, false, Result, ok, err}
use financial_data_platform.Prelude.Int.{ℤ, pos, ◌+ℤ◌, int_laws}
use financial_data_platform.Shared.Domain.{transfer_type}
use financial_data_platform.Store.Logic.{Ensures}
use financial_data_platform.Store.Session.{Env, Session}
use financial_data_platform.Worker.Error.{ProcessError}
use financial_data_platform.Worker.Ledger.Operations.{performed-Change}
use financial_data_platform.Worker.Ledger.Total.{total}
use financial_data_platform.Worker.Postings.{process_transfer}
use financial_data_platform.Worker.Postings.Spec.{performed, transferred}
use financial_data_platform.Worker.Postings.Steps.{FailsSafe}
use financial_data_platform.Worker.Postings.Refine.{Refines, process_transfer-Refines}

module _ (env : Env) (transaction_id correlation_id : ℕ) (amount : ℤ) (source dest : Option ℕ)
    (s : Session) where
  abbrev ran : Result ProcessError ⊤ × Session
  ran = process_transfer env transaction_id amount source dest correlation_id s

  -- A transfer that succeeds in a live session, between two different accounts, leaves the sum of
  -- all balances as it was.
  pub total-process_transfer :
      s.aborted ≡ false
      → source ≢ dest
      → ran.0 ≡ ok tt
      → total ran.1.working.accounts ≡ total s.working.accounts
  unfolding performed
  total-process_transfer live differ fine =
      by_result ran
        (process_transfer-Refines env transaction_id correlation_id amount s live source dest
          differ)
        fine
    where
      add_zero : (x y : ℤ) → x ≡ y +ℤ pos 0 → x ≡ y
      add_zero x y h = grind int_laws

      by_result :
          (p : Result ProcessError ⊤ × Session)
          → Ensures
              (FailsSafe s)
              (Refines (transferred env.now transaction_id correlation_id amount source dest) s)
              p
          → p.0 ≡ ok tt
          → total p.1.working.accounts ≡ total s.working.accounts
      by_result (ok _, s') done e =
          add_zero _ _
            (performed-Change env.now transaction_id correlation_id transfer_type amount source dest
              s.working done.1).sum
      by_result (err _, s') safe e = absurd (cc)
