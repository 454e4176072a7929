-- ===== src/System/Reconciled.antt =====
-- The reconciliation of the accounts, after whatever the services did.
use financial_data_platform.Prelude.{ℕ, ◌≡◌, ◌≢◌, List, Result, some, none, ok}
use financial_data_platform.Prelude.Int.{ℤ}
use financial_data_platform.Prelude.Table.{find}
use financial_data_platform.Shared.Error.{SerdeError}
use financial_data_platform.Shared.Events.{EventEnvelope}
use financial_data_platform.Store.Tables.{AccountRow}
use financial_data_platform.Worker.Ledger.{verify_account_balance}
use financial_data_platform.Worker.Ledger.Verify.{
  drifted, verify_account_balance-Books, verify_account_balance-drifted,
}
use financial_data_platform.System.{System, Reaches, Safe, Reaches-Safe}

-- In each state that the services reach from a safe one, whatever fails on the way, the comparison
-- of an account's balance with its ledger entries reports nothing. Where that balance is then
-- changed to another one, the comparison reports the balance that the account had and the new one.
pub Reaches-reconciles :
    (to_vec : EventEnvelope → Result SerdeError (List ℕ)) (x y : System) (id : ℕ) (a : AccountRow)
    (balance : ℤ)
    → Reaches to_vec x y
    → Safe to_vec x
    → find id y.db.accounts ≡ some a
    → balance ≢ a.balance
    → (verify_account_balance id y.db ≡ ok none)
      × (verify_account_balance id (drifted id a balance y.db) ≡ ok (some (a.balance, balance)))
Reaches-reconciles to_vec x y id a balance steps safe found ne =
    let (c, _) = Reaches-Safe to_vec x y steps safe in
    (
      verify_account_balance-Books id a y.db c.books found,
      verify_account_balance-drifted id a balance y.db c.books found ne,
    )
