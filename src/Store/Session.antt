-- ===== src/Store/Session.antt =====
-- A connection with one open transaction. Statements see and change the working copy; `commit`
-- makes it the committed state, and a session that is dropped or rolled back leaves the committed
-- state alone. As in PostgreSQL, a statement that fails aborts the transaction: each later
-- statement fails until it ends.
use financial_data_platform.Prelude.{
  ℕ, suc, ⊤, Bool, true, false, String, Option, none, some, List, ◌∷◌, Result, ok, err,
}
use financial_data_platform.Shared.Error.{SqlError, database, Render}
use financial_data_platform.Shared.Fault.{Rules, Counters, should_fail}
use financial_data_platform.Store.Tables.{Db}

-- How a COMMIT ends: done; refused with an error; or done with the answer lost on the way.
pub data CommitOutcome : Type 0 where
  done : CommitOutcome
  refused unreported : SqlError → CommitOutcome

-- What the code does not decide: the errors that the database and the network raise, by the number
-- of the statement; the answer to a request for an advisory lock; the runtime's timer; the clock; the fault rules.
pub record Env : Type 0 where
  pub begin_error : Option SqlError
  pub statement_error : ℕ → Option SqlError
  pub commit_outcome : CommitOutcome
  pub lock_granted : Option Bool
  -- Does a timeout of so many seconds expire before work that takes so many?
  pub timeout_expires : (limit seconds : ℕ) → Bool
  pub now : ℕ
  pub rules : Rules
  pub render : Render

pub record Session : Type 0 where
  pub committed : Db
  pub working : Db
  pub statements : ℕ
  pub aborted : Bool
  -- The accounts whose rows are locked, the last first.
  pub account_locks : List ℕ
  pub counters : Counters

abbrev pub M : Type 0 → Type 0 → Type 0
M E A = Session → Result E A × Session

module _ {E : Type 0} where
  abbrev pub pure : {A : Type 0} → A → M E A
  pure a s = (ok a, s)

  abbrev pub throw : {A : Type 0} → E → M E A
  throw e s = (err e, s)

  abbrev pub lift : {A : Type 0} → Result E A → M E A
  lift r s = (r, s)

  infixl 5 ◌>>=◌ ◌>>◌
  unfoldable pub ◌>>=◌ : {A B : Type 0} → M E A → (A → M E B) → M E B
  ◌>>=◌ m f s = let (r, s') = m s in elim r [ ok a ↦ f a s' | err e ↦ (err e, s') ]

  abbrev pub ◌>>◌ : {A B : Type 0} → M E A → M E B → M E B
  m >> k = m >>= λ _. k

  -- `shared::fault::should_fail` on the process's counters.
  unfoldable pub inject : Rules → String → Option ℕ → M E Bool
  inject rules point id s =
      let (hit, m) = should_fail rules point id s.counters in (ok hit, record s { counters = m })

  -- `SELECT … FOR UPDATE` on a row of `accounts` takes its lock.
  unfoldable pub lock_account : ℕ → M E ⊤
  lock_account id s = (ok tt, record s { account_locks = id ∷ s.account_locks })

  unfoldable pub rollback : M E ⊤
  rollback s = (ok tt, record s { working = s.committed; aborted = false })

  module _ (from : SqlError → E) (env : Env) where
    -- `pool.begin()`
    unfoldable pub begin : M E ⊤
    begin s = elim env.begin_error [
      | some e ↦ (err (from e), s)
      | none ↦ (ok tt, record s { working = s.committed; statements = 0; aborted = false })
    ]

    -- An aborted transaction is rolled back by its COMMIT, which reports no error of its own.
    unfoldable pub end_commit : Bool → CommitOutcome → M E ⊤
    end_commit true done s = (ok tt, record s { working = s.committed; aborted = false })
    end_commit true (refused e) s = (err (from e), s)
    end_commit true (unreported e) s =
        (err (from e), record s { working = s.committed; aborted = false })
    end_commit false done s = (ok tt, record s { committed = s.working })
    end_commit false (refused e) s = (err (from e), s)
    end_commit false (unreported e) s = (err (from e), record s { committed = s.working })

    -- `tx.commit()`
    unfoldable pub commit : M E ⊤
    unfolding end_commit
    commit s = end_commit s.aborted env.commit_outcome s

    -- The end of a statement, by whether the transaction is aborted, the error that the environment
    -- raises, and the answer of the tables.
    unfoldable pub conclude :
        {A : Type 0} → Bool → Option SqlError → Result SqlError (A × Db) → M E A
    conclude true _ _ s = (
      err (from (database "current transaction is aborted")),
      record s { statements = suc s.statements },
    )
    conclude false (some e) _ s =
        (err (from e), record s { statements = suc s.statements; aborted = true })
    conclude false none (err e) s =
        (err (from e), record s { statements = suc s.statements; aborted = true })
    conclude false none (ok (a, db)) s =
        (ok a, record s { working = db; statements = suc s.statements; aborted = false })

    -- One statement: it is refused in an aborted transaction, may fail by the environment, and may
    -- fail by the tables' checks.
    unfoldable pub execute : {A : Type 0} → (Db → Result SqlError (A × Db)) → M E A
    unfolding conclude
    execute q s = conclude s.aborted (env.statement_error s.statements) (q s.working) s

    -- A statement on the pool: its own transaction, on a connection that may not be had.
    unfoldable pub autocommit : {A : Type 0} → (Db → Result SqlError (A × Db)) → M E A
    unfolding begin execute commit
    autocommit q = do begin; a ← execute q; commit; pure a
