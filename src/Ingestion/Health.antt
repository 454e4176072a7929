-- ===== src/Ingestion/Health.antt =====
-- crates/ingestion/src/handlers/health.rs: whether the service runs, and whether it has a database.
use financial_data_platform.Prelude.{
  ℕ, ◌≡◌, refl, String, Option, none, some, Result, ok, err, ap, false, ◌∙◌,
}
use financial_data_platform.Shared.Error.{SqlError}
use financial_data_platform.Store.Serve.{Serves, >>=-ok, begin-ok, execute-ok, commit-ok}
use financial_data_platform.Store.Session.{Env, Session, autocommit}
use financial_data_platform.Store.Statements.{Statement}

pub record Readiness : Type 0 where
  pub status_code : ℕ
  pub status : String
  pub reason : Option String

abbrev pub health_check : ℕ
health_check = 200

-- `SELECT 1`
abbrev pub select_one : Statement ℕ
select_one db = ok (1, db)

abbrev pub readiness_of : Result SqlError ℕ → Readiness
readiness_of (ok _) = record { status_code = 200; status = "ready"; reason = none }
readiness_of (err _) = record { status_code = 503; status = "not_ready"; reason = some "database" }

unfoldable pub readiness_check : Env → Session → Readiness × Session
readiness_check env s =
    let (answer, s') = autocommit (λ e. e) env select_one s in (readiness_of answer, s')

-- A database that serves is reported as ready, and is left as it is.
pub readiness_check-ready :
    (env : Env) (s : Session)
    → Serves env
    → ((readiness_check env s).0 ≡ record { status_code = 200; status = "ready"; reason = none })
      × ((readiness_check env s).1.committed ≡ s.committed)
unfolding readiness_check autocommit
readiness_check-ready env s serves =
    (ap (λ p. readiness_of p.0) answered, ap (λ p. p.1.committed) answered)
  where
    from : SqlError → SqlError
    from e = e

    begun : Session
    begun = record s { working = s.committed; statements = 0; aborted = false }

    asked : Session
    asked = record s { working = s.committed; statements = 1; aborted = false }

    answered : autocommit from env select_one s ≡ (ok 1, asked)
    answered =
        >>=-ok _ _ s (begin-ok from env serves s)
        ∙ >>=-ok _ _ begun (execute-ok from env serves select_one begun refl refl)
        ∙ >>=-ok _ _ asked (commit-ok from env serves asked refl)
