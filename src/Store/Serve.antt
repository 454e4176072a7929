-- ===== src/Store/Serve.antt =====
-- Sessions on a database that serves: what each step computes to.
use financial_data_platform.Prelude.{ℕ, ◌≡◌, refl, ap, false, none, Result, ok, err}
use financial_data_platform.Shared.Error.{SqlError}
use financial_data_platform.Store.Logic.{advanced}
use financial_data_platform.Store.Session.{
  Env, Session, M, done, ◌>>=◌, begin, commit, end_commit, conclude, execute,
}
use financial_data_platform.Store.Tables.{Db}

-- The database begins, answers and commits.
pub record Serves (env : Env) : Type 0 where
  pub begins : env.begin_error ≡ none
  pub answers : (n : ℕ) → env.statement_error n ≡ none
  pub commits : env.commit_outcome ≡ done

pub >>=-ok :
    {E A B : Type 0} (m : M E A) (f : A → M E B) (s : Session) {a : A} {t : Session}
    → m s ≡ (ok a, t)
    → (m >>= f) s ≡ f a t
unfolding ◌>>=◌
>>=-ok {E = E} {A = A} {B = B} m f s e =
    ap
      (λ (p : Result E A × Session). elim p.0 as (λ _. Result E B × Session) [
        | ok b ↦ f b p.1
        | err x ↦ (err x, p.1)
      ])
      e

module _ {E : Type 0} (from : SqlError → E) (env : Env) (serves : Serves env) where
  pub begin-ok :
      (s : Session)
      → begin from env s
        ≡ (ok tt, record s { working = s.committed; statements = 0; aborted = false })
  unfolding begin
  begin-ok s = rw serves.begins refl

  pub execute-ok :
      {A : Type 0} (q : Db → Result SqlError (A × Db)) (s : Session) {a : A} {db : Db}
      → s.aborted ≡ false
      → q s.working ≡ ok (a, db)
      → execute from env q s ≡ (ok a, advanced s db)
  unfolding execute conclude
  execute-ok q s live e = rw (live, serves.answers s.statements, e) refl

  pub commit-ok :
      (s : Session)
      → s.aborted ≡ false
      → commit from env s ≡ (ok tt, record s { committed = s.working })
  unfolding commit end_commit
  commit-ok s live = rw (live, serves.commits) refl
