-- ===== src/Store/Autocommit.antt =====
-- A statement in its own transaction: what it leaves, whatever the database does.
use financial_data_platform.Prelude.{
  ⊤, ◌≡◌, refl, sym, ap, inl, inr, Bool, true, false, Option, none, some, Option-cases, Result, ok,
  err,
}
use financial_data_platform.Shared.Error.{SqlError}
use financial_data_platform.Store.Logic.{Ensures, bind-Ensures}
use financial_data_platform.Store.Session.{
  Env, Session, CommitOutcome, done, refused, unreported, begin, execute, conclude, end_commit,
  commit, autocommit,
}
use financial_data_platform.Store.Statements.{Statement}
use financial_data_platform.Store.Tables.{Db}

-- The statement's answer and its new tables.
abbrev pub Answers : {A : Type 0} → Statement A → Db → A → Db → Type 0
Answers q db a db' = q db ≡ ok (a, db')

-- What an error may leave: nothing done, or all done where the answer to the COMMIT was lost.
pub data Attempted {A : Type 0} (q : Statement A) (db db' : Db) : Type 0 where
  untouched : db' ≡ db → Attempted q db db'
  unconfirmed : (a : A) → Answers q db a db' → Attempted q db db'

module _ {E A : Type 0} (from : SqlError → E) (env : Env) (q : Statement A) (db : Db) where
  abbrev Fails : E → Session → Type 0
  Fails _ s = Attempted q db s.committed

  abbrev Open : ⊤ → Session → Type 0
  Open _ s = (s.aborted ≡ false) × (s.committed ≡ db) × (s.working ≡ db)

  abbrev Answered : A → Session → Type 0
  Answered a s = (s.aborted ≡ false) × (s.committed ≡ db) × Answers q db a s.working

  begun : (s : Session) → s.committed ≡ db → Ensures Fails Open (begin from env s)
  unfolding begin
  begun s kept = elim (Option-cases env.begin_error) [
    | inl fine ↦ rw (fine, begin) (refl, kept, kept)
    | inr (e, bad) ↦ rw (bad, begin) (untouched kept)
  ]

  concluded :
      (s : Session) (b : Bool) (o : Option SqlError) (r : Result SqlError (A × Db))
      → b ≡ false
      → s.committed ≡ db
      → q db ≡ r
      → Ensures Fails Answered (conclude from env b o r s)
  unfolding conclude
  concluded s true o r live kept e = absurd (cc)
  concluded s false (some x) r live kept e = untouched kept
  concluded s false none (err x) live kept e = untouched kept
  concluded s false none (ok (a, db')) live kept e = (refl, kept, e)

  executed : (s : Session) → Open tt s → Ensures Fails Answered (execute from env q s)
  unfolding execute
  executed s (live, kept, same) =
      concluded s s.aborted (env.statement_error s.statements) (q s.working) live kept
        (ap q (sym same))

  committed :
      (s : Session) (a : A) (b : Bool) (o : CommitOutcome)
      → b ≡ false
      → Answered a s
      → Ensures Fails (λ _ s'. Answers q db a s'.committed) (end_commit from env b o s)
  unfolding end_commit
  committed s a true o live h = absurd (cc)
  committed s a false done live (_, kept, answers) = answers
  committed s a false (refused e) live (_, kept, answers) = untouched kept
  committed s a false (unreported e) live (_, kept, answers) = unconfirmed a answers

  pub autocommit-Ensures :
      (s : Session)
      → s.committed ≡ db
      → Ensures Fails (λ a s'. Answers q db a s'.committed) (autocommit from env q s)
  unfolding autocommit commit
  autocommit-Ensures s kept = bind-Ensures Fails Open _ _ _ s (begun s kept) λ _ s₁ h₁.
      bind-Ensures Fails Answered _ _ _ s₁ (executed s₁ h₁) λ a s₂ h₂.
        bind-Ensures Fails (λ _ s'. Answers q db a s'.committed) _ _ _ s₂
          (committed s₂ a s₂.aborted env.commit_outcome h₂.0 h₂) λ _ s₃ h₃. h₃
