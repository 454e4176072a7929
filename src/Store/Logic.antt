-- ===== src/Store/Logic.antt =====
-- Reasoning about session computations: what holds after a success and after an error, and the
-- rules for a bind and for a statement.
use financial_data_platform.Prelude.{
  suc, ◌≡◌, refl, sym, subst, Bool, true, false, Option, none, some, Result, ok, err,
}
use financial_data_platform.Shared.Error.{SqlError}
use financial_data_platform.Store.Tables.{Db}
use financial_data_platform.Store.Session.{Env, Session, M, ◌>>=◌, conclude, execute}

abbrev pub Ensures :
    {E A : Type 0} → (E → Session → Type 0) → (A → Session → Type 0) → Result E A × Session → Type 0
Ensures F Q (ok a, s) = Q a s
Ensures F Q (err e, s) = F e s

-- The session after a statement: aborted, or with the new copy.
abbrev pub broken : Session → Session
broken s = record s { statements = suc s.statements; aborted = true }

abbrev pub advanced : Session → Db → Session
advanced s db = record s { working = db; statements = suc s.statements; aborted = false }

-- What a bind does with its first result.
abbrev after : {E A B : Type 0} → (A → M E B) → Result E A × Session → Result E B × Session
after f (r, s) = elim r [ ok a ↦ f a s | err e ↦ (err e, s) ]

module _ {E : Type 0} (F : E → Session → Type 0) where
  bind_result :
      {A B : Type 0} (P : A → Session → Type 0) (Q : B → Session → Type 0) (f : A → M E B)
      (m : M E A) (s : Session) (r : Result E A) (t : Session)
      → m s ≡ (r, t)
      → Ensures F P (r, t)
      → ((a : A) (t : Session) → P a t → Ensures F Q (f a t))
      → Ensures F Q ((m >>= f) s)
  unfolding ◌>>=◌
  bind_result P Q f m s (ok a) t e h k = subst (λ p. Ensures F Q (after f p)) (sym e) (k a t h)
  bind_result P Q f m s (err x) t e h k = subst (λ p. Ensures F Q (after f p)) (sym e) h

  pub bind-Ensures :
      {A B : Type 0} (P : A → Session → Type 0) (Q : B → Session → Type 0) (m : M E A)
      (f : A → M E B) (s : Session)
      → Ensures F P (m s)
      → ((a : A) (t : Session) → P a t → Ensures F Q (f a t))
      → Ensures F Q ((m >>= f) s)
  bind-Ensures P Q m f s h k = bind_result P Q f m s (m s).0 (m s).1 refl h k

  pub weaken-Ensures :
      {A : Type 0} (P Q : A → Session → Type 0) (r : Result E A × Session)
      → Ensures F P r
      → ((a : A) (t : Session) → P a t → Q a t)
      → Ensures F Q r
  weaken-Ensures P Q (ok a, t) h k = k a t h
  weaken-Ensures P Q (err e, t) h k = h

  -- What holds of all ends, together with an end that is never an error.
  pub both-Ensures :
      {A : Type 0} (P Q : A → Session → Type 0) (r : Result E A × Session)
      → Ensures F P r
      → Ensures (λ _ _. ⊥) Q r
      → Ensures (λ _ _. ⊥) (λ a s. P a s × Q a s) r
  both-Ensures P Q (ok a, t) h k = (h, k)
  both-Ensures P Q (err e, t) h k = k

  module _ {A : Type 0} (from : SqlError → E) (env : Env) (P : A → Session → Type 0) where
    conclude-Ensures :
        (b : Bool) (o : Option SqlError) (r : Result SqlError (A × Db)) (s : Session)
        → b ≡ false
        → ((e : SqlError) → F (from e) (broken s))
        → ((a : A) (db : Db) → r ≡ ok (a, db) → P a (advanced s db))
        → Ensures F P (conclude from env b o r s)
    unfolding conclude
    conclude-Ensures true o r s live bad good = absurd (cc)
    conclude-Ensures false (some e) r s live bad good = bad e
    conclude-Ensures false none (err e) s live bad good = bad e
    conclude-Ensures false none (ok (a, db)) s live bad good = good a db refl

    -- A statement in a live transaction fails and aborts it, or answers by the tables.
    pub execute-Ensures :
        (q : Db → Result SqlError (A × Db)) (s : Session)
        → s.aborted ≡ false
        → ((e : SqlError) → F (from e) (broken s))
        → ((a : A) (db : Db) → q s.working ≡ ok (a, db) → P a (advanced s db))
        → Ensures F P (execute from env q s)
    unfolding execute
    execute-Ensures q s live bad good =
        conclude-Ensures s.aborted (env.statement_error s.statements) (q s.working) s live bad good

pub map-Ensures :
    {E A : Type 0} (F F' : E → Session → Type 0) (P Q : A → Session → Type 0)
    (r : Result E A × Session)
    → Ensures F P r
    → ((e : E) (t : Session) → F e t → F' e t)
    → ((a : A) (t : Session) → P a t → Q a t)
    → Ensures F' Q r
map-Ensures F F' P Q (ok a, t) h f k = k a t h
map-Ensures F F' P Q (err e, t) h f k = f e t h
