-- ===== src/Worker/Consumer/Retries.antt =====
-- The retry library that the consumer calls, by its documented behaviour: an operation is attempted
-- again after an error that the predicate admits, until it succeeds or the times are used up.
use financial_data_platform.Prelude.{
  ℕ, suc, ◌+◌, ◌≤◌, ⊤, ◌≡◌, refl, sym, ◌∙◌, subst, ◌⊎◌, inl, inr, Bool, true, false, Result, ok,
  err, arith,
}
use financial_data_platform.Store.Session.{Session}
use financial_data_platform.Worker.Error.{ProcessError}
use financial_data_platform.Worker.Postings.{Process}

-- Attempt `n`, with `left` retries left after it, started in a session, ends in a result.
pub data Retries (attempt : ℕ → Process ⊤) (retry_when : ProcessError → Bool)
    : ℕ → ℕ → Session → Result ProcessError ⊤ × Session → Type 0 where
  succeeded :
      (left n : ℕ) (s s' : Session)
      → attempt n s ≡ (ok tt, s')
      → Retries attempt retry_when left n s (ok tt, s')
  refused :
      (left n : ℕ) (s s' : Session) (e : ProcessError)
      → attempt n s ≡ (err e, s')
      → retry_when e ≡ false
      → Retries attempt retry_when left n s (err e, s')
  exhausted :
      (n : ℕ) (s s' : Session) (e : ProcessError)
      → attempt n s ≡ (err e, s')
      → retry_when e ≡ true
      → Retries attempt retry_when 0 n s (err e, s')
  again :
      (left n : ℕ) (s s' : Session) (e : ProcessError) (r : Result ProcessError ⊤ × Session)
      → attempt n s ≡ (err e, s')
      → retry_when e ≡ true
      → Retries attempt retry_when left (suc n) s' r
      → Retries attempt retry_when (suc left) n s r

-- `Retryable::retry` with an `ExponentialBuilder` of a least and a greatest delay and a number of
-- times, and `when`.
pub record Backon : Type 0 where
  pub retry :
      (min_delay max_delay max_times : ℕ) → (ℕ → Process ⊤) → (ProcessError → Bool) → Process ⊤
  pub retries :
      (min_delay max_delay max_times : ℕ) (attempt : ℕ → Process ⊤)
      (retry_when : ProcessError → Bool) (s : Session)
      → Retries attempt retry_when max_times 0 s
          (retry min_delay max_delay max_times attempt retry_when s)

module _ (attempt : ℕ → Process ⊤) (retry_when : ProcessError → Bool) where
  -- The attempts from number `n` on, each in the session that the one before it left, that failed
  -- before number `m`, with errors that are tried again.
  pub data Earlier : ℕ → Session → ℕ → Session → Type 0 where
    none_earlier : (n : ℕ) (s : Session) → Earlier n s n s
    failed_first :
        (n m : ℕ) (s s' s₁ : Session) (e : ProcessError)
        → attempt n s ≡ (err e, s')
        → retry_when e ≡ true
        → Earlier (suc n) s' m s₁
        → Earlier n s m s₁

  -- A result is final by success, by an error that is not tried again, or by its attempt's number.
  abbrev pub IsFinal : (last m : ℕ) → Result ProcessError ⊤ → Type 0
  IsFinal last m r =
      (r ≡ ok tt) ⊎ ((e : ProcessError) × (r ≡ err e) × ((retry_when e ≡ false) ⊎ (m ≡ last)))

  -- An end of the retries is the end of the last attempt.
  pub Retries-last :
      (left n last : ℕ) (s : Session) (r : Result ProcessError ⊤ × Session)
      → last ≡ n + left
      → Retries attempt retry_when left n s r
      → (m : ℕ) × (s₁ : Session) × (m ≤ last)
        × Earlier n s m s₁
        × (r ≡ attempt m s₁)
        × IsFinal last m r.0
  Retries-last left n last s _ total (succeeded _ _ _ s' fine) =
      (n, s, omega arith, none_earlier n s, sym fine, inl refl)
  Retries-last left n last s _ total (refused _ _ _ s' e fine stop) =
      (n, s, omega arith, none_earlier n s, sym fine, inr (e, refl, inl stop))
  Retries-last left n last s _ total (exhausted _ _ s' e fine more) =
      (n, s, omega arith, none_earlier n s, sym fine, inr (e, refl, inr (omega arith)))
  Retries-last left n last s r total (again left' _ _ s' e _ fine more rest) =
      let (m, s₁, bound, before, same, final) =
        Retries-last left' (suc n) last s' r (omega arith) rest in
      (m, s₁, bound, failed_first n m s s' s₁ e fine more before, same, final)

  -- What each attempt from a state that is kept ends in, all of them end in.
  pub Retries-induction :
      (I : Session → Type 0) (Q : Result ProcessError ⊤ × Session → Type 0)
      → ((n : ℕ) (s : Session) → I s → Q (attempt n s))
      → ((e : ProcessError) (s : Session) → Q (err e, s) → I s)
      → (left n : ℕ) (s : Session) (r : Result ProcessError ⊤ × Session) → I s
      → Retries attempt retry_when left n s r
      → Q r
  Retries-induction I Q one back left n s _ i (succeeded _ _ _ s' fine) = subst Q fine (one n s i)
  Retries-induction I Q one back left n s _ i (refused _ _ _ s' e fine stop) =
      subst Q fine (one n s i)
  Retries-induction I Q one back left n s _ i (exhausted _ _ s' e fine more) =
      subst Q fine (one n s i)
  Retries-induction I Q one back left n s r i (again left' _ _ s' e _ fine more rest) =
      Retries-induction I Q one back left' (suc n) s' r (back e s' (subst Q fine (one n s i))) rest

  -- An attempt that succeeds is the last one.
  pub Retries-ok :
      (left n : ℕ) (s s' : Session) (r : Result ProcessError ⊤ × Session)
      → Retries attempt retry_when left n s r
      → attempt n s ≡ (ok tt, s')
      → r ≡ (ok tt, s')
  Retries-ok left n s s' r (succeeded _ _ _ t e) fine = sym e ∙ fine
  Retries-ok left n s s' r (refused _ _ _ t x e _) fine = absurd (cc (e, fine))
  Retries-ok left n s s' r (exhausted _ _ t x e _) fine = absurd (cc (e, fine))
  Retries-ok left n s s' r (again _ _ _ t x _ e _ _) fine = absurd (cc (e, fine))
