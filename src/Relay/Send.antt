-- ===== src/Relay/Send.antt =====
-- The sends of a batch: what the tally of acknowledged and rejected events says about the log.
use financial_data_platform.Prelude.{
  ℕ, ⊤, ◌≡◌, refl, ◌⊎◌, inl, inr, Bool, true, false, String, List, [], ◌∷◌, Result, ok, err, All,
  ◌==◌,
}
use financial_data_platform.Prelude.Keyed.{Fresh, Distinct}
use financial_data_platform.Prelude.Table.{Table}
use financial_data_platform.Shared.Error.{SerdeError}
use financial_data_platform.Shared.Events.{EventEnvelope}
use financial_data_platform.Store.Tables.{OutboxRow}
use financial_data_platform.Relay.{
  serialization, Sent, SendResult, acknowledged, rejected, Link, Events, sent_of, deliver, Tally,
  note, send_all,
}
use financial_data_platform.Relay.Select.{Waiting}

abbrev pub IsIn : Sent → List Sent → Type 0
IsIn x [] = ⊥
IsIn x (y ∷ ys) = (x ≡ y) ⊎ IsIn x ys

-- The row's payload was sent under its topic and key.
abbrev pub IsLogged : (EventEnvelope → Result SerdeError (List ℕ)) → OutboxRow → List Sent → Type 0
IsLogged to_vec row log =
    (payload : List ℕ) × (to_vec row.payload ≡ ok payload) × IsIn (sent_of row payload) log

module _ (link : Link) where
  abbrev pub InLog : OutboxRow → List Sent → Type 0
  InLog row log = IsLogged link.to_vec row log

  IsIn-deliver :
      (x y : Sent) (answer : SendResult) (log : List Sent)
      → IsIn x log
      → IsIn x (deliver answer y log)
  IsIn-deliver x y acknowledged log h = inr h
  IsIn-deliver x y (rejected _ true) log h = inr h
  IsIn-deliver x y (rejected _ false) log h = h

  note-log : (id : ℕ) (answer : SendResult) (t : Tally) → (note id answer t).1 ≡ t.1
  note-log id answer (err e, log) = refl
  note-log id acknowledged (ok _, log) = refl
  note-log id (rejected _ _) (ok _, log) = refl

  -- A property of the tally, by whether the first payload can be serialised.
  send_all-step :
      (P : Tally → Type 0) (id : ℕ) (row : OutboxRow) (es : Events) (log : List Sent)
      → ((e : SerdeError) → P (err (serialization e), log))
      → ((payload : List ℕ)
          → link.to_vec row.payload ≡ ok payload
          → P (
              note id
                (link.send id)
                (send_all link es (deliver (link.send id) (sent_of row payload) log))))
      → P (send_all link ((id, row) ∷ es) log)
  unfolding send_all
  send_all-step P id row es log bad fine = by_payload (link.to_vec row.payload) refl
    where
      by_payload :
          (r : Result SerdeError (List ℕ))
          → link.to_vec row.payload ≡ r
          → P (send_all link ((id, row) ∷ es) log)
      by_payload (err e) same = rw (same, send_all) (bad e)
      by_payload (ok payload) same = rw (same, send_all) (fine payload same)

  -- Nothing leaves the log.
  pub IsIn-send_all :
      (x : Sent) (es : Events) (log : List Sent) → IsIn x log → IsIn x (send_all link es log).1
  unfolding send_all
  IsIn-send_all x [] log h = h
  IsIn-send_all x ((id, row) ∷ es) log h =
      send_all-step (λ t. IsIn x t.1) id row es log (λ e. h)
        λ payload fine.
          rw
            (note-log id (link.send id)
              (send_all link es (deliver (link.send id) (sent_of row payload) log)))
            (IsIn-send_all x es _ (IsIn-deliver x (sent_of row payload) (link.send id) log h))

  module _ (t : Table OutboxRow) where
    -- An acknowledged event: it waited in the table, and its record is in the log.
    abbrev pub Acked : List Sent → ℕ → Type 0
    Acked log id =
        (row : OutboxRow) × Waiting t (id, row) × (link.send id ≡ acknowledged) × InLog row log

    abbrev pub Bounced : ℕ × String → Type 0
    Bounced q =
        (row : OutboxRow) × (reached : Bool) × Waiting t (q.0, row)
        × (link.send q.0 ≡ rejected q.1 reached)

    abbrev pub Tallied : Tally → Type 0
    Tallied (err e, log) = ⊤
    Tallied (ok (published, failed), log) = All (Acked log) published × All Bounced failed

    note-Tallied :
        (id : ℕ) (row : OutboxRow) (answer : SendResult) (tally : Tally)
        → link.send id ≡ answer
        → Waiting t (id, row)
        → (answer ≡ acknowledged → InLog row tally.1)
        → Tallied tally
        → Tallied (note id answer tally)
    note-Tallied id row answer (err e, log) same waits logged h = tt
    note-Tallied id row acknowledged (ok (p, f), log) same waits logged (ps, fs) =
        (((row, waits, same, logged refl), ps), fs)
    note-Tallied id row (rejected e reached) (ok (p, f), log) same waits logged (ps, fs) =
        (ps, ((row, reached, waits, same), fs))

    delivered :
        (row : OutboxRow) (payload : List ℕ) (log : List Sent) (answer : SendResult)
        → answer ≡ acknowledged
        → IsIn (sent_of row payload) (deliver answer (sent_of row payload) log)
    delivered row payload log acknowledged same = inl refl
    delivered row payload log (rejected _ _) same = absurd (cc)

    pub send_all-Tallied :
        (es : Events) (log : List Sent) → All (Waiting t) es → Tallied (send_all link es log)
    unfolding send_all
    send_all-Tallied [] log ws = (tt, tt)
    send_all-Tallied ((id, row) ∷ es) log (w, ws) =
        send_all-step Tallied id row es log (λ e. tt)
          λ payload fine.
            note-Tallied id row (link.send id) _ refl w
              (λ same. (
                payload,
                fine,
                IsIn-send_all (sent_of row payload) es _
                    (delivered row payload log (link.send id) same),
              ))
              (send_all-Tallied es _ ws)

    -- The failures are of different events.
    abbrev FreshIn : ℕ → Tally → Type 0
    FreshIn k (err e, log) = ⊤
    FreshIn k (ok (published, failed), log) = Fresh k failed

    abbrev pub DistinctIn : Tally → Type 0
    DistinctIn (err e, log) = ⊤
    DistinctIn (ok (published, failed), log) = Distinct failed

    note-FreshIn :
        (k id : ℕ) (answer : SendResult) (tally : Tally)
        → (id == k) ≡ false
        → FreshIn k tally
        → FreshIn k (note id answer tally)
    note-FreshIn k id answer (err e, log) ne h = tt
    note-FreshIn k id acknowledged (ok _, log) ne h = h
    note-FreshIn k id (rejected _ _) (ok _, log) ne h = (ne, h)

    note-DistinctIn :
        (id : ℕ) (answer : SendResult) (tally : Tally)
        → FreshIn id tally
        → DistinctIn tally
        → DistinctIn (note id answer tally)
    note-DistinctIn id answer (err e, log) f h = tt
    note-DistinctIn id acknowledged (ok _, log) f h = h
    note-DistinctIn id (rejected _ _) (ok _, log) f h = (f, h)

    send_all-FreshIn :
        (k : ℕ) (es : Events) (log : List Sent) → Fresh k es → FreshIn k (send_all link es log)
    unfolding send_all
    send_all-FreshIn k [] log f = tt
    send_all-FreshIn k ((id, row) ∷ es) log (ne, f) =
        send_all-step (FreshIn k) id row es log (λ e. tt)
          λ payload fine. note-FreshIn k id (link.send id) _ ne (send_all-FreshIn k es _ f)

    pub send_all-DistinctIn :
        (es : Events) (log : List Sent) → Distinct es → DistinctIn (send_all link es log)
    unfolding send_all
    send_all-DistinctIn [] log d = tt
    send_all-DistinctIn ((id, row) ∷ es) log (f, d) =
        send_all-step DistinctIn id row es log (λ e. tt)
          λ payload fine.
            note-DistinctIn id (link.send id) _ (send_all-FreshIn id es _ f)
              (send_all-DistinctIn es _ d)
