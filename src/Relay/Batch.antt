-- ===== src/Relay/Batch.antt =====
-- The outcome of a batch, whatever the database and the broker do.
use financial_data_platform.Prelude.{
  ℕ, ⊤, ◌≡◌, refl, sym, ap, ◌∙◌, subst, inl, inr, Bool, true, false, Option-cases, List, [], ◌∷◌,
  Result, ok, err, arith, All,
}
use financial_data_platform.Prelude.Int.{ℤ, pos, negsuc}
use financial_data_platform.Prelude.Keyed.{Distinct}
use financial_data_platform.Prelude.Table.{set}
use financial_data_platform.Store.Logic.{Ensures, bind-Ensures, map-Ensures, execute-Ensures}
use financial_data_platform.Store.Session.{
  Env, Session, CommitOutcome, done, refused, unreported, begin, commit, end_commit,
}
use financial_data_platform.Store.Tables.{Db}
use financial_data_platform.Relay.{
  RelayError, sqlx, Sent, Link, Events, Failures, Tally, RelayState, batch_of, select_pending,
  send_all, mark_published, as_bounced, record_failure, mark_if_any, record_failures,
  conclude_batch, fetch, after_send, after_fetch, relay_batch,
}
use financial_data_platform.Relay.Select.{Waiting, batch_of-Waiting, Distinct-batch_of}
use financial_data_platform.Relay.Send.{
  IsIn, IsIn-send_all, Acked, Bounced, Tallied, send_all-Tallied, DistinctIn, send_all-DistinctIn,
}
use financial_data_platform.Relay.Mark.{
  publish_rows-none, Relayed, Relayed-refl, Going, marked-Going, failed-Going,
}

-- Only the outbox is different, and it is a relayed one.
abbrev pub Batched : Link → List Sent → (now : ℕ) → Db → Db → Type 0
Batched link log now db db' =
    (db' ≡ record db { outbox_events = db'.outbox_events })
    × Relayed link log now db.outbox_events db'.outbox_events

module _ (env : Env) (link : Link) (db : Db) (distinct : Distinct db.outbox_events) where
  abbrev Open : Session → Type 0
  Open s = (s.aborted ≡ false) × (s.committed ≡ db)

  abbrev Untouched : RelayError → Session → Type 0
  Untouched _ s = s.committed ≡ db

  -- The batch, over an held transaction without changes.
  abbrev Fetched : Events → Session → Type 0
  Fetched es s = Open s × (s.working ≡ db) × All (Waiting db.outbox_events) es × Distinct es

  begun :
      (s : Session)
      → s.committed ≡ db
      → Ensures Untouched (λ _ s'. Open s' × (s'.working ≡ db)) (begin sqlx env s)
  unfolding begin
  begun s same = elim (Option-cases env.begin_error) [
    | inl fine ↦ rw (fine, begin) ((refl, same), same)
    | inr (e, bad) ↦ rw (bad, begin) same
  ]

  selected :
      (n : ℤ) (es : Events) (db' : Db)
      → select_pending link.locked_elsewhere n db ≡ ok (es, db')
      → (db' ≡ db) × All (Waiting db.outbox_events) es × Distinct es
  unfolding select_pending
  selected (pos n) es db' e =
      let same : batch_of link.locked_elsewhere n db.outbox_events ≡ es = ground arith in
      (
        ground arith,
        subst (All (Waiting db.outbox_events)) same
            (batch_of-Waiting link.locked_elsewhere n db.outbox_events distinct),
        subst Distinct same (Distinct-batch_of link.locked_elsewhere n db.outbox_events distinct),
      )
  selected (negsuc n) es db' e = absurd (ground arith)

  fetch-Ensures :
      (n : ℤ) (s : Session) → s.committed ≡ db → Ensures Untouched Fetched (fetch env link n s)
  unfolding fetch
  fetch-Ensures n s same =
      bind-Ensures Untouched (λ _ s'. Open s' × (s'.working ≡ db)) Fetched _ _ s (begun s same)
        λ _ s₁ h₁.
          execute-Ensures Untouched sqlx env Fetched (select_pending link.locked_elsewhere n) s₁
            h₁.0.0 (λ e. h₁.0.1)
            λ es db' e.
              let (w, ws, ds) =
                selected n es db'
                  (subst (λ d. select_pending link.locked_elsewhere n d ≡ ok (es, db')) h₁.1 e) in
              ((refl, h₁.0.1), w, ws, ds)

  module _ (log : List Sent) where
    -- In the transaction, with these failures left to record.
    abbrev Underway : Failures → ⊤ → Session → Type 0
    Underway failed _ s =
        Open s
        × (s.working ≡ record db { outbox_events = s.working.outbox_events })
        × Going link log env.now db.outbox_events failed s.working.outbox_events

    mark-Ensures :
        (published : List ℕ) (failed : Failures) (s : Session)
        → Open s
        → s.working ≡ db
        → All (Acked link db.outbox_events log) published
        → All (Bounced link db.outbox_events) failed
        → Distinct failed
        → Ensures Untouched (Underway failed) (mark_if_any env published s)
    unfolding mark_if_any mark_published
    mark-Ensures [] failed s held same acked bounced once = (
      held,
      ground (arith, same),
      subst (Going link log env.now db.outbox_events failed)
          (publish_rows-none env.now db.outbox_events ∙ sym (ap (λ d. d.outbox_events) same))
          (marked-Going link log env.now db.outbox_events distinct [] failed tt bounced once),
    )
    mark-Ensures (id ∷ ids) failed s held same acked bounced once =
        execute-Ensures Untouched sqlx env (Underway failed) (mark_published env.now (id ∷ ids)) s
          held.0 (λ e. held.1)
          λ a db' e. (
            (refl, held.1),
            ground (arith, same, e),
            subst (Going link log env.now db.outbox_events failed) (ground (arith, same, e)) (
                marked-Going link log env.now db.outbox_events distinct (id ∷ ids) failed acked
                  bounced once),
          )

    failures-Ensures :
        (failed : Failures) (s : Session)
        → Underway failed tt s
        → Ensures Untouched (Underway []) (record_failures env failed s)
    unfolding record_failures record_failure
    failures-Ensures [] s h = h
    failures-Ensures ((id, error) ∷ failed) s (held, frame, going) =
        bind-Ensures Untouched (Underway failed) (Underway []) _ _ s
          (execute-Ensures Untouched sqlx env (Underway failed) (record_failure id error) s held.0
            (λ e. held.1)
            λ a db' e.
              let (row, _, there) = going.left.0 in
              let same : db' ≡ record (s.working) {
                outbox_events = set id (as_bounced error row) s.working.outbox_events;
              } =
                ground (arith, there, e) in
              (
                (refl, held.1),
                cc,
                subst (Going link log env.now db.outbox_events failed)
                    (sym (ap (λ d. d.outbox_events) same))
                    (failed-Going link log env.now db.outbox_events s.working.outbox_events id error
                      failed row going there),
              ))
          λ _ s₁ h₁. failures-Ensures failed s₁ h₁

    abbrev Ends : Session → Type 0
    Ends s = Batched link log env.now db s.committed

    quiet : (s : Session) → s.committed ≡ db → Ends s
    quiet s same =
        subst (Batched link log env.now db) (sym same)
          (refl, Relayed-refl link log env.now db.outbox_events distinct)

    commit_by :
        (s : Session) (b : Bool) (o : CommitOutcome)
        → b ≡ false
        → Underway [] tt s
        → Ensures (λ _ s'. Ends s') (λ _ s'. Ends s') (end_commit sqlx env b o s)
    unfolding end_commit
    commit_by s true o live h = absurd (cc)
    commit_by s false done live (held, frame, going) = (frame, going.relayed)
    commit_by s false (refused e) live (held, frame, going) = quiet s held.1
    commit_by s false (unreported e) live (held, frame, going) = (frame, going.relayed)

    conclude_batch-Ensures :
        (published : List ℕ) (failed : Failures) (s : Session)
        → Open s
        → s.working ≡ db
        → All (Acked link db.outbox_events log) published
        → All (Bounced link db.outbox_events) failed
        → Distinct failed
        → Ensures (λ _ s'. Ends s') (λ _ s'. Ends s') (conclude_batch env published failed s)
    unfolding conclude_batch commit
    conclude_batch-Ensures published failed s held same acked bounced once =
        bind-Ensures _ (Underway failed) _ _ _ s
          (map-Ensures Untouched (λ _ s'. Ends s') (Underway failed) (Underway failed) _
            (mark-Ensures published failed s held same acked bounced once) (λ e t h. quiet t h)
            λ a t h. h)
          λ _ s₁ h₁.
            bind-Ensures _ (Underway []) _ _ _ s₁
              (map-Ensures Untouched (λ _ s'. Ends s') (Underway []) (Underway []) _
                (failures-Ensures failed s₁ h₁) (λ e t h. quiet t h) λ a t h. h)
              λ _ s₂ h₂.
                bind-Ensures _ (λ _ s'. Ends s') _ _ _ s₂
                  (commit_by s₂ s₂.aborted env.commit_outcome h₂.0.0 h₂) λ _ s₃ h₃. h₃

  -- The end of a batch: the outbox is relayed by the log that is reached.
  abbrev Concluded : Result RelayError ℕ × RelayState → Type 0
  Concluded p = Batched link p.1.log env.now db p.1.session.committed

  after_send-Concluded :
      (s : Session) (tally : Tally)
      → Open s
      → s.working ≡ db
      → Tallied link db.outbox_events tally
      → DistinctIn link db.outbox_events tally
      → Concluded (after_send env s tally)
  after_send-Concluded s (err e, log) held same tallied once = quiet log s held.1
  after_send-Concluded s (ok (published, failed), log) held same (acked, bounced) once =
      by_result (conclude_batch env published failed s)
        (conclude_batch-Ensures log published failed s held same acked bounced once)
    where
      by_result :
          (p : Result RelayError ℕ × Session)
          → Ensures (λ _ s'. Ends log s') (λ _ s'. Ends log s') p
          → Ends log p.1
      by_result (ok _, s') h = h
      by_result (err _, s') h = h

  after_fetch-Concluded :
      (log : List Sent) (p : Result RelayError Events × Session)
      → Ensures Untouched Fetched p
      → Concluded (after_fetch env link log p)
  unfolding after_fetch
  after_fetch-Concluded log (err e, s) same = quiet log s same
  after_fetch-Concluded log (ok [], s) (held, _, _, _) = quiet log s held.1
  after_fetch-Concluded log (ok (e ∷ es), s) (held, same, ws, ds) =
      after_send-Concluded s (send_all link (e ∷ es) log) held same
        (send_all-Tallied link db.outbox_events (e ∷ es) log ws)
        (send_all-DistinctIn link db.outbox_events (e ∷ es) log ds)

  after_send-log : (s : Session) (tally : Tally) → (after_send env s tally).1.log ≡ tally.1
  after_send-log s (err e, log) = refl
  after_send-log s (ok _, log) = refl

  after_fetch-log :
      (x : Sent) (log : List Sent) (p : Result RelayError Events × Session)
      → IsIn x log
      → IsIn x (after_fetch env link log p).1.log
  unfolding after_fetch
  after_fetch-log x log (err e, s) h = h
  after_fetch-log x log (ok [], s) h = h
  after_fetch-log x log (ok (e ∷ es), s) h =
      subst (IsIn x) (sym (after_send-log s (send_all link (e ∷ es) log)))
        (IsIn-send_all link x (e ∷ es) log h)

-- Where no two rows of the outbox have the same key, a batch, whether it succeeds or fails, changes
-- nothing but the outbox. Each row stays as it is; or it was pending, its record is in the broker's
-- log and it is now published; or it was pending and one failure is recorded. No row is added, the
-- keys stay different, and nothing leaves the log.
pub relay_batch-outcome :
    (env : Env) (link : Link) (batch_size : ℤ) (st : RelayState)
    → Distinct st.session.committed.outbox_events
    → let st' = (relay_batch env link batch_size st).1 in
      Batched link st'.log env.now st.session.committed st'.session.committed
      × ((x : Sent) → IsIn x st.log → IsIn x st'.log)
unfolding relay_batch
relay_batch-outcome env link batch_size st d = (
  after_fetch-Concluded env link st.session.committed d st.log
      (fetch env link batch_size st.session)
      (fetch-Ensures env link st.session.committed d batch_size st.session refl),
  λ x h.
      after_fetch-log env link st.session.committed d x st.log
        (fetch env link batch_size st.session) h,
)
