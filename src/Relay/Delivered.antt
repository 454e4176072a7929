-- ===== src/Relay/Delivered.antt =====
-- What holds of the outbox from batch to batch.
use financial_data_platform.Prelude.{
  ℕ, ◌≤◌, ◌≡◌, ◌≢◌, refl, sym, ap, ◌∙◌, subst, inl, inr, some, none, String, Option-cases,
  Bool-cases, ◌==◌, arith, List, Result,
}
use financial_data_platform.Shared.Error.{SerdeError}
use financial_data_platform.Shared.Events.{EventEnvelope}
use financial_data_platform.Prelude.Int.{ℤ}
use financial_data_platform.Prelude.Keyed.{Distinct, Distinct-append}
use financial_data_platform.Prelude.Table.{Table, find, append, find-append_self, find-append_ne}
use financial_data_platform.Store.Session.{Env}
use financial_data_platform.Store.Tables.{
  OutboxRow, EventStatus, event_pending, event_published, event_failed,
}
use financial_data_platform.Worker.Processor.Consistent.{Consistent, Consistent-same}
use financial_data_platform.Relay.{Sent, Link, RelayState, as_bounced, relay_batch}
use financial_data_platform.Relay.Batch.{relay_batch-outcome}
use financial_data_platform.Relay.Mark.{Moved, kept, now_published, now_failed, Relayed}
use financial_data_platform.Relay.Send.{IsIn, IsLogged, InLog}

-- An event is given up at its eleventh failure, and at no other.
abbrev pub RetriesFit : EventStatus → ℕ → Type 0
RetriesFit event_failed n = n ≡ 11
RetriesFit _ n = n ≤ 10

-- A published row's record is in the log, the failures are counted, and the keys are different.
pub record IsWell (to_vec : EventEnvelope → Result SerdeError (List ℕ)) (log : List Sent)
    (t : Table OutboxRow) : Type 0 where
  pub distinct : Distinct t
  pub delivered :
      (id : ℕ) (row : OutboxRow)
      → find id t ≡ some row
      → row.status ≡ event_published
      → IsLogged to_vec row log
  pub fit :
      (id : ℕ) (row : OutboxRow) → find id t ≡ some row → RetriesFit row.status row.retry_count

module _ (link : Link) (log log' : List Sent) (now : ℕ) where
  InLog-grows :
      (row : OutboxRow)
      → ((x : Sent) → IsIn x log → IsIn x log')
      → InLog link row log
      → InLog link row log'
  InLog-grows row grows (payload, fine, there) = (payload, fine, grows _ there)

  not_published :
      (row : OutboxRow) (error : String)
      → row.status ≡ event_pending
      → (as_bounced error row).status ≢ event_published
  not_published row error waits e = ground (arith, waits, e)

  failed_fit :
      (row : OutboxRow) (error : String)
      → row.status ≡ event_pending
      → RetriesFit row.status row.retry_count
      → RetriesFit (as_bounced error row).status (as_bounced error row).retry_count
  failed_fit row error waits h = ground (arith, waits, h)

  -- One row, before and after.
  Moved-delivered :
      (row row' : OutboxRow)
      → Moved link log' now row row'
      → (row.status ≡ event_published → InLog link row log')
      → row'.status ≡ event_published
      → InLog link row' log'
  Moved-delivered row row' (kept same) h e =
      subst (λ r. InLog link r log') (sym same) (h (sym (ap (λ r. r.status) same) ∙ e))
  Moved-delivered row row' (now_published _ logged same) h e =
      subst (λ r. InLog link r log') (sym same) logged
  Moved-delivered row row' (now_failed error waits same) h e =
      absurd (not_published row error waits (sym (ap (λ r. r.status) same) ∙ e))

  Moved-fit :
      (row row' : OutboxRow)
      → Moved link log' now row row'
      → RetriesFit row.status row.retry_count
      → RetriesFit row'.status row'.retry_count
  Moved-fit row row' (kept same) h = subst (λ r. RetriesFit r.status r.retry_count) (sym same) h
  Moved-fit row row' (now_published waits _ same) h =
      subst (λ r. RetriesFit r.status r.retry_count) (sym same) (ground (arith, waits, h))
  Moved-fit row row' (now_failed error waits same) h =
      subst (λ r. RetriesFit r.status r.retry_count) (sym same) (failed_fit row error waits h)

  -- Each row of the relayed table comes from one that was there.
  pub came_from :
      (t t' : Table OutboxRow) (id : ℕ) (row' : OutboxRow)
      → Relayed link log' now t t'
      → find id t' ≡ some row'
      → (row : OutboxRow) × (find id t ≡ some row) × Moved link log' now row row'
  came_from t t' id row' relayed e = elim (Option-cases (find id t)) [
    | inl gone ↦ absurd (cc (relayed.absent id gone, e))
    | inr (row, there) ↦
        (let (r, found, moved) = relayed.rows id row there in
          (row, there, subst (Moved link log' now row) (ground (arith, found, e)) moved))
  ]

  pub Relayed-IsWell :
      (t t' : Table OutboxRow)
      → ((x : Sent) → IsIn x log → IsIn x log')
      → Relayed link log' now t t'
      → IsWell link.to_vec log t
      → IsWell link.to_vec log' t'
  Relayed-IsWell t t' grows relayed well = record {
    distinct = relayed.distinct;
    delivered = λ id row' e s.
        let (row, there, moved) = came_from t t' id row' relayed e in
        Moved-delivered row row' moved (λ p. InLog-grows row grows (well.delivered id row there p))
          s;
    fit = λ id row' e.
        let (row, there, moved) = came_from t t' id row' relayed e in
        Moved-fit row row' moved (well.fit id row there);
  }

-- A new pending event.
pub append-IsWell :
    (to_vec : EventEnvelope → Result SerdeError (List ℕ)) (log : List Sent) (id : ℕ)
    (row : OutboxRow) (t : Table OutboxRow)
    → find id t ≡ none
    → row.status ≡ event_pending
    → row.retry_count ≡ 0
    → IsWell to_vec log t
    → IsWell to_vec log (append id row t)
append-IsWell to_vec log id row t free waits none_yet w = record {
  distinct = Distinct-append id row t free w.distinct;
  delivered = λ j r e s. elim (Bool-cases (j == id)) [
    | inl same ↦
        (let it : row ≡ r = ground (arith, e, find-append_self id row t free) in
          absurd (pending_unpublished row.status waits (ap (λ r. r.status) it ∙ s)))
    | inr other ↦ w.delivered j r (sym (find-append_ne j id row t other) ∙ e) s
  ];
  fit = λ j r e. elim (Bool-cases (j == id)) [
    | inl same ↦
        (let it : row ≡ r = ground (arith, e, find-append_self id row t free) in
          subst (λ r. RetriesFit r.status r.retry_count) it (ground (arith, waits, none_yet)))
    | inr other ↦ w.fit j r (sym (find-append_ne j id row t other) ∙ e)
  ];
}
  where
    pending_unpublished : (s : EventStatus) → s ≡ event_pending → s ≢ event_published
    pending_unpublished s p q = ground (arith, p, q)

-- A batch, whether it succeeds or fails, keeps this: every published event is in the broker's log,
-- every event that was given up failed exactly eleven times and every other one at most ten times,
-- and no two events have the same key.
pub relay_batch-IsWell :
    (env : Env) (link : Link) (batch_size : ℤ) (st : RelayState)
    → IsWell link.to_vec st.log st.session.committed.outbox_events
    → let st' = (relay_batch env link batch_size st).1 in
      IsWell link.to_vec st'.log st'.session.committed.outbox_events
relay_batch-IsWell env link batch_size st well =
    let (batched, grows) = relay_batch-outcome env link batch_size st well.distinct in
    Relayed-IsWell link st.log _ env.now _ _ grows batched.1 well

-- A batch keeps the committed database consistent.
pub relay_batch-Consistent :
    (env : Env) (link : Link) (batch_size : ℤ) (st : RelayState)
    → Distinct st.session.committed.outbox_events
    → Consistent st.session.committed
    → Consistent (relay_batch env link batch_size st).1.session.committed
relay_batch-Consistent env link batch_size st d c =
    subst Consistent (sym (relay_batch-outcome env link batch_size st d).0.0)
      (Consistent-same st.session.committed _ refl refl refl c)

-- Where no two rows of the outbox have the same key, each row is still there after a batch, whether
-- that succeeds or fails: as it was; or it was pending, its record is in the broker's log and it is
-- now published; or it was pending and one failure is recorded.
pub relay_batch-row :
    (env : Env) (link : Link) (batch_size : ℤ) (st : RelayState) (id : ℕ) (row : OutboxRow)
    → Distinct st.session.committed.outbox_events
    → find id st.session.committed.outbox_events ≡ some row
    → let st' = (relay_batch env link batch_size st).1 in
      (row' : OutboxRow) × (find id st'.session.committed.outbox_events ≡ some row')
      × Moved link st'.log env.now row row'
relay_batch-row env link batch_size st id row d there =
    (relay_batch-outcome env link batch_size st d).0.1.rows id row there
