-- ===== src/Relay/Rounds.antt =====
-- One round of the loop that nothing disturbs.
use financial_data_platform.Prelude.{
  ℕ, zero, suc, ◌<◌, ok, ◌+◌, ◌-◌, ◌≡◌, sym, ap, ◌∙◌, subst, ◌⊎◌, inl, inr, Bool-cases, false, some,
  List, [], ◌∷◌, arith, All, length,
}
use financial_data_platform.Prelude.Int.{pos}
use financial_data_platform.Prelude.Keyed.{Distinct}
use financial_data_platform.Prelude.Table.{Table, find}
use financial_data_platform.Shared.Events.{EventEnvelope}
use financial_data_platform.Store.Tables.{OutboxRow, event_published}
use financial_data_platform.Relay.{
  Sent, sent_of, Events, RelayState, batch_of, contains, publish_rows, as_published, relay_batch,
}
use financial_data_platform.Relay.Backlog.{backlog, length-batch_of, backlog-publish_rows}
use financial_data_platform.Relay.Batch.{relay_batch-outcome}
use financial_data_platform.Relay.Delivered.{relay_batch-row}
use financial_data_platform.Relay.Loop.{Round}
use financial_data_platform.Relay.Mark.{
  Moved, kept, now_published, now_failed, contains-All, publish_rows-in, publish_rows-out,
  publish_rows-Distinct,
}
use financial_data_platform.Relay.Publish.{Calm, ids_of, relay_batch-Published}
use financial_data_platform.Relay.Select.{Waiting, batch_of-Waiting, Distinct-batch_of}
use financial_data_platform.Relay.Send.{IsIn, InLog}

-- Nothing disturbs the round, no other relay is at work, and the payloads become these bytes.
pub record IsCalm (encode : EventEnvelope → List ℕ) (round : Round) : Type 0 where
  pub calm : Calm round.env round.link
  pub alone : (id : ℕ) → round.link.locked_elsewhere id ≡ false
  pub encodes : (v : EventEnvelope) → round.link.to_vec v ≡ ok (encode v)

-- The row's record is in the topic.
abbrev pub IsSent : (EventEnvelope → List ℕ) → OutboxRow → List Sent → Type 0
IsSent encode row log = IsIn (sent_of row (encode row.payload)) log

module _ (encode : EventEnvelope → List ℕ) (round : Round) (quiet : IsCalm encode round) (n : ℕ)
    (st : RelayState) where
  abbrev pub outbox : Table OutboxRow
  outbox = st.session.committed.outbox_events

  abbrev pub after : RelayState
  after = (relay_batch round.env round.link (pos n) st).1

  abbrev batch : Events
  batch = batch_of round.link.locked_elsewhere n outbox

  same_outbox :
      after.session.committed.outbox_events ≡ publish_rows round.env.now (ids_of batch) outbox
  same_outbox =
      ap (λ d. d.outbox_events) (relay_batch-Published round.env round.link quiet.calm n st).1

  pub calm-Distinct : Distinct outbox → Distinct after.session.committed.outbox_events
  calm-Distinct d =
      subst Distinct (sym same_outbox) (publish_rows-Distinct round.env.now (ids_of batch) outbox d)

  pub calm-backlog :
      Distinct outbox → backlog after.session.committed.outbox_events ≡ backlog outbox - n
  calm-backlog d =
      let fewer =
        backlog-publish_rows round.env.now batch outbox d
          (Distinct-batch_of round.link.locked_elsewhere n outbox d)
          (batch_of-Waiting round.link.locked_elsewhere n outbox d) in
      let size = length-batch_of round.link.locked_elsewhere n outbox quiet.alone in
      ap backlog same_outbox ∙ omega (arith, fewer, size)

  -- A published row stays published.
  pub stays_published :
      (id : ℕ) (row : OutboxRow)
      → Distinct outbox
      → find id outbox ≡ some row
      → row.status ≡ event_published
      → find id after.session.committed.outbox_events ≡ some row
  stays_published id row d there done =
      let (row', found, moved) = relay_batch-row round.env round.link (pos n) st id row d there in
      found ∙ ap some (same row' moved)
    where
      same : (row' : OutboxRow) → Moved round.link after.log round.env.now row row' → row' ≡ row
      same row' (kept e) = e
      same row' (now_published waits _ _) = absurd (ground (arith, waits, done))
      same row' (now_failed _ waits _) = absurd (ground (arith, waits, done))

  pub grows : Distinct outbox → (x : Sent) → IsIn x st.log → IsIn x after.log
  grows d = (relay_batch-outcome round.env round.link (pos n) st d).1

  -- A waiting row goes on waiting, or is published with its record in the topic.
  pub forwarded :
      (id : ℕ) (row : OutboxRow)
      → Distinct outbox
      → find id outbox ≡ some row
      → (find id after.session.committed.outbox_events ≡ some row)
        ⊎ ((find id after.session.committed.outbox_events ≡ some (as_published round.env.now row))
            × IsSent encode row after.log)
  forwarded id row d there = elim (Bool-cases (contains id (ids_of batch))) [
    | inl taken ↦ inr (
      ap (find id) same_outbox
          ∙ publish_rows-in round.env.now (ids_of batch) outbox id row taken there,
      contains-All Logged id (ids_of batch)
          (logged batch (batch_of-Waiting round.link.locked_elsewhere n outbox d)
            (relay_batch-Published round.env round.link quiet.calm n st).2)
          taken row there,
    )
    | inr left ↦ inl (
        ap (find id) same_outbox
        ∙ publish_rows-out round.env.now (ids_of batch) outbox id left
        ∙ there)
  ]
    where
      Logged : ℕ → Type 0
      Logged k = (r : OutboxRow) → find k outbox ≡ some r → IsSent encode r after.log

      sent : (e : OutboxRow) → InLog round.link e after.log → IsSent encode e after.log
      sent e (payload, fine, there) =
          let bytes : payload ≡ encode e.payload = ground (arith, fine, quiet.encodes e.payload) in
          subst (λ b. IsIn (sent_of e b) after.log) bytes there

      logged :
          (es : Events)
          → All (Waiting outbox) es
          → All (λ e. InLog round.link e.1 after.log) es
          → All Logged (ids_of es)
      logged [] ws ls = tt
      logged ((k, e) ∷ es) ((found, _), ws) (l, ls) = (
        λ r there.
            let same : e ≡ r = ground (arith, found, there) in
            subst (λ r. IsSent encode r after.log) same (sent e l),
        logged es ws ls,
      )

  -- A batch that finds something to do counts it.
  pub calm-answer :
      0 < n
      → 0 < backlog outbox
      → (count : ℕ) × ((relay_batch round.env round.link (pos n) st).0 ≡ ok (suc count))
  calm-answer some_room some_wait =
      counted (length batch) (relay_batch-Published round.env round.link quiet.calm n st).0
        (length-batch_of round.link.locked_elsewhere n outbox quiet.alone)
    where
      counted :
          (m : ℕ)
          → (relay_batch round.env round.link (pos n) st).0 ≡ ok m
          → m + (backlog outbox - n) ≡ backlog outbox
          → (count : ℕ) × ((relay_batch round.env round.link (pos n) st).0 ≡ ok (suc count))
      counted zero answer size = absurd (omega (arith, some_room, some_wait, size))
      counted (suc count) answer size = (count, answer)
