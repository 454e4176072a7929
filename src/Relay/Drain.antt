-- ===== src/Relay/Drain.antt =====
-- The polling loop empties the outbox.
use financial_data_platform.Prelude.{
  ℕ, ◌<◌, ◌+◌, ◌-◌, ◌*◌, ◌≤◌, ◌≡◌, refl, sym, ap, ◌∙◌, subst, inl, inr, some, List, [], ◌∷◌, arith,
  All, length,
}
use financial_data_platform.Prelude.Int.{pos}
use financial_data_platform.Prelude.Keyed.{Distinct}
use financial_data_platform.Prelude.Table.{Table, find}
use financial_data_platform.Shared.Events.{EventEnvelope}
use financial_data_platform.Store.Tables.{OutboxRow, event_pending}
use financial_data_platform.Relay.{RelayState, as_published, relay_batch}
use financial_data_platform.Store.Tables.{Db}
use financial_data_platform.Relay.Batch.{relay_batch-outcome}
use financial_data_platform.Relay.Backlog.{backlog, backlog-zero}
use financial_data_platform.Relay.Loop.{RelayConfig, Round, LoopState, poll, poll_all}
use financial_data_platform.Relay.Rounds.{
  IsCalm, IsSent, calm-Distinct, calm-backlog, stays_published, grows, forwarded, calm-answer,
}

module _ (encode : EventEnvelope → List ℕ) (cfg : RelayConfig) (n : ℕ)
    (size : cfg.batch_size ≡ pos n) where
  abbrev outbox_of : LoopState → Table OutboxRow
  outbox_of st = st.relay.session.committed.outbox_events

  pub poll-relay :
      (round : Round) (st : LoopState)
      → (poll cfg round st).relay ≡ (relay_batch round.env round.link (pos n) st.relay).1
  unfolding poll
  poll-relay round st = rw size refl

  pub poll-Distinct :
      (round : Round) (st : LoopState)
      → IsCalm encode round
      → Distinct (outbox_of st)
      → Distinct (outbox_of (poll cfg round st))
  poll-Distinct round st quiet d =
      subst (λ r. Distinct r.session.committed.outbox_events) (sym (poll-relay round st))
        (calm-Distinct encode round quiet n st.relay d)

  poll-backlog :
      (round : Round) (st : LoopState)
      → IsCalm encode round
      → Distinct (outbox_of st)
      → backlog (outbox_of (poll cfg round st)) ≡ backlog (outbox_of st) - n
  poll-backlog round st quiet d =
      ap (λ r. backlog r.session.committed.outbox_events) (poll-relay round st)
      ∙ calm-backlog encode round quiet n st.relay d

  -- A row that is published, with its record in the topic.
  abbrev Forwarded : OutboxRow → ℕ → RelayState → Type 0
  Forwarded row id r =
      (now : ℕ) × (find id r.session.committed.outbox_events ≡ some (as_published now row))
      × IsSent encode row r.log

  Forwarded-poll_all :
      (rounds : List Round) (st : LoopState) (id : ℕ) (row : OutboxRow)
      → All (IsCalm encode) rounds
      → Distinct (outbox_of st)
      → Forwarded row id st.relay
      → Forwarded row id (poll_all cfg rounds st).relay
  unfolding poll_all
  Forwarded-poll_all [] st id row quiet d h = h
  Forwarded-poll_all (round ∷ rounds) st id row (quiet, rest) d (now, there, sent) =
      Forwarded-poll_all rounds (poll cfg round st) id row rest (poll-Distinct round st quiet d) (
        subst (Forwarded row id) (sym (poll-relay round st)) (
          now,
          stays_published encode round quiet n st.relay id (as_published now row) d there refl,
          grows encode round quiet n st.relay d _ sent,
        ))

  pub drained :
      (rounds : List Round) (st : LoopState) (id : ℕ) (row : OutboxRow)
      → All (IsCalm encode) rounds
      → Distinct (outbox_of st)
      → backlog (outbox_of st) ≤ length rounds * n
      → find id (outbox_of st) ≡ some row
      → row.status ≡ event_pending
      → Forwarded row id (poll_all cfg rounds st).relay
  unfolding poll_all
  drained [] st id row quiet d few there waits =
      absurd (backlog-zero (outbox_of st) id row (omega (arith, few)) there waits)
  drained (round ∷ rounds) st id row (quiet, rest) d few there waits =
      elim (forwarded encode round quiet n st.relay id row d there) [
        | inl still ↦
            drained rounds (poll cfg round st) id row rest (poll-Distinct round st quiet d)
              (omega (arith, few, poll-backlog round st quiet d))
              (ap (λ r. find id r.session.committed.outbox_events) (poll-relay round st) ∙ still)
              waits
        | inr (now_there, sent) ↦
            Forwarded-poll_all rounds (poll cfg round st) id row rest
              (poll-Distinct round st quiet d)
              (subst (Forwarded row id) (sym (poll-relay round st))
                (round.env.now, now_there, sent))
      ]

  -- Only the outbox is touched.
  pub poll_all-frame :
      (rounds : List Round) (st : LoopState)
      → All (IsCalm encode) rounds
      → Distinct (outbox_of st)
      → let db' = (poll_all cfg rounds st).relay.session.committed in
        db' ≡ record (st.relay.session.committed) { outbox_events = db'.outbox_events }
  unfolding poll_all
  poll_all-frame [] st quiet d = refl
  poll_all-frame (round ∷ rounds) st (quiet, rest) d =
      poll_all-frame rounds (poll cfg round st) rest (poll-Distinct round st quiet d)
      ∙ ap
          (λ (db : Db). record db {
            outbox_events =
                (poll_all cfg rounds (poll cfg round st)).relay.session.committed.outbox_events;
          })
          (ap (λ r. r.session.committed) (poll-relay round st)
            ∙ (relay_batch-outcome round.env round.link (pos n) st.relay d).0.0)

  counted_poll :
      (round : Round) (st : LoopState)
      → IsCalm encode round
      → 0 < n
      → 0 < backlog (outbox_of st)
      → (poll cfg round st).slept ≡ st.slept
  unfolding poll
  counted_poll round st quiet some_room some_wait =
      let (count, answer) = calm-answer encode round quiet n st.relay some_room some_wait in
      rw (size, answer) (ground arith)

  wide_awake :
      (rounds : List Round) (st : LoopState)
      → All (IsCalm encode) rounds
      → Distinct (outbox_of st)
      → 0 < n
      → length rounds * n < backlog (outbox_of st) + n
      → (poll_all cfg rounds st).slept ≡ st.slept
  unfolding poll_all
  wide_awake [] st quiet d some_room many = refl
  wide_awake (round ∷ rounds) st (quiet, rest) d some_room many =
      wide_awake rounds (poll cfg round st) rest (poll-Distinct round st quiet d) some_room
        (omega (arith, many, poll-backlog round st quiet d))
      ∙ counted_poll round st quiet some_room (omega (arith, many, some_room))

-- Where nothing disturbs its rounds, no other relay is at work, the batch size is positive and no two
-- rows of the outbox have the same key, the polling loop publishes every event that waits, with its
-- record in the topic, in as many rounds as the batch size needs for their number, and does not sleep
-- in these rounds.
pub poll_all-drains :
    (encode : EventEnvelope → List ℕ) (cfg : RelayConfig) (n : ℕ) (rounds : List Round)
    (st : LoopState) (id : ℕ) (row : OutboxRow)
    → cfg.batch_size ≡ pos n
    → 0 < n
    → All (IsCalm encode) rounds
    → Distinct st.relay.session.committed.outbox_events
    → backlog st.relay.session.committed.outbox_events ≤ length rounds * n
    → length rounds * n < backlog st.relay.session.committed.outbox_events + n
    → find id st.relay.session.committed.outbox_events ≡ some row
    → row.status ≡ event_pending
    → let st' = poll_all cfg rounds st in
      ((now : ℕ) × (find id st'.relay.session.committed.outbox_events ≡ some (as_published now row))
        × IsSent encode row st'.relay.log)
      × (st'.slept ≡ st.slept)
poll_all-drains encode cfg n rounds st id row size some_room quiet d enough no_more there waits = (
  drained encode cfg n size rounds st id row quiet d enough there waits,
  wide_awake encode cfg n size rounds st quiet d some_room no_more,
)
