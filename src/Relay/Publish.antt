-- ===== src/Relay/Publish.antt =====
-- A batch that nothing disturbs publishes what it selects.
use financial_data_platform.Prelude.{
  ℕ, suc, ◌≡◌, refl, sym, ap, ◌∙◌, subst, ◌⊎◌, inl, inr, true, false, some, List, [], ◌∷◌, Result,
  ok, arith, All, length,
}
use financial_data_platform.Prelude.Int.{pos}
use financial_data_platform.Prelude.Keyed.{All-both}
use financial_data_platform.Prelude.Table.{find}
use financial_data_platform.Shared.Events.{EventEnvelope}
use financial_data_platform.Store.Serve.{Serves, >>=-ok, commit-ok}
use financial_data_platform.Store.Session.{Env, Session, ◌>>=◌, begin, execute, conclude}
use financial_data_platform.Store.Tables.{OutboxRow, event_pending, Db}
use financial_data_platform.Relay.{
  RelayError, sqlx, Sent, after_send, acknowledged, Link, Events, RelayState, batch_of, contains,
  select_pending, send_all, publish_rows, mark_published, as_published, mark_if_any,
  record_failures, conclude_batch, fetch, after_fetch, relay_batch, sent_of,
}
use financial_data_platform.Relay.Mark.{publish_rows-in, publish_rows-none}
use financial_data_platform.Relay.Order.{Among, NotNewer, batch_of-oldest}
use financial_data_platform.Relay.Send.{IsIn, InLog}

-- The database answers and commits, and each payload is serialised and acknowledged.
pub record Calm (env : Env) (link : Link) : Type 0 where
  pub serves : Serves env
  pub serialises : (v : EventEnvelope) → (bytes : List ℕ) × (link.to_vec v ≡ ok bytes)
  pub acknowledges : (id : ℕ) → link.send id ≡ acknowledged

abbrev pub ids_of : Events → List ℕ
ids_of [] = []
ids_of ((id, _) ∷ es) = id ∷ ids_of es

length-ids_of : (es : Events) → length (ids_of es) ≡ length es
length-ids_of [] = refl
length-ids_of (e ∷ es) = rw (length-ids_of es) refl

contains-ids_of :
    (id : ℕ) (row : OutboxRow) (es : Events) → Among (id, row) es → contains id (ids_of es) ≡ true
contains-ids_of id row [] h = absurd h
contains-ids_of id row ((j, r) ∷ es) (inl same) = ground (arith, ap (λ p. p.0) same)
contains-ids_of id row ((j, r) ∷ es) (inr among) = ground (arith, contains-ids_of id row es among)

module _ (env : Env) (link : Link) (calm : Calm env link) where
  -- Every record is sent, and none leaves.
  send_all-calm :
      (es : Events) (log : List Sent)
      → (log' : List Sent) × (send_all link es log ≡ (ok (ids_of es, []), log'))
        × All (λ e. InLog link e.1 log') es
        × ((x : Sent) → IsIn x log → IsIn x log')
  unfolding send_all
  send_all-calm [] log = (log, refl, tt, λ x h. h)
  send_all-calm ((id, row) ∷ es) log =
      let (bytes, fine) = calm.serialises row.payload in
      let (log', sent, there, grows) = send_all-calm es (sent_of row bytes ∷ log) in
      (
        log',
        rw (fine, send_all, calm.acknowledges id, sent) refl,
        ((bytes, fine, grows (sent_of row bytes) (inl refl)), there),
        λ x h. grows x (inr h),
      )

  module _ (n : ℕ) (s : Session) where
    abbrev db : Db
    db = s.committed

    abbrev batch : Events
    batch = batch_of link.locked_elsewhere n db.outbox_events

    -- The open transaction over an unchanged database.
    abbrev opened : Session
    opened = record s { working = db; statements = 1; aborted = false }

    fetch-calm : fetch env link (pos n) s ≡ (ok batch, opened)
    unfolding fetch ◌>>=◌ begin execute conclude select_pending
    fetch-calm = rw (calm.serves.begins, calm.serves.answers 0) refl

    abbrev published_db : List ℕ → Db
    published_db ids = record db { outbox_events = publish_rows env.now ids db.outbox_events }

    abbrev concluded : List ℕ → Session
    concluded ids = record s {
      committed = published_db ids;
      working = published_db ids;
      statements = 2;
      aborted = false;
    }

    abbrev marked : List ℕ → Session
    marked ids = record s { working = published_db ids; statements = 2; aborted = false }

    mark-calm :
        (id : ℕ) (ids : List ℕ) → mark_if_any env (id ∷ ids) opened ≡ (ok tt, marked (id ∷ ids))
    unfolding mark_if_any execute conclude mark_published
    mark-calm id ids = rw (calm.serves.answers 1) refl

    conclude-calm :
        (id : ℕ) (ids : List ℕ)
        → conclude_batch env (id ∷ ids) [] opened ≡ (ok (length (id ∷ ids)), concluded (id ∷ ids))
    unfolding conclude_batch record_failures
    conclude-calm id ids =
        >>=-ok _ _ opened (mark-calm id ids)
        ∙ >>=-ok (record_failures env []) _ (marked (id ∷ ids)) refl
        ∙ >>=-ok _ _ (marked (id ∷ ids)) (commit-ok sqlx env calm.serves (marked (id ∷ ids)) refl)

    -- What a batch answers, and what it commits and sends.
    abbrev pub PublishedAs : Events → Result RelayError ℕ × RelayState → Type 0
    PublishedAs es p =
        (p.0 ≡ ok (length es))
        × (p.1.session.committed ≡ published_db (ids_of es))
        × All (λ e. InLog link e.1 p.1.log) es

    -- For a batch that is not empty.
    answered :
        (id : ℕ) (row : OutboxRow) (es : Events) (log : List Sent)
        → (log' : List Sent) × (after_fetch env link log (ok ((id, row) ∷ es), opened) ≡ (
          ok (length ((id, row) ∷ es)),
          record { session = concluded (ids_of ((id, row) ∷ es)); log = log' },
        ))
          × All (λ e. InLog link e.1 log') ((id, row) ∷ es)
    unfolding after_fetch
    answered id row es log =
        let (log', sent, there, _) = send_all-calm ((id, row) ∷ es) log in
        (
          log',
          ap (after_send env opened) sent
              ∙ ap (λ p. (p.0, record { session = p.1; log = log' })) (conclude-calm id (ids_of es))
              ∙ ap
                  (λ m. (
                    ok (suc m),
                    record { session = concluded (ids_of ((id, row) ∷ es)); log = log' },
                  ))
                  (length-ids_of es),
          there,
        )

    after_fetch-calm :
        (es : Events) (log : List Sent) → PublishedAs es (after_fetch env link log (ok es, opened))
    unfolding after_fetch
    after_fetch-calm [] log = (refl, rw (publish_rows-none env.now db.outbox_events) refl, tt)
    after_fetch-calm ((id, row) ∷ es) log =
        let (log', value, there) = answered id row es log in
        subst (PublishedAs ((id, row) ∷ es)) (sym value) (refl, refl, there)

  -- The whole batch.
  pub relay_batch-Published :
      (n : ℕ) (st : RelayState)
      → PublishedAs n st.session (batch n st.session) (relay_batch env link (pos n) st)
  unfolding relay_batch
  relay_batch-Published n st =
      subst (λ p. PublishedAs n st.session (batch n st.session) (after_fetch env link st.log p))
        (sym (fetch-calm n st.session)) (after_fetch-calm n st.session _ st.log)

All-Among :
    (P : ℕ × OutboxRow → Type 0) (p : ℕ × OutboxRow) (es : Events) → All P es → Among p es → P p
All-Among P p [] ps h = absurd h
All-Among P p (e ∷ es) (q, ps) (inl same) = subst P (sym same) q
All-Among P p (e ∷ es) (q, ps) (inr among) = All-Among P p es ps among

-- Where the database answers and commits and every record is serialised and acknowledged, a batch
-- succeeds and counts what it selected; a row that waits and that no other relay holds is published
-- by it, with its record in the topic, unless the batch is full of published rows none of which is
-- newer.
pub relay_batch-publishes :
    (env : Env) (link : Link) (n : ℕ) (st : RelayState) (id : ℕ) (row : OutboxRow)
    → Calm env link
    → find id st.session.committed.outbox_events ≡ some row
    → row.status ≡ event_pending
    → link.locked_elsewhere id ≡ false
    → let batch = batch_of link.locked_elsewhere n st.session.committed.outbox_events in
      let (answer, st') = relay_batch env link (pos n) st in
      (answer ≡ ok (length batch))
      × (((find id st'.session.committed.outbox_events ≡ some (as_published env.now row))
            × InLog link row st'.log)
          ⊎ ((length batch ≡ n) × All (λ e. NotNewer (id, row) e × InLog link e.1 st'.log) batch))
relay_batch-publishes env link n st id row calm there waits free =
    let batch = batch_of link.locked_elsewhere n st.session.committed.outbox_events in
    let (answer, committed, sent) = relay_batch-Published env link calm n st in
    let (_, selected) =
      batch_of-oldest link.locked_elsewhere n st.session.committed.outbox_events id row there waits
        free in
    (
      answer,
      elim selected [
        | inl among ↦ inl (
          ap (λ d. find id d.outbox_events) committed
              ∙ publish_rows-in env.now (ids_of batch) st.session.committed.outbox_events id row
                  (contains-ids_of id row batch among) there,
          All-Among (λ e. InLog link e.1 _) (id, row) batch sent among,
        )
        | inr (full, older) ↦ inr (
          full,
          All-both (NotNewer (id, row)) (λ e. InLog link e.1 _) _ batch (λ e p q. (p, q)) older
              sent,
        )
      ],
    )
