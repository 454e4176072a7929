-- ===== src/Worker/Consumer/Handled.antt =====
-- What the handling of one message leaves, whatever the database, the network and the retries do.
use financial_data_platform.Prelude.{
  ℕ, ⊤, ◌≡◌, refl, ◌⊎◌, inl, inr, Bool, true, false, String, Option, none, some, List, ◌∷◌, Result,
  ok, err, arith,
}
use financial_data_platform.Shared.Error.{SqlError, SerdeError}
use financial_data_platform.Shared.Events.{EventEnvelope}
use financial_data_platform.Store.Autocommit.{
  Answers, Attempted, untouched, unconfirmed, autocommit-Ensures,
}
use financial_data_platform.Store.Inserts.{insert_dead_letter}
use financial_data_platform.Store.Logic.{Ensures, bind-Ensures, map-Ensures}
use financial_data_platform.Store.Session.{Env, Session, inject}
use financial_data_platform.Store.Tables.{Db, DeadLetterRow}
use financial_data_platform.Worker.Error.{ProcessError, is_retryable, display_process_error}
use financial_data_platform.Worker.Processor.{process_transaction}
use financial_data_platform.Worker.Processor.Consistent.{Consistent, Effect-Consistent}
use financial_data_platform.Worker.Processor.Effect.{Effect, Accepted}
use financial_data_platform.Worker.Processor.Outcome.{process_transaction-outcome, Fails, Done}
use financial_data_platform.Worker.Consumer.{
  TransactionConsumer, Around, dead_letter, process_with_retry, refuse_dlq, send_to_dlq, after_dlq,
  after_processing, handle_payload, handle_message,
}
use financial_data_platform.Worker.Consumer.Retries.{Retries-induction}

-- What a number of failed attempts on one event may leave, one after the other.
pub data Trail (event : EventEnvelope) : Db → Db → Type 0 where
  start : (db : Db) → Trail event db db
  tried :
      (env : Env) (db db₁ db₂ : Db)
      → Trail event db db₁
      → Effect env event db₁ db₂
      → Trail event db db₂

abbrev pub with_letter : DeadLetterRow → Db → Db
with_letter row db = record db { dead_letter_queue = row ∷ db.dead_letter_queue }

-- What an attempt to write a dead letter leaves.
abbrev pub MaybeLetter : DeadLetterRow → Db → Db → Type 0
MaybeLetter row db db' = (db' ≡ db) ⊎ (db' ≡ with_letter row db)

module _ (self : TransactionConsumer) (around : Around) where
  abbrev pub letter : List ℕ → String → DeadLetterRow
  letter payload text = dead_letter self around.dlq.now payload text

  abbrev pub message_of : ProcessError → String
  message_of e = display_process_error around.dlq.render e

  -- A message that was handled, by whether its offset is committed.
  pub data Handled (body : Option (List ℕ)) (db db' : Db) : Bool → Type 0 where
    empty : body ≡ none → db' ≡ db → Handled body db db' true
    malformed :
        (payload : List ℕ) (e : SerdeError)
        → body ≡ some payload
        → self.codec.from_slice payload ≡ err e
        → MaybeLetter (letter payload (around.dlq.render.json e)) db db'
        → Handled body db db' true
    processed :
        (payload : List ℕ) (event : EventEnvelope) (db₁ : Db) (n : ℕ)
        → body ≡ some payload
        → self.codec.from_slice payload ≡ ok event
        → Trail event db db₁
        → Accepted (around.attempts n) event db₁ db'
        → Handled body db db' true
    buried :
        (payload : List ℕ) (event : EventEnvelope) (db₁ : Db) (e : ProcessError)
        → body ≡ some payload
        → self.codec.from_slice payload ≡ ok event
        → Trail event db db₁
        → db' ≡ with_letter (letter payload (message_of e)) db₁
        → Handled body db db' true
    unburied :
        (payload : List ℕ) (event : EventEnvelope) (db₁ : Db) (e : ProcessError)
        → body ≡ some payload
        → self.codec.from_slice payload ≡ ok event
        → Trail event db db₁
        → MaybeLetter (letter payload (message_of e)) db₁ db'
        → Handled body db db' false

  -- What the attempts on an event end in.
  abbrev Tried : EventEnvelope → Db → Result ProcessError ⊤ × Session → Type 0
  Tried event db (err _, s) = Trail event db s.committed × Consistent s.committed
  Tried event db (ok _, s) =
      (n : ℕ) × (db₁ : Db) × Trail event db db₁
      × Consistent db₁
      × Accepted (around.attempts n) event db₁ s.committed

  attempt-Tried :
      (event : EventEnvelope) (db : Db) (n : ℕ) (s : Session)
      → Trail event db s.committed × Consistent s.committed
      → Tried event db (process_transaction (around.attempts n) event self.worker_id s)
  attempt-Tried event db n s (trail, c) =
      by_result (process_transaction (around.attempts n) event self.worker_id s) (
        process_transaction-outcome (around.attempts n) event self.worker_id s.committed s refl
          (c.parties event.aggregate_id))
    where
      by_result :
          (p : Result ProcessError ⊤ × Session)
          → Ensures
              (Fails (around.attempts n) event self.worker_id s.committed)
              (Done (around.attempts n) event self.worker_id s.committed)
              p
          → Tried event db p
      by_result (ok _, s') done = (n, s.committed, trail, c, done)
      by_result (err _, s') effect = (
        tried (around.attempts n) db s.committed s'.committed trail effect,
        Effect-Consistent (around.attempts n) event s.committed c s'.committed effect,
      )

  process_with_retry-Tried :
      (event : EventEnvelope) (s : Session)
      → Consistent s.committed
      → Tried event s.committed (process_with_retry self around.attempts event s)
  unfolding process_with_retry
  process_with_retry-Tried event s c =
      Retries-induction _ is_retryable
        (λ t. Trail event s.committed t.committed × Consistent t.committed)
        (Tried event s.committed) (attempt-Tried event s.committed) (λ e t h. h) _ 0 s _
        (start s.committed, c)
        (self.backon.retries self.config.retry_backoff_ms 30000 self.config.max_retries
          (λ n. process_transaction (around.attempts n) event self.worker_id) is_retryable s)

  -- A dead letter is written or it is not.
  send_to_dlq-Ensures :
      (payload : List ℕ) (text : String) (id : Option ℕ) (db : Db) (s : Session)
      → s.committed ≡ db
      → Ensures
          (λ _ s'. MaybeLetter (letter payload text) db s'.committed)
          (λ _ s'. s'.committed ≡ with_letter (letter payload text) db)
          (send_to_dlq self around.dlq payload text id s)
  unfolding send_to_dlq inject insert_dead_letter
  send_to_dlq-Ensures payload text id db s kept =
      bind-Ensures _ (λ _ s'. s'.committed ≡ db) _ _ _ s kept
        λ injected s₁ h₁.
          bind-Ensures _ (λ _ s'. s'.committed ≡ db) _ _ _ s₁ (refused injected s₁ h₁)
            λ _ s₂ h₂.
              map-Ensures _ _ _ _ _
                (autocommit-Ensures (λ e. e) around.dlq (insert_dead_letter (letter payload text))
                  db s₂ h₂)
                (λ _ t h. landed t.committed h) λ a t h. written a t.committed h
    where
      written :
          (a : ⊤) (db' : Db)
          → Answers (insert_dead_letter (letter payload text)) db a db'
          → db' ≡ with_letter (letter payload text) db
      written a db' e = ground arith

      landed :
          (db' : Db)
          → Attempted (insert_dead_letter (letter payload text)) db db'
          → MaybeLetter (letter payload text) db db'
      landed db' (untouched same) = inl same
      landed db' (unconfirmed a e) = inr (written a db' e)

      refused :
          (b : Bool) (s : Session)
          → s.committed ≡ db
          → Ensures
              (λ _ s'. MaybeLetter (letter payload text) db s'.committed)
              (λ _ s'. s'.committed ≡ db)
              (refuse_dlq self b s)
      refused true s kept = inl kept
      refused false s kept = kept

  module _ (body : Option (List ℕ)) (payload : List ℕ) (there : body ≡ some payload) where
    after_processing-Handled :
        (event : EventEnvelope) (db : Db) (p : Result ProcessError ⊤ × Session)
        → self.codec.from_slice payload ≡ ok event
        → Tried event db p
        → Handled body db
            (after_processing self around.dlq payload event p).1.committed
            (after_processing self around.dlq payload event p).0
    unfolding after_processing
    after_processing-Handled event db (ok _, s) decoded (n, db₁, trail, _, accepted) =
        processed payload event db₁ n there decoded trail accepted
    after_processing-Handled event db (err e, s) decoded (trail, _) =
        by_dlq (send_to_dlq self around.dlq payload (message_of e) (some event.correlation_id) s) (
          send_to_dlq-Ensures payload (message_of e) (some event.correlation_id) s.committed s refl)
      where
        by_dlq :
            (q : Result SqlError ⊤ × Session)
            → Ensures
                (λ _ s'. MaybeLetter (letter payload (message_of e)) s.committed s'.committed)
                (λ _ s'. s'.committed ≡ with_letter (letter payload (message_of e)) s.committed)
                q
            → Handled body db (after_dlq self q).1.committed (after_dlq self q).0
        by_dlq (ok _, s') h = buried payload event s.committed e there decoded trail h
        by_dlq (err _, s') h = unburied payload event s.committed e there decoded trail h

    handle_payload-Handled :
        (s : Session) (r : Result SerdeError EventEnvelope)
        → self.codec.from_slice payload ≡ r
        → Consistent s.committed
        → Handled body s.committed
            (handle_payload self around payload s).1.committed
            (handle_payload self around payload s).0
    unfolding handle_payload
    handle_payload-Handled s (ok event) decoded c =
        rw (decoded, handle_payload)
          (after_processing-Handled event s.committed
            (process_with_retry self around.attempts event s) decoded
            (process_with_retry-Tried event s c))
    handle_payload-Handled s (err e) decoded c =
        rw (decoded, handle_payload)
          (malformed payload e there decoded (
            by_dlq (send_to_dlq self around.dlq payload (around.dlq.render.json e) none s)
              (send_to_dlq-Ensures payload (around.dlq.render.json e) none s.committed s refl)))
      where
        by_dlq :
            (q : Result SqlError ⊤ × Session)
            → Ensures
                (λ _ s'.
                  MaybeLetter (letter payload (around.dlq.render.json e)) s.committed s'.committed)
                (λ _ s'.
                  s'.committed
                  ≡ with_letter (letter payload (around.dlq.render.json e)) s.committed)
                q
            → MaybeLetter (letter payload (around.dlq.render.json e)) s.committed q.1.committed
        by_dlq (ok _, s') h = inr h
        by_dlq (err _, s') h = h

  -- Where the committed database is consistent, the handling of a message ends in one of these
  -- ways. The offset is committed: nothing is done for a message without a payload; a payload that
  -- does not decode is written to the dead letters or is lost; the event was accepted, after any
  -- number of failed attempts; or it failed and its dead letter is written. The offset is not
  -- committed: the event failed, and no dead letter was confirmed.
  pub handle_message-outcome :
      (body : Option (List ℕ)) (s : Session)
      → Consistent s.committed
      → Handled body s.committed
          (handle_message self body around s).1.committed
          (handle_message self body around s).0
  unfolding handle_message
  handle_message-outcome none s c = empty refl refl
  handle_message-outcome (some payload) s c =
      handle_payload-Handled (some payload) payload refl s (self.codec.from_slice payload) refl c
