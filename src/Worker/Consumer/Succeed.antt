-- ===== src/Worker/Consumer/Succeed.antt =====
-- A message whose event can be carried out, on a database that nothing disturbs.
use financial_data_platform.Prelude.{ℕ, ⊤, ◌≡◌, sym, ap, subst, true, List, some, Result, ok}
use financial_data_platform.Prelude.Table.{find}
use financial_data_platform.Shared.Events.{EventEnvelope}
use financial_data_platform.Store.Session.{Session}
use financial_data_platform.Store.Tables.{TransactionRow}
use financial_data_platform.Worker.Error.{ProcessError, is_retryable}
use financial_data_platform.Worker.Processor.{process_transaction}
use financial_data_platform.Worker.Processor.Effect.{Settles}
use financial_data_platform.Worker.Processor.Settle.{process_transaction-Settles}
use financial_data_platform.Worker.Processor.Succeed.{Quiet}
use financial_data_platform.Worker.Processor.Undisturbed.{Ready}
use financial_data_platform.Worker.Consumer.{
  TransactionConsumer, Around, process_with_retry, after_processing, handle_payload, handle_message,
}
use financial_data_platform.Worker.Consumer.Retries.{Retries-ok}

module _ (self : TransactionConsumer) (around : Around) (payload : List ℕ) (event : EventEnvelope)
    (s : Session) where
  abbrev tried : Result ProcessError ⊤ × Session
  tried = process_transaction (around.attempts 0) event self.worker_id s

  -- The first attempt is the only one.
  first_attempt :
      tried.0 ≡ ok tt → process_with_retry self around.attempts event s ≡ (ok tt, tried.1)
  unfolding process_with_retry
  first_attempt fine =
      Retries-ok (λ n. process_transaction (around.attempts n) event self.worker_id) is_retryable
        self.config.max_retries 0 s tried.1 _
        (self.backon.retries self.config.retry_backoff_ms 30000 self.config.max_retries
          (λ n. process_transaction (around.attempts n) event self.worker_id) is_retryable s)
        (ap (λ r. (r, tried.1)) fine)

  handled :
      self.codec.from_slice payload ≡ ok event
      → tried.0 ≡ ok tt
      → handle_message self (some payload) around s ≡ (true, tried.1)
  unfolding handle_message handle_payload after_processing
  handled decoded fine =
      rw (decoded, handle_payload)
        (ap (after_processing self around.dlq payload event) (first_attempt fine))

  -- A message that decodes to an event for an open transaction whose order can be carried out is
  -- settled at the first attempt, and its offset is committed.
  pub handle_message-Settles :
      (t : TransactionRow)
      → self.codec.from_slice payload ≡ ok event
      → Quiet (around.attempts 0)
      → find event.aggregate_id s.committed.transactions ≡ some t
      → Ready (around.attempts 0) t s.committed
      → ((handle_message self (some payload) around s).0 ≡ true)
        × Settles
            (around.attempts 0)
            event
            s.committed
            (handle_message self (some payload) around s).1.committed
  handle_message-Settles t decoded quiet there ready =
      let (fine, settled) =
        process_transaction-Settles (around.attempts 0) event self.worker_id t s quiet there
          ready in
      let whole = handled decoded fine in
      (
        ap (λ p. p.0) whole,
        subst (λ p. Settles (around.attempts 0) event s.committed p.1.committed) (sym whole)
            settled,
      )
