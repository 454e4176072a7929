-- ===== src/System/Paired.antt =====
-- The transactional outbox: which transaction has which event.
use financial_data_platform.Prelude.{
  ℕ, ◌≡◌, refl, sym, ap, ◌∙◌, subst, inl, inr, Bool-cases, some, none, String, false, ◌≢◌, ◌⊎◌,
  ◌==◌, arith, ==_iff,
}
use financial_data_platform.Prelude.Table.{find, find-append_self, find-append_ne}
use financial_data_platform.Shared.Decimal.{to_numeric}
use financial_data_platform.Shared.Events.{EventEnvelope}
use financial_data_platform.Store.Session.{Env}
use financial_data_platform.Store.Tables.{TransactionRow, OutboxRow, Db}
use financial_data_platform.Ingestion.Transactions.{
  SubmitTransactionRequest, Draws, new_transaction, submitted_event, outbox_row,
}
use financial_data_platform.Ingestion.Transactions.Spec.{accepted, CanAnnounce}

-- The envelope names the transaction and says what it asks for; its amount is the one submitted,
-- which the row's column rounds.
pub record Tells (id : ℕ) (t : TransactionRow) (v : EventEnvelope) : Type 0 where
  pub names : v.aggregate_id ≡ id
  pub same_id : v.payload.transaction_id ≡ id
  pub same_key : v.payload.idempotency_key ≡ t.idempotency_key
  pub same_type : v.payload.transaction_type ≡ t.transaction_type
  pub same_amount : to_numeric v.payload.amount ≡ t.amount
  pub same_currency : v.payload.currency ≡ t.currency
  pub same_source : v.payload.source_account_id ≡ t.source_account_id
  pub same_dest : v.payload.dest_account_id ≡ t.dest_account_id

-- Every transaction has an event, every event has a transaction and tells what it asks for, and no
-- transaction has two events.
pub record Paired (db : Db) : Type 0 where
  pub announced :
      (id : ℕ) (t : TransactionRow)
      → find id db.transactions ≡ some t
      → (k : ℕ) × (e : OutboxRow) × (find k db.outbox_events ≡ some e) × (e.aggregate_id ≡ id)
  pub backed :
      (k : ℕ) (e : OutboxRow)
      → find k db.outbox_events ≡ some e
      → (t : TransactionRow) × (find e.aggregate_id db.transactions ≡ some t)
        × Tells e.aggregate_id t e.payload
  pub single :
      (k j : ℕ) (e f : OutboxRow)
      → find k db.outbox_events ≡ some e
      → find j db.outbox_events ≡ some f
      → e.aggregate_id ≡ f.aggregate_id
      → k ≡ j

-- The new transaction and its event, which have each other.
module _ (env : Env) (draws : Draws) (key request_hash : String) (body : SubmitTransactionRequest)
    (correlation_id : ℕ) (db : Db) (free : find draws.transaction_id db.transactions ≡ none)
    (unannounced : CanAnnounce env draws key request_hash body correlation_id db) where
  abbrev new_db : Db
  new_db = accepted env draws key request_hash body correlation_id db

  abbrev new_row : TransactionRow
  new_row = new_transaction env.now key request_hash body

  abbrev new_event : OutboxRow
  new_event =
      outbox_row env.render env.now
        (submitted_event env.now draws.event_id draws.transaction_id key body correlation_id)
        body.source_account_id

  new_row_there : find draws.transaction_id new_db.transactions ≡ some new_row
  new_row_there = find-append_self draws.transaction_id new_row db.transactions free

  new_event_there : find draws.outbox_id new_db.outbox_events ≡ some new_event
  new_event_there = find-append_self draws.outbox_id new_event db.outbox_events unannounced

  -- An event that is there is the new one, or an older one.
  event-cases :
      (k : ℕ) (e : OutboxRow)
      → find k new_db.outbox_events ≡ some e
      → ((k ≡ draws.outbox_id) × (new_event ≡ e)) ⊎ (find k db.outbox_events ≡ some e)
  event-cases k e there = elim (Bool-cases (k == draws.outbox_id)) [
    | inl same ↦
        (let it : k ≡ draws.outbox_id = (==_iff k draws.outbox_id).0 same in
          inl (it, ground (arith, there, it, new_event_there)))
    | inr other ↦
        inr (sym (find-append_ne k draws.outbox_id new_event db.outbox_events other) ∙ there)
  ]

  -- An older event is not about the new transaction.
  not_about :
      Paired db
      → (k : ℕ) (e : OutboxRow) → find k db.outbox_events ≡ some e
      → e.aggregate_id ≢ draws.transaction_id
  not_about p k e there about =
      let (t, found, _) = p.backed k e there in absurd (cc (found, about, free))

  pub accepted-Paired : Paired db → Paired new_db
  accepted-Paired p = record {
    announced = λ id t there. elim (Bool-cases (id == draws.transaction_id)) [
      | inl same ↦ (
        draws.outbox_id,
        new_event,
        new_event_there,
        sym ((==_iff id draws.transaction_id).0 same),
      )
      | inr other ↦
          (let (k, e, found, its) = p.announced id t (
              sym (find-append_ne id draws.transaction_id new_row db.transactions other) ∙ there) in
            (k, e, older k e found, its))
    ];
    backed = λ k e there. elim (event-cases k e there) [
      | inl (_, same) ↦ subst Backed same (new_row, new_row_there, told)
      | inr older ↦
          (let (t, found, tells) = p.backed k e older in
            (
              t,
              find-append_ne e.aggregate_id draws.transaction_id new_row db.transactions
                    (ne-false e.aggregate_id draws.transaction_id (not_about p k e older))
                  ∙ found,
              tells,
            ))
    ];
    single = λ k j e f e_there f_there alike.
        both k j e f alike (event-cases k e e_there) (event-cases j f f_there);
  }
    where
      Backed : OutboxRow → Type 0
      Backed e =
          (t : TransactionRow) × (find e.aggregate_id new_db.transactions ≡ some t)
          × Tells e.aggregate_id t e.payload

      told : Tells draws.transaction_id new_row new_event.payload
      told = record {
        names = refl;
        same_id = refl;
        same_key = refl;
        same_type = refl;
        same_amount = refl;
        same_currency = refl;
        same_source = refl;
        same_dest = refl;
      }

      ne-false : (a b : ℕ) → a ≢ b → (a == b) ≡ false
      ne-false a b h = ground (arith, h)

      older :
          (k : ℕ) (e : OutboxRow)
          → find k db.outbox_events ≡ some e
          → find k new_db.outbox_events ≡ some e
      older k e found = elim (Bool-cases (k == draws.outbox_id)) [
        | inl same ↦ absurd (cc (found, unannounced, (==_iff k draws.outbox_id).0 same))
        | inr other ↦ find-append_ne k draws.outbox_id new_event db.outbox_events other ∙ found
      ]

      both :
          (k j : ℕ) (e f : OutboxRow)
          → e.aggregate_id ≡ f.aggregate_id
          → ((k ≡ draws.outbox_id) × (new_event ≡ e)) ⊎ (find k db.outbox_events ≡ some e)
          → ((j ≡ draws.outbox_id) × (new_event ≡ f)) ⊎ (find j db.outbox_events ≡ some f)
          → k ≡ j
      both k j e f alike (inl (k_new, _)) (inl (j_new, _)) = k_new ∙ sym j_new
      both k j e f alike (inl (_, e_new)) (inr f_old) =
          absurd (not_about p j f f_old (sym alike ∙ sym (ap (λ r. r.aggregate_id) e_new)))
      both k j e f alike (inr e_old) (inl (_, f_new)) =
          absurd (not_about p k e e_old (alike ∙ sym (ap (λ r. r.aggregate_id) f_new)))
      both k j e f alike (inr e_old) (inr f_old) = p.single k j e f e_old f_old alike
