-- ===== src/System/Frames.antt =====
-- The relations between an earlier and a later state of the platform: a transaction, an event and the
-- whole of it.
use financial_data_platform.Prelude.{ℕ, ◌≡◌, refl, sym, ap, ◌∙◌, subst, ◌⊎◌, inl, inr, true, List}
use financial_data_platform.Shared.Domain.{
  TransactionStatus, pending, processing, settled, failed, reversed, can_transition_to,
}
use financial_data_platform.Shared.Domain.Routes.{
  Route, Route-refl, Route-trans, pending-Route, processing-Route,
}
use financial_data_platform.Shared.Events.{EventEnvelope}
use financial_data_platform.Store.Grows.{
  Persists, Persists-refl, Persists-trans, Persists-set, as_before, Grows, Grows-trans, Grows-rows,
}
use financial_data_platform.Store.Session.{Env}
use financial_data_platform.Store.Tables.{TransactionRow, OutboxRow, event_pending, Db}
use financial_data_platform.Relay.{Sent, Link}
use financial_data_platform.Relay.Mark.{Moved, kept, now_published, now_failed}
use financial_data_platform.Relay.Send.{IsIn}
use financial_data_platform.Worker.Processor.{is_open}
use financial_data_platform.Worker.Processor.Effect.{SameOrder, Becomes, with_row}
use financial_data_platform.System.{System}

-- The order is the same, and the status has gone along the machine.
pub record Progress (t r : TransactionRow) : Type 0 where
  pub order : SameOrder t r
  pub route : Route t.status r.status

-- What is published, and that only a pending event is touched.
pub record SameEvent (e f : OutboxRow) : Type 0 where
  pub same_aggregate : f.aggregate_id ≡ e.aggregate_id
  pub same_payload : f.payload ≡ e.payload
  pub same_topic : f.topic ≡ e.topic
  pub same_partition : f.partition_key ≡ e.partition_key
  pub same_creation : f.created_at ≡ e.created_at
  pub only_pending : (f ≡ e) ⊎ (e.status ≡ event_pending)

pub record Evolves (x y : System) : Type 0 where
  pub grows : Grows x.db y.db
  pub transactions : Persists Progress x.db.transactions y.db.transactions
  pub events : Persists SameEvent x.db.outbox_events y.db.outbox_events
  pub topic : (s : Sent) → IsIn s x.log → IsIn s y.log

SameOrder-refl : (t : TransactionRow) → SameOrder t t
SameOrder-refl t = record {
  same_type = refl;
  same_amount = refl;
  same_source = refl;
  same_dest = refl;
  same_currency = refl;
  same_key = refl;
  same_hash = refl;
  same_submission = refl;
}

SameOrder-trans : (a b c : TransactionRow) → SameOrder a b → SameOrder b c → SameOrder a c
SameOrder-trans a b c h k = record {
  same_type = k.same_type ∙ h.same_type;
  same_amount = k.same_amount ∙ h.same_amount;
  same_source = k.same_source ∙ h.same_source;
  same_dest = k.same_dest ∙ h.same_dest;
  same_currency = k.same_currency ∙ h.same_currency;
  same_key = k.same_key ∙ h.same_key;
  same_hash = k.same_hash ∙ h.same_hash;
  same_submission = k.same_submission ∙ h.same_submission;
}

pub Progress-refl : (t : TransactionRow) → Progress t t
Progress-refl t = record { order = SameOrder-refl t; route = Route-refl t.status }

Progress-trans : (a b c : TransactionRow) → Progress a b → Progress b c → Progress a c
Progress-trans a b c h k = record {
  order = SameOrder-trans a b c h.order k.order;
  route = Route-trans h.route k.route;
}

pub SameEvent-refl : (e : OutboxRow) → SameEvent e e
SameEvent-refl e = record {
  same_aggregate = refl;
  same_payload = refl;
  same_topic = refl;
  same_partition = refl;
  same_creation = refl;
  only_pending = inl refl;
}

SameEvent-trans : (a b c : OutboxRow) → SameEvent a b → SameEvent b c → SameEvent a c
SameEvent-trans a b c h k = record {
  same_aggregate = k.same_aggregate ∙ h.same_aggregate;
  same_payload = k.same_payload ∙ h.same_payload;
  same_topic = k.same_topic ∙ h.same_topic;
  same_partition = k.same_partition ∙ h.same_partition;
  same_creation = k.same_creation ∙ h.same_creation;
  only_pending = touched h.only_pending k.only_pending;
}
  where
    touched :
        (b ≡ a) ⊎ (a.status ≡ event_pending)
        → (c ≡ b) ⊎ (b.status ≡ event_pending)
        → (c ≡ a) ⊎ (a.status ≡ event_pending)
    touched (inr waits) later = inr waits
    touched (inl same) (inl again) = inl (again ∙ same)
    touched (inl same) (inr waits) = inr (sym (ap (λ r. r.status) same) ∙ waits)

pub Moved-SameEvent :
    (link : Link) (log : List Sent) (now : ℕ) (e f : OutboxRow)
    → Moved link log now e f
    → SameEvent e f
Moved-SameEvent link log now e f (kept same) = subst (SameEvent e) (sym same) (SameEvent-refl e)
Moved-SameEvent link log now e f (now_published waits _ same) =
    subst (SameEvent e) (sym same) (record {
      same_aggregate = refl;
      same_payload = refl;
      same_topic = refl;
      same_partition = refl;
      same_creation = refl;
      only_pending = inr waits;
    })
Moved-SameEvent link log now e f (now_failed _ waits same) =
    subst (SameEvent e) (sym same) (record {
      same_aggregate = refl;
      same_payload = refl;
      same_topic = refl;
      same_partition = refl;
      same_creation = refl;
      only_pending = inr waits;
    })

-- An open transaction goes where a processing one may go.
pub open-Route :
    (from to : TransactionStatus)
    → is_open from ≡ true
    → can_transition_to processing to ≡ true
    → Route from to
open-Route pending to _ allowed = pending-Route to allowed
open-Route processing to _ allowed = processing-Route to allowed
open-Route settled to h allowed = absurd (cc)
open-Route failed to h allowed = absurd (cc)
open-Route reversed to h allowed = absurd (cc)

module _ (env : Env) (event : EventEnvelope) (status : TransactionStatus) (r : TransactionRow)
    (db : Db) (b : Becomes env event db status r)
    (allowed : can_transition_to processing status ≡ true) where
  pub replaced : Persists Progress db.transactions (with_row env event r db).transactions
  replaced =
      Persists-set Progress event.aggregate_id b.before r db.transactions Progress-refl b.was_there
        (record {
          order = b.order;
          route =
              open-Route b.before.status r.status b.was_open
                (subst (λ s. can_transition_to processing s ≡ true) (sym b.now_status) allowed);
        })

pub unchanged-events : (db : Db) → Persists SameEvent db.outbox_events db.outbox_events
unchanged-events db = Persists-refl SameEvent db.outbox_events SameEvent-refl

pub unchanged-transactions : (db : Db) → Persists Progress db.transactions db.transactions
unchanged-transactions db = Persists-refl Progress db.transactions Progress-refl

pub Evolves-refl : (x : System) → Evolves x x
Evolves-refl x = record {
  grows =
      Grows-rows x.db x.db refl (as_before x.db.ledger_entries refl) (as_before x.db.audit_log refl)
        (as_before x.db.dead_letter_queue refl);
  transactions = unchanged-transactions x.db;
  events = unchanged-events x.db;
  topic = λ s h. h;
}

pub Evolves-trans : (x y z : System) → Evolves x y → Evolves y z → Evolves x z
Evolves-trans x y z h k = record {
  grows = Grows-trans x.db y.db z.db h.grows k.grows;
  transactions =
      Persists-trans Progress x.db.transactions y.db.transactions z.db.transactions Progress-trans
        h.transactions k.transactions;
  events =
      Persists-trans SameEvent x.db.outbox_events y.db.outbox_events z.db.outbox_events
        SameEvent-trans h.events k.events;
  topic = λ s e. k.topic s (h.topic s e);
}
