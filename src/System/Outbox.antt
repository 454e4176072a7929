-- ===== src/System/Outbox.antt =====
-- The events of the outbox and the transactions stay paired, from call to call.
use financial_data_platform.Prelude.{
  ℕ, ◌≡◌, sym, ap, ◌∙◌, subst, inl, inr, Bool-cases, Option-cases, some, none, ◌⊎◌, ◌==◌, arith,
  ==_iff,
}
use financial_data_platform.Prelude.Table.{Table, find, set, find-set_ne}
use financial_data_platform.Shared.Events.{EventEnvelope}
use financial_data_platform.Store.Session.{Env}
use financial_data_platform.Store.Tables.{TransactionRow, OutboxRow, Db}
use financial_data_platform.Relay.Delivered.{came_from}
use financial_data_platform.Worker.Ledger.Operations.{performed-Change}
use financial_data_platform.Worker.Processor.Effect.{SameOrder, Becomes, settles}
use financial_data_platform.Prelude.{List, ℕ, Result}
use financial_data_platform.Shared.Error.{SerdeError}
use financial_data_platform.Shared.Events.{EventEnvelope}
use financial_data_platform.System.{link_of, System, Reaches, Safe}
use financial_data_platform.System.Commits.{
  Commit, accepting, opening_account, publishing, settling, failing, waiting, burying, Commits,
  done, then, Reaches-Commits,
}
use financial_data_platform.System.Frames.{SameEvent, SameEvent-refl, Moved-SameEvent, Evolves}
use financial_data_platform.System.Evolves.{Commit-Evolves}
use financial_data_platform.Shared.Domain.{TransactionStatus, pending, settled, failed}
use financial_data_platform.System.Paired.{Paired, Tells, accepted-Paired}

Tells-order :
    (id : ℕ) (t r : TransactionRow) (v : EventEnvelope)
    → SameOrder t r
    → Tells id t v
    → Tells id r v
Tells-order id t r v o h = record {
  names = h.names;
  same_id = h.same_id;
  same_key = h.same_key ∙ sym o.same_key;
  same_type = h.same_type ∙ sym o.same_type;
  same_amount = h.same_amount ∙ sym o.same_amount;
  same_currency = h.same_currency ∙ sym o.same_currency;
  same_source = h.same_source ∙ sym o.same_source;
  same_dest = h.same_dest ∙ sym o.same_dest;
}

-- No key is new.
abbrev NoNewRows : Table TransactionRow → Table TransactionRow → Type 0
NoNewRows t t' =
    (id : ℕ) (r : TransactionRow)
    → find id t' ≡ some r
    → (o : TransactionRow) × (find id t ≡ some o)

abbrev NoNewEvents : Table OutboxRow → Table OutboxRow → Type 0
NoNewEvents t t' =
    (k : ℕ) (f : OutboxRow)
    → find k t' ≡ some f
    → (e : OutboxRow) × (find k t ≡ some e) × SameEvent e f

NoNewRows-set :
    (id : ℕ) (new old : TransactionRow) (t : Table TransactionRow)
    → find id t ≡ some old
    → NoNewRows t (set id new t)
NoNewRows-set id new old t found j r there = elim (Bool-cases (j == id)) [
  | inl same ↦ (old, ap (λ k. find k t) ((==_iff j id).0 same) ∙ found)
  | inr other ↦ (r, sym (find-set_ne j id new t other) ∙ there)
]

same_events : (t : Table OutboxRow) → NoNewEvents t t
same_events t k f there = (f, there, SameEvent-refl f)

Paired-kept :
    (x y : System)
    → Evolves x y
    → NoNewRows x.db.transactions y.db.transactions
    → NoNewEvents x.db.outbox_events y.db.outbox_events
    → Paired x.db
    → Paired y.db
Paired-kept x y evolves rows events p = record {
  announced = λ id t there.
      let (t₀, was_there) = rows id t there in
      let (k, e, found, its) = p.announced id t₀ was_there in
      let (f, kept, same) = evolves.events k e found in (k, f, kept, same.same_aggregate ∙ its);
  backed = λ k f there.
      let (e, was_there, same) = events k f there in
      let (t, found, told) = p.backed k e was_there in
      let (r, kept, progress) = evolves.transactions e.aggregate_id t found in
      (
        r,
        ap (λ id. find id y.db.transactions) same.same_aggregate ∙ kept,
        subst (λ v. Tells f.aggregate_id r v) (sym same.same_payload)
            (subst (λ id. Tells id r e.payload) (sym same.same_aggregate)
              (Tells-order e.aggregate_id t r e.payload progress.order told)),
      );
  single = λ k j f g found there alike.
      let (e, e_there, e_same) = events k f found in
      let (d, d_there, d_same) = events j g there in
      p.single k j e d e_there d_there (sym e_same.same_aggregate ∙ alike ∙ d_same.same_aggregate);
}

Becomes-rows :
    (env : Env) (event : EventEnvelope) (status : TransactionStatus) (r : TransactionRow) (db : Db)
    → Becomes env event db status r
    → NoNewRows db.transactions (set event.aggregate_id r db.transactions)
Becomes-rows env event status r db b =
    NoNewRows-set event.aggregate_id r b.before db.transactions b.was_there

module _ (to_vec : EventEnvelope → Result SerdeError (List ℕ)) where
  Commit-Paired : (x y : System) → Commit to_vec x y → Paired x.db → Paired y.db
  Commit-Paired x y (accepting env draws key hash body c db log can free) p =
      accepted-Paired env draws key hash body c db (free_id (Option-cases _)) free p
    where
      free_id :
          (find draws.transaction_id db.transactions ≡ none)
            ⊎ ((t : TransactionRow) × (find draws.transaction_id db.transactions ≡ some t))
          → find draws.transaction_id db.transactions ≡ none
      free_id (inl free) = free
      free_id (inr (t, there)) = absurd (ground (arith, can.1, there))
  Commit-Paired x y (opening_account env id body db log can) p = record {
    announced = p.announced;
    backed = p.backed;
    single = p.single;
  }
  Commit-Paired x y (publishing send locked_elsewhere now db db' log log' batched grows) p =
      Paired-kept x y
        (Commit-Evolves to_vec x y
          (publishing send locked_elsewhere now db db' log log' batched grows))
        (λ id r there. (r, ap (λ d. find id d.transactions) (sym batched.0) ∙ there))
        (λ k f there.
          let (e, was, moved) =
            came_from (link_of to_vec send locked_elsewhere) log log' now db.outbox_events
              db'.outbox_events k f batched.1 there in
          (e, was, Moved-SameEvent (link_of to_vec send locked_elsewhere) log' now e f moved))
        p
  Commit-Paired x y (settling env event db db' log (settles r d b worked same)) p =
      Paired-kept x y
        (Commit-Evolves to_vec x y (settling env event db db' log (settles r d b worked same)))
        (λ id o there.
          Becomes-rows env event settled r db b id o
            (sym (ap (λ e. find id e.transactions) same) ∙ there))
        (λ k f there. (
          f,
          sym (ap (λ e. find k e.outbox_events) same ∙ ap (find k) outbox) ∙ there,
          SameEvent-refl f,
        ))
        p
    where
      outbox : d.outbox_events ≡ db.outbox_events
      outbox =
          (performed-Change env.now event.aggregate_id event.correlation_id r.transaction_type
            r.amount r.source_account_id r.dest_account_id db worked).same_outbox
  Commit-Paired x y (failing env event r message db log b) p =
      Paired-kept x y (Commit-Evolves to_vec x y (failing env event r message db log b))
        (Becomes-rows env event failed r db b) (same_events db.outbox_events) p
  Commit-Paired x y (waiting env event r db log b) p =
      Paired-kept x y (Commit-Evolves to_vec x y (waiting env event r db log b))
        (Becomes-rows env event pending r db b) (same_events db.outbox_events) p
  Commit-Paired x y (burying row db log) p = record {
    announced = p.announced;
    backed = p.backed;
    single = p.single;
  }

  Commits-Paired : (x y : System) → Commits to_vec x y → Paired x.db → Paired y.db
  Commits-Paired x y (done _) p = p
  Commits-Paired x z (then _ y _ first rest) p = Commits-Paired y z rest (Commit-Paired x y first p)

  -- In each state that the services reach from a safe one whose outbox is paired with its
  -- transactions, it still is, whatever fails on the way: every transaction has an event in the
  -- outbox, every event has its transaction and tells its identifier, key, type, accounts, currency
  -- and amount, as the column rounds that, and no transaction has two events.
  pub Reaches-Paired :
      (x y : System) → Reaches to_vec x y → Safe to_vec x → Paired x.db → Paired y.db
  Reaches-Paired x y steps h p = Commits-Paired x y (Reaches-Commits to_vec x y steps h) p
