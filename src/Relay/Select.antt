-- ===== src/Relay/Select.antt =====
-- The batch that the relay selects: pending rows of the table, each once.
use financial_data_platform.Prelude.{
  ℕ, ◌-◌, ◌≡◌, refl, inl, inr, Bool-cases, Bool, true, false, some, [], ◌∷◌, arith, ◌==◌, leb, All,
}
use financial_data_platform.Prelude.Keyed.{All-both, Fresh, Distinct, Distinct-find}
use financial_data_platform.Prelude.Table.{Table, find}
use financial_data_platform.Store.Tables.{
  OutboxRow, EventStatus, event_pending, event_published, event_failed,
}
use financial_data_platform.Relay.{
  Events, is_pending, pending_rows, insert_by_time, order_by_time, take, batch_of,
}

module _ (P : ℕ × OutboxRow → Type 0) where
  All-pending_rows : (locked : ℕ → Bool) (es : Events) → All P es → All P (pending_rows locked es)
  All-pending_rows locked [] ps = tt
  All-pending_rows locked ((id, row) ∷ es) (p, ps) =
      ground (arith, p, All-pending_rows locked es ps)

  pub All-insert_by_time :
      (e : ℕ × OutboxRow) (es : Events) → P e → All P es → All P (insert_by_time e es)
  All-insert_by_time e [] p ps = (p, tt)
  All-insert_by_time e (f ∷ es) p (q, ps) = ground (arith, p, q, ps, All-insert_by_time e es p ps)

  All-order_by_time : (es : Events) → All P es → All P (order_by_time es)
  All-order_by_time [] ps = tt
  All-order_by_time (e ∷ es) (p, ps) =
      All-insert_by_time e (order_by_time es) p (All-order_by_time es ps)

  pub All-take : (n : ℕ) (es : Events) → All P es → All P (take n es)
  All-take n [] ps = tt
  All-take n (e ∷ es) (p, ps) = ground (arith, p, All-take (n - 1) es ps)

  All-batch_of : (locked : ℕ → Bool) (n : ℕ) (es : Events) → All P es → All P (batch_of locked n es)
  All-batch_of locked n es ps = All-take n _ (All-order_by_time _ (All-pending_rows locked es ps))

abbrev IsPending : ℕ × OutboxRow → Type 0
IsPending p = p.1.status ≡ event_pending

pending_rows-IsPending : (locked : ℕ → Bool) (es : Events) → All IsPending (pending_rows locked es)
pending_rows-IsPending locked [] = tt
pending_rows-IsPending locked ((id, row) ∷ es) = elim (Bool-cases (is_pending row.status)) [
  | inl waits ↦ ground (arith, waiting row.status waits, pending_rows-IsPending locked es)
  | inr other ↦ ground (arith, other, pending_rows-IsPending locked es)
]
  where
    waiting : (s : EventStatus) → is_pending s ≡ true → s ≡ event_pending
    waiting event_pending e = refl
    waiting event_published e = absurd (cc)
    waiting event_failed e = absurd (cc)

abbrev Others : ℕ → ℕ × OutboxRow → Type 0
Others k p = (p.0 == k) ≡ false

Distinct-pending_rows :
    (locked : ℕ → Bool) (es : Events) → Distinct es → Distinct (pending_rows locked es)
Distinct-pending_rows locked [] d = tt
Distinct-pending_rows locked ((id, row) ∷ es) (f, d) =
    ground (arith, All-pending_rows (Others id) locked es f, Distinct-pending_rows locked es d)

Distinct-insert_by_time :
    (e : ℕ × OutboxRow) (es : Events) → Fresh e.0 es → Distinct es → Distinct (insert_by_time e es)
Distinct-insert_by_time e [] f d = (tt, tt)
Distinct-insert_by_time e (x ∷ es) (ne, f) (g, d) =
    elim (Bool-cases (leb e.1.created_at x.1.created_at)) [
      | inl before ↦ rw before ((ne, f), (g, d))
      | inr after ↦
          rw after (
            All-insert_by_time (Others x.0) e es (ground arith) g,
            Distinct-insert_by_time e es f d,
          )
    ]

Distinct-order_by_time : (es : Events) → Distinct es → Distinct (order_by_time es)
Distinct-order_by_time [] d = tt
Distinct-order_by_time (e ∷ es) (f, d) =
    Distinct-insert_by_time e (order_by_time es) (All-order_by_time (Others e.0) es f)
      (Distinct-order_by_time es d)

Distinct-take : (n : ℕ) (es : Events) → Distinct es → Distinct (take n es)
Distinct-take n [] d = tt
Distinct-take n (e ∷ es) (f, d) =
    ground (arith, All-take (Others e.0) (n - 1) es f, Distinct-take (n - 1) es d)

pub Distinct-batch_of :
    (locked : ℕ → Bool) (n : ℕ) (es : Events) → Distinct es → Distinct (batch_of locked n es)
Distinct-batch_of locked n es d =
    Distinct-take n _ (Distinct-order_by_time _ (Distinct-pending_rows locked es d))

-- A row of the batch is the table's row of its key, and waits.
abbrev pub Waiting : Table OutboxRow → ℕ × OutboxRow → Type 0
Waiting t p = (find p.0 t ≡ some p.1) × (p.1.status ≡ event_pending)

pub batch_of-Waiting :
    (locked : ℕ → Bool) (n : ℕ) (t : Table OutboxRow)
    → Distinct t
    → All (Waiting t) (batch_of locked n t)
batch_of-Waiting locked n t d = All-take (Waiting t) n _ (
    All-order_by_time (Waiting t) _ (
      All-both (λ p. find p.0 t ≡ some p.1) IsPending (Waiting t) (pending_rows locked t)
        (λ p there waits. (there, waits))
        (All-pending_rows (λ p. find p.0 t ≡ some p.1) locked t (Distinct-find t d))
        (pending_rows-IsPending locked t)))
