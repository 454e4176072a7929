-- ===== src/Relay/Order.antt =====
-- Which rows the relay selects: the oldest ones that wait, in the order of their creation.
use financial_data_platform.Prelude.{
  ℕ, suc, not, ◌&&◌, ◌-◌, ◌≤◌, ⊤, ◌≡◌, ◌⊎◌, inl, inr, Bool-cases, Bool, true, false, some, [], ◌∷◌,
  arith, ◌==◌, leb, All, length, ==_iff,
}
use financial_data_platform.Prelude.Keyed.{All-map}
use financial_data_platform.Prelude.Table.{Table, find}
use financial_data_platform.Store.Tables.{OutboxRow, event_pending}
use financial_data_platform.Relay.Select.{All-insert_by_time, All-take}
use financial_data_platform.Relay.{
  Events, is_pending, pending_rows, insert_by_time, order_by_time, take, batch_of,
}

abbrev pub Among : ℕ × OutboxRow → Events → Type 0
Among p [] = ⊥
Among p (e ∷ es) = (p ≡ e) ⊎ Among p es

abbrev pub NotNewer : ℕ × OutboxRow → ℕ × OutboxRow → Type 0
NotNewer p e = e.1.created_at ≤ p.1.created_at

abbrev pub IsOrdered : Events → Type 0
IsOrdered [] = ⊤
IsOrdered (e ∷ es) = All (λ f. NotNewer f e) es × IsOrdered es

insert_by_time-IsOrdered :
    (e : ℕ × OutboxRow) (es : Events) → IsOrdered es → IsOrdered (insert_by_time e es)
insert_by_time-IsOrdered e [] o = (tt, tt)
insert_by_time-IsOrdered e (f ∷ es) (first, o) =
    elim (Bool-cases (leb e.1.created_at f.1.created_at)) [
      | inl before ↦ rw before (
          (
            (
              ground arith,
              All-map (λ g. NotNewer g f) (λ g. NotNewer g e) es (λ g h. ground arith) first,
            ),
            (first, o),
          ))
      | inr after ↦ rw after (
        All-insert_by_time (λ g. NotNewer g f) e es (ground arith) first,
        insert_by_time-IsOrdered e es o,
      )
    ]

order_by_time-IsOrdered : (es : Events) → IsOrdered (order_by_time es)
order_by_time-IsOrdered [] = tt
order_by_time-IsOrdered (e ∷ es) =
    insert_by_time-IsOrdered e (order_by_time es) (order_by_time-IsOrdered es)

take-IsOrdered : (n : ℕ) (es : Events) → IsOrdered es → IsOrdered (take n es)
take-IsOrdered n [] o = tt
take-IsOrdered n (e ∷ es) (first, o) =
    ground (arith, All-take (λ f. NotNewer f e) (n - 1) es first, take-IsOrdered (n - 1) es o)

Among-insert_by_time :
    (p e : ℕ × OutboxRow) (es : Events) → (p ≡ e) ⊎ Among p es → Among p (insert_by_time e es)
Among-insert_by_time p e [] h = h
Among-insert_by_time p e (f ∷ es) h = elim (Bool-cases (leb e.1.created_at f.1.created_at)) [
  | inl before ↦ rw before h
  | inr after ↦ rw after (later (Among-insert_by_time p e es) h)
]
  where
    later :
        ((p ≡ e) ⊎ Among p es → Among p (insert_by_time e es))
        → (p ≡ e) ⊎ ((p ≡ f) ⊎ Among p es)
        → (p ≡ f) ⊎ Among p (insert_by_time e es)
    later rest (inl same) = inr (rest (inl same))
    later rest (inr (inl same)) = inl same
    later rest (inr (inr among)) = inr (rest (inr among))

Among-order_by_time : (p : ℕ × OutboxRow) (es : Events) → Among p es → Among p (order_by_time es)
Among-order_by_time p [] h = h
Among-order_by_time p (e ∷ es) (inl same) = Among-insert_by_time p e (order_by_time es) (inl same)
Among-order_by_time p (e ∷ es) (inr among) =
    Among-insert_by_time p e (order_by_time es) (inr (Among-order_by_time p es among))

-- Of an ordered list, an item is taken, or the whole of what is taken is not newer.
take-cases :
    (p : ℕ × OutboxRow) (n : ℕ) (es : Events)
    → IsOrdered es
    → Among p es
    → Among p (take n es) ⊎ ((length (take n es) ≡ n) × All (λ e. NotNewer p e) (take n es))
take-cases p n [] o h = absurd h
take-cases p n (e ∷ es) (first, o) h = elim (Bool-cases (n == 0)) [
  | inl none_left ↦ rw none_left (inr (ground (arith, none_left), tt))
  | inr some_left ↦ rw some_left (by_place some_left h (λ among. take-cases p (n - 1) es o among))
]
  where
    is_after : (es : Events) → All (λ f. NotNewer f e) es → Among p es → NotNewer p e
    is_after [] q h = absurd h
    is_after (f ∷ fs) (q, qs) (inl same) = ground (arith, same, q)
    is_after (f ∷ fs) (q, qs) (inr among) = is_after fs qs among

    by_place :
        (n == 0) ≡ false
        → (p ≡ e) ⊎ Among p es
        → (Among p es
            → Among p (take (n - 1) es)
              ⊎ ((length (take (n - 1) es) ≡ n - 1) × All (λ e. NotNewer p e) (take (n - 1) es)))
        → ((p ≡ e) ⊎ Among p (take (n - 1) es))
          ⊎ ((suc (length (take (n - 1) es)) ≡ n)
              × (NotNewer p e × All (λ e. NotNewer p e) (take (n - 1) es)))
    by_place some_left (inl same) rest = inl (inl same)
    by_place some_left (inr among) rest = elim (rest among) [
      | inl taken ↦ inl (inr taken)
      | inr (full, older) ↦ inr (ground (arith, full, some_left), (is_after es first among, older))
    ]

pub Among-pending_rows :
    (locked : ℕ → Bool) (id : ℕ) (row : OutboxRow) (t : Table OutboxRow)
    → find id t ≡ some row
    → row.status ≡ event_pending
    → locked id ≡ false
    → Among (id, row) (pending_rows locked t)
unfolding find
Among-pending_rows locked id row [] there waits free = absurd (cc)
Among-pending_rows locked id row ((j, r) ∷ t) there waits free = elim (Bool-cases (j == id)) [
  | inl same ↦
      (let key : j ≡ id = (==_iff j id).0 same in
        let it : r ≡ row = ground (arith, there, same) in
        let selected : is_pending r.status && not (locked j) ≡ true =
          ground (arith, key, it, waits, free) in
        rw selected (inl (ground (arith, key, it))))
  | inr other ↦ ground (arith, other, there, Among-pending_rows locked id row t)
]

-- The rows that a batch selects are in the order of their creation, and a row that waits and is not
-- locked by another relay is among them, unless the batch is full and none of its rows is newer.
pub batch_of-oldest :
    (locked : ℕ → Bool) (n : ℕ) (t : Table OutboxRow) (id : ℕ) (row : OutboxRow)
    → find id t ≡ some row
    → row.status ≡ event_pending
    → locked id ≡ false
    → IsOrdered (batch_of locked n t)
      × (Among (id, row) (batch_of locked n t)
          ⊎ ((length (batch_of locked n t) ≡ n)
              × All (λ e. NotNewer (id, row) e) (batch_of locked n t)))
batch_of-oldest locked n t id row there waits free =
    let ordered = order_by_time-IsOrdered (pending_rows locked t) in
    (
      take-IsOrdered n _ ordered,
      take-cases (id, row) n _ ordered
          (Among-order_by_time (id, row) _ (Among-pending_rows locked id row t there waits free)),
    )
