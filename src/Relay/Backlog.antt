-- ===== src/Relay/Backlog.antt =====
-- How many events wait, and what a batch takes off their number.
use financial_data_platform.Prelude.{
  ℕ, suc, ◌≢◌, ◌+◌, ◌-◌, ◌≡◌, refl, ap, ◌∙◌, subst, inl, inr, Bool-cases, Bool, true, false, some,
  [], ◌∷◌, List, arith, ◌==◌, All, length, ==_iff,
}
use financial_data_platform.Prelude.Keyed.{Distinct, Fresh}
use financial_data_platform.Prelude.Table.{Table, find, set}
use financial_data_platform.Store.Tables.{OutboxRow, event_pending}
use financial_data_platform.Relay.{
  Events, is_pending, pending_rows, insert_by_time, order_by_time, take, batch_of, contains,
  publish_rows, as_published,
}
use financial_data_platform.Relay.Mark.{publish_rows-none, publish_rows-out}
use financial_data_platform.Relay.Order.{Among, Among-pending_rows}
use financial_data_platform.Relay.Publish.{ids_of}
use financial_data_platform.Relay.Select.{Waiting}

abbrev pub unlocked : ℕ → Bool
unlocked _ = false

unfoldable pub backlog : Table OutboxRow → ℕ
backlog t = length (pending_rows unlocked t)

length-insert_by_time :
    (e : ℕ × OutboxRow) (es : Events) → length (insert_by_time e es) ≡ suc (length es)
length-insert_by_time e [] = refl
length-insert_by_time e (f ∷ es) = ground (arith, length-insert_by_time e es)

length-order_by_time : (es : Events) → length (order_by_time es) ≡ length es
length-order_by_time [] = refl
length-order_by_time (e ∷ es) =
    length-insert_by_time e (order_by_time es) ∙ ap suc (length-order_by_time es)

length-take : (n : ℕ) (es : Events) → length (take n es) + (length es - n) ≡ length es
length-take n [] = omega arith
length-take n (e ∷ es) = ground (arith, length-take (n - 1) es)

all_unlocked :
    (locked : ℕ → Bool) (t : Table OutboxRow)
    → ((id : ℕ) → locked id ≡ false)
    → pending_rows locked t ≡ pending_rows unlocked t
all_unlocked locked [] free = refl
all_unlocked locked ((id, row) ∷ t) free = rw (free id, all_unlocked locked t free) refl

-- A batch takes its size, or all that waits.
pub length-batch_of :
    (locked : ℕ → Bool) (n : ℕ) (t : Table OutboxRow)
    → ((id : ℕ) → locked id ≡ false)
    → length (batch_of locked n t) + (backlog t - n) ≡ backlog t
unfolding backlog
length-batch_of locked n t free =
    let same : length (order_by_time (pending_rows locked t)) ≡ length (pending_rows unlocked t) =
      length-order_by_time (pending_rows locked t) ∙ ap length (all_unlocked locked t free) in
    ground (arith, same, length-take n (order_by_time (pending_rows locked t)))

backlog-set :
    (id : ℕ) (old new : OutboxRow) (t : Table OutboxRow)
    → find id t ≡ some old
    → is_pending old.status ≡ true
    → is_pending new.status ≡ false
    → suc (backlog (set id new t)) ≡ backlog t
unfolding backlog find set
backlog-set id old new [] there waits gone = absurd (cc)
backlog-set id old new ((j, r) ∷ t) there waits gone = elim (Bool-cases (j == id)) [
  | inl same ↦
      (let it : r ≡ old = ground (arith, there, same) in ground (arith, same, it, waits, gone))
  | inr other ↦ ground (arith, other, there, waits, gone, backlog-set id old new t)
]

contains-Fresh : (id : ℕ) (es : Events) → Fresh id es → contains id (ids_of es) ≡ false
contains-Fresh id [] f = refl
contains-Fresh id ((j, r) ∷ es) (ne, f) = ground (arith, ne, contains-Fresh id es f)

publish_rows-Fresh :
    (now id : ℕ) (ids : List ℕ) (t : Table OutboxRow)
    → Fresh id t
    → publish_rows now (id ∷ ids) t ≡ publish_rows now ids t
publish_rows-Fresh now id ids [] f = refl
publish_rows-Fresh now id ids ((j, r) ∷ t) (ne, f) =
    ground (arith, ne, publish_rows-Fresh now id ids t f)

publish_rows-set :
    (now id : ℕ) (ids : List ℕ) (row : OutboxRow) (t : Table OutboxRow)
    → Distinct t
    → find id t ≡ some row
    → publish_rows now (id ∷ ids) t ≡ set id (as_published now row) (publish_rows now ids t)
unfolding find set
publish_rows-set now id ids row [] d there = absurd (cc)
publish_rows-set now id ids row ((j, r) ∷ t) (fresh, d) there = elim (Bool-cases (j == id)) [
  | inl same ↦
      (let key : j ≡ id = (==_iff j id).0 same in
        let it : r ≡ row = ground (arith, there, same) in
        ground
          (arith, same, it, publish_rows-Fresh now id ids t (subst (λ k. Fresh k t) key fresh)))
  | inr other ↦
      ground (arith, other, publish_rows-set now id ids row t d (ground (arith, there, other)))
]

-- Each row that is published is one fewer.
pub backlog-publish_rows :
    (now : ℕ) (es : Events) (t : Table OutboxRow)
    → Distinct t
    → Distinct es
    → All (Waiting t) es
    → backlog (publish_rows now (ids_of es) t) + length es ≡ backlog t
backlog-publish_rows now [] t d once ws = rw (publish_rows-none now t) (omega arith)
backlog-publish_rows now ((id, row) ∷ es) t d (fresh, once) ((there, waits), ws) =
    let ids = ids_of es in
    let still : find id (publish_rows now ids t) ≡ some row =
      publish_rows-out now ids t id (contains-Fresh id es fresh) ∙ there in
    let fewer =
      backlog-set id row (as_published now row) (publish_rows now ids t) still (ap is_pending waits)
        refl in
    let whole = ap backlog (publish_rows-set now id ids row t d there) in
    omega (arith, whole, fewer, backlog-publish_rows now es t d once ws)

-- Where nothing is counted, nothing waits.
pub backlog-zero :
    (t : Table OutboxRow) (id : ℕ) (row : OutboxRow)
    → backlog t ≡ 0
    → find id t ≡ some row
    → row.status ≢ event_pending
unfolding backlog
backlog-zero t id row gone there waits =
    nobody (pending_rows unlocked t) gone (Among-pending_rows unlocked id row t there waits refl)
  where
    nobody : (es : Events) → length es ≡ 0 → Among (id, row) es → ⊥
    nobody [] e h = h
    nobody (x ∷ es) e h = absurd (omega (arith, e))
