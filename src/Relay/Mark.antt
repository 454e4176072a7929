-- ===== src/Relay/Mark.antt =====
-- The updates of a batch: published rows are those whose record is in the log, and a failure is
-- recorded once.
use financial_data_platform.Prelude.{
  ℕ, ◌≡◌, refl, sym, ap, ◌∙◌, subst, inl, inr, Bool-cases, true, false, String, some, none, List,
  [], ◌∷◌, arith, ◌==◌, All, ==_iff,
}
use financial_data_platform.Prelude.Keyed.{All-map, All-both, Fresh, Distinct, Distinct-set}
use financial_data_platform.Prelude.Table.{Table, find, set, find-set_self, find-set_ne}
use financial_data_platform.Store.Tables.{OutboxRow, event_pending}
use financial_data_platform.Relay.{
  Sent, Link, Failures, contains, as_published, publish_rows, as_bounced,
}
use financial_data_platform.Relay.Select.{Waiting}
use financial_data_platform.Relay.Send.{InLog, Acked, Bounced}

pub contains-All :
    (P : ℕ → Type 0) (id : ℕ) (ids : List ℕ) → All P ids → contains id ids ≡ true → P id
contains-All P id [] ps e = absurd (cc)
contains-All P id (j ∷ js) (p, ps) e = elim (Bool-cases (j == id)) [
  | inl same ↦ subst P ((==_iff j id).0 same) p
  | inr other ↦ contains-All P id js ps (ground (arith, e, other))
]

module _ (now : ℕ) where
  pub publish_rows-none : (t : Table OutboxRow) → publish_rows now [] t ≡ t
  publish_rows-none [] = refl
  publish_rows-none ((id, row) ∷ t) = rw (publish_rows-none t) refl

  pub publish_rows-in :
      (ids : List ℕ) (t : Table OutboxRow) (id : ℕ) (row : OutboxRow)
      → contains id ids ≡ true
      → find id t ≡ some row
      → find id (publish_rows now ids t) ≡ some (as_published now row)
  unfolding find
  publish_rows-in ids [] id row h e = absurd (cc)
  publish_rows-in ids ((j, r) ∷ t) id row h e = elim (Bool-cases (j == id)) [
    | inl same ↦ (let eq : j ≡ id = (==_iff j id).0 same in ground (arith, eq, h, e))
    | inr other ↦ ground (arith, other, publish_rows-in ids t id row h, e)
  ]

  pub publish_rows-out :
      (ids : List ℕ) (t : Table OutboxRow) (id : ℕ)
      → contains id ids ≡ false
      → find id (publish_rows now ids t) ≡ find id t
  unfolding find
  publish_rows-out ids [] id h = refl
  publish_rows-out ids ((j, r) ∷ t) id h = elim (Bool-cases (j == id)) [
    | inl same ↦ (let eq : j ≡ id = (==_iff j id).0 same in ground (arith, eq, h))
    | inr other ↦ ground (arith, other, publish_rows-out ids t id h)
  ]

  publish_rows-absent :
      (ids : List ℕ) (t : Table OutboxRow) (id : ℕ)
      → find id t ≡ none
      → find id (publish_rows now ids t) ≡ none
  unfolding find
  publish_rows-absent ids [] id e = refl
  publish_rows-absent ids ((j, r) ∷ t) id e = ground (arith, publish_rows-absent ids t id, e)

  publish_rows-Fresh :
      (ids : List ℕ) (t : Table OutboxRow) (k : ℕ) → Fresh k t → Fresh k (publish_rows now ids t)
  publish_rows-Fresh ids [] k f = tt
  publish_rows-Fresh ids ((j, r) ∷ t) k (ne, f) = ground (arith, ne, publish_rows-Fresh ids t k f)

  pub publish_rows-Distinct :
      (ids : List ℕ) (t : Table OutboxRow) → Distinct t → Distinct (publish_rows now ids t)
  publish_rows-Distinct ids [] d = tt
  publish_rows-Distinct ids ((j, r) ∷ t) (f, d) =
      ground (arith, publish_rows-Fresh ids t j f, publish_rows-Distinct ids t d)

module _ (link : Link) (log : List Sent) (now : ℕ) where
  -- What a batch may do to a row.
  pub data Moved (row row' : OutboxRow) : Type 0 where
    kept : row' ≡ row → Moved row row'
    now_published :
        row.status ≡ event_pending
        → InLog link row log
        → row' ≡ as_published now row
        → Moved row row'
    now_failed :
        (error : String) → row.status ≡ event_pending → row' ≡ as_bounced error row → Moved row row'

  pub record Relayed (t t' : Table OutboxRow) : Type 0 where
    pub rows :
        (id : ℕ) (row : OutboxRow)
        → find id t ≡ some row
        → (row' : OutboxRow) × (find id t' ≡ some row') × Moved row row'
    pub absent : (id : ℕ) → find id t ≡ none → find id t' ≡ none
    pub distinct : Distinct t'

  -- Between two failures: those that are left are about rows that are as they were.
  pub record Going (t : Table OutboxRow) (failed : Failures) (w : Table OutboxRow) : Type 0 where
    pub relayed : Relayed t w
    pub left : All (λ q. (row : OutboxRow) × Waiting t (q.0, row) × (find q.0 w ≡ some row)) failed
    pub once : Distinct failed

  pub Relayed-refl : (t : Table OutboxRow) → Distinct t → Relayed t t
  Relayed-refl t d = record {
    rows = λ id row e. (row, e, kept refl);
    absent = λ id e. e;
    distinct = d;
  }

  module _ (t : Table OutboxRow) (d : Distinct t) (published : List ℕ) (failed : Failures)
      (acked : All (Acked link t log) published) (bounced : All (Bounced link t) failed)
      (once : Distinct failed) where
    abbrev marked : Table OutboxRow
    marked = publish_rows now published t

    published_row :
        (id : ℕ) (row : OutboxRow)
        → find id t ≡ some row
        → (row' : OutboxRow) × (find id marked ≡ some row') × Moved row row'
    published_row id row e = elim (Bool-cases (contains id published)) [
      | inr out ↦ (row, publish_rows-out now published t id out ∙ e, kept refl)
      | inl in_batch ↦
          (let (r, (there, waits), sent, logged) =
              contains-All (Acked link t log) id published acked in_batch in
            let same : r ≡ row = ground (arith, there, e) in
            (
              as_published now row,
              publish_rows-in now published t id row in_batch e,
              now_published (subst (λ r. r.status ≡ event_pending) same waits)
                  (subst (λ r. InLog link r log) same logged) refl,
            ))
    ]

    untouched :
        (q : ℕ × String)
        → Bounced link t q
        → (row : OutboxRow) × Waiting t (q.0, row) × (find q.0 marked ≡ some row)
    untouched q (row, reached, waits, answer) = elim (Bool-cases (contains q.0 published)) [
      | inr out ↦ (row, waits, publish_rows-out now published t q.0 out ∙ waits.0)
      | inl in_batch ↦
          (let (r, _, sent, _) = contains-All (Acked link t log) q.0 published acked in_batch in
            absurd (cc))
    ]

    pub marked-Going : Going t failed marked
    marked-Going = record {
      relayed = record {
        rows = published_row;
        absent = λ id e. publish_rows-absent now published t id e;
        distinct = publish_rows-Distinct now published t d;
      };
      left = All-map (Bounced link t) _ failed untouched bounced;
      once = once;
    }

  pub failed-Going :
      (t w : Table OutboxRow) (id : ℕ) (error : String) (failed : Failures) (row : OutboxRow)
      → Going t ((id, error) ∷ failed) w
      → find id w ≡ some row
      → Going t failed (set id (as_bounced error row) w)
  failed-Going t w id error failed row g there = record {
    relayed = record {
      rows = λ j r e. moved j r e;
      absent = λ j e. gone j e;
      distinct = Distinct-set id (as_bounced error row) w g.relayed.distinct;
    };
    left =
        All-both (λ q. (q.0 == id) ≡ false)
          (λ q. (r : OutboxRow) × Waiting t (q.0, r) × (find q.0 w ≡ some r)) _ failed
          (λ q ne h. (h.0, h.1, find-set_ne q.0 id (as_bounced error row) w ne ∙ h.2)) g.once.0
          g.left.1;
    once = g.once.1;
  }
    where
      moved :
          (j : ℕ) (r : OutboxRow)
          → find j t ≡ some r
          → (r' : OutboxRow) × (find j (set id (as_bounced error row) w) ≡ some r') × Moved r r'
      moved j r e = elim (Bool-cases (j == id)) [
        | inl same ↦
            (let eq : j ≡ id = (==_iff j id).0 same in
              let (r₀, (there₀, waits), unmoved) = g.left.0 in
              let r_same : r₀ ≡ r = ground (arith, eq, e, there₀) in
              let row_same : row ≡ r = ground (arith, there, unmoved, r_same) in
              (
                as_bounced error row,
                subst (λ k. find k (set id (as_bounced error row) w) ≡ some (as_bounced error row))
                    (sym eq) (find-set_self id (as_bounced error row) row w there),
                now_failed error (subst (λ r. r.status ≡ event_pending) r_same waits)
                    (ap (as_bounced error) row_same),
              ))
        | inr other ↦
            (let (r', found, h) = g.relayed.rows j r e in
              (r', find-set_ne j id (as_bounced error row) w other ∙ found, h))
      ]

      gone : (j : ℕ) → find j t ≡ none → find j (set id (as_bounced error row) w) ≡ none
      gone j e = elim (Bool-cases (j == id)) [
        | inl same ↦
            (let eq : j ≡ id = (==_iff j id).0 same in
              let (r₀, (there₀, waits), unmoved) = g.left.0 in
              absurd (ground (arith, eq, e, there₀)))
        | inr other ↦ find-set_ne j id (as_bounced error row) w other ∙ g.relayed.absent j e
      ]
