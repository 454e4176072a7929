-- ===== src/Worker/Postings/Frame.antt =====
-- An operation neither reads nor writes the table of transactions.
use financial_data_platform.Prelude.{ℕ, ◌≡◌, none, some, inl, inr, Option, arith, Option-cases}
use financial_data_platform.Prelude.Int.{ℤ}
use financial_data_platform.Prelude.Table.{Table}
use financial_data_platform.Shared.Domain.{
  TransactionType, credit_type, debit_type, transfer_type, fee_type, reversal_type, adjustment_type,
}
use financial_data_platform.Store.Tables.{
  TransactionRow, EntryType, debit_entry, credit_entry, AuditState, Db,
}
use financial_data_platform.Worker.Postings.Spec.{
  post, posted, post-eq-some, closed, audited, both_posted, transferred, credited, debited,
  performed,
}

module _ (now id c : ℕ) (rows : Table TransactionRow) where
  abbrev pub over : Db → Db
  over db = record db { transactions = rows }

  -- A result over other transactions is the result itself, over those transactions.
  abbrev pub Framed : (Db → Option Db) → Db → Db → Type 0
  Framed f db w = (d : Db) × (f db ≡ some d) × (w ≡ over d)

  post-Framed :
      (kind : EntryType) (k : ℕ) (amount : ℤ) (db w : Db)
      → post now id kind k amount (over db) ≡ some w
      → Framed (post now id kind k amount) db w
  unfolding post
  post-Framed kind k amount db w e =
      let (a, found, fits, positive, same) = post-eq-some now id kind k amount (over db) e in
      (posted now id k kind amount a db, ground arith, same)

  closed-Framed :
      (state : AuditState) (f : Db → Option Db) (db w : Db)
      → ((x : Db) → f (over db) ≡ some x → Framed f db x)
      → closed now id c state (f (over db)) ≡ some w
      → Framed (λ d. closed now id c state (f d)) db w
  closed-Framed state f db w h e = elim (Option-cases (f (over db))) [
    | inl missing ↦ absurd (ground arith)
    | inr (x, got) ↦ (let (d, p, q) = h x got in (audited now id c state d, rw p, cc))
  ]

  both_posted-Framed :
      (amount : ℤ) (j k : ℕ) (db w : Db)
      → both_posted now id amount j k (over db) ≡ some w
      → Framed (both_posted now id amount j k) db w
  both_posted-Framed amount j k db w e =
      elim (Option-cases (post now id debit_entry j amount (over db))) [
        | inl missing ↦ absurd (ground arith)
        | inr (x, paid) ↦
            (let (d, p, q) = post-Framed debit_entry j amount db x paid in
              let (d', p', q') = post-Framed credit_entry k amount d w (ground arith) in
              (d', rw (p, both_posted) p', q'))
      ]

  pub performed-Framed :
      (type : TransactionType) (amount : ℤ) (source dest : Option ℕ) (db w : Db)
      → performed now id c type amount source dest (over db) ≡ some w
      → Framed (performed now id c type amount source dest) db w
  unfolding performed transferred credited debited
  performed-Framed transfer_type amount (some j) (some k) db w e =
      closed-Framed _ (both_posted now id amount j k) db w (both_posted-Framed amount j k db) e
  performed-Framed transfer_type amount none dest db w e = absurd (cc)
  performed-Framed transfer_type amount (some j) none db w e = absurd (cc)
  performed-Framed credit_type amount source none db w e = absurd (cc)
  performed-Framed credit_type amount source (some k) db w e =
      closed-Framed _ (post now id credit_entry k amount) db w
        (post-Framed credit_entry k amount db) e
  performed-Framed debit_type amount none dest db w e = absurd (cc)
  performed-Framed debit_type amount (some k) dest db w e =
      closed-Framed _ (post now id debit_entry k amount) db w (post-Framed debit_entry k amount db)
        e
  performed-Framed fee_type amount none dest db w e = absurd (cc)
  performed-Framed fee_type amount (some k) dest db w e =
      closed-Framed _ (post now id debit_entry k amount) db w (post-Framed debit_entry k amount db)
        e
  performed-Framed reversal_type amount source dest db w e = absurd (cc)
  performed-Framed adjustment_type amount source dest db w e = absurd (cc)
