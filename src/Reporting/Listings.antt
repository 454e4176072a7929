-- ===== src/Reporting/Listings.antt =====
-- Which rows the two listings report, and in what order.
use financial_data_platform.Prelude.{
  ℕ, ◌≤◌, ◌≡◌, refl, subst, ◌⊎◌, inl, inr, Bool-cases, true, Option, some, none, ok, List, [], ◌∷◌,
  arith, All, length,
}
use financial_data_platform.Prelude.Int.{ℤ, ◌≤ℤ◌}
use financial_data_platform.Prelude.Keyed.{All-map}
use financial_data_platform.Prelude.Table.{Table}
use financial_data_platform.Store.Tables.{AccountRow, TransactionRow, LedgerRow, Db}
use financial_data_platform.Reporting.Groups.{order_desc, take}
use financial_data_platform.Reporting.{
  is_high, HighValueEntry, high_value_entry, high_value_rows, select_high_value, CtrEntry,
  is_reportable, join_account, coalesce, ctr_entry, add_joined, ctr_rows, select_ctr,
}
use financial_data_platform.Reporting.Ranks.{
  Occurs, All-take, length-take, IsDescending, All-order_desc, order_desc-IsDescending,
  Occurs-order_desc, take-IsDescending, Occurs-take,
}

abbrev pub high_amount : HighValueEntry → ℤ
high_amount h = h.amount

abbrev pub ctr_amount : CtrEntry → ℤ
ctr_amount c = c.amount

-- The entries of the report come from rows of the ledger that its condition admits.
abbrev pub FromLedger : ℕ → List LedgerRow → HighValueEntry → Type 0
FromLedger now es h =
    (e : LedgerRow) × Occurs e es × (h ≡ high_value_entry e) × (is_high now e ≡ true)

high_value_rows-FromLedger :
    (now : ℕ) (es : List LedgerRow) → All (FromLedger now es) (high_value_rows now es)
high_value_rows-FromLedger now [] = tt
high_value_rows-FromLedger now (e ∷ es) =
    let rest : All (FromLedger now (e ∷ es)) (high_value_rows now es) =
      All-map (FromLedger now es) (FromLedger now (e ∷ es)) (high_value_rows now es)
        (λ h (r, there, same, high). (r, inr there, same, high))
        (high_value_rows-FromLedger now es) in
    elim (Bool-cases (is_high now e)) [
      | inl high ↦ rw high ((e, inl refl, refl, high), rest)
      | inr low ↦ rw low rest
    ]

high_value_rows-all :
    (now : ℕ) (e : LedgerRow) (es : List LedgerRow)
    → is_high now e ≡ true
    → Occurs e es
    → Occurs (high_value_entry e) (high_value_rows now es)
high_value_rows-all now e [] high o = absurd o
high_value_rows-all now e (x ∷ es) high (inl same) =
    subst (λ x. Occurs (high_value_entry e) (high_value_rows now (x ∷ es))) same
      (rw high (inl refl))
high_value_rows-all now e (x ∷ es) high (inr later) = elim (Bool-cases (is_high now x)) [
  | inl too ↦ rw too (inr (high_value_rows-all now e es high later))
  | inr low ↦ rw low (high_value_rows-all now e es high later)
]

-- The high-value report has at most 1000 entries, in falling order of their amounts, each one of a
-- ledger row of at least 10,000 that was posted within a day.
pub select_high_value_sound :
    (now : ℕ) (db db' : Db) (report : List HighValueEntry)
    → select_high_value now db ≡ ok (report, db')
    → (length report ≤ 1000)
      × IsDescending high_amount report
      × All (FromLedger now db.ledger_entries) report
unfolding select_high_value
select_high_value_sound now db db' report e =
    let all : List HighValueEntry =
      order_desc high_amount (high_value_rows now db.ledger_entries) in
    let same : take 1000 all ≡ report = ground arith in
    subst
      (λ report.
        (length report ≤ 1000)
        × IsDescending high_amount report
        × All (FromLedger now db.ledger_entries) report)
      same
      (
        length-take 1000 all,
        take-IsDescending high_amount 1000 all
            (order_desc-IsDescending high_amount (high_value_rows now db.ledger_entries)),
        All-take (FromLedger now db.ledger_entries) 1000 all (
            All-order_desc high_amount (FromLedger now db.ledger_entries) _
              (high_value_rows-FromLedger now db.ledger_entries)),
      )

-- Each ledger row of at least 10,000 that was posted within a day is in the high-value report, or the
-- report has 1000 entries and none of them is below it.
pub select_high_value_complete :
    (now : ℕ) (db db' : Db) (report : List HighValueEntry) (r : LedgerRow)
    → select_high_value now db ≡ ok (report, db')
    → is_high now r ≡ true
    → Occurs r db.ledger_entries
    → Occurs (high_value_entry r) report
      ⊎ ((length report ≡ 1000) × All (λ h. r.amount ≤ℤ h.amount) report)
unfolding select_high_value
select_high_value_complete now db db' report r e high there =
    let all : List HighValueEntry =
      order_desc high_amount (high_value_rows now db.ledger_entries) in
    let same : take 1000 all ≡ report = ground arith in
    subst
      (λ report.
        Occurs (high_value_entry r) report
        ⊎ ((length report ≡ 1000) × All (λ h. r.amount ≤ℤ h.amount) report))
      same
      (Occurs-take high_amount 1000 (high_value_entry r) all
        (order_desc-IsDescending high_amount (high_value_rows now db.ledger_entries))
        (Occurs-order_desc high_amount (high_value_entry r) _
          (high_value_rows-all now r db.ledger_entries high there)))

-- The account that a transaction is reported under.
abbrev pub account_of : Table AccountRow → TransactionRow → Option (ℕ × AccountRow)
account_of accounts t = join_account (coalesce t.source_account_id t.dest_account_id) accounts

abbrev pub Reported : ℕ → Table AccountRow → Table TransactionRow → CtrEntry → Type 0
Reported now accounts rows c =
    (p : ℕ × TransactionRow) × (a : ℕ × AccountRow) × Occurs p rows
    × (is_reportable now p.1 ≡ true)
    × (account_of accounts p.1 ≡ some a)
    × (c ≡ ctr_entry p.0 p.1 a)

joined :
    (now : ℕ) (accounts : Table AccountRow) (p : ℕ × TransactionRow) (rows : Table TransactionRow)
    (o : Option (ℕ × AccountRow)) (rest : List CtrEntry)
    → is_reportable now p.1 ≡ true
    → account_of accounts p.1 ≡ o
    → All (Reported now accounts (p ∷ rows)) rest
    → All (Reported now accounts (p ∷ rows)) (add_joined p.0 p.1 o rest)
joined now accounts p rows none rest due e h = h
joined now accounts p rows (some a) rest due e h = ((p, a, inl refl, due, e, refl), h)

ctr_rows-Reported :
    (now : ℕ) (accounts : Table AccountRow) (rows : Table TransactionRow)
    → All (Reported now accounts rows) (ctr_rows now accounts rows)
ctr_rows-Reported now accounts [] = tt
ctr_rows-Reported now accounts ((id, t) ∷ rows) =
    let rest : All (Reported now accounts ((id, t) ∷ rows)) (ctr_rows now accounts rows) =
      All-map (Reported now accounts rows) (Reported now accounts ((id, t) ∷ rows))
        (ctr_rows now accounts rows)
        (λ c (p, a, there, due, e, same). (p, a, inr there, due, e, same))
        (ctr_rows-Reported now accounts rows) in
    elim (Bool-cases (is_reportable now t)) [
      | inl due ↦ rw due (joined now accounts (id, t) rows (account_of accounts t) _ due refl rest)
      | inr not_due ↦ rw not_due rest
    ]

Occurs-add_joined :
    (c : CtrEntry) (id : ℕ) (t : TransactionRow) (o : Option (ℕ × AccountRow))
    (rest : List CtrEntry)
    → Occurs c rest
    → Occurs c (add_joined id t o rest)
Occurs-add_joined c id t none rest h = h
Occurs-add_joined c id t (some a) rest h = inr h

ctr_rows-all :
    (now : ℕ) (accounts : Table AccountRow) (id : ℕ) (t : TransactionRow) (a : ℕ × AccountRow)
    (rows : Table TransactionRow)
    → is_reportable now t ≡ true
    → account_of accounts t ≡ some a
    → Occurs (id, t) rows
    → Occurs (ctr_entry id t a) (ctr_rows now accounts rows)
ctr_rows-all now accounts id t a [] due e o = absurd o
ctr_rows-all now accounts id t a (x ∷ rows) due e (inl same) =
    subst (λ x. Occurs (ctr_entry id t a) (ctr_rows now accounts (x ∷ rows))) same
      (rw (due, e) (inl refl))
ctr_rows-all now accounts id t a ((j, u) ∷ rows) due e (inr later) =
    elim (Bool-cases (is_reportable now u)) [
      | inl too ↦ rw too (
          Occurs-add_joined (ctr_entry id t a) j u (account_of accounts u) _
            (ctr_rows-all now accounts id t a rows due e later))
      | inr not_due ↦ rw not_due (ctr_rows-all now accounts id t a rows due e later)
    ]

-- The currency transaction report is in falling order of the amounts, and each entry is of a settled
-- USD transfer, credit or debit of at least 10,000 that was submitted within a day, under the account
-- of its source, or of its destination where it has no source.
pub select_ctr_sound :
    (now : ℕ) (db db' : Db) (report : List CtrEntry)
    → select_ctr now db ≡ ok (report, db')
    → IsDescending ctr_amount report × All (Reported now db.accounts db.transactions) report
unfolding select_ctr
select_ctr_sound now db db' report e =
    let rows : List CtrEntry = ctr_rows now db.accounts db.transactions in
    let same : order_desc ctr_amount rows ≡ report = ground arith in
    subst
      (λ report.
        IsDescending ctr_amount report × All (Reported now db.accounts db.transactions) report)
      same
      (
        order_desc-IsDescending ctr_amount rows,
        All-order_desc ctr_amount (Reported now db.accounts db.transactions) rows
            (ctr_rows-Reported now db.accounts db.transactions),
      )

-- Each settled USD transfer, credit or debit of at least 10,000 that was submitted within a day is in
-- the currency transaction report, where the account of its source, or of its destination where it
-- has no source, is there.
pub select_ctr_complete :
    (now : ℕ) (db db' : Db) (report : List CtrEntry) (id : ℕ) (t : TransactionRow)
    (a : ℕ × AccountRow)
    → select_ctr now db ≡ ok (report, db')
    → is_reportable now t ≡ true
    → account_of db.accounts t ≡ some a
    → Occurs (id, t) db.transactions
    → Occurs (ctr_entry id t a) report
unfolding select_ctr
select_ctr_complete now db db' report id t a e due found there =
    let rows : List CtrEntry = ctr_rows now db.accounts db.transactions in
    let same : order_desc ctr_amount rows ≡ report = ground arith in
    subst (Occurs (ctr_entry id t a)) same (
      Occurs-order_desc ctr_amount (ctr_entry id t a) rows
        (ctr_rows-all now db.accounts id t a db.transactions due found there))
