-- ===== src/Reporting/Exact.antt =====
-- The two listings, by what the rows have to be and not by the queries' own tests.
use financial_data_platform.Prelude.{
  ℕ, ◌+◌, ◌≤◌, ◌<◌, ◌≡◌, ◌≢◌, refl, sym, subst, ap, ◌⊎◌, inl, inr, Bool-cases, Option-cases, true,
  false, some, none, ok, List, [], ◌∷◌, arith, All, length,
}
use financial_data_platform.Prelude.Int.{pos, ◌≤ℤ◌, ◌<ℤ◌}
use financial_data_platform.Prelude.Keyed.{All-map}
use financial_data_platform.Prelude.Table.{Table, find}
use financial_data_platform.Shared.Domain.{
  settled, usd, TransactionType, transfer_type, credit_type, debit_type,
}
use financial_data_platform.Store.Tables.{AccountRow, TransactionRow, LedgerRow, Db}
use financial_data_platform.Reporting.{
  is_high, HighValueEntry, high_value_entry, select_high_value, CtrEntry, is_reportable, ctr_entry,
  select_ctr,
}
use financial_data_platform.Reporting.Listings.{
  high_amount, ctr_amount, FromLedger, Reported, account_of, select_high_value_sound,
  select_high_value_complete, select_ctr_sound, select_ctr_complete,
}
use financial_data_platform.Reporting.Ranks.{Occurs, IsDescending}

-- Every item of a list occurs in it.
All-Occurs : {A : Type 0} (xs : List A) → All (λ x. Occurs x xs) xs
All-Occurs [] = tt
All-Occurs (x ∷ xs) = (
  inl refl,
  All-map (λ y. Occurs y xs) (λ y. Occurs y (x ∷ xs)) xs (λ y h. inr h) (All-Occurs xs),
)

-- At least 10,000, and no more than a day old.
abbrev IsHigh : ℕ → LedgerRow → Type 0
IsHigh now e = (pos 100000000 ≤ℤ e.amount) × (now ≤ e.posted_at + 86400000000)

abbrev IsLow : ℕ → LedgerRow → Type 0
IsLow now e = (e.amount <ℤ pos 100000000) ⊎ (e.posted_at + 86400000000 < now)

abbrev pub IsOfHigh : ℕ → List LedgerRow → HighValueEntry → Type 0
IsOfHigh now es h =
    (e : LedgerRow) × Occurs e es
    × IsHigh now e
    × (h.transaction_id ≡ e.transaction_id)
    × (h.account_id ≡ e.account_id)
    × (h.amount ≡ e.amount)
    × (h.currency ≡ e.currency)
    × (h.posted_at ≡ e.posted_at)

-- A row is low, is in the report, or is left out of a full one that has nothing below it.
abbrev pub IsListed : ℕ → List HighValueEntry → LedgerRow → Type 0
IsListed now report e =
    IsLow now e
    ⊎ (Occurs (high_value_entry e) report
        ⊎ ((length report ≡ 1000) × All (λ h. e.amount ≤ℤ h.amount) report))

FromLedger-IsOfHigh :
    (now : ℕ) (es : List LedgerRow) (h : HighValueEntry) → FromLedger now es h → IsOfHigh now es h
FromLedger-IsOfHigh now es h (e, there, same, high) = (
  e,
  there,
  (ground (arith, high), ground (arith, high)),
  ap (λ h. h.transaction_id) same,
  ap (λ h. h.account_id) same,
  ap (λ h. h.amount) same,
  ap (λ h. h.currency) same,
  ap (λ h. h.posted_at) same,
)

is_high-IsLow : (now : ℕ) (e : LedgerRow) → is_high now e ≡ false → IsLow now e
is_high-IsLow now e low = ground (arith, low)

-- The high-value report has at most 1000 entries, in falling order of their amounts. Each one is of a
-- ledger row of at least 10,000 that was posted within a day, with its transaction, account, amount,
-- currency and time. Each row of the ledger is below 10,000 or older, or is in the report, or the
-- report has 1000 entries and none of them is below the row's amount.
pub select_high_value-exact :
    (now : ℕ) (db db' : Db) (report : List HighValueEntry)
    → select_high_value now db ≡ ok (report, db')
    → (length report ≤ 1000)
      × IsDescending high_amount report
      × All (IsOfHigh now db.ledger_entries) report
      × All (IsListed now report) db.ledger_entries
select_high_value-exact now db db' report e =
    let (short, falling, from) = select_high_value_sound now db db' report e in
    (
      short,
      falling,
      All-map (FromLedger now db.ledger_entries) (IsOfHigh now db.ledger_entries) report
          (FromLedger-IsOfHigh now db.ledger_entries) from,
      All-map (λ r. Occurs r db.ledger_entries) (IsListed now report) db.ledger_entries listed
          (All-Occurs db.ledger_entries),
    )
  where
    listed : (r : LedgerRow) → Occurs r db.ledger_entries → IsListed now report r
    listed r there = elim (Bool-cases (is_high now r)) [
      | inl high ↦ inr (select_high_value_complete now db db' report r e high there)
      | inr low ↦ inl (is_high-IsLow now r low)
    ]

-- A settled transfer, credit or debit in USD of at least 10,000, no more than a day old.
pub record IsDue (now : ℕ) (t : TransactionRow) : Type 0 where
  pub large : pos 100000000 ≤ℤ t.amount
  pub recent : now ≤ t.submitted_at + 86400000000
  pub is_closed : t.status ≡ settled
  pub in_usd : t.currency ≡ usd
  pub of_customer :
      (t.transaction_type ≡ transfer_type)
      ⊎ ((t.transaction_type ≡ credit_type) ⊎ (t.transaction_type ≡ debit_type))

abbrev IsInternal : TransactionType → Type 0
IsInternal type = (type ≢ transfer_type) × (type ≢ credit_type) × (type ≢ debit_type)

abbrev IsNotDue : ℕ → TransactionRow → Type 0
IsNotDue now t =
    (t.amount <ℤ pos 100000000)
    ⊎ ((t.submitted_at + 86400000000 < now)
        ⊎ ((t.status ≢ settled) ⊎ ((t.currency ≢ usd) ⊎ IsInternal t.transaction_type)))

-- The account that a transaction is reported under: the source, or the destination where there is no
-- source.
abbrev IsUnder : ℕ → TransactionRow → Type 0
IsUnder k t =
    (t.source_account_id ≡ some k) ⊎ ((t.source_account_id ≡ none) × (t.dest_account_id ≡ some k))

abbrev pub IsOfDue : ℕ → Table AccountRow → Table TransactionRow → CtrEntry → Type 0
IsOfDue now accounts rows c =
    (t : TransactionRow) × (a : AccountRow) × Occurs (c.transaction_id, t) rows
    × IsDue now t
    × IsUnder c.account_id t
    × (find c.account_id accounts ≡ some a)
    × (c.owner_id ≡ a.owner_id)
    × (c.amount ≡ t.amount)
    × (c.submitted_at ≡ t.submitted_at)

-- A row is not due, is in the report, or has no account to be reported under.
abbrev pub IsFiled : ℕ → Table AccountRow → List CtrEntry → ℕ × TransactionRow → Type 0
IsFiled now accounts report p =
    IsNotDue now p.1
    ⊎ (((k : ℕ) × (a : AccountRow) × IsUnder k p.1
          × (find k accounts ≡ some a)
          × Occurs (ctr_entry p.0 p.1 (k, a)) report)
        ⊎ (((p.1.source_account_id ≡ none) × (p.1.dest_account_id ≡ none))
            ⊎ ((k : ℕ) × IsUnder k p.1 × (find k accounts ≡ none))))

due : (now : ℕ) (t : TransactionRow) → is_reportable now t ≡ true → IsDue now t
due now t e = record {
  large = ground (arith, e);
  recent = ground (arith, e);
  is_closed = ground (arith, e);
  in_usd = ground (arith, e);
  of_customer = ground (arith, e);
}

not_due : (now : ℕ) (t : TransactionRow) → is_reportable now t ≡ false → IsNotDue now t
not_due now t e = ground (arith, e)

under :
    (accounts : Table AccountRow) (t : TransactionRow) (k : ℕ) (a : AccountRow)
    → account_of accounts t ≡ some (k, a)
    → IsUnder k t × (find k accounts ≡ some a)
under accounts t k a e = (ground (arith, e), ground (arith, e))

nowhere :
    (accounts : Table AccountRow) (t : TransactionRow)
    → account_of accounts t ≡ none
    → ((t.source_account_id ≡ none) × (t.dest_account_id ≡ none))
      ⊎ ((k : ℕ) × IsUnder k t × (find k accounts ≡ none))
nowhere accounts t e = elim (Option-cases t.source_account_id) [
  | inl no_source ↦ elim (Option-cases t.dest_account_id) [
    | inl no_dest ↦ inl (no_source, no_dest)
    | inr (k, dest) ↦ inr (k, inr (no_source, dest), ground (arith, e, no_source, dest))
  ]
  | inr (k, source) ↦ inr (k, inl source, ground (arith, e, source))
]

Reported-IsOfDue :
    (now : ℕ) (accounts : Table AccountRow) (rows : Table TransactionRow) (c : CtrEntry)
    → Reported now accounts rows c
    → IsOfDue now accounts rows c
Reported-IsOfDue now accounts rows c (p, (k, a), there, reportable, found, same) =
    let (its, present) = under accounts p.1 k a found in
    subst (IsOfDue now accounts rows) (sym same)
      (p.1, a, there, due now p.1 reportable, its, present, refl, refl, refl)

-- The currency transaction report is in falling order of the amounts. Each entry is of a settled USD
-- transfer, credit or debit of at least 10,000 that was submitted within a day, with its identifier,
-- amount and time, under the account of its source, or of its destination where it has no source,
-- and with that account's owner. Each transaction is not such a one, or is in the report, or has no
-- account to be reported under.
pub select_ctr-exact :
    (now : ℕ) (db db' : Db) (report : List CtrEntry)
    → select_ctr now db ≡ ok (report, db')
    → IsDescending ctr_amount report
      × All (IsOfDue now db.accounts db.transactions) report
      × All (IsFiled now db.accounts report) db.transactions
select_ctr-exact now db db' report e =
    let (falling, from) = select_ctr_sound now db db' report e in
    (
      falling,
      All-map (Reported now db.accounts db.transactions) (IsOfDue now db.accounts db.transactions)
          report (Reported-IsOfDue now db.accounts db.transactions) from,
      All-map (λ p. Occurs p db.transactions) (IsFiled now db.accounts report) db.transactions filed
          (All-Occurs db.transactions),
    )
  where
    filed : (p : ℕ × TransactionRow) → Occurs p db.transactions → IsFiled now db.accounts report p
    filed (id, t) there = elim (Bool-cases (is_reportable now t)) [
      | inr low ↦ inl (not_due now t low)
      | inl high ↦ elim (Option-cases (account_of db.accounts t)) [
        | inl gone ↦ inr (inr (nowhere db.accounts t gone))
        | inr ((k, a), found) ↦
            (let (its, present) = under db.accounts t k a found in
              inr (
                inl (
                  k,
                  a,
                  its,
                  present,
                  select_ctr_complete now db db' report id t (k, a) e high found there,
                )))
      ]
    ]
