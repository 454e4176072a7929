-- ===== src/Worker/Postings/Spec.antt =====
-- What the business logic of the processor promises, without statements, errors or locks: a posting
-- moves one account and adds one ledger entry, and an operation is one or two postings.
use financial_data_platform.Prelude.{
  ℕ, ◌+◌, ◌≡◌, arith, true, inl, inr, Option-cases, Bool, not, ◌&&◌, Option, none, some, ◌∷◌,
  if◌then◌else◌,
}
use financial_data_platform.Prelude.Int.{ℤ, pos, ◌+ℤ◌, ◌-ℤ◌, ◌<ℤ◌, ltb_ℤ}
use financial_data_platform.Prelude.Table.{find, set}
use financial_data_platform.Shared.Domain.{
  TransactionType, credit_type, debit_type, transfer_type, fee_type,
}
use financial_data_platform.Store.Tables.{
  AccountRow, EntryType, debit_entry, credit_entry, LedgerRow, AuditState, settled_state, Db,
}
use financial_data_platform.Store.Statements.{max_sequence}
use financial_data_platform.Worker.Postings.{with_balance}

abbrev pub moved : EntryType → ℤ → ℤ → ℤ
moved debit_entry balance amount = balance -ℤ amount
moved credit_entry balance amount = balance +ℤ amount

-- An account takes part only while it is active, and pays only what it has.
abbrev pub can_post : EntryType → ℤ → AccountRow → Bool
can_post debit_entry amount a = a.is_active && not (ltb_ℤ a.balance amount)
can_post credit_entry amount a = a.is_active

abbrev pub entry_of : (now transaction_id id : ℕ) → EntryType → ℤ → AccountRow → Db → LedgerRow
entry_of now transaction_id id kind amount a db = record {
  transaction_id = transaction_id;
  account_id = id;
  entry_type = kind;
  amount = amount;
  currency = a.currency;
  running_balance = moved kind a.balance amount;
  posted_at = now;
  sequence_num = max_sequence id db.ledger_entries + 1;
}

abbrev pub posted : (now transaction_id id : ℕ) → EntryType → ℤ → AccountRow → Db → Db
posted now transaction_id id kind amount a db = record db {
  accounts = set id (with_balance (moved kind a.balance amount) now a) db.accounts;
  ledger_entries = entry_of now transaction_id id kind amount a db ∷ db.ledger_entries;
}

unfoldable pub post : (now transaction_id : ℕ) → EntryType → ℕ → ℤ → Db → Option Db
post now transaction_id kind id amount db = elim (find id db.accounts) [
  | none ↦ none
  | some a ↦
      if can_post kind amount a && ltb_ℤ (pos 0) amount
      then some (posted now transaction_id id kind amount a db)
      else none
]

-- A posting that goes through has found an active account that can pay, and a positive amount.
pub post-eq-some :
    (now transaction_id : ℕ) (kind : EntryType) (id : ℕ) (amount : ℤ) (db : Db) {db' : Db}
    → post now transaction_id kind id amount db ≡ some db'
    → (a : AccountRow) × (find id db.accounts ≡ some a)
      × (can_post kind amount a ≡ true)
      × (pos 0 <ℤ amount)
      × (db' ≡ posted now transaction_id id kind amount a db)
unfolding post
post-eq-some now transaction_id kind id amount db e = elim (Option-cases (find id db.accounts)) [
  | inl missing ↦ absurd (ground arith)
  | inr (a, found) ↦ (a, found, ground arith, ground arith, ground arith)
]

-- The audit row of a settlement goes on top.
abbrev pub audited : (now transaction_id correlation_id : ℕ) → AuditState → Db → Db
audited now transaction_id correlation_id state db = record db {
  audit_log =
      record {
        entity_type = "Transaction";
        entity_id = transaction_id;
        action = "SETTLED";
        old_state = none;
        new_state = state;
        actor_id = "worker";
        actor_type = "WORKER";
        correlation_id = correlation_id;
        occurred_at = now;
      }
      ∷ db.audit_log;
}

abbrev pub closed : (now transaction_id correlation_id : ℕ) → AuditState → Option Db → Option Db
closed now id c state none = none
closed now id c state (some db) = some (audited now id c state db)

-- The source pays, then the destination receives.
abbrev pub both_posted : (now transaction_id : ℕ) → ℤ → ℕ → ℕ → Db → Option Db
both_posted now id amount j k db = elim (post now id debit_entry j amount db) [
  | none ↦ none
  | some db' ↦ post now id credit_entry k amount db'
]

-- A credit is one posting to the destination, a debit one from the source, and a transfer the
-- source's posting and then the destination's.
module _ (now transaction_id correlation_id : ℕ) (amount : ℤ) where
  unfoldable pub credited : Option ℕ → Db → Option Db
  credited none db = none
  credited (some k) db =
      closed now transaction_id correlation_id (settled_state "CREDIT" amount none (some k))
        (post now transaction_id credit_entry k amount db)

  unfoldable pub debited : Option ℕ → Db → Option Db
  debited none db = none
  debited (some k) db =
      closed now transaction_id correlation_id (settled_state "DEBIT" amount (some k) none)
        (post now transaction_id debit_entry k amount db)

  unfoldable pub transferred : Option ℕ → Option ℕ → Db → Option Db
  transferred none dest db = none
  transferred (some j) none db = none
  transferred (some j) (some k) db =
      closed now transaction_id correlation_id (settled_state "TRANSFER" amount (some j) (some k))
        (both_posted now transaction_id amount j k db)

-- What a transaction of each type does to the books; two types are never processed.
unfoldable pub performed :
    (now transaction_id correlation_id : ℕ)
    → TransactionType
    → ℤ
    → (source dest : Option ℕ) → Db
    → Option Db
performed now id c transfer_type amount source dest db = transferred now id c amount source dest db
performed now id c credit_type amount source dest db = credited now id c amount dest db
performed now id c debit_type amount source dest db = debited now id c amount source db
performed now id c fee_type amount source dest db = debited now id c amount source db
performed now id c other amount source dest db = none
