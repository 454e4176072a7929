-- ===== src/Worker/Ledger/Books.antt =====
-- The books of the platform: every account's balance is the one that its ledger entries give, the
-- entries of an account are numbered without a gap, and each one carries the balance after it.
use financial_data_platform.Prelude.{
  ℕ, suc, ◌+◌, ⊤, ◌≡◌, refl, sym, subst, some, none, List, [], ◌∷◌, arith, ◌==◌, if◌then◌else◌,
  true,
}
use financial_data_platform.Prelude.Int.{ℤ, pos, ◌+ℤ◌, ◌-ℤ◌, ◌<ℤ◌, ◌≤ℤ◌}
use financial_data_platform.Prelude.Table.{find, find-set_self, find-set_ne}
use financial_data_platform.Store.Tables.{
  AccountRow, EntryType, debit_entry, credit_entry, LedgerRow, Db,
}
use financial_data_platform.Store.Statements.{max_sequence}
use financial_data_platform.Worker.Ledger.{ledger_balance}
use financial_data_platform.Worker.Postings.{with_balance}
use financial_data_platform.Worker.Postings.Spec.{post-eq-some, post, posted, moved, can_post}

abbrev pub count_entries : ℕ → List LedgerRow → ℕ
count_entries id [] = 0
count_entries id (e ∷ es) =
    let rest = count_entries id es in if e.account_id == id then suc rest else rest

abbrev pub IsSound : List LedgerRow → Type 0
IsSound [] = ⊤
IsSound (e ∷ es) =
    (pos 0 <ℤ e.amount)
    × (e.sequence_num ≡ count_entries e.account_id es + 1)
    × (e.running_balance ≡ ledger_balance e.account_id (e ∷ es))
    × IsSound es

pub record Books (db : Db) : Type 0 where
  pub sound : IsSound db.ledger_entries
  pub balanced :
      (id : ℕ) (a : AccountRow)
      → find id db.accounts ≡ some a
      → ledger_balance id db.ledger_entries ≡ a.balance
  pub non_negative : (id : ℕ) (a : AccountRow) → find id db.accounts ≡ some a → pos 0 ≤ℤ a.balance
  -- An account that is not there has no money in the ledger.
  pub unopened : (id : ℕ) → find id db.accounts ≡ none → ledger_balance id db.ledger_entries ≡ pos 0

-- The books are those of the accounts and the ledger.
pub Books-same :
    (db db' : Db)
    → db'.accounts ≡ db.accounts
    → db'.ledger_entries ≡ db.ledger_entries
    → Books db
    → Books db'
Books-same db db' accounts ledger b = record {
  sound = rw ledger b.sound;
  balanced = rw (ledger, accounts) b.balanced;
  non_negative = rw accounts b.non_negative;
  unopened = rw (ledger, accounts) b.unopened;
}

-- Numbers without a gap: the greatest is the number of entries.
pub max_sequence-count :
    (id : ℕ) (es : List LedgerRow) → IsSound es → max_sequence id es ≡ count_entries id es
unfolding max_sequence
max_sequence-count id [] h = refl
max_sequence-count id (e ∷ es) h = ground (arith, max_sequence-count id es h.3)

moved_nonneg :
    (kind : EntryType) (amount : ℤ) (a : AccountRow)
    → pos 0 ≤ℤ a.balance
    → pos 0 <ℤ amount
    → can_post kind amount a ≡ true
    → pos 0 ≤ℤ moved kind a.balance amount
unfolding ◌+ℤ◌ ◌-ℤ◌
moved_nonneg debit_entry amount a h p fits = ground arith
moved_nonneg credit_entry amount a h p fits = ground arith

module _ (now transaction_id : ℕ) (kind : EntryType) (id : ℕ) (amount : ℤ) (a : AccountRow)
    (db : Db) (books : Books db) (found : find id db.accounts ≡ some a)
    (fits : can_post kind amount a ≡ true) (positive : pos 0 <ℤ amount) where
  abbrev next_db : Db
  next_db = posted now transaction_id id kind amount a db

  abbrev new_row : AccountRow
  new_row = with_balance (moved kind a.balance amount) now a

  posted-IsSound : IsSound next_db.ledger_entries
  unfolding ledger_balance
  posted-IsSound = ground (
    arith,
    max_sequence-count id db.ledger_entries books.sound,
    books.balanced id a found,
    books.sound,
  )

  posted-balanced :
      (j : ℕ) (b : AccountRow)
      → find j next_db.accounts ≡ some b
      → ledger_balance j next_db.ledger_entries ≡ b.balance
  unfolding ledger_balance
  posted-balanced j b e = ground (
    arith,
    find-set_self id new_row a db.accounts found,
    find-set_ne j id new_row db.accounts,
    books.balanced id a found,
    books.balanced j b,
  )

  posted-non_negative :
      (j : ℕ) (b : AccountRow) → find j next_db.accounts ≡ some b → pos 0 ≤ℤ b.balance
  posted-non_negative j b e = ground (
    arith,
    moved_nonneg kind amount a,
    find-set_self id new_row a db.accounts found,
    find-set_ne j id new_row db.accounts,
    books.non_negative id a found,
    books.non_negative j b,
  )

  posted-unopened :
      (j : ℕ) → find j next_db.accounts ≡ none → ledger_balance j next_db.ledger_entries ≡ pos 0
  unfolding ledger_balance
  posted-unopened j e = ground (
    arith,
    find-set_self id new_row a db.accounts found,
    find-set_ne j id new_row db.accounts,
    books.unopened j,
  )

  posted-Books : Books next_db
  posted-Books = record {
    sound = posted-IsSound;
    balanced = posted-balanced;
    non_negative = posted-non_negative;
    unopened = posted-unopened;
  }

-- A posting keeps the books.
pub post-Books :
    (now transaction_id : ℕ) (kind : EntryType) (id : ℕ) (amount : ℤ) (db : Db) {db' : Db}
    → Books db
    → post now transaction_id kind id amount db ≡ some db'
    → Books db'
post-Books now transaction_id kind id amount db books e =
    let (a, found, fits, positive, same) = post-eq-some now transaction_id kind id amount db e in
    subst Books (sym same)
      (posted-Books now transaction_id kind id amount a db books found fits positive)
