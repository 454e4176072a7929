-- ===== src/Store/Inserts.antt =====
-- The statements that add rows, with the constraints of migrations/001_initial_schema.sql.
use financial_data_platform.Prelude.{
  ℕ, ⊤, Bool, true, false, not, ◌&&◌, String, Option, none, some, [], ◌∷◌, ok, err, if◌then◌else◌,
}
use financial_data_platform.Prelude.Int.{pos, ltb_ℤ}
use financial_data_platform.Prelude.Table.{Table, find, append}
use financial_data_platform.Shared.Domain.{TransactionStatus, reversed}
use financial_data_platform.Shared.Fault.{same_text}
use financial_data_platform.Shared.Error.{database}
use financial_data_platform.Store.Statements.{Statement, fits_numeric}
use financial_data_platform.Store.Tables.{AccountRow, TransactionRow, OutboxRow, DeadLetterRow, Db}

abbrev pub is_reversed : TransactionStatus → Bool
is_reversed reversed = true
is_reversed _ = false

-- `idempotency_key = … AND status != 'REVERSED'`
abbrev pub claims : String → TransactionRow → Bool
claims key t = same_text t.idempotency_key key && not (is_reversed t.status)

unfoldable pub find_claim : String → Table TransactionRow → Option (ℕ × TransactionRow)
find_claim key [] = none
find_claim key ((id, t) ∷ rows) = if claims key t then some (id, t) else find_claim key rows

-- `REFERENCES accounts(id)`, for a column that may be null.
abbrev pub refers : Option ℕ → Table AccountRow → Bool
refers none accounts = true
refers (some id) accounts = elim (find id accounts) [ none ↦ false | some _ ↦ true ]

abbrev pub is_absent {ℓ} : {V : Type ℓ} → Option V → Bool
is_absent none = true
is_absent (some _) = false

-- The checks on a new row of `transactions`, the key's index aside.
abbrev pub admits : ℕ → TransactionRow → Db → Bool
admits id t db =
    is_absent (find id db.transactions)
    && (ltb_ℤ (pos 0) t.amount
        && (fits_numeric t.amount
            && (refers t.source_account_id db.accounts && refers t.dest_account_id db.accounts)))

-- `INSERT INTO transactions … ON CONFLICT (idempotency_key) WHERE status != 'REVERSED' DO NOTHING
-- RETURNING …`: no row where the key is claimed. The key is tested
-- first; PostgreSQL reports an amount that a column or a check refuses before it, which here is an
-- error that the environment gives the statement.
unfoldable pub insert_transaction : ℕ → TransactionRow → Statement (Option (ℕ × TransactionRow))
unfolding find_claim
insert_transaction id t db = elim (find_claim t.idempotency_key db.transactions) [
  | some _ ↦ ok (none, db)
  | none ↦
      if admits id t db
      then ok (some (id, t), record db { transactions = append id t db.transactions })
      else err (database "new row for transactions violates a constraint")
]

-- `SELECT … FROM transactions WHERE idempotency_key = … AND status != 'REVERSED'`
unfoldable pub select_claim : String → Statement (Option (ℕ × TransactionRow))
select_claim key db = ok (find_claim key db.transactions, db)

unfoldable pub insert_outbox : ℕ → OutboxRow → Statement ⊤
insert_outbox id row db =
    if is_absent (find id db.outbox_events)
    then ok (tt, record db { outbox_events = append id row db.outbox_events })
    else err (database "duplicate key value violates unique constraint")

-- `external_id TEXT NOT NULL UNIQUE`
unfoldable pub external_id_taken : String → Table AccountRow → Bool
external_id_taken key [] = false
external_id_taken key ((_, a) ∷ rows) =
    if same_text a.external_id key then true else external_id_taken key rows

unfoldable pub insert_account : ℕ → AccountRow → Statement ⊤
unfolding external_id_taken
insert_account id a db =
    if is_absent (find id db.accounts) && not (external_id_taken a.external_id db.accounts)
    then ok (tt, record db { accounts = append id a db.accounts })
    else err (database "duplicate key value violates unique constraint")

unfoldable pub insert_dead_letter : DeadLetterRow → Statement ⊤
insert_dead_letter row db = ok (tt, record db { dead_letter_queue = row ∷ db.dead_letter_queue })
