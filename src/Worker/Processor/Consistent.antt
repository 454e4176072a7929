-- ===== src/Worker/Processor/Consistent.antt =====
-- The invariant of the whole database, which every event keeps: the books balance, a transaction has
-- the ledger entries of its settlement exactly when it is settled, and a transfer is between two accounts.
use financial_data_platform.Prelude.{
  ℕ, ⊤, ◌≡◌, ◌++◌, List, [], refl, ap, sym, ◌∙◌, subst, inl, inr, Bool-cases, true, String, some,
  none, arith, ◌==◌, if◌then◌else◌, Result, ok, err,
}
use mathlib.Core.List.{append-nil}
use financial_data_platform.Prelude.Table.{find, set, find-set_self, find-set_ne}
use financial_data_platform.Shared.Domain.{TransactionStatus, pending, settled, failed, reversed}
use financial_data_platform.Shared.Events.{EventEnvelope}
use financial_data_platform.Store.Logic.{Ensures}
use financial_data_platform.Store.Session.{Env, Session}
use financial_data_platform.Store.Tables.{TransactionRow, Db}
use financial_data_platform.Worker.Error.{ProcessError}
use financial_data_platform.Worker.Ledger.Books.{Books, Books-same}
use financial_data_platform.Worker.Ledger.Operations.{
  Leg, entries_of, legs_of, net_change, Change, performed-Change,
}
use financial_data_platform.Worker.Processor.{is_open, process_transaction}
use financial_data_platform.Worker.Processor.Correct.{TwoParties}
use financial_data_platform.Worker.Processor.Effect.{
  Becomes, Settles, settles, Effect, unchanged, settlement, failure, retry, Accepted,
  held_elsewhere, settled_before, settled_now,
}
use financial_data_platform.Worker.Processor.Outcome.{process_transaction-outcome, Fails, Done}

-- What a transaction posts: the destination's credit and the source's debit, each of its amount.
abbrev posted_legs : TransactionRow → List Leg
posted_legs t = legs_of t.transaction_type t.amount t.source_account_id t.dest_account_id

abbrev pub expected_entries : TransactionStatus → TransactionRow → List Leg
expected_entries settled t = posted_legs t
expected_entries reversed t = posted_legs t
expected_entries _ t = []

pub record Consistent (db : Db) : Type 0 where
  pub books : Books db
  pub posted :
      (id : ℕ) (t : TransactionRow)
      → find id db.transactions ≡ some t
      → entries_of id db.ledger_entries ≡ expected_entries t.status t
  pub parties : (id : ℕ) (t : TransactionRow) → find id db.transactions ≡ some t → TwoParties t
  -- `ledger_entries.transaction_id REFERENCES transactions(id)`
  pub unposted : (id : ℕ) → find id db.transactions ≡ none → entries_of id db.ledger_entries ≡ []

-- The invariant is about the accounts, the transactions and the ledger.
pub Consistent-same :
    (db db' : Db)
    → db'.accounts ≡ db.accounts
    → db'.transactions ≡ db.transactions
    → db'.ledger_entries ≡ db.ledger_entries
    → Consistent db
    → Consistent db'
Consistent-same db db' accounts transactions ledger c = record {
  books = Books-same db db' accounts ledger c.books;
  posted = rw (ledger, transactions) c.posted;
  parties = rw transactions c.parties;
  unposted = rw (ledger, transactions) c.unposted;
}

no_entries :
    (s : TransactionStatus) (t : TransactionRow) → is_open s ≡ true → expected_entries s t ≡ []
no_entries s t h = ground arith

module _ (env : Env) (event : EventEnvelope) (db : Db) (c : Consistent db) where
  abbrev id : ℕ
  id = event.aggregate_id

  abbrev with_legs : ℕ → List Leg → List Leg
  with_legs j legs =
      if j == id then legs ++ entries_of j db.ledger_entries else entries_of j db.ledger_entries

  replaced-parties :
      (status : TransactionStatus) (r : TransactionRow) (j : ℕ) (t : TransactionRow)
      → Becomes env event db status r
      → find j (set id r db.transactions) ≡ some t
      → TwoParties t
  replaced-parties status r j t b e = elim (Bool-cases (j == id)) [
    | inl same ↦
        (let row : r ≡ t =
            ground (arith, find-set_self id r b.before db.transactions b.was_there) in
          subst TwoParties row (λ type equal.
            c.parties id b.before b.was_there (sym b.order.same_type ∙ type)
              (sym b.order.same_source ∙ equal ∙ b.order.same_dest)))
    | inr other ↦ c.parties j t (sym (find-set_ne j id r db.transactions other) ∙ e)
  ]

  -- A row that stays without entries.
  replaced-posted :
      (status : TransactionStatus) (r : TransactionRow) (legs : List Leg)
      → Becomes env event db status r
      → expected_entries r.status r ≡ legs
      → (j : ℕ) (t : TransactionRow) → find j (set id r db.transactions) ≡ some t
      → with_legs j legs ≡ expected_entries t.status t
  replaced-posted status r legs b e j t f = ground (
    arith,
    find-set_self id r b.before db.transactions b.was_there,
    find-set_ne j id r db.transactions,
    c.posted id b.before b.was_there,
    c.posted j t,
    no_entries b.before.status b.before b.was_open,
    append-nil legs,
  )

  -- A transaction that is not there is another one.
  replaced-unposted :
      (status : TransactionStatus) (r : TransactionRow) (legs : List Leg)
      → Becomes env event db status r
      → (j : ℕ) → find j (set id r db.transactions) ≡ none
      → with_legs j legs ≡ []
  replaced-unposted status r legs b j f = ground (
    arith,
    find-set_self id r b.before db.transactions b.was_there,
    find-set_ne j id r db.transactions,
    c.unposted j,
  )

  settled-Consistent : (db' : Db) → Settles env event db db' → Consistent db'
  settled-Consistent db' (settles r d b done same) = subst Consistent (sym same) (record {
    books = Books-same d _ refl refl (change.books c.books);
    posted = λ j t f.
        change.entries j
        ∙ replaced-posted settled r (posted_legs r) b (ap (λ s. expected_entries s r) b.now_status)
            j t f;
    parties = λ j t f. replaced-parties settled r j t b f;
    unposted = λ j f. change.entries j ∙ replaced-unposted settled r (posted_legs r) b j f;
  })
    where
      change : Change id (posted_legs r) (net_change r.transaction_type r.amount) db d
      change =
          performed-Change env.now id event.correlation_id r.transaction_type r.amount
            r.source_account_id r.dest_account_id db done

  -- A row that is not settled has no entries, and gets none.
  kept-Consistent :
      (status : TransactionStatus) (r : TransactionRow) (db' : Db)
      → Becomes env event db status r
      → (expected_entries status r ≡ [])
      → db'.accounts ≡ db.accounts
      → db'.ledger_entries ≡ db.ledger_entries
      → db'.transactions ≡ set id r db.transactions
      → Consistent db'
  kept-Consistent status r db' b no_legs accounts ledger transactions = record {
    books = Books-same db db' accounts ledger c.books;
    posted =
        rw (ledger, transactions)
          (λ j t f. ground (
            arith,
            replaced-posted status r [] b (ap (λ s. expected_entries s r) b.now_status ∙ no_legs) j
                t f,
          ));
    parties = rw transactions (λ j t f. replaced-parties status r j t b f);
    unposted =
        rw (ledger, transactions) (λ j f. ground (arith, replaced-unposted status r [] b j f));
  }

  -- Every effect keeps the invariant.
  pub Effect-Consistent : (db' : Db) → Effect env event db db' → Consistent db'
  Effect-Consistent db' (unchanged same) = subst Consistent (sym same) c
  Effect-Consistent db' (settlement s) = settled-Consistent db' s
  Effect-Consistent db' (failure r message b same) =
      subst Consistent (sym same) (kept-Consistent failed r _ b refl refl refl refl)
  Effect-Consistent db' (retry r b same) =
      subst Consistent (sym same) (kept-Consistent pending r _ b refl refl refl refl)

  pub Accepted-Consistent : (db' : Db) → Accepted env event db db' → Consistent db'
  Accepted-Consistent db' (held_elsewhere _ same) = subst Consistent (sym same) c
  Accepted-Consistent db' (settled_before t _ _ same) = subst Consistent (sym same) c
  Accepted-Consistent db' (settled_now s) = settled-Consistent db' s

-- Processing an event, whatever fails on the way, keeps the committed database consistent: the
-- books balance, a transaction has its entries exactly when it is settled or reversed, and the two
-- sides of a transfer differ.
pub process_transaction-Consistent :
    (env : Env) (event : EventEnvelope) (worker_id : String) (s : Session)
    → Consistent s.committed
    → Consistent (process_transaction env event worker_id s).1.committed
process_transaction-Consistent env event worker_id s c =
    by_result (process_transaction env event worker_id s) (
      process_transaction-outcome env event worker_id s.committed s refl
        (c.parties event.aggregate_id))
  where
    by_result :
        (p : Result ProcessError ⊤ × Session)
        → Ensures (Fails env event worker_id s.committed) (Done env event worker_id s.committed) p
        → Consistent p.1.committed
    by_result (ok _, s') done = Accepted-Consistent env event s.committed c s'.committed done
    by_result (err _, s') effect = Effect-Consistent env event s.committed c s'.committed effect
