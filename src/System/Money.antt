-- ===== src/System/Money.antt =====
-- The money of the platform: what the accounts hold against what the settled transactions moved.
use financial_data_platform.Prelude.{◌≡◌, refl, sym, ap, ◌∙◌, subst, true, arith}
use financial_data_platform.Prelude.Int.{ℤ, pos, ◌+ℤ◌, int_laws}
use financial_data_platform.Prelude.Sum.{summed, summed-set, summed-append}
use financial_data_platform.Prelude.Table.{Table, set}
use financial_data_platform.Shared.Domain.{
  TransactionType, TransactionStatus, pending, settled, failed, reversed,
}
use financial_data_platform.Shared.Events.{EventEnvelope}
use financial_data_platform.Store.Session.{Env}
use financial_data_platform.Store.Tables.{TransactionRow, Db}
use financial_data_platform.Ingestion.Accounts.{new_account}
use financial_data_platform.Ingestion.Transactions.{new_transaction}
use financial_data_platform.Worker.Ledger.Operations.{net_change, performed-Change}
use financial_data_platform.Worker.Ledger.Total.{total}
use financial_data_platform.Worker.Processor.{is_open}
use financial_data_platform.Worker.Processor.Effect.{Becomes, Settles, settles}
use financial_data_platform.Prelude.{List, ℕ, Result}
use financial_data_platform.Shared.Error.{SerdeError}
use financial_data_platform.Shared.Events.{EventEnvelope}
use financial_data_platform.System.{System, Reaches, Safe}
use financial_data_platform.System.Commits.{
  Commit, accepting, opening_account, publishing, settling, failing, waiting, burying, Commits,
  done, then, Reaches-Commits,
}

-- What a transaction has brought into the platform's accounts: the amount of a settled credit, less
-- that of a settled debit or fee.
abbrev pub brought_by : TransactionStatus → TransactionType → ℤ → ℤ
brought_by settled type amount = net_change type amount
brought_by reversed type amount = net_change type amount
brought_by _ type amount = pos 0

abbrev pub brought : TransactionRow → ℤ
brought t = brought_by t.status t.transaction_type t.amount

abbrev pub flow : Table TransactionRow → ℤ
flow = summed brought

-- The balances and the flow move together.
pub record Matches (x y : Db) : Type 0 where
  pub moved_alike :
      total y.accounts +ℤ flow x.transactions ≡ total x.accounts +ℤ flow y.transactions

Matches-same : (x y : Db) → y.accounts ≡ x.accounts → y.transactions ≡ x.transactions → Matches x y
Matches-same x y accounts transactions = record { moved_alike = rw (accounts, transactions) refl }

Matches-trans : (x y z : Db) → Matches x y → Matches y z → Matches x z
Matches-trans x y z h k = record {
  moved_alike =
      chained (total x.accounts) (total y.accounts) (total z.accounts) (flow x.transactions)
        (flow y.transactions) (flow z.transactions) h.moved_alike k.moved_alike;
}
  where
    chained : (a b c p q r : ℤ) → b +ℤ p ≡ a +ℤ q → c +ℤ q ≡ b +ℤ r → c +ℤ p ≡ a +ℤ r
    chained a b c p q r h k = grind int_laws

open_brings :
    (s : TransactionStatus) (type : TransactionType) (amount : ℤ)
    → is_open s ≡ true
    → brought_by s type amount ≡ pos 0
open_brings s type amount h = ground arith

module _ (env : Env) (event : EventEnvelope) (status : TransactionStatus) (r : TransactionRow)
    (db : Db) (b : Becomes env event db status r) where
  -- The open row brought nothing.
  flow-replaced :
      flow (set event.aggregate_id r db.transactions)
      ≡ flow db.transactions +ℤ brought_by status r.transaction_type r.amount
  flow-replaced =
      dropped _ _ (brought b.before) _
        (open_brings b.before.status b.before.transaction_type b.before.amount b.was_open)
        (summed-set brought event.aggregate_id r b.before db.transactions b.was_there
          ∙ ap (λ s. flow db.transactions +ℤ brought_by s r.transaction_type r.amount) b.now_status)
    where
      dropped : (a b c d : ℤ) → c ≡ pos 0 → a +ℤ c ≡ b +ℤ d → a ≡ b +ℤ d
      dropped a b c d h k = grind int_laws

settled-Matches :
    (env : Env) (event : EventEnvelope) (db db' : Db) → Settles env event db db' → Matches db db'
settled-Matches env event db db' (settles r d b worked same) =
    subst (Matches db) (sym same) (record {
      moved_alike =
          alike (total d.accounts) (total db.accounts) (flow db.transactions) _
            (flow (set event.aggregate_id r db.transactions))
            (performed-Change env.now event.aggregate_id event.correlation_id r.transaction_type
              r.amount r.source_account_id r.dest_account_id db worked).sum
            (flow-replaced env event settled r db b);
    })
  where
    alike : (a b p n q : ℤ) → a ≡ b +ℤ n → q ≡ p +ℤ n → a +ℤ p ≡ b +ℤ q
    alike a b p n q h k = grind int_laws

-- A row that is not settled brings nothing either.
kept-Matches :
    (env : Env) (event : EventEnvelope) (status : TransactionStatus) (r : TransactionRow) (db : Db)
    → Becomes env event db status r
    → brought_by status r.transaction_type r.amount ≡ pos 0
    → Matches db (record db { transactions = set event.aggregate_id r db.transactions })
kept-Matches env event status r db b nothing = record {
  moved_alike =
      alike (total db.accounts) (flow db.transactions) _ _ nothing
        (flow-replaced env event status r db b);
}
  where
    alike : (a p n q : ℤ) → n ≡ pos 0 → q ≡ p +ℤ n → a +ℤ p ≡ a +ℤ q
    alike a p n q h k = grind int_laws

no_more : (a b : ℤ) → a ≡ b +ℤ pos 0 → a ≡ b
no_more a b h = grind int_laws

module _ (to_vec : EventEnvelope → Result SerdeError (List ℕ)) where
  Commit-Matches : (x y : System) → Commit to_vec x y → Matches x.db y.db
  Commit-Matches x y (accepting env draws key hash body c db log can free) = record {
    moved_alike =
        ap (λ f. total db.accounts +ℤ f)
          (sym (
            no_more _ _ (
              summed-append brought draws.transaction_id (new_transaction env.now key hash body)
                db.transactions)));
  }
  Commit-Matches x y (opening_account env id body db log can) = record {
    moved_alike =
        ap (λ f. f +ℤ flow db.transactions)
          (no_more _ _ (summed-append (λ a. a.balance) id (new_account env.now body) db.accounts));
  }
  Commit-Matches x y (publishing send locked_elsewhere now db db' log log' (frame, _) _) =
      Matches-same db db' (ap (λ d. d.accounts) frame) (ap (λ d. d.transactions) frame)
  Commit-Matches x y (settling env event db db' log h) = settled-Matches env event db db' h
  Commit-Matches x y (failing env event r message db log b) = record {
    moved_alike = (kept-Matches env event failed r db b refl).moved_alike;
  }
  Commit-Matches x y (waiting env event r db log b) = kept-Matches env event pending r db b refl
  Commit-Matches x y (burying row db log) = Matches-same db _ refl refl

  Commits-Matches : (x y : System) → Commits to_vec x y → Matches x.db y.db
  Commits-Matches x y (done _) = Matches-same x.db x.db refl refl
  Commits-Matches x z (then _ y _ first rest) =
      Matches-trans x.db y.db z.db (Commit-Matches x y first) (Commits-Matches y z rest)

  -- From a safe state, the money in all accounts changes by exactly what the transactions that are
  -- settled in between bring: the amount of each credit, less the amount of each debit and fee, and
  -- nothing for a transfer. No account opened, no retry, no failure and no redelivery makes or loses
  -- any.
  pub Reaches-flow :
      (x y : System)
      → Reaches to_vec x y
      → Safe to_vec x
      → total y.db.accounts +ℤ flow x.db.transactions
        ≡ total x.db.accounts +ℤ flow y.db.transactions
  Reaches-flow x y steps h = (Commits-Matches x y (Reaches-Commits to_vec x y steps h)).moved_alike
