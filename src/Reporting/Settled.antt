-- ===== src/Reporting/Settled.antt =====
-- What the processing of a transaction changes in the daily summary.
use financial_data_platform.Prelude.{
  ℕ, suc, ◌≡◌, refl, sym, ap, ◌∙◌, inl, inr, Bool, Bool-cases, true, false, some, String, List, [],
  ◌∷◌, arith, ◌==◌, ok,
}
use financial_data_platform.Prelude.Int.{ℤ, pos}
use financial_data_platform.Prelude.Table.{Table, find, set}
use financial_data_platform.Shared.Domain.{settled, failed}
use financial_data_platform.Shared.Events.{EventEnvelope}
use financial_data_platform.Store.Session.{Env, Session}
use financial_data_platform.Store.Tables.{TransactionRow, Db}
use financial_data_platform.Reporting.Groups.{
  currency_code, type_code, sum_of, count_where, group_by,
}
use financial_data_platform.Reporting.{
  Calendar, DailySummary, is_settled, is_failed, daily, summarise, select_summary,
}
use financial_data_platform.Worker.Processor.{is_open, process_transaction}
use financial_data_platform.Worker.Processor.Effect.{Becomes, Settles, settles}
use financial_data_platform.Worker.Processor.Settle.{process_transaction-Settles}
use financial_data_platform.Worker.Processor.Succeed.{Quiet}
use financial_data_platform.Worker.Processor.Undisturbed.{Ready}

module _ (calendar : Calendar) (date id : ℕ) (old new : TransactionRow)
    (same_time : new.submitted_at ≡ old.submitted_at) where
  abbrev before : Table TransactionRow → List TransactionRow
  before t = daily calendar date t

  abbrev after : Table TransactionRow → List TransactionRow
  after t = daily calendar date (set id new t)

  -- Where the replaced row counts the same, so does the day.
  group_by-set :
      {K : Type 0} (code : K → ℕ) (key : TransactionRow → K) (value : TransactionRow → ℤ)
      (t : Table TransactionRow)
      → find id t ≡ some old
      → key new ≡ key old
      → value new ≡ value old
      → group_by code key value (after t) ≡ group_by code key value (before t)
  unfolding find set
  group_by-set code key value [] there k v = absurd (cc)
  group_by-set code key value ((j, r) ∷ t) there k v = elim (Bool-cases (j == id)) [
    | inl same ↦
        (let it : r ≡ old = ground (arith, there, same) in
          ground (arith, same, it, same_time, k, v))
    | inr other ↦
        (let next : find id t ≡ some old = ground (arith, other, there) in
          ground (arith, other, group_by-set code key value t next k v))
  ]

  sum_of-set :
      (value : TransactionRow → ℤ) (t : Table TransactionRow)
      → find id t ≡ some old
      → value new ≡ value old
      → sum_of value (after t) ≡ sum_of value (before t)
  unfolding find set
  sum_of-set value [] there v = absurd (cc)
  sum_of-set value ((j, r) ∷ t) there v = elim (Bool-cases (j == id)) [
    | inl same ↦
        (let it : r ≡ old = ground (arith, there, same) in ground (arith, same, it, same_time, v))
    | inr other ↦
        (let next : find id t ≡ some old = ground (arith, other, there) in
          ground (arith, other, sum_of-set value t next v))
  ]

  count_where-set :
      (test : TransactionRow → Bool) (t : Table TransactionRow)
      → find id t ≡ some old
      → test new ≡ test old
      → count_where test (after t) ≡ count_where test (before t)
  unfolding find set
  count_where-set test [] there v = absurd (cc)
  count_where-set test ((j, r) ∷ t) there v = elim (Bool-cases (j == id)) [
    | inl same ↦
        (let it : r ≡ old = ground (arith, there, same) in ground (arith, same, it, same_time, v))
    | inr other ↦
        (let next : find id t ≡ some old = ground (arith, other, there) in
          ground (arith, other, count_where-set test t next v))
  ]

  -- Where it begins to count, the day has one more.
  count_where-more :
      (test : TransactionRow → Bool) (t : Table TransactionRow)
      → find id t ≡ some old
      → (calendar.date_of old.submitted_at == date) ≡ true
      → test old ≡ false
      → test new ≡ true
      → count_where test (after t) ≡ suc (count_where test (before t))
  unfolding find set
  count_where-more test [] there today was_out is_in = absurd (cc)
  count_where-more test ((j, r) ∷ t) there today was_out is_in = elim (Bool-cases (j == id)) [
    | inl same ↦
        (let it : r ≡ old = ground (arith, there, same) in
          ground (arith, same, it, same_time, today, was_out, is_in))
    | inr other ↦
        (let next : find id t ≡ some old = ground (arith, other, there) in
          ground (arith, other, today, count_where-more test t next today was_out is_in))
  ]

-- The report of a date, which `select_summary` answers.
abbrev pub summary : Calendar → ℕ → Db → DailySummary
summary calendar date db = summarise (calendar.date_text date) (daily calendar date db.transactions)

open_unsettled : (t : TransactionRow) → is_open t.status ≡ true → is_settled t ≡ false
open_unsettled t h = ground (arith, h)

open_unfailed : (t : TransactionRow) → is_open t.status ≡ true → is_failed t ≡ false
open_unfailed t h = ground (arith, h)

module _ (calendar : Calendar) (date : ℕ) (env : Env) (event : EventEnvelope) (r : TransactionRow)
    (db : Db) (b : Becomes env event db settled r) where
  abbrev id : ℕ
  id = event.aggregate_id

  replaced-summary :
      (calendar.date_of b.before.submitted_at == date) ≡ true
      → summarise (calendar.date_text date) (daily calendar date (set id r db.transactions))
        ≡ record (summary calendar date db) {
          settled_count = suc (summary calendar date db).settled_count;
        }
  unfolding summarise
  replaced-summary today =
      let o = b.order in
      rw
        (
          count_where-set calendar date id b.before r o.same_submission (λ _. true) db.transactions
              b.was_there refl,
          sum_of-set calendar date id b.before r o.same_submission (λ t. t.amount) db.transactions
              b.was_there o.same_amount,
          count_where-more calendar date id b.before r o.same_submission is_settled db.transactions
              b.was_there today (open_unsettled b.before b.was_open)
              (ap (λ s. elim s as (λ _. Bool) [ settled ↦ true | _ ↦ false ]) b.now_status),
          count_where-set calendar date id b.before r o.same_submission is_failed db.transactions
              b.was_there
              (ap (λ s. elim s as (λ _. Bool) [ failed ↦ true | _ ↦ false ]) b.now_status
                ∙ sym (open_unfailed b.before b.was_open)),
          group_by-set calendar date id b.before r o.same_submission currency_code (λ t. t.currency)
              (λ t. t.amount) db.transactions b.was_there o.same_currency o.same_amount,
          group_by-set calendar date id b.before r o.same_submission type_code
              (λ t. t.transaction_type) (λ _. pos 1) db.transactions b.was_there o.same_type refl,
        )
        refl

-- Where nothing interferes, the processing of an event for an open transaction whose order can be
-- carried out changes the report of the date on which it was submitted in one thing: one more
-- transaction is settled. The number of transactions, the volume, the failures and the sums by
-- currency and by type are as before.
pub process_transaction-summary :
    (calendar : Calendar) (env : Env) (event : EventEnvelope) (worker_id : String)
    (t : TransactionRow) (s : Session)
    → Quiet env
    → find event.aggregate_id s.committed.transactions ≡ some t
    → Ready env t s.committed
    → let date = calendar.date_of t.submitted_at in
      let before = s.committed in
      let after = (process_transaction env event worker_id s).1.committed in
      select_summary calendar date after
      ≡ ok (
        record (summary calendar date before) {
          settled_count = suc (summary calendar date before).settled_count;
        },
        after,
      )
unfolding select_summary
process_transaction-summary calendar env event worker_id t s quiet there ready =
    ap (λ m. ok (m, (process_transaction env event worker_id s).1.committed))
      (by_settlement _ (process_transaction-Settles env event worker_id t s quiet there ready).1)
  where
    by_settlement :
        (db' : Db)
        → Settles env event s.committed db'
        → let date = calendar.date_of t.submitted_at in
          summary calendar date db' ≡ record (summary calendar date s.committed) {
            settled_count = suc (summary calendar date s.committed).settled_count;
          }
    by_settlement db' (settles r d b worked same) =
        let it : b.before ≡ t = ground (arith, b.was_there, there) in
        let today : (calendar.date_of b.before.submitted_at == calendar.date_of t.submitted_at)
            ≡ true =
          rw it (ground arith) in
        ap (summary calendar (calendar.date_of t.submitted_at)) same
        ∙ replaced-summary calendar (calendar.date_of t.submitted_at) env event r s.committed b
            today
