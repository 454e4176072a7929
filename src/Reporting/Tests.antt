-- ===== src/Reporting/Tests.antt =====
-- The theorems about the reports at one day's rows.
use financial_data_platform.Prelude.{◌≤◌, ◌≡◌, refl, none, some, List, [], ◌∷◌, ok, All, length}
use financial_data_platform.Prelude.Int.{pos, ◌+ℤ◌}
use financial_data_platform.Prelude.Table.{find}
use financial_data_platform.Shared.Domain.{settled, pending, credit_type, transfer_type, usd}
use financial_data_platform.Store.Tables.{TransactionRow, LedgerRow, Db}
use financial_data_platform.Worker.Tests.{account, order, small_db, first_entry}
use financial_data_platform.Reporting.{
  summarise, select_summary, Calendar, DailySummary, HighValueEntry, high_value_entry,
  select_high_value, CtrEntry, ctr_entry, select_ctr,
}
use financial_data_platform.Reporting.Laws.{Counted, select_summary-counts}
use financial_data_platform.Reporting.Listings.{high_amount, ctr_amount}
use financial_data_platform.Reporting.Exact.{
  IsOfHigh, IsListed, IsOfDue, IsFiled, select_high_value-exact, select_ctr-exact,
}
use financial_data_platform.Reporting.Ranks.{IsDescending}

abbrev large : TransactionRow
large = order credit_type settled (pos 200000000) none (some 1)

abbrev large_entry : LedgerRow
large_entry = record first_entry { amount = pos 200000000 }

abbrev large_db : Db
large_db = record small_db {
  transactions = (10, large) ∷ [];
  ledger_entries = large_entry ∷ first_entry ∷ [];
}

abbrev high_report : List HighValueEntry
high_report = high_value_entry large_entry ∷ []

high_selected : select_high_value 7 large_db ≡ ok (high_report, large_db)
unfolding select_high_value
high_selected = refl

select_high_value-exact_example :
    (length high_report ≤ 1000)
    × IsDescending high_amount high_report
    × All (IsOfHigh 7 large_db.ledger_entries) high_report
    × All (IsListed 7 high_report) large_db.ledger_entries
select_high_value-exact_example =
    select_high_value-exact 7 large_db large_db high_report high_selected

abbrev ctr_report : List CtrEntry
ctr_report = ctr_entry 10 large (1, account (pos 500000)) ∷ []

ctr_selected : select_ctr 7 large_db ≡ ok (ctr_report, large_db)
unfolding select_ctr find
ctr_selected = refl

select_ctr-exact_example :
    IsDescending ctr_amount ctr_report
    × All (IsOfDue 7 large_db.accounts large_db.transactions) ctr_report
    × All (IsFiled 7 large_db.accounts ctr_report) large_db.transactions
select_ctr-exact_example = select_ctr-exact 7 large_db large_db ctr_report ctr_selected

-- Every time is on the same day.
abbrev one_day : Calendar
one_day = record { date_of = λ _. 0; date_text = λ _. "today" }

abbrev day_db : Db
day_db = record large_db {
  transactions =
      (10, large) ∷ (11, order transfer_type pending (pos 300000) (some 1) (some 2)) ∷ [];
}

abbrev day_summary : DailySummary
day_summary = record {
  date = "today";
  total_transactions = 2;
  total_volume = pos 200300000;
  settled_count = 1;
  failed_count = 0;
  by_currency = (usd, pos 200300000) ∷ [];
  by_type = (transfer_type, pos 1) ∷ (credit_type, pos 1) ∷ [];
}

day_selected : select_summary one_day 0 day_db ≡ ok (day_summary, day_db)
unfolding select_summary summarise ◌+ℤ◌
day_selected = refl

select_summary-counts_example : Counted one_day 0 day_db usd transfer_type day_summary
select_summary-counts_example =
    select_summary-counts one_day 0 day_db day_db day_summary usd transfer_type day_selected
