-- ===== src/Reporting.antt =====
-- crates/reporting/src/reports.rs: the three reports, each one query on the pool. Times are in
-- microseconds and amounts in ten-thousandths; the date of a time, and its text, are the libraries'.
pub mod Config
pub mod Groups
pub mod Laws
pub mod Ranks
pub mod Listings
pub mod Exact
pub mod Settled
mod Tests
use financial_data_platform.Prelude.{
  ℕ, suc, ◌+◌, ◌-◌, ◌*◌, Bool, true, false, ◌&&◌, String, Option, none, some, List, [], ◌∷◌, ok,
  leb, ◌==◌, if◌then◌else◌,
}
use financial_data_platform.Prelude.Int.{ℤ, pos, leb_ℤ}
use financial_data_platform.Prelude.Table.{Table, find}
use financial_data_platform.Shared.Domain.{
  Currency, usd, TransactionStatus, settled, failed, TransactionType, transfer_type, credit_type,
  debit_type,
}
use financial_data_platform.Shared.Error.{SqlError, row_not_found}
use financial_data_platform.Store.Session.{Env, M, pure, ◌>>=◌, autocommit}
use financial_data_platform.Store.Statements.{Statement}
use financial_data_platform.Store.Tables.{AccountRow, TransactionRow, LedgerRow, Db}
use financial_data_platform.Reporting.Groups.{
  currency_code, type_code, sum_of, count_where, group_by, order_desc, take,
}

-- `AppError`
pub data AppError : Type 0 where
  database : SqlError → AppError

pub record ErrorBody : Type 0 where
  pub status : ℕ
  pub error : String

-- `IntoResponse for AppError`
unfoldable pub into_response : AppError → ErrorBody
into_response (database row_not_found) = record { status = 404; error = "not found" }
into_response (database _) = record { status = 500; error = "internal server error" }

abbrev pub Report : Type 0 → Type 0
Report = M AppError

-- The calendar: the date of a time, and a date's text.
pub record Calendar : Type 0 where
  pub date_of : ℕ → ℕ
  pub date_text : ℕ → String

-- A JSON object is a list of its keys and values.
pub record DailySummary : Type 0 where
  pub date : String
  pub total_transactions : ℕ
  pub total_volume : ℤ
  pub settled_count : ℕ
  pub failed_count : ℕ
  pub by_currency : List (Currency × ℤ)
  pub by_type : List (TransactionType × ℤ)

abbrev pub is_settled : TransactionRow → Bool
is_settled t = elim t.status [ settled ↦ true | _ ↦ false ]

abbrev pub is_failed : TransactionRow → Bool
is_failed t = elim t.status [ failed ↦ true | _ ↦ false ]

-- `daily`: the rows that were submitted on a date.
abbrev pub daily : Calendar → (date : ℕ) → Table TransactionRow → List TransactionRow
daily calendar date [] = []
daily calendar date ((_, t) ∷ rows) =
    let rest = daily calendar date rows in
    if calendar.date_of t.submitted_at == date then t ∷ rest else rest

unfoldable pub summarise : String → List TransactionRow → DailySummary
summarise date rows = record {
  date = date;
  total_transactions = count_where (λ _. true) rows;
  total_volume = sum_of (λ t. t.amount) rows;
  settled_count = count_where is_settled rows;
  failed_count = count_where is_failed rows;
  by_currency = group_by currency_code (λ t. t.currency) (λ t. t.amount) rows;
  by_type = group_by type_code (λ t. t.transaction_type) (λ _. pos 1) rows;
}

unfoldable pub select_summary : Calendar → (date : ℕ) → Statement DailySummary
unfolding summarise
select_summary calendar date db =
    ok (summarise (calendar.date_text date) (daily calendar date db.transactions), db)

unfoldable pub daily_summary : Env → Calendar → Report DailySummary
daily_summary env calendar =
    autocommit database env (select_summary calendar (calendar.date_of env.now))

-- 10,000
abbrev pub threshold : ℤ
threshold = pos 100000000

-- `Duration::days(1)`
abbrev pub day : ℕ
day = 86400000000

-- `time >= now - day`
abbrev pub within_day : (now time : ℕ) → Bool
within_day now time = leb now (time + day)

pub record HighValueEntry : Type 0 where
  pub transaction_id : ℕ
  pub account_id : ℕ
  pub amount : ℤ
  pub currency : Currency
  pub posted_at : ℕ

abbrev pub high_value_entry : LedgerRow → HighValueEntry
high_value_entry e = record {
  transaction_id = e.transaction_id;
  account_id = e.account_id;
  amount = e.amount;
  currency = e.currency;
  posted_at = e.posted_at;
}

-- The `WHERE` of the report.
abbrev pub is_high : (now : ℕ) → LedgerRow → Bool
is_high now e = leb_ℤ threshold e.amount && within_day now e.posted_at

abbrev pub high_value_rows : (now : ℕ) → List LedgerRow → List HighValueEntry
high_value_rows now [] = []
high_value_rows now (e ∷ es) =
    let rest = high_value_rows now es in if is_high now e then high_value_entry e ∷ rest else rest

unfoldable pub select_high_value : (now : ℕ) → Statement (List HighValueEntry)
select_high_value now db =
    ok (take 1000 (order_desc (λ e. e.amount) (high_value_rows now db.ledger_entries)), db)

unfoldable pub high_value_transactions : Env → Report (List HighValueEntry)
high_value_transactions env = autocommit database env (select_high_value env.now)

pub record CtrEntry : Type 0 where
  pub transaction_id : ℕ
  pub account_id : ℕ
  pub owner_id : String
  pub amount : ℤ
  pub submitted_at : ℕ

abbrev pub is_usd : Currency → Bool
is_usd usd = true
is_usd _ = false

-- `IN ('TRANSFER', 'CREDIT', 'DEBIT')`
abbrev pub is_customer_type : TransactionType → Bool
is_customer_type transfer_type = true
is_customer_type credit_type = true
is_customer_type debit_type = true
is_customer_type _ = false

-- The `WHERE` of the report.
abbrev pub is_reportable : (now : ℕ) → TransactionRow → Bool
is_reportable now t =
    leb_ℤ threshold t.amount
    && (within_day now t.submitted_at
        && (is_settled t && (is_usd t.currency && is_customer_type t.transaction_type)))

-- `COALESCE(source_account_id, dest_account_id)`
abbrev pub coalesce : Option ℕ → Option ℕ → Option ℕ
coalesce none dest = dest
coalesce (some a) dest = some a

-- `JOIN accounts a ON a.id = …`: no row where there is no account.
abbrev pub join_account : Option ℕ → Table AccountRow → Option (ℕ × AccountRow)
join_account none accounts = none
join_account (some id) accounts = elim (find id accounts) [ none ↦ none | some a ↦ some (id, a) ]

abbrev pub ctr_entry : ℕ → TransactionRow → ℕ × AccountRow → CtrEntry
ctr_entry id t (account_id, a) = record {
  transaction_id = id;
  account_id = account_id;
  owner_id = a.owner_id;
  amount = t.amount;
  submitted_at = t.submitted_at;
}

abbrev pub add_joined : ℕ → TransactionRow → Option (ℕ × AccountRow) → List CtrEntry → List CtrEntry
add_joined id t none rest = rest
add_joined id t (some a) rest = ctr_entry id t a ∷ rest

abbrev pub ctr_rows : (now : ℕ) → Table AccountRow → Table TransactionRow → List CtrEntry
ctr_rows now accounts [] = []
ctr_rows now accounts ((id, t) ∷ rows) =
    let rest = ctr_rows now accounts rows in
    if is_reportable now t
    then add_joined id t (join_account (coalesce t.source_account_id t.dest_account_id) accounts)
        rest
    else rest

unfoldable pub select_ctr : (now : ℕ) → Statement (List CtrEntry)
select_ctr now db = ok (order_desc (λ e. e.amount) (ctr_rows now db.accounts db.transactions), db)

unfoldable pub currency_transaction_report : Env → Report (List CtrEntry)
currency_transaction_report env = autocommit database env (select_ctr env.now)
