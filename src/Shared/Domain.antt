-- ===== src/Shared/Domain.antt =====
-- crates/shared/src/domain.rs: currencies, money, the transaction and account aggregates. The amount
-- of a Money, a Transaction or a LedgerEntry is an integer number of ten-thousandths, the scale of the
-- NUMERIC(19,4) columns. An account's balance is a rust_decimal value, whose arithmetic is the
-- library's. The `version` counters are i64 and wrap as in a release build.
pub mod Laws
pub mod Routes
use financial_data_platform.Prelude.{
  ℕ, ◌^◌, ◌-◌, ⊤, Bool, true, false, String, Option, none, some, not, if◌then◌else◌, ◌==◌, Result,
  ok, err,
}
use financial_data_platform.Prelude.Int.{ℤ, pos, negsuc, ◌+ℤ◌, ◌-ℤ◌, ltb_ℤ, leb_ℤ}
use financial_data_platform.Shared.Decimal.{Decimal, Arithmetic}
use financial_data_platform.Shared.Error.{
  DomainError, Render, invalid_amount, insufficient_funds, account_inactive,
  invalid_state_transition,
}

pub data Currency : Type 0 where
  usd eur gbp jpy chf cad aud : Currency

-- `Display for Currency`
unfoldable pub display_currency : Currency → String
display_currency usd = "USD"
display_currency eur = "EUR"
display_currency gbp = "GBP"
display_currency jpy = "JPY"
display_currency chf = "CHF"
display_currency cad = "CAD"
display_currency aud = "AUD"

pub record Money : Type 0 where
  pub amount : ℤ
  pub currency : Currency

-- `Money::new`
unfoldable pub new_money : Render → ℤ → Currency → Result DomainError Money
new_money r a c =
    if leb_ℤ a (pos 0)
    then err (invalid_amount (r.decimal a))
    else ok (record { amount = a; currency = c })

pub data TransactionStatus : Type 0 where
  pending processing settled failed reversed : TransactionStatus

-- `TransactionStatus::can_transition_to`
unfoldable pub can_transition_to : TransactionStatus → TransactionStatus → Bool
can_transition_to pending processing = true
can_transition_to processing settled = true
can_transition_to processing failed = true
can_transition_to processing pending = true
can_transition_to settled reversed = true
can_transition_to _ _ = false

-- The derived `Debug` text.
unfoldable pub debug_status : TransactionStatus → String
debug_status pending = "Pending"
debug_status processing = "Processing"
debug_status settled = "Settled"
debug_status failed = "Failed"
debug_status reversed = "Reversed"

pub data TransactionType : Type 0 where
  credit_type debit_type transfer_type fee_type reversal_type adjustment_type : TransactionType

-- `Display for TransactionType`
unfoldable pub display_type : TransactionType → String
display_type credit_type = "CREDIT"
display_type debit_type = "DEBIT"
display_type transfer_type = "TRANSFER"
display_type fee_type = "FEE"
display_type reversal_type = "REVERSAL"
display_type adjustment_type = "ADJUSTMENT"

-- The columns of `Transaction`; times are numbers, JSON values are their texts.
pub record Transaction : Type 0 where
  pub id : ℕ
  pub idempotency_key : String
  pub transaction_type : TransactionType
  pub status : TransactionStatus
  pub amount : ℤ
  pub currency : Currency
  pub source_account_id : Option ℕ
  pub dest_account_id : Option ℕ
  pub description : Option String
  pub metadata : String
  pub request_hash : String
  pub submitted_at : ℕ
  pub processed_at : Option ℕ
  pub settled_at : Option ℕ
  pub version : ℤ
  pub worker_id : Option String
  pub retry_count : ℤ
  pub last_error : Option String
  pub regulatory_flags : String
  pub risk_score : Option ℤ
  pub compliance_checked : Bool

abbrev pub max_i64 : ℕ
max_i64 = 2 ^ 63 - 1

-- `x += 1` on an i64.
unfoldable pub next_i64 : ℤ → ℤ
next_i64 (pos n) = if n == max_i64 then negsuc max_i64 else pos n +ℤ pos 1
next_i64 (negsuc n) = negsuc n +ℤ pos 1

-- A `&mut self` method returns the aggregate as it leaves it.
-- `Transaction::transition`
unfoldable pub transition : Transaction → TransactionStatus → Result DomainError ⊤ × Transaction
transition t next =
    if not (can_transition_to t.status next)
    then (err (invalid_state_transition t.id (debug_status t.status) (debug_status next)), t)
    else (ok tt, record t { status = next; version = next_i64 t.version })

pub record Account : Type 0 where
  pub id : ℕ
  pub external_id : String
  pub owner_id : String
  pub currency : Currency
  pub balance : Decimal
  pub version : ℤ
  pub is_active : Bool
  pub created_at : ℕ
  pub updated_at : ℕ

abbrev Changed : Type 0
Changed = Option (Result DomainError ⊤ × Account)

-- The end of a method: no result where the arithmetic panics.
abbrev with_amount : Account → Option Decimal → Changed
with_amount a none = none
with_amount a (some balance) =
    some (ok tt, record a { balance = balance; version = next_i64 a.version })

module _ (lib : Arithmetic) where
  -- `Account::debit`
  unfoldable pub debit : Account → Decimal → Changed
  debit a amount =
      if not a.is_active
      then some (err (account_inactive a.id), a)
      else if lib.less a.balance amount
      then some (err (insufficient_funds a.id (lib.text amount) (lib.text a.balance)), a)
      else with_amount a (lib.sub a.balance amount)

  -- `Account::credit`
  unfoldable pub credit : Account → Decimal → Changed
  credit a amount =
      if not a.is_active
      then some (err (account_inactive a.id), a)
      else with_amount a (lib.add a.balance amount)

-- `LedgerEntry`; the entry types "DEBIT" and "CREDIT" are kept as texts.
pub record LedgerEntry : Type 0 where
  pub id : ℕ
  pub transaction_id : ℕ
  pub account_id : ℕ
  pub entry_type : String
  pub amount : ℤ
  pub currency : Currency
  pub running_balance : ℤ
  pub posted_at : ℕ
  pub sequence_num : ℤ
