-- ===== src/Worker/Fraud.antt =====
-- crates/worker/src/fraud.rs: the risk rules. A check takes whole seconds: ten where the fault
-- `fraud.hang` makes it sleep, none otherwise.
pub mod Laws
use financial_data_platform.Prelude.{ℕ, Bool, true, false, String, some, if◌then◌else◌}
use financial_data_platform.Prelude.Int.{ℤ, pos, ltb_ℤ}
use financial_data_platform.Shared.Fault.{Rules, Counters, should_fail}

pub record FraudResult : Type 0 where
  pub is_blocked : Bool
  pub reason : String
  pub risk_score : ℤ

-- The rules of `FraudChecker::check`, on an amount in ten-thousandths.
unfoldable pub assess : ℤ → FraudResult
assess amount =
    if ltb_ℤ (pos 1_000_000_000) amount
    then record {
      is_blocked = true;
      reason = "amount_exceeds_auto_approve_limit";
      risk_score = pos 9500;
    }
    else record {
      is_blocked = false;
      reason = "";
      risk_score =
          if ltb_ℤ (pos 100_000_000) amount
          then pos 4000
          else if ltb_ℤ (pos 10_000_000) amount
          then pos 1500
          else pos 100;
    }

-- A finished check, and the seconds that it took.
pub record Timed : Type 0 where
  pub seconds : ℕ
  pub result : FraudResult

-- `FraudChecker::check`
unfoldable pub check : Rules → ℕ → ℤ → Counters → Timed × Counters
unfolding assess
check rules transaction_id amount m =
    let (hang, m') = should_fail rules "fraud.hang" (some transaction_id) m in
    (record { seconds = if hang then 10 else 0; result = assess amount }, m')
