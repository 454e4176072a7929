-- ===== src/Shared/Domain/Routes.antt =====
-- The ways through the status machine of crates/shared/src/domain.rs.
use financial_data_platform.Prelude.{◌≡◌, refl, sym, subst, true}
use financial_data_platform.Shared.Domain.{
  TransactionStatus, pending, processing, can_transition_to,
}

-- A number of allowed transitions, one after the other.
pub data Route (from : TransactionStatus) : TransactionStatus → Type 0 where
  stays : (to : TransactionStatus) → to ≡ from → Route from to
  moves :
      (over to : TransactionStatus)
      → Route from over
      → can_transition_to over to ≡ true
      → Route from to

pub Route-trans : {a b c : TransactionStatus} → Route a b → Route b c → Route a c
Route-trans {a} first (stays _ same) = subst (Route a) (sym same) first
Route-trans first (moves over to later allowed) = moves over to (Route-trans first later) allowed

pub Route-refl : (a : TransactionStatus) → Route a a
Route-refl a = stays a refl

-- From either open status, by way of the processing one.
pub pending-Route :
    (to : TransactionStatus) → can_transition_to processing to ≡ true → Route pending to
unfolding can_transition_to
pending-Route to allowed =
    moves processing to (moves pending processing (Route-refl pending) refl) allowed

pub processing-Route :
    (to : TransactionStatus) → can_transition_to processing to ≡ true → Route processing to
processing-Route to allowed = moves processing to (Route-refl processing) allowed
