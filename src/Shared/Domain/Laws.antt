-- ===== src/Shared/Domain/Laws.antt =====
-- Laws of the domain aggregates: the status machine and the account methods.
use financial_data_platform.Prelude.{
  ℕ, ◌≡◌, ◌≢◌, refl, ap, ◌∙◌, ◌⊎◌, true, false, List, [], ◌∷◌, ok, arith, ◌≤◌,
}
use financial_data_platform.Prelude.Int.{ℤ}
use financial_data_platform.Shared.Decimal.{Decimal}
use financial_data_platform.Shared.Domain.{
  TransactionStatus, pending, processing, settled, failed, reversed, can_transition_to, Transaction,
  transition, next_i64,
}

-- The transitions that happened, one after the other; a refused one changes nothing.
unfoldable pub attempts : List TransactionStatus → Transaction → Transaction
attempts [] t = t
attempts (next ∷ rest) t = attempts rest (transition t next).1

-- The rank of a status: a transaction goes round between the first two, and then only on.
abbrev pub rank : TransactionStatus → ℕ
rank pending = 0
rank processing = 0
rank settled = 1
rank failed = 1
rank reversed = 2

-- Every transition is either refused, with an error and nothing changed, or allowed by the machine
-- and done: it sets the status, moves the version on, and does not lower the rank of the status.
pub transition-cases :
    (t : Transaction) (next : TransactionStatus)
    → ((can_transition_to t.status next ≡ true)
        × ((transition t next).0 ≡ ok tt)
        × ((transition t next).1.status ≡ next)
        × ((transition t next).1.version ≡ next_i64 t.version)
        × (rank t.status ≤ rank next))
      ⊎ ((can_transition_to t.status next ≡ false)
          × ((transition t next).0 ≢ ok tt)
          × ((transition t next).1 ≡ t))
unfolding transition can_transition_to
transition-cases t next = ground arith

final_step :
    (t : Transaction) (next : TransactionStatus)
    → (t.status ≡ failed) ⊎ (t.status ≡ reversed)
    → (transition t next).1 ≡ t
unfolding transition can_transition_to
final_step t next h = ground arith

-- A failed or reversed transaction stays as it is, whatever is attempted.
pub attempts-final :
    (next : List TransactionStatus) (t : Transaction)
    → (t.status ≡ failed) ⊎ (t.status ≡ reversed)
    → attempts next t ≡ t
unfolding attempts
attempts-final [] t h = refl
attempts-final (n ∷ rest) t h = ap (attempts rest) (final_step t n h) ∙ attempts-final rest t h

-- Whatever is attempted on a settled or reversed transaction, it is settled or reversed afterwards.
pub attempts-settled :
    (next : List TransactionStatus) (t : Transaction)
    → (t.status ≡ settled) ⊎ (t.status ≡ reversed)
    → ((attempts next t).status ≡ settled) ⊎ ((attempts next t).status ≡ reversed)
unfolding attempts
attempts-settled [] t h = h
attempts-settled (n ∷ rest) t h =
    attempts-settled rest (transition t n).1 (unfold transition can_transition_to in ground arith)

-- A value of a scale.
abbrev pub scaled : ℕ → ℤ → Decimal
scaled scale m = record { mantissa = m; scale = scale }
