-- ===== src/Ingestion/Transactions/Leaves.antt =====
-- What a submitted request leaves in the database, from the request on.
use financial_data_platform.Prelude.{arith, ℕ, ◌≡◌, refl, String, Result, ok, err}
use financial_data_platform.Prelude.Int.{pos}
use financial_data_platform.Shared.Decimal.{to_numeric}
use financial_data_platform.Shared.Idempotency.{IdempotencyKey}
use financial_data_platform.Store.Logic.{Ensures, bind-Ensures, map-Ensures}
use financial_data_platform.Store.Session.{Env, Session, lift}
use financial_data_platform.Store.Tables.{Db}
use financial_data_platform.Ingestion.Api.{ApiError}
use financial_data_platform.Ingestion.Transactions.{
  Request, Host, Draws, InsertResult, prepare, correlation_of, idempotency_check_and_insert,
  submit_transaction,
}
use financial_data_platform.Ingestion.Transactions.Spec.{
  accepted, CanStore, CanAnnounce, Landed, nothing, stored, Answered, replayed, fresh,
}
use financial_data_platform.Ingestion.Transactions.Outcome.{idempotency_check_and_insert-outcome}

module _ (env : Env) (host : Host) (draws : Draws) (req : Request) where
  abbrev correlation_id : ℕ
  correlation_id = correlation_of env host draws req.x_request_id

  -- Nothing, or the submission of the request as it was prepared.
  pub data Left (db db' : Db) : Type 0 where
    refused : db' ≡ db → Left db db'
    submitted :
        (q : IdempotencyKey × String)
        → prepare env host req ≡ ok q
        → CanStore env draws q.0.as_str q.1 req.body correlation_id db
        → CanAnnounce env draws q.0.as_str q.1 req.body correlation_id db
        → db' ≡ accepted env draws q.0.as_str q.1 req.body correlation_id db
        → Left db db'

  pub submit_transaction-leaves :
      (s : Session) → Left s.committed (submit_transaction env host draws req s).1.committed
  unfolding submit_transaction
  submit_transaction-leaves s =
      settled (submit_transaction env host draws req s)
        (bind-Ensures Stops Prepared Goes _ _ s (prepared (prepare env host req) refl) inserted)
    where
      Stops : ApiError → Session → Type 0
      Stops _ s' = Left s.committed s'.committed

      Goes : InsertResult → Session → Type 0
      Goes _ s' = Left s.committed s'.committed

      Prepared : IdempotencyKey × String → Session → Type 0
      Prepared q s' = (prepare env host req ≡ ok q) × (s'.committed ≡ s.committed)

      prepared :
          (r : Result ApiError (IdempotencyKey × String))
          → prepare env host req ≡ r
          → Ensures Stops Prepared (lift r s)
      prepared (err e) same = refused refl
      prepared (ok q) same = (same, refl)

      landed :
          (q : IdempotencyKey × String) (db' : Db)
          → prepare env host req ≡ ok q
          → Landed env draws q.0.as_str q.1 req.body correlation_id s.committed db'
          → Left s.committed db'
      landed q db' fine (nothing same) = refused same
      landed q db' fine (stored can free now) = submitted q fine can free now

      answered :
          (q : IdempotencyKey × String) (r : InsertResult) (db' : Db)
          → prepare env host req ≡ ok q
          → Answered env draws q.0.as_str q.1 req.body correlation_id r s.committed db'
          → Left s.committed db'
      answered q r db' fine (replayed _ _ _ _ _ _ _ same) = refused same
      answered q r db' fine (fresh can free _ _ _ now) = submitted q fine can free now

      inserted :
          (q : IdempotencyKey × String) (s₁ : Session)
          → Prepared q s₁
          → Ensures Stops Goes
              (idempotency_check_and_insert env draws q.0.as_str q.1 req.body correlation_id s₁)
      inserted q s₁ (fine, same) =
          map-Ensures _ Stops _ Goes _
            (idempotency_check_and_insert-outcome env draws q.0.as_str q.1 req.body correlation_id
              s.committed s₁ same)
            (λ _ u h. landed q u.committed fine h) λ r u h. answered q r u.committed fine h

      settled :
          (p : Result ApiError InsertResult × Session)
          → Ensures Stops Goes p
          → Left s.committed p.1.committed
      settled (ok _, _) h = h
      settled (err _, _) h = h

-- A request whose amount the column rounds to 0 stores nothing, even where the amount is positive.
pub submit_transaction_rounded :
    (env : Env) (host : Host) (draws : Draws) (req : Request) (s : Session)
    → to_numeric req.body.amount ≡ pos 0
    → (submit_transaction env host draws req s).1.committed ≡ s.committed
submit_transaction_rounded env host draws req s rounded =
    by_left (submit_transaction-leaves env host draws req s)
  where
    by_left : {db' : Db} → Left env host draws req s.committed db' → db' ≡ s.committed
    by_left (refused same) = same
    by_left (submitted q fine can _ _) = absurd (ground (arith, can.1, rounded))
