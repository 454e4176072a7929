-- ===== src/Ingestion/Transactions/Replay.antt =====
-- A request that comes again, and a key that comes again with another body.
use text.Mathlib.TextPositions.{eq_refl}
use financial_data_platform.Prelude.{
  ℕ, ◌≡◌, refl, true, false, String, some, none, [], ◌∷◌, Result, ok, err, arith,
}
use financial_data_platform.Prelude.Table.{Table, append}
use financial_data_platform.Shared.Fault.{same_text}
use financial_data_platform.Store.Inserts.{find_claim, claims}
use financial_data_platform.Store.Logic.{Ensures, weaken-Ensures}
use financial_data_platform.Store.Session.{Env, Session}
use financial_data_platform.Store.Tables.{TransactionRow, Db}
use financial_data_platform.Ingestion.Api.{ApiError}
use financial_data_platform.Ingestion.Transactions.{
  SubmitTransactionRequest, Draws, InsertResult, new_transaction, idempotency_check_and_insert,
}
use financial_data_platform.Ingestion.Transactions.Spec.{
  Landed, nothing, stored, Answered, replayed, fresh,
}
use financial_data_platform.Ingestion.Transactions.Outcome.{idempotency_check_and_insert-outcome}

find_claim-append :
    (key : String) (id : ℕ) (t : TransactionRow) (rows : Table TransactionRow)
    → find_claim key rows ≡ none
    → claims key t ≡ true
    → find_claim key (append id t rows) ≡ some (id, t)
unfolding find_claim append
find_claim-append key id t [] free mine = rw mine refl
find_claim-append key id t ((j, u) ∷ rows) free mine =
    ground (arith, find_claim-append key id t rows)

-- The row that a success names holds the key and the hash.
Answered-claims :
    (env : Env) (draws : Draws) (key request_hash : String) (body : SubmitTransactionRequest)
    (correlation_id : ℕ) (r : InsertResult) (db db' : Db)
    → Answered env draws key request_hash body correlation_id r db db'
    → (t : TransactionRow) × (find_claim key db'.transactions ≡ some (r.response.transaction_id, t))
      × (same_text t.request_hash request_hash ≡ true)
Answered-claims env draws key request_hash body correlation_id r db db'
      (replayed id t claimed same _ which _ kept) =
    (t, ground (arith, claimed, which, kept), same)
Answered-claims env draws key request_hash body correlation_id r db db'
      (fresh can _ _ which _ now) =
    (new_transaction env.now key request_hash body, found, eq_refl request_hash)
  where
    found :
        find_claim key db'.transactions
        ≡ some (r.response.transaction_id, new_transaction env.now key request_hash body)
    found =
        rw (now, which)
          (find_claim-append key draws.transaction_id
            (new_transaction env.now key request_hash body) db.transactions can.0
            (rw (eq_refl key) refl))

module _ (env : Env) (draws : Draws) (key request_hash : String) (body : SubmitTransactionRequest)
    (correlation_id : ℕ) (s : Session) (id : ℕ) (t : TransactionRow)
    (claimed : find_claim key s.committed.transactions ≡ some (id, t)) where
  abbrev ran : Result ApiError InsertResult × Session
  ran = idempotency_check_and_insert env draws key request_hash body correlation_id s

  -- A key that is claimed by a request with the same hash is answered with that row, or fails; the
  -- committed database stays as it was.
  claimed_again :
      Ensures
        (λ _ s'. s'.committed ≡ s.committed)
        (λ r s'.
          (r.status_code ≡ 200)
          × (r.response.transaction_id ≡ id)
          × (same_text t.request_hash request_hash ≡ true)
          × (s'.committed ≡ s.committed))
        ran
  claimed_again = by_result ran (
      idempotency_check_and_insert-outcome env draws key request_hash body correlation_id
        s.committed s refl)
    where
      by_result :
          (p : Result ApiError InsertResult × Session)
          → Ensures
              (λ _ u. Landed env draws key request_hash body correlation_id s.committed u.committed)
              (λ r u.
                Answered env draws key request_hash body correlation_id r s.committed u.committed)
              p
          → Ensures
              (λ _ s'. s'.committed ≡ s.committed)
              (λ r s'.
                (r.status_code ≡ 200)
                × (r.response.transaction_id ≡ id)
                × (same_text t.request_hash request_hash ≡ true)
                × (s'.committed ≡ s.committed))
              p
      by_result (err e, u) (nothing same) = same
      by_result (err e, u) (stored can _ _) = absurd (cc (can.0, claimed))
      by_result (ok r, u) (fresh can _ _ _ _ _) = absurd (cc (can.0, claimed))
      by_result (ok r, u) (replayed j v there same code which _ kept) =
          ground (arith, claimed, there, same, code, which, kept)

  -- A key that is claimed by a request with another hash never succeeds, and changes nothing that
  -- is committed.
  pub idempotency_check_and_insert-reused :
      same_text t.request_hash request_hash ≡ false
      → Ensures (λ _ s'. s'.committed ≡ s.committed) (λ _ _. ⊥) ran
  idempotency_check_and_insert-reused other = by_result ran claimed_again
    where
      by_result :
          (p : Result ApiError InsertResult × Session)
          → Ensures
              (λ _ s'. s'.committed ≡ s.committed)
              (λ r s'.
                (r.status_code ≡ 200)
                × (r.response.transaction_id ≡ id)
                × (same_text t.request_hash request_hash ≡ true)
                × (s'.committed ≡ s.committed))
              p
          → Ensures (λ _ s'. s'.committed ≡ s.committed) (λ _ _. ⊥) p
      by_result (err e, u) same = same
      by_result (ok r, u) h = cc (h.2, other)

-- A submission that succeeded and comes again with the same key and hash, whatever else is different
-- in it and around it, changes nothing that is committed; where it succeeds too, it is answered with
-- a 200 and the same transaction.
pub idempotency_check_and_insert-twice :
    (env env' : Env) (draws draws' : Draws) (key request_hash : String)
    (body body' : SubmitTransactionRequest) (correlation_id correlation_id' : ℕ) (s : Session)
    (r : InsertResult)
    → (idempotency_check_and_insert env draws key request_hash body correlation_id s).0 ≡ ok r
    → let s' = (idempotency_check_and_insert env draws key request_hash body correlation_id s).1 in
      Ensures
        (λ _ u. u.committed ≡ s'.committed)
        (λ r' u.
          (r'.status_code ≡ 200)
          × (r'.response.transaction_id ≡ r.response.transaction_id)
          × (u.committed ≡ s'.committed))
        (idempotency_check_and_insert env' draws' key request_hash body' correlation_id' s')
idempotency_check_and_insert-twice env env' draws draws' key request_hash body body' c c' s r fine =
    by_first (idempotency_check_and_insert env draws key request_hash body c s)
      (idempotency_check_and_insert-outcome env draws key request_hash body c s.committed s refl)
      fine
  where
    again :
        (u : Session) (t : TransactionRow)
        → find_claim key u.committed.transactions ≡ some (r.response.transaction_id, t)
        → Ensures
            (λ _ v. v.committed ≡ u.committed)
            (λ r' v.
              (r'.status_code ≡ 200)
              × (r'.response.transaction_id ≡ r.response.transaction_id)
              × (v.committed ≡ u.committed))
            (idempotency_check_and_insert env' draws' key request_hash body' c' u)
    again u t claimed =
        weaken-Ensures (λ _ v. v.committed ≡ u.committed)
          (λ (q : InsertResult) v.
            (q.status_code ≡ 200)
            × (q.response.transaction_id ≡ r.response.transaction_id)
            × (same_text t.request_hash request_hash ≡ true)
            × (v.committed ≡ u.committed))
          (λ q v.
            (q.status_code ≡ 200)
            × (q.response.transaction_id ≡ r.response.transaction_id)
            × (v.committed ≡ u.committed))
          _
          (claimed_again env' draws' key request_hash body' c' u r.response.transaction_id t
            claimed)
          λ r' v h. (h.0, h.1, h.3)

    by_first :
        (p : Result ApiError InsertResult × Session)
        → Ensures
            (λ _ u. Landed env draws key request_hash body c s.committed u.committed)
            (λ r u. Answered env draws key request_hash body c r s.committed u.committed)
            p
        → p.0 ≡ ok r
        → Ensures
            (λ _ v. v.committed ≡ p.1.committed)
            (λ r' v.
              (r'.status_code ≡ 200)
              × (r'.response.transaction_id ≡ r.response.transaction_id)
              × (v.committed ≡ p.1.committed))
            (idempotency_check_and_insert env' draws' key request_hash body' c' p.1)
    by_first (err e, u) landed same = absurd (cc)
    by_first (ok q, u) answered same =
        let found =
          Answered-claims env draws key request_hash body c q s.committed u.committed answered in
        again u found.0 (ground (arith, found.1))
