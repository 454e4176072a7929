-- ===== src/Ingestion/Accounts/Laws.antt =====
-- Opening an account: what it leaves, and that the books stay right.
use financial_data_platform.Prelude.{
  ℕ, ⊤, ◌≡◌, refl, sym, ap, subst, inl, inr, Bool-cases, Option-cases, false, ok, err, Result, none,
  arith,
}
use financial_data_platform.Prelude.Table.{find, append, find-append_self, find-append_ne}
use financial_data_platform.Store.Autocommit.{
  Answers, Attempted, untouched, unconfirmed, autocommit-Ensures,
}
use financial_data_platform.Store.Inserts.{insert_account, external_id_taken}
use financial_data_platform.Store.Logic.{Ensures, bind-Ensures, map-Ensures}
use financial_data_platform.Store.Session.{Env, Session, autocommit}
use financial_data_platform.Store.Tables.{Db}
use financial_data_platform.Worker.Processor.Consistent.{Consistent}
use financial_data_platform.Ingestion.Api.{ApiError, database}
use financial_data_platform.Ingestion.Accounts.{
  CreateAccountRequest, AccountCreated, new_account, create_account,
}

module _ (env : Env) (id : ℕ) (body : CreateAccountRequest) (db : Db) where
  abbrev pub opened : Db
  opened = record db { accounts = append id (new_account env.now body) db.accounts }

  -- The identifier and the external identifier are free.
  abbrev pub CanOpen : Type 0
  CanOpen = (find id db.accounts ≡ none) × (external_id_taken body.external_id db.accounts ≡ false)

  answered :
      (a : ⊤) (db' : Db)
      → Answers (insert_account id (new_account env.now body)) db a db'
      → CanOpen × (db' ≡ opened)
  unfolding insert_account
  answered a db' e = elim (Option-cases (find id db.accounts)) [
    | inr (b, there) ↦ absurd (ground arith)
    | inl free ↦ elim (Bool-cases (external_id_taken body.external_id db.accounts)) [
      | inl taken ↦ absurd (ground arith)
      | inr fresh ↦ ((free, fresh), ground arith)
    ]
  ]

  opened-Consistent : Consistent db → CanOpen → Consistent opened
  opened-Consistent c (free, _) = record {
    books = record {
      sound = c.books.sound;
      balanced = λ j a e. ground (
        arith,
        find-append_self id (new_account env.now body) db.accounts free,
        find-append_ne j id (new_account env.now body) db.accounts,
        c.books.balanced j a,
        c.books.unopened id free,
      );
      non_negative = λ j a e. ground (
        arith,
        find-append_self id (new_account env.now body) db.accounts free,
        find-append_ne j id (new_account env.now body) db.accounts,
        c.books.non_negative j a,
      );
      unopened = λ j e. ground (
        arith,
        find-append_self id (new_account env.now body) db.accounts free,
        find-append_ne j id (new_account env.now body) db.accounts,
        c.books.unopened j,
      );
    };
    posted = c.posted;
    parties = c.parties;
    unposted = c.unposted;
  }

  -- What an error may leave.
  pub data Opening (db' : Db) : Type 0 where
    not_opened : db' ≡ db → Opening db'
    unreported_opening : CanOpen → db' ≡ opened → Opening db'

  landed :
      (db' : Db) → Attempted (insert_account id (new_account env.now body)) db db' → Opening db'
  landed db' (untouched same) = not_opened same
  landed db' (unconfirmed a e) = let (can, same) = answered a db' e in unreported_opening can same

  adding :
      (s : Session)
      → s.committed ≡ db
      → Ensures {E = ApiError}
          (λ _ s'. Opening s'.committed)
          (λ _ s'. CanOpen × (s'.committed ≡ opened))
          (autocommit database env (insert_account id (new_account env.now body)) s)
  adding s kept =
      map-Ensures _ _ _ _ _
        (autocommit-Ensures database env (insert_account id (new_account env.now body)) db s kept)
        (λ _ t h. landed t.committed h) λ a t h. answered a t.committed h

  -- Opening an account succeeds only where the identifier and the external identifier are free; it
  -- is then answered with a 201 and the identifier, and an active row with balance 0 is added. An
  -- error leaves the committed database as it was, or with that row where only the answer to the
  -- COMMIT was lost.
  pub create_account-outcome :
      (s : Session)
      → s.committed ≡ db
      → Ensures
          (λ _ s'. Opening s'.committed)
          (λ r s'. (r.status_code ≡ 201) × (r.id ≡ id) × CanOpen × (s'.committed ≡ opened))
          (create_account env id body s)
  unfolding create_account
  create_account-outcome s kept =
      bind-Ensures _ (λ _ s'. CanOpen × (s'.committed ≡ opened)) _ _ _ s (adding s kept)
        λ _ s' h. (refl, refl, h.0, h.1)

-- Opening an account keeps the committed database consistent, whatever fails on the way.
pub create_account-Consistent :
    (env : Env) (id : ℕ) (body : CreateAccountRequest) (s : Session)
    → Consistent s.committed
    → Consistent (create_account env id body s).1.committed
create_account-Consistent env id body s c =
    by_result (create_account env id body s) (create_account-outcome env id body s.committed s refl)
  where
    kept : (db' : Db) → Opening env id body s.committed db' → Consistent db'
    kept db' (not_opened same) = subst Consistent (sym same) c
    kept db' (unreported_opening can same) =
        subst Consistent (sym same) (opened-Consistent env id body s.committed c can)

    by_result :
        (p : Result ApiError AccountCreated × Session)
        → Ensures
            (λ _ s'. Opening env id body s.committed s'.committed)
            (λ r s'.
              (r.status_code ≡ 201)
              × (r.id ≡ id)
              × CanOpen env id body s.committed
              × (s'.committed ≡ opened env id body s.committed))
            p
        → Consistent p.1.committed
    by_result (ok r, s') (_, _, can, same) =
        subst Consistent (sym same) (opened-Consistent env id body s.committed c can)
    by_result (err e, s') h = kept s'.committed h

pub create_account-outbox :
    (env : Env) (id : ℕ) (body : CreateAccountRequest) (s : Session)
    → (create_account env id body s).1.committed.outbox_events ≡ s.committed.outbox_events
create_account-outbox env id body s =
    by_result (create_account env id body s) (create_account-outcome env id body s.committed s refl)
  where
    kept :
        (db' : Db)
        → Opening env id body s.committed db'
        → db'.outbox_events ≡ s.committed.outbox_events
    kept db' (not_opened same) = ap (λ d. d.outbox_events) same
    kept db' (unreported_opening can same) = ap (λ d. d.outbox_events) same

    by_result :
        (p : Result ApiError AccountCreated × Session)
        → Ensures
            (λ _ s'. Opening env id body s.committed s'.committed)
            (λ r s'.
              (r.status_code ≡ 201)
              × (r.id ≡ id)
              × CanOpen env id body s.committed
              × (s'.committed ≡ opened env id body s.committed))
            p
        → p.1.committed.outbox_events ≡ s.committed.outbox_events
    by_result (ok r, s') (_, _, can, same) = ap (λ d. d.outbox_events) same
    by_result (err e, s') h = kept s'.committed h
