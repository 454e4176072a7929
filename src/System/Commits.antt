-- ===== src/System/Commits.antt =====
-- The platform's steps as sequences of commits: each one replaces the committed database, and a step
-- is none, one or several of them.
use financial_data_platform.Prelude.{
  ℕ, ◌≡◌, refl, sym, subst, inl, inr, Bool, String, Option, List, ok, err, Result,
}
use financial_data_platform.Shared.Domain.{failed, pending}
use financial_data_platform.Shared.Error.{SerdeError}
use financial_data_platform.Shared.Events.{EventEnvelope}
use financial_data_platform.Store.Logic.{Ensures}
use financial_data_platform.Store.Session.{Env, Session}
use financial_data_platform.Store.Tables.{Db, TransactionRow, DeadLetterRow}
use financial_data_platform.Ingestion.Accounts.{
  CreateAccountRequest, AccountCreated, create_account,
}
use financial_data_platform.Ingestion.Accounts.Laws.{
  opened, CanOpen, Opening, not_opened, unreported_opening, create_account-outcome,
}
use financial_data_platform.Ingestion.Api.{ApiError}
use financial_data_platform.Ingestion.Transactions.{SubmitTransactionRequest, Draws, Host, Request}
use financial_data_platform.Ingestion.Transactions.Spec.{accepted, CanStore, CanAnnounce}
use financial_data_platform.Ingestion.Transactions.Leaves.{
  Left, refused, submitted, submit_transaction-leaves,
}
use financial_data_platform.Relay.{Sent, SendResult}
use financial_data_platform.Relay.Batch.{Batched, relay_batch-outcome}
use financial_data_platform.Relay.Send.{IsIn}
use financial_data_platform.Worker.Consumer.{
  TransactionConsumer, Around, Received, receive_error, received, State, turn,
}
use financial_data_platform.Worker.Consumer.Handled.{
  Trail, start, tried, MaybeLetter, with_letter, Handled, empty, malformed, processed, buried,
  unburied, handle_message-outcome,
}
use financial_data_platform.Worker.Processor.Effect.{
  Becomes, with_row, with_failure, Settles, Effect, unchanged, settlement, failure, retry, Accepted,
  held_elsewhere, settled_before, settled_now,
}
use financial_data_platform.System.{
  System, link_of, Step, submitting, opening, relaying, consuming, Reaches, here, next, Safe,
  Step-Safe,
}

abbrev pub at : Db → List Sent → System
at db log = record { db = db; log = log }

module _ (to_vec : EventEnvelope → Result SerdeError (List ℕ)) where
  -- The changes of the committed database and of the topic, each of which the database makes at once.
  pub data Commit : System → System → Type 0 where
    -- A submission's row, event and audit row.
    accepting :
        (env : Env) (draws : Draws) (key request_hash : String) (body : SubmitTransactionRequest)
        (correlation_id : ℕ) (db : Db) (log : List Sent)
        → CanStore env draws key request_hash body correlation_id db
        → CanAnnounce env draws key request_hash body correlation_id db
        → Commit (at db log) (at (accepted env draws key request_hash body correlation_id db) log)
    -- An account's row.
    opening_account :
        (env : Env) (id : ℕ) (body : CreateAccountRequest) (db : Db) (log : List Sent)
        → CanOpen env id body db
        → Commit (at db log) (at (opened env id body db) log)
    -- A batch of the relay; the records it sends are in the topic even where its commit fails.
    publishing :
        (send : ℕ → SendResult) (locked_elsewhere : ℕ → Bool) (now : ℕ) (db db' : Db)
        (log log' : List Sent)
        → Batched (link_of to_vec send locked_elsewhere) log' now db db'
        → ((x : Sent) → IsIn x log → IsIn x log')
        → Commit (at db log) (at db' log')
    settling :
        (env : Env) (event : EventEnvelope) (db db' : Db) (log : List Sent)
        → Settles env event db db'
        → Commit (at db log) (at db' log)
    failing :
        (env : Env) (event : EventEnvelope) (r : TransactionRow) (message : String) (db : Db)
        (log : List Sent)
        → Becomes env event db failed r
        → Commit (at db log) (at (with_failure env event message (with_row env event r db)) log)
    waiting :
        (env : Env) (event : EventEnvelope) (r : TransactionRow) (db : Db) (log : List Sent)
        → Becomes env event db pending r
        → Commit (at db log) (at (with_row env event r db) log)
    burying :
        (row : DeadLetterRow) (db : Db) (log : List Sent)
        → Commit (at db log) (at (with_letter row db) log)

  pub data Commits : System → System → Type 0 where
    done : (x : System) → Commits x x
    then : (x y z : System) → Commit x y → Commits y z → Commits x z

  single : (x y : System) → Commit x y → Commits x y
  single x y c = then x y y c (done y)

  join : (x y z : System) → Commits x y → Commits y z → Commits x z
  join x y z (done _) later = later
  join x y z (then _ w _ first rest) later = then x w z first (join w y z rest later)

  -- A commit that leaves what the code says it leaves.
  lands :
      {log log' : List Sent} {db db' : Db} {db'' : Db}
      → Commit (at db log) (at db' log')
      → db'' ≡ db'
      → Commits (at db log) (at db'' log')
  lands {log} {log'} {db} {db'} c same =
      subst (λ d. Commits (at db log) (at d log')) (sym same) (single (at db log) (at db' log') c)

  idle : {log : List Sent} {db db' : Db} → db' ≡ db → Commits (at db log) (at db' log)
  idle {log} {db} {db'} same =
      subst (λ d. Commits (at db log) (at d log)) (sym same) (done (at db log))

  Effect-Commits :
      (env : Env) (event : EventEnvelope) (log : List Sent) (db db' : Db)
      → Effect env event db db'
      → Commits (at db log) (at db' log)
  Effect-Commits env event log db db' (unchanged same) = idle same
  Effect-Commits env event log db db' (settlement h) = lands (settling env event db db' log h) refl
  Effect-Commits env event log db db' (failure r message h same) =
      lands (failing env event r message db log h) same
  Effect-Commits env event log db db' (retry r h same) = lands (waiting env event r db log h) same

  Accepted-Commits :
      (env : Env) (event : EventEnvelope) (log : List Sent) (db db' : Db)
      → Accepted env event db db'
      → Commits (at db log) (at db' log)
  Accepted-Commits env event log db db' (held_elsewhere _ same) = idle same
  Accepted-Commits env event log db db' (settled_before _ _ _ same) = idle same
  Accepted-Commits env event log db db' (settled_now h) =
      lands (settling env event db db' log h) refl

  Trail-Commits :
      (log : List Sent) {event : EventEnvelope} {db db' : Db}
      → Trail event db db'
      → Commits (at db log) (at db' log)
  Trail-Commits log (start db) = done (at db log)
  Trail-Commits log {event} (tried env db db₁ db₂ trail effect) =
      join (at db log) (at db₁ log) (at db₂ log) (Trail-Commits log trail)
        (Effect-Commits env event log db₁ db₂ effect)

  MaybeLetter-Commits :
      (row : DeadLetterRow) (log : List Sent) (db db' : Db)
      → MaybeLetter row db db'
      → Commits (at db log) (at db' log)
  MaybeLetter-Commits row log db db' (inl same) = idle same
  MaybeLetter-Commits row log db db' (inr same) = lands (burying row db log) same

  Opening-Commits :
      (env : Env) (id : ℕ) (body : CreateAccountRequest) (log : List Sent) (s : Session)
      (p : Result ApiError AccountCreated × Session)
      → Ensures
          (λ _ s'. Opening env id body s.committed s'.committed)
          (λ r s'.
            (r.status_code ≡ 201)
            × (r.id ≡ id)
            × CanOpen env id body s.committed
            × (s'.committed ≡ opened env id body s.committed))
          p
      → Commits (at s.committed log) (at p.1.committed log)
  Opening-Commits env id body log s (ok r, s') (_, _, can, same) =
      lands (opening_account env id body s.committed log can) same
  Opening-Commits env id body log s (err e, s') (not_opened same) = idle same
  Opening-Commits env id body log s (err e, s') (unreported_opening can same) =
      lands (opening_account env id body s.committed log can) same

  Handled-Commits :
      (self : TransactionConsumer) (around : Around) (body : Option (List ℕ)) (log : List Sent)
      (db db' : Db) (b : Bool)
      → Handled self around body db db' b
      → Commits (at db log) (at db' log)
  Handled-Commits self around body log db db' _ (empty _ same) = idle same
  Handled-Commits self around body log db db' _ (malformed _ _ _ _ maybe) =
      MaybeLetter-Commits _ log db db' maybe
  Handled-Commits self around body log db db' _ (processed _ event db₁ n _ _ trail taken) =
      join (at db log) (at db₁ log) (at db' log) (Trail-Commits log trail)
        (Accepted-Commits (around.attempts n) event log db₁ db' taken)
  Handled-Commits self around body log db db' _ (buried _ _ db₁ _ _ _ trail same) =
      join (at db log) (at db₁ log) (at db' log) (Trail-Commits log trail)
        (lands (burying _ db₁ log) same)
  Handled-Commits self around body log db db' _ (unburied _ _ db₁ _ _ _ trail maybe) =
      join (at db log) (at db₁ log) (at db' log) (Trail-Commits log trail)
        (MaybeLetter-Commits _ log db₁ db' maybe)

  turn-Commits :
      (self : TransactionConsumer) (r : Received) (st : State) (log : List Sent)
      → Safe to_vec (at st.session.committed log)
      → Commits (at st.session.committed log) (at (turn self r st).session.committed log)
  unfolding turn
  turn-Commits self receive_error st log h = done (at st.session.committed log)
  turn-Commits self (received msg around) st log (c, _) =
      Handled-Commits self around msg.payload log st.session.committed _ _
        (handle_message-outcome self around msg.payload st.session c)

  Left-Commits :
      (env : Env) (host : Host) (draws : Draws) (req : Request) (log : List Sent) (db db' : Db)
      → Left env host draws req db db'
      → Commits (at db log) (at db' log)
  Left-Commits env host draws req log db db' (refused same) = idle same
  Left-Commits env host draws req log db db' (submitted q fine can free same) =
      lands (accepting env draws q.0.as_str q.1 req.body _ db log can free) same

  Step-Commits : (x y : System) → Step to_vec x y → Safe to_vec x → Commits x y
  Step-Commits x y (submitting env host draws req s log) h =
      Left-Commits env host draws req log s.committed _
        (submit_transaction-leaves env host draws req s)
  Step-Commits x y (opening env id body s log) h =
      Opening-Commits env id body log s (create_account env id body s)
        (create_account-outcome env id body s.committed s refl)
  Step-Commits x y (relaying env send locked_elsewhere batch_size st) (_, well) =
      let (batched, grows) =
        relay_batch-outcome env (link_of to_vec send locked_elsewhere) batch_size st
          well.distinct in
      single x y
        (publishing send locked_elsewhere env.now st.session.committed _ st.log _ batched grows)
  Step-Commits x y (consuming self r st log) h = turn-Commits self r st log h

  pub Reaches-Commits : (x y : System) → Reaches to_vec x y → Safe to_vec x → Commits x y
  Reaches-Commits x y (here _) h = done x
  Reaches-Commits x z (next _ y _ step rest) h =
      join x y z (Step-Commits x y step h) (Reaches-Commits y z rest (Step-Safe to_vec x y step h))
