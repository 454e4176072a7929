-- ===== src/Worker/Consumer/Run.antt =====
-- The loop over many deliveries: what it keeps, how often it tries, and the offsets that it commits.
use financial_data_platform.Prelude.{
  ℕ, ◌<◌, ◌≡◌, refl, sym, subst, ◌⊎◌, inl, inr, Bool, true, false, Option, List, [], ◌∷◌, arith,
  All, ⊤, ◌==◌,
}
use financial_data_platform.Shared.Events.{EventEnvelope}
use financial_data_platform.Store.Session.{Session}
use financial_data_platform.Store.Tables.{Db, DeadLetterRow}
use financial_data_platform.Worker.Processor.Consistent.{
  Consistent, Consistent-same, Effect-Consistent, Accepted-Consistent,
}
use financial_data_platform.Worker.Consumer.{
  TransactionConsumer, Message, Around, Received, receive_error, received, State, handle_message,
  turn, run,
}
use financial_data_platform.Worker.Consumer.Handled.{
  Trail, start, tried, MaybeLetter, with_letter, Handled, empty, malformed, processed, buried,
  unburied, handle_message-outcome,
}

Trail-Consistent :
    {event : EventEnvelope} {db db' : Db} → Trail event db db' → Consistent db → Consistent db'
Trail-Consistent (start db) c = c
Trail-Consistent {event} (tried env db db₁ db₂ trail effect) c =
    Effect-Consistent env event db₁ (Trail-Consistent trail c) db₂ effect

with_letter-Consistent :
    (row : DeadLetterRow) (db : Db) → Consistent db → Consistent (with_letter row db)
with_letter-Consistent row db c = Consistent-same db (with_letter row db) refl refl refl c

MaybeLetter-Consistent :
    (row : DeadLetterRow) (db db' : Db) → MaybeLetter row db db' → Consistent db → Consistent db'
MaybeLetter-Consistent row db db' (inl same) c = subst Consistent (sym same) c
MaybeLetter-Consistent row db db' (inr same) c =
    subst Consistent (sym same) (with_letter-Consistent row db c)

module _ (self : TransactionConsumer) where
  Handled-Consistent :
      (around : Around) (body : Option (List ℕ)) (db db' : Db) (b : Bool)
      → Handled self around body db db' b
      → Consistent db
      → Consistent db'
  Handled-Consistent around body db db' _ (empty _ same) c = subst Consistent (sym same) c
  Handled-Consistent around body db db' _ (malformed _ _ _ _ maybe) c =
      MaybeLetter-Consistent _ db db' maybe c
  Handled-Consistent around body db db' _ (processed _ event db₁ n _ _ trail accepted) c =
      Accepted-Consistent (around.attempts n) event db₁ (Trail-Consistent trail c) db' accepted
  Handled-Consistent around body db db' _ (buried _ _ db₁ _ _ _ trail same) c =
      subst Consistent (sym same) (with_letter-Consistent _ db₁ (Trail-Consistent trail c))
  Handled-Consistent around body db db' _ (unburied _ _ db₁ _ _ _ trail maybe) c =
      MaybeLetter-Consistent _ db₁ db' maybe (Trail-Consistent trail c)

  pub turn-Consistent :
      (r : Received) (st : State)
      → Consistent st.session.committed
      → Consistent (turn self r st).session.committed
  unfolding turn
  turn-Consistent receive_error st c = c
  turn-Consistent (received msg around) st c =
      Handled-Consistent around msg.payload st.session.committed _ _
        (handle_message-outcome self around msg.payload st.session c) c

  -- A delivery of another partition, or of a greater offset.
  abbrev IsLater : ℕ → ℕ → Received → Type 0
  IsLater partition offset receive_error = ⊤
  IsLater partition offset (received m a) =
      ((m.partition == partition) ≡ false) ⊎ (offset < m.offset)

  -- A delivery of the partition that is committed, and the broker stores its offset.
  abbrev IsCommitted : ℕ → Received → State → Type 0
  IsCommitted partition receive_error st = ⊥
  IsCommitted partition (received m a) st =
      ((m.partition == partition) ≡ true)
      × (a.offset_stored ≡ true)
      × ((handle_message self m.payload a st.session).0 ≡ true)

  -- One of the deliveries is, in its turn.
  abbrev AnyCommitted : ℕ → List Received → State → Type 0
  AnyCommitted partition [] st = ⊥
  AnyCommitted partition (r ∷ rs) st =
      IsCommitted partition r st ⊎ AnyCommitted partition rs (turn self r st)

  turn-above :
      (partition offset : ℕ) (r : Received) (st : State)
      → IsLater partition offset r
      → offset < st.offsets partition
      → offset < (turn self r st).offsets partition
  unfolding turn
  turn-above partition offset receive_error st later above = above
  turn-above partition offset (received m a) st later above = ground (arith, later, above)

  turn-committed :
      (partition offset : ℕ) (r : Received) (st : State)
      → IsLater partition offset r
      → IsCommitted partition r st
      → offset < (turn self r st).offsets partition
  unfolding turn
  turn-committed partition offset receive_error st later committed = absurd committed
  turn-committed partition offset (received m a) st later (its, stored, accepted) =
      ground (arith, later, its, stored, accepted)

  run-above :
      (partition offset : ℕ) (rs : List Received) (st : State)
      → All (IsLater partition offset) rs
      → offset < st.offsets partition
      → offset < (run self rs st).offsets partition
  unfolding run
  run-above partition offset [] st later above = above
  run-above partition offset (r ∷ rs) st (later, rest) above =
      run-above partition offset rs (turn self r st) rest
        (turn-above partition offset r st later above)

  run-committed :
      (partition offset : ℕ) (rs : List Received) (st : State)
      → All (IsLater partition offset) rs
      → AnyCommitted partition rs st
      → offset < (run self rs st).offsets partition
  unfolding run
  run-committed partition offset [] st later committed = absurd committed
  run-committed partition offset (r ∷ rs) st (later, rest) (inl now) =
      run-above partition offset rs (turn self r st) rest
        (turn-committed partition offset r st later now)
  run-committed partition offset (r ∷ rs) st (later, rest) (inr after) =
      run-committed partition offset rs (turn self r st) rest after

  -- A message that is not to be committed leaves what its failed attempts leave, and a dead letter at
  -- most where its write reports an error. It is passed over all the same: where the deliveries of
  -- its partition after it have greater offsets and one of them is committed, the offset from which
  -- the partition is read after a restart is then beyond the message.
  pub run-passes :
      (m : Message) (a : Around) (rs : List Received) (st : State)
      → Consistent st.session.committed
      → (handle_message self m.payload a st.session).0 ≡ false
      → All (IsLater m.partition m.offset) rs
      → AnyCommitted m.partition rs (turn self (received m a) st)
      → Handled self a m.payload st.session.committed
          (turn self (received m a) st).session.committed
          false
        × (m.offset < (run self (received m a ∷ rs) st).offsets m.partition)
  unfolding run turn
  run-passes m a rs st c refused later committed = (
    subst
        (Handled self a m.payload st.session.committed
          (turn self (received m a) st).session.committed)
        refused (handle_message-outcome self a m.payload st.session c),
    run-committed m.partition m.offset rs (turn self (received m a) st) later committed,
  )
