-- ===== src/Lib.antt =====
-- A verification library for the financial data platform: the services accept money movements, hand
-- them to workers through an outbox and Kafka, and post them to a double-entry ledger.
--
-- The parts and the files that model them:
-- - crates/shared/src/domain.rs: Shared/Domain (currencies, money, the status machine, the two
--   aggregates), with its laws in Shared/Domain/Laws;
-- - crates/shared/src/error.rs: Shared/Error; crates/shared/src/events.rs: Shared/Events;
--   crates/shared/src/audit.rs: Shared/Audit;
-- - crates/shared/src/fault.rs: Shared/Fault (the rules, the counters, `should_fail`), with its
--   laws in Shared/Fault/Laws, and Shared/Fault/Config (the reading of FDP_FAULTS);
-- - crates/shared/src/idempotency.rs: Shared/Idempotency; Shared/Decimal is about the amounts of
--   requests, their rounding in a column, and what rust_decimal computes;
-- - migrations/001_initial_schema.sql and the SQL text of the services: Store/Tables (the rows),
--   Store/Statements and Store/Inserts (a statement is a function of the tables that answers or
--   raises an error), Store/Grows (what is never undone in the tables), Store/Session (a connection
--   with an open transaction), Store/Logic, Store/Serve and Store/Autocommit (reasoning about
--   sessions, about a database that answers, and about a statement in its own transaction);
-- - crates/ingestion/src/handlers/transactions.rs: Ingestion/Api (`ApiError` and its response) and
--   Ingestion/Transactions (`submit_transaction`, `idempotency_check_and_insert`,
--   `get_transaction`). Under Ingestion/Transactions: Requests has the requests, their validation
--   and the rows that a submission writes, Spec is what a submission promises, Outcome compares the
--   code with it, Leaves takes this to the request, Accept is about a submission that nothing
--   disturbs, Replay about requests that come again, Consistent about the invariants;
--   crates/ingestion/src/handlers/accounts.rs: Ingestion/Accounts, with its Laws;
-- - crates/ingestion/src/handlers/health.rs: Ingestion/Health; the config.rs files of the services:
--   Shared/Settings (what they ask of the configuration library), Ingestion/Config,
--   Reporting/Config, Relay/Loop and Worker/Start, which also starts the consumers of
--   crates/worker/src/main.rs;
-- - crates/outbox-relay/src/main.rs: Relay (`relay_batch`). Select, Send and Mark are about its
--   three phases, Batch about the whole, Delivered about what holds from batch to batch, Order
--   about which rows a batch takes, and Publish about a batch that nothing disturbs; Relay/Loop is
--   the polling loop of `main`, Backlog, Rounds and Drain say when it has emptied the outbox;
-- - crates/worker/src/consumer.rs: Worker/Consumer (the loop, `process_with_retry`, `send_to_dlq`).
--   Retries says what the retry library does, Handled what one message leaves, Run is about the
--   loop, Outbox says that it leaves the outbox alone, and Succeed is about a message that nothing
--   disturbs;
-- - crates/reporting/src/reports.rs: Reporting, with the SQL that it uses in Reporting/Groups, the
--   summary in Reporting/Laws, the listings in Reporting/Ranks, Reporting/Listings and
--   Reporting/Exact, and what the worker changes in the summary in Reporting/Settled;
-- - System: the services together, as steps over one database and one topic. Under System: Commits
--   breaks the steps into the changes that the database makes at once, Frames and Evolves are about
--   what is never undone, Money about the sum of all accounts, Paired and Outbox about the events
--   of the transactions, Reconciled about the comparison of the accounts with their entries, Arrives
--   about a request that nothing disturbs. Each batch of the relay has the broker's answers to its
--   own sends, so a history may have an outage and the recovery from it.
--
-- The worker and its parts:
-- - crates/worker/src/fraud.rs: Worker/Fraud; crates/worker/src/ledger.rs: Worker/Ledger, whose
--   `verify_account_balance` compares an account with its entries;
-- - crates/worker/src/processor.rs: Worker/Error (`ProcessError`), Worker/Postings
--   (`process_transfer`, `process_credit`, `process_debit`, `write_ledger_entry`, `mark_failed`)
--   and Worker/Processor (`process_transaction`, cut where its early returns are). Under
--   Worker/Postings: Spec is what the operations promise, without statements or errors, Steps,
--   Refine and Frame compare the code with it, and Locks is about the order of the row locks. Under
--   Worker/Ledger: Books is the invariant of the ledger, Total the sum of all balances, Operations
--   what a whole operation does to both, Conserve and Verify use them. Under Worker/Processor:
--   Effect says what an event may leave in the database, Steps, Attempt, Finish, Correct and
--   Outcome follow the function from its end to its start, Consistent is the invariant of the whole
--   database, and Replay is about histories. Undisturbed and Succeed, under Worker/Postings, and
--   Succeed, Undisturbed, Carry and Settle, under Worker/Processor, are about runs that nothing
--   disturbs.
--
-- A session has the committed tables and the working copy of the open transaction. A statement
-- answers from the working copy and changes it; a failed one aborts the transaction, as in
-- PostgreSQL; COMMIT makes the copy the committed state, and an early return leaves that state as
-- it was. What the code does not decide is the parameter `Env` of all of it: the error of each
-- statement, of BEGIN and of COMMIT (refused, or done with the answer lost), the answer to the
-- request for an advisory lock, the runtime's timer, the clock, the fault rules and the texts that
-- libraries print.
--
-- Choices. Amounts are whole numbers of ten-thousandths, the scale of NUMERIC(19,4); identifiers
-- are 128-bit numbers in their order; a column that is a Postgres enum is the data type of its
-- values. The balance of the domain's account is a rust_decimal value, whose arithmetic is a
-- parameter that may panic (Shared/Decimal); the requests' amounts are such values too. The
-- `version` fields of the domain aggregates wrap as i64 does in a release build; the call
-- counters of the faults and the entries' sequence numbers have no bound; columns out of range
-- are an error of the statement. There is no fuel: every function here is structural.
--
-- The retry library, the JSON, digest and hexadecimal libraries, the producer and the broker are
-- parameters. The retry library comes with its documented behaviour (Worker/Consumer/Retries),
-- which a concrete function has in Worker/Consumer/Tests.
--
-- Not modelled: logging, routing and metrics, the HTTP and Kafka libraries; the workers'
-- shutdown; the triggers of the schema, which no statement of the services meets. Two sessions do
-- not interleave inside a transaction: the row and advisory locks are taken as what keeps them
-- apart.
pub mod Prelude
pub mod Shared
pub mod Store
pub mod Ingestion
pub mod Relay
pub mod Worker
pub mod Reporting
pub mod System
