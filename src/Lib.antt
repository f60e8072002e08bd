-- ===== src/Lib.antt =====
-- A model of the transfer service of this repository, and the theorems that make it correct.
--
-- The program serves three HTTP endpoints. A handler of internal/api reads the request and calls a
-- service of internal/service, which validates it and runs the queries of internal/repository in one
-- transaction of PostgreSQL. Errors travel up as Go error chains, and internal/api maps them to a
-- status.
--
-- Prelude has library names, Boolean tests and integers; Strconv is Go's ParseInt and %d.
-- Decimal and Uuid are interfaces for the packages decimal and uuid, which are not in the repository:
-- operations, and the documented laws that the proofs take as an argument. Amounts that a column
-- holds are whole numbers of units of 10^-18.
-- Domain is internal/domain: the entities, and the error values with errors.Is and errors.As.
-- Result is a Go result with an error.
-- Database is migrations/0001_init.up.sql and the SQL statements of internal/repository: the four
-- tables as lists with the newest row first, sequences, and each statement with the constraints of
-- the schema in the order in which the server tests them. Database.Schema is migrations/ as statements
-- on a catalog of tables and indexes.
-- Action is a call of the driver. An action maps a world to a result and a world; a world is the
-- database with the list of what the surroundings will do at each round trip: what other
-- transactions have committed, a fault, and whether a commit whose reply is lost has landed.
-- Action.Ensures, Action.Orderly and Action.Quiet reason about actions.
-- Repository is internal/repository: Errors is errors.go, Tx is tx.go (WithTx is with_tx, runOnce is
-- run_once), Accounts is account_repo.go, Transfers is transfer_repo.go, GoMap is a Go map.
-- Service is internal/service: Money is money.go, Accounts is account_service.go, Transfers is
-- transfer_service.go. Drift says how the database may change while a call has no effect of its own.
-- Transfers.Decision is a reference definition of Transfer without transactions, queries and locks.
-- Audit has the invariant of the stored data, IsSound, and in Audit.Script audit_script.py, which
-- reads one state of the database.
-- Api is internal/api: Mapping is response.go, Handlers the two handlers, Routes router.go, Health
-- and Middleware the files of those names. Api.App has the public and the admin server as
-- cmd/server/main.go wires them together, and sequences of requests; Api.App.Answers is a state
-- machine on the database that says what each request is answered, and Api.App.Counting has tallies of
-- the metrics. Api.Metrics says which collector gets which label values.
-- Concurrency is several transfers at once: a session is one attempt of WithTx, which asks for the
-- rows of its two accounts in the order of the FOR UPDATE statement of LockForUpdate (its steps
-- `begin` and `lock`), and then runs the rest of execute and the commit (`run`). The writes of `run`
-- touch rows that the session holds and new rows only, so it is one step. A session may also end
-- early (`leave`), and accounts are opened meanwhile (`open_account`). Concurrency.Bank is the bank
-- without rows, locks and sessions: a balance for each account that is open, and the operations on
-- them. Concurrency.Serial explains the runs by histories of these operations.
-- Platform is internal/platform/postgres: Pool is db.go, Migrate is migrate.go with Names for its
-- file names, Tracer is tracer.go.
-- Config is internal/config/config.go: Load, over an interface for viper, and in Dsn DBConfig.DSN.
-- Observability is internal/observability, and Server is cmd/server/main.go as a sequence of events.
-- Tests runs the model on small data.
--
-- A transaction sees the database as it was at BEGIN together with its own writes, and its writes
-- are the database's at COMMIT. What others commit is seen at BEGIN and at a read on the pool; it may
-- be anything that the theorem's relation Rely allows. This is the view of one call; Concurrency has
-- the runs in which several transactions compete for the rows of the same account.
-- WithTx runs at most three attempts, so its loop is structural in the attempts that are left. A
-- commit that fails may have landed, except for a deadlock or a serialization failure, which the
-- server reports only for a commit that it has not carried out.
--
-- Versions, sequences and times are unbounded numbers, and an int64 is an integer. Not modelled: what
-- the servers do inside Run and Shutdown, the matching of routes, JSON and the handler of promhttp,
-- which are the framework's, and the interfaces of service/deps.go, which have one implementation each.

pub mod Prelude
pub mod Decimal
pub mod Domain
pub mod Result
pub mod Database
pub mod Action
pub mod Uuid
pub mod Repository
pub mod Service
pub mod Api
pub mod Concurrency
pub mod Platform
pub mod Config
pub mod Server
pub mod Observability
pub mod Strconv
pub mod Audit
mod Tests
