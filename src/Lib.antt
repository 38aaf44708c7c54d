-- ===== src/Lib.antt =====
-- A model of the core of a payments service that hands transfers to a bank: requests are stored with
-- an event in one transaction, a relay takes the events out of the outbox and hands each to the
-- handler of its type, and the handlers ask the bank behind a circuit breaker.
--
-- Base holds what all share: Boolean tests, lists over the native numbers and int64 with its
-- wrap-around. The other modules are the program's parts.
--
-- * Platform. `World` is the state: the committed tables, those of the open transaction, the breaker,
--   and what is outside the repository as functions and lists: the clock, the identifiers, the bank,
--   the sender of notices, the outcome of each coming SQL statement, and what other processes commit
--   before each coming transaction. An `Action` is a step of this state that returns a value or an
--   error. `Sql.do_tx` is `SQLManager.Do` (internal/platform/transaction/manager_sql.go). A query
--   outside `tx` reads the committed tables, also within a transaction, as the repositories do.
--   `Errors` has the error values with `errors.Is` and `errors.As`, `Json` the payloads, `Bank` the
--   types of the client (internal/platform/sunabar/types.go).
-- * Transfer (internal/modules/transfer). `Status` and `Entity` are the aggregate, `Payload` its
--   events, `Breaker` is application/circuit_breaker.go, `Repository` is
--   infrastructure/repository_sql.go, `Request` is `RequestTransferUseCase.Execute`, `Send` is
--   `SendToSunabarHandler.Handle`, `Check` is `CheckStatusHandler.Handle`, and `Transport` is
--   transport_http.go.
-- * Outbox (internal/platform/outbox). `Publisher` writes events, `Due` is the query for a batch,
--   `Relay` is the relay, `Backoff` its delays and `Processed` is `MarkProcessed`.
-- * Notification (internal/modules/notification). `Handler` is `TransferEventHandler.Handle`.
-- * Reconciliation (internal/modules/reconciliation). `Invoice` is domain/invoice.go,
--   `Repository` is infrastructure/repository_sql.go, and `Reconcile` is application/usecase.go.
-- * Account (internal/modules/account). `Entity` is domain/account.go, `Repository` is
--   infrastructure/repository_sql.go, `Sync` and `Issue` are the use cases of
--   application/usecase.go, and `Transport` is transport_http.go.
-- * Sunabar (internal/platform/sunabar). `Client` is the HTTP client: `do_request` is the request that
--   its methods share, `Endpoints` and `Orders` are the methods, `Wire` the bodies and `Json` their
--   reading. `Number` reads and writes the numbers in them, and `Auth` has the sources of tokens. The
--   client runs in a state of its own, `Session`, since for the other modules it is the interface
--   `Client`, whose functions `World` has.
-- * Observability (internal/platform/observability). `Mask` is mask.go, `Metrics` is metrics.go, and
--   `Correlation` is correlation.go and middleware.go.
-- * Cmd. `Relay` registers the handlers of cmd/relay/main.go, `Reconciler` is a tick of
--   cmd/reconciler/main.go, and `Api` has the endpoints that cmd/api/main.go adds.
-- * Examples applies the theorems to concrete data.
--
-- Bounds. The loops of the program run over lists and are structural recursion; `Relay.run` takes
-- the ticks that come before it is cancelled as a list. `decimal` and `lenStr` are given
-- fuel for 20 digits, and an int64 has 19 at most. Instants and durations are whole nanoseconds
-- since the zero time. The failure rate, a float64, is a fraction, with which quotients are compared exactly.
--
-- Not modelled: a panic within a transaction, the cancellation of contexts, logging, the mock of the
-- bank, the probe of the sandbox (cmd/sunabar-probe), and the servers and signals of the programs. The random
-- identifiers, the network, the token endpoint and the packages of dates and URLs are functions of the
-- environment, and so are the locks that other workers hold on the rows of the outbox, which the
-- query of the relay skips. Keys are compared as they are, where the collation of the tables takes upper
-- and lower case for the same. The tables keep instants as the clock gives them, where the columns
-- DATETIME(6) round them to the microsecond. A decoder of JSON texts finds an object with its keys in
-- their order: the syntax of JSON is that of the library.
pub mod Base
pub mod Platform
pub mod Outbox
pub mod Transfer
pub mod Reconciliation
pub mod Notification
pub mod Sunabar
pub mod Account
pub mod Observability
pub mod Cmd
pub mod Examples
