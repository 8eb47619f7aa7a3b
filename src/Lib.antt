-- ===== src/Lib.antt =====
-- A verification library for onlyapi, a TypeScript HTTP API server.
--
-- The server is built in layers: src/core holds the domain types and the ports (interfaces),
-- src/application the services, src/infrastructure the adapters that implement the ports, and
-- src/presentation the HTTP layer. This library models stateful components, each as a record or a map
-- and one function for each operation, and the authentication service over the ports that it uses, and
-- proves what they promise.
--
-- Base: names passed on from the libraries, Boolean tests, lists, JavaScript maps with text keys
--   (Base/Maps), the few signed integers needed (Base/Int), decimal digits (Base/Decimal), tests below a
--   bound by evaluation (Base/Ranges), when | and ^ are 0 (Base/Bits)
--   and texts as lists of code units (Base/Texts).
-- Core: src/core/errors/app-error.ts, src/core/types/result.ts, src/core/entities/user.entity.ts,
--   src/core/ports/token-service.ts and src/core/types/pagination.ts.
--   Core/Operations is the monad of the calls of a port.
-- Application/Auth: src/application/services/auth.service.ts. login is in Auth, with Login for its
--   theorems; refresh, logout and mfaVerify are in Auth/Sessions. The service takes its ports as the
--   record Ports of operations on a state of the whole system. Auth/Replay states what it relies on as
--   BlacklistLaws; Replay/Requests has requests one after another, and Replay/Interleaved the parts of
--   refreshes that are served at the same time: a refresh is cut where it waits for the token service
--   (refresh_check, refresh_rotate). Auth/Memory fills the ports by the adapters modelled here, and
--   Memory/Laws the laws.
--   Hashing, password checks, tokens and TOTP are parameters (Platform).
-- Application/Account: the other calls of auth.service.ts, over AccountPorts; Guards has its theorems.
-- Application/UserService: src/application/services/user.service.ts.
-- Application/AdminService: src/application/services/admin.service.ts.
-- Database/VerificationTokens: src/infrastructure/database/sqlite-verification-tokens.ts, on the rows of
--   its table.
-- Database/Lockout: src/infrastructure/database/sqlite-account-lockout.ts, on the rows of its table.
--   Calls and Runs compare its answers with those in memory.
-- Database/Users: src/infrastructure/database/in-memory-user.repository.ts. list is in Users/Pages, where
--   Walk follows its cursors; a walk of one page more than there are users is long enough.
-- Database/SqliteUsers: src/infrastructure/database/sqlite-user.repository.ts, on the rows of its table; Rows
--   has the users that a table stands for, Statements, Agreement, Pages and
--   Searches its theorems; Searches writes out what SQLite documents of LIKE, for a hypothesis.
-- Database/ApiKeys: src/infrastructure/database/sqlite-api-keys.ts, on the rows of its table, and
--   src/application/services/api-key.service.ts (create_for_days and verify_touch).
-- Database/Migrations: src/infrastructure/database/migrations/runner.ts, over tables of any type.
-- Database/Families: src/infrastructure/database/sqlite-refresh-token-store.ts, on the rows of its table.
-- Security/PasswordPolicy: src/infrastructure/security/password-policy.ts, on UTF-16 code units.
-- Security/Base32, Security/Totp: src/infrastructure/security/totp-service.ts, on code units and bytes.
-- Security/TokenService: src/infrastructure/security/token-service.ts. The run time's HMAC, base64, text
--   encoder and JSON are the record Platform. Signatures and Forgery have its theorems.
-- Security/Lockout: src/infrastructure/security/account-lockout.ts. recordFailedAttempt, resetAttempts
--   and isLocked are record_failed_attempt, reset_attempts and is_locked.
-- Security/Blacklist: src/infrastructure/security/token-blacklist.ts: add, is_blacklisted, prune.
-- Cache/InMemory: src/infrastructure/cache/in-memory-cache.ts. get, set, has and delPattern are fetch,
--   put, exists and del_pattern; Calls and Runs have the answers
--   after any calls; incr takes JavaScript's + as a parameter, and del_pattern the test of
--   the regular expression that the pattern is turned into.
-- Cache/Redis: src/infrastructure/cache/redis-cache.ts. Pending is about its connection, Replies and Keys
--   about the answers.
-- Resilience/Circuit: src/infrastructure/resilience/circuit-breaker.ts. execute waits for the call that
--   it guards, so it is begin before the call, and record_success or record_failure after it.
-- Resilience/Retry: src/infrastructure/resilience/retry.ts. The loop recurs on the attempts left, so it
--   needs no fuel. The jitter (Math.random and Math.round) is a parameter.
-- Jobs/Queue: src/infrastructure/jobs/job-queue.ts. processJob waits for its handler, so it is start_job
--   before the call and complete after it; the calls that wait are part of the state, and what happens to a
--   queue is the relation Step of Jobs/Queue/Invariant.
-- Events/Bus: src/infrastructure/events/event-bus.ts. The sets of handlers live in a heap, since an
--   unsubscribe function keeps its own; Runs has the buses that calls lead to.
-- Events/Webhooks: src/infrastructure/events/in-memory-webhook-registry.ts and src/core/ports/webhook.ts.
-- Tracing/Context: src/infrastructure/tracing/trace-context.ts, on code units. RoundTrip and Forms
--   have its theorems.
-- Metrics/Prometheus: src/infrastructure/metrics/prometheus.ts, its counters and histograms.
-- Presentation/Access: src/presentation/middleware/auth.ts, api-key.ts, cors.ts and versioning.ts, with
--   the verify of Security/TokenService in Access/Bearer.
-- Presentation/Router: src/presentation/routes/router.ts, with the handlers as names. Routes gives the
--   requests of each handler, Matchers and Dispatch the theorems.
-- Presentation/Server: src/presentation/server.ts, with the handler cut in two at the call of the router.
--   Limits is about its limiter, Requests its counters, Logs its access log, Paths the path of a URL.
-- Presentation/WebSockets: src/presentation/handlers/websocket.handler.ts. Messages, Runs and Delivery have
--   its theorems, by the relation Run of the calls and the messages received.
-- Presentation/EventStreams: src/presentation/handlers/sse.handler.ts, over Events/Bus. Connections has the
--   relation of the calls, Preservation and Delivery the theorems.
-- Presentation/RateLimit: src/presentation/middleware/rate-limit.ts.
--
-- Time is a number of milliseconds and an argument, or in Auth and Account part of the state. An
-- operation that does not wait reads the clock once. Numbers are unbounded: the counters and
-- times of the program stay far below the integers that
-- JavaScript's numbers hold exactly. Ids that the run time generates are arguments, new where that matters.
--
-- The logger, input and output are left out, and so are the other HTTP handlers, the other database
-- adapters, the command line and the configuration.
pub mod Base
pub mod Core
pub mod Security
pub mod Database
pub mod Application
pub mod Cache
pub mod Resilience
pub mod Jobs
pub mod Events
pub mod Tracing
pub mod Metrics
pub mod Presentation
