-- ===== src/Lib.antt =====
-- The message dispatcher: a service that takes unsent SMS messages from a PostgreSQL table, hands
-- them to an HTTP provider, marks them as sent and remembers their deliveries in Redis. A scheduler
-- runs a batch at every tick, under a lock in Redis that keeps several instances of the program
-- apart.
--
-- Which file models which part:
--   Domain, Domain/Validation: internal/domain/models.go. The structs are records of the same
--     fields, the interfaces are records of actions, `Message.IsValid` is `is_valid`.
--   Service: `MessageService` of internal/service/message_service.go (`ProcessMessages` is
--     `process_messages`, `processSingleMessage` is `process_single_message`). Its theorems are in
--     Service/Ledger (what it relies on of its collaborators), Batch, Loop, Outcome and Sent.
--   Service/Provider: `HTTPSMSProvider` of the same file.
--   Repository/Postgres, with Server, Queue, Marking, Creation, Fresh, Keys, Order and Backlog:
--     internal/repository/postgres.go. The text of a query is a record of its WHERE, ORDER BY,
--     LIMIT and SKIP LOCKED.
--   Repository/Cache, with Server, Deliveries and Pipelines: internal/repository/redis.go.
--   Redis: the client of Redis as the program calls it, and the two Lua scripts of
--     internal/lock/distributed_lock.go.
--   Lock, with Owner and Answered: internal/lock/distributed_lock.go; Lock/Value, with Drawn:
--     `generateLockValue`. Lock/Cluster, with Exclusion and Lapse: instances of the program that
--     share one Redis, as a step relation over acquire, release, extend and the death of an
--     instance.
--   Scheduler, with Rounds, Stuck and Recovery: the worker of internal/scheduler/scheduler.go on
--     the list of the events that its select receives, and the release at the end of `Stop`.
--     Scheduler/Lifecycle, with Sequential, Overlap and Return: `Start` and `Stop` beside the
--     workers, as a step relation.
--   Config, with Bounds: internal/config/config.go.
--   Handler, with Answers: internal/handler/message_handler.go; Scheduler/Lifecycle/Controller
--     joins it to the scheduler.
--   Server/Connection: the loops of `initDatabase` and `initRedis` of cmd/server/main.go.
--   Server/Application, with Startup and Pool: `NewApplication` with its steps up to the start of the
--     scheduler, and the closing of the systems at the end of `waitForShutdown`.
--   Server/Routes, with Control: the routes of `setupHTTPServer` and the handler behind them.
--     Server/Middleware, with Logged: `setupHTTPServer` around the routes, and `ginLogger`.
--   Server/Health: what `GET /health` answers when one of the systems behind the program is away.
--   Server/Main, with Late and Ends: `main` of cmd/server, with its `waitForShutdown`, as a relation
--     between the process at its start and at its exit, over the requests that it answers.
--   Gin: the chains of handlers of gin, for both servers.
--   Server/Assembly, with EndToEnd, Drain and Resend: how `NewApplication` puts the message service
--     together.
--   Fleet, with Shared, Invariant, Attempts, Once, Batches, Program and Failover: several instances
--     of the program over one database, one provider and one Redis, as a step relation over the calls
--     of `processBatch` and of `ProcessMessages`, in which an instance may die between two calls.
--     Batches joins it to Scheduler, Program to the assembly of the server. Fleet/Worker, with Beside: the
--     loop of a single instance over all of them.
--   MockApi, with MessageId, Middleware and Protocol: cmd/mock-api/main.go, by itself and as the
--     other end of the SMS provider.
--   TestMockApi, with Conversation: cmd/test-mock-api/main.go, by itself and against the mock.
--   Tools: the frame that the command line tools share. Tools/Migrate, with Again:
--     cmd/migrate/main.go. Tools/TestMessages, with Form and Loop: cmd/add-test-messages/main.go.
--     Tools/Queue: cmd/clear-messages/main.go and cmd/add-single-message/main.go. Tools/Exit: their
--     exit status.
--   Base: the shared types and lemmas, with `Atoi` and `ParseBool` of strconv in Base/Strconv and
--     the URL encoding of base64 in Base/Base64.
--   Tests: collaborators in memory, and the theorems at concrete inputs.
--
-- How the parts interact: the handler and the scheduler call a `MessageService`, which calls a
-- `MessageRepository`, a `CacheRepository` and an `SmsProvider`; each of these is a record of
-- actions that another module fills. An action takes the state of the outside world to a result and
-- a new state; an error is a value, and wrapping by `%w` keeps the wrapped one.
--
-- Code of others is a parameter: the clients of Redis, net/http and database/sql, encoding/json,
-- gin's binding, `time.ParseDuration`, the environment, the files, the random numbers and the
-- clock. What the program relies on of them is a record of laws (IsRedis, IsCacheServer,
-- IsPostgres, IsProvider, IsCounted, IsPooled, IsShell, IsHanding, IsRecovery, IsLog, IsOutput,
-- IsClosing, Speaks, Reaches, IsReliable, IsUp, IsDown) or a hypothesis (RoundTrips, Walks, IsFair,
-- SetsOwnKey), each met by a collaborator in Tests. The order in which Go walks over a map is a
-- parameter as well. IsLedger, IsShared and IsController are laws between components: the
-- repository on PostgreSQL fills the first (Server/Assembly/EndToEnd), the program the second
-- (Fleet/Program), the scheduler the third (Scheduler/Lifecycle/Controller).
--
-- Texts are lists of bytes, so that `len` counts bytes; `LENGTH` of SQL counts characters.
-- Identifiers, times and durations are natural numbers, durations in nanoseconds; the settings,
-- which may be negative, are integers, and `Atoi` keeps to 64 bits. All loops are structural; only
-- `itoa` runs on fuel, one more than its number, which exceeds the number of its digits. In
-- Lock/Cluster and in Fleet a key does not expire while its instance runs a batch;
-- Lock/Cluster/Lapse and the theorem on the extension of a short lock are about the case in which
-- it does.
--
-- Not modelled: the options of the logger and of the connection pool, which only go into other
-- code; what the tools other than cmd/test-mock-api print; the log lines other than those on
-- requests; the contexts and time-outs of single calls, which show only as errors; what `Recovery`
-- prints; how a signal arrives; a request that outlives the deadline of `httpServer.Shutdown`; and
-- the API docs, which are generated.
pub mod Base
pub mod Config
pub mod Domain
pub mod Gin
pub mod Handler
pub mod MockApi
pub mod TestMockApi
pub mod Service
pub mod Redis
pub mod Lock
pub mod Scheduler
pub mod Repository
pub mod Server
pub mod Fleet
pub mod Tools
mod Tests
