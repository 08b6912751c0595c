-- ===== src/Lib.antt =====
-- go-metrics-stas: an agent collects runtime metrics and sends them to a server, which keeps
-- counters and gauges in memory, in a file or in a database and serves them over HTTP and gRPC.
--
-- Parts and files.
--   Prelude and Dict hold shared names, and Go's `map[string]V` with its laws by key.
--   Model is internal/model/metrics.go.
--   Outcome has the errors of internal/repository and internal/service, and methods that may fail.
--   Repository is the interface `Storage` of internal/repository/storage.go, and Repository/Lawful
--   what a client may rely on. Repository/Mem is `MemStorage` of the same file; Repository/File is
--   `fileBackedStorage` of internal/repository/filestorage.go (in Start: `loadFromFile`,
--   `NewFileStorage`, the hooks). Repository/Batch says what a batch means.
--   Service is internal/service/metrics_service.go over any lawful storage, and in Service/OverPg over
--   PostgreSQL.
--   Repository/Pg is `postgresStorage` of internal/repository/pgstorage.go with the table of
--   migrations/000001_init.up.sql; Repository/Pg/Tx is its `UpdateBatch`. Repository/Pg/Refines has a
--   client of a storage, and the storage in memory with the sums of a BIGINT.
--   Repository/Factory is `New` of internal/config/db/db.go and `NewStorage` of
--   internal/repository/factory.go: which storage a server has.
--   Http is what the program uses of net/http. Audit is internal/audit/audit.go, Audit/Sinks the
--   auditors and module.go of that folder.
--   Handler is internal/handler/handler.go over the service: Handler/Text has the handlers of paths,
--   Handler/Json those of JSON bodies, Handler/Page the page of all metrics. A handler takes the
--   request, the response being written and the server (the storage and the events that the publisher
--   was told), and gives the last two.
--   Middleware has the guards of internal/middleware, which wrap a handler; Middleware/Compression is
--   its gzip.go, Middleware/Logging its logging.go, and Middleware/Compression/Arrives the guards in
--   the order of internal/server/server.go.
--   Router is `NewRouter` of internal/server/server.go over those handlers and guards, and in
--   Router/Delivery a batch on its way from the agent's client to the storage; Handler/Health is the
--   handler of internal/handler/health.go.
--   Rpc is internal/grpcserver, with what internal/agent/grpc_client.go sends it (in Rpc/Sent),
--   where the connection does not fail and the time limit of the call does not run out.
--   Agent/Wiring is the choice of a sender in internal/agent/agent.go.
--   Agent/Client is internal/agent/client.go, Agent/Collector is internal/agent/collector.go.
--   Agent/Workers is the goroutines of internal/agent/agent.go, whose steps, in any order, are the
--   relation of Agent/Workers/Moves.
--   Config is internal/config: Config/Server is `NewServerConfig`, Config/Agent is `NewAgentConfig`;
--   Config/Priority says where a setting comes from.
--   Linter is cmd/linter/exitcheck/exitcheck.go over the calls that go/ast and go/types give it.
--   Reset is the generator of cmd/reset/main.go: the statement for a field, in Reset/Print its
--   text and that of the file, in Reset/Walk the walk over the packages and the files that are written.
--   Pool is internal/pool/pool.go: objects with identities, and users that interleave.
--   Crypto is `Encrypt` and `Decrypt` of internal/crypto/crypto.go, Crypto/Keys the loading of keys.
--
-- Numbers. An int64 is its 64 bits as a number below 2 ^ 64, so a sum is taken modulo 2 ^ 64; a
-- float64 is an uninterpreted bit pattern, which is stored and never computed with.
--
-- Loops recurse on the list they range over; the loop of `retryPG` recurses on the waits that are
-- left, so that no fuel is needed.
--
-- Parameters. The encoding of JSON, strconv, RSA, AES-GCM, HMAC, the parsing of networks and the clock
-- are parameters; faults of the disk and of the database are schedules that a state carries.
--
-- A mutex makes each method of a storage one step, so a run is a sequence of methods. A save to a file
-- is one step too, although it is not under the mutex: saves that overlap on their one .tmp file are
-- not modelled. The waits between tries, logging and the column updated_at are left out.
--
-- Steps that interleave. The goroutines of an agent and the users of a pool are relations on a state,
-- whose runs are in any order; a channel is a bounded queue, a panic ends a run. OnStop may come before
-- `Run`; that `Run` makes the channel and starts its goroutines is one step. A call of the sender that
-- has returned counts as tried, whatever it returned.
--
-- Not modelled: how go/packages and go/types load code, the migrations of the database, the tickers
-- and the time limits, the lines that are logged, and the wiring of chi and fx. Most of these are calls
-- of libraries, or start-up.
pub mod Prelude
pub mod Dict
pub mod Model
pub mod Outcome
pub mod Repository
pub mod Service
pub mod Crypto
pub mod Http
pub mod Audit
pub mod Handler
pub mod Middleware
pub mod Rpc
pub mod Agent
pub mod Config
pub mod Linter
pub mod Reset
pub mod Pool
pub mod Router
