-- ===== src/Lib.antt =====
-- Verification of the game rewards service: an HTTP API through which players claim rewards, and a
-- worker that publishes the outbox events of those claims. Both work on one PostgreSQL database.
--
-- The API validates a claim, reserves its idempotency key, inserts the claim and its outbox event
-- and stores the response, all in one transaction. The worker claims an event under a lease,
-- publishes it, and records the outcome as published, as a retry or as a dead letter. Both
-- processes read their settings from environment variables.
--
-- Base: bytes and UTF-8 (Base.Text), trimming of white space (Base.Text.Space), signed numbers and
-- int64 (Base.Int), lists, and Go's pair of a value and an error (Base.Results).
--
-- Errors: the error values of the packages and errors.Is over wrapped errors; contexts with their
-- cause.
--
-- Postgres: internal/postgres/availability.go. Network timeouts are a parameter of the driver.
--
-- Outbox: internal/outbox. Outbox.Store is store.go over a table of rows, with the CHECK
-- constraints of migrations/000001_create_schema.up.sql on the columns that a transition writes
-- (the UNIQUE constraint on aggregate and event type and the checks of lengths and of the payload
-- concern columns that only the insert writes, and are not part of it; an identifier that is no
-- uuid, for which PostgreSQL answers with an error, reaches no row in the model, and ClaimNext
-- gives none); each call says what clock, locks and answer it meets. Outbox.Backoff is backoff.go,
-- Outbox.Worker is worker.go up to runOnce over the Store interface, Outbox.Run is the loop of Run
-- over a schedule. Outbox.Delivery joins the worker to the PostgreSQL store, and
-- Outbox.Delivery.Drain is about iterations one after the other, with the publish attempts of an
-- event counted in Outbox.Delivery.Queue, iterations with an accepting publisher in
-- Outbox.Delivery.Publishes, the event of a claim put into the table in Outbox.Delivery.Enqueued,
-- and sums over the table in Outbox.Store.Totals; Outbox.Store.Lease is about the lease that a
-- claim writes, Outbox.Store.Leased about what happens in other workers until it runs out;
-- Outbox.Store.History is the reachability of tables under any interleaving of claims,
-- transitions, inserts and clock steps.
--
-- Rewards: internal/rewards. Rewards.Claim is claim.go, event.go and response.go, Rewards.Validate
-- and Rewards.Service are service.go, Rewards.Tables holds the tables and the statements,
-- Rewards.Transaction the functions of postgres.go that run one statement, Rewards.Create is
-- createClaim, and Rewards.Create.Rows says what its statements do to the rows. A transaction
-- meets a schedule of turns: what other transactions commit before a statement, and the error in
-- place of its answer. Rewards.Create.Serial is about the empty schedule, Rewards.Create.Rounds
-- and Rewards.Create.Atomic about every schedule, the latter over the steps in
-- Rewards.Create.Steps, the writes of a request in Rewards.Create.Batch, and the way to a commit
-- in Rewards.Create.Completion. Rewards.Create.Linked says how the three tables hang together,
-- Rewards.Create.Kept that a stored response stays, Rewards.Create.Retry what a second request
-- finds, and Rewards.Create.Found what one finds whose key was used by any request.
-- Rewards.Create.Traffic is about tables on which any number of requests and clean-ups of old keys
-- have run, each of them on a schedule made of such requests. The clean-up of published events,
-- which docs/runbook.md describes too, is not part of that traffic.
--
-- Config: internal/config/config.go, over a lookup function. Config.Values are the getters,
-- Config.Load the loaders, Config.Budget the lease budget, Config.Accepted the constructors that
-- take the settings.
--
-- Http: internal/httpapi/reward_claims.go. Http.Decode is what the handler reads of a request,
-- Http.Handler is the handler over any service, Http.Outcomes says which requests reach the
-- service, and Http.Again puts the handler over the service of Rewards; Web.Router.Again does so
-- for the whole API.
--
-- Rewards.Uuid is uuid.go over the bytes of crypto/rand.
--
-- Web: the rest of internal/httpapi, internal/adminhttp/server.go and internal/health/health.go,
-- as the calls that handlers make on a response writer. Web.Responses is response.go, Web.Health
-- is health.go, Web.RequestId and Web.Middleware are middleware.go, Web.Router is routes.go,
-- server.go and the metrics handler of internal/observability/registry.go, Web.Admin is the server
-- of the worker. Web.Recorded says what statusRecorder keeps, against what reaches the client. A
-- handler may panic after its calls; the identifier in the context of a request is a field of the
-- request.
--
-- Metrics: internal/observability. Metrics.Http, Metrics.Rewards and Metrics.Worker are the files
-- of these names, over registry.go in Metrics: what an observer is told becomes a list of samples,
-- each the name of a collector with label values. prometheus.BuildFQName joins its arguments with
-- underscores.
--
-- Postgres.Pool: internal/postgres/pool.go, over the answers of pgx.
--
-- Process: cmd/api/main.go and cmd/worker/main.go. Process.Api and Process.Worker are the two
-- functions run, from what the process meets to its exit code and its actions in order;
-- Process.Stop is the shutdown of both. The results that reach stopComponents before its deadline
-- are a list, at the end of which the deadline has passed, as that of a context with a timeout
-- does. Config.Samples, Metrics.Samples, Outbox.Samples, Rewards.Samples and Web.Samples hold data
-- for the tests.
--
-- Names are those of the source in snake case. Durations are whole nanoseconds, as signed numbers;
-- int64 arithmetic is wrapped where the code computes with it. Instants are numbers of
-- microseconds since an epoch, as PostgreSQL keeps them.
--
-- The loop of retryDelay runs on the number of failures, which bounds its rounds. The reservation
-- loop of createClaim runs on fuel; each further round uses up a turn of the schedule, so more
-- fuel than turns is enough. The loop of Run is recursion on its schedule.
--
-- Parameters of the model are crypto/sha256, encoding/json, time.Time.Format, time.ParseDuration,
-- strconv.Atoi, strings.ToLower, mime.ParseMediaType, net.SplitHostPort, http.Error, the redirects
-- of http.ServeMux, the bytes of crypto/rand, strconv.Itoa, the registry of Prometheus, the
-- listeners and servers of net/http, the driver's errors and its intervals. Log lines (but for
-- their level and class in the HTTP handler), measured durations, the deferred rollback's own
-- errors and the wall clock are not modelled. The functions main and newLogger only call the
-- standard library.
pub mod Base
pub mod Config
pub mod Errors
pub mod Http
pub mod Metrics
pub mod Outbox
pub mod Postgres
pub mod Process
pub mod Rewards
pub mod Web
