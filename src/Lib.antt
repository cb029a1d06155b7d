-- ===== src/Lib.antt =====
-- The API gateway: a model of its Go code, and what holds of it.
--
-- The gateway authenticates requests, limits their rate, takes jobs that it stores in memory and
-- publishes over NATS, and forwards other requests to the backends that Consul knows. A request
-- goes through the middlewares to a handler. The job handlers (SubmitJob, GetJobStatus,
-- CancelJob, ListJobs, ListJobsByStatus) work on the job store and on the NATS client, which also
-- writes status updates into the same store. The account handlers make the tokens that the JWT
-- middleware checks. The proxy asks a load balancer for an instance; the registry's watcher
-- renews the instances. At the start the configuration is loaded, the gateway is registered at
-- Consul, and the router is put together.
--
-- Files, and the code that each is about:
--   Storage        internal/storage/job_store.go: JobStore and its methods, as functions on a
--                  record; Sort is the exchange sort of cleanupOldJobs, Refinement a store as a
--                  function from IDs to jobs, Expected the jobs that its operations are to leave
--   Discovery      Balancer is internal/discovery/loadbalancer.go, Registry is
--                  internal/discovery/consul.go; Registry/Watch is the loop of WatchService;
--                  Balancer/Interleaving is InstanceEnd in its two atomic steps
--   Proxy          internal/proxy/proxy.go, with the route "/services" of cmd/main.go
--   Middleware     Auth, Cors, RateLimit, Logging, Metrics and Recovery are the files of these names
--                  in internal/middleware, with internal/metrics/metrics.go;
--                  RateLimit/Interleaving is GetLimiter and the janitor in the steps between which
--                  they hold no lock
--   Messaging      internal/messaging/nats.go: NATSClient; StatusUpdates is the callback of
--                  SubscribeToStatusUpdates, StatusUpdates/Lost what happens between its calls, and
--                  Connections the opening and closing of the connection
--   Handlers       Jobs is internal/handlers/job_submission.go, Accounts is
--                  internal/handlers/auth.go
--   Config         internal/config.go and the level of internal/logger.go; Config/Expand is
--                  os.ExpandEnv, by which LoadConfig reads environment variables
--   Router         cmd/main.go: the routes, the middlewares of their groups, those of every request
--   Startup        cmd/main.go before that: Launch is main up to the handlers and the rate limiter,
--                  Registration the registration at Consul, Port the reading of the port with
--                  fmt.Sscanf
--   Http           the parts of net/http and of the request context that these use
--   Common         Go's maps, times, integers and texts, and lemmas on them
--
-- State is passed on: an operation takes the state and returns it changed, a handler takes the
-- request, the state and the response so far, and a middleware takes a handler and adds its own state
-- to the handler's. A panic is a value, too. Each call is one step: what the code guards by a lock is,
-- and what it does not guard is taken as if it were. Where that hides what can happen, calls are
-- split into the steps that are atomic, and a relation on states, or an arbitrary store in
-- between, stands for the steps of the others: for InstanceEnd, for GetLimiter and the janitor, for
-- the gauge of the requests under way, and for status updates. `sync.Map` and `map` are
-- association lists, whose order stands for the order in which `range` goes through them.
--
-- Numbers are natural numbers. The uint64 counters of the load balancer wrap at 2 ^ 64 and their
-- conversion to int is written out; times are nanoseconds since Go's zero time and do not overflow.
-- Loops are structural recursion on the list that they go through; the decimal digits of a number
-- are made with the number itself as fuel, which is more than it has digits, and the expansion of
-- environment variables with the length of the text, since each of its rounds takes a character.
--
-- What is not in the repository is an argument: the JWT library with its documented laws
-- (Middleware/Auth/Library), the token buckets of golang.org/x/time/rate and the address functions of
-- net (Middleware/RateLimit/Library), the Consul client (Discovery/Registry) and whether its default
-- configuration has an HTTP client, the NATS broker, the YAML library, the JSON decoder, chi, which
-- finds the route of a request and has four middlewares of its own (Router), strings.ToLower, the
-- file system and the environment, new UUIDs, random numbers, the clock and the backends.
--
-- Not modelled: the HTTP server, the signals and the shutdown at the end of cmd/main.go, but for the
-- registration, which Startup takes back at a signal and not after a failure of the server; what is logged,
-- but for the entries of the middlewares, since nothing reads it, and the encoder of the log in
-- internal/logger.go; the callbacks of the NATS connection, which only log. The
-- unguarded access of concurrent requests to the maps of the proxy and of the accounts has no
-- meaning in Go, and none here.
mod Common
pub mod Storage
pub mod Discovery
mod Http
pub mod Middleware
pub mod Messaging
pub mod Handlers
pub mod Proxy
pub mod Startup
pub mod Router
pub mod Config
