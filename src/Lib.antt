-- ===== src/Lib.antt =====
-- Prompt-Response, a router in front of LLM replicas: a proxy classifies a request, picks a model
-- tier and a replica for it, and retries on another replica when one fails. The library models the
-- router's logic (internal/), its terminal client and mock, and the benchmark of its load test, and
-- proves what makes each part correct.
--
-- How the parts interact: the proxy reads the messages of a request (Proxy.Messages), asks the
-- scorer for a replica (Scorer), which reads the poller's states (Poller), the affinity in the store
-- (Store) and the circuit breakers (Circuit), and repeats this in the retry loop (Proxy.Retry). A
-- conversation keeps its tier in the store (Proxy.Turn), and the response is read on its way to the
-- client (Proxy.Stream). Tiers and their rules are in Types; the replica list is made from the
-- configuration (Config). Authentication (Auth) and the limiter (RateLimit) stand before the proxy
-- (Router); the audit trail (Audit), the usage tracker and its sink (Usage) are written after a
-- response. Proxy/Serve puts these parts together as the handler does, and Start makes the handler
-- and its state from a configuration and gives it the requests that the chain of handlers before it
-- passes on. Mock answers as a router with a canned text, and the terminal client (Cli) reads that
-- stream as it does the router's.
--
-- Which file models which code, paths from the repository's root:
--   Circuit/Window, Circuit/Breaker, Circuit/Registry: internal/circuit/breaker.go
--   RateLimit: internal/ratelimit/bucket.go and middleware.go
--   Audit: internal/audit/trail.go and record.go
--   Types, Types/Tiers: internal/types/types.go
--   Store: internal/store/store.go and memory.go
--   Poller, Poller/Metrics: internal/poller/poller.go and checker.go
--   Scorer: internal/scorer/scorer.go, and the weights of internal/config/config.go
--   Store/Redis: internal/store/redis.go
--   Usage: internal/usage/tracker.go
--   Usage/Sink, Usage/Postgres: internal/usage/sink.go and postgres.go
--   Proxy/Serve: `ServeHTTP` of internal/proxy/handler.go, from the parts in the next three lines
--   Proxy/Messages, Proxy/Retry, Proxy/Turn, Proxy/Forward: internal/proxy/handler.go
--   Proxy/Stream, Proxy/DeadReplica: internal/proxy/stream.go and deadreplica.go
--   Proxy/Pages: internal/proxy/handler.go and errors.go
--   Router: internal/middleware/middleware.go, and the chain of handlers in cmd/router/main.go
--   Classifier: internal/classifier/classifier_router.go
--   Config: internal/config/config.go
--   Cli, Cli/Tui: cmd/cli/client.go and tui.go
--   Mock: cmd/mock/main.go
--   LoadTest, LoadTest/Models: test/router_bench.go
--   Start: `main` of cmd/router/main.go, and `Load` of internal/config/config.go
--   Auth: internal/auth/auth.go and middleware.go
-- A function keeps its name in snake case. A method on a pointer takes the state and returns the new
-- one; the mutexes of the source make each such call one step. The clock is an argument, in
-- nanoseconds. A panic is `none`. Modules below these hold the lemmas and theorems; Tests holds runs
-- on concrete inputs; Common holds texts, maps, lists and numbers.
--
-- Numbers: counters are natural numbers or integers, with the wrap at 2 ^ 64 where the source adds up
-- without bound (Usage). float64 is an interface (Common/Numbers) whose laws IEEE 754 has at every
-- value, except in RateLimit, which counts in exact parts of a token, and in LoadTest/Models, which
-- counts in exact parts of a megabyte.
--
-- Loops: the retry loop runs on its number of attempts, and all other loops on a list or on a count
-- that the source computes first; the event loop of Proxy/Stream runs for as many rounds as there are
-- bytes, which are enough, since each round takes bytes off the buffer.
--
-- Concurrency: the sink's queue, its worker and their callers are a step relation (Usage/Sink), and
-- so are the requests of a load test and the mock models that they share (LoadTest/Models).
-- Elsewhere the calls of shared objects are taken one after another, and Proxy/Serve takes whole
-- requests one after another; Proxy/Turn/Race takes two turns of which both read the store before
-- either writes. The race of a tick with the end of a stream is an argument.
--
-- Not modelled: HTTP, JSON, logs and metrics; the Redis client, which is an argument with the laws
-- that it documents, and the Postgres client, whose answers are arguments; what the terminal client
-- draws, and the mock's pages of constant data; the times of the load test, its percentiles and its
-- random arrivals (float64), and the start of a vLLM server (internal/config/replica_load.go); the
-- old classifiers, which are commented out, and the classifier service and the web interface, which
-- are in other languages.
pub mod Common
pub mod Circuit
pub mod Audit
pub mod RateLimit
pub mod Types
pub mod Router
pub mod Store
pub mod Poller
pub mod Scorer
pub mod Usage
pub mod Proxy
pub mod Classifier
pub mod Config
pub mod Auth
pub mod Tests
pub mod Cli
pub mod Mock
pub mod LoadTest
pub mod Start
