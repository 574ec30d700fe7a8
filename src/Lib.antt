-- ===== src/Lib.antt =====
-- Docker Network Doctor is a command-line tool that diagnoses the networking of Docker. A command of
-- internal/cli builds an engine (internal/diagnostics), which runs a list of checks against the Docker
-- daemon through a client (internal/docker). The client answers repeated questions from a response
-- cache and repeats failed calls under a retry policy. The engine hands checks to a pool of workers,
-- where a security validator decides which of them may run and an error-rate monitor stops it after
-- too many failures; a rate limiter of the engine counts and paces checks; error recovery guards
-- operations with a circuit breaker, and a profiler keeps its measurements in a bounded timing storage.
-- The error recovery frees tracked resources through a cleanup manager, the client counts its calls and
-- their durations, and a collector of the profiler samples the process.
--
-- The parts that are modelled, each with its operations in the file named first and its laws in the
-- files below it; a method of Go is a function of the same name that takes and returns the state:
--   Breaker.antt, Breaker/Operations.antt: internal/diagnostics/circuit_breaker.go. `guarded_attempt`
--     is the breaker's part of ExecuteWithRecovery in internal/diagnostics/error_recovery.go, whose
--     whole stands in Recovery/Operations.antt.
--     Breaker/Invariant.antt, Breaker/Recovery.antt, Breaker/Outage.antt: laws over lists of calls.
--   Retry.antt: internal/docker/retry_policy.go. The operation is a function from the number of an
--     attempt to its outcome, and an argument says which waits the context cancels.
--     Retry/Search.antt: the substring search; Retry/Attempts.antt: the two loops.
--   Cache.antt: internal/docker/response_cache.go. Cache/Eviction.antt and Cache/Bound.antt: the bound
--     on the number of entries; Cache/Lookups.antt and Cache/Expiry.antt: what getters answer.
--   Timing.antt, Timing/Buffer.antt: internal/diagnostics/timing_storage.go, the writers and the
--     readers. Timing/Chronology.antt, Timing/Steps.antt and Timing/Window.antt: the order of the
--     circular buffer; Timing/Counts.antt and Timing/Indexes.antt: its indexes.
--   Limiter.antt: internal/diagnostics/rate_limiter.go. Limiter/Accounts.antt: its metrics over lists
--     of calls.
--   Errors.antt, Errors/Codes.antt: internal/diagnostics/error_types.go, with the errors of the other
--     parts as values.
--   Backoff.antt, Backoff/Execute.antt: internal/diagnostics/retry_policy.go. Backoff/Delays.antt: the
--     delays and the errors that are retried; Backoff/Counts.antt, Backoff/Runs.antt: a run of Execute.
--   Recovery.antt, Recovery/Operations.antt: internal/diagnostics/error_recovery.go over the breaker, the
--     retry policy and an interface of the cleanup manager. Recovery/Outcomes.antt: one call;
--     Recovery/Accounts.antt, Recovery/Calls.antt, Recovery/Wrapping.antt: lists of calls; Recovery/Calm.antt,
--     Recovery/Managed.antt: the recovery over the cleanup manager that it makes.
--   Engine.antt, Engine/Runs.antt: internal/diagnostics/engine.go over the rate limiter, with the checks'
--     outcomes given. Engine/Summaries.antt: summary and metrics; Engine/Sequence.antt: the sequential
--     run; Engine/Collecting.antt: the loop over the results of the pool.
--   Pool.antt, Pool/Steps.antt: internal/diagnostics/worker_pool.go as steps of its goroutines, over the
--     monitor and the security validator. Pool/Accounts.antt, Pool/Endings.antt, Pool/Runs.antt: the
--     counters over any interleaving; Pool/Refusals.antt: an open circuit; Pool/Cancelled.antt: what becomes of jobs with a cancelled context,
--     and of a run of the engine over them.
--   Monitor.antt: the ErrorRateMonitor of internal/diagnostics/worker_pool.go, with the places in Submit
--     and worker that use it. Monitor/Windows.antt: when it is open.
--   Security.antt, Security/Operations.antt: internal/diagnostics/security_validator.go.
--     Security/Names.antt, Security/Decision.antt, Security/Calls.antt, Security/Policy.antt: laws on
--     names, on one validation, and on lists of calls.
--   Degradation.antt: internal/diagnostics/graceful_degradation.go, with its lock. Degradation/Laws.antt:
--     which checks run, and how levels change.
--   Cleanup.antt, Cleanup/Operations.antt: internal/diagnostics/resource_cleanup.go. Cleanup/Single.antt,
--     Cleanup/Batches.antt, Cleanup/Attempts.antt: what one cleanup tries, whatever the order in which the
--     goroutines of a batch answer; Cleanup/Keys.antt, Cleanup/Calls.antt, Cleanup/Accounts.antt,
--     Cleanup/Clientless.antt: lists of calls, with the metrics and the history.
--   ClientMetrics.antt: internal/docker/client_metrics.go. ClientMetrics/Sorting.antt,
--     ClientMetrics/Percentiles.antt, ClientMetrics/Trackers.antt: the durations;
--     ClientMetrics/Accounts.antt: the counters over lists of calls.
--   Collector.antt: internal/diagnostics/metrics_collector.go. Collector/Lifecycle.antt: Start and Stop;
--     Collector/Buffer.antt: the samples.
--   Prelude.antt and its children: signed integers, Go's maps as association lists, strings as lists of
--     bytes, times as numbers of nanoseconds, durations as integers; buffers that keep the latest
--     (Prelude/Latest.antt) and lists in an order that is given (Prelude/Schedule.antt).
-- Each Tests.antt applies the laws of its part to concrete values.
--
-- Conventions. A call that holds a lock is one step, and the readings of the clock are arguments. The
-- list of a map stands for the order in which a `range` visits it, which Go leaves open, so laws over
-- every list hold for every order. The pool's steps come in any order, as its goroutines do; Submit is
-- two steps, so that a worker can come in between. Settings are integers and may be zero or negative as in Go;
-- counters are numbers without overflow. `Sub` of two times saturates at 64 bits as in Go. Loops are
-- recursive on the list or on the number of rounds that is left, which the loop's own bound gives
-- (`rounds_of` of the client's retry policy, the maximum of retries of the other, the size of the
-- circular buffer, the number of resources to clean up), so nothing runs out of fuel.
--
-- Parameters, whose code is not in the repository or is the language's: float64 (Prelude/Float.antt, an
-- interface of which no law is assumed; Prelude/Fraction.antt is an instance for the tests), the types
-- of the Docker library (`Api`), the token bucket of golang.org/x/time/rate, strings.ToLower, the texts of
-- numbers and durations, the answers of the Docker daemon, what checks and other operations do, the
-- figures of the Go runtime, and the records behind the addresses of measurements. The error recovery
-- takes the cleanup manager through an interface, which Recovery/Managed.antt fills.
--
-- Not modelled: in internal/docker/retry_policy.go the length of a back-off wait and its jitter
-- (calculateBackoff, randomFloat); the goroutine that calls cleanupExpired on a ticker; GetStatistics and
-- the exports of the timing storage; the context maps of errors and ToMap; runParallel of the engine,
-- which nothing calls, and its report text; other goroutines between the conditions of Submit and its send,
-- as a Submit that Stop overtakes; a ResetMetrics of the rate limiter while its Wait is blocked; the tickers of the cleanup
-- manager and of the collector, whose turns are calls at any time; the client itself, the checks, the
-- profiler and its reports, which call Docker or the host or only print; the enhanced engine, which
-- composes parts that are modelled on their own and for the rest has placeholders.
pub mod Prelude
pub mod Breaker
pub mod Retry
pub mod Cache
pub mod Cleanup
pub mod Collector
pub mod ClientMetrics
pub mod Timing
pub mod Limiter
pub mod Errors
pub mod Backoff
pub mod Recovery
pub mod Engine
pub mod Pool
pub mod Degradation
pub mod Monitor
pub mod Security
