-- ===== src/Lib.antt =====
-- WebGuard Instance: the agent that checks monitorings for WebGuard Core. Each minute the scheduler
-- runs the execution controller, which lets one run through at a time. Without job leases a run has
-- three phases that the coordinator starts together; each queues the monitorings that Core lists for
-- it, and workers check them and post the results. With job leases a run claims jobs from Core, drops
-- duplicates, and hands the rest to workers, which validate a job, renew its lease while its check
-- runs, and complete or release it. Telemetry counts what happens; the health server shows it, and says
-- whether the agent is ready. On a signal the command drains: no run begins, the scheduler stops, and
-- when the run in progress is over, or a timeout is, the server stops.
--
-- Which file models which part of the repository:
--   Base           the words that all modules share: Go's int64, strings, times, lists, maps and the
--                  loops over them (Dict, Range), strings in order (Order)
--   Monitor        internal/domain/monitor/types.go: the payloads (Types), strconv's integers
--                  (Numbers), the lenient readers parse...Flexible (Flexible), UnmarshalJSON (Decode)
--   Config         internal/config/config.go: FromEnv, IsReady and their helpers
--   Application    internal/application: telemetry.go (Telemetry, with Snapshot), coordinator.go
--                  (Coordinator), execution_controller.go (Controller, its slots in Limiter, its values
--                  in a context in Context)
--   Runner         internal/adapters/runner: response_cadence.go with allowAuxiliaryPhase of runner.go
--                  (Cadence), idempotency.go (Idempotency), executor_registry.go (Execution, Registry),
--                  job_leases.go (Lease: Validate, Renewal, Publish, Job, Batch); the phases of
--                  runner.go (Legacy), its RunMonitoring (Service), its HTTP check (Http) and the other
--                  checks with their executors (Checks); dns_record_checker.go (Dns, and its resolver
--                  in Dns.System). The gateway of internal/application/ports.go: Gateway has the calls
--                  whose answers a run uses, and Trace the calls that a job makes
--   Target         internal/adapters/target/target.go: the forms of a target, the egress policy, the
--                  function that dials; the rule on addresses (Address)
--   CoreApi        internal/adapters/coreapi/client.go: the client, its requests and answers (Http), its
--                  calls (Calls, Monitorings, Callbacks), its redirects (Origin); Gateway makes it
--                  the gateway of the runner, and Gateway.Runs is about runs with it
--   DomainLookup   internal/adapters/domainlookup/domainlookup.go: names, WHOIS and RDAP answers (Whois,
--                  Rdap), the lookup (Lookup), the exchange with a WHOIS server (Exchange)
--   Scheduler      internal/adapters/scheduler/scheduler.go
--   Health         internal/adapters/health/operations.go: the handlers, and RenderMetrics (Metrics)
--   Command        cmd/webguard-instance/main.go: run and runServe (its shutdown without an execution
--                  controller in Plain), with StartWithHandler of internal/adapters/health/health.go;
--                  what main builds (Main)
-- Modules named Examples hold tests and the theorems at concrete inputs; Runner.Samples their data.
--
-- How the model stands to the code. A method is a function from the old state to the new one and the
-- result; what it does to Core, to the network and to the telemetry is a list of effects, in the
-- order of the code. What the program does not decide is an argument: clock readings, the answers of
-- Core, of the resolver and of the network, random bytes, cancellation (the records Env, Work,
-- Round, Times, Firing, Tick, Answer, Attempt, Lookup, World, Servers, Connection, Resolution,
-- Serving), and the order of goroutines, which is an interleaving of their steps or an order of
-- arrival. Third-party code is a parameter: encoding/json and time.Parse (Decoder), the environment
-- and the key file (functions), net/url, net and net/netip (Parsers), JSON, formatting and parsing
-- of addresses elsewhere (Library, Formats, Texts, Dates, Verbs, Shows). An int is an integer of 64
-- bits; wrap-around is written where a sum or a product can leave the range. An instant counts
-- nanoseconds from Go's zero time, and a duration is an int64 of nanoseconds. Only the formatting of
-- a number runs on fuel, which its comment in Monitor.Numbers shows to be enough; every other loop
-- is a recursion over a list that the environment supplies or that the code walks, or over the
-- number of attempts that the code has left.
--
-- Not modelled: log lines, and the texts that errors add to their fixed part; letters outside ASCII
-- where the code compares without case or changes the case; inside a job the answer of the limiter
-- is a choice of the environment; the settings of the HTTP clients, whose effect is in what the
-- network answers; the HTTP exchange with the RDAP server; the HTTP server of the library and the
-- cleaning of paths in its router.
pub mod Base
pub mod Monitor
pub mod Config
pub mod Application
pub mod Runner
pub mod Scheduler
pub mod Target
pub mod CoreApi
pub mod DomainLookup
pub mod Health
pub mod Command
