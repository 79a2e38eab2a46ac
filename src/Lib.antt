-- ===== src/Lib.antt =====
-- A model of super-duper-bassoon, a control plane that dispatches activities to many simulated
-- clients, and the theorems on its core.
--
-- The super-client runs a pool of inner clients. A dispatch for one of them is checked, carried
-- out by an executor on a copy of the client's state, stored, and answered by a result that is
-- queued and published. The server keeps workflows, clients, runs, results, bans, circuits and
-- the health in tables. A workflow is triggered by a request, by its cron expression or by the
-- end of another; the server decides to whom it dispatches by filters over the clients and by
-- bans. Of each result it takes in, the client is registered, a client whose runs follow each
-- other too fast is banned, and the health is counted again; a workflow type whose health falls
-- too low has its circuits opened.
--
-- Client
--   State       internal/core/domain/inner_client.go
--   Value       the `interface{}` values that JSON and the filters hold
--   Activity    internal/core/domain/activity.go, internal/adapters/activity/executor.go
--   Chaos       internal/core/domain/chaos.go, internal/adapters/activity/chaos_executor.go
--   Store       internal/adapters/storage/memory_store.go
--   Collector   internal/core/services/result_collector.go
--   Dispatch    internal/core/services/dispatch.go, state_orchestrator.go
--   Pool        internal/core/services/client_pool.go
-- Server
--   Filter      internal/core/domain/filter_parser.go (Token, Parser), filter.go (Ast, Eval),
--               client.go (Eval), internal/core/services/dynamic_grouping.go (Resolve)
--   Rows        what the statements of internal/adapters/repository share
--   Workflow    internal/core/domain/workflow.go, run.go, result.go; Table:
--               internal/adapters/repository/workflow_repo.go,
--               internal/core/services/workflow_state_manager.go
--   Runs        internal/adapters/repository/run_repo.go
--   Requests    internal/core/domain/api.go
--   Editing     CreateWorkflow, EditWorkflow and the like of
--               internal/core/services/workflow_orchestration.go; Spec: what they do to the table
--               as a map, written out field by field
--   Orchestration  TriggerWorkflow of internal/core/services/workflow_orchestration.go; Stored: over
--               the tables
--   Triggers    internal/core/services/trigger_coordination.go,
--               internal/adapters/trigger/cron_evaluator.go
--   Ban         internal/core/domain/ban.go (Record), internal/adapters/repository/ban_repo.go
--               (Table), internal/adapters/enforcement/blocker.go (Blocker),
--               internal/core/services/ban_enforcement.go (Service), dispatch_filter.go
--               (DispatchFilter)
--   Dispatch    internal/core/domain/dispatch.go, internal/core/services/dispatch_coordination.go
--   Clients     internal/adapters/repository/client_repo.go,
--               internal/core/services/client_registration.go
--   Results     internal/core/services/result_dispatcher.go; Table:
--               internal/adapters/repository/result_repo.go
--   Loop        internal/core/domain/ban.go, internal/core/services/loop_detection.go,
--               GetPreviousRun of internal/adapters/repository/run_repo.go
--   Health      internal/core/domain/health.go; Table and Listing:
--               internal/adapters/repository/health_repo.go; Monitor:
--               internal/core/services/health_monitoring.go
--   Circuit     internal/core/domain/circuit.go, internal/core/services/circuit_breaker.go,
--               internal/adapters/repository/circuit_repo.go; Effects: what it does
--               to the workflows
--   Config      internal/core/services/config_repos.go
--   Settings    cmd/config.go
--   Events      internal/adapters/messaging/event_bus.go
--   Api, Http   internal/core/services/api_handler.go, internal/adapters/http/server.go
--   System      results and requests over one set of tables, as cmd/main.go joins them; Ticks: what
--               it runs from time to time
-- Wire          the messages between the two: internal/core/domain/dispatch.go, result.go,
--               internal/adapters/messaging/nats_dispatcher.go (Dispatch), nats_broker.go (Dispatch,
--               Reply)
-- Common        the shared names, dictionaries for maps, int64, faults, times; Examples holds tests.
--
-- A function of the source has its name in the model in snake case, and one argument for each of
-- its own and for what it reads from outside: the clock, the source of chance (Chaos.Draws, a
-- state that each draw passes on), the broker (a function with a state), and the error that the
-- database may answer to a call. A state that the source mutates is a record passed on; a method
-- under a lock is one step. Errors are values of Common.Fault, without their texts; an index out
-- of range is the fault `panic`.
--
-- Three functions have fuel. The tokenizer gets one more than the runes of the text, since a
-- round takes a rune at least. The parser gets 5 * n + 4 for n tokens: of two calls one inside
-- the other, the inner one has fewer tokens, or is one of the five levels of the grammar further
-- down. For both it is shown that the fuel is enough. The fuel of Triggers.trigger_and_chain
-- bounds how deep the triggers started by completed workflows stand in each other. There the
-- source has no bound: Chain says when some fuel is enough, and Cycle when none is.
--
-- Floating point numbers are an abstract type with the operations used (Common.Float). Go's
-- unicode, strings, strconv and fmt functions, the cron package, the environment, and the cases
-- of the SQL engine beyond the statements are parameters. So is what a map becomes that goes
-- through a column of JSON. A map is an association list; where the order of an iteration shows,
-- it is a draw. Where one call reads the clock several times, it is read once.
--
-- Not modelled: NATS, whose connection is a parameter, its subscriptions and their buffers; the
-- text of JSON, and the bodies of requests and responses as JSON; the router and the middleware
-- of the HTTP server; the log; tickers, goroutines, signals and the order in which they
-- interleave, since each method under a lock is one step; the schema of the tables; listAlerts
-- with the list of published alerts that it shows; the assembly of the super-client.
pub mod Common
pub mod Client
pub mod Server
pub mod Wire
mod Examples
