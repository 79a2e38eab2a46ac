-- ===== src/Server/System/Ticks.antt =====
-- What else cmd/main.go runs over the tables: the two periodic functions, the evaluation of triggers
-- at a tick, and the messages of client.register. As in Server.System the calls of the state
-- manager are carried out once an evaluation is over; it reads of the workflows their types and
-- their thresholds, which these calls leave alone.
use super_duper_bassoon.Common.{String, List, [], ◌∷◌, Option, if◌then◌else◌}
use super_duper_bassoon.Common.Dict.{Dict}
use super_duper_bassoon.Common.Fault.{Fault, Result, ok, err}
use super_duper_bassoon.Common.Float.{Floats}
use super_duper_bassoon.Common.Time.{Time}
use super_duper_bassoon.Server.Filter.Eval.{ClientMetadata}
use super_duper_bassoon.Server.Workflow.{Workflow}
use super_duper_bassoon.Server.Workflow.Table.{Json, list_active_workflows, list_all_workflows}
use super_duper_bassoon.Server.Clients.{on_client_register}
use super_duper_bassoon.Server.Health.{RunHealth, TypeHealth}
use super_duper_bassoon.Server.Health.Monitor.{HealthAnswers, HealthSources, aggregate_type}
use super_duper_bassoon.Server.Circuit.{CircuitAnswers}
use super_duper_bassoon.Server.Circuit.Effects.{carry_out}
use super_duper_bassoon.Server.Circuit.Listing.{evaluate_all_workflows, type_seen}
use super_duper_bassoon.Server.Triggers.{Cron, Reason, evaluate_tick}
use super_duper_bassoon.Server.Api.{Tables}
use super_duper_bassoon.Server.System.{ServerConfig, circuit_config, health_sources}

-- What the database answers to the calls of one EvaluateAllWorkflows.
pub record TickAnswers : Type 0 where
  pub circuit : CircuitAnswers
  pub health : String → Option Fault
  pub by_type : String → Option Fault
  pub all : Option Fault

module _ (fl : Floats) (json : Json fl.Float) (cfg : ServerConfig fl.Float) where
  open fl use {Float}

  -- The loop over the active workflows, with the types seen.
  unfoldable pub aggregate_types :
      HealthAnswers
      → Time
      → HealthSources Float
      → List RunHealth
      → List String
      → List (Workflow Float)
      → List (TypeHealth Float)
      → List (TypeHealth Float)
  aggregate_types db now src runs seen [] t = t
  aggregate_types db now src runs seen (w ∷ ws) t =
      let skipped = aggregate_types db now src runs seen ws t in
      let rest =
        aggregate_types db now src runs (w.workflow_type ∷ seen) ws
          (aggregate_type fl json db now src w.workflow_type runs t).1 in
      if type_seen w.workflow_type seen then skipped else rest

  abbrev pub aggregate_listed :
      HealthAnswers → Time → Result (List (Workflow Float)) → Tables Float → List (TypeHealth Float)
  aggregate_listed db now (err e) t = t.type_healths
  aggregate_listed db now (ok ws) t =
      aggregate_types db now (health_sources fl json cfg t) t.run_healths [] ws t.type_healths

  unfoldable pub health_tick : HealthAnswers → Option Fault → Time → Tables Float → Tables Float
  unfolding aggregate_types
  health_tick db db_active now t = record t {
    type_healths = aggregate_listed db now (list_active_workflows db_active t.workflows) t;
  }

  unfoldable pub circuit_tick : TickAnswers → Time → Tables Float → Tables Float
  circuit_tick db now t =
      let world =
        (evaluate_all_workflows fl (circuit_config fl json cfg t) db.circuit db.health db.by_type
          now t.type_healths t.workflows (list_all_workflows db.all t.workflows)
          (record { table = t.circuits; effects = [] })).1 in
      record t { circuits = world.table; workflows = carry_out now world.effects t.workflows }

  unfoldable pub register_message :
      Option Fault → Time → Option (ClientMetadata Float) → Tables Float → Tables Float
  register_message db now c t = record t { clients = on_client_register json db now c t.clients }

  -- `fire` is TriggerWorkflow, with all that it starts.
  unfoldable pub trigger_tick :
      Cron
      → (String → Reason → Tables Float → Tables Float)
      → Option Fault
      → Time
      → Dict Time
      → Tables Float
      → Dict Time × Tables Float
  trigger_tick cron fire db now times t =
      evaluate_tick cron fire (list_active_workflows db t.workflows) now times t
