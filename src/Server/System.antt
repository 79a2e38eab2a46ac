-- ===== src/Server/System.antt =====
-- The server as cmd/main.go puts it together: the three handlers of a result, with the circuit
-- breaker subscribed to health.updated, and the HTTP requests, over one set of tables.
-- The circuit breaker's calls of the state manager are carried out once an evaluation is over: the
-- evaluation does not read what they write.
pub mod Laws
pub mod Ticks
pub mod Reach
use super_duper_bassoon.Common.{
  String, Bool, true, false, List, [], ◌∷◌, Option, none, some, if◌then◌else◌,
}
use super_duper_bassoon.Common.Dict.{Dict}
use super_duper_bassoon.Common.Fault.{Fault, Result, ok, err}
use super_duper_bassoon.Common.Float.{Floats}
use super_duper_bassoon.Common.Int.{ℤ, pos}
use super_duper_bassoon.Common.Time.{Time}
use super_duper_bassoon.Server.Workflow.{Workflow, Run, RunResult}
use super_duper_bassoon.Server.Workflow.Table.{Json, get_workflow, list_workflows_by_type}
use super_duper_bassoon.Server.Clients.{register_client}
use super_duper_bassoon.Server.Loop.{LoopConfig, LoopAnswers, handle_result}
use super_duper_bassoon.Server.Health.{TypeHealth}
use super_duper_bassoon.Server.Health.Table.{get_workflow_type_health}
use super_duper_bassoon.Server.Health.Monitor.{
  HealthAnswers, HealthSources, HealthState, HealthUpdated, monitor_result,
}
use super_duper_bassoon.Server.Circuit.{CircuitAnswers, CircuitConfig, evaluate_workflow_type}
use super_duper_bassoon.Server.Circuit.Effects.{carry_out}
use super_duper_bassoon.Server.Config.{
  HealthThreshold, PolicyDefaults, get_health_threshold, get_policy,
}
use super_duper_bassoon.Server.Results.{Handler, register_handler, dispatch_result}
use super_duper_bassoon.Server.Api.{Tables}

-- What main builds the services with.
pub record ServerConfig (F : Type 0) : Type 0 where
  pub loop : LoopConfig F
  pub window_size : ℤ
  pub thresholds : HealthThreshold F
  pub policies : PolicyDefaults F
  pub circuit : CircuitConfig F

-- What the database answers to the calls for one result.
pub record ResultAnswers : Type 0 where
  pub client : Option Fault
  pub workflow : Option Fault
  pub run : Option Fault
  pub previous : Option Fault
  pub ban : Option Fault
  pub health : HealthAnswers
  pub type_health : Option Fault
  pub list_types : Option Fault
  pub circuit : CircuitAnswers

module _ (fl : Floats) (json : Json fl.Float) (cfg : ServerConfig fl.Float) where
  open fl use {Float}

  abbrev pub circuit_config : Tables Float → CircuitConfig Float
  circuit_config t = record cfg.circuit {
    policy_of = λ id. some (get_policy fl cfg.policies none id t.workflows);
  }

  -- OnHealthUpdatedEvent, for the events in their order.
  unfoldable pub on_health_updated :
      ResultAnswers → Time → List (HealthUpdated Float) → Tables Float → Tables Float
  on_health_updated db now [] t = t
  on_health_updated db now (e ∷ es) t =
      let world =
        (evaluate_workflow_type fl (circuit_config t) db.circuit now e.type_health
          (get_workflow_type_health db.type_health e.workflow_type t.type_healths)
          (list_workflows_by_type db.list_types e.workflow_type t.workflows)
          (record { table = t.circuits; effects = [] })).1 in
      on_health_updated db now es
        (record t { circuits = world.table; workflows = carry_out now world.effects t.workflows })

  abbrev pub client_handler : ResultAnswers → Time → Handler Float (Tables Float)
  client_handler db now = record {
    name = "client_registration";
    priority = pos 0;
    handle_result = λ r t.
        (ok tt, record t { clients = register_client json db.client now (some r) t.clients });
  }

  abbrev pub loop_handler : ResultAnswers → Time → Handler Float (Tables Float)
  loop_handler db now = record {
    name = "loop_detection";
    priority = pos 1;
    handle_result = λ r t. (
      ok tt,
      record t {
        bans =
            handle_result cfg.loop
              (record {
                workflow = get_workflow db.workflow r.workflow_id t.workflows;
                run = db.run;
                previous = db.previous;
                ban = db.ban;
              })
              now (some r) t.runs t.bans;
      },
    );
  }

  abbrev pub health_state : Tables Float → HealthState Float
  health_state t = record {
    runs = t.runs;
    results = t.results;
    run_healths = t.run_healths;
    type_healths = t.type_healths;
    events = some [];
  }

  abbrev pub events_of : Option (List (HealthUpdated Float)) → List (HealthUpdated Float)
  events_of none = []
  events_of (some es) = es

  abbrev pub with_health : HealthState Float → Tables Float → Tables Float
  with_health s t = record t {
    runs = s.runs;
    results = s.results;
    run_healths = s.run_healths;
    type_healths = s.type_healths;
  }

  -- GetHealthThreshold's window is that of the repository for each type.
  abbrev pub health_sources : Tables Float → HealthSources Float
  health_sources t = record {
    workflows = t.workflows;
    bans = t.bans.table;
    window_size = cfg.window_size;
    config_window =
        λ w. some (get_health_threshold fl cfg.thresholds none w t.workflows).window_size;
  }

  abbrev pub monitored :
      ResultAnswers → Time → RunResult Float → Tables Float → Result (Unit {0}) × HealthState Float
  monitored db now r t =
      monitor_result fl json db.health now (health_sources t) (some r) (health_state t)

  abbrev pub health_handler : ResultAnswers → Time → Handler Float (Tables Float)
  health_handler db now = record {
    name = "health_monitoring";
    priority = pos 2;
    handle_result = λ r t.
        let done = monitored db now r t in
        (done.0, on_health_updated db now (events_of done.1.events) (with_health done.1 t));
  }

  -- The handlers, as main registers them.
  unfoldable pub server_handlers : ResultAnswers → Time → List (Handler Float (Tables Float))
  unfolding register_handler
  server_handlers db now =
      register_handler (health_handler db now)
        (register_handler (loop_handler db now) (register_handler (client_handler db now) []))

  -- One message on the result channel.
  unfoldable pub take_result :
      ResultAnswers → Time → Option (RunResult Float) → Tables Float → Tables Float
  take_result db now r t = dispatch_result r (server_handlers db now) t
