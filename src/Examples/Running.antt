-- ===== src/Examples/Running.antt =====
-- The server over one message, one request and one tick, and over a request that fails.
use super_duper_bassoon.Common.{String, true, [], ◌∷◌, none, some, ◌≡◌, refl, leb}
use super_duper_bassoon.Common.Fault.{Result, ok, err, external}
use super_duper_bassoon.Common.Int.{ℤ, pos, ◌*ℤ◌}
use super_duper_bassoon.Server.Workflow.{Run, validate_definition}
use super_duper_bassoon.Server.Orchestration.Stored.{trigger_answer, trigger_stored}
use super_duper_bassoon.Examples.Triggering.{faults}
use super_duper_bassoon.Server.Triggers.{Reason}
use super_duper_bassoon.Server.Http.{create_workflow_request, trigger_request_at}
use super_duper_bassoon.Server.Http.Handlers.{Surroundings, serve}
use super_duper_bassoon.Server.Http.Laws.{serve_failed}
use super_duper_bassoon.Server.Api.{Tables}
use super_duper_bassoon.Server.System.{ResultAnswers, ServerConfig, take_result}
use super_duper_bassoon.Server.System.Laws.{IsSound}
use super_duper_bassoon.Server.System.Ticks.{TickAnswers, circuit_tick}
use super_duper_bassoon.Server.System.Reach.{
  Reach-IsSound, after, at_start, evaluates, serves, takes,
}
use super_duper_bassoon.Client.Activity.{activity-IsValid}
use super_duper_bassoon.Server.Requests.{get_http_status, validate_create}
use super_duper_bassoon.Server.Editing.{create_workflow, save_valid, workflow_of}
use super_duper_bassoon.Server.Workflow.Table.{save_workflow}
use super_duper_bassoon.Server.Http.{respond, to_api_error, write_code, write_error}
use super_duper_bassoon.Examples.Data.{thousandths}
use super_duper_bassoon.Examples.Bans
use super_duper_bassoon.Examples.Bans.{fresh, fresh-Synced, patching, reported, two_runs}
use super_duper_bassoon.Examples.Breakers
use super_duper_bassoon.Examples.Breakers.{poor, strict, all_well}
use super_duper_bassoon.Examples.Sending.{open_broker}
use super_duper_bassoon.Examples.Server.{laptop, no_filter, texts}
use super_duper_bassoon.Examples.Tables.{asked, json}
use super_duper_bassoon.Examples.Healths.{well}

pub patching-IsDefined : validate_definition thousandths patching ≡ ok tt
unfolding validate_definition activity-IsValid ◌*ℤ◌
patching-IsDefined = refl

abbrev start : Tables ℤ
start = record {
  workflows = patching ∷ [];
  clients = laptop ∷ [];
  runs = two_runs;
  results = [];
  bans = fresh;
  run_healths = [];
  type_healths = [];
  circuits = [];
}

abbrev config : ServerConfig ℤ
config = record {
  loop = Bans.cfg;
  window_size = pos 10;
  thresholds = record { success_threshold = pos 80000; window_size = pos 10 };
  policies = record { threshold = pos 80000; window = pos 10; cooldown = pos 300000000000 };
  circuit = Breakers.cfg;
}

abbrev answers : ResultAnswers
answers = record {
  client = none;
  workflow = none;
  run = none;
  previous = none;
  ban = none;
  health = well;
  type_health = none;
  list_types = none;
  circuit = all_well;
}

abbrev around : Surroundings
around = record {
  now = 910;
  started_at = 1;
  new_id = "wf9";
  db = some external;
  db_second = none;
  db_healthy = some true;
  nats_connected = none;
}

abbrev idle_trigger : String → Tables ℤ → Result Run × Tables ℤ
idle_trigger id t = (err external, t)

abbrev trigger : String → Tables ℤ → Result Run × Tables ℤ
trigger id t =
    let done =
      trigger_stored thousandths texts no_filter open_broker faults 9 "run9" "api" id t [] in
    (trigger_answer done.0.failure done.0.run, done.1)

trigger_keeps :
    (id : String) (t : Tables ℤ)
    → ((trigger id t).1.workflows ≡ t.workflows) × ((trigger id t).1.bans ≡ t.bans)
unfolding trigger_stored
trigger_keeps id t = (refl, refl)

abbrev fire : String → Reason → Tables ℤ → Tables ℤ
fire id reason t =
    (trigger_stored thousandths texts no_filter open_broker faults 9 "run8" "scheduled" id t []).1

fire_keeps :
    (id : String) (reason : Reason) (t : Tables ℤ)
    → ((fire id reason t).workflows ≡ t.workflows) × ((fire id reason t).bans ≡ t.bans)
unfolding trigger_stored
fire_keeps id reason t = (refl, refl)

abbrev tick_answers : TickAnswers
tick_answers = record {
  circuit = all_well;
  health = λ workflow_type. none;
  by_type = λ workflow_type. none;
  all = none;
}

abbrev after_result : Tables ℤ
after_result = take_result thousandths json config answers 900 (some reported) start

abbrev after_trigger : Tables ℤ
after_trigger = (serve thousandths json trigger around (trigger_request_at "wf") after_result).1

Reach-IsSound_example :
    IsSound thousandths json config
      (circuit_tick thousandths json config tick_answers 930 after_trigger)
Reach-IsSound_example =
    Reach-IsSound thousandths json config trigger trigger_keeps fire fire_keeps
      (after
        (after (after at_start (takes answers 900 (some reported) start))
          (serves around (trigger_request_at "wf") after_result))
        (evaluates tick_answers 930 after_trigger))
      (record { bans = fresh-Synced; workflows = (patching-IsDefined, tt) })

fails :
    leb 400
      (serve thousandths json idle_trigger around
        (create_workflow_request (some asked))
        start).0.status
    ≡ true
unfolding serve create_workflow validate_create activity-IsValid save_valid validate_definition
    workflow_of save_workflow respond write_error write_code to_api_error get_http_status ◌*ℤ◌
fails = refl

serve_failed_example :
    (serve thousandths json idle_trigger around (create_workflow_request (some asked)) start).1
    ≡ start
serve_failed_example =
    serve_failed thousandths json idle_trigger around (create_workflow_request (some asked)) start
      refl refl fails
