-- ===== src/Server/Http/Handlers.antt =====
-- What each handler calls, and what it answers.
use super_duper_bassoon.Common.{
  String, Bool, true, List, Option, none, some, if◌then◌else◌, not, ◌||◌,
}
use super_duper_bassoon.Common.Fault.{Fault, Result}
use super_duper_bassoon.Common.Float.{Floats}
use super_duper_bassoon.Common.Int.{ℤ, pos, leb_ℤ}
use super_duper_bassoon.Common.Time.{Time}
use super_duper_bassoon.Server.Workflow.{Workflow, Run}
use super_duper_bassoon.Server.Workflow.Table.{Json, get_workflow, list_all_workflows}
use super_duper_bassoon.Server.Clients.{get_client_by_id, list_clients}
use super_duper_bassoon.Server.Runs.{get_run, list_runs, list_all_runs}
use super_duper_bassoon.Server.Results.Table.{get_run_results}
use super_duper_bassoon.Server.Health.Table.{
  get_workflow_type_health, list_all_workflow_type_healths,
}
use super_duper_bassoon.Server.Circuit.{get_circuit_state}
use super_duper_bassoon.Server.Circuit.Listing.{list_circuit_states}
use super_duper_bassoon.Server.Ban.Table.{get_bans, list_all_bans}
use super_duper_bassoon.Server.Requests.{CreateWorkflowRequest, EditWorkflowRequest, UnbanRequest}
use super_duper_bassoon.Server.Editing.{create_workflow, edit_workflow, remove_workflow}
use super_duper_bassoon.Server.Api.{Tables, api_activate, api_deactivate, api_unban, system_status}
use super_duper_bassoon.Server.Http.{
  Request, Response, respond, answer_items, write_code, write_ok, create_workflow_request,
  edit_workflow_request, delete_workflow_request, trigger_request_at, activate_request,
  deactivate_request, list_workflows_request, get_workflow_request, list_all_runs_request,
  list_runs_request, list_clients_request, get_client_request, get_run_request,
  get_run_results_request, list_all_health_request, get_health_request, liveness_request,
  readiness_request, list_bans_request, get_client_bans_request, unban_request,
  list_circuits_request, get_circuit_request, status_request, no_body, workflow_body, run_body,
  client_body, health_body, circuit_body, status_body, alive, ready, not_ready, unbanned,
  workflows_body, runs_body, clients_body, results_body, healths_body, bans_body, circuits_body,
}

-- The server around one request: the time, a fresh identifier, what the database answers to the
-- first and to the second call, and whether the database and NATS are well; a check that is nil
-- counts as passed.
pub record Surroundings : Type 0 where
  pub now : Time
  pub started_at : Time
  pub new_id : String
  pub db : Option Fault
  pub db_second : Option Fault
  pub db_healthy : Option Bool
  pub nats_connected : Option Bool

abbrev pub passed : Option Bool → Bool
passed none = true
passed (some b) = b

abbrev pub page : ℤ → ℤ
page limit = if leb_ℤ limit (pos 0) then pos 50 else limit

module _ {F : Type 0} where
  abbrev pub workflows_changed : Tables F → Response F → List (Workflow F) → Response F × Tables F
  workflows_changed t r ws = (r, record t { workflows = ws })

  unfoldable pub readiness : Surroundings → Response F
  readiness at =
      if not (passed at.db_healthy) || not (passed at.nats_connected)
      then record {
        status = 503;
        body = not_ready (passed at.db_healthy) (passed at.nats_connected);
      }
      else write_ok ready

module _ (fl : Floats) (json : Json fl.Float) where
  open fl use {Float}

  unfoldable pub post_workflow :
      Surroundings
      → Option (CreateWorkflowRequest Float)
      → Tables Float
      → Response Float × Tables Float
  post_workflow at none t = (write_code "BAD_REQUEST", t)
  post_workflow at (some r) t =
      let done = create_workflow fl json at.db at.now at.new_id r t.workflows in
      workflows_changed t (respond 201 workflow_body done.0) done.1

  unfoldable pub put_workflow :
      Surroundings
      → String
      → Option (EditWorkflowRequest Float)
      → Tables Float
      → Response Float × Tables Float
  put_workflow at id none t = (write_code "BAD_REQUEST", t)
  put_workflow at id (some r) t =
      let done = edit_workflow fl json at.db at.db_second at.now id r t.workflows in
      workflows_changed t (respond 200 workflow_body done.0) done.1

  unfoldable pub remove_workflow_at :
      Surroundings → String → Tables Float → Response Float × Tables Float
  remove_workflow_at at id t =
      let done = remove_workflow at.db id t.workflows in
      workflows_changed t (respond 204 (λ u. no_body) done.0) done.1

  unfoldable pub post_activate :
      Surroundings → String → Tables Float → Response Float × Tables Float
  post_activate at id t =
      let done = api_activate at.db at.db_second at.now id t.workflows in
      workflows_changed t (respond 200 workflow_body done.0) done.1

  unfoldable pub post_deactivate :
      Surroundings → String → Tables Float → Response Float × Tables Float
  post_deactivate at id t =
      let done = api_deactivate at.db at.db_second at.now id t.workflows in
      workflows_changed t (respond 200 workflow_body done.0) done.1

  unfoldable pub get_workflows : Surroundings → Tables Float → Response Float × Tables Float
  get_workflows at t = (answer_items workflows_body (list_all_workflows at.db t.workflows), t)

  unfoldable pub get_workflow_at :
      Surroundings → String → Tables Float → Response Float × Tables Float
  get_workflow_at at id t = (respond 200 workflow_body (get_workflow at.db id t.workflows), t)

  unfoldable pub get_runs : Surroundings → ℤ → ℤ → Tables Float → Response Float × Tables Float
  get_runs at limit offset t =
      (answer_items runs_body (list_all_runs at.db (page limit) offset t.runs), t)

  unfoldable pub get_workflow_runs :
      Surroundings → String → ℤ → Tables Float → Response Float × Tables Float
  get_workflow_runs at id limit t =
      (answer_items runs_body (list_runs at.db id (page limit) t.runs), t)

  unfoldable pub get_clients : Surroundings → Tables Float → Response Float × Tables Float
  get_clients at t = (answer_items clients_body (list_clients at.db t.clients), t)

  unfoldable pub get_client_at :
      Surroundings → String → Tables Float → Response Float × Tables Float
  get_client_at at id t = (respond 200 client_body (get_client_by_id at.db id t.clients), t)

  unfoldable pub get_run_at : Surroundings → String → Tables Float → Response Float × Tables Float
  get_run_at at id t = (respond 200 run_body (get_run at.db id t.runs), t)

  unfoldable pub get_results_at :
      Surroundings → String → Tables Float → Response Float × Tables Float
  get_results_at at id t = (answer_items results_body (get_run_results at.db id t.results), t)

  unfoldable pub get_healths : Surroundings → Tables Float → Response Float × Tables Float
  get_healths at t =
      (answer_items healths_body (list_all_workflow_type_healths at.db t.type_healths), t)

  unfoldable pub get_health_at :
      Surroundings → String → Tables Float → Response Float × Tables Float
  get_health_at at workflow_type t =
      (respond 200 health_body (get_workflow_type_health at.db workflow_type t.type_healths), t)

  unfoldable pub liveness : Surroundings → Tables Float → Response Float × Tables Float
  liveness at t = (write_ok alive, t)

  unfoldable pub get_all_bans : Surroundings → Tables Float → Response Float × Tables Float
  get_all_bans at t = (answer_items bans_body (list_all_bans at.db t.bans.table), t)

  unfoldable pub get_client_bans :
      Surroundings → String → Tables Float → Response Float × Tables Float
  get_client_bans at id t = (answer_items bans_body (get_bans at.db id t.bans.table), t)

  unfoldable pub put_unban :
      Surroundings → String → Option UnbanRequest → Tables Float → Response Float × Tables Float
  put_unban at id none t = (write_code "BAD_REQUEST", t)
  put_unban at id (some r) t =
      let done = api_unban at.db id r t.bans in
      (respond 200 (λ u. unbanned id) done.0, record t { bans = done.1 })

  unfoldable pub get_circuits : Surroundings → Tables Float → Response Float × Tables Float
  get_circuits at t = (answer_items circuits_body (list_circuit_states at.db t.circuits), t)

  unfoldable pub get_circuit_at :
      Surroundings → String → Tables Float → Response Float × Tables Float
  get_circuit_at at id t = (respond 200 circuit_body (get_circuit_state at.db id t.circuits), t)

  unfoldable pub get_status : Surroundings → Tables Float → Response Float × Tables Float
  get_status at t = (
    write_ok (
        status_body
          (system_status at.started_at at.now (passed at.nats_connected) (passed at.db_healthy))),
    t,
  )

module _ (fl : Floats) (json : Json fl.Float)
    (trigger : String → Tables fl.Float → Result Run × Tables fl.Float) where
  open fl use {Float}

  unfoldable pub post_trigger : String → Tables Float → Response Float × Tables Float
  post_trigger id t = let done = trigger id t in (respond 200 run_body done.0, done.1)

  -- The handler that the router calls.
  unfoldable pub serve : Surroundings → Request Float → Tables Float → Response Float × Tables Float
  unfolding readiness post_trigger post_workflow put_workflow remove_workflow_at post_activate
      post_deactivate get_workflows get_workflow_at get_runs get_workflow_runs get_clients
      get_client_at get_run_at get_results_at get_healths get_health_at liveness get_all_bans
      get_client_bans put_unban get_circuits get_circuit_at get_status
  serve at (create_workflow_request r) t = post_workflow fl json at r t
  serve at (edit_workflow_request id r) t = put_workflow fl json at id r t
  serve at (delete_workflow_request id) t = remove_workflow_at fl json at id t
  serve at (trigger_request_at id) t = post_trigger id t
  serve at (activate_request id) t = post_activate fl json at id t
  serve at (deactivate_request id) t = post_deactivate fl json at id t
  serve at list_workflows_request t = get_workflows fl json at t
  serve at (get_workflow_request id) t = get_workflow_at fl json at id t
  serve at (list_all_runs_request limit offset) t = get_runs fl json at limit offset t
  serve at (list_runs_request id limit) t = get_workflow_runs fl json at id limit t
  serve at list_clients_request t = get_clients fl json at t
  serve at (get_client_request id) t = get_client_at fl json at id t
  serve at (get_run_request id) t = get_run_at fl json at id t
  serve at (get_run_results_request id) t = get_results_at fl json at id t
  serve at list_all_health_request t = get_healths fl json at t
  serve at (get_health_request id) t = get_health_at fl json at id t
  serve at liveness_request t = liveness fl json at t
  serve at readiness_request t = (readiness at, t)
  serve at list_bans_request t = get_all_bans fl json at t
  serve at (get_client_bans_request id) t = get_client_bans fl json at id t
  serve at (unban_request id r) t = put_unban fl json at id r t
  serve at list_circuits_request t = get_circuits fl json at t
  serve at (get_circuit_request id) t = get_circuit_at fl json at id t
  serve at status_request t = get_status fl json at t
