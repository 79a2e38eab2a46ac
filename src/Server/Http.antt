-- ===== src/Server/Http.antt =====
-- The handlers of internal/adapters/http/server.go over the tables of the server. The router of the
-- chi package and the decoders of encoding/json and strconv are outside: a request is the handler
-- that it is routed to, with what was decoded, `none` for a body that is not JSON. TriggerWorkflow,
-- with all that it starts, is a parameter. listAlerts is not modelled.
pub mod Handlers
pub mod Laws
use super_duper_bassoon.Common.{
  ℕ, String, Bool, true, false, List, [], ◌∷◌, Option, none, some, if◌then◌else◌, length,
}
use super_duper_bassoon.Common.Fault
use super_duper_bassoon.Common.Fault.{Fault, Result, ok, err}
use super_duper_bassoon.Common.Int.{ℤ}
use super_duper_bassoon.Server.Filter.Eval.{ClientMetadata}
use super_duper_bassoon.Server.Workflow.{Workflow, Run, RunResult}
use super_duper_bassoon.Server.Health.{TypeHealth}
use super_duper_bassoon.Server.Circuit.{Breaker}
use super_duper_bassoon.Server.Ban.Record.{BanRecord}
use super_duper_bassoon.Server.Api.{SystemStatus}
use super_duper_bassoon.Server.Requests.{
  CreateWorkflowRequest, EditWorkflowRequest, UnbanRequest, get_http_status,
}

-- The code that toAPIError gives an error. An APIError keeps its own.
unfoldable pub to_api_error : Fault → String
to_api_error Fault.validation_error = "VALIDATION_ERROR"
to_api_error Fault.workflow_not_found = "NOT_FOUND"
to_api_error Fault.run_not_found = "NOT_FOUND"
to_api_error Fault.client_not_found = "NOT_FOUND"
to_api_error Fault.ban_not_found = "NOT_FOUND"
to_api_error Fault.circuit_state_not_found = "NOT_FOUND"
to_api_error Fault.invalid_filter = "VALIDATION_ERROR"
to_api_error Fault.invalid_workflow = "VALIDATION_ERROR"
to_api_error Fault.missing_required_field = "VALIDATION_ERROR"
to_api_error Fault.invalid_request = "VALIDATION_ERROR"
to_api_error Fault.invalid_policy = "VALIDATION_ERROR"
to_api_error Fault.workflow_inactive = "CONFLICT"
to_api_error _ = "INTERNAL"

pub data Request (F : Type 0) : Type 0 where
  create_workflow_request : Option (CreateWorkflowRequest F) → Request F
  edit_workflow_request : String → Option (EditWorkflowRequest F) → Request F
  delete_workflow_request trigger_request_at : String → Request F
  activate_request deactivate_request : String → Request F
  list_workflows_request : Request F
  get_workflow_request : String → Request F
  -- the limit, and the offset, as Atoi reads them
  list_all_runs_request : ℤ → ℤ → Request F
  list_runs_request : String → ℤ → Request F
  list_clients_request : Request F
  get_client_request get_run_request get_run_results_request : String → Request F
  list_all_health_request : Request F
  get_health_request : String → Request F
  liveness_request readiness_request : Request F
  list_bans_request : Request F
  get_client_bans_request : String → Request F
  unban_request : String → Option UnbanRequest → Request F
  list_circuits_request : Request F
  get_circuit_request : String → Request F
  status_request : Request F

pub data Body (F : Type 0) : Type 0 where
  no_body : Body F
  error_body : String → Body F
  workflow_body : Workflow F → Body F
  run_body : Run → Body F
  client_body : ClientMetadata F → Body F
  health_body : TypeHealth F → Body F
  circuit_body : Breaker → Body F
  status_body : SystemStatus → Body F
  alive ready : Body F
  not_ready : Bool → Bool → Body F
  unbanned : String → Body F
  -- the items with their total
  workflows_body : List (Workflow F) → ℕ → Body F
  runs_body : List Run → ℕ → Body F
  clients_body : List (ClientMetadata F) → ℕ → Body F
  results_body : List (RunResult F) → ℕ → Body F
  healths_body : List (TypeHealth F) → ℕ → Body F
  bans_body : List BanRecord → ℕ → Body F
  circuits_body : List Breaker → ℕ → Body F

pub record Response (F : Type 0) : Type 0 where
  pub status : ℕ
  pub body : Body F

module _ {F : Type 0} where
  unfoldable pub write_code : String → Response F
  write_code code = record { status = get_http_status code; body = error_body code }

  unfoldable pub write_error : Fault → Response F
  unfolding write_code
  write_error e = write_code (to_api_error e)

  abbrev pub write_ok : Body F → Response F
  write_ok body = record { status = 200; body = body }

  -- What a handler answers to the result of its call.
  unfoldable pub respond : {A : Type 0} → ℕ → (A → Body F) → Result A → Response F
  unfolding write_error write_code
  respond status body (err e) = write_error e
  respond status body (ok a) = record { status = status; body = body a }

  -- {"items": …, "total": …}
  unfoldable pub answer_items : {A : Type 0} → (List A → ℕ → Body F) → Result (List A) → Response F
  unfolding write_error write_code
  answer_items body (err e) = write_error e
  answer_items body (ok items) = write_ok (body items (length items))
