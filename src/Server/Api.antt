-- ===== src/Server/Api.antt =====
-- APIHandlerService of internal/core/services/api_handler.go: the state of the server that the HTTP
-- layer reads and changes, and the calls that do more than pass a call on. The other methods are the
-- functions of the repositories and services that they call.
use super_duper_bassoon.Common.{String, Bool, List, Option, if◌then◌else◌}
use super_duper_bassoon.Common.Dict.{Dict}
use super_duper_bassoon.Common.Fault.{Fault, Result, ok, err}
use super_duper_bassoon.Common.Int.{ℤ}
use super_duper_bassoon.Common.Time.{Time, sub_time}
use super_duper_bassoon.Server.Filter.Eval.{ClientMetadata}
use super_duper_bassoon.Server.Workflow.{Workflow}
use super_duper_bassoon.Server.Workflow.Table.{get_workflow}
use super_duper_bassoon.Server.Runs.{RunTable}
use super_duper_bassoon.Server.Results.Table.{ResultRow}
use super_duper_bassoon.Server.Health.{RunHealth, TypeHealth}
use super_duper_bassoon.Server.Circuit.{Breaker}
use super_duper_bassoon.Server.Ban.Service.{BanState, unban_client}
use super_duper_bassoon.Server.Requests.{UnbanRequest, validate_unban}
use super_duper_bassoon.Server.Editing.{activate_workflow, deactivate_workflow}

pub record Tables (F : Type 0) : Type 0 where
  pub workflows : List (Workflow F)
  pub clients : List (ClientMetadata F)
  pub runs : RunTable
  pub results : List (ResultRow F)
  pub bans : BanState
  pub run_healths : List RunHealth
  pub type_healths : List (TypeHealth F)
  pub circuits : Dict Breaker

-- SystemStatus without the number of goroutines
pub record SystemStatus : Type 0 where
  pub uptime : ℤ
  pub db_status : String
  pub nats_status : String
  pub started_at : Time

unfoldable pub system_status : Time → Time → Bool → Bool → SystemStatus
system_status started_at now nats_connected db_healthy = record {
  uptime = sub_time now started_at;
  db_status = if db_healthy then "healthy" else "unhealthy";
  nats_status = if nats_connected then "connected" else "disconnected";
  started_at = started_at;
}

module _ {F : Type 0} where
  -- The update, and then the workflow that is read again.
  abbrev pub reread :
      Option Fault
      → String
      → Result (Unit {0}) × List (Workflow F)
      → Result (Workflow F) × List (Workflow F)
  reread db id (err e, t) = (err e, t)
  reread db id (ok u, t) = (get_workflow db id t, t)

  unfoldable pub api_activate :
      Option Fault
      → Option Fault
      → Time
      → String
      → List (Workflow F)
      → Result (Workflow F) × List (Workflow F)
  unfolding activate_workflow
  api_activate db db_get now id t = reread db_get id (activate_workflow db now id t)

  unfoldable pub api_deactivate :
      Option Fault
      → Option Fault
      → Time
      → String
      → List (Workflow F)
      → Result (Workflow F) × List (Workflow F)
  unfolding deactivate_workflow
  api_deactivate db db_get now id t = reread db_get id (deactivate_workflow db now id t)

unfoldable pub api_unban :
    Option Fault → String → UnbanRequest → BanState → Result (Unit {0}) × BanState
api_unban db client_id r s = elim (validate_unban r) [
  | err e ↦ (err e, s)
  | ok u ↦ unban_client db client_id r.workflow_type r.admin_id r.reason s
]
