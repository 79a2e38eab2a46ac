-- ===== src/Server/Workflow.antt =====
-- Workflow of internal/core/domain/workflow.go, Run of run.go and Result of result.go, both of the
-- same directory, and DefaultPolicyRepo of internal/core/services/config_repos.go.
pub mod Table
use super_duper_bassoon.Common.{
  ℕ, ◌*◌, String, Bool, true, false, List, if◌then◌else◌, str_eq, leb, length, not, ◌||◌,
}
use super_duper_bassoon.Common.Fault.{Result, ok, err, missing_required_field, invalid_workflow}
use super_duper_bassoon.Common.Float.{Floats}
use super_duper_bassoon.Common.Int.{ℤ, pos, leb_ℤ, ltb_ℤ}
use super_duper_bassoon.Common.Time.{Time, is_zero, sub_time, second, of_ms}
use super_duper_bassoon.Client.Value.{Fields}
use super_duper_bassoon.Client.Activity.{
  ActivityType, activity-IsValid, ResultStatus, status-IsValid,
}

-- `other_kind` holds a string that names none of the kinds.
pub data TriggerKind : Type 0 where
  scheduled event state_change by_hand : TriggerKind
  other_kind : String → TriggerKind

pub record TriggerSpec (F : Type 0) : Type 0 where
  pub kind : TriggerKind
  pub cron : String
  pub on_complete : String
  pub condition : String
  pub params : Fields F

pub record Workflow (F : Type 0) : Type 0 where
  pub id : String
  pub name : String
  pub description : String
  pub workflow_type : String
  pub activity : ActivityType
  pub params : Fields F
  pub target_filter : String
  pub trigger : TriggerSpec F
  pub success_threshold : F
  pub loop_threshold_ms : ℤ
  pub timeout_ms : ℤ
  pub active : Bool
  pub created_at : Time
  pub updated_at : Time
  pub deactivated_reason : String

unfoldable pub get_activity_timeout : {F : Type 0} → Workflow F → ℤ
get_activity_timeout w =
    if leb_ℤ w.timeout_ms (pos 0) then pos (30 * second) else of_ms w.timeout_ms

unfoldable pub loop_threshold : {F : Type 0} → Workflow F → ℤ
loop_threshold w =
    if leb_ℤ w.loop_threshold_ms (pos 0) then pos (5 * second) else of_ms w.loop_threshold_ms

pub data RunState : Type 0 where
  run_pending run_in_progress run_completed run_failed : RunState

pub record Run : Type 0 where
  pub run_id : String
  pub workflow_id : String
  pub workflow_type : String
  pub triggered_at : Time
  pub dispatched_at : Time
  pub participating_clients : List String
  pub state : RunState
  pub reason : String

unfoldable pub is_expired : ℤ → Time → Run → Bool
is_expired timeout now r =
    if is_zero r.triggered_at then false else ltb_ℤ timeout (sub_time now r.triggered_at)

unfoldable pub can_complete : ℕ → Run → Bool
can_complete results r = leb (length r.participating_clients) results

-- Result, as the server receives it.
pub record RunResult (F : Type 0) : Type 0 where
  pub run_id : String
  pub workflow_id : String
  pub client_id : String
  pub status : ResultStatus
  pub inner_state : Fields F
  pub error_msg : String
  pub payload : Fields F
  pub received_at : Time

unfoldable pub result-IsValid : {F : Type 0} → RunResult F → Bool
result-IsValid r =
    if str_eq r.run_id "" || str_eq r.client_id "" || str_eq r.workflow_id ""
    then false
    else if not (status-IsValid r.status)
    then false
    else true

module _ (fl : Floats) where
  open fl use {Float, of_int, flt, fle}

  -- Whether a percentage is out of range.
  abbrev pub out_of_range : Float → Bool
  out_of_range x = flt x (of_int (pos 0)) || flt (of_int (pos 100)) x

  unfoldable pub validate_definition : Workflow Float → Result (Unit {0})
  validate_definition w =
      if str_eq w.name ""
      then err missing_required_field
      else if str_eq w.workflow_type ""
      then err missing_required_field
      else if not (activity-IsValid w.activity)
      then err invalid_workflow
      else if out_of_range w.success_threshold
      then err invalid_workflow
      else if ltb_ℤ w.loop_threshold_ms (pos 0)
      then err invalid_workflow
      else if ltb_ℤ w.timeout_ms (pos 0)
      then err invalid_workflow
      else ok tt
