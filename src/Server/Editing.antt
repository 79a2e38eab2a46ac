-- ===== src/Server/Editing.antt =====
-- CreateWorkflow, EditWorkflow, DeleteWorkflow, ActivateWorkflow, DeactivateWorkflow, GetWorkflow and
-- ListWorkflows of internal/core/services/workflow_orchestration.go, over the table of workflows.
-- The new workflow's identifier and time.Now() are arguments.
pub mod Laws
pub mod Refines
pub mod Spec
use super_duper_bassoon.Common.{
  String, Bool, true, false, List, [], ◌∷◌, Option, none, some, if◌then◌else◌,
}
use super_duper_bassoon.Common.Fault.{Fault, Result, ok, err}
use super_duper_bassoon.Common.Float.{Floats}
use super_duper_bassoon.Common.Int.{ℤ, pos, eq_ℤ}
use super_duper_bassoon.Common.Time.{Time}
use super_duper_bassoon.Server.Requests.{
  CreateWorkflowRequest, EditWorkflowRequest, validate_create, validate_edit,
}
use super_duper_bassoon.Server.Workflow.{Workflow, validate_definition}
use super_duper_bassoon.Server.Workflow.Table.{
  Json, save_workflow, get_workflow, list_all_workflows, update_workflow_state, delete_workflow,
}

abbrev pub or_else {ℓ} : {A : Type ℓ} → Option A → A → A
or_else none a = a
or_else (some b) a = b

-- A call's result and the table behind it, of what a statement answers.
abbrev pub settled : {A : Type 0} {T : Type 0} → Result (A × T) → T → Result A × T
settled (err e) t = (err e, t)
settled (ok (a, t')) t = (ok a, t')

abbrev pub settled_unit : {T : Type 0} → Result T → T → Result (Unit {0}) × T
settled_unit (err e) t = (err e, t)
settled_unit (ok t') t = (ok tt, t')

module _ (fl : Floats) (json : Json fl.Float) where
  open fl use {Float, of_int, feq}

  -- The workflow of a request, with the defaults for what it leaves at zero.
  unfoldable pub workflow_of : String → CreateWorkflowRequest Float → Workflow Float
  workflow_of id r = record {
    id = id;
    name = r.name;
    description = r.description;
    workflow_type = r.workflow_type;
    activity = r.activity;
    params = r.params;
    target_filter = r.target_filter;
    trigger = r.trigger;
    success_threshold =
        if feq r.success_threshold (of_int (pos 0)) then of_int (pos 80) else r.success_threshold;
    loop_threshold_ms = if eq_ℤ r.loop_threshold_ms (pos 0) then pos 5000 else r.loop_threshold_ms;
    timeout_ms = if eq_ℤ r.timeout_ms (pos 0) then pos 30000 else r.timeout_ms;
    active = or_else r.enabled true;
    created_at = 0;
    updated_at = 0;
    deactivated_reason = "";
  }

  -- ValidateDefinition, then SaveWorkflow.
  unfoldable pub save_valid :
      Option Fault
      → Time
      → Workflow Float
      → List (Workflow Float)
      → Result (Workflow Float) × List (Workflow Float)
  save_valid db now w t = elim (validate_definition fl w) [
    | err e ↦ (err e, t)
    | ok u ↦ settled (save_workflow json db now w t) t
  ]

  unfoldable pub create_workflow :
      Option Fault
      → Time
      → String
      → CreateWorkflowRequest Float
      → List (Workflow Float)
      → Result (Workflow Float) × List (Workflow Float)
  create_workflow db now id r t = elim (validate_create r) [
    | err e ↦ (err e, t)
    | ok u ↦ save_valid db now (workflow_of id r) t
  ]

  unfoldable pub edited : EditWorkflowRequest Float → Workflow Float → Workflow Float
  edited r w = record w {
    name = or_else r.name w.name;
    description = or_else r.description w.description;
    params = or_else r.params w.params;
    target_filter = or_else r.target_filter w.target_filter;
    success_threshold = or_else r.success_threshold w.success_threshold;
    loop_threshold_ms = or_else r.loop_threshold_ms w.loop_threshold_ms;
    timeout_ms = or_else r.timeout_ms w.timeout_ms;
    active = or_else r.enabled w.active;
  }

  -- The database may fail at GetWorkflow and at SaveWorkflow.
  unfoldable pub edit_workflow :
      Option Fault
      → Option Fault
      → Time
      → String
      → EditWorkflowRequest Float
      → List (Workflow Float)
      → Result (Workflow Float) × List (Workflow Float)
  edit_workflow db_get db_save now id r t = elim (validate_edit r) [
    | err e ↦ (err e, t)
    | ok u ↦ elim (get_workflow db_get id t) [
      | err e ↦ (err e, t)
      | ok w ↦ save_valid db_save now (edited r w) t
    ]
  ]

module _ {F : Type 0} where
  unfoldable pub remove_workflow :
      Option Fault → String → List (Workflow F) → Result (Unit {0}) × List (Workflow F)
  remove_workflow db id t = settled_unit (delete_workflow db id t) t

  unfoldable pub activate_workflow :
      Option Fault → Time → String → List (Workflow F) → Result (Unit {0}) × List (Workflow F)
  activate_workflow db now id t =
      settled_unit (update_workflow_state db now id true "manually activated" t) t

  unfoldable pub deactivate_workflow :
      Option Fault → Time → String → List (Workflow F) → Result (Unit {0}) × List (Workflow F)
  deactivate_workflow db now id t =
      settled_unit (update_workflow_state db now id false "manually deactivated" t) t
