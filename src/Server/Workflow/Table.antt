-- ===== src/Server/Workflow/Table.antt =====
-- The table `workflows`, by the statements of internal/adapters/repository/workflow_repo.go, and
-- WorkflowStateManager of internal/core/services/workflow_state_manager.go. A call takes the error
-- that the database may answer with, and then changes nothing.
use super_duper_bassoon.Common.{
  String, Bool, false, List, Option, none, some, if◌then◌else◌, str_eq,
}
use super_duper_bassoon.Common.Fault.{Fault, Result, ok, err, workflow_not_found}
use super_duper_bassoon.Common.Time.{Time, is_zero}
use super_duper_bassoon.Client.Value.{Fields}
use super_duper_bassoon.Server.Rows.{select, find_row, upsert_row, change_row, delete_row}
use super_duper_bassoon.Server.Rows.Order.{newest_first}
use super_duper_bassoon.Server.Workflow.{Workflow}

-- What json.Unmarshal reads back from what json.Marshal made of a map, as the columns of parameters
-- do.
abbrev pub Json : Type 0 → Type 0
Json F = Fields F → Fields F

module _ {F : Type 0} where
  abbrev pub workflow_id : Workflow F → String
  workflow_id w = w.id

  -- The times that SaveWorkflow sets in the caller's workflow.
  unfoldable pub stamped : Time → Workflow F → Workflow F
  stamped now w = record w {
    created_at = if is_zero w.created_at then now else w.created_at;
    updated_at = now;
  }

  -- ON CONFLICT sets each column but created_at.
  unfoldable pub keep_created : Workflow F → Workflow F → Workflow F
  keep_created old new = record new { created_at = old.created_at }

  -- A row as scanWorkflow reads it.
  unfoldable pub row_of : Json F → Workflow F → Workflow F
  row_of json w = record w {
    params = json w.params;
    trigger = record w.trigger { params = json w.trigger.params };
  }

  -- The caller's workflow and the table.
  unfoldable pub save_workflow :
      Json F
      → Option Fault
      → Time
      → Workflow F
      → List (Workflow F)
      → Result (Workflow F × List (Workflow F))
  unfolding stamped keep_created row_of
  save_workflow json (some e) now w t = err e
  save_workflow json none now w t =
      let saved = stamped now w in
      ok (saved, upsert_row workflow_id keep_created (row_of json saved) t)

  unfoldable pub found_workflow : Option (Workflow F) → Result (Workflow F)
  found_workflow none = err workflow_not_found
  found_workflow (some w) = ok w

  unfoldable pub get_workflow : Option Fault → String → List (Workflow F) → Result (Workflow F)
  unfolding found_workflow
  get_workflow (some e) id t = err e
  get_workflow none id t = found_workflow (find_row workflow_id id t)

  unfoldable pub list_all_workflows : Option Fault → List (Workflow F) → Result (List (Workflow F))
  list_all_workflows (some e) t = err e
  list_all_workflows none t = ok (newest_first (λ w. w.created_at) t)

  unfoldable pub list_active_workflows :
      Option Fault → List (Workflow F) → Result (List (Workflow F))
  list_active_workflows (some e) t = err e
  list_active_workflows none t = ok (newest_first (λ w. w.created_at) (select (λ w. w.active) t))

  unfoldable pub list_workflows_by_type :
      Option Fault → String → List (Workflow F) → Result (List (Workflow F))
  list_workflows_by_type (some e) workflow_type t = err e
  list_workflows_by_type none workflow_type t =
      ok (select (λ w. str_eq w.workflow_type workflow_type) t)

  unfoldable pub with_state : Time → Bool → String → Workflow F → Workflow F
  with_state now active reason w = record w {
    active = active;
    deactivated_reason = reason;
    updated_at = now;
  }

  -- No row with the key is an error.
  unfoldable pub or_missing : Option (Workflow F) → List (Workflow F) → Result (List (Workflow F))
  or_missing none t = err workflow_not_found
  or_missing (some w) t = ok t

  unfoldable pub update_workflow_state :
      Option Fault → Time → String → Bool → String → List (Workflow F) → Result (List (Workflow F))
  unfolding with_state or_missing
  update_workflow_state (some e) now id active reason t = err e
  update_workflow_state none now id active reason t =
      or_missing (find_row workflow_id id t)
        (change_row workflow_id id (with_state now active reason) t)

  unfoldable pub delete_workflow :
      Option Fault → String → List (Workflow F) → Result (List (Workflow F))
  unfolding or_missing
  delete_workflow (some e) id t = err e
  delete_workflow none id t = or_missing (find_row workflow_id id t) (delete_row workflow_id id t)

  unfoldable pub is_workflow_active : Option Fault → String → List (Workflow F) → Bool
  is_workflow_active db id t = elim (get_workflow db id t) [ err e ↦ false | ok w ↦ w.active ]
