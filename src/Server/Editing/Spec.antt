-- ===== src/Server/Editing/Spec.antt =====
-- What the calls on workflows promise, over a map from identifiers to workflows, whose rows have no
-- order and no places. The checks of a request and of a workflow are those of the code; what is
-- stored and answered is written out field by field.
use super_duper_bassoon.Common.{
  String, Bool, true, false, List, [], ◌∷◌, Option, none, some, if◌then◌else◌, str_eq,
}
use super_duper_bassoon.Common.Fault.{Fault, Result, ok, err, workflow_not_found}
use super_duper_bassoon.Common.Float.{Floats}
use super_duper_bassoon.Common.Time.{Time, is_zero}
use super_duper_bassoon.Common.Int.{pos, eq_ℤ}
use super_duper_bassoon.Server.Requests.{
  CreateWorkflowRequest, EditWorkflowRequest, validate_create, validate_edit,
}
use super_duper_bassoon.Server.Workflow.{Workflow, validate_definition}
use super_duper_bassoon.Server.Workflow.Table.{Json, workflow_id}
use super_duper_bassoon.Server.Rows.{find_row}
use super_duper_bassoon.Server.Editing.Laws.{
  Call, Answer, workflow_answer, creating, editing, removing, activating, deactivating, reading,
  as_workflow, as_done,
}

abbrev pub Workflows : Type 0 → Type 0
Workflows F = String → Option (Workflow F)

abbrev pub view : {F : Type 0} → List (Workflow F) → Workflows F
view t = λ id. find_row workflow_id id t

-- What the calls do to the map.
abbrev pub set_at : {F : Type 0} → String → Option (Workflow F) → Workflows F → Workflows F
set_at id w v = λ k. if str_eq id k then w else v k

module _ {F : Type 0} where
  unfoldable pub change_found :
      String
      → (Workflow F → Option (Workflow F))
      → Workflows F
      → Option (Workflow F)
      → Result (Unit {0}) × Workflows F
  change_found id f v none = (err workflow_not_found, v)
  change_found id f v (some w) = (ok tt, set_at id (f w) v)

  -- An error of the database, or a missing workflow, leaves the map alone.
  unfoldable pub spec_change :
      Option Fault
      → String
      → (Workflow F → Option (Workflow F))
      → Workflows F
      → Result (Unit {0}) × Workflows F
  spec_change (some e) id f v = (err e, v)
  spec_change none id f v = change_found id f v (v id)

  -- The workflow at a key, if the database answers and it is there.
  unfoldable pub at_key : Option (Workflow F) → Result (Workflow F)
  at_key none = err workflow_not_found
  at_key (some w) = ok w

  unfoldable pub spec_get : Option Fault → String → Workflows F → Result (Workflow F)
  spec_get (some e) id v = err e
  spec_get none id v = at_key (v id)

  -- Switched on or off: three fields.
  unfoldable pub switched : Time → Bool → String → Workflow F → Workflow F
  switched now active reason w = record w {
    active = active;
    deactivated_reason = reason;
    updated_at = now;
  }

  -- What a save answers.
  unfoldable pub saved_answer : Time → Workflow F → Workflow F
  saved_answer now w = record w {
    created_at = if is_zero w.created_at then now else w.created_at;
    updated_at = now;
  }

  -- The workflow that a save leaves at its key: created when the one before it was, if there was
  -- one, and else at the time that the save answers.
  unfoldable pub saved_row : Json F → Time → Workflow F → Option (Workflow F) → Workflow F
  saved_row json now w none = record w {
    params = json w.params;
    trigger = record w.trigger { params = json w.trigger.params };
    created_at = if is_zero w.created_at then now else w.created_at;
    updated_at = now;
  }
  saved_row json now w (some old) = record w {
    params = json w.params;
    trigger = record w.trigger { params = json w.trigger.params };
    created_at = old.created_at;
    updated_at = now;
  }

-- A field that a request gives, or its default.
unfoldable pub given : {A : Type 0} → Option A → A → A
given (some a) default = a
given none default = default

module _ (fl : Floats) (json : Json fl.Float) where
  open fl use {Float, of_int, feq}

  -- What a creation asks for, with 80 per cent, five seconds and thirty seconds for zero.
  unfoldable pub asked_workflow : String → CreateWorkflowRequest Float → Workflow Float
  asked_workflow id r = record {
    id = id;
    name = r.name;
    description = r.description;
    workflow_type = r.workflow_type;
    activity = r.activity;
    params = r.params;
    target_filter = r.target_filter;
    trigger = r.trigger;
    success_threshold =
        if feq r.success_threshold (of_int (pos 0)) then of_int (pos 80) else r.success_threshold;
    loop_threshold_ms = if eq_ℤ r.loop_threshold_ms (pos 0) then pos 5000 else r.loop_threshold_ms;
    timeout_ms = if eq_ℤ r.timeout_ms (pos 0) then pos 30000 else r.timeout_ms;
    active = given r.enabled true;
    created_at = 0;
    updated_at = 0;
    deactivated_reason = "";
  }

  -- An edit replaces the fields that it gives and no other: the identifier, the type, the activity,
  -- the trigger and the time of creation stay.
  unfoldable pub with_edits : EditWorkflowRequest Float → Workflow Float → Workflow Float
  with_edits r w = record {
    id = w.id;
    name = given r.name w.name;
    description = given r.description w.description;
    workflow_type = w.workflow_type;
    activity = w.activity;
    params = given r.params w.params;
    target_filter = given r.target_filter w.target_filter;
    trigger = w.trigger;
    success_threshold = given r.success_threshold w.success_threshold;
    loop_threshold_ms = given r.loop_threshold_ms w.loop_threshold_ms;
    timeout_ms = given r.timeout_ms w.timeout_ms;
    active = given r.enabled w.active;
    created_at = w.created_at;
    updated_at = w.updated_at;
    deactivated_reason = w.deactivated_reason;
  }

  unfoldable pub spec_save :
      Option Fault
      → Time
      → Workflow Float
      → Workflows Float
      → Result (Workflow Float) × Workflows Float
  spec_save db now w v = elim (validate_definition fl w) [
    | err e ↦ (err e, v)
    | ok u ↦ elim db [
      | some e ↦ (err e, v)
      | none ↦ (ok (saved_answer now w), set_at w.id (some (saved_row json now w (v w.id))) v)
    ]
  ]

  unfoldable pub spec_call : Call Float → Workflows Float → Answer Float × Workflows Float
  spec_call (creating db now id r) v = elim (validate_create r) [
    | err e ↦ (workflow_answer (err e), v)
    | ok u ↦ as_workflow (spec_save db now (asked_workflow id r) v)
  ]
  spec_call (editing db_get db_save now id r) v = elim (validate_edit r) [
    | err e ↦ (workflow_answer (err e), v)
    | ok u ↦ elim (spec_get db_get id v) [
      | err e ↦ (workflow_answer (err e), v)
      | ok w ↦ as_workflow (spec_save db_save now (with_edits r w) v)
    ]
  ]
  spec_call (removing db id) v = as_done (spec_change db id (λ w. none) v)
  spec_call (activating db now id) v =
      as_done (spec_change db id (λ w. some (switched now true "manually activated" w)) v)
  spec_call (deactivating db now id) v =
      as_done (spec_change db id (λ w. some (switched now false "manually deactivated" w)) v)
  spec_call (reading db id) v = (workflow_answer (spec_get db id v), v)

  unfoldable pub spec_calls :
      List (Call Float) → Workflows Float → List (Answer Float) × Workflows Float
  spec_calls [] v = ([], v)
  spec_calls (c ∷ cs) v =
      let (answer, v') = spec_call c v in
      let (answers, v'') = spec_calls cs v' in (answer ∷ answers, v'')
