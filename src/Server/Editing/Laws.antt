-- ===== src/Server/Editing/Laws.antt =====
-- The calls that change the table of workflows, one after the other, and what the table keeps.
use super_duper_bassoon.Common.{
  String, Bool, true, false, List, [], ◌∷◌, Option, none, some, ◌≡◌, inl, inr, All, Option-cases,
}
use super_duper_bassoon.Common.Fault.{Fault, Result, ok, Result-cases}
use super_duper_bassoon.Common.Float.{Floats}
use super_duper_bassoon.Common.Time.{Time}
use super_duper_bassoon.Server.Requests.{
  CreateWorkflowRequest, EditWorkflowRequest, validate_create, validate_edit,
}
use super_duper_bassoon.Server.Workflow.{Workflow, validate_definition}
use super_duper_bassoon.Server.Workflow.Table.{
  Json, save_workflow, get_workflow, update_workflow_state, delete_workflow, workflow_id, stamped,
  keep_created, row_of, or_missing, with_state,
}
use super_duper_bassoon.Server.Rows.{find_row}
use super_duper_bassoon.Server.Rows.Laws.{upsert-All, change-All, delete-All}
use super_duper_bassoon.Server.Editing.{
  workflow_of, save_valid, create_workflow, edited, edit_workflow, remove_workflow,
  activate_workflow, deactivate_workflow, settled_unit,
}

-- One call, with what the database answers to it.
pub data Call (F : Type 0) : Type 0 where
  creating : Option Fault → Time → String → CreateWorkflowRequest F → Call F
  editing : Option Fault → Option Fault → Time → String → EditWorkflowRequest F → Call F
  removing : Option Fault → String → Call F
  activating deactivating : Option Fault → Time → String → Call F
  reading : Option Fault → String → Call F

pub data Answer (F : Type 0) : Type 0 where
  workflow_answer : Result (Workflow F) → Answer F
  done_answer : Result (Unit {0}) → Answer F

abbrev pub as_workflow : {F T : Type 0} → Result (Workflow F) × T → Answer F × T
as_workflow p = (workflow_answer p.0, p.1)

abbrev pub as_done : {F T : Type 0} → Result (Unit {0}) × T → Answer F × T
as_done p = (done_answer p.0, p.1)

module _ (fl : Floats) (json : Json fl.Float) where
  open fl use {Float}

  unfoldable pub call : Call Float → List (Workflow Float) → Answer Float × List (Workflow Float)
  call (creating db now id r) t = as_workflow (create_workflow fl json db now id r t)
  call (editing db_get db_save now id r) t =
      as_workflow (edit_workflow fl json db_get db_save now id r t)
  call (removing db id) t = as_done (remove_workflow db id t)
  call (activating db now id) t = as_done (activate_workflow db now id t)
  call (deactivating db now id) t = as_done (deactivate_workflow db now id t)
  call (reading db id) t = (workflow_answer (get_workflow db id t), t)

  unfoldable pub calls :
      List (Call Float) → List (Workflow Float) → List (Answer Float) × List (Workflow Float)
  calls [] t = ([], t)
  calls (c ∷ cs) t =
      let (answer, t') = call c t in let (answers, t'') = calls cs t' in (answer ∷ answers, t'')

  abbrev pub IsDefined : Workflow Float → Type 0
  IsDefined w = validate_definition fl w ≡ ok tt

  row-IsDefined :
      (now : Time) (w : Workflow Float) → IsDefined w → IsDefined (row_of json (stamped now w))
  unfolding validate_definition row_of stamped
  row-IsDefined now w h = h

  kept-IsDefined : (old new : Workflow Float) → IsDefined new → IsDefined (keep_created old new)
  unfolding validate_definition keep_created
  kept-IsDefined old new h = h

  pub state-IsDefined :
      (now : Time) (active : Bool) (reason : String) (w : Workflow Float)
      → IsDefined w
      → IsDefined (with_state now active reason w)
  unfolding validate_definition with_state
  state-IsDefined now active reason w h = h

  save_valid-AllDefined :
      (db : Option Fault) (now : Time) (w : Workflow Float) (t : List (Workflow Float))
      → All IsDefined t
      → All IsDefined (save_valid fl json db now w t).1
  unfolding save_valid save_workflow
  save_valid-AllDefined db now w t h = elim (Result-cases (validate_definition fl w)) [
    | inr (e, q) ↦ rw (save_valid, q) h
    | inl (u, q) ↦ elim (Option-cases db) [
      | inr (e, d) ↦ rw (save_valid, q, d) h
      | inl d ↦
          rw (save_valid, q, d)
            (upsert-All workflow_id IsDefined keep_created (row_of json (stamped now w)) t
              (row-IsDefined now w q)
              (λ old. kept-IsDefined old (row_of json (stamped now w)) (row-IsDefined now w q)) h)
    ]
  ]

  pub change-AllDefined :
      (db : Option Fault) (now : Time) (id : String) (active : Bool) (reason : String)
      (t : List (Workflow Float))
      → All IsDefined t
      → All IsDefined (settled_unit (update_workflow_state db now id active reason t) t).1
  unfolding update_workflow_state
  change-AllDefined (some e) now id active reason t h = h
  change-AllDefined none now id active reason t h =
      elim (Option-cases (find_row workflow_id id t)) [
        | inl q ↦ rw (q, or_missing) h
        | inr (w, q) ↦
            rw (q, or_missing)
              (change-All workflow_id IsDefined id (with_state now active reason) t
                (state-IsDefined now active reason) h)
      ]

  pub removed-AllDefined :
      (db : Option Fault) (id : String) (t : List (Workflow Float))
      → All IsDefined t
      → All IsDefined (settled_unit (delete_workflow db id t) t).1
  unfolding delete_workflow
  removed-AllDefined (some e) id t h = h
  removed-AllDefined none id t h = elim (Option-cases (find_row workflow_id id t)) [
    | inl q ↦ rw (q, or_missing) h
    | inr (w, q) ↦ rw (q, or_missing) (delete-All workflow_id IsDefined id t h)
  ]

  pub edited-AllDefined :
      (db_get db_save : Option Fault) (now : Time) (id : String) (r : EditWorkflowRequest Float)
      (t : List (Workflow Float))
      → All IsDefined t
      → All IsDefined (edit_workflow fl json db_get db_save now id r t).1
  unfolding edit_workflow
  edited-AllDefined db_get db_save now id r t h = elim (Result-cases (validate_edit r)) [
    | inr (e, q) ↦ rw (edit_workflow, q) h
    | inl (u, q) ↦ elim (Result-cases (get_workflow db_get id t)) [
      | inr (e, g) ↦ rw (edit_workflow, q, g) h
      | inl (w, g) ↦
          rw (edit_workflow, q, g) (save_valid-AllDefined db_save now (edited fl json r w) t h)
    ]
  ]

  pub created-AllDefined :
      (db : Option Fault) (now : Time) (id : String) (r : CreateWorkflowRequest Float)
      (t : List (Workflow Float))
      → All IsDefined t
      → All IsDefined (create_workflow fl json db now id r t).1
  unfolding create_workflow
  created-AllDefined db now id r t h = elim (Result-cases (validate_create r)) [
    | inr (e, q) ↦ rw (create_workflow, q) h
    | inl (u, q) ↦
        rw (create_workflow, q) (save_valid-AllDefined db now (workflow_of fl json id r) t h)
  ]

  call-AllDefined :
      (c : Call Float) (t : List (Workflow Float)) → All IsDefined t → All IsDefined (call c t).1
  unfolding call remove_workflow activate_workflow deactivate_workflow
  call-AllDefined (creating db now id r) t h = created-AllDefined db now id r t h
  call-AllDefined (editing db_get db_save now id r) t h =
      edited-AllDefined db_get db_save now id r t h
  call-AllDefined (removing db id) t h = removed-AllDefined db id t h
  call-AllDefined (activating db now id) t h = change-AllDefined db now id true _ t h
  call-AllDefined (deactivating db now id) t h = change-AllDefined db now id false _ t h
  call-AllDefined (reading db id) t h = h

  -- Where each workflow of the table passes ValidateDefinition, each does behind any sequence of
  -- creations, edits, removals, activations, deactivations and reads, whatever the requests hold
  -- and wherever the database fails.
  pub calls-AllDefined :
      (cs : List (Call Float)) (t : List (Workflow Float))
      → All (λ w. validate_definition fl w ≡ ok tt) t
      → All (λ w. validate_definition fl w ≡ ok tt) (calls cs t).1
  unfolding calls
  calls-AllDefined [] t h = h
  calls-AllDefined (c ∷ cs) t h = calls-AllDefined cs (call c t).1 (call-AllDefined c t h)
