-- ===== src/Server/Editing/Refines.antt =====
-- The table of workflows implements the map from identifiers that its specification speaks of.
use mathlib.Core.Path.{fun_ext}
use super_duper_bassoon.Common.{
  String, Bool, true, false, List, [], ◌∷◌, Option, none, some, ◌≡◌, refl, sym, ◌∙◌, arith, inl,
  inr, Option-cases, ap, eq_iff,
}
use super_duper_bassoon.Common.Fault.{Fault, ok, Result-cases}
use super_duper_bassoon.Common.Float.{Floats}
use super_duper_bassoon.Common.Time.{Time}
use super_duper_bassoon.Server.Requests.{
  CreateWorkflowRequest, EditWorkflowRequest, validate_create, validate_edit,
}
use super_duper_bassoon.Server.Workflow.{Workflow, validate_definition}
use super_duper_bassoon.Server.Workflow.Table.{
  Json, save_workflow, get_workflow, update_workflow_state, delete_workflow, workflow_id, stamped,
  keep_created, row_of, or_missing, with_state, found_workflow,
}
use super_duper_bassoon.Server.Rows.{find_row, upsert_row, change_row, delete_row}
use super_duper_bassoon.Server.Rows.Laws.{find-upsert, find-change, find-delete, merged}
use super_duper_bassoon.Server.Editing.{
  workflow_of, save_valid, create_workflow, edited, edit_workflow, remove_workflow,
  activate_workflow, deactivate_workflow, settled_unit, or_else,
}
use super_duper_bassoon.Server.Editing.Laws.{
  Call, workflow_answer, creating, editing, removing, activating, deactivating, reading, call,
  calls, as_workflow, as_done,
}
use super_duper_bassoon.Server.Editing.Spec.{
  Workflows, view, set_at, change_found, spec_change, at_key, spec_get, switched, saved_answer,
  saved_row, given, asked_workflow, with_edits, spec_save, spec_call, spec_calls,
}

given-or_else : {A : Type 0} (a : Option A) (default : A) → or_else a default ≡ given a default
unfolding given
given-or_else (some a) default = refl
given-or_else none default = refl

-- A pair of an answer and a table is shown as a pair of an answer and a map.
abbrev shown : {A F : Type 0} → A × List (Workflow F) → A × Workflows F
shown p = (p.0, view p.1)

saved_row-merged :
    {F : Type 0} (json : Json F) (now : Time) (w : Workflow F) (old : Option (Workflow F))
    → merged keep_created (row_of json (stamped now w)) old ≡ saved_row json now w old
unfolding keep_created row_of stamped saved_row
saved_row-merged json now w none = refl
saved_row-merged json now w (some old) = refl

at_key-found : {F : Type 0} (found : Option (Workflow F)) → found_workflow found ≡ at_key found
unfolding found_workflow at_key
at_key-found none = refl
at_key-found (some w) = refl

view-save :
    {F : Type 0} (w : Workflow F) (t : List (Workflow F))
    → view (upsert_row workflow_id keep_created w t)
      ≡ set_at w.id (some (merged keep_created w (view t w.id))) (view t)
unfolding keep_created
view-save w t = fun_ext λ k. find-upsert workflow_id keep_created (λ old new. refl) w t k

view-change :
    {F : Type 0} (id : String) (f : Workflow F → Workflow F) (t : List (Workflow F))
    (keeps : (w : Workflow F) → workflow_id (f w) ≡ workflow_id w) (w : Workflow F)
    → find_row workflow_id id t ≡ some w
    → view (change_row workflow_id id f t) ≡ set_at id (some (f w)) (view t)
view-change id f t keeps w q =
    fun_ext λ k. ground (arith, find-change workflow_id id f keeps t k, eq_iff id k, q)

view-delete :
    {F : Type 0} (id : String) (t : List (Workflow F))
    → view (delete_row workflow_id id t) ≡ set_at id none (view t)
view-delete id t = fun_ext λ k. find-delete workflow_id id t k

id-with_state :
    {F : Type 0} (now : Time) (active : Bool) (reason : String) (w : Workflow F)
    → workflow_id (with_state now active reason w) ≡ workflow_id w
unfolding with_state
id-with_state now active reason w = refl

show-change :
    {F : Type 0} (db : Option Fault) (now : Time) (id : String) (active : Bool) (reason : String)
    (t : List (Workflow F))
    → shown (settled_unit (update_workflow_state db now id active reason t) t)
      ≡ spec_change db id (λ w. some (switched now active reason w)) (view t)
unfolding update_workflow_state spec_change change_found with_state switched
show-change (some e) now id active reason t = refl
show-change none now id active reason t = elim (Option-cases (find_row workflow_id id t)) [
  | inl q ↦ rw (q, or_missing) refl
  | inr (w, q) ↦
      rw (q, or_missing)
        (ap (λ v. (ok tt, v))
          (view-change id (with_state now active reason) t (id-with_state now active reason) w q))
]

show-remove :
    {F : Type 0} (db : Option Fault) (id : String) (t : List (Workflow F))
    → shown (settled_unit (delete_workflow db id t) t) ≡ spec_change db id (λ w. none) (view t)
unfolding delete_workflow spec_change change_found
show-remove (some e) id t = refl
show-remove none id t = elim (Option-cases (find_row workflow_id id t)) [
  | inl q ↦ rw (q, or_missing) refl
  | inr (w, q) ↦ rw (q, or_missing) (ap (λ v. (ok tt, v)) (view-delete id t))
]

show-get :
    {F : Type 0} (db : Option Fault) (id : String) (t : List (Workflow F))
    → get_workflow db id t ≡ spec_get db id (view t)
unfolding get_workflow spec_get
show-get (some e) id t = refl
show-get none id t = at_key-found (find_row workflow_id id t)

module _ (fl : Floats) (json : Json fl.Float) where
  open fl use {Float}

  show-save :
      (db : Option Fault) (now : Time) (w : Workflow Float) (t : List (Workflow Float))
      → shown (save_valid fl json db now w t) ≡ spec_save fl json db now w (view t)
  unfolding save_valid spec_save save_workflow stamped row_of saved_answer
  show-save db now w t = elim (Result-cases (validate_definition fl w)) [
    | inr (e, q) ↦ rw (save_valid, spec_save, q) refl
    | inl (u, q) ↦ elim (Option-cases db) [
      | inr (e, d) ↦ rw (save_valid, spec_save, q, d) refl
      | inl d ↦
          rw (save_valid, spec_save, q, d)
            (ap (λ v. (ok (saved_answer now w), v))
              (view-save (row_of json (stamped now w)) t
                ∙ ap (λ row. set_at w.id (some row) (view t))
                    (saved_row-merged json now w (view t w.id))))
    ]
  ]

  asked-workflow_of :
      (id : String) (r : CreateWorkflowRequest Float)
      → workflow_of fl json id r ≡ asked_workflow fl json id r
  unfolding workflow_of asked_workflow
  asked-workflow_of id r = rw (given-or_else r.enabled true) refl

  with_edits-edited :
      (r : EditWorkflowRequest Float) (w : Workflow Float)
      → edited fl json r w ≡ with_edits fl json r w
  unfolding edited with_edits
  with_edits-edited r w =
      rw
        (
          given-or_else r.name w.name,
          given-or_else r.description w.description,
          given-or_else r.params w.params,
          given-or_else r.target_filter w.target_filter,
          given-or_else r.success_threshold w.success_threshold,
          given-or_else r.loop_threshold_ms w.loop_threshold_ms,
          given-or_else r.timeout_ms w.timeout_ms,
          given-or_else r.enabled w.active,
        )
        refl

  show-call :
      (c : Call Float) (t : List (Workflow Float))
      → shown (call fl json c t) ≡ spec_call fl json c (view t)
  unfolding call create_workflow edit_workflow spec_call remove_workflow activate_workflow
      deactivate_workflow
  show-call (creating db now id r) t = elim (Result-cases (validate_create r)) [
    | inr (e, q) ↦ rw (create_workflow, spec_call, q) refl
    | inl (u, q) ↦
        rw (create_workflow, spec_call, q)
          (ap (λ p. as_workflow p)
            (show-save db now (workflow_of fl json id r) t
              ∙ ap (λ w. spec_save fl json db now w (view t)) (asked-workflow_of id r)))
  ]
  show-call (editing db_get db_save now id r) t = elim (Result-cases (validate_edit r)) [
    | inr (e, q) ↦ rw (edit_workflow, spec_call, q) refl
    | inl (u, q) ↦ elim (Result-cases (get_workflow db_get id t)) [
      | inr (e, g) ↦ rw (edit_workflow, spec_call, q, g, sym (show-get db_get id t) ∙ g) refl
      | inl (w, g) ↦
          rw (edit_workflow, spec_call, q, g, sym (show-get db_get id t) ∙ g)
            (ap (λ p. as_workflow p)
              (show-save db_save now (edited fl json r w) t
                ∙ ap (λ w. spec_save fl json db_save now w (view t)) (with_edits-edited r w)))
    ]
  ]
  show-call (removing db id) t = ap (λ p. as_done p) (show-remove db id t)
  show-call (activating db now id) t = ap (λ p. as_done p) (show-change db now id true _ t)
  show-call (deactivating db now id) t = ap (λ p. as_done p) (show-change db now id false _ t)
  show-call (reading db id) t = ap (λ a. (workflow_answer a, view t)) (show-get db id t)

  -- The calls answer, and leave the table as a map, just as the specification says from the table's
  -- map, field by field. A creation or an edit that passes the checks of its request and of the
  -- workflow, which are those of the code, sets one key: to what was asked for, with its defaults,
  -- or to the workflow there with the fields that the edit gives. It is changed now and created when
  -- the workflow at its key was, if there was one. Activation and deactivation set the state, the
  -- reason and the time of a workflow that is there, and a removal empties its key; each other
  -- call, and each that the database fails, changes nothing.
  pub calls_refine :
      (cs : List (Call Float)) (t : List (Workflow Float))
      → ((calls fl json cs t).0, view (calls fl json cs t).1) ≡ spec_calls fl json cs (view t)
  unfolding calls spec_calls
  calls_refine [] t = refl
  calls_refine (c ∷ cs) t =
      let one : shown (call fl json c t) ≡ spec_call fl json c (view t) = show-call c t in
      rw (← one)
        (ap (λ p. ((call fl json c t).0 ∷ p.0, p.1)) (calls_refine cs (call fl json c t).1))
