-- ===== src/Server/Http/Laws.antt =====
-- A request that fails changes nothing.
use super_duper_bassoon.Common.{
  ℕ, String, Bool, true, false, List, Option, none, some, ◌≡◌, refl, ◌∙◌, leb, ap, Option-cases,
  inl, inr, eq_refl,
}
use super_duper_bassoon.Common.Fault.{Fault, Result, ok, err, Result-cases}
use super_duper_bassoon.Common.Float.{Floats}
use super_duper_bassoon.Common.Time.{Time}
use super_duper_bassoon.Server.Rows.{find_row, change_row}
use super_duper_bassoon.Server.Rows.Laws.{find-change}
use super_duper_bassoon.Server.Workflow.{Workflow, Run, validate_definition}
use super_duper_bassoon.Server.Workflow.Table.{
  Json, get_workflow, save_workflow, update_workflow_state, delete_workflow, workflow_id,
  with_state, or_missing, found_workflow,
}
use super_duper_bassoon.Server.Requests.{
  CreateWorkflowRequest, EditWorkflowRequest, UnbanRequest, validate_create, validate_edit,
  validate_unban,
}
use super_duper_bassoon.Server.Editing.{
  create_workflow, edit_workflow, edited, save_valid, settled, settled_unit, workflow_of,
  remove_workflow, activate_workflow, deactivate_workflow,
}
use super_duper_bassoon.Server.Ban.Table.{unban}
use super_duper_bassoon.Server.Ban.Service.{BanState, unban_client}
use super_duper_bassoon.Server.Api.{Tables, api_activate, api_deactivate, api_unban, reread}
use super_duper_bassoon.Server.Http.{
  Body, Request, respond, trigger_request_at, create_workflow_request, edit_workflow_request,
  delete_workflow_request, activate_request, deactivate_request, unban_request,
}
use super_duper_bassoon.Server.Http.Handlers.{Surroundings, serve}

-- A call whose error leaves its state alone.
abbrev SafeCall : {A T : Type 0} → T → Result A × T → Type 0
SafeCall t done = (e : Fault) → done.0 ≡ err e → done.1 ≡ t

settled_unit-safe : {T : Type 0} (r : Result T) (t : T) → SafeCall t (settled_unit r t)
settled_unit-safe (err f) t e h = refl
settled_unit-safe (ok t') t e h = cc

settled-safe : {A T : Type 0} (r : Result (A × T)) (t : T) → SafeCall t (settled r t)
settled-safe (err f) t e h = refl
settled-safe (ok (a, t')) t e h = cc

unban_client-safe :
    (db : Option Fault) (c w admin reason : String) (s : BanState)
    → SafeCall s (unban_client db c w admin reason s)
unfolding unban_client
unban_client-safe db c w admin reason s e h = elim (Result-cases (unban db c w s.table)) [
  | inr (f, q) ↦ rw (unban_client, q) refl
  | inl (t, q) ↦ let no : ok tt ≡ err e = rw (unban_client, q) at h in cc no
]

api_unban-safe :
    (db : Option Fault) (c : String) (r : UnbanRequest) (s : BanState)
    → SafeCall s (api_unban db c r s)
unfolding api_unban
api_unban-safe db c r s e h = elim (Result-cases (validate_unban r)) [
  | inr (f, q) ↦ rw (api_unban, q) refl
  | inl (u, q) ↦
      rw (api_unban, q)
        (unban_client-safe db c r.workflow_type r.admin_id r.reason s e (rw (api_unban, q) at h))
]

id-state :
    {F : Type 0} (now : Time) (active : Bool) (reason : String) (w : Workflow F)
    → workflow_id (with_state now active reason w) ≡ workflow_id w
unfolding with_state
id-state now active reason w = refl

-- The workflow is there when it is read again.
reread-safe :
    {F : Type 0} (db : Option Fault) (now : Time) (id : String) (active : Bool) (reason : String)
    (t : List (Workflow F))
    → SafeCall t (reread none id (settled_unit (update_workflow_state db now id active reason t) t))
unfolding update_workflow_state get_workflow found_workflow
reread-safe (some f) now id active reason t e h = refl
reread-safe none now id active reason t e h = elim (Option-cases (find_row workflow_id id t)) [
  | inl q ↦ rw (q, or_missing) refl
  | inr (w, q) ↦
      let found : find_row workflow_id id
            (change_row workflow_id id (with_state now active reason) t)
          ≡ some (with_state now active reason w) =
        find-change workflow_id id (with_state now active reason) (id-state now active reason) t id
        ∙ rw (eq_refl, q) refl in
      let k : get_workflow none id (change_row workflow_id id (with_state now active reason) t)
          ≡ err e =
        rw (q, or_missing) at h in
      let no : ok (with_state now active reason w) ≡ err e = rw found at k in cc no
]

module _ (fl : Floats) (json : Json fl.Float) where
  open fl use {Float}

  save_valid-safe :
      (db : Option Fault) (now : Time) (w : Workflow Float) (t : List (Workflow Float))
      → SafeCall t (save_valid fl json db now w t)
  unfolding save_valid
  save_valid-safe db now w t e h = elim (Result-cases (validate_definition fl w)) [
    | inr (f, q) ↦ rw (save_valid, q) refl
    | inl (u, q) ↦
        rw (save_valid, q)
          (settled-safe (save_workflow json db now w t) t e (rw (save_valid, q) at h))
  ]

  create-safe :
      (db : Option Fault) (now : Time) (id : String) (r : CreateWorkflowRequest Float)
      (t : List (Workflow Float))
      → SafeCall t (create_workflow fl json db now id r t)
  unfolding create_workflow
  create-safe db now id r t e h = elim (Result-cases (validate_create r)) [
    | inr (f, q) ↦ rw (create_workflow, q) refl
    | inl (u, q) ↦
        rw (create_workflow, q)
          (save_valid-safe db now (workflow_of fl json id r) t e (rw (create_workflow, q) at h))
  ]

  edit-safe :
      (db_get db_save : Option Fault) (now : Time) (id : String) (r : EditWorkflowRequest Float)
      (t : List (Workflow Float))
      → SafeCall t (edit_workflow fl json db_get db_save now id r t)
  unfolding edit_workflow
  edit-safe db_get db_save now id r t e h = elim (Result-cases (validate_edit r)) [
    | inr (f, q) ↦ rw (edit_workflow, q) refl
    | inl (u, q) ↦ elim (Result-cases (get_workflow db_get id t)) [
      | inr (f, g) ↦ rw (edit_workflow, q, g) refl
      | inl (w, g) ↦
          rw (edit_workflow, q, g)
            (save_valid-safe db_save now (edited fl json r w) t e (rw (edit_workflow, q, g) at h))
    ]
  ]

state-safe :
    {F : Type 0} (db second : Option Fault) (now : Time) (id : String) (active : Bool)
    (reason : String) (t : List (Workflow F))
    → second ≡ none
    → SafeCall t
        (reread second id (settled_unit (update_workflow_state db now id active reason t) t))
state-safe db (some e) now id active reason t h = cc h
state-safe db none now id active reason t h = reread-safe db now id active reason t

-- A status of 400 or more is that of an error.
failed-err :
    {F A : Type 0} (status : ℕ) (body : A → Body F) (r : Result A)
    → leb 400 status ≡ false
    → leb 400 (respond status body r).status ≡ true
    → (e : Fault) × (r ≡ err e)
unfolding respond
failed-err status body (err e) ok_status h = (e, refl)
failed-err status body (ok a) ok_status h = cc

abbrev pub is_trigger : {F : Type 0} → Request F → Bool
is_trigger (trigger_request_at id) = true
is_trigger _ = false

module _ (fl : Floats) (json : Json fl.Float)
    (trigger : String → Tables fl.Float → Result Run × Tables fl.Float) where
  open fl use {Float}

  -- A request other than a trigger that is answered with a status of 400 or more leaves all tables as
  -- they were, where the database does not fail at the second of two calls; it may fail at the
  -- first.
  pub serve_failed :
      (at : Surroundings) (r : Request Float) (t : Tables Float)
      → is_trigger r ≡ false
      → at.db_second ≡ none
      → leb 400 (serve fl json trigger at r t).0.status ≡ true
      → (serve fl json trigger at r t).1 ≡ t
  unfolding serve api_activate api_deactivate activate_workflow deactivate_workflow remove_workflow
  serve_failed at (trigger_request_at id) t k second h = cc
  serve_failed at (create_workflow_request none) t k second h = refl
  serve_failed at (create_workflow_request (some r)) t k second h =
      let failed = failed-err 201 _ _ refl h in
      ap (λ ws. record t { workflows = ws })
        (create-safe fl json at.db at.now at.new_id r t.workflows failed.0 failed.1)
  serve_failed at (edit_workflow_request id none) t k second h = refl
  serve_failed at (edit_workflow_request id (some r)) t k second h =
      let failed = failed-err 200 _ _ refl h in
      ap (λ ws. record t { workflows = ws })
        (edit-safe fl json at.db at.db_second at.now id r t.workflows failed.0 failed.1)
  serve_failed at (delete_workflow_request id) t k second h =
      let failed = failed-err 204 _ _ refl h in
      ap (λ ws. record t { workflows = ws })
        (settled_unit-safe (delete_workflow at.db id t.workflows) t.workflows failed.0 failed.1)
  serve_failed at (activate_request id) t k second h =
      let failed = failed-err 200 _ _ refl h in
      ap (λ ws. record t { workflows = ws })
        (state-safe at.db at.db_second at.now id true _ t.workflows second failed.0 failed.1)
  serve_failed at (deactivate_request id) t k second h =
      let failed = failed-err 200 _ _ refl h in
      ap (λ ws. record t { workflows = ws })
        (state-safe at.db at.db_second at.now id false _ t.workflows second failed.0 failed.1)
  serve_failed at (unban_request id none) t k second h = refl
  serve_failed at (unban_request id (some r)) t k second h =
      let failed = failed-err 200 _ _ refl h in
      ap (λ b. record t { bans = b }) (api_unban-safe at.db id r t.bans failed.0 failed.1)
  serve_failed at _ t k second h = refl
