-- ===== src/Server/System/Laws.antt =====
-- What each message and each request leaves true of the tables.
use super_duper_bassoon.Common.{
  String, Bool, true, false, List, [], ◌∷◌, Option, none, some, ◌≡◌, refl, sym, subst, Bool-cases,
  inl, inr, All,
}
use super_duper_bassoon.Common.Fault.{Fault, Result, ok, err, Result-cases}
use super_duper_bassoon.Common.Float.{Floats}
use super_duper_bassoon.Common.Time.{Time}
use super_duper_bassoon.Server.Workflow.{
  Workflow, Run, RunResult, result-IsValid, validate_definition,
}
use super_duper_bassoon.Server.Workflow.Table.{Json, update_workflow_state}
use super_duper_bassoon.Server.Requests.{UnbanRequest, validate_unban}
use super_duper_bassoon.Server.Editing.Laws.{
  change-AllDefined, created-AllDefined, edited-AllDefined, removed-AllDefined,
}
use super_duper_bassoon.Server.Editing.{
  activate_workflow, deactivate_workflow, remove_workflow, settled_unit,
}
use super_duper_bassoon.Server.Ban.Service.{BanState}
use super_duper_bassoon.Server.Ban.Cache.{Synced, unban_client-Synced}
use super_duper_bassoon.Server.Loop.Laws.{handle_result-Synced}
use super_duper_bassoon.Server.Health.Monitor.{HealthUpdated}
use super_duper_bassoon.Server.Circuit.{
  Effect, activate, deactivate, opened_alert, closed_alert, changed,
}
use super_duper_bassoon.Server.Circuit.Effects.{carry_out, carry_out_one, kept_rows}
use super_duper_bassoon.Server.Results.{
  call_handlers, dispatch_result, place_stable, register_handler, sort_stable,
}
use super_duper_bassoon.Server.Api.{Tables, api_activate, api_deactivate, api_unban, reread}
use super_duper_bassoon.Server.Http.{
  Request, create_workflow_request, edit_workflow_request, delete_workflow_request,
  trigger_request_at, activate_request, deactivate_request, unban_request,
}
use super_duper_bassoon.Server.Http.Handlers.{Surroundings, serve}
use super_duper_bassoon.Server.System.{
  ResultAnswers, ServerConfig, client_handler, events_of, health_handler, loop_handler, monitored,
  on_health_updated, server_handlers, take_result, with_health,
}

api_unban-Synced :
    (db : Option Fault) (id : String) (r : UnbanRequest) (s : BanState)
    → Synced s
    → Synced (api_unban db id r s).1
unfolding api_unban
api_unban-Synced db id r s h = elim (Result-cases (validate_unban r)) [
  | inr (e, q) ↦ rw (api_unban, q) h
  | inl (u, q) ↦
      rw (api_unban, q) (unban_client-Synced db id r.workflow_type r.admin_id r.reason s h)
]

reread-rows :
    {F : Type 0} (db : Option Fault) (id : String) (p : Result (Unit {0}) × List (Workflow F))
    → (reread db id p).1 ≡ p.1
reread-rows db id (err e, t) = refl
reread-rows db id (ok u, t) = refl

kept-settled :
    {F : Type 0} (r : Result (List (Workflow F))) (t : List (Workflow F))
    → (settled_unit r t).1 ≡ kept_rows r t
kept-settled (err e) t = refl
kept-settled (ok u) t = refl

module _ (fl : Floats) (json : Json fl.Float) (cfg : ServerConfig fl.Float) where
  open fl use {Float}

  -- The cache and the table of bans agree, and every workflow passes ValidateDefinition.
  pub record IsSound (t : Tables Float) : Type 0 where
    pub bans : Synced t.bans
    pub workflows : All (λ w. validate_definition fl w ≡ ok tt) t.workflows

  kept-AllDefined :
      (now : Time) (id : String) (active : Bool) (reason : String) (t : List (Workflow Float))
      → All (λ w. validate_definition fl w ≡ ok tt) t
      → All
          (λ w. validate_definition fl w ≡ ok tt)
          (kept_rows (update_workflow_state none now id active reason t) t)
  kept-AllDefined now id active reason t h =
      subst (All (λ w. validate_definition fl w ≡ ok tt))
        (kept-settled (update_workflow_state none now id active reason t) t)
        (change-AllDefined fl json none now id active reason t h)

  pub carried-AllDefined :
      (now : Time) (es : List Effect) (t : List (Workflow Float))
      → All (λ w. validate_definition fl w ≡ ok tt) t
      → All (λ w. validate_definition fl w ≡ ok tt) (carry_out now es t)
  unfolding carry_out carry_out_one
  carried-AllDefined now [] t h = h
  carried-AllDefined now (deactivate id reason ∷ es) t h =
      carried-AllDefined now es _ (kept-AllDefined now id false reason t h)
  carried-AllDefined now (activate id reason ∷ es) t h =
      carried-AllDefined now es _ (kept-AllDefined now id true reason t h)
  carried-AllDefined now (opened_alert a b ∷ es) t h = carried-AllDefined now es t h
  carried-AllDefined now (closed_alert a b ∷ es) t h = carried-AllDefined now es t h
  carried-AllDefined now (changed a b c d e ∷ es) t h = carried-AllDefined now es t h

  updated-IsSound :
      (db : ResultAnswers) (now : Time) (es : List (HealthUpdated Float)) (t : Tables Float)
      → IsSound t
      → IsSound (on_health_updated fl json cfg db now es t)
  unfolding on_health_updated
  updated-IsSound db now [] t h = h
  updated-IsSound db now (e ∷ es) t h =
      updated-IsSound db now es _
        (record { bans = h.bans; workflows = carried-AllDefined now _ t.workflows h.workflows })

  health-IsSound :
      (db : ResultAnswers) (now : Time) (r : RunResult Float) (t : Tables Float)
      → IsSound t
      → IsSound ((health_handler fl json cfg db now).handle_result r t).1
  health-IsSound db now r t h =
      let done = monitored fl json cfg db now r t in
      updated-IsSound db now (events_of fl json cfg done.1.events)
        (with_health fl json cfg done.1 t) (record { bans = h.bans; workflows = h.workflows })

  called-IsSound :
      (db : ResultAnswers) (now : Time) (r : RunResult Float) (t : Tables Float)
      → IsSound t
      → IsSound (call_handlers r (server_handlers fl json cfg db now) t)
  unfolding call_handlers server_handlers register_handler sort_stable place_stable
  called-IsSound db now r t h =
      let registered = ((client_handler fl json cfg db now).handle_result r t).1 in
      let looped = ((loop_handler fl json cfg db now).handle_result r registered).1 in
      health-IsSound db now r looped (record {
        bans = handle_result-Synced cfg.loop _ now (some r) t.runs t.bans h.bans;
        workflows = h.workflows;
      })

  pub result-IsSound :
      (db : ResultAnswers) (now : Time) (r : Option (RunResult Float)) (t : Tables Float)
      → IsSound t
      → IsSound (take_result fl json cfg db now r t)
  unfolding take_result dispatch_result
  result-IsSound db now none t h = h
  result-IsSound db now (some r) t h = elim (Bool-cases (result-IsValid r)) [
    | inr e ↦ rw (take_result, dispatch_result, e) h
    | inl e ↦ rw (take_result, dispatch_result, e) (called-IsSound db now r t h)
  ]

  module _ (trigger : String → Tables Float → Result Run × Tables Float)
      (trigger_keeps : (id : String) (t : Tables Float)
        → ((trigger id t).1.workflows ≡ t.workflows) × ((trigger id t).1.bans ≡ t.bans)) where
    activated-All :
        (db second : Option Fault) (now : Time) (id : String) (active : Bool) (reason : String)
        (t : List (Workflow Float))
        → All (λ w. validate_definition fl w ≡ ok tt) t
        → All
            (λ w. validate_definition fl w ≡ ok tt)
            (reread second id (settled_unit (update_workflow_state db now id active reason t) t)).1
    activated-All db second now id active reason t h =
        subst (All (λ w. validate_definition fl w ≡ ok tt)) (sym (reread-rows second id _))
          (change-AllDefined fl json db now id active reason t h)

    pub serve-IsSound :
        (at : Surroundings) (r : Request Float) (t : Tables Float)
        → IsSound t
        → IsSound (serve fl json trigger at r t).1
    unfolding serve api_activate api_deactivate activate_workflow deactivate_workflow
        remove_workflow
    serve-IsSound at (create_workflow_request (some r)) t h = record {
      bans = h.bans;
      workflows = created-AllDefined fl json at.db at.now at.new_id r t.workflows h.workflows;
    }
    serve-IsSound at (create_workflow_request none) t h = h
    serve-IsSound at (edit_workflow_request id (some r)) t h = record {
      bans = h.bans;
      workflows = edited-AllDefined fl json at.db at.db_second at.now id r t.workflows h.workflows;
    }
    serve-IsSound at (edit_workflow_request id none) t h = h
    serve-IsSound at (delete_workflow_request id) t h = record {
      bans = h.bans;
      workflows = removed-AllDefined fl json at.db id t.workflows h.workflows;
    }
    serve-IsSound at (trigger_request_at id) t h = record {
      bans = subst Synced (sym (trigger_keeps id t).1) h.bans;
      workflows =
          subst (All (λ w. validate_definition fl w ≡ ok tt)) (sym (trigger_keeps id t).0)
            h.workflows;
    }
    serve-IsSound at (activate_request id) t h = record {
      bans = h.bans;
      workflows = activated-All at.db at.db_second at.now id true _ t.workflows h.workflows;
    }
    serve-IsSound at (deactivate_request id) t h = record {
      bans = h.bans;
      workflows = activated-All at.db at.db_second at.now id false _ t.workflows h.workflows;
    }
    serve-IsSound at (unban_request id (some r)) t h = record {
      bans = api_unban-Synced at.db id r t.bans h.bans;
      workflows = h.workflows;
    }
    serve-IsSound at (unban_request id none) t h = h
    serve-IsSound at _ t h = h
