-- ===== src/Server/Circuit/Effects.antt =====
-- What the circuit breaker's calls of WorkflowStateManager do to the table of workflows:
-- DeactivateWorkflow and ActivateWorkflow of internal/core/services/workflow_state_manager.go.
use super_duper_bassoon.Common.{
  String, Bool, true, false, List, [], ◌∷◌, ◌++◌, Option, none, some, ◌≡◌, refl, ◌∙◌, eq_refl,
}
use super_duper_bassoon.Common.Fault.{Result, ok, err, workflow_inactive}
use super_duper_bassoon.Common.Float.{Floats}
use super_duper_bassoon.Common.Time.{Time}
use super_duper_bassoon.Server.Rows.{find_row, change_row}
use super_duper_bassoon.Server.Rows.Laws.{find-change}
use super_duper_bassoon.Server.Filter.Ast.{FilterNode}
use super_duper_bassoon.Server.Filter.Eval.{Texts}
use super_duper_bassoon.Server.Workflow.{Workflow}
use super_duper_bassoon.Server.Workflow.Table.{
  get_workflow, found_workflow, or_missing, update_workflow_state, with_state, workflow_id,
}
use super_duper_bassoon.Server.Health.{TypeHealth}
use super_duper_bassoon.Server.Ban.Service.{BanState}
use super_duper_bassoon.Server.Dispatch.{Send}
use super_duper_bassoon.Server.Orchestration.{TriggerAnswers, trigger_workflow}
use super_duper_bassoon.Server.Circuit.{
  Breaker, CircuitConfig, CircuitState, Effect, activate, change_effects, changed, deactivate,
  evaluate_health, judge, open_state, opened_alert, policy_for, same_state, settle, when,
}

abbrev pub kept_rows :
    {F : Type 0} → Result (List (Workflow F)) → List (Workflow F) → List (Workflow F)
kept_rows (err e) t = t
kept_rows (ok t') t = t'

module _ {F : Type 0} where
  -- An error of the state manager is dropped.
  unfoldable pub carry_out_one : Time → Effect → List (Workflow F) → List (Workflow F)
  carry_out_one now (deactivate id reason) t =
      kept_rows (update_workflow_state none now id false reason t) t
  carry_out_one now (activate id reason) t =
      kept_rows (update_workflow_state none now id true reason t) t
  carry_out_one now _ t = t

  unfoldable pub carry_out : Time → List Effect → List (Workflow F) → List (Workflow F)
  unfolding carry_out_one
  carry_out now [] t = t
  carry_out now (e ∷ es) t = carry_out now es (carry_out_one now e t)

  id-state :
      (now : Time) (active : Bool) (reason : String) (w : Workflow F)
      → workflow_id (with_state now active reason w) ≡ workflow_id w
  unfolding with_state
  id-state now active reason w = refl

  carried-get :
      (now : Time) (id reason : String) (t : List (Workflow F)) (v : Workflow F)
      → find_row workflow_id id t ≡ some v
      → get_workflow none id (carry_out_one now (deactivate id reason) t)
        ≡ ok (with_state now false reason v)
  unfolding carry_out_one update_workflow_state get_workflow found_workflow
  carried-get now id reason t v q =
      let found : find_row workflow_id id
            (change_row workflow_id id (with_state now false reason) t)
          ≡ some (with_state now false reason v) =
        find-change workflow_id id (with_state now false reason) (id-state now false reason) t id
        ∙ rw (eq_refl, q) refl in
      rw (q, or_missing) (rw found refl)

  -- Alerts and events do not reach the table.
  told-rows :
      (now : Time) (b c : Bool) (id x workflow_type y : String) (s new : CircuitState)
      (t : List (Workflow F))
      → carry_out now (when b (opened_alert id x) ++ when c (changed id workflow_type s new y)) t
        ≡ t
  unfolding carry_out carry_out_one
  told-rows now true true id x workflow_type y s new t = refl
  told-rows now true false id x workflow_type y s new t = refl
  told-rows now false true id x workflow_type y s new t = refl
  told-rows now false false id x workflow_type y s new t = refl

module _ (fl : Floats) (cfg : CircuitConfig fl.Float) where
  open fl use {Float}

  opened-rows :
      (now : Time) (h : TypeHealth Float) (w : Workflow Float) (b : Breaker)
      (t : List (Workflow Float))
      → cfg.has_state_manager ≡ true
      → evaluate_health fl (some (policy_for fl cfg w)) (some h) ≡ open_state
      → same_state b.state open_state ≡ false
      → carry_out now (judge fl cfg now h w b).1 t
        ≡ carry_out_one now (deactivate w.id (cfg.reason_text h (policy_for fl cfg w))) t
  unfolding judge settle change_effects carry_out
  opened-rows now h w b t m bad shut =
      rw (judge, bad, settle, shut, m)
        (told-rows now cfg.has_alerts cfg.has_events w.id _ w.workflow_type _ b.state open_state _)

  -- Where the breaker of a stored workflow opens, with a state manager that the database serves,
  -- TriggerWorkflow of that workflow is refused as inactive from then on: no run is created, nothing
  -- is sent and no completion is published, whatever the other tables hold.
  pub opened_circuit_refuses :
      (tx : Texts Float) (parse : String → Result (Option (FilterNode Float))) (B : Type 0)
      (send : Send Float B) (db : TriggerAnswers Float) (now later : Time) (run_id reason : String)
      (s : BanState) (broker : B) (h : TypeHealth Float) (w v : Workflow Float) (b : Breaker)
      (t : List (Workflow Float))
      → cfg.has_state_manager ≡ true
      → evaluate_health fl (some (policy_for fl cfg w)) (some h) ≡ open_state
      → same_state b.state open_state ≡ false
      → find_row workflow_id w.id t ≡ some v
      → let answer = get_workflow none w.id (carry_out now (judge fl cfg now h w b).1 t) in
        trigger_workflow fl tx parse send
          (record db { workflow = answer })
          later
          run_id
          reason
          s
          broker
        ≡ record {
          failure = some workflow_inactive;
          run = none;
          sent = [];
          published = false;
          created = none;
          saved = none;
          broker = broker;
        }
  unfolding trigger_workflow with_state
  opened_circuit_refuses tx parse B send db now later run_id reason s broker h w v b t m bad shut
        q =
      rw
        (
          opened-rows now h w b t m bad shut,
          carried-get now w.id (cfg.reason_text h (policy_for fl cfg w)) t v q,
        )
        refl
