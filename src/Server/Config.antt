-- ===== src/Server/Config.antt =====
-- DefaultConfigRepository and DefaultPolicyRepo of internal/core/services/config_repos.go, over the
-- table of workflows.
pub mod Laws
use super_duper_bassoon.Common.{
  ℕ, ◌*◌, Bool, true, false, String, List, [], ◌∷◌, Option, none, some, if◌then◌else◌, ◌||◌,
}
use super_duper_bassoon.Common.Fault.{Fault, Result, ok, err, invalid_policy}
use super_duper_bassoon.Common.Float.{Floats}
use super_duper_bassoon.Common.Int.{ℤ, pos, leb_ℤ, ltb_ℤ}
use super_duper_bassoon.Common.Time.{of_ms, second}
use super_duper_bassoon.Server.Workflow.{Workflow, out_of_range}
use super_duper_bassoon.Server.Workflow.Table.{get_workflow, list_workflows_by_type}
use super_duper_bassoon.Server.Circuit.{Policy}

-- HealthThreshold
pub record HealthThreshold (F : Type 0) : Type 0 where
  pub success_threshold : F
  pub window_size : ℤ

pub record PolicyDefaults (F : Type 0) : Type 0 where
  pub threshold : F
  pub window : ℤ
  pub cooldown : ℤ

module _ (fl : Floats) where
  open fl use {Float, of_int, flt, fle}

  unfoldable pub validate_threshold : HealthThreshold Float → Result (Unit {0})
  validate_threshold t =
      if out_of_range fl t.success_threshold
      then err invalid_policy
      else if ltb_ℤ t.window_size (pos 0)
      then err invalid_policy
      else ok tt

  unfoldable pub default_threshold : Float → Float
  default_threshold threshold =
      if fle threshold (of_int (pos 0)) then of_int (pos 80) else threshold

  abbrev pub default_window : ℤ → ℤ
  default_window window = if leb_ℤ window (pos 0) then pos 10 else window

  unfoldable pub new_config_repository : Float → ℤ → HealthThreshold Float
  unfolding default_threshold
  new_config_repository threshold window = record {
    success_threshold = default_threshold threshold;
    window_size = default_window window;
  }

  unfoldable pub new_policy_repo : Float → ℤ → ℤ → PolicyDefaults Float
  unfolding default_threshold
  new_policy_repo threshold window cooldown_ms = record {
    threshold = default_threshold threshold;
    window = default_window window;
    cooldown = if leb_ℤ (of_ms cooldown_ms) (pos 0) then pos (300 * second) else of_ms cooldown_ms;
  }

  abbrev pub positive_or : Float → Float → Float
  positive_or default threshold = if flt (of_int (pos 0)) threshold then threshold else default

  unfoldable pub first_threshold : Float → List (Workflow Float) → Float
  first_threshold default [] = default
  first_threshold default (w ∷ ws) = positive_or default w.success_threshold

  abbrev or_no_workflows : Result (List (Workflow Float)) → List (Workflow Float)
  or_no_workflows (err e) = []
  or_no_workflows (ok ws) = ws

  -- An error of the database leaves the defaults.
  unfoldable pub get_health_threshold :
      HealthThreshold Float → Option Fault → String → List (Workflow Float) → HealthThreshold Float
  unfolding first_threshold
  get_health_threshold c db workflow_type t = record c {
    success_threshold =
        first_threshold c.success_threshold
          (or_no_workflows (list_workflows_by_type db workflow_type t));
  }

  unfoldable pub get_default_policy : PolicyDefaults Float → Policy Float
  get_default_policy p = record {
    success_threshold = p.threshold;
    evaluation_window = p.window;
    cooldown_period = p.cooldown;
  }

  -- Any error of GetWorkflow leads to the default.
  unfoldable pub get_policy :
      PolicyDefaults Float → Option Fault → String → List (Workflow Float) → Policy Float
  unfolding get_default_policy
  get_policy p db workflow_id t = elim (get_workflow db workflow_id t) [
    | err e ↦ get_default_policy p
    | ok w ↦ record {
      success_threshold = positive_or p.threshold w.success_threshold;
      evaluation_window = p.window;
      cooldown_period = p.cooldown;
    }
  ]
