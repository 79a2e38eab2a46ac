-- ===== src/Examples/Breakers.antt =====
-- Two workflows of one type at a bad health, the second with an open breaker already, and the health
-- of a few runs.
use super_duper_bassoon.Common.{
  true, List, [], ◌∷◌, none, some, ◌≡◌, refl, str_eq, if◌then◌else◌, All, Bool-cases, inl, inr,
  eq_iff,
}
use super_duper_bassoon.Common.Int.{ℤ, pos}
use super_duper_bassoon.Common.Dict.{lookup}
use super_duper_bassoon.Common.Fault.{ok, err, external}
use super_duper_bassoon.Server.Workflow.{Workflow}
use super_duper_bassoon.Server.Health.Counts.{firsts, is_error, is_fail, is_success, number}
use super_duper_bassoon.Server.Health.{TypeHealth, stable}
use super_duper_bassoon.Server.Circuit.{
  Breaker, CircuitWorld, CircuitConfig, CircuitAnswers, Policy, open_state, evaluate_workflow_type,
}
use super_duper_bassoon.Server.Circuit.Laws.{IsKept, evaluate_workflow_type-IsKept}
use super_duper_bassoon.Server.Circuit.Repeat.{Answers, evaluate_twice}
use super_duper_bassoon.Examples.Data.{thousandths}
use super_duper_bassoon.Client.Activity.{ResultStatus, success, fail}
use super_duper_bassoon.Server.Workflow.{RunResult}
use super_duper_bassoon.Server.Health.{
  RunHealth, calculate_run_health, completed_count, is_complete,
}
use super_duper_bassoon.Server.Health.Laws.{calculate-repeated, calculate-counts}
use super_duper_bassoon.Common.{ℕ, ◌+◌, ◌-◌, ◌≤◌, ◌↔◌, here, String}
use super_duper_bassoon.Examples.Bans.{patching, reported}

abbrev pub strict : Policy ℤ
strict = record {
  success_threshold = pos 80000;
  evaluation_window = pos 10;
  cooldown_period = pos 300000000000;
}

abbrev pub cfg : CircuitConfig ℤ
cfg = record {
  has_state_manager = true;
  has_alerts = true;
  has_events = true;
  policy_of = λ id. none;
  default_policy = strict;
  reason_text = λ h p. "success below the threshold";
}

abbrev pub poor : TypeHealth ℤ
poor = record {
  workflow_type = "patch";
  window_size = pos 10;
  runs_considered = 4;
  success_percentage_avg = pos 25000;
  fail_percentage_avg = pos 75000;
  error_percentage_avg = pos 0;
  trend = stable;
  calculated_at = 50;
}

abbrev open_breaker : Breaker
open_breaker = record {
  workflow_id = "wf2";
  workflow_type = "patch";
  state = open_state;
  opened_at = 20;
  last_evaluated_at = 20;
  opened_reason = "success below the threshold";
  evaluation_count = pos 3;
}

abbrev world : CircuitWorld
world = record { table = ("wf2", open_breaker) ∷ []; effects = [] }

abbrev two_workflows : List (Workflow ℤ)
two_workflows = patching ∷ record patching { id = "wf2" } ∷ []

abbrev pub all_well : CircuitAnswers
all_well = record { get = λ id. none; save = λ id. none }

-- The second workflow's breaker cannot be saved.
abbrev one_fails : CircuitAnswers
one_fails = record {
  get = λ id. none;
  save = λ id. if str_eq id "wf2" then some external else none;
}

world-IsKept : IsKept world.table
unfolding lookup
world-IsKept id = elim (Bool-cases (str_eq "wf2" id)) [
  | inl e ↦ rw e ((eq_iff "wf2" id).0 e, (λ z. cc z))
  | inr e ↦ rw e tt
]

evaluate_workflow_type-IsKept_example :
    IsKept
      (evaluate_workflow_type thousandths cfg one_fails 60
        (some poor)
        (err external)
        (ok two_workflows)
        world).1.table
evaluate_workflow_type-IsKept_example =
    evaluate_workflow_type-IsKept thousandths cfg one_fails 60 (some poor) (err external)
      (ok two_workflows) world world-IsKept (λ z. cc z)

evaluate_twice_example :
    let r =
      evaluate_workflow_type thousandths cfg all_well 60
        (some poor)
        (err external)
        (ok two_workflows)
        world in
    let r' =
      evaluate_workflow_type thousandths cfg all_well 70
        (some poor)
        (err external)
        (ok two_workflows)
        r.1 in
    (r.0 ≡ ok tt)
    × All (λ w. Answers thousandths cfg poor w (lookup w.id r.1.table)) two_workflows
    × (r'.1.effects ≡ r.1.effects)
evaluate_twice_example =
    evaluate_twice thousandths cfg all_well all_well 60 70 poor (err external) two_workflows world
      world-IsKept (λ z. cc z) (λ z. cc z) (λ id. refl) (λ id. refl) (λ id. refl)

abbrev result_of : String → ResultStatus → RunResult ℤ
result_of id s = record reported { client_id = id; status = s }

calculate-repeated_example :
    calculate_run_health 9 "r2" "wf" "patch" 3
      (some (result_of "a" success) ∷ some (result_of "b" fail) ∷ some (result_of "a" fail) ∷ [])
      1
    ≡ calculate_run_health 9 "r2" "wf" "patch" 3
        (some (result_of "a" success) ∷ some (result_of "b" fail) ∷ [])
        1
calculate-repeated_example =
    calculate-repeated 9 "r2" "wf" "patch" 3 1
      (some (result_of "a" success) ∷ some (result_of "b" fail) ∷ []) (result_of "a" success)
      (result_of "a" fail) here refl

calculate-counts_example :
    let h =
      calculate_run_health 9 "r2" "wf" "patch" 3
        (some (result_of "a" success) ∷ some (result_of "b" fail) ∷ [])
        1 in
    let statuses = firsts (some (result_of "a" success) ∷ some (result_of "b" fail) ∷ []) [] in
    (h.success_count ≡ number is_success statuses)
    × (h.fail_count ≡ number is_fail statuses)
    × (h.error_count ≡ number is_error statuses)
    × (h.pending_count ≡ 3 - 1 - (h.success_count + h.fail_count + h.error_count))
    × (completed_count h ≤ 2)
    × ((is_complete h ≡ true) ↔ (3 ≤ 1 + completed_count h))
calculate-counts_example =
    calculate-counts 9 "r2" "wf" "patch" 3 1
      (some (result_of "a" success) ∷ some (result_of "b" fail) ∷ [])

abbrev run_with : ℕ → RunHealth
run_with n = record {
  run_id = "r";
  workflow_id = "wf";
  workflow_type = "patch";
  total_clients = 4;
  success_count = n;
  fail_count = 4 - n;
  error_count = 0;
  pending_count = 0;
  banned_client_count = 0;
  calculated_at = 5;
}
