-- ===== src/Examples/Scheduling.antt =====
-- Circuits that open, schedules, and chains of workflows.
use super_duper_bassoon.Common.{
  ℕ, ◌+◌, ◌<◌, String, Bool, true, false, List, [], ◌∷◌, none, some, ◌≡◌, ◌≢◌, refl, arith,
  if◌then◌else◌, str_eq, All, here, subst, eq_iff, Bool-cases, inl, inr,
}
use super_duper_bassoon.Common.Dict.{Dict, lookup}
use super_duper_bassoon.Common.Fault.{Result, ok, workflow_inactive, ok-injective}
use super_duper_bassoon.Common.Int.{ℤ, pos, ltb_ℤ, ◌*ℤ◌}
use super_duper_bassoon.Common.Time.{Time}
use super_duper_bassoon.Server.Rows.{find_row}
use super_duper_bassoon.Server.Workflow.{Workflow, TriggerSpec, event, scheduled, out_of_range}
use super_duper_bassoon.Server.Workflow.Table.{get_workflow, workflow_id}
use super_duper_bassoon.Server.Circuit.{
  Breaker, closed, evaluate_health, evaluate_known, is_healthy_enough, judge, open_state,
  policy_for, same_state, validate_policy,
}
use super_duper_bassoon.Server.Circuit.Effects.{carry_out, opened_circuit_refuses}
use super_duper_bassoon.Server.Config.{default_threshold, get_policy, new_policy_repo}
use super_duper_bassoon.Server.Config.Laws.{get_policy-IsValid}
use super_duper_bassoon.Server.Orchestration.{trigger_workflow}
use super_duper_bassoon.Server.Triggers.{Cron, Reason, chained, is_event, on_schedule, should_fire}
use super_duper_bassoon.Server.Triggers.Laws.{Check, checks, checks_fire_once}
use super_duper_bassoon.Server.Triggers.Chain.{trigger_and_chain, trigger_and_chain_returns}
use super_duper_bassoon.Server.Triggers.Cycle.{trigger_and_chain_diverges}
use super_duper_bassoon.Examples.Data.{thousandths, differ}
use super_duper_bassoon.Examples.Bans.{fresh, patching}
use super_duper_bassoon.Examples.Breakers
use super_duper_bassoon.Examples.Breakers.{poor, strict, all_well}
use super_duper_bassoon.Examples.Sending.{open_broker}
use super_duper_bassoon.Examples.Server.{known, no_filter, texts}
use super_duper_bassoon.Examples.Running.{patching-IsDefined}

abbrev shut_breaker : Breaker
shut_breaker = record {
  workflow_id = "wf";
  workflow_type = "patch";
  state = closed;
  opened_at = 0;
  last_evaluated_at = 0;
  opened_reason = "";
  evaluation_count = pos 0;
}

is_bad :
    evaluate_health thousandths (some (policy_for thousandths Breakers.cfg patching)) (some poor)
    ≡ open_state
unfolding evaluate_health evaluate_known is_healthy_enough policy_for
is_bad = refl

is_shut : same_state shut_breaker.state open_state ≡ false
unfolding same_state
is_shut = refl

is_there : find_row workflow_id "wf" (patching ∷ []) ≡ some patching
unfolding find_row
is_there = refl

opened_circuit_refuses_example :
    let answer = get_workflow none "wf" (
      carry_out 60
        (judge thousandths Breakers.cfg 60 poor patching shut_breaker).1
        (patching ∷ [])) in
    trigger_workflow thousandths texts no_filter open_broker
      (record known { workflow = answer })
      70
      "run"
      "manual"
      fresh
      []
    ≡ record {
      failure = some workflow_inactive;
      run = none;
      sent = [];
      published = false;
      created = none;
      saved = none;
      broker = [];
    }
opened_circuit_refuses_example =
    opened_circuit_refuses thousandths Breakers.cfg texts no_filter _ open_broker known 60 70 "run"
      "manual" fresh [] poor patching patching shut_breaker (patching ∷ []) refl is_bad is_shut
      is_there

good_default : out_of_range thousandths (default_threshold thousandths (pos 0)) ≡ false
unfolding default_threshold ◌*ℤ◌
good_default = refl

get_policy-IsValid_example :
    let policy =
      get_policy thousandths
        (new_policy_repo thousandths (pos 0) (pos 0) (pos 0))
        none
        "wf"
        (patching ∷ []) in
    (validate_policy thousandths policy ≡ ok tt) × (ltb_ℤ (pos 0) policy.cooldown_period ≡ true)
get_policy-IsValid_example =
    get_policy-IsValid thousandths (pos 0) (pos 0) (pos 0) none "wf" (patching ∷ [])
      (patching-IsDefined, tt) good_default

-- Each time is followed by one ten later.
abbrev every_ten : Cron
every_ten s = some (λ t. t + 10)

abbrev on_clock : TriggerSpec ℤ
on_clock = record patching.trigger { kind = scheduled; cron = "*/10 * * * *" }

abbrev early_checks : List (Check ℤ)
early_checks =
    record { id = "wf"; spec = on_clock; now = 103 }
    ∷ record { id = "wf2"; spec = on_clock; now = 108 }
    ∷ []

abbrev due_at : Dict Time
due_at = ("wf", 105) ∷ []

is_due : lookup "wf" due_at ≡ some 105
unfolding lookup
is_due = refl

checks_fire_once_example :
    let times' = (checks every_ten early_checks due_at).1 in
    All (λ a. a.0 ≡ "wf" → a.1 ≢ some true) (checks every_ten early_checks due_at).0
    × ((should_fire every_ten "wf" on_clock 110 times').0 ≡ some true)
    × (lookup "wf" (should_fire every_ten "wf" on_clock 110 times').1 ≡ some 120)
checks_fire_once_example =
    checks_fire_once every_ten "wf" 105 110 early_checks due_at on_clock (λ t. t + 10) is_due
      ((λ _. omega arith), ((λ same. absurd (differ "wf2" "wf" refl same)), tt)) (omega arith) refl
      (differ "*/10 * * * *" "" refl) refl

-- The second workflow follows the first; the third follows itself.
abbrev follower : Workflow ℤ
follower = record patching {
  id = "wf2";
  trigger = record patching.trigger { kind = event; on_complete = "wf" };
}

abbrev circular : Workflow ℤ
circular = record patching {
  id = "wf3";
  trigger = record patching.trigger { kind = event; on_complete = "wf3" };
}

-- The state counts the runs.
abbrev counts : String → Reason → ℕ → Bool × ℕ
counts id reason n = (true, n + 1)

abbrev list_of : List (Workflow ℤ) → ℕ → Result (List (Workflow ℤ))
list_of ws n = ok ws

abbrev rank : String → ℕ
rank id = if str_eq id "wf" then 1 else 0

follows : (completed : String) → chained completed follower ≡ true → rank "wf2" < rank completed
unfolding chained is_event
follows completed h = elim (Bool-cases (str_eq "wf" completed)) [
  | inl e ↦ subst (λ c. 0 < rank c) ((eq_iff "wf" completed).0 e) (omega arith)
  | inr e ↦ let no : false ≡ true = rw e at h in cc no
]

trigger_and_chain_returns_example :
    (s' : ℕ) × (trigger_and_chain (list_of (follower ∷ [])) counts 2 "wf" on_schedule 0 ≡ some s')
trigger_and_chain_returns_example =
    trigger_and_chain_returns (list_of (follower ∷ [])) counts rank 2 "wf" on_schedule 0
      (λ s' ws completed h.
        subst (All (λ w. chained completed w ≡ true → rank w.id < rank completed)) (ok-injective h)
          (follows completed, tt))
      (omega arith)

is_circular : chained "wf3" circular ≡ true
unfolding chained is_event
is_circular = refl

trigger_and_chain_diverges_example :
    trigger_and_chain (list_of (circular ∷ [])) counts 5 "wf3" on_schedule 0 ≡ none
trigger_and_chain_diverges_example =
    trigger_and_chain_diverges (list_of (circular ∷ [])) counts (λ n. Unit {0})
      (λ id reason s p. tt) circular 5 on_schedule 0 is_circular
      (λ s' p. (circular ∷ [], refl, here)) (λ s' why p. refl) tt
