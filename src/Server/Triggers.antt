-- ===== src/Server/Triggers.antt =====
-- CronEvaluator of internal/adapters/trigger/cron_evaluator.go and TriggerCoordinationService of
-- internal/core/services/trigger_coordination.go. The cron package is a parameter: `Cron` reads an
-- expression into the function that gives the next time behind a time. TriggerWorkflow is a
-- function on the state `S` of the server, whose errors are only logged.
pub mod Laws
pub mod Chain
pub mod Cycle
use super_duper_bassoon.Common.{
  ℕ, ◌*◌, String, Bool, true, false, List, [], ◌∷◌, ◌++◌, Option, none, some, if◌then◌else◌, str_eq,
  not, ◌||◌, ltb,
}
use super_duper_bassoon.Common.Dict.{Dict, lookup, insert, delete}
use super_duper_bassoon.Common.Fault.{Fault, Result, ok, err}
use super_duper_bassoon.Common.Int.{ℤ, pos, leb_ℤ}
use super_duper_bassoon.Common.Time.{Time, of_ms, second}
use super_duper_bassoon.Server.Workflow.{
  Workflow, TriggerSpec, TriggerKind, scheduled, event, state_change, by_hand, other_kind,
}

-- `none` where the expression does not parse
abbrev pub Cron : Type 0
Cron = String → Option (Time → Time)

unfoldable pub is_scheduled : TriggerKind → Bool
is_scheduled scheduled = true
is_scheduled _ = false

unfoldable pub is_event : TriggerKind → Bool
is_event event = true
is_event _ = false

-- The answer, `none` for an error, and the next times of the workflows.
unfoldable pub fire_next :
    (Time → Time) → String → Time → Dict Time → Option Time → Option Bool × Dict Time
fire_next next id now times none = (some false, insert id (next now) times)
fire_next next id now times (some due) =
    if ltb now due then (some false, times) else (some true, insert id (next now) times)

unfoldable pub fire_parsed :
    Option (Time → Time) → String → Time → Dict Time → Option Bool × Dict Time
unfolding fire_next
fire_parsed none id now times = (none, times)
fire_parsed (some next) id now times = fire_next next id now times (lookup id times)

-- ShouldFire
unfoldable pub should_fire :
    {F : Type 0} → Cron → String → TriggerSpec F → Time → Dict Time → Option Bool × Dict Time
unfolding fire_parsed is_scheduled
should_fire cron id spec now times =
    if not (is_scheduled spec.kind) || str_eq spec.cron ""
    then (some false, times)
    else fire_parsed (cron spec.cron) id now times

-- Reset
unfoldable pub reset : String → Dict Time → Dict Time
reset id times = delete id times

-- The tick that a new service has.
unfoldable pub new_tick : ℤ → ℤ
new_tick tick_ms = if leb_ℤ (of_ms tick_ms) (pos 0) then pos (5 * second) else of_ms tick_ms

-- What a workflow is started for.
pub data Reason : Type 0 where
  on_schedule : Reason
  -- "event:" and the workflow that is completed
  on_event : String → Reason

module _ {F S : Type 0} (cron : Cron) (trigger : String → Reason → S → S) where
  unfoldable pub fire_where : Option Bool → Workflow F → S → S
  fire_where (some true) w s = trigger w.id on_schedule s
  fire_where _ w s = s

  -- The loop over the active workflows.
  unfoldable pub evaluate_triggers : Time → List (Workflow F) → Dict Time → S → Dict Time × S
  unfolding fire_where
  evaluate_triggers now [] times s = (times, s)
  evaluate_triggers now (w ∷ ws) times s =
      let (answer, times') =
        if not (is_scheduled w.trigger.kind) || str_eq w.trigger.cron ""
        then (some false, times)
        else should_fire cron w.id w.trigger now times in
      evaluate_triggers now ws times' (fire_where answer w s)

  -- An error of ListActiveWorkflows is only logged.
  unfoldable pub evaluate_tick : Result (List (Workflow F)) → Time → Dict Time → S → Dict Time × S
  evaluate_tick (err e) now times s = (times, s)
  evaluate_tick (ok ws) now times s = evaluate_triggers now ws times s

-- The workflows that a completion starts, in their order.
unfoldable pub chained : {F : Type 0} → String → Workflow F → Bool
chained completed w =
    if not (is_event w.trigger.kind)
    then false
    else not (str_eq w.trigger.on_complete "" || not (str_eq w.trigger.on_complete completed))
