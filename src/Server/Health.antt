-- ===== src/Server/Health.antt =====
-- The health of runs and of workflow types: internal/core/domain/health.go. time.Now() is an argument.
pub mod Laws
pub mod Counts
pub mod Window
pub mod Table
pub mod Listing
pub mod Monitor
use super_duper_bassoon.Common.{
  ℕ, ◌+◌, ◌-◌, ◌/◌, ◌==◌, ltb, String, Bool, true, false, List, [], ◌∷◌, Option, none, some,
  if◌then◌else◌, length, drop, take, ◌&&◌,
}
use super_duper_bassoon.Common.Dict.{Dict, lookup, insert}
use super_duper_bassoon.Common.Float.{Floats}
use super_duper_bassoon.Common.Int.{ℤ, pos, negsuc, ltb_ℤ}
use super_duper_bassoon.Common.Time.{Time}
use super_duper_bassoon.Client.Activity.{ResultStatus, success, fail, error}
use super_duper_bassoon.Server.Workflow.{RunResult}

pub data Trend : Type 0 where
  improving degrading stable : Trend

pub record RunHealth : Type 0 where
  pub run_id : String
  pub workflow_id : String
  pub workflow_type : String
  pub total_clients : ℕ
  pub success_count : ℕ
  pub fail_count : ℕ
  pub error_count : ℕ
  pub pending_count : ℕ
  pub banned_client_count : ℕ
  pub calculated_at : Time

pub record TypeHealth (F : Type 0) : Type 0 where
  pub workflow_type : String
  pub window_size : ℤ
  pub runs_considered : ℕ
  pub success_percentage_avg : F
  pub fail_percentage_avg : F
  pub error_percentage_avg : F
  pub trend : Trend
  pub calculated_at : Time

-- Not below zero, as in the source.
unfoldable pub effective : RunHealth → ℕ
effective h = h.total_clients - h.banned_client_count

unfoldable pub completed_count : RunHealth → ℕ
completed_count h = h.success_count + h.fail_count + h.error_count

unfoldable pub is_complete : RunHealth → Bool
is_complete h = h.pending_count == 0

abbrev pub or_first_status :
    Option ResultStatus → ResultStatus → String → Dict ResultStatus → Dict ResultStatus
or_first_status (some t) s id seen = seen
or_first_status none s id seen = insert id s seen

-- The loop that fills `seen`; a nil result is `none`.
unfoldable pub first_statuses :
    {F : Type 0} → List (Option (RunResult F)) → Dict ResultStatus → Dict ResultStatus
first_statuses [] seen = seen
first_statuses (none ∷ rs) seen = first_statuses rs seen
first_statuses (some r ∷ rs) seen =
    first_statuses rs (or_first_status (lookup r.client_id seen) r.status r.client_id seen)

unfoldable pub count_status : ResultStatus → RunHealth → RunHealth
count_status success h = record h { success_count = h.success_count + 1 }
count_status fail h = record h { fail_count = h.fail_count + 1 }
count_status error h = record h { error_count = h.error_count + 1 }
count_status _ h = h

-- The counts do not depend on the order in which the map is walked.
unfoldable pub count_statuses : Dict ResultStatus → RunHealth → RunHealth
count_statuses [] h = h
count_statuses ((id, s) ∷ seen) h = count_statuses seen (count_status s h)

-- A negative number of pending clients counts as none.
unfoldable pub with_pending : RunHealth → RunHealth
unfolding completed_count
with_pending h = record h {
  pending_count = h.total_clients - h.banned_client_count - completed_count h;
}

unfoldable pub calculate_run_health :
    {F : Type 0} → Time → String → String → String → ℕ → List (Option (RunResult F)) → ℕ → RunHealth
calculate_run_health now run_id workflow_id workflow_type total results banned = with_pending (
    count_statuses (first_statuses results []) (record {
      run_id = run_id;
      workflow_id = workflow_id;
      workflow_type = workflow_type;
      total_clients = total;
      success_count = 0;
      fail_count = 0;
      error_count = 0;
      pending_count = 0;
      banned_client_count = banned;
      calculated_at = now;
    }))

-- runs[len(runs)-windowSize:] where there are more
unfoldable pub last_runs : ℤ → List RunHealth → List RunHealth
last_runs (pos w) runs =
    if ltb 0 w && ltb w (length runs) then drop (length runs - w) runs else runs
last_runs (negsuc w) runs = runs

module _ (fl : Floats) where
  open fl use {Float, of_int, flt, add, sub, mul, div}

  unfoldable pub percentage : ℕ → RunHealth → Float
  percentage n h =
      if effective h == 0
      then of_int (pos 0)
      else div (mul (of_int (pos 100)) (of_int (pos n))) (of_int (pos (effective h)))

  unfoldable pub sum_of : (RunHealth → ℕ) → List RunHealth → Float → Float
  sum_of count [] acc = acc
  sum_of count (r ∷ runs) acc = sum_of count runs (add acc (percentage (count r) r))

  abbrev average : (RunHealth → ℕ) → List RunHealth → Float
  average count runs = div (sum_of count runs (of_int (pos 0))) (of_int (pos (length runs)))

  -- With fewer than two runs there is no half to compare.
  unfoldable pub calculate_trend : List RunHealth → Trend
  calculate_trend runs =
      let half = length runs / 2 in
      let delta =
        sub (average (λ r. r.success_count) (drop (length runs - half) runs))
          (average (λ r. r.success_count) (take half runs)) in
      if ltb (length runs) 2
      then stable
      else if flt (of_int (pos 1)) delta
      then improving
      else if flt delta (of_int (negsuc 0))
      then degrading
      else stable

  abbrev no_runs : Time → String → ℤ → TypeHealth Float
  no_runs now workflow_type window = record {
    workflow_type = workflow_type;
    window_size = window;
    runs_considered = 0;
    success_percentage_avg = of_int (pos 0);
    fail_percentage_avg = of_int (pos 0);
    error_percentage_avg = of_int (pos 0);
    trend = stable;
    calculated_at = now;
  }

  -- The part of AggregateWorkflowHealth behind the cut to the window.
  unfoldable pub summarize : TypeHealth Float → List RunHealth → TypeHealth Float
  summarize out runs = record out {
    runs_considered = length runs;
    success_percentage_avg = average (λ r. r.success_count) runs;
    fail_percentage_avg = average (λ r. r.fail_count) runs;
    error_percentage_avg = average (λ r. r.error_count) runs;
    trend = calculate_trend runs;
  }

  unfoldable pub aggregate_workflow_health : Time → String → List RunHealth → ℤ → TypeHealth Float
  aggregate_workflow_health now workflow_type [] window = no_runs now workflow_type window
  aggregate_workflow_health now workflow_type (r ∷ runs) window =
      summarize (no_runs now workflow_type window) (last_runs window (r ∷ runs))
