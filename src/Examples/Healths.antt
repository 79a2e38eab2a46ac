-- ===== src/Examples/Healths.antt =====
-- Results that are counted and the health that is stored and listed.
use mathlib.Core.List.{Perm}
use super_duper_bassoon.Common.{
  ◌≤◌, String, true, List, [], ◌∷◌, none, some, ◌≡◌, refl, arith, str_eq, length, All, ◌++◌, ◌⊎◌,
}
use super_duper_bassoon.Common.Fault.{ok, external}
use super_duper_bassoon.Common.Int.{ℤ, pos}
use super_duper_bassoon.Client.Activity.{fail}
use super_duper_bassoon.Server.Workflow.{RunResult}
use super_duper_bassoon.Server.Runs.{find_run}
use super_duper_bassoon.Server.Health.{RunHealth, aggregate_workflow_health}
use super_duper_bassoon.Server.Health.Table.{list_run_healths, calculated}
use super_duper_bassoon.Server.Health.Listing.{of_type, IsOldestFirst, list_run_healths_fits}
use super_duper_bassoon.Server.Health.Monitor.{
  HealthAnswers, HealthSources, HealthState, calculate_stored_health, monitor_result,
}
use super_duper_bassoon.Server.Health.Monitor.Laws.{IsStored, calculate-IsStored}
use super_duper_bassoon.Server.Health.Monitor.First.{
  Message, monitor_all, rows_of, or_new_row, monitor_result_first,
}
use super_duper_bassoon.Server.Ban.Table.{get_active_bans_by_workflow_type, select_bans}
use super_duper_bassoon.Server.Health.{
  calculate_run_health, first_statuses, count_statuses, with_pending, completed_count,
}
use super_duper_bassoon.Server.Health.Monitor.{store_health, health_of, banned_count, in_bans}
use super_duper_bassoon.Server.Health.Table.{save_run_health, dated_run}
use super_duper_bassoon.Server.Results.Table.{get_run_results, of_run, result_row}
use super_duper_bassoon.Server.Rows.{select, upsert_row}
use super_duper_bassoon.Server.Rows.Order.{newest_first, place_newer}
use super_duper_bassoon.Server.Runs.{get_run, limit_or}
use super_duper_bassoon.Examples.Data.{thousandths}
use super_duper_bassoon.Examples.Bans.{fresh, patching, reported, reported-IsValid, two_runs}
use super_duper_bassoon.Examples.Tables.{json}

abbrev pub well : HealthAnswers
well = record {
  workflow = none;
  store_result = none;
  run = none;
  results = none;
  bans = none;
  save_health = none;
  list_healths = none;
  save_type = none;
  update = none;
}

abbrev sources : HealthSources ℤ
sources = record {
  workflows = patching ∷ [];
  bans = fresh.table;
  window_size = pos 10;
  config_window = λ w. none;
}

abbrev started : HealthState ℤ
started = record {
  runs = two_runs;
  results = [];
  run_healths = [];
  type_healths = [];
  events = some [];
}

abbrev failed_later : RunResult ℤ
failed_later = record reported { status = fail; received_at = 900 }

abbrev another : RunResult ℤ
another = record reported { client_id = "b"; status = fail; received_at = 950 }

-- The same client once more, another client behind a failed insertion, and no result.
abbrev behind : List (Message thousandths json)
behind =
    record { db = well; now = 910; sources = sources; result = some failed_later }
    ∷ record {
      db = record well { store_result = some external };
      now = 960;
      sources = sources;
      result = some another;
    }
    ∷ record { db = well; now = 965; sources = sources; result = some another }
    ∷ record { db = well; now = 970; sources = sources; result = none }
    ∷ []

monitor_result_first_example :
    let s' = (monitor_result thousandths json well 810 sources (some reported) started).1 in
    let rows = λ (t : HealthState ℤ).
      rows_of thousandths json reported.run_id reported.client_id t.results in
    (w : String) × (rows s' ≡ or_new_row thousandths json (result_row json reported w) [])
    × (rows (monitor_all thousandths json behind s') ≡ rows s')
unfolding rows_of
monitor_result_first_example =
    monitor_result_first thousandths json well 810 sources reported started behind reported-IsValid
      refl

abbrev none_done : RunHealth
none_done = record {
  run_id = "r2";
  workflow_id = "wf";
  workflow_type = "patch";
  total_clients = 1;
  success_count = 0;
  fail_count = 0;
  error_count = 0;
  pending_count = 1;
  banned_client_count = 0;
  calculated_at = 900;
}

abbrev calculated_once : HealthState ℤ
calculated_once = (calculate_stored_health thousandths json well 900 sources "r2" started).1

calculates :
    calculate_stored_health thousandths json well 900 sources "r2" started
    ≡ (ok none_done, calculated_once)
unfolding calculate_stored_health get_run find_run get_run_results of_run select
    get_active_bans_by_workflow_type select_bans store_health health_of calculate_run_health
    first_statuses count_statuses with_pending completed_count banned_count in_bans save_run_health
    upsert_row dated_run
calculates = refl

calculate-IsStored_example :
    IsStored thousandths json well 900 sources "r2" started none_done calculated_once
calculate-IsStored_example =
    calculate-IsStored thousandths json well 900 sources "r2" started calculated_once none_done
      calculates

abbrev later_done : RunHealth
later_done = record none_done { run_id = "r3"; calculated_at = 950 }

abbrev elsewhere : RunHealth
elsewhere = record none_done { run_id = "r4"; workflow_type = "audit"; calculated_at = 990 }

lists :
    list_run_healths none "patch" (pos 2) (later_done ∷ elsewhere ∷ none_done ∷ [])
    ≡ ok (none_done ∷ later_done ∷ [])
unfolding list_run_healths limit_or select newest_first place_newer
lists = refl

list_run_healths_fits_example :
    (others : List RunHealth) × Perm
      (none_done ∷ later_done ∷ [] ++ others)
      (of_type "patch" (later_done ∷ elsewhere ∷ none_done ∷ []))
    × All
        (λ old. All (λ h. old.calculated_at ≤ h.calculated_at) (none_done ∷ later_done ∷ []))
        others
    × ((others ≡ []) ⊎ (length (none_done ∷ later_done ∷ []) ≡ 2))
    × All (λ h. str_eq h.workflow_type "patch" ≡ true) (none_done ∷ later_done ∷ [])
    × (length (none_done ∷ later_done ∷ []) ≤ 2)
    × IsOldestFirst calculated (none_done ∷ later_done ∷ [])
    × ((aggregate_workflow_health thousandths 999 "patch"
          (none_done ∷ later_done ∷ [])
          (pos 2)).runs_considered
        ≡ length (none_done ∷ later_done ∷ []))
list_run_healths_fits_example =
    list_run_healths_fits thousandths 999 "patch" (later_done ∷ elsewhere ∷ none_done ∷ [])
      (none_done ∷ later_done ∷ []) 2 (omega arith) lists
