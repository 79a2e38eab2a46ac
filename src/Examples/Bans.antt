-- ===== src/Examples/Bans.antt =====
-- One client banned by hand, and one that loops.
use super_duper_bassoon.Common.{
  ◌-◌, ◌<◌, ◌≤◌, String, true, false, List, [], ◌∷◌, Option, none, some, ◌≡◌, ◌⊎◌, refl, arith,
  ◌||◌, All, Among,
}
use super_duper_bassoon.Common.Int.{ℤ, pos}
use super_duper_bassoon.Common.Dict.{lookup}
use super_duper_bassoon.Common.Time.{Time}
use super_duper_bassoon.Common.Fault.{Fault, ok, err, external, run_not_found}
use super_duper_bassoon.Client.Value.{end}
use super_duper_bassoon.Client.Activity.{success, reboot, status-IsValid}
use super_duper_bassoon.Server.Workflow.{
  Workflow, Run, RunResult, by_hand, run_in_progress, loop_threshold, result-IsValid,
}
use super_duper_bassoon.Server.Ban.Record.{BanRecord, manual}
use super_duper_bassoon.Server.Ban.Service.{
  BanState, ban_client, unban_client, is_banned, warm_cache,
}
use super_duper_bassoon.Server.Ban.Cache.{Synced, any_active, is_banned_lem, ban_client-Synced}
use super_duper_bassoon.Server.Ban.Cache.Warm.{warm_cache-Synced}
use super_duper_bassoon.Server.Ban.Cache.History.{
  Call, banning, unbanning, calls, calls-is_banned, ban_then_unban,
}
use super_duper_bassoon.Server.Ban.Blocker.{cached}
use super_duper_bassoon.Server.Ban.DispatchFilter.{filter_dispatch_list}
use super_duper_bassoon.Server.Ban.DispatchFilter.Laws.{
  Parted, in_table, filter_dispatch_list-Parted,
}
use super_duper_bassoon.Server.Runs.{RunTable, find_run, get_run, joined}
use super_duper_bassoon.Server.Loop.{
  LoopConfig, LoopAnswers, get_previous_run, handle_result, latest, or_no_run, precedes,
  threshold_of,
}
use super_duper_bassoon.Server.Loop.Previous.{IsEarlier, get_previous_run_lem}
use super_duper_bassoon.Server.Loop.Laws.{handle_result_bans}
use super_duper_bassoon.Examples.Data.{differ}

abbrev pub fresh : BanState
fresh = record { table = record { rows = []; next_id = 1 }; blocker = some []; alerts = some [] }

pub fresh-Synced : Synced fresh
unfolding cached any_active lookup
fresh-Synced = record { cache = []; held = refl; same = λ w c. refl; permanent = tt }

-- A client banned from every type before the service starts.
abbrev old_ban : BanRecord
old_ban = record {
  id = 1;
  client_id = "b";
  workflow_type = "";
  run_id_evidence = "run";
  result_evidence = "";
  banned_at = 3;
  banned_until = none;
  reason = manual;
  banned_by = "admin";
  active = true;
}

abbrev cold : BanState
cold = record {
  table = record { rows = old_ban ∷ []; next_id = 2 };
  blocker = some [];
  alerts = none;
}

abbrev some_calls : List Call
some_calls =
    banning none 5 "a" "patch" "run" "seen" manual
    ∷ banning (some external) 6 "b" "patch" "run" "seen" manual
    ∷ unbanning none "a" "patch" "admin" "fixed"
    ∷ []

calls-is_banned_example :
    is_banned none 9 "a" "patch" (calls some_calls fresh)
    ≡ ok (
        any_active "a" "patch" (calls some_calls fresh).table.rows
        || any_active "a" "" (calls some_calls fresh).table.rows)
calls-is_banned_example = calls-is_banned some_calls fresh 9 "a" "patch" fresh-Synced

is_banned_lem_example :
    (is_banned none 9 "a" "patch" fresh ≡ ok false)
    × ((e : Fault) → is_banned (some e) 9 "a" "patch" fresh ≡ err e)
unfolding any_active
is_banned_lem_example = is_banned_lem 9 "a" "patch" fresh fresh-Synced

ban_then_unban_example :
    let s1 = (ban_client none 5 "a" "patch" "run" "seen" manual fresh).1 in
    let s2 = (unban_client none "a" "patch" "admin" "fixed" s1).1 in
    (is_banned none 9 "a" "patch" s1 ≡ ok true) × (is_banned none 9 "a" "patch" s2 ≡ ok false)
unfolding any_active
ban_then_unban_example =
    ban_then_unban 5 9 "a" "patch" "run" "seen" "admin" "fixed" manual fresh fresh-Synced
      (differ "patch" "" refl)

warm_cache-Synced_example :
    (t : BanState) × (warm_cache none 9 cold ≡ ok t)
    × (t.table ≡ cold.table)
    × (t.alerts ≡ cold.alerts)
    × Synced t
    × ((e : Fault) → warm_cache (some e) 9 cold ≡ err e)
warm_cache-Synced_example = warm_cache-Synced 9 cold refl (refl, tt)

abbrev pub no_fault : String → Option Fault
no_fault id = none

abbrev pub one_ban : BanState
one_ban = (ban_client none 5 "a" "patch" "run" "seen" manual fresh).1

filter_dispatch_list-Parted_example :
    ((a : List String) × (f : List String) × (filter_dispatch_list no_fault 9 "patch" one_ban
          ("a" ∷ "b" ∷ [])
        ≡ ok (a, f))
      × Parted (in_table no_fault 9 "patch" one_ban) ("a" ∷ "b" ∷ []) a f)
    ⊎ ((e : Fault) × (id : String) × (filter_dispatch_list no_fault 9 "patch" one_ban
            ("a" ∷ "b" ∷ [])
          ≡ err e)
        × (no_fault id ≡ some e))
filter_dispatch_list-Parted_example =
    filter_dispatch_list-Parted no_fault 9 "patch" one_ban ("a" ∷ "b" ∷ [])
      (ban_client-Synced none 5 "a" "patch" "run" "seen" manual fresh fresh-Synced)

abbrev pub run_at : String → Time → Run
run_at id t = record {
  run_id = id;
  workflow_id = "wf";
  workflow_type = "patch";
  triggered_at = t;
  dispatched_at = t;
  participating_clients = "a" ∷ [];
  state = run_in_progress;
  reason = "";
}

abbrev pub two_runs : RunTable
two_runs = record {
  rows = run_at "r1" 100 ∷ run_at "r2" 700 ∷ [];
  runs_clients = ("r1", "a") ∷ ("r2", "a") ∷ [];
}

abbrev pub patching : Workflow ℤ
patching = record {
  id = "wf";
  name = "patch all";
  description = "";
  workflow_type = "patch";
  activity = reboot;
  params = end;
  target_filter = "";
  trigger = record { kind = by_hand; cron = ""; on_complete = ""; condition = ""; params = end };
  success_threshold = pos 80000;
  loop_threshold_ms = pos 0;
  timeout_ms = pos 0;
  active = true;
  created_at = 1;
  updated_at = 1;
  deactivated_reason = "";
}

abbrev pub reported : RunResult ℤ
reported = record {
  run_id = "r2";
  workflow_id = "wf";
  client_id = "a";
  status = success;
  inner_state = end;
  error_msg = "";
  payload = end;
  received_at = 800;
}

abbrev pub cfg : LoopConfig ℤ
cfg = record { default_ms = pos 5000; marshal = λ r. "result" }

abbrev all_answer : LoopAnswers ℤ
all_answer = record { workflow = ok patching; run = none; previous = none; ban = none }

abbrev first_run : String
first_run = "r1"

get_previous_run_lem_example :
    let answer = get_previous_run none "a" "patch" "r2" 700 two_runs in
    ((answer ≡ err run_not_found)
      × All (λ r. IsEarlier two_runs "a" "patch" "r2" 700 r → ⊥) two_runs.rows)
    ⊎ ((best : Run) × (answer ≡ ok best)
        × Among best two_runs.rows
        × IsEarlier two_runs "a" "patch" "r2" 700 best
        × All
            (λ r. IsEarlier two_runs "a" "patch" "r2" 700 r → r.triggered_at ≤ best.triggered_at)
            two_runs.rows)
get_previous_run_lem_example = get_previous_run_lem "a" "patch" "r2" 700 two_runs

pub reported-IsValid : result-IsValid reported ≡ true
unfolding result-IsValid status-IsValid
reported-IsValid = refl

current_found : get_run none "r2" two_runs ≡ ok (run_at "r2" 700)
unfolding get_run find_run
current_found = refl

previous_found : get_previous_run none "a" "patch" "r2" 700 two_runs ≡ ok (run_at "r1" 100)
unfolding get_previous_run or_no_run latest precedes joined
previous_found = refl

five_seconds : threshold_of cfg patching ≡ pos 5000000000
unfolding threshold_of loop_threshold
five_seconds = refl

handle_result_bans_example :
    ((700 - 100 ≤ 5000000000)
      × (is_banned none 99 "a" "patch"
            (handle_result cfg all_answer 9 (some reported) two_runs fresh)
          ≡ ok true))
    ⊎ ((5000000000 < 700 - 100)
        × (handle_result cfg all_answer 9 (some reported) two_runs fresh ≡ fresh))
handle_result_bans_example =
    handle_result_bans cfg all_answer 9 99 reported two_runs fresh patching (run_at "r2" 700)
      (run_at "r1" 100) 5000000000 fresh-Synced reported-IsValid refl refl refl current_found
      previous_found (differ "r1" "" refl) five_seconds (omega arith) (omega arith)
