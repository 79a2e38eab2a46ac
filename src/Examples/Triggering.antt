-- ===== src/Examples/Triggering.antt =====
-- A workflow is triggered over the tables while its one client is banned: the run has no participant,
-- and `runs_clients` has the client.
use super_duper_bassoon.Common.{String, false, List, [], ◌∷◌, none, some, ◌≡◌, refl, str_eq}
use super_duper_bassoon.Common.Fault.{ok}
use super_duper_bassoon.Common.Int.{ℤ}
use super_duper_bassoon.Server.Workflow.{Run}
use super_duper_bassoon.Server.Workflow.Table.{get_workflow, found_workflow}
use super_duper_bassoon.Server.Rows.{find_row}
use super_duper_bassoon.Server.Clients.{list_clients}
use super_duper_bassoon.Server.Runs.{
  create_run, find_run, get_run, insert_clients, insert_run, joined,
}
use super_duper_bassoon.Server.Runs.Laws.{member}
use super_duper_bassoon.Common.Dict.{insert, lookup}
use super_duper_bassoon.Server.Ban.Record.{apply_ban, is_active, manual}
use super_duper_bassoon.Server.Ban.Table.{save_ban, stored_ban}
use super_duper_bassoon.Server.Ban.Blocker.{add, cached, should_block_dispatch}
use super_duper_bassoon.Server.Ban.Service.{ban_client, is_banned}
use super_duper_bassoon.Server.Ban.Cache.{ban_client-Synced}
use super_duper_bassoon.Server.Ban.DispatchFilter.Laws.{Parted, in_table}
use super_duper_bassoon.Server.Orchestration.{
  active_ids, after_sending, start_run, target_clients, trigger_workflow,
}
use super_duper_bassoon.Server.Orchestration.Stored.{TriggerFaults, answers_from, trigger_stored}
use super_duper_bassoon.Server.Orchestration.Stored.Laws.{trigger_stores}
use super_duper_bassoon.Server.Api.{Tables}
use super_duper_bassoon.Server.Dispatch.{
  close_sending, generate_dispatches, send_allowed, send_dispatches, send_loop,
}
use super_duper_bassoon.Server.Ban.DispatchFilter.{filter_dispatch_list, filter_loop}
use super_duper_bassoon.Examples.Data.{thousandths}
use super_duper_bassoon.Examples.Bans.{fresh, fresh-Synced, no_fault, one_ban, patching}
use super_duper_bassoon.Examples.Sending.{open_broker}
use super_duper_bassoon.Examples.Server.{laptop, no_filter, texts}
use super_duper_bassoon.Examples.Tables.{no_runs, nothing_joined}

abbrev tables : Tables ℤ
tables = record {
  workflows = patching ∷ [];
  clients = laptop ∷ [];
  runs = no_runs;
  results = [];
  bans = one_ban;
  run_healths = [];
  type_healths = [];
  circuits = [];
}

abbrev pub faults : TriggerFaults
faults = record { get = none; list = none; create = none; update = none; bans = no_fault }

is_found : get_workflow none "wf" tables.workflows ≡ ok patching
unfolding get_workflow found_workflow find_row
is_found = refl

targets :
    target_clients thousandths texts no_filter patching (list_clients none tables.clients)
    ≡ ok ("a" ∷ [])
unfolding target_clients list_clients active_ids
targets = refl

no_error :
    (trigger_stored thousandths texts no_filter open_broker faults 9 "run9" "manual" "wf" tables
      []).0.failure
    ≡ none
unfolding trigger_stored trigger_workflow answers_from start_run after_sending target_clients
    get_workflow found_workflow find_row list_clients active_ids create_run insert_run
    insert_clients find_run joined send_dispatches send_allowed close_sending send_loop
    generate_dispatches filter_dispatch_list filter_loop is_banned ban_client save_ban
    should_block_dispatch cached lookup add is_active stored_ban apply_ban insert
no_error = refl

trigger_stores_example :
    let r =
      trigger_stored thousandths texts no_filter open_broker faults 9 "run9" "manual" "wf" tables
        [] in
    (run : Run) × (f : List String) × (r.0.run ≡ some run)
    × (get_run none "run9" r.1.runs ≡ ok run)
    × Parted (in_table no_fault 9 "patch" one_ban) ("a" ∷ []) run.participating_clients f
    × ((c : String) → joined "run9" c r.1.runs.runs_clients ≡ member c ("a" ∷ []))
    × ((other : String)
        → str_eq "run9" other ≡ false
        → find_run other r.1.runs.rows ≡ find_run other no_runs.rows)
trigger_stores_example =
    trigger_stores thousandths texts no_filter open_broker faults 9 "run9" "manual" "wf" tables []
      patching ("a" ∷ [])
      (ban_client-Synced none 5 "a" "patch" "run" "seen" manual fresh fresh-Synced) nothing_joined
      refl is_found targets no_error
