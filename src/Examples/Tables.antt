-- ===== src/Examples/Tables.antt =====
-- Workflows that are created, edited and removed, a run that is stored, and a client
-- that is registered.
use super_duper_bassoon.Common.{
  String, true, List, [], ◌∷◌, none, some, ◌≡◌, refl, if◌then◌else◌, str_eq,
}
use super_duper_bassoon.Common.Fault.{ok, external}
use super_duper_bassoon.Common.Int.{ℤ, pos}
use super_duper_bassoon.Common.Time.{is_zero}
use super_duper_bassoon.Client.Value.{end}
use super_duper_bassoon.Client.Activity.{reboot}
use super_duper_bassoon.Server.Filter.Eval.{ClientMetadata}
use super_duper_bassoon.Server.Rows.{find_row}
use super_duper_bassoon.Server.Requests.{CreateWorkflowRequest, EditWorkflowRequest}
use super_duper_bassoon.Server.Workflow.{by_hand}
use super_duper_bassoon.Server.Workflow.Table.{Json}
use super_duper_bassoon.Server.Editing.Laws.{
  Call, creating, editing, removing, deactivating, reading, calls,
}
use super_duper_bassoon.Server.Editing.Refines.{calls_refine}
use super_duper_bassoon.Server.Editing.Spec.{view, spec_calls}
use super_duper_bassoon.Server.Runs.{
  RunTable, create_run, find_run, insert_run, insert_clients, joined,
}
use super_duper_bassoon.Server.Runs.Laws.{participants, member, create_run-IsJoined}
use super_duper_bassoon.Server.Clients.{client_key, register_client}
use super_duper_bassoon.Server.Clients.Laws.{register_client_lem}
use super_duper_bassoon.Examples.Data.{thousandths, differ}
use super_duper_bassoon.Examples.Bans.{reported, run_at}
use super_duper_bassoon.Examples.Server.{laptop}

abbrev pub json : Json ℤ
json f = f

abbrev pub asked : CreateWorkflowRequest ℤ
asked = record {
  name = "patch all";
  description = "";
  workflow_type = "patch";
  activity = reboot;
  params = end;
  target_filter = "";
  trigger = record { kind = by_hand; cron = ""; on_complete = ""; condition = ""; params = end };
  success_threshold = pos 0;
  loop_threshold_ms = pos 0;
  timeout_ms = pos 0;
  enabled = none;
}

abbrev pub renamed : EditWorkflowRequest ℤ
renamed = record {
  name = some "patch some";
  description = none;
  params = none;
  target_filter = none;
  success_threshold = none;
  loop_threshold_ms = none;
  timeout_ms = none;
  enabled = none;
}

abbrev some_edits : List (Call ℤ)
some_edits =
    creating none 5 "wf" asked
    ∷ editing none (some external) 6 "wf" renamed
    ∷ editing none none 7 "wf" renamed
    ∷ deactivating none 8 "wf"
    ∷ reading none "wf"
    ∷ removing none "other"
    ∷ []

calls_refine_example :
    ((calls thousandths json some_edits []).0, view (calls thousandths json some_edits []).1)
    ≡ spec_calls thousandths json some_edits (view [])
calls_refine_example = calls_refine thousandths json some_edits []

abbrev pub no_runs : RunTable
no_runs = record { rows = []; runs_clients = [] }

abbrev one_run : RunTable
one_run = record { rows = run_at "r1" 100 ∷ []; runs_clients = ("r1", "a") ∷ [] }

created : create_run none (run_at "r1" 100) no_runs ≡ ok one_run
unfolding create_run insert_run insert_clients find_run joined
created = refl

pub nothing_joined :
    (run_id client_id : String)
    → joined run_id client_id no_runs.runs_clients
      ≡ member client_id (participants run_id no_runs.rows)
unfolding joined member participants find_run
nothing_joined run_id client_id = refl

create_run-IsJoined_example :
    ((run_id client_id : String)
      → joined run_id client_id one_run.runs_clients
        ≡ member client_id (participants run_id one_run.rows))
    × ((run_id : String)
        → find_run run_id one_run.rows
          ≡ (if str_eq "r1" run_id then ok (run_at "r1" 100) else find_run run_id no_runs.rows))
create_run-IsJoined_example =
    create_run-IsJoined (run_at "r1" 100) no_runs one_run nothing_joined created

abbrev tagged : ClientMetadata ℤ
tagged = record laptop { client_labels = ("site", "lab") ∷ [] }

register_client_lem_example :
    find_row client_key "a" (register_client json none 9 (some reported) (tagged ∷ [])) ≡ (
      if str_eq "a" "a"
      then some (record {
        client_id = "a";
        os = "ubuntu";
        client_labels = [];
        inner_state = end;
        active = true;
        last_seen_at = if is_zero 800 then 9 else 800;
      })
      else find_row client_key "a" (tagged ∷ []))
register_client_lem_example =
    register_client_lem json 9 reported (tagged ∷ []) "a" (differ "a" "" refl)
