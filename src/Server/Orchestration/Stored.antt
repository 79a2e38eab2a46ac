-- ===== src/Server/Orchestration/Stored.antt =====
-- TriggerWorkflow over the tables of the server: what GetWorkflow, ListClients and CreateRun answer is
-- computed from them, and the runs that CreateRun and UpdateRun store are left in them. Also the
-- handler triggerWorkflow of internal/adapters/http/server.go takes its answer from here.
pub mod Laws
use super_duper_bassoon.Common.{String, Option, none, some}
use super_duper_bassoon.Common.Fault.{Fault, Result, ok, err, run_not_found}
use super_duper_bassoon.Common.Float.{Floats}
use super_duper_bassoon.Common.Time.{Time}
use super_duper_bassoon.Server.Filter.Ast.{FilterNode}
use super_duper_bassoon.Server.Filter.Eval.{Texts}
use super_duper_bassoon.Server.Workflow.{Run}
use super_duper_bassoon.Server.Workflow.Table.{get_workflow}
use super_duper_bassoon.Server.Clients.{list_clients}
use super_duper_bassoon.Server.Runs.{RunTable, create_run, update_run}
use super_duper_bassoon.Server.Dispatch.{Send}
use super_duper_bassoon.Server.Orchestration.{Triggered, TriggerAnswers, trigger_workflow}
use super_duper_bassoon.Server.Api.{Tables}

-- The error that the database may answer to each call of one TriggerWorkflow.
pub record TriggerFaults : Type 0 where
  pub get : Option Fault
  pub list : Option Fault
  pub create : Option Fault
  pub update : Option Fault
  pub bans : String → Option Fault

abbrev pub fault_of : Result RunTable → Option Fault
fault_of (err e) = some e
fault_of (ok t) = none

abbrev pub kept_runs : Result RunTable → RunTable → RunTable
kept_runs (err e) t = t
kept_runs (ok t') t = t'

unfoldable pub store_created : Option Fault → Option Run → RunTable → RunTable
store_created db none t = t
store_created db (some run) t = kept_runs (create_run db run t) t

-- An error of UpdateRun is only logged.
unfoldable pub store_updated : Option Fault → Option Run → RunTable → RunTable
store_updated db none t = t
store_updated db (some run) t = kept_runs (update_run db run t) t

unfoldable pub store_runs : {F B : Type 0} → TriggerFaults → Triggered F B → RunTable → RunTable
unfolding store_created store_updated
store_runs db d t = store_updated db.update d.saved (store_created db.create d.created t)

-- Without an error there is a run.
unfoldable pub trigger_answer : Option Fault → Option Run → Result Run
trigger_answer (some e) run = err e
trigger_answer none none = err run_not_found
trigger_answer none (some run) = ok run

module _ {F : Type 0} where
  unfoldable pub answers_from : TriggerFaults → String → Tables F → TriggerAnswers F
  answers_from db id t = record {
    workflow = get_workflow db.get id t.workflows;
    clients = list_clients db.list t.clients;
    create = λ run. fault_of (create_run db.create run t.runs);
    bans = db.bans;
  }

module _ (fl : Floats) (tx : Texts fl.Float)
    (parse : String → Result (Option (FilterNode fl.Float))) {B : Type 0}
    (send : Send fl.Float B) where
  open fl use {Float}

  -- What it does, and the tables behind it.
  unfoldable pub trigger_stored :
      TriggerFaults
      → Time
      → String
      → String
      → String
      → Tables Float
      → B
      → Triggered Float B × Tables Float
  unfolding answers_from store_runs
  trigger_stored db now run_id reason id t b =
      let done =
        trigger_workflow fl tx parse send (answers_from db id t) now run_id reason t.bans b in
      (done, record t { runs = store_runs db done t.runs })
