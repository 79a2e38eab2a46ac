-- ===== src/Server/Results/Table.antt =====
-- The table `results`, by the statements of internal/adapters/repository/result_repo.go. The first
-- result of a client for a run stays. A call takes the error that the database may answer with.
use super_duper_bassoon.Common.{
  String, Bool, List, [], ◌∷◌, Option, none, some, if◌then◌else◌, str_eq, ◌&&◌, take, map,
}
use super_duper_bassoon.Common.Fault.{Fault, Result, ok, err, external}
use super_duper_bassoon.Common.Int.{ℤ}
use super_duper_bassoon.Server.Rows.{select}
use super_duper_bassoon.Server.Rows.Order.{newest_first}
use super_duper_bassoon.Server.Runs.{limit_or}
use super_duper_bassoon.Server.Workflow.{RunResult}
use super_duper_bassoon.Server.Workflow.Table.{Json}

pub record ResultRow (F : Type 0) : Type 0 where
  pub result : RunResult F
  pub workflow_type : String

module _ {F : Type 0} where
  unfoldable pub of_run : String → ResultRow F → Bool
  of_run run_id row = str_eq row.result.run_id run_id

  unfoldable pub of_client : String → String → ResultRow F → Bool
  unfolding of_run
  of_client run_id client_id row = of_run run_id row && str_eq row.result.client_id client_id

  -- A row as scanResult reads it.
  unfoldable pub result_row : Json F → RunResult F → String → ResultRow F
  result_row json r workflow_type = record {
    result = record r { inner_state = json r.inner_state; payload = json r.payload };
    workflow_type = workflow_type;
  }

  -- ON CONFLICT(run_id,client_id) DO NOTHING
  unfoldable pub insert_result : ResultRow F → List (ResultRow F) → List (ResultRow F)
  unfolding of_client of_run
  insert_result new [] = new ∷ []
  insert_result new (row ∷ rows) =
      if of_client new.result.run_id new.result.client_id row
      then row ∷ rows
      else row ∷ insert_result new rows

  unfoldable pub save_result_with_type :
      Json F
      → Option Fault
      → RunResult F
      → String
      → List (ResultRow F)
      → Result (List (ResultRow F))
  unfolding result_row insert_result
  save_result_with_type json (some e) r workflow_type t = err e
  save_result_with_type json none r workflow_type t =
      ok (insert_result (result_row json r workflow_type) t)

  -- SaveResult leaves the workflow type empty.
  unfoldable pub save_result :
      Json F → Option Fault → RunResult F → List (ResultRow F) → Result (List (ResultRow F))
  unfolding save_result_with_type
  save_result json db r t = save_result_with_type json db r "" t

  abbrev first_result : List (ResultRow F) → Result (RunResult F)
  first_result [] = err external
  first_result (row ∷ rows) = ok row.result

  -- No row is an error of its own text.
  unfoldable pub get_result :
      Option Fault → String → String → List (ResultRow F) → Result (RunResult F)
  unfolding of_client
  get_result (some e) run_id client_id t = err e
  get_result none run_id client_id t = first_result (select (of_client run_id client_id) t)

  abbrev pub result_of : ResultRow F → RunResult F
  result_of row = row.result

  unfoldable pub get_run_results :
      Option Fault → String → List (ResultRow F) → Result (List (RunResult F))
  unfolding of_run
  get_run_results (some e) run_id t = err e
  get_run_results none run_id t = ok (map result_of (select (of_run run_id) t))

  unfoldable pub list_client_results :
      Option Fault → String → String → ℤ → List (ResultRow F) → Result (List (RunResult F))
  list_client_results (some e) client_id workflow_type limit t = err e
  list_client_results none client_id workflow_type limit t =
      let mine =
        select
          (λ row. str_eq row.result.client_id client_id && str_eq row.workflow_type workflow_type)
          t in
      ok (
        map result_of
          (take (limit_or 100 limit) (newest_first (λ row. row.result.received_at) mine)))
