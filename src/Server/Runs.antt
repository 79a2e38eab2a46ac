-- ===== src/Server/Runs.antt =====
-- The tables `runs` and `runs_clients`, by the statements of
-- internal/adapters/repository/run_repo.go; the query of GetPreviousRun is in Server.Loop. A call
-- takes the error that the database may answer with, and then changes nothing.
pub mod Laws
use super_duper_bassoon.Common.{
  ℕ, String, Bool, true, false, List, [], ◌∷◌, ◌++◌, Option, none, some, if◌then◌else◌, str_eq,
  ◌&&◌, take, drop,
}
use super_duper_bassoon.Common.Fault.{Fault, Result, ok, err, run_not_found, external}
use super_duper_bassoon.Common.Int.{ℤ, pos, pos_part, leb_ℤ}
use super_duper_bassoon.Server.Rows.{select}
use super_duper_bassoon.Server.Rows.Order.{newest_first}
use super_duper_bassoon.Server.Workflow.{Run}

-- A pair of `runs_clients` holds a run and a client.
pub record RunTable : Type 0 where
  pub rows : List Run
  pub runs_clients : List (String × String)

unfoldable pub find_run : String → List Run → Result Run
find_run run_id [] = err run_not_found
find_run run_id (r ∷ rows) = if str_eq r.run_id run_id then ok r else find_run run_id rows

unfoldable pub get_run : Option Fault → String → RunTable → Result Run
get_run (some e) run_id t = err e
get_run none run_id t = find_run run_id t.rows

unfoldable pub joined : String → String → List (String × String) → Bool
joined run_id client_id [] = false
joined run_id client_id ((r, c) ∷ pairs) =
    if str_eq r run_id && str_eq c client_id then true else joined run_id client_id pairs

-- The loop of CreateRun. A pair that is there already breaks the primary key.
unfoldable pub insert_clients :
    String → List String → List (String × String) → Result (List (String × String))
insert_clients run_id [] pairs = ok pairs
insert_clients run_id (c ∷ cs) pairs =
    let rest = insert_clients run_id cs (pairs ++ (run_id, c) ∷ []) in
    if joined run_id c pairs then err external else rest

unfoldable pub insert_run : Run → RunTable → Result RunTable
insert_run run t = elim (insert_clients run.run_id run.participating_clients t.runs_clients) [
  | err e ↦ err e
  | ok pairs ↦ ok (record { rows = t.rows ++ run ∷ []; runs_clients = pairs })
]

-- One transaction, which an error rolls back. A run that is there already breaks the primary key.
unfoldable pub create_run : Option Fault → Run → RunTable → Result RunTable
unfolding insert_run
create_run (some e) run t = err e
create_run none run t = elim (find_run run.run_id t.rows) [
  | ok old ↦ err external
  | err e ↦ insert_run run t
]

unfoldable pub replace_run : Run → List Run → List Run
replace_run run [] = []
replace_run run (r ∷ rows) = (if str_eq r.run_id run.run_id then run else r) ∷ replace_run run rows

-- UpdateRun writes each column but the key, and leaves `runs_clients` alone.
unfoldable pub update_run : Option Fault → Run → RunTable → Result RunTable
unfolding replace_run
update_run (some e) run t = err e
update_run none run t = elim (find_run run.run_id t.rows) [
  | ok old ↦ ok (record t { rows = replace_run run t.rows })
  | err e ↦ err run_not_found
]

-- A limit that is not positive is the default.
unfoldable pub limit_or : ℕ → ℤ → ℕ
limit_or default limit = if leb_ℤ limit (pos 0) then default else pos_part limit

abbrev pub triggered : Run → ℕ
triggered r = r.triggered_at

unfoldable pub list_runs : Option Fault → String → ℤ → RunTable → Result (List Run)
unfolding limit_or
list_runs (some e) workflow_id limit t = err e
list_runs none workflow_id limit t = ok (
    take (limit_or 100 limit)
      (newest_first triggered (select (λ r. str_eq r.workflow_id workflow_id) t.rows)))

-- An offset that is negative is 0.
unfoldable pub list_all_runs : Option Fault → ℤ → ℤ → RunTable → Result (List Run)
unfolding limit_or
list_all_runs (some e) limit offset t = err e
list_all_runs none limit offset t =
    ok (take (limit_or 50 limit) (drop (pos_part offset) (newest_first triggered t.rows)))

unfoldable pub list_runs_by_workflow_type : Option Fault → String → ℤ → RunTable → Result (List Run)
unfolding limit_or
list_runs_by_workflow_type (some e) workflow_type limit t = err e
list_runs_by_workflow_type none workflow_type limit t = ok (
    take (limit_or 100 limit)
      (newest_first triggered (select (λ r. str_eq r.workflow_type workflow_type) t.rows)))
