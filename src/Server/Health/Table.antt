-- ===== src/Server/Health/Table.antt =====
-- The tables `run_health` and `workflow_type_health`, by the statements of
-- internal/adapters/repository/health_repo.go. A call takes the error that the database may answer
-- with, and then changes nothing. ORDER BY workflow_type is not modelled.
use super_duper_bassoon.Common.{String, List, Option, none, some, if◌then◌else◌, str_eq, take}
use mathlib.Core.List.{reverse}
use super_duper_bassoon.Common.Fault.{Fault, Result, ok, err, external}
use super_duper_bassoon.Common.Int.{ℤ}
use super_duper_bassoon.Common.Time.{Time, is_zero}
use super_duper_bassoon.Server.Rows.{select, find_row, upsert_row}
use super_duper_bassoon.Server.Rows.Order.{newest_first}
use super_duper_bassoon.Server.Runs.{limit_or}
use super_duper_bassoon.Server.Health.{RunHealth, TypeHealth}

abbrev pub health_run : RunHealth → String
health_run h = h.run_id

abbrev pub health_type : {F : Type 0} → TypeHealth F → String
health_type h = h.workflow_type

abbrev pub calculated : RunHealth → Time
calculated h = h.calculated_at

-- The time that a save sets in the caller's record where it is zero.
unfoldable pub dated_run : Time → RunHealth → RunHealth
dated_run now h = record h {
  calculated_at = if is_zero h.calculated_at then now else h.calculated_at;
}

unfoldable pub dated_type : {F : Type 0} → Time → TypeHealth F → TypeHealth F
dated_type now h = record h {
  calculated_at = if is_zero h.calculated_at then now else h.calculated_at;
}

-- ON CONFLICT sets each column.
abbrev pub take_new : {A : Type 0} → A → A → A
take_new old new = new

abbrev pub or_external : {A : Type 0} → Option A → Result A
or_external none = err external
or_external (some a) = ok a

unfoldable pub save_run_health :
    Option Fault → Time → RunHealth → List RunHealth → Result (List RunHealth)
unfolding dated_run
save_run_health (some e) now h t = err e
save_run_health none now h t = ok (upsert_row health_run take_new (dated_run now h) t)

-- No row is an error of its own text.
unfoldable pub get_run_health : Option Fault → String → List RunHealth → Result RunHealth
get_run_health (some e) run_id t = err e
get_run_health none run_id t = or_external (find_row health_run run_id t)

-- The newest rows up to the limit, the oldest of them first.
unfoldable pub list_run_healths :
    Option Fault → String → ℤ → List RunHealth → Result (List RunHealth)
list_run_healths (some e) workflow_type limit t = err e
list_run_healths none workflow_type limit t = ok (
    reverse (
      take (limit_or 100 limit)
        (newest_first calculated (select (λ h. str_eq h.workflow_type workflow_type) t))))

module _ {F : Type 0} where
  unfoldable pub save_workflow_type_health :
      Option Fault → Time → TypeHealth F → List (TypeHealth F) → Result (List (TypeHealth F))
  unfolding dated_type
  save_workflow_type_health (some e) now h t = err e
  save_workflow_type_health none now h t = ok (upsert_row health_type take_new (dated_type now h) t)

  unfoldable pub get_workflow_type_health :
      Option Fault → String → List (TypeHealth F) → Result (TypeHealth F)
  get_workflow_type_health (some e) workflow_type t = err e
  get_workflow_type_health none workflow_type t = or_external (find_row health_type workflow_type t)

  unfoldable pub list_all_workflow_type_healths :
      Option Fault → List (TypeHealth F) → Result (List (TypeHealth F))
  list_all_workflow_type_healths (some e) t = err e
  list_all_workflow_type_healths none t = ok t
