-- ===== src/Server/Health/Monitor.antt =====
-- HealthMonitoringService of internal/core/services/health_monitoring.go, over the tables that it
-- reads and writes. time.Now() is an argument, one for each call; the log is not modelled. Its
-- repository of results is the one of result_repo.go, which has SaveResultWithType.
pub mod Rows
pub mod Counted
pub mod Laws
pub mod First
use super_duper_bassoon.Common.{
  ℕ, ◌+◌, String, Bool, true, false, List, [], ◌∷◌, ◌++◌, Option, none, some, if◌then◌else◌, str_eq,
  not, ◌&&◌, ◌||◌, length, map,
}
use super_duper_bassoon.Common.Fault.{Fault, Result, ok, err}
use super_duper_bassoon.Common.Float.{Floats}
use super_duper_bassoon.Common.Int.{ℤ, pos, leb_ℤ, ltb_ℤ}
use super_duper_bassoon.Common.Time.{Time}
use super_duper_bassoon.Server.Ban.Record.{BanRecord}
use super_duper_bassoon.Server.Ban.Table.{BanTable, get_active_bans_by_workflow_type}
use super_duper_bassoon.Server.Workflow.{
  Workflow, Run, RunState, run_pending, run_in_progress, run_completed, run_failed, RunResult,
  result-IsValid, out_of_range,
}
use super_duper_bassoon.Server.Workflow.Table.{Json, get_workflow}
use super_duper_bassoon.Server.Runs.{RunTable, get_run, update_run}
use super_duper_bassoon.Server.Results.Table.{ResultRow, save_result_with_type, get_run_results}
use super_duper_bassoon.Server.Health.{
  RunHealth, TypeHealth, calculate_run_health, aggregate_workflow_health, is_complete,
}
use super_duper_bassoon.Server.Health.Table.{
  save_run_health, list_run_healths, save_workflow_type_health, get_workflow_type_health,
}

-- HealthUpdatedEvent without its time; `none` for a nil TypeHealth.
pub record HealthUpdated (F : Type 0) : Type 0 where
  pub workflow_id : String
  pub workflow_type : String
  pub run_health : RunHealth
  pub type_health : Option (TypeHealth F)

pub record HealthState (F : Type 0) : Type 0 where
  pub runs : RunTable
  pub results : List (ResultRow F)
  pub run_healths : List RunHealth
  pub type_healths : List (TypeHealth F)
  -- the events published, `none` without an event bus
  pub events : Option (List (HealthUpdated F))

-- What HandleResult only reads.
pub record HealthSources (F : Type 0) : Type 0 where
  pub workflows : List (Workflow F)
  pub bans : BanTable
  -- the window of the service, and GetHealthThreshold's window for a type where it has one
  pub window_size : ℤ
  pub config_window : String → Option ℤ

-- What the database answers to the calls of one HandleResult, in their order.
pub record HealthAnswers : Type 0 where
  pub workflow : Option Fault
  pub store_result : Option Fault
  pub run : Option Fault
  pub results : Option Fault
  pub bans : Option Fault
  pub save_health : Option Fault
  pub list_healths : Option Fault
  pub save_type : Option Fault
  pub update : Option Fault

-- The window that a new service has.
unfoldable pub new_window_size : ℤ → ℤ
new_window_size window = if leb_ℤ window (pos 0) then pos 10 else window

abbrev pub kept {ℓ} : {T : Type ℓ} → Result T → T → T
kept (err e) t = t
kept (ok t') t = t'

abbrev pub listed : {A : Type 0} → Result (List A) → List A
listed (err e) = []
listed (ok l) = l

abbrev pub dropped : {A T : Type 0} → Result A × T → Result (Unit {0}) × T
dropped (err e, t) = (err e, t)
dropped (ok a, t) = (ok tt, t)

-- Whether banSet has the client.
unfoldable pub in_bans : String → List BanRecord → Bool
in_bans client_id [] = false
in_bans client_id (b ∷ bans) = str_eq b.client_id client_id || in_bans client_id bans

-- The loop over the participating clients.
unfoldable pub banned_count : List BanRecord → List String → ℕ
unfolding in_bans
banned_count bans [] = 0
banned_count bans (c ∷ cs) = (if in_bans c bans then 1 else 0) + banned_count bans cs

unfoldable pub is_completed : RunState → Bool
is_completed run_completed = true
is_completed _ = false

-- A failure of UpdateRun is only logged.
unfoldable pub run_completed_by : HealthAnswers → RunHealth → Run → RunTable → RunTable
run_completed_by db h run t =
    if is_complete h && not (is_completed run.state)
    then kept (update_run db.update (record run { state = run_completed }) t) t
    else t

module _ {F : Type 0} where
  unfoldable pub window_of : HealthSources F → String → ℤ
  window_of src workflow_type = elim (src.config_window workflow_type) [
    | none ↦ src.window_size
    | some w ↦ if ltb_ℤ (pos 0) w then w else src.window_size
  ]

  abbrev pub notify :
      HealthUpdated F → Option (List (HealthUpdated F)) → Option (List (HealthUpdated F))
  notify e none = none
  notify e (some sent) = some (sent ++ e ∷ [])

module _ (fl : Floats) (json : Json fl.Float) where
  open fl use {Float}

  -- Its result, and the table of type healths.
  unfoldable pub aggregate_type :
      HealthAnswers
      → Time
      → HealthSources Float
      → String
      → List RunHealth
      → List (TypeHealth Float)
      → Option (TypeHealth Float) × List (TypeHealth Float)
  aggregate_type db now src workflow_type run_healths type_healths =
      let window = window_of src workflow_type in
      elim (list_run_healths db.list_healths workflow_type window run_healths) [
        | err e ↦ (none, type_healths)
        | ok runs ↦
            let out = aggregate_workflow_health fl now workflow_type runs window in
            elim (save_workflow_type_health db.save_type now out type_healths) [
              | err e ↦ (none, type_healths)
              | ok t ↦ (some out, t)
            ]
      ]

  -- The part behind SaveRunHealth.
  unfoldable pub after_health :
      HealthAnswers
      → Time
      → HealthSources Float
      → Run
      → RunHealth
      → List RunHealth
      → HealthState Float
      → HealthState Float
  after_health db now src run h run_healths s =
      let aggregated = aggregate_type db now src run.workflow_type run_healths s.type_healths in
      record s {
        runs = run_completed_by db h run s.runs;
        run_healths = run_healths;
        type_healths = aggregated.1;
        events =
            notify
              (record {
                workflow_id = run.workflow_id;
                workflow_type = run.workflow_type;
                run_health = h;
                type_health = aggregated.0;
              })
              s.events;
      }

  -- The health that a run has by the results and the bans.
  unfoldable pub health_of :
      Time → String → Run → List (RunResult Float) → List BanRecord → RunHealth
  health_of now run_id run results bans =
      calculate_run_health now run_id run.workflow_id run.workflow_type
        (length run.participating_clients) (map (λ r. some r) results)
        (banned_count bans run.participating_clients)

  unfoldable pub store_health :
      HealthAnswers
      → Time
      → HealthSources Float
      → Run
      → RunHealth
      → HealthState Float
      → Result RunHealth × HealthState Float
  store_health db now src run h s = elim (save_run_health db.save_health now h s.run_healths) [
    | err e ↦ (err e, s)
    | ok t ↦ (ok h, after_health db now src run h t s)
  ]

  unfoldable pub calculate_stored_health :
      HealthAnswers
      → Time
      → HealthSources Float
      → String
      → HealthState Float
      → Result RunHealth × HealthState Float
  calculate_stored_health db now src run_id s = elim (get_run db.run run_id s.runs) [
    | err e ↦ (err e, s)
    | ok run ↦ elim (get_run_results db.results run_id s.results) [
      | err e ↦ (err e, s)
      | ok results ↦
          let bans =
            listed (get_active_bans_by_workflow_type db.bans now run.workflow_type src.bans) in
          store_health db now src run (health_of now run_id run results bans) s
    ]
  ]

  abbrev pub type_or_empty : Result (Workflow Float) → String
  type_or_empty (err e) = ""
  type_or_empty (ok w) = w.workflow_type

  -- A nil result is `none`. An error of saving the result is dropped.
  unfoldable pub monitor_result :
      HealthAnswers
      → Time
      → HealthSources Float
      → Option (RunResult Float)
      → HealthState Float
      → Result (Unit {0}) × HealthState Float
  monitor_result db now src none s = (ok tt, s)
  monitor_result db now src (some r) s =
      let workflow_type = type_or_empty (get_workflow db.workflow r.workflow_id src.workflows) in
      let saved =
        kept (save_result_with_type json db.store_result r workflow_type s.results) s.results in
      if not (result-IsValid r)
      then (ok tt, s)
      else dropped (calculate_stored_health db now src r.run_id (record s { results = saved }))

  unfoldable pub get_current_health :
      Option Fault → String → HealthState Float → Result (TypeHealth Float)
  get_current_health db workflow_type s = get_workflow_type_health db workflow_type s.type_healths
