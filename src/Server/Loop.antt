-- ===== src/Server/Loop.antt =====
-- Loop detection: LoopDetector of internal/core/domain/ban.go, LoopDetectionService of
-- internal/core/services/loop_detection.go, and the queries of
-- internal/adapters/repository/run_repo.go that it makes. time.Now() is an argument.
pub mod Previous
pub mod Laws
use super_duper_bassoon.Common.{
  ℕ, ◌*◌, String, Bool, true, false, List, [], ◌∷◌, Option, none, some, if◌then◌else◌, str_eq, ltb,
  leb, not, ◌&&◌, ◌||◌,
}
use super_duper_bassoon.Common.Fault.{Fault, Result, ok, err, run_not_found}
use super_duper_bassoon.Common.Int.{ℤ, pos, leb_ℤ, ltb_ℤ}
use super_duper_bassoon.Common.Time.{Time, sub_time, second, of_ms, milliseconds}
use super_duper_bassoon.Server.Runs.{RunTable, get_run, joined}
use super_duper_bassoon.Server.Workflow.{Workflow, Run, RunResult, loop_threshold, result-IsValid}
use super_duper_bassoon.Server.Ban.Record.{BanReason, BanRecord, loop_detected}
use super_duper_bassoon.Server.Ban.Service.{BanState, Alert, loop_found, publish, ban_client}

pub record LoopDetectionRecord : Type 0 where
  pub client_id : String
  pub workflow_type : String
  pub current_run_id : String
  pub previous_run_id : String
  pub detected_at : Time
  pub result_evidence : String
  pub time_between : ℤ

-- The default threshold of a new LoopDetector.
unfoldable pub new_loop_detector : ℤ → ℤ
new_loop_detector threshold = if leb_ℤ threshold (pos 0) then pos (5 * second) else threshold

unfoldable pub detect_loop :
    ℤ
    → Time
    → String
    → String
    → String
    → Time
    → String
    → Time
    → ℤ
    → String
    → Option LoopDetectionRecord
detect_loop default_threshold now client_id workflow_type run_id run_time prev_id prev_time
      threshold evidence =
    let limit = if leb_ℤ threshold (pos 0) then default_threshold else threshold in
    let delta = sub_time run_time prev_time in
    if str_eq prev_id "" || str_eq prev_id run_id
    then none
    else if ltb run_time prev_time
    then none
    else if ltb_ℤ limit delta
    then none
    else some (record {
      client_id = client_id;
      workflow_type = workflow_type;
      current_run_id = run_id;
      previous_run_id = prev_id;
      detected_at = now;
      result_evidence = evidence;
      time_between = delta;
    })

-- The WHERE clause of GetPreviousRun, on the rows joined.
unfoldable pub precedes : List (String × String) → String → String → String → Time → Run → Bool
precedes pairs client_id workflow_type run_id before r =
    joined r.run_id client_id pairs
    && str_eq r.workflow_type workflow_type
    && not (str_eq r.run_id run_id)
    && leb r.triggered_at before

-- ORDER BY triggered_at DESC LIMIT 1: the first of the latest, where the database may take any.
newer : Run → Option Run → Run
newer r none = r
newer r (some s) = if leb s.triggered_at r.triggered_at then r else s

unfoldable pub latest : (Run → Bool) → List Run → Option Run
unfolding newer
latest p [] = none
latest p (r ∷ rows) = let rest = latest p rows in if p r then some (newer r rest) else rest

unfoldable pub or_no_run : Option Run → Result Run
or_no_run none = err run_not_found
or_no_run (some r) = ok r

unfoldable pub get_previous_run :
    Option Fault → String → String → String → Time → RunTable → Result Run
get_previous_run (some e) client_id workflow_type run_id before t = err e
get_previous_run none client_id workflow_type run_id before t =
    or_no_run (latest (precedes t.runs_clients client_id workflow_type run_id before) t.rows)

-- What the service is built with, and what json.Marshal makes of a result. It has an enforcer, and
-- the enforcer's AlertPublisher for its own alerts, as in cmd/main.go.
pub record LoopConfig (F : Type 0) : Type 0 where
  pub default_ms : ℤ
  pub marshal : RunResult F → String

-- What the database answers to the calls of one HandleResult, in their order.
pub record LoopAnswers (F : Type 0) : Type 0 where
  pub workflow : Result (Workflow F)
  pub run : Option Fault
  pub previous : Option Fault
  pub ban : Option Fault

module _ {F : Type 0} (cfg : LoopConfig F) where
  unfoldable pub threshold_of : Workflow F → ℤ
  threshold_of w =
      if leb_ℤ (loop_threshold w) (pos 0) then of_ms cfg.default_ms else loop_threshold w

  -- The part behind DetectLoop. The record that BanClient returns is dropped, and its error only
  -- logged.
  unfoldable pub on_loop :
      Option Fault
      → Time
      → RunResult F
      → Workflow F
      → Option LoopDetectionRecord
      → BanState
      → BanState
  on_loop db now r w none s = s
  on_loop db now r w (some l) s =
      let alert =
        loop_found r.client_id w.workflow_type l.current_run_id l.previous_run_id
          (milliseconds l.time_between) in
      (ban_client db now r.client_id w.workflow_type r.run_id (cfg.marshal r) loop_detected
        (record s { alerts = publish alert s.alerts })).1

  unfoldable pub detected : Time → RunResult F → Workflow F → Run → Run → Option LoopDetectionRecord
  detected now r w current prev =
      detect_loop (new_loop_detector (of_ms cfg.default_ms)) now r.client_id w.workflow_type
        r.run_id current.triggered_at prev.run_id prev.triggered_at (threshold_of w) (cfg.marshal r)

  unfoldable pub with_run :
      LoopAnswers F → Time → RunResult F → RunTable → Workflow F → Run → BanState → BanState
  unfolding on_loop
  with_run db now r t w current s =
      elim (get_previous_run db.previous r.client_id w.workflow_type r.run_id current.triggered_at
        t) [ err e ↦ s | ok prev ↦ on_loop db.ban now r w (detected now r w current prev) s ]

  -- HandleResult, which returns no error on any path. A nil result is `none`.
  unfoldable pub handle_result :
      LoopAnswers F → Time → Option (RunResult F) → RunTable → BanState → BanState
  unfolding with_run
  handle_result db now none t s = s
  handle_result db now (some r) t s = if not (result-IsValid r) then s else elim db.workflow [
    | err e ↦ s
    | ok w ↦ elim (get_run db.run r.run_id t) [
      | err e ↦ s
      | ok current ↦ with_run db now r t w current s
    ]
  ]
