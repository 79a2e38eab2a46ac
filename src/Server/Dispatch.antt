-- ===== src/Server/Dispatch.antt =====
-- Dispatch of internal/core/domain/dispatch.go and DispatchCoordinationService of
-- internal/core/services/dispatch_coordination.go. SendDispatch is the broker's: a parameter with
-- a state `B`. time.Now() is an argument, one for each call.
pub mod Laws
use super_duper_bassoon.Common.{
  String, Bool, true, false, List, [], ◌∷◌, ◌++◌, Option, none, some, if◌then◌else◌, str_eq, not,
  ◌||◌,
}
use super_duper_bassoon.Common.Fault.{Fault, Result, ok, err}
use super_duper_bassoon.Common.Time.{Time}
use super_duper_bassoon.Client.Value.{Fields}
use super_duper_bassoon.Client.Activity.{ActivityType, activity-IsValid}
use super_duper_bassoon.Server.Workflow.{Workflow, Run, run_in_progress}
use super_duper_bassoon.Server.Ban.Service.{BanState}
use super_duper_bassoon.Server.Ban.DispatchFilter.{filter_dispatch_list}

pub record Dispatch (F : Type 0) : Type 0 where
  pub run_id : String
  pub workflow_id : String
  pub client_id : String
  pub activity : ActivityType
  pub params : Fields F
  pub dispatched_at : Time

unfoldable pub dispatch-IsValid : {F : Type 0} → Dispatch F → Bool
dispatch-IsValid d =
    if str_eq d.run_id "" || str_eq d.workflow_id ""
    then false
    else if not (activity-IsValid d.activity)
    then false
    else true

abbrev pub dispatch_to : {F : Type 0} → Time → Run → Workflow F → String → Dispatch F
dispatch_to now run w id = record {
  run_id = run.run_id;
  workflow_id = w.id;
  client_id = id;
  activity = w.activity;
  params = w.params;
  dispatched_at = now;
}

unfoldable pub generate_dispatches :
    {F : Type 0} → Time → Run → Workflow F → List String → List (Dispatch F)
generate_dispatches now run w [] = []
generate_dispatches now run w (id ∷ ids) =
    dispatch_to now run w id ∷ generate_dispatches now run w ids

-- What SendDispatch returns: `none` for nil.
abbrev pub Send : Type 0 → Type 0 → Type 0
Send F B = Dispatch F → B → Option Fault × B

-- What SendDispatches leaves: what it returns, the run, and the run that UpdateRun is called with, if
-- it is; the error of that call is only logged.
pub record Sending (F B : Type 0) : Type 0 where
  pub sent : List (Dispatch F)
  pub filtered : List String
  pub failure : Option Fault
  pub run : Run
  pub saved : Option Run
  pub broker : B

module _ {F B : Type 0} (send : Send F B) where
  -- What follows the answer to one SendDispatch.
  unfoldable pub after_send :
      Dispatch F
      → Option Fault × B
      → List (Dispatch F)
      → (List (Dispatch F) → B → List (Dispatch F) × Option Fault × B)
      → List (Dispatch F) × Option Fault × B
  after_send d (some e, b) sent rest = (sent, some e, b)
  after_send d (none, b) sent rest = rest (sent ++ d ∷ []) b

  -- The loop over the dispatches: what was sent, the error that stopped it, and the broker.
  unfoldable pub send_loop :
      List (Dispatch F) → List (Dispatch F) → B → List (Dispatch F) × Option Fault × B
  send_loop [] sent b = (sent, none, b)
  send_loop (d ∷ ds) sent b = elim (dispatch-IsValid d) [
    | false ↦ send_loop ds sent b
    | true ↦ after_send d (send d b) sent (send_loop ds)
  ]

  -- The part behind the loop, on the run with its participants set.
  unfoldable pub close_sending :
      Time → List String → Run → List (Dispatch F) × Option Fault × B → Sending F B
  close_sending now filtered run (sent, some e, b) = record {
    sent = sent;
    filtered = filtered;
    failure = some e;
    run = run;
    saved = none;
    broker = b;
  }
  close_sending now filtered run (sent, none, b) =
      let run' = record run { dispatched_at = now; state = run_in_progress } in
      record {
        sent = sent;
        filtered = filtered;
        failure = none;
        run = run';
        saved = some run';
        broker = b;
      }

  -- The part behind FilterDispatchList.
  unfoldable pub send_allowed :
      Time → Run → Workflow F → B → Result (List String × List String) → Sending F B
  send_allowed now run w b (err e) = record {
    sent = [];
    filtered = [];
    failure = some e;
    run = run;
    saved = none;
    broker = b;
  }
  send_allowed now run w b (ok (allowed, filtered)) =
      let run' = record run { participating_clients = allowed } in
      close_sending now filtered run' (send_loop (generate_dispatches now run' w allowed) [] b)

  unfoldable pub send_dispatches :
      (String → Option Fault) → Time → BanState → Run → Workflow F → List String → B → Sending F B
  send_dispatches db now s run w ids b =
      send_allowed now run w b (filter_dispatch_list db now w.workflow_type s ids)
