-- ===== src/Server/Orchestration.antt =====
-- TriggerWorkflow of internal/core/services/workflow_orchestration.go. ParseFilter, the broker, the
-- new run's identifier and what the repositories answer are parameters.
pub mod Laws
pub mod Stored
use super_duper_bassoon.Common.{
  String, Bool, true, false, List, [], ◌∷◌, Option, none, some, if◌then◌else◌, str_eq, not,
}
use super_duper_bassoon.Common.Fault.{Fault, Result, ok, err, workflow_inactive, ◌>>=◌}
use super_duper_bassoon.Common.Float.{Floats}
use super_duper_bassoon.Common.Time.{Time}
use super_duper_bassoon.Server.Filter.Ast.{FilterNode}
use super_duper_bassoon.Server.Filter.Eval.{Texts, ClientMetadata}
use super_duper_bassoon.Server.Filter.Resolve.{FilterResult, resolve_clients}
use super_duper_bassoon.Server.Workflow.{Workflow, Run, run_pending}
use super_duper_bassoon.Server.Ban.Service.{BanState}
use super_duper_bassoon.Server.Dispatch.{Dispatch, Send, Sending, send_dispatches}

unfoldable pub active_ids : {F : Type 0} → List (ClientMetadata F) → List String
active_ids [] = []
active_ids (c ∷ cs) = let rest = active_ids cs in if c.active then c.client_id ∷ rest else rest

abbrev pub new_run : {F : Type 0} → Time → String → String → Workflow F → List String → Run
new_run now run_id reason w ids = record {
  run_id = run_id;
  workflow_id = w.id;
  workflow_type = w.workflow_type;
  triggered_at = now;
  dispatched_at = 0;
  participating_clients = ids;
  state = run_pending;
  reason = reason;
}

-- What TriggerWorkflow returns and does: its error, the run, the dispatches sent, whether the
-- completion event is published, and the runs that CreateRun has stored and that UpdateRun is called
-- with.
pub record Triggered (F B : Type 0) : Type 0 where
  pub failure : Option Fault
  pub run : Option Run
  pub sent : List (Dispatch F)
  pub published : Bool
  pub created : Option Run
  pub saved : Option Run
  pub broker : B

-- What the repositories answer to the calls of one TriggerWorkflow.
pub record TriggerAnswers (F : Type 0) : Type 0 where
  pub workflow : Result (Workflow F)
  pub clients : Result (List (ClientMetadata F))
  pub create : Run → Option Fault
  pub bans : String → Option Fault

abbrev pub is_none : {A : Type 0} → Option A → Bool
is_none none = true
is_none (some a) = false

module _ (fl : Floats) (tx : Texts fl.Float)
    (parse : String → Result (Option (FilterNode fl.Float))) where
  open fl use {Float}

  -- The clients of the target filter; without one, all that are active.
  unfoldable pub target_clients :
      Workflow Float → Result (List (ClientMetadata Float)) → Result (List String)
  target_clients w clients =
      if str_eq w.target_filter "" then (do cs ← clients; ok (active_ids cs)) else (do
        found ← resolve_clients fl tx (parse w.target_filter) clients
        ok found.matching_client_ids)

  module _ {B : Type 0} (send : Send Float B) where
    abbrev pub refused_trigger : Fault → B → Triggered Float B
    refused_trigger e b = record {
      failure = some e;
      run = none;
      sent = [];
      published = false;
      created = none;
      saved = none;
      broker = b;
    }

    -- The part behind SendDispatches.
    unfoldable pub after_sending : Run → Sending Float B → Triggered Float B
    after_sending run c = record {
      failure = c.failure;
      run = some c.run;
      sent = c.sent;
      published = is_none c.failure;
      created = some run;
      saved = c.saved;
      broker = c.broker;
    }

    -- The part behind the choice of the clients.
    unfoldable pub start_run :
        TriggerAnswers Float
        → Time
        → String
        → String
        → BanState
        → Workflow Float
        → B
        → Result (List String)
        → Triggered Float B
    start_run db now run_id reason s w b (err e) = refused_trigger e b
    start_run db now run_id reason s w b (ok ids) =
        let run = new_run now run_id reason w ids in
        elim (db.create run) [
          | some e ↦ refused_trigger e b
          | none ↦ after_sending run (send_dispatches send db.bans now s run w ids b)
        ]

    unfoldable pub trigger_workflow :
        TriggerAnswers Float → Time → String → String → BanState → B → Triggered Float B
    trigger_workflow db now run_id reason s b = elim db.workflow [
      | err e ↦ refused_trigger e b
      | ok w ↦
          if not w.active
          then refused_trigger workflow_inactive b
          else start_run db now run_id reason s w b (target_clients w db.clients)
    ]
