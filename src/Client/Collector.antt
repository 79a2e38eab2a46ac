-- ===== src/Client/Collector.antt =====
-- internal/core/services/result_collector.go. PublishResult is the broker's: a parameter with
-- a state `B`.
pub mod Laws
use super_duper_bassoon.Common.{
  ℕ, String, List, [], ◌∷◌, ◌++◌, Option, none, some, if◌then◌else◌, str_eq, length,
}
use super_duper_bassoon.Common.Fault.{
  Fault, Result, ok, err, missing_run_id, missing_wf_id, missing_client_id,
}
use super_duper_bassoon.Client.State.{ClientState}
use super_duper_bassoon.Client.Activity.{ActivityResult, ResultMessage}

abbrev pub Pending : Type 0 → Type 0
Pending F = List (ResultMessage F)

unfoldable pub collect :
    {F : Type 0}
    → String
    → String
    → String
    → ActivityResult F
    → Option ClientState
    → Pending F
    → Result (Pending F)
collect run_id wf_id client_id r s pending =
    if str_eq run_id ""
    then err missing_run_id
    else if str_eq wf_id ""
    then err missing_wf_id
    else if str_eq client_id ""
    then err missing_client_id
    else ok (
        pending
        ++ record {
          run_id = run_id;
          wf_id = wf_id;
          client_id = client_id;
          status = r.status;
          inner_state = s;
          error_msg = r.error_msg;
          payload = r.payload;
        }
          ∷ [])

-- What PublishResult returns: `none` for nil.
abbrev pub Publish : Type 0 → Type 0 → Type 0
Publish F B = ResultMessage F → B → Option Fault × B

-- What the loop of FlushResults carries: the messages that failed, the first error, the broker.
pub record Flush (F B : Type 0) : Type 0 where
  pub failed : Pending F
  pub first_err : Option Fault
  pub broker : B

unfoldable pub or_first : Option Fault → Fault → Option Fault
or_first none e = some e
or_first (some first) e = some first

unfoldable pub after_publish :
    {F B : Type 0} → ResultMessage F → Option Fault × B → Flush F B → Flush F B
unfolding or_first
after_publish p (none, b) f = record f { broker = b }
after_publish p (some e, b) f = record {
  failed = f.failed ++ p ∷ [];
  first_err = or_first f.first_err e;
  broker = b;
}

unfoldable pub flush_loop : {F B : Type 0} → Publish F B → Pending F → Flush F B → Flush F B
flush_loop publish [] f = f
flush_loop publish (p ∷ ps) f = flush_loop publish ps (after_publish p (publish p f.broker) f)

-- The queue after the flush, what FlushResults returns, and the broker. Nothing is queued between
-- the two locked sections.
unfoldable pub flush_results :
    {F B : Type 0} → Publish F B → Pending F → B → Pending F × Option Fault × B
flush_results publish pending b =
    let f = flush_loop publish pending (record { failed = []; first_err = none; broker = b }) in
    (f.failed ++ [], f.first_err, f.broker)

unfoldable pub get_pending_count : {F : Type 0} → Pending F → ℕ
get_pending_count pending = length pending
