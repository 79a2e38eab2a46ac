-- ===== src/Wire/Dispatch.antt =====
-- A dispatch on its way: GetPayload of internal/core/domain/dispatch.go, NATSMessageDispatcher and
-- ChannelDispatcher of internal/adapters/messaging/nats_dispatcher.go, and the callback of
-- SubscribeDispatch of internal/adapters/messaging/nats_broker.go. The connection is a parameter
-- with a state `B`. json.Marshal writes an empty map and a nil map of parameters alike here.
pub mod Laws
use Prim.Native.String.{◌++◌ as str_append}
use Prim.Native.String
use super_duper_bassoon.Common.{String, List, [], ◌∷◌, ◌++◌, Option, none, some}
use super_duper_bassoon.Common.Fault.{Fault, Result, ok, err, external, ◌>>=◌}
use super_duper_bassoon.Client.Value.{Value, Fields, null, text, object, end, field, get}
use super_duper_bassoon.Client.Activity.{Activity, DispatchMessage, other}
use super_duper_bassoon.Server.Dispatch.{Dispatch, Send}
use super_duper_bassoon.Wire.{activity_text, activity_named, read_string, read_map}

-- What the program calls of a nats.Conn: Publish, and the flush that follows it.
pub record Connection (M B : Type 0) : Type 0 where
  pub publish : String → M → B → Option Fault × B
  pub flush : B → Option Fault × B

unfoldable pub default_dispatch_subject : String → String
default_dispatch_subject client_id = str_append "dispatch." client_id

module _ {F : Type 0} where
  unfoldable pub get_payload : Dispatch F → Value F
  unfolding activity_text
  get_payload d = object (
      field "run_id" (text d.run_id) (
        field "wf_id" (text d.workflow_id) (
          field "activity" (text (activity_text d.activity))
            (field "params" (object d.params) end))))

  module _ {B : Type 0} (conn : Connection (Value F) B) where
    abbrev pub flush_after : Option Fault × B → Option Fault × B
    flush_after (some e, b) = (some e, b)
    flush_after (none, b) = conn.flush b

    -- SendDispatch of the NATSMessageDispatcher; GetPayload has no error on these values.
    unfoldable pub send_dispatch : Send F B
    unfolding get_payload default_dispatch_subject
    send_dispatch d b =
        flush_after (conn.publish (default_dispatch_subject d.client_id) (get_payload d) b)

  -- SendDispatch of the ChannelDispatcher, on the dispatches sent.
  unfoldable pub send_channel : (Dispatch F → Option Fault) → Send F (List (Dispatch F))
  send_channel on_send d sent = elim (on_send d) [
    | some e ↦ (some e, sent)
    | none ↦ (none, sent ++ d ∷ [])
  ]

  module _ {B : Type 0} (send : Send F B) where
    abbrev pub batch_after : Option Fault × B → (B → Option Fault × B) → Option Fault × B
    batch_after (some e, b) rest = (some e, b)
    batch_after (none, b) rest = rest b

    -- SendBatchDispatches of either.
    unfoldable pub send_batch_dispatches : List (Dispatch F) → B → Option Fault × B
    send_batch_dispatches [] b = (none, b)
    send_batch_dispatches (d ∷ ds) b = batch_after (send d b) (send_batch_dispatches ds)

  -- The struct Activity from a field.
  unfoldable pub read_activity : Option (Value F) → Result (Activity F)
  unfolding activity_named read_string read_map
  read_activity none = ok (record { kind = other ""; params = end })
  read_activity (some null) = ok (record { kind = other ""; params = end })
  read_activity (some (object m)) = do
    kind ← read_string (get "type" m)
    params ← read_map (get "params" m)
    ok (record { kind = activity_named kind; params = params })
  read_activity (some v) = err external

  -- json.Unmarshal into a DispatchMessage
  unfoldable pub unmarshal_dispatch : Value F → Result (DispatchMessage F)
  unfolding read_activity read_string
  unmarshal_dispatch (object m) = do
    run_id ← read_string (get "run_id" m)
    wf_id ← read_string (get "wf_id" m)
    client_id ← read_string (get "client_id" m)
    activity ← read_activity (get "activity" m)
    ok (record { run_id = run_id; wf_id = wf_id; client_id = client_id; activity = activity })
  unmarshal_dispatch null = ok (record {
    run_id = "";
    wf_id = "";
    client_id = "";
    activity = record { kind = other ""; params = end };
  })
  unmarshal_dispatch v = err external

  abbrev pub delivered : String → Result (DispatchMessage F) → Option (DispatchMessage F)
  delivered client_id (err e) = none
  delivered client_id (ok d) = some (record d { client_id = client_id })

  -- What the callback puts on the channel; a malformed message is dropped.
  unfoldable pub on_dispatch : String → Option (Value F) → Option (DispatchMessage F)
  unfolding unmarshal_dispatch
  on_dispatch client_id none = none
  on_dispatch client_id (some v) = delivered client_id (unmarshal_dispatch v)
