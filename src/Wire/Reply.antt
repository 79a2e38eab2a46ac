-- ===== src/Wire/Reply.antt =====
-- A result on its way: PublishResult of internal/adapters/messaging/nats_broker.go, and ParseResult
-- of internal/core/domain/result.go. What a map of `interface{}` becomes on the way is a parameter,
-- `Json`, and so is the reader of a time. time.Now() is an argument.
pub mod Laws
use Prim.Native.String.{◌++◌ as str_append}
use Prim.Native.String
use super_duper_bassoon.Common.{String, List, [], ◌∷◌, Option, none, some, if◌then◌else◌, str_eq}
use super_duper_bassoon.Common.Dict.{Dict}
use super_duper_bassoon.Common.Fault.{Fault, Result, ok, err, external, ◌>>=◌}
use super_duper_bassoon.Common.Float.{Floats}
use super_duper_bassoon.Common.Time.{Time, is_zero}
use super_duper_bassoon.Client.Value.{
  Value, Fields, null, text, bool, float64, object, end, field, get,
}
use super_duper_bassoon.Client.State.{
  ClientState, PowerState, CrippleMode, on, off, restarting, mode_none, fail_package_ops,
  fail_config, silent,
}
use super_duper_bassoon.Client.Chaos.{mode_text}
use super_duper_bassoon.Client.Activity.{ResultMessage}
use super_duper_bassoon.Client.Collector.{Publish}
use super_duper_bassoon.Server.Workflow.{RunResult}
use super_duper_bassoon.Server.Workflow.Table.{Json}
use super_duper_bassoon.Wire.{status_text, status_named, read_string, read_map}
use super_duper_bassoon.Wire.Dispatch.{Connection}

unfoldable pub power_text : PowerState → String
power_text on = "on"
power_text off = "off"
power_text restarting = "restarting"

unfoldable pub texts_of : {F : Type 0} → Dict String → Fields F
texts_of [] = end
texts_of ((k, s) ∷ m) = field k (text s) (texts_of m)

module _ (fl : Floats) (json : Json fl.Float) where
  open fl use {Float, of_int}

  -- A ClientState, its numbers as they are read back.
  unfoldable pub state_fields : ClientState → Fields Float
  unfolding power_text mode_text texts_of
  state_fields s = field "packages" (object (texts_of s.packages)) (
      field "config_version" (float64 (of_int s.config_version)) (
        field "power_state" (text (power_text s.power_state)) (
          field "is_crippled" (bool s.is_crippled) (
            field "cripple_mode" (text (mode_text s.cripple_mode)) (
              field "cripple_recovery_attempts" (float64 (of_int s.cripple_recovery_attempts))
                end)))))

  -- The fields that are left out where they are empty, in front of the rest.
  abbrev pub state_field : Option ClientState → Fields Float → Fields Float
  state_field none rest = rest
  state_field (some s) rest = field "inner_state" (object (state_fields s)) rest

  abbrev pub error_field : String → Fields Float → Fields Float
  error_field s rest = if str_eq s "" then rest else field "error_msg" (text s) rest

  abbrev pub payload_field : Fields Float → Fields Float
  payload_field end = end
  payload_field (field k v m) = field "payload" (object (json (field k v m))) end

  -- json.Marshal of a ResultMessage
  unfoldable pub marshal_result : ResultMessage Float → Value Float
  unfolding state_fields status_text
  marshal_result m = object (
      field "run_id" (text m.run_id) (
        field "wf_id" (text m.wf_id) (
          field "client_id" (text m.client_id) (
            field "status" (text (status_text m.status))
              (state_field m.inner_state (error_field m.error_msg (payload_field m.payload)))))))

  -- PublishResult; json.Marshal has no error on these values.
  unfoldable pub publish_result : {B : Type 0} → Connection (Value Float) B → Publish Float B
  unfolding marshal_result
  publish_result conn m b = conn.publish (str_append "result." m.client_id) (marshal_result m) b

  module _ (read_time : Value Float → Result Time) where
    abbrev pub time_field : Option (Value Float) → Result Time
    time_field none = ok 0
    time_field (some v) = read_time v

    -- json.Unmarshal into a Result
    unfoldable pub unmarshal_result : Value Float → Result (RunResult Float)
    unfolding read_string read_map status_named
    unmarshal_result (object m) = do
      run_id ← read_string (get "run_id" m)
      workflow_id ← read_string (get "wf_id" m)
      client_id ← read_string (get "client_id" m)
      status ← read_string (get "status" m)
      inner_state ← read_map (get "inner_state" m)
      error_msg ← read_string (get "error_msg" m)
      payload ← read_map (get "payload" m)
      received_at ← time_field (get "received_at" m)
      ok (record {
        run_id = run_id;
        workflow_id = workflow_id;
        client_id = client_id;
        status = status_named status;
        inner_state = inner_state;
        error_msg = error_msg;
        payload = payload;
        received_at = received_at;
      })
    unmarshal_result null = ok (record {
      run_id = "";
      workflow_id = "";
      client_id = "";
      status = status_named "";
      inner_state = end;
      error_msg = "";
      payload = end;
      received_at = 0;
    })
    unmarshal_result v = err external

    abbrev pub received : Time → RunResult Float → RunResult Float
    received now r = record r { received_at = if is_zero r.received_at then now else r.received_at }

    unfoldable pub parse_result : Time → Option (Value Float) → Result (RunResult Float)
    unfolding unmarshal_result
    parse_result now none = err external
    parse_result now (some v) = do r ← unmarshal_result v; ok (received now r)
