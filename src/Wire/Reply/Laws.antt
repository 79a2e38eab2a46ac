-- ===== src/Wire/Reply/Laws.antt =====
-- What arrives of a result.
use super_duper_bassoon.Common.{
  String, Bool, true, false, Option, none, some, if◌then◌else◌, str_eq, ◌≡◌, refl, sym, eq_iff, ap,
}
use super_duper_bassoon.Common.Fault.{Result, ok}
use super_duper_bassoon.Common.Float.{Floats}
use super_duper_bassoon.Common.Time.{Time}
use super_duper_bassoon.Client.Value.{Value, Fields, text, end, field, get}
use super_duper_bassoon.Client.State.{ClientState}
use super_duper_bassoon.Client.Activity.{
  ResultMessage, ResultStatus, success, fail, error, other_status, status-IsValid,
}
use super_duper_bassoon.Server.Workflow.{RunResult}
use super_duper_bassoon.Server.Workflow.Table.{Json}
use super_duper_bassoon.Wire.{status_text, status_named, read_string, read_map}
use super_duper_bassoon.Wire.Reply.{
  state_fields, state_field, payload_field, marshal_result, unmarshal_result, parse_result,
}

status_named-text : (s : ResultStatus) → status-IsValid s ≡ true → status_named (status_text s) ≡ s
unfolding status_named status_text status-IsValid
status_named-text success h = refl
status_named-text fail h = refl
status_named-text error h = refl
status_named-text (other_status s) h = absurd (cc h)

blank : (e : String) → str_eq e "" ≡ true → ok "" ≡ ok e
blank e h = ap ok (sym ((eq_iff e "").0 h))

module _ (fl : Floats) (json : Json fl.Float) where
  open fl use {Float}

  abbrev pub state_read : Option ClientState → Fields Float
  state_read none = end
  state_read (some s) = state_fields fl json s

  -- An empty payload is left out.
  abbrev pub payload_read : Fields Float → Fields Float
  payload_read end = end
  payload_read (field k v m) = json (field k v m)

  -- What the server has of a message.
  abbrev pub result_of : Time → ResultMessage Float → RunResult Float
  result_of now m = record {
    run_id = m.run_id;
    workflow_id = m.wf_id;
    client_id = m.client_id;
    status = m.status;
    inner_state = state_read m.inner_state;
    error_msg = m.error_msg;
    payload = payload_read m.payload;
    received_at = now;
  }

  abbrev IsRead : Option ClientState → String → Fields Float → Fields Float → Type 0
  IsRead s e p m =
      (read_map (get "inner_state" m) ≡ ok (state_read s))
      × (read_string (get "error_msg" m) ≡ ok e)
      × (read_map (get "payload" m) ≡ ok (payload_read p))
      × (get "received_at" m ≡ none)

  rest-IsRead :
      (s : Option ClientState) (e : String) (p : Fields Float) (b : Bool)
      → str_eq e "" ≡ b
      → IsRead s e p (
          state_field fl json s (
            if b
            then payload_field fl json p
            else field "error_msg" (text e) (payload_field fl json p)))
  unfolding get read_map read_string
  rest-IsRead none e end true h = (refl, blank e h, refl, refl)
  rest-IsRead none e (field k v m) true h = (refl, blank e h, refl, refl)
  rest-IsRead none e end false h = (refl, refl, refl, refl)
  rest-IsRead none e (field k v m) false h = (refl, refl, refl, refl)
  rest-IsRead (some s) e end true h = (refl, blank e h, refl, refl)
  rest-IsRead (some s) e (field k v m) true h = (refl, blank e h, refl, refl)
  rest-IsRead (some s) e end false h = (refl, refl, refl, refl)
  rest-IsRead (some s) e (field k v m) false h = (refl, refl, refl, refl)

  -- Of a result with a known status that the super-client publishes, the server reads each field as it
  -- was sent, a map as JSON brings it back; a payload, a message or a state that is left out
  -- is read as empty, and the time of the result, which is not sent, is the time of reading.
  pub parse_result-marshal_result :
      (read_time : Value Float → Result Time) (now : Time) (m : ResultMessage Float)
      → status-IsValid m.status ≡ true
      → parse_result fl json read_time now (some (marshal_result fl json m)) ≡ ok (result_of now m)
  unfolding parse_result unmarshal_result marshal_result get read_string
  parse_result-marshal_result read_time now m h =
      let r = rest-IsRead m.inner_state m.error_msg m.payload (str_eq m.error_msg "") refl in
      rw (r.0, r.1, r.2, r.3, status_named-text m.status h) refl
