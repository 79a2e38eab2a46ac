-- ===== src/Examples/Messages.antt =====
-- A dispatch that the super-client drops, and a result that the server reads.
use super_duper_bassoon.Common.{true, none, some, ◌≡◌, refl}
use super_duper_bassoon.Common.Fault.{Result, ok}
use super_duper_bassoon.Common.Int.{ℤ}
use super_duper_bassoon.Common.Time.{Time}
use super_duper_bassoon.Client.Value.{Value, end}
use super_duper_bassoon.Client.Activity.{ResultMessage, status-IsValid, success, reboot}
use super_duper_bassoon.Server.Dispatch.{Dispatch}
use super_duper_bassoon.Wire.Dispatch.{get_payload, on_dispatch}
use super_duper_bassoon.Wire.Dispatch.Laws.{on_dispatch-get_payload}
use super_duper_bassoon.Wire.Reply.{marshal_result, parse_result}
use super_duper_bassoon.Wire.Reply.Laws.{parse_result-marshal_result, result_of}
use super_duper_bassoon.Examples.Data.{healthy, thousandths}
use super_duper_bassoon.Examples.Tables.{json}

abbrev to_reboot : Dispatch ℤ
to_reboot = record {
  run_id = "r1";
  workflow_id = "wf";
  client_id = "a";
  activity = reboot;
  params = end;
  dispatched_at = 9;
}

on_dispatch-get_payload_example : on_dispatch "a" (some (get_payload to_reboot)) ≡ none
on_dispatch-get_payload_example = on_dispatch-get_payload "a" to_reboot

abbrev rebooted : ResultMessage ℤ
rebooted = record {
  run_id = "r1";
  wf_id = "wf";
  client_id = "a";
  status = success;
  inner_state = some healthy;
  error_msg = "";
  payload = end;
}

abbrev no_time : Value ℤ → Result Time
no_time v = ok 0

succeeded : status-IsValid rebooted.status ≡ true
unfolding status-IsValid
succeeded = refl

parse_result-marshal_result_example :
    parse_result thousandths json no_time 900 (some (marshal_result thousandths json rebooted))
    ≡ ok (result_of thousandths json 900 rebooted)
parse_result-marshal_result_example =
    parse_result-marshal_result thousandths json no_time 900 rebooted succeeded
