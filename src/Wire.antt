-- ===== src/Wire.antt =====
-- The messages between the server and the super-client. A message is the value that
-- encoding/json reads from its text, `none` for a text that is not JSON; the readers are what
-- json.Unmarshal does with a field of a struct, where an absent field and null leave the zero value.
-- A key is read as it is written: no encoder here writes it in other case.
pub mod Dispatch
pub mod Reply
use super_duper_bassoon.Common.{String, List, [], ◌∷◌, Option, none, some, if◌then◌else◌, str_eq}
use super_duper_bassoon.Common.Fault.{Fault, Result, ok, err, external}
use super_duper_bassoon.Client.Value.{Value, Fields, null, text, object, end}
use super_duper_bassoon.Client.Activity.{
  ActivityType, ResultStatus, reboot, install_package, upgrade_package, remove_package,
  apply_config, validate_config, run_script, other, success, fail, error, other_status,
}

-- ActivityType and ResultStatus are strings in the source.
unfoldable pub activity_text : ActivityType → String
activity_text reboot = "reboot"
activity_text install_package = "install_package"
activity_text upgrade_package = "upgrade_package"
activity_text remove_package = "remove_package"
activity_text apply_config = "apply_config"
activity_text validate_config = "validate_config"
activity_text run_script = "run_script"
activity_text (other s) = s

unfoldable pub activity_named : String → ActivityType
activity_named s =
    if str_eq s "reboot"
    then reboot
    else if str_eq s "install_package"
    then install_package
    else if str_eq s "upgrade_package"
    then upgrade_package
    else if str_eq s "remove_package"
    then remove_package
    else if str_eq s "apply_config"
    then apply_config
    else if str_eq s "validate_config"
    then validate_config
    else if str_eq s "run_script"
    then run_script
    else other s

unfoldable pub status_text : ResultStatus → String
status_text success = "success"
status_text fail = "fail"
status_text error = "error"
status_text (other_status s) = s

unfoldable pub status_named : String → ResultStatus
status_named s =
    if str_eq s "success"
    then success
    else if str_eq s "fail"
    then fail
    else if str_eq s "error"
    then error
    else other_status s

module _ {F : Type 0} where
  unfoldable pub read_string : Option (Value F) → Result String
  read_string none = ok ""
  read_string (some null) = ok ""
  read_string (some (text s)) = ok s
  read_string (some v) = err external

  unfoldable pub read_map : Option (Value F) → Result (Fields F)
  read_map none = ok end
  read_map (some null) = ok end
  read_map (some (object m)) = ok m
  read_map (some v) = err external
