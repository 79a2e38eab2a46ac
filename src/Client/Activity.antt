-- ===== src/Client/Activity.antt =====
-- Activities, their results and the two messages, of internal/core/domain/activity.go, and the
-- executor without chaos of internal/adapters/activity/executor.go.
pub mod Laws
use Prim.Native.String.{◌++◌ as str_append}
use super_duper_bassoon.Common.{
  String, Bool, true, false, List, [], ◌∷◌, Option, none, some, if◌then◌else◌, str_eq,
}
use super_duper_bassoon.Common.Fault.{Result, ok, err, invalid_activity}
use super_duper_bassoon.Common.Float.{Floats}
use super_duper_bassoon.Common.Int.{ℤ, pos, eq_ℤ}
use super_duper_bassoon.Common.Dict.{insert, delete, lookup}
use super_duper_bassoon.Client.Value.{
  Value, null, text, bool, int, int64, float64, list, strings, object, labels, Fields, end, field,
  get,
}
use super_duper_bassoon.Client.State.{ClientState, clone, on, restarting, mode_none}

-- `other` holds a string that names none of the activities.
pub data ActivityType : Type 0 where
  reboot install_package upgrade_package remove_package : ActivityType
  apply_config validate_config run_script : ActivityType
  other : String → ActivityType

unfoldable pub activity-IsValid : ActivityType → Bool
activity-IsValid (other s) = false
activity-IsValid _ = true

pub record Activity (F : Type 0) : Type 0 where
  pub kind : ActivityType
  pub params : Fields F

pub data ResultStatus : Type 0 where
  success fail error : ResultStatus
  other_status : String → ResultStatus

unfoldable pub status-IsValid : ResultStatus → Bool
status-IsValid (other_status s) = false
status-IsValid _ = true

-- ErrorMsg is the empty string and Payload is nil (`end`) where the source leaves them out.
pub record ActivityResult (F : Type 0) : Type 0 where
  pub status : ResultStatus
  pub payload : Fields F
  pub error_msg : String

pub record DispatchMessage (F : Type 0) : Type 0 where
  pub run_id : String
  pub wf_id : String
  pub client_id : String
  pub activity : Activity F

pub record ResultMessage (F : Type 0) : Type 0 where
  pub run_id : String
  pub wf_id : String
  pub client_id : String
  pub status : ResultStatus
  pub inner_state : Option ClientState
  pub error_msg : String
  pub payload : Fields F

-- `s, ok := v.(string)` on the entry of a map, with "" where it fails
unfoldable pub text_or_empty : {F : Type 0} → Option (Value F) → String
text_or_empty (some (text s)) = s
text_or_empty _ = ""

unfoldable pub extract_package_params : {F : Type 0} → Activity F → String × String
unfolding text_or_empty
extract_package_params a =
    (text_or_empty (get "package" a.params), text_or_empty (get "version" a.params))

abbrev pub succeed : {F : Type 0} → Fields F → ActivityResult F
succeed p = record { status = success; payload = p; error_msg = "" }

abbrev pub refuse : {F : Type 0} → ResultStatus → String → ActivityResult F
refuse s m = record { status = s; payload = end; error_msg = m }

unfoldable pub execute_reboot : {F : Type 0} → ClientState → ClientState × ActivityResult F
execute_reboot s =
    let s₁ = record s { power_state = restarting } in
    let s₂ = record s₁ {
      is_crippled = false;
      cripple_mode = mode_none;
      cripple_recovery_attempts = pos 0;
    } in
    (record s₂ { power_state = on }, succeed end)

abbrev pub or_latest : String → String
or_latest version = if str_eq version "" then "latest" else version

-- What executeInstallPackage does with the parameters it read.
unfoldable pub install_named :
    {F : Type 0} → String → String → ClientState → ClientState × ActivityResult F
install_named pkg version s =
    if str_eq pkg ""
    then (s, refuse error "missing package name")
    else elim (lookup pkg s.packages) [
      | some v ↦ (s, refuse fail (str_append "package already installed: " pkg))
      | none ↦ (
        record s { packages = insert pkg (or_latest version) s.packages },
        succeed (field "package" (text pkg) (field "version" (text (or_latest version)) end)),
      )
    ]

unfoldable pub execute_install_package :
    {F : Type 0} → Activity F → ClientState → ClientState × ActivityResult F
unfolding install_named
execute_install_package a s =
    let (pkg, version) = extract_package_params a in install_named pkg version s

-- What executeUpgradePackage does with the parameters it read.
unfoldable pub upgrade_named :
    {F : Type 0} → String → String → ClientState → ClientState × ActivityResult F
upgrade_named pkg version s =
    if str_eq pkg ""
    then (s, refuse error "missing package name")
    else elim (lookup pkg s.packages) [
      | none ↦ (s, refuse fail (str_append "package not installed: " pkg))
      | some v ↦ (
        record s { packages = insert pkg (or_latest version) s.packages },
        succeed (field "package" (text pkg) (field "version" (text (or_latest version)) end)),
      )
    ]

unfoldable pub execute_upgrade_package :
    {F : Type 0} → Activity F → ClientState → ClientState × ActivityResult F
unfolding upgrade_named
execute_upgrade_package a s =
    let (pkg, version) = extract_package_params a in upgrade_named pkg version s

-- What executeRemovePackage does with the parameters it read.
unfoldable pub remove_named : {F : Type 0} → String → ClientState → ClientState × ActivityResult F
remove_named pkg s =
    if str_eq pkg ""
    then (s, refuse error "missing package name")
    else elim (lookup pkg s.packages) [
      | none ↦ (s, refuse fail (str_append "package not installed: " pkg))
      | some v ↦
          (record s { packages = delete pkg s.packages }, succeed (field "package" (text pkg) end))
    ]

unfoldable pub execute_remove_package :
    {F : Type 0} → Activity F → ClientState → ClientState × ActivityResult F
unfolding remove_named
execute_remove_package a s = let (pkg, version) = extract_package_params a in remove_named pkg s

unfoldable pub execute_run_script :
    {F : Type 0} → Activity F → ClientState → ClientState × ActivityResult F
unfolding text_or_empty
execute_run_script a s =
    let script = text_or_empty (get "script" a.params) in
    (
      s,
      succeed (
          field "exit_code" (int (pos 0)) (
            field "stdout" (text (str_append "script executed: " script))
              (field "stderr" (text "") end))),
    )

module _ (fl : Floats) where
  open fl use {Float, to_int}

  -- The two type assertions of extractConfigVersion; an int64 is neither.
  unfoldable pub config_version_of : Option (Value Float) → ℤ
  config_version_of (some (int v)) = v
  config_version_of (some (float64 v)) = to_int v
  config_version_of _ = pos 0

  unfoldable pub extract_config_version : Activity Float → ℤ
  unfolding config_version_of
  extract_config_version a = config_version_of (get "config_version" a.params)

  unfoldable pub execute_apply_config :
      Activity Float → ClientState → ClientState × ActivityResult Float
  execute_apply_config a s =
      let version = extract_config_version a in
      (record s { config_version = version }, succeed (field "config_version" (int version) end))

  unfoldable pub execute_validate_config :
      Activity Float → ClientState → ClientState × ActivityResult Float
  execute_validate_config a s =
      let expected = extract_config_version a in
      if eq_ℤ s.config_version expected
      then (s, succeed (field "config_version" (int s.config_version) end))
      else (
        s,
        record {
          status = fail;
          error_msg = "config version mismatch";
          payload = field "expected" (int expected) (field "actual" (int s.config_version) end);
        },
      )

  unfoldable pub execute_kind :
      ActivityType → Activity Float → ClientState → ClientState × ActivityResult Float
  execute_kind reboot a s = execute_reboot s
  execute_kind install_package a s = execute_install_package a s
  execute_kind upgrade_package a s = execute_upgrade_package a s
  execute_kind remove_package a s = execute_remove_package a s
  execute_kind apply_config a s = execute_apply_config a s
  execute_kind validate_config a s = execute_validate_config a s
  execute_kind run_script a s = execute_run_script a s
  execute_kind (other name) a s = (s, refuse error (str_append "unknown activity type: " name))

  -- The switch of ExecuteActivity, on a copy of the state.
  unfoldable pub execute_activity :
      Activity Float → ClientState → ClientState × ActivityResult Float
  unfolding execute_kind
  execute_activity a s = execute_kind a.kind a (clone s)

  -- StandardExecutor.Execute
  unfoldable pub standard_execute :
      String → Activity Float → ClientState → Result (ClientState × ActivityResult Float)
  standard_execute client_id a s =
      if activity-IsValid a.kind then ok (execute_activity a s) else err invalid_activity
