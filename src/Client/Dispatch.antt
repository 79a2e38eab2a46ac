-- ===== src/Client/Dispatch.antt =====
-- internal/core/services/dispatch.go and state_orchestrator.go: a dispatch is checked and carried
-- out by an executor, which draws from a source with the state `S`; a drift may also come by itself.
use super_duper_bassoon.Common.{String, Bool, true, false, some, if◌then◌else◌, str_eq, ◌&&◌, not}
use super_duper_bassoon.Common.Fault.{
  Result, ok, err, missing_run_id, missing_wf_id, missing_client_id, invalid_activity,
}
use super_duper_bassoon.Common.Float.{Floats}
use super_duper_bassoon.Client.State.{ClientState}
use super_duper_bassoon.Client.Activity.{
  Activity, ActivityType, ActivityResult, DispatchMessage, activity-IsValid, reboot,
}
use super_duper_bassoon.Client.Store.{MemoryStore, get_state, update_state}
use super_duper_bassoon.Client.Chaos.Draws.{ChaosSource, M, pure, lift, ◌>>=◌}
use super_duper_bassoon.Client.Chaos.{should_drift_state, apply_drift}

abbrev pub Executor : Type 0 → Type 0 → Type 0
Executor F S = String → Activity F → ClientState → M S (ClientState × ActivityResult F)

unfoldable pub validate_dispatch : {F : Type 0} → DispatchMessage F → Result (Unit {0})
validate_dispatch d =
    if str_eq d.run_id ""
    then err missing_run_id
    else if str_eq d.wf_id ""
    then err missing_wf_id
    else if str_eq d.client_id ""
    then err missing_client_id
    else if activity-IsValid d.activity.kind
    then ok tt
    else err invalid_activity

-- DispatchHandler.Handle, over the store that it reads
unfoldable pub handle :
    {F S : Type 0}
    → Executor F S
    → MemoryStore
    → DispatchMessage F
    → M S (ClientState × ActivityResult F)
handle execute store d = do
  checked ← lift (validate_dispatch d)
  state ← lift (get_state d.client_id store)
  execute d.client_id d.activity state

unfoldable pub apply_activity_result : String → ClientState → MemoryStore → Result MemoryStore
apply_activity_result id new_state store = update_state id (some new_state) store

abbrev pub is_reboot : ActivityType → Bool
is_reboot reboot = true
is_reboot _ = false

unfoldable pub check_recovery_from_cripple :
    {F : Type 0} → ClientState → ClientState → Activity F → Bool
check_recovery_from_cripple prev new a =
    if is_reboot a.kind then prev.is_crippled && not new.is_crippled else false

module _ (fl : Floats) {S : Type 0} (src : ChaosSource fl S) where
  -- Whether a drift was applied, and the store after it.
  unfoldable pub apply_drift_if_needed : String → MemoryStore → M S (Bool × MemoryStore)
  apply_drift_if_needed id store = do
    drifts ← should_drift_state fl src
    if drifts
        then (do
          state ← lift (get_state id store)
          drifted ← apply_drift fl src state
          store' ← lift (update_state id (some drifted) store)
          pure (true, store'))
        else pure (false, store)
