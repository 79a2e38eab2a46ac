-- ===== src/Client/Chaos.antt =====
-- internal/core/domain/chaos.go, and the executor with chaos of
-- internal/adapters/activity/chaos_executor.go. A ChaosSource is a parameter with a state `S`, which
-- each draw passes on; so is the runtime's choice of the first key of a map.
pub mod Draws
pub mod Laws
pub mod Recovery
use super_duper_bassoon.Common.{
  ℕ, zero, suc, String, Bool, true, false, List, [], ◌∷◌, Option, none, some, if◌then◌else◌, length,
  get_elem?,
}
use Prim.Native.String.{◌++◌ as str_append}
use super_duper_bassoon.Common.Fault.{Result, ok, err, panic}
use super_duper_bassoon.Common.Float.{Floats}
use super_duper_bassoon.Common.Int.{incr}
use super_duper_bassoon.Common.Dict.{Dict, insert, delete}
use super_duper_bassoon.Client.State.{
  ClientState, CrippleMode, clone, mode_none, fail_package_ops, fail_config, silent,
}
use super_duper_bassoon.Client.Value.{end}
use super_duper_bassoon.Client.Activity.{
  Activity, ActivityType, ActivityResult, reboot, install_package, upgrade_package, remove_package,
  apply_config, validate_config, run_script, other, success, fail, succeed, refuse,
  standard_execute,
}
use Draws.{ChaosSource, M, ◌>>=◌, pure, lift, draw}

unfoldable pub is_package_op : ActivityType → Bool
is_package_op install_package = true
is_package_op upgrade_package = true
is_package_op remove_package = true
is_package_op _ = false

unfoldable pub is_config_op : ActivityType → Bool
is_config_op apply_config = true
is_config_op validate_config = true
is_config_op _ = false

mode_blocks : CrippleMode → ActivityType → Bool
mode_blocks fail_package_ops kind = is_package_op kind
mode_blocks fail_config kind = is_config_op kind
mode_blocks silent kind = true
mode_blocks mode_none kind = false

unfoldable pub is_crippled_for_activity : ClientState → ActivityType → Bool
unfolding mode_blocks is_package_op is_config_op
is_crippled_for_activity s kind = if s.is_crippled then mode_blocks s.cripple_mode kind else false

abbrev pub is_silent : CrippleMode → Bool
is_silent silent = true
is_silent _ = false

unfoldable pub mode_text : CrippleMode → String
mode_text mode_none = ""
mode_text fail_package_ops = "fail_package_ops"
mode_text fail_config = "fail_config"
mode_text silent = "silent"

abbrev pub cripple_modes : List CrippleMode
cripple_modes = fail_package_ops ∷ fail_config ∷ silent ∷ []

abbrev pub drift_packages : List String
drift_packages = "curl" ∷ "wget" ∷ "vim" ∷ "jq" ∷ "htop" ∷ "tree" ∷ "tmux" ∷ []

-- xs[i], which stops the program out of range
unfoldable pub at : {A : Type 0} → List A → ℕ → Result A
at [] i = err panic
at (x ∷ xs) zero = ok x
at (x ∷ xs) (suc i) = at xs i

-- The removal of the first key that the iteration meets, if there is one.
unfoldable pub drop_first : Option String → Dict String → Dict String
drop_first none m = m
drop_first (some k) m = delete k m

module _ (fl : Floats) {S : Type 0} (src : ChaosSource fl S) where
  open fl use {Float, flt, decimal}
  open src use {float64, intn, range_first}

  unfoldable pub should_activity_fail : M S Bool
  should_activity_fail = do x ← draw float64; pure (flt x (decimal 10 2))

  unfoldable pub should_cripple_client : Bool → M S Bool
  should_cripple_client did_fail =
      if did_fail then (do x ← draw float64; pure (flt x (decimal 3 2))) else pure false

  unfoldable pub select_cripple_mode : M S CrippleMode
  select_cripple_mode = do i ← draw (intn (length cripple_modes)); lift (at cripple_modes i)

  unfoldable pub should_drift_state : M S Bool
  should_drift_state = do x ← draw float64; pure (flt x (decimal 75 3))

  unfoldable pub random_drift_package : M S String
  random_drift_package = do i ← draw (intn (length drift_packages)); lift (at drift_packages i)

  unfoldable pub drift_by : ℕ → ClientState → M S ClientState
  drift_by zero s = pure (record s { config_version = incr s.config_version })
  drift_by (suc zero) s = do
    name ← random_drift_package
    pure (record s { packages = insert name "drifted" s.packages })
  drift_by (suc (suc zero)) s = do
    first ← draw (range_first s.packages)
    pure (record s { packages = drop_first first s.packages })
  drift_by _ s = pure s

  unfoldable pub apply_drift : ClientState → M S ClientState
  apply_drift s = do choice ← draw (intn 3); drift_by choice (clone s)

  -- The draws of a random failure, which may cripple the client.
  unfoldable pub failed_state : ClientState → M S ClientState
  failed_state s = do
    cripple ← should_cripple_client true
    if cripple
        then (do
          mode ← select_cripple_mode
          pure (record s { is_crippled = true; cripple_mode = mode }))
        else pure s

  unfoldable pub drift_after : ClientState → M S ClientState
  drift_after s = do drifts ← should_drift_state; if drifts then apply_drift s else pure s

  -- ChaosExecutor.Execute around the executor `inner`
  unfoldable pub chaos_execute :
      (String → Activity Float → ClientState → Result (ClientState × ActivityResult Float))
      → String
      → Activity Float
      → ClientState
      → M S (ClientState × ActivityResult Float)
  unfolding failed_state drift_after
  chaos_execute inner client_id a s =
      if is_crippled_for_activity s a.kind
      then (if is_silent s.cripple_mode
          then pure (clone s, succeed end)
          else pure
              (clone s, refuse fail (str_append "client is crippled: " (mode_text s.cripple_mode))))
      else (do
        fails ← should_activity_fail
        if fails
            then (do
              failed ← failed_state (clone s)
              pure (failed, refuse fail "chaos: random failure injected"))
            else (do r ← lift (inner client_id a s); s' ← drift_after r.0; pure (s', r.1)))
