-- ===== src/Client/State.antt =====
-- ClientState and InnerClient of internal/core/domain/inner_client.go.
use super_duper_bassoon.Common.{String, Bool, true, false, [], ◌∷◌, ◌≡◌, refl, arith}
use super_duper_bassoon.Common.Int.{ℤ, pos}
use super_duper_bassoon.Common.Dict.{Dict}

pub data PowerState : Type 0 where
  on off restarting : PowerState

-- CrippleModeNone is the empty string, `mode_none`.
pub data CrippleMode : Type 0 where
  mode_none fail_package_ops fail_config silent : CrippleMode

pub record ClientState : Type 0 where
  pub packages : Dict String
  pub config_version : ℤ
  pub power_state : PowerState
  pub is_crippled : Bool
  pub cripple_mode : CrippleMode
  pub cripple_recovery_attempts : ℤ

pub record InnerClient : Type 0 where
  pub client_id : String
  pub state : ClientState

unfoldable pub new_inner_client : String → InnerClient
new_inner_client id = record {
  client_id = id;
  state = record {
    packages = [];
    config_version = pos 1;
    power_state = on;
    is_crippled = false;
    cripple_mode = mode_none;
    cripple_recovery_attempts = pos 0;
  };
}

-- The loop that fills the map of the copy.
unfoldable pub copy_packages : Dict String → Dict String
copy_packages [] = []
copy_packages ((k, v) ∷ m) = (k, v) ∷ copy_packages m

unfoldable pub clone : ClientState → ClientState
clone s = record {
  packages = copy_packages s.packages;
  config_version = s.config_version;
  power_state = s.power_state;
  is_crippled = s.is_crippled;
  cripple_mode = s.cripple_mode;
  cripple_recovery_attempts = s.cripple_recovery_attempts;
}

copy_packages_lem : (m : Dict String) → copy_packages m ≡ m
unfolding copy_packages
copy_packages_lem [] = refl
copy_packages_lem ((k, v) ∷ m) = ground (arith, copy_packages_lem m)

-- A copy holds the values of the original.
pub clone_lem : (s : ClientState) → clone s ≡ s
unfolding clone
clone_lem s = ground (arith, copy_packages_lem s.packages)

abbrev pub Agree : Bool → CrippleMode → Type 0
Agree false mode_none = Unit {0}
Agree false _ = ⊥
Agree true mode_none = ⊥
Agree true _ = Unit {0}

-- What a crippled client is: the flag is set exactly when a mode is.
abbrev pub IsConsistent : ClientState → Type 0
IsConsistent s = Agree s.is_crippled s.cripple_mode
