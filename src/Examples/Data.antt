-- ===== src/Examples/Data.antt =====
-- The parameters and the states that the examples share.
use super_duper_bassoon.Common.{
  ℕ, ◌+◌, ◌-◌, ◌*◌, ◌/◌, ◌%◌, ◌^◌, String, true, false, [], ◌∷◌, Option, none, some, ◌≡◌, ◌≢◌,
  arith, str_eq, eq_iff,
}
use super_duper_bassoon.Common.Float.{Floats}
use super_duper_bassoon.Common.Int.{ℤ, pos, ◌+ℤ◌, ◌-ℤ◌, ◌*ℤ◌, eq_ℤ, ltb_ℤ, leb_ℤ}
use super_duper_bassoon.Common.Dict.{Dict}
use super_duper_bassoon.Client.State.{ClientState, on, mode_none, fail_config, silent}
use super_duper_bassoon.Client.Value.{text, end, field}
use super_duper_bassoon.Client.Activity.{Activity, DispatchMessage, reboot, install_package}
use super_duper_bassoon.Client.Chaos.Draws.{ChaosSource, IsRandom}
use super_duper_bassoon.Client.Pool.{Pool}

-- Numbers with three digits behind the point.
abbrev pub thousandths : Floats
thousandths = record {
  Float = ℤ;
  of_int = λ n. n *ℤ pos 1000;
  decimal = λ m k. pos (m * 1000 / 10 ^ k);
  to_int = λ x. x;
  feq = eq_ℤ;
  flt = ltb_ℤ;
  fle = leb_ℤ;
  add = ◌+ℤ◌;
  sub = ◌-ℤ◌;
  mul = ◌*ℤ◌;
  div = λ x y. x;
  parse = λ s. none;
  print = λ x. "";
}

abbrev pub first_key : Dict String → Option String
first_key [] = none
first_key ((k, v) ∷ m) = some k

-- A source that counts its draws.
abbrev pub counter : ChaosSource thousandths ℕ
counter = record {
  float64 = λ n. (pos (n * 37 % 1000), n + 1);
  intn = λ k n. (k - 1, n + 1);
  range_first = λ m n. (first_key m, n + 1);
}

pub counter-IsRandom : IsRandom counter
counter-IsRandom = record { intn_below = λ n s h. omega arith }

abbrev pub healthy : ClientState
healthy = record {
  packages = ("curl", "latest") ∷ [];
  config_version = pos 1;
  power_state = on;
  is_crippled = false;
  cripple_mode = mode_none;
  cripple_recovery_attempts = pos 0;
}

abbrev pub config_broken : ClientState
config_broken = record healthy { is_crippled = true; cripple_mode = fail_config }

abbrev pub mute : ClientState
mute = record healthy { is_crippled = true; cripple_mode = silent }

abbrev pub install_vim : Activity ℤ
install_vim = record {
  kind = install_package;
  params = field "package" (text "vim") (field "version" (text "9") end);
}

abbrev pub restart : Activity ℤ
restart = record { kind = reboot; params = end }

abbrev pub to_client : String → Activity ℤ → DispatchMessage ℤ
to_client id a = record { run_id = "run"; wf_id = "wf"; client_id = id; activity = a }

abbrev pub two_clients : Pool ℤ ℕ
two_clients = record { store = ("a", healthy) ∷ ("b", mute) ∷ []; pending = []; source = 7 }

pub differ : (s t : String) → str_eq s t ≡ false → s ≢ t
differ s t h e = absurd (cc (h, (eq_iff s t).1 e))
