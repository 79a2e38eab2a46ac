-- ===== src/Server/Settings.antt =====
-- Config of cmd/config.go. The environment and the readers of strconv are parameters.
use super_duper_bassoon.Common.{
  String, Bool, true, false, Option, none, some, if◌then◌else◌, str_eq, not, ◌||◌, ◌≡◌, arith, ◌↔◌,
  sym, ap, ◌∙◌,
}
use super_duper_bassoon.Common.Fault.{Result, ok, err, invalid_request}
use super_duper_bassoon.Common.Float.{Floats}
use super_duper_bassoon.Common.Int.{ℤ, pos, ltb_ℤ, ◌≤ℤ◌}
use super_duper_bassoon.Server.Workflow.{out_of_range}

-- os.LookupEnv and the readers, `none` for an error
pub record Environment (F : Type 0) : Type 0 where
  pub lookup_env : String → Option String
  pub atoi : String → Option ℤ
  pub parse_int : String → Option ℤ
  pub parse_float : String → Option F
  pub parse_bool : String → Option Bool

pub record Config (F : Type 0) : Type 0 where
  pub http_host : String
  pub http_port : ℤ
  pub http_read_timeout_ms : ℤ
  pub db_path : String
  pub nats_url : String
  pub trigger_check_interval_ms : ℤ
  pub health_aggregation_interval_ms : ℤ
  pub health_window_size : ℤ
  pub health_success_threshold : F
  pub circuit_breaker_check_interval_ms : ℤ
  pub circuit_breaker_success_threshold : F
  pub circuit_breaker_cooldown_ms : ℤ
  pub loop_threshold_ms : ℤ
  pub log_level : String
  pub shutdown_timeout_ms : ℤ
  pub start_nats : Bool

abbrev pub if_read : {A : Type 0} → A → Option A → A
if_read default none = default
if_read default (some a) = a

-- A variable that is not set, is empty or does not parse is the default.
unfoldable pub read_or : {A : Type 0} → (String → Option A) → A → Option String → A
read_or read default none = default
read_or read default (some s) = if not (str_eq s "") then if_read default (read s) else default

module _ {F : Type 0} (env : Environment F) where
  unfoldable pub env_str : String → String → String
  env_str key default = read_or (λ s. some s) default (env.lookup_env key)

  unfoldable pub env_int : String → ℤ → ℤ
  env_int key default = read_or env.atoi default (env.lookup_env key)

  unfoldable pub env_int64 : String → ℤ → ℤ
  env_int64 key default = read_or env.parse_int default (env.lookup_env key)

  unfoldable pub env_float : String → F → F
  env_float key default = read_or env.parse_float default (env.lookup_env key)

  unfoldable pub env_bool : String → Bool → Bool
  env_bool key default = read_or env.parse_bool default (env.lookup_env key)

unfoldable pub known_level : String → Bool
known_level level =
    str_eq level "debug" || str_eq level "info" || str_eq level "warn" || str_eq level "error"

module _ (fl : Floats) (env : Environment fl.Float) where
  open fl use {Float, of_int}

  unfoldable pub read_config : Config Float
  unfolding env_str env_int env_int64 env_float env_bool
  read_config = record {
    http_host = env_str env "HTTP_HOST" "0.0.0.0";
    http_port = env_int env "HTTP_PORT" (pos 8080);
    http_read_timeout_ms = env_int64 env "HTTP_READ_TIMEOUT_MS" (pos 30000);
    db_path = env_str env "DB_PATH" "./data/server.db";
    nats_url = env_str env "NATS_URL" "nats://localhost:4222";
    trigger_check_interval_ms = env_int64 env "TRIGGER_CHECK_INTERVAL_MS" (pos 5000);
    health_aggregation_interval_ms = env_int64 env "HEALTH_AGGREGATION_INTERVAL_MS" (pos 5000);
    health_window_size = env_int env "HEALTH_WINDOW_SIZE" (pos 10);
    health_success_threshold = env_float env "HEALTH_SUCCESS_THRESHOLD" (of_int (pos 80));
    circuit_breaker_check_interval_ms =
        env_int64 env "CIRCUIT_BREAKER_CHECK_INTERVAL_MS" (pos 10000);
    circuit_breaker_success_threshold =
        env_float env "CIRCUIT_BREAKER_SUCCESS_THRESHOLD" (of_int (pos 80));
    circuit_breaker_cooldown_ms = env_int64 env "CIRCUIT_BREAKER_COOLDOWN_MS" (pos 300000);
    loop_threshold_ms = env_int64 env "LOOP_THRESHOLD_MS" (pos 5000);
    log_level = env_str env "LOG_LEVEL" "info";
    shutdown_timeout_ms = env_int64 env "SHUTDOWN_TIMEOUT_MS" (pos 30000);
    start_nats = env_bool env "START_NATS" true;
  }

  -- The checks of LoadConfig. The texts of its errors are left out.
  unfoldable pub check_config : Config Float → Result (Config Float)
  unfolding known_level
  check_config c =
      if ltb_ℤ c.http_port (pos 1) || ltb_ℤ (pos 65535) c.http_port
      then err invalid_request
      else if out_of_range fl c.health_success_threshold
      then err invalid_request
      else if known_level c.log_level
      then ok c
      else err invalid_request

  unfoldable pub load_config : Result (Config Float)
  unfolding check_config read_config
  load_config = check_config read_config

  -- What the checks ask.
  abbrev pub IsUsable : Config Float → Type 0
  IsUsable c =
      (pos 1 ≤ℤ c.http_port)
      × (c.http_port ≤ℤ pos 65535)
      × (out_of_range fl c.health_success_threshold ≡ false)
      × (known_level c.log_level ≡ true)

  check-IsUsable : (d c : Config Float) → check_config d ≡ ok c → (c ≡ d) × IsUsable d
  unfolding check_config
  check-IsUsable d c h = (ground arith, (ground arith, ground arith, ground arith, ground arith))

  usable-check : (d : Config Float) → IsUsable d → check_config d ≡ ok d
  unfolding check_config
  usable-check d h = ground arith

  -- A configuration is loaded just where the port that is read lies between 1 and 65535, the health
  -- threshold is a percentage and the log level is one of the four; it is then what was read.
  pub load_config_iff :
      (c : Config Float) → (load_config ≡ ok c) ↔ ((c ≡ read_config) × IsUsable read_config)
  unfolding load_config
  load_config_iff c =
      (check-IsUsable read_config c, λ h. usable-check read_config h.1 ∙ ap (λ d. ok d) (sym h.0))
