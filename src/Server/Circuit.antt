-- ===== src/Server/Circuit.antt =====
-- The circuit breaker: internal/core/domain/circuit.go, the table of
-- internal/adapters/repository/circuit_repo.go, and CircuitBreakerService of
-- internal/core/services/circuit_breaker.go. time.Now() is an argument, one for each evaluation.
-- The calls of the state manager, the alerts and the events are recorded in their order; their
-- errors are dropped. Each of the three is optional, as in the source.
pub mod Laws
pub mod Repeat
pub mod Listing
pub mod Effects
use super_duper_bassoon.Common.{
  ℕ, zero, suc, ◌+◌, ◌==◌, String, Bool, true, false, List, [], ◌∷◌, ◌++◌, Option, none, some,
  if◌then◌else◌, str_eq, not, ◌&&◌, ◌||◌,
}
use super_duper_bassoon.Common.Fault.{
  Fault, Result, ok, err, invalid_policy, circuit_state_not_found,
}
use super_duper_bassoon.Common.Dict.{Dict, lookup, insert}
use super_duper_bassoon.Common.Float.{Floats}
use super_duper_bassoon.Common.Int.{ℤ, pos, leb_ℤ, ltb_ℤ, incr}
use super_duper_bassoon.Common.Time.{Time, is_zero, sub_time}
use super_duper_bassoon.Server.Health.{TypeHealth}
use super_duper_bassoon.Server.Workflow.{Workflow, out_of_range}

-- `unknown` holds a string of the database that names none of the states.
pub data CircuitState : Type 0 where
  closed open_state half_open : CircuitState
  unknown : String → CircuitState

unfoldable pub can_dispatch : CircuitState → Bool
can_dispatch closed = true
can_dispatch half_open = true
can_dispatch _ = false

unfoldable pub same_state : CircuitState → CircuitState → Bool
same_state closed closed = true
same_state open_state open_state = true
same_state half_open half_open = true
same_state (unknown s) (unknown t) = str_eq s t
same_state _ _ = false

pub record Policy (F : Type 0) : Type 0 where
  pub success_threshold : F
  pub evaluation_window : ℤ
  pub cooldown_period : ℤ

pub record Breaker : Type 0 where
  pub workflow_id : String
  pub workflow_type : String
  pub state : CircuitState
  pub opened_at : Time
  pub last_evaluated_at : Time
  pub opened_reason : String
  pub evaluation_count : ℤ

unfoldable pub is_recovery_ready : ℤ → Time → Breaker → Bool
is_recovery_ready cooldown now b = elim b.state [
  | open_state ↦ if is_zero b.opened_at then true else leb_ℤ cooldown (sub_time now b.opened_at)
  | _ ↦ false
]

module _ (fl : Floats) where
  open fl use {Float, fle}

  unfoldable pub validate_policy : Policy Float → Result (Unit {0})
  validate_policy p =
      if out_of_range fl p.success_threshold
      then err invalid_policy
      else if ltb_ℤ p.evaluation_window (pos 0)
      then err invalid_policy
      else ok tt

  unfoldable pub is_healthy_enough : Policy Float → TypeHealth Float → Bool
  is_healthy_enough p h =
      if h.runs_considered == 0 then true else fle p.success_threshold h.success_percentage_avg

  unfoldable pub evaluate_known : Policy Float → TypeHealth Float → CircuitState
  unfolding is_healthy_enough
  evaluate_known p h =
      if h.runs_considered == 0
      then closed
      else if is_healthy_enough p h
      then closed
      else open_state

  -- `none` for a nil pointer
  unfoldable pub evaluate_health : Option (Policy Float) → Option (TypeHealth Float) → CircuitState
  evaluate_health (some p) (some h) = evaluate_known p h
  evaluate_health _ _ = closed

-- What the service does outside its table.
pub data Effect : Type 0 where
  deactivate activate : String → String → Effect
  opened_alert closed_alert : String → String → Effect
  changed : String → String → CircuitState → CircuitState → String → Effect

pub record CircuitWorld : Type 0 where
  pub table : Dict Breaker
  pub effects : List Effect

-- The services the breaker is built with, and the text of a reason. `policy_of` is `none` where
-- GetPolicy fails or returns nil.
pub record CircuitConfig (F : Type 0) : Type 0 where
  pub has_state_manager : Bool
  pub has_alerts : Bool
  pub has_events : Bool
  pub policy_of : String → Option (Policy F)
  pub default_policy : Policy F
  pub reason_text : TypeHealth F → Policy F → String

abbrev pub or_default : {A : Type 0} → A → Option A → A
or_default a none = a
or_default a (some b) = b

-- What the database answers to the two calls for one workflow.
pub record CircuitAnswers : Type 0 where
  pub get : String → Option Fault
  pub save : String → Option Fault

unfoldable pub stored_breaker : Option Breaker → Result Breaker
stored_breaker none = err circuit_state_not_found
stored_breaker (some b) = ok b

unfoldable pub get_circuit_state : Option Fault → String → Dict Breaker → Result Breaker
unfolding stored_breaker
get_circuit_state (some e) id t = err e
get_circuit_state none id t = stored_breaker (lookup id t)

-- LastEvaluatedAt is set where it is zero.
unfoldable pub stored_row : Time → Breaker → Breaker
stored_row now b = record b {
  last_evaluated_at = if is_zero b.last_evaluated_at then now else b.last_evaluated_at;
}

unfoldable pub save_circuit_state :
    Option Fault → Time → Breaker → Dict Breaker → Result (Dict Breaker)
save_circuit_state (some e) now b t = err e
save_circuit_state none now b t = ok (insert b.workflow_id (stored_row now b) t)

abbrev pub new_breaker : {F : Type 0} → Workflow F → Breaker
new_breaker w = record {
  workflow_id = w.id;
  workflow_type = w.workflow_type;
  state = closed;
  opened_at = 0;
  last_evaluated_at = 0;
  opened_reason = "";
  evaluation_count = pos 0;
}

abbrev pub or_new : {F : Type 0} → Workflow F → Result Breaker → Breaker
or_new w (ok b) = b
or_new w (err e) = new_breaker w

abbrev pub counted : Time → Breaker → Breaker
counted now b = record b { last_evaluated_at = now; evaluation_count = incr b.evaluation_count }

abbrev pub when : Bool → Effect → List Effect
when true e = e ∷ []
when false e = []

module _ (fl : Floats) (cfg : CircuitConfig (Floats.Float fl)) where
  open fl use {Float}

  -- The breaker after a change of state.
  unfoldable pub moved : Time → CircuitState → String → Breaker → Breaker
  moved now open_state reason b = record b {
    state = open_state;
    opened_at = now;
    opened_reason = reason;
  }
  moved now closed reason b = record b { state = closed; opened_at = 0; opened_reason = "" }
  moved now s reason b = record b { state = s }

  unfoldable pub change_effects :
      Workflow Float → CircuitState → CircuitState → String → List Effect
  change_effects w old open_state reason =
      when cfg.has_state_manager (deactivate w.id reason)
      ++ (when cfg.has_alerts (opened_alert w.id reason)
          ++ when cfg.has_events (changed w.id w.workflow_type old open_state reason))
  change_effects w old closed reason =
      when cfg.has_state_manager (activate w.id "circuit recovered")
      ++ (when cfg.has_alerts (closed_alert w.id w.workflow_type)
          ++ when cfg.has_events (changed w.id w.workflow_type old closed reason))
  change_effects w old s reason = when cfg.has_events (changed w.id w.workflow_type old s reason)

  unfoldable pub policy_for : Workflow Float → Policy Float
  policy_for w = or_default cfg.default_policy (cfg.policy_of w.id)

  unfoldable pub settle :
      Time → CircuitState → String → Workflow Float → Breaker → Breaker × List Effect
  settle now new reason w b =
      if same_state b.state new
      then (b, [])
      else (moved now new reason b, change_effects w b.state new reason)

  -- The body of the loop up to the save: the breaker to save and the effects.
  unfoldable pub judge : Time → TypeHealth Float → Workflow Float → Breaker → Breaker × List Effect
  judge now h w b =
      let p = policy_for w in
      let new = evaluate_health fl (some p) (some h) in
      let reason = cfg.reason_text h p in settle now new reason w (counted now b)

  unfoldable pub evaluate_one :
      CircuitAnswers
      → Time
      → TypeHealth Float
      → Workflow Float
      → CircuitWorld
      → Result (Unit {0}) × CircuitWorld
  evaluate_one db now h w c =
      let judged = judge now h w (or_new w (get_circuit_state (db.get w.id) w.id c.table)) in
      let effects = c.effects ++ judged.1 in
      elim (save_circuit_state (db.save w.id) now judged.0 c.table) [
        | err e ↦ (err e, record c { effects = effects })
        | ok table ↦ (ok tt, record { table = table; effects = effects })
      ]

  unfoldable pub evaluate_loop :
      CircuitAnswers
      → Time
      → TypeHealth Float
      → List (Workflow Float)
      → CircuitWorld
      → Result (Unit {0}) × CircuitWorld
  evaluate_loop db now h [] c = (ok tt, c)
  evaluate_loop db now h (w ∷ ws) c =
      let (r, c') = evaluate_one db now h w c in
      let rest = evaluate_loop db now h ws c' in elim r [ err e ↦ (err e, c') | ok u ↦ rest ]

  -- EvaluateWorkflowType: `given` is the health of the event, if there is one, `stored` what
  -- GetWorkflowTypeHealth answers, and `workflows` what ListWorkflowsByType does.
  unfoldable pub evaluate_workflow_type :
      CircuitAnswers
      → Time
      → Option (TypeHealth Float)
      → Result (TypeHealth Float)
      → Result (List (Workflow Float))
      → CircuitWorld
      → Result (Unit {0}) × CircuitWorld
  evaluate_workflow_type db now (some h) stored (err e) c = (err e, c)
  evaluate_workflow_type db now (some h) stored (ok ws) c = evaluate_loop db now h ws c
  evaluate_workflow_type db now none (err e) workflows c = (ok tt, c)
  evaluate_workflow_type db now none (ok h) (err e) c = (err e, c)
  evaluate_workflow_type db now none (ok h) (ok ws) c = evaluate_loop db now h ws c
