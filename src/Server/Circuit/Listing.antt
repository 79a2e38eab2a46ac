-- ===== src/Server/Circuit/Listing.antt =====
-- ListCircuitStates of internal/adapters/repository/circuit_repo.go, and EvaluateAllWorkflows of
-- internal/core/services/circuit_breaker.go.
use super_duper_bassoon.Common.{
  String, Bool, false, List, [], ◌∷◌, Option, none, some, if◌then◌else◌, str_eq, ◌||◌,
}
use super_duper_bassoon.Common.Dict.{Dict}
use super_duper_bassoon.Common.Fault.{Fault, Result, ok, err}
use super_duper_bassoon.Common.Float.{Floats}
use super_duper_bassoon.Common.Time.{Time}
use super_duper_bassoon.Server.Workflow.{Workflow}
use super_duper_bassoon.Server.Workflow.Table.{list_workflows_by_type}
use super_duper_bassoon.Server.Health.{TypeHealth}
use super_duper_bassoon.Server.Health.Table.{get_workflow_type_health}
use super_duper_bassoon.Server.Circuit.{
  Breaker, CircuitAnswers, CircuitConfig, CircuitWorld, evaluate_workflow_type,
}

unfoldable pub breakers : Dict Breaker → List Breaker
breakers [] = []
breakers ((id, b) ∷ t) = b ∷ breakers t

unfoldable pub list_circuit_states : Option Fault → Dict Breaker → Result (List Breaker)
unfolding breakers
list_circuit_states (some e) t = err e
list_circuit_states none t = ok (breakers t)

unfoldable pub type_seen : String → List String → Bool
type_seen workflow_type [] = false
type_seen workflow_type (s ∷ seen) = str_eq s workflow_type || type_seen workflow_type seen

module _ (fl : Floats) (cfg : CircuitConfig fl.Float) where
  open fl use {Float}

  -- The loop over the workflows, with the types seen; the error of an evaluation is dropped.
  unfoldable pub evaluate_types :
      CircuitAnswers
      → (String → Option Fault)
      → (String → Option Fault)
      → Time
      → List (TypeHealth Float)
      → List (Workflow Float)
      → List String
      → List (Workflow Float)
      → CircuitWorld
      → CircuitWorld
  unfolding type_seen
  evaluate_types db db_health db_list now healths table seen [] c = c
  evaluate_types db db_health db_list now healths table seen (w ∷ ws) c =
      let evaluated =
        (evaluate_workflow_type fl cfg db now none
          (get_workflow_type_health (db_health w.workflow_type) w.workflow_type healths)
          (list_workflows_by_type (db_list w.workflow_type) w.workflow_type table) c).1 in
      let rest =
        evaluate_types db db_health db_list now healths table (w.workflow_type ∷ seen) ws
          evaluated in
      let skipped = evaluate_types db db_health db_list now healths table seen ws c in
      if type_seen w.workflow_type seen then skipped else rest

  unfoldable pub evaluate_all_workflows :
      CircuitAnswers
      → (String → Option Fault)
      → (String → Option Fault)
      → Time
      → List (TypeHealth Float)
      → List (Workflow Float)
      → Result (List (Workflow Float))
      → CircuitWorld
      → Result (Unit {0}) × CircuitWorld
  unfolding evaluate_types
  evaluate_all_workflows db db_health db_list now healths table (err e) c = (err e, c)
  evaluate_all_workflows db db_health db_list now healths table (ok ws) c =
      (ok tt, evaluate_types db db_health db_list now healths table [] ws c)
