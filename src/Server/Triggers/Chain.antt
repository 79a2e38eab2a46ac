-- ===== src/Server/Triggers/Chain.antt =====
-- onWorkflowCompleted, which TriggerWorkflow's own event calls before TriggerWorkflow returns. `once`
-- is TriggerWorkflow up to the event: whether it publishes one, and the state. `active` is
-- ListActiveWorkflows. The fuel bounds how deep one TriggerWorkflow stands in another.
use super_duper_bassoon.Common.{
  ℕ, zero, suc, ◌<◌, String, Bool, true, false, List, [], ◌∷◌, Option, none, some, ◌≡◌, refl, arith,
  Bool-cases, inl, inr, All, All-map,
}
use super_duper_bassoon.Common.Fault.{Result, ok, err, Result-cases}
use super_duper_bassoon.Server.Workflow.{Workflow}
use super_duper_bassoon.Server.Triggers.{Reason, on_event, chained}

module _ {F S : Type 0} (active : S → Result (List (Workflow F)))
    (once : String → Reason → S → Bool × S) where
  -- The loop over the active workflows; `fire` is the TriggerWorkflow of the next level.
  unfoldable pub chain_loop : (String → S → Option S) → String → List (Workflow F) → S → Option S
  chain_loop fire completed [] s = some s
  chain_loop fire completed (w ∷ ws) s = elim (chained completed w) [
    | false ↦ chain_loop fire completed ws s
    | true ↦ elim (fire w.id s) [ none ↦ none | some s' ↦ chain_loop fire completed ws s' ]
  ]

  unfoldable pub on_workflow_completed : (String → S → Option S) → String → S → Option S
  unfolding chain_loop
  on_workflow_completed fire completed s = elim (active s) [
    | err e ↦ some s
    | ok ws ↦ chain_loop fire completed ws s
  ]

  -- `none` means that the fuel ran out.
  unfoldable pub trigger_and_chain : ℕ → String → Reason → S → Option S
  trigger_and_chain zero id reason s = none
  trigger_and_chain (suc fuel) id reason s = elim ((once id reason s).0) [
    | false ↦ some (once id reason s).1
    | true ↦
        on_workflow_completed (λ next s'. trigger_and_chain fuel next (on_event id) s') id
          (once id reason s).1
  ]

  Returns : Option S → Type 0
  Returns o = (s : S) × (o ≡ some s)

  loop-Returns :
      (fire : String → S → Option S) (completed : String) (ws : List (Workflow F)) (s : S)
      → All (λ w. chained completed w ≡ true → (s' : S) → Returns (fire w.id s')) ws
      → Returns (chain_loop fire completed ws s)
  unfolding chain_loop Returns
  loop-Returns fire completed [] s h = (s, refl)
  loop-Returns fire completed (w ∷ ws) s h = elim (Bool-cases (chained completed w)) [
    | inr e ↦ rw (chain_loop, e) (loop-Returns fire completed ws s h.1)
    | inl e ↦
        let fired = h.0 e s in
        rw (chain_loop, e, fired.1) (loop-Returns fire completed ws fired.0 h.1)
  ]

  completed-Returns :
      (fire : String → S → Option S) (completed : String) (s : S)
      → ((ws : List (Workflow F))
          → active s ≡ ok ws
          → All (λ w. chained completed w ≡ true → (s' : S) → Returns (fire w.id s')) ws)
      → Returns (on_workflow_completed fire completed s)
  unfolding on_workflow_completed Returns
  completed-Returns fire completed s h = elim (Result-cases (active s)) [
    | inr (e, q) ↦ rw (on_workflow_completed, q) (s, refl)
    | inl (ws, q) ↦ rw (on_workflow_completed, q) (loop-Returns fire completed ws s (h ws q))
  ]

  -- Where every workflow that a completion starts has a smaller rank than the completed one,
  -- TriggerWorkflow with all the workflows that it starts in turn returns: nested calls no deeper
  -- than the rank are made.
  pub trigger_and_chain_returns :
      (rank : String → ℕ) (fuel : ℕ) (id : String) (reason : Reason) (s : S)
      → ((s' : S) (ws : List (Workflow F)) (completed : String)
          → active s' ≡ ok ws
          → All (λ w. chained completed w ≡ true → rank w.id < rank completed) ws)
      → rank id < fuel
      → (s' : S) × (trigger_and_chain fuel id reason s ≡ some s')
  unfolding trigger_and_chain Returns
  trigger_and_chain_returns rank zero id reason s below lt = absurd (omega arith)
  trigger_and_chain_returns rank (suc fuel) id reason s below lt =
      elim (Bool-cases ((once id reason s).0)) [
        | inr e ↦ rw (trigger_and_chain, e) ((once id reason s).1, refl)
        | inl e ↦
            rw (trigger_and_chain, e)
              (completed-Returns (λ next s'. trigger_and_chain fuel next (on_event id) s') id
                (once id reason s).1
                (λ ws q.
                  All-map ws
                    (λ w g c s'.
                      trigger_and_chain_returns rank fuel w.id (on_event id) s' below
                        (omega (arith, g c)))
                    (below (once id reason s).1 ws id q)))
      ]
