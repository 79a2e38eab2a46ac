-- ===== src/Server/Triggers/Cycle.antt =====
-- A workflow that its own completion starts.
use super_duper_bassoon.Common.{
  ℕ, zero, suc, String, Bool, true, List, [], ◌∷◌, Option, none, some, ◌≡◌, refl, subst, Bool-cases,
  Option-cases, inl, inr, Among, here, there,
}
use super_duper_bassoon.Common.Fault.{Result, ok, Result-cases}
use super_duper_bassoon.Server.Workflow.{Workflow}
use super_duper_bassoon.Server.Triggers.{Reason, on_event, chained}
use super_duper_bassoon.Server.Triggers.Chain.{chain_loop, on_workflow_completed, trigger_and_chain}

module _ {F S : Type 0} (active : S → Result (List (Workflow F)))
    (once : String → Reason → S → Bool × S) (P : S → Type 0)
    (once_keeps : (id : String) (reason : Reason) (s : S) → P s → P (once id reason s).1) where
  Keeps : Option S → Type 0
  Keeps none = Unit
  Keeps (some s) = P s

  loop-Keeps :
      (fire : String → S → Option S) (completed : String) (ws : List (Workflow F)) (s : S)
      → ((id : String) (s' : S) → P s' → Keeps (fire id s'))
      → P s
      → Keeps (chain_loop active once fire completed ws s)
  unfolding chain_loop Keeps
  loop-Keeps fire completed [] s keep p = p
  loop-Keeps fire completed (w ∷ ws) s keep p = elim (Bool-cases (chained completed w)) [
    | inr e ↦ rw (chain_loop, e) (loop-Keeps fire completed ws s keep p)
    | inl e ↦ elim (Option-cases (fire w.id s)) [
      | inl f ↦ rw (chain_loop, e, f) tt
      | inr (s', f) ↦
          rw (chain_loop, e, f)
            (loop-Keeps fire completed ws s' keep (subst Keeps f (keep w.id s p)))
    ]
  ]

  trigger-Keeps :
      (fuel : ℕ) (id : String) (reason : Reason) (s : S)
      → P s
      → Keeps (trigger_and_chain active once fuel id reason s)
  unfolding trigger_and_chain on_workflow_completed Keeps
  trigger-Keeps zero id reason s p = tt
  trigger-Keeps (suc fuel) id reason s p = elim (Bool-cases ((once id reason s).0)) [
    | inr e ↦ rw (trigger_and_chain, e) (once_keeps id reason s p)
    | inl e ↦ elim (Result-cases (active (once id reason s).1)) [
      | inr (x, q) ↦ rw (trigger_and_chain, e, on_workflow_completed, q) (once_keeps id reason s p)
      | inl (ws, q) ↦
          rw (trigger_and_chain, e, on_workflow_completed, q)
            (loop-Keeps (λ next s'. trigger_and_chain active once fuel next (on_event id) s') id ws
              (once id reason s).1 (λ next s' k. trigger-Keeps fuel next (on_event id) s' k)
              (once_keeps id reason s p))
    ]
  ]

  loop-none :
      (fire : String → S → Option S) (completed : String) (w : Workflow F) (ws : List (Workflow F))
      (s : S)
      → ((id : String) (s' : S) → P s' → Keeps (fire id s'))
      → ((s' : S) → P s' → fire w.id s' ≡ none)
      → chained completed w ≡ true
      → Among w ws
      → P s
      → chain_loop active once fire completed ws s ≡ none
  unfolding chain_loop Keeps
  loop-none fire completed w [] s keep never e m p = elim m [ ]
  loop-none fire completed w (_ ∷ ws) s keep never e here p = rw (chain_loop, e, never s p) refl
  loop-none fire completed w (v ∷ ws) s keep never e (there m) p =
      elim (Bool-cases (chained completed v)) [
        | inr f ↦ rw (chain_loop, f) (loop-none fire completed w ws s keep never e m p)
        | inl f ↦ elim (Option-cases (fire v.id s)) [
          | inl g ↦ rw (chain_loop, f, g) refl
          | inr (s', g) ↦
              rw (chain_loop, f, g)
                (loop-none fire completed w ws s' keep never e m (subst Keeps g (keep v.id s p)))
        ]
      ]

  -- Where in every state that can be reached from here (`P` holds and is kept) a workflow is active that
  -- its own completion starts, and triggering it publishes the completion, TriggerWorkflow of it never
  -- returns: no depth of nested calls is enough.
  pub trigger_and_chain_diverges :
      (w : Workflow F) (fuel : ℕ) (reason : Reason) (s : S)
      → chained w.id w ≡ true
      → ((s' : S) → P s' → (ws : List (Workflow F)) × (active s' ≡ ok ws) × Among w ws)
      → ((s' : S) (why : Reason) → P s' → (once w.id why s').0 ≡ true)
      → P s
      → trigger_and_chain active once fuel w.id reason s ≡ none
  unfolding trigger_and_chain on_workflow_completed
  trigger_and_chain_diverges w zero reason s e stays publishes p = refl
  trigger_and_chain_diverges w (suc fuel) reason s e stays publishes p =
      let after = once_keeps w.id reason s p in
      let (ws, q, m) = stays (once w.id reason s).1 after in
      rw (trigger_and_chain, publishes s reason p, on_workflow_completed, q)
        (loop-none (λ next s'. trigger_and_chain active once fuel next (on_event w.id) s') w.id w ws
          (once w.id reason s).1 (λ next s' k. trigger-Keeps fuel next (on_event w.id) s' k)
          (λ s' k. trigger_and_chain_diverges w fuel (on_event w.id) s' e stays publishes k) e m
          after)
