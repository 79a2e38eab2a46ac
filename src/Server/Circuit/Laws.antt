-- ===== src/Server/Circuit/Laws.antt =====
-- What an evaluation of the circuit breakers leaves, and what a second one does.
use super_duper_bassoon.Common.{
  String, true, List, [], ◌∷◌, Option, none, some, ◌≡◌, ◌≢◌, ◌↔◌, ◌⊎◌, inl, inr, refl, ap, arith,
  ◌∙◌, eq_iff, if◌then◌else◌, str_eq, Bool-cases, Option-cases,
}
use super_duper_bassoon.Common.Fault.{Fault, Result, ok, err}
use super_duper_bassoon.Common.Dict.{Dict, lookup, lookup-insert}
use super_duper_bassoon.Common.Float.{Floats}
use super_duper_bassoon.Common.Time.{Time}
use super_duper_bassoon.Server.Workflow.{Workflow}
use super_duper_bassoon.Server.Health.{TypeHealth}
use super_duper_bassoon.Server.Circuit.{
  CircuitState, closed, open_state, half_open, unknown, same_state, Breaker, evaluate_known,
  evaluate_health, CircuitWorld, CircuitConfig, CircuitAnswers, stored_breaker, get_circuit_state,
  stored_row, save_circuit_state, or_new, moved, policy_for, settle, counted, judge, evaluate_one,
  evaluate_loop, evaluate_workflow_type,
}

-- A breaker that the service leaves: open with the time of its opening, or closed with no time and
-- no reason; never half open.
abbrev pub SettledAs : CircuitState → Time → String → Type 0
SettledAs closed opened_at reason = (opened_at ≡ 0) × (reason ≡ "")
SettledAs open_state opened_at reason = opened_at ≢ 0
SettledAs _ opened_at reason = ⊥

abbrev pub IsSettled : Breaker → Type 0
IsSettled b = SettledAs b.state b.opened_at b.opened_reason

abbrev pub KeptAs : String → Option Breaker → Type 0
KeptAs id none = Unit
KeptAs id (some b) = (b.workflow_id ≡ id) × IsSettled b

-- Every row is filed under its workflow and settled.
abbrev pub IsKept : Dict Breaker → Type 0
IsKept t = (id : String) → KeptAs id (lookup id t)

same_state_iff : (s t : CircuitState) → (same_state s t ≡ true) ↔ (s ≡ t)
unfolding same_state
same_state_iff (unknown s) (unknown t) = ground (arith, eq_iff s t)
same_state_iff s t = ground arith

module _ (fl : Floats) (cfg : CircuitConfig (Floats.Float fl)) where
  open fl use {Float}

  -- The state that the policy of a workflow asks for.
  unfoldable pub verdict : TypeHealth Float → Workflow Float → CircuitState
  verdict h w = evaluate_health fl (some (policy_for fl cfg w)) (some h)

  verdict-cases :
      (h : TypeHealth Float) (w : Workflow Float)
      → (verdict h w ≡ closed) ⊎ (verdict h w ≡ open_state)
  unfolding verdict evaluate_health evaluate_known
  verdict-cases h w = ground arith

  moved-state :
      (now : Time) (s : CircuitState) (reason : String) (b : Breaker)
      → (moved fl cfg now s reason b).state ≡ s
  unfolding moved
  moved-state now closed reason b = refl
  moved-state now open_state reason b = refl
  moved-state now half_open reason b = refl
  moved-state now (unknown t) reason b = refl

  moved-id :
      (now : Time) (s : CircuitState) (reason : String) (b : Breaker)
      → (moved fl cfg now s reason b).workflow_id ≡ b.workflow_id
  unfolding moved
  moved-id now closed reason b = refl
  moved-id now open_state reason b = refl
  moved-id now half_open reason b = refl
  moved-id now (unknown t) reason b = refl

  settle-state :
      (now : Time) (new : CircuitState) (reason : String) (w : Workflow Float) (b : Breaker)
      → (settle fl cfg now new reason w b).0.state ≡ new
  unfolding settle
  settle-state now new reason w b = elim (Bool-cases (same_state b.state new)) [
    | inl e ↦ rw (settle, e) ((same_state_iff b.state new).0 e)
    | inr e ↦ rw (settle, e) (moved-state now new reason b)
  ]

  settle-id :
      (now : Time) (new : CircuitState) (reason : String) (w : Workflow Float) (b : Breaker)
      → (settle fl cfg now new reason w b).0.workflow_id ≡ b.workflow_id
  unfolding settle
  settle-id now new reason w b = elim (Bool-cases (same_state b.state new)) [
    | inl e ↦ rw (settle, e) refl
    | inr e ↦ rw (settle, e) (moved-id now new reason b)
  ]

  settle-Settled :
      (now : Time) (new : CircuitState) (reason : String) (w : Workflow Float) (b : Breaker)
      → now ≢ 0
      → (new ≡ closed) ⊎ (new ≡ open_state)
      → IsSettled b
      → let c = (settle fl cfg now new reason w b).0 in IsSettled c
  unfolding settle moved
  settle-Settled now new reason w b t two k = elim (Bool-cases (same_state b.state new)) [
    | inl e ↦ rw (settle, e) k
    | inr e ↦ elim two [ inl q ↦ rw (settle, e, q) (refl, refl) | inr q ↦ rw (settle, e, q) t ]
  ]

  judge-state :
      (now : Time) (h : TypeHealth Float) (w : Workflow Float) (b : Breaker)
      → (judge fl cfg now h w b).0.state ≡ verdict h w
  unfolding judge verdict
  judge-state now h w b = settle-state now _ _ w _

  judge-id :
      (now : Time) (h : TypeHealth Float) (w : Workflow Float) (b : Breaker)
      → (judge fl cfg now h w b).0.workflow_id ≡ b.workflow_id
  unfolding judge
  judge-id now h w b = settle-id now _ _ w _

  judge-Settled :
      (now : Time) (h : TypeHealth Float) (w : Workflow Float) (b : Breaker)
      → now ≢ 0
      → IsSettled b
      → let c = (judge fl cfg now h w b).0 in IsSettled c
  unfolding judge verdict
  judge-Settled now h w b t k = settle-Settled now _ _ w (counted now b) t (verdict-cases h w) k

  pub judge-quiet :
      (now : Time) (h : TypeHealth Float) (w : Workflow Float) (b : Breaker)
      → b.state ≡ verdict h w
      → (judge fl cfg now h w b).1 ≡ []
  unfolding judge verdict settle
  judge-quiet now h w b e = rw (judge, (same_state_iff b.state _).1 e) refl

  from_row :
      (w : Workflow Float) (o : Option Breaker)
      → KeptAs w.id o
      → let b = or_new w (stored_breaker o) in (b.workflow_id ≡ w.id) × IsSettled b
  unfolding stored_breaker
  from_row w none k = (refl, (refl, refl))
  from_row w (some b) k = k

  or_new-Settled :
      (w : Workflow Float) (t : Dict Breaker) (o : Option Fault)
      → IsKept t
      → let b = or_new w (get_circuit_state o w.id t) in (b.workflow_id ≡ w.id) × IsSettled b
  unfolding get_circuit_state stored_breaker
  or_new-Settled w t (some e) k = (refl, (refl, refl))
  or_new-Settled w t none k = from_row w (lookup w.id t) (k w.id)

  -- The table `u` is `t` with a settled row for `w`, in the state of the verdict.
  pub record Judged (h : TypeHealth Float) (w : Workflow Float) (t u : Dict Breaker) : Type 0 where
    pub row : Breaker
    pub found : (id : String) → lookup id u ≡ (if str_eq w.id id then some row else lookup id t)
    pub own : row.workflow_id ≡ w.id
    pub settled : IsSettled row
    pub decided : row.state ≡ verdict h w

  pub evaluate_one-Judged :
      (db : CircuitAnswers) (now : Time) (h : TypeHealth Float) (w : Workflow Float)
      (c : CircuitWorld)
      → IsKept c.table
      → now ≢ 0
      → let r = evaluate_one fl cfg db now h w c in
        ((r.0 ≡ ok tt) × Judged h w c.table r.1.table)
        ⊎ ((e : Fault) × (r.0 ≡ err e) × (db.save w.id ≡ some e) × (r.1.table ≡ c.table))
  unfolding evaluate_one save_circuit_state stored_row
  evaluate_one-Judged db now h w c k t = elim (Option-cases (db.save w.id)) [
    | inr (e, q) ↦ inr (
      e,
      rw (evaluate_one, q, save_circuit_state) refl,
      q,
      rw (evaluate_one, q, save_circuit_state) refl,
    )
    | inl q ↦
        let b = or_new w (get_circuit_state (db.get w.id) w.id c.table) in
        let start = or_new-Settled w c.table (db.get w.id) k in
        let j = (judge fl cfg now h w b).0 in
        let own = judge-id now h w b ∙ start.0 in
        inl (
          rw (evaluate_one, q, save_circuit_state) refl,
          rw (evaluate_one, q, save_circuit_state)
              (record {
                row = stored_row now j;
                found = λ id.
                    lookup-insert j.workflow_id id (stored_row now j) c.table
                    ∙ ap (λ i. if str_eq i id then some (stored_row now j) else lookup id c.table)
                        own;
                own = own;
                settled = judge-Settled now h w b t start.1;
                decided = judge-state now h w b;
              }),
        )
  ]

  pub Judged-IsKept :
      (h : TypeHealth Float) (w : Workflow Float) (t u : Dict Breaker)
      → Judged h w t u
      → IsKept t
      → IsKept u
  Judged-IsKept h w t u j k id = elim (Bool-cases (str_eq w.id id)) [
    | inl e ↦ rw (j.found id, e) (j.own ∙ (eq_iff w.id id).0 e, j.settled)
    | inr e ↦ rw (j.found id, e) (k id)
  ]

  loop-IsKept :
      (db : CircuitAnswers) (now : Time) (h : TypeHealth Float) (ws : List (Workflow Float))
      (c : CircuitWorld)
      → IsKept c.table
      → now ≢ 0
      → IsKept (evaluate_loop fl cfg db now h ws c).1.table
  unfolding evaluate_loop
  loop-IsKept db now h [] c k t = k
  loop-IsKept db now h (w ∷ ws) c k t =
      let (r, c') = evaluate_one fl cfg db now h w c in
      elim (evaluate_one-Judged db now h w c k t) [
        | inl (e, j) ↦
            rw (evaluate_loop, e) (loop-IsKept db now h ws c' (Judged-IsKept h w _ _ j k) t)
        | inr (f, e, _, same) ↦ rw (evaluate_loop, e, same) k
      ]

  -- Whatever the health, the workflows and the answers of the database, an evaluation at a time
  -- that is not zero keeps every breaker of the table filed under its workflow and either closed,
  -- with no time and no reason, or open since a time; it never makes one half open.
  pub evaluate_workflow_type-IsKept :
      (db : CircuitAnswers) (now : Time) (given : Option (TypeHealth Float))
      (stored : Result (TypeHealth Float)) (workflows : Result (List (Workflow Float)))
      (c : CircuitWorld)
      → IsKept c.table
      → now ≢ 0
      → IsKept (evaluate_workflow_type fl cfg db now given stored workflows c).1.table
  unfolding evaluate_workflow_type
  evaluate_workflow_type-IsKept db now (some h) stored (err e) c k t = k
  evaluate_workflow_type-IsKept db now (some h) stored (ok ws) c k t = loop-IsKept db now h ws c k t
  evaluate_workflow_type-IsKept db now none (err e) workflows c k t = k
  evaluate_workflow_type-IsKept db now none (ok h) (err e) c k t = k
  evaluate_workflow_type-IsKept db now none (ok h) (ok ws) c k t = loop-IsKept db now h ws c k t
