-- ===== src/Server/Circuit/Repeat.antt =====
-- An evaluation reaches the verdicts, and a second one with the same health has nothing to do.
use super_duper_bassoon.Common.{
  String, false, ◌==◌, ◌⊎◌, arith, List, [], ◌∷◌, Option, none, some, ◌≡◌, ◌≢◌, inl, inr, refl, sym,
  subst, ◌∙◌, eq_iff, eq_refl, str_eq, Bool-cases, All, All-map, append-nil,
}
use super_duper_bassoon.Common.Fault.{Result, ok}
use super_duper_bassoon.Common.Dict.{Dict, lookup}
use super_duper_bassoon.Common.Float.{Floats}
use super_duper_bassoon.Common.Time.{Time}
use super_duper_bassoon.Server.Workflow.{Workflow}
use super_duper_bassoon.Server.Health.{TypeHealth}
use super_duper_bassoon.Server.Circuit.{
  Breaker, CircuitWorld, CircuitConfig, CircuitAnswers, get_circuit_state, stored_breaker,
  save_circuit_state, judge, evaluate_one, evaluate_loop, evaluate_workflow_type, or_new,
  policy_for, or_default, open_state, closed, evaluate_health, evaluate_known, is_healthy_enough,
}
use super_duper_bassoon.Server.Circuit.Laws.{
  IsKept, Judged, Judged-IsKept, evaluate_one-Judged, judge-quiet, verdict,
}

module _ (fl : Floats) (cfg : CircuitConfig (Floats.Float fl)) where
  open fl use {Float}

  -- The breaker is there, in the state that the policy of the workflow asks for.
  abbrev pub Decided : TypeHealth Float → Workflow Float → Option Breaker → Type 0
  Decided h w none = ⊥
  Decided h w (some b) = b.state ≡ verdict fl cfg h w

  same_verdict :
      (h : TypeHealth Float) (v w : Workflow Float)
      → w.id ≡ v.id
      → verdict fl cfg h w ≡ verdict fl cfg h v
  unfolding verdict policy_for
  same_verdict h v w e = rw e refl

  Judged-keeps :
      (h : TypeHealth Float) (v w : Workflow Float) (t u : Dict Breaker)
      → Judged fl cfg h w t u
      → Decided h v (lookup v.id t)
      → Decided h v (lookup v.id u)
  Judged-keeps h v w t u j d = elim (Bool-cases (str_eq w.id v.id)) [
    | inl e ↦ rw (j.found v.id, e) (j.decided ∙ same_verdict h v w ((eq_iff w.id v.id).0 e))
    | inr e ↦ rw (j.found v.id, e) d
  ]

  Judged-decides :
      (h : TypeHealth Float) (w : Workflow Float) (t u : Dict Breaker)
      → Judged fl cfg h w t u
      → Decided h w (lookup w.id u)
  Judged-decides h w t u j = rw (j.found w.id, eq_refl w.id) j.decided

  saved :
      (db : CircuitAnswers) (now : Time) (h : TypeHealth Float) (w : Workflow Float)
      (c : CircuitWorld)
      → IsKept c.table
      → now ≢ 0
      → ((id : String) → db.save id ≡ none)
      → let r = evaluate_one fl cfg db now h w c in
        (r.0 ≡ ok tt) × Judged fl cfg h w c.table r.1.table
  saved db now h w c k t s = elim (evaluate_one-Judged fl cfg db now h w c k t) [
    | inl j ↦ j
    | inr (e, _, q, _) ↦ absurd (cc (s w.id))
  ]

  loop_keeps :
      (db : CircuitAnswers) (now : Time) (h : TypeHealth Float) (v : Workflow Float)
      (ws : List (Workflow Float)) (c : CircuitWorld)
      → IsKept c.table
      → now ≢ 0
      → ((id : String) → db.save id ≡ none)
      → Decided h v (lookup v.id c.table)
      → Decided h v (lookup v.id (evaluate_loop fl cfg db now h ws c).1.table)
  unfolding evaluate_loop
  loop_keeps db now h v [] c k t s d = d
  loop_keeps db now h v (w ∷ ws) c k t s d =
      let (e, j) = saved db now h w c k t s in
      rw (evaluate_loop, e)
        (loop_keeps db now h v ws _ (Judged-IsKept fl cfg h w _ _ j k) t s
          (Judged-keeps h v w _ _ j d))

  loop_step :
      (db : CircuitAnswers) (now : Time) (h : TypeHealth Float) (w : Workflow Float)
      (ws : List (Workflow Float)) (c : CircuitWorld)
      → (evaluate_one fl cfg db now h w c).0 ≡ ok tt
      → evaluate_loop fl cfg db now h (w ∷ ws) c
        ≡ evaluate_loop fl cfg db now h ws (evaluate_one fl cfg db now h w c).1
  unfolding evaluate_loop
  loop_step db now h w ws c e = rw (evaluate_loop, e) refl

  loop_decides :
      (db : CircuitAnswers) (now : Time) (h : TypeHealth Float) (ws : List (Workflow Float))
      (c : CircuitWorld)
      → IsKept c.table
      → now ≢ 0
      → ((id : String) → db.save id ≡ none)
      → let r = evaluate_loop fl cfg db now h ws c in
        (r.0 ≡ ok tt) × IsKept r.1.table × All (λ w. Decided h w (lookup w.id r.1.table)) ws
  unfolding evaluate_loop
  loop_decides db now h [] c k t s = (refl, k, tt)
  loop_decides db now h (w ∷ ws) c k t s =
      let (e, j) = saved db now h w c k t s in
      let k' = Judged-IsKept fl cfg h w _ _ j k in
      let (e', k'', d) = loop_decides db now h ws (evaluate_one fl cfg db now h w c).1 k' t s in
      subst
        (λ r.
          (r.0 ≡ ok tt)
          × IsKept r.1.table
          × All (λ v. Decided h v (lookup v.id r.1.table)) (w ∷ ws))
        (sym (loop_step db now h w ws c e))
        (e', k'', (loop_keeps db now h w ws _ k' t s (Judged-decides h w _ _ j), d))

  quiet_row :
      (now : Time) (h : TypeHealth Float) (w : Workflow Float) (o : Option Breaker)
      → Decided h w o
      → (judge fl cfg now h w (or_new w (stored_breaker o))).1 ≡ []
  unfolding stored_breaker
  quiet_row now h w none d = absurd d
  quiet_row now h w (some b) d = judge-quiet fl cfg now h w b d

  quiet_one :
      (db : CircuitAnswers) (now : Time) (h : TypeHealth Float) (w : Workflow Float)
      (c : CircuitWorld)
      → ((id : String) → db.get id ≡ none)
      → ((id : String) → db.save id ≡ none)
      → Decided h w (lookup w.id c.table)
      → (evaluate_one fl cfg db now h w c).1.effects ≡ c.effects
  unfolding evaluate_one get_circuit_state save_circuit_state
  quiet_one db now h w c g s d =
      rw
        (
          evaluate_one,
          s w.id,
          save_circuit_state,
          g w.id,
          get_circuit_state,
          quiet_row now h w (lookup w.id c.table) d,
        )
        (append-nil c.effects)

  loop_quiet :
      (db : CircuitAnswers) (now : Time) (h : TypeHealth Float) (ws : List (Workflow Float))
      (c : CircuitWorld)
      → IsKept c.table
      → now ≢ 0
      → ((id : String) → db.get id ≡ none)
      → ((id : String) → db.save id ≡ none)
      → All (λ w. Decided h w (lookup w.id c.table)) ws
      → (evaluate_loop fl cfg db now h ws c).1.effects ≡ c.effects
  unfolding evaluate_loop
  loop_quiet db now h [] c k t g s d = refl
  loop_quiet db now h (w ∷ ws) c k t g s (d, ds) =
      let (e, j) = saved db now h w c k t s in
      let rest =
        loop_quiet db now h ws (evaluate_one fl cfg db now h w c).1
          (Judged-IsKept fl cfg h w _ _ j k) t g s
          (All-map ws (λ v q. Judged-keeps h v w _ _ j q) ds) in
      rw (evaluate_loop, e) (rest ∙ quiet_one db now h w c g s d)

  -- Runs were considered, and their average of successes is below the threshold of the workflow's
  -- own policy, or of the default one where it has none.
  abbrev pub Opens : TypeHealth Float → Workflow Float → Type 0
  Opens h w =
      (h.runs_considered ≢ 0)
      × (fl.fle (or_default cfg.default_policy (cfg.policy_of w.id)).success_threshold
            h.success_percentage_avg
          ≡ false)

  -- The workflow has a breaker, which is open exactly where the health asks for it, and closed
  -- otherwise.
  abbrev pub Answers : TypeHealth Float → Workflow Float → Option Breaker → Type 0
  Answers h w none = ⊥
  Answers h w (some b) =
      ((b.state ≡ open_state) × Opens h w) ⊎ ((b.state ≡ closed) × (Opens h w → ⊥))

  verdict-Opens :
      (h : TypeHealth Float) (w : Workflow Float)
      → ((verdict fl cfg h w ≡ open_state) × Opens h w)
        ⊎ ((verdict fl cfg h w ≡ closed) × (Opens h w → ⊥))
  unfolding verdict evaluate_health evaluate_known is_healthy_enough policy_for
  verdict-Opens h w =
      let healthy =
        fl.fle (or_default cfg.default_policy (cfg.policy_of w.id)).success_threshold
          h.success_percentage_avg in
      elim (Bool-cases (h.runs_considered == 0)) [
        | inl none_seen ↦ inr (rw none_seen refl, λ o. ground (arith, none_seen, o.0))
        | inr seen ↦ elim (Bool-cases healthy) [
          | inl good ↦ inr (rw (seen, good) refl, λ o. cc (good, o.1))
          | inr bad ↦ inl (rw (seen, bad) refl, (ground (arith, seen), bad))
        ]
      ]

  Decided-Answers :
      (h : TypeHealth Float) (w : Workflow Float) (o : Option Breaker)
      → Decided h w o
      → Answers h w o
  Decided-Answers h w none d = d
  Decided-Answers h w (some b) d = elim (verdict-Opens h w) [
    | inl (v, o) ↦ inl (d ∙ v, o)
    | inr (v, o) ↦ inr (d ∙ v, o)
  ]

  -- From a table whose breakers are filed under their workflows and settled, at times that are not
  -- zero, and where every breaker can be saved: an evaluation leaves each of its workflows with a
  -- breaker that is open exactly where runs were considered and their average of successes is
  -- below the threshold of its policy, and closed otherwise; and a second evaluation at the same
  -- health, which can read the breakers, has no effect outside the table: no workflow is
  -- deactivated or activated again, and no alert and no event is repeated.
  pub evaluate_twice :
      (db db' : CircuitAnswers) (now now' : Time) (h : TypeHealth Float)
      (stored : Result (TypeHealth Float)) (ws : List (Workflow Float)) (c : CircuitWorld)
      → IsKept c.table
      → now ≢ 0
      → now' ≢ 0
      → ((id : String) → db.save id ≡ none)
      → ((id : String) → db'.save id ≡ none)
      → ((id : String) → db'.get id ≡ none)
      → let r = evaluate_workflow_type fl cfg db now (some h) stored (ok ws) c in
        let r' = evaluate_workflow_type fl cfg db' now' (some h) stored (ok ws) r.1 in
        (r.0 ≡ ok tt)
        × All (λ w. Answers h w (lookup w.id r.1.table)) ws
        × (r'.1.effects ≡ r.1.effects)
  unfolding evaluate_workflow_type
  evaluate_twice db db' now now' h stored ws c k t t' s s' g =
      let (e, k', d) = loop_decides db now h ws c k t s in
      let answers =
        All-map ws
          (λ w q. Decided-Answers h w (lookup w.id (evaluate_loop fl cfg db now h ws c).1.table) q)
          d in
      (e, answers, loop_quiet db' now' h ws _ k' t' g s' d)
