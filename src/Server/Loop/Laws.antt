-- ===== src/Server/Loop/Laws.antt =====
-- When a client is taken for looping, and what follows.
use super_duper_bassoon.Common.{
  ℕ, ◌-◌, ◌≤◌, ◌<◌, String, true, false, Option, none, some, ◌≡◌, ◌≢◌, ◌↔◌, ◌⊎◌, inl, inr, refl,
  sym, ap, subst, arith, ◌∙◌, eq_iff, leb, Bool-cases, Option-cases, leb→le,
}
use super_duper_bassoon.Common.Fault.{Fault, ok, Result-cases}
use super_duper_bassoon.Common.Int.{ℤ, pos}
use super_duper_bassoon.Common.Time.{Time, max_duration, of_ms}
use super_duper_bassoon.Server.Workflow.{Workflow, Run, RunResult, result-IsValid}
use super_duper_bassoon.Server.Ban.Record.{loop_detected}
use super_duper_bassoon.Server.Ban.Service.{BanState, is_banned}
use super_duper_bassoon.Server.Ban.Cache.{Synced, ban_client-Synced}
use super_duper_bassoon.Server.Ban.Cache.History.{banned_at_once}
use super_duper_bassoon.Server.Loop.Previous.{previous-precedes, precedes-order}
use super_duper_bassoon.Server.Runs.{RunTable, get_run}
use super_duper_bassoon.Server.Loop.{
  LoopDetectionRecord, LoopConfig, LoopAnswers, detect_loop, detected, get_previous_run,
  handle_result, new_loop_detector, on_loop, threshold_of, with_run,
}

-- For a positive threshold below the largest Duration, a loop is found exactly when there is a
-- previous run, another one than the current, that began no later than the current run and
-- no more than the threshold before it; that Sub saturates makes no difference.
pub detect_loop_lem :
    (default_threshold : ℤ) (now : Time) (client_id workflow_type run_id : String) (run_time : Time)
    (prev_id : String) (prev_time : Time) (limit : ℕ) (evidence : String)
    → 0 < limit
    → limit < max_duration
    → (detect_loop default_threshold now client_id workflow_type run_id run_time prev_id prev_time
          (pos limit)
          evidence
        ≢ none)
      ↔ ((prev_id ≢ "")
          × (prev_id ≢ run_id)
          × (prev_time ≤ run_time)
          × (run_time - prev_time ≤ limit))
unfolding detect_loop
detect_loop_lem default_threshold now c w run_id t prev_id u limit evidence h g =
    ground (arith, eq_iff prev_id "", eq_iff prev_id run_id)

leb-lt : (a b : ℕ) → leb a b ≡ false → b < a
leb-lt a b h = ground arith

far :
    {P : Type 0} {a b : String} {t u limit : ℕ}
    → ((a ≢ "") × (a ≢ b) × (u ≤ t) × (t - u ≤ limit) → P)
    → a ≢ ""
    → (a ≢ b) × (u ≤ t)
    → (P → ⊥)
    → limit < t - u
far {t} {u} {limit} f named (ne, le) never = elim (Bool-cases (leb (t - u) limit)) [
  | inl close ↦ absurd (never (f (named, ne, le, leb→le (t - u) limit close)))
  | inr gt ↦ leb-lt (t - u) limit gt
]

module _ {F : Type 0} (cfg : LoopConfig F) where
  on_loop-Synced :
      (db : Option Fault) (now : Time) (r : RunResult F) (w : Workflow F)
      (l : Option LoopDetectionRecord) (s : BanState)
      → Synced s
      → Synced (on_loop cfg db now r w l s)
  unfolding on_loop
  on_loop-Synced db now r w none s h = h
  on_loop-Synced db now r w (some l) s h =
      ban_client-Synced db now r.client_id w.workflow_type r.run_id (cfg.marshal r) loop_detected _
        (record { cache = h.cache; held = h.held; same = h.same; permanent = h.permanent })

  with_run-Synced :
      (db : LoopAnswers F) (now : Time) (r : RunResult F) (t : RunTable) (w : Workflow F)
      (current : Run) (s : BanState)
      → Synced s
      → Synced (with_run cfg db now r t w current s)
  unfolding with_run
  with_run-Synced db now r t w current s h =
      let query =
        get_previous_run db.previous r.client_id w.workflow_type r.run_id current.triggered_at t in
      elim (Result-cases query) [
        | inl (prev, e) ↦
            rw (with_run, e) (on_loop-Synced db.ban now r w (detected cfg now r w current prev) s h)
        | inr (e, q) ↦ rw (with_run, q) h
      ]

  -- Whatever the result, and whichever calls of the database fail, loop detection keeps the cache
  -- and the table of bans in agreement.
  pub handle_result-Synced :
      (db : LoopAnswers F) (now : Time) (r : Option (RunResult F)) (t : RunTable) (s : BanState)
      → Synced s
      → Synced (handle_result cfg db now r t s)
  unfolding handle_result with_run
  handle_result-Synced db now none t s h = h
  handle_result-Synced db now (some r) t s h = elim (Bool-cases (result-IsValid r)) [
    | inr bad ↦ rw (handle_result, bad) h
    | inl good ↦ elim (Result-cases db.workflow) [
      | inr (e, q) ↦ rw (handle_result, good, q) h
      | inl (w, q) ↦ elim (Result-cases (get_run db.run r.run_id t)) [
        | inr (e, p) ↦ rw (handle_result, good, q, p) h
        | inl (current, p) ↦
            rw (handle_result, good, q, p) (with_run-Synced db now r t w current s h)
      ]
    ]
  ]

  handle_found :
      (db : LoopAnswers F) (now : Time) (r : RunResult F) (t : RunTable) (s : BanState)
      (w : Workflow F) (current prev : Run)
      → result-IsValid r ≡ true
      → db.workflow ≡ ok w
      → get_run db.run r.run_id t ≡ ok current
      → get_previous_run db.previous r.client_id w.workflow_type r.run_id current.triggered_at t
        ≡ ok prev
      → handle_result cfg db now (some r) t s
        ≡ on_loop cfg db.ban now r w (detected cfg now r w current prev) s
  unfolding handle_result with_run
  handle_found db now r t s w current prev good q p e =
      rw (handle_result, good, q, p, with_run, e) refl

  ban_refuses :
      (now later : Time) (r : RunResult F) (w : Workflow F) (l : LoopDetectionRecord) (s : BanState)
      → Synced s
      → is_banned none later r.client_id w.workflow_type (on_loop cfg none now r w (some l) s)
        ≡ ok true
  unfolding on_loop
  ban_refuses now later r w l s h =
      banned_at_once now later r.client_id w.workflow_type r.run_id (cfg.marshal r) loop_detected _
        (record { cache = h.cache; held = h.held; same = h.same; permanent = h.permanent })

  -- From a state in which the bans' cache and table agree, for a valid result whose workflow and
  -- run are found, with a previous run that has an identifier, a database that answers to the
  -- calls for the previous run and the ban, and a positive threshold below the largest Duration:
  -- where the run was triggered no more than the threshold after the previous one, the client is
  -- refused the workflow type from then on; where it was triggered later, nothing changes. It is the
  -- times at which the two runs were triggered that count, and not when their results arrived.
  pub handle_result_bans :
      (db : LoopAnswers F) (now later : Time) (r : RunResult F) (t : RunTable) (s : BanState)
      (w : Workflow F) (current prev : Run) (limit : ℕ)
      → Synced s
      → result-IsValid r ≡ true
      → db.workflow ≡ ok w
      → db.previous ≡ none
      → db.ban ≡ none
      → get_run db.run r.run_id t ≡ ok current
      → get_previous_run none r.client_id w.workflow_type r.run_id current.triggered_at t ≡ ok prev
      → prev.run_id ≢ ""
      → threshold_of cfg w ≡ pos limit
      → 0 < limit
      → limit < max_duration
      → ((current.triggered_at - prev.triggered_at ≤ limit)
          × (is_banned none later r.client_id w.workflow_type
                (handle_result cfg db now (some r) t s)
              ≡ ok true))
        ⊎ ((limit < current.triggered_at - prev.triggered_at)
            × (handle_result cfg db now (some r) t s ≡ s))
  unfolding detected on_loop
  handle_result_bans db now later r t s w current prev limit h good q p b e f named g lo hi =
      let found =
        subst
          (λ o.
            handle_result cfg db now (some r) t s
            ≡ on_loop cfg o now r w (detected cfg now r w current prev) s)
          b (handle_found db now r t s w current prev good q e (rw p f)) in
      let order =
        precedes-order t.runs_clients r.client_id w.workflow_type r.run_id current.triggered_at prev
          (previous-precedes r.client_id w.workflow_type r.run_id current.triggered_at t prev f) in
      let iff =
        detect_loop_lem (new_loop_detector (of_ms cfg.default_ms)) now r.client_id w.workflow_type
          r.run_id current.triggered_at prev.run_id prev.triggered_at limit (cfg.marshal r) lo hi in
      let same : detected cfg now r w current prev
          ≡ detect_loop (new_loop_detector (of_ms cfg.default_ms)) now r.client_id w.workflow_type
              r.run_id current.triggered_at prev.run_id prev.triggered_at (pos limit)
              (cfg.marshal r) =
        rw g refl in
      elim (Option-cases (detected cfg now r w current prev)) [
        | inr (l, e) ↦
            let close = (iff.0 (λ q. cc (same, e, q))).3 in
            inl (close, rw (found, e) (ban_refuses now later r w l s h))
        | inl e ↦ inr (
          far (iff.1) named order (λ q. q (sym same ∙ e)),
          found ∙ ap (λ l. on_loop cfg none now r w l s) e,
        )
      ]
