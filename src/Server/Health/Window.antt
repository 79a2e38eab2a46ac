-- ===== src/Server/Health/Window.antt =====
-- The window of AggregateWorkflowHealth.
use super_duper_bassoon.Common.{
  ℕ, suc, ◌-◌, ◌<◌, ltb, String, true, List, [], ◌∷◌, ◌++◌, ◌≡◌, refl, ap, sym, arith, ◌∙◌, length,
  length-append, drop, lt→ltb,
}
use super_duper_bassoon.Common.Float.{Floats}
use super_duper_bassoon.Common.Int.{ℤ, pos}
use super_duper_bassoon.Common.Time.{Time}
use super_duper_bassoon.Server.Health.{
  RunHealth, last_runs, summarize, no_runs, aggregate_workflow_health,
}

drop-append : {A : Type 0} (xs ys : List A) (n : ℕ) → n ≡ length xs → drop n (xs ++ ys) ≡ ys
drop-append [] ys n e = rw e refl
drop-append (x ∷ xs) ys n e = rw e (drop-append xs ys (length xs) refl)

last_runs-append :
    (old recent : List RunHealth) (window : ℕ)
    → length recent ≡ window
    → 0 < window
    → last_runs (pos window) (old ++ recent) ≡ recent
unfolding last_runs
last_runs-append [] recent window e lo = ground arith
last_runs-append (r ∷ old) recent window e lo =
    let size = length-append old recent in
    let n : suc (length (old ++ recent)) - window ≡ suc (length old) = omega (arith, size, e) in
    let bigger : ltb window (suc (length (old ++ recent))) ≡ true =
      lt→ltb window (suc (length (old ++ recent))) (omega (arith, size, e)) in
    rw (lt→ltb 0 window lo, bigger, n) (drop-append old recent (length old) refl)

aggregate-nonempty :
    (fl : Floats) (now : Time) (wt : String) (runs : List RunHealth) (window : ℤ)
    → 0 < length runs
    → aggregate_workflow_health fl now wt runs window
      ≡ summarize fl (no_runs fl now wt window) (last_runs window runs)
unfolding aggregate_workflow_health
aggregate-nonempty fl now wt [] window h = absurd (omega arith)
aggregate-nonempty fl now wt (r ∷ runs) window h = refl

-- For a positive window, the health of a workflow type with at least as many runs looks at the
-- last ones of the window only: the runs before them make no difference, and exactly the window's
-- number of runs is considered.
pub aggregate-window :
    (fl : Floats) (now : Time) (workflow_type : String) (old recent : List RunHealth) (window : ℕ)
    → 0 < window
    → length recent ≡ window
    → (aggregate_workflow_health fl now workflow_type (old ++ recent) (pos window)
        ≡ aggregate_workflow_health fl now workflow_type recent (pos window))
      × ((aggregate_workflow_health fl now workflow_type
            (old ++ recent)
            (pos window)).runs_considered
          ≡ window)
unfolding summarize
aggregate-window fl now wt old recent window lo e =
    let both =
      aggregate-nonempty fl now wt (old ++ recent) (pos window)
        (omega (arith, length-append old recent, e))
      ∙ ap (summarize fl (no_runs fl now wt (pos window)))
          (last_runs-append old recent window e lo) in
    let one =
      aggregate-nonempty fl now wt recent (pos window) (omega (arith, e))
      ∙ ap (summarize fl (no_runs fl now wt (pos window)))
          (last_runs-append [] recent window e lo) in
    (both ∙ sym one, ap (λ h. h.runs_considered) both ∙ e)
