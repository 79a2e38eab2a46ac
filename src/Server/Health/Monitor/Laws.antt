-- ===== src/Server/Health/Monitor/Laws.antt =====
-- What a result changes of the tables behind it.
use super_duper_bassoon.Common.{
  String, List, Option, none, some, if◌then◌else◌, str_eq, ◌&&◌, ◌≡◌, refl, sym, ◌∙◌, subst, ap,
  inl, inr,
}
use super_duper_bassoon.Common.Fault.{Fault, ok, err, Result-cases, ok-injective}
use super_duper_bassoon.Common.Float.{Floats}
use super_duper_bassoon.Common.Time.{Time}
use super_duper_bassoon.Server.Ban.Record.{BanRecord}
use super_duper_bassoon.Server.Ban.Table.{get_active_bans_by_workflow_type}
use super_duper_bassoon.Server.Rows.{find_row}
use super_duper_bassoon.Server.Workflow.{Run, RunResult, run_completed}
use super_duper_bassoon.Server.Workflow.Table.{Json}
use super_duper_bassoon.Server.Runs.{find_run, get_run}
use super_duper_bassoon.Server.Results.Table.{ResultRow, get_run_results}
use super_duper_bassoon.Server.Health.{RunHealth, calculate_run_health, with_pending}
use super_duper_bassoon.Server.Health.Table.{save_run_health, health_run, dated_run}
use super_duper_bassoon.Server.Health.Monitor.{
  HealthAnswers, HealthSources, HealthState, after_health, calculate_stored_health, health_of,
  listed, run_completed_by, store_health,
}
use super_duper_bassoon.Server.Health.Monitor.Counted.{
  IsHealthOf, completes-finishes, dated_lem, finishes, health_of-IsHealthOf,
}
use super_duper_bassoon.Server.Health.Monitor.Rows.{
  completes, count_statuses-run_id, get_run-key, run_completed_by_lem, saved-find,
}

module _ (fl : Floats) (json : Json fl.Float) where
  open fl use {Float}

  health_of-run_id :
      (now : Time) (id : String) (run : Run) (results : List (RunResult Float))
      (bans : List BanRecord)
      → (health_of fl json now id run results bans).run_id ≡ id
  unfolding health_of calculate_run_health with_pending
  health_of-run_id now id run results bans = count_statuses-run_id _ _

  -- The bans that the calculation reads; none where the database fails.
  abbrev pub bans_for : HealthAnswers → Time → HealthSources Float → Run → List BanRecord
  bans_for db now src run =
      listed (get_active_bans_by_workflow_type db.bans now run.workflow_type src.bans)

  -- What a calculation that succeeds has stored.
  abbrev HasStored :
      HealthAnswers
      → Time
      → HealthSources Float
      → String
      → HealthState Float
      → RunHealth
      → HealthState Float
      → Type 0
  HasStored db now src id s h s' =
      (run : Run) × (results : List (RunResult Float)) × (find_run id s.runs.rows ≡ ok run)
      × (get_run_results none id s.results ≡ ok results)
      × (h ≡ health_of fl json now id run results (bans_for db now src run))
      × ((k : String)
          → find_row health_run k s'.run_healths
            ≡ (if str_eq id k then some (dated_run now h) else find_row health_run k s.run_healths))
      × ((k : String)
          → find_run k s'.runs.rows ≡ (
              if str_eq id k && completes db h run
              then ok (record run { state = run_completed })
              else find_run k s.runs.rows))
      × (s'.results ≡ s.results)

  results-none :
      (db : Option Fault) (id : String) (t : List (ResultRow Float)) (rs : List (RunResult Float))
      → get_run_results db id t ≡ ok rs
      → get_run_results none id t ≡ ok rs
  unfolding get_run_results
  results-none (some e) id t rs h = cc
  results-none none id t rs h = h

  after-HasStored :
      (db : HealthAnswers) (now : Time) (src : HealthSources Float) (id : String) (run : Run)
      (results : List (RunResult Float)) (t : List RunHealth) (s : HealthState Float)
      → find_run id s.runs.rows ≡ ok run
      → run.run_id ≡ id
      → get_run_results none id s.results ≡ ok results
      → let g = health_of fl json now id run results (bans_for db now src run) in
        save_run_health db.save_health now g s.run_healths ≡ ok t
        → HasStored db now src id s g (after_health fl json db now src run g t s)
  unfolding after_health
  after-HasStored db now src id run results t s q same rq f =
      let g = health_of fl json now id run results (bans_for db now src run) in
      let there : find_run run.run_id s.runs.rows ≡ ok run =
        subst (λ i. find_run i s.runs.rows ≡ ok run) (sym same) q in
      (
        run,
        results,
        q,
        rq,
        refl,
        λ k.
            subst
              (λ i. find_row health_run k t ≡ (
                if str_eq i k then some (dated_run now g) else find_row health_run k s.run_healths))
              (health_of-run_id now id run results (bans_for db now src run))
              (saved-find db.save_health now g s.run_healths t k f),
        λ k.
            subst
              (λ i. find_run k (run_completed_by db g run s.runs).rows ≡ (
                if str_eq i k && completes db g run
                then ok (record run { state = run_completed })
                else find_run k s.runs.rows))
              same (run_completed_by_lem db g run s.runs k there),
        refl,
      )

  after_health-HasStored :
      (db : HealthAnswers) (now : Time) (src : HealthSources Float) (id : String) (run : Run)
      (results : List (RunResult Float)) (s s' : HealthState Float) (h : RunHealth)
      → find_run id s.runs.rows ≡ ok run
      → run.run_id ≡ id
      → get_run_results none id s.results ≡ ok results
      → store_health fl json db now src run
          (health_of fl json now id run results (bans_for db now src run))
          s
        ≡ (ok h, s')
      → HasStored db now src id s h s'
  unfolding store_health after_health
  after_health-HasStored db now src id run results s s' h q same rq k =
      let g = health_of fl json now id run results (bans_for db now src run) in
      elim (Result-cases (save_run_health db.save_health now g s.run_healths)) [
        | inr (e, f) ↦ let no : (err e, s) ≡ (ok h, s') = rw (store_health, f) at k in cc no
        | inl (t, f) ↦
            let made : (ok g, after_health fl json db now src run g t s) ≡ (ok h, s') =
              rw (store_health, f) at k in
            let eq_h : g ≡ h = ok-injective (ap (λ p. p.0) made) in
            let eq_s : after_health fl json db now src run g t s ≡ s' = ap (λ p. p.1) made in
            subst (λ u. HasStored db now src id s u s') eq_h
              (subst (λ u. HasStored db now src id s g u) eq_s
                (after-HasStored db now src id run results t s q same rq f))
      ]

  calculate-HasStored :
      (db : HealthAnswers) (now : Time) (src : HealthSources Float) (id : String)
      (s s' : HealthState Float) (h : RunHealth)
      → calculate_stored_health fl json db now src id s ≡ (ok h, s')
      → HasStored db now src id s h s'
  unfolding calculate_stored_health
  calculate-HasStored db now src id s s' h k = elim (Result-cases (get_run db.run id s.runs)) [
    | inr (e, f) ↦ let no : (err e, s) ≡ (ok h, s') = rw (calculate_stored_health, f) at k in cc no
    | inl (run, f) ↦ elim (Result-cases (get_run_results db.results id s.results)) [
      | inr (e, g) ↦
          let no : (err e, s) ≡ (ok h, s') = rw (calculate_stored_health, f, g) at k in cc no
      | inl (results, g) ↦
          let there = get_run-key db.run id s.runs run f in
          after_health-HasStored db now src id run results s s' h there.0 there.1
            (results-none db.results id s.results results g)
            (rw (calculate_stored_health, f, g) at k)
    ]
  ]

  -- What a calculation that succeeds leaves: the health that it returns, under the run's key and no
  -- other; the run marked as completed, or not; and the results as they were.
  abbrev pub IsStored :
      HealthAnswers
      → Time
      → HealthSources Float
      → String
      → HealthState Float
      → RunHealth
      → HealthState Float
      → Type 0
  IsStored db now src id s h s' =
      (run : Run) × (find_run id s.runs.rows ≡ ok run)
      × IsHealthOf db.bans now id run s.results src.bans.rows h
      × ((k : String)
          → find_row health_run k s'.run_healths
            ≡ (if str_eq id k then some h else find_row health_run k s.run_healths))
      × ((k : String)
          → find_run k s'.runs.rows ≡ (
              if str_eq id k && finishes db.update run.state h.pending_count
              then ok (record run { state = run_completed })
              else find_run k s.runs.rows))
      × (s'.results ≡ s.results)

  -- A calculation of a run's health that succeeds stores, under the run's key and no other, the
  -- health that it returns. It counts the clients whose first stored result for the run is a
  -- success, a failure and an error, the participants that an active ban holds from just the run's
  -- workflow type (none where the database does not tell the bans), and as pending what is left
  -- of the participants without both; a banned client that has a result is taken off twice. The
  -- run is marked as completed exactly where no client is pending, it is not marked already and
  -- UpdateRun does not fail; no other run and no result changes.
  pub calculate-IsStored :
      (db : HealthAnswers) (now : Time) (src : HealthSources Float) (id : String)
      (s s' : HealthState Float) (h : RunHealth)
      → calculate_stored_health fl json db now src id s ≡ (ok h, s')
      → IsStored db now src id s h s'
  calculate-IsStored db now src id s s' h k =
      let (run, results, found, read, same, stored, marked, kept) =
        calculate-HasStored db now src id s s' h k in
      let is_health =
        subst (IsHealthOf db.bans now id run s.results src.bans.rows) (sym same)
          (health_of-IsHealthOf fl json db.bans now id run src.bans s.results results read) in
      let dated : h.calculated_at ≡ now = is_health.3 in
      (
        run,
        found,
        is_health,
        λ k. stored k ∙ rw (dated_lem now h dated) refl,
        λ k. marked k ∙ rw (completes-finishes db h run) refl,
        kept,
      )
