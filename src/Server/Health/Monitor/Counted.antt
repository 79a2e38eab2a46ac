-- ===== src/Server/Health/Monitor/Counted.antt =====
-- The health that a run has, told by the rows of the tables alone.
use super_duper_bassoon.Common.{
  ℕ, ◌+◌, ◌-◌, String, Bool, true, false, List, [], ◌∷◌, Option, none, some, if◌then◌else◌, str_eq,
  ltb, ◌==◌, not, ◌&&◌, ◌||◌, ◌≡◌, refl, ap, map, arith, ◌∙◌, subst, length, Bool-cases, inl, inr,
}
use super_duper_bassoon.Common.Fault.{Fault, ok, ok-injective}
use super_duper_bassoon.Common.Float.{Floats}
use super_duper_bassoon.Common.Time.{Time, is_zero}
use super_duper_bassoon.Server.Ban.Record.{BanRecord}
use super_duper_bassoon.Server.Ban.Table.{
  BanTable, get_active_bans_by_workflow_type, in_force, select_bans,
}
use super_duper_bassoon.Server.Rows.{select}
use super_duper_bassoon.Server.Workflow.{
  Run, RunResult, RunState, run_pending, run_in_progress, run_completed, run_failed,
}
use super_duper_bassoon.Server.Workflow.Table.{Json}
use super_duper_bassoon.Server.Results.Table.{ResultRow, get_run_results, of_run, result_of}
use super_duper_bassoon.Server.Health.{RunHealth, is_complete}
use super_duper_bassoon.Server.Health.Table.{dated_run}
use super_duper_bassoon.Server.Health.Monitor.Rows.{completes, is_none}
use super_duper_bassoon.Server.Health.Counts.{firsts, is_error, is_fail, is_success, number}
use super_duper_bassoon.Server.Health.Laws.{calculate-SameNames, calculate-counts}
use super_duper_bassoon.Server.Health.Monitor.{
  HealthAnswers, banned_count, health_of, in_bans, is_completed, listed,
}

-- The results of a run, in the order in which they are stored.
pub results_for : {F : Type 0} → String → List (ResultRow F) → List (Option (RunResult F))
results_for id [] = []
results_for id (row ∷ rows) =
    let rest = results_for id rows in
    if str_eq row.result.run_id id then some row.result ∷ rest else rest

-- A row that bans the client from just this workflow type and has not ended.
pub holds : Time → String → String → List BanRecord → Bool
holds now workflow_type client_id [] = false
holds now workflow_type client_id (b ∷ rows) =
    (str_eq b.client_id client_id
      && str_eq b.workflow_type workflow_type
      && b.active
      && (elim b.banned_until [ none ↦ true | some until ↦ ltb now until ]))
    || holds now workflow_type client_id rows

-- The clients of a run that are banned; none where the database does not say.
pub banned_number : Option Fault → Time → String → List BanRecord → List String → ℕ
banned_number (some e) now workflow_type rows clients = 0
banned_number none now workflow_type rows clients =
    number (λ c. holds now workflow_type c rows) clients

-- `h` is the health of the run `id` at `now`, by the stored results and the stored bans.
abbrev pub IsHealthOf :
    {F : Type 0}
    → Option Fault
    → Time
    → String
    → Run
    → List (ResultRow F)
    → List BanRecord
    → RunHealth
    → Type 0
IsHealthOf db_bans now id run results bans h =
    (h.run_id ≡ id)
    × (h.workflow_id ≡ run.workflow_id)
    × (h.workflow_type ≡ run.workflow_type)
    × (h.calculated_at ≡ now)
    × (h.total_clients ≡ length run.participating_clients)
    × (h.banned_client_count
        ≡ banned_number db_bans now run.workflow_type bans run.participating_clients)
    × (h.success_count ≡ number is_success (firsts (results_for id results) []))
    × (h.fail_count ≡ number is_fail (firsts (results_for id results) []))
    × (h.error_count ≡ number is_error (firsts (results_for id results) []))
    × (h.pending_count
        ≡ h.total_clients
          - h.banned_client_count
          - (h.success_count + h.fail_count + h.error_count))

-- The run is marked now: no client is pending, it is not marked yet, and UpdateRun does not fail.
unfoldable pub finishes : Option Fault → RunState → ℕ → Bool
finishes (some e) state pending = false
finishes none run_completed pending = false
finishes none _ pending = pending == 0

pub finishes_lem :
    (db : Option Fault) (state : RunState) (pending : ℕ)
    → (pending == 0 && not (is_completed state) && is_none db) ≡ finishes db state pending
unfolding finishes is_completed
finishes_lem (some e) state pending = ground arith
finishes_lem none run_pending pending = ground arith
finishes_lem none run_in_progress pending = ground arith
finishes_lem none run_completed pending = ground arith
finishes_lem none run_failed pending = ground arith

pub completes-finishes :
    (db : HealthAnswers) (h : RunHealth) (run : Run)
    → completes db h run ≡ finishes db.update run.state h.pending_count
unfolding is_complete
completes-finishes db h run = finishes_lem db.update run.state h.pending_count

pub dated_lem : (now : Time) (h : RunHealth) → h.calculated_at ≡ now → dated_run now h ≡ h
unfolding dated_run
dated_lem now h e = elim (Bool-cases (is_zero h.calculated_at)) [
  | inl z ↦ rw (z, e) refl
  | inr z ↦ rw z refl
]

results_for_lem :
    {F : Type 0} (id : String) (rows : List (ResultRow F))
    → map (λ r. some r) (map result_of (select (of_run id) rows)) ≡ results_for id rows
unfolding results_for select of_run
results_for_lem id [] = refl
results_for_lem id (row ∷ rows) = elim (Bool-cases (str_eq row.result.run_id id)) [
  | inl e ↦ rw e (ap (λ l. some row.result ∷ l) (results_for_lem id rows))
  | inr e ↦ rw e (results_for_lem id rows)
]

in_bans-holds :
    (now : Time) (wt c : String) (rows : List BanRecord)
    → in_bans c (select_bans (λ b. str_eq b.workflow_type wt && in_force now b) rows)
      ≡ holds now wt c rows
unfolding in_bans holds select_bans in_force
in_bans-holds now wt c [] = refl
in_bans-holds now wt c (b ∷ rows) = ground (arith, in_bans-holds now wt c rows)

banned_count-none : (clients : List String) → banned_count [] clients ≡ 0
unfolding banned_count in_bans
banned_count-none [] = refl
banned_count-none (c ∷ cs) = omega (arith, banned_count-none cs)

banned_count-number :
    (now : Time) (wt : String) (rows : List BanRecord) (clients : List String)
    → banned_count (select_bans (λ b. str_eq b.workflow_type wt && in_force now b) rows) clients
      ≡ number (λ c. holds now wt c rows) clients
unfolding banned_count number
banned_count-number now wt rows [] = refl
banned_count-number now wt rows (c ∷ cs) =
    rw (in_bans-holds now wt c rows, banned_count-number now wt rows cs) refl

banned_lem :
    (db : Option Fault) (now : Time) (wt : String) (t : BanTable) (clients : List String)
    → banned_count (listed (get_active_bans_by_workflow_type db now wt t)) clients
      ≡ banned_number db now wt t.rows clients
unfolding get_active_bans_by_workflow_type banned_number
banned_lem (some e) now wt t clients = banned_count-none clients
banned_lem none now wt t clients = banned_count-number now wt t.rows clients

read_results :
    {F : Type 0} (id : String) (rows : List (ResultRow F)) (results : List (RunResult F))
    → get_run_results none id rows ≡ ok results
    → map (λ r. some r) results ≡ results_for id rows
unfolding get_run_results
read_results id rows results h =
    subst (λ l. map (λ r. some r) l ≡ results_for id rows) (ok-injective h)
      (results_for_lem id rows)

module _ (fl : Floats) (json : Json fl.Float) where
  open fl use {Float}

  pub health_of-IsHealthOf :
      (db : Option Fault) (now : Time) (id : String) (run : Run) (t : BanTable)
      (rows : List (ResultRow Float)) (results : List (RunResult Float))
      → get_run_results none id rows ≡ ok results
      → IsHealthOf db now id run rows t.rows (
          health_of fl json now id run results
            (listed (get_active_bans_by_workflow_type db now run.workflow_type t)))
  unfolding health_of
  health_of-IsHealthOf db now id run t rows results h =
      let bans = listed (get_active_bans_by_workflow_type db now run.workflow_type t) in
      let clients = run.participating_clients in
      let banned = banned_count bans clients in
      let rs = map (λ r. some r) results in
      let (names, total, out) =
        calculate-SameNames now id run.workflow_id run.workflow_type (length clients) banned rs in
      let (s, f, e, pending, few, whole) =
        calculate-counts now id run.workflow_id run.workflow_type (length clients) banned rs in
      let same = read_results id rows results h in
      (
        names.0,
        names.1,
        names.2,
        names.3,
        total,
        out ∙ banned_lem db now run.workflow_type t clients,
        s ∙ ap (λ l. number is_success (firsts l [])) same,
        f ∙ ap (λ l. number is_fail (firsts l [])) same,
        e ∙ ap (λ l. number is_error (firsts l [])) same,
        omega (arith, pending, total, out),
      )
