-- ===== src/Server/Health/Monitor/Rows.antt =====
-- The rows that HealthMonitoringService finds behind its writes.
use super_duper_bassoon.Common.{
  String, Bool, true, false, List, [], ◌∷◌, Option, none, some, if◌then◌else◌, str_eq, not, ◌&&◌,
  ◌≡◌, refl, ◌∙◌, subst, arith, eq_iff,
}
use super_duper_bassoon.Common.Fault.{Fault, ok, ok-injective}
use super_duper_bassoon.Common.Dict.{Dict}
use super_duper_bassoon.Common.Time.{Time}
use super_duper_bassoon.Client.Activity.{ResultStatus, success, fail, error, other_status}
use super_duper_bassoon.Server.Rows.{find_row, upsert_row}
use super_duper_bassoon.Server.Rows.Laws.{find-upsert, merged}
use super_duper_bassoon.Server.Workflow.{Run, run_completed}
use super_duper_bassoon.Server.Runs.{RunTable, find_run, get_run, update_run}
use super_duper_bassoon.Server.Runs.Laws.{find-replace}
use super_duper_bassoon.Server.Health.{RunHealth, count_status, count_statuses, is_complete}
use super_duper_bassoon.Server.Health.Table.{save_run_health, health_run, take_new, dated_run}
use super_duper_bassoon.Server.Health.Monitor.{HealthAnswers, is_completed, kept, run_completed_by}

count_status-run_id : (s : ResultStatus) (h : RunHealth) → (count_status s h).run_id ≡ h.run_id
unfolding count_status
count_status-run_id success h = refl
count_status-run_id fail h = refl
count_status-run_id error h = refl
count_status-run_id (other_status t) h = refl

pub count_statuses-run_id :
    (seen : Dict ResultStatus) (h : RunHealth) → (count_statuses seen h).run_id ≡ h.run_id
unfolding count_statuses
count_statuses-run_id [] h = refl
count_statuses-run_id ((id, s) ∷ seen) h =
    count_statuses-run_id seen (count_status s h) ∙ count_status-run_id s h

find_run-key : (id : String) (rows : List Run) (r : Run) → find_run id rows ≡ ok r → r.run_id ≡ id
unfolding find_run
find_run-key id [] r h = cc
find_run-key id (q ∷ rows) r h = ground (arith, eq_iff q.run_id id, find_run-key id rows r)

pub get_run-key :
    (db : Option Fault) (id : String) (t : RunTable) (r : Run)
    → get_run db id t ≡ ok r
    → (find_run id t.rows ≡ ok r) × (r.run_id ≡ id)
unfolding get_run
get_run-key (some e) id t r h = cc
get_run-key none id t r h = (h, find_run-key id t.rows r h)

abbrev pub is_none {ℓ} : {A : Type ℓ} → Option A → Bool
is_none none = true
is_none (some a) = false

-- Whether the run is marked as completed.
abbrev pub completes : HealthAnswers → RunHealth → Run → Bool
completes db h run = is_complete h && not (is_completed run.state) && is_none db.update

abbrev pub with_completed : Run → Run
with_completed run = record run { state = run_completed }

completed-update :
    (db : Option Fault) (run : Run) (t : RunTable) (k : String)
    → find_run run.run_id t.rows ≡ ok run
    → find_run k (kept (update_run db (with_completed run) t) t).rows
      ≡ (if str_eq run.run_id k && is_none db then ok (with_completed run) else find_run k t.rows)
unfolding update_run
completed-update (some e) run t k h = ground arith
completed-update none run t k h =
    rw (update_run, h)
      (ground (arith, find-replace (with_completed run) t.rows k, eq_iff run.run_id k, h))

pub run_completed_by_lem :
    (db : HealthAnswers) (h : RunHealth) (run : Run) (t : RunTable) (k : String)
    → find_run run.run_id t.rows ≡ ok run
    → find_run k (run_completed_by db h run t).rows ≡ (
        if str_eq run.run_id k && completes db h run
        then ok (with_completed run)
        else find_run k t.rows)
unfolding run_completed_by
run_completed_by_lem db h run t k q = ground (arith, completed-update db.update run t k q)

merged-take_new : {A : Type 0} (new : A) (o : Option A) → merged take_new new o ≡ new
merged-take_new new none = refl
merged-take_new new (some old) = refl

upserted-find :
    (now : Time) (h : RunHealth) (t : List RunHealth) (k : String)
    → find_row health_run k (upsert_row health_run take_new (dated_run now h) t)
      ≡ (if str_eq h.run_id k then some (dated_run now h) else find_row health_run k t)
unfolding dated_run
upserted-find now h t k =
    find-upsert health_run take_new (λ old new. refl) (dated_run now h) t k
    ∙ rw merged-take_new refl

pub saved-find :
    (db : Option Fault) (now : Time) (h : RunHealth) (t t' : List RunHealth) (k : String)
    → save_run_health db now h t ≡ ok t'
    → find_row health_run k t'
      ≡ (if str_eq h.run_id k then some (dated_run now h) else find_row health_run k t)
unfolding save_run_health
saved-find (some e) now h t t' k q = cc
saved-find none now h t t' k q =
    subst
      (λ u.
        find_row health_run k u
        ≡ (if str_eq h.run_id k then some (dated_run now h) else find_row health_run k t))
      (ok-injective q) (upserted-find now h t k)
