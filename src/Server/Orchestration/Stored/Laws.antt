-- ===== src/Server/Orchestration/Stored/Laws.antt =====
-- What a triggered workflow leaves in the tables.
use super_duper_bassoon.Common.{
  String, Bool, true, false, List, [], Option, none, some, if◌then◌else◌, str_eq, not, ◌≡◌, refl,
  sym, subst, ◌∙◌, arith, eq_iff, eq_refl, Option-cases, inl, inr,
}
use super_duper_bassoon.Common.Fault.{Fault, Result, ok, err, workflow_inactive}
use super_duper_bassoon.Common.Float.{Floats}
use super_duper_bassoon.Common.Time.{Time}
use super_duper_bassoon.Server.Filter.Ast.{FilterNode}
use super_duper_bassoon.Server.Filter.Eval.{Texts}
use super_duper_bassoon.Server.Workflow.{Workflow, Run, run_in_progress}
use super_duper_bassoon.Server.Workflow.Table.{get_workflow}
use super_duper_bassoon.Server.Clients.{list_clients}
use super_duper_bassoon.Server.Runs.{
  RunTable, create_run, find_run, get_run, joined, replace_run, update_run,
}
use super_duper_bassoon.Server.Runs.Laws.{
  IsJoined, create_run-IsJoined, find-replace, member, participants,
}
use super_duper_bassoon.Server.Ban.Service.{BanState}
use super_duper_bassoon.Server.Ban.Cache.{Synced}
use super_duper_bassoon.Server.Ban.DispatchFilter.Laws.{
  Parted, in_table, filter_dispatch_list-Parted,
}
use super_duper_bassoon.Server.Dispatch.{
  Dispatch, Send, close_sending, send_allowed, send_dispatches, send_loop, generate_dispatches,
}
use super_duper_bassoon.Server.Orchestration.{
  Triggered, TriggerAnswers, new_run, target_clients, refused_trigger, after_sending, start_run,
  trigger_workflow,
}
use super_duper_bassoon.Server.Orchestration.Laws.{triggered}
use super_duper_bassoon.Server.Orchestration.Stored.{
  TriggerFaults, answers_from, fault_of, kept_runs, store_created, store_updated, store_runs,
  trigger_stored,
}
use super_duper_bassoon.Server.Api.{Tables}

-- A run as SendDispatches leaves it.
abbrev started : Time → List String → Run → Run
started now a run = record run {
  participating_clients = a;
  dispatched_at = now;
  state = run_in_progress;
}

module _ {F B : Type 0} (send : Send F B) where
  closed :
      (now : Time) (f a : List String) (run : Run) (r : List (Dispatch F) × Option Fault × B)
      → let c = close_sending send now f (record run { participating_clients = a }) r in
        c.failure ≡ none → (c.run ≡ started now a run) × (c.saved ≡ some (started now a run))
  unfolding close_sending
  closed now f a run (sent, some e, b) h = absurd (cc h)
  closed now f a run (sent, none, b) h = (refl, refl)

  -- Without an error the run is saved with the clients that are let through.
  sent_to :
      (db : String → Option Fault) (now : Time) (s : BanState) (run : Run) (w : Workflow F)
      (ids : List String) (b : B)
      → Synced s
      → (send_dispatches send db now s run w ids b).failure ≡ none
      → (a : List String) × (f : List String) × Parted (in_table db now w.workflow_type s) ids a f
        × ((send_dispatches send db now s run w ids b).run ≡ started now a run)
        × ((send_dispatches send db now s run w ids b).saved ≡ some (started now a run))
  unfolding send_dispatches send_allowed
  sent_to db now s run w ids b h k =
      elim (filter_dispatch_list-Parted db now w.workflow_type s ids h) [
        | inr (e, id, q, d) ↦
            let no : some e ≡ none = rw (send_dispatches, q, send_allowed) at k in absurd (cc no)
        | inl (a, f, q, p) ↦
            let run' = record run { participating_clients = a } in
            let end =
              closed now f a run (send_loop send (generate_dispatches now run' w a) [] b)
                (rw (send_dispatches, q, send_allowed) at k) in
            (
              a,
              f,
              p,
              rw (send_dispatches, q, send_allowed) end.0,
              rw (send_dispatches, q, send_allowed) end.1,
            )
      ]

-- The run is found as it was updated, the others as they were, and `runs_clients` has the clients that
-- the run was created with.
abbrev HoldsRun : RunTable → Run → Run → RunTable → Type 0
HoldsRun t run run' u =
    (find_run run.run_id u.rows ≡ ok run')
    × ((id : String) → str_eq run.run_id id ≡ false → find_run id u.rows ≡ find_run id t.rows)
    × ((c : String) → joined run.run_id c u.runs_clients ≡ member c run.participating_clients)

stored-HoldsRun :
    (run run' : Run) (t t' : RunTable)
    → IsJoined t
    → run'.run_id ≡ run.run_id
    → create_run none run t ≡ ok t'
    → HoldsRun t run run' (kept_runs (update_run none run' t') t')
unfolding update_run participants
stored-HoldsRun run run' t t' h same made =
    let m = create_run-IsJoined run t t' h made in
    let found : find_run run.run_id t'.rows ≡ ok run = m.1 run.run_id ∙ rw eq_refl refl in
    let found' : find_run run'.run_id t'.rows ≡ ok run = rw same found in
    let updated : record t' { rows = replace_run run' t'.rows }
        ≡ kept_runs (update_run none run' t') t' =
      rw (update_run, found') refl in
    subst (HoldsRun t run run') updated (
      ground
          (arith, find-replace run' t'.rows run.run_id, found, same, eq_iff run'.run_id run.run_id),
      λ id other. ground (arith, find-replace run' t'.rows id, m.1 id, same, other),
      λ c. m.0 run.run_id c ∙ rw (participants, found) refl,
    )

no_fault_of : (r : Result RunTable) → fault_of r ≡ none → (t : RunTable) × (r ≡ ok t)
no_fault_of (err e) h = absurd (cc h)
no_fault_of (ok t) h = (t, refl)

never_fails :
    (db : Option Fault) (run : Run) (t t' : RunTable) → create_run db run t ≡ ok t' → db ≡ none
unfolding create_run
never_fails none run t t' h = refl
never_fails (some e) run t t' h = absurd (cc h)

-- What passes a guard that would fail is the other branch.
past_guard :
    {F B : Type 0} (act : Bool) (x y : Triggered F B) (e : Fault)
    → x.failure ≡ some e
    → (if not act then x else y).failure ≡ none
    → (if not act then x else y) ≡ y
past_guard true x y e f h = refl
past_guard false x y e f h = let no : some e ≡ none = sym f ∙ h in absurd (cc no)

module _ (fl : Floats) (tx : Texts fl.Float)
    (parse : String → Result (Option (FilterNode fl.Float))) {B : Type 0}
    (send : Send fl.Float B) where
  open fl use {Float}

  -- A trigger without an error has come to SendDispatches.
  come_to :
      (db : TriggerAnswers Float) (now : Time) (run_id reason : String) (s : BanState) (b : B)
      (w : Workflow Float) (ids : List String)
      → db.workflow ≡ ok w
      → target_clients fl tx parse w db.clients ≡ ok ids
      → (trigger_workflow fl tx parse send db now run_id reason s b).failure ≡ none
      → let run = new_run now run_id reason w ids in
        (db.create run ≡ none)
        × (trigger_workflow fl tx parse send db now run_id reason s b
            ≡ after_sending fl tx parse send run (send_dispatches send db.bans now s run w ids b))
  unfolding start_run
  come_to db now run_id reason s b w ids found targets h =
      let run = new_run now run_id reason w ids in
      let e = triggered fl tx parse send db now run_id reason s w b found in
      let past =
        past_guard w.active (refused_trigger fl tx parse send workflow_inactive b)
          (start_run fl tx parse send db now run_id reason s w b
            (target_clients fl tx parse w db.clients))
          workflow_inactive refl (subst (λ r. r.failure ≡ none) e h) in
      let same = e ∙ past in
      let h' = subst (λ r. r.failure ≡ none) same h in
      elim (Option-cases (db.create run)) [
        | inr (e', k) ↦ let no : some e' ≡ none = rw (targets, start_run, k) at h' in absurd (cc no)
        | inl k ↦ (k, same ∙ rw (targets, start_run, k) refl)
      ]

  -- Where the cache and the table of bans agree, `runs_clients` has a pair for just each client of
  -- each run, the workflow and its targeted clients are found, and UpdateRun is not refused, a
  -- trigger that reports no error returns a run that GetRun then finds. Its participants are
  -- the targeted clients that no active ban holds from the workflow type; but `runs_clients` has
  -- a pair for each targeted client, the banned ones too, and for no other. Every other run is
  -- found as before.
  pub trigger_stores :
      (db : TriggerFaults) (now : Time) (run_id reason id : String) (t : Tables Float) (b : B)
      (w : Workflow Float) (ids : List String)
      → Synced t.bans
      → IsJoined t.runs
      → db.update ≡ none
      → get_workflow db.get id t.workflows ≡ ok w
      → target_clients fl tx parse w (list_clients db.list t.clients) ≡ ok ids
      → (trigger_stored fl tx parse send db now run_id reason id t b).0.failure ≡ none
      → let r = trigger_stored fl tx parse send db now run_id reason id t b in
        (run : Run) × (f : List String) × (r.0.run ≡ some run)
        × (get_run none run_id r.1.runs ≡ ok run)
        × Parted (in_table db.bans now w.workflow_type t.bans) ids run.participating_clients f
        × ((c : String) → joined run_id c r.1.runs.runs_clients ≡ member c ids)
        × ((other : String)
            → str_eq run_id other ≡ false
            → find_run other r.1.runs.rows ≡ find_run other t.runs.rows)
  unfolding trigger_stored answers_from store_runs store_created store_updated after_sending get_run
  trigger_stores db now run_id reason id t b w ids h j u found targets k =
      let run = new_run now run_id reason w ids in
      let come = come_to (answers_from db id t) now run_id reason t.bans b w ids found targets k in
      let made = no_fault_of (create_run db.create run t.runs) come.0 in
      let created : create_run none run t.runs ≡ ok made.0 =
        subst (λ d. create_run d run t.runs ≡ ok made.0)
          (never_fails db.create run t.runs made.0 made.1) made.1 in
      let sent =
        sent_to send db.bans now t.bans run w ids b h (subst (λ r. r.failure ≡ none) come.1 k) in
      let run' = started now sent.0 run in
      let runs : kept_runs (update_run none run' made.0) made.0
          ≡ (trigger_stored fl tx parse send db now run_id reason id t b).1.runs =
        rw (come.1, sent.4, u, made.1) refl in
      let holds =
        subst (HoldsRun t.runs run run') runs
          (stored-HoldsRun run run' t.runs made.0 j refl created) in
      (run', sent.1, rw (come.1, sent.3) refl, holds.0, sent.2, holds.2, holds.1)
