-- ===== src/Server/System/Reach.antt =====
-- What holds of the tables however long the server runs.
use super_duper_bassoon.Common.{
  String, Bool, true, false, List, [], ◌∷◌, Option, none, some, if◌then◌else◌, ◌≡◌, sym, subst,
  ◌||◌, not, str_eq, All,
}
use super_duper_bassoon.Common.Dict.{Dict}
use super_duper_bassoon.Common.Fault.{Fault, Result, ok, err}
use super_duper_bassoon.Common.Float.{Floats}
use super_duper_bassoon.Common.Time.{Time}
use super_duper_bassoon.Server.Filter.Eval.{ClientMetadata}
use super_duper_bassoon.Server.Workflow.{Workflow, Run, RunResult, validate_definition}
use super_duper_bassoon.Server.Workflow.Table.{Json}
use super_duper_bassoon.Server.Health.Monitor.{HealthAnswers}
use super_duper_bassoon.Server.Ban.Cache.{Synced}
use super_duper_bassoon.Server.Triggers.{
  Cron, Reason, evaluate_tick, evaluate_triggers, fire_where, is_scheduled, on_schedule,
  should_fire,
}
use super_duper_bassoon.Server.Api.{Tables}
use super_duper_bassoon.Server.Http.{Request}
use super_duper_bassoon.Server.Http.Handlers.{Surroundings, serve}
use super_duper_bassoon.Server.System.{ResultAnswers, ServerConfig, take_result}
use super_duper_bassoon.Server.System.Ticks.{
  TickAnswers, circuit_tick, health_tick, register_message, trigger_tick,
}
use super_duper_bassoon.Server.System.Laws.{
  IsSound, carried-AllDefined, result-IsSound, serve-IsSound,
}

module _ (fl : Floats) (json : Json fl.Float) (cfg : ServerConfig fl.Float) where
  open fl use {Float}

  circuit-IsSound :
      (db : TickAnswers) (now : Time) (t : Tables Float)
      → IsSound fl json cfg t
      → IsSound fl json cfg (circuit_tick fl json cfg db now t)
  unfolding circuit_tick
  circuit-IsSound db now t h = record {
    bans = h.bans;
    workflows = carried-AllDefined fl json cfg now _ t.workflows h.workflows;
  }

  module _ (trigger : String → Tables Float → Result Run × Tables Float)
      (trigger_keeps : (id : String) (t : Tables Float)
        → ((trigger id t).1.workflows ≡ t.workflows) × ((trigger id t).1.bans ≡ t.bans))
      (fire : String → Reason → Tables Float → Tables Float)
      (fire_keeps : (id : String) (reason : Reason) (t : Tables Float)
        → ((fire id reason t).workflows ≡ t.workflows) × ((fire id reason t).bans ≡ t.bans)) where
    kept-IsSound :
        (t u : Tables Float)
        → (u.workflows ≡ t.workflows) × (u.bans ≡ t.bans)
        → IsSound fl json cfg t
        → IsSound fl json cfg u
    kept-IsSound t u k h = record {
      bans = subst Synced (sym k.1) h.bans;
      workflows = subst (All (λ w. validate_definition fl w ≡ ok tt)) (sym k.0) h.workflows;
    }

    fired-IsSound :
        (cron : Cron) (answer : Option Bool) (w : Workflow Float) (t : Tables Float)
        → IsSound fl json cfg t
        → IsSound fl json cfg (fire_where cron fire answer w t)
    unfolding fire_where
    fired-IsSound cron none w t h = h
    fired-IsSound cron (some true) w t h =
        kept-IsSound t (fire w.id on_schedule t) (fire_keeps w.id on_schedule t) h
    fired-IsSound cron (some false) w t h = h

    triggers-IsSound :
        (cron : Cron) (now : Time) (ws : List (Workflow Float)) (times : Dict Time)
        (t : Tables Float)
        → IsSound fl json cfg t
        → IsSound fl json cfg (evaluate_triggers cron fire now ws times t).1
    unfolding evaluate_triggers fire_where
    triggers-IsSound cron now [] times t h = h
    triggers-IsSound cron now (w ∷ ws) times t h =
        let (answer, times') =
          if not (is_scheduled w.trigger.kind) || str_eq w.trigger.cron ""
          then (some false, times)
          else should_fire cron w.id w.trigger now times in
        triggers-IsSound cron now ws times' _ (fired-IsSound cron answer w t h)

    tick-IsSound :
        (cron : Cron) (r : Result (List (Workflow Float))) (now : Time) (times : Dict Time)
        (t : Tables Float)
        → IsSound fl json cfg t
        → IsSound fl json cfg (evaluate_tick cron fire r now times t).1
    unfolding evaluate_tick
    tick-IsSound cron (err e) now times t h = h
    tick-IsSound cron (ok ws) now times t h = triggers-IsSound cron now ws times t h

    -- One message of the result channel or of client.register, one HTTP request, or one tick.
    pub data Step : Tables Float → Tables Float → Type 0 where
      takes :
          (db : ResultAnswers) (now : Time) (r : Option (RunResult Float)) (t : Tables Float)
          → Step t (take_result fl json cfg db now r t)
      serves :
          (at : Surroundings) (r : Request Float) (t : Tables Float)
          → Step t (serve fl json trigger at r t).1
      registers :
          (db : Option Fault) (now : Time) (c : Option (ClientMetadata Float)) (t : Tables Float)
          → Step t (register_message fl json cfg db now c t)
      aggregates :
          (db : HealthAnswers) (db_active : Option Fault) (now : Time) (t : Tables Float)
          → Step t (health_tick fl json cfg db db_active now t)
      evaluates :
          (db : TickAnswers) (now : Time) (t : Tables Float)
          → Step t (circuit_tick fl json cfg db now t)
      schedules :
          (cron : Cron) (db : Option Fault) (now : Time) (times : Dict Time) (t : Tables Float)
          → Step t (trigger_tick fl json cfg cron fire db now times t).1

    pub data Reach (start : Tables Float) : Tables Float → Type 0 where
      at_start : Reach start start
      after : {t u : Tables Float} → Reach start t → Step t u → Reach start u

    Step-IsSound : {t u : Tables Float} → Step t u → IsSound fl json cfg t → IsSound fl json cfg u
    unfolding register_message health_tick trigger_tick
    Step-IsSound (takes db now r t) h = result-IsSound fl json cfg db now r t h
    Step-IsSound (serves at r t) h = serve-IsSound fl json cfg trigger trigger_keeps at r t h
    Step-IsSound (registers db now c t) h = record { bans = h.bans; workflows = h.workflows }
    Step-IsSound (aggregates db db_active now t) h = record {
      bans = h.bans;
      workflows = h.workflows;
    }
    Step-IsSound (evaluates db now t) h = circuit-IsSound db now t h
    Step-IsSound (schedules cron db now times t) h = tick-IsSound cron _ now times t h

    -- From tables in which the cache and the table of bans agree and every workflow passes
    -- ValidateDefinition, any number of results, registrations, HTTP requests and ticks of the
    -- aggregation, of the circuit breaker and of the triggers, in any order and wherever the
    -- database fails (but in the circuit breaker's reading of policies and its calls of the state
    -- manager, which do not fail here), leads only to such tables, where triggering a workflow
    -- writes neither workflows nor bans.
    pub Reach-IsSound :
        {start t : Tables Float} → Reach start t → IsSound fl json cfg start → IsSound fl json cfg t
    Reach-IsSound at_start h = h
    Reach-IsSound (after reached step) h = Step-IsSound step (Reach-IsSound reached h)
