-- ===== src/Examples/Client.antt =====
-- The simulated clients: a pool of two of them, the second in silent mode.
use super_duper_bassoon.Common.{
  ℕ, String, Bool, true, false, List, [], ◌∷◌, ◌++◌, none, some, ◌≡◌, ◌↔◌, ◌⊎◌, refl,
}
use super_duper_bassoon.Common.Int.{ℤ}
use super_duper_bassoon.Common.Dict.{lookup}
use super_duper_bassoon.Common.Fault.{Fault, Result, external}
use super_duper_bassoon.Client.Value.{end}
use super_duper_bassoon.Client.State.{ClientState, IsConsistent}
use super_duper_bassoon.Client.Activity.{
  Activity, ActivityResult, DispatchMessage, ResultMessage, install_package, success, fail,
  execute_activity, standard_execute, activity-IsValid,
}
use super_duper_bassoon.Client.Chaos.{chaos_execute}
use super_duper_bassoon.Client.Chaos.Draws.{Yields}
use super_duper_bassoon.Client.Chaos.Laws.{Outcome, chaos_execute-Outcome}
use super_duper_bassoon.Client.Chaos.Recovery.{chaos_execute-IsConsistent, reboot_recovers}
use super_duper_bassoon.Client.Collector.{Pending, Publish, flush_results}
use super_duper_bassoon.Client.Collector.Laws.{
  handed, Weave, accepted, attempts, first_failure, flush_results_lem,
}
use super_duper_bassoon.Client.Pool.{handle_dispatch, run}
use super_duper_bassoon.Client.Pool.Laws.{Answers, handle_dispatch-Answers}
use super_duper_bassoon.Client.Pool.Run.{Answered, AllKnown, recorder, run_answers, silent_forever}
use super_duper_bassoon.Examples.Data.{
  thousandths, counter, counter-IsRandom, healthy, config_broken, mute, install_vim, restart,
  to_client, two_clients,
}

abbrev standard : String → Activity ℤ → ClientState → Result (ClientState × ActivityResult ℤ)
standard = standard_execute thousandths

abbrev with_chaos :
    String → Activity ℤ → ClientState → ℕ → Result (ClientState × ActivityResult ℤ) × ℕ
with_chaos = chaos_execute thousandths counter standard

abbrev fault_text : Fault → String
fault_text e = "refused"

chaos_execute-Outcome_example :
    Yields
      (Outcome healthy install_package (execute_activity thousandths install_vim healthy))
      (with_chaos "a" install_vim healthy)
unfolding standard_execute activity-IsValid
chaos_execute-Outcome_example =
    chaos_execute-Outcome counter counter-IsRandom standard "a" install_vim healthy
      (execute_activity thousandths install_vim healthy) refl

chaos_execute-IsConsistent_example :
    Yields (λ q. IsConsistent q.0) (with_chaos "a" install_vim config_broken)
unfolding activity-IsValid
chaos_execute-IsConsistent_example =
    chaos_execute-IsConsistent counter counter-IsRandom "a" install_vim config_broken refl tt

reboot_recovers_example :
    Yields
      (λ q. (q.1.status ≡ fail) ⊎ (q.0.is_crippled ≡ false))
      (with_chaos "a" restart config_broken)
reboot_recovers_example =
    reboot_recovers counter counter-IsRandom "a" restart config_broken refl (λ e. cc e)

handle_dispatch-Answers_example :
    let q = (handle_dispatch with_chaos fault_text (to_client "a" install_vim) two_clients).1 in
    (m : ResultMessage ℤ) × (q.pending ≡ m ∷ []) × Answers (to_client "a" install_vim) q.store m
unfolding lookup
handle_dispatch-Answers_example =
    handle_dispatch-Answers with_chaos fault_text (to_client "a" install_vim) healthy two_clients
      ((λ e. cc e), (λ e. cc e), (λ e. cc e)) refl

abbrev three_dispatches : List (DispatchMessage ℤ)
three_dispatches = to_client "a" install_vim ∷ to_client "b" restart ∷ to_client "a" restart ∷ []

three-AllKnown : AllKnown two_clients.store three_dispatches
unfolding lookup
three-AllKnown = (
  ((λ e. cc e), (λ e. cc e), (λ e. cc e)),
  (healthy, refl),
  (
    ((λ e. cc e), (λ e. cc e), (λ e. cc e)),
    (mute, refl),
    (((λ e. cc e), (λ e. cc e), (λ e. cc e)), (healthy, refl), tt),
  ),
)

run_answers_example :
    (ms : List (ResultMessage ℤ)) × ((run with_chaos fault_text recorder three_dispatches
        (two_clients, [])).1
      ≡ [] ++ ms)
    × Answered three_dispatches ms
    × ((run with_chaos fault_text recorder three_dispatches (two_clients, [])).0.pending ≡ [])
run_answers_example =
    run_answers with_chaos fault_text three_dispatches two_clients [] refl three-AllKnown

silent_forever_example :
    lookup "b" (run with_chaos fault_text recorder three_dispatches (two_clients, [])).0.store
    ≡ some mute
unfolding lookup
silent_forever_example =
    silent_forever counter standard fault_text recorder three_dispatches two_clients [] "b" mute
      refl refl refl

-- A broker that refuses every other message.
abbrev moody : Publish ℤ Bool
moody m true = (none, false)
moody m false = (some external, true)

abbrev queued : String → ResultMessage ℤ
queued id = record {
  run_id = "run";
  wf_id = "wf";
  client_id = id;
  status = success;
  inner_state = some healthy;
  error_msg = "";
  payload = end;
}

abbrev three_results : Pending ℤ
three_results = queued "a" ∷ queued "b" ∷ queued "c" ∷ []

flush_results_lem_example :
    Weave three_results
      (accepted (attempts moody three_results true))
      (flush_results moody three_results true).0
    × ((flush_results moody three_results true).1
        ≡ first_failure (attempts moody three_results true))
    × (((flush_results moody three_results true).1 ≡ none)
        ↔ ((flush_results moody three_results true).0 ≡ []))
    × ((flush_results moody three_results true).2 ≡ handed moody three_results true)
flush_results_lem_example = flush_results_lem moody three_results true
