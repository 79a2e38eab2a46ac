-- ===== src/Client/Pool/Run.antt =====
-- The loop of Run over the messages of a channel.
use super_duper_bassoon.Common.{
  String, true, List, [], ◌∷◌, ◌++◌, none, some, ◌≡◌, refl, ap, arith, ◌∙◌, sym, eq_iff, eq_refl,
  Bool-cases, inl, inr, str_eq, append-nil, append_assoc,
}
use super_duper_bassoon.Common.Fault.{Fault, Result, ok, err}
use super_duper_bassoon.Common.Float.{Floats}
use super_duper_bassoon.Common.Dict.{lookup, lookup-insert}
use super_duper_bassoon.Client.State.{ClientState, clone, clone_lem, silent}
use super_duper_bassoon.Client.Activity.{Activity, ActivityResult, DispatchMessage, ResultMessage}
use super_duper_bassoon.Client.Store.{MemoryStore, get_state}
use super_duper_bassoon.Client.Collector.{Publish, flush_results, flush_loop, after_publish}
use super_duper_bassoon.Client.Dispatch.{Executor, handle}
use super_duper_bassoon.Client.Chaos.Draws.{ChaosSource}
use super_duper_bassoon.Client.Chaos.{chaos_execute}
use super_duper_bassoon.Client.Chaos.Recovery.{silent_execute}
use super_duper_bassoon.Client.Pool.{Pool, finish, handle_dispatch, run_step, run}
use super_duper_bassoon.Client.Pool.Laws.{
  IsAddressed, handle_dispatch-Answers, handle_dispatch-Frame, finish_store,
}

-- A broker that takes every message; its state is what it was given.
abbrev pub recorder : {F : Type 0} → Publish F (List (ResultMessage F))
recorder m sent = (none, sent ++ m ∷ [])

-- One answer for each dispatch, in the order of the dispatches.
pub data Answered {F : Type 0} : List (DispatchMessage F) → List (ResultMessage F) → Type 0 where
  nothing : Answered [] []
  answer :
      {d : DispatchMessage F} {m : ResultMessage F} {ds : List (DispatchMessage F)}
      {ms : List (ResultMessage F)}
      → m.run_id ≡ d.run_id
      → m.wf_id ≡ d.wf_id
      → m.client_id ≡ d.client_id
      → Answered ds ms
      → Answered (d ∷ ds) (m ∷ ms)

-- Every dispatch names its run and workflow, and goes to a client in the store.
abbrev pub AllKnown : {F : Type 0} → MemoryStore → List (DispatchMessage F) → Type 0
AllKnown store [] = Unit
AllKnown store (d ∷ ds) =
    IsAddressed d × ((s : ClientState) × (lookup d.client_id store ≡ some s)) × AllKnown store ds

flush_one :
    {F : Type 0} (m : ResultMessage F) (sent : List (ResultMessage F))
    → flush_results recorder (m ∷ []) sent ≡ ([], none, sent ++ m ∷ [])
unfolding flush_results flush_loop after_publish
flush_one m sent = refl

module _ {F S : Type 0} (execute : Executor F S) (error_text : Fault → String) where
  still_known :
      (d : DispatchMessage F) (p : Pool F S) (id : String) (s : ClientState)
      → IsAddressed d
      → lookup id p.store ≡ some s
      → (t : ClientState) × (lookup id (handle_dispatch execute error_text d p).1.store ≡ some t)
  still_known d p id s h e = elim (Bool-cases (str_eq id d.client_id)) [
    | inl own ↦
        let same = (eq_iff id d.client_id).0 own in
        let a = (handle_dispatch-Answers execute error_text d s p h (rw same at e)).2 in
        (a.shown, rw same a.stored)
    | inr other ↦
        let frame = handle_dispatch-Frame execute error_text d p id in
        (s, frame.0 (λ q. cc ((eq_iff id d.client_id).1 q)) ∙ e)
  ]

  AllKnown-handle :
      (d : DispatchMessage F) (p : Pool F S) (ds : List (DispatchMessage F))
      → IsAddressed d
      → AllKnown p.store ds
      → AllKnown (handle_dispatch execute error_text d p).1.store ds
  AllKnown-handle d p [] h k = tt
  AllKnown-handle d p (x ∷ ds) h k =
      (k.0, still_known d p x.client_id k.1.0 h k.1.1, AllKnown-handle d p ds h k.2)

  run_step_lem :
      (d : DispatchMessage F) (p : Pool F S) (sent : List (ResultMessage F)) (m : ResultMessage F)
      → (handle_dispatch execute error_text d p).1.pending ≡ m ∷ []
      → run_step execute error_text recorder d (p, sent)
        ≡ (record (handle_dispatch execute error_text d p).1 { pending = [] }, sent ++ m ∷ [])
  unfolding run_step
  run_step_lem d p sent m e = rw (e, flush_one m sent)

  -- With a broker that takes every message, a pool that starts with an empty queue, given a
  -- channel whose dispatches all name their run and workflow and go to clients of the pool,
  -- publishes exactly one result for each of them, in their order, and ends with an empty queue.
  pub run_answers :
      (ds : List (DispatchMessage F)) (p : Pool F S) (sent : List (ResultMessage F))
      → p.pending ≡ []
      → AllKnown p.store ds
      → (ms : List (ResultMessage F)) × ((run execute error_text recorder ds (p, sent)).1
          ≡ sent ++ ms)
        × Answered ds ms
        × ((run execute error_text recorder ds (p, sent)).0.pending ≡ [])
  unfolding run run_step
  run_answers [] p sent e k = ([], sym (append-nil sent), nothing, e)
  run_answers (d ∷ ds) p sent e k =
      let (m, q, a) = handle_dispatch-Answers execute error_text d k.1.0 p k.0 k.1.1 in
      let added = q ∙ ap (λ l. l ++ m ∷ []) e in
      let p' = record (handle_dispatch execute error_text d p).1 { pending = [] } in
      let rest = run_answers ds p' (sent ++ m ∷ []) refl (AllKnown-handle d p ds k.0 k.2) in
      (
        m ∷ rest.0,
        rw (run, run_step_lem d p sent m added) (rest.1 ∙ append_assoc sent (m ∷ []) rest.0),
        answer a.same_run a.same_wf a.same_client rest.2,
        rw (run, run_step_lem d p sent m added) rest.3,
      )

module _ {fl : Floats} {S : Type 0} (src : ChaosSource fl S)
    (inner : String
      → Activity fl.Float
      → ClientState
      → Result (ClientState × ActivityResult fl.Float))
    (error_text : Fault → String) where
  silent_handle :
      (d : DispatchMessage fl.Float) (p : Pool fl.Float S) (s : ClientState)
      (q : ClientState × ActivityResult fl.Float)
      → lookup d.client_id p.store ≡ some s
      → s.is_crippled ≡ true
      → s.cripple_mode ≡ silent
      → (handle (chaos_execute fl src inner) p.store d p.source).0 ≡ ok q
      → q.0 ≡ s
  unfolding handle get_state
  silent_handle d p s q known held quiet h = ground (
    arith,
    silent_execute src inner d.client_id d.activity s p.source held quiet,
    clone_lem s,
    known,
  )

  finish_silent :
      (d : DispatchMessage fl.Float) (p : Pool fl.Float S) (s : ClientState)
      (r : Result (ClientState × ActivityResult fl.Float) × S)
      → lookup d.client_id p.store ≡ some s
      → ((q : ClientState × ActivityResult fl.Float) → r.0 ≡ ok q → q.0 ≡ s)
      → lookup d.client_id (finish (chaos_execute fl src inner) error_text d (clone s) r p).1.store
        ≡ some s
  unfolding finish
  finish_silent d p s (err f, t) known h = known
  finish_silent d p s (ok q, t) known h =
      rw (finish_store (chaos_execute fl src inner) error_text d (clone s) q t p) (
        lookup-insert d.client_id d.client_id (clone q.0) p.store
        ∙ rw (eq_refl d.client_id) (ap some (clone_lem q.0 ∙ h q refl)))

  own_step :
      (d : DispatchMessage fl.Float) (p : Pool fl.Float S) (s : ClientState)
      → lookup d.client_id p.store ≡ some s
      → s.is_crippled ≡ true
      → s.cripple_mode ≡ silent
      → lookup d.client_id (handle_dispatch (chaos_execute fl src inner) error_text d p).1.store
        ≡ some s
  unfolding handle_dispatch get_state
  own_step d p s known held quiet =
      rw (known, handle_dispatch, get_state)
        (finish_silent d p s (handle (chaos_execute fl src inner) p.store d p.source) known
          (λ q. silent_handle d p s q known held quiet))

  silent_step :
      (d : DispatchMessage fl.Float) (p : Pool fl.Float S) (id : String) (s : ClientState)
      → lookup id p.store ≡ some s
      → s.is_crippled ≡ true
      → s.cripple_mode ≡ silent
      → lookup id (handle_dispatch (chaos_execute fl src inner) error_text d p).1.store ≡ some s
  silent_step d p id s known held quiet = elim (Bool-cases (str_eq id d.client_id)) [
    | inl own ↦
        let same = (eq_iff id d.client_id).0 own in
        rw same (own_step d p s (rw same at known) held quiet)
    | inr other ↦
        (handle_dispatch-Frame (chaos_execute fl src inner) error_text d p id).0
          (λ q. cc ((eq_iff id d.client_id).1 q))
        ∙ known
  ]

  -- No sequence of dispatches, reboots among them, and no behaviour of the broker or the source of
  -- chance ever changes the stored state of a client in silent mode.
  pub silent_forever :
      {B : Type 0} (publish : Publish fl.Float B) (ds : List (DispatchMessage fl.Float))
      (p : Pool fl.Float S) (b : B) (id : String) (s : ClientState)
      → lookup id p.store ≡ some s
      → s.is_crippled ≡ true
      → s.cripple_mode ≡ silent
      → lookup id (run (chaos_execute fl src inner) error_text publish ds (p, b)).0.store ≡ some s
  unfolding run run_step
  silent_forever publish [] p b id s known held quiet = known
  silent_forever publish (d ∷ ds) p b id s known held quiet =
      silent_forever publish ds _ _ id s (silent_step d p id s known held quiet) held quiet
