-- ===== src/Client/Pool.antt =====
-- internal/core/services/client_pool.go: the pool of inner clients. Its state is the store, the
-- queue of the collector and the source of chance; the broker is a parameter.
pub mod Laws
pub mod Run
use Prim.Native.String.{◌++◌ as str_append}
use Prim.Native.String
use Prim.Native.Char.{Char}
use super_duper_bassoon.Common.{
  ℕ, zero, suc, ◌+◌, ◌/◌, ◌%◌, String, Bool, true, false, List, [], ◌∷◌, ◌++◌, Option, none, some,
  if◌then◌else◌,
}
use super_duper_bassoon.Common.Fault.{Fault, Result, ok, err, bad_pool_size}
use super_duper_bassoon.Common.Int.{ℤ, pos}
use super_duper_bassoon.Client.State.{ClientState, InnerClient, new_inner_client}
use super_duper_bassoon.Client.Activity.{Activity, ActivityResult, DispatchMessage, error, refuse}
use super_duper_bassoon.Client.Store.{MemoryStore, get_state, update_state}
use super_duper_bassoon.Client.Collector.{Pending, Publish, collect, flush_results}
use super_duper_bassoon.Client.Dispatch.{Executor, handle, apply_activity_result}

pub record Pool (F S : Type 0) : Type 0 where
  pub store : MemoryStore
  pub pending : Pending F
  pub source : S

-- The queue after a Collect whose error is only logged.
abbrev pub or_keep : {A : Type 0} → A → Result A → A
or_keep a (ok b) = b
or_keep a (err e) = a

module _ {F S : Type 0} (execute : Executor F S) (error_text : Fault → String) where
  -- The end of HandleDispatch, by what the handler returned and where it left the source.
  unfoldable pub finish :
      DispatchMessage F
      → ClientState
      → Result (ClientState × ActivityResult F) × S
      → Pool F S
      → Result (Unit {0}) × Pool F S
  finish d prev (err e, t) p = (
    err e,
    record p {
      source = t;
      pending = or_keep p.pending (
          collect d.run_id d.wf_id d.client_id (refuse error (error_text e)) (some prev) p.pending);
    },
  )
  finish d prev (ok (new, result), t) p = elim (apply_activity_result d.client_id new p.store) [
    | err e ↦ (err e, record p { source = t })
    | ok store ↦ elim (collect d.run_id d.wf_id d.client_id result (some new) p.pending) [
      | err e ↦ (err e, record p { source = t; store = store })
      | ok pending ↦ (ok tt, record { source = t; store = store; pending = pending })
    ]
  ]

  -- `error_text` is the text of an error, wrapped as HandleDispatch meets it.
  unfoldable pub handle_dispatch : DispatchMessage F → Pool F S → Result (Unit {0}) × Pool F S
  unfolding finish
  handle_dispatch d p = elim (get_state d.client_id p.store) [
    | err e ↦ (err e, p)
    | ok prev ↦ finish d prev (handle execute p.store d p.source) p
  ]

  -- One round of Run: a message is handled and the queue flushed.
  unfoldable pub run_step :
      {B : Type 0} → Publish F B → DispatchMessage F → Pool F S × B → Pool F S × B
  run_step publish d (p, b) =
      let p' = (handle_dispatch d p).1 in
      let (pending, first_err, b') = flush_results publish p'.pending b in
      (record p' { pending = pending }, b')

  -- The messages of the channel in order, until it is closed.
  unfoldable pub run :
      {B : Type 0} → Publish F B → List (DispatchMessage F) → Pool F S × B → Pool F S × B
  run publish [] c = c
  run publish (d ∷ ds) c = run publish ds (run_step publish d c)

-- Initialize for clients named by `client_id`: the names in order, and the store.
-- A registration that fails is only logged, and does not enter the state.
unfoldable pub initialize_loop : (ℕ → String) → ℕ → ℕ → MemoryStore → List String × MemoryStore
initialize_loop client_id zero i store = ([], store)
initialize_loop client_id (suc left) i store =
    let c = new_inner_client (client_id (i + 1)) in
    let rest =
      initialize_loop client_id left (i + 1)
        (or_keep store (update_state c.client_id (some c.state) store)) in
    (c.client_id ∷ rest.0, rest.1)

-- Initialize, on the names and the store it finds. A pool size that is not positive is refused.
unfoldable pub initialize :
    (ℕ → String) → ℤ → List String × MemoryStore → Result (Unit {0}) × (List String × MemoryStore)
initialize client_id pool_size (ids, store) = elim pool_size [
  | pos (suc n) ↦ (ok tt, initialize_loop client_id (suc n) 0 store)
  | _ ↦ (err bad_pool_size, (ids, store))
]

-- What Run does when its context is done, and Shutdown before it closes the broker: the queue is
-- flushed once more, and the error is dropped.
unfoldable pub last_flush : {F S B : Type 0} → Publish F B → Pool F S × B → Pool F S × B
last_flush publish (p, b) =
    let (pending, first_err, b') = flush_results publish p.pending b in
    (record p { pending = pending }, b')
