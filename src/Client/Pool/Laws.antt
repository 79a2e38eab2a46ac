-- ===== src/Client/Pool/Laws.antt =====
-- Every dispatch is answered.
use super_duper_bassoon.Common.{
  String, [], ◌∷◌, ◌++◌, some, ◌≡◌, ◌≢◌, refl, ap, arith, ◌∙◌, sym, eq_iff, eq_refl, inl, inr, ◌⊎◌,
}
use super_duper_bassoon.Common.Fault.{Fault, Result, ok, err, Result-cases}
use super_duper_bassoon.Common.Dict.{insert, lookup, lookup-insert}
use super_duper_bassoon.Client.State.{ClientState, clone, clone_lem}
use super_duper_bassoon.Client.Activity.{
  ActivityResult, DispatchMessage, ResultMessage, error, refuse,
}
use super_duper_bassoon.Client.Store.{MemoryStore, get_state, update_state}
use super_duper_bassoon.Client.Collector.{Pending, collect}
use super_duper_bassoon.Client.Dispatch.{Executor, handle, apply_activity_result, validate_dispatch}
use super_duper_bassoon.Client.Pool.{Pool, finish, handle_dispatch}

-- A dispatch that the server can have addressed: it names a run and a workflow.
abbrev pub IsAddressed : {F : Type 0} → DispatchMessage F → Type 0
IsAddressed d = (d.run_id ≢ "") × (d.wf_id ≢ "") × (d.client_id ≢ "")

-- `m` answers `d`, and holds the state in which the store keeps the client.
pub record Answers {F : Type 0} (d : DispatchMessage F) (store : MemoryStore) (m : ResultMessage F)
    : Type 0 where
  pub same_run : m.run_id ≡ d.run_id
  pub same_wf : m.wf_id ≡ d.wf_id
  pub same_client : m.client_id ≡ d.client_id
  pub shown : ClientState
  pub shows_state : m.inner_state ≡ some shown
  pub stored : lookup d.client_id store ≡ some shown

abbrev message : {F : Type 0} → DispatchMessage F → ActivityResult F → ClientState → ResultMessage F
message d r s = record {
  run_id = d.run_id;
  wf_id = d.wf_id;
  client_id = d.client_id;
  status = r.status;
  inner_state = some s;
  error_msg = r.error_msg;
  payload = r.payload;
}

collect_addressed :
    {F : Type 0} (d : DispatchMessage F) (r : ActivityResult F) (s : ClientState) (q : Pending F)
    → IsAddressed d
    → collect d.run_id d.wf_id d.client_id r (some s) q ≡ ok (q ++ message d r s ∷ [])
unfolding collect
collect_addressed d r s q h =
    ground (arith, eq_iff d.run_id "", eq_iff d.wf_id "", eq_iff d.client_id "")

module _ {F S : Type 0} (execute : Executor F S) (error_text : Fault → String) where
  finish-Answers :
      (d : DispatchMessage F) (prev : ClientState) (r : Result (ClientState × ActivityResult F) × S)
      (p : Pool F S)
      → IsAddressed d
      → lookup d.client_id p.store ≡ some prev
      → let q = (finish execute error_text d prev r p).1 in
        (m : ResultMessage F) × (q.pending ≡ p.pending ++ m ∷ []) × Answers d q.store m
  unfolding finish apply_activity_result update_state
  finish-Answers d prev (err e, t) p h known = (
    message d (refuse error (error_text e)) prev,
    rw (collect_addressed d (refuse error (error_text e)) prev p.pending h),
    record {
      same_run = refl;
      same_wf = refl;
      same_client = refl;
      shown = prev;
      shows_state = refl;
      stored = known;
    },
  )
  finish-Answers d prev (ok (new, result), t) p h known = (
    message d result new,
    rw (finish, collect_addressed d result new p.pending h),
    rw (finish, collect_addressed d result new p.pending h)
        (record {
          same_run = refl;
          same_wf = refl;
          same_client = refl;
          shown = new;
          shows_state = refl;
          stored =
              lookup-insert d.client_id d.client_id (clone new) p.store
              ∙ rw (eq_refl d.client_id) (ap some (clone_lem new));
        }),
  )

  -- Every dispatch to a client of the pool that names its run and its workflow is answered: whether
  -- it is refused, fails or succeeds, exactly one message is added to the queue, at its end,
  -- addressed to that run, workflow and client, with the state that the store then holds.
  pub handle_dispatch-Answers :
      (d : DispatchMessage F) (s : ClientState) (p : Pool F S)
      → IsAddressed d
      → lookup d.client_id p.store ≡ some s
      → let q = (handle_dispatch execute error_text d p).1 in
        (m : ResultMessage F) × (q.pending ≡ p.pending ++ m ∷ []) × Answers d q.store m
  unfolding handle_dispatch get_state
  handle_dispatch-Answers d s p h known =
      rw (known, handle_dispatch, get_state)
        (finish-Answers d (clone s) (handle execute p.store d p.source) p h
          (known ∙ ap some (sym (clone_lem s))))

  pub finish_store :
      (d : DispatchMessage F) (prev : ClientState) (q : ClientState × ActivityResult F) (t : S)
      (p : Pool F S)
      → (finish execute error_text d prev (ok q, t) p).1.store
        ≡ insert d.client_id (clone q.0) p.store
  unfolding finish apply_activity_result update_state
  finish_store d prev (new, result) t p =
      elim (Result-cases (collect d.run_id d.wf_id d.client_id result (some new) p.pending)) [
        | inl (c, e) ↦ rw (finish, e)
        | inr (f, e) ↦ rw (finish, e)
      ]

  handle-IsAddressed :
      (d : DispatchMessage F) (store : MemoryStore) (t : S) {r : ClientState × ActivityResult F}
      → (handle execute store d t).0 ≡ ok r
      → IsAddressed d
  unfolding handle validate_dispatch
  handle-IsAddressed d store t h =
      ground (arith, eq_iff d.run_id "", eq_iff d.wf_id "", eq_iff d.client_id "")

  abbrev Frame : DispatchMessage F → Pool F S → Result (Unit {0}) × Pool F S → Type 0
  Frame d p (r, q) =
      (id : String)
      → ((id ≢ d.client_id → lookup id q.store ≡ lookup id p.store)
          × ((e : Fault) → r ≡ err e → lookup id q.store ≡ lookup id p.store))

  finish-Frame :
      (d : DispatchMessage F) (prev : ClientState) (r : Result (ClientState × ActivityResult F) × S)
      (p : Pool F S)
      → ((x : ClientState × ActivityResult F) → r.0 ≡ ok x → IsAddressed d)
      → Frame d p (finish execute error_text d prev r p)
  unfolding finish apply_activity_result update_state
  finish-Frame d prev (err e, t) p h = λ id. (λ _. refl, λ _ _. refl)
  finish-Frame d prev (ok (new, result), t) p h =
      rw (finish, collect_addressed d result new p.pending (h (new, result) refl))
        λ id. (
          λ ne.
              ground
                (arith, lookup-insert d.client_id id (clone new) p.store, eq_iff d.client_id id),
          λ e q. cc,
        )

  pub handle_dispatch-Frame :
      (d : DispatchMessage F) (p : Pool F S) → Frame d p (handle_dispatch execute error_text d p)
  unfolding handle_dispatch
  handle_dispatch-Frame d p = elim (Result-cases (get_state d.client_id p.store)) [
    | inl (s, e) ↦
        rw (e, handle_dispatch)
          (finish-Frame d s (handle execute p.store d p.source) p
            (λ (x : ClientState × ActivityResult F) q.
              handle-IsAddressed d p.store p.source {r = x} q))
    | inr (f, e) ↦ rw (e, handle_dispatch) (λ id. (λ _. refl, λ _ _. refl))
  ]

  -- A dispatch changes the stored state of no client but its own, and one that ends in an error
  -- changes none at all.
  pub handle_dispatch_keeps :
      (d : DispatchMessage F) (p : Pool F S) (id : String)
      → (id ≢ d.client_id) ⊎ ((e : Fault) × ((handle_dispatch execute error_text d p).0 ≡ err e))
      → lookup id (handle_dispatch execute error_text d p).1.store ≡ lookup id p.store
  handle_dispatch_keeps d p id (inl other) = (handle_dispatch-Frame d p id).0 other
  handle_dispatch_keeps d p id (inr (e, q)) = (handle_dispatch-Frame d p id).1 e q
