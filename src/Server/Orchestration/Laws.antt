-- ===== src/Server/Orchestration/Laws.antt =====
-- Which clients a workflow reaches when it is triggered.
use super_duper_bassoon.Common.{
  String, Bool, true, false, List, [], ◌∷◌, Option, none, if◌then◌else◌, str_eq, not, ◌≡◌, refl,
  sym, subst, Bool-cases, Option-cases, inl, inr, ◌⊎◌, All, All-map, Among, here, there,
}
use super_duper_bassoon.Common.Fault.{Result, ok, err, workflow_inactive, ◌>>=◌, ok-injective}
use super_duper_bassoon.Common.Float.{Floats}
use super_duper_bassoon.Common.Time.{Time}
use super_duper_bassoon.Server.Filter.Ast.{FilterNode}
use super_duper_bassoon.Server.Filter.Eval.{Texts, ClientMetadata, evaluate_filter}
use super_duper_bassoon.Server.Filter.Resolve.{FilterResult, resolve_clients}
use super_duper_bassoon.Server.Filter.Resolve.Laws.{
  Selects, selected_none, accepted, refused, inactive, resolve_clients-Selects,
}
use super_duper_bassoon.Server.Workflow.{Workflow}
use super_duper_bassoon.Server.Ban.Service.{BanState}
use super_duper_bassoon.Server.Ban.Cache.{Synced}
use super_duper_bassoon.Server.Ban.DispatchFilter.Laws.{in_table}
use super_duper_bassoon.Server.Dispatch.{Dispatch, Send, dispatch-IsValid}
use super_duper_bassoon.Server.Dispatch.Laws.{send_dispatches-All}
use super_duper_bassoon.Server.Orchestration.{
  Triggered, TriggerAnswers, active_ids, new_run, target_clients, refused_trigger, after_sending,
  start_run, trigger_workflow,
}

module _ (fl : Floats) (tx : Texts fl.Float)
    (parse : String → Result (Option (FilterNode fl.Float))) where
  open fl use {Float}

  -- A client of the list with the identifier, active, that the filter accepts.
  pub record IsTarget (filter : Option (FilterNode Float)) (clients : List (ClientMetadata Float))
      (id : String) : Type 0 where
    pub client : ClientMetadata Float
    pub listed : Among client clients
    pub named : client.client_id ≡ id
    pub is_active : client.active ≡ true
    pub fits : evaluate_filter fl tx filter client ≡ ok true

  widen :
      {filter : Option (FilterNode Float)} (c : ClientMetadata Float)
      (cs : List (ClientMetadata Float)) (id : String)
      → IsTarget filter cs id
      → IsTarget filter (c ∷ cs) id
  widen c cs id t = record {
    client = t.client;
    listed = there t.listed;
    named = t.named;
    is_active = t.is_active;
    fits = t.fits;
  }

  Selects-IsTarget :
      (filter : Option (FilterNode Float)) (cs : List (ClientMetadata Float)) (ids : List String)
      → Selects fl tx filter cs ids
      → All (IsTarget filter cs) ids
  Selects-IsTarget filter _ _ selected_none = tt
  Selects-IsTarget filter _ _ (accepted {c = c} {cs = cs} {ids = ids} a e s) = (
    record { client = c; listed = here; named = refl; is_active = a; fits = e },
    All-map ids (widen c cs) (Selects-IsTarget filter cs ids s),
  )
  Selects-IsTarget filter _ _ (refused {c = c} {cs = cs} {ids = ids} a e s) =
      All-map ids (widen c cs) (Selects-IsTarget filter cs ids s)
  Selects-IsTarget filter _ _ (inactive {c = c} {cs = cs} {ids = ids} a s) =
      All-map ids (widen c cs) (Selects-IsTarget filter cs ids s)

  one_more :
      (c : ClientMetadata Float) (cs : List (ClientMetadata Float)) (ids : List String) (b : Bool)
      → c.active ≡ b
      → Selects fl tx none cs ids
      → Selects fl tx none (c ∷ cs) (if b then c.client_id ∷ ids else ids)
  unfolding evaluate_filter
  one_more c cs ids true a s = accepted {c = c} a refl s
  one_more c cs ids false a s = inactive {c = c} a s

  active_ids-Selects : (cs : List (ClientMetadata Float)) → Selects fl tx none cs (active_ids cs)
  unfolding active_ids
  active_ids-Selects [] = selected_none
  active_ids-Selects (c ∷ cs) = one_more c cs (active_ids cs) c.active refl (active_ids-Selects cs)

  -- The filter of a workflow: no filter for the empty text, which ParseFilter is not asked about.
  unfoldable pub filter_of : Workflow Float → Result (Option (FilterNode Float))
  filter_of w = if str_eq w.target_filter "" then ok none else parse w.target_filter

  found_ids :
      (filter : Option (FilterNode Float)) (clients : List (ClientMetadata Float))
      (r : Result FilterResult) (ids : List String)
      → resolve_clients fl tx (ok filter) (ok clients) ≡ r
      → ◌>>=◌ {T = List String} r (λ q. ok q.matching_client_ids) ≡ ok ids
      → Selects fl tx filter clients ids
  found_ids filter clients (err e) ids q h = absurd (cc h)
  found_ids filter clients (ok r) ids q h =
      subst (Selects fl tx filter clients) (ok-injective h)
        (resolve_clients-Selects fl tx filter clients r q).0

  target-Selects :
      (w : Workflow Float) (clients : List (ClientMetadata Float))
      (filter : Option (FilterNode Float)) (ids : List String)
      → filter_of w ≡ ok filter
      → target_clients fl tx parse w (ok clients) ≡ ok ids
      → Selects fl tx filter clients ids
  unfolding target_clients filter_of
  target-Selects w clients filter ids f h = elim (Bool-cases (str_eq w.target_filter "")) [
    | inl blank ↦
        let same : none ≡ filter = ok-injective (rw (filter_of, blank) at f) in
        let all : active_ids clients ≡ ids = ok-injective (rw (target_clients, blank) at h) in
        subst (λ o. Selects fl tx o clients ids) same
          (subst (Selects fl tx none clients) all (active_ids-Selects clients))
    | inr text ↦
        let g : parse w.target_filter ≡ ok filter = rw (filter_of, text) at f in
        found_ids filter clients (resolve_clients fl tx (ok filter) (ok clients)) ids refl
          (rw (target_clients, text, g) at h)
  ]

  module _ {B : Type 0} (send : Send Float B) where
    abbrev Reached :
        BanState
        → TriggerAnswers Float
        → Time
        → Workflow Float
        → List (ClientMetadata Float)
        → Option (FilterNode Float)
        → Dispatch Float
        → Type 0
    Reached s db now w clients filter d =
        (IsTarget filter clients d.client_id
          × (in_table db.bans now w.workflow_type s d.client_id ≡ false))
        × (dispatch-IsValid d ≡ true)

    start_run-Reached :
        (db : TriggerAnswers Float) (now : Time) (run_id reason : String) (s : BanState)
        (w : Workflow Float) (b : B) (clients : List (ClientMetadata Float))
        (filter : Option (FilterNode Float)) (r : Result (List String))
        → Synced s
        → ((ids : List String) → r ≡ ok ids → All (IsTarget filter clients) ids)
        → All
            (Reached s db now w clients filter)
            (start_run fl tx parse send db now run_id reason s w b r).sent
    unfolding start_run after_sending
    start_run-Reached db now run_id reason s w b clients filter (err e) h k = tt
    start_run-Reached db now run_id reason s w b clients filter (ok ids) h k =
        elim (Option-cases (db.create (new_run now run_id reason w ids))) [
          | inr (e, q) ↦ rw (start_run, q) tt
          | inl q ↦
              rw (start_run, q)
                (send_dispatches-All send (IsTarget filter clients) db.bans now s
                  (new_run now run_id reason w ids) w ids b h (k ids refl))
        ]

    abbrev Guarded :
        BanState
        → TriggerAnswers Float
        → Time
        → Workflow Float
        → List (ClientMetadata Float)
        → Option (FilterNode Float)
        → Triggered Float B
        → Type 0
    Guarded s db now w clients filter t =
        ((t.sent ≡ []) ⊎ (w.active ≡ true)) × All (Reached s db now w clients filter) t.sent

    guarded :
        (s : BanState) (db : TriggerAnswers Float) (now : Time) (w : Workflow Float)
        (clients : List (ClientMetadata Float)) (filter : Option (FilterNode Float)) (b : B)
        (t : Triggered Float B) (act : Bool)
        → w.active ≡ act
        → All (Reached s db now w clients filter) t.sent
        → Guarded s db now w clients filter
            (if not act then refused_trigger fl tx parse send workflow_inactive b else t)
    guarded s db now w clients filter b t true e all = (inr e, all)
    guarded s db now w clients filter b t false e all = (inl refl, tt)

    pub triggered :
        (db : TriggerAnswers Float) (now : Time) (run_id reason : String) (s : BanState)
        (w : Workflow Float) (b : B)
        → db.workflow ≡ ok w
        → trigger_workflow fl tx parse send db now run_id reason s b ≡ (
            if not w.active
            then refused_trigger fl tx parse send workflow_inactive b
            else start_run fl tx parse send db now run_id reason s w b
                (target_clients fl tx parse w db.clients))
    unfolding trigger_workflow start_run
    triggered db now run_id reason s w b found = rw (trigger_workflow, found) refl

    -- Where the cache and the table of bans agree, a triggered workflow sends dispatches only if it is
    -- active, and only valid ones, each to an active client of the list that its filter accepts
    -- and that no active ban holds from its workflow type, whatever the database answers to the
    -- other calls and whatever the broker does.
    pub trigger_workflow-safe :
        (db : TriggerAnswers Float) (now : Time) (run_id reason : String) (s : BanState)
        (w : Workflow Float) (b : B) (clients : List (ClientMetadata Float))
        (filter : Option (FilterNode Float))
        → Synced s
        → db.workflow ≡ ok w
        → db.clients ≡ ok clients
        → filter_of w ≡ ok filter
        → let t = trigger_workflow fl tx parse send db now run_id reason s b in
          ((t.sent ≡ []) ⊎ (w.active ≡ true)) × All (Reached s db now w clients filter) t.sent
    trigger_workflow-safe db now run_id reason s w b clients filter h found listed f =
        let started =
          start_run fl tx parse send db now run_id reason s w b
            (target_clients fl tx parse w db.clients) in
        subst (Guarded s db now w clients filter) (sym (triggered db now run_id reason s w b found))
          (guarded s db now w clients filter b started w.active refl (
            start_run-Reached db now run_id reason s w b clients filter
              (target_clients fl tx parse w db.clients) h
              (λ ids q. Selects-IsTarget filter clients ids (
                target-Selects w clients filter ids f
                  (subst (λ o. target_clients fl tx parse w o ≡ ok ids) listed q)))))
