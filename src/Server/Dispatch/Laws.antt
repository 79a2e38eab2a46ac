-- ===== src/Server/Dispatch/Laws.antt =====
-- To whom a run is dispatched.
use super_duper_bassoon.Common.{
  String, Bool, true, false, List, [], ◌∷◌, ◌++◌, Option, none, some, ◌≡◌, refl, sym, subst,
  Bool-cases, inl, inr, All, All-map,
}
use super_duper_bassoon.Common.Fault.{Fault}
use super_duper_bassoon.Common.Time.{Time}
use super_duper_bassoon.Server.Workflow.{Workflow, Run}
use super_duper_bassoon.Server.Ban.Service.{BanState}
use super_duper_bassoon.Server.Ban.Cache.{Synced}
use super_duper_bassoon.Server.Ban.DispatchFilter.Laws.{
  Parted, done, let_by, kept_back, in_table, filter_dispatch_list-Parted,
}
use super_duper_bassoon.Server.Dispatch.{
  Dispatch, dispatch-IsValid, generate_dispatches, Send, after_send, send_loop, close_sending,
  send_allowed, send_dispatches,
}

All-append :
    {A : Type 0} (P : A → Type 0) (xs : List A) (y : A) → All P xs → P y → All P (xs ++ y ∷ [])
All-append P [] y h p = (p, tt)
All-append P (x ∷ xs) y h p = (h.0, All-append P xs y h.1 p)

Parted-allowed :
    (P : String → Type 0) {banned : String → Bool} {ids a f : List String}
    → Parted banned ids a f
    → All P ids
    → All (λ id. P id × (banned id ≡ false)) a
Parted-allowed P done h = tt
Parted-allowed P (let_by e p) h = ((h.0, e), Parted-allowed P p h.1)
Parted-allowed P (kept_back e p) h = Parted-allowed P p h.1

anything : (ids : List String) → All (λ id. Unit {0}) ids
anything [] = tt
anything (id ∷ ids) = (tt, anything ids)

module _ {F B : Type 0} (send : Send F B) (Allowed : String → Type 0) where
  abbrev Fine : Dispatch F → Type 0
  Fine d = Allowed d.client_id × (dispatch-IsValid d ≡ true)

  after_send-Fine :
      (d : Dispatch F) (r : Option Fault × B) (sent : List (Dispatch F))
      (rest : List (Dispatch F) → B → List (Dispatch F) × Option Fault × B)
      → All Fine sent
      → Fine d
      → ((q : List (Dispatch F)) (b : B) → All Fine q → All Fine (rest q b).0)
      → All Fine (after_send send d r sent rest).0
  unfolding after_send
  after_send-Fine d (some e, b) sent rest h p k = h
  after_send-Fine d (none, b) sent rest h p k = k (sent ++ d ∷ []) b (All-append Fine sent d h p)

  loop-Fine :
      (ds sent : List (Dispatch F)) (b : B)
      → All (λ d. Allowed d.client_id) ds
      → All Fine sent
      → All Fine (send_loop send ds sent b).0
  unfolding send_loop
  loop-Fine [] sent b a h = h
  loop-Fine (d ∷ ds) sent b a h = elim (Bool-cases (dispatch-IsValid d)) [
    | inr bad ↦ rw (send_loop, bad) (loop-Fine ds sent b a.1 h)
    | inl good ↦
        rw (send_loop, good)
          (after_send-Fine d (send d b) sent (send_loop send ds) h (a.0, good)
            (λ q c k. loop-Fine ds q c a.1 k))
  ]

  generated :
      (now : Time) (run : Run) (w : Workflow F) (ids : List String)
      → All Allowed ids
      → All (λ d. Allowed d.client_id) (generate_dispatches now run w ids)
  unfolding generate_dispatches
  generated now run w [] h = tt
  generated now run w (id ∷ ids) h = (h.0, generated now run w ids h.1)

  close-sent :
      (now : Time) (filtered : List String) (run : Run) (r : List (Dispatch F) × Option Fault × B)
      → (close_sending send now filtered run r).sent ≡ r.0
  unfolding close_sending
  close-sent now filtered run (sent, some e, b) = refl
  close-sent now filtered run (sent, none, b) = refl

pub send_dispatches-All :
    {F B : Type 0} (send : Send F B) (P : String → Type 0) (db : String → Option Fault) (now : Time)
    (s : BanState) (run : Run) (w : Workflow F) (ids : List String) (b : B)
    → Synced s
    → All P ids
    → All
        (λ d.
          (P d.client_id × (in_table db now w.workflow_type s d.client_id ≡ false))
          × (dispatch-IsValid d ≡ true))
        (send_dispatches send db now s run w ids b).sent
unfolding send_dispatches send_allowed
send_dispatches-All send P db now s run w ids b h all =
    let banned = in_table db now w.workflow_type s in
    let Allowed : String → Type 0 = λ id. P id × (banned id ≡ false) in
    elim (filter_dispatch_list-Parted db now w.workflow_type s ids h) [
      | inr (e, id, q, _) ↦ rw (send_dispatches, q, send_allowed) tt
      | inl (a, f, q, p) ↦
          let run' = record run { participating_clients = a } in
          let ds = generate_dispatches now run' w a in
          rw (send_dispatches, q, send_allowed)
            (subst (All (λ d. Allowed d.client_id × (dispatch-IsValid d ≡ true)))
              (sym (close-sent send Allowed now f run' (send_loop send ds [] b)))
              (loop-Fine send Allowed ds [] b
                (generated send Allowed now run' w a (Parted-allowed P p all)) tt))
    ]

-- While the cache and the table of bans agree, no dispatch of a run is sent to a client that an
-- active ban holds from its workflow type, and none that is not valid, whatever the database and
-- the broker answer.
pub send_dispatches-safe :
    {F B : Type 0} (send : Send F B) (db : String → Option Fault) (now : Time) (s : BanState)
    (run : Run) (w : Workflow F) (ids : List String) (b : B)
    → Synced s
    → All
        (λ d. (in_table db now w.workflow_type s d.client_id ≡ false) × (dispatch-IsValid d ≡ true))
        (send_dispatches send db now s run w ids b).sent
send_dispatches-safe send db now s run w ids b h =
    All-map (send_dispatches send db now s run w ids b).sent (λ d q. (q.0.1, q.1))
      (send_dispatches-All send (λ id. Unit {0}) db now s run w ids b h (anything ids))
