-- ===== src/Server/Events.antt =====
-- InMemoryEventBus of internal/adapters/messaging/event_bus.go. A handler takes an event and the
-- state `S` of the server; its error is only logged. Publish calls the handlers one after the other
-- before it returns. An event of internal/core/domain/events.go is named by its EventType().
use super_duper_bassoon.Common.{
  String, List, [], ◌∷◌, ◌++◌, Option, none, some, if◌then◌else◌, ◌≡◌, refl, str_eq, eq_iff,
  Bool-cases, inl, inr,
}
use super_duper_bassoon.Common.Dict.{Dict, lookup, insert, lookup-insert}
use super_duper_bassoon.Common.Fault.{Result}

abbrev pub EventHandler : Type 0 → Type 0 → Type 0
EventHandler E S = E → S → Result (Unit {0}) × S

abbrev pub Subscriptions : Type 0 → Type 0 → Type 0
Subscriptions E S = Dict (List (EventHandler E S))

abbrev pub or_no_handlers : {A : Type 0} → Option (List A) → List A
or_no_handlers none = []
or_no_handlers (some hs) = hs

module _ {E S : Type 0} where
  unfoldable pub subscribe : String → EventHandler E S → Subscriptions E S → Subscriptions E S
  subscribe event_type h subs =
      insert event_type (or_no_handlers (lookup event_type subs) ++ h ∷ []) subs

  unfoldable pub call_each : E → List (EventHandler E S) → S → S
  call_each e [] s = s
  call_each e (h ∷ hs) s = call_each e hs (h e s).1

  unfoldable pub publish_event : String → E → Subscriptions E S → S → S
  unfolding call_each
  publish_event event_type e subs s = call_each e (or_no_handlers (lookup event_type subs)) s

  call_each-append :
      (e : E) (hs ks : List (EventHandler E S)) (s : S)
      → call_each e (hs ++ ks) s ≡ call_each e ks (call_each e hs s)
  unfolding call_each
  call_each-append e [] ks s = refl
  call_each-append e (h ∷ hs) ks s = call_each-append e hs ks (h e s).1

  -- A new subscriber is called last, behind the subscribers that the event type had, and only for
  -- events of its type.
  pub publish-subscribe :
      (event_type other : String) (e : E) (h : EventHandler E S) (subs : Subscriptions E S) (s : S)
      → publish_event other e (subscribe event_type h subs) s ≡ (
          if str_eq event_type other
          then (h e (publish_event other e subs s)).1
          else publish_event other e subs s)
  unfolding publish_event subscribe call_each
  publish-subscribe event_type other e h subs s = elim (Bool-cases (str_eq event_type other)) [
    | inl q ↦
        let same : event_type ≡ other = (eq_iff event_type other).0 q in
        rw
          (
            lookup-insert event_type other (or_no_handlers (lookup event_type subs) ++ h ∷ []) subs,
            q,
            same,
          )
          (call_each-append e (or_no_handlers (lookup other subs)) (h ∷ []) s)
    | inr q ↦
        rw
          (
            lookup-insert event_type other (or_no_handlers (lookup event_type subs) ++ h ∷ []) subs,
            q,
          )
          refl
  ]
