-- ===== src/Client/Collector/Laws.antt =====
-- FlushResults loses no message and sends none twice.
use super_duper_bassoon.Common.{
  List, [], ◌∷◌, ◌++◌, Option, none, some, ◌≡◌, ◌↔◌, refl, ap, arith, ◌∙◌, sym, append-nil,
  append_assoc,
}
use super_duper_bassoon.Common.Fault.{Fault}
use super_duper_bassoon.Client.Activity.{ResultMessage}
use super_duper_bassoon.Client.Collector.{
  Pending, Publish, Flush, after_publish, flush_loop, flush_results,
}

-- What the broker answers when it is given the messages in order, once each.
pub attempts : {F B : Type 0} → Publish F B → Pending F → B → List (ResultMessage F × Option Fault)
attempts publish [] b = []
attempts publish (p ∷ ps) b = (p, (publish p b).0) ∷ attempts publish ps (publish p b).1

-- The broker behind them.
pub handed : {F B : Type 0} → Publish F B → Pending F → B → B
handed publish [] b = b
handed publish (p ∷ ps) b = handed publish ps (publish p b).1

pub accepted : {F : Type 0} → List (ResultMessage F × Option Fault) → Pending F
accepted [] = []
accepted ((p, none) ∷ l) = p ∷ accepted l
accepted ((p, some e) ∷ l) = accepted l

pub first_failure : {F : Type 0} → List (ResultMessage F × Option Fault) → Option Fault
first_failure [] = none
first_failure ((p, none) ∷ l) = first_failure l
first_failure ((p, some e) ∷ l) = some e

-- `xs` is `ys` and `zs` woven together, each in its own order.
pub data Weave {A : Type 0} : List A → List A → List A → Type 0 where
  done : Weave [] [] []
  left : {x : A} {xs ys zs : List A} → Weave xs ys zs → Weave (x ∷ xs) (x ∷ ys) zs
  right : {x : A} {xs ys zs : List A} → Weave xs ys zs → Weave (x ∷ xs) ys (x ∷ zs)

rejected : {F : Type 0} → List (ResultMessage F × Option Fault) → Pending F
rejected [] = []
rejected ((p, none) ∷ l) = rejected l
rejected ((p, some e) ∷ l) = p ∷ rejected l

keep_first : Option Fault → Option Fault → Option Fault
keep_first (some e) o = some e
keep_first none o = o

module _ {F B : Type 0} (publish : Publish F B) where
  abbrev Loop : Pending F → Flush F B → Flush F B → List (ResultMessage F × Option Fault) → Type 0
  Loop ps f g l =
      (g.failed ≡ f.failed ++ rejected l)
      × (g.first_err ≡ keep_first f.first_err (first_failure l))
      × (g.broker ≡ handed publish ps f.broker)

  Loop-step :
      (p : ResultMessage F) (ps : Pending F) (f : Flush F B) (r : Option Fault × B)
      → ((g : Flush F B) → Loop ps g (flush_loop publish ps g) (attempts publish ps g.broker))
      → r ≡ publish p f.broker
      → Loop
          (p ∷ ps)
          f
          (flush_loop publish ps (after_publish p r f))
          ((p, r.0) ∷ attempts publish ps r.1)
  unfolding after_publish rejected first_failure keep_first handed
  Loop-step p ps f (none, b) ih q =
      let i = ih (record f { broker = b }) in (i.0, i.1, i.2 ∙ ap (λ r. handed publish ps r.1) q)
  Loop-step p ps f (some e, b) ih q =
      let g = after_publish p (some e, b) f in
      (
        (ih g).0 ∙ append_assoc f.failed (p ∷ []) (rejected (attempts publish ps b)),
        (ih g).1 ∙ ground (arith, keep_first),
        (ih g).2 ∙ ap (λ r. handed publish ps r.1) q,
      )

  loop_lem :
      (ps : Pending F) (f : Flush F B)
      → Loop ps f (flush_loop publish ps f) (attempts publish ps f.broker)
  unfolding flush_loop attempts rejected first_failure keep_first handed
  loop_lem [] f = (sym (append-nil f.failed), ground arith, refl)
  loop_lem (p ∷ ps) f = Loop-step p ps f (publish p f.broker) (loop_lem ps) refl

  weave_step :
      (p : ResultMessage F) (ps : Pending F) (o : Option Fault)
      (l : List (ResultMessage F × Option Fault))
      → Weave ps (accepted l) (rejected l)
      → Weave (p ∷ ps) (accepted ((p, o) ∷ l)) (rejected ((p, o) ∷ l))
  unfolding accepted rejected
  weave_step p ps none l w = left w
  weave_step p ps (some e) l w = right w

  weave :
      (ps : Pending F) (b : B)
      → Weave ps (accepted (attempts publish ps b)) (rejected (attempts publish ps b))
  unfolding attempts accepted rejected
  weave [] b = done
  weave (p ∷ ps) b = weave_step p ps (publish p b).0 _ (weave ps (publish p b).1)

first_failure-none :
    {F : Type 0} (l : List (ResultMessage F × Option Fault))
    → (first_failure l ≡ none) ↔ (rejected l ≡ [])
unfolding first_failure rejected
first_failure-none [] = (λ e. refl, λ e. refl)
first_failure-none ((p, none) ∷ l) = first_failure-none l
first_failure-none ((p, some e) ∷ l) = (λ h. cc, λ h. cc)

module _ {F B : Type 0} (publish : Publish F B) (pending : Pending F) (b : B) where
  -- Whatever the broker answers, a flush hands each queued message to it once, in order, and leaves
  -- it as these calls do; the queue is then exactly the refused ones, which with the accepted ones make up the old queue, both in
  -- their order. The error returned is the first one met, and there is none exactly when nothing
  -- is left queued.
  pub flush_results_lem :
      Weave pending (accepted (attempts publish pending b)) (flush_results publish pending b).0
      × ((flush_results publish pending b).1 ≡ first_failure (attempts publish pending b))
      × (((flush_results publish pending b).1 ≡ none) ↔ ((flush_results publish pending b).0 ≡ []))
      × ((flush_results publish pending b).2 ≡ handed publish pending b)
  unfolding flush_results keep_first
  flush_results_lem =
      let start : Flush F B = record { failed = []; first_err = none; broker = b } in
      let l = attempts publish pending b in
      let kept = append-nil _ ∙ (loop_lem publish pending start).0 in
      let first = (loop_lem publish pending start).1 in
      (
        rw kept (weave publish pending b),
        first,
        (
          λ e. kept ∙ (first_failure-none l).0 (sym first ∙ e),
          λ e. first ∙ (first_failure-none l).1 (sym kept ∙ e),
        ),
        (loop_lem publish pending start).2,
      )
