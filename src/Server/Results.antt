-- ===== src/Server/Results.antt =====
-- ResultMessageDispatcher of internal/core/services/result_dispatcher.go. A handler is its name, its
-- priority and its HandleResult on the state `S` of the server; an error is only logged.
-- sort.SliceStable is an insertion sort.
pub mod Laws
pub mod Table
use super_duper_bassoon.Common.{
  String, Bool, true, false, List, [], ◌∷◌, ◌++◌, Option, none, some, if◌then◌else◌, not,
}
use super_duper_bassoon.Common.Fault.{Result}
use super_duper_bassoon.Common.Int.{ℤ, ltb_ℤ}
use super_duper_bassoon.Server.Workflow.{RunResult, result-IsValid}

pub record Handler (F S : Type 0) : Type 0 where
  pub name : String
  pub priority : ℤ
  pub handle_result : RunResult F → S → Result (Unit {0}) × S

module _ {F S : Type 0} where
  -- Before the first handler whose priority is not lower: `h` stood before all of them.
  unfoldable pub place_stable : Handler F S → List (Handler F S) → List (Handler F S)
  place_stable h [] = h ∷ []
  place_stable h (k ∷ ks) =
      if ltb_ℤ k.priority h.priority then k ∷ place_stable h ks else h ∷ k ∷ ks

  unfoldable pub sort_stable : List (Handler F S) → List (Handler F S)
  unfolding place_stable
  sort_stable [] = []
  sort_stable (h ∷ hs) = place_stable h (sort_stable hs)

  unfoldable pub register_handler : Handler F S → List (Handler F S) → List (Handler F S)
  register_handler h hs = sort_stable (hs ++ h ∷ [])

  -- The loop over the handlers.
  unfoldable pub call_handlers : RunResult F → List (Handler F S) → S → S
  call_handlers r [] s = s
  call_handlers r (h ∷ hs) s = call_handlers r hs (h.handle_result r s).1

  -- Dispatch, which returns no error on any path. A nil result is `none`.
  unfoldable pub dispatch_result : Option (RunResult F) → List (Handler F S) → S → S
  dispatch_result none hs s = s
  dispatch_result (some r) hs s = if not (result-IsValid r) then s else call_handlers r hs s
