-- ===== src/Examples/Sending.antt =====
-- A run for two clients, one of which is banned, with a broker that takes everything and with one
-- that refuses; and three handlers of results.
use super_duper_bassoon.Common.{ℕ, String, true, false, List, [], ◌∷◌, ◌++◌, none, some, ◌≡◌, All}
use super_duper_bassoon.Common.Int.{ℤ, pos, eq_ℤ}
use super_duper_bassoon.Common.Fault.{Fault, external, ok}
use super_duper_bassoon.Server.Ban.Record.{manual}
use super_duper_bassoon.Server.Ban.Cache.{ban_client-Synced}
use super_duper_bassoon.Server.Ban.DispatchFilter.Laws.{in_table}
use super_duper_bassoon.Server.Dispatch.{Dispatch, Send, send_dispatches, dispatch-IsValid}
use super_duper_bassoon.Server.Dispatch.Laws.{send_dispatches-safe}
use super_duper_bassoon.Common.{◌+◌, if◌then◌else◌}
use super_duper_bassoon.Server.Results.{Handler, register_handler}
use super_duper_bassoon.Server.Results.Laws.{IsSorted, at_priority, register_handler_lem}
use super_duper_bassoon.Examples.Bans.{patching, one_ban, fresh, fresh-Synced, no_fault, run_at}

abbrev pub open_broker : Send ℤ (List (Dispatch ℤ))
open_broker d sent = (none, sent ++ d ∷ [])

abbrev closed_broker : Send ℤ ℕ
closed_broker d n = (some external, n)

send_dispatches-safe_example :
    All
      (λ d. (in_table no_fault 9 "patch" one_ban d.client_id ≡ false) × (dispatch-IsValid d ≡ true))
      (send_dispatches closed_broker no_fault 9 one_ban
        (run_at "r2" 700)
        patching
        ("a" ∷ "b" ∷ [])
        0).sent
send_dispatches-safe_example =
    send_dispatches-safe closed_broker no_fault 9 one_ban (run_at "r2" 700) patching
      ("a" ∷ "b" ∷ []) 0
      (ban_client-Synced none 5 "a" "patch" "run" "seen" manual fresh fresh-Synced)

abbrev counting : String → ℤ → Handler ℤ ℕ
counting name priority = record {
  name = name;
  priority = priority;
  handle_result = λ r n. (ok tt, n + 1);
}

register_handler_lem_example :
    IsSorted (
      register_handler
        (counting "loop" (pos 1))
        (counting "early" (pos 1) ∷ counting "health" (pos 2) ∷ []))
    × ((p : ℤ)
        → at_priority p (
            register_handler
              (counting "loop" (pos 1))
              (counting "early" (pos 1) ∷ counting "health" (pos 2) ∷ []))
          ≡ at_priority p (counting "early" (pos 1) ∷ counting "health" (pos 2) ∷ [])
            ++ (if eq_ℤ (pos 1) p then counting "loop" (pos 1) ∷ [] else []))
register_handler_lem_example =
    register_handler_lem (counting "loop" (pos 1))
      (counting "early" (pos 1) ∷ counting "health" (pos 2) ∷ [])
