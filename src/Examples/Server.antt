-- ===== src/Examples/Server.antt =====
-- The control plane: a filter over two clients, a ban, a loop, and two workflows with breakers.
use super_duper_bassoon.Common.{
  ◌≤◌, String, true, false, List, [], ◌∷◌, none, some, ◌≡◌, refl, length, str_eq,
}
use super_duper_bassoon.Common.Int.{ℤ, pos, ◌*ℤ◌}
use super_duper_bassoon.Common.Fault.{Result, ok, err, type_mismatch}
use super_duper_bassoon.Client.Value.{text, int, end}
use super_duper_bassoon.Server.Filter.Ast.{FilterCondition, FilterNode, condition, eq, gt}
use super_duper_bassoon.Server.Filter.Token.{Unicode}
use super_duper_bassoon.Server.Filter.Parser.{parse_filter}
use super_duper_bassoon.Server.Filter.Parser.Laws.{ReturnsSafely, parse_filter-ReturnsSafely}
use super_duper_bassoon.Server.Filter.Eval.{
  Texts, ClientMetadata, compare_values, evaluate, get_field, get_field_parts, eval_condition,
  numeric_compare, to_float, evaluate_filter,
}
use super_duper_bassoon.Server.Filter.Resolve.{
  FilterResult, resolve_clients, resolve_loop, resolve_one, add_match,
}
use super_duper_bassoon.Server.Filter.Resolve.Laws.{Selects, resolve_clients-Selects}
use super_duper_bassoon.Server.Ban.DispatchFilter.Laws.{in_table}
use super_duper_bassoon.Server.Dispatch.{dispatch-IsValid}
use super_duper_bassoon.Server.Orchestration.{TriggerAnswers, trigger_workflow}
use super_duper_bassoon.Server.Orchestration.Laws.{IsTarget, filter_of, trigger_workflow-safe}
use super_duper_bassoon.Common.{◌⊎◌, All, Option, none}
use super_duper_bassoon.Examples.Bans.{patching, fresh, fresh-Synced, no_fault}
use super_duper_bassoon.Examples.Sending.{open_broker}
use super_duper_bassoon.Examples.Data.{thousandths}

abbrev ascii : Unicode
ascii = record {
  is_space = λ c. false;
  is_digit = λ c. false;
  is_letter = λ c. true;
  to_upper = λ s. s;
  to_lower = λ s. s;
  trim_space = λ s. s;
}

abbrev first_part : String → List String
first_part s = s ∷ []

abbrev pub texts : Texts ℤ
texts = record { sprint = λ v. "v"; has_substring = str_eq; split_dots = first_part }

abbrev pub laptop : ClientMetadata ℤ
laptop = record {
  client_id = "a";
  os = "linux";
  client_labels = [];
  inner_state = end;
  active = true;
  last_seen_at = 5;
}

abbrev retired : ClientMetadata ℤ
retired = record laptop { client_id = "b"; active = false }

abbrev is_active_one : FilterCondition ℤ
is_active_one = record { field = "active"; op = gt; value = int (pos 0) }

abbrev no_such_field : FilterCondition ℤ
no_such_field = record { field = "zone"; op = eq; value = text "x" }

-- An order on the list of labels, which is no number.
abbrev no_number : FilterCondition ℤ
no_number = record { field = "labels"; op = gt; value = int (pos 0) }

parse_filter-ReturnsSafely_example :
    ReturnsSafely thousandths
      (λ s. none)
      (λ s. false)
      (parse_filter thousandths (λ s. none) (λ s. false) ascii "NOT (os == \"linux\" OR active)")
parse_filter-ReturnsSafely_example =
    parse_filter-ReturnsSafely thousandths (λ s. none) (λ s. false) ascii
      "NOT (os == \"linux\" OR active)"

labels_fail : evaluate thousandths texts (condition no_number) laptop ≡ err type_mismatch
unfolding evaluate eval_condition get_field get_field_parts compare_values numeric_compare to_float
labels_fail = refl

abbrev only_laptop : FilterResult
only_laptop = record { matching_client_ids = "a" ∷ []; total_evaluated = 2; match_count = 1 }

laptop_found :
    resolve_clients thousandths texts
      (ok (some (condition is_active_one)))
      (ok (laptop ∷ retired ∷ []))
    ≡ ok only_laptop
unfolding resolve_clients resolve_loop resolve_one add_match evaluate_filter evaluate eval_condition
    get_field get_field_parts compare_values numeric_compare to_float ◌*ℤ◌
laptop_found = refl

resolve_clients-Selects_example :
    Selects thousandths texts (some (condition is_active_one)) (laptop ∷ retired ∷ []) ("a" ∷ [])
    × (only_laptop.match_count ≡ length only_laptop.matching_client_ids)
    × (only_laptop.total_evaluated ≡ length (laptop ∷ retired ∷ []))
    × (only_laptop.match_count ≤ only_laptop.total_evaluated)
resolve_clients-Selects_example =
    resolve_clients-Selects thousandths texts (some (condition is_active_one))
      (laptop ∷ retired ∷ []) only_laptop laptop_found

abbrev pub no_filter : String → Result (Option (FilterNode ℤ))
no_filter e = ok (some (condition is_active_one))

abbrev pub known : TriggerAnswers ℤ
known = record {
  workflow = ok patching;
  clients = ok (laptop ∷ retired ∷ []);
  create = λ run. none;
  bans = no_fault;
}

trigger_workflow-safe_example :
    let t =
      trigger_workflow thousandths texts no_filter open_broker known 9 "run" "manual" fresh [] in
    ((t.sent ≡ []) ⊎ (patching.active ≡ true))
    × All
        (λ d.
          (IsTarget thousandths texts no_filter none (laptop ∷ retired ∷ []) d.client_id
            × (in_table no_fault 9 "patch" fresh d.client_id ≡ false))
          × (dispatch-IsValid d ≡ true))
        t.sent
unfolding filter_of
trigger_workflow-safe_example =
    trigger_workflow-safe thousandths texts no_filter open_broker known 9 "run" "manual" fresh
      patching [] (laptop ∷ retired ∷ []) none fresh-Synced refl refl refl
