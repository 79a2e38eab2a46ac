-- ===== src/Server/Filter/Eval.antt =====
-- Evaluate, CompareValues and their helpers of internal/core/domain/filter.go, and GetField and
-- navigateMap of internal/core/domain/client.go.
pub mod Laws
use super_duper_bassoon.Common.{
  ℕ, String, Bool, true, false, List, [], ◌∷◌, Option, none, some, if◌then◌else◌, str_eq, not, ◌&&◌,
}
use super_duper_bassoon.Common.Fault.{Fault, Result, ok, err, type_mismatch, unknown_field, ◌>>=◌}
use super_duper_bassoon.Common.Float.{Floats}
use super_duper_bassoon.Common.Int.{ℤ, pos}
use super_duper_bassoon.Common.Dict.{Dict, lookup}
use super_duper_bassoon.Client.Value.{
  Value, null, text, bool, int, int64, float64, list, strings, object, labels, Values, nil, cons,
  Fields, get,
}
use super_duper_bassoon.Server.Filter.Ast.{
  FilterOp, eq, neq, lt, gt, lte, gte, in_list, not_in, contains, not_contains, FilterCondition,
  FilterNode, condition, logic_not, logic_and, logic_or,
}

-- The standard library's fmt.Sprintf("%v", v), strings.Contains and strings.Split.
pub record Texts (F : Type 0) : Type 0 where
  pub sprint : Value F → String
  pub has_substring : String → String → Bool
  pub split_dots : String → List String

pub record ClientMetadata (F : Type 0) : Type 0 where
  pub client_id : String
  pub os : String
  pub client_labels : Dict String
  pub inner_state : Fields F
  pub active : Bool
  pub last_seen_at : ℕ

unfoldable pub navigate_map : {F : Type 0} → Fields F → List String → Result (Value F)
navigate_map m [] = ok (object m)
navigate_map m (k ∷ []) = elim (get k m) [ none ↦ err unknown_field | some v ↦ ok v ]
navigate_map m (k ∷ j ∷ ks) = elim (get k m) [
  | some (object sub) ↦ navigate_map sub (j ∷ ks)
  | _ ↦ err unknown_field
]

unfoldable pub label_field : {F : Type 0} → Dict String → List String → Result (Value F)
label_field m [] = ok (labels m)
label_field m (k ∷ ks) = elim (lookup k m) [ none ↦ err unknown_field | some v ↦ ok (text v) ]

-- The switch of GetField on the first part of the path; strings.Split returns one part at least.
unfoldable pub get_field_parts : {F : Type 0} → ClientMetadata F → List String → Result (Value F)
unfolding label_field navigate_map
get_field_parts c [] = err unknown_field
get_field_parts c (p ∷ ps) =
    if str_eq p "client_id"
    then ok (text c.client_id)
    else if str_eq p "id"
    then ok (text c.client_id)
    else if str_eq p "os"
    then ok (text c.os)
    else if str_eq p "active"
    then ok (bool c.active)
    else if str_eq p "labels"
    then label_field c.client_labels ps
    else if str_eq p "state"
    then navigate_map c.inner_state ps
    else if str_eq p "inner_state"
    then navigate_map c.inner_state ps
    else err unknown_field

module _ (fl : Floats) (tx : Texts fl.Float) where
  open fl use {Float, of_int, feq, flt, fle, parse}
  open tx use {sprint, has_substring, split_dots}

  unfoldable pub to_float : Value Float → Option Float
  to_float (float64 f) = some f
  to_float (int n) = some (of_int n)
  to_float (int64 n) = some (of_int n)
  to_float (text s) = parse s
  to_float (bool b) = some (of_int (if b then pos 1 else pos 0))
  to_float _ = none

  unfoldable pub is_null : Value Float → Bool
  is_null null = true
  is_null _ = false

  equal_as : Value Float → Value Float → Option Float → Option Float → Bool
  equal_as a b (some x) (some y) = feq x y
  equal_as a b _ _ = str_eq (sprint a) (sprint b)

  -- With a nil on one side, both have to be.
  unfoldable pub equals_any : Value Float → Value Float → Bool
  unfolding is_null equal_as
  equals_any null b = is_null b
  equals_any a null = false
  equals_any a b = equal_as a b (to_float a) (to_float b)

  compare_floats : FilterOp → Float → Float → Bool
  compare_floats lt x y = flt x y
  compare_floats gt x y = flt y x
  compare_floats lte x y = fle x y
  compare_floats gte x y = fle y x
  compare_floats _ x y = false

  unfoldable pub numeric_compare : Value Float → FilterOp → Value Float → Result Bool
  unfolding compare_floats
  numeric_compare a op b = elim (to_float a) [
    | none ↦ err type_mismatch
    | some x ↦ elim (to_float b) [ none ↦ err type_mismatch | some y ↦ ok (compare_floats op x y) ]
  ]

  -- The loop over a list for an element that equals `a`, which stands on the left.
  unfoldable pub any_equal : Value Float → Values Float → Bool
  any_equal a nil = false
  any_equal a (cons v vs) = if equals_any a v then true else any_equal a vs

  -- The same loop of containsAny, which compares the element with `b`.
  unfoldable pub any_equals : Values Float → Value Float → Bool
  any_equals nil b = false
  any_equals (cons v vs) b = if equals_any v b then true else any_equals vs b

  unfoldable pub any_text : String → List String → Bool
  any_text s [] = false
  any_text s (v ∷ vs) = if str_eq v s then true else any_text s vs

  unfoldable pub in_any : Value Float → Value Float → Result Bool
  in_any a (list vs) = ok (any_equal a vs)
  in_any a (strings vs) = ok (any_text (sprint a) vs)
  in_any a _ = err type_mismatch

  unfoldable pub contains_any : Value Float → Value Float → Result Bool
  contains_any (text s) (text t) = ok (has_substring s t)
  contains_any (list vs) b = ok (any_equals vs b)
  contains_any _ _ = err type_mismatch

  unfoldable pub compare_values : Value Float → FilterOp → Value Float → Result Bool
  compare_values l eq r = ok (equals_any l r)
  compare_values l neq r = ok (not (equals_any l r))
  compare_values l in_list r = in_any l r
  compare_values l not_in r = do v ← in_any l r; ok (not v)
  compare_values l contains r = contains_any l r
  compare_values l not_contains r = do v ← contains_any l r; ok (not v)
  compare_values l op r = numeric_compare l op r

  unfoldable pub get_field : ClientMetadata Float → String → Result (Value Float)
  get_field c path = get_field_parts c (split_dots path)

  -- A field that is not there does not match, whatever the operator.
  unfoldable pub eval_condition : FilterCondition Float → ClientMetadata Float → Result Bool
  eval_condition c client = elim (get_field client c.field) [
    | err e ↦ ok false
    | ok v ↦ compare_values v c.op c.value
  ]

  unfoldable pub evaluate : FilterNode Float → ClientMetadata Float → Result Bool
  evaluate (condition c) client = eval_condition c client
  evaluate (logic_not n) client = do v ← evaluate n client; ok (not v)
  evaluate (logic_and n m) client =
      let right = evaluate m client in do l ← evaluate n client; if l then right else ok false
  evaluate (logic_or n m) client =
      let right = evaluate m client in do l ← evaluate n client; if l then ok true else right

  -- Evaluate on a pointer that may be nil.
  unfoldable pub evaluate_filter : Option (FilterNode Float) → ClientMetadata Float → Result Bool
  evaluate_filter none client = ok true
  evaluate_filter (some n) client = evaluate n client
