-- ===== src/Server/Filter/Eval/Laws.antt =====
-- What Evaluate promises of a filter.
use super_duper_bassoon.Common.{Bool, true, false, ◌≡◌, refl, arith, not, inl, inr}
use super_duper_bassoon.Common.Fault.{Fault, Result, ok, err, type_mismatch, ◌>>=◌, Result-cases}
use super_duper_bassoon.Common.Float.{Floats}
use super_duper_bassoon.Client.Value.{Value, text, list}
use super_duper_bassoon.Server.Filter.Ast.{
  FilterOp, eq, neq, in_list, not_in, contains, not_contains, FilterCondition, FilterNode,
  condition, logic_not, logic_and, logic_or,
}
use super_duper_bassoon.Server.Filter.Eval.{
  Texts, ClientMetadata, in_any, contains_any, numeric_compare, compare_values, get_field,
  eval_condition, evaluate,
}

-- The operator of the opposite meaning, for the three pairs that the language has.
pub data Opposite : FilterOp → FilterOp → Type 0 where
  equality : Opposite eq neq
  membership : Opposite in_list not_in
  containment : Opposite contains not_contains

abbrev pub negate : Result Bool → Result Bool
negate r = r >>= λ v. ok (not v)

module _ (fl : Floats) (tx : Texts fl.Float) where
  open fl use {Float}

  -- On a value that is there, the operators `!=`, NOT_IN and NOT_CONTAINS answer the opposite of
  -- `==`, IN and CONTAINS, and fail where those fail, by the same error.
  pub compare_values-Opposite :
      {o p : FilterOp} (l r : Value Float)
      → Opposite o p
      → compare_values fl tx l p r ≡ negate (compare_values fl tx l o r)
  unfolding compare_values
  compare_values-Opposite l r equality = refl
  compare_values-Opposite l r membership = refl
  compare_values-Opposite l r containment = refl

  -- A condition on a field that the client lacks is false under each operator, so under an operator
  -- and its opposite alike, and the negation of the condition is true.
  pub missing_field :
      (c : FilterCondition Float) (client : ClientMetadata Float) {e : Fault}
      → get_field fl tx client c.field ≡ err e
      → ((o : FilterOp) → evaluate fl tx (condition (record c { op = o })) client ≡ ok false)
        × (evaluate fl tx (logic_not (condition c)) client ≡ ok true)
  unfolding evaluate eval_condition
  missing_field c client h =
      (λ o. rw (h, evaluate, eval_condition), rw (h, evaluate, eval_condition))

  -- De Morgan's laws and the double negation hold of the answers and of the errors, although a
  -- conjunction and a disjunction look at their right side only where the left one does not decide.
  pub de_morgan :
      (n m : FilterNode Float) (client : ClientMetadata Float)
      → (evaluate fl tx (logic_not (logic_and n m)) client
          ≡ evaluate fl tx (logic_or (logic_not n) (logic_not m)) client)
        × (evaluate fl tx (logic_not (logic_or n m)) client
            ≡ evaluate fl tx (logic_and (logic_not n) (logic_not m)) client)
        × (evaluate fl tx (logic_not (logic_not n)) client ≡ evaluate fl tx n client)
  unfolding evaluate
  de_morgan n m client = (ground arith, ground arith, ground arith)

  in_any-error : (l r : Value Float) (e : Fault) → in_any fl tx l r ≡ err e → e ≡ type_mismatch
  unfolding in_any
  in_any-error l (list vs) e h = cc
  in_any-error l r e h = cc

  contains_any-error :
      (l r : Value Float) (e : Fault) → contains_any fl tx l r ≡ err e → e ≡ type_mismatch
  unfolding contains_any
  contains_any-error (text s) (text t) e h = cc
  contains_any-error (list vs) r e h = cc
  contains_any-error l r e h = cc

  numeric-error :
      (l : Value Float) (o : FilterOp) (r : Value Float) (e : Fault)
      → numeric_compare fl tx l o r ≡ err e
      → e ≡ type_mismatch
  unfolding numeric_compare
  numeric-error l o r e h = ground arith

  compare_values-error :
      (l : Value Float) (o : FilterOp) (r : Value Float) (e : Fault)
      → compare_values fl tx l o r ≡ err e
      → e ≡ type_mismatch
  unfolding compare_values
  compare_values-error l eq r e h = cc
  compare_values-error l neq r e h = cc
  compare_values-error l in_list r e h = in_any-error l r e h
  compare_values-error l not_in r e h = ground (arith, in_any-error l r e)
  compare_values-error l contains r e h = contains_any-error l r e h
  compare_values-error l not_contains r e h = ground (arith, contains_any-error l r e)
  compare_values-error l o r e h = numeric-error l o r e h

  eval_condition-error :
      (c : FilterCondition Float) (client : ClientMetadata Float) (e : Fault)
      → eval_condition fl tx c client ≡ err e
      → e ≡ type_mismatch
  unfolding eval_condition
  eval_condition-error c client e h = elim (Result-cases (get_field fl tx client c.field)) [
    | inl (v, found) ↦ compare_values-error v c.op c.value e (rw (found, eval_condition) at h)
    | inr (f, missing) ↦ cc (let g : ok false ≡ err e = rw (missing, eval_condition) at h in g)
  ]

  -- The only error that a filter can meet on a client is a type mismatch.
  pub evaluate-error :
      (n : FilterNode Float) (client : ClientMetadata Float) (e : Fault)
      → evaluate fl tx n client ≡ err e
      → e ≡ type_mismatch
  unfolding evaluate
  evaluate-error (condition c) client e h = eval_condition-error c client e h
  evaluate-error (logic_not n) client e h = ground (arith, evaluate-error n client e)
  evaluate-error (logic_and n m) client e h =
      ground (arith, evaluate-error n client e, evaluate-error m client e)
  evaluate-error (logic_or n m) client e h =
      ground (arith, evaluate-error n client e, evaluate-error m client e)
