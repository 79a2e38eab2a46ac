-- ===== src/Server/Filter/Parser/Operands.antt =====
-- Values and conditions, from which the parsers of the operators are built.
use Prim.Native.Nat.{pred}
use super_duper_bassoon.Common.{
  ℕ, zero, suc, ◌≤◌, String, Bool, List, [], ◌∷◌, Option, none, some, arith, inl, inr, Bool-cases,
  length,
}
use super_duper_bassoon.Common.Fault.{external}
use super_duper_bassoon.Common.Float.{Floats}
use super_duper_bassoon.Common.Int.{ℤ}
use super_duper_bassoon.Client.Value.{Value, Values, float64, int64}
use super_duper_bassoon.Server.Filter.Ast.{FilterOp, known_op}
use super_duper_bassoon.Server.Filter.Token.{
  Token, ident, str, number, op, comma, lbracket, rbracket,
}
use super_duper_bassoon.Server.Filter.Token.Laws.{Ends, more}
use super_duper_bassoon.Server.Filter.Parser.{
  Parse, done, stop, number_value, after_element, list_value, value_at, parse_elements, parse_value,
  operator_at, with_op, parse_condition,
}
use super_duper_bassoon.Server.Filter.Parser.Good.{
  Good, failed, parsed, Good-mono, Good-bind, invalid-ne-panic, external-ne-panic, no_tokens,
  GoodBelow,
}

module _ (fl : Floats) (parse_int : String → Option ℤ) (has_dot : String → Bool) where
  open fl use {Float, parse}

  float_value-Good :
      (o : Option Float) (ts : List Token)
      → Ends ts
      → Good {A = Value Float}
          (length ts)
          (elim o [ none ↦ stop external | some f ↦ done (float64 f) ts ])
  float_value-Good none ts e = failed external-ne-panic
  float_value-Good (some f) ts e = parsed e (omega arith)

  int_value-Good :
      (o : Option ℤ) (ts : List Token)
      → Ends ts
      → Good {A = Value Float}
          (length ts)
          (elim o [ none ↦ stop external | some n ↦ done (int64 n) ts ])
  int_value-Good none ts e = failed external-ne-panic
  int_value-Good (some n) ts e = parsed e (omega arith)

  number_value-Good :
      (w : String) (ts : List Token)
      → Ends ts
      → Good (length ts) (number_value fl parse_int has_dot w ts)
  unfolding number_value
  number_value-Good w ts e = elim (Bool-cases (has_dot w)) [
    | inl dot ↦ rw dot (float_value-Good (parse w) ts e)
    | inr no_dot ↦ rw no_dot (int_value-Good (parse_int w) ts e)
  ]

  after_element-Good :
      (v : Value Float) (ts : List Token) (rest : List Token → Parse (Values Float))
      → Ends ts
      → GoodBelow (length ts) rest
      → Good (length ts) (after_element fl parse_int has_dot v ts rest)
  unfolding after_element
  after_element-Good v [] rest e h = no_tokens e
  after_element-Good v (comma ∷ ts) rest (more e) h =
      Good-bind (rest ts) _ (h ts e (omega arith)) λ vs ts' e' le. parsed e' (omega arith)
  after_element-Good v (rbracket ∷ ts) rest (more e) h = parsed e (omega arith)
  after_element-Good v (t ∷ ts) rest e h = failed invalid-ne-panic

  list_value-Good :
      (ts : List Token) (rest : List Token → Parse (Values Float))
      → Ends ts
      → GoodBelow (suc (length ts)) rest
      → Good (length ts) (list_value fl parse_int has_dot ts rest)
  unfolding list_value
  list_value-Good [] rest e h = no_tokens e
  list_value-Good (rbracket ∷ ts) rest (more e) h = parsed e (omega arith)
  list_value-Good (t ∷ ts) rest e h =
      Good-bind (rest _) _ (h _ e (omega arith)) λ vs ts' e' le. parsed e' le

  -- A value takes one token at least.
  value_at-Good :
      (ts : List Token) (rest : List Token → Parse (Values Float))
      → Ends ts
      → GoodBelow (length ts) rest
      → Good (pred (length ts)) (value_at fl parse_int has_dot ts rest)
  unfolding value_at
  value_at-Good [] rest e h = no_tokens e
  value_at-Good (str s ∷ ts) rest (more e) h = parsed e (omega arith)
  value_at-Good (number w ∷ ts) rest (more e) h = number_value-Good w ts e
  value_at-Good (ident w ∷ ts) rest (more e) h = parsed e (omega arith)
  value_at-Good (lbracket ∷ ts) rest (more e) h = list_value-Good ts rest e h
  value_at-Good (t ∷ ts) rest e h = failed invalid-ne-panic

  parse_elements-Good : (f : ℕ) → GoodBelow f (parse_elements fl parse_int has_dot f)
  unfolding parse_elements
  parse_elements-Good zero ts e lt = absurd (omega arith)
  parse_elements-Good (suc f) ts e lt =
      let rest = parse_elements fl parse_int has_dot f in
      let ih = parse_elements-Good f in
      Good-bind (value_at fl parse_int has_dot ts rest) _
        (value_at-Good ts rest e (λ us d lt'. ih us d (omega arith)))
        λ v ts' e' le.
          Good-mono {m = length ts'} (omega arith)
            (after_element-Good v ts' rest e' (λ us d lt'. ih us d (omega arith)))

  parse_value-Good :
      (f : ℕ) (ts : List Token)
      → Ends ts
      → length ts ≤ f
      → Good (length ts) (parse_value fl parse_int has_dot f ts)
  unfolding parse_value
  parse_value-Good f ts e le = Good-mono {m = pred (length ts)} (omega arith) (
      value_at-Good ts (parse_elements fl parse_int has_dot f) e
        λ us d lt. parse_elements-Good f us d (omega arith))

  known-Good :
      (f : ℕ) (field : String) (o : Option FilterOp) (ts : List Token)
      → Ends ts
      → length ts ≤ f
      → Good (length ts) (with_op fl parse_int has_dot f field o ts)
  unfolding with_op
  known-Good f field none ts e le = failed invalid-ne-panic
  known-Good f field (some o) ts e le =
      Good-bind (parse_value fl parse_int has_dot f ts) _ (parse_value-Good f ts e le)
        λ v ts' e' le'. parsed e' le'

  operator_at-Good :
      (f : ℕ) (field : String) (ts : List Token)
      → Ends ts
      → length ts ≤ f
      → Good (length ts) (operator_at fl parse_int has_dot f field ts)
  unfolding operator_at
  operator_at-Good f field [] e le = no_tokens e
  operator_at-Good f field (op raw ∷ ts) (more e) le =
      Good-mono {m = length ts} (omega arith) (known-Good f field (known_op raw) ts e (omega arith))
  operator_at-Good f field (t ∷ ts) e le = failed invalid-ne-panic

  -- A condition takes one token at least.
  pub parse_condition-Good :
      (f : ℕ) (ts : List Token)
      → Ends ts
      → length ts ≤ f
      → Good (pred (length ts)) (parse_condition fl parse_int has_dot f ts)
  unfolding parse_condition
  parse_condition-Good f [] e le = no_tokens e
  parse_condition-Good f (ident field ∷ ts) (more e) le =
      operator_at-Good f field ts e (omega arith)
  parse_condition-Good f (t ∷ ts) e le = failed invalid-ne-panic
