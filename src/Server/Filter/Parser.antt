-- ===== src/Server/Filter/Parser.antt =====
-- The parser of internal/core/domain/filter_parser.go. Its state, the tokens and the position, is
-- the list of the tokens from the position on; reading past the last one stops the program.
pub mod Good
pub mod Operands
pub mod Laws
use Prim.Native.String
use super_duper_bassoon.Common.{
  ℕ, zero, suc, ◌+◌, ◌*◌, String, Bool, true, false, List, [], ◌∷◌, Option, none, some,
  if◌then◌else◌, str_eq, length,
}
use super_duper_bassoon.Common.Fault.{Fault, Result, ok, err, invalid_filter, panic, external}
use super_duper_bassoon.Common.Float.{Floats}
use super_duper_bassoon.Common.Int.{ℤ}
use super_duper_bassoon.Client.Value.{Value, text, bool, int64, float64, list, Values, nil, cons}
use super_duper_bassoon.Server.Filter.Ast.{
  FilterOp, known_op, FilterNode, condition, logic_not, logic_and, logic_or,
}
use super_duper_bassoon.Server.Filter.Token.{
  Token, ident, str, number, op, lparen, rparen, comma, lbracket, rbracket, eof, Unicode, tokenize,
}

-- What is parsed and the tokens left; `none` is a parser out of fuel.
abbrev pub Parse : Type 0 → Type 0
Parse A = Option (Result (A × List Token))

abbrev pub bind : {A B : Type 0} → Parse A → (A → List Token → Parse B) → Parse B
bind none f = none
bind (some (err e)) f = some (err e)
bind (some (ok (a, ts))) f = f a ts

abbrev pub done : {A : Type 0} → A → List Token → Parse A
done a ts = some (ok (a, ts))

abbrev pub stop : {A : Type 0} → Fault → Parse A
stop e = some (err e)

abbrev pub is_op : String → Token → Bool
is_op s (op w) = str_eq w s
is_op s _ = false

module _ (fl : Floats) (parse_int : String → Option ℤ) (has_dot : String → Bool) where
  open fl use {Float, parse}

  -- The tNumber case; strconv's error is passed on.
  unfoldable pub number_value : String → List Token → Parse (Value Float)
  number_value w ts =
      if has_dot w
      then (elim (parse w) [ none ↦ stop external | some f ↦ done (float64 f) ts ])
      else (elim (parse_int w) [ none ↦ stop external | some n ↦ done (int64 n) ts ])

  unfoldable pub ident_value : String → Value Float
  ident_value w =
      if str_eq w "true" then bool true else if str_eq w "false" then bool false else text w

  -- What follows an element of a list; `rest` parses the elements after a comma.
  unfoldable pub after_element :
      Value Float → List Token → (List Token → Parse (Values Float)) → Parse (Values Float)
  after_element v [] rest = stop panic
  after_element v (comma ∷ ts) rest = bind (rest ts) (λ vs ts'. done (cons v vs) ts')
  after_element v (rbracket ∷ ts) rest = done (cons v nil) ts
  after_element v (t ∷ ts) rest = stop invalid_filter

  -- The two ways out of the tLBracket case; `rest` parses the elements.
  unfoldable pub list_value : List Token → (List Token → Parse (Values Float)) → Parse (Value Float)
  list_value [] rest = stop panic
  list_value (rbracket ∷ ts) rest = done (list nil) ts
  list_value (t ∷ ts) rest = bind (rest (t ∷ ts)) (λ vs ts'. done (list vs) ts')

  unfoldable pub value_at : List Token → (List Token → Parse (Values Float)) → Parse (Value Float)
  unfolding number_value ident_value list_value
  value_at [] rest = stop panic
  value_at (str s ∷ ts) rest = done (text s) ts
  value_at (number w ∷ ts) rest = number_value w ts
  value_at (ident w ∷ ts) rest = done (ident_value w) ts
  value_at (lbracket ∷ ts) rest = list_value ts rest
  value_at (t ∷ ts) rest = stop invalid_filter

  -- The loop over the elements of a list, each by parseValue, with fuel.
  unfoldable pub parse_elements : ℕ → List Token → Parse (Values Float)
  unfolding value_at after_element
  parse_elements zero ts = none
  parse_elements (suc f) ts =
      let rest = parse_elements f in bind (value_at ts rest) (λ v ts'. after_element v ts' rest)

  unfoldable pub parse_value : ℕ → List Token → Parse (Value Float)
  unfolding value_at
  parse_value f ts = value_at ts (parse_elements f)

  unfoldable pub with_op : ℕ → String → Option FilterOp → List Token → Parse (FilterNode Float)
  unfolding parse_value
  with_op f field none ts = stop invalid_filter
  with_op f field (some o) ts =
      bind (parse_value f ts)
        λ v ts'. done (condition (record { field = field; op = o; value = v })) ts'

  unfoldable pub operator_at : ℕ → String → List Token → Parse (FilterNode Float)
  unfolding with_op
  operator_at f field [] = stop panic
  operator_at f field (op raw ∷ ts) = with_op f field (known_op raw) ts
  operator_at f field (t ∷ ts) = stop invalid_filter

  unfoldable pub parse_condition : ℕ → List Token → Parse (FilterNode Float)
  unfolding operator_at
  parse_condition f [] = stop panic
  parse_condition f (ident field ∷ ts) = operator_at f field ts
  parse_condition f (t ∷ ts) = stop invalid_filter

  unfoldable pub close_paren : FilterNode Float → List Token → Parse (FilterNode Float)
  close_paren n [] = stop panic
  close_paren n (rparen ∷ ts) = done n ts
  close_paren n (t ∷ ts) = stop invalid_filter

  -- One round of the loop of parseOr or parseAnd, on the operator `w`: `operand` parses what stands
  -- to its right, and `again` goes round with the node that is built.
  unfoldable pub loop_round :
      String
      → (FilterNode Float → FilterNode Float → FilterNode Float)
      → (List Token → Parse (FilterNode Float))
      → (FilterNode Float → List Token → Parse (FilterNode Float))
      → FilterNode Float
      → List Token
      → Parse (FilterNode Float)
  loop_round w node operand again l [] = stop panic
  loop_round w node operand again l (t ∷ ts) =
      if is_op w t then bind (operand ts) (λ r ts'. again (node l r) ts') else done l (t ∷ ts)

  unfoldable pub not_at :
      (List Token → Parse (FilterNode Float))
      → (List Token → Parse (FilterNode Float))
      → List Token
      → Parse (FilterNode Float)
  not_at inner primary [] = stop panic
  not_at inner primary (t ∷ ts) =
      if is_op "NOT" t then bind (inner ts) (λ n ts'. done (logic_not n) ts') else primary (t ∷ ts)

  unfoldable pub primary_at :
      (List Token → Parse (FilterNode Float))
      → (List Token → Parse (FilterNode Float))
      → List Token
      → Parse (FilterNode Float)
  unfolding close_paren
  primary_at inner cond [] = stop panic
  primary_at inner cond (lparen ∷ ts) = bind (inner ts) close_paren
  primary_at inner cond (t ∷ ts) = cond (t ∷ ts)

  mutual
    unfolding loop_round not_at primary_at

    pub parse_or : ℕ → List Token → Parse (FilterNode Float)
    parse_or zero ts = none
    parse_or (suc f) ts = bind (parse_and f ts) (λ l ts'. or_loop f l ts')

    pub or_loop : ℕ → FilterNode Float → List Token → Parse (FilterNode Float)
    or_loop zero l ts = none
    or_loop (suc f) l ts = loop_round "OR" logic_or (parse_and f) (or_loop f) l ts

    pub parse_and : ℕ → List Token → Parse (FilterNode Float)
    parse_and zero ts = none
    parse_and (suc f) ts = bind (parse_not f ts) (λ l ts'. and_loop f l ts')

    pub and_loop : ℕ → FilterNode Float → List Token → Parse (FilterNode Float)
    and_loop zero l ts = none
    and_loop (suc f) l ts = loop_round "AND" logic_and (parse_not f) (and_loop f) l ts

    pub parse_not : ℕ → List Token → Parse (FilterNode Float)
    parse_not zero ts = none
    parse_not (suc f) ts = not_at (parse_not f) (parse_primary f) ts

    pub parse_primary : ℕ → List Token → Parse (FilterNode Float)
    parse_primary zero ts = none
    parse_primary (suc f) ts = primary_at (parse_or f) (parse_condition f) ts

  unfoldable pub whole : FilterNode Float → List Token → Option (Result (Option (FilterNode Float)))
  whole n [] = some (err panic)
  whole n (eof ∷ ts) = some (ok (some n))
  whole n (t ∷ ts) = some (err invalid_filter)

  unfoldable pub finish_parse :
      Parse (FilterNode Float) → Option (Result (Option (FilterNode Float)))
  unfolding whole
  finish_parse none = none
  finish_parse (some (err e)) = some (err e)
  finish_parse (some (ok (n, rest))) = whole n rest

  -- The part of ParseFilter behind the call of tokenize, with fuel for the parser.
  unfoldable pub parse_tokens :
      Option (Result (List Token)) → Option (Result (Option (FilterNode Float)))
  unfolding finish_parse
  parse_tokens none = none
  parse_tokens (some (err e)) = some (err e)
  parse_tokens (some (ok ts)) = finish_parse (parse_or (5 * length ts + 4) ts)

  -- ParseFilter. A nil node is `none`.
  unfoldable pub parse_filter : Unicode → String → Option (Result (Option (FilterNode Float)))
  parse_filter u expr =
      let trimmed = u.trim_space expr in
      if str_eq trimmed "" then some (ok none) else parse_tokens (tokenize u trimmed)
