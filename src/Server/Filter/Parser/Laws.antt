-- ===== src/Server/Filter/Parser/Laws.antt =====
-- The parser ends with the fuel that it is given, and never reads past the end token.
use Prim.Native.Nat.{pred}
use super_duper_bassoon.Common.{
  ℕ, zero, suc, ◌+◌, ◌*◌, ◌≤◌, ◌<◌, String, Bool, true, List, [], ◌∷◌, Option, some, ◌≡◌, ◌≢◌,
  arith, inl, inr, Bool-cases, length, str_eq,
}
use super_duper_bassoon.Common.Fault.{Fault, Result, ok, err, panic}
use super_duper_bassoon.Common.Float.{Floats}
use super_duper_bassoon.Common.Int.{ℤ}
use super_duper_bassoon.Server.Filter.Ast.{FilterNode, logic_or, logic_and}
use super_duper_bassoon.Server.Filter.Token.{Token, lparen, rparen, eof, Unicode, tokenize}
use super_duper_bassoon.Server.Filter.Token.Laws.{
  Ends, more, Returns, with_error, with_value, tokenize-Ends,
}
use super_duper_bassoon.Server.Filter.Parser.{
  finish_parse, Parse, is_op, parse_condition, close_paren, loop_round, not_at, primary_at,
  parse_or, or_loop, parse_and, and_loop, parse_not, parse_primary, whole, parse_tokens,
  parse_filter,
}
use super_duper_bassoon.Server.Filter.Parser.Good.{
  Good, failed, parsed, Good-mono, Good-bind, invalid-ne-panic, Ends-tail, no_tokens, shorter,
  GoodBelow,
}
use super_duper_bassoon.Server.Filter.Parser.Operands.{parse_condition-Good}

module _ (fl : Floats) (parse_int : String → Option ℤ) (has_dot : String → Bool) where
  open fl use {Float, parse}

  -- `p` is good on the lists shorter than `n`, and takes one token at least.
  abbrev Takes : {A : Type 0} → ℕ → (List Token → Parse A) → Type 0
  Takes n p = (ts : List Token) → Ends ts → length ts < n → Good (pred (length ts)) (p ts)

  is_op-ne-eof : (w : String) (t : Token) → is_op w t ≡ true → t ≢ eof
  is_op-ne-eof w eof h e = cc
  is_op-ne-eof w t h e = cc

  loop_round-Good :
      (w : String) (node : FilterNode Float → FilterNode Float → FilterNode Float)
      (operand : List Token → Parse (FilterNode Float))
      (again : FilterNode Float → List Token → Parse (FilterNode Float)) (l : FilterNode Float)
      (ts : List Token)
      → Ends ts
      → Takes (length ts) operand
      → ((n : FilterNode Float) → GoodBelow (length ts) (again n))
      → Good (length ts) (loop_round fl parse_int has_dot w node operand again l ts)
  unfolding loop_round
  loop_round-Good w node operand again l [] e ho ha = no_tokens e
  loop_round-Good w node operand again l (t ∷ ts) e ho ha = elim (Bool-cases (is_op w t)) [
    | inl hit ↦
        let rest = Ends-tail (is_op-ne-eof w t hit) e in
        rw hit (
          Good-bind (operand ts) _ (ho ts rest (omega arith)) λ r ts' e' le.
            Good-mono {m = length ts'} (omega arith) (ha (node l r) ts' e' (omega arith)))
    | inr miss ↦ rw miss (parsed e (omega arith))
  ]

  not_at-Good :
      (inner primary : List Token → Parse (FilterNode Float)) (ts : List Token)
      → Ends ts
      → Takes (length ts) inner
      → Good (pred (length ts)) (primary ts)
      → Good (pred (length ts)) (not_at fl parse_int has_dot inner primary ts)
  unfolding not_at
  not_at-Good inner primary [] e hi hp = no_tokens e
  not_at-Good inner primary (t ∷ ts) e hi hp = elim (Bool-cases (is_op "NOT" t)) [
    | inl hit ↦
        let rest = Ends-tail (is_op-ne-eof "NOT" t hit) e in
        rw hit
          (Good-bind (inner ts) _ (hi ts rest (omega arith)) λ n ts' e' le. parsed e' (omega arith))
    | inr miss ↦ rw miss hp
  ]

  close_paren-Good :
      (n : FilterNode Float) (ts : List Token)
      → Ends ts
      → Good (length ts) (close_paren fl parse_int has_dot n ts)
  unfolding close_paren
  close_paren-Good n [] e = no_tokens e
  close_paren-Good n (rparen ∷ ts) (more e) = parsed e (omega arith)
  close_paren-Good n (t ∷ ts) e = failed invalid-ne-panic

  primary_at-Good :
      (inner cond : List Token → Parse (FilterNode Float)) (ts : List Token)
      → Ends ts
      → Takes (length ts) inner
      → Good (pred (length ts)) (cond ts)
      → Good (pred (length ts)) (primary_at fl parse_int has_dot inner cond ts)
  unfolding primary_at
  primary_at-Good inner cond [] e hi hc = no_tokens e
  primary_at-Good inner cond (lparen ∷ ts) (more e) hi hc =
      Good-bind (inner ts) _ (hi ts e (omega arith))
        λ n ts' e' le. Good-mono {m = length ts'} (omega arith) (close_paren-Good n ts' e')
  primary_at-Good inner cond (t ∷ ts) e hi hc = hc

  mutual
    unfolding parse_or or_loop parse_and and_loop parse_not parse_primary

    or-Good :
        (f : ℕ) (ts : List Token)
        → Ends ts
        → 5 * length ts + 4 ≤ f
        → Good (pred (length ts)) (parse_or fl parse_int has_dot f ts)
    or-Good zero ts e le = absurd (omega arith)
    or-Good (suc f) ts e le =
        Good-bind (parse_and fl parse_int has_dot f ts) _ (and-Good f ts e (omega arith))
          λ l ts' e' le'.
            Good-mono {m = length ts'} le'
              (or_loop-Good f l ts' e' (shorter 4 ts ts' e le' (omega arith)))

    or_loop-Good :
        (f : ℕ) (l : FilterNode Float) (ts : List Token)
        → Ends ts
        → 5 * length ts + 4 ≤ f
        → Good (length ts) (or_loop fl parse_int has_dot f l ts)
    or_loop-Good zero l ts e le = absurd (omega arith)
    or_loop-Good (suc f) l ts e le =
        loop_round-Good "OR" logic_or _ _ l ts e (λ us d lt. and-Good f us d (omega arith))
          (λ n us d lt. or_loop-Good f n us d (omega arith))

    and-Good :
        (f : ℕ) (ts : List Token)
        → Ends ts
        → 5 * length ts + 3 ≤ f
        → Good (pred (length ts)) (parse_and fl parse_int has_dot f ts)
    and-Good zero ts e le = absurd (omega arith)
    and-Good (suc f) ts e le =
        Good-bind (parse_not fl parse_int has_dot f ts) _ (not-Good f ts e (omega arith))
          λ l ts' e' le'.
            Good-mono {m = length ts'} le'
              (and_loop-Good f l ts' e' (shorter 3 ts ts' e le' (omega arith)))

    and_loop-Good :
        (f : ℕ) (l : FilterNode Float) (ts : List Token)
        → Ends ts
        → 5 * length ts + 3 ≤ f
        → Good (length ts) (and_loop fl parse_int has_dot f l ts)
    and_loop-Good zero l ts e le = absurd (omega arith)
    and_loop-Good (suc f) l ts e le =
        loop_round-Good "AND" logic_and _ _ l ts e (λ us d lt. not-Good f us d (omega arith))
          (λ n us d lt. and_loop-Good f n us d (omega arith))

    not-Good :
        (f : ℕ) (ts : List Token)
        → Ends ts
        → 5 * length ts + 2 ≤ f
        → Good (pred (length ts)) (parse_not fl parse_int has_dot f ts)
    not-Good zero ts e le = absurd (omega arith)
    not-Good (suc f) ts e le =
        not_at-Good _ (parse_primary fl parse_int has_dot f) ts e
          (λ us d lt. not-Good f us d (omega arith)) (primary-Good f ts e (omega arith))

    primary-Good :
        (f : ℕ) (ts : List Token)
        → Ends ts
        → 5 * length ts + 1 ≤ f
        → Good (pred (length ts)) (parse_primary fl parse_int has_dot f ts)
    primary-Good zero ts e le = absurd (omega arith)
    primary-Good (suc f) ts e le =
        primary_at-Good _ (parse_condition fl parse_int has_dot f) ts e
          (λ us d lt. or-Good f us d (omega arith))
          (parse_condition-Good fl parse_int has_dot f ts e (omega arith))

  -- The call returned, and not by a panic.
  pub data ReturnsSafely {A : Type 0} : Option (Result A) → Type 0 where
    safe_error : {e : Fault} → e ≢ panic → ReturnsSafely (some (err e))
    safe_value : {a : A} → ReturnsSafely (some (ok a))

  whole-safe :
      (n : FilterNode Float) (ts : List Token)
      → Ends ts
      → ReturnsSafely (whole fl parse_int has_dot n ts)
  unfolding whole
  whole-safe n [] e = no_tokens e
  whole-safe n (eof ∷ ts) e = safe_value
  whole-safe n (t ∷ ts) e = safe_error invalid-ne-panic

  after_or :
      (n : ℕ) (p : Parse (FilterNode Float))
      → Good n p
      → ReturnsSafely (finish_parse fl parse_int has_dot p)
  unfolding finish_parse
  after_or n _ (failed h) = safe_error h
  after_or n _ (parsed {a = a} {ts = ts} e le) = whole-safe a ts e

  after_tokens :
      (r : Option (Result (List Token)))
      → Returns Ends r
      → ReturnsSafely (parse_tokens fl parse_int has_dot r)
  unfolding parse_tokens
  after_tokens _ (with_error h) = safe_error h
  after_tokens _ (with_value {a = ts} e) =
      after_or (pred (length ts)) (parse_or fl parse_int has_dot (5 * length ts + 4) ts)
        (or-Good (5 * length ts + 4) ts e (omega arith))

  -- ParseFilter returns for every text, with a filter or an error, and never reads past the end of
  -- its tokens, which would stop the program.
  pub parse_filter-ReturnsSafely :
      (u : Unicode) (expr : String) → ReturnsSafely (parse_filter fl parse_int has_dot u expr)
  unfolding parse_filter
  parse_filter-ReturnsSafely u expr =
      let trimmed = u.trim_space expr in
      elim (Bool-cases (str_eq trimmed "")) [
        | inl blank ↦ rw blank safe_value
        | inr text ↦ rw text (after_tokens (tokenize u trimmed) (tokenize-Ends u trimmed))
      ]
