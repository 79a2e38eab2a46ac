-- ===== src/Server/Filter/Token/Laws.antt =====
-- The tokenizer ends, and what it returns ends in the end token.
use Prim.Native.Char.{Char, code}
use super_duper_bassoon.Common.{
  ℕ, zero, suc, ◌≤◌, ◌<◌, String, Bool, List, [], ◌∷◌, Option, none, some, ◌≡◌, ◌≢◌, refl, arith,
  ◌==◌, not,
}
use super_duper_bassoon.Common.Fault.{Fault, Result, ok, err, panic, ◌>>=◌}
use super_duper_bassoon.Server.Filter.Token.{
  Token, eof, Unicode, rune_count, span, number_rune, word_rune, op_token, string_token, next_token,
  tokenize_loop, tokenize, add_token, add_round, after_round,
}

-- The last token is the end token.
pub data Ends : List Token → Type 0 where
  ends : Ends (eof ∷ [])
  more : {t : Token} {ts : List Token} → Ends ts → Ends (t ∷ ts)

-- The call returned without a panic, and what it returned, unless an error, has the property.
pub data Returns {A : Type 0} (P : A → Type 0) : Option (Result A) → Type 0 where
  with_error : {e : Fault} → e ≢ panic → Returns P (some (err e))
  with_value : {a : A} → P a → Returns P (some (ok a))

span-le : (p : Char → Bool) (s : String) → rune_count (span p s).1 ≤ rune_count s
unfolding span
span-le p String.[] = omega arith
span-le p (String.◌∷◌ c s) = ground (arith, span-le p s)

module _ (u : Unicode) where
  op_token-le : (c : Char) (s : String) → rune_count (op_token u c s).1 ≤ rune_count s
  unfolding op_token
  op_token-le c String.[] = omega arith
  op_token-le c (String.◌∷◌ d s) = ground arith

  quoted-le :
      (q : String × String) (o : Option Token) (t : String)
      → ◌>>=◌ {T = Option Token × String} (string_token u q) (λ r. ok (some r.0, r.1)) ≡ ok (o, t)
      → rune_count t ≤ rune_count q.1
  unfolding string_token
  quoted-le (s, String.[]) o t h = cc
  quoted-le (s, String.◌∷◌ c r) o t h = ground arith

  next_token-le :
      (c : Char) (s : String) (o : Option Token) (t : String)
      → next_token u c s ≡ ok (o, t)
      → rune_count t ≤ rune_count s
  unfolding next_token
  next_token-le c s o t h = ground (
    arith,
    span-le (number_rune u) s,
    span-le (word_rune u) s,
    span-le (λ d. not (code d == code c)) s,
    op_token-le c s,
    quoted-le (span (λ d. not (code d == code c)) s) o t,
  )

  quoted-ne-panic :
      (q : String × String) (e : Fault)
      → ◌>>=◌ {T = Option Token × String} (string_token u q) (λ r. ok (some r.0, r.1)) ≡ err e
      → e ≢ panic
  unfolding string_token
  quoted-ne-panic (s, String.[]) e h = cc
  quoted-ne-panic (s, String.◌∷◌ c r) e h = cc

  next_token-ne-panic : (c : Char) (s : String) (e : Fault) → next_token u c s ≡ err e → e ≢ panic
  unfolding next_token
  next_token-ne-panic c s e h =
      ground (arith, quoted-ne-panic (span (λ d. not (code d == code c)) s) e)

  cons-Ends : (o : Option Token) {ts : List Token} → Ends ts → Ends (add_token u o ts)
  cons-Ends none e = e
  cons-Ends (some t) e = more e

  finish_round :
      (o : Option Token) (rest : Option (Result (List Token)))
      → Returns Ends rest
      → Returns Ends (add_round u o rest)
  unfolding add_round
  finish_round o _ (with_error h) = with_error h
  finish_round o _ (with_value e) = with_value (cons-Ends o e)

  loop_step :
      (f n : ℕ) (r : Result (Option Token × String))
      → ((s : String) → rune_count s < f → Returns Ends (tokenize_loop u f s))
      → n < f
      → ((o : Option Token) (t : String) → r ≡ ok (o, t) → rune_count t ≤ n)
      → ((e : Fault) → r ≡ err e → e ≢ panic)
      → Returns Ends (after_round u r (tokenize_loop u f))
  unfolding after_round
  loop_step f n (err e) ih lt h g = with_error (g e refl)
  loop_step f n (ok (o, s)) ih lt h g = finish_round o _ (ih s (omega (arith, h o s refl)))

  loop-Ends : (f : ℕ) (s : String) → rune_count s < f → Returns Ends (tokenize_loop u f s)
  unfolding tokenize_loop
  loop-Ends zero s h = absurd (omega arith)
  loop-Ends (suc f) String.[] h = with_value ends
  loop-Ends (suc f) (String.◌∷◌ c s) h =
      loop_step f (rune_count s) (next_token u c s) (loop-Ends f) (omega arith) (next_token-le c s)
        (next_token-ne-panic c s)

  -- The tokenizer returns for every text, with an error or with tokens of which the last is the end.
  pub tokenize-Ends : (s : String) → Returns Ends (tokenize u s)
  unfolding tokenize
  tokenize-Ends s = loop-Ends (suc (rune_count s)) s (omega arith)
