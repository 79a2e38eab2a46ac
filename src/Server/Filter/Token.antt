-- ===== src/Server/Filter/Token.antt =====
-- The tokens and `tokenize` of internal/core/domain/filter_parser.go. A text is walked as the list
-- of its runes. Go's unicode and strings packages are a parameter.
pub mod Laws
use Prim.Native.Char.{Char, code}
use Prim.Native.String
use super_duper_bassoon.Common.{
  ℕ, zero, suc, String, Bool, true, false, List, [], ◌∷◌, Option, none, some, if◌then◌else◌, str_eq,
  ◌==◌, ◌&&◌, ◌||◌, not,
}
use super_duper_bassoon.Common.Fault.{Result, ok, err, invalid_filter, ◌>>=◌}

-- One constructor for each tokenType, with the `val` that the parser reads.
pub data Token : Type 0 where
  ident str number op : String → Token
  lparen rparen comma lbracket rbracket eof : Token

pub record Unicode : Type 0 where
  pub is_space : Char → Bool
  pub is_digit : Char → Bool
  pub is_letter : Char → Bool
  pub to_upper : String → String
  pub to_lower : String → String
  pub trim_space : String → String

abbrev pub rune_count : String → ℕ
rune_count String.[] = 0
rune_count (String.◌∷◌ c s) = suc (rune_count s)

abbrev pub cons_char : Char → String × String → String × String
cons_char c (s, rest) = (String.◌∷◌ c s, rest)

-- The runes up to the first that fails the test, and the rest from that one on.
unfoldable pub span : (Char → Bool) → String → String × String
span p String.[] = (String.[], String.[])
span p (String.◌∷◌ c s) =
    let longer = cons_char c (span p s) in if p c then longer else (String.[], String.◌∷◌ c s)

unfoldable pub keyword : String → Bool
keyword w =
    str_eq w "AND"
    || str_eq w "OR"
    || str_eq w "NOT"
    || str_eq w "IN"
    || str_eq w "NOT_IN"
    || str_eq w "CONTAINS"
    || str_eq w "NOT_CONTAINS"

module _ (u : Unicode) where
  open u use {is_space, is_digit, is_letter, to_upper, to_lower}

  unfoldable pub word_token : String → Token
  unfolding keyword
  word_token word =
      let upper = to_upper word in
      if keyword upper
      then op upper
      else if str_eq upper "TRUE" || str_eq upper "FALSE"
      then ident (to_lower word)
      else ident word

  unfoldable pub starts_digit : String → Bool
  starts_digit String.[] = false
  starts_digit (String.◌∷◌ c s) = is_digit c

  unfoldable pub number_rune : Char → Bool
  number_rune c = is_digit c || code c == b'.'

  unfoldable pub word_rune : Char → Bool
  word_rune c = is_letter c || is_digit c || code c == b'_' || code c == b'.'

  -- The token after a sign of comparison, with an `=` that follows it.
  unfoldable pub op_token : Char → String → Token × String
  op_token c String.[] = (op (String.◌∷◌ c String.[]), String.[])
  op_token c (String.◌∷◌ d s) =
      if code d == b'='
      then (op (String.◌∷◌ c (String.◌∷◌ d String.[])), s)
      else (op (String.◌∷◌ c String.[]), String.◌∷◌ d s)

  -- The quoted text and what follows the closing quote.
  unfoldable pub string_token : String × String → Result (Token × String)
  string_token (s, String.[]) = err invalid_filter
  string_token (s, String.◌∷◌ quote rest) = ok (str s, rest)

  abbrev number_token : String × String → Token × String
  number_token (s, rest) = (number s, rest)

  abbrev ident_token : String × String → Token × String
  ident_token (s, rest) = (word_token s, rest)

  abbrev one : Token → String → Result (Option Token × String)
  one t s = ok (some t, s)

  abbrev emit : Token × String → Result (Option Token × String)
  emit (t, s) = ok (some t, s)

  -- One round of the loop at the rune `c` with `s` after it: a token or none, and the text left.
  unfoldable pub next_token : Char → String → Result (Option Token × String)
  unfolding starts_digit number_rune word_rune op_token string_token
  next_token c s =
      if is_space c
      then ok (none, s)
      else if code c == b'('
      then one lparen s
      else if code c == b')'
      then one rparen s
      else if code c == b'['
      then one lbracket s
      else if code c == b']'
      then one rbracket s
      else if code c == b','
      then one comma s
      else if code c == 39 || code c == 34
      then (do t ← string_token (span (λ d. not (code d == code c)) s); emit t)
      else if is_digit c || (code c == b'-' && starts_digit s)
      then emit (number_token (cons_char c (span number_rune s)))
      else if code c == b'=' || code c == b'!' || code c == b'<' || code c == b'>'
      then emit (op_token c s)
      else if is_letter c || code c == b'_'
      then emit (ident_token (cons_char c (span word_rune s)))
      else err invalid_filter

  abbrev add_token : Option Token → List Token → List Token
  add_token none ts = ts
  add_token (some t) ts = t ∷ ts

  unfoldable pub add_round :
      Option Token → Option (Result (List Token)) → Option (Result (List Token))
  add_round o none = none
  add_round o (some (err e)) = some (err e)
  add_round o (some (ok ts)) = some (ok (add_token o ts))

  -- The rest of the loop, `rest`, is reached if the round met no error.
  unfoldable pub after_round :
      Result (Option Token × String)
      → (String → Option (Result (List Token)))
      → Option (Result (List Token))
  unfolding add_round
  after_round (err e) rest = some (err e)
  after_round (ok (o, s)) rest = add_round o (rest s)

  -- The loop, with fuel for its rounds: `none` is a loop that has not ended.
  unfoldable pub tokenize_loop : ℕ → String → Option (Result (List Token))
  unfolding after_round
  tokenize_loop zero s = none
  tokenize_loop (suc f) String.[] = some (ok (eof ∷ []))
  tokenize_loop (suc f) (String.◌∷◌ c s) = after_round (next_token c s) (tokenize_loop f)

  unfoldable pub tokenize : String → Option (Result (List Token))
  tokenize s = tokenize_loop (suc (rune_count s)) s
