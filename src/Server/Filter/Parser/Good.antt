-- ===== src/Server/Filter/Parser/Good.antt =====
-- What the parsers of a filter promise: they end, and keep to the tokens before the end token.
use Prim.Native.Nat.{pred}
use super_duper_bassoon.Common.{
  ℕ, suc, ◌+◌, ◌*◌, ◌≤◌, ◌<◌, List, [], ◌∷◌, some, ◌≢◌, refl, arith, length,
}
use super_duper_bassoon.Common.Fault.{Fault, ok, err, invalid_filter, panic, external}
use super_duper_bassoon.Server.Filter.Token.{Token, eof}
use super_duper_bassoon.Server.Filter.Token.Laws.{Ends, ends, more}
use super_duper_bassoon.Server.Filter.Parser.{Parse, bind}

-- The parser returned without a panic; if it returned a value, the tokens left still end in the
-- end token, and are at most `n`.
pub data Good {A : Type 0} (n : ℕ) : Parse A → Type 0 where
  failed : {e : Fault} → e ≢ panic → Good n (some (err e))
  parsed : {a : A} {ts : List Token} → Ends ts → length ts ≤ n → Good n (some (ok (a, ts)))

pub Good-mono : {A : Type 0} {m n : ℕ} {p : Parse A} → m ≤ n → Good m p → Good n p
Good-mono h (failed e) = failed e
Good-mono h (parsed e le) = parsed e (omega arith)

pub Good-bind :
    {A B : Type 0} {m n : ℕ} (p : Parse A) (f : A → List Token → Parse B)
    → Good m p
    → ((a : A) (ts : List Token) → Ends ts → length ts ≤ m → Good n (f a ts))
    → Good n (bind p f)
Good-bind _ f (failed e) h = failed e
Good-bind _ f (parsed {a = a} {ts = ts} e le) h = h a ts e le

pub invalid-ne-panic : invalid_filter ≢ panic
invalid-ne-panic e = cc

pub external-ne-panic : external ≢ panic
external-ne-panic e = cc

-- The tokens behind one that is not the end token.
pub Ends-tail : {t : Token} {ts : List Token} → t ≢ eof → Ends (t ∷ ts) → Ends ts
Ends-tail h ends = absurd (h refl)
Ends-tail h (more e) = e

pub Ends-ne-nil : {ts : List Token} → Ends ts → ts ≢ []
Ends-ne-nil ends h = cc
Ends-ne-nil (more e) h = cc

-- The tokens behind one of which the parser knows that it is not the end token.
pub tail_of :
    {t : Token} {ts : List Token}
    → t ≢ eof
    → Ends (t ∷ ts)
    → Ends ts × (length ts < length (t ∷ ts))
tail_of h e = (Ends-tail h e, omega arith)

pub no_tokens : {C : Type 0} → Ends [] → C
no_tokens e = absurd (Ends-ne-nil e refl)

pub Ends-pos : {ts : List Token} → Ends ts → 0 < length ts
Ends-pos ends = omega arith
Ends-pos (more e) = omega arith

pub shorter :
    {f : ℕ} (k : ℕ) (ts ts' : List Token)
    → Ends ts
    → length ts' ≤ pred (length ts)
    → 5 * length ts + k ≤ suc (suc f)
    → 5 * length ts' + k ≤ f
shorter k ts ts' e le h = omega (arith, Ends-pos e)

-- A parser that is good on lists shorter than `n`.
abbrev pub GoodBelow : {A : Type 0} → ℕ → (List Token → Parse A) → Type 0
GoodBelow n p = (ts : List Token) → Ends ts → length ts < n → Good (length ts) (p ts)
