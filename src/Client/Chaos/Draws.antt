-- ===== src/Client/Chaos/Draws.antt =====
-- A source of chance and the actions that draw from it. A draw cannot fail; what is built from
-- draws can, and the source has moved on then too.
use super_duper_bassoon.Common.{ℕ, String, Bool, true, false, if◌then◌else◌, Option, ◌≡◌, refl, ◌<◌}
use super_duper_bassoon.Common.Fault.{Result, ok, err}
use super_duper_bassoon.Common.Float.{Floats}
use super_duper_bassoon.Common.Dict.{Dict}

abbrev pub M : Type 0 → Type 0 → Type 0
M S A = S → Result A × S

abbrev pub pure : {S A : Type 0} → A → M S A
pure a s = (ok a, s)

abbrev pub lift : {S A : Type 0} → Result A → M S A
lift r s = (r, s)

abbrev pub continue : {S A B : Type 0} → (A → M S B) → Result A × S → Result B × S
continue f (ok a, s) = f a s
continue f (err e, s) = (err e, s)

infixl 5 ◌>>=◌
abbrev pub ◌>>=◌ : {S A B : Type 0} → M S A → (A → M S B) → M S B
◌>>=◌ m f s = continue f (m s)

abbrev pub draw : {S A : Type 0} → (S → A × S) → M S A
draw d s = let (a, s') = d s in (ok a, s')

-- `range_first` is the key with which an iteration over a map begins.
pub record ChaosSource (fl : Floats) (S : Type 0) : Type 0 where
  pub float64 : S → fl.Float × S
  pub intn : ℕ → S → ℕ × S
  pub range_first : Dict String → S → Option String × S

-- What math/rand documents of Intn for a positive argument.
pub record IsRandom {fl : Floats} {S : Type 0} (src : ChaosSource fl S) : Type 0 where
  pub intn_below : (n : ℕ) (s : S) → 0 < n → (src.intn n s).0 < n

-- Whatever the source holds, the action returns, and what it returns has the property.
pub record Yields {ℓ} {S A : Type 0} (P : A → Type ℓ) (m : M S A) : Type ℓ where
  pub at : (s : S) → (a : A) × ((m s).0 ≡ ok a) × P a

continue-ok :
    {S A B : Type 0} (f : A → M S B) (r : Result A) (t : S) (a : A)
    → r ≡ ok a
    → continue f (r, t) ≡ f a t
continue-ok f r t a e = rw e

pub Yields-bind {ℓ κ} :
    {S A B : Type 0} {Q : A → Type κ} {P : B → Type ℓ} {m : M S A} {f : A → M S B}
    → Yields Q m
    → ((a : A) → Q a → Yields P (f a))
    → Yields P (m >>= f)
Yields-bind {P} {m} {f} hm hf = record {
  at = λ s.
      let a = (hm.at s).0 in
      rw (continue-ok f (m s).0 (m s).1 a (hm.at s).1) ((hf a (hm.at s).2).at (m s).1);
}

pub Yields-pure {ℓ} : {S A : Type 0} {P : A → Type ℓ} (a : A) → P a → Yields {S = S} P (pure a)
Yields-pure a p = record { at = λ s. (a, refl, p) }

pub Yields-lift {ℓ} :
    {S A : Type 0} {P : A → Type ℓ} (r : Result A) (a : A)
    → r ≡ ok a
    → P a
    → Yields {S = S} P (lift r)
Yields-lift r a e p = record { at = λ s. (a, e, p) }

pub Yields-draw : {S A : Type 0} (d : S → A × S) → Yields (λ _. Unit {0}) (draw d)
Yields-draw d = record { at = λ s. ((d s).0, refl, tt) }

pub Yields-draw_in {ℓ} :
    {S A : Type 0} {P : A → Type ℓ} (d : S → A × S) → ((s : S) → P (d s).0) → Yields P (draw d)
Yields-draw_in d h = record { at = λ s. ((d s).0, refl, h s) }

pub Yields-if {ℓ} :
    {S A : Type 0} {P : A → Type ℓ} {m n : M S A} (b : Bool)
    → (b ≡ true → Yields P m)
    → (b ≡ false → Yields P n)
    → Yields P (if b then m else n)
Yields-if true hm hn = hm refl
Yields-if false hm hn = hn refl

pub Yields-map {ℓ κ} :
    {S A : Type 0} {P : A → Type ℓ} {Q : A → Type κ} {m : M S A}
    → ((a : A) → P a → Q a)
    → Yields P m
    → Yields Q m
Yields-map h y = record { at = λ s. let found = y.at s in (found.0, found.1, h found.0 found.2) }
