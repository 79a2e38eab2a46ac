-- ===== src/Server/Rows/Order.antt =====
-- ORDER BY t DESC, as an insertion sort. Where two rows have one time the database may take either
-- first; here the one inserted first comes first.
use super_duper_bassoon.Common.{
  ◌≤◌, List, [], ◌∷◌, if◌then◌else◌, leb, arith, inl, inr, All, All-map, Bool-cases, leb→le,
}
use super_duper_bassoon.Common.Time.{Time}

module _ {A : Type 0} (time : A → Time) where
  unfoldable pub place_newer : A → List A → List A
  place_newer a [] = a ∷ []
  place_newer a (b ∷ rows) = if leb (time b) (time a) then a ∷ b ∷ rows else b ∷ place_newer a rows

  unfoldable pub newest_first : List A → List A
  unfolding place_newer
  newest_first [] = []
  newest_first (a ∷ rows) = place_newer a (newest_first rows)

  -- No row is older than one behind it.
  abbrev pub IsNewestFirst : List A → Type 0
  IsNewestFirst [] = Unit
  IsNewestFirst (a ∷ rows) = All (λ b. time b ≤ time a) rows × IsNewestFirst rows

  place-All :
      (P : A → Type 0) (a : A) (rows : List A) → P a → All P rows → All P (place_newer a rows)
  unfolding place_newer
  place-All P a [] p h = (p, tt)
  place-All P a (b ∷ rows) p h = elim (Bool-cases (leb (time b) (time a))) [
    | inl e ↦ rw (place_newer, e) (p, h)
    | inr e ↦ rw (place_newer, e) (h.0, place-All P a rows p h.1)
  ]

  place-IsNewestFirst :
      (a : A) (rows : List A) → IsNewestFirst rows → IsNewestFirst (place_newer a rows)
  unfolding place_newer
  place-IsNewestFirst a [] h = (tt, tt)
  place-IsNewestFirst a (b ∷ rows) h = elim (Bool-cases (leb (time b) (time a))) [
    | inl e ↦
        let le : time b ≤ time a = leb→le (time b) (time a) e in
        rw (place_newer, e) ((le, All-map rows (λ c g. omega (arith, le, g)) h.0), h)
    | inr e ↦
        let le : time a ≤ time b = ground arith in
        rw (place_newer, e)
          (place-All (λ c. time c ≤ time b) a rows le h.0, place-IsNewestFirst a rows h.1)
  ]

  pub newest_first-IsNewestFirst : (rows : List A) → IsNewestFirst (newest_first rows)
  unfolding newest_first
  newest_first-IsNewestFirst [] = tt
  newest_first-IsNewestFirst (a ∷ rows) =
      place-IsNewestFirst a (newest_first rows) (newest_first-IsNewestFirst rows)

  pub newest_first-All : (P : A → Type 0) (rows : List A) → All P rows → All P (newest_first rows)
  unfolding newest_first
  newest_first-All P [] h = tt
  newest_first-All P (a ∷ rows) h =
      place-All P a (newest_first rows) h.0 (newest_first-All P rows h.1)
