-- ===== src/Server/Results/Laws.antt =====
-- The order in which the handlers of a result stand.
use super_duper_bassoon.Common.{
  true, false, List, [], ◌∷◌, ◌++◌, if◌then◌else◌, ◌≡◌, refl, ◌∙◌, arith, Bool-cases, inl, inr, All,
  All-map,
}
use super_duper_bassoon.Common.Int.{ℤ, ltb_ℤ, eq_ℤ, ◌≤ℤ◌}
use super_duper_bassoon.Server.Results.{Handler, place_stable, sort_stable, register_handler}

not-lower : (a b : ℤ) → ltb_ℤ a b ≡ false → b ≤ℤ a
not-lower a b h = ground arith

lower : (a b : ℤ) → ltb_ℤ a b ≡ true → a ≤ℤ b
lower a b h = ground arith

≤ℤ_trans : (a b c : ℤ) → a ≤ℤ b → b ≤ℤ c → a ≤ℤ c
≤ℤ_trans a b c h g = omega arith

apart : (a b p : ℤ) → ltb_ℤ a b ≡ true → eq_ℤ a p ≡ true → eq_ℤ b p ≡ false
apart a b p h e = ground arith

module _ {F S : Type 0} where
  -- Each handler is before those of a higher priority number.
  abbrev pub IsSorted : List (Handler F S) → Type 0
  IsSorted [] = Unit
  IsSorted (h ∷ hs) = All (λ k. h.priority ≤ℤ k.priority) hs × IsSorted hs

  -- The handlers with the priority `p`, in their order.
  unfoldable pub at_priority : ℤ → List (Handler F S) → List (Handler F S)
  at_priority p [] = []
  at_priority p (h ∷ hs) =
      let rest = at_priority p hs in if eq_ℤ h.priority p then h ∷ rest else rest

  place-All :
      (P : Handler F S → Type 0) (h : Handler F S) (hs : List (Handler F S))
      → P h
      → All P hs
      → All P (place_stable h hs)
  unfolding place_stable
  place-All P h [] p a = (p, tt)
  place-All P h (k ∷ ks) p a = elim (Bool-cases (ltb_ℤ k.priority h.priority)) [
    | inl e ↦ rw (place_stable, e) (a.0, place-All P h ks p a.1)
    | inr e ↦ rw (place_stable, e) (p, a)
  ]

  place-IsSorted :
      (h : Handler F S) (hs : List (Handler F S)) → IsSorted hs → IsSorted (place_stable h hs)
  unfolding place_stable
  place-IsSorted h [] s = (tt, tt)
  place-IsSorted h (k ∷ ks) s = elim (Bool-cases (ltb_ℤ k.priority h.priority)) [
    | inl e ↦
        rw (place_stable, e)
          (
            place-All (λ j. k.priority ≤ℤ j.priority) h ks (lower k.priority h.priority e) s.0,
            place-IsSorted h ks s.1,
          )
    | inr e ↦
        let le = not-lower k.priority h.priority e in
        rw (place_stable, e)
          ((le, All-map ks (λ j g. ≤ℤ_trans h.priority k.priority j.priority le g) s.0), s)
  ]

  sort-IsSorted : (hs : List (Handler F S)) → IsSorted (sort_stable hs)
  unfolding sort_stable
  sort-IsSorted [] = tt
  sort-IsSorted (h ∷ hs) = place-IsSorted h (sort_stable hs) (sort-IsSorted hs)

  at-place :
      (p : ℤ) (h : Handler F S) (hs : List (Handler F S))
      → at_priority p (place_stable h hs) ≡ at_priority p (h ∷ hs)
  unfolding at_priority place_stable
  at-place p h [] = refl
  at-place p h (k ∷ ks) = elim (Bool-cases (ltb_ℤ k.priority h.priority)) [
    | inr e ↦ rw (place_stable, e) refl
    | inl e ↦ elim (Bool-cases (eq_ℤ k.priority p)) [
      | inl q ↦
          rw (place_stable, e)
            (ground (arith, at-place p h ks, q, apart k.priority h.priority p e q))
      | inr q ↦ rw (place_stable, e) (ground (arith, at-place p h ks, q))
    ]
  ]

  at-sort : (p : ℤ) (hs : List (Handler F S)) → at_priority p (sort_stable hs) ≡ at_priority p hs
  unfolding at_priority sort_stable
  at-sort p [] = refl
  at-sort p (h ∷ hs) = at-place p h (sort_stable hs) ∙ ground (arith, at-sort p hs)

  at-append :
      (p : ℤ) (hs ks : List (Handler F S))
      → at_priority p (hs ++ ks) ≡ at_priority p hs ++ at_priority p ks
  unfolding at_priority
  at-append p [] ks = refl
  at-append p (h ∷ hs) ks = ground (arith, at-append p hs ks)

  -- Registering a handler leaves the handlers sorted by priority, and at each priority leaves those
  -- that were there in their order, with the new one behind them at its own.
  pub register_handler_lem :
      (h : Handler F S) (hs : List (Handler F S))
      → IsSorted (register_handler h hs)
        × ((p : ℤ)
            → at_priority p (register_handler h hs)
              ≡ at_priority p hs ++ (if eq_ℤ h.priority p then h ∷ [] else []))
  unfolding register_handler at_priority
  register_handler_lem h hs =
      (sort-IsSorted (hs ++ h ∷ []), λ p. at-sort p (hs ++ h ∷ []) ∙ at-append p hs (h ∷ []))
