-- ===== src/Server/Health/Listing.antt =====
-- The runs that AggregateWorkflowTypeHealth reads for a window.
use super_duper_bassoon.Common.{
  ℕ, suc, ◌≤◌, ◌<◌, String, true, List, [], ◌∷◌, ◌++◌, none, ◌≡◌, refl, sym, subst, ◌∙◌, arith, ap,
  str_eq, length, length-append, length-take, take-append-drop, take, drop, All, All-map, zero, ◌⊎◌,
  inl, inr, leb, Bool-cases, if◌then◌else◌,
}
use mathlib.Core.List.{reverse, reverse-append, reverse_perm, Perm}
use mathlib.Core.List.Perm
use super_duper_bassoon.Common.Fault.{ok, ok-injective}
use super_duper_bassoon.Common.Float.{Floats}
use super_duper_bassoon.Common.Int.{pos}
use super_duper_bassoon.Common.Time.{Time}
use super_duper_bassoon.Server.Rows.{select}
use super_duper_bassoon.Server.Rows.Order.{
  newest_first, place_newer, IsNewestFirst, newest_first-IsNewestFirst, newest_first-All,
}
use super_duper_bassoon.Server.Rows.Laws.{select_sound}
use super_duper_bassoon.Server.Runs.{limit_or}
use super_duper_bassoon.Server.Health.{RunHealth, aggregate_workflow_health, last_runs, summarize}
use super_duper_bassoon.Server.Health.Table.{list_run_healths, calculated}

All-append : {A : Type 0} (P : A → Type 0) (xs ys : List A) → All P xs → All P ys → All P (xs ++ ys)
All-append P [] ys h k = k
All-append P (x ∷ xs) ys h k = (h.0, All-append P xs ys h.1 k)

reverse-cons : {A : Type 0} (x : A) (xs : List A) → reverse (x ∷ xs) ≡ reverse xs ++ x ∷ []
reverse-cons x xs = reverse-append (x ∷ []) xs

All-reverse : {A : Type 0} (P : A → Type 0) (xs : List A) → All P xs → All P (reverse xs)
All-reverse P [] h = tt
All-reverse P (x ∷ xs) h =
    subst (All P) (sym (reverse-cons x xs))
      (All-append P (reverse xs) (x ∷ []) (All-reverse P xs h.1) (h.0, tt))

All-take : {A : Type 0} (P : A → Type 0) (n : ℕ) (xs : List A) → All P xs → All P (take n xs)
All-take P zero xs h = tt
All-take P (suc n) [] h = tt
All-take P (suc n) (x ∷ xs) h = (h.0, All-take P n xs h.1)

length-reverse : {A : Type 0} (xs : List A) → length (reverse xs) ≡ length xs
length-reverse [] = refl
length-reverse (x ∷ xs) =
    ap length (reverse-cons x xs)
    ∙ omega (arith, length-append (reverse xs) (x ∷ []), length-reverse xs)

module _ {A : Type 0} (time : A → Time) where
  -- No row is newer than one behind it.
  abbrev pub IsOldestFirst : List A → Type 0
  IsOldestFirst [] = Unit
  IsOldestFirst (a ∷ rows) = All (λ b. time a ≤ time b) rows × IsOldestFirst rows

  oldest-append :
      (rows : List A) (a : A)
      → IsOldestFirst rows
      → All (λ b. time b ≤ time a) rows
      → IsOldestFirst (rows ++ a ∷ [])
  oldest-append [] a h k = (tt, tt)
  oldest-append (b ∷ rows) a h k =
      (All-append (λ c. time b ≤ time c) rows (a ∷ []) h.0 (k.0, tt), oldest-append rows a h.1 k.1)

  oldest-reverse : (rows : List A) → IsNewestFirst time rows → IsOldestFirst (reverse rows)
  oldest-reverse [] h = tt
  oldest-reverse (a ∷ rows) h = subst IsOldestFirst (sym (reverse-cons a rows)) (
      oldest-append (reverse rows) a (oldest-reverse rows h.1)
        (All-reverse (λ b. time b ≤ time a) rows h.0))

  newest-take : (n : ℕ) (rows : List A) → IsNewestFirst time rows → IsNewestFirst time (take n rows)
  newest-take zero rows h = tt
  newest-take (suc n) [] h = tt
  newest-take (suc n) (a ∷ rows) h =
      (All-take (λ b. time b ≤ time a) n rows h.0, newest-take n rows h.1)

full_or_all : {A : Type 0} (n : ℕ) (l : List A) → (drop n l ≡ []) ⊎ (length (take n l) ≡ n)
full_or_all zero l = inr refl
full_or_all (suc n) [] = inl refl
full_or_all (suc n) (x ∷ l) = elim (full_or_all n l) [
  | inl e ↦ inl e
  | inr e ↦ inr (omega (arith, e))
]

All-drop : {A : Type 0} (P : A → Type 0) (n : ℕ) (l : List A) → All P l → All P (drop n l)
All-drop P zero l h = h
All-drop P (suc n) [] h = tt
All-drop P (suc n) (x ∷ l) h = All-drop P n l h.1

All-both : {A : Type 0} (P Q : A → Type 0) (l : List A) → All P l → All Q l → All (λ a. P a × Q a) l
All-both P Q [] p q = tt
All-both P Q (x ∷ l) p q = ((p.0, q.0), All-both P Q l p.1 q.1)

nothing_asked : {A : Type 0} (l : List A) → All (λ a. Unit {0}) l
nothing_asked [] = tt
nothing_asked (x ∷ l) = (tt, nothing_asked l)

-- What is left behind the first ones is no newer than any of them.
left_older :
    {A : Type 0} (time : A → Time) (n : ℕ) (rows : List A)
    → IsNewestFirst time rows
    → All (λ old. All (λ a. time old ≤ time a) (take n rows)) (drop n rows)
left_older time zero rows h = nothing_asked rows
left_older time (suc n) [] h = tt
left_older time (suc n) (a ∷ rows) h =
    All-both (λ old. time old ≤ time a) (λ old. All (λ b. time old ≤ time b) (take n rows))
      (drop n rows) (All-drop (λ old. time old ≤ time a) n rows h.0) (left_older time n rows h.1)

place-perm :
    {A : Type 0} (time : A → Time) (a : A) (rows : List A)
    → Perm (place_newer time a rows) (a ∷ rows)
unfolding place_newer
place-perm time a [] = Perm.refl (a ∷ [])
place-perm time a (b ∷ rows) = elim (Bool-cases (leb (time b) (time a))) [
  | inl e ↦ rw (place_newer, e) (Perm.refl (a ∷ b ∷ rows))
  | inr e ↦
      rw (place_newer, e) (Perm.trans (Perm.cons b (place-perm time a rows)) (Perm.swap a b rows))
]

newest_first-perm :
    {A : Type 0} (time : A → Time) (rows : List A) → Perm (newest_first time rows) rows
unfolding newest_first
newest_first-perm time [] = Perm.refl []
newest_first-perm time (a ∷ rows) =
    Perm.trans (place-perm time a (newest_first time rows))
      (Perm.cons a (newest_first-perm time rows))

-- The runs of a workflow type.
pub of_type : String → List RunHealth → List RunHealth
of_type workflow_type [] = []
of_type workflow_type (h ∷ t) =
    let rest = of_type workflow_type t in
    if str_eq h.workflow_type workflow_type then h ∷ rest else rest

selected :
    (wt : String) (t : List RunHealth) → select (λ h. str_eq h.workflow_type wt) t ≡ of_type wt t
unfolding select of_type
selected wt [] = refl
selected wt (h ∷ t) = rw (selected wt t) refl

considered :
    (fl : Floats) (now : Time) (wt : String) (runs : List RunHealth) (w : ℕ)
    → length runs ≤ w
    → (aggregate_workflow_health fl now wt runs (pos w)).runs_considered ≡ length runs
unfolding aggregate_workflow_health summarize last_runs
considered fl now wt [] w h = refl
considered fl now wt (r ∷ runs) w h = ground arith

-- For a positive window, the runs listed for the health of a workflow type are the newest ones of
-- that type: together with others, none newer than any of them, they are all the runs of the type,
-- each once, and there are others only where the window is full. They are no more than the
-- window and stand with the oldest first; the aggregation over the same window looks at all of
-- them.
pub list_run_healths_fits :
    (fl : Floats) (now : Time) (workflow_type : String) (t runs : List RunHealth) (window : ℕ)
    → 0 < window
    → list_run_healths none workflow_type (pos window) t ≡ ok runs
    → (others : List RunHealth) × Perm (runs ++ others) (of_type workflow_type t)
      × All (λ old. All (λ h. old.calculated_at ≤ h.calculated_at) runs) others
      × ((others ≡ []) ⊎ (length runs ≡ window))
      × All (λ h. str_eq h.workflow_type workflow_type ≡ true) runs
      × (length runs ≤ window)
      × IsOldestFirst calculated runs
      × ((aggregate_workflow_health fl now workflow_type runs (pos window)).runs_considered
          ≡ length runs)
unfolding list_run_healths limit_or
list_run_healths_fits fl now wt t runs window lo h =
    let mine = select (λ h. str_eq h.workflow_type wt) t in
    let sorted = newest_first calculated mine in
    let n = limit_or 100 (pos window) in
    let same : n ≡ window = ground arith in
    let first = take n sorted in
    let out : reverse first ≡ runs = ok-injective h in
    let size = length-reverse first in
    let sorts = newest_first-IsNewestFirst calculated mine in
    let le : length runs ≤ window =
      subst (λ l. length l ≤ window) out (omega (arith, size, length-take n sorted, same)) in
    let all : Perm (reverse first ++ drop n sorted) (of_type wt t) =
      Perm.trans (Perm.append_right (drop n sorted) (reverse_perm first)) (
        subst (λ l. Perm l (of_type wt t)) (sym (take-append-drop n sorted))
          (subst (Perm sorted) (selected wt t) (newest_first-perm calculated mine))) in
    (
      drop n sorted,
      subst (λ l. Perm (l ++ drop n sorted) (of_type wt t)) out all,
      subst (λ l. All (λ old. All (λ h. old.calculated_at ≤ h.calculated_at) l) (drop n sorted)) out
          (All-map (drop n sorted) (λ old a. All-reverse _ first a)
            (left_older calculated n sorted sorts)),
      elim (full_or_all n sorted) [
        | inl e ↦ inl e
        | inr e ↦ inr (subst (λ l. length l ≡ window) out (omega (arith, size, e, same)))
      ],
      subst (All (λ h. str_eq h.workflow_type wt ≡ true)) out (
          All-reverse _ first
            (All-take _ n sorted (newest_first-All calculated _ _ (select_sound _ t)))),
      le,
      subst (IsOldestFirst calculated) out
          (oldest-reverse calculated first (newest-take calculated n sorted sorts)),
      considered fl now wt runs window le,
    )
