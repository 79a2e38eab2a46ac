-- ===== src/Server/Rows/Laws.antt =====
-- The rows as a map from keys: what each statement changes of it.
use super_duper_bassoon.Common.{
  String, Bool, true, List, [], ◌∷◌, Option, none, some, if◌then◌else◌, str_eq, ◌≡◌, refl, arith,
  eq_iff, All, subst, Bool-cases, inl, inr,
}
use super_duper_bassoon.Server.Rows.{select, find_row, upsert_row, change_row, delete_row}

-- The row that an upsert leaves.
abbrev pub merged : {A : Type 0} → (A → A → A) → A → Option A → A
merged merge new none = new
merged merge new (some old) = merge old new

abbrev pub changed : {A : Type 0} → (A → A) → Option A → Option A
changed f none = none
changed f (some a) = some (f a)

pub select-All {ℓ κ} :
    {A : Type ℓ} (P : A → Type κ) (p : A → Bool) (rows : List A)
    → All P rows
    → All P (select p rows)
unfolding select
select-All P p [] h = tt
select-All P p (a ∷ rows) h = elim (Bool-cases (p a)) [
  | inl e ↦ rw (select, e) (h.0, select-All P p rows h.1)
  | inr e ↦ rw (select, e) (select-All P p rows h.1)
]

pub select_sound {ℓ} :
    {A : Type ℓ} (p : A → Bool) (rows : List A) → All (λ a. p a ≡ true) (select p rows)
unfolding select
select_sound p [] = tt
select_sound p (a ∷ rows) = elim (Bool-cases (p a)) [
  | inl e ↦ rw (select, e) (e, select_sound p rows)
  | inr e ↦ rw (select, e) (select_sound p rows)
]

module _ {A : Type 0} (key : A → String) where
  pub find-upsert :
      (merge : A → A → A)
      → ((old new : A) → key (merge old new) ≡ key new)
      → (new : A) (rows : List A) (k : String)
      → find_row key k (upsert_row key merge new rows) ≡ (
          if str_eq (key new) k
          then some (merged merge new (find_row key (key new) rows))
          else find_row key k rows)
  unfolding find_row upsert_row
  find-upsert merge keeps new [] k = refl
  find-upsert merge keeps new (a ∷ rows) k = ground (
    arith,
    keeps a new,
    eq_iff (key a) (key new),
    eq_iff (key a) k,
    eq_iff (key new) k,
    find-upsert merge keeps new rows k,
  )

  pub find-change :
      (id : String) (f : A → A)
      → ((a : A) → key (f a) ≡ key a)
      → (rows : List A) (k : String)
      → find_row key k (change_row key id f rows)
        ≡ (if str_eq id k then changed f (find_row key k rows) else find_row key k rows)
  unfolding find_row change_row
  find-change id f keeps [] k = ground arith
  find-change id f keeps (a ∷ rows) k = ground (
    arith,
    keeps a,
    eq_iff (key a) id,
    eq_iff (key a) k,
    eq_iff id k,
    find-change id f keeps rows k,
  )

  pub find-delete :
      (id : String) (rows : List A) (k : String)
      → find_row key k (delete_row key id rows)
        ≡ (if str_eq id k then none else find_row key k rows)
  unfolding find_row delete_row
  find-delete id [] k = ground arith
  find-delete id (a ∷ rows) k =
      ground (arith, eq_iff (key a) id, eq_iff (key a) k, eq_iff id k, find-delete id rows k)

  pub upsert-All :
      (P : A → Type 0) (merge : A → A → A) (new : A) (rows : List A)
      → P new
      → ((old : A) → P (merge old new))
      → All P rows
      → All P (upsert_row key merge new rows)
  unfolding upsert_row
  upsert-All P merge new [] p q h = (p, tt)
  upsert-All P merge new (a ∷ rows) p q h = elim (Bool-cases (str_eq (key a) (key new))) [
    | inl e ↦ rw (upsert_row, e) (q a, h.1)
    | inr e ↦ rw (upsert_row, e) (h.0, upsert-All P merge new rows p q h.1)
  ]

  pub change-All :
      (P : A → Type 0) (id : String) (f : A → A) (rows : List A)
      → ((a : A) → P a → P (f a))
      → All P rows
      → All P (change_row key id f rows)
  unfolding change_row
  change-All P id f [] q h = tt
  change-All P id f (a ∷ rows) q h = elim (Bool-cases (str_eq (key a) id)) [
    | inl e ↦ rw (change_row, e) (q a h.0, change-All P id f rows q h.1)
    | inr e ↦ rw (change_row, e) (h.0, change-All P id f rows q h.1)
  ]

  pub delete-All :
      (P : A → Type 0) (id : String) (rows : List A) → All P rows → All P (delete_row key id rows)
  unfolding delete_row
  delete-All P id [] h = tt
  delete-All P id (a ∷ rows) h = elim (Bool-cases (str_eq (key a) id)) [
    | inl e ↦ rw (delete_row, e) (delete-All P id rows h.1)
    | inr e ↦ rw (delete_row, e) (h.0, delete-All P id rows h.1)
  ]

  -- The row that is found has the key.
  pub find-key : (k : String) (rows : List A) (a : A) → find_row key k rows ≡ some a → key a ≡ k
  unfolding find_row
  find-key k [] a h = cc
  find-key k (b ∷ rows) a h = ground (arith, eq_iff (key b) k, find-key k rows a)

  pub find-All :
      (P : A → Type 0) (k : String) (rows : List A) (a : A)
      → All P rows
      → find_row key k rows ≡ some a
      → P a
  unfolding find_row
  find-All P k [] a h e = cc
  find-All P k (b ∷ rows) a h e = elim (Bool-cases (str_eq (key b) k)) [
    | inl q ↦ let same : some b ≡ some a = rw q at e in subst P (cc same) h.0
    | inr q ↦ find-All P k rows a h.1 (rw q at e)
  ]
