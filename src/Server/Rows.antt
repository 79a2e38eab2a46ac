-- ===== src/Server/Rows.antt =====
-- What the statements of internal/adapters/repository share: a table is the list of its rows in the
-- order of insertion, and a statement finds a row by its primary key.
pub mod Order
pub mod Laws
use super_duper_bassoon.Common.{
  String, Bool, true, false, List, [], ◌∷◌, Option, none, some, if◌then◌else◌, str_eq,
}

-- WHERE p
unfoldable pub select {ℓ} : {A : Type ℓ} → (A → Bool) → List A → List A
select p [] = []
select p (a ∷ rows) = let rest = select p rows in if p a then a ∷ rest else rest

module _ {A : Type 0} (key : A → String) where
  -- SELECT … WHERE key = ?
  unfoldable pub find_row : String → List A → Option A
  find_row id [] = none
  find_row id (a ∷ rows) = if str_eq (key a) id then some a else find_row id rows

  -- INSERT … ON CONFLICT(key) DO UPDATE, where `merge` takes the old row and the new one.
  unfoldable pub upsert_row : (A → A → A) → A → List A → List A
  upsert_row merge new [] = new ∷ []
  upsert_row merge new (a ∷ rows) =
      if str_eq (key a) (key new) then merge a new ∷ rows else a ∷ upsert_row merge new rows

  -- UPDATE … WHERE key = ?
  unfoldable pub change_row : String → (A → A) → List A → List A
  change_row id f [] = []
  change_row id f (a ∷ rows) = (if str_eq (key a) id then f a else a) ∷ change_row id f rows

  -- DELETE … WHERE key = ?
  unfoldable pub delete_row : String → List A → List A
  delete_row id [] = []
  delete_row id (a ∷ rows) =
      let rest = delete_row id rows in if str_eq (key a) id then rest else a ∷ rest
