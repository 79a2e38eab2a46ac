-- ===== src/Common/Fault.antt =====
-- The errors that the program returns, and the result of a call that may fail.
use mathlib.Core.Path.{◌≡◌, refl}
use mathlib.Core.Logic.{◌⊎◌, inl, inr}

pub data Fault : Type 0 where
  workflow_not_found workflow_inactive invalid_workflow client_not_found run_not_found : Fault
  invalid_filter unknown_field type_mismatch invalid_operator ban_not_found : Fault
  invalid_request invalid_policy circuit_state_not_found missing_required_field : Fault
  inner_client_not_found invalid_activity : Fault
  -- an APIError with the code VALIDATION_ERROR
  validation_error : Fault
  -- a message built on the spot
  missing_run_id missing_wf_id missing_client_id nil_state bad_pool_size bad_number : Fault
  -- what the database, the broker or the decoder returned
  external : Fault
  -- an index out of range, which stops a Go program
  panic : Fault

pub data Result {ℓ} (A : Type ℓ) : Type ℓ where
  ok : A → Result A
  err : Fault → Result A

-- The step after a call, which an error passes by.
abbrev pub ◌>>=◌ {ℓ κ} : {S : Type ℓ} {T : Type κ} → Result S → (S → Result T) → Result T
(ok value) >>= step = step value
(err fault) >>= step = err fault

infixl 5 ◌>>=◌
pub ok-injective {ℓ} : {A : Type ℓ} {a b : A} → ok a ≡ ok b → a ≡ b
ok-injective h = cc h

pub Result-cases {ℓ} :
    {A : Type ℓ} (r : Result A) → ((a : A) × (r ≡ ok a)) ⊎ ((e : Fault) × (r ≡ err e))
Result-cases (ok a) = inl (a, refl)
Result-cases (err e) = inr (e, refl)
