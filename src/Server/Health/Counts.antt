-- ===== src/Server/Health/Counts.antt =====
-- The counts of a run's health, told by the results alone: the status of each client's first result.
use super_duper_bassoon.Common.{
  ℕ, ◌+◌, String, Bool, true, false, List, [], ◌∷◌, ◌++◌, Option, none, some, if◌then◌else◌, str_eq,
  ◌≡◌, refl, sym, ap, arith, ◌∙◌, append-nil, append_assoc, Bool-cases, Option-cases, inl, inr,
}
use super_duper_bassoon.Common.Dict.{Dict, lookup, insert, lookup-insert}
use super_duper_bassoon.Client.Activity.{ResultStatus, success, fail, error, other_status}
use super_duper_bassoon.Server.Workflow.{RunResult}
use super_duper_bassoon.Server.Requests.{is_some}
use super_duper_bassoon.Server.Runs.Laws.{member}
use super_duper_bassoon.Server.Health.{RunHealth, count_status, count_statuses, first_statuses}

-- The statuses of the results that are the first of their client, where the clients of `seen` have had
-- theirs.
unfoldable pub firsts : {F : Type 0} → List (Option (RunResult F)) → List String → List ResultStatus
firsts [] seen = []
firsts (none ∷ rs) seen = firsts rs seen
firsts (some r ∷ rs) seen =
    let skipped = firsts rs seen in
    let rest = r.status ∷ firsts rs (r.client_id ∷ seen) in
    if member r.client_id seen then skipped else rest

unfoldable pub number {ℓ} : {A : Type ℓ} → (A → Bool) → List A → ℕ
number p [] = 0
number p (a ∷ l) = (if p a then 1 else 0) + number p l

abbrev pub is_success : ResultStatus → Bool
is_success success = true
is_success _ = false

abbrev pub is_fail : ResultStatus → Bool
is_fail fail = true
is_fail _ = false

abbrev pub is_error : ResultStatus → Bool
is_error error = true
is_error _ = false

abbrev pub values : Dict ResultStatus → List ResultStatus
values [] = []
values ((id, s) ∷ seen) = s ∷ values seen

-- `h` has counted the statuses on top of `start`.
abbrev pub HasCounted : List ResultStatus → RunHealth → RunHealth → Type 0
HasCounted l start h =
    (h.success_count ≡ start.success_count + number is_success l)
    × (h.fail_count ≡ start.fail_count + number is_fail l)
    × (h.error_count ≡ start.error_count + number is_error l)

count_status-HasCounted :
    (s : ResultStatus) (l : List ResultStatus) (start h : RunHealth)
    → HasCounted l (count_status s start) h
    → HasCounted (s ∷ l) start h
unfolding count_status number
count_status-HasCounted success l start h c =
    (omega (arith, c.0), omega (arith, c.1), omega (arith, c.2))
count_status-HasCounted fail l start h c =
    (omega (arith, c.0), omega (arith, c.1), omega (arith, c.2))
count_status-HasCounted error l start h c =
    (omega (arith, c.0), omega (arith, c.1), omega (arith, c.2))
count_status-HasCounted (other_status t) l start h c =
    (omega (arith, c.0), omega (arith, c.1), omega (arith, c.2))

pub count_statuses-HasCounted :
    (seen : Dict ResultStatus) (start : RunHealth)
    → HasCounted (values seen) start (count_statuses seen start)
unfolding count_statuses number
count_statuses-HasCounted [] start = (omega arith, omega arith, omega arith)
count_statuses-HasCounted ((id, s) ∷ seen) start =
    count_status-HasCounted s (values seen) start (count_statuses seen (count_status s start))
      (count_statuses-HasCounted seen (count_status s start))

values-insert :
    (id : String) (s : ResultStatus) (seen : Dict ResultStatus)
    → lookup id seen ≡ none
    → values (insert id s seen) ≡ values seen ++ s ∷ []
unfolding lookup insert
values-insert id s [] h = refl
values-insert id s ((j, t) ∷ seen) h = elim (Bool-cases (str_eq j id)) [
  | inl e ↦ let no : some t ≡ none = rw e at h in absurd (cc no)
  | inr e ↦ rw e (ap (λ l. t ∷ l) (values-insert id s seen (rw e at h)))
]

-- `keys` are the clients of `seen`.
abbrev pub HasKeys : List String → Dict ResultStatus → Type 0
HasKeys keys seen = (id : String) → member id keys ≡ is_some (lookup id seen)

HasKeys-insert :
    (c : String) (s : ResultStatus) (keys : List String) (seen : Dict ResultStatus)
    → HasKeys keys seen
    → HasKeys (c ∷ keys) (insert c s seen)
unfolding member
HasKeys-insert c s keys seen h id = ground (arith, lookup-insert c id s seen, h id)

-- The map that the loop fills holds the first status of each client.
pub first_statuses-values :
    {F : Type 0} (rs : List (Option (RunResult F))) (keys : List String) (seen : Dict ResultStatus)
    → HasKeys keys seen
    → values (first_statuses rs seen) ≡ values seen ++ firsts rs keys
unfolding first_statuses firsts
first_statuses-values [] keys seen h = sym (append-nil (values seen))
first_statuses-values (none ∷ rs) keys seen h = first_statuses-values rs keys seen h
first_statuses-values (some r ∷ rs) keys seen h = elim (Option-cases (lookup r.client_id seen)) [
  | inr (t, q) ↦
      let known : member r.client_id keys ≡ true = h r.client_id ∙ rw q refl in
      rw (q, known) (first_statuses-values rs keys seen h)
  | inl q ↦
      let new : member r.client_id keys ≡ false = h r.client_id ∙ rw q refl in
      rw (q, new)
        (first_statuses-values rs (r.client_id ∷ keys) (insert r.client_id r.status seen)
            (HasKeys-insert r.client_id r.status keys seen h)
          ∙ ap (λ l. l ++ firsts rs (r.client_id ∷ keys))
              (values-insert r.client_id r.status seen q)
          ∙ append_assoc (values seen) (r.status ∷ []) (firsts rs (r.client_id ∷ keys)))
]
