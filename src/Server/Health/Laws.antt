-- ===== src/Server/Health/Laws.antt =====
-- What the health of a run counts, and what the health of a workflow type looks at.
use super_duper_bassoon.Common.{
  ℕ, ◌+◌, ◌-◌, ◌≤◌, String, true, List, [], ◌∷◌, ◌++◌, Option, none, some, ◌≡◌, ◌≢◌, ◌↔◌, refl, sym,
  subst, arith, ◌∙◌, eq_refl, length, str_eq, Bool-cases, inl, inr, Among, here, there,
}
use super_duper_bassoon.Common.Dict.{Dict, lookup, insert, lookup-insert}
use super_duper_bassoon.Common.Time.{Time}
use super_duper_bassoon.Client.Activity.{ResultStatus, success, fail, error, other_status}
use super_duper_bassoon.Server.Workflow.{RunResult}
use super_duper_bassoon.Server.Runs.Laws.{member}
use super_duper_bassoon.Server.Health.Counts.{
  HasCounted, count_statuses-HasCounted, first_statuses-values, firsts, is_error, is_fail,
  is_success, number, values,
}
use super_duper_bassoon.Server.Health.{
  RunHealth, completed_count, count_status, count_statuses, first_statuses, or_first_status,
  with_pending, calculate_run_health, is_complete,
}

or_first-kept :
    (o : Option ResultStatus) (s : ResultStatus) (id j : String) (seen : Dict ResultStatus)
    → lookup id seen ≡ o
    → lookup j seen ≢ none
    → lookup j (or_first_status o s id seen) ≢ none
or_first-kept (some t) s id j seen e h = h
or_first-kept none s id j seen e h = ground (arith, h, lookup-insert id j s seen)

or_first-there :
    (o : Option ResultStatus) (s : ResultStatus) (id : String) (seen : Dict ResultStatus)
    → lookup id seen ≡ o
    → lookup id (or_first_status o s id seen) ≢ none
or_first-there (some t) s id seen e q = cc
or_first-there none s id seen e q = ground (arith, q, lookup-insert id id s seen, eq_refl id)

or_first-known :
    (o : Option ResultStatus) (s : ResultStatus) (id : String) (seen : Dict ResultStatus)
    → o ≢ none
    → or_first_status o s id seen ≡ seen
or_first-known none s id seen h = absurd (h refl)
or_first-known (some t) s id seen h = refl

module _ {F : Type 0} where
  first_statuses-kept :
      (rs : List (Option (RunResult F))) (seen : Dict ResultStatus) (j : String)
      → lookup j seen ≢ none
      → lookup j (first_statuses rs seen) ≢ none
  unfolding first_statuses
  first_statuses-kept [] seen j h = h
  first_statuses-kept (none ∷ rs) seen j h = first_statuses-kept rs seen j h
  first_statuses-kept (some r ∷ rs) seen j h =
      first_statuses-kept rs _ j
        (or_first-kept (lookup r.client_id seen) r.status r.client_id j seen refl h)

  first_statuses-found :
      (rs : List (Option (RunResult F))) (seen : Dict ResultStatus) (r : RunResult F)
      → Among (some r) rs
      → lookup r.client_id (first_statuses rs seen) ≢ none
  unfolding first_statuses
  first_statuses-found [] seen r m = elim m [ ]
  first_statuses-found (some r ∷ rs) seen _ here =
      first_statuses-kept rs _ r.client_id
        (or_first-there (lookup r.client_id seen) r.status r.client_id seen refl)
  first_statuses-found (none ∷ rs) seen r (there m) = first_statuses-found rs seen r m
  first_statuses-found (some q ∷ rs) seen r (there m) = first_statuses-found rs _ r m

  first_statuses-append :
      (rs qs : List (Option (RunResult F))) (seen : Dict ResultStatus)
      → first_statuses (rs ++ qs) seen ≡ first_statuses qs (first_statuses rs seen)
  unfolding first_statuses
  first_statuses-append [] qs seen = refl
  first_statuses-append (none ∷ rs) qs seen = first_statuses-append rs qs seen
  first_statuses-append (some r ∷ rs) qs seen = first_statuses-append rs qs _

  -- A result that arrives after another one of the same client changes nothing in the health of the
  -- run, whatever its status: each client counts once, by its first result.
  pub calculate-repeated :
      (now : Time) (run_id workflow_id workflow_type : String) (total banned : ℕ)
      (results : List (Option (RunResult F))) (first again : RunResult F)
      → Among (some first) results
      → again.client_id ≡ first.client_id
      → calculate_run_health now run_id workflow_id workflow_type total
          (results ++ some again ∷ [])
          banned
        ≡ calculate_run_health now run_id workflow_id workflow_type total results banned
  unfolding calculate_run_health first_statuses
  calculate-repeated now run_id wf wt total banned results first again m e =
      let seen = first_statuses results [] in
      let known =
        subst (λ id. lookup id seen ≢ none) (sym e) (first_statuses-found results [] first m) in
      let same =
        first_statuses-append results (some again ∷ []) []
        ∙ or_first-known (lookup again.client_id seen) again.status again.client_id seen known in
      rw same refl

count_status-le :
    (s : ResultStatus) (h : RunHealth) → completed_count (count_status s h) ≤ completed_count h + 1
unfolding completed_count count_status
count_status-le success h = omega arith
count_status-le fail h = omega arith
count_status-le error h = omega arith
count_status-le (other_status t) h = omega arith

count_statuses-le :
    (seen : Dict ResultStatus) (h : RunHealth)
    → completed_count (count_statuses seen h) ≤ completed_count h + length seen
unfolding count_statuses
count_statuses-le [] h = omega arith
count_statuses-le ((id, s) ∷ seen) h =
    omega (arith, count_statuses-le seen (count_status s h), count_status-le s h)

length-insert :
    (id : String) (s : ResultStatus) (seen : Dict ResultStatus)
    → length (insert id s seen) ≤ length seen + 1
unfolding insert
length-insert id s [] = omega arith
length-insert id s ((j, t) ∷ seen) = elim (Bool-cases (str_eq j id)) [
  | inl e ↦ rw e (omega arith)
  | inr e ↦ rw e (omega (arith, length-insert id s seen))
]

or_first-le :
    (o : Option ResultStatus) (s : ResultStatus) (id : String) (seen : Dict ResultStatus)
    → length (or_first_status o s id seen) ≤ length seen + 1
or_first-le (some t) s id seen = omega arith
or_first-le none s id seen = length-insert id s seen

first_statuses-le :
    {F : Type 0} (rs : List (Option (RunResult F))) (seen : Dict ResultStatus)
    → length (first_statuses rs seen) ≤ length seen + length rs
unfolding first_statuses
first_statuses-le [] seen = omega arith
first_statuses-le (none ∷ rs) seen = omega (arith, first_statuses-le rs seen)
first_statuses-le (some r ∷ rs) seen = omega (
  arith,
  first_statuses-le rs (or_first_status (lookup r.client_id seen) r.status r.client_id seen),
  or_first-le (lookup r.client_id seen) r.status r.client_id seen,
)

count_status-sizes :
    (s : ResultStatus) (h : RunHealth)
    → ((count_status s h).total_clients ≡ h.total_clients)
      × ((count_status s h).banned_client_count ≡ h.banned_client_count)
unfolding count_status
count_status-sizes success h = (refl, refl)
count_status-sizes fail h = (refl, refl)
count_status-sizes error h = (refl, refl)
count_status-sizes (other_status t) h = (refl, refl)

count_statuses-sizes :
    (seen : Dict ResultStatus) (h : RunHealth)
    → ((count_statuses seen h).total_clients ≡ h.total_clients)
      × ((count_statuses seen h).banned_client_count ≡ h.banned_client_count)
unfolding count_statuses
count_statuses-sizes [] h = (refl, refl)
count_statuses-sizes ((id, s) ∷ seen) h =
    let (a, b) = count_statuses-sizes seen (count_status s h) in
    let (c, d) = count_status-sizes s h in (a ∙ c, b ∙ d)

complete_iff :
    (h : RunHealth)
    → (is_complete (with_pending h) ≡ true)
      ↔ (h.total_clients ≤ h.banned_client_count + completed_count h)
unfolding is_complete with_pending completed_count
complete_iff h = ground arith

-- What names a run's health is not counted.
abbrev pub SameNames : RunHealth → RunHealth → Type 0
SameNames g h =
    (g.run_id ≡ h.run_id)
    × (g.workflow_id ≡ h.workflow_id)
    × (g.workflow_type ≡ h.workflow_type)
    × (g.calculated_at ≡ h.calculated_at)

count_status-SameNames : (s : ResultStatus) (h : RunHealth) → SameNames (count_status s h) h
unfolding count_status
count_status-SameNames success h = (refl, refl, refl, refl)
count_status-SameNames fail h = (refl, refl, refl, refl)
count_status-SameNames error h = (refl, refl, refl, refl)
count_status-SameNames (other_status t) h = (refl, refl, refl, refl)

count_statuses-SameNames :
    (seen : Dict ResultStatus) (h : RunHealth) → SameNames (count_statuses seen h) h
unfolding count_statuses
count_statuses-SameNames [] h = (refl, refl, refl, refl)
count_statuses-SameNames ((id, s) ∷ seen) h =
    let a = count_statuses-SameNames seen (count_status s h) in
    let b = count_status-SameNames s h in (a.0 ∙ b.0, a.1 ∙ b.1, a.2 ∙ b.2, a.3 ∙ b.3)

abbrev uncounted : Time → String → String → String → ℕ → ℕ → RunHealth
uncounted now run_id workflow_id workflow_type total banned = record {
  run_id = run_id;
  workflow_id = workflow_id;
  workflow_type = workflow_type;
  total_clients = total;
  success_count = 0;
  fail_count = 0;
  error_count = 0;
  pending_count = 0;
  banned_client_count = banned;
  calculated_at = now;
}

pub calculate-SameNames :
    {F : Type 0} (now : Time) (run_id workflow_id workflow_type : String) (total banned : ℕ)
    (results : List (Option (RunResult F)))
    → let h = calculate_run_health now run_id workflow_id workflow_type total results banned in
      SameNames h (uncounted now run_id workflow_id workflow_type total banned)
      × (h.total_clients ≡ total)
      × (h.banned_client_count ≡ banned)
unfolding calculate_run_health with_pending
calculate-SameNames now run_id wf wt total banned results =
    let seen = first_statuses results [] in
    let start = uncounted now run_id wf wt total banned in
    let sizes = count_statuses-sizes seen start in
    (count_statuses-SameNames seen start, sizes.0, sizes.1)

first_values :
    {F : Type 0} (results : List (Option (RunResult F)))
    → values (first_statuses results []) ≡ firsts results []
unfolding member lookup
first_values results = first_statuses-values results [] [] (λ id. refl)

-- The counts of successes, failures and errors are the numbers of clients whose first result has
-- that status; pending is what these and the banned ones leave of the total, and no less than none;
-- no more clients are counted as completed than results came in; and a run is complete exactly
-- when its clients are no more than the banned ones and the completed ones together.
pub calculate-counts :
    {F : Type 0} (now : Time) (run_id workflow_id workflow_type : String) (total banned : ℕ)
    (results : List (Option (RunResult F)))
    → let h = calculate_run_health now run_id workflow_id workflow_type total results banned in
      (h.success_count ≡ number is_success (firsts results []))
      × (h.fail_count ≡ number is_fail (firsts results []))
      × (h.error_count ≡ number is_error (firsts results []))
      × (h.pending_count ≡ total - banned - (h.success_count + h.fail_count + h.error_count))
      × (completed_count h ≤ length results)
      × ((is_complete h ≡ true) ↔ (total ≤ banned + completed_count h))
unfolding calculate_run_health with_pending completed_count
calculate-counts now run_id wf wt total banned results =
    let start = uncounted now run_id wf wt total banned in
    let seen = first_statuses results [] in
    let (t, b) = count_statuses-sizes seen start in
    let c =
      subst (λ l. HasCounted l start (count_statuses seen start)) (first_values results)
        (count_statuses-HasCounted seen start) in
    (
      omega (arith, c.0),
      omega (arith, c.1),
      omega (arith, c.2),
      omega (arith, t, b),
      omega (arith, count_statuses-le seen start, first_statuses-le results []),
      (
        λ q. omega (arith, (complete_iff (count_statuses seen start)).0 q, t, b),
        λ le. (complete_iff (count_statuses seen start)).1 (omega (arith, le, t, b)),
      ),
    )
