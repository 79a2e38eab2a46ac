-- ===== src/Server/Loop/Previous.antt =====
-- What GetPreviousRun finds.
use super_duper_bassoon.Common.{
  ℕ, ◌≤◌, String, Bool, true, false, List, [], ◌∷◌, Option, none, some, ◌≡◌, ◌≢◌, ◌⊎◌, inl, inr,
  ◌↔◌, ◌&&◌, str_eq, eq_refl, refl, sym, subst, arith, ◌∙◌, eq_iff, if◌then◌else◌, leb, Bool-cases,
  Option-cases, All, All-map, Among, here, there, leb→le,
}
use super_duper_bassoon.Common.Fault.{ok, err, run_not_found, ok-injective}
use super_duper_bassoon.Common.Time.{Time}
use super_duper_bassoon.Server.Workflow.{Run}
use super_duper_bassoon.Server.Runs.{RunTable, joined}
use super_duper_bassoon.Server.Loop.{get_previous_run, latest, newer, or_no_run, precedes}

leb-false : (a b : ℕ) → leb a b ≡ false → b ≤ a
leb-false a b h = ground arith

-- `o` is the latest of the runs with the property, where there is one.
abbrev Latest : (Run → Bool) → List Run → Option Run → Type 0
Latest p rows none = All (λ r. p r ≡ false) rows
Latest p rows (some best) =
    Among best rows
    × (p best ≡ true)
    × All (λ r. (p r ≡ false) ⊎ (r.triggered_at ≤ best.triggered_at)) rows

newer-none : (x : Run) → newer x none ≡ x
unfolding newer
newer-none x = refl

newer-cases :
    (x s : Run)
    → ((newer x (some s) ≡ x) × (s.triggered_at ≤ x.triggered_at))
      ⊎ ((newer x (some s) ≡ s) × (x.triggered_at ≤ s.triggered_at))
unfolding newer
newer-cases x s = elim (Bool-cases (leb s.triggered_at x.triggered_at)) [
  | inl le ↦ inl (rw le refl, omega (arith, leb→le, le))
  | inr gt ↦ inr (rw gt refl, leb-false s.triggered_at x.triggered_at gt)
]

Latest-cons :
    (p : Run → Bool) (x : Run) (rows : List Run) (o : Option Run) (b : Bool)
    → p x ≡ b
    → Latest p rows o
    → Latest p (x ∷ rows) (if b then some (newer x o) else o)
Latest-cons p x rows none true e h =
    rw (newer-none x) (here, e, (inr (omega arith), All-map rows (λ r q. inl q) h))
Latest-cons p x rows none false e h = (e, h)
Latest-cons p x rows (some s) false e h = (there h.0, h.1, (inl e, h.2))
Latest-cons p x rows (some s) true e (m, q, a) = elim (newer-cases x s) [
  | inl (same, le) ↦
      subst (λ m. Latest p (x ∷ rows) (some m)) (sym same)
        (
          here,
          e,
          (
            inr (omega arith),
            All-map rows (λ r d. elim d [ inl f ↦ inl f | inr g ↦ inr (omega (arith, le, g)) ]) a,
          ),
        )
  | inr (same, le) ↦ subst (λ m. Latest p (x ∷ rows) (some m)) (sym same) (there m, q, (inr le, a))
]

latest-Latest : (p : Run → Bool) (rows : List Run) → Latest p rows (latest p rows)
unfolding latest
latest-Latest p [] = tt
latest-Latest p (x ∷ rows) = Latest-cons p x rows (latest p rows) (p x) refl (latest-Latest p rows)

found_by_precedes :
    (client_id workflow_type run_id : String) (before : Time) (t : RunTable)
    → let p = precedes t.runs_clients client_id workflow_type run_id before in
      let answer = get_previous_run none client_id workflow_type run_id before t in
      ((answer ≡ err run_not_found) × All (λ r. p r ≡ false) t.rows)
      ⊎ ((best : Run) × (answer ≡ ok best)
          × Among best t.rows
          × (p best ≡ true)
          × All (λ r. (p r ≡ false) ⊎ (r.triggered_at ≤ best.triggered_at)) t.rows)
unfolding get_previous_run or_no_run
found_by_precedes c w run_id before t =
    let p = precedes t.runs_clients c w run_id before in
    elim (Option-cases (latest p t.rows)) [
      | inl e ↦ inl (rw e refl, subst (Latest p t.rows) e (latest-Latest p t.rows))
      | inr (best, e) ↦
          let found = subst (Latest p t.rows) e (latest-Latest p t.rows) in
          inr (best, rw e refl, found.0, found.1, found.2)
    ]

-- A run of the client and the workflow type, not the current one, that began no later than `before`.
abbrev pub IsEarlier : RunTable → String → String → String → Time → Run → Type 0
IsEarlier t client_id workflow_type run_id before r =
    Among (r.run_id, client_id) t.runs_clients
    × (r.workflow_type ≡ workflow_type)
    × (r.run_id ≢ run_id)
    × (r.triggered_at ≤ before)

found_pair :
    (id c : String) (pairs : List (String × String))
    → Among (id, c) pairs
    → joined id c pairs ≡ true
unfolding joined
found_pair id c _ here = rw (eq_refl id, eq_refl c) refl
found_pair id c ((i, d) ∷ pairs) (there m) = ground (arith, found_pair id c pairs m)

pair_found :
    (id c : String) (pairs : List (String × String))
    → joined id c pairs ≡ true
    → Among (id, c) pairs
unfolding joined
pair_found id c [] h = cc h
pair_found id c ((i, d) ∷ pairs) h = elim (Bool-cases (str_eq i id && str_eq d c)) [
  | inl e ↦
      let same : (i ≡ id) × (d ≡ c) = ground (arith, e, eq_iff i id, eq_iff d c) in
      rw (same.0, same.1) here
  | inr e ↦ there (pair_found id c pairs (rw e at h))
]

precedes_iff :
    (t : RunTable) (c w run_id : String) (before : Time) (r : Run)
    → (precedes t.runs_clients c w run_id before r ≡ true) ↔ IsEarlier t c w run_id before r
unfolding precedes
precedes_iff t c w run_id before r = (
  λ h. (
    pair_found r.run_id c t.runs_clients (ground (arith, h)),
    ground (arith, h, eq_iff r.workflow_type w),
    ground (arith, h, eq_iff r.run_id run_id),
    ground (arith, h),
  ),
  λ h. ground (
    arith,
    found_pair r.run_id c t.runs_clients h.0,
    eq_iff r.workflow_type w,
    eq_iff r.run_id run_id,
    h,
  ),
)

-- The previous run of a client is one of the table: `runs_clients` has it with the client, it has the
-- workflow type, is not the current one and began no later, and no such run began after it.
-- Where the table has no such run, the answer is an error.
pub get_previous_run_lem :
    (client_id workflow_type run_id : String) (before : Time) (t : RunTable)
    → let answer = get_previous_run none client_id workflow_type run_id before t in
      ((answer ≡ err run_not_found)
        × All (λ r. IsEarlier t client_id workflow_type run_id before r → ⊥) t.rows)
      ⊎ ((best : Run) × (answer ≡ ok best)
          × Among best t.rows
          × IsEarlier t client_id workflow_type run_id before best
          × All
              (λ r.
                IsEarlier t client_id workflow_type run_id before r
                → r.triggered_at ≤ best.triggered_at)
              t.rows)
get_previous_run_lem c w run_id before t = elim (found_by_precedes c w run_id before t) [
  | inl (e, nobody) ↦
      inl (e, All-map t.rows (λ r q h. cc (q, (precedes_iff t c w run_id before r).1 h)) nobody)
  | inr (best, e, m, q, a) ↦ inr (
    best,
    e,
    m,
    (precedes_iff t c w run_id before best).0 q,
    All-map t.rows
        (λ r d h. elim d [ inl f ↦ cc (f, (precedes_iff t c w run_id before r).1 h) | inr le ↦ le ])
        a,
  )
]

pub previous-precedes :
    (c w run_id : String) (before : Time) (t : RunTable) (prev : Run)
    → get_previous_run none c w run_id before t ≡ ok prev
    → precedes t.runs_clients c w run_id before prev ≡ true
previous-precedes c w run_id before t prev h = elim (found_by_precedes c w run_id before t) [
  | inl (e, _) ↦ absurd (cc)
  | inr (best, e, _, q, _) ↦
      subst (λ r. precedes t.runs_clients c w run_id before r ≡ true) (ok-injective (sym e ∙ h)) q
]

pub precedes-order :
    (pairs : List (String × String)) (c w run_id : String) (before : Time) (r : Run)
    → precedes pairs c w run_id before r ≡ true
    → (r.run_id ≢ run_id) × (r.triggered_at ≤ before)
unfolding precedes
precedes-order pairs c w run_id before r h = ground (arith, eq_iff r.run_id run_id)
