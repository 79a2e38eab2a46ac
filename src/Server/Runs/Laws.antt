-- ===== src/Server/Runs/Laws.antt =====
-- What `runs_clients` has to do with the runs.
use super_duper_bassoon.Common.{
  String, Bool, true, false, List, [], ◌∷◌, ◌++◌, none, if◌then◌else◌, str_eq, ◌≡◌, refl, subst,
  ◌∙◌, arith, ap, eq_iff, ◌&&◌, ◌||◌, Bool-cases, inl, inr,
}
use super_duper_bassoon.Common.Fault.{Fault, Result, ok, err, Result-cases, ok-injective, external}
use super_duper_bassoon.Server.Workflow.{Run}
use super_duper_bassoon.Server.Runs.{
  RunTable, find_run, joined, insert_clients, insert_run, create_run, replace_run,
}

unfoldable pub member : String → List String → Bool
member c [] = false
member c (d ∷ ds) = str_eq d c || member c ds

abbrev clients_in : Result Run → List String
clients_in (err e) = []
clients_in (ok r) = r.participating_clients

-- The clients of a run, none for a run that is not there.
unfoldable pub participants : String → List Run → List String
participants run_id rows = clients_in (find_run run_id rows)

-- `runs_clients` has a pair exactly where the run has the client.
abbrev pub IsJoined : RunTable → Type 0
IsJoined t =
    (run_id client_id : String)
    → joined run_id client_id t.runs_clients ≡ member client_id (participants run_id t.rows)

joined-append :
    (id c : String) (xs ys : List (String × String))
    → joined id c (xs ++ ys) ≡ (joined id c xs || joined id c ys)
unfolding joined
joined-append id c [] ys = refl
joined-append id c ((r, d) ∷ xs) ys = ground (arith, joined-append id c xs ys)

-- Only the pairs of the run are added.
insert_clients-joined :
    (run_id : String) (cs : List String) (pairs pairs' : List (String × String)) (id c : String)
    → insert_clients run_id cs pairs ≡ ok pairs'
    → joined id c pairs' ≡ (joined id c pairs || (str_eq run_id id && member c cs))
unfolding insert_clients member joined
insert_clients-joined run_id [] pairs pairs' id c h = ground arith
insert_clients-joined run_id (d ∷ cs) pairs pairs' id c h =
    elim (Bool-cases (joined run_id d pairs)) [
      | inl e ↦ let no : err external ≡ ok pairs' = rw e at h in cc no
      | inr e ↦
          let rest : insert_clients run_id cs (pairs ++ (run_id, d) ∷ []) ≡ ok pairs' = rw e at h in
          ground (
            arith,
            insert_clients-joined run_id cs (pairs ++ (run_id, d) ∷ []) pairs' id c rest,
            joined-append id c pairs ((run_id, d) ∷ []),
          )
    ]

abbrev pub is_ok : Result Run → Bool
is_ok (err e) = false
is_ok (ok r) = true

abbrev pub has_run : String → List Run → Bool
has_run id rows = is_ok (find_run id rows)

find-append :
    (id : String) (rows : List Run) (run : Run) (e : Fault)
    → find_run run.run_id rows ≡ err e
    → find_run id (rows ++ run ∷ []) ≡ (if str_eq run.run_id id then ok run else find_run id rows)
unfolding find_run
find-append id [] run e h = refl
find-append id (r ∷ rows) run e h = ground (
  arith,
  eq_iff r.run_id run.run_id,
  eq_iff r.run_id id,
  eq_iff run.run_id id,
  find-append id rows run e,
)

participants-append :
    (id : String) (rows : List Run) (run : Run) (e : Fault)
    → find_run run.run_id rows ≡ err e
    → participants id (rows ++ run ∷ [])
      ≡ (if str_eq run.run_id id then run.participating_clients else participants id rows)
unfolding participants
participants-append id rows run e h = ground (arith, find-append id rows run e h)

-- A run that is not there has no pair.
no-pairs :
    (t : RunTable) (id c : String) (e : Fault)
    → IsJoined t
    → find_run id t.rows ≡ err e
    → joined id c t.runs_clients ≡ false
unfolding participants member
no-pairs t id c e h q = h id c ∙ ground (arith, q)

insert_pairs_lem :
    (run : Run) (t : RunTable) (pairs : List (String × String)) (e : Fault)
    → IsJoined t
    → find_run run.run_id t.rows ≡ err e
    → insert_clients run.run_id run.participating_clients t.runs_clients ≡ ok pairs
    → IsJoined (record { rows = t.rows ++ run ∷ []; runs_clients = pairs })
insert_pairs_lem run t pairs e h q i id c = ground (
  arith,
  insert_clients-joined run.run_id run.participating_clients t.runs_clients pairs id c i,
  participants-append id t.rows run e q,
  h id c,
  no-pairs t run.run_id c e h q,
  eq_iff run.run_id id,
)

insert_run-IsJoined :
    (run : Run) (t t' : RunTable) (e : Fault)
    → IsJoined t
    → find_run run.run_id t.rows ≡ err e
    → insert_run run t ≡ ok t'
    → IsJoined t' × (t'.rows ≡ t.rows ++ run ∷ [])
unfolding insert_run
insert_run-IsJoined run t t' e h q k =
    elim (Result-cases (insert_clients run.run_id run.participating_clients t.runs_clients)) [
      | inr (f, i) ↦ let no : err f ≡ ok t' = rw (insert_run, i) at k in cc no
      | inl (pairs, i) ↦
          let same : ok (record { rows = t.rows ++ run ∷ []; runs_clients = pairs }) ≡ ok t' =
            rw (insert_run, i) at k in
          subst (λ u. IsJoined u × (u.rows ≡ t.rows ++ run ∷ [])) (ok-injective same)
            (insert_pairs_lem run t pairs e h q i, refl)
    ]

-- Where `runs_clients` has a pair for just each client of each run, a run that CreateRun stores is
-- found under its key, every other run is found as before, and `runs_clients` again has a pair for
-- just each client of each run.
pub create_run-IsJoined :
    (run : Run) (t t' : RunTable)
    → ((run_id client_id : String)
        → joined run_id client_id t.runs_clients ≡ member client_id (participants run_id t.rows))
    → create_run none run t ≡ ok t'
    → ((run_id client_id : String)
        → joined run_id client_id t'.runs_clients ≡ member client_id (participants run_id t'.rows))
      × ((run_id : String)
          → find_run run_id t'.rows
            ≡ (if str_eq run.run_id run_id then ok run else find_run run_id t.rows))
unfolding create_run
create_run-IsJoined run t t' h k = elim (Result-cases (find_run run.run_id t.rows)) [
  | inl (old, q) ↦ let no : err external ≡ ok t' = rw (create_run, q) at k in cc no
  | inr (e, q) ↦
      let made = insert_run-IsJoined run t t' e h q (rw (create_run, q) at k) in
      (made.0, λ id. ap (find_run id) made.1 ∙ find-append id t.rows run e q)
]

pub find-replace :
    (run : Run) (rows : List Run) (id : String)
    → find_run id (replace_run run rows)
      ≡ (if str_eq run.run_id id && has_run id rows then ok run else find_run id rows)
unfolding find_run replace_run
find-replace run [] id = ground arith
find-replace run (r ∷ rows) id = ground (
  arith,
  eq_iff r.run_id run.run_id,
  eq_iff r.run_id id,
  eq_iff run.run_id id,
  find-replace run rows id,
)
