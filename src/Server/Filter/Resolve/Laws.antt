-- ===== src/Server/Filter/Resolve/Laws.antt =====
-- ResolveClients selects exactly the active clients that the filter accepts.
use super_duper_bassoon.Common.{
  ◌+◌, ◌≤◌, String, Bool, true, false, List, [], ◌∷◌, ◌++◌, Option, if◌then◌else◌, length, not, ◌≡◌,
  refl, sym, ◌∙◌, arith, append-nil, append_assoc, inl, inr, subst,
}
use super_duper_bassoon.Common.Fault.{Result, ok, err, Result-cases, ok-injective}
use super_duper_bassoon.Common.Float.{Floats}
use super_duper_bassoon.Server.Filter.Ast.{FilterNode}
use super_duper_bassoon.Server.Filter.Eval.{Texts, ClientMetadata, evaluate_filter}
use super_duper_bassoon.Server.Filter.Resolve.{
  FilterResult, add_match, resolve_one, resolve_loop, resolve_clients,
}

module _ (fl : Floats) (tx : Texts fl.Float) (filter : Option (FilterNode fl.Float)) where
  abbrev Client : Type 0
  Client = ClientMetadata fl.Float

  -- `ids` are the clients that are active and that the filter accepts, in the order of the list;
  -- each other client is inactive, or active and refused by the filter.
  pub data Selects : List Client → List String → Type 0 where
    selected_none : Selects [] []
    accepted :
        {c : Client} {cs : List Client} {ids : List String}
        → c.active ≡ true
        → evaluate_filter fl tx filter c ≡ ok true
        → Selects cs ids
        → Selects (c ∷ cs) (c.client_id ∷ ids)
    refused :
        {c : Client} {cs : List Client} {ids : List String}
        → c.active ≡ true
        → evaluate_filter fl tx filter c ≡ ok false
        → Selects cs ids
        → Selects (c ∷ cs) ids
    inactive :
        {c : Client} {cs : List Client} {ids : List String}
        → c.active ≡ false
        → Selects cs ids
        → Selects (c ∷ cs) ids

  Selects-le : {cs : List Client} {ids : List String} → Selects cs ids → length ids ≤ length cs
  Selects-le selected_none = omega arith
  Selects-le (accepted _ _ s) = omega (arith, Selects-le s)
  Selects-le (refused _ _ s) = omega (arith, Selects-le s)
  Selects-le (inactive _ s) = omega (arith, Selects-le s)

  -- One round: nothing is added, or the client is.
  data Round (c : Client) (r : FilterResult) : FilterResult → Type 0 where
    passed_over : c.active ≡ false → Round c r r
    left_out : c.active ≡ true → evaluate_filter fl tx filter c ≡ ok false → Round c r r
    added :
        c.active ≡ true
        → evaluate_filter fl tx filter c ≡ ok true
        → Round c r (record r {
          matching_client_ids = r.matching_client_ids ++ c.client_id ∷ [];
          match_count = r.match_count + 1;
        })

  add_match-Round :
      (c : Client) (r q : FilterResult) (answer : Result Bool)
      → c.active ≡ true
      → evaluate_filter fl tx filter c ≡ answer
      → add_match fl tx c.client_id answer r ≡ ok q
      → Round c r q
  unfolding add_match
  add_match-Round c r q (err e) act says h = cc
  add_match-Round c r q (ok false) act says h =
      subst (Round c r) (ok-injective h) (left_out act says)
  add_match-Round c r q (ok true) act says h = subst (Round c r) (ok-injective h) (added act says)

  active-Round :
      (c : Client) (r q : FilterResult) (b : Bool)
      → c.active ≡ b
      → (if not b then ok r else add_match fl tx c.client_id (evaluate_filter fl tx filter c) r)
        ≡ ok q
      → Round c r q
  active-Round c r q true act h = add_match-Round c r q (evaluate_filter fl tx filter c) act refl h
  active-Round c r q false off h = subst (Round c r) (ok-injective h) (passed_over off)

  resolve_one-Round :
      (c : Client) (r q : FilterResult) → resolve_one fl tx filter c r ≡ ok q → Round c r q
  unfolding resolve_one
  resolve_one-Round c r q h = active-Round c r q c.active refl h

  abbrev Extends : List Client → FilterResult → FilterResult → Type 0
  Extends cs r q =
      (ids : List String) × Selects cs ids
      × (q.matching_client_ids ≡ r.matching_client_ids ++ ids)
      × (q.match_count ≡ r.match_count + length ids)
      × (q.total_evaluated ≡ r.total_evaluated)

  extend :
      (c : Client) (cs : List Client) (r r' q : FilterResult)
      → Round c r r'
      → Extends cs r' q
      → Extends (c ∷ cs) r q
  extend c cs r _ q (passed_over off) (ids, s, e, n, t) = (ids, inactive off s, e, n, t)
  extend c cs r _ q (left_out act no_match) (ids, s, e, n, t) =
      (ids, refused act no_match s, e, n, t)
  extend c cs r _ q (added act match) (ids, s, e, n, t) = (
    c.client_id ∷ ids,
    accepted act match s,
    e ∙ append_assoc r.matching_client_ids (c.client_id ∷ []) ids,
    omega (arith, n),
    t,
  )

  loop-Extends :
      (cs : List Client) (r q : FilterResult)
      → resolve_loop fl tx filter cs r ≡ ok q
      → Extends cs r q
  unfolding resolve_loop
  loop-Extends [] r q h =
      let e = ok-injective h in
      subst (Extends [] r) e
        ([], selected_none, sym (append-nil r.matching_client_ids), omega arith, refl)
  loop-Extends (c ∷ cs) r q h = elim (Result-cases (resolve_one fl tx filter c r)) [
    | inl (r', e) ↦
        extend c cs r r' q (resolve_one-Round c r r' e)
          (loop-Extends cs r' q (rw (e, resolve_loop) at h))
    | inr (f, e) ↦ cc (let g : err f ≡ ok q = rw (e, resolve_loop) at h in g)
  ]

  -- Where the clients are resolved, the identifiers are those of the active clients that the filter
  -- accepts, in the order of the clients, none left out; the count of matches is their number,
  -- and the total counts the inactive clients too.
  pub resolve_clients-Selects :
      (clients : List Client) (q : FilterResult)
      → resolve_clients fl tx (ok filter) (ok clients) ≡ ok q
      → Selects clients q.matching_client_ids
        × (q.match_count ≡ length q.matching_client_ids)
        × (q.total_evaluated ≡ length clients)
        × (q.match_count ≤ q.total_evaluated)
  unfolding resolve_clients
  resolve_clients-Selects clients q h =
      let (ids, s, e, n, t) = loop-Extends clients _ q h in
      (
        subst (Selects clients) (sym e) s,
        n ∙ rw e (omega arith),
        t,
        rw (n, t) (omega (arith, Selects-le s)),
      )
