-- ===== src/Server/Filter/Resolve.antt =====
-- DynamicGroupingService.ResolveClients of internal/core/services/dynamic_grouping.go. The list of
-- clients, or the error, that the repository returns is an argument.
pub mod Laws
use super_duper_bassoon.Common.{
  ℕ, ◌+◌, String, Bool, true, false, List, [], ◌∷◌, ◌++◌, Option, none, some, if◌then◌else◌, length,
  not,
}
use super_duper_bassoon.Common.Fault.{Fault, Result, ok, err}
use super_duper_bassoon.Common.Float.{Floats}
use super_duper_bassoon.Server.Filter.Ast.{FilterNode}
use super_duper_bassoon.Server.Filter.Eval.{Texts, ClientMetadata, evaluate_filter}

pub record FilterResult : Type 0 where
  pub matching_client_ids : List String
  pub total_evaluated : ℕ
  pub match_count : ℕ

module _ (fl : Floats) (tx : Texts fl.Float) where
  -- The answer of Evaluate on an active client; another is passed over.
  unfoldable pub add_match : String → Result Bool → FilterResult → Result FilterResult
  add_match id (err e) r = err e
  add_match id (ok false) r = ok r
  add_match id (ok true) r = ok (record r {
    matching_client_ids = r.matching_client_ids ++ id ∷ [];
    match_count = r.match_count + 1;
  })

  unfoldable pub resolve_one :
      Option (FilterNode fl.Float) → ClientMetadata fl.Float → FilterResult → Result FilterResult
  unfolding add_match
  resolve_one filter c r =
      if not c.active then ok r else add_match c.client_id (evaluate_filter fl tx filter c) r

  unfoldable pub resolve_loop :
      Option (FilterNode fl.Float)
      → List (ClientMetadata fl.Float)
      → FilterResult
      → Result FilterResult
  resolve_loop filter [] r = ok r
  resolve_loop filter (c ∷ cs) r = elim (resolve_one filter c r) [
    | err e ↦ err e
    | ok r' ↦ resolve_loop filter cs r'
  ]

  unfoldable pub resolve_clients :
      Result (Option (FilterNode fl.Float))
      → Result (List (ClientMetadata fl.Float))
      → Result FilterResult
  resolve_clients (err e) clients = err e
  resolve_clients (ok filter) (err e) = err e
  resolve_clients (ok filter) (ok clients) =
      resolve_loop filter clients
        (record { matching_client_ids = []; total_evaluated = length clients; match_count = 0 })
