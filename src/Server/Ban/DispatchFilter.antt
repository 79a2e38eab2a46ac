-- ===== src/Server/Ban/DispatchFilter.antt =====
-- DispatchFilterService of internal/core/services/dispatch_filter.go. What the database answers may
-- differ from one client to the next.
pub mod Laws
use super_duper_bassoon.Common.{
  String, Bool, true, false, List, [], ◌∷◌, ◌++◌, Option, none, some, if◌then◌else◌,
}
use super_duper_bassoon.Common.Fault.{Fault, Result, ok, err}
use super_duper_bassoon.Common.Time.{Time}
use super_duper_bassoon.Server.Ban.Service.{BanState, is_banned}

abbrev pub place : Bool → String → List String × List String → List String × List String
place true id (allowed, filtered) = (allowed, filtered ++ id ∷ [])
place false id (allowed, filtered) = (allowed ++ id ∷ [], filtered)

module _ (db : String → Option Fault) (now : Time) (workflow_type : String) (s : BanState) where
  unfoldable pub filter_loop :
      List String → List String × List String → Result (List String × List String)
  filter_loop [] out = ok out
  filter_loop (id ∷ ids) out = elim (is_banned (db id) now id workflow_type s) [
    | err e ↦ err e
    | ok blocked ↦ filter_loop ids (place blocked id out)
  ]

  -- The allowed clients and the filtered ones.
  unfoldable pub filter_dispatch_list : List String → Result (List String × List String)
  filter_dispatch_list ids = filter_loop ids ([], [])

-- FilterDispatches, on anything that names a client.
unfoldable pub place_dispatch : {D : Type 0} → Bool → D → List D × List D → List D × List D
place_dispatch true d (allowed, filtered) = (allowed, filtered ++ d ∷ [])
place_dispatch false d (allowed, filtered) = (allowed ++ d ∷ [], filtered)

module _ {D : Type 0} (client_of : D → String) (db : String → Option Fault) (now : Time)
    (workflow_type : String) (s : BanState) where
  unfoldable pub dispatch_loop : List D → List D × List D → Result (List D × List D)
  dispatch_loop [] out = ok out
  dispatch_loop (d ∷ ds) out =
      elim (is_banned (db (client_of d)) now (client_of d) workflow_type s) [
        | err e ↦ err e
        | ok blocked ↦ dispatch_loop ds (place_dispatch blocked d out)
      ]

  unfoldable pub filter_dispatches : List D → Result (List D × List D)
  filter_dispatches ds = dispatch_loop ds ([], [])
