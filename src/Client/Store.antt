-- ===== src/Client/Store.antt =====
-- internal/adapters/storage/memory_store.go. The lock makes each method one step.
use super_duper_bassoon.Common.{String, List, [], ◌∷◌, Option, none, some}
use super_duper_bassoon.Common.Fault.{Result, ok, err, inner_client_not_found, nil_state}
use super_duper_bassoon.Common.Dict.{Dict, lookup, insert}
use super_duper_bassoon.Client.State.{ClientState, clone}

abbrev pub MemoryStore : Type 0
MemoryStore = Dict ClientState

abbrev pub new_memory_store : MemoryStore
new_memory_store = []

unfoldable pub get_state : String → MemoryStore → Result ClientState
get_state id m = elim (lookup id m) [ none ↦ err inner_client_not_found | some s ↦ ok (clone s) ]

-- `none` stands for a nil pointer.
unfoldable pub update_state : String → Option ClientState → MemoryStore → Result MemoryStore
update_state id none m = err nil_state
update_state id (some s) m = ok (insert id (clone s) m)

unfoldable pub get_all_states : MemoryStore → MemoryStore
get_all_states [] = []
get_all_states ((id, s) ∷ m) = (id, clone s) ∷ get_all_states m

unfoldable pub list_client_ids : MemoryStore → List String
list_client_ids [] = []
list_client_ids ((id, s) ∷ m) = id ∷ list_client_ids m
