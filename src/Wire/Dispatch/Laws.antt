-- ===== src/Wire/Dispatch/Laws.antt =====
-- What arrives of a dispatch.
use super_duper_bassoon.Common.{String, none, some, ◌≡◌, refl}
use super_duper_bassoon.Client.Value.{get}
use super_duper_bassoon.Server.Dispatch.{Dispatch}
use super_duper_bassoon.Wire.{read_string}
use super_duper_bassoon.Wire.Dispatch.{get_payload, on_dispatch, read_activity, unmarshal_dispatch}

-- The message that a dispatch is sent as is malformed for the super-client, whatever the dispatch is:
-- GetPayload writes the activity as a string, and a DispatchMessage has a struct there. So no
-- dispatch of the server reaches the pool.
pub on_dispatch-get_payload :
    {F : Type 0} (client_id : String) (d : Dispatch F)
    → on_dispatch client_id (some (get_payload d)) ≡ none
unfolding on_dispatch unmarshal_dispatch read_activity get_payload read_string get
on_dispatch-get_payload client_id d = refl
