-- ===== src/Server/Clients.antt =====
-- The table `clients`, by the statements of internal/adapters/repository/client_repo.go, and
-- ClientRegistrationService of internal/core/services/client_registration.go. time.Now() is an
-- argument; an error of the database is only logged by the service. Also the handler of
-- client.register messages in cmd/main.go.
pub mod Laws
use super_duper_bassoon.Common.{
  String, Bool, true, false, List, [], ◌∷◌, Option, none, some, if◌then◌else◌, str_eq, ◌||◌,
}
use super_duper_bassoon.Common.Fault.{Fault, Result, ok, err, client_not_found}
use super_duper_bassoon.Common.Time.{Time, is_zero}
use super_duper_bassoon.Server.Filter.Eval.{ClientMetadata}
use super_duper_bassoon.Server.Rows.{select, find_row, upsert_row}
use super_duper_bassoon.Server.Workflow.{RunResult}
use super_duper_bassoon.Server.Workflow.Table.{Json}

-- id IN (…)
unfoldable pub listed_id : List String → String → Bool
listed_id [] id = false
listed_id (i ∷ ids) id = str_eq i id || listed_id ids id

module _ {F : Type 0} where
  abbrev pub client_key : ClientMetadata F → String
  client_key c = c.client_id

  -- The client as scanClient reads it, with the time that SaveClient sets where it is zero.
  unfoldable pub client_row : Json F → Time → ClientMetadata F → ClientMetadata F
  client_row json now c = record c {
    inner_state = json c.inner_state;
    last_seen_at = if is_zero c.last_seen_at then now else c.last_seen_at;
  }

  -- ON CONFLICT sets each column.
  unfoldable pub replaces_client : ClientMetadata F → ClientMetadata F → ClientMetadata F
  replaces_client old new = new

  unfoldable pub save_client :
      Json F
      → Option Fault
      → Time
      → ClientMetadata F
      → List (ClientMetadata F)
      → Result (List (ClientMetadata F))
  unfolding client_row replaces_client
  save_client json (some e) now c t = err e
  save_client json none now c t =
      ok (upsert_row client_key replaces_client (client_row json now c) t)

  unfoldable pub found_client : Option (ClientMetadata F) → Result (ClientMetadata F)
  found_client none = err client_not_found
  found_client (some c) = ok c

  unfoldable pub get_client_by_id :
      Option Fault → String → List (ClientMetadata F) → Result (ClientMetadata F)
  unfolding found_client
  get_client_by_id (some e) id t = err e
  get_client_by_id none id t = found_client (find_row client_key id t)

  unfoldable pub list_clients :
      Option Fault → List (ClientMetadata F) → Result (List (ClientMetadata F))
  list_clients (some e) t = err e
  list_clients none t = ok t

  -- Without identifiers no statement is made.
  unfoldable pub get_clients_by_ids :
      Option Fault → List String → List (ClientMetadata F) → Result (List (ClientMetadata F))
  get_clients_by_ids db [] t = ok []
  get_clients_by_ids (some e) (i ∷ ids) t = err e
  get_clients_by_ids none (i ∷ ids) t = ok (select (λ c. listed_id (i ∷ ids) c.client_id) t)

  -- The client that a result shows.
  unfoldable pub registered : Time → RunResult F → ClientMetadata F
  registered now r = record {
    client_id = r.client_id;
    os = "ubuntu";
    client_labels = [];
    inner_state = r.inner_state;
    active = true;
    last_seen_at = if is_zero r.received_at then now else r.received_at;
  }

  abbrev pub kept_clients :
      Result (List (ClientMetadata F)) → List (ClientMetadata F) → List (ClientMetadata F)
  kept_clients (err e) t = t
  kept_clients (ok t') t = t'

  -- HandleResult, which returns no error on any path. A nil result is `none`.
  unfoldable pub register_client :
      Json F
      → Option Fault
      → Time
      → Option (RunResult F)
      → List (ClientMetadata F)
      → List (ClientMetadata F)
  unfolding registered
  register_client json db now none t = t
  register_client json db now (some r) t =
      if str_eq r.client_id ""
      then t
      else kept_clients (save_client json db now (registered now r) t) t

  -- The handler of client.register; `none` for a message that is not JSON. Labels or a state that
  -- are missing are empty already.
  unfoldable pub on_client_register :
      Json F
      → Option Fault
      → Time
      → Option (ClientMetadata F)
      → List (ClientMetadata F)
      → List (ClientMetadata F)
  on_client_register json db now none t = t
  on_client_register json db now (some c) t =
      if str_eq c.client_id ""
      then t
      else kept_clients (save_client json db now (record c { active = true; last_seen_at = now }) t)
          t
