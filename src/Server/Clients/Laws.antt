-- ===== src/Server/Clients/Laws.antt =====
-- What a result does to the table of clients.
use super_duper_bassoon.Common.{
  String, true, List, [], Option, none, some, if◌then◌else◌, str_eq, ◌≡◌, ◌≢◌, refl, ◌∙◌, arith, ap,
  eq_iff, Bool-cases, inl, inr,
}
use super_duper_bassoon.Common.Time.{Time, is_zero}
use super_duper_bassoon.Server.Filter.Eval.{ClientMetadata}
use super_duper_bassoon.Server.Rows.{find_row, upsert_row}
use super_duper_bassoon.Server.Rows.Laws.{find-upsert, merged}
use super_duper_bassoon.Server.Workflow.{RunResult}
use super_duper_bassoon.Server.Workflow.Table.{Json}
use super_duper_bassoon.Server.Clients.{
  client_key, client_row, replaces_client, save_client, registered, register_client,
}

dated-twice :
    (now t : Time)
    → (if is_zero (if is_zero t then now else t) then now else (if is_zero t then now else t))
      ≡ (if is_zero t then now else t)
dated-twice now t = ground arith

module _ {F : Type 0} (json : Json F) where
  merged-replaces :
      (new : ClientMetadata F) (o : Option (ClientMetadata F)) → merged replaces_client new o ≡ new
  unfolding replaces_client
  merged-replaces new none = refl
  merged-replaces new (some old) = refl

  row_found :
      (now : Time) (c : ClientMetadata F) (t : List (ClientMetadata F)) (k : String)
      → find_row client_key k (upsert_row client_key replaces_client (client_row json now c) t)
        ≡ (if str_eq c.client_id k then some (client_row json now c) else find_row client_key k t)
  unfolding client_row replaces_client
  row_found now c t k =
      find-upsert client_key replaces_client (λ old new. refl) (client_row json now c) t k
      ∙ rw merged-replaces refl

  -- A result of a named client, where the database does not fail, leaves that client active, with the
  -- state of the result, seen when the result was received, and without labels, whatever labels and
  -- whatever activity it had; every other client is found as before.
  pub register_client_lem :
      (now : Time) (r : RunResult F) (t : List (ClientMetadata F)) (k : String)
      → r.client_id ≢ ""
      → find_row client_key k (register_client json none now (some r) t) ≡ (
          if str_eq r.client_id k
          then some (record {
            client_id = r.client_id;
            os = "ubuntu";
            client_labels = [];
            inner_state = json r.inner_state;
            active = true;
            last_seen_at = if is_zero r.received_at then now else r.received_at;
          })
          else find_row client_key k t)
  unfolding register_client save_client registered client_row
  register_client_lem now r t k named = elim (Bool-cases (str_eq r.client_id "")) [
    | inl e ↦ absurd (named ((eq_iff r.client_id "").0 e))
    | inr e ↦
        rw (register_client, e)
          (row_found now (registered now r) t k
            ∙ ap
                (λ seen.
                  if str_eq r.client_id k
                  then some (record {
                    client_id = r.client_id;
                    os = "ubuntu";
                    client_labels = [];
                    inner_state = json r.inner_state;
                    active = true;
                    last_seen_at = seen;
                  })
                  else find_row client_key k t)
                (dated-twice now r.received_at))
  ]
