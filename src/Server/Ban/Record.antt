-- ===== src/Server/Ban/Record.antt =====
-- BanRecord and BanManager of internal/core/domain/ban.go; time.Now() is an argument.
use super_duper_bassoon.Common.{
  ℕ, String, Bool, true, false, List, [], ◌∷◌, Option, none, some, if◌then◌else◌, str_eq, ltb, not,
  ◌&&◌,
}
use super_duper_bassoon.Common.Time.{Time}

pub data BanReason : Type 0 where
  loop_detected manual admin_unban_failed : BanReason

pub record BanRecord : Type 0 where
  pub id : ℕ
  pub client_id : String
  pub workflow_type : String
  pub run_id_evidence : String
  pub result_evidence : String
  pub banned_at : Time
  pub banned_until : Option Time
  pub reason : BanReason
  pub banned_by : String
  pub active : Bool

unfoldable pub is_active : Time → BanRecord → Bool
is_active now b =
    if not b.active then false else elim b.banned_until [ none ↦ true | some until ↦ ltb now until ]

unfoldable pub is_permanent : BanRecord → Bool
is_permanent b = elim b.banned_until [ none ↦ true | some until ↦ false ]

unfoldable pub can_unban : BanRecord → Bool
can_unban b = b.active

-- Whether the loop of CanDispatchToClient goes past the record.
unfoldable pub passes : Time → String → String → BanRecord → Bool
passes now client_id workflow_type b =
    if not (str_eq b.client_id client_id)
    then true
    else if not (str_eq b.workflow_type "") && not (str_eq b.workflow_type workflow_type)
    then true
    else not (is_active now b)

unfoldable pub can_dispatch_to_client : Time → String → String → List BanRecord → Bool
can_dispatch_to_client now client_id workflow_type [] = true
can_dispatch_to_client now client_id workflow_type (b ∷ bans) =
    if passes now client_id workflow_type b
    then can_dispatch_to_client now client_id workflow_type bans
    else false

-- The identifier is the zero of a record that is not stored.
unfoldable pub apply_ban : Time → String → String → String → String → BanReason → BanRecord
apply_ban now client_id workflow_type run_id evidence reason = record {
  id = 0;
  client_id = client_id;
  workflow_type = workflow_type;
  run_id_evidence = run_id;
  result_evidence = evidence;
  banned_at = now;
  banned_until = none;
  reason = reason;
  banned_by = "system";
  active = true;
}
