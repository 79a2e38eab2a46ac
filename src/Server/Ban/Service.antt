-- ===== src/Server/Ban/Service.antt =====
-- BanEnforcementService of internal/core/services/ban_enforcement.go. Its state is the table, the
-- cache, which may be absent, and the alerts published; an alert that cannot be published is
-- only lost, and the log is not modelled.
use super_duper_bassoon.Common.{
  String, Bool, true, false, List, [], ◌∷◌, ◌++◌, Option, none, some, if◌then◌else◌, not,
}
use super_duper_bassoon.Common.Fault.{Fault, Result, ok, err}
use super_duper_bassoon.Common.Time.{Time}
use super_duper_bassoon.Common.Int.{ℤ}
use super_duper_bassoon.Server.Ban.Record.{
  BanRecord, BanReason, apply_ban, is_active, can_dispatch_to_client,
}
use super_duper_bassoon.Server.Ban.Table.{BanTable, save_ban, unban, get_active_bans, list_all_bans}
use super_duper_bassoon.Server.Ban.Blocker.{Blocker, should_block_dispatch, add, remove}

-- The kind of an alert and what it is about; NewAlert's identifier and time are left out.
pub data Alert : Type 0 where
  client_banned : String → String → String → BanReason → Alert
  client_unbanned : String → String → String → String → Alert
  -- the client, the workflow type, the current and the previous run, and the time between in ms
  loop_found : String → String → String → String → ℤ → Alert

pub record BanState : Type 0 where
  pub table : BanTable
  pub blocker : Option Blocker
  -- `none` without an AlertPublisher
  pub alerts : Option (List Alert)

abbrev pub with_blocker : (Blocker → Blocker) → Option Blocker → Option Blocker
with_blocker f none = none
with_blocker f (some b) = some (f b)

abbrev pub publish : Alert → Option (List Alert) → Option (List Alert)
publish a none = none
publish a (some sent) = some (sent ++ a ∷ [])

unfoldable pub ban_client :
    Option Fault
    → Time
    → String
    → String
    → String
    → String
    → BanReason
    → BanState
    → Result BanRecord × BanState
ban_client db now client_id workflow_type run_id evidence reason s =
    let ban = apply_ban now client_id workflow_type run_id evidence reason in
    elim (save_ban db now ban s.table) [
      | err e ↦ (err e, s)
      | ok (row, table) ↦ (
        ok row,
        record {
          table = table;
          blocker = with_blocker (add now (some row)) s.blocker;
          alerts = publish (client_banned client_id workflow_type run_id reason) s.alerts;
        },
      )
    ]

unfoldable pub unban_client :
    Option Fault → String → String → String → String → BanState → Result (Unit {0}) × BanState
unban_client db client_id workflow_type admin_id reason s =
    elim (unban db client_id workflow_type s.table) [
      | err e ↦ (err e, s)
      | ok table ↦ (
        ok tt,
        record {
          table = table;
          blocker = with_blocker (remove client_id workflow_type) s.blocker;
          alerts = publish (client_unbanned client_id workflow_type admin_id reason) s.alerts;
        },
      )
    ]

abbrev pub cache_blocks : Option Blocker → String → String → Bool
cache_blocks none client_id workflow_type = false
cache_blocks (some b) client_id workflow_type = should_block_dispatch b client_id workflow_type

unfoldable pub is_banned : Option Fault → Time → String → String → BanState → Result Bool
is_banned db now client_id workflow_type s =
    if cache_blocks s.blocker client_id workflow_type
    then ok true
    else elim (get_active_bans db now client_id s.table) [
      | err e ↦ err e
      | ok bans ↦ ok (not (can_dispatch_to_client now client_id workflow_type bans))
    ]

unfoldable pub warm_loop : Time → List BanRecord → Blocker → Blocker
warm_loop now [] b = b
warm_loop now (ban ∷ bans) b =
    warm_loop now bans (if is_active now ban then add now (some ban) b else b)

unfoldable pub warm_cache : Option Fault → Time → BanState → Result BanState
warm_cache db now s = elim s.blocker [
  | none ↦ ok s
  | some b ↦ elim (list_all_bans db s.table) [
    | err e ↦ err e
    | ok bans ↦ ok (record s { blocker = some (warm_loop now bans b) })
  ]
]
