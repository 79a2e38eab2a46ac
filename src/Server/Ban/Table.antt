-- ===== src/Server/Ban/Table.antt =====
-- The table `bans`, by the statements of internal/adapters/repository/ban_repo.go. A call takes the
-- error that the database may answer with, and then changes nothing. Rows keep the order in
-- which they were inserted; the order of a result is not modelled.
use super_duper_bassoon.Common.{
  ℕ, ◌+◌, String, Bool, true, false, List, [], ◌∷◌, ◌++◌, Option, none, some, if◌then◌else◌, str_eq,
  ltb, ◌&&◌,
}
use super_duper_bassoon.Common.Fault.{Fault, Result, ok, err, ban_not_found}
use super_duper_bassoon.Common.Time.{Time, is_zero}
use super_duper_bassoon.Server.Ban.Record.{BanRecord}

pub record BanTable : Type 0 where
  pub rows : List BanRecord
  -- AUTOINCREMENT
  pub next_id : ℕ

-- The row that SaveBan inserts, and leaves in the caller's record.
unfoldable pub stored_ban : Time → ℕ → BanRecord → BanRecord
stored_ban now id b = record b {
  id = id;
  banned_at = if is_zero b.banned_at then now else b.banned_at;
}

unfoldable pub save_ban : Option Fault → Time → BanRecord → BanTable → Result (BanRecord × BanTable)
save_ban (some e) now b t = err e
save_ban none now b t =
    let row = stored_ban now t.next_id b in
    ok (row, record { rows = t.rows ++ row ∷ []; next_id = t.next_id + 1 })

unfoldable pub select_bans : (BanRecord → Bool) → List BanRecord → List BanRecord
select_bans p [] = []
select_bans p (b ∷ rows) = let rest = select_bans p rows in if p b then b ∷ rest else rest

-- active=1 AND (banned_until IS NULL OR banned_until > ?)
unfoldable pub in_force : Time → BanRecord → Bool
in_force now b = b.active && (elim b.banned_until [ none ↦ true | some until ↦ ltb now until ])

unfoldable pub get_bans : Option Fault → String → BanTable → Result (List BanRecord)
get_bans (some e) client_id t = err e
get_bans none client_id t = ok (select_bans (λ b. str_eq b.client_id client_id) t.rows)

unfoldable pub get_active_bans : Option Fault → Time → String → BanTable → Result (List BanRecord)
get_active_bans (some e) now client_id t = err e
get_active_bans none now client_id t =
    ok (select_bans (λ b. str_eq b.client_id client_id && in_force now b) t.rows)

unfoldable pub get_active_bans_by_workflow_type :
    Option Fault → Time → String → BanTable → Result (List BanRecord)
get_active_bans_by_workflow_type (some e) now workflow_type t = err e
get_active_bans_by_workflow_type none now workflow_type t =
    ok (select_bans (λ b. str_eq b.workflow_type workflow_type && in_force now b) t.rows)

-- WHERE client_id=? AND workflow_type=? AND active=1
unfoldable pub unbans : String → String → BanRecord → Bool
unbans client_id workflow_type b =
    str_eq b.client_id client_id && str_eq b.workflow_type workflow_type && b.active

-- The rows after UPDATE bans SET active=0, and whether any row was changed.
unfoldable pub deactivate_rows : String → String → List BanRecord → List BanRecord × Bool
deactivate_rows client_id workflow_type [] = ([], false)
deactivate_rows client_id workflow_type (b ∷ rows) =
    let rest = deactivate_rows client_id workflow_type rows in
    if unbans client_id workflow_type b
    then (record b { active = false } ∷ rest.0, true)
    else (b ∷ rest.0, rest.1)

unfoldable pub unban_rows : String → String → BanTable → Result BanTable
unban_rows client_id workflow_type t =
    let changed = deactivate_rows client_id workflow_type t.rows in
    if changed.1 then ok (record t { rows = changed.0 }) else err ban_not_found

unfoldable pub unban : Option Fault → String → String → BanTable → Result BanTable
unfolding unban_rows
unban (some e) client_id workflow_type t = err e
unban none client_id workflow_type t = unban_rows client_id workflow_type t

unfoldable pub list_all_bans : Option Fault → BanTable → Result (List BanRecord)
list_all_bans (some e) t = err e
list_all_bans none t = ok t.rows
