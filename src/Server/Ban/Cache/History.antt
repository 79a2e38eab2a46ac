-- ===== src/Server/Ban/Cache/History.antt =====
-- The cache and the table over a sequence of calls of BanClient and UnbanClient.
use super_duper_bassoon.Common.{
  String, Bool, true, false, List, [], ◌∷◌, Option, none, ◌≡◌, ◌≢◌, refl, ap, arith, ◌∙◌, eq_iff,
  eq_refl, if◌then◌else◌, ◌&&◌, ◌||◌, str_eq, Bool-cases, inl, inr,
}
use super_duper_bassoon.Common.Fault.{Fault, ok}
use super_duper_bassoon.Common.Time.{Time}
use super_duper_bassoon.Server.Ban.Record.{BanRecord, BanReason, apply_ban}
use super_duper_bassoon.Server.Ban.Table.{save_ban, stored_ban, unban, unban_rows, deactivate_rows}
use super_duper_bassoon.Server.Ban.Service.{BanState, ban_client, unban_client, is_banned}
use super_duper_bassoon.Server.Ban.Cache.{
  any_active, Synced, any-append, any-deactivate_rows, unbans_new, ban_client-Synced,
  unban_client-Synced, is_banned_lem,
}

-- The calls that change bans, each with what the database answers.
pub data Call : Type 0 where
  banning : Option Fault → Time → String → String → String → String → BanReason → Call
  unbanning : Option Fault → String → String → String → String → Call

unfoldable pub calls : List Call → BanState → BanState
calls [] s = s
calls (banning db now c w run evidence reason ∷ cs) s =
    calls cs (ban_client db now c w run evidence reason s).1
calls (unbanning db c w admin reason ∷ cs) s = calls cs (unban_client db c w admin reason s).1

-- From a state in which the cache and the table agree, and after any sequence of bans and unbans,
-- with any failures of the database among them, a check that the database answers refuses a client
-- a workflow type exactly when an active row of the table bans it from that type or from every
-- type.
pub calls-is_banned :
    (cs : List Call) (s : BanState) (now : Time) (client_id workflow_type : String)
    → Synced s
    → is_banned none now client_id workflow_type (calls cs s)
      ≡ ok (
          any_active client_id workflow_type (calls cs s).table.rows
          || any_active client_id "" (calls cs s).table.rows)
unfolding calls
calls-is_banned [] s now c w h = (is_banned_lem now c w s h).0
calls-is_banned (banning db t d v run evidence reason ∷ cs) s now c w h =
    calls-is_banned cs _ now c w (ban_client-Synced db t d v run evidence reason s h)
calls-is_banned (unbanning db d v admin reason ∷ cs) s now c w h =
    calls-is_banned cs _ now c w (unban_client-Synced db d v admin reason s h)

deactivate_rows-changed :
    (c w : String) (rows : List BanRecord) → (deactivate_rows c w rows).1 ≡ any_active c w rows
unfolding deactivate_rows any_active
deactivate_rows-changed c w [] = refl
deactivate_rows-changed c w (b ∷ rows) = ground (arith, deactivate_rows-changed c w rows)

banned_rows :
    (now : Time) (c w run evidence : String) (reason : BanReason) (s : BanState) (d v : String)
    → any_active d v (ban_client none now c w run evidence reason s).1.table.rows
      ≡ (if str_eq w v && str_eq c d then true else any_active d v s.table.rows)
unfolding ban_client save_ban
banned_rows now c w run evidence reason s d v =
    any-append d v s.table.rows
      (stored_ban now s.table.next_id (apply_ban now c w run evidence reason))
    ∙ ap (λ (t : Bool). if t then true else any_active d v s.table.rows)
        (unbans_new now s.table.next_id c w d v run evidence reason)

unbanned_rows :
    (c w admin note : String) (s : BanState) (d v : String)
    → any_active d v (unban_client none c w admin note s).1.table.rows
      ≡ (if str_eq w v && str_eq c d then false else any_active d v s.table.rows)
unfolding unban_client unban unban_rows
unbanned_rows c w admin note s d v = elim (Bool-cases (deactivate_rows c w s.table.rows).1) [
  | inl e ↦
      rw (e, unban_client, unban_rows) (ground (arith, any-deactivate_rows c w d v s.table.rows))
  | inr e ↦
      rw (e, unban_client, unban_rows)
        (ground (arith, e, deactivate_rows-changed c w s.table.rows, eq_iff w v, eq_iff c d))
]

pub banned_at_once :
    (now later : Time) (c w run evidence : String) (reason : BanReason) (s : BanState)
    → Synced s
    → is_banned none later c w (ban_client none now c w run evidence reason s).1 ≡ ok true
banned_at_once now later c w run evidence reason s h =
    (is_banned_lem later c w _ (ban_client-Synced none now c w run evidence reason s h)).0
    ∙ ap ok (ground (arith, banned_rows now c w run evidence reason s c w, eq_refl c, eq_refl w))

-- From a state in which the cache and the table agree, and with a database that answers, a client
-- banned from one workflow type is refused it by every later check, and once it is unbanned it is
-- refused exactly if a ban from every type was active before.
pub ban_then_unban :
    (now later : Time) (client_id workflow_type run_id evidence admin_id note : String)
    (reason : BanReason) (s : BanState)
    → Synced s
    → workflow_type ≢ ""
    → let s1 = (ban_client none now client_id workflow_type run_id evidence reason s).1 in
      let s2 = (unban_client none client_id workflow_type admin_id note s1).1 in
      (is_banned none later client_id workflow_type s1 ≡ ok true)
      × (is_banned none later client_id workflow_type s2
          ≡ ok (any_active client_id "" s.table.rows))
ban_then_unban now later c w run evidence admin note reason s h one =
    let s1 = (ban_client none now c w run evidence reason s).1 in
    let s2 = (unban_client none c w admin note s1).1 in
    let h1 = ban_client-Synced none now c w run evidence reason s h in
    let h2 = unban_client-Synced none c w admin note s1 h1 in
    (
      banned_at_once now later c w run evidence reason s h,
      (is_banned_lem later c w s2 h2).0
          ∙ ap ok (
              ground (
                arith,
                one,
                banned_rows now c w run evidence reason s c w,
                banned_rows now c w run evidence reason s c "",
                unbanned_rows c w admin note s1 c w,
                unbanned_rows c w admin note s1 c "",
                eq_refl c,
                eq_refl w,
                eq_iff w "",
              )),
    )
