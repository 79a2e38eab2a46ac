-- ===== src/Server/Ban/Cache.antt =====
-- The cache of BanEnforcementService and the table of bans agree.
pub mod Warm
pub mod History
use super_duper_bassoon.Common.{
  ℕ, String, Bool, true, false, List, [], ◌∷◌, ◌++◌, Option, none, some, ◌≡◌, ◌≢◌, refl, ap, arith,
  ◌∙◌, eq_iff, eq_refl, if◌then◌else◌, not, ◌&&◌, ◌||◌, str_eq, Bool-cases, inl, inr, Option-cases,
}
use super_duper_bassoon.Common.Fault.{Fault, ok, err}
use super_duper_bassoon.Common.Dict.{lookup, lookup-insert, lookup-delete, delete, insert}
use super_duper_bassoon.Common.Time.{Time}
use super_duper_bassoon.Server.Ban.Record.{
  BanRecord, BanReason, apply_ban, is_active, can_dispatch_to_client, passes,
}
use super_duper_bassoon.Server.Ban.Table.{
  save_ban, stored_ban, unban, unban_rows, unbans, deactivate_rows, select_bans, in_force,
  get_active_bans, list_all_bans,
}
use super_duper_bassoon.Server.Ban.Blocker.{
  Blocker, add, remove, add_pair, set_of, is_some, cached, should_block_dispatch,
}
use super_duper_bassoon.Server.Ban.Service.{
  BanState, ban_client, unban_client, is_banned, warm_loop, warm_cache,
}

-- Whether a row bans the client from the workflow type.
unfoldable pub any_active : String → String → List BanRecord → Bool
any_active client_id workflow_type [] = false
any_active client_id workflow_type (b ∷ rows) =
    if unbans client_id workflow_type b then true else any_active client_id workflow_type rows

-- No row holds a ban that ends by itself.
abbrev pub AllPermanent : List BanRecord → Type 0
AllPermanent [] = Unit
AllPermanent (b ∷ rows) = (b.banned_until ≡ none) × AllPermanent rows

-- The cache holds just the pairs of client and workflow type that an active row bans.
pub record Synced (s : BanState) : Type 0 where
  pub cache : Blocker
  pub held : s.blocker ≡ some cache
  pub same :
      (workflow_type client_id : String)
      → cached cache workflow_type client_id ≡ any_active client_id workflow_type s.table.rows
  pub permanent : AllPermanent s.table.rows

pub any-append :
    (c w : String) (rows : List BanRecord) (b : BanRecord)
    → any_active c w (rows ++ b ∷ []) ≡ (if unbans c w b then true else any_active c w rows)
unfolding any_active
any-append c w [] b = refl
any-append c w (x ∷ rows) b = ground (arith, any-append c w rows b)

permanent-append :
    (rows : List BanRecord) (b : BanRecord)
    → AllPermanent rows
    → b.banned_until ≡ none
    → AllPermanent (rows ++ b ∷ [])
permanent-append [] b h e = (e, tt)
permanent-append (x ∷ rows) b h e = (h.0, permanent-append rows b h.1 e)

pub any-deactivate_rows :
    (c w d v : String) (rows : List BanRecord)
    → any_active d v (deactivate_rows c w rows).0
      ≡ (if str_eq c d && str_eq w v then false else any_active d v rows)
unfolding any_active deactivate_rows unbans
any-deactivate_rows c w d v [] = ground arith
any-deactivate_rows c w d v (b ∷ rows) = ground (
  arith,
  any-deactivate_rows c w d v rows,
  eq_iff c d,
  eq_iff w v,
  eq_iff b.client_id c,
  eq_iff b.client_id d,
  eq_iff b.workflow_type w,
  eq_iff b.workflow_type v,
)

permanent-deactivate_rows :
    (c w : String) (rows : List BanRecord)
    → AllPermanent rows
    → AllPermanent (deactivate_rows c w rows).0
unfolding deactivate_rows unbans
permanent-deactivate_rows c w [] h = tt
permanent-deactivate_rows c w (b ∷ rows) h = elim (Bool-cases (unbans c w b)) [
  | inl e ↦ rw e (h.0, permanent-deactivate_rows c w rows h.1)
  | inr e ↦ rw e (h.0, permanent-deactivate_rows c w rows h.1)
]

lookup-set_of :
    (w d : String) (b : Blocker) → is_some (lookup d (set_of (lookup w b))) ≡ cached b w d
unfolding cached lookup
lookup-set_of w d b = elim (Option-cases (lookup w b)) [
  | inl e ↦ ground (arith, e)
  | inr (m, e) ↦ ground (arith, e)
]

pub cached-add_pair :
    (w c : String) (b : Blocker) (v d : String)
    → cached (add_pair w c b) v d ≡ (if str_eq w v && str_eq c d then true else cached b v d)
unfolding cached add_pair
cached-add_pair w c b v d = ground (
  arith,
  lookup-insert w v (insert c tt (set_of (lookup w b))) b,
  lookup-insert c d tt (set_of (lookup w b)),
  eq_iff w v,
  lookup-set_of w d b,
)

cached-remove :
    (w c : String) (b : Blocker) (v d : String)
    → cached (remove c w b) v d ≡ (if str_eq w v && str_eq c d then false else cached b v d)
unfolding cached remove
cached-remove w c b v d = elim (Option-cases (lookup w b)) [
  | inl e ↦ ground (arith, eq_iff w v, e)
  | inr (m, e) ↦
      ground (arith, lookup-insert w v (delete c m) b, lookup-delete c d m, eq_iff w v, e)
]

pub unbans_new :
    (now : Time) (id : ℕ) (c w d v run evidence : String) (reason : BanReason)
    → unbans d v (stored_ban now id (apply_ban now c w run evidence reason))
      ≡ (str_eq w v && str_eq c d)
unfolding unbans stored_ban apply_ban
unbans_new now id c w d v run evidence reason = ground (arith, eq_iff c d, eq_iff w v)

-- Whatever the database answers, a ban keeps the cache and the table in agreement.
pub ban_client-Synced :
    (db : Option Fault) (now : Time) (client_id workflow_type run_id evidence : String)
    (reason : BanReason) (s : BanState)
    → Synced s
    → Synced (ban_client db now client_id workflow_type run_id evidence reason s).1
unfolding ban_client save_ban add stored_ban apply_ban is_active
ban_client-Synced (some e) now c w run evidence reason s h = h
ban_client-Synced none now c w run evidence reason s h = record {
  cache = add_pair w c h.cache;
  held = rw h.held refl;
  same = λ v d.
      cached-add_pair w c h.cache v d
      ∙ ground (
        arith,
        h.same v d,
        eq_iff c d,
        eq_iff w v,
        any-append d v s.table.rows
            (stored_ban now s.table.next_id (apply_ban now c w run evidence reason)),
        unbans_new now s.table.next_id c w d v run evidence reason,
      );
  permanent = permanent-append s.table.rows _ h.permanent refl;
}

-- Whatever the database answers, an unban keeps the cache and the table in agreement.
pub unban_client-Synced :
    (db : Option Fault) (client_id workflow_type admin_id reason : String) (s : BanState)
    → Synced s
    → Synced (unban_client db client_id workflow_type admin_id reason s).1
unfolding unban_client unban unban_rows
unban_client-Synced (some e) c w admin reason s h = h
unban_client-Synced none c w admin reason s h =
    elim (Bool-cases (deactivate_rows c w s.table.rows).1) [
      | inl e ↦
          rw (e, unban_client, unban_rows)
            (record {
              cache = remove c w h.cache;
              held = rw h.held refl;
              same = λ v d.
                  cached-remove w c h.cache v d
                  ∙ ground (arith, h.same v d, any-deactivate_rows c w d v s.table.rows);
              permanent = permanent-deactivate_rows c w s.table.rows h.permanent;
            })
      | inr e ↦ rw (e, unban_client, unban_rows) h
    ]

can_dispatch_lem :
    (now : Time) (c w : String) (rows : List BanRecord)
    → AllPermanent rows
    → can_dispatch_to_client now c w
        (select_bans (λ b. str_eq b.client_id c && in_force now b) rows)
      ≡ not (any_active c w rows || any_active c "" rows)
unfolding can_dispatch_to_client select_bans in_force any_active unbans passes is_active
can_dispatch_lem now c w [] h = refl
can_dispatch_lem now c w (b ∷ rows) h = ground (
  arith,
  can_dispatch_lem now c w rows h.1,
  h.0,
  eq_iff b.client_id c,
  eq_iff b.workflow_type w,
  eq_iff b.workflow_type "",
)

-- While the cache and the table agree, a client is refused a workflow type exactly when an active
-- row bans it from that type or from every type; a refusal needs no answer of the database.
pub is_banned_lem :
    (now : Time) (client_id workflow_type : String) (s : BanState)
    → Synced s
    → let banned =
        any_active client_id workflow_type s.table.rows || any_active client_id "" s.table.rows in
      (is_banned none now client_id workflow_type s ≡ ok banned)
      × ((e : Fault)
          → is_banned (some e) now client_id workflow_type s ≡ (if banned then ok true else err e))
unfolding is_banned get_active_bans should_block_dispatch
is_banned_lem now c w s h =
    rw (h.held, is_banned)
      (
        ground (arith, h.same w c, h.same "" c, can_dispatch_lem now c w s.table.rows h.permanent),
        λ e. ground (arith, h.same w c, h.same "" c),
      )
