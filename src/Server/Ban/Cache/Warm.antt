-- ===== src/Server/Ban/Cache/Warm.antt =====
-- WarmCache, which fills the cache from the table.
use super_duper_bassoon.Common.{
  String, Bool, true, false, List, [], ◌∷◌, none, some, ◌≡◌, refl, arith, ◌∙◌, eq_iff,
  if◌then◌else◌, ◌||◌,
}
use super_duper_bassoon.Common.Fault.{Fault, ok, err}
use super_duper_bassoon.Common.Dict.{lookup}
use super_duper_bassoon.Common.Time.{Time}
use super_duper_bassoon.Server.Ban.Record.{BanRecord, is_active}
use super_duper_bassoon.Server.Ban.Table.{unbans, list_all_bans}
use super_duper_bassoon.Server.Ban.Blocker.{Blocker, add, cached}
use super_duper_bassoon.Server.Ban.Service.{BanState, warm_loop, warm_cache}
use super_duper_bassoon.Server.Ban.Cache.{any_active, AllPermanent, Synced, cached-add_pair}

or-false : (a : Bool) → (a || false) ≡ a
or-false true = refl
or-false false = refl

warm_loop-permanent :
    (now : Time) (rows : List BanRecord) (b : Blocker) (w c : String)
    → AllPermanent rows
    → cached (warm_loop now rows b) w c ≡ (any_active c w rows || cached b w c)
unfolding warm_loop any_active unbans add is_active
warm_loop-permanent now [] b w c h = refl
warm_loop-permanent now (x ∷ rows) b w c h =
    warm_loop-permanent now rows (if is_active now x then add now (some x) b else b) w c h.1
    ∙ ground (
      arith,
      h.0,
      eq_iff x.client_id c,
      eq_iff x.workflow_type w,
      cached-add_pair x.workflow_type x.client_id b w c,
    )

-- Warming an empty cache from a table of permanent bans brings the two into agreement, and changes
-- nothing else; where the database fails, the error is returned.
pub warm_cache-Synced :
    (now : Time) (s : BanState)
    → s.blocker ≡ some []
    → AllPermanent s.table.rows
    → (t : BanState) × (warm_cache none now s ≡ ok t)
      × (t.table ≡ s.table)
      × (t.alerts ≡ s.alerts)
      × Synced t
      × ((e : Fault) → warm_cache (some e) now s ≡ err e)
unfolding warm_cache list_all_bans cached lookup
warm_cache-Synced now s empty h =
    let t = record s { blocker = some (warm_loop now s.table.rows []) } in
    (
      t,
      rw (empty, warm_cache) refl,
      refl,
      refl,
      record {
        cache = warm_loop now s.table.rows [];
        held = refl;
        same = λ w c.
            warm_loop-permanent now s.table.rows [] w c h ∙ or-false (any_active c w s.table.rows);
        permanent = h;
      },
      λ e. rw (empty, warm_cache) refl,
    )
