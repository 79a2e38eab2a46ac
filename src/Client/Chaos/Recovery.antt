-- ===== src/Client/Chaos/Recovery.antt =====
-- How a crippled client gets well, and how a silent one does not.
use super_duper_bassoon.Common.{String, true, false, ◌≡◌, ◌≢◌, refl, arith, ◌∙◌, ◌⊎◌, inl, inr}
use super_duper_bassoon.Common.Fault.{Result, ok}
use super_duper_bassoon.Common.Float.{Floats}
use super_duper_bassoon.Client.State.{
  ClientState, CrippleMode, clone_lem, mode_none, fail_package_ops, fail_config, silent,
  IsConsistent, Agree,
}
use super_duper_bassoon.Client.Value.{end}
use super_duper_bassoon.Client.Activity.{
  Activity, ActivityType, ActivityResult, reboot, fail, succeed, standard_execute, activity-IsValid,
  execute_activity, execute_reboot,
}
use super_duper_bassoon.Client.Activity.Laws.{execute_activity-IsConsistent}
use super_duper_bassoon.Client.Chaos.Draws.{ChaosSource, IsRandom, Yields, Yields-map}
use super_duper_bassoon.Client.Chaos.{is_crippled_for_activity, chaos_execute}
use super_duper_bassoon.Client.Chaos.Laws.{
  Drift, still, bumped, added, dropped, Outcome, faked, blocked, failed, crippled, executed,
  chaos_execute-Outcome,
}

Drift-flag :
    {s t : ClientState}
    → Drift s t
    → (t.is_crippled ≡ s.is_crippled) × (t.cripple_mode ≡ s.cripple_mode)
Drift-flag still = (refl, refl)
Drift-flag bumped = (refl, refl)
Drift-flag (added name) = (refl, refl)
Drift-flag (dropped first) = (refl, refl)

mode-Agree : (m : CrippleMode) → m ≢ mode_none → Agree true m
mode-Agree mode_none h = absurd (h refl)
mode-Agree fail_package_ops h = tt
mode-Agree fail_config h = tt
mode-Agree silent h = tt

Outcome-IsConsistent :
    {F : Type 0} {s : ClientState} {k : ActivityType} {r q : ClientState × ActivityResult F}
    → Outcome s k r q
    → IsConsistent s
    → IsConsistent r.0
    → IsConsistent q.0
Outcome-IsConsistent (faked _ _) h g = h
Outcome-IsConsistent (blocked _ _) h g = h
Outcome-IsConsistent (failed _) h g = h
Outcome-IsConsistent (crippled mode _ set) h g = mode-Agree mode set
Outcome-IsConsistent (executed _ d) h g = rw ((Drift-flag d).0, (Drift-flag d).1) g

reboot_free :
    (s : ClientState) → s.cripple_mode ≢ silent → is_crippled_for_activity s reboot ≡ false
unfolding is_crippled_for_activity
reboot_free s h = ground arith

Outcome-recovers :
    {F : Type 0} {s : ClientState} {r q : ClientState × ActivityResult F}
    → Outcome s reboot r q
    → s.cripple_mode ≢ silent
    → r.0.is_crippled ≡ false
    → (q.1.status ≡ fail) ⊎ (q.0.is_crippled ≡ false)
Outcome-recovers {s} (faked held _) loud g = absurd (cc (reboot_free s loud))
Outcome-recovers (blocked _ _) loud g = inl refl
Outcome-recovers (failed _) loud g = inl refl
Outcome-recovers (crippled mode _ set) loud g = inl refl
Outcome-recovers (executed _ d) loud g = inr ((Drift-flag d).0 ∙ g)

module _ {fl : Floats} {S : Type 0} (src : ChaosSource fl S) where
  -- A client in silent mode answers every activity, a reboot too, with success and an empty
  -- payload, keeps its state and draws nothing: it cannot recover.
  pub silent_execute :
      (inner : String
        → Activity fl.Float
        → ClientState
        → Result (ClientState × ActivityResult fl.Float))
      (id : String) (a : Activity fl.Float) (s : ClientState) (seed : S)
      → s.is_crippled ≡ true
      → s.cripple_mode ≡ silent
      → chaos_execute fl src inner id a s seed ≡ (ok (s, succeed end), seed)
  unfolding chaos_execute is_crippled_for_activity
  silent_execute inner id a s seed held quiet = rw (clone_lem s, held, quiet)

  module _ (random : IsRandom src) where
    -- With a source of chance whose Intn stays below its argument, the executor with chaos around
    -- the standard one always returns for a known activity, and a client whose cripple flag and
    -- mode agree is left with flag and mode in agreement.
    pub chaos_execute-IsConsistent :
        (id : String) (a : Activity fl.Float) (s : ClientState)
        → activity-IsValid a.kind ≡ true
        → IsConsistent s
        → Yields (λ q. IsConsistent q.0) (chaos_execute fl src (standard_execute fl) id a s)
    unfolding standard_execute
    chaos_execute-IsConsistent id a s known h =
        Yields-map (λ q o. Outcome-IsConsistent o h (execute_activity-IsConsistent fl a s h))
          (chaos_execute-Outcome src random (standard_execute fl) id a s (execute_activity fl a s)
            (rw known refl))

    -- With a source of chance whose Intn stays below its argument, a reboot of a client that is
    -- not in silent mode always returns, and either reports a failure or leaves the client no
    -- longer crippled, whatever drift follows.
    pub reboot_recovers :
        (id : String) (a : Activity fl.Float) (s : ClientState)
        → a.kind ≡ reboot
        → s.cripple_mode ≢ silent
        → Yields
            (λ q. (q.1.status ≡ fail) ⊎ (q.0.is_crippled ≡ false))
            (chaos_execute fl src (standard_execute fl) id a s)
    unfolding standard_execute execute_activity execute_reboot activity-IsValid
    reboot_recovers id a s kind loud =
        Yields-map (λ q o. Outcome-recovers (rw kind at o) loud refl)
          (chaos_execute-Outcome src random (standard_execute fl) id a s (execute_activity fl a s)
            (rw kind refl))
