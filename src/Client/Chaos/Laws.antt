-- ===== src/Client/Chaos/Laws.antt =====
-- What ChaosExecutor.Execute can make of an activity: a specification without the draws, and that
-- the code meets it for every source.
use super_duper_bassoon.Common.{
  ℕ, zero, suc, String, true, false, List, [], ◌∷◌, Option, ◌≡◌, ◌≢◌, refl, arith, ◌<◌, length, inl,
  inr, ◌⊎◌, ◌↔◌,
}
use super_duper_bassoon.Common.Fault.{Result, ok}
use super_duper_bassoon.Common.Float.{Floats}
use super_duper_bassoon.Common.Int.{incr}
use super_duper_bassoon.Common.Dict.{insert}
use super_duper_bassoon.Client.State.{ClientState, CrippleMode, clone_lem, mode_none, silent}
use super_duper_bassoon.Client.Value.{end}
use super_duper_bassoon.Client.Activity.{
  Activity, ActivityType, ActivityResult, fail, succeed, refuse,
}
use super_duper_bassoon.Client.Chaos.Draws.{
  ChaosSource, IsRandom, Yields, Yields-bind, Yields-pure, Yields-lift, Yields-draw, Yields-draw_in,
  Yields-if,
}
use super_duper_bassoon.Client.Chaos.{
  is_crippled_for_activity, is_silent, cripple_modes, drift_packages, at, drop_first,
  should_activity_fail, should_cripple_client, select_cripple_mode, should_drift_state,
  random_drift_package, drift_by, apply_drift, failed_state, drift_after, chaos_execute,
}

-- A spontaneous change touches the configuration version or one package, and nothing else.
pub data Drift (s : ClientState) : ClientState → Type 0 where
  still : Drift s s
  bumped : Drift s (record s { config_version = incr s.config_version })
  added : (name : String) → Drift s (record s { packages = insert name "drifted" s.packages })
  dropped : (first : Option String) → Drift s (record s { packages = drop_first first s.packages })

-- What the executor may return for an activity of the kind `k` on the state `s`, where the executor
-- that it wraps returns `r`.
pub data Outcome {F : Type 0} (s : ClientState) (k : ActivityType)
    (r : ClientState × ActivityResult F) : ClientState × ActivityResult F → Type 0 where
  faked :
      is_crippled_for_activity s k ≡ true → s.cripple_mode ≡ silent → Outcome s k r (s, succeed end)
  blocked :
      {m : String}
      → is_crippled_for_activity s k ≡ true
      → s.cripple_mode ≢ silent
      → Outcome s k r (s, refuse fail m)
  failed : {m : String} → is_crippled_for_activity s k ≡ false → Outcome s k r (s, refuse fail m)
  crippled :
      {m : String} (mode : CrippleMode)
      → is_crippled_for_activity s k ≡ false
      → mode ≢ mode_none
      → Outcome s k r (record s { is_crippled = true; cripple_mode = mode }, refuse fail m)
  executed :
      {t : ClientState}
      → is_crippled_for_activity s k ≡ false
      → Drift r.0 t
      → Outcome s k r (t, r.1)

at-below : {A : Type 0} (xs : List A) (i : ℕ) → i < length xs → (a : A) × (at xs i ≡ ok a)
unfolding at
at-below [] i h = absurd (omega arith)
at-below (x ∷ xs) zero h = (x, refl)
at-below (x ∷ xs) (suc i) h = at-below xs i (omega arith)

at-cripple_modes : (i : ℕ) (m : CrippleMode) → at cripple_modes i ≡ ok m → m ≢ mode_none
unfolding at
at-cripple_modes zero m h = ground arith
at-cripple_modes (suc zero) m h = ground arith
at-cripple_modes (suc (suc zero)) m h = ground arith
at-cripple_modes (suc (suc (suc i))) m h = ground arith

module _ {fl : Floats} {S : Type 0} (src : ChaosSource fl S) (random : IsRandom src) where
  open src use {float64, intn, range_first}

  select-Yields : Yields (λ m. m ≢ mode_none) (select_cripple_mode fl src)
  unfolding select_cripple_mode
  select-Yields =
      Yields-bind (Yields-draw_in (intn 3) (λ s. random.intn_below 3 s (omega arith))) λ i h.
        let found = at-below cripple_modes i h in
        Yields-lift (at cripple_modes i) found.0 found.1 (at-cripple_modes i found.0 found.1)

  package-Yields : Yields (λ _. Unit {0}) (random_drift_package fl src)
  unfolding random_drift_package
  package-Yields =
      Yields-bind (Yields-draw_in (intn 7) (λ s. random.intn_below 7 s (omega arith))) λ i h.
        let found = at-below drift_packages i h in
        Yields-lift (at drift_packages i) found.0 found.1 tt

  drift_by-Yields : (i : ℕ) (s : ClientState) → Yields (Drift s) (drift_by fl src i s)
  unfolding drift_by
  drift_by-Yields zero s = Yields-pure _ bumped
  drift_by-Yields (suc zero) s = Yields-bind package-Yields λ name _. Yields-pure _ (added name)
  drift_by-Yields (suc (suc zero)) s =
      Yields-bind (Yields-draw (range_first s.packages)) λ first _. Yields-pure _ (dropped first)
  drift_by-Yields (suc (suc (suc i))) s = Yields-pure _ still

  apply_drift-Yields : (s : ClientState) → Yields (Drift s) (apply_drift fl src s)
  unfolding apply_drift
  apply_drift-Yields s =
      rw (clone_lem s) (Yields-bind (Yields-draw (intn 3)) λ i _. drift_by-Yields i s)

  activity_coin : Yields (λ _. Unit {0}) (should_activity_fail fl src)
  unfolding should_activity_fail
  activity_coin = record { at = λ s. (fl.flt (float64 s).0 (fl.decimal 10 2), refl, tt) }

  cripple_coin : Yields (λ _. Unit {0}) (should_cripple_client fl src true)
  unfolding should_cripple_client
  cripple_coin = record { at = λ s. (fl.flt (float64 s).0 (fl.decimal 3 2), refl, tt) }

  drift_coin : Yields (λ _. Unit {0}) (should_drift_state fl src)
  unfolding should_drift_state
  drift_coin = record { at = λ s. (fl.flt (float64 s).0 (fl.decimal 75 3), refl, tt) }

  abbrev MayCripple : ClientState → ClientState → Type 0
  MayCripple s t =
      (t ≡ s)
      ⊎ ((mode : CrippleMode) × (mode ≢ mode_none)
          × (t ≡ record s { is_crippled = true; cripple_mode = mode }))

  failed_state-Yields : (s : ClientState) → Yields (MayCripple s) (failed_state fl src s)
  unfolding failed_state
  failed_state-Yields s = Yields-bind cripple_coin λ cripple _.
      Yields-if cripple
        (λ _. Yields-bind select-Yields λ mode h. Yields-pure _ (inr (mode, h, refl)))
        (λ _. Yields-pure _ (inl refl))

  drift_after-Yields : (s : ClientState) → Yields (Drift s) (drift_after fl src s)
  unfolding drift_after
  drift_after-Yields s =
      Yields-bind drift_coin
        λ drifts _. Yields-if drifts (λ _. apply_drift-Yields s) (λ _. Yields-pure _ still)

  failed-Outcome :
      (s t : ClientState) (k : ActivityType) (r : ClientState × ActivityResult fl.Float)
      (m : String)
      → is_crippled_for_activity s k ≡ false
      → MayCripple s t
      → Outcome s k r (t, refuse fail m)
  failed-Outcome s t k r m free (inl e) = rw e (failed free)
  failed-Outcome s t k r m free (inr (mode, set, e)) = rw e (crippled mode free set)

  silent_iff : (m : CrippleMode) → (is_silent m ≡ true) ↔ (m ≡ silent)
  silent_iff m = ground arith

  -- For every source of chance whose Intn stays below its argument, and whenever the wrapped
  -- executor returns, the executor with chaos returns too, without an index out of range, and its
  -- answer is one of the outcomes: a faked success or a failure for a crippled client, an injected
  -- failure that may set one of the three modes, or the activity's own answer followed by at most
  -- one drift.
  pub chaos_execute-Outcome :
      (inner : String
        → Activity fl.Float
        → ClientState
        → Result (ClientState × ActivityResult fl.Float))
      (id : String) (a : Activity fl.Float) (s : ClientState)
      (r : ClientState × ActivityResult fl.Float)
      → inner id a s ≡ ok r
      → Yields (Outcome s a.kind r) (chaos_execute fl src inner id a s)
  unfolding chaos_execute
  chaos_execute-Outcome inner id a s r e = rw (clone_lem s) (
      Yields-if (is_crippled_for_activity s a.kind)
        (λ held.
          Yields-if (is_silent s.cripple_mode)
            (λ q. Yields-pure _ (faked held ((silent_iff s.cripple_mode).0 q)))
            (λ q. Yields-pure _ (blocked held (λ e. cc ((silent_iff s.cripple_mode).1 e)))))
        (λ free. Yields-bind activity_coin λ fails _.
          Yields-if fails
            (λ _.
              Yields-bind (failed_state-Yields s)
                λ t h. Yields-pure _ (failed-Outcome s t a.kind r _ free h))
            (λ _. Yields-bind (Yields-lift {P = λ q. q ≡ r} (inner id a s) r e refl) λ q h.
              Yields-bind (drift_after-Yields q.0)
                λ t d. rw h (Yields-pure _ (executed free (rw h at d))))))
