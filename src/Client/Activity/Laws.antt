-- ===== src/Client/Activity/Laws.antt =====
-- What the activities do to the state of a client, on every branch of ExecuteActivity.
use super_duper_bassoon.Common.{String, none, some, ◌≡◌, ◌≢◌, refl, ap, arith, eq_iff, eq_refl, ◌⊎◌}
use super_duper_bassoon.Common.Dict.{insert, lookup, lookup-insert, lookup-delete}
use super_duper_bassoon.Common.Float.{Floats}
use super_duper_bassoon.Common.Int.{eq_ℤ_iff}
use super_duper_bassoon.Client.Value.{get}
use super_duper_bassoon.Client.State.{ClientState, clone_lem, IsConsistent}
use super_duper_bassoon.Client.Activity.{
  Activity, ActivityType, ActivityResult, reboot, install_package, upgrade_package, remove_package,
  apply_config, validate_config, run_script, other, success, fail, extract_package_params,
  or_latest, execute_activity, execute_kind, execute_reboot, install_named, upgrade_named,
  remove_named, execute_install_package, execute_upgrade_package, execute_remove_package,
  execute_apply_config, execute_validate_config, execute_run_script, extract_config_version,
}

-- The package that an activity names.
abbrev pub package_of : {F : Type 0} → Activity F → String
package_of a = (extract_package_params a).0

keeps_mode :
    {R : Type 0} (state : R → ClientState) (s : ClientState) (r : R)
    → (state r).is_crippled ≡ s.is_crippled
    → (state r).cripple_mode ≡ s.cripple_mode
    → IsConsistent s
    → IsConsistent (state r)
keeps_mode state s r flag mode h = rw (flag, mode) h

module _ (fl : Floats) where
  open fl use {Float}

  kind-unchanged :
      (k : ActivityType) (a : Activity Float) (s : ClientState)
      → (execute_kind fl k a s).1.status ≢ success
      → (execute_kind fl k a s).0 ≡ s
  unfolding execute_kind execute_reboot execute_install_package execute_upgrade_package
      execute_remove_package execute_apply_config execute_validate_config execute_run_script
  kind-unchanged reboot a s h = absurd (h refl)
  kind-unchanged _ a s h = ground arith

  -- An activity that does not report success, whatever its kind and parameters, leaves the state
  -- of the client as it was.
  pub execute_activity-unchanged :
      (a : Activity Float) (s : ClientState)
      → (execute_activity fl a s).1.status ≢ success
      → (execute_activity fl a s).0 ≡ s
  unfolding execute_activity
  execute_activity-unchanged a s = rw (clone_lem s) (kind-unchanged a.kind a s)

  kind_frame :
      (k : ActivityType) (a : Activity Float) (s : ClientState) (p : String)
      → p ≢ package_of a
      → lookup p (execute_kind fl k a s).0.packages ≡ lookup p s.packages
  unfolding execute_kind execute_reboot execute_install_package execute_upgrade_package
      execute_remove_package execute_apply_config execute_validate_config execute_run_script
  kind_frame install_package a s p h = ground (
    arith,
    lookup-insert (package_of a) p (or_latest (extract_package_params a).1) s.packages,
    eq_iff (package_of a) p,
  )
  kind_frame upgrade_package a s p h = ground (
    arith,
    lookup-insert (package_of a) p (or_latest (extract_package_params a).1) s.packages,
    eq_iff (package_of a) p,
  )
  kind_frame remove_package a s p h =
      ground (arith, lookup-delete (package_of a) p s.packages, eq_iff (package_of a) p)
  kind_frame _ a s p h = ground arith

  -- No activity changes the version, or the presence, of a package that it does not name.
  pub execute_activity_frame :
      (a : Activity Float) (s : ClientState) (p : String)
      → p ≢ package_of a
      → lookup p (execute_activity fl a s).0.packages ≡ lookup p s.packages
  unfolding execute_activity
  execute_activity_frame a s p = rw (clone_lem s) (kind_frame a.kind a s p)

  kind-IsConsistent :
      (k : ActivityType) (a : Activity Float) (s : ClientState)
      → IsConsistent s
      → IsConsistent (execute_kind fl k a s).0
  unfolding execute_kind execute_reboot execute_install_package execute_upgrade_package
      execute_remove_package execute_apply_config execute_validate_config execute_run_script
  kind-IsConsistent reboot a s h = tt
  kind-IsConsistent install_package a s h =
      keeps_mode (λ r. r.0) s (execute_install_package a s) (ground arith) (ground arith) h
  kind-IsConsistent upgrade_package a s h =
      keeps_mode (λ r. r.0) s (execute_upgrade_package a s) (ground arith) (ground arith) h
  kind-IsConsistent remove_package a s h =
      keeps_mode (λ r. r.0) s (execute_remove_package a s) (ground arith) (ground arith) h
  kind-IsConsistent validate_config a s h =
      keeps_mode (λ r. r.0) s (execute_validate_config fl a s) (ground arith) (ground arith) h
  kind-IsConsistent apply_config a s h = h
  kind-IsConsistent run_script a s h = h
  kind-IsConsistent (other n) a s h = h

  -- An activity keeps the cripple flag and the cripple mode in agreement.
  pub execute_activity-IsConsistent :
      (a : Activity Float) (s : ClientState)
      → IsConsistent s
      → IsConsistent (execute_activity fl a s).0
  unfolding execute_activity
  execute_activity-IsConsistent a s = rw (clone_lem s) (kind-IsConsistent a.kind a s)

  abbrev with_kind : ActivityType → Activity Float → Activity Float
  with_kind k a = record a { kind = k }

  activity_install :
      (a : Activity Float) (s : ClientState)
      → execute_activity fl (with_kind install_package a) s
        ≡ install_named (extract_package_params a).0 (extract_package_params a).1 s
  unfolding execute_activity execute_kind execute_install_package extract_package_params get
  activity_install a s =
      ap
        (λ (t : ClientState).
          install_named (extract_package_params a).0 (extract_package_params a).1 t)
        (clone_lem s)

  activity_upgrade :
      (a : Activity Float) (s : ClientState)
      → execute_activity fl (with_kind upgrade_package a) s
        ≡ upgrade_named (extract_package_params a).0 (extract_package_params a).1 s
  unfolding execute_activity execute_kind execute_upgrade_package extract_package_params get
  activity_upgrade a s =
      ap
        (λ (t : ClientState).
          upgrade_named (extract_package_params a).0 (extract_package_params a).1 t)
        (clone_lem s)

  activity_remove :
      (a : Activity Float) (s : ClientState)
      → execute_activity fl (with_kind remove_package a) s
        ≡ remove_named (extract_package_params a).0 s
  unfolding execute_activity execute_kind execute_remove_package extract_package_params get
  activity_remove a s =
      ap (λ (t : ClientState). remove_named (extract_package_params a).0 t) (clone_lem s)

  named_xor :
      (p v : String) (s : ClientState)
      → p ≢ ""
      → let i : ClientState × ActivityResult Float = install_named p v s in
        let u : ClientState × ActivityResult Float = upgrade_named p v s in
        ((lookup p s.packages ≡ none)
          × (i.1.status ≡ success)
          × (u.1.status ≡ fail)
          × (lookup p i.0.packages ≡ some (or_latest v)))
        ⊎ ((lookup p s.packages ≢ none)
            × (i.1.status ≡ fail)
            × (u.1.status ≡ success)
            × (lookup p u.0.packages ≡ some (or_latest v)))
  unfolding install_named upgrade_named
  named_xor p v s h =
      ground (arith, eq_iff p "", eq_refl p, lookup-insert p p (or_latest v) s.packages)

  -- For an activity that names a package, an install and an upgrade with the same parameters are
  -- complementary: on any state one of them succeeds and the other reports a failure, the install
  -- exactly when the package is absent. The one that succeeds leaves the requested version,
  -- "latest" where none is given.
  pub install_xor_upgrade :
      (a : Activity Float) (s : ClientState)
      → package_of a ≢ ""
      → let i = execute_activity fl (with_kind install_package a) s in
        let u = execute_activity fl (with_kind upgrade_package a) s in
        let version = or_latest (extract_package_params a).1 in
        ((lookup (package_of a) s.packages ≡ none)
          × (i.1.status ≡ success)
          × (u.1.status ≡ fail)
          × (lookup (package_of a) i.0.packages ≡ some version))
        ⊎ ((lookup (package_of a) s.packages ≢ none)
            × (i.1.status ≡ fail)
            × (u.1.status ≡ success)
            × (lookup (package_of a) u.0.packages ≡ some version))
  install_xor_upgrade a s h =
      rw (activity_install a s, activity_upgrade a s)
        (named_xor (extract_package_params a).0 (extract_package_params a).1 s h)

  remove-install_named :
      (p v : String) (s : ClientState)
      → (let i : ClientState × ActivityResult Float = install_named p v s in i.1.status) ≡ success
      → let i : ClientState × ActivityResult Float = install_named p v s in
        let r : ClientState × ActivityResult Float = remove_named p i.0 in
        (r.1.status ≡ success) × ((q : String) → lookup q r.0.packages ≡ lookup q s.packages)
  unfolding install_named remove_named
  remove-install_named p v s h =
      let m = insert p (or_latest v) s.packages in
      (
        ground (arith, eq_iff p "", eq_refl p, lookup-insert p p (or_latest v) s.packages),
        λ q. ground (
          arith,
          eq_iff p "",
          eq_refl p,
          eq_iff p q,
          lookup-insert p p (or_latest v) s.packages,
          lookup-insert p q (or_latest v) s.packages,
          lookup-delete p q m,
        ),
      )

  -- Removing a package just installed, by the same parameters, succeeds, and leaves every package
  -- with the version, or absent, as before the install.
  pub remove-install :
      (a : Activity Float) (s : ClientState)
      → (execute_activity fl (with_kind install_package a) s).1.status ≡ success
      → let t = (execute_activity fl (with_kind install_package a) s).0 in
        let r = execute_activity fl (with_kind remove_package a) t in
        (r.1.status ≡ success) × ((p : String) → lookup p r.0.packages ≡ lookup p s.packages)
  remove-install a s =
      rw (activity_install a s, activity_remove a)
        (remove-install_named (extract_package_params a).0 (extract_package_params a).1 s)

  -- A client accepts the configuration that was just applied to it.
  pub validate-apply :
      (a : Activity Float) (s : ClientState)
      → (execute_activity fl
          (with_kind validate_config a)
          (execute_activity fl (with_kind apply_config a) s).0).1.status
        ≡ success
  unfolding execute_activity execute_kind execute_apply_config execute_validate_config
      extract_config_version
  validate-apply a s =
      rw (clone_lem s, clone_lem)
        (ground (arith, eq_ℤ_iff (extract_config_version fl a) (extract_config_version fl a)))
