-- ===== src/Server/Config/Laws.antt =====
-- The policies that come out of the table of workflows.
use super_duper_bassoon.Common.{
  ℕ, ◌*◌, ◌<◌, true, false, String, List, Option, none, some, if◌then◌else◌, ◌≡◌, arith, inl, inr,
  All,
}
use super_duper_bassoon.Common.Fault.{Fault, ok, Result-cases}
use super_duper_bassoon.Common.Float.{Floats}
use super_duper_bassoon.Common.Int.{ℤ, pos, leb_ℤ, ltb_ℤ}
use super_duper_bassoon.Common.Time.{of_ms, second}
use super_duper_bassoon.Server.Workflow.{Workflow, out_of_range, validate_definition}
use super_duper_bassoon.Server.Workflow.Table.{get_workflow, found_workflow, workflow_id}
use super_duper_bassoon.Server.Rows.{find_row}
use super_duper_bassoon.Server.Rows.Laws.{find-All}
use super_duper_bassoon.Server.Circuit.{validate_policy}
use super_duper_bassoon.Server.Config.{
  PolicyDefaults, default_window, default_threshold, get_policy, new_policy_repo, positive_or,
}

found-some :
    {F : Type 0} (o : Option (Workflow F)) (w : Workflow F) → found_workflow o ≡ ok w → o ≡ some w
unfolding found_workflow
found-some none w h = cc
found-some (some v) w h = cc

module _ (fl : Floats) where
  open fl use {Float}

  defined-range :
      (w : Workflow Float)
      → validate_definition fl w ≡ ok tt
      → out_of_range fl w.success_threshold ≡ false
  unfolding validate_definition
  defined-range w h = ground arith

  positive-range :
      (default threshold : Float)
      → out_of_range fl default ≡ false
      → out_of_range fl threshold ≡ false
      → out_of_range fl (positive_or fl default threshold) ≡ false
  positive-range default threshold h k = ground arith

  found-range :
      (db : Option Fault) (id : String) (t : List (Workflow Float)) (w : Workflow Float)
      → All (λ u. validate_definition fl u ≡ ok tt) t
      → get_workflow db id t ≡ ok w
      → out_of_range fl w.success_threshold ≡ false
  unfolding get_workflow found_workflow
  found-range (some e) id t w h q = cc
  found-range none id t w h q = defined-range w (
      find-All workflow_id (λ u. validate_definition fl u ≡ ok tt) id t w h
        (found-some (find_row workflow_id id t) w q))

  default-window : (window : ℤ) → ltb_ℤ (default_window fl window) (pos 0) ≡ false
  default-window window = ground arith

  cooldown-positive :
      (c : ℤ) (n : ℕ) → 0 < n → ltb_ℤ (pos 0) (if leb_ℤ c (pos 0) then pos n else c) ≡ true
  cooldown-positive c n h = ground arith

  policy-valid :
      (p : PolicyDefaults Float) (threshold : Float)
      → out_of_range fl threshold ≡ false
      → ltb_ℤ p.window (pos 0) ≡ false
      → validate_policy fl (record {
        success_threshold = threshold;
        evaluation_window = p.window;
        cooldown_period = p.cooldown;
      })
        ≡ ok tt
  unfolding validate_policy
  policy-valid p threshold h k = ground arith

  -- Where each workflow of the table passes ValidateDefinition and the default threshold is a
  -- percentage, each policy that a new DefaultPolicyRepo answers is valid and has a positive
  -- cooldown, whatever its window and its cooldown in milliseconds, and also where the workflow is
  -- missing or the database fails.
  pub get_policy-IsValid :
      (threshold : Float) (window cooldown_ms : ℤ) (db : Option Fault) (id : String)
      (t : List (Workflow Float))
      → All (λ w. validate_definition fl w ≡ ok tt) t
      → out_of_range fl (default_threshold fl threshold) ≡ false
      → let policy = get_policy fl (new_policy_repo fl threshold window cooldown_ms) db id t in
        (validate_policy fl policy ≡ ok tt) × (ltb_ℤ (pos 0) policy.cooldown_period ≡ true)
  unfolding get_policy new_policy_repo
  get_policy-IsValid threshold window cooldown_ms db id t h k =
      let p = new_policy_repo fl threshold window cooldown_ms in
      let positive = cooldown-positive (of_ms cooldown_ms) (300 * second) (omega arith) in
      elim (Result-cases (get_workflow db id t)) [
        | inr (e, q) ↦
            rw (get_policy, q) (policy-valid p p.threshold k (default-window window), positive)
        | inl (w, q) ↦
            rw (get_policy, q)
              (
                policy-valid p (positive_or fl p.threshold w.success_threshold)
                    (positive-range p.threshold w.success_threshold k (found-range db id t w h q))
                    (default-window window),
                positive,
              )
      ]
