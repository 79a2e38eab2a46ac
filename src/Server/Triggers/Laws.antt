-- ===== src/Server/Triggers/Laws.antt =====
-- When a scheduled workflow fires.
use super_duper_bassoon.Common.{
  ◌≤◌, ◌<◌, String, Bool, true, false, List, [], ◌∷◌, Option, none, some, str_eq, not, ◌||◌, ltb,
  ◌≡◌, ◌≢◌, refl, ◌∙◌, arith, eq_iff, eq_refl, Bool-cases, inl, inr, All, lt→ltb,
}
use super_duper_bassoon.Common.Dict.{Dict, lookup, lookup-insert}
use super_duper_bassoon.Common.Time.{Time}
use super_duper_bassoon.Server.Workflow.{TriggerSpec, scheduled}
use super_duper_bassoon.Server.Triggers.{Cron, fire_next, fire_parsed, is_scheduled, should_fire}

not-empty : (s : String) → s ≢ "" → str_eq s "" ≡ false
not-empty s h = elim (Bool-cases (str_eq s "")) [
  | inl e ↦ absurd (h ((eq_iff s "").0 e))
  | inr e ↦ e
]

-- One call of ShouldFire.
pub record Check (F : Type 0) : Type 0 where
  pub id : String
  pub spec : TriggerSpec F
  pub now : Time

-- The answers of the calls, and the next times behind them.
unfoldable pub checks :
    {F : Type 0} → Cron → List (Check F) → Dict Time → List (String × Option Bool) × Dict Time
checks cron [] times = ([], times)
checks cron (c ∷ cs) times =
    let (answer, times') = should_fire cron c.id c.spec c.now times in
    let (answers, times'') = checks cron cs times' in ((c.id, answer) ∷ answers, times'')

-- The time of another workflow stays.
fire_next-other :
    (next : Time → Time) (id other : String) (now : Time) (times : Dict Time) (o : Option Time)
    → str_eq other id ≡ false
    → lookup id (fire_next next other now times o).1 ≡ lookup id times
unfolding fire_next
fire_next-other next id other now times none e =
    ground (arith, lookup-insert other id (next now) times, e)
fire_next-other next id other now times (some due) e =
    ground (arith, lookup-insert other id (next now) times, e)

abbrev Waits : String → Time → String → Option Bool × Dict Time → Type 0
Waits id due other result = (lookup id result.1 ≡ some due) × (other ≡ id → result.0 ≢ some true)

fire_next-Waits :
    (next : Time → Time) (id other : String) (now due : Time) (times : Dict Time)
    → lookup id times ≡ some due
    → (other ≡ id → now < due)
    → Waits id due other (fire_next next other now times (lookup other times))
unfolding fire_next
fire_next-Waits next id other now due times h early = elim (Bool-cases (str_eq other id)) [
  | inl e ↦
      let same : other ≡ id = (eq_iff other id).0 e in
      let found : lookup other times ≡ some due = rw same h in
      rw (found, lt→ltb now due (early same)) (h, λ _. cc)
  | inr e ↦ (
    fire_next-other next id other now times (lookup other times) e ∙ h,
    λ same. absurd (ground (arith, eq_iff other id, same, e)),
  )
]

fire_parsed-Waits :
    (o : Option (Time → Time)) (id other : String) (now due : Time) (times : Dict Time)
    → lookup id times ≡ some due
    → (other ≡ id → now < due)
    → Waits id due other (fire_parsed o other now times)
unfolding fire_parsed
fire_parsed-Waits none id other now due times h early = (h, λ _. cc)
fire_parsed-Waits (some next) id other now due times h early =
    fire_next-Waits next id other now due times h early

module _ {F : Type 0} (cron : Cron) where
  should_fire-Waits :
      (spec : TriggerSpec F) (id other : String) (now due : Time) (times : Dict Time)
      → lookup id times ≡ some due
      → (other ≡ id → now < due)
      → Waits id due other (should_fire cron other spec now times)
  unfolding should_fire
  should_fire-Waits spec id other now due times h early =
      elim (Bool-cases (not (is_scheduled spec.kind) || str_eq spec.cron "")) [
        | inl e ↦ rw (should_fire, e) (h, λ _. cc)
        | inr e ↦
            rw (should_fire, e) (fire_parsed-Waits (cron spec.cron) id other now due times h early)
      ]

  checks-wait :
      (id : String) (due : Time) (cs : List (Check F)) (times : Dict Time)
      → lookup id times ≡ some due
      → All (λ c. c.id ≡ id → c.now < due) cs
      → (lookup id (checks cron cs times).1 ≡ some due)
        × All (λ a. a.0 ≡ id → a.1 ≢ some true) (checks cron cs times).0
  unfolding checks
  checks-wait id due [] times h early = (h, tt)
  checks-wait id due (c ∷ cs) times h early =
      let one = should_fire-Waits c.spec id c.id c.now due times h early.0 in
      let rest = checks-wait id due cs (should_fire cron c.id c.spec c.now times).1 one.0 early.1 in
      (rest.0, (one.1, rest.1))

  -- Once a time is due for a workflow, it does not fire at any check before that time, whatever other
  -- workflows are checked in between, and does fire at the next check that is not before it, where
  -- it is scheduled by an expression that parses; from then on the time that follows this check is
  -- due.
  pub checks_fire_once :
      (id : String) (due now : Time) (cs : List (Check F)) (times : Dict Time)
      (spec : TriggerSpec F) (next : Time → Time)
      → lookup id times ≡ some due
      → All (λ c. c.id ≡ id → c.now < due) cs
      → due ≤ now
      → spec.kind ≡ scheduled
      → spec.cron ≢ ""
      → cron spec.cron ≡ some next
      → let times' = (checks cron cs times).1 in
        All (λ a. a.0 ≡ id → a.1 ≢ some true) (checks cron cs times).0
        × ((should_fire cron id spec now times').0 ≡ some true)
        × (lookup id (should_fire cron id spec now times').1 ≡ some (next now))
  unfolding should_fire fire_parsed fire_next is_scheduled
  checks_fire_once id due now cs times spec next h early late k c parsed =
      let times' = (checks cron cs times).1 in
      let waited = checks-wait id due cs times h early in
      let found : lookup id times' ≡ some due = waited.0 in
      let passed : (not (is_scheduled spec.kind) || str_eq spec.cron "") ≡ false =
        rw k (not-empty spec.cron c) in
      let over : ltb now due ≡ false = ground arith in
      (
        waited.1,
        rw (should_fire, passed, parsed, found, over) refl,
        rw (should_fire, passed, parsed, found, over)
            (lookup-insert id id (next now) times' ∙ rw eq_refl refl),
      )
