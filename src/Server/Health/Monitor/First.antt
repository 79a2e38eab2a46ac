-- ===== src/Server/Health/Monitor/First.antt =====
-- The first result of a client for a run stays.
use super_duper_bassoon.Common.{
  true, List, [], ◌∷◌, none, some, ◌≡◌, refl, sym, ◌∙◌, arith, ap, eq_iff, Bool-cases, Option,
  Option-cases, inl, inr, ◌⊎◌, String, if◌then◌else◌, str_eq, ◌&&◌,
}
use super_duper_bassoon.Common.Fault.{Result-cases}
use super_duper_bassoon.Common.Float.{Floats}
use super_duper_bassoon.Common.Time.{Time}
use super_duper_bassoon.Server.Workflow.{RunResult, result-IsValid}
use super_duper_bassoon.Server.Workflow.Table.{Json, get_workflow}
use super_duper_bassoon.Server.Runs.{get_run}
use super_duper_bassoon.Server.Results.Table.{
  ResultRow, get_run_results, of_client, of_run, insert_result, result_row, save_result_with_type,
}
use super_duper_bassoon.Server.Health.Table.{save_run_health}
use super_duper_bassoon.Server.Health.Monitor.{
  HealthAnswers, HealthSources, HealthState, after_health, calculate_stored_health, dropped,
  health_of, kept, monitor_result, store_health, type_or_empty,
}
use super_duper_bassoon.Server.Health.Monitor.Laws.{bans_for}

module _ (fl : Floats) (json : Json fl.Float) where
  open fl use {Float}

  -- A calculation leaves the results alone.
  calculate-results :
      (db : HealthAnswers) (now : Time) (src : HealthSources Float) (id : String)
      (s : HealthState Float)
      → (dropped (calculate_stored_health fl json db now src id s)).1.results ≡ s.results
  unfolding calculate_stored_health store_health after_health
  calculate-results db now src id s = elim (Result-cases (get_run db.run id s.runs)) [
    | inr (e, f) ↦ rw (calculate_stored_health, f) refl
    | inl (run, f) ↦ elim (Result-cases (get_run_results db.results id s.results)) [
      | inr (e, g) ↦ rw (calculate_stored_health, f, g) refl
      | inl (results, g) ↦
          elim (Result-cases (
            save_run_health db.save_health now
              (health_of fl json now id run results (bans_for fl json db now src run))
              s.run_healths)) [
                | inr (e, k) ↦ rw (calculate_stored_health, f, g, store_health, k) refl
                | inl (t, k) ↦ rw (calculate_stored_health, f, g, store_health, k) refl
              ]
    ]
  ]

  monitor-results :
      (db : HealthAnswers) (now : Time) (src : HealthSources Float) (r : RunResult Float)
      (s : HealthState Float)
      → result-IsValid r ≡ true
      → db.store_result ≡ none
      → (w : String) × ((monitor_result fl json db now src (some r) s).1.results
          ≡ insert_result (result_row json r w) s.results)
  unfolding monitor_result save_result_with_type
  monitor-results db now src r s v q =
      let w = type_or_empty fl json (get_workflow db.workflow r.workflow_id src.workflows) in
      let saved = kept (save_result_with_type json db.store_result r w s.results) s.results in
      (
        w,
        rw (monitor_result, v)
            (calculate-results db now src r.run_id (record s { results = saved })
              ∙ ap (λ d. kept (save_result_with_type json d r w s.results) s.results) q),
      )

  -- Any result is inserted or has no effect on the results.
  monitor-inserts :
      (db : HealthAnswers) (now : Time) (src : HealthSources Float) (r : RunResult Float)
      (s : HealthState Float)
      → let after = (monitor_result fl json db now src (some r) s).1.results in
        (after ≡ s.results)
        ⊎ ((w : String) × (after ≡ insert_result (result_row json r w) s.results))
  unfolding monitor_result save_result_with_type
  monitor-inserts db now src r s = elim (Bool-cases (result-IsValid r)) [
    | inr v ↦ inl (rw (monitor_result, v) refl)
    | inl v ↦ elim (Option-cases db.store_result) [
      | inl q ↦ inr (monitor-results db now src r s v q)
      | inr (e, q) ↦
          let w = type_or_empty fl json (get_workflow db.workflow r.workflow_id src.workflows) in
          let saved = kept (save_result_with_type json db.store_result r w s.results) s.results in
          inl (
            rw (monitor_result, v)
              (calculate-results db now src r.run_id (record s { results = saved })
                ∙ ap (λ d. kept (save_result_with_type json d r w s.results) s.results) q))
    ]
  ]

  -- A message, with what it meets.
  pub record Message : Type 0 where
    pub db : HealthAnswers
    pub now : Time
    pub sources : HealthSources Float
    pub result : Option (RunResult Float)

  -- HandleResult on the messages in their order.
  pub monitor_all : List Message → HealthState Float → HealthState Float
  monitor_all [] s = s
  monitor_all (m ∷ ms) s = monitor_all ms (monitor_result fl json m.db m.now m.sources m.result s).1

  -- The rows of a client for a run.
  unfoldable pub rows_of : String → String → List (ResultRow Float) → List (ResultRow Float)
  rows_of run_id client_id [] = []
  rows_of run_id client_id (row ∷ rows) =
      let rest = rows_of run_id client_id rows in
      if str_eq row.result.run_id run_id && str_eq row.result.client_id client_id
      then row ∷ rest
      else rest

  -- The row that is there, or the new one.
  pub or_new_row : ResultRow Float → List (ResultRow Float) → List (ResultRow Float)
  or_new_row new [] = new ∷ []
  or_new_row new (row ∷ rows) = row ∷ rows

  rows_of-insert :
      (new : ResultRow Float) (run_id client_id : String) (rows : List (ResultRow Float))
      → rows_of run_id client_id (insert_result new rows) ≡ (
          if str_eq new.result.run_id run_id && str_eq new.result.client_id client_id
          then or_new_row new (rows_of run_id client_id rows)
          else rows_of run_id client_id rows)
  unfolding insert_result rows_of or_new_row of_client of_run
  rows_of-insert new run_id client_id [] = ground arith
  rows_of-insert new run_id client_id (row ∷ rows) = ground (
    arith,
    rows_of-insert new run_id client_id rows,
    eq_iff new.result.run_id run_id,
    eq_iff new.result.client_id client_id,
    eq_iff row.result.run_id run_id,
    eq_iff row.result.client_id client_id,
    eq_iff row.result.run_id new.result.run_id,
    eq_iff row.result.client_id new.result.client_id,
  )

  -- A client that has its row for a run keeps just that row when any row is inserted.
  insert-keeps :
      (new : ResultRow Float) (run_id client_id : String) (row : ResultRow Float)
      (rows before : List (ResultRow Float))
      → rows_of run_id client_id before ≡ row ∷ rows
      → rows_of run_id client_id (insert_result new before) ≡ row ∷ rows
  unfolding or_new_row
  insert-keeps new run_id client_id row rows before h =
      ground (arith, rows_of-insert new run_id client_id before, h)

  message-keeps :
      (m : Message) (run_id client_id : String) (row : ResultRow Float)
      (rows : List (ResultRow Float)) (s : HealthState Float)
      → rows_of run_id client_id s.results ≡ row ∷ rows
      → rows_of run_id client_id (monitor_result fl json m.db m.now m.sources m.result s).1.results
        ≡ row ∷ rows
  unfolding monitor_result
  message-keeps m run_id client_id row rows s h = elim (Option-cases m.result) [
    | inl q ↦ rw (q, monitor_result) h
    | inr (r, q) ↦ elim (monitor-inserts m.db m.now m.sources r s) [
      | inl same ↦ rw (q, same) h
      | inr (w, same) ↦
          rw (q, same) (insert-keeps (result_row json r w) run_id client_id row rows s.results h)
    ]
  ]

  all-keep :
      (ms : List Message) (run_id client_id : String) (row : ResultRow Float)
      (rows : List (ResultRow Float)) (s : HealthState Float)
      → rows_of run_id client_id s.results ≡ row ∷ rows
      → rows_of run_id client_id (monitor_all ms s).results ≡ row ∷ rows
  unfolding monitor_all
  all-keep [] run_id client_id row rows s h = h
  all-keep (m ∷ ms) run_id client_id row rows s h =
      all-keep ms run_id client_id row rows
        (monitor_result fl json m.db m.now m.sources m.result s).1
        (message-keeps m run_id client_id row rows s h)

  -- The new row is there or was not needed: one row, at least.
  or_new_row-all-keep :
      (ms : List Message) (run_id client_id : String) (new : ResultRow Float)
      (old : List (ResultRow Float)) (s : HealthState Float)
      → rows_of run_id client_id s.results ≡ or_new_row new old
      → rows_of run_id client_id (monitor_all ms s).results ≡ or_new_row new old
  unfolding or_new_row
  or_new_row-all-keep ms run_id client_id new [] s h = all-keep ms run_id client_id new [] s h
  or_new_row-all-keep ms run_id client_id new (row ∷ rows) s h =
      all-keep ms run_id client_id row rows s h

  -- Behind a valid result that is stored without an error, the client's rows for the run are those
  -- that were there or, without any, the row of this result alone; and they stay just these
  -- whatever messages follow and however many, of this client or of others, for this run or for
  -- others, and wherever the database fails.
  pub monitor_result_first :
      (db : HealthAnswers) (now : Time) (src : HealthSources Float) (first : RunResult Float)
      (s : HealthState Float) (ms : List Message)
      → result-IsValid first ≡ true
      → db.store_result ≡ none
      → let s' = (monitor_result fl json db now src (some first) s).1 in
        let rows = λ (t : HealthState Float). rows_of first.run_id first.client_id t.results in
        (w : String) × (rows s' ≡ or_new_row (result_row json first w) (rows s))
        × (rows (monitor_all ms s') ≡ rows s')
  unfolding result_row
  monitor_result_first db now src first s ms v q =
      let (w, inserted) = monitor-results db now src first s v q in
      let s' = (monitor_result fl json db now src (some first) s).1 in
      let old = rows_of first.run_id first.client_id s.results in
      let one : rows_of first.run_id first.client_id s'.results
          ≡ or_new_row (result_row json first w) old =
        rw (inserted) (
          ground (
            arith,
            rows_of-insert (result_row json first w) first.run_id first.client_id s.results,
            eq_iff first.run_id first.run_id,
            eq_iff first.client_id first.client_id,
          )) in
      (
        w,
        one,
        or_new_row-all-keep ms first.run_id first.client_id (result_row json first w) old s' one
            ∙ sym one,
      )
