-- ===== src/Workflow/Passing.antt =====
-- The events that `read_duck_hunt_workflow_log` shows.
use duck_hunt.Prelude.{
  ◌≡◌, refl, subst, Bool, Bool-cases, inl, inr, true, false, ◌||◌, [], ◌∷◌, All, All-keep_if_passes,
  keep_if, Text, if◌then◌else◌,
}
use duck_hunt.Event.{SeverityLevel, should_emit_event}
use duck_hunt.Parser.{Outcome, ok, io_exception, exception, ◌>>=◌}
use duck_hunt.LogTable.Batch.{is_debug, passes}
use duck_hunt.LogTable.BindSound.{Holds}
use duck_hunt.Workflow.{WorkflowEvent, WorkflowLogFormat, WorkflowEngineRegistry}
use duck_hunt.Workflow.Tables.{
  WorkflowEvents, Engines, filter_workflow, read_workflow_init, read_source, parse_with_engine,
  read_engine_events, choose_engine, or_detected, is_zip_archive,
}

abbrev pub Passing : SeverityLevel → WorkflowEvents → Type 0
Passing threshold es = All (λ (e : WorkflowEvent). passes threshold e.base_event ≡ true) es

abbrev shown : SeverityLevel → WorkflowEvent → Bool
shown threshold e = should_emit_event e.base_event.severity threshold

-- What a filter by a test that holds, or does not hold, of the threshold leaves.
filtered : (debug : Bool) → SeverityLevel → WorkflowEvents → WorkflowEvents
filtered debug threshold es = if debug then es else keep_if (shown threshold) es

filtered-All :
    (debug : Bool) (threshold : SeverityLevel) (es : WorkflowEvents)
    → All (λ e. (debug || shown threshold e) ≡ true) (filtered debug threshold es)
unfolding filtered
filtered-All true threshold [] = tt
filtered-All true threshold (e ∷ es) = (refl, filtered-All true threshold es)
filtered-All false threshold es = All-keep_if_passes (shown threshold) es

filter_workflow-Passing :
    (threshold : SeverityLevel) (es : WorkflowEvents)
    → Passing threshold (filter_workflow threshold es)
unfolding filtered
filter_workflow-Passing threshold es = filtered-All (is_debug threshold) threshold es

module _ (w : Engines) where
  abbrev Shows : SeverityLevel → Outcome (WorkflowEvents × WorkflowEngineRegistry) → Type 0
  Shows threshold o =
      Holds (λ (p : WorkflowEvents × WorkflowEngineRegistry). Passing threshold p.0) o

  parsed-Shows :
      (threshold : SeverityLevel) (o : Outcome WorkflowEvents) (r : WorkflowEngineRegistry)
      → Shows threshold (o >>= λ es. ok (filter_workflow threshold es, r))
  parsed-Shows threshold (ok es) r = filter_workflow-Passing threshold es
  parsed-Shows threshold (io_exception e) r = tt
  parsed-Shows threshold (exception e) r = tt

  read-Shows :
      (format : WorkflowLogFormat) (threshold : SeverityLevel) (o : Outcome Text)
      (r : WorkflowEngineRegistry)
      → Shows threshold (o >>= λ content. read_engine_events w format threshold content r)
  read-Shows format threshold (ok content) r =
      let chosen = choose_engine w (or_detected w format content) content r in
      parsed-Shows threshold (parse_with_engine content chosen.0) chosen.1
  read-Shows format threshold (io_exception e) r = tt
  read-Shows format threshold (exception e) r = tt

  init-Shows :
      (source : Text) (format : WorkflowLogFormat) (threshold : SeverityLevel)
      (r : WorkflowEngineRegistry)
      → Shows threshold (read_workflow_init w source format threshold r)
  unfolding read_workflow_init
  init-Shows source format threshold r = elim (Bool-cases (is_zip_archive format)) [
    | inl z ↦ rw z (parsed-Shows threshold (w.parse_zip source) r)
    | inr z ↦ rw z (read-Shows format threshold (read_source w source) r)
  ]

  -- Every event that `read_duck_hunt_workflow_log` gathers passes the threshold, whichever engine's
  -- parser it comes from, an archive's included.
  pub read_workflow_init-Passing :
      (source : Text) (format : WorkflowLogFormat) (threshold : SeverityLevel)
      (r r' : WorkflowEngineRegistry) (es : WorkflowEvents)
      → read_workflow_init w source format threshold r ≡ ok (es, r')
      → Passing threshold es
  read_workflow_init-Passing source format threshold r r' es h =
      subst (Shows threshold) h (init-Shows source format threshold r)
