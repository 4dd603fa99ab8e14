-- ===== src/Workflow/Tables.antt =====
-- The table functions `read_duck_hunt_workflow_log` of src/read_duck_hunt_workflow_log_function.cpp and
-- `parse_duck_hunt_workflow_log` of src/parse_duck_hunt_workflow_log_function.cpp. The parsers of the
-- engines that are registered when there are none are an argument, as is that of archives.
use duck_hunt.Prelude.{
  ℕ, ◌+◌, ◌-◌, min, leb, Bool, true, false, ◌||◌, Option, none, some, List, [], ◌∷◌, ◌++◌, map,
  keep_if, Text, codes, length, take, drop, is_empty, contains, if◌then◌else◌,
}
use duck_hunt.Prelude.Int.{pos}
use duck_hunt.Event.{
  ValidationEventType, ValidationEventStatus, SeverityLevel, new_event, string_to_severity_level,
  should_emit_event,
}
use duck_hunt.Parser.{Outcome, ok, io_exception, exception, ◌>>=◌}
use duck_hunt.Files.{FileSystem, read_content}
use duck_hunt.LogTable.Rows.{Row}
use duck_hunt.LogTable.Batch.{is_debug, standard_vector_size}
use duck_hunt.Workflow.{
  WorkflowEvent, workflow_event, WorkflowLogFormat, auto_detect, github_actions_zip, unknown_engine,
  WorkflowEngineParser, WorkflowEngineRegistry, register_engine, get_engine, find_engine,
  string_to_workflow_log_format, string_to_workflow_log_format_for_parse,
  workflow_log_format_to_string, detect_workflow_log_format,
}
use duck_hunt.Workflow.Rows.{workflow_row, read_workflow_row}

abbrev pub WorkflowEvents : Type 0
WorkflowEvents = List WorkflowEvent

-- The engines' parsers, a sort by descending priority, the parser of archives and the file system.
pub record Engines : Type 0 where
  pub built_in : List WorkflowEngineParser
  pub sort : List WorkflowEngineParser → List WorkflowEngineParser
  pub parse_zip : Text → Outcome WorkflowEvents
  pub files : FileSystem

abbrev pub register_engines :
    List WorkflowEngineParser → WorkflowEngineRegistry → WorkflowEngineRegistry
register_engines [] r = r
register_engines (p ∷ ps) r = register_engines ps (register_engine p r)

abbrev pub parse_with_engine : Text → Option WorkflowEngineParser → Outcome WorkflowEvents
parse_with_engine content none = ok []
parse_with_engine content (some p) = p.parse_workflow_log content

-- The one event that stands for a failure.
abbrev pub error_event : Text → Text → WorkflowEvent
error_event content what =
    record (workflow_event
      (record (new_event ValidationEventType.summary ValidationEventStatus.error) {
        event_id = pos 1;
        tool_name = codes "parse_duck_hunt_workflow_log";
        message = codes "Parse error: " ++ what;
        log_content = take 200 content;
        severity = codes "error";
      })) {
        workflow_type = codes "error";
        hierarchy_level = pos 1;
        parent_id = codes "parse_error";
      }

abbrev pub or_error_event : Text → Outcome WorkflowEvents → WorkflowEvents
or_error_event content (ok es) = es
or_error_event content (io_exception e) = error_event content e ∷ []
or_error_event content (exception e) = error_event content e ∷ []

abbrev pub filter_workflow : SeverityLevel → WorkflowEvents → WorkflowEvents
filter_workflow threshold es =
    if is_debug threshold
    then es
    else keep_if (λ (e : WorkflowEvent). should_emit_event e.base_event.severity threshold) es

abbrev pub is_auto_detect : WorkflowLogFormat → Bool
is_auto_detect auto_detect = true
is_auto_detect _ = false

abbrev pub is_zip_archive : WorkflowLogFormat → Bool
is_zip_archive github_actions_zip = true
is_zip_archive _ = false

abbrev pub is_unknown_engine : WorkflowLogFormat → Bool
is_unknown_engine unknown_engine = true
is_unknown_engine _ = false

abbrev pub unknown_format : Text → Text
unknown_format name =
    codes "Unknown workflow format: '"
    ++ name
    ++ codes
        "'. Use 'auto' for auto-detection. Supported: github_actions, gitlab_ci, jenkins, docker_build."

module _ (w : Engines) where
  abbrev pub with_engines : WorkflowEngineRegistry → WorkflowEngineRegistry
  with_engines r = if is_empty r.parsers then register_engines w.built_in r else r

  -- The parser for a format, by content or by name.
  unfoldable pub choose_engine :
      WorkflowLogFormat
      → Text
      → WorkflowEngineRegistry
      → Option WorkflowEngineParser × WorkflowEngineRegistry
  choose_engine format content r =
      if is_auto_detect format
      then find_engine w.sort content (with_engines r)
      else (get_engine (workflow_log_format_to_string format) (with_engines r), with_engines r)

  unfoldable pub parse_from_string :
      Text → Text → WorkflowEngineRegistry → WorkflowEvents × WorkflowEngineRegistry
  parse_from_string content format_str r =
      let (engine, r') =
        choose_engine (string_to_workflow_log_format_for_parse format_str) content r in
      if is_empty content
      then ([], r)
      else (or_error_event content (parse_with_engine content engine), r')

  -- The events of a call of `parse_duck_hunt_workflow_log`, by its arguments.
  unfoldable pub parse_workflow_bind :
      List Text → WorkflowEngineRegistry → Outcome (WorkflowEvents × WorkflowEngineRegistry)
  parse_workflow_bind [] r =
      exception (codes "parse_duck_hunt_workflow_log requires at least one parameter (content)")
  parse_workflow_bind (content ∷ []) r = ok (parse_from_string content (codes "auto") r)
  parse_workflow_bind (content ∷ format ∷ _) r =
      if is_unknown_engine (string_to_workflow_log_format_for_parse format)
      then exception (unknown_format format)
      else ok (parse_from_string content format r)

  -- The content of a file or of a virtual path, or the source itself.
  abbrev pub or_source : Text → Outcome Text → Outcome Text
  or_source source (ok content) = ok content
  or_source source (io_exception e) = ok source
  or_source source (exception e) = exception e

  unfoldable pub read_source : Text → Outcome Text
  read_source source =
      if contains (codes "://") source || w.files.file_exists source
      then or_source source (read_content w.files source)
      else ok source

  abbrev pub or_detected : WorkflowLogFormat → Text → WorkflowLogFormat
  or_detected format content =
      if is_auto_detect format then detect_workflow_log_format content else format

  abbrev pub read_engine_events :
      WorkflowLogFormat
      → SeverityLevel
      → Text
      → WorkflowEngineRegistry
      → Outcome (WorkflowEvents × WorkflowEngineRegistry)
  read_engine_events format threshold content r =
      let (engine, r') = choose_engine (or_detected format content) content r in
      parse_with_engine content engine >>= λ es. ok (filter_workflow threshold es, r')

  unfoldable pub read_workflow_init :
      Text
      → WorkflowLogFormat
      → SeverityLevel
      → WorkflowEngineRegistry
      → Outcome (WorkflowEvents × WorkflowEngineRegistry)
  read_workflow_init source format threshold r =
      if is_zip_archive format
      then (w.parse_zip source >>= λ es. ok (filter_workflow threshold es, r))
      else (read_source source >>= λ content. read_engine_events format threshold content r)

-- The arguments of `read_duck_hunt_workflow_log` that have an effect.
pub record WorkflowBindData : Type 0 where
  pub source : Text
  pub format : WorkflowLogFormat
  pub severity_threshold : SeverityLevel
  pub ignore_errors : Bool

abbrev pub bound_threshold : Option Text → SeverityLevel
bound_threshold none = SeverityLevel.debug
bound_threshold (some s) = string_to_severity_level s

abbrev pub is_asked : Option Bool → Bool
is_asked none = false
is_asked (some b) = b

unfoldable pub read_workflow_bind : List Text → Option Text → Option Bool → Outcome WorkflowBindData
read_workflow_bind [] threshold ignore_errors =
    exception (codes "read_duck_hunt_workflow_log requires at least one parameter (source)")
read_workflow_bind (source ∷ []) threshold ignore_errors = ok (record {
  source = source;
  format = auto_detect;
  severity_threshold = bound_threshold threshold;
  ignore_errors = is_asked ignore_errors;
})
read_workflow_bind (source ∷ format_str ∷ _) threshold ignore_errors =
    if is_unknown_engine (string_to_workflow_log_format format_str)
    then exception (unknown_format format_str)
    else ok (record {
      source = source;
      format = string_to_workflow_log_format format_str;
      severity_threshold = bound_threshold threshold;
      ignore_errors = is_asked ignore_errors;
    })

-- The scan of `read_duck_hunt_workflow_log`: a chunk of rows from an offset, and the next offset.
abbrev pub read_workflow_scan : WorkflowEvents → ℕ → List Row × ℕ
read_workflow_scan events chunk_offset =
    let rows_to_output = min standard_vector_size (length events - chunk_offset) in
    if leb (length events) chunk_offset then ([], chunk_offset) else (
      map read_workflow_row (take rows_to_output (drop chunk_offset events)),
      chunk_offset + rows_to_output,
    )

-- That of `parse_duck_hunt_workflow_log`, into a chunk that has `size` rows already.
abbrev pub parse_workflow_scan : ℕ → WorkflowEvents → ℕ → List Row × ℕ
parse_workflow_scan size events position = (
  map workflow_row (take size (drop position events)),
  position + min size (length events - position),
)
