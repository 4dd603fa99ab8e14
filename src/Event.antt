-- ===== src/Event.antt =====
-- src/include/validation_event_types.hpp and src/validation_event_types.cpp: the event that every
-- parser produces, its enumerations and their conversions to and from text.
pub mod Builder
pub mod Threshold
pub mod Names
use duck_hunt.Prelude.{ℕ, ◌==◌, Bool, ◌||◌, [], Text, codes, text_eq, leb, if◌then◌else◌}
use duck_hunt.Prelude.Int.{ℤ, pos, minus_one}

pub data ValidationEventStatus : Type 0 where
  pass fail skip error warning info : ValidationEventStatus

pub data SeverityLevel : Type 0 where
  debug info warning error critical : SeverityLevel

pub data ValidationEventType : Type 0 where
  test_result lint_issue type_error security_finding build_error : ValidationEventType
  performance_issue memory_error memory_leak thread_error : ValidationEventType
  performance_metric summary debug_event crash_signal debug_info unknown : ValidationEventType

-- A `double` of the event, as an exact fraction of natural numbers: a duration or a score.
-- The rounding of the arithmetic is not modelled.
pub record Double : Type 0 where
  pub num : ℕ
  pub den : ℕ

abbrev pub zero_point_zero : Double
zero_point_zero = record { num = 0; den = 1 }

abbrev pub is_zero : Double → Bool
is_zero d = d.num == 0

pub record ValidationEvent : Type 0 where
  pub event_id : ℤ
  pub tool_name : Text
  pub event_type : ValidationEventType
  pub ref_file : Text
  pub ref_line : ℤ
  pub ref_column : ℤ
  pub function_name : Text
  pub status : ValidationEventStatus
  pub severity : Text
  pub category : Text
  pub error_code : Text
  pub message : Text
  pub suggestion : Text
  pub log_content : Text
  pub structured_data : Text
  pub log_file : Text
  pub log_line_start : ℤ
  pub log_line_end : ℤ
  pub test_name : Text
  pub execution_time : Double
  pub principal : Text
  pub origin : Text
  pub target : Text
  pub actor_type : Text
  pub started_at : Text
  pub external_id : Text
  pub scope : Text
  pub scope_id : Text
  pub scope_status : Text
  pub group : Text
  pub group_id : Text
  pub group_status : Text
  pub unit : Text
  pub unit_id : Text
  pub unit_status : Text
  pub subunit : Text
  pub subunit_id : Text
  pub fingerprint : Text
  pub similarity_score : Double
  pub pattern_id : ℤ

-- The constructor leaves `event_type` and `status` uninitialised: they are arguments here.
abbrev pub new_event : ValidationEventType → ValidationEventStatus → ValidationEvent
new_event t s = record {
  event_id = pos 0;
  tool_name = [];
  event_type = t;
  ref_file = [];
  ref_line = minus_one;
  ref_column = minus_one;
  function_name = [];
  status = s;
  severity = [];
  category = [];
  error_code = [];
  message = [];
  suggestion = [];
  log_content = [];
  structured_data = [];
  log_file = [];
  log_line_start = minus_one;
  log_line_end = minus_one;
  test_name = [];
  execution_time = zero_point_zero;
  principal = [];
  origin = [];
  target = [];
  actor_type = [];
  started_at = [];
  external_id = [];
  scope = [];
  scope_id = [];
  scope_status = [];
  group = [];
  group_id = [];
  group_status = [];
  unit = [];
  unit_id = [];
  unit_status = [];
  subunit = [];
  subunit_id = [];
  fingerprint = [];
  similarity_score = zero_point_zero;
  pattern_id = minus_one;
}

unfoldable pub validation_event_status_to_string : ValidationEventStatus → Text
validation_event_status_to_string ValidationEventStatus.pass = codes "PASS"
validation_event_status_to_string ValidationEventStatus.fail = codes "FAIL"
validation_event_status_to_string ValidationEventStatus.skip = codes "SKIP"
validation_event_status_to_string ValidationEventStatus.error = codes "ERROR"
validation_event_status_to_string ValidationEventStatus.warning = codes "WARNING"
validation_event_status_to_string ValidationEventStatus.info = codes "INFO"

unfoldable pub validation_event_type_to_string : ValidationEventType → Text
validation_event_type_to_string test_result = codes "test_result"
validation_event_type_to_string lint_issue = codes "lint_issue"
validation_event_type_to_string type_error = codes "type_error"
validation_event_type_to_string security_finding = codes "security_finding"
validation_event_type_to_string build_error = codes "build_error"
validation_event_type_to_string performance_issue = codes "performance_issue"
validation_event_type_to_string memory_error = codes "memory_error"
validation_event_type_to_string memory_leak = codes "memory_leak"
validation_event_type_to_string thread_error = codes "thread_error"
validation_event_type_to_string performance_metric = codes "performance_metric"
validation_event_type_to_string summary = codes "summary"
validation_event_type_to_string debug_event = codes "debug_event"
validation_event_type_to_string crash_signal = codes "crash_signal"
validation_event_type_to_string debug_info = codes "debug_info"
validation_event_type_to_string unknown = codes "unknown"

unfoldable pub string_to_validation_event_status : Text → ValidationEventStatus
string_to_validation_event_status str =
    if text_eq str (codes "PASS") || text_eq str (codes "passed")
    then ValidationEventStatus.pass
    else if text_eq str (codes "FAIL") || text_eq str (codes "failed")
    then ValidationEventStatus.fail
    else if text_eq str (codes "SKIP") || text_eq str (codes "skipped")
    then ValidationEventStatus.skip
    else if text_eq str (codes "ERROR") || text_eq str (codes "error")
    then ValidationEventStatus.error
    else if text_eq str (codes "WARNING") || text_eq str (codes "warning")
    then ValidationEventStatus.warning
    else if text_eq str (codes "INFO") || text_eq str (codes "info")
    then ValidationEventStatus.info
    else ValidationEventStatus.error

unfoldable pub string_to_validation_event_type : Text → ValidationEventType
string_to_validation_event_type str =
    if text_eq str (codes "test_result")
    then test_result
    else if text_eq str (codes "lint_issue")
    then lint_issue
    else if text_eq str (codes "type_error")
    then type_error
    else if text_eq str (codes "security_finding")
    then security_finding
    else if text_eq str (codes "build_error")
    then build_error
    else if text_eq str (codes "performance_issue")
    then performance_issue
    else if text_eq str (codes "memory_error")
    then memory_error
    else if text_eq str (codes "memory_leak")
    then memory_leak
    else if text_eq str (codes "thread_error")
    then thread_error
    else if text_eq str (codes "performance_metric")
    then performance_metric
    else if text_eq str (codes "summary")
    then summary
    else if text_eq str (codes "debug_event")
    then debug_event
    else if text_eq str (codes "crash_signal")
    then crash_signal
    else if text_eq str (codes "debug_info")
    then debug_info
    else if text_eq str (codes "unknown")
    then unknown
    else test_result

-- The threshold parameter of the table functions.
unfoldable pub string_to_severity_level : Text → SeverityLevel
string_to_severity_level str =
    if text_eq str (codes "all") || text_eq str (codes "debug")
    then SeverityLevel.debug
    else if text_eq str (codes "info")
    then SeverityLevel.info
    else if text_eq str (codes "warning")
    then SeverityLevel.warning
    else if text_eq str (codes "error")
    then SeverityLevel.error
    else if text_eq str (codes "critical")
    then SeverityLevel.critical
    else SeverityLevel.warning

unfoldable pub severity_level_to_string : SeverityLevel → Text
severity_level_to_string SeverityLevel.debug = codes "debug"
severity_level_to_string SeverityLevel.info = codes "info"
severity_level_to_string SeverityLevel.warning = codes "warning"
severity_level_to_string SeverityLevel.error = codes "error"
severity_level_to_string SeverityLevel.critical = codes "critical"

abbrev pub severity_level_to_int : SeverityLevel → ℕ
severity_level_to_int SeverityLevel.debug = 0
severity_level_to_int SeverityLevel.info = 1
severity_level_to_int SeverityLevel.warning = 2
severity_level_to_int SeverityLevel.error = 3
severity_level_to_int SeverityLevel.critical = 4

-- The severity field of an event.
unfoldable pub severity_string_to_level : Text → SeverityLevel
severity_string_to_level severity_str =
    if text_eq severity_str (codes "debug") || text_eq severity_str (codes "trace")
    then SeverityLevel.debug
    else if text_eq severity_str (codes "info")
    then SeverityLevel.info
    else if text_eq severity_str (codes "warning") || text_eq severity_str (codes "warn")
    then SeverityLevel.warning
    else if text_eq severity_str (codes "error")
    then SeverityLevel.error
    else if text_eq severity_str (codes "critical") || text_eq severity_str (codes "fatal")
    then SeverityLevel.critical
    else SeverityLevel.warning

unfoldable pub should_emit_event : Text → SeverityLevel → Bool
should_emit_event event_severity threshold =
    leb (severity_level_to_int threshold)
      (severity_level_to_int (severity_string_to_level event_severity))
