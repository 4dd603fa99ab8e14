-- ===== src/Event/Builder.antt =====
-- `EventBuilder` of src/include/validation_event_types.hpp: each method returns the changed event.
use duck_hunt.Prelude.{List, [], ◌∷◌, ◌++◌, Text, codes}
use duck_hunt.Prelude.Int.{ℤ}
use duck_hunt.Event.{ValidationEventStatus, ValidationEventType, ValidationEvent, Double, new_event}

abbrev pub event_builder : ValidationEventType → ValidationEventStatus → ℤ → ValidationEvent
event_builder t s id = record (new_event t s) { event_id = id }

abbrev pub tool : Text → ValidationEvent → ValidationEvent
tool name e = record e { tool_name = name }

abbrev pub type : ValidationEventType → ValidationEvent → ValidationEvent
type t e = record e { event_type = t }

abbrev pub pass : ValidationEvent → ValidationEvent
pass e = record e { status = ValidationEventStatus.pass; severity = codes "info" }

abbrev pub fail : ValidationEvent → ValidationEvent
fail e = record e { status = ValidationEventStatus.fail; severity = codes "error" }

abbrev pub skip : ValidationEvent → ValidationEvent
skip e = record e { status = ValidationEventStatus.skip; severity = codes "warning" }

abbrev pub error : ValidationEvent → ValidationEvent
error e = record e { status = ValidationEventStatus.error; severity = codes "error" }

abbrev pub warning : ValidationEvent → ValidationEvent
warning e = record e { status = ValidationEventStatus.warning; severity = codes "warning" }

abbrev pub info : ValidationEvent → ValidationEvent
info e = record e { status = ValidationEventStatus.info; severity = codes "info" }

abbrev pub severity : Text → ValidationEvent → ValidationEvent
severity sev e = record e { severity = sev }

abbrev pub status : ValidationEventStatus → ValidationEvent → ValidationEvent
status s e = record e { status = s }

abbrev pub message : Text → ValidationEvent → ValidationEvent
message msg e = record e { message = msg }

abbrev pub error_code : Text → Text → ValidationEvent → ValidationEvent
error_code code msg e = record e { error_code = code; message = msg }

abbrev pub suggestion : Text → ValidationEvent → ValidationEvent
suggestion sug e = record e { suggestion = sug }

abbrev pub category : Text → ValidationEvent → ValidationEvent
category cat e = record e { category = cat }

abbrev pub at : Text → ℤ → ℤ → ValidationEvent → ValidationEvent
at file line col e = record e { ref_file = file; ref_line = line; ref_column = col }

abbrev pub function : Text → ValidationEvent → ValidationEvent
function name e = record e { function_name = name }

abbrev pub log_line : Text → ℤ → ValidationEvent → ValidationEvent
log_line content n e = record e { log_content = content; log_line_start = n; log_line_end = n }

abbrev pub log_lines : Text → ℤ → ℤ → ValidationEvent → ValidationEvent
log_lines content start stop e = record e {
  log_content = content;
  log_line_start = start;
  log_line_end = stop;
}

abbrev pub log_file : Text → ValidationEvent → ValidationEvent
log_file path e = record e { log_file = path }

abbrev pub test : Text → Double → ValidationEvent → ValidationEvent
test name time_ms e = record e { test_name = name; execution_time = time_ms }

abbrev pub structured : Text → ValidationEvent → ValidationEvent
structured json e = record e { structured_data = json }

abbrev pub scope : Text → Text → Text → ValidationEvent → ValidationEvent
scope name id st e = record e { scope = name; scope_id = id; scope_status = st }

abbrev pub group : Text → Text → Text → ValidationEvent → ValidationEvent
group name id st e = record e { group = name; group_id = id; group_status = st }

abbrev pub unit : Text → Text → Text → ValidationEvent → ValidationEvent
unit name id st e = record e { unit = name; unit_id = id; unit_status = st }

abbrev pub principal : Text → ValidationEvent → ValidationEvent
principal p e = record e { principal = p }

abbrev pub origin : Text → ValidationEvent → ValidationEvent
origin o e = record e { origin = o }

abbrev pub target : Text → ValidationEvent → ValidationEvent
target t e = record e { target = t }

abbrev pub timestamp : Text → ValidationEvent → ValidationEvent
timestamp ts e = record e { started_at = ts }

abbrev pub add_to : List ValidationEvent → ValidationEvent → List ValidationEvent
add_to events e = events ++ e ∷ []
