-- ===== src/Diagnosis.antt =====
-- What the parsers of the registry make of a content: src/duck_hunt_diagnose_function.cpp and
-- src/duck_hunt_detect_format_function.cpp, with the rows of src/duck_hunt_formats_function.cpp.
pub mod Names
pub mod Listed
use duck_hunt.Prelude.{
  ℕ, Bool, true, false, not, ◌&&◌, ◌||◌, Option, none, some, List, [], ◌∷◌, ◌++◌, Text, codes,
  text_eq, contains, is_empty, length, if◌then◌else◌,
}
use duck_hunt.Prelude.Int.{ℤ, pos}
use duck_hunt.Event.{ValidationEvent}
use duck_hunt.Parser.{Parser, CommandPattern, Outcome, ok, io_exception, exception, ◌>>=◌}
use duck_hunt.Registry.{Registry, find_parser, get_parser, deref}
use duck_hunt.Registry.Sort.{stable_sort}
use duck_hunt.Registry.Listing.{ParserInfo, get_all_formats}
use duck_hunt.Formats.{name_found}
use duck_hunt.Files.{FileSystem, read_content}

pub data EmitFilter : Type 0 where
  all valid invalid : EmitFilter

pub record DiagnosisEntry : Type 0 where
  pub format_name : Text
  pub priority : ℤ
  pub can_parse : Bool
  pub events_produced : ℕ
  pub is_selected : Bool

unfoldable pub parse_emit_filter : Text → Outcome EmitFilter
parse_emit_filter emit_str =
    if text_eq emit_str (codes "valid")
    then ok valid
    else if text_eq emit_str (codes "invalid")
    then ok invalid
    else if text_eq emit_str (codes "all") || is_empty emit_str
    then ok all
    else exception (
        codes "Invalid emit parameter: '"
        ++ emit_str
        ++ codes "'. Valid values are 'all', 'valid', or 'invalid'")

abbrev pub includes : EmitFilter → DiagnosisEntry → Bool
includes all e = true
includes valid e = e.can_parse
includes invalid e = not e.can_parse

-- A parser that throws counts as one that cannot parse.
abbrev pub with_events : DiagnosisEntry → Outcome (List ValidationEvent) → DiagnosisEntry
with_events e (ok es) = record e { can_parse = true; events_produced = length es }
with_events e (io_exception t) = e
with_events e (exception t) = e

unfoldable pub diagnose : Text → Text → ParserInfo → Parser → DiagnosisEntry
diagnose content selected_format info p =
    let e : DiagnosisEntry = record {
      format_name = info.format_name;
      priority = info.priority;
      can_parse = false;
      events_produced = 0;
      is_selected = text_eq info.format_name selected_format;
    } in
    if p.can_parse content then with_events e (p.parse content) else e

abbrev pub add_entry :
    EmitFilter → DiagnosisEntry → Option (List DiagnosisEntry) → Option (List DiagnosisEntry)
add_entry filter e none = none
add_entry filter e (some es) = some (if includes filter e then e ∷ es else es)

abbrev pub add_diagnosed :
    EmitFilter
    → Text
    → Text
    → ParserInfo
    → Option Parser
    → Option (List DiagnosisEntry)
    → Option (List DiagnosisEntry)
add_diagnosed filter content selected_format info none rest = none
add_diagnosed filter content selected_format info (some p) rest =
    add_entry filter (diagnose content selected_format info p) rest

-- A name without a parser is skipped; a dangling pointer is a fault.
abbrev pub add_found :
    EmitFilter
    → Text
    → Text
    → Registry
    → ParserInfo
    → Option ℕ
    → Option (List DiagnosisEntry)
    → Option (List DiagnosisEntry)
add_found filter content selected_format r info none rest = rest
add_found filter content selected_format r info (some i) rest =
    add_diagnosed filter content selected_format info (deref r.parsers i) rest

unfoldable pub diagnose_all :
    EmitFilter → Text → Text → Registry → List ParserInfo → Option (List DiagnosisEntry)
diagnose_all filter content selected_format r [] = some []
diagnose_all filter content selected_format r (info ∷ infos) =
    add_found filter content selected_format r info (get_parser info.format_name r)
      (diagnose_all filter content selected_format r infos)

abbrev pub entry_priority : DiagnosisEntry → ℤ
entry_priority e = e.priority

abbrev pub sorted_entries :
    Registry → Option (List DiagnosisEntry) → Option (List DiagnosisEntry × Registry)
sorted_entries r none = none
sorted_entries r (some es) = some (stable_sort entry_priority es, r)

abbrev pub diagnose_selected :
    EmitFilter → Text → Option (Text × Registry) → Option (List DiagnosisEntry × Registry)
diagnose_selected filter content none = none
diagnose_selected filter content (some (selected_format, r)) =
    sorted_entries r (diagnose_all filter content selected_format r (get_all_formats r))

-- `RunDiagnosis`: the entries, and the registry, whose order the search for a parser may have sorted.
unfoldable pub run_diagnosis :
    Text → EmitFilter → Registry → Option (List DiagnosisEntry × Registry)
run_diagnosis content filter r =
    diagnose_selected filter content (name_found (find_parser content r))

abbrev pub asked_filter : List Text → Outcome EmitFilter
asked_filter [] = ok all
asked_filter (emit_str ∷ _) = parse_emit_filter emit_str

-- The content and the filter of a call for a text, and of one for a file.
unfoldable pub diagnose_parse_bind : List Text → Outcome (Text × EmitFilter)
diagnose_parse_bind [] = exception (codes "duck_hunt_diagnose_parse requires a content parameter")
diagnose_parse_bind (content ∷ more) = asked_filter more >>= λ filter. ok (content, filter)

unfoldable pub diagnose_read_bind : FileSystem → List Text → Outcome (Text × EmitFilter)
diagnose_read_bind fs [] =
    exception (codes "duck_hunt_diagnose_read requires a file path parameter")
diagnose_read_bind fs (path ∷ more) =
    asked_filter more >>= λ filter. read_content fs path >>= λ content. ok (content, filter)

-- `duck_hunt_detect_format`: the name of the format, `unknown` where there is none.
abbrev pub or_unknown_name : Option (Text × Registry) → Option (Text × Registry)
or_unknown_name none = none
or_unknown_name (some (name, r)) = some (if is_empty name then codes "unknown" else name, r)

unfoldable pub duck_hunt_detect_format : Text → Registry → Option (Text × Registry)
duck_hunt_detect_format content r =
    if is_empty content
    then some (codes "unknown", r)
    else or_unknown_name (name_found (find_parser content r))

-- A row of `duck_hunt_formats`; `none` is NULL.
pub record FormatRow : Type 0 where
  pub info : ParserInfo
  pub requires_extension : Option Text
  pub supports_workflow : Bool

abbrev pub category_supports_workflow : Text → Bool
category_supports_workflow category =
    text_eq category (codes "ci_system")
    || text_eq category (codes "workflow")
    || contains (codes "ci") category

abbrev pub format_row : ParserInfo → FormatRow
format_row fmt = record {
  info = fmt;
  requires_extension =
      if is_empty fmt.required_extension then none else some fmt.required_extension;
  supports_workflow = category_supports_workflow fmt.category;
}

abbrev pub auto_format : ParserInfo
auto_format = record {
  format_name = codes "auto";
  description = codes "Automatic format detection";
  category = codes "meta";
  required_extension = [];
  priority = pos 0;
  command_patterns = [];
  groups = [];
}

abbrev pub listed_formats : Registry → List ParserInfo
listed_formats r = auto_format ∷ get_all_formats r
