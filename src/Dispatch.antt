-- ===== src/Dispatch.antt =====
-- From a text or a file and a format's name to events: `ParseContent`, `ParseContentAuto` and
-- `ParseFile` of src/core/parse_content.cpp, and `ProcessMultipleFiles` of src/core/file_utils.cpp.
-- The parser of configurations and the parser for a pattern of the user are arguments.
pub mod Total
pub mod FirstEntry
pub mod Many
use duck_hunt.Prelude.{
  ℕ, zero, suc, Bool, true, false, not, ◌&&◌, ◌||◌, Option, none, some, List, [], ◌∷◌, ◌++◌, map,
  Text, codes, is_empty, if◌then◌else◌,
}
use duck_hunt.Event.{ValidationEvent}
use duck_hunt.Parser.{Parser, Outcome, ok, io_exception, exception, ◌>>=◌, ContentFamily, text}
use duck_hunt.Registry.{Registry, Entry, deref, get_parser, is_group, get_parsers_by_group}
use duck_hunt.Formats.{
  split_format_list, is_config_file_path, extract_config_path, is_word, detect_format,
}
use duck_hunt.Extract.{maybe_extract_content}
use duck_hunt.Files.{FileSystem, read_content, peek_content, sniff_buffer_size}
use duck_hunt.TestFormat.{TestResultFormat, auto, regexp}

abbrev pub Events : Type 0
Events = List ValidationEvent

-- What a call comes to: `none` is a fault, the use of a dangling pointer.
abbrev pub Call : Type 0 → Type 0
Call A = Option (Outcome A)

pub record World : Type 0 where
  pub files : FileSystem
  pub from_json : Text → Outcome Parser
  pub parse_regexp : Text → Text → Bool → Outcome Events

-- Events of the one, or of the next where the one has none.
abbrev pub or_next : Call Events → Call Events → Call Events
or_next (some (ok [])) next = next
or_next first next = first

unfoldable pub first_events : (Text → Call Events) → List Text → Call Events
first_events call [] = some (ok [])
first_events call (f ∷ fs) = or_next (call f) (first_events call fs)

unfoldable pub run_parser : Parser → Text → Outcome Events
run_parser p content =
    let effective = maybe_extract_content content p.content_family in
    if p.requires_context then p.parse_with_context effective else p.parse effective

unfoldable pub run_group : List Entry → Text → Call Events
run_group [] content = some (ok [])
run_group (e ∷ es) content =
    let rest = run_group es content in
    if e.parser.can_parse content then or_next (some (run_parser e.parser content)) rest else rest

-- `catch (const std::exception &) { return events; }`.
abbrev pub or_no_events : Outcome Events → Outcome Events
or_no_events (ok es) = ok es
or_no_events (io_exception e) = ok []
or_no_events (exception e) = ok []

abbrev pub deref_or_fault : Option Parser → (Parser → Outcome Events) → Call Events
deref_or_fault none use_parser = none
deref_or_fault (some p) use_parser = some (use_parser p)

abbrev pub with_parser : Registry → Option ℕ → (Parser → Outcome Events) → Call Events
with_parser r none use_parser = some (ok [])
with_parser r (some i) use_parser = deref_or_fault (deref r.parsers i) use_parser

-- No name for a format.
abbrev pub is_no_format : Text → Bool
is_no_format name = is_empty name || is_word (codes "unknown") name || is_word (codes "auto") name

module _ (w : World) where
  open w use {files, from_json}

  abbrev pub parse_configured : Text → Text → Outcome Events
  parse_configured config content = or_no_events (from_json config >>= λ p. p.parse content)

  unfoldable pub parse_with_config : Text → Text → Outcome Events
  parse_with_config name content = read_content files (extract_config_path name) >>= λ config.
      if is_empty config then ok [] else parse_configured config content

  -- A name that is no list.
  unfoldable pub parse_content_single : Registry → Text → Text → Call Events
  parse_content_single r content name =
      if is_config_file_path name
      then some (parse_with_config name content)
      else if is_group name r
      then run_group (get_parsers_by_group name r) content
      else with_parser r (get_parser name r) (λ p. run_parser p content)

  -- `ParseContent` with fuel for its calls of itself.
  unfoldable pub parse_content : ℕ → Registry → Text → Text → Call Events
  parse_content zero r content name = none
  parse_content (suc f) r content name =
      let formats = split_format_list name in
      let each = first_events (parse_content f r content) formats in
      if is_no_format name
      then some (ok [])
      else if not (is_empty formats)
      then each
      else parse_content_single r content name

  abbrev pub parse_detected : Text → Option (Text × Registry) → Option (Outcome Events × Registry)
  parse_detected content none = none
  parse_detected content (some (name, r)) =
      if is_empty name
      then some (ok [], r)
      else elim (parse_content 2 r content name) [ none ↦ none | some o ↦ some (o, r) ]

  pub parse_content_auto : Registry → Text → Option (Outcome Events × Registry)
  parse_content_auto r content = parse_detected content (detect_format content r)

  abbrev pub is_text : ContentFamily → Bool
  is_text text = true
  is_text _ = false

  abbrev pub parse_unless_empty : Parser → Text → Outcome Events
  parse_unless_empty p content = if is_empty content then ok [] else run_parser p content

  -- A parser that reads files itself is given the path, unless a section is to be extracted.
  unfoldable pub run_parser_on_file : Text → Parser → Outcome Events
  run_parser_on_file path p =
      if p.supports_file_parsing && is_text p.content_family
      then p.parse_file path
      else (read_content files path >>= λ content. parse_unless_empty p content)

  unfoldable pub parse_file_with_config : Text → Text → Outcome Events
  parse_file_with_config name path = read_content files (extract_config_path name) >>= λ config.
      if is_empty config
      then ok []
      else (read_content files path >>= λ content.
          if is_empty content then ok [] else parse_configured config content)

  unfoldable pub parse_file_single : Registry → Text → Text → Call Events
  parse_file_single r path name =
      if is_config_file_path name
      then some (parse_file_with_config name path)
      else with_parser r (get_parser name r) (λ p. run_parser_on_file path p)

  -- `ParseFile` with fuel for its calls of itself.
  unfoldable pub parse_file : ℕ → Registry → Text → Text → Call Events
  parse_file zero r path name = none
  parse_file (suc f) r path name =
      let formats = split_format_list name in
      let each = first_events (parse_file f r path) formats in
      if is_no_format name
      then some (ok [])
      else if not (is_empty formats)
      then each
      else parse_file_single r path name

abbrev pub is_auto : TestResultFormat → Bool
is_auto auto = true
is_auto _ = false

abbrev pub is_regexp : TestResultFormat → Bool
is_regexp regexp = true
is_regexp _ = false
