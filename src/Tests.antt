-- ===== src/Tests.antt =====
-- The theorems at concrete inputs.
mod Texts
mod Logs
mod Tables
mod Workflows
use mathlib.Core.List.{Perm}
use duck_hunt.Prelude.{
  ℕ, zero, suc, ◌+◌, ◌*◌, ◌/◌, ◌^◌, ◌≤◌, ◌<◌, ◌≡◌, refl, ◌⊎◌, Bool, true, false, not, ◌&&◌, ◌||◌,
  Option, none, some, List, [], ◌∷◌, ◌++◌, map, reverse, Text, codes, text_eq, is_empty, any_of,
  length, get_elem?, All, arith, if◌then◌else◌, lookup, assign, ◌↔◌, leb,
}
use duck_hunt.Prelude.Int.{ℤ, pos}
use duck_hunt.Event.{
  ValidationEvent, ValidationEventStatus, ValidationEventType, SeverityLevel, new_event,
  severity_level_to_int, severity_level_to_string, should_emit_event,
  validation_event_status_to_string, validation_event_type_to_string,
  string_to_validation_event_status, string_to_validation_event_type, string_to_severity_level,
  severity_string_to_level,
}
use duck_hunt.Event.Names.{
  string_to_validation_event_status-to_string, string_to_validation_event_type-to_string,
  string_to_severity_level-to_string, severity_string_to_level-eq,
}
use duck_hunt.Event.Threshold.{should_emit_event_antitone, should_emit_event-to_string}
use duck_hunt.Parser.{Parser, CommandPattern, Outcome, ContentFamily, literal, answers_to, has_name}
use duck_hunt.Registry.{
  Registry, Entry, empty_registry, register_parser, mark_initialization_complete, get_parser,
  has_format, is_built_in, unregister_parser, drop_parser, find_parser, get_parsers_by_group,
  is_group, load_parser_config, unload_parser, deref, assign_all, erase_all,
}
use duck_hunt.Registry.Valid.{IsValid, register_parser-IsValid, empty-IsValid}
use duck_hunt.Registry.Keys.{get_parser-register_parser}
use duck_hunt.Registry.Remove.{
  unregister_parser-IsValid, load_parser_config-IsValid, unload_parser_hides_built_in,
  unregister_parser_dangles, OwnNamesFind,
}
use duck_hunt.Registry.Detect.{find_parser-Selected, Selected, get_parsers_by_group_lem, priority}
use duck_hunt.Registry.Sort.{IsDescending}
use duck_hunt.Registry.Command.{
  Regex, normalize_command, find_parser_by_command, Commanded, find_parser_by_command-Commanded,
}

abbrev parser_named : Text → List Text → List Text → ℕ → Parser
parser_named name aliases groups priority = record {
  format_name = name;
  name = name;
  priority = pos priority;
  category = codes "test_framework";
  description = [];
  aliases = aliases;
  required_extension = [];
  command_patterns = literal name ∷ [];
  groups = groups;
  content_family = ContentFamily.text;
  requires_context = false;
  supports_file_parsing = false;
  can_parse = λ s. not (is_empty s);
  parse = λ s. Outcome.ok [];
  parse_with_context = λ s. Outcome.ok [];
  parse_file = λ s. Outcome.ok [];
  supports_streaming = false;
  parse_line = λ line number event_id. Outcome.ok ([], event_id);
}

abbrev pytest : Parser
pytest = parser_named (codes "pytest_text") (codes "pytest" ∷ []) (codes "python" ∷ []) 80

abbrev eslint : Parser
eslint = parser_named (codes "eslint") [] (codes "javascript" ∷ []) 90

-- A custom parser with a built-in name among its aliases.
abbrev custom : Parser
custom = parser_named (codes "custom") (codes "pytest" ∷ []) [] 10

abbrev one_parser : Registry
one_parser = register_parser (some pytest) empty_registry

abbrev built_in : Registry
built_in = mark_initialization_complete one_parser

one_parser-IsValid : IsValid one_parser
one_parser-IsValid = register_parser-IsValid pytest empty_registry empty-IsValid tt

built_in-IsValid : IsValid built_in
built_in-IsValid = record {
  own_ids = one_parser-IsValid.own_ids;
  old_ids = one_parser-IsValid.old_ids;
  names_find = one_parser-IsValid.names_find;
  distinct = one_parser-IsValid.distinct;
  sorted = one_parser-IsValid.sorted;
}

eslint_is_new :
    All (λ (e : Entry). text_eq e.parser.format_name (codes "eslint") ≡ false) one_parser.parsers
unfolding register_parser text_eq
eslint_is_new = (refl, tt)

register_parser-IsValid_example : IsValid (register_parser (some eslint) one_parser)
register_parser-IsValid_example =
    register_parser-IsValid eslint one_parser one_parser-IsValid eslint_is_new

unregister_parser-IsValid_example :
    (r' : Registry) × (unregister_parser (codes "pytest") one_parser
      ≡ some (
        has_format (codes "pytest") one_parser && not (is_built_in (codes "pytest") one_parser),
        r',
      ))
    × IsValid r'
unregister_parser-IsValid_example =
    unregister_parser-IsValid (codes "pytest") one_parser one_parser-IsValid

find_parser-Selected_example :
    (found : Option ℕ) × (r' : Registry) × (find_parser (codes "FAILED test_a") one_parser
      ≡ some (found, r'))
    × Selected (codes "FAILED test_a") one_parser found
    × IsValid r'
find_parser-Selected_example =
    find_parser-Selected (codes "FAILED test_a") one_parser one_parser-IsValid

-- Regular expressions that are plain texts.
abbrev plain_regex : Regex
plain_regex = record {
  Compiled = Text;
  compile = λ t. some t;
  regex_match = λ t s. text_eq t s;
  regex_search = λ t s. text_eq t s;
}

find_parser_by_command-Commanded_example :
    (found : Option ℕ) × (r' : Registry) × (find_parser_by_command plain_regex
        (codes "/usr/bin/pytest_text")
        one_parser
      ≡ some (found, r'))
    × Commanded plain_regex (normalize_command (codes "/usr/bin/pytest_text")) one_parser found
    × IsValid r'
find_parser_by_command-Commanded_example =
    find_parser_by_command-Commanded plain_regex (codes "/usr/bin/pytest_text") one_parser
      one_parser-IsValid

own_names_find : OwnNamesFind one_parser
unfolding register_parser get_parser assign_all lookup assign text_eq
own_names_find = (refl, tt)

custom_is_not_built_in : is_built_in (codes "custom") one_parser ≡ false
unfolding register_parser is_built_in text_eq
custom_is_not_built_in = refl

custom_answers : answers_to custom (codes "pytest") ≡ true
unfolding text_eq
custom_answers = refl

load_parser_config-IsValid_example :
    (r' : Registry) × (load_parser_config custom one_parser ≡ some (some r'))
    × IsValid r'
    × (get_parser (codes "pytest") r' ≡ some one_parser.next_id)
load_parser_config-IsValid_example =
    load_parser_config-IsValid custom (codes "pytest") one_parser one_parser-IsValid own_names_find
      custom_is_not_built_in custom_answers

custom_is_unknown : has_format (codes "custom") built_in ≡ false
unfolding register_parser has_format assign_all lookup assign text_eq
custom_is_unknown = refl

custom_is_not_in_built_in : is_built_in (codes "custom") built_in ≡ false
unfolding register_parser is_built_in text_eq
custom_is_not_in_built_in = refl

pytest_is_built_in : is_built_in (codes "pytest") built_in ≡ true
unfolding register_parser is_built_in text_eq
pytest_is_built_in = refl

is_complete : built_in.initialization_complete ≡ true
is_complete = refl

unload_parser_hides_built_in_example :
    (r₁ : Registry) × (r₂ : Registry) × (load_parser_config custom built_in ≡ some (some r₁))
    × (unload_parser (codes "custom") r₁ ≡ some (some (true, r₂)))
    × (is_built_in (codes "pytest") r₂ ≡ true)
    × (get_parser (codes "pytest") r₂ ≡ none)
unload_parser_hides_built_in_example =
    unload_parser_hides_built_in custom (codes "pytest") built_in built_in-IsValid is_complete
      custom_is_unknown custom_is_not_in_built_in custom_answers pytest_is_built_in

-- Two custom parsers of one name.
abbrev first_twin : Parser
first_twin = parser_named (codes "twin") (codes "a" ∷ []) [] 10

abbrev second_twin : Parser
second_twin = parser_named (codes "twin") (codes "b" ∷ []) [] 10

abbrev twins : Registry
twins =
    register_parser (some second_twin)
      (register_parser (some first_twin) (mark_initialization_complete empty_registry))

abbrev first_entry : Entry
first_entry = record { id = 0; parser = first_twin }

twin_found : get_parser (codes "twin") twins ≡ some 1
unfolding register_parser get_parser assign_all lookup assign text_eq
twin_found = refl

twin_is_custom : is_built_in (codes "twin") twins ≡ false
unfolding register_parser is_built_in text_eq
twin_is_custom = refl

second_behind : deref twins.parsers 1 ≡ some second_twin
unfolding register_parser deref
second_behind = refl

twins_own_ids : All (λ (e : Entry). deref twins.parsers e.id ≡ some e.parser) twins.parsers
unfolding register_parser deref
twins_own_ids = (refl, (refl, tt))

first_behind : deref twins.parsers first_entry.id ≡ some first_entry.parser
unfolding register_parser deref
first_behind = refl

first_alias_found : get_parser (codes "a") twins ≡ some first_entry.id
unfolding register_parser get_parser assign_all lookup assign text_eq
first_alias_found = refl

first_alias_foreign : answers_to second_twin (codes "a") ≡ false
unfolding text_eq
first_alias_foreign = refl

unregister_parser_dangles_example :
    (r' : Registry) × (unregister_parser (codes "twin") twins ≡ some (true, r'))
    × (get_parser (codes "a") r' ≡ some first_entry.id)
    × (deref r'.parsers first_entry.id ≡ none)
unregister_parser_dangles_example =
    unregister_parser_dangles (codes "twin") (codes "a") 1 second_twin first_entry twins twin_found
      twin_is_custom second_behind twins_own_ids first_behind refl first_alias_found
      first_alias_foreign

get_parser-register_parser_example :
    get_parser (codes "pytest") (register_parser (some pytest) empty_registry) ≡ (
      if answers_to pytest (codes "pytest")
      then some empty_registry.next_id
      else get_parser (codes "pytest") empty_registry)
get_parser-register_parser_example =
    get_parser-register_parser (codes "pytest") pytest empty_registry

get_parsers_by_group_lem_example :
    ((rest : List Entry) × Perm
        (get_parsers_by_group (codes "python") one_parser ++ rest)
        one_parser.parsers
      × All (λ e. has_name (codes "python") e.parser.groups ≡ false) rest)
    × All
        (λ (e : Entry). has_name (codes "python") e.parser.groups ≡ true)
        (get_parsers_by_group (codes "python") one_parser)
    × IsDescending priority (get_parsers_by_group (codes "python") one_parser)
    × (is_group (codes "python") one_parser
        ≡ not (is_empty (get_parsers_by_group (codes "python") one_parser)))
get_parsers_by_group_lem_example = get_parsers_by_group_lem (codes "python") one_parser

error_passes : should_emit_event (codes "error") SeverityLevel.error ≡ true
unfolding should_emit_event severity_string_to_level string_to_severity_level text_eq
error_passes = refl

levels_ordered :
    severity_level_to_int SeverityLevel.info ≤ severity_level_to_int SeverityLevel.error
levels_ordered = omega arith
