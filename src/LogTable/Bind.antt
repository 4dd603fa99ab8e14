-- ===== src/LogTable/Bind.antt =====
-- `ReadDuckHuntLogBind` and `ParseDuckHuntLogBind` of src/read_duck_hunt_log_function.cpp, and the bind
-- data of src/include/read_duck_hunt_log_function.hpp.
use duck_hunt.Prelude.{
  ℕ, min, leb, Bool, true, false, not, ◌&&◌, Option, none, some, List, [], ◌∷◌, ◌++◌, Text, codes,
  text_eq, lower, length, drop, if◌then◌else◌,
}
use duck_hunt.Prelude.Int.{ℤ, pos, negsuc}
use duck_hunt.Event.{SeverityLevel, string_to_severity_level}
use duck_hunt.Parser.{Outcome, ok, exception, ◌>>=◌}
use duck_hunt.Registry.{Registry}
use duck_hunt.Formats.{is_valid_format, format_validation_error}
use duck_hunt.Context.{ContentMode, full, nothing, limit, smart, is_positive, magnitude}
use duck_hunt.TestFormat.{TestResultFormat, unknown, auto}
use duck_hunt.TestFormat.Table.{string_to_test_result_format}
use duck_hunt.TestFormat.Canonical.{get_canonical_format_name}
use duck_hunt.Dispatch.{is_auto, is_regexp}

pub record BindData : Type 0 where
  pub source : Text
  pub format : TestResultFormat
  pub format_name : Text
  pub regexp_pattern : Text
  pub severity_threshold : SeverityLevel
  pub ignore_errors : Bool
  pub content_mode : ContentMode
  pub content_limit : ℕ
  pub context_lines : ℕ
  pub include_unparsed : Bool

abbrev pub bind_data : BindData
bind_data = record {
  source = [];
  format = auto;
  format_name = [];
  regexp_pattern = [];
  severity_threshold = SeverityLevel.debug;
  ignore_errors = false;
  content_mode = full;
  content_limit = 200;
  context_lines = 0;
  include_unparsed = false;
}

-- The value of the parameter `content`: a number, or a word.
pub data ContentParameter : Type 0 where
  number : ℤ → ContentParameter
  word : Text → ContentParameter

-- The arguments that are known when a call is bound; `none` in `inputs` is NULL.
pub record Arguments : Type 0 where
  pub inputs : List (Option Text)
  pub severity_threshold : Option Text
  pub ignore_errors : Option Bool
  pub content : Option ContentParameter
  pub context : Option ℤ
  pub include_unparsed : Option Bool

abbrev pub is_unknown : TestResultFormat → Bool
is_unknown unknown = true
is_unknown _ = false

abbrev pub is_canonical : TestResultFormat → Bool
is_canonical f = not (is_unknown f) && not (is_auto f) && not (is_regexp f)

-- The source and the format among the inputs; a single input that is a format's name is the format.
unfoldable pub bind_inputs : Registry → List (Option Text) → Text × Option Text
bind_inputs r [] = ([], none)
bind_inputs r (none ∷ []) = ([], none)
bind_inputs r (some val ∷ []) = if is_valid_format 2 r val then ([], some val) else (val, none)
bind_inputs r (none ∷ format ∷ _) = ([], format)
bind_inputs r (some source ∷ format ∷ _) = (source, format)

-- The fields for a format that is given.
unfoldable pub bind_format : Registry → Text → BindData → Outcome BindData
bind_format r format_str b =
    let format = string_to_test_result_format format_str in
    let name = if is_canonical format then get_canonical_format_name format else format_str in
    if is_unknown format && not (is_valid_format 2 r format_str)
    then exception (format_validation_error format_str r)
    else if is_regexp format
    then (if leb (length format_str) 7
        then exception (
            codes
              "regexp: format requires a pattern after the prefix, e.g., 'regexp:(?P<severity>ERROR|WARN):\\s+(?P<message>.*)'")
        else ok (record b {
          format = format;
          format_name = codes "regexp";
          regexp_pattern = drop 7 format_str;
        }))
    else ok (record b { format = format; format_name = name })

abbrev pub bind_format_option : Registry → Option Text → BindData → Outcome BindData
bind_format_option r none b = ok (record b { format = auto; format_name = codes "auto" })
bind_format_option r (some s) b = bind_format r s b

abbrev pub bind_threshold : Option Text → BindData → BindData
bind_threshold none b = b
bind_threshold (some s) b = record b { severity_threshold = string_to_severity_level s }

abbrev pub bind_ignore_errors : Option Bool → BindData → BindData
bind_ignore_errors none b = b
bind_ignore_errors (some i) b = record b { ignore_errors = i }

abbrev pub bind_include_unparsed : Option Bool → BindData → BindData
bind_include_unparsed none b = b
bind_include_unparsed (some i) b = record b { include_unparsed = i }

unfoldable pub bind_content : Option ContentParameter → BindData → Outcome BindData
bind_content none b = ok b
bind_content (some (number z)) b =
    if is_positive z
    then ok (record b { content_mode = limit; content_limit = magnitude z })
    else ok (record b { content_mode = nothing })
bind_content (some (word s)) b =
    let mode_str = lower s in
    if text_eq mode_str (codes "full")
    then ok (record b { content_mode = full })
    else if text_eq mode_str (codes "none")
    then ok (record b { content_mode = nothing })
    else if text_eq mode_str (codes "smart")
    then ok (record b { content_mode = smart })
    else exception (
        codes "Invalid content mode: '"
        ++ mode_str
        ++ codes "'. Use integer (char limit), 'full', 'none', or 'smart'.")

unfoldable pub bind_context : Option ℤ → BindData → Outcome BindData
bind_context none b = ok b
bind_context (some (pos n)) b = ok (record b { context_lines = min n 50 })
bind_context (some (negsuc n)) b = exception (codes "context must be a non-negative integer")

unfoldable pub bind : Registry → Arguments → Outcome BindData
bind r args =
    let (source, format) = bind_inputs r args.inputs in
    bind_format_option r format (record bind_data { source = source }) >>= λ b.
    bind_content args.content
      (bind_ignore_errors args.ignore_errors (bind_threshold args.severity_threshold b))
    >>= λ c. bind_context args.context c >>= λ d. ok (bind_include_unparsed args.include_unparsed d)

abbrev pub read_duck_hunt_log_bind : Registry → Arguments → Outcome BindData
read_duck_hunt_log_bind r args = bind r args

-- The same, line for line.
abbrev pub parse_duck_hunt_log_bind : Registry → Arguments → Outcome BindData
parse_duck_hunt_log_bind r args = bind r args
