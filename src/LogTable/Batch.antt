-- ===== src/LogTable/Batch.antt =====
-- `ParseDuckHuntLogInOutFunction` of src/read_duck_hunt_log_function.cpp: the operator that is called
-- again and again for one row of its input, and hands out a chunk of rows with each call.
use duck_hunt.Prelude.{
  ◌&&◌, ◌||◌, ℕ, ◌+◌, ◌-◌, min, leb, ltb, Bool, true, false, not, Option, none, some, List, [], ◌∷◌,
  Text, codes, length, drop, is_empty, keep_if, assign, if◌then◌else◌,
}
use duck_hunt.Event.{ValidationEvent, SeverityLevel, should_emit_event}
use duck_hunt.Lines.{lf, split_lines}
use duck_hunt.Patterns.{Library, process_error_patterns}
use duck_hunt.TestFormat.{TestResultFormat}
use duck_hunt.TestFormat.Table.{string_to_test_result_format}
use duck_hunt.TestFormat.Canonical.{get_canonical_format_name}
use duck_hunt.Dispatch.{World, Events, is_auto, is_regexp, is_no_format, parse_content}
use duck_hunt.LogTable.Rows.{Row, LogLines, row_of, populate}
use duck_hunt.LogTable.Bind.{BindData, is_unknown}
use duck_hunt.LogTable.Run.{Run, ◌>>=◌, return, lift, lift_call, detect}

pub data OperatorResult : Type 0 where
  need_more_input have_more_output : OperatorResult

-- The state of the operator between calls.
pub record Batch : Type 0 where
  pub initialized : Bool
  pub output_offset : ℕ
  pub events : Events
  pub log_lines : LogLines

abbrev pub no_batch : Batch
no_batch = record { initialized = false; output_offset = 0; events = []; log_lines = [] }

-- The columns of the input's row, `none` for NULL; a chunk without rows or columns has none.
abbrev pub Input : Type 0
Input = List (Option Text)

-- What a call hands out, and the state after it.
abbrev pub Emitted : Type 0 → Type 0
Emitted S = OperatorResult × List Row × S

-- `STANDARD_VECTOR_SIZE`.
abbrev pub standard_vector_size : ℕ
standard_vector_size = 2048

-- The format of a row.
pub record Chosen : Type 0 where
  pub format : TestResultFormat
  pub format_name : Text
  pub regexp_pattern : Text

abbrev pub choose_named : Text → TestResultFormat → Chosen → Chosen
choose_named format_str format c =
    if is_regexp format && not (leb (length format_str) 7)
    then record {
      format = format;
      format_name = codes "regexp";
      regexp_pattern = drop 7 format_str;
    }
    else if not (is_unknown format) && not (is_auto format)
    then record c { format = format; format_name = get_canonical_format_name format }
    else record c { format = format; format_name = format_str }

-- The format of the second column, where it has one, in place of the bound one.
unfoldable pub choose : Input → Chosen → Chosen
choose [] c = c
choose (none ∷ _) c = c
choose (some format_str ∷ _) c = choose_named format_str (string_to_test_result_format format_str) c

abbrev pub or_pattern : Text → Text → Text
or_pattern pattern other = if is_empty pattern then other else pattern

unfoldable pub resolve_format : Chosen → Text → Run Text
resolve_format c content = if is_auto c.format then detect content else return c.format_name

abbrev pub is_debug : SeverityLevel → Bool
is_debug SeverityLevel.debug = true
is_debug _ = false

-- Whether the threshold lets an event through.
abbrev pub passes : SeverityLevel → ValidationEvent → Bool
passes threshold e = is_debug threshold || should_emit_event e.severity threshold

abbrev pub filter_events : SeverityLevel → Events → Events
filter_events threshold es =
    if is_debug threshold
    then es
    else keep_if (λ (e : ValidationEvent). should_emit_event e.severity threshold) es

module _ (w : World) (lib : Library) (b : BindData) where
  unfoldable pub post_process : Events → Events
  post_process es = filter_events b.severity_threshold (process_error_patterns lib es)

  unfoldable pub cache_lines : Text → Text → LogLines → LogLines
  cache_lines path content m =
      if ltb 0 b.context_lines then assign path (split_lines lf content) m else m

  -- The events by a user's pattern, by the name of a format, or those that were there.
  unfoldable pub parse_as :
      Events → (Text → Run Events) → TestResultFormat → Text → Text → Text → Run Events
  parse_as kept by_name format pattern content name =
      if is_regexp format
      then lift (w.parse_regexp content pattern b.include_unparsed)
      else if is_no_format name
      then return kept
      else by_name name

  abbrev pub row : LogLines → ValidationEvent → Row
  row lines = row_of b.content_mode b.content_limit b.context_lines lines

  unfoldable pub output_size : Batch → ℕ
  output_size s = min (length s.events - s.output_offset) standard_vector_size

  -- The end of a call: a chunk of the events, or no row and a state for the next input.
  unfoldable pub emit : Batch → Emitted Batch
  emit s =
      let rows = populate (row s.log_lines) s.events s.output_offset (output_size s) in
      if is_empty rows
      then (need_more_input, [], no_batch)
      else (have_more_output, rows, record s { output_offset = s.output_offset + output_size s })

  abbrev pub parse_named : Text → Text → Run Events
  parse_named content name r = lift_call (parse_content w 2 r content name) r

  -- The format that was bound; a pattern is taken from the row first.
  abbrev pub bound_format : Chosen
  bound_format = record { format = b.format; format_name = b.format_name; regexp_pattern = [] }

  unfoldable pub parse_input : Chosen → Text → Events → Run Events
  parse_input c content kept = resolve_format c content >>= λ name.
      parse_as kept (parse_named content) c.format (or_pattern c.regexp_pattern b.regexp_pattern)
        content name

  abbrev pub filled_batch : Text → Batch → Events → Batch
  filled_batch content s es = record {
    initialized = true;
    output_offset = 0;
    events = post_process es;
    log_lines = cache_lines [] content s.log_lines;
  }

  unfoldable pub parse_row : Input → Batch → Run (Emitted Batch)
  parse_row [] s = return (need_more_input, [], s)
  parse_row (none ∷ _) s = return (need_more_input, [], record s { initialized = false })
  parse_row (some content ∷ columns) s =
      parse_input (choose columns bound_format) content s.events >>= λ es.
      return (emit (filled_batch content s es))

  unfoldable pub parse_in_out : Input → Batch → Run (Emitted Batch)
  parse_in_out input s = if s.initialized then return (emit s) else parse_row input s
