-- ===== src/Tests/Tables.antt =====
-- The theorems on files, formats and the table functions at concrete inputs.
use duck_hunt.Prelude.{
  suc, ◌≤◌, ◌≡◌, refl, true, false, none, some, List, [], ◌∷◌, ◌++◌, map, Text, codes, text_eq,
  is_empty, length, lookup, starts_with, trim, drop_while, drop_end, contains, arith, if◌then◌else◌,
}
use duck_hunt.Prelude.Int.{pos}
use duck_hunt.Event.{ValidationEvent, new_event, ValidationEventType, ValidationEventStatus}
use duck_hunt.Parser.{Parser, ok, exception}
use duck_hunt.Registry.{Registry, empty_registry, register_parser, get_parser, deref}
use duck_hunt.Registry.Valid.{IsValid}
use duck_hunt.LineReader.{line_reader}
use duck_hunt.LineReader.Next.{Holds}
use duck_hunt.Formats.{split_format_list}
use duck_hunt.Lines.{split_lines}
use duck_hunt.Files.{
  OpenFile, FileSystem, read_content, validate_path, max_file_size_bytes, to_decimal,
}
use duck_hunt.Files.Content.{read_content-chunked, length-read_content}
use duck_hunt.TestFormat.{unknown, auto, regexp, pytest_text}
use duck_hunt.TestFormat.Table.{string_to_test_result_format}
use duck_hunt.TestFormat.Canonical.{get_canonical_format_name}
use duck_hunt.TestFormat.RoundTrip.{
  is_dynamic, string_to_test_result_format-get_canonical_format_name,
}
use duck_hunt.Dispatch.{World, Events, parse_content, parse_file}
use duck_hunt.Dispatch.Total.{Returns, parse_content-Returns}
use duck_hunt.Dispatch.FirstEntry.{FirstOf, parse_content_list}
use duck_hunt.Dispatch.Many.{process_multiple_files, process_multiple_files-From, From}
use duck_hunt.Context.{full, limit}
use duck_hunt.LogTable.Schema.{return_types, column_names}
use duck_hunt.LogTable.Rows.{Row, Fits, row_of}
use duck_hunt.LogTable.Typed.{row_of-Fits}
use duck_hunt.LogTable.Bind.{
  BindData, bind_data, Arguments, number, bind, bind_inputs, bind_format, bind_content,
  bind_context,
}
use duck_hunt.LogTable.BindSound.{Bound, bind-Bound}
use duck_hunt.LogTable.Batch.{
  no_batch, choose, bound_format, parse_input, parse_as, resolve_format, post_process, cache_lines,
  row, passes,
}
use duck_hunt.LogTable.Pull.{pull}
use duck_hunt.LogTable.Drain.{call, pull-parse_input}
use duck_hunt.LogTable.Stream.{
  no_read, bound_chosen, sniff_format, find_streaming, can_stream, contains_glob_characters,
  stream_chunk,
}
use duck_hunt.LogTable.Streamed.{OnePerLine, reading}
use duck_hunt.LogTable.StreamSound.{Chunked, stream_chunk-Chunked}
use duck_hunt.LogTable.StreamRows.{Finished, read_call, rows_of_lines}
use duck_hunt.LogTable.StreamStart.{pull-streamed}
use duck_hunt.LogTable.Init.{Scan, parse_init_global}
use duck_hunt.LogTable.InitSound.{scan_all, scan_all-pull}
use duck_hunt.Lines.Positions.{parse_file_line_column, colon}
use duck_hunt.Lines.PositionRead.{parse_file_line_column-to_decimal}
use duck_hunt.Tests.{pytest, one_parser, one_parser-IsValid}
use duck_hunt.Tests.Texts.{plain_library}

-- A file of two lines, read one byte and then two bytes at a time.
abbrev log_file : OpenFile
log_file = record {
  handle = record { rest = codes "ok\nno\n"; sizes = 1 ∷ 2 ∷ [] };
  can_get_size = false;
  file_size = 0;
}

abbrev pub one_file : FileSystem
one_file = record {
  open_file = λ path. ok log_file;
  file_exists = λ path. true;
  has_glob = λ pattern. some false;
  glob_files = λ pattern. none;
  join_path = λ a b. a ++ b;
}

abbrev log_path : Text
log_path = codes "a.log"

abbrev event : ValidationEvent
event = new_event ValidationEventType.build_error ValidationEventStatus.error

abbrev two_events : Events
two_events = event ∷ event ∷ []

abbrev world : World
world = record {
  files = one_file;
  from_json = λ config. exception [];
  parse_regexp = λ content pattern include_unparsed. ok two_events;
}

log_path_is_valid : validate_path log_path ≡ true
unfolding validate_path contains starts_with
log_path_is_valid = refl

read_content-chunked_example : read_content one_file log_path ≡ ok (codes "ok\nno\n")
read_content-chunked_example =
    read_content-chunked one_file log_path log_file log_path_is_valid refl refl (omega arith)

length-read_content_example : length (codes "ok\nno\n") ≤ max_file_size_bytes
length-read_content_example =
    length-read_content one_file log_path (codes "ok\nno\n")
      (read_content-chunked one_file log_path log_file log_path_is_valid refl refl (omega arith))

string_to_test_result_format-get_canonical_format_name_example :
    string_to_test_result_format (get_canonical_format_name pytest_text)
    ≡ (if is_dynamic pytest_text then unknown else pytest_text)
string_to_test_result_format-get_canonical_format_name_example =
    string_to_test_result_format-get_canonical_format_name pytest_text

parse_content-Returns_example :
    Returns (parse_content world 2 one_parser (codes "FAILED") (codes "pytest"))
    × Returns (parse_file world 2 one_parser (codes "FAILED") (codes "pytest"))
parse_content-Returns_example =
    parse_content-Returns world one_parser (codes "FAILED") (codes "pytest") 0 one_parser-IsValid

abbrev two_names : Text
two_names = codes "pytest,eslint"

two_names_are_listed : is_empty (split_format_list two_names) ≡ false
unfolding split_format_list split_lines trim drop_while drop_end
two_names_are_listed = refl

parse_content_list_example :
    FirstOf
      (parse_content world 2 one_parser (codes "E"))
      (split_format_list two_names)
      (parse_content world 2 one_parser (codes "E") two_names)
    × FirstOf
        (parse_file world 2 one_parser (codes "E"))
        (split_format_list two_names)
        (parse_file world 2 one_parser (codes "E") two_names)
parse_content_list_example =
    parse_content_list world one_parser (codes "E") two_names two_names_are_listed

process_multiple_files-From_example :
    (es : Events) × (r' : Registry) × (process_multiple_files world auto [] true
        (log_path ∷ [])
        []
        one_parser
      ≡ some (ok ([] ++ es), r'))
    × From (log_path ∷ []) es
    × IsValid r'
process_multiple_files-From_example =
    process_multiple_files-From world auto [] (log_path ∷ []) [] one_parser one_parser-IsValid

row_of-Fits_example :
    Fits (return_types 1) (row_of full 200 1 [] event)
    × (length (column_names 1) ≡ length (return_types 1))
row_of-Fits_example = row_of-Fits full 200 1 [] event

-- A call with a format, a limit and lines of context.
abbrev arguments : Arguments
arguments = record {
  inputs = some log_path ∷ some (codes "regexp:E") ∷ [];
  severity_threshold = none;
  ignore_errors = none;
  content = some (number (pos 80));
  context = some (pos 60);
  include_unparsed = some true;
}

abbrev bound : BindData
bound = record bind_data {
  source = log_path;
  format = regexp;
  format_name = codes "regexp";
  regexp_pattern = codes "E";
  content_mode = limit;
  content_limit = 80;
  context_lines = 50;
  include_unparsed = true;
}

arguments-bind : bind one_parser arguments ≡ ok bound
unfolding bind bind_inputs bind_format bind_content bind_context string_to_test_result_format
    starts_with
arguments-bind = refl

bind-Bound_example : Bound one_parser bound
bind-Bound_example = bind-Bound one_parser arguments bound arguments-bind

bound_parses :
    parse_input world plain_library bound
      (choose [] (bound_format world plain_library bound))
      (codes "E")
      []
      one_parser
    ≡ some (ok two_events, one_parser)
unfolding parse_input parse_as resolve_format choose
bound_parses = refl

source_parses :
    parse_input world plain_library bound
      (choose [] (bound_format world plain_library bound))
      log_path
      []
      one_parser
    ≡ some (ok two_events, one_parser)
unfolding parse_input parse_as resolve_format choose
source_parses = refl

pull-parse_input_example :
    pull
      (call world plain_library bound (some (codes "E") ∷ []))
      (suc (length (post_process world plain_library bound two_events)))
      no_batch
      one_parser
    ≡ some (
      ok (
        map
            (row world plain_library bound
              (cache_lines world plain_library bound [] (codes "E") []))
            (post_process world plain_library bound two_events),
        no_batch,
      ),
      one_parser,
    )
pull-parse_input_example =
    pull-parse_input world plain_library bound
      (suc (length (post_process world plain_library bound two_events))) (codes "E") [] two_events
      one_parser one_parser bound_parses (omega arith)

scan_all-pull_example :
    (s : Scan) × (rows : List Row) × (parse_init_global world plain_library bound one_parser
      ≡ some (ok s, one_parser))
    × (scan_all world plain_library bound
          (suc (length (post_process world plain_library bound two_events)))
          s
        ≡ some rows)
    × (pull
          (call world plain_library bound (some log_path ∷ []))
          (suc (length (post_process world plain_library bound two_events)))
          no_batch
          one_parser
        ≡ some (ok (rows, no_batch), one_parser))
scan_all-pull_example =
    scan_all-pull world plain_library bound
      (suc (length (post_process world plain_library bound two_events))) two_events one_parser
      one_parser source_parses (omega arith)

-- A parser that gives an event for each line.
abbrev streamer : Parser
streamer = record pytest {
  supports_streaming = true;
  parse_line = λ line number event_id. ok (event ∷ [], event_id);
}

abbrev streaming : Registry
streaming = register_parser (some streamer) empty_registry

streamer-OnePerLine : OnePerLine streamer
streamer-OnePerLine line n id = (event ∷ [], id, refl, omega arith)

abbrev by_name : BindData
by_name = record bind_data { format = pytest_text; format_name = codes "pytest_text" }

streamer_is_found :
    find_streaming world plain_library by_name
      (choose [] (bound_chosen world plain_library by_name))
      (codes "pytest_text")
      streaming
    ≡ some (ok (some streamer), streaming)
unfolding find_streaming choose get_parser deref register_parser lookup text_eq
streamer_is_found = refl

name_is_sniffed :
    sniff_format world plain_library by_name
      (choose [] (bound_chosen world plain_library by_name))
      log_path
      streaming
    ≡ some (ok (some (codes "pytest_text")), streaming)
unfolding sniff_format choose
name_is_sniffed = refl

is_no_glob : contains_glob_characters log_path ≡ false
unfolding contains_glob_characters
is_no_glob = refl

can_be_streamed :
    can_stream world plain_library by_name
      (choose [] (bound_chosen world plain_library by_name))
      (some streamer)
    ≡ true
unfolding choose
can_be_streamed = refl

pull-streamed_example :
    Finished world plain_library by_name
      (rows_of_lines world plain_library by_name log_path streamer (codes "ok\nno\n") 0 (pos 0))
      streaming
      (pull (read_call world plain_library by_name (some log_path ∷ [])) 7 no_read streaming)
pull-streamed_example =
    pull-streamed world plain_library by_name 7 log_path (codes "pytest_text") [] streamer log_file
      streaming streaming streaming is_no_glob name_is_sniffed streamer_is_found can_be_streamed
      refl streamer-OnePerLine (omega arith)

log_file-Holds : Holds (line_reader log_file.handle) (codes "ok\nno\n")
log_file-Holds = record { content = refl; at_end = λ e. absurd (ground (arith, e)) }

stream_chunk-Chunked_example :
    Chunked (passes by_name.severity_threshold) log_path streamer [] (codes "ok\nno\n") 0 (pos 0) (
      stream_chunk (passes by_name.severity_threshold) log_path 7 [] (
        reading
          (passes by_name.severity_threshold)
          log_path
          streamer
          (line_reader log_file.handle)
          (pos 0)))
stream_chunk-Chunked_example =
    stream_chunk-Chunked (passes by_name.severity_threshold) log_path streamer 7 []
      (line_reader log_file.handle) (codes "ok\nno\n") (pos 0) streamer-OnePerLine log_file-Holds
      (omega arith) (omega arith)

parse_file_line_column-to_decimal_example :
    parse_file_line_column (
      codes "a.c" ++ colon ∷ (to_decimal 42 ++ colon ∷ (to_decimal 7 ++ colon ∷ codes " error: x")))
    ≡ record { found = true; file = codes "a.c"; line_num = pos 42; column = pos 7 }
parse_file_line_column-to_decimal_example =
    parse_file_line_column-to_decimal (codes "a.c") 42 7 (codes " error: x") refl refl refl
      (omega arith) (omega arith) (omega arith)
