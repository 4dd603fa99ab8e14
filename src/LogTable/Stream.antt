-- ===== src/LogTable/Stream.antt =====
-- `ReadDuckHuntLogInOutFunction` of src/read_duck_hunt_log_function.cpp: the operator for a file or a
-- glob pattern. A file is parsed as a whole, or line by line while chunks are asked for. The reader,
-- the parser and the event id, which are set and reset together, stand for `streaming_mode`.
use duck_hunt.Prelude.{
  ℕ, zero, suc, ◌==◌, leb, Bool, true, false, not, ◌&&◌, ◌||◌, Option, none, some, List, [], ◌∷◌,
  ◌++◌, map, Text, length, is_empty, any_of, if◌then◌else◌,
}
use duck_hunt.Prelude.Int.{ℤ, pos}
use duck_hunt.Event.{ValidationEvent}
use duck_hunt.Parser.{Parser, Outcome, ok, io_exception, exception}
use duck_hunt.Registry.{Entry, deref, get_parser}
use duck_hunt.Patterns.{Library}
use duck_hunt.Files.{
  read_content, peek_content, get_files_from_pattern, sniff_buffer_size, OpenFile,
}
use duck_hunt.LineReader.{LineReader, line_reader, has_next, next_line}
use duck_hunt.Dispatch.{World, Events, is_auto, is_regexp, is_no_format, parse_file}
use duck_hunt.LogTable.Rows.{Row, row_of, populate}
use duck_hunt.LogTable.Bind.{BindData}
use duck_hunt.LogTable.Run.{Run, ◌>>=◌, return, lift, lift_call, unless_io_exception, detect}
use duck_hunt.LogTable.Batch.{
  need_more_input, have_more_output, Batch, no_batch, Input, Emitted, standard_vector_size, Chosen,
  choose, resolve_format, passes, post_process, cache_lines, parse_as, emit,
}

-- The source keeps a pointer to the parser, which the registry owns, from one call to the next. The
-- parser stands here by value: what happens where it is unloaded between two calls is left out.
pub record Streaming : Type 0 where
  pub line_reader : LineReader
  pub streaming_parser : Parser
  pub streaming_event_id : ℤ

pub record ReadState : Type 0 where
  pub batch : Batch
  pub streaming : Option Streaming
  pub current_file_path : Text

abbrev pub no_read : ReadState
no_read = record { batch = no_batch; streaming = none; current_file_path = [] }

unfoldable pub contains_glob_characters : Text → Bool
contains_glob_characters path =
    any_of (λ c. c == b'*') path
    || any_of (λ c. c == b'?') path
    || any_of (λ c. c == b'[') path
    || any_of (λ c. c == b'{') path

abbrev pub or_file : Text → ValidationEvent → ValidationEvent
or_file path e = if is_empty e.log_file then record e { log_file = path } else e

-- What a line's events add to a chunk: the events that pass, until the chunk is full.
unfoldable pub add_events : (ValidationEvent → Bool) → Text → Events → Events → Events
add_events pass path acc [] = acc
add_events pass path acc (e ∷ es) =
    let pushed = acc ++ (or_file path e ∷ []) in
    let skipped = add_events pass path acc es in
    let added = add_events pass path pushed es in
    if not (pass e)
    then skipped
    else if leb standard_vector_size (length pushed)
    then pushed
    else added

-- A chunk and the reader behind it; `none` is the end of the fuel.
abbrev pub Chunk : Type 0
Chunk = Option (Outcome (Events × Streaming))

abbrev pub after_line :
    (Events → Streaming → Chunk)
    → (Events → Events)
    → Streaming
    → LineReader
    → Outcome (Events × ℤ)
    → Chunk
after_line again add st reader (ok (es, id)) =
    again (add es) (record st { line_reader = reader; streaming_event_id = id })
after_line again add st reader (io_exception e) = some (io_exception e)
after_line again add st reader (exception e) = some (exception e)

abbrev pub with_line :
    (Events → Streaming → Chunk)
    → (Events → Events)
    → Streaming
    → Option (Text × LineReader)
    → Chunk
with_line again add st none = none
with_line again add st (some (line, reader)) =
    after_line again add st reader
      (st.streaming_parser.parse_line line reader.line_number st.streaming_event_id)

-- The bytes that a reader has left, and one.
abbrev pub line_fuel : LineReader → ℕ
line_fuel r = suc (length (r.pending ++ r.file_handle.rest))

abbrev pub if_next :
    (Events → Streaming → Chunk)
    → (Events → Events)
    → Events
    → Streaming
    → Bool × LineReader
    → Chunk
if_next again add acc st (false, reader) = some (ok (acc, record st { line_reader = reader }))
if_next again add acc st (true, reader) =
    with_line again add (record st { line_reader = reader }) (next_line (line_fuel reader) reader)

-- The loop that reads lines until the chunk is full or the file at its end, on fuel.
unfoldable pub stream_chunk : (ValidationEvent → Bool) → Text → ℕ → Events → Streaming → Chunk
stream_chunk pass path zero acc st = none
stream_chunk pass path (suc f) acc st =
    if leb standard_vector_size (length acc)
    then some (ok (acc, st))
    else if_next (stream_chunk pass path f) (add_events pass path acc) acc st
        (has_next st.line_reader)

module _ (w : World) (lib : Library) (b : BindData) where
  abbrev pub stream_row : ValidationEvent → Row
  stream_row = row_of b.content_mode b.content_limit 0 []

  -- A chunk without events ends the file.
  unfoldable pub emit_stream : ReadState → Events × Streaming → Emitted ReadState
  emit_stream s ([], st) = (
    need_more_input,
    [],
    record s {
      batch = record (s.batch) { initialized = false; events = [] };
      streaming = none;
      current_file_path = [];
    },
  )
  emit_stream s (e ∷ es, st) = (
    have_more_output,
    populate stream_row (e ∷ es) 0 standard_vector_size,
    record s { batch = record (s.batch) { events = e ∷ es }; streaming = some st },
  )

  abbrev pub with_path : ReadState → Emitted Batch → Emitted ReadState
  with_path s (need_more_input, rows, batch) =
      (need_more_input, rows, record s { batch = batch; current_file_path = [] })
  with_path s (have_more_output, rows, batch) = (have_more_output, rows, record s { batch = batch })

  -- A call on a state that is initialised.
  abbrev pub resume : ReadState → Option Streaming → Run (Emitted ReadState)
  resume s none = return (with_path s (emit w lib b s.batch))
  resume s (some st) =
      lift_call (
        stream_chunk (passes b.severity_threshold) s.current_file_path (line_fuel st.line_reader) []
          st)
      >>= λ c. return (emit_stream s c)

  abbrev pub read_or_none : Text → Run (Option Text)
  read_or_none path = lift (unless_io_exception (read_content w.files path))

  abbrev pub parse_file_named : Text → Text → Run Events
  parse_file_named path name r = lift_call (parse_file w 2 r path name) r

  abbrev pub parse_file_as : Chosen → Text → Text → Text → Run Events
  parse_file_as c path content name =
      parse_as w lib b [] (parse_file_named path) c.format c.regexp_pattern content name

  abbrev pub add_file : Batch → Text → Text → Events → Batch
  add_file s path content es = record s {
    events = s.events ++ map (or_file path) es;
    log_lines = cache_lines w lib b path content s.log_lines;
  }

  -- One file of a glob pattern.
  unfoldable pub glob_content : Chosen → Text → Batch → Option Text → Run Batch
  glob_content c path s none = return s
  glob_content c path s (some content) =
      if is_empty content
      then return s
      else (resolve_format c content >>= λ name.
          parse_file_as c path content name >>= λ es. return (add_file s path content es))

  unfoldable pub read_glob : Chosen → List Text → Batch → Run Batch
  read_glob c [] s = return s
  read_glob c (path ∷ paths) s =
      read_or_none path >>= λ o. glob_content c path s o >>= λ s'. read_glob c paths s'

  abbrev pub or_no_files : Outcome (List Text) → Outcome (List Text)
  or_no_files (io_exception e) = ok []
  or_no_files o = o

  -- The name of the format, by a look into the file where it is to be detected.
  abbrev pub detect_peeked : Option Text → Run (Option Text)
  detect_peeked none = return none
  detect_peeked (some content) = detect content >>= λ name. return (some name)

  unfoldable pub sniff_format : Chosen → Text → Run (Option Text)
  sniff_format c path =
      if is_auto c.format
      then (lift (unless_io_exception (peek_content w.files path sniff_buffer_size))
          >>= detect_peeked)
      else return (some c.format_name)

  abbrev pub deref_parser : List Entry → Option ℕ → Option (Outcome (Option Parser))
  deref_parser ps none = some (ok none)
  deref_parser ps (some i) = elim (deref ps i) [ none ↦ none | some p ↦ some (ok (some p)) ]

  unfoldable pub find_streaming : Chosen → Text → Run (Option Parser)
  find_streaming c name r =
      if is_no_format name || is_regexp c.format
      then return none r
      else lift_call (deref_parser r.parsers (get_parser name r)) r

  abbrev pub can_stream : Chosen → Option Parser → Bool
  can_stream c none = false
  can_stream c (some p) = p.supports_streaming && not (is_regexp c.format) && b.context_lines == 0

  abbrev pub start_reader : ReadState → Parser → Option OpenFile → Option ReadState
  start_reader s p none = none
  start_reader s p (some f) = some (record s {
    batch = record (s.batch) { initialized = true; output_offset = 0 };
    streaming = some (record {
      line_reader = line_reader f.handle;
      streaming_parser = p;
      streaming_event_id = pos 0;
    });
  })

  abbrev pub start_streaming : Text → ReadState → Option Parser → Run (Option ReadState)
  start_streaming path s none = return none
  start_streaming path s (some p) =
      lift (unless_io_exception (w.files.open_file path)) >>= λ f. return (start_reader s p f)

  -- The file as a whole.
  unfoldable pub batch_content :
      Chosen → Text → Text → ReadState → Option Text → Run (Option ReadState)
  batch_content c path name s none = return none
  batch_content c path name s (some content) =
      if is_empty content
      then return (some (record s { streaming = none }))
      else ((if is_auto c.format && is_empty name then detect content else return name) >>= λ name'.
          parse_file_as c path content name' >>= λ es. return (
            some (record s {
              batch = record (s.batch) {
                events = map (or_file path) es;
                log_lines = cache_lines w lib b path content s.batch.log_lines;
              };
              streaming = none;
            })))

  unfoldable pub read_single : Chosen → Text → ReadState → Option Text → Run (Option ReadState)
  read_single c path s none = return none
  read_single c path s (some name) = find_streaming c name >>= λ p.
      if can_stream c p
      then start_streaming path s p
      else (read_or_none path >>= batch_content c path name s)

  unfoldable pub start_read : Chosen → Text → ReadState → Run (Option ReadState)
  start_read c path s =
      if contains_glob_characters path
      then (lift (or_no_files (get_files_from_pattern w.files path)) >>= λ paths.
          read_glob c paths s.batch >>= λ batch.
          return (some (record s { batch = batch; streaming = none })))
      else (sniff_format c path >>= read_single c path s)

  -- The events of a batch after their processing; without events there is nothing to hand out.
  abbrev pub emit_batch : ReadState → Emitted ReadState
  emit_batch s =
      if is_empty s.batch.events
      then (
        need_more_input,
        [],
        record s { batch = record (s.batch) { initialized = false; log_lines = [] } },
      )
      else with_path s (
          emit w lib b (record (s.batch) {
            initialized = true;
            output_offset = 0;
            events = post_process w lib b s.batch.events;
          }))

  abbrev pub first_chunk : ReadState → Option Streaming → Run (Emitted ReadState)
  first_chunk s none = return (emit_batch s)
  first_chunk s (some st) = resume s (some st)

  -- A file that cannot be opened or read gives no rows.
  abbrev pub started : ReadState → Option ReadState → Run (Emitted ReadState)
  started s none =
      return (need_more_input, [], record s { batch = record (s.batch) { initialized = false } })
  started s (some s') = first_chunk s' s'.streaming

  abbrev pub bound_chosen : Chosen
  bound_chosen = record {
    format = b.format;
    format_name = b.format_name;
    regexp_pattern = b.regexp_pattern;
  }

  unfoldable pub read_row : Input → ReadState → Run (Emitted ReadState)
  read_row [] s = return (need_more_input, [], s)
  read_row (none ∷ _) s =
      return (need_more_input, [], record s { batch = record (s.batch) { initialized = false } })
  read_row (some path ∷ columns) s =
      let opened = record s { current_file_path = path } in
      start_read (choose columns bound_chosen) path opened >>= started opened

  unfoldable pub read_in_out : Input → ReadState → Run (Emitted ReadState)
  read_in_out input s = if s.batch.initialized then resume s s.streaming else read_row input s
