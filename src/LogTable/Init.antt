-- ===== src/LogTable/Init.antt =====
-- `ReadDuckHuntLogInitGlobal`, `ParseDuckHuntLogInitGlobal` and their scans of
-- src/read_duck_hunt_log_function.cpp, which gather all events before the first row is asked for.
use duck_hunt.Prelude.{
  ℕ, ◌+◌, ◌==◌, ltb, Bool, ◌||◌, Option, none, some, List, [], ◌∷◌, map, Text, codes, length,
  is_empty, any_of, contains, if◌then◌else◌,
}
use duck_hunt.Parser.{Outcome, ok, io_exception, exception}
use duck_hunt.Patterns.{Library}
use duck_hunt.Files.{read_content, peek_content, get_files_from_pattern, sniff_buffer_size}
use duck_hunt.Dispatch.{World, Events, is_auto}
use duck_hunt.Dispatch.Many.{process_multiple_files}
use duck_hunt.LogTable.Rows.{Row, LogLines, populate}
use duck_hunt.LogTable.Bind.{BindData}
use duck_hunt.LogTable.Run.{Run, ◌>>=◌, return, lift, detect}
use duck_hunt.LogTable.Batch.{
  resolve_format, post_process, cache_lines, parse_as, parse_named, row, standard_vector_size,
}
use duck_hunt.LogTable.Stream.{or_file, parse_file_as, bound_chosen}

-- The global state, and the local state's offset.
pub record Scan : Type 0 where
  pub events : Events
  pub log_lines : LogLines
  pub chunk_offset : ℕ

abbrev pub is_path : Text → Bool
is_path source = any_of (λ c. c == b'/') source || any_of (λ c. c == b'\\') source

-- `catch (const std::exception &)`.
abbrev pub or_no_paths : Outcome (List Text) → List Text
or_no_paths (ok files) = files
or_no_paths (io_exception e) = []
or_no_paths (exception e) = []

-- The file that was found, or the source itself.
abbrev pub single_path : Text → List Text → Text
single_path source (path ∷ []) = path
single_path source _ = source

-- What a file that cannot be read is taken for; the guards' own errors pass.
abbrev pub is_guard_error : Text → Bool
is_guard_error e = contains (codes "maximum size limit") e || contains (codes "Invalid file path") e

abbrev pub or_direct : Text → Outcome Text → Outcome Text
or_direct source (ok content) = ok content
or_direct source (io_exception e) = if is_guard_error e then io_exception e else ok source
or_direct source (exception e) = if is_guard_error e then exception e else ok source

abbrev pub peeked_or_direct : Text → Outcome Text → Text
peeked_or_direct source (ok content) = content
peeked_or_direct source (io_exception e) = source
peeked_or_direct source (exception e) = source

module _ (w : World) (lib : Library) (b : BindData) where
  -- A name by detection where it is asked for; `none` where nothing is detected.
  unfoldable pub detect_source : Text → Run (Option Text)
  detect_source path =
      if is_auto b.format
      then (detect (peeked_or_direct b.source (peek_content w.files path sniff_buffer_size))
          >>= λ name. return (if is_empty name then none else some name))
      else return (some b.format_name)

  abbrev pub mark_source : Events → Events
  mark_source es = if is_path b.source then map (or_file b.source) es else es

  abbrev pub scan_of : Events → LogLines → Scan
  scan_of es lines = record {
    events = post_process w lib b es;
    log_lines = lines;
    chunk_offset = 0;
  }

  -- A single file, or the source as content. The file that is parsed is the source's.
  unfoldable pub init_single : Text → Option Text → Run Scan
  init_single path none = return (scan_of [] (cache_lines w lib b path [] []))
  init_single path (some name) =
      lift (or_direct b.source (read_content w.files path)) >>= λ content.
      parse_file_as w lib b (bound_chosen w lib b) b.source content name >>= λ es.
      return (scan_of (mark_source es) (cache_lines w lib b path content []))

  abbrev pub init_many : List Text → Run Scan
  init_many paths =
      process_multiple_files w b.format b.format_name b.ignore_errors paths [] >>= λ es.
      return (scan_of es [])

  abbrev pub init_files : List Text → Run Scan
  init_files paths =
      if ltb 1 (length paths)
      then init_many paths
      else (detect_source (single_path b.source paths) >>= init_single (single_path b.source paths))

  unfoldable pub read_init_global : Run Scan
  read_init_global = init_files (or_no_paths (get_files_from_pattern w.files b.source))

  unfoldable pub parse_init_global : Run Scan
  parse_init_global = resolve_format (bound_chosen w lib b) b.source >>= λ name.
      parse_as w lib b [] (parse_named w lib b b.source) b.format b.regexp_pattern b.source name
      >>= λ es. return (scan_of es (cache_lines w lib b [] b.source []))

  -- A chunk of rows, and the state after it.
  unfoldable pub scan : Scan → List Row × Scan
  scan s =
      let rows = populate (row w lib b s.log_lines) s.events s.chunk_offset standard_vector_size in
      (rows, record s { chunk_offset = s.chunk_offset + length rows })
