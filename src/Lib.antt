-- ===== src/Lib.antt =====
-- duck_hunt, a DuckDB extension that reads the logs of build tools, test frameworks and linters
-- into tables of validation events.
--
-- Parts and files:
--  - Event.antt: src/include/validation_event_types.hpp and src/validation_event_types.cpp, the event,
--   its enumerations and their names, and the severity filter. A double is a fraction, an `int32_t`
--   or `int64_t` an unbounded integer (Prelude/Int.antt). Event/Builder.antt: `EventBuilder`.
--  - Parser.antt: src/parsers/base/parser_interface.hpp and src/parsers/base/base_parser.hpp. A parser
--   is a record of what its methods return; `Outcome` holds the exceptions they throw.
--  - Registry.antt: src/core/parser_registry.cpp and src/config_parser_functions.cpp. The registry owns
--   parsers and keeps pointers to them by name and by priority. A pointer is the number of an entry;
--   an operation that goes through a dangling one gives `none`. The mutex makes each operation one
--   step, and the lazily sorted order is part of the state. Registry/Sort.antt has `std::stable_sort`
--   by descending priority, Registry/Command.antt the lookup by command.
--  - Lines.antt: `std::getline` and src/parsers/base/safe_parsing.hpp. LineReader.antt: `LineReader` of
--   src/core/file_utils.cpp, over a file handle that hands out as many bytes as it likes.
--   Lines/Numbers and Lines/Positions: `std::stoi` and the positions in diagnostics.
--  - Patterns.antt: src/core/error_patterns.cpp, fingerprints and patterns of events.
--  - Formats.antt: the names of formats of src/core/parse_content.cpp. They are looked up in the
--   registry, and suggested from its list (Registry/Listing.antt). Extract.antt:
--   src/core/content_extraction_helpers.cpp.
--  - TestFormat.antt: the enumeration of formats of src/include/read_duck_hunt_log_function.hpp and the
--   tables of src/core/format_utils.cpp.
--  - Files.antt: the paths, reads and globs of src/core/file_utils.cpp, over a file system. An
--   `IOException` and another exception are told apart, since the handlers tell them apart.
--  - Dispatch.antt: `ParseContent` and `ParseFile` of src/core/parse_content.cpp, over the registry.
--   Dispatch/Many.antt: `ProcessMultipleFiles` of src/core/file_utils.cpp.
--  - LogTable: the table functions of src/read_duck_hunt_log_function.cpp. Schema, Rows: the columns and
--   the rows that events become (`PopulateDataChunkFromEvents` of src/core/context_extraction.cpp).
--   Bind: the arguments. Batch: the operator of `parse_duck_hunt_log`, a state machine that hands out a
--   chunk of rows with each call. Stream: the one of `read_duck_hunt_log`, for files, glob patterns
--   and files that are streamed. Init: the scans over events that are gathered first. Run: calls that
--   may throw, fault and sort the registry. Pull: an engine that calls an operator until it needs
--   more input.
--  - Workflow.antt: src/workflow_engine_interface.cpp, the registry of workflow engines, and the names of
--   their formats. Workflow/Tables, Workflow/Rows: src/read_duck_hunt_workflow_log_function.cpp and
--   src/parse_duck_hunt_workflow_log_function.cpp.
--  - Diagnosis.antt: src/duck_hunt_diagnose_function.cpp, src/duck_hunt_detect_format_function.cpp and
--   the rows of src/duck_hunt_formats_function.cpp.
--  - Context.antt: src/core/context_extraction.cpp, the truncation of log content and the lines around
--   an event. StatusBadge.antt: src/status_badge_function.cpp.
--  - Prelude.antt: texts as lists of bytes, association lists, and lists over the native numbers.
--  - Tests.antt: the theorems at concrete inputs.
--
-- Parameters: regular expressions, `std::hash` and the file system are not part of the repository.
-- They are the records `Regex`, `Library` and `FileSystem`, and the sizes of the reads of a
-- `FileHandle`. The record `World` has the file system, the parser of JSON configurations and the
-- parser for a pattern of the user, which stand on a JSON library and on regular expressions. The record
-- `Engines` has the parsers of the workflow engines and `std::sort`.
--
-- Fuel: the loops over `std::getline` and over a `LineReader` run on fuel, and a unit for each byte
-- is enough, as it is for the loop that reads a file in chunks and the one that fills a chunk of
-- rows; `is_valid_format`, `parse_content` and `parse_file` call themselves for the entries of a
-- list, and fuel 2 is enough. Sixteen hexadecimal digits hold a 64-bit hash. A chunk of rows has 2048
-- of them, the engine's `STANDARD_VECTOR_SIZE`.
--
-- Bounds: the counters of lines are unbounded numbers, where the source has 32-bit integers that
-- overflow behind 2 ^ 31 - 1 lines. A file that is streamed keeps its parser by value, where the source
-- keeps a pointer into the registry: a parser that is unloaded while a file is streamed is outside the
-- model.
--
-- Not modelled: the parsers of the single tools and workflow engines, the configurations and the other
-- glue to the engine.
mod Prelude
mod Tests
pub mod Event
pub mod Lines
pub mod Parser
pub mod Registry
pub mod Patterns
pub mod LineReader
pub mod Formats
pub mod Extract
pub mod Context
pub mod StatusBadge
pub mod TestFormat
pub mod Files
pub mod Dispatch
pub mod LogTable
pub mod Workflow
pub mod Diagnosis
