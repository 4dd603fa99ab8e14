-- ===== src/Tests/Texts.antt =====
-- The theorems on lines, messages and names at concrete inputs.
use duck_hunt.Prelude.Int.{pos}
use duck_hunt.Prelude.{
  suc, ◌+◌, ◌/◌, ◌≤◌, ◌≡◌, refl, true, false, not, ◌||◌, some, List, [], ◌∷◌, map, reverse, Text,
  codes, text_eq, is_empty, any_of, length, get_elem?, All, arith, ◌↔◌, drop_while, drop_end, trim,
  lookup,
}
use duck_hunt.Event.{ValidationEvent, ValidationEventStatus, ValidationEventType, new_event}
use duck_hunt.Parser.{ContentFamily, has_name}
use duck_hunt.Registry.{empty_registry}
use duck_hunt.Lines.{
  lf, getline_loop, split_lines, normalize_line_endings, safe_line_reader, read_all, pop_cr,
}
use duck_hunt.Lines.Split.{FreeOf, join_lines, getline_loop-eq-split_lines, split_lines-join_lines}
use duck_hunt.Lines.Reader.{shortened, read_all-safe_line_reader}
use duck_hunt.LineReader.{FileHandle, LineReader, line_reader, read_lines}
use duck_hunt.LineReader.Lines.{read_lines-line_reader}
use duck_hunt.Patterns.{
  Library, process_error_patterns, generate_error_fingerprint, calculate_message_similarity, one,
  assign_patterns, assign_pattern, score_pattern, normalize_error_message, needs_normalization,
  similarity_of_normalized, representative,
}
use duck_hunt.Patterns.Similarity.{IsScore, calculate_message_similarity_lem}
use duck_hunt.Patterns.Clusters.{
  unmarked, process_error_patterns-pattern_id, process_error_patterns-unmarked,
}
use duck_hunt.Formats.{
  edit_distance, suggest_format, split_format_list, is_valid_format, is_word, shared_prefix,
  consider, consider_all, edit_rows, next_row, next_cells,
}
use duck_hunt.Formats.Distance.{Edits, edit_distance-reached, edit_distance_least}
use duck_hunt.Formats.Suggest.{suggest_format-Suggested, score_of}
use duck_hunt.Formats.Names.{is_valid_format_list}
use duck_hunt.Extract.{maybe_extract_content}
use duck_hunt.Extract.First.{SectionOf, maybe_extract_content-SectionOf}

-- "ab\r\ncd".
abbrev two_lines : Text
two_lines = b'a' ∷ b'b' ∷ 13 ∷ 10 ∷ b'c' ∷ b'd' ∷ []

abbrev short_reads : FileHandle
short_reads = record { rest = two_lines; sizes = 3 ∷ 1 ∷ [] }

read_lines-line_reader_example :
    (last : LineReader) × ((read_lines
          (suc (length short_reads.rest))
          (suc (length short_reads.rest))
          (line_reader short_reads)
        ≡ some (map pop_cr (split_lines lf short_reads.rest), last))
      × (last.line_number ≡ length (split_lines lf short_reads.rest)))
read_lines-line_reader_example = read_lines-line_reader short_reads

getline_loop-eq-split_lines_example : getline_loop 10 lf two_lines ≡ split_lines lf two_lines
getline_loop-eq-split_lines_example = getline_loop-eq-split_lines lf 10 two_lines (omega arith)

abbrev free_lines : List Text
free_lines = (b'a' ∷ []) ∷ [] ∷ (b'b' ∷ []) ∷ []

free_lines-FreeOf : All (FreeOf lf) free_lines
free_lines-FreeOf = ground arith

split_lines-join_lines_example : split_lines lf (join_lines lf free_lines) ≡ free_lines
split_lines-join_lines_example = split_lines-join_lines lf free_lines free_lines-FreeOf

-- A line that is cut, and one that is not.
abbrev long_lines : Text
long_lines = codes "abcdef\ncd"

read_all-safe_line_reader_example :
    ((read_all 9 (safe_line_reader long_lines 4)).0
      ≡ map (shortened 4) (split_lines lf (normalize_line_endings long_lines)))
    × All (λ (l : Text). length l ≤ 4) (read_all 9 (safe_line_reader long_lines 4)).0
    × ((read_all 9 (safe_line_reader long_lines 4)).1.line_number
        ≡ length (split_lines lf (normalize_line_endings long_lines)))
read_all-safe_line_reader_example =
    read_all-safe_line_reader 9 4 long_lines (omega arith) (omega arith) (omega arith)

-- Expressions that replace nothing, and the length for a hash.
abbrev pub plain_library : Library
plain_library = record { regex_replace = λ e t s. s; hash = λ s. length s }

abbrev event_saying : Text → ValidationEvent
event_saying m = record (new_event ValidationEventType.build_error ValidationEventStatus.error) {
  message = m;
}

abbrev two_events : List ValidationEvent
two_events = event_saying (codes "a") ∷ event_saying (codes "b") ∷ []

process_error_patterns-unmarked_example :
    (map unmarked (process_error_patterns plain_library two_events) ≡ map unmarked two_events)
    × (map
          (λ (e : ValidationEvent). e.fingerprint)
          (process_error_patterns plain_library two_events)
        ≡ map (generate_error_fingerprint plain_library) two_events)
process_error_patterns-unmarked_example = process_error_patterns-unmarked plain_library two_events

calculate_message_similarity_lem_example :
    IsScore (calculate_message_similarity plain_library (codes "timeout") (codes "time"))
    × (calculate_message_similarity plain_library (codes "timeout") (codes "time")
        ≡ calculate_message_similarity plain_library (codes "time") (codes "timeout"))
    × (calculate_message_similarity plain_library (codes "timeout") (codes "timeout") ≡ one)
calculate_message_similarity_lem_example =
    calculate_message_similarity_lem plain_library (codes "timeout") (codes "time")

edit_distance-reached_example :
    Edits (reverse (codes "gcc")) (reverse (codes "gc")) (edit_distance (codes "gcc") (codes "gc"))
edit_distance-reached_example = edit_distance-reached (codes "gcc") (codes "gc")

abbrev a_to_b : Edits (reverse (codes "a")) (reverse (codes "b")) 1
a_to_b = Edits.change b'a' b'b' [] [] 0 Edits.same

edit_distance_least_example : edit_distance (codes "a") (codes "b") ≤ 1
edit_distance_least_example = edit_distance_least (codes "a") (codes "b") 1 a_to_b

abbrev names : List Text
names = codes "gcc" ∷ codes "make" ∷ []

makes_a_suggestion : is_empty (suggest_format (codes "gc") names) ≡ false
unfolding suggest_format consider_all consider edit_distance edit_rows next_row next_cells
    shared_prefix
makes_a_suggestion = refl

suggest_format-Suggested_example :
    (has_name (suggest_format (codes "gc") names) names ≡ true)
    × ((edit_distance (codes "gc") (suggest_format (codes "gc") names)
          ≤ (length (codes "gc") + 1) / 2)
        × All
            (λ (n : Text).
              score_of (codes "gc") (suggest_format (codes "gc") names) ≤ score_of (codes "gc") n)
            names)
suggest_format-Suggested_example = suggest_format-Suggested (codes "gc") names makes_a_suggestion

is_a_list : is_empty (split_format_list (codes "gcc,make")) ≡ false
unfolding split_format_list split_lines trim drop_while drop_end
is_a_list = refl

is_valid_format_list_example :
    is_valid_format 2 empty_registry (codes "gcc,make")
    ≡ not (
        any_of
          (λ t. is_word (codes "auto") t || not (is_valid_format 2 empty_registry t))
          (split_format_list (codes "gcc,make")))
is_valid_format_list_example = is_valid_format_list empty_registry (codes "gcc,make") is_a_list

maybe_extract_content-SectionOf_example :
    SectionOf ContentFamily.json
      (codes "log\n[1]")
      (maybe_extract_content (codes "log\n[1]") ContentFamily.json)
    × (maybe_extract_content
          (maybe_extract_content (codes "log\n[1]") ContentFamily.json)
          ContentFamily.json
        ≡ maybe_extract_content (codes "log\n[1]") ContentFamily.json)
maybe_extract_content-SectionOf_example =
    maybe_extract_content-SectionOf (codes "log\n[1]") ContentFamily.json

abbrev twice : List ValidationEvent
twice = event_saying (codes "a") ∷ event_saying (codes "a") ∷ []

-- What the processing makes of both.
abbrev processed : ValidationEvent
processed = record (event_saying (codes "a")) {
  fingerprint = generate_error_fingerprint plain_library (event_saying (codes "a"));
  pattern_id = pos 1;
  similarity_score = one;
}

first_processed : get_elem? (process_error_patterns plain_library twice) 0 ≡ some processed
unfolding process_error_patterns assign_patterns assign_pattern score_pattern
    calculate_message_similarity normalize_error_message needs_normalization
    generate_error_fingerprint similarity_of_normalized representative lookup text_eq trim
    drop_while drop_end
first_processed = refl

second_processed : get_elem? (process_error_patterns plain_library twice) 1 ≡ some processed
unfolding process_error_patterns assign_patterns assign_pattern score_pattern
    calculate_message_similarity normalize_error_message needs_normalization
    generate_error_fingerprint similarity_of_normalized representative lookup text_eq trim
    drop_while drop_end
second_processed = refl

process_error_patterns-pattern_id_example :
    (processed.fingerprint ≡ processed.fingerprint) ↔ (processed.pattern_id ≡ processed.pattern_id)
process_error_patterns-pattern_id_example =
    process_error_patterns-pattern_id plain_library twice 0 1 processed processed first_processed
      second_processed
