-- ===== src/Tests/Logs.antt =====
-- The theorems on log lines, badges and listings at concrete inputs.
use duck_hunt.Prelude.{
  suc, ◌+◌, ◌-◌, ◌≤◌, ◌≡◌, ◌≢◌, refl, true, false, some, List, [], ◌∷◌, Text, codes, text_eq,
  length, find_if, arith, is_empty, trim, drop_while, drop_end, starts_with, contains, lookup,
}
use duck_hunt.Prelude.Int.{pos, negsuc}
use duck_hunt.Registry.{empty_registry, is_group, has_format, Registry}
use duck_hunt.Tests.{one_parser, one_parser-IsValid}
use duck_hunt.Context.{
  full, limit, truncate_log_content, ContextLine, extract_context, context_rows,
}
use duck_hunt.Context.Bounds.{length-truncate_log_content}
use duck_hunt.Context.Rows.{
  rows_of, event_end, window, extract_context-eq-rows_of, length-extract_context,
}
use duck_hunt.Lines.{split_lines}
use duck_hunt.Formats.{
  split_format_list, is_valid_format, is_bad_entry, entry_error, format_validation_error,
  is_config_file_path, detect_format,
}
use duck_hunt.Formats.Detection.{Detected, detect_format-Detected}
use duck_hunt.Registry.Valid.{IsValid}
use duck_hunt.Formats.Errors.{format_validation_error_list}

limit_is_not_full : limit ≢ full
limit_is_not_full h = ground (arith, h)

length-truncate_log_content_example :
    length (truncate_log_content (codes "a long line") limit 4 (negsuc 0) (negsuc 0)) ≤ 4 + 3
length-truncate_log_content_example =
    length-truncate_log_content (codes "a long line") limit 4 (negsuc 0) (negsuc 0)
      limit_is_not_full

abbrev later_lines : List Text
later_lines = codes "two" ∷ codes "three" ∷ []

extract_context-eq-rows_of_example :
    extract_context (codes "one" ∷ later_lines) (pos (suc 1)) (negsuc 0) 1
    ≡ some (
        rows_of 1
          (event_end 1 (negsuc 0))
          (1 - 1)
          (window (codes "one" ∷ later_lines) 1 (event_end 1 (negsuc 0)) 1))
extract_context-eq-rows_of_example =
    extract_context-eq-rows_of (codes "one") later_lines 1 1 (negsuc 0)

abbrev first_row : ContextLine
first_row = record { line_number = 1; content = codes "two"; is_event = true }

has_context : extract_context later_lines (pos (suc 0)) (negsuc 0) 0 ≡ some (first_row ∷ [])
unfolding extract_context context_rows
has_context = refl

length-extract_context_example :
    length (first_row ∷ []) ≤ (event_end 0 (negsuc 0) - 0) + (1 + (0 + 0))
length-extract_context_example =
    length-extract_context later_lines 0 0 (negsuc 0) (first_row ∷ []) has_context

is_a_format_list : is_empty (split_format_list (codes "gcc,make")) ≡ false
unfolding split_format_list split_lines trim drop_while drop_end
is_a_format_list = refl

is_not_valid : is_valid_format 2 empty_registry (codes "gcc,make") ≡ false
unfolding is_valid_format split_format_list split_lines trim drop_while drop_end text_eq
    is_config_file_path starts_with contains has_format is_group lookup
is_not_valid = refl

format_validation_error_list_example :
    (f : Text) × (find_if (is_bad_entry empty_registry) (split_format_list (codes "gcc,make"))
      ≡ some f)
    × (format_validation_error (codes "gcc,make") empty_registry
        ≡ entry_error f (codes "gcc,make") empty_registry)
format_validation_error_list_example =
    format_validation_error_list empty_registry (codes "gcc,make") is_a_format_list is_not_valid

detect_format-Detected_example :
    (name : Text) × (r' : Registry) × (detect_format (codes "FAILED test_a") one_parser
      ≡ some (name, r'))
    × Detected (codes "FAILED test_a") one_parser name
    × IsValid r'
detect_format-Detected_example =
    detect_format-Detected (codes "FAILED test_a") one_parser one_parser-IsValid
