-- ===== src/LogTable/Rows.antt =====
-- `PopulateDataChunkFromEvents` of src/core/context_extraction.cpp: the rows that events become.
use duck_hunt.Prelude.{
  ℕ, ◌-◌, min, ltb, ◌≡◌, Bool, true, false, Option, none, some, List, [], ◌∷◌, ◌++◌, map, Text,
  length, take, drop, is_empty, lookup, if◌then◌else◌,
}
use duck_hunt.Prelude.Int.{ℤ, is_minus_one}
use duck_hunt.Event.{
  ValidationEvent, ValidationEventType, Double, is_zero, validation_event_type_to_string,
  validation_event_status_to_string,
}
use duck_hunt.Context.{ContentMode, nothing, truncate_log_content, ContextLine, extract_context}
use duck_hunt.LogTable.Schema.{LogicalType, bigint, varchar, integer, double, context}

pub data Value : Type 0 where
  null : Value
  of_bigint of_integer : ℤ → Value
  of_varchar : Text → Value
  of_double : Double → Value
  of_context : List ContextLine → Value

abbrev pub Row : Type 0
Row = List Value

-- The lines of each file that was read.
abbrev pub LogLines : Type 0
LogLines = List (Text × List Text)

abbrev pub unless_minus_one : ℤ → Value → Value
unless_minus_one z v = if is_minus_one z then null else v

abbrev pub unless_empty : Text → Value
unless_empty t = if is_empty t then null else of_varchar t

abbrev pub unless_zero : Double → Value
unless_zero d = if is_zero d then null else of_double d

-- An event of unknown type, a line that no pattern fits, has neither status nor severity.
abbrev pub unless_unknown : ValidationEventType → Value → Value
unless_unknown ValidationEventType.unknown v = null
unless_unknown _ v = v

abbrev pub is_nothing : ContentMode → Bool
is_nothing nothing = true
is_nothing _ = false

unfoldable pub content_value : ContentMode → ℕ → ValidationEvent → Value
content_value mode limit e =
    if is_nothing mode
    then null
    else unless_empty
        (truncate_log_content e.log_content mode limit e.log_line_start e.log_line_end)

abbrev pub of_lines : Option (List ContextLine) → Value
of_lines none = null
of_lines (some ls) = of_context ls

abbrev pub context_of : ValidationEvent → ℕ → Option (List Text) → Value
context_of e context_lines none = null
context_of e context_lines (some lines) =
    of_lines (extract_context lines e.log_line_start e.log_line_end context_lines)

abbrev pub event_values : ContentMode → ℕ → ValidationEvent → Row
event_values mode limit e =
    of_bigint e.event_id
    ∷ of_varchar e.tool_name
    ∷ of_varchar (validation_event_type_to_string e.event_type)
    ∷ of_varchar e.ref_file
    ∷ unless_minus_one e.ref_line (of_integer e.ref_line)
    ∷ unless_minus_one e.ref_column (of_integer e.ref_column)
    ∷ of_varchar e.function_name
    ∷ unless_unknown e.event_type (of_varchar (validation_event_status_to_string e.status))
    ∷ unless_unknown e.event_type (of_varchar e.severity)
    ∷ of_varchar e.category
    ∷ of_varchar e.error_code
    ∷ of_varchar e.message
    ∷ of_varchar e.suggestion
    ∷ content_value mode limit e
    ∷ of_varchar e.structured_data
    ∷ unless_minus_one e.log_line_start (of_integer e.log_line_start)
    ∷ unless_minus_one e.log_line_end (of_integer e.log_line_end)
    ∷ unless_empty e.log_file
    ∷ of_varchar e.test_name
    ∷ of_double e.execution_time
    ∷ unless_empty e.principal
    ∷ unless_empty e.origin
    ∷ unless_empty e.target
    ∷ unless_empty e.actor_type
    ∷ unless_empty e.started_at
    ∷ unless_empty e.external_id
    ∷ unless_empty e.scope
    ∷ unless_empty e.scope_id
    ∷ unless_empty e.scope_status
    ∷ unless_empty e.group
    ∷ unless_empty e.group_id
    ∷ unless_empty e.group_status
    ∷ unless_empty e.unit
    ∷ unless_empty e.unit_id
    ∷ unless_empty e.unit_status
    ∷ unless_empty e.subunit
    ∷ unless_empty e.subunit_id
    ∷ unless_empty e.fingerprint
    ∷ unless_zero e.similarity_score
    ∷ unless_minus_one e.pattern_id (of_bigint e.pattern_id)
    ∷ []

unfoldable pub row_of : ContentMode → ℕ → ℕ → LogLines → ValidationEvent → Row
row_of mode limit context_lines log_lines e =
    event_values mode limit e
    ++ (if ltb 0 context_lines
        then context_of e context_lines (lookup e.log_file log_lines) ∷ []
        else [])

-- The rows of the events from an offset on, as many as fit the chunk.
unfoldable pub populate : (ValidationEvent → Row) → List ValidationEvent → ℕ → ℕ → List Row
populate row events start_offset chunk_size =
    map row (take (min chunk_size (length events - start_offset)) (drop start_offset events))

abbrev pub has_type : LogicalType → Value → Bool
has_type _ null = true
has_type bigint (of_bigint z) = true
has_type varchar (of_varchar t) = true
has_type integer (of_integer z) = true
has_type double (of_double d) = true
has_type context (of_context ls) = true
has_type _ _ = false

-- A row has a value for each column, of the column's type or NULL.
abbrev pub Fits : List LogicalType → Row → Type 0
Fits [] [] = Unit
Fits (t ∷ ts) (v ∷ vs) = (has_type t v ≡ true) × Fits ts vs
Fits _ _ = ⊥
