-- ===== src/LogTable/Schema.antt =====
-- The columns that `ReadDuckHuntLogBind` and `ParseDuckHuntLogBind` of
-- src/read_duck_hunt_log_function.cpp declare.
use duck_hunt.Prelude.{ℕ, ltb, List, [], ◌∷◌, ◌++◌, Text, codes, if◌then◌else◌}

-- `LogicalType`; `context` is the list of rows that `GetContextColumnType` describes.
pub data LogicalType : Type 0 where
  bigint varchar integer double context : LogicalType

abbrev pub event_types : List LogicalType
event_types =
    bigint ∷ varchar ∷ varchar ∷ varchar ∷ integer ∷ integer ∷ varchar ∷ varchar ∷ varchar ∷ varchar
    ∷ varchar ∷ varchar ∷ varchar ∷ varchar ∷ varchar ∷ integer ∷ integer ∷ varchar ∷ varchar
    ∷ double ∷ varchar ∷ varchar ∷ varchar ∷ varchar ∷ varchar ∷ varchar ∷ varchar ∷ varchar
    ∷ varchar ∷ varchar ∷ varchar ∷ varchar ∷ varchar ∷ varchar ∷ varchar ∷ varchar ∷ varchar
    ∷ varchar ∷ double ∷ bigint ∷ []

abbrev pub event_names : List Text
event_names =
    codes "event_id"
    ∷ codes "tool_name"
    ∷ codes "event_type"
    ∷ codes "ref_file"
    ∷ codes "ref_line"
    ∷ codes "ref_column"
    ∷ codes "function_name"
    ∷ codes "status"
    ∷ codes "severity"
    ∷ codes "category"
    ∷ codes "error_code"
    ∷ codes "message"
    ∷ codes "suggestion"
    ∷ codes "log_content"
    ∷ codes "structured_data"
    ∷ codes "log_line_start"
    ∷ codes "log_line_end"
    ∷ codes "log_file"
    ∷ codes "test_name"
    ∷ codes "execution_time"
    ∷ codes "principal"
    ∷ codes "origin"
    ∷ codes "target"
    ∷ codes "actor_type"
    ∷ codes "started_at"
    ∷ codes "external_id"
    ∷ codes "scope"
    ∷ codes "scope_id"
    ∷ codes "scope_status"
    ∷ codes "group"
    ∷ codes "group_id"
    ∷ codes "group_status"
    ∷ codes "unit"
    ∷ codes "unit_id"
    ∷ codes "unit_status"
    ∷ codes "subunit"
    ∷ codes "subunit_id"
    ∷ codes "fingerprint"
    ∷ codes "similarity_score"
    ∷ codes "pattern_id"
    ∷ []

-- With the column for the context where lines of it are asked for.
unfoldable pub return_types : ℕ → List LogicalType
return_types context_lines = event_types ++ (if ltb 0 context_lines then context ∷ [] else [])

unfoldable pub column_names : ℕ → List Text
column_names context_lines =
    event_names ++ (if ltb 0 context_lines then codes "context" ∷ [] else [])
