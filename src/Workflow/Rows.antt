-- ===== src/Workflow/Rows.antt =====
-- The columns that src/read_duck_hunt_workflow_log_function.cpp and
-- src/parse_duck_hunt_workflow_log_function.cpp declare for the events of workflow engines, and the rows
-- that they write.
use duck_hunt.Prelude.{List, [], ◌∷◌, ◌++◌, Text, codes}
use duck_hunt.Event.{validation_event_type_to_string, validation_event_status_to_string}
use duck_hunt.LogTable.Schema.{LogicalType, bigint, varchar, integer, double}
use duck_hunt.LogTable.Rows.{
  of_bigint, of_integer, of_varchar, of_double, Row, unless_minus_one, unless_empty, unless_zero,
}
use duck_hunt.Workflow.{WorkflowEvent}

abbrev pub workflow_types : List LogicalType
workflow_types =
    bigint ∷ varchar ∷ varchar ∷ varchar ∷ integer ∷ integer ∷ varchar ∷ varchar ∷ varchar ∷ varchar
    ∷ varchar ∷ varchar ∷ varchar ∷ varchar ∷ varchar ∷ integer ∷ integer ∷ varchar ∷ double
    ∷ varchar ∷ varchar ∷ varchar ∷ varchar ∷ varchar ∷ varchar ∷ varchar ∷ varchar ∷ varchar
    ∷ varchar ∷ varchar ∷ varchar ∷ varchar ∷ varchar ∷ varchar ∷ varchar ∷ varchar ∷ varchar
    ∷ double ∷ bigint ∷ varchar ∷ integer ∷ varchar ∷ []

abbrev pub workflow_names : List Text
workflow_names =
    codes "event_id"
    ∷ codes "tool_name"
    ∷ codes "event_type"
    ∷ codes "ref_file"
    ∷ codes "ref_line"
    ∷ codes "ref_column"
    ∷ codes "function_name"
    ∷ codes "status"
    ∷ codes "severity"
    ∷ codes "category"
    ∷ codes "error_code"
    ∷ codes "message"
    ∷ codes "suggestion"
    ∷ codes "log_content"
    ∷ codes "structured_data"
    ∷ codes "log_line_start"
    ∷ codes "log_line_end"
    ∷ codes "test_name"
    ∷ codes "execution_time"
    ∷ codes "principal"
    ∷ codes "origin"
    ∷ codes "target"
    ∷ codes "actor_type"
    ∷ codes "started_at"
    ∷ codes "external_id"
    ∷ codes "scope"
    ∷ codes "scope_id"
    ∷ codes "scope_status"
    ∷ codes "group"
    ∷ codes "group_id"
    ∷ codes "group_status"
    ∷ codes "unit"
    ∷ codes "unit_id"
    ∷ codes "unit_status"
    ∷ codes "subunit"
    ∷ codes "subunit_id"
    ∷ codes "fingerprint"
    ∷ codes "similarity_score"
    ∷ codes "pattern_id"
    ∷ codes "workflow_type"
    ∷ codes "hierarchy_level"
    ∷ codes "parent_id"
    ∷ []

-- The columns for the metadata of an archive, which only `read_duck_hunt_workflow_log` has.
abbrev pub archive_types : List LogicalType
archive_types = integer ∷ varchar ∷ []

abbrev pub archive_names : List Text
archive_names = codes "job_order" ∷ codes "job_name" ∷ []

abbrev pub workflow_row : WorkflowEvent → Row
workflow_row event =
    let e = event.base_event in
    of_bigint e.event_id
    ∷ of_varchar e.tool_name
    ∷ of_varchar (validation_event_type_to_string e.event_type)
    ∷ of_varchar e.ref_file
    ∷ unless_minus_one e.ref_line (of_integer e.ref_line)
    ∷ unless_minus_one e.ref_column (of_integer e.ref_column)
    ∷ of_varchar e.function_name
    ∷ of_varchar (validation_event_status_to_string e.status)
    ∷ of_varchar e.severity
    ∷ of_varchar e.category
    ∷ of_varchar e.error_code
    ∷ of_varchar e.message
    ∷ of_varchar e.suggestion
    ∷ of_varchar e.log_content
    ∷ of_varchar e.structured_data
    ∷ unless_minus_one e.log_line_start (of_integer e.log_line_start)
    ∷ unless_minus_one e.log_line_end (of_integer e.log_line_end)
    ∷ of_varchar e.test_name
    ∷ of_double e.execution_time
    ∷ unless_empty e.principal
    ∷ unless_empty e.origin
    ∷ unless_empty e.target
    ∷ unless_empty e.actor_type
    ∷ unless_empty e.started_at
    ∷ unless_empty e.external_id
    ∷ unless_empty e.scope
    ∷ unless_empty e.scope_id
    ∷ unless_empty e.scope_status
    ∷ unless_empty e.group
    ∷ unless_empty e.group_id
    ∷ unless_empty e.group_status
    ∷ unless_empty e.unit
    ∷ unless_empty e.unit_id
    ∷ unless_empty e.unit_status
    ∷ unless_empty e.subunit
    ∷ unless_empty e.subunit_id
    ∷ unless_empty e.fingerprint
    ∷ unless_zero e.similarity_score
    ∷ unless_minus_one e.pattern_id (of_bigint e.pattern_id)
    ∷ of_varchar event.workflow_type
    ∷ of_integer event.hierarchy_level
    ∷ of_varchar event.parent_id
    ∷ []

abbrev pub archive_values : WorkflowEvent → Row
archive_values event =
    unless_minus_one event.job_order (of_integer event.job_order) ∷ unless_empty event.job_name ∷ []

abbrev pub read_workflow_row : WorkflowEvent → Row
read_workflow_row event = workflow_row event ++ archive_values event
