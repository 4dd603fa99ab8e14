-- ===== src/Workflow.antt =====
-- The logs of workflow engines: the events and formats of
-- src/include/read_duck_hunt_workflow_log_function.hpp and src/read_duck_hunt_workflow_log_function.cpp,
-- and the helpers and the registry of src/workflow_engine_interface.cpp. The engines' parsers are
-- records of what their methods return; `std::sort` and the expressions for times are parameters.
pub mod Names
pub mod Chosen
pub mod Tables
pub mod Rows
pub mod Passing
use duck_hunt.Prelude.{
  ℕ, ◌==◌, Bool, true, false, not, ◌&&◌, ◌||◌, Option, none, some, List, [], ◌∷◌, ◌++◌, Text, codes,
  text_eq, lower, contains, is_empty, find_if, if◌then◌else◌,
}
use duck_hunt.Prelude.Int.{ℤ, pos, minus_one}
use duck_hunt.Event.{ValidationEvent, ValidationEventType, ValidationEventStatus, new_event}
use duck_hunt.Parser.{Outcome}

pub record WorkflowEvent : Type 0 where
  pub base_event : ValidationEvent
  pub workflow_type : Text
  pub hierarchy_level : ℤ
  pub parent_id : Text
  pub job_order : ℤ
  pub job_name : Text

abbrev pub workflow_event : ValidationEvent → WorkflowEvent
workflow_event base = record {
  base_event = base;
  workflow_type = [];
  hierarchy_level = pos 0;
  parent_id = [];
  job_order = minus_one;
  job_name = [];
}

pub data WorkflowLogFormat : Type 0 where
  auto_detect github_actions gitlab_ci jenkins docker_build spack github_actions_zip
        unknown_engine :
      WorkflowLogFormat

unfoldable pub workflow_log_format_to_string : WorkflowLogFormat → Text
workflow_log_format_to_string auto_detect = codes "auto"
workflow_log_format_to_string github_actions = codes "github_actions"
workflow_log_format_to_string gitlab_ci = codes "gitlab_ci"
workflow_log_format_to_string jenkins = codes "jenkins"
workflow_log_format_to_string docker_build = codes "docker_build"
workflow_log_format_to_string spack = codes "spack"
workflow_log_format_to_string github_actions_zip = codes "github_actions_zip"
workflow_log_format_to_string unknown_engine = codes "unknown"

-- The names that both readers know, and a format for the other ones.
abbrev pub engine_named : Text → WorkflowLogFormat → WorkflowLogFormat
engine_named name other =
    if text_eq name (codes "auto")
    then auto_detect
    else if text_eq name (codes "github_actions") || text_eq name (codes "github")
    then github_actions
    else if text_eq name (codes "gitlab_ci") || text_eq name (codes "gitlab")
    then gitlab_ci
    else if text_eq name (codes "jenkins")
    then jenkins
    else if text_eq name (codes "docker_build") || text_eq name (codes "docker")
    then docker_build
    else if text_eq name (codes "spack") || text_eq name (codes "spack_build")
    then spack
    else other

unfoldable pub string_to_workflow_log_format : Text → WorkflowLogFormat
string_to_workflow_log_format format_str =
    let name = lower format_str in
    engine_named name
      (if text_eq name (codes "github_actions_zip") then github_actions_zip else unknown_engine)

-- The reader of `parse_duck_hunt_workflow_log` knows no archives.
unfoldable pub string_to_workflow_log_format_for_parse : Text → WorkflowLogFormat
string_to_workflow_log_format_for_parse format_str = engine_named (lower format_str) unknown_engine

unfoldable pub detect_workflow_log_format : Text → WorkflowLogFormat
detect_workflow_log_format content =
    let has : Text → Bool = λ p. contains p content in
    if has (codes "##[group]")
      || has (codes "##[endgroup]")
      || has (codes "::group::")
      || has (codes "::endgroup::")
      || has (codes "Run actions/")
    then github_actions
    else if has (codes "Running with gitlab-runner")
        || has (codes "Preparing the \"docker\"")
        || (has (codes "$ docker run") && has (codes "gitlab"))
        || (has (codes "Job succeeded") && has (codes "Pipeline #"))
    then gitlab_ci
    else if has (codes "Started by user")
        || has (codes "Building in workspace")
        || has (codes "Finished: SUCCESS")
        || has (codes "Finished: FAILURE")
        || has (codes "[Pipeline]")
    then jenkins
    else if (has (codes "Step ") && has (codes "/"))
        || has (codes "Sending build context to Docker daemon")
        || has (codes "Successfully built")
        || has (codes "Successfully tagged")
        || has (codes "COPY --from=")
    then docker_build
    else if has (codes "==> ")
        && (has (codes "Executing phase:")
            || has (codes "spack-stage")
            || has (codes "spack/opt/spack"))
    then spack
    else unknown_engine

unfoldable pub determine_severity : Text → Text → Text
determine_severity status message =
    let in_status : Text → Bool = λ p. contains p (lower status) in
    let in_message : Text → Bool = λ p. contains p (lower message) in
    if in_status (codes "fail")
      || in_status (codes "error")
      || in_message (codes "error")
      || in_message (codes "fail")
    then codes "error"
    else if in_status (codes "warn") || in_message (codes "warn") || in_message (codes "deprecated")
    then codes "warning"
    else codes "info"

-- `WorkflowEngineParser`.
pub record WorkflowEngineParser : Type 0 where
  pub format_name : Text
  pub name : Text
  pub priority : ℤ
  pub can_parse : Text → Bool
  pub parse_workflow_log : Text → Outcome (List WorkflowEvent)

-- The expressions for times, in the order in which they are looked for.
pub data TimePattern : Type 0 where
  iso simple bracketed generic : TimePattern

abbrev pub first_time : (TimePattern → Text → Option Text) → List TimePattern → Text → Text
first_time search [] line = []
first_time search (p ∷ ps) line = elim (search p line) [
  | none ↦ first_time search ps line
  | some t ↦ t
]

-- `regex_search` for a pattern is the argument.
abbrev pub extract_timestamp : (TimePattern → Text → Option Text) → Text → Text
extract_timestamp search line = first_time search (iso ∷ simple ∷ bracketed ∷ generic ∷ []) line

abbrev pub create_base_event :
    (TimePattern → Text → Option Text)
    → WorkflowEngineParser
    → Text
    → Text
    → Text
    → Text
    → ValidationEvent
create_base_event search p raw_line scope_name group_name unit_name =
    record (new_event ValidationEventType.summary ValidationEventStatus.info) {
      tool_name = p.format_name;
      log_content = raw_line;
      message = raw_line;
      severity = codes "info";
      category = codes "workflow";
      scope = scope_name;
      group = group_name;
      unit = unit_name;
      started_at = extract_timestamp search raw_line;
    }

pub record WorkflowEngineRegistry : Type 0 where
  pub parsers : List WorkflowEngineParser
  pub sorted : Bool

abbrev pub no_engines : WorkflowEngineRegistry
no_engines = record { parsers = []; sorted = false }

abbrev pub register_engine : WorkflowEngineParser → WorkflowEngineRegistry → WorkflowEngineRegistry
register_engine p r = record { parsers = r.parsers ++ (p ∷ []); sorted = false }

-- The first of the parsers in their present order.
abbrev pub get_engine : Text → WorkflowEngineRegistry → Option WorkflowEngineParser
get_engine format_name r = find_if (λ p. text_eq p.format_name format_name) r.parsers

module _ (sort : List WorkflowEngineParser → List WorkflowEngineParser) where
  unfoldable pub ensure_sorted : WorkflowEngineRegistry → WorkflowEngineRegistry
  ensure_sorted r = if r.sorted then r else record { parsers = sort r.parsers; sorted = true }

  unfoldable pub find_engine :
      Text → WorkflowEngineRegistry → Option WorkflowEngineParser × WorkflowEngineRegistry
  find_engine content r =
      let r' = ensure_sorted r in (find_if (λ p. p.can_parse content) r'.parsers, r')
