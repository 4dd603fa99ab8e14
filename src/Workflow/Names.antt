-- ===== src/Workflow/Names.antt =====
-- The names of the formats of workflow logs.
use duck_hunt.Prelude.{◌≡◌, refl, Bool, true, false, text_eq, if◌then◌else◌}
use duck_hunt.Workflow.{
  WorkflowLogFormat, auto_detect, github_actions, gitlab_ci, jenkins, docker_build, spack,
  github_actions_zip, unknown_engine, workflow_log_format_to_string, string_to_workflow_log_format,
  string_to_workflow_log_format_for_parse,
}

abbrev pub is_zip : WorkflowLogFormat → Bool
is_zip github_actions_zip = true
is_zip _ = false

-- Each format of workflow logs is read back from its name by `read_duck_hunt_workflow_log`, and by
-- `parse_duck_hunt_workflow_log` too, but for the archive's format, which that does not know.
pub string_to_workflow_log_format-to_string :
    (f : WorkflowLogFormat)
    → (string_to_workflow_log_format (workflow_log_format_to_string f) ≡ f)
      × (string_to_workflow_log_format_for_parse (workflow_log_format_to_string f)
          ≡ (if is_zip f then unknown_engine else f))
unfolding string_to_workflow_log_format string_to_workflow_log_format_for_parse
    workflow_log_format_to_string text_eq
string_to_workflow_log_format-to_string auto_detect = (refl, refl)
string_to_workflow_log_format-to_string github_actions = (refl, refl)
string_to_workflow_log_format-to_string gitlab_ci = (refl, refl)
string_to_workflow_log_format-to_string jenkins = (refl, refl)
string_to_workflow_log_format-to_string docker_build = (refl, refl)
string_to_workflow_log_format-to_string spack = (refl, refl)
string_to_workflow_log_format-to_string github_actions_zip = (refl, refl)
string_to_workflow_log_format-to_string unknown_engine = (refl, refl)
