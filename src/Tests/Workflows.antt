-- ===== src/Tests/Workflows.antt =====
-- The theorems on workflow logs at concrete inputs.
use duck_hunt.Prelude.{
  ◌≡◌, refl, Bool-cases, inl, inr, true, not, List, [], ◌∷◌, All, Text, codes, is_empty, text_eq,
  arith,
}
use mathlib.Core.List.{Perm}
use duck_hunt.Prelude.Int.{ℤ, pos, ltb_ℤ}
use duck_hunt.Event.{
  ValidationEventType, ValidationEventStatus, SeverityLevel, new_event, should_emit_event,
  severity_string_to_level,
}
use duck_hunt.Parser.{ok}
use duck_hunt.Registry.Sort.{insert, stable_sort, stable_sort-IsDescending, stable_sort-Perm}
use duck_hunt.Workflow.{
  WorkflowEvent, workflow_event, WorkflowEngineParser, WorkflowEngineRegistry, no_engines,
  register_engine, find_engine, github_actions_zip,
}
use duck_hunt.Workflow.Chosen.{Sorts, Fitting, Ordered, find_engine-Fitting}
use duck_hunt.Workflow.Tables.{Engines, read_workflow_init}
use duck_hunt.Workflow.Passing.{Passing, read_workflow_init-Passing}
use duck_hunt.Diagnosis.Listed.{Listed}
use duck_hunt.Registry.{Registry}
use duck_hunt.Tests.Tables.{one_file}

abbrev priority : WorkflowEngineParser → ℤ
priority p = p.priority

abbrev by_priority : List WorkflowEngineParser → List WorkflowEngineParser
by_priority l = stable_sort priority l

insert-covers :
    (P : WorkflowEngineParser → Type 0) (x : WorkflowEngineParser) (l : List WorkflowEngineParser)
    → All P (insert priority x l)
    → P x × All P l
unfolding insert
insert-covers P x [] h = (h.0, tt)
insert-covers P x (y ∷ l) h = elim (Bool-cases (ltb_ℤ (priority x) (priority y))) [
  | inl e ↦
      let g : P y × All P (insert priority x l) = (rw e at h) in
      let (px, pl) = insert-covers P x l g.1 in (px, (g.0, pl))
  | inr e ↦ (rw e at h)
]

by_priority-covers :
    (P : WorkflowEngineParser → Type 0) (l : List WorkflowEngineParser)
    → All P (by_priority l)
    → All P l
unfolding stable_sort
by_priority-covers P [] h = tt
by_priority-covers P (x ∷ l) h =
    let (px, pl) = insert-covers P x (stable_sort priority l) h in (px, by_priority-covers P l pl)

by_priority-Sorts : Sorts by_priority
by_priority-Sorts = record {
  descends = λ l. stable_sort-IsDescending priority l;
  permutes = λ l. stable_sort-Perm priority l;
  covers = by_priority-covers;
}

abbrev critical_event : WorkflowEvent
critical_event =
    workflow_event (record (new_event ValidationEventType.summary ValidationEventStatus.error) {
      severity = codes "error";
    })

abbrev engine : Text → ℤ → WorkflowEngineParser
engine format_name priority = record {
  format_name = format_name;
  name = format_name;
  priority = priority;
  can_parse = λ s. not (is_empty s);
  parse_workflow_log = λ s. ok (critical_event ∷ []);
}

abbrev two_engines : WorkflowEngineRegistry
two_engines =
    register_engine (engine (codes "github_actions") (pos 150))
      (register_engine (engine (codes "jenkins") (pos 130)) no_engines)

two_engines-Ordered : Ordered two_engines
two_engines-Ordered h = absurd (ground (arith, h))

find_engine-Fitting_example :
    Fitting (codes "Run") two_engines.parsers (find_engine by_priority (codes "Run") two_engines).0
    × Perm (find_engine by_priority (codes "Run") two_engines).1.parsers two_engines.parsers
    × Ordered (find_engine by_priority (codes "Run") two_engines).1
    × ((find_engine by_priority (codes "Run") two_engines).1.sorted ≡ true)
find_engine-Fitting_example =
    find_engine-Fitting by_priority by_priority-Sorts (codes "Run") two_engines two_engines-Ordered

abbrev engines : Engines
engines = record {
  built_in = engine (codes "jenkins") (pos 130) ∷ [];
  sort = by_priority;
  parse_zip = λ path. ok (critical_event ∷ []);
  files = one_file;
}

zip_is_read :
    read_workflow_init engines (codes "a.zip") github_actions_zip SeverityLevel.warning two_engines
    ≡ ok (critical_event ∷ [], two_engines)
unfolding read_workflow_init should_emit_event severity_string_to_level text_eq
zip_is_read = refl

read_workflow_init-Passing_example : Passing SeverityLevel.warning (critical_event ∷ [])
read_workflow_init-Passing_example =
    read_workflow_init-Passing engines (codes "a.zip") github_actions_zip SeverityLevel.warning
      two_engines two_engines (critical_event ∷ []) zip_is_read
