-- ===== src/Plan/Graph.antt =====
-- scripts/implementation_plan.py, `validate_implementation_plan`: the part of it that reads `tasks`
-- and `execution_waves`. A plan without a list there is reported elsewhere in it.
pub mod Schedule
pub mod Sound
mod Examples
use software_builder.Prelude.{Bool, ◌&&◌, Option, none, some, List, [], ◌++◌, is_empty}
use software_builder.Prelude.Json.{Json, as_list}
use software_builder.Plan.Reports.{PlanError, ready_without_tasks, report_if}
use software_builder.Plan.Waves.{TaskIndex, read_tasks, structure_errors, wave_errors}

abbrev pub no_tasks : TaskIndex
no_tasks = record { errors = []; ids = []; depends = [] }

unfoldable pub check_tasks : Bool → Json → Option TaskIndex
check_tasks ready tasks = elim (as_list tasks) [
  | none ↦ some no_tasks
  | some ts ↦ elim (read_tasks 0 ready ts no_tasks) [
    | none ↦ none
    | some s ↦ some record s {
      errors =
          structure_errors s ++ (s.errors ++ report_if (ready && is_empty ts) ready_without_tasks);
    }
  ]
]

unfoldable pub check_waves : TaskIndex → Json → List PlanError
check_waves s waves = elim (as_list waves) [ none ↦ [] | some ws ↦ wave_errors s ws ]

-- None is a TypeError.
unfoldable pub validate_graph : Bool → Json → Json → Option (List PlanError)
validate_graph ready tasks waves = elim (check_tasks ready tasks) [
  | none ↦ none
  | some s ↦ some (s.errors ++ check_waves s waves)
]
