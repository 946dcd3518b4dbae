-- ===== src/Plan/Waves.antt =====
-- scripts/implementation_plan.py, `validate_implementation_plan`: the loops over `tasks` and
-- `execution_waves`, with the checks of the dependencies. The order of the messages is not kept: the
-- source sorts them at the end.
pub mod Placed
pub mod Clean
pub mod Layered
use text.Mathlib.Text.{◌==◌}
use software_builder.Prelude.{
  ℕ, suc, String, Bool, true, false, not, ◌&&◌, Option, none, some, List, [], ◌∷◌, ◌++◌, keep, leb,
}
use software_builder.Prelude.Dict.{Dict, lookup, insert}
use software_builder.Prelude.Json.{Json, string, as_list}
use software_builder.Prelude.Text.{elem}
use software_builder.Plan.Cycle.{Graph, graph_has_cycle}
use software_builder.Plan.Reports.{
  PlanError, duplicate_task, self_dependency, unknown_wave_task, repeated_in_waves,
  absent_from_waves, cyclic_tasks, unknown_dependency, late_dependency, wave_not_list,
  wave_id_not_text, report_if,
}
use software_builder.Plan.TaskCheck.{TaskReport, validate_task}

-- `task_ids` and `dependency_map`, and the messages so far.
pub record TaskIndex : Type 0 where
  pub errors : List PlanError
  pub ids : List String
  pub depends : Graph

unfoldable pub add_task : List PlanError → Option String → List String → TaskIndex → TaskIndex
add_task errors none ds s = record s { errors = errors ++ s.errors }
add_task errors (some t) ds s = record {
  errors = errors ++ (report_if (elem t s.ids) (duplicate_task t) ++ s.errors);
  ids = s.ids ++ t ∷ [];
  depends = insert t ds s.depends;
}

-- None is the TypeError of a task.
unfoldable pub read_tasks : ℕ → Bool → List Json → TaskIndex → Option TaskIndex
read_tasks index ready [] s = some s
read_tasks index ready (task ∷ tasks) s = elim (validate_task index ready task) [
  | none ↦ none
  | some r ↦ read_tasks (suc index) ready tasks (add_task r.errors r.task_id r.dependencies s)
]

unfoldable pub dependency_errors : List String → String → List String → List PlanError
dependency_errors ids t [] = []
dependency_errors ids t (d ∷ ds) =
    report_if (not (elem d ids)) (unknown_dependency t d)
    ++ (report_if (d == t) (self_dependency t) ++ dependency_errors ids t ds)

unfoldable pub graph_errors : List String → Graph → List PlanError
graph_errors ids [] = []
graph_errors ids ((t, ds) ∷ graph) = dependency_errors ids t ds ++ graph_errors ids graph

-- The dependencies that are tasks of the plan.
unfoldable pub known_graph : List String → Graph → Graph
known_graph ids [] = []
known_graph ids ((t, ds) ∷ graph) = (t, keep (λ d. elem d ids) ds) ∷ known_graph ids graph

unfoldable pub structure_errors : TaskIndex → List PlanError
structure_errors s =
    graph_errors s.ids s.depends
    ++ report_if (graph_has_cycle (known_graph s.ids s.depends) s.ids) cyclic_tasks

-- `wave_positions`, and the messages so far.
pub record Placing : Type 0 where
  pub errors : List PlanError
  pub positions : Dict ℕ

unfoldable pub is_placed : String → Dict ℕ → Bool
is_placed t positions = elim (lookup t positions) [ none ↦ false | some w ↦ true ]

unfoldable pub place_id : List String → ℕ → String → Bool → Placing → Placing
place_id ids w t false s = record s { errors = unknown_wave_task t ∷ s.errors }
place_id ids w t true s = record {
  errors = report_if (is_placed t s.positions) (repeated_in_waves t) ++ s.errors;
  positions = insert t w s.positions;
}

unfoldable pub place : List String → ℕ → Json → Placing → Placing
place ids w (string t) s = place_id ids w t (elem t ids) s
place ids w _ s = record s { errors = wave_id_not_text w ∷ s.errors }

unfoldable pub place_wave : List String → ℕ → List Json → Placing → Placing
place_wave ids w [] s = s
place_wave ids w (j ∷ js) s = place_wave ids w js (place ids w j s)

unfoldable pub place_listed : List String → ℕ → Option (List Json) → Placing → Placing
place_listed ids w none s = record s { errors = wave_not_list w ∷ s.errors }
place_listed ids w (some js) s = place_wave ids w js s

unfoldable pub place_waves : List String → ℕ → List Json → Placing → Placing
place_waves ids w [] s = s
place_waves ids w (wave ∷ waves) s =
    place_waves ids (suc w) waves (place_listed ids w (as_list wave) s)

unfoldable pub absent_errors : Dict ℕ → List String → List PlanError
absent_errors positions [] = []
absent_errors positions (t ∷ ids) =
    report_if (not (is_placed t positions)) (absent_from_waves t) ++ absent_errors positions ids

-- The dependency does not stand in an earlier wave, where both have one.
unfoldable pub is_late : Option ℕ → Option ℕ → Bool
is_late (some d) (some t) = leb t d
is_late _ _ = false

unfoldable pub late_of : Dict ℕ → String → List String → List PlanError
late_of positions t [] = []
late_of positions t (d ∷ ds) =
    report_if (is_late (lookup d positions) (lookup t positions)) (late_dependency t d)
    ++ late_of positions t ds

unfoldable pub late_errors : Dict ℕ → Graph → List PlanError
late_errors positions [] = []
late_errors positions ((t, ds) ∷ graph) = late_of positions t ds ++ late_errors positions graph

unfoldable pub wave_errors : TaskIndex → List Json → List PlanError
wave_errors s waves =
    let placing = place_waves s.ids 0 waves record { errors = []; positions = [] } in
    placing.errors
    ++ (absent_errors placing.positions s.ids ++ late_errors placing.positions s.depends)
