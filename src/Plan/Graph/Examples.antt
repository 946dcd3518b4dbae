-- ===== src/Plan/Graph/Examples.antt =====
-- The part of the validator on `tasks` and `execution_waves` at two tasks, the second of which
-- depends on the first, and an estimate that raises.
use software_builder.Prelude.{String, ◌≡◌, ◌↔◌, refl, some, none, [], ◌∷◌, true}
use software_builder.Prelude.Dict.{Dict, lookup, insert}
use software_builder.Prelude.Text.{has_text, is_space}
use software_builder.Prelude.Json.{
  Json, Items, boolean, int, string, array, object, end, item, empty, field, get, as_mapping, items,
}
use software_builder.Plan.Cycle.{
  graph_has_cycle, search_from, walk, step, step_on, advance, begin, enough, edges, dependencies,
}
use software_builder.Plan.Reports.{non_empty_str, string_list, text_in}
use software_builder.Plan.TaskCheck.{
  validate_task, task_fields, path_errors, list_fields, list_errors, valid_id,
}
use software_builder.Plan.TaskCheck.Path.{
  leaves_repo, starts_blank, ends_blank, starts_slash, is_slash, starts_drive, split_path,
  push_char,
}
use software_builder.Plan.TaskCheck.Estimate.{
  estimate_fields, is_count, is_boolean, is_zero, exceeds, is_hashable, known_errors,
  mapping_errors, prepend, validate_estimate,
}
use software_builder.Plan.TaskCheck.Raises.{Unhashable, validate_estimate-raises_iff}
use software_builder.Plan.Waves.{
  TaskIndex, add_task, read_tasks, dependency_errors, graph_errors, known_graph, structure_errors,
  is_placed, place_id, place, place_wave, place_listed, place_waves, absent_errors, is_late,
  late_of, late_errors, wave_errors,
}
use software_builder.Plan.Waves.Clean.{layers}
use software_builder.Plan.Graph.{no_tasks, check_tasks, check_waves, validate_graph}
use software_builder.Plan.Graph.Schedule.{Schedule}
use software_builder.Plan.Graph.Sound.{validate_graph-Schedule}

abbrev task_of : String → Items → Json
task_of id depends = object (
    field "task_id" (string id) (
      field "title" (string "Add the table") (
        field "task_type" (string "schema") (
          field "executor" (string "loop-task-implementer") (
            field "scope" (string "db") (
              field "target_paths" (array (item (string "db/schema.sql") end)) (
                field "acceptance_criteria" (array (item (string "it migrates") end)) (
                  field "dependencies" (array depends) (
                    field "required_tests" (array (end)) (
                      field "verification" (array (item (string "pytest") end)) (
                        field "rollout_notes" (array (end)) (
                          field "completion_evidence" (array (item (string "merged") end)) (
                            field "source_condition_refs" (array (end)) (
                              field "source_action_refs" (array (end)) (
                                field "estimated_scope"
                                  (object (
                                    field "estimate_known" (boolean true) (
                                      field "files_upper_bound" (int 2) (
                                        field "changed_lines_upper_bound" (int 40)
                                          (field "confidence" (string "HIGH") empty)))))
                                  empty)))))))))))))))

abbrev schema : Json
schema = task_of "schema" end

abbrev service : Json
service = task_of "service" (item (string "schema") end)

abbrev tasks : Json
tasks = array (item schema (item service end))

abbrev waves : Json
waves =
    array
      (item (array (item (string "schema") end)) (item (array (item (string "service") end)) end))

schema-valid :
    validate_task 0 true schema
    ≡ some record { errors = []; task_id = some "schema"; dependencies = [] }
unfolding validate_task task_fields path_errors list_fields list_errors text_in non_empty_str
    has_text is_space string_list get lookup leaves_repo starts_blank ends_blank starts_slash
    is_slash starts_drive split_path push_char validate_estimate mapping_errors prepend known_errors
    is_hashable estimate_fields is_count is_boolean is_zero exceeds valid_id
schema-valid = refl

two-clean : validate_graph true tasks waves ≡ some []
unfolding validate_task task_fields path_errors list_fields list_errors text_in non_empty_str
    has_text is_space string_list get lookup leaves_repo starts_blank ends_blank starts_slash
    is_slash starts_drive split_path push_char validate_estimate mapping_errors prepend known_errors
    is_hashable estimate_fields is_count is_boolean is_zero exceeds valid_id validate_graph
    check_tasks check_waves read_tasks add_task insert structure_errors graph_errors
    dependency_errors known_graph graph_has_cycle search_from walk step step_on advance begin enough
    edges dependencies wave_errors place_waves place_listed place_wave place place_id is_placed
    absent_errors late_errors late_of is_late
two-clean = refl

validate_graph-Schedule_example :
    (s : TaskIndex) × (read_tasks 0 true (schema ∷ service ∷ []) no_tasks ≡ some s)
    × Schedule s (
        layers (
          items (
            item
              (array (item (string "schema") end))
              (item (array (item (string "service") end)) end))))
validate_graph-Schedule_example =
    validate_graph-Schedule true tasks waves (schema ∷ service ∷ []) _ refl refl two-clean

abbrev unhashable : Json
unhashable = object (field "estimate_known" (boolean true) (field "confidence" (array end) empty))

validate_estimate-raises_iff_example :
    (validate_estimate 0 true unhashable ≡ none)
    ↔ ((e : Dict Json) × (as_mapping unhashable ≡ some e) × Unhashable e)
validate_estimate-raises_iff_example = validate_estimate-raises_iff 0 true unhashable

unhashable-raises : validate_estimate 0 true unhashable ≡ none
unfolding validate_estimate mapping_errors prepend known_errors is_hashable get lookup
unhashable-raises = refl
