-- ===== src/Plan/TaskCheck.antt =====
-- scripts/implementation_plan.py, `_validate_task`.
use text.Mathlib.Text.{◌==◌}
use software_builder.Prelude.{
  ℕ, zero, suc, String, Bool, true, false, not, ◌&&◌, ◌||◌, Option, none, some, List, [], ◌∷◌, ◌++◌,
  keep, all, any, is_empty, nat_eq, ltb, if◌then◌else◌,
}
use software_builder.Prelude.Dict.{Dict}
use software_builder.Prelude.Json.{
  Json, null, boolean, int, negative, float, string, array, object, get, as_mapping, as_list,
  as_text, keys,
}
use software_builder.Prelude.Text.{elem, has_text, append, Char, code, is_space}
use software_builder.Plan.Reports.{
  PlanError, task_not_mapping, bad_task_id, bad_task_type, bad_executor, path_outside,
  undeclared_fields, missing_fields, empty_text, not_string_list, empty_list, estimate_not_mapping,
  bad_estimate_known, bad_confidence, unknown_not_zero, ready_unknown, known_without_confidence,
  too_many_files, too_many_lines, undeclared_estimate, missing_estimate, bad_bound, report_if,
  report_fields, without, non_empty_str, string_list, text_in, texts, list_of,
}
use software_builder.Plan.TaskCheck.Estimate.{validate_estimate}
use software_builder.Plan.TaskCheck.Path.{leaves_repo}
pub mod Estimate
pub mod Path
pub mod Raises

unfoldable pub task_fields : List String
task_fields =
    "task_id" ∷ "title" ∷ "task_type" ∷ "executor" ∷ "scope" ∷ "target_paths"
    ∷ "acceptance_criteria" ∷ "dependencies" ∷ "required_tests" ∷ "verification" ∷ "rollout_notes"
    ∷ "completion_evidence" ∷ "source_condition_refs" ∷ "source_action_refs" ∷ "estimated_scope"
    ∷ []

unfoldable pub path_errors : ℕ → List Json → List PlanError
path_errors index [] = []
path_errors index (path ∷ paths) =
    report_if (elim (as_text path) [ none ↦ false | some p ↦ leaves_repo p ]) (path_outside index)
    ++ path_errors index paths

-- Each of the lists with its name, and whether it may be empty.
unfoldable pub list_fields : List (String × Bool)
list_fields =
    ("target_paths", false)
    ∷ ("acceptance_criteria", false)
    ∷ ("dependencies", true)
    ∷ ("required_tests", true)
    ∷ ("verification", false)
    ∷ ("rollout_notes", true)
    ∷ ("completion_evidence", false)
    ∷ ("source_condition_refs", true)
    ∷ ("source_action_refs", true)
    ∷ []

unfoldable pub list_errors : ℕ → Dict Json → List (String × Bool) → List PlanError
list_errors index task [] = []
list_errors index task ((name, allow_empty) ∷ names) =
    string_list index name allow_empty (get name task) ++ list_errors index task names

pub record TaskReport : Type 0 where
  pub errors : List PlanError
  pub task_id : Option String
  pub dependencies : List String

unfoldable pub valid_id : Json → Option String
valid_id j = if non_empty_str j then as_text j else none

-- None is the TypeError of the estimate.
unfoldable pub validate_task : ℕ → Bool → Json → Option TaskReport
unfolding task_fields path_errors list_fields list_errors text_in
validate_task index ready value = elim (as_mapping value) [
  | none ↦ some record { errors = task_not_mapping index ∷ []; task_id = none; dependencies = [] }
  | some task ↦
      let undeclared = without (keys task) task_fields in
      let missing = without task_fields (keys task) in
      elim (validate_estimate index ready (get "estimated_scope" task)) [
        | none ↦ none
        | some estimate_errors ↦ some record {
          errors =
              report_fields undeclared (undeclared_fields index undeclared)
              ++ (report_fields missing (missing_fields index missing)
                  ++ (report_if (not (non_empty_str (get "task_id" task))) (bad_task_id index)
                      ++ (report_if (not (non_empty_str (get "title" task)))
                            (empty_text index "title")
                          ++ (report_if (not (non_empty_str (get "scope" task)))
                                (empty_text index "scope")
                              ++ (report_if
                                    (not (
                                      text_in
                                        ("code" ∷ "config" ∷ "schema" ∷ "migration" ∷ "other" ∷ [])
                                        (get "task_type" task)))
                                    (bad_task_type index)
                                  ++ (report_if
                                        (not (
                                          text_in ("loop-task-implementer" ∷ [])
                                            (get "executor" task)))
                                        (bad_executor index)
                                      ++ (list_errors index task list_fields
                                          ++ (path_errors index (list_of (get "target_paths" task))
                                              ++ estimate_errors))))))));
          task_id = valid_id (get "task_id" task);
          dependencies = texts (list_of (get "dependencies" task));
        }
      ]
]
