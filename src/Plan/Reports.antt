-- ===== src/Plan/Reports.antt =====
-- scripts/implementation_plan.py: the messages of the plan's validator, each a constructor with the
-- place of the task and the values that its text quotes, and `string_list` and `non_empty_str` of
-- scripts/registry/validation_primitives.py.
use software_builder.Prelude.{
  ℕ, String, Bool, true, false, not, ◌&&◌, none, some, List, [], ◌∷◌, keep, all, is_empty,
  if◌then◌else◌,
}
use software_builder.Prelude.Json.{Json, string, as_list, as_text}
use software_builder.Prelude.Text.{elem, has_text}

pub data PlanError : Type 0 where
  task_not_mapping path_outside bad_task_id bad_task_type bad_executor : ℕ → PlanError
  undeclared_fields missing_fields : ℕ → List String → PlanError
  empty_text not_string_list empty_list : ℕ → String → PlanError
  estimate_not_mapping bad_estimate_known bad_confidence unknown_not_zero ready_unknown
        known_without_confidence too_many_files too_many_lines :
      ℕ → PlanError
  undeclared_estimate missing_estimate : ℕ → List String → PlanError
  bad_bound : ℕ → String → PlanError
  not_a_list duplicate_task self_dependency unknown_wave_task repeated_in_waves absent_from_waves :
      String → PlanError
  ready_without_tasks cyclic_tasks : PlanError
  unknown_dependency late_dependency : String → String → PlanError
  wave_not_list wave_id_not_text : ℕ → PlanError
  elsewhere : String → PlanError

abbrev pub report_if : Bool → PlanError → List PlanError
report_if true e = e ∷ []
report_if false e = []

-- The items of the first list that are not in the second.
abbrev pub without : List String → List String → List String
without xs ys = keep (λ x. not (elem x ys)) xs

abbrev pub report_fields : List String → PlanError → List PlanError
report_fields names e = report_if (not (is_empty names)) e

-- The strings of a list; a list, and what is no list.
abbrev pub texts : List Json → List String
texts [] = []
texts (j ∷ js) = let rest = texts js in elim (as_text j) [ none ↦ rest | some s ↦ s ∷ rest ]

abbrev pub list_of : Json → List Json
list_of j = elim (as_list j) [ none ↦ [] | some js ↦ js ]

unfoldable pub non_empty_str : Json → Bool
non_empty_str (string s) = has_text s
non_empty_str _ = false

unfoldable pub string_list : ℕ → String → Bool → Json → List PlanError
string_list index name allow_empty value = elim (as_list value) [
  | none ↦ not_string_list index name ∷ []
  | some values ↦
      if not (all non_empty_str values)
      then not_string_list index name ∷ []
      else report_if (not allow_empty && is_empty values) (empty_list index name)
]

unfoldable pub text_in : List String → Json → Bool
text_in names value = elim (as_text value) [ none ↦ false | some s ↦ elem s names ]
