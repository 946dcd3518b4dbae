-- ===== src/Plan/TaskCheck/Estimate.antt =====
-- scripts/implementation_plan.py, `_validate_estimate`.
use software_builder.Prelude.{
  ℕ, String, Bool, true, false, not, ◌||◌, Option, none, some, List, [], ◌∷◌, ◌++◌, nat_eq, ltb,
  if◌then◌else◌,
}
use software_builder.Prelude.Dict.{Dict}
use software_builder.Prelude.Json.{Json, boolean, int, float, array, object, get, as_mapping, keys}
use software_builder.Prelude.Text.{elem}
use software_builder.Plan.Reports.{
  PlanError, estimate_not_mapping, bad_estimate_known, bad_confidence, unknown_not_zero,
  ready_unknown, known_without_confidence, too_many_files, too_many_lines, undeclared_estimate,
  missing_estimate, bad_bound, report_if, report_fields, without, text_in,
}

unfoldable pub estimate_fields : List String
estimate_fields =
    "estimate_known" ∷ "files_upper_bound" ∷ "changed_lines_upper_bound" ∷ "confidence" ∷ []

unfoldable pub is_count : Json → Bool
is_count (int n) = true
is_count _ = false

unfoldable pub is_boolean : Json → Bool
is_boolean (boolean b) = true
is_boolean _ = false

-- `value == 0`
unfoldable pub is_zero : Json → Bool
is_zero (int n) = nat_eq n 0
is_zero (boolean b) = not b
is_zero (float s) = elem s ("0.0" ∷ "-0.0" ∷ [])
is_zero _ = false

-- `isinstance(value, int) and value > limit`, for a limit above 0
unfoldable pub exceeds : ℕ → Json → Bool
exceeds limit (int n) = ltb limit n
exceeds limit _ = false

-- `confidence not in {"HIGH", "MEDIUM"}` raises on a value that cannot be hashed.
unfoldable pub is_hashable : Json → Bool
is_hashable (array js) = false
is_hashable (object fs) = false
is_hashable _ = true

-- The checks that depend on `estimate_known`; none is a TypeError.
unfoldable pub known_errors : ℕ → Bool → Json → Json → Json → Json → Option (List PlanError)
unfolding text_in is_zero exceeds is_hashable
known_errors index ready (boolean false) files lines confidence = some (
    report_if
      (not (is_zero files) || not (is_zero lines) || not (text_in ("UNKNOWN" ∷ []) confidence))
      (unknown_not_zero index)
    ++ report_if ready (ready_unknown index))
known_errors index ready (boolean true) files lines confidence =
    if is_hashable confidence
    then some (
        report_if (not (text_in ("HIGH" ∷ "MEDIUM" ∷ []) confidence))
          (known_without_confidence index)
        ++ (report_if (exceeds 40 files) (too_many_files index)
            ++ report_if (exceeds 1500 lines) (too_many_lines index)))
    else none
known_errors index ready _ files lines confidence = some []

unfoldable pub prepend : List PlanError → Option (List PlanError) → Option (List PlanError)
prepend errors none = none
prepend errors (some later) = some (errors ++ later)

unfoldable pub mapping_errors : ℕ → Bool → Dict Json → Option (List PlanError)
unfolding estimate_fields is_count is_boolean
mapping_errors index ready estimate =
    let files = get "files_upper_bound" estimate in
    let lines = get "changed_lines_upper_bound" estimate in
    let confidence = get "confidence" estimate in
    let undeclared = without (keys estimate) estimate_fields in
    let missing = without estimate_fields (keys estimate) in
    prepend
      (report_fields undeclared (undeclared_estimate index undeclared)
        ++ (report_fields missing (missing_estimate index missing)
            ++ (report_if (not (is_boolean (get "estimate_known" estimate)))
                  (bad_estimate_known index)
                ++ (report_if (not (is_count files)) (bad_bound index "files_upper_bound")
                    ++ (report_if (not (is_count lines))
                          (bad_bound index "changed_lines_upper_bound")
                        ++ report_if
                            (not (text_in ("HIGH" ∷ "MEDIUM" ∷ "LOW" ∷ "UNKNOWN" ∷ []) confidence))
                            (bad_confidence index))))))
      (known_errors index ready (get "estimate_known" estimate) files lines confidence)

unfoldable pub validate_estimate : ℕ → Bool → Json → Option (List PlanError)
validate_estimate index ready value = elim (as_mapping value) [
  | none ↦ some (estimate_not_mapping index ∷ [])
  | some estimate ↦ mapping_errors index ready estimate
]
