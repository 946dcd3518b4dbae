-- ===== src/Lifecycle/Examples.antt =====
-- A state of the loop for which the gate opens.
use software_builder.Prelude.{String, Bool, true, false, [], ◌≡◌, refl}
use software_builder.Prelude.Dict.{lookup}
use software_builder.Prelude.Json.{
  Json, null, boolean, int, string, array, object, end, item, empty, field, Fields, fields, get,
}
use software_builder.Prelude.Text.{has_text, is_space}
use software_builder.Lifecycle.Contract.{
  identity_fresh, effective_patch_unchanged, same_or_rebased, portable_value, same_canonical,
}
use software_builder.Lifecycle.{same}
use software_builder.Lifecycle.Reviewed.{
  identity_shas_changed, clean_evidence_semantic_errors, isolated_errors, exception_errors,
  isolation_errors, reviewed_errors, transition_errors, conflict_for_shared, lens_errors,
}
use software_builder.Lifecycle.Gate.{
  merge_policy_errors, conflict_errors, head_errors, checked_head_errors, lens_pair_errors,
  third_party_errors, checks_errors, both_lenses, validate_lifecycle_state,
}
use software_builder.Lifecycle.Canonical.{text_leb, is_sorted, all_distinct, valid_repo_path}
use software_builder.Lifecycle.Identity.{
  is_sha, is_fingerprint, paths_errors, subset_errors, changes_errors, validate_change_identity,
}
use software_builder.Lifecycle.Evidence.{
  review_contract, unable_errors, unable_entry_errors, findings_errors, buckets_errors,
  entries_errors, entry_errors, requirements_errors, current_requirements_errors, current_errors,
  validate_review_evidence,
}
use software_builder.Lifecycle.Ready.{Ready}
use software_builder.Lifecycle.Safe.{validate_lifecycle_state-Ready}

abbrev as_is : String → String
as_is s = s

abbrev no_float : String → Json → Bool
no_float r j = false

abbrev base : Json
base = string "bbbbbbbbbbbbbbbbbbbbbbbbbbbbbbbbbbbbbbbb"

abbrev head : Json
head = string "abcdef0123abcdef0123abcdef0123abcdef0123"

abbrev fingerprint : Json
fingerprint = string "0f0f0f0f0f0f0f0f0f0f0f0f0f0f0f0f0f0f0f0f0f0f0f0f0f0f0f0f0f0f0f0f"

abbrev paths : Json
paths = array (item (string "docs/a.md") (item (string "src/a.py") end))

abbrev identity : Json
identity = object (
    field "schema_version" (int 1) (
      field "base_sha" base (
        field "head_sha" head (
          field "merge_base_sha" base (
            field "normalized_diff_fingerprint" fingerprint (
              field "changed_paths" paths (
                field "generated_paths" (array end) (
                  field "dependency_changes" (array end)
                    (field "config_changes" (array end) empty)))))))))

abbrev no_findings : Json
no_findings = object (
    field "defect" (array end)
      (field "suggestion" (array end) (field "question" (array end) empty)))

abbrev evidence : Json
evidence = object (
    field "schema_version" (int 1) (
      field "change_identity" identity (
        field "requirements_ref" null (
          field "review_mode" (string "normal") (
            field "inspection_status" (string "complete") (
              field "inspected_surfaces" (array (item (string "code") end)) (
                field "unable_to_inspect" (array end) (
                  field "findings" no_findings
                    (field "generated_at" (string "2026-01-01") empty)))))))))

abbrev isolated : Json
isolated = object (
    field "status" (string "CLEAN") (
      field "review_evidence" evidence (
        field "reviewed_change_identity" identity (
          field "review_generation" (int 2) (
            field "review_evidence_generation" (int 2) (
              field "isolation_status" (string "ISOLATED")
                (field "isolation_exception_authorized" (boolean false) empty)))))))

abbrev excepted : Json
excepted = object (
    field "status" (string "CLEAN") (
      field "review_evidence" evidence (
        field "reviewed_change_identity" identity (
          field "review_generation" (int 2) (
            field "review_evidence_generation" (int 2) (
              field "isolation_status" (string "NOT_ISOLATED") (
                field "isolation_exception_authorized" (boolean true) (
                  field "isolation_exception_provenance" (string "owner") (
                    field "isolation_exception_change_identity" identity
                      (field "isolation_exception_review_generation" (int 2) empty))))))))))

abbrev workspace : Json
workspace = object (
    field "change_identity" identity (
      field "current_head_commit" head (
        field "third_party_change_detected" (boolean false) (
          field "third_party_change_checked_head" head
            (field "conflict_resolution_occurred" null empty)))))

abbrev readiness : Json
readiness = object (
    field "acceptance_criteria_complete" (boolean true) (
      field "accepted_blocking_findings_open" (int 0) (
        field "security_sensitive_needs_evidence_unresolved" (int 0) (
          field "required_approvals_present" (boolean true) (
            field "blocking_threads_open" (int 0) (
              field "integration_state_valid" (boolean true)
                (field "circuit_breaker_active" (boolean false) empty)))))))

abbrev state : Json
state = object (
    field "task" (object (field "requirements_ref" null empty)) (
      field "workspace" workspace (
        field "review" (object (field "lens_a" isolated (field "lens_b" excepted empty))) (
          field "ci"
            (object (field "required_checks_green" (boolean true) (field "commit" head empty)))
            (field "merge_readiness" readiness empty)))))

state_passes : validate_lifecycle_state as_is no_float (review_contract as_is) state ≡ []
unfolding identity_fresh effective_patch_unchanged same_or_rebased portable_value same_canonical
    validate_lifecycle_state merge_policy_errors conflict_errors head_errors checked_head_errors
    lens_pair_errors third_party_errors checks_errors both_lenses lens_errors identity_shas_changed
    clean_evidence_semantic_errors isolated_errors exception_errors isolation_errors reviewed_errors
    transition_errors conflict_for_shared same get lookup has_text is_space validate_change_identity
    is_sha is_fingerprint paths_errors subset_errors changes_errors text_leb is_sorted all_distinct
    valid_repo_path unable_errors unable_entry_errors findings_errors buckets_errors entries_errors
    entry_errors requirements_errors current_requirements_errors current_errors
    validate_review_evidence
state_passes = refl

validate_lifecycle_state-Ready_example :
    (fs : Fields) × (state ≡ object fs) × Ready as_is no_float (review_contract as_is) (fields fs)
validate_lifecycle_state-Ready_example =
    validate_lifecycle_state-Ready as_is no_float state state_passes
