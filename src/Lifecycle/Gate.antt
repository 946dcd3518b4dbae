-- ===== src/Lifecycle/Gate.antt =====
-- skills/loop-task-implementer/scripts/validate_loop_lifecycle.py: `validate_lifecycle_state` and
-- `_merge_policy_errors`.
use software_builder.Prelude.{
  String, Bool, true, false, not, ◌&&◌, ◌||◌, none, some, List, [], ◌∷◌, ◌++◌, map, join,
  if◌then◌else◌,
}
use software_builder.Prelude.Dict.{Dict, lookup}
use software_builder.Prelude.Json.{Json, boolean, string, object, fields, get, as_mapping}
use software_builder.Lifecycle.Contract.{ReviewContract}
use software_builder.Lifecycle.{
  ContractError, lens_a, lens_b, LifecycleError, not_an_object, no_requirements,
  third_party_not_boolean, no_conflict, conflict_not_boolean, conflict_without_provenance,
  other_head, no_head, no_checked_head, checked_other_head, lenses_differ, third_party_changed,
  third_party_not_false, checks_not_green, checks_of_other_head, criteria_incomplete, blockers_open,
  evidence_unresolved, no_approvals, threads_open, integration_invalid, breaker_active,
  in_current_identity, in_lens, require, mapping, text_is, is_true, is_false, is_zero, is_boolean,
  is_null, given_text, same_hex,
}
use software_builder.Lifecycle.Reviewed.{equal, lens_errors}

module _ (lower : String → String) (float_eq : String → Json → Bool)
    (contract : ReviewContract lower) where
  abbrev pub merge_policy_sections : Dict Json → List (List LifecycleError)
  merge_policy_sections readiness =
      require (is_true (get "acceptance_criteria_complete" readiness)) criteria_incomplete
      ∷ require (is_zero (get "accepted_blocking_findings_open" readiness)) blockers_open
      ∷ require (is_zero (get "security_sensitive_needs_evidence_unresolved" readiness))
          evidence_unresolved
      ∷ require (is_true (get "required_approvals_present" readiness)) no_approvals
      ∷ require (is_zero (get "blocking_threads_open" readiness)) threads_open
      ∷ require (is_true (get "integration_state_valid" readiness)) integration_invalid
      ∷ require (is_false (get "circuit_breaker_active" readiness)) breaker_active
      ∷ []

  unfoldable pub merge_policy_errors : Dict Json → List LifecycleError
  merge_policy_errors readiness = join (merge_policy_sections readiness)

  abbrev pub has_key : String → Dict Json → Bool
  has_key k d = elim (lookup k d) [ none ↦ false | some j ↦ true ]

  abbrev pub conflict_sections : Dict Json → List (List LifecycleError)
  conflict_sections workspace =
      require (has_key "conflict_resolution_occurred" workspace) no_conflict
      ∷ require
          (is_null (get "conflict_resolution_occurred" workspace)
            || is_boolean (get "conflict_resolution_occurred" workspace))
          conflict_not_boolean
      ∷ require
          (not (is_true (get "conflict_resolution_occurred" workspace))
            || given_text (get "conflict_resolution_provenance" workspace))
          conflict_without_provenance
      ∷ []

  unfoldable pub conflict_errors : Dict Json → List LifecycleError
  conflict_errors workspace = join (conflict_sections workspace)

  unfoldable pub head_errors : Json → Json → List LifecycleError
  head_errors (object fs) (string h) =
      require (same_hex lower (get "head_sha" (fields fs)) (string h)) other_head
  head_errors _ (string h) = []
  head_errors _ _ = no_head ∷ []

  unfoldable pub checked_head_errors : Json → Json → List LifecycleError
  checked_head_errors (string c) head = require (same_hex lower (string c) head) checked_other_head
  checked_head_errors _ head = no_checked_head ∷ []

  unfoldable pub lens_pair_errors : Dict Json → Dict Json → List LifecycleError
  lens_pair_errors a b =
      require
        (not (text_is "CLEAN" (get "status" a) && text_is "CLEAN" (get "status" b))
          || equal lower float_eq contract (get "reviewed_change_identity" a)
              (get "reviewed_change_identity" b))
        lenses_differ

  unfoldable pub third_party_errors : Json → List LifecycleError
  third_party_errors (boolean b) = require (not b) third_party_changed
  third_party_errors _ = third_party_not_false ∷ []

  unfoldable pub checks_errors : Dict Json → Json → List LifecycleError
  checks_errors ci head =
      if not (is_true (get "required_checks_green" ci))
      then checks_not_green ∷ []
      else require (same_hex lower (get "commit" ci) head) checks_of_other_head

  -- The errors of both lenses, where the current identity has none.
  unfoldable pub both_lenses :
      List ContractError → Dict Json → Dict Json → Dict Json → Dict Json → List LifecycleError
  both_lenses [] task workspace a b =
      let of_lens =
        lens_errors lower float_eq contract (get "change_identity" workspace)
          (lookup "requirements_ref" task) (get "conflict_resolution_occurred" workspace)
          (get "conflict_resolution_provenance" workspace) in
      map (in_lens lens_a) (of_lens a) ++ map (in_lens lens_b) (of_lens b)
  both_lenses (e ∷ es) task workspace a b = []

  abbrev pub lifecycle_sections :
      Dict Json
      → Dict Json
      → Dict Json
      → Dict Json
      → Dict Json
      → Dict Json
      → List (List LifecycleError)
  lifecycle_sections task workspace a b ci readiness =
      let identity_errors = contract.validate_change_identity (get "change_identity" workspace) in
      let head = get "current_head_commit" workspace in
      require (has_key "requirements_ref" task) no_requirements
      ∷ require (is_boolean (get "third_party_change_detected" workspace)) third_party_not_boolean
      ∷ conflict_errors workspace
      ∷ map in_current_identity identity_errors
      ∷ head_errors (get "change_identity" workspace) head
      ∷ checked_head_errors (get "third_party_change_checked_head" workspace) head
      ∷ both_lenses identity_errors task workspace a b
      ∷ lens_pair_errors a b
      ∷ third_party_errors (get "third_party_change_detected" workspace)
      ∷ checks_errors ci head
      ∷ merge_policy_errors readiness
      ∷ []

  unfoldable pub validate_lifecycle_state : Json → List LifecycleError
  validate_lifecycle_state state = elim (as_mapping state) [
    | none ↦ not_an_object ∷ []
    | some s ↦
        let part = λ (name : String). mapping (get name s) in
        join (
          lifecycle_sections (part "task") (part "workspace")
            (mapping (get "lens_a" (part "review"))) (mapping (get "lens_b" (part "review")))
            (part "ci") (part "merge_readiness"))
  ]
