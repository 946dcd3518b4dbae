-- ===== src/Lifecycle/Safe.antt =====
-- skills/loop-task-implementer/scripts/validate_loop_lifecycle.py: the gate opens only for a state that is
-- ready.
use software_builder.Prelude.{subst, String, Bool, true, some, [], ◌≡◌, inl, inr, join, join-nil}
use software_builder.Prelude.Dict.{Dict, lookup}
use software_builder.Prelude.Json.{Json, string, object, Fields, fields, get, as_mapping-cases}
use software_builder.Lifecycle.Contract.{identity_fresh-unflagged, ReviewContract}
use software_builder.Lifecycle.Evidence.{review_contract}
use software_builder.Lifecycle.{in_current_identity, same_hex}
use software_builder.Lifecycle.Tests.{require-nil}
use software_builder.Lifecycle.Reviewed.{equal}
use software_builder.Lifecycle.Accepted.{Accepted, map-nil}
use software_builder.Lifecycle.Gate.{lens_pair_errors, lifecycle_sections, validate_lifecycle_state}
use software_builder.Lifecycle.Ready.{
  part, lens_of, Ready, has_key-lookup, head_errors-nil, checked_head_errors-nil,
  third_party_errors-nil, checks_errors-nil, both_lenses-Accepted, merge_policy_errors-Mergeable,
}

module _ (lower : String → String) (float_eq : String → Json → Bool)
    (contract : ReviewContract lower) where
  lens_pair_errors-nil :
      (a b : Dict Json)
      → get "status" a ≡ string "CLEAN"
      → get "status" b ≡ string "CLEAN"
      → lens_pair_errors lower float_eq contract a b ≡ []
      → equal lower float_eq contract
          (get "reviewed_change_identity" a)
          (get "reviewed_change_identity" b)
        ≡ true
  unfolding lens_pair_errors
  lens_pair_errors-nil a b clean_a clean_b h =
      require-nil _ _ (rw (lens_pair_errors, clean_a, clean_b) at h)

  sections-Ready :
      (s : Dict Json)
      → join (
          lifecycle_sections lower float_eq contract
            (part "task" s)
            (part "workspace" s)
            (lens_of "lens_a" s)
            (lens_of "lens_b" s)
            (part "ci" s)
            (part "merge_readiness" s))
        ≡ []
      → Ready lower float_eq contract s
  sections-Ready s h =
      let workspace = part "workspace" s in
      let (
        present,
        (_, (_, (valid, (head_ok, (checked, (lenses, (pair, (third, (ci, (policy, _)))))))))),
      ) =
        join-nil
          (lifecycle_sections lower float_eq contract (part "task" s) workspace (lens_of "lens_a" s)
            (lens_of "lens_b" s) (part "ci" s) (part "merge_readiness" s))
          h in
      let valid = map-nil in_current_identity _ valid in
      let (requirements, are_requirements) =
        has_key-lookup lower float_eq contract "requirements_ref" (part "task" s)
          (require-nil _ _ present) in
      let (identity, is_identity) = contract.is_identity (get "change_identity" workspace) valid in
      let known = subst (λ j. contract.validate_change_identity j ≡ []) is_identity valid in
      let (head, is_head, of_head) =
        head_errors-nil lower float_eq contract identity (get "current_head_commit" workspace)
          (rw is_identity at head_ok) in
      let (first, second) =
        both_lenses-Accepted lower float_eq contract _ (part "task" s) workspace
          (lens_of "lens_a" s) (lens_of "lens_b" s) valid lenses in
      let (green, green_head) = checks_errors-nil lower float_eq contract (part "ci" s) _ ci in
      let settled =
        λ (lens : Dict Json)
            (a : Accepted lower float_eq contract (get "change_identity" workspace)
              (lookup "requirements_ref" (part "task" s))
              (get "conflict_resolution_occurred" workspace)
              (get "conflict_resolution_provenance" workspace) lens).
          subst
            (λ j.
              Accepted lower float_eq contract j (some requirements)
                (get "conflict_resolution_occurred" workspace)
                (get "conflict_resolution_provenance" workspace) lens)
            is_identity
            (subst
              (λ o.
                Accepted lower float_eq contract (get "change_identity" workspace) o
                  (get "conflict_resolution_occurred" workspace)
                  (get "conflict_resolution_provenance" workspace) lens)
              are_requirements a) in
      record {
        requirements = requirements;
        are_requirements = are_requirements;
        identity = identity;
        is_identity = is_identity;
        valid = known;
        head = head;
        is_head = is_head;
        of_head = of_head;
        checked =
            subst (λ j. same_hex lower (get "third_party_change_checked_head" workspace) j ≡ true)
              is_head (checked_head_errors-nil lower float_eq contract _ _ checked);
        unchanged = third_party_errors-nil lower float_eq contract _ third;
        first = settled (lens_of "lens_a" s) first;
        second = settled (lens_of "lens_b" s) second;
        first_fresh =
            identity_fresh-unflagged lower _ _ _
              (contract.is_fresh _ _ _ _ known (settled (lens_of "lens_a" s) first).contract_holds);
        second_fresh =
            identity_fresh-unflagged lower _ _ _ (
              contract.is_fresh _ _ _ _ known (settled (lens_of "lens_b" s) second).contract_holds);
        same_identity =
            lens_pair_errors-nil (lens_of "lens_a" s) (lens_of "lens_b" s) first.clean second.clean
              pair;
        green = green;
        green_head =
            subst (λ j. same_hex lower (get "commit" (part "ci" s)) j ≡ true) is_head green_head;
        mergeable = merge_policy_errors-Mergeable lower float_eq contract _ policy;
      }

  gate-Ready :
      (state : Json)
      → validate_lifecycle_state lower float_eq contract state ≡ []
      → (fs : Fields) × (state ≡ object fs) × Ready lower float_eq contract (fields fs)
  unfolding validate_lifecycle_state
  gate-Ready state h = elim (as_mapping-cases state) [
    | inr other ↦ absurd (cc (rw (validate_lifecycle_state, other) at h))
    | inl (fs, is_object) ↦ (
      fs,
      is_object,
      sections-Ready (fields fs)
          (subst (λ j. validate_lifecycle_state lower float_eq contract j ≡ []) is_object h),
    )
  ]

-- A state that `validate_lifecycle_state` finds no error in is an object whose current identity
-- `validate_change_identity` accepts, of the current head; both lenses are CLEAN about one reviewed
-- identity, with complete evidence that `validate_review_evidence` accepts for the current identity
-- and requirements, whose own identity is fresh (the effective patch is the current one, and either
-- the three commits are too, or in each identity the base is the merge base and the two bases
-- differ), no defect, and an isolated reviewer or a human's exception for that identity and generation;
-- required checks are green, and the check for changes of third parties found none, at the current
-- head; and the policy of merges is met.
pub validate_lifecycle_state-Ready :
    (lower : String → String) (float_eq : String → Json → Bool) (state : Json)
    → validate_lifecycle_state lower float_eq (review_contract lower) state ≡ []
    → (fs : Fields) × (state ≡ object fs) × Ready lower float_eq (review_contract lower) (fields fs)
validate_lifecycle_state-Ready lower float_eq state h =
    gate-Ready lower float_eq (review_contract lower) state h
