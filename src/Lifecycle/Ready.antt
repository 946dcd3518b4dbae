-- ===== src/Lifecycle/Ready.antt =====
-- skills/loop-task-implementer/scripts/validate_loop_lifecycle.py: what a state is that
-- `validate_lifecycle_state` finds no error in.
use software_builder.Prelude.{
  String, Bool, true, false, not, some, List, [], ◌∷◌, map, ◌≡◌, inl, inr, refl, ap, both_nil,
  join-nil, Bool-cases, Option-cases,
}
use software_builder.Prelude.Dict.{Dict, lookup}
use software_builder.Prelude.Json.{
  Json, null, boolean, int, negative, float, string, array, object, Fields, fields, get,
}
use software_builder.Lifecycle.Contract.{ReviewContract, identity_fresh}
use software_builder.Lifecycle.{ContractError, lens_a, lens_b, in_lens, mapping, is_true, same_hex}
use software_builder.Lifecycle.Tests.{
  require-nil, negated, is_true-boolean, is_false-boolean, is_zero-int,
}
use software_builder.Lifecycle.Reviewed.{equal}
use software_builder.Lifecycle.Accepted.{Accepted, lens_errors-Accepted, map-nil}
use software_builder.Lifecycle.Gate.{
  merge_policy_sections, merge_policy_errors, has_key, head_errors, checked_head_errors,
  third_party_errors, checks_errors, both_lenses,
}

-- A part of the state, and of its review.
abbrev pub part : String → Dict Json → Dict Json
part name s = mapping (get name s)

abbrev pub lens_of : String → Dict Json → Dict Json
lens_of name s = mapping (get name (part "review" s))

module _ (lower : String → String) (float_eq : String → Json → Bool)
    (contract : ReviewContract lower) where
  abbrev hex : Json → Json → Bool
  hex j k = same_hex lower j k

  pub record Mergeable (readiness : Dict Json) : Type 0 where
    pub criteria : get "acceptance_criteria_complete" readiness ≡ boolean true
    pub blockers : get "accepted_blocking_findings_open" readiness ≡ int 0
    pub unresolved : get "security_sensitive_needs_evidence_unresolved" readiness ≡ int 0
    pub approvals : get "required_approvals_present" readiness ≡ boolean true
    pub threads : get "blocking_threads_open" readiness ≡ int 0
    pub integration : get "integration_state_valid" readiness ≡ boolean true
    pub breaker : get "circuit_breaker_active" readiness ≡ boolean false

  pub record Ready (s : Dict Json) : Type 0 where
    pub requirements : Json
    pub are_requirements : lookup "requirements_ref" (part "task" s) ≡ some requirements
    pub identity : Fields
    pub is_identity : get "change_identity" (part "workspace" s) ≡ object identity
    pub valid : contract.validate_change_identity (object identity) ≡ []
    pub head : String
    pub is_head : get "current_head_commit" (part "workspace" s) ≡ string head
    pub of_head : hex (get "head_sha" (fields identity)) (string head) ≡ true
    pub checked :
        hex (get "third_party_change_checked_head" (part "workspace" s)) (string head) ≡ true
    pub unchanged : get "third_party_change_detected" (part "workspace" s) ≡ boolean false
    pub first :
        Accepted lower float_eq contract
          (object identity)
          (some requirements)
          (get "conflict_resolution_occurred" (part "workspace" s))
          (get "conflict_resolution_provenance" (part "workspace" s))
          (lens_of "lens_a" s)
    pub second :
        Accepted lower float_eq contract
          (object identity)
          (some requirements)
          (get "conflict_resolution_occurred" (part "workspace" s))
          (get "conflict_resolution_provenance" (part "workspace" s))
          (lens_of "lens_b" s)
    pub first_fresh :
        identity_fresh lower (get "change_identity" first.evidence) (object identity) false ≡ true
    pub second_fresh :
        identity_fresh lower (get "change_identity" second.evidence) (object identity) false ≡ true
    pub same_identity :
        equal lower float_eq contract
          (get "reviewed_change_identity" (lens_of "lens_a" s))
          (get "reviewed_change_identity" (lens_of "lens_b" s))
        ≡ true
    pub green : get "required_checks_green" (part "ci" s) ≡ boolean true
    pub green_head : hex (get "commit" (part "ci" s)) (string head) ≡ true
    pub mergeable : Mergeable (part "merge_readiness" s)

  pub merge_policy_errors-Mergeable :
      (readiness : Dict Json)
      → merge_policy_errors lower float_eq contract readiness ≡ []
      → Mergeable readiness
  unfolding merge_policy_errors
  merge_policy_errors-Mergeable readiness h =
      let (
        criteria,
        (blockers, (unresolved, (approvals, (threads, (integration, (breaker, _)))))),
      ) =
        join-nil (merge_policy_sections lower float_eq contract readiness) h in
      record {
        criteria = is_true-boolean _ (require-nil _ _ criteria);
        blockers = is_zero-int _ (require-nil _ _ blockers);
        unresolved = is_zero-int _ (require-nil _ _ unresolved);
        approvals = is_true-boolean _ (require-nil _ _ approvals);
        threads = is_zero-int _ (require-nil _ _ threads);
        integration = is_true-boolean _ (require-nil _ _ integration);
        breaker = is_false-boolean _ (require-nil _ _ breaker);
      }

  pub has_key-lookup :
      (k : String) (d : Dict Json)
      → has_key lower float_eq contract k d ≡ true
      → (j : Json) × (lookup k d ≡ some j)
  has_key-lookup k d h = elim (Option-cases (lookup k d)) [
    | inl absent ↦ absurd (cc (rw (has_key, absent) at h))
    | inr present ↦ present
  ]

  pub head_errors-nil :
      (identity : Fields) (j : Json)
      → head_errors lower float_eq contract (object identity) j ≡ []
      → (head : String) × (j ≡ string head)
        × (hex (get "head_sha" (fields identity)) (string head) ≡ true)
  unfolding head_errors
  head_errors-nil identity null h = absurd (cc h)
  head_errors-nil identity (boolean b) h = absurd (cc h)
  head_errors-nil identity (int n) h = absurd (cc h)
  head_errors-nil identity (negative n) h = absurd (cc h)
  head_errors-nil identity (float r) h = absurd (cc h)
  head_errors-nil identity (string s) h = (s, refl, require-nil _ _ h)
  head_errors-nil identity (array js) h = absurd (cc h)
  head_errors-nil identity (object fs) h = absurd (cc h)

  pub checked_head_errors-nil :
      (j head : Json) → checked_head_errors lower float_eq contract j head ≡ [] → hex j head ≡ true
  unfolding checked_head_errors
  checked_head_errors-nil null head h = absurd (cc h)
  checked_head_errors-nil (boolean b) head h = absurd (cc h)
  checked_head_errors-nil (int n) head h = absurd (cc h)
  checked_head_errors-nil (negative n) head h = absurd (cc h)
  checked_head_errors-nil (float r) head h = absurd (cc h)
  checked_head_errors-nil (string s) head h = require-nil (hex (string s) head) _ h
  checked_head_errors-nil (array js) head h = absurd (cc h)
  checked_head_errors-nil (object fs) head h = absurd (cc h)

  pub third_party_errors-nil :
      (j : Json) → third_party_errors lower float_eq contract j ≡ [] → j ≡ boolean false
  unfolding third_party_errors
  third_party_errors-nil null h = absurd (cc h)
  third_party_errors-nil (boolean b) h = ap boolean (negated b (require-nil (not b) _ h))
  third_party_errors-nil (int n) h = absurd (cc h)
  third_party_errors-nil (negative n) h = absurd (cc h)
  third_party_errors-nil (float r) h = absurd (cc h)
  third_party_errors-nil (string s) h = absurd (cc h)
  third_party_errors-nil (array js) h = absurd (cc h)
  third_party_errors-nil (object fs) h = absurd (cc h)

  pub checks_errors-nil :
      (ci : Dict Json) (head : Json)
      → checks_errors lower float_eq contract ci head ≡ []
      → (get "required_checks_green" ci ≡ boolean true) × (hex (get "commit" ci) head ≡ true)
  unfolding checks_errors
  checks_errors-nil ci head h = elim (Bool-cases (is_true (get "required_checks_green" ci))) [
    | inr red ↦ absurd (cc (rw (checks_errors, red) at h))
    | inl green ↦ (
      is_true-boolean _ green,
      require-nil (hex (get "commit" ci) head) _ (rw (checks_errors, green) at h),
    )
  ]

  pub both_lenses-Accepted :
      (es : List ContractError) (task workspace a b : Dict Json)
      → es ≡ []
      → both_lenses lower float_eq contract es task workspace a b ≡ []
      → Accepted lower float_eq contract
          (get "change_identity" workspace)
          (lookup "requirements_ref" task)
          (get "conflict_resolution_occurred" workspace)
          (get "conflict_resolution_provenance" workspace)
          a
        × Accepted lower float_eq contract
            (get "change_identity" workspace)
            (lookup "requirements_ref" task)
            (get "conflict_resolution_occurred" workspace)
            (get "conflict_resolution_provenance" workspace)
            b
  unfolding both_lenses
  both_lenses-Accepted (e ∷ es) task workspace a b none_found h = absurd (cc none_found)
  both_lenses-Accepted [] task workspace a b none_found h =
      let (first, second) = both_nil (map (in_lens lens_a) _) _ h in
      (
        lens_errors-Accepted lower float_eq contract _ _ _ _ a (map-nil (in_lens lens_a) _ first),
        lens_errors-Accepted lower float_eq contract _ _ _ _ b (map-nil (in_lens lens_b) _ second),
      )
