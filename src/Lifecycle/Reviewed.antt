-- ===== src/Lifecycle/Reviewed.antt =====
-- skills/loop-task-implementer/scripts/validate_loop_lifecycle.py: `_lens_errors`, of one lens of the
-- review.
use software_builder.Prelude.{
  String, Bool, true, false, not, Option, none, some, List, [], ◌∷◌, map, any, join, if◌then◌else◌,
}
use software_builder.Prelude.Dict.{Dict}
use software_builder.Prelude.Json.{Json, boolean, int, negative, object, fields, get, as_mapping}
use software_builder.Lifecycle.Contract.{ReviewContract}
use software_builder.Lifecycle.{
  LensError, not_clean, no_evidence, bad_generation, other_generation, not_complete, uninspected,
  defects, exception_not_boolean, exception_of_isolated, provenance_of_isolated,
  identity_of_isolated, generation_of_isolated, no_isolation_status, not_isolated,
  exception_without_provenance, exception_of_other_identity, exception_of_other_generation,
  no_reviewed_identity, other_identity, conflict_unknown, transition_without_provenance,
  in_evidence, require, mapping, text_is, is_null, given_text, is_positive, has_items, same_hex,
  same,
}

module _ (lower : String → String) (float_eq : String → Json → Bool)
    (contract : ReviewContract lower) where
  abbrev pub equal : Json → Json → Bool
  equal j k = same float_eq j k

  abbrev differs : Dict Json → Dict Json → String → Bool
  differs stored current name = not (same_hex lower (get name stored) (get name current))

  unfoldable pub identity_shas_changed : Json → Json → Bool
  identity_shas_changed (object fs) (object gs) =
      any (differs (fields fs) (fields gs)) ("base_sha" ∷ "head_sha" ∷ "merge_base_sha" ∷ [])
  identity_shas_changed _ _ = false

  abbrev pub clean_evidence_semantic_sections : Dict Json → List (List LensError)
  clean_evidence_semantic_sections evidence =
      require (text_is "complete" (get "inspection_status" evidence)) not_complete
      ∷ require (not (has_items (get "unable_to_inspect" evidence))) uninspected
      ∷ require (not (has_items (get "defect" (mapping (get "findings" evidence))))) defects
      ∷ []

  unfoldable pub clean_evidence_semantic_errors : Dict Json → List LensError
  clean_evidence_semantic_errors evidence = join (clean_evidence_semantic_sections evidence)

  abbrev pub isolated_sections : Bool → Dict Json → List (List LensError)
  isolated_sections exception lens =
      require (not exception) exception_of_isolated
      ∷ require (is_null (get "isolation_exception_provenance" lens)) provenance_of_isolated
      ∷ require (is_null (get "isolation_exception_change_identity" lens)) identity_of_isolated
      ∷ require (is_null (get "isolation_exception_review_generation" lens)) generation_of_isolated
      ∷ []

  unfoldable pub isolated_errors : Bool → Dict Json → List LensError
  isolated_errors exception lens = join (isolated_sections exception lens)

  abbrev pub bound_identity : Json → Json → Bool
  bound_identity (object fs) reviewed = equal (object fs) reviewed
  bound_identity _ reviewed = false

  abbrev pub bound_generation : Json → Json → Bool
  bound_generation (int n) generation = equal (int n) generation
  bound_generation (negative n) generation = equal (negative n) generation
  bound_generation _ generation = false

  abbrev pub exception_sections : Dict Json → List (List LensError)
  exception_sections lens =
      require (given_text (get "isolation_exception_provenance" lens)) exception_without_provenance
      ∷ require
          (bound_identity (get "isolation_exception_change_identity" lens)
            (get "reviewed_change_identity" lens))
          exception_of_other_identity
      ∷ require
          (bound_generation (get "isolation_exception_review_generation" lens)
            (get "review_generation" lens))
          exception_of_other_generation
      ∷ []

  unfoldable pub exception_errors : Bool → Dict Json → List LensError
  exception_errors false lens = not_isolated ∷ []
  exception_errors true lens = join (exception_sections lens)

  unfoldable pub isolation_errors : Json → Dict Json → List LensError
  unfolding isolated_errors exception_errors
  isolation_errors (boolean exception) lens =
      if text_is "ISOLATED" (get "isolation_status" lens)
      then isolated_errors exception lens
      else if text_is "NOT_ISOLATED" (get "isolation_status" lens)
      then exception_errors exception lens
      else no_isolation_status ∷ []
  isolation_errors _ lens = exception_not_boolean ∷ []

  unfoldable pub reviewed_errors : Json → Json → List LensError
  reviewed_errors identity (object fs) = require (equal identity (object fs)) other_identity
  reviewed_errors identity _ = no_reviewed_identity ∷ []

  -- The errors of a transition of the identity's hashes, and the flag that the contract is given.
  unfoldable pub transition_errors : Bool → Json → Json → List LensError
  transition_errors false conflict provenance = []
  transition_errors true (boolean b) provenance =
      require (given_text provenance) transition_without_provenance
  transition_errors true _ provenance = conflict_unknown ∷ []

  unfoldable pub conflict_for_shared : Bool → Json → Bool
  conflict_for_shared false conflict = false
  conflict_for_shared true (boolean b) = b
  conflict_for_shared true _ = true

  module _ (current : Json) (requirements : Option Json) (conflict provenance : Json) where
    abbrev pub changed : Dict Json → Bool
    changed evidence = identity_shas_changed (get "change_identity" evidence) current

    abbrev pub evidence_errors : Dict Json → Dict Json → List (List LensError)
    evidence_errors lens evidence =
        require (is_positive (get "review_generation" lens)) bad_generation
        ∷ require
            (bound_generation (get "review_evidence_generation" lens)
              (get "review_generation" lens))
            other_generation
        ∷ clean_evidence_semantic_errors evidence
        ∷ isolation_errors (get "isolation_exception_authorized" lens) lens
        ∷ reviewed_errors (get "change_identity" evidence) (get "reviewed_change_identity" lens)
        ∷ transition_errors (changed evidence) conflict provenance
        ∷ map in_evidence (
            contract.validate_review_evidence evidence current requirements
              (conflict_for_shared (changed evidence) conflict))
        ∷ []

    unfoldable pub lens_errors : Dict Json → List LensError
    lens_errors lens =
        if not (text_is "CLEAN" (get "status" lens))
        then not_clean ∷ []
        else elim (as_mapping (get "review_evidence" lens)) [
          | none ↦ no_evidence ∷ []
          | some evidence ↦ join (evidence_errors lens evidence)
        ]
