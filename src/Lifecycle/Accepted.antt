-- ===== src/Lifecycle/Accepted.antt =====
-- skills/loop-task-implementer/scripts/validate_loop_lifecycle.py: what a lens is that `_lens_errors`
-- finds no error in.
use software_builder.Prelude.{
  subst, String, Bool, true, false, Option, some, List, [], ◌∷◌, map, ◌≡◌, ◌⊎◌, inl, inr, refl,
  join, join-nil, Bool-cases, Option-cases,
}
use software_builder.Prelude.Dict.{Dict}
use software_builder.Prelude.Json.{
  Json, null, boolean, int, negative, float, string, array, object, get, as_mapping,
}
use software_builder.Lifecycle.Contract.{ReviewContract}
use software_builder.Lifecycle.{in_evidence, mapping, text_is, given_text, is_positive, has_items}
use software_builder.Lifecycle.Tests.{require-nil, text_is-string, negated}
use software_builder.Lifecycle.Isolation.{Isolated, Excepted, isolation_errors-nil}
use software_builder.Lifecycle.Reviewed.{
  equal, clean_evidence_semantic_errors, clean_evidence_semantic_sections, bound_generation,
  reviewed_errors, transition_errors, conflict_for_shared, changed, evidence_errors, lens_errors,
}

pub map-nil {ℓ κ} : {A : Type ℓ} {B : Type κ} (f : A → B) (xs : List A) → map f xs ≡ [] → xs ≡ []
map-nil f [] h = refl
map-nil f (x ∷ xs) h = absurd (cc h)

module _ (lower : String → String) (float_eq : String → Json → Bool)
    (contract : ReviewContract lower) where
  abbrev eq : Json → Json → Bool
  eq j k = equal lower float_eq contract j k

  reviewed_errors-nil :
      (identity reviewed : Json)
      → reviewed_errors lower float_eq contract identity reviewed ≡ []
      → eq identity reviewed ≡ true
  unfolding reviewed_errors
  reviewed_errors-nil identity null h = absurd (cc h)
  reviewed_errors-nil identity (boolean b) h = absurd (cc h)
  reviewed_errors-nil identity (int n) h = absurd (cc h)
  reviewed_errors-nil identity (negative n) h = absurd (cc h)
  reviewed_errors-nil identity (float r) h = absurd (cc h)
  reviewed_errors-nil identity (string s) h = absurd (cc h)
  reviewed_errors-nil identity (array js) h = absurd (cc h)
  reviewed_errors-nil identity (object fs) h = require-nil (eq identity (object fs)) _ h

  transition_errors-nil :
      (conflict provenance : Json)
      → transition_errors lower float_eq contract true conflict provenance ≡ []
      → (b : Bool) × (conflict ≡ boolean b) × (given_text provenance ≡ true)
  unfolding transition_errors
  transition_errors-nil null provenance h = absurd (cc h)
  transition_errors-nil (boolean b) provenance h = (b, refl, require-nil _ _ h)
  transition_errors-nil (int n) provenance h = absurd (cc h)
  transition_errors-nil (negative n) provenance h = absurd (cc h)
  transition_errors-nil (float r) provenance h = absurd (cc h)
  transition_errors-nil (string s) provenance h = absurd (cc h)
  transition_errors-nil (array js) provenance h = absurd (cc h)
  transition_errors-nil (object fs) provenance h = absurd (cc h)

  module _ (current : Json) (requirements : Option Json) (conflict provenance : Json) where
    pub record Accepted (lens : Dict Json) : Type 0 where
      pub clean : get "status" lens ≡ string "CLEAN"
      pub evidence : Dict Json
      pub is_evidence : as_mapping (get "review_evidence" lens) ≡ some evidence
      pub generation : is_positive (get "review_generation" lens) ≡ true
      pub of_generation :
          bound_generation lower float_eq contract
            (get "review_evidence_generation" lens)
            (get "review_generation" lens)
          ≡ true
      pub complete : get "inspection_status" evidence ≡ string "complete"
      pub inspected : has_items (get "unable_to_inspect" evidence) ≡ false
      pub no_defects : has_items (get "defect" (mapping (get "findings" evidence))) ≡ false
      pub isolation : Isolated lower float_eq contract lens ⊎ Excepted lower float_eq contract lens
      pub of_identity :
          eq (get "change_identity" evidence) (get "reviewed_change_identity" lens) ≡ true
      pub transition :
          changed lower float_eq contract current requirements conflict provenance evidence ≡ true
          → (b : Bool) × (conflict ≡ boolean b) × (given_text provenance ≡ true)
      pub contract_holds :
          contract.validate_review_evidence evidence current requirements (
            conflict_for_shared lower float_eq contract
              (changed lower float_eq contract current requirements conflict provenance evidence)
              conflict)
          ≡ []

    evidence_errors-Accepted :
        (lens evidence : Dict Json)
        → text_is "CLEAN" (get "status" lens) ≡ true
        → as_mapping (get "review_evidence" lens) ≡ some evidence
        → join (
            evidence_errors lower float_eq contract current requirements conflict provenance lens
              evidence)
          ≡ []
        → Accepted lens
    unfolding clean_evidence_semantic_errors
    evidence_errors-Accepted lens evidence clean is_evidence h =
        let (
          generation,
          (of_generation, (semantic, (isolation, (of_identity, (transition, (held, _)))))),
        ) =
          join-nil
            (evidence_errors lower float_eq contract current requirements conflict provenance lens
              evidence)
            h in
        let (complete, (inspected, (no_defects, _))) =
          join-nil (clean_evidence_semantic_sections lower float_eq contract evidence) semantic in
        record {
          clean = text_is-string "CLEAN" (get "status" lens) clean;
          evidence = evidence;
          is_evidence = is_evidence;
          generation = require-nil _ _ generation;
          of_generation = require-nil _ _ of_generation;
          complete = text_is-string "complete" _ (require-nil _ _ complete);
          inspected = negated _ (require-nil _ _ inspected);
          no_defects = negated _ (require-nil _ _ no_defects);
          isolation = isolation_errors-nil lower float_eq contract lens isolation;
          of_identity = reviewed_errors-nil _ _ of_identity;
          transition = λ moved. transition_errors-nil conflict provenance (
              subst (λ b. transition_errors lower float_eq contract b conflict provenance ≡ [])
                moved transition);
          contract_holds = map-nil in_evidence _ held;
        }

    pub lens_errors-Accepted :
        (lens : Dict Json)
        → lens_errors lower float_eq contract current requirements conflict provenance lens ≡ []
        → Accepted lens
    unfolding lens_errors
    lens_errors-Accepted lens h = elim (Bool-cases (text_is "CLEAN" (get "status" lens))) [
      | inr other ↦ absurd (cc (rw (lens_errors, other) at h))
      | inl clean ↦ elim (Option-cases (as_mapping (get "review_evidence" lens))) [
        | inl absent ↦ absurd (cc (rw (lens_errors, clean, absent) at h))
        | inr (evidence, is_evidence) ↦
            evidence_errors-Accepted lens evidence clean is_evidence
              (rw (lens_errors, clean, is_evidence) at h)
      ]
    ]
