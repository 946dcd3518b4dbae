-- ===== src/Lifecycle/Isolation.antt =====
-- skills/loop-task-implementer/scripts/validate_loop_lifecycle.py: what a lens is that
-- `_isolation_errors` finds no error in.
use software_builder.Prelude.{
  String, Bool, true, false, not, [], ◌≡◌, ◌⊎◌, inl, inr, refl, ap, ◌∙◌, join-nil, Bool-cases,
}
use software_builder.Prelude.Dict.{Dict}
use software_builder.Prelude.Json.{
  Json, null, boolean, int, negative, float, string, array, object, get,
}
use software_builder.Lifecycle.Contract.{ReviewContract}
use software_builder.Lifecycle.{text_is, is_null, given_text}
use software_builder.Lifecycle.Tests.{require-nil, text_is-string, negated}
use software_builder.Lifecycle.Reviewed.{
  isolated_sections, exception_sections, isolated_errors, exception_errors, isolation_errors,
  bound_identity, bound_generation,
}

module _ (lower : String → String) (float_eq : String → Json → Bool)
    (contract : ReviewContract lower) where
  -- The reviewer was isolated, and nothing of an exception is left.
  pub record Isolated (lens : Dict Json) : Type 0 where
    pub isolated : get "isolation_status" lens ≡ string "ISOLATED"
    pub no_exception : get "isolation_exception_authorized" lens ≡ boolean false
    pub no_provenance : is_null (get "isolation_exception_provenance" lens) ≡ true

  -- The reviewer was not isolated, and a human's exception is for this identity and generation.
  pub record Excepted (lens : Dict Json) : Type 0 where
    pub not_isolated : get "isolation_status" lens ≡ string "NOT_ISOLATED"
    pub authorized : get "isolation_exception_authorized" lens ≡ boolean true
    pub provenance : given_text (get "isolation_exception_provenance" lens) ≡ true
    pub of_identity :
        bound_identity lower float_eq contract
          (get "isolation_exception_change_identity" lens)
          (get "reviewed_change_identity" lens)
        ≡ true
    pub of_generation :
        bound_generation lower float_eq contract
          (get "isolation_exception_review_generation" lens)
          (get "review_generation" lens)
        ≡ true

  isolation_errors-boolean :
      (j : Json) (lens : Dict Json)
      → isolation_errors lower float_eq contract j lens ≡ []
      → (b : Bool) × (j ≡ boolean b)
  unfolding isolation_errors
  isolation_errors-boolean null lens h = absurd (cc h)
  isolation_errors-boolean (boolean b) lens h = (b, refl)
  isolation_errors-boolean (int n) lens h = absurd (cc h)
  isolation_errors-boolean (negative n) lens h = absurd (cc h)
  isolation_errors-boolean (float r) lens h = absurd (cc h)
  isolation_errors-boolean (string s) lens h = absurd (cc h)
  isolation_errors-boolean (array js) lens h = absurd (cc h)
  isolation_errors-boolean (object fs) lens h = absurd (cc h)

  isolated_errors-Isolated :
      (b : Bool) (lens : Dict Json)
      → get "isolation_status" lens ≡ string "ISOLATED"
      → get "isolation_exception_authorized" lens ≡ boolean b
      → isolated_errors lower float_eq contract b lens ≡ []
      → Isolated lens
  unfolding isolated_errors
  isolated_errors-Isolated b lens isolated is_b h =
      let (no_exception, (no_provenance, _)) =
        join-nil (isolated_sections lower float_eq contract b lens) h in
      record {
        isolated = isolated;
        no_exception = is_b ∙ ap boolean (negated b (require-nil (not b) _ no_exception));
        no_provenance =
            require-nil (is_null (get "isolation_exception_provenance" lens)) _ no_provenance;
      }

  exception_errors-Excepted :
      (b : Bool) (lens : Dict Json)
      → get "isolation_status" lens ≡ string "NOT_ISOLATED"
      → get "isolation_exception_authorized" lens ≡ boolean b
      → exception_errors lower float_eq contract b lens ≡ []
      → Excepted lens
  unfolding exception_errors
  exception_errors-Excepted false lens not_isolated is_b h = absurd (cc h)
  exception_errors-Excepted true lens not_isolated is_b h =
      let (provenance, (of_identity, (of_generation, _))) =
        join-nil (exception_sections lower float_eq contract lens) h in
      record {
        not_isolated = not_isolated;
        authorized = is_b;
        provenance = require-nil _ _ provenance;
        of_identity = require-nil _ _ of_identity;
        of_generation = require-nil _ _ of_generation;
      }

  pub isolation_errors-nil :
      (lens : Dict Json)
      → isolation_errors lower float_eq contract (get "isolation_exception_authorized" lens) lens
        ≡ []
      → Isolated lens ⊎ Excepted lens
  unfolding isolation_errors
  isolation_errors-nil lens h =
      let (b, is_b) = isolation_errors-boolean (get "isolation_exception_authorized" lens) lens h in
      let status = get "isolation_status" lens in
      elim (Bool-cases (text_is "ISOLATED" status)) [
        | inl isolated ↦ inl (
            isolated_errors-Isolated b lens (text_is-string "ISOLATED" status isolated) is_b
              (rw (isolation_errors, is_b, isolated) at h))
        | inr other ↦ elim (Bool-cases (text_is "NOT_ISOLATED" status)) [
          | inl not_isolated ↦ inr (
              exception_errors-Excepted b lens (text_is-string "NOT_ISOLATED" status not_isolated)
                is_b (rw (isolation_errors, is_b, other, not_isolated) at h))
          | inr neither ↦ absurd (cc (rw (isolation_errors, is_b, other, neither) at h))
        ]
      ]
