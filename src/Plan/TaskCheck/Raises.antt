-- ===== src/Plan/TaskCheck/Raises.antt =====
-- scripts/implementation_plan.py, `_validate_estimate`: when it raises.
use software_builder.Prelude.{
  ℕ, Bool, true, false, Option, none, some, List, ◌≡◌, ◌↔◌, ◌⊎◌, refl, inl, inr, arith,
  Option-cases,
}
use software_builder.Prelude.Dict.{Dict}
use software_builder.Prelude.Json.{
  Json, Items, Fields, null, boolean, int, negative, float, string, array, object, as_mapping, get,
}
use software_builder.Plan.Reports.{PlanError}
use software_builder.Plan.TaskCheck.Estimate.{
  is_hashable, known_errors, prepend, mapping_errors, validate_estimate,
}

known_errors-none_iff :
    (index : ℕ) (ready : Bool) (known files lines confidence : Json)
    → (known_errors index ready known files lines confidence ≡ none)
      ↔ ((known ≡ boolean true) × (is_hashable confidence ≡ false))
unfolding known_errors
known_errors-none_iff index ready null files lines confidence = ground arith
known_errors-none_iff index ready (boolean true) files lines confidence = ground arith
known_errors-none_iff index ready (boolean false) files lines confidence = ground arith
known_errors-none_iff index ready (int n) files lines confidence = ground arith
known_errors-none_iff index ready (negative n) files lines confidence = ground arith
known_errors-none_iff index ready (float f) files lines confidence = ground arith
known_errors-none_iff index ready (string s) files lines confidence = ground arith
known_errors-none_iff index ready (array js) files lines confidence = ground arith
known_errors-none_iff index ready (object fs) files lines confidence = ground arith

prepend-none_iff :
    (errors : List PlanError) (o : Option (List PlanError)) → (prepend errors o ≡ none) ↔ (o ≡ none)
unfolding prepend
prepend-none_iff errors o = ground arith

-- A list or a mapping: the values that have no hash.
abbrev pub IsCollection : Json → Type 0
IsCollection value =
    ((items : Items) × (value ≡ array items)) ⊎ ((fields : Fields) × (value ≡ object fields))

is_hashable-false_iff : (value : Json) → (is_hashable value ≡ false) ↔ IsCollection value
unfolding is_hashable
is_hashable-false_iff null = ground arith
is_hashable-false_iff (boolean b) = ground arith
is_hashable-false_iff (int n) = ground arith
is_hashable-false_iff (negative n) = ground arith
is_hashable-false_iff (float f) = ground arith
is_hashable-false_iff (string s) = ground arith
is_hashable-false_iff (array items) = (λ _. inl (items, refl), λ _. refl)
is_hashable-false_iff (object fields) = (λ _. inr (fields, refl), λ _. refl)

-- It is said to be known, with a list or a mapping for its confidence.
abbrev pub Unhashable : Dict Json → Type 0
Unhashable e = (get "estimate_known" e ≡ boolean true) × IsCollection (get "confidence" e)

mapping_errors-raises :
    (index : ℕ) (ready : Bool) (e : Dict Json)
    → (mapping_errors index ready e ≡ none) ↔ Unhashable e
unfolding mapping_errors
mapping_errors-raises index ready e =
    let known =
      known_errors-none_iff index ready (get "estimate_known" e) (get "files_upper_bound" e)
        (get "changed_lines_upper_bound" e) (get "confidence" e) in
    let collection = is_hashable-false_iff (get "confidence" e) in
    (
      λ h. let k = known.0 ((prepend-none_iff _ _).0 h) in (k.0, collection.0 k.1),
      λ h. (prepend-none_iff _ _).1 (known.1 (h.0, collection.1 h.1)),
    )

-- The check of an estimate raises exactly where the estimate is a mapping that says it is known and
-- gives a list or a mapping for its confidence.
pub validate_estimate-raises_iff :
    (index : ℕ) (ready : Bool) (value : Json)
    → (validate_estimate index ready value ≡ none)
      ↔ ((e : Dict Json) × (as_mapping value ≡ some e) × Unhashable e)
unfolding validate_estimate
validate_estimate-raises_iff index ready value = elim (Option-cases (as_mapping value)) [
  | inl absent ↦ rw (validate_estimate, absent) (λ h. absurd (cc h), λ h. absurd (cc h.1))
  | inr (e, m) ↦ (
    λ h. (e, m, (mapping_errors-raises index ready e).0 (rw (validate_estimate, m) at h)),
    λ (d, n, unhashable).
        rw (validate_estimate, n) ((mapping_errors-raises index ready d).1 unhashable),
  )
]
