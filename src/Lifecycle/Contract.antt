-- ===== src/Lifecycle/Contract.antt =====
-- docs/skill-framework/shared/review_contract_runtime.py: `_identity_fresh`, whether a review of one
-- identity holds for another, and the interface of what it is a part of.
use text.Mathlib.Text.{◌==◌}
use software_builder.Prelude.{
  ℕ, suc, zero, String, Bool, true, false, not, ◌&&◌, ◌||◌, Option, none, some, List, [], ◌∷◌, ◌≡◌,
  all, nat_eq, length, if◌then◌else◌,
}
use software_builder.Prelude.Dict.{Dict, lookup}
use software_builder.Prelude.Json.{
  Json, Items, Fields, null, boolean, int, negative, float, string, array, object, end, item, empty,
  field, fields, get,
}
use software_builder.Prelude.Text.{elem}
use software_builder.Lifecycle.{ContractError, same_hex}

-- `_portable_value`, with the levels that are left: a number is finite, and no value lies deeper.
unfoldable mutual
  pub portable_value : ℕ → Json → Bool
  portable_value zero j = false
  portable_value (suc n) (array js) = portable_items n js
  portable_value (suc n) (object fs) = portable_fields n fs
  portable_value (suc n) (float r) = not (elem r ("nan" ∷ "inf" ∷ "-inf" ∷ []))
  portable_value (suc n) _ = true

  portable_items : ℕ → Items → Bool
  portable_items n end = true
  portable_items n (item j js) = portable_value n j && portable_items n js

  portable_fields : ℕ → Fields → Bool
  portable_fields n empty = true
  portable_fields n (field k j fs) = portable_value n j && portable_fields n fs

-- The canonical texts of two values are equal: they are the same up to the order of keys.
unfoldable mutual
  pub same_canonical : Json → Json → Bool
  same_canonical null null = true
  same_canonical (boolean b) (boolean c) = if b then c else not c
  same_canonical (int m) (int n) = nat_eq m n
  same_canonical (negative m) (negative n) = nat_eq m n
  same_canonical (float r) (float q) = r == q
  same_canonical (string s) (string t) = s == t
  same_canonical (array js) (array ks) = canonical_items js ks
  same_canonical (object fs) (object gs) =
      nat_eq (length (fields fs)) (length (fields gs)) && canonical_fields fs (fields gs)
  same_canonical _ _ = false

  canonical_items : Items → Items → Bool
  canonical_items end end = true
  canonical_items (item j js) (item k ks) = same_canonical j k && canonical_items js ks
  canonical_items _ _ = false

  canonical_fields : Fields → Dict Json → Bool
  canonical_fields empty d = true
  canonical_fields (field k j fs) d =
      elim (lookup k d) [ none ↦ false | some v ↦ same_canonical j v ] && canonical_fields fs d

-- `_json_equivalent`, with values of at most 32 nested levels.
abbrev pub json_equivalent : Json → Json → Bool
json_equivalent l r = portable_value 33 l && portable_value 33 r && same_canonical l r

module _ (lower : String → String) where
  abbrev same_at : Dict Json → Dict Json → String → Bool
  same_at stored current name = same_hex lower (get name stored) (get name current)

  abbrev equivalent_at : Dict Json → Dict Json → String → Bool
  equivalent_at stored current name = json_equivalent (get name stored) (get name current)

  unfoldable pub effective_patch_unchanged : Json → Json → Bool
  effective_patch_unchanged (object fs) (object gs) =
      same_at (fields fs) (fields gs) "normalized_diff_fingerprint"
      && all (equivalent_at (fields fs) (fields gs))
          ("changed_paths" ∷ "generated_paths" ∷ "dependency_changes" ∷ "config_changes" ∷ [])
  effective_patch_unchanged _ _ = false

  abbrev on_base : Dict Json → Bool
  on_base d = same_hex lower (get "base_sha" d) (get "merge_base_sha" d)

  -- The commits are the same, or the base alone has moved below both.
  unfoldable pub same_or_rebased : Json → Json → Bool
  same_or_rebased (object fs) (object gs) =
      all (same_at (fields fs) (fields gs)) ("base_sha" ∷ "head_sha" ∷ "merge_base_sha" ∷ [])
      || on_base (fields fs)
        && on_base (fields gs)
        && not (same_at (fields fs) (fields gs) "base_sha")
  same_or_rebased _ _ = false

  unfoldable pub identity_fresh : Json → Json → Bool → Bool
  identity_fresh stored current conflict_resolution_occurred =
      not conflict_resolution_occurred
      && effective_patch_unchanged stored current
      && same_or_rebased stored current

pub identity_fresh-unflagged :
    (lower : String → String) (stored current : Json) (conflict : Bool)
    → identity_fresh lower stored current conflict ≡ true
    → identity_fresh lower stored current false ≡ true
unfolding identity_fresh
identity_fresh-unflagged lower stored current true h = absurd (cc h)
identity_fresh-unflagged lower stored current false h = h

-- The operations of the review contract. The evidence is checked against the current identity and,
-- where they are given, the current requirements; the flag tells of a resolved conflict. An identity
-- that is no object has an error, and so has evidence that is not fresh for a valid identity.
pub record ReviewContract (lower : String → String) : Type 0 where
  pub validate_change_identity : Json → List ContractError
  pub validate_review_evidence : Dict Json → Json → Option Json → Bool → List ContractError
  pub is_identity : (j : Json) → validate_change_identity j ≡ [] → (fs : Fields) × (j ≡ object fs)
  pub is_fresh :
      (evidence : Dict Json) (current : Json) (requirements : Option Json) (conflict : Bool)
      → validate_change_identity current ≡ []
      → validate_review_evidence evidence current requirements conflict ≡ []
      → identity_fresh lower (get "change_identity" evidence) current conflict ≡ true
