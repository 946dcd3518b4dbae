-- ===== src/Lifecycle/Identity.antt =====
-- docs/skill-framework/shared/review_contract_runtime.py, `validate_change_identity`. An unknown field is
-- named in the order of the payload.
use software_builder.Prelude.{
  ℕ, suc, zero, String, Bool, true, false, not, ◌&&◌, ◌||◌, none, some, List, [], ◌∷◌, ◌≡◌, refl,
  all, keep, map, leb, nat_eq, is_empty, if◌then◌else◌, join,
}
use software_builder.Prelude.Dict.{Dict, lookup}
use software_builder.Prelude.Json.{
  Json, Fields, null, boolean, int, negative, float, string, array, object, items, fields, get,
  keys,
}
use software_builder.Prelude.Text.{code, elem}
use software_builder.Lifecycle.{
  require, ContractError, identity_not_object, missing_fields, unknown_fields, bad_schema_version,
  bad_sha, bad_fingerprint, bad_paths, unsorted_paths, not_subset, bad_changes, uncanonical_changes,
  unordered_changes,
}
use software_builder.Lifecycle.Canonical.{
  is_sorted, all_distinct, canonical_text, canonical_mapping_value, valid_repo_path,
}

abbrev pub has_field : String → Dict Json → Bool
has_field k d = elim (lookup k d) [ none ↦ false | some j ↦ true ]

-- The errors of a field where it is given.
abbrev pub check_field : String → Dict Json → (Json → List ContractError) → List ContractError
check_field k d errors = if has_field k d then errors (get k d) else []

abbrev pub is_one : Json → Bool
is_one (int n) = nat_eq n 1
is_one _ = false

-- `sorted(required - set(payload))`, of the required fields in their order.
abbrev pub missing_in : List String → Dict Json → List String
missing_in required d = keep (λ k. not (has_field k d)) required

abbrev pub unknown_in : List String → Dict Json → List String
unknown_in required d = keep (λ k. not (elem k required)) (keys d)

abbrev pub names_errors : (List String → ContractError) → List String → List ContractError
names_errors problem names = if is_empty names then [] else problem names ∷ []

-- The fields of an identity, in their order as texts.
abbrev pub identity_fields : List String
identity_fields =
    "base_sha" ∷ "changed_paths" ∷ "config_changes" ∷ "dependency_changes" ∷ "generated_paths"
    ∷ "head_sha" ∷ "merge_base_sha" ∷ "normalized_diff_fingerprint" ∷ "schema_version" ∷ []

is_hex : ℕ → Bool
is_hex c = (leb 48 c && leb c 57) || (leb 65 c && leb c 70) || (leb 97 c && leb c 102)

-- `[0-9a-fA-F]{n}`
hex_of : ℕ → String → Bool
unfolding is_hex
hex_of zero String.[] = true
hex_of (suc n) (String.◌∷◌ c s) = is_hex (code c) && hex_of n s
hex_of n s = false

-- `_SHA_RE` and `_FP_RE`, of a text.
unfoldable pub is_sha : Json → Bool
unfolding hex_of
is_sha (string s) = hex_of 40 s || hex_of 64 s
is_sha _ = false

unfoldable pub is_fingerprint : Json → Bool
unfolding hex_of
is_fingerprint (string s) = hex_of 64 s
is_fingerprint _ = false

abbrev pub text_of : Json → String
text_of (string s) = s
text_of _ = ""

unfoldable pub paths_errors : String → Json → List ContractError
paths_errors name (array js) =
    let texts = map text_of (items js) in
    if not (all valid_repo_path (items js))
    then bad_paths name ∷ []
    else require (is_sorted texts && all_distinct texts) (unsorted_paths name)
paths_errors name _ = bad_paths name ∷ []

unfoldable pub subset_errors : Json → Json → List ContractError
subset_errors (array js) (array ks) =
    let changed = map text_of (items js) in
    let generated = map text_of (items ks) in
    if all valid_repo_path (items js) && all valid_repo_path (items ks)
    then require (all (λ p. elem p changed) generated) not_subset
    else []
subset_errors _ _ = []

abbrev pub is_mapping : Json → Bool
is_mapping (object fs) = true
is_mapping _ = false

unfoldable pub changes_errors : String → Json → List ContractError
changes_errors name (array js) =
    let texts = map canonical_text (items js) in
    if not (all is_mapping (items js))
    then bad_changes name ∷ []
    else if not (all (canonical_mapping_value 33) (items js))
    then uncanonical_changes name ∷ []
    else require (is_sorted texts && all_distinct texts) (unordered_changes name)
changes_errors name _ = bad_changes name ∷ []

abbrev sha_errors : Dict Json → String → List ContractError
sha_errors d name = check_field name d (λ j. require (is_sha j) (bad_sha name))

abbrev pub identity_sections : Dict Json → List (List ContractError)
identity_sections d =
    names_errors missing_fields (missing_in identity_fields d)
    ∷ names_errors unknown_fields (unknown_in identity_fields d)
    ∷ check_field "schema_version" d (λ j. require (is_one j) bad_schema_version)
    ∷ sha_errors d "base_sha"
    ∷ sha_errors d "head_sha"
    ∷ sha_errors d "merge_base_sha"
    ∷ check_field "normalized_diff_fingerprint" d (λ j. require (is_fingerprint j) bad_fingerprint)
    ∷ check_field "changed_paths" d (paths_errors "changed_paths")
    ∷ check_field "generated_paths" d (paths_errors "generated_paths")
    ∷ subset_errors (get "changed_paths" d) (get "generated_paths" d)
    ∷ check_field "dependency_changes" d (changes_errors "dependency_changes")
    ∷ check_field "config_changes" d (changes_errors "config_changes")
    ∷ []

unfoldable pub validate_change_identity : Json → List ContractError
validate_change_identity (object fs) = join (identity_sections (fields fs))
validate_change_identity _ = identity_not_object ∷ []

pub validate_change_identity-object :
    (j : Json) → validate_change_identity j ≡ [] → (fs : Fields) × (j ≡ object fs)
unfolding validate_change_identity
validate_change_identity-object null h = absurd (cc h)
validate_change_identity-object (boolean b) h = absurd (cc h)
validate_change_identity-object (int n) h = absurd (cc h)
validate_change_identity-object (negative n) h = absurd (cc h)
validate_change_identity-object (float r) h = absurd (cc h)
validate_change_identity-object (string s) h = absurd (cc h)
validate_change_identity-object (array js) h = absurd (cc h)
validate_change_identity-object (object fs) h = (fs, refl)
