-- ===== src/Lifecycle/Evidence.antt =====
-- docs/skill-framework/shared/review_contract_runtime.py, `validate_review_evidence`, and with
-- `validate_change_identity` the contract that the gate is checked against.
use software_builder.Prelude.{
  String, Bool, true, false, not, ◌&&◌, Option, none, some, List, [], ◌∷◌, ◌++◌, ◌≡◌, all, any, map,
  is_empty, if◌then◌else◌, join, join-nil, Bool-cases, inl, inr,
}
use text.Mathlib.Text.{◌==◌}
use software_builder.Prelude.Dict.{Dict}
use software_builder.Prelude.Json.{
  Json, Items, Fields, null, string, array, object, end, item, empty, field, items, fields, get,
  keys,
}
use software_builder.Prelude.Text.{elem}
use software_builder.Lifecycle.{
  require, text_is, is_true, is_boolean, ContractError, missing_fields, unknown_fields,
  bad_schema_version, stale_identity, bad_requirements, unportable_requirements,
  bad_current_requirements, stale_requirements, bad_mode, bad_status, bad_surfaces, unable_not_list,
  bad_unable_entry, bad_unable_values, unable_without_entry, complete_with_mandatory, bad_buckets,
  bad_generated_at, bucket_not_list, entry_not_object, bad_entry_fields, other_category,
  bad_entry_text, repeated_id, in_current,
}
use software_builder.Lifecycle.Contract.{
  ReviewContract, identity_fresh, portable_value, json_equivalent,
}
use software_builder.Lifecycle.Identity.{
  has_field, check_field, is_one, missing_in, unknown_in, names_errors, validate_change_identity,
  validate_change_identity-object,
}

-- The fields of evidence, in their order as texts.
abbrev pub evidence_fields : List String
evidence_fields =
    "change_identity" ∷ "findings" ∷ "generated_at" ∷ "inspected_surfaces" ∷ "inspection_status"
    ∷ "requirements_ref" ∷ "review_mode" ∷ "schema_version" ∷ "unable_to_inspect" ∷ []

-- A text that is not empty.
abbrev pub is_full_text : Json → Bool
is_full_text (string s) = not (s == "")
is_full_text _ = false

abbrev pub is_one_of : List String → Json → Bool
is_one_of names (string s) = elem s names
is_one_of names _ = false

-- `set(item) == names`
abbrev pub has_exactly : List String → Dict Json → Bool
has_exactly names d = all (λ k. elem k names) (keys d) && all (λ k. has_field k d) names

abbrev full_texts : Json → Bool
full_texts (array js) = all is_full_text (items js)
full_texts _ = false

abbrev unable_values : Dict Json → Bool
unable_values d =
    is_full_text (get "surface" d)
    && is_full_text (get "reason" d)
    && is_boolean (get "mandatory" d)

unfoldable pub unable_entry_errors : Json → List ContractError
unable_entry_errors (object fs) =
    if has_exactly ("surface" ∷ "reason" ∷ "mandatory" ∷ []) (fields fs)
    then require (unable_values (fields fs)) bad_unable_values
    else bad_unable_entry ∷ []
unable_entry_errors _ = bad_unable_entry ∷ []

abbrev is_mandatory : Json → Bool
is_mandatory (object fs) = is_true (get "mandatory" (fields fs))
is_mandatory _ = false

-- The errors of `unable_to_inspect`, below an inspection status.
unfoldable pub unable_errors : Json → Json → List ContractError
unfolding unable_entry_errors
unable_errors status (array js) =
    join (map unable_entry_errors (items js))
    ++ (require (not (text_is "unable" status && is_empty (items js))) unable_without_entry
        ++ require (not (text_is "complete" status && any is_mandatory (items js)))
            complete_with_mandatory)
unable_errors status _ = unable_not_list ∷ []

-- The ids that are known behind an entry, and whether its id was known before.
abbrev add_id : Json → List String → List String
add_id (string s) ids = if s == "" then ids else s ∷ ids
add_id _ ids = ids

abbrev id_errors : Json → List String → List ContractError
id_errors (string s) ids = if not (s == "") && elem s ids then repeated_id s ∷ [] else []
id_errors _ ids = []

abbrev entry_text_errors : String → Dict Json → String → List ContractError
entry_text_errors bucket d name = require (is_full_text (get name d)) (bad_entry_text bucket name)

unfoldable pub entry_errors : String → List String → Dict Json → List ContractError
entry_errors bucket ids d = join (
    require (has_exactly ("id" ∷ "category" ∷ "summary" ∷ "evidence" ∷ []) d)
      (bad_entry_fields bucket)
    ∷ require (text_is bucket (get "category" d)) (other_category bucket)
    ∷ entry_text_errors bucket d "id"
    ∷ entry_text_errors bucket d "summary"
    ∷ entry_text_errors bucket d "evidence"
    ∷ id_errors (get "id" d) ids
    ∷ [])

-- The errors of the entries of one bucket, and the ids behind them.
unfoldable pub entries_errors : String → List String → Items → List ContractError × List String
unfolding entry_errors
entries_errors bucket ids end = ([], ids)
entries_errors bucket ids (item (object fs) js) =
    let rest = entries_errors bucket (add_id (get "id" (fields fs)) ids) js in
    (entry_errors bucket ids (fields fs) ++ rest.0, rest.1)
entries_errors bucket ids (item j js) =
    let rest = entries_errors bucket ids js in (entry_not_object bucket ∷ rest.0, rest.1)

unfoldable pub buckets_errors : List String → Fields → List ContractError
unfolding entries_errors
buckets_errors ids empty = []
buckets_errors ids (field bucket (array js) fs) =
    let entries = entries_errors bucket ids js in entries.0 ++ buckets_errors entries.1 fs
buckets_errors ids (field bucket j fs) = bucket_not_list bucket ∷ buckets_errors ids fs

unfoldable pub findings_errors : Json → List ContractError
unfolding buckets_errors
findings_errors (object fs) =
    if has_exactly ("defect" ∷ "suggestion" ∷ "question" ∷ []) (fields fs)
    then buckets_errors [] fs
    else bad_buckets ∷ []
findings_errors _ = bad_buckets ∷ []

unfoldable pub requirements_errors : Json → List ContractError
requirements_errors null = []
requirements_errors (object fs) = require (portable_value 33 (object fs)) unportable_requirements
requirements_errors _ = bad_requirements ∷ []

-- The requirements of the evidence, and the current ones where they are given.
unfoldable pub current_requirements_errors : Json → Option Json → List ContractError
current_requirements_errors ref none = []
current_requirements_errors ref (some null) = require (json_equivalent ref null) stale_requirements
current_requirements_errors ref (some (object fs)) =
    if portable_value 33 (object fs)
    then require (json_equivalent ref (object fs)) stale_requirements
    else bad_current_requirements ∷ []
current_requirements_errors ref (some _) = bad_current_requirements ∷ []

module _ (lower : String → String) where
  -- The identity of the evidence beside a current one.
  abbrev against : Json → Json → Bool → List ContractError
  against identity current conflict =
      let errors = validate_change_identity current in
      map in_current errors
      ++ (if is_empty errors && not (identity_fresh lower identity current conflict)
          then stale_identity ∷ []
          else [])

  -- None, which is no current identity, is checked against nothing.
  unfoldable pub current_errors : Json → Json → Bool → List ContractError
  current_errors identity null conflict = []
  current_errors identity current conflict = against identity current conflict

  abbrev pub evidence_sections : Dict Json → Json → Option Json → Bool → List (List ContractError)
  evidence_sections d current requirements conflict =
      names_errors missing_fields (missing_in evidence_fields d)
      ∷ names_errors unknown_fields (unknown_in evidence_fields d)
      ∷ check_field "schema_version" d (λ j. require (is_one j) bad_schema_version)
      ∷ validate_change_identity (get "change_identity" d)
      ∷ current_errors (get "change_identity" d) current conflict
      ∷ check_field "requirements_ref" d requirements_errors
      ∷ current_requirements_errors (get "requirements_ref" d) requirements
      ∷ check_field "review_mode" d
          (λ j. require (is_one_of ("normal" ∷ "exhaustive" ∷ []) j) bad_mode)
      ∷ check_field "inspection_status" d
          (λ j. require (is_one_of ("complete" ∷ "partial" ∷ "unable" ∷ []) j) bad_status)
      ∷ check_field "inspected_surfaces" d (λ j. require (full_texts j) bad_surfaces)
      ∷ check_field "unable_to_inspect" d (unable_errors (get "inspection_status" d))
      ∷ check_field "findings" d findings_errors
      ∷ check_field "generated_at" d (λ j. require (is_full_text j) bad_generated_at)
      ∷ []

  unfoldable pub validate_review_evidence :
      Dict Json → Json → Option Json → Bool → List ContractError
  validate_review_evidence d current requirements conflict =
      join (evidence_sections d current requirements conflict)

  against-fresh :
      (identity current : Json) (conflict : Bool)
      → validate_change_identity current ≡ []
      → against identity current conflict ≡ []
      → identity_fresh lower identity current conflict ≡ true
  against-fresh identity current conflict valid h =
      elim (Bool-cases (identity_fresh lower identity current conflict)) [
        | inl fresh ↦ fresh
        | inr stale ↦ absurd (cc (rw (valid, stale) at h))
      ]

  current_errors-fresh :
      (identity current : Json) (conflict : Bool)
      → validate_change_identity current ≡ []
      → current_errors identity current conflict ≡ []
      → identity_fresh lower identity current conflict ≡ true
  unfolding current_errors
  current_errors-fresh identity current conflict valid h =
      let (fs, is_object) = validate_change_identity-object current valid in
      rw is_object
        (against-fresh identity (object fs) conflict (rw is_object at valid) (rw is_object at h))

  pub validate_review_evidence-fresh :
      (d : Dict Json) (current : Json) (requirements : Option Json) (conflict : Bool)
      → validate_change_identity current ≡ []
      → validate_review_evidence d current requirements conflict ≡ []
      → identity_fresh lower (get "change_identity" d) current conflict ≡ true
  unfolding validate_review_evidence
  validate_review_evidence-fresh d current requirements conflict valid h =
      let sections = join-nil (evidence_sections d current requirements conflict) h in
      current_errors-fresh (get "change_identity" d) current conflict valid sections.1.1.1.1.0

  -- The contract of reviews.
  abbrev pub review_contract : ReviewContract lower
  review_contract = record {
    validate_change_identity = validate_change_identity;
    validate_review_evidence = validate_review_evidence;
    is_identity = validate_change_identity-object;
    is_fresh = validate_review_evidence-fresh;
  }
