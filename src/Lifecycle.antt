-- ===== src/Lifecycle.antt =====
-- skills/loop-task-implementer/scripts/validate_loop_lifecycle.py: the gate before a change is READY,
-- COMPLETE or merged, over the JSON state of the loop: its errors, and its tests on values. `str.lower`
-- and the equality of a float with another number are arguments.
pub mod Contract
pub mod Canonical
pub mod Identity
pub mod Evidence
pub mod Reviewed
pub mod Gate
pub mod Tests
pub mod Isolation
pub mod Accepted
pub mod Ready
pub mod Safe
mod Examples
use text.Mathlib.Text.{◌==◌}
use software_builder.Prelude.{
  ◌≡◌, ℕ, String, Bool, true, false, not, ◌&&◌, ◌||◌, Option, none, some, List, [], ◌∷◌, ◌++◌, map,
  any, is_empty, length, join, nat_eq, if◌then◌else◌,
}
use software_builder.Prelude.Dict.{Dict, lookup}
use software_builder.Prelude.Json.{
  Json, Items, Fields, null, boolean, int, negative, float, string, array, object, end, item, empty,
  field, fields, get, as_mapping,
}
use software_builder.Prelude.Text.{has_text}

pub data Lens : Type 0 where
  lens_a lens_b : Lens

-- The errors of an identity and of evidence.
pub data ContractError : Type 0 where
  identity_not_object bad_schema_version bad_fingerprint not_subset stale_identity bad_requirements
        unportable_requirements bad_current_requirements stale_requirements bad_mode bad_status
        bad_surfaces unable_not_list bad_unable_entry bad_unable_values unable_without_entry
        complete_with_mandatory bad_buckets bad_generated_at :
      ContractError
  missing_fields unknown_fields : List String → ContractError
  bad_sha bad_paths unsorted_paths bad_changes uncanonical_changes unordered_changes bucket_not_list
        entry_not_object bad_entry_fields other_category repeated_id :
      String → ContractError
  bad_entry_text : String → String → ContractError
  in_current : ContractError → ContractError

pub data LensError : Type 0 where
  not_clean no_evidence bad_generation other_generation not_complete uninspected defects
        exception_not_boolean exception_of_isolated provenance_of_isolated identity_of_isolated
        generation_of_isolated no_isolation_status not_isolated exception_without_provenance
        exception_of_other_identity exception_of_other_generation no_reviewed_identity
        other_identity conflict_unknown transition_without_provenance :
      LensError
  in_evidence : ContractError → LensError

pub data LifecycleError : Type 0 where
  not_an_object no_requirements third_party_not_boolean no_conflict conflict_not_boolean
        conflict_without_provenance other_head no_head no_checked_head checked_other_head
        lenses_differ third_party_changed third_party_not_false checks_not_green
        checks_of_other_head criteria_incomplete blockers_open evidence_unresolved no_approvals
        threads_open integration_invalid breaker_active :
      LifecycleError
  in_current_identity : ContractError → LifecycleError
  in_lens : Lens → LensError → LifecycleError

abbrev pub require {ℓ} : {E : Type ℓ} → Bool → E → List E
require true e = []
require false e = e ∷ []

-- `_mapping`
abbrev pub mapping : Json → Dict Json
mapping (object fs) = fields fs
mapping _ = []

abbrev pub text_is : String → Json → Bool
text_is t (string s) = s == t
text_is t _ = false

abbrev pub is_true : Json → Bool
is_true (boolean b) = b
is_true _ = false

abbrev pub is_false : Json → Bool
is_false (boolean b) = not b
is_false _ = false

abbrev pub is_zero : Json → Bool
is_zero (int n) = nat_eq n 0
is_zero _ = false

abbrev pub is_boolean : Json → Bool
is_boolean (boolean b) = true
is_boolean _ = false

abbrev pub is_null : Json → Bool
is_null null = true
is_null _ = false

-- A text with a character that is no whitespace.
abbrev pub given_text : Json → Bool
given_text (string s) = has_text s
given_text _ = false

abbrev pub is_positive : Json → Bool
is_positive (int n) = not (nat_eq n 0)
is_positive _ = false

-- A list with an item.
abbrev pub has_items : Json → Bool
has_items (array (item j js)) = true
has_items _ = false

abbrev digit : Bool → ℕ
digit true = 1
digit false = 0

module _ (lower : String → String) where
  abbrev pub same_hex : Json → Json → Bool
  same_hex (string l) (string r) = lower l == lower r
  same_hex _ _ = false

-- `==` of two JSON values.
module _ (float_eq : String → Json → Bool) where
  unfoldable mutual
    pub same : Json → Json → Bool
    same null null = true
    same (boolean b) (boolean c) = nat_eq (digit b) (digit c)
    same (boolean b) (int n) = nat_eq (digit b) n
    same (int m) (int n) = nat_eq m n
    same (int m) (boolean c) = nat_eq m (digit c)
    same (negative m) (negative n) = nat_eq m n
    same (float r) j = float_eq r j
    same j (float r) = float_eq r j
    same (string s) (string t) = s == t
    same (array js) (array ks) = same_items js ks
    same (object fs) (object gs) =
        nat_eq (length (fields fs)) (length (fields gs)) && same_fields fs (fields gs)
    same _ _ = false

    same_items : Items → Items → Bool
    same_items end end = true
    same_items (item j js) (item k ks) = same j k && same_items js ks
    same_items _ _ = false

    same_fields : Fields → Dict Json → Bool
    same_fields empty d = true
    same_fields (field k j fs) d =
        elim (lookup k d) [ none ↦ false | some v ↦ same j v ] && same_fields fs d
