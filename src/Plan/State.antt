-- ===== src/Plan/State.antt =====
-- scripts/implementation_plan.py: the state of a plan's execution, and the errors that its check
-- reports. The state is a JSON value. Of a
-- plan, whose tasks have texts as ids, the errors of `validate_implementation_plan` and the digest are
-- fields; the digest is none where `canonical_plan_digest` raises. The errors stand in the order of
-- the checks: that the source sorts them is left out.
pub mod Checks
pub mod Advance
pub mod Writes
pub mod Stamped
pub mod Steps
pub mod Validates
pub mod Found
pub mod Next
mod Finalize
use text.Mathlib.Text.{◌==◌}
use software_builder.Prelude.{
  ℕ, String, Bool, true, false, not, ◌&&◌, ◌||◌, Option, none, some, List, [], ◌∷◌, ◌++◌, map, keep,
  all, is_empty, ltb, nat_eq, length, if◌then◌else◌,
}
use software_builder.Prelude.Dict.{Dict, lookup, insert, update}
use software_builder.Prelude.Json.{
  Json, Items, Fields, null, boolean, int, negative, string, array, object, end, item, empty, field,
  fields, get, as_mapping, as_list, keys,
}
use software_builder.Prelude.Outcome.{Outcome, return, raise}
use software_builder.Prelude.Text.{elem}
use software_builder.Plan.Reports.{without, non_empty_str}
use software_builder.Plan.Selection.{TaskStatus, pending, in_progress, complete, blocked, official}

pub record ImplementationPlan : Type 0 where
  pub plan_id : String
  pub target_repo : String
  pub readiness : String
  pub task_ids : List String
  pub errors : List String
  pub digest : Option String

-- EXECUTION_STATE_FIELDS
abbrev pub state_fields : List String
state_fields =
    "schema_version" ∷ "plan_id" ∷ "plan_digest" ∷ "target_repo" ∷ "state_generation"
    ∷ "current_task_id" ∷ "task_statuses" ∷ "completed_evidence_refs" ∷ "observed_head_revision"
    ∷ "blocked_reason" ∷ "updated_at" ∷ "clarifications" ∷ "comment_threads"
    ∷ "final_check_attempts" ∷ []

pub data StateError : Type 0 where
  not_mapping bad_schema_version other_plan_id other_digest other_repo bad_generation
        stale_generation bad_statuses other_statuses stale_head bad_refs bad_clarifications
        bad_attempts bad_threads unknown_current several_in_progress not_in_progress bad_updated_at
        not_ready not_covered generation_moved :
      StateError
  invalid_plan missing_official bad_thread_entry : String → StateError
  undeclared missing : List String → StateError

-- What the calls raise.
pub data Raised : Type 0 where
  type_error key_error : Raised

abbrev pub refuse : Bool → StateError → List StateError
refuse true e = e ∷ []
refuse false e = []

abbrev pub is_text : String → Json → Bool
is_text t (string s) = s == t
is_text t _ = false

-- The value is the text, or None.
abbrev pub is_optional_text : Option String → Json → Bool
is_optional_text none null = true
is_optional_text (some t) (string s) = s == t
is_optional_text _ _ = false

-- `value in {...}` raises TypeError for it.
abbrev pub unhashable : Json → Bool
unhashable (array js) = true
unhashable (object fs) = true
unhashable _ = false

-- TASK_STATUSES
abbrev pub status_text : TaskStatus → String
status_text pending = "PENDING"
status_text in_progress = "IN_PROGRESS"
status_text complete = "COMPLETE"
status_text blocked = "BLOCKED"
