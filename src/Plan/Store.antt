-- ===== src/Plan/Store.antt =====
-- scripts/plan_state_store.py: `cas_advance` and `read_state` over the file of one plan's state, and
-- `_parse_state_file`. The file is held as the value that its text parses to. What the check of the
-- plan's id, the directory and the lock come to is an argument, as is the comparison of a float with
-- a natural number. A durable reference that is no text raises at once; of numbers alone, the source
-- refuses them in the advance. The calls of one store follow one another, as its lock has it.
pub mod Refs
pub mod Commit
pub mod Held
pub mod Calls
mod Examples
use software_builder.Prelude.{
  ℕ, String, Bool, true, false, not, ◌&&◌, ◌||◌, Option, none, some, List, [], ◌∷◌, ◌++◌, map, all,
  is_empty, length, ltb, if◌then◌else◌,
}
use software_builder.Prelude.Dict.{Dict, lookup}
use software_builder.Prelude.Json.{
  Json, null, int, string, array, object, end, empty, fields, get, as_mapping, as_list, as_text,
  keys,
}
use software_builder.Prelude.Outcome.{Outcome, return, raise, ◌>>=◌}
use software_builder.Plan.Reports.{texts, without}
use software_builder.Plan.Selection.{TaskStatus, pending}
use software_builder.Plan.State.{ImplementationPlan, StateError, Raised, state_fields, status_text}
use software_builder.Plan.State.Advance.{
  Advanced, advanced, refused, Request, to_fields, optional_text, in_text, sorted_set,
  advance_plan_execution_state,
}

pub data Content : Type 0 where
  absent not_json : Content
  json : Json → Content

pub data StoreError : Type 0 where
  untrusted locked_out no_digest bad_file unsortable : StoreError
  too_many_refs : ℕ → StoreError
  cas_failed : List StateError → StoreError
  raised : Raised → StoreError

-- MAX_COMPLETED_EVIDENCE_REFS
abbrev pub max_completed_evidence_refs : ℕ
max_completed_evidence_refs = 1000

abbrev is_generation : Json → Bool
is_generation (int n) = true
is_generation _ = false

abbrev is_list : Json → Bool
is_list (array js) = true
is_list _ = false

abbrev pub well_formed : Dict Json → Bool
well_formed s =
    is_empty (without (keys s) state_fields)
    && is_empty (without state_fields (keys s))
    && is_generation (get "state_generation" s)
    && is_list (get "completed_evidence_refs" s)

unfoldable pub parse_state_file : Json → Outcome StoreError (Dict Json)
parse_state_file j = elim (as_mapping j) [
  | none ↦ raise bad_file
  | some s ↦ if well_formed s then return s else raise bad_file
]

abbrev pending_task : String → String × TaskStatus
pending_task t = (t, pending)

abbrev first_state : ImplementationPlan → Option String → String → String → Dict Json
first_state plan current_head updated_at digest =
    ("schema_version", int 1)
    ∷ ("plan_id", string plan.plan_id)
    ∷ ("plan_digest", string digest)
    ∷ ("target_repo", string plan.target_repo)
    ∷ ("state_generation", int 0)
    ∷ ("current_task_id", null)
    ∷ ("task_statuses", object (to_fields (map in_text (map pending_task plan.task_ids))))
    ∷ ("completed_evidence_refs", array end)
    ∷ ("observed_head_revision", optional_text current_head)
    ∷ ("blocked_reason", null)
    ∷ ("updated_at", string updated_at)
    ∷ ("clarifications", object empty)
    ∷ ("comment_threads", object empty)
    ∷ ("final_check_attempts", object empty)
    ∷ []

unfoldable pub initial_plan_execution_state :
    ImplementationPlan → Option String → String → Outcome StoreError (Dict Json)
initial_plan_execution_state plan current_head updated_at = elim (plan.digest) [
  | none ↦ raise no_digest
  | some digest ↦ return (first_state plan current_head updated_at digest)
]

unfoldable pub all_texts : List Json → Bool
all_texts js = all (λ j. elim (as_text j) [ none ↦ false | some s ↦ true ]) js

-- `current.get("completed_evidence_refs", [])`
unfoldable pub durable_refs : Dict Json → Outcome StoreError (List String)
unfolding all_texts
durable_refs s = elim (as_list (get "completed_evidence_refs" s)) [
  | none ↦ raise unsortable
  | some js ↦ if all_texts js then return (texts js) else raise unsortable
]

unfoldable pub check_size : List String → Outcome StoreError (List String)
check_size refs =
    if ltb max_completed_evidence_refs (length refs)
    then raise (too_many_refs (length refs))
    else return refs

abbrev pub with_evidence : Request → List String → Request
with_evidence r refs = record r { evidence = refs }

unfoldable pub committed : Outcome Raised Advanced → Outcome StoreError (Dict Json)
committed (return (advanced n)) = return n
committed (return (refused errors)) = raise (cas_failed errors)
committed (raise e) = raise (raised e)

module _ (plan : ImplementationPlan) (float_is : String → ℕ → Bool) where
  unfoldable pub current_state : Request → Content → Outcome StoreError (Dict Json)
  current_state r absent = initial_plan_execution_state plan r.current_head r.updated_at
  current_state r not_json = raise bad_file
  current_state r (json j) = parse_state_file j

  unfoldable pub advance_current : Request → ℕ → Dict Json → Outcome StoreError (Dict Json)
  advance_current r expected s = durable_refs s >>= λ durable.
      check_size (sorted_set (durable ++ r.evidence)) >>= λ refs. committed (
        advance_plan_execution_state plan (with_evidence r refs) float_is expected
          (object (to_fields s)))

  -- The state that is to be written.
  unfoldable pub proposal : Request → ℕ → Content → Outcome StoreError (Dict Json)
  proposal r expected c = current_state r c >>= λ s. advance_current r expected s

unfoldable pub write :
    Content → Outcome StoreError (Dict Json) → Content × Outcome StoreError (Dict Json)
write c (return n) = (json (object (to_fields n)), return n)
write c (raise e) = (c, raise e)

-- A call: the error of what comes before the lock is held, if any, the expected generation, and the
-- arguments.
pub record CasCall : Type 0 where
  pub opening : Option StoreError
  pub expected_generation : ℕ
  pub arguments : Request

unfoldable pub cas_advance :
    ImplementationPlan
    → (String → ℕ → Bool)
    → CasCall
    → Content
    → Content × Outcome StoreError (Dict Json)
cas_advance plan float_is call c = elim (call.opening) [
  | some e ↦ (c, raise e)
  | none ↦ write c (proposal plan float_is call.arguments call.expected_generation c)
]

unfoldable pub read_state : Option StoreError → Content → Outcome StoreError (Option (Dict Json))
read_state (some e) c = raise e
read_state none absent = return none
read_state none not_json = raise bad_file
read_state none (json j) = parse_state_file j >>= λ s. return (some s)
