-- ===== src/Plan/State/Checks.antt =====
-- scripts/implementation_plan.py: `validate_plan_execution_state`, a function for each of its checks.
use software_builder.Prelude.{
  join, ℕ, String, Bool, true, false, not, ◌&&◌, Option, none, some, List, [], ◌∷◌, ◌++◌, map, all,
  is_empty, ltb, nat_eq, length, if◌then◌else◌,
}
use software_builder.Prelude.Dict.{Dict, lookup, insert}
use software_builder.Prelude.Json.{
  Json, Fields, null, int, negative, string, object, empty, field, fields, get, as_mapping, as_list,
  keys,
}
use software_builder.Prelude.Outcome.{Outcome, return, raise}
use software_builder.Prelude.Text.{elem}
use software_builder.Plan.Reports.{without, non_empty_str}
use software_builder.Plan.Selection.{TaskStatus, official}
use software_builder.Plan.State.{
  ImplementationPlan, state_fields, StateError, not_mapping, bad_schema_version, other_plan_id,
  other_digest, other_repo, bad_generation, stale_generation, bad_statuses, other_statuses,
  stale_head, bad_refs, bad_clarifications, bad_attempts, bad_threads, unknown_current,
  several_in_progress, not_in_progress, bad_updated_at, invalid_plan, missing_official, undeclared,
  missing, Raised, type_error, refuse, is_text, is_optional_text, unhashable, status_text,
}

abbrev pub is_status : Json → Bool
is_status (string s) = elem s ("PENDING" ∷ "IN_PROGRESS" ∷ "COMPLETE" ∷ "BLOCKED" ∷ [])
is_status _ = false

abbrev pub all_values : (Json → Bool) → Fields → Bool
all_values p empty = true
all_values p (field k j fs) = p j && all_values p fs

abbrev pub is_mapping : Json → Bool
is_mapping (object fs) = true
is_mapping _ = false

abbrev pub is_integer : Json → Bool
is_integer (int n) = true
is_integer (negative n) = true
is_integer _ = false

abbrev pub same_set : List String → List String → Bool
same_set xs ys = is_empty (without xs ys) && is_empty (without ys xs)

abbrev pub report_names : (List String → StateError) → List String → List StateError
report_names e [] = []
report_names e (k ∷ ks) = e (k ∷ ks) ∷ []

unfoldable pub undeclared_fields : List String → List StateError
undeclared_fields ks = report_names undeclared (without ks state_fields)

unfoldable pub missing_fields : List String → List StateError
missing_fields ks = report_names missing (without state_fields ks)

abbrev pub check_schema_version : Json → List StateError
check_schema_version (int n) = refuse (not (nat_eq n 1)) bad_schema_version
check_schema_version _ = bad_schema_version ∷ []

abbrev pub below : ℕ → Option ℕ → Bool
below n none = false
below n (some least) = ltb n least

abbrev pub check_generation : Option ℕ → Json → List StateError
check_generation minimum (int n) = refuse (below n minimum) stale_generation
check_generation minimum _ = bad_generation ∷ []

abbrev pub check_digest : Option String → Json → List StateError
check_digest none j = other_digest ∷ []
check_digest (some d) j = refuse (not (is_text d j)) other_digest

abbrev pub check_statuses : List String → Json → List StateError
check_statuses ids (object fs) =
    refuse (not (same_set (keys (fields fs)) ids && all_values is_status fs)) bad_statuses
check_statuses ids _ = bad_statuses ∷ []

-- The official status of every task, and the tasks that have none.
expected_statuses : Dict String → List String → Dict TaskStatus
expected_statuses given [] = []
expected_statuses given (t ∷ ts) =
    let rest = expected_statuses given ts in
    elim (official given t) [ none ↦ rest | some st ↦ insert t st rest ]

unofficial : Dict String → List String → List StateError
unofficial given [] = []
unofficial given (t ∷ ts) =
    let rest = unofficial given ts in
    elim (official given t) [ none ↦ missing_official t ∷ rest | some st ↦ rest ]

agrees : Dict TaskStatus → Fields → Bool
agrees expected empty = true
agrees expected (field k j fs) =
    elim (lookup k expected) [ none ↦ false | some st ↦ is_text (status_text st) j ]
    && agrees expected fs

check_agreement : Dict TaskStatus → Json → List StateError
unfolding agrees
check_agreement expected (object fs) =
    refuse
      (not (is_empty expected)
        && not (nat_eq (length (fields fs)) (length expected) && agrees expected fs))
      other_statuses
check_agreement expected _ = []

unfoldable pub check_official : List String → Option (Dict String) → Json → List StateError
unfolding expected_statuses unofficial check_agreement
check_official ids none statuses = []
check_official ids (some given) statuses =
    unofficial given ids ++ check_agreement (expected_statuses given ids) statuses

abbrev pub check_head : Option String → Json → List StateError
check_head none j = []
check_head (some h) j = refuse (not (is_text h j)) stale_head

abbrev pub check_refs : Json → List StateError
check_refs j = elim (as_list j) [
  | none ↦ bad_refs ∷ []
  | some js ↦ refuse (not (all non_empty_str js)) bad_refs
]

abbrev pub check_attempts : Json → List StateError
check_attempts (object fs) = refuse (not (all_values is_integer fs)) bad_attempts
check_attempts _ = bad_attempts ∷ []

abbrev pub is_threads : Json → Bool
is_threads (object threads) = all_values is_mapping threads
is_threads _ = false

abbrev pub check_threads : Json → List StateError
check_threads (object fs) = refuse (not (all_values is_threads fs)) bad_threads
check_threads _ = bad_threads ∷ []

abbrev pub check_known : List String → Json → List StateError
check_known ids null = []
check_known ids (string s) = refuse (not (elem s ids)) unknown_current
check_known ids _ = unknown_current ∷ []

-- `[task_id for task_id, status in statuses.items() if status == "IN_PROGRESS"]`
abbrev pub active : Fields → List String
active empty = []
active (field k j fs) = let rest = active fs in if is_text "IN_PROGRESS" j then k ∷ rest else rest

abbrev pub expect_current : List String → Json → List StateError
expect_current [] j = refuse (not (is_optional_text none j)) not_in_progress
expect_current (t ∷ []) j = refuse (not (is_text t j)) not_in_progress
expect_current (t ∷ u ∷ ts) j = several_in_progress ∷ []

abbrev pub check_current : Json → Json → List StateError
check_current (object fs) j = expect_current (active fs) j
check_current _ j = []

module _ (plan : ImplementationPlan) (current_head : Option String) (minimum : Option ℕ)
    (authoritative : Option (Dict String)) where
  abbrev pub sections : Dict Json → List (List StateError)
  sections s =
      map invalid_plan plan.errors
      ∷ undeclared_fields (keys s)
      ∷ missing_fields (keys s)
      ∷ check_schema_version (get "schema_version" s)
      ∷ refuse (not (is_text plan.plan_id (get "plan_id" s))) other_plan_id
      ∷ check_digest plan.digest (get "plan_digest" s)
      ∷ refuse (not (is_text plan.target_repo (get "target_repo" s))) other_repo
      ∷ check_generation minimum (get "state_generation" s)
      ∷ check_statuses plan.task_ids (get "task_statuses" s)
      ∷ check_official plan.task_ids authoritative (get "task_statuses" s)
      ∷ check_head current_head (get "observed_head_revision" s)
      ∷ check_refs (get "completed_evidence_refs" s)
      ∷ refuse (not (is_mapping (get "clarifications" s))) bad_clarifications
      ∷ check_attempts (get "final_check_attempts" s)
      ∷ check_threads (get "comment_threads" s)
      ∷ check_known plan.task_ids (get "current_task_id" s)
      ∷ check_current (get "task_statuses" s) (get "current_task_id" s)
      ∷ refuse (not (non_empty_str (get "updated_at" s))) bad_updated_at
      ∷ []

  unfoldable pub state_errors : Dict Json → List StateError
  state_errors s = join (sections s)

  unfoldable pub validate_plan_execution_state : Json → Outcome Raised (List StateError)
  validate_plan_execution_state state = elim (as_mapping state) [
    | none ↦ return (not_mapping ∷ [])
    | some s ↦
        if unhashable (get "current_task_id" s) then raise type_error else return (state_errors s)
  ]
