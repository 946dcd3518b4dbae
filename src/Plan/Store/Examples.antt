-- ===== src/Plan/Store/Examples.antt =====
-- One plan of one task: its first advances in memory and in the store.
use software_builder.Prelude.{ℕ, ◌<◌, String, Bool, false, none, some, [], ◌∷◌, ◌≡◌, refl}
use software_builder.Prelude.Dict.{Dict, lookup, insert, update}
use software_builder.Prelude.Json.{
  Json, null, int, string, array, object, end, item, empty, field, Fields, fields, get,
}
use software_builder.Prelude.Outcome.{return}
use software_builder.Prelude.Text.{has_text, is_space}
use software_builder.Plan.Reports.{non_empty_str}
use software_builder.Plan.Selection.{official, official_status_map}
use software_builder.Plan.Checkpoint.{merge_comment_threads, merge_into, durable_entry, threads_of}
use software_builder.Plan.State.{ImplementationPlan}
use software_builder.Plan.State.Checks.{
  state_errors, undeclared_fields, missing_fields, check_official, validate_plan_execution_state,
}
use software_builder.Plan.State.Advance.{
  Request, advanced, to_fields, sorted_set, insert_text, before, official_statuses, merged_mapping,
  durable_threads, merged_threads, normalize, recheck, with_threads, reconcile_fields,
  uncovered_tasks, unless, reconcile_plan_execution_state, equals, advance_plan_execution_state,
}
use software_builder.Plan.State.Next.{Next, advance-Next}
use software_builder.Plan.Store.{
  Content, absent, json, CasCall, parse_state_file, initial_plan_execution_state, all_texts,
  durable_refs, check_size, committed, current_state, advance_current, proposal, write, cas_advance,
}
use software_builder.Plan.Store.Calls.{
  Kept, run_calls, run_calls-Kept, run_calls-exclusive, run_calls-blank,
}

abbrev plan : ImplementationPlan
plan = record {
  plan_id = "P";
  target_repo = "repo";
  readiness = "READY";
  task_ids = "T" ∷ [];
  errors = [];
  digest = some "d0";
}

abbrev no_float : String → ℕ → Bool
no_float s n = false

abbrev request : String → Request
request time = record {
  authoritative = ("T", "NOT_STARTED") ∷ [];
  current_head = some "h";
  updated_at = time;
  evidence = "ref" ∷ [];
  blocked_reason = none;
  clarifications = [];
  comment_threads = [];
  final_check_attempts = [];
}

abbrev call : ℕ → String → CasCall
call n time = record { opening = none; expected_generation = n; arguments = request time }

abbrev state : Json → Json → String → Dict Json
state refs generation time =
    ("schema_version", int 1)
    ∷ ("plan_id", string "P")
    ∷ ("plan_digest", string "d0")
    ∷ ("target_repo", string "repo")
    ∷ ("state_generation", generation)
    ∷ ("current_task_id", null)
    ∷ ("task_statuses", object (field "T" (string "PENDING") empty))
    ∷ ("completed_evidence_refs", refs)
    ∷ ("observed_head_revision", string "h")
    ∷ ("blocked_reason", null)
    ∷ ("updated_at", string time)
    ∷ ("clarifications", object empty)
    ∷ ("comment_threads", object empty)
    ∷ ("final_check_attempts", object empty)
    ∷ []

abbrev refs : Json
refs = array (item (string "ref") end)

abbrev one_write : Content
one_write = json (object (to_fields (state refs (int 1) "t1")))

first_returns :
    (cas_advance plan no_float (call 0 "t1") absent).1 ≡ return (state refs (int 1) "t1")
unfolding cas_advance proposal write current_state initial_plan_execution_state advance_current
    durable_refs get lookup check_size sorted_set committed advance_plan_execution_state equals
    reconcile_plan_execution_state validate_plan_execution_state unless state_errors
    undeclared_fields durable_entry merge_comment_threads merge_into threads_of non_empty_str
    official official_status_map before durable_threads insert_text merged_mapping merged_threads
    normalize official_statuses recheck reconcile_fields uncovered_tasks with_threads check_official
    missing_fields all_texts parse_state_file insert update has_text is_space
first_returns = refl

second_returns :
    (cas_advance plan no_float
      (call 1 " ")
      (run_calls plan no_float
        (cas_advance plan no_float (call 0 "t1") absent).0
        (call 0 "t1" ∷ [])).0).1
    ≡ return (state refs (int 2) " ")
unfolding cas_advance proposal write current_state initial_plan_execution_state advance_current
    durable_refs get lookup check_size sorted_set committed advance_plan_execution_state equals
    reconcile_plan_execution_state validate_plan_execution_state unless state_errors
    undeclared_fields durable_entry merge_comment_threads merge_into threads_of non_empty_str
    official official_status_map before durable_threads insert_text merged_mapping merged_threads
    normalize official_statuses recheck reconcile_fields uncovered_tasks with_threads check_official
    missing_fields all_texts parse_state_file insert update has_text is_space run_calls
second_returns = refl

blank_returns :
    (cas_advance plan no_float (call 1 " ") one_write).1 ≡ return (state refs (int 2) " ")
unfolding cas_advance proposal write current_state initial_plan_execution_state advance_current
    durable_refs get lookup check_size sorted_set committed advance_plan_execution_state equals
    reconcile_plan_execution_state validate_plan_execution_state unless state_errors
    undeclared_fields durable_entry merge_comment_threads merge_into threads_of non_empty_str
    official official_status_map before durable_threads insert_text merged_mapping merged_threads
    normalize official_statuses recheck reconcile_fields uncovered_tasks with_threads check_official
    missing_fields all_texts parse_state_file insert update has_text is_space
blank_returns = refl

advance_returns :
    advance_plan_execution_state plan
      (request "t2")
      no_float
      1
      (object (to_fields (state refs (int 1) "t1")))
    ≡ return (advanced (state refs (int 2) "t2"))
unfolding cas_advance proposal write current_state initial_plan_execution_state advance_current
    durable_refs get lookup check_size sorted_set committed advance_plan_execution_state equals
    reconcile_plan_execution_state validate_plan_execution_state unless state_errors
    undeclared_fields durable_entry merge_comment_threads merge_into threads_of non_empty_str
    official official_status_map before durable_threads insert_text merged_mapping merged_threads
    normalize official_statuses recheck reconcile_fields uncovered_tasks with_threads check_official
    missing_fields all_texts parse_state_file insert update has_text is_space
advance_returns = refl

blank : has_text (call 1 " ").arguments.updated_at ≡ false
unfolding has_text is_space
blank = refl

advance-Next_example :
    (fs : Fields) × (object (to_fields (state refs (int 1) "t1")) ≡ object fs)
    × Next plan (request "t2") 1 (fields fs) (state refs (int 2) "t2")
advance-Next_example =
    advance-Next plan (request "t2") no_float 1 (object (to_fields (state refs (int 1) "t1")))
      (state refs (int 2) "t2") advance_returns

run_calls-Kept_example :
    Kept plan no_float absent (run_calls plan no_float absent (call 0 "t1" ∷ call 0 "t2" ∷ []))
run_calls-Kept_example = run_calls-Kept plan no_float absent (call 0 "t1" ∷ call 0 "t2" ∷ [])

run_calls-exclusive_example : 0 < 1
run_calls-exclusive_example =
    run_calls-exclusive plan no_float (call 0 "t1") (call 1 " ") absent (call 0 "t1" ∷ [])
      (state refs (int 1) "t1") (state refs (int 2) " ") first_returns second_returns

run_calls-blank_example :
    run_calls plan no_float
      (cas_advance plan no_float (call 1 " ") one_write).0
      (call 2 "t3" ∷ call 1 "t4" ∷ [])
    ≡ ((cas_advance plan no_float (call 1 " ") one_write).0, 0)
run_calls-blank_example =
    run_calls-blank plan no_float (call 1 " ") one_write (state refs (int 2) " ")
      (call 2 "t3" ∷ call 1 "t4" ∷ []) blank_returns blank
