-- ===== src/Plan/State/Advance.antt =====
-- scripts/implementation_plan.py: `reconcile_plan_execution_state` and `advance_plan_execution_state`,
-- which bring the state of a plan's execution up to the official statuses, and on by one generation.
use text.Mathlib.Text.{◌==◌}
use Prim.Native.Char.{code}
use software_builder.Prelude.{
  ℕ, suc, String, Bool, true, false, not, ◌&&◌, ◌||◌, Option, none, some, List, [], ◌∷◌, ◌++◌, map,
  keep, any, ltb, nat_eq, if◌then◌else◌,
}
use software_builder.Prelude.Dict.{Dict, lookup, insert, update}
use software_builder.Prelude.Json.{
  Json, Items, Fields, null, boolean, int, float, string, array, object, end, item, empty, field,
  fields, get, as_mapping, keys,
}
use software_builder.Prelude.Outcome.{Outcome, return, raise, ◌>>=◌}
use software_builder.Prelude.Text.{has_text}
use software_builder.Plan.Selection.{TaskStatus, in_progress, blocked, official}
use software_builder.Plan.Checkpoint.{ThreadsError, not_a_mapping, merge_comment_threads}
use software_builder.Plan.State.{
  ImplementationPlan, StateError, bad_thread_entry, not_ready, not_covered, generation_moved,
  Raised, type_error, key_error, status_text,
}
use software_builder.Plan.State.Checks.{validate_plan_execution_state}

-- A state, or the errors for which there is none.
pub data Advanced : Type 0 where
  advanced : Dict Json → Advanced
  refused : List StateError → Advanced

abbrev pub to_fields : Dict Json → Fields
to_fields [] = empty
to_fields ((k, j) ∷ d) = field k j (to_fields d)

abbrev pub to_items : List String → Items
to_items [] = end
to_items (s ∷ ss) = item (string s) (to_items ss)

abbrev pub optional_text : Option String → Json
optional_text none = null
optional_text (some s) = string s

-- The order of texts, by code points.
unfoldable pub before : String → String → Bool
before s String.[] = false
before String.[] (String.◌∷◌ d t) = true
before (String.◌∷◌ c s) (String.◌∷◌ d t) =
    ltb (code c) (code d) || nat_eq (code c) (code d) && before s t

unfoldable pub insert_text : String → List String → List String
unfolding before
insert_text s [] = s ∷ []
insert_text s (t ∷ ts) =
    let later = insert_text s ts in
    if s == t then t ∷ ts else if before s t then s ∷ t ∷ ts else t ∷ later

-- `sorted({...})`
unfoldable pub sorted_set : List String → List String
unfolding insert_text
sorted_set [] = []
sorted_set (s ∷ ss) = insert_text s (sorted_set ss)

-- `{task_id: OFFICIAL_TASK_STATUS_MAP[authoritative[task_id]] for task_id in ...}`
unfoldable pub official_statuses : Dict String → List String → Outcome Raised (Dict TaskStatus)
official_statuses given [] = return []
official_statuses given (t ∷ ts) =
    let rest = official_statuses given ts in
    elim (official given t) [
      | none ↦ raise key_error
      | some st ↦ rest >>= λ d. return ((t, st) ∷ d)
    ]

abbrev pub in_text : String × TaskStatus → String × Json
in_text (t, st) = (t, string (status_text st))

-- The first task that is IN_PROGRESS.
abbrev pub current_of : Dict TaskStatus → Option String
current_of [] = none
current_of ((t, in_progress) ∷ d) = some t
current_of ((t, _) ∷ d) = current_of d

abbrev pub is_blocked : TaskStatus → Bool
is_blocked blocked = true
is_blocked _ = false

abbrev blocks : Dict TaskStatus → Bool
blocks [] = false
blocks ((t, st) ∷ d) = is_blocked st || blocks d

-- `{**state.get(key, {}), **(given or {})}`
unfoldable pub merged_mapping : Option Json → Dict Json → Outcome Raised (Dict Json)
merged_mapping none given = return (update [] given)
merged_mapping (some (object fs)) given = return (update (fields fs) given)
merged_mapping (some _) given = raise type_error

-- `(durable or {}).items()` of what is no mapping.
abbrev falsy : Json → Bool
falsy null = true
falsy (boolean b) = not b
falsy (int n) = nat_eq n 0
falsy (float r) = r == "0.0" || r == "-0.0"
falsy (string s) = s == ""
falsy (array end) = true
falsy (object empty) = true
falsy _ = false

abbrev pub entries : Dict Json → Dict (Option (Dict Json))
entries [] = []
entries ((t, j) ∷ d) = (t, as_mapping j) ∷ entries d

unfoldable pub durable_threads : Option Json → Outcome Raised (Dict Json)
durable_threads none = return []
durable_threads (some (object fs)) = return (fields fs)
durable_threads (some j) = if falsy j then return [] else raise type_error

abbrev threads_json : Dict (Dict Json) → Dict Json
threads_json [] = []
threads_json ((t, d) ∷ ds) = (t, object (to_fields d)) ∷ threads_json ds

abbrev uncovered : Dict String → String → Bool
uncovered given t = t == "" || elim (official given t) [ none ↦ true | some st ↦ false ]

-- The arguments of a call; a list or a mapping that is None is empty.
pub record Request : Type 0 where
  pub authoritative : Dict String
  pub current_head : Option String
  pub updated_at : String
  pub evidence : List String
  pub blocked_reason : Option String
  pub clarifications : Dict Json
  pub comment_threads : Dict Json
  pub final_check_attempts : Dict Json

unfoldable pub merged_threads :
    Outcome ThreadsError (Dict (Dict Json)) → Outcome StateError (Dict Json)
merged_threads (return ds) = return (threads_json ds)
merged_threads (raise (not_a_mapping t)) = raise (bad_thread_entry t)

abbrev pub settle : Dict Json → List StateError → Advanced
settle n [] = advanced n
settle n (e ∷ es) = refused (e ∷ es)

-- What `task_statuses` is but a mapping was refused before.
abbrev pub statuses_keys : Json → Outcome Raised (List String)
statuses_keys (object fs) = return (keys (fields fs))
statuses_keys _ = raise type_error

-- `value == n`, where `float_is` tells whether a float equals a natural number.
unfoldable pub equals : (String → ℕ → Bool) → Json → ℕ → Bool
equals float_is (int m) n = nat_eq m n
equals float_is (boolean b) n = nat_eq n (if b then 1 else 0)
equals float_is (float f) n = float_is f n
equals float_is _ n = false

module _ (plan : ImplementationPlan) (r : Request) where
  -- The state with its fields set, in the order of the assignments.
  unfoldable pub normalize :
      Dict Json → Dict TaskStatus → Dict Json → Dict Json → Dict Json → Dict Json
  normalize s statuses clarifications attempts threads =
      insert "comment_threads" (object (to_fields threads)) (
        insert "final_check_attempts" (object (to_fields attempts)) (
          insert "clarifications" (object (to_fields clarifications)) (
            insert "blocked_reason"
              (if blocks statuses then optional_text r.blocked_reason else null)
              (insert "observed_head_revision" (optional_text r.current_head) (
                insert "completed_evidence_refs"
                  (array (to_items (sorted_set (keep has_text r.evidence))))
                  (insert "current_task_id" (optional_text (current_of statuses))
                    (insert "task_statuses" (object (to_fields (map in_text statuses))) s)))))))

  -- The result, after the check of the state that is to be returned.
  unfoldable pub recheck : Option ℕ → Dict Json → Outcome Raised Advanced
  recheck minimum n =
      validate_plan_execution_state plan r.current_head minimum none (object (to_fields n))
      >>= λ errors. return (settle n errors)

  unfoldable pub with_threads :
      Option ℕ → (Dict Json → Dict Json) → Outcome StateError (Dict Json) → Outcome Raised Advanced
  with_threads minimum build (return threads) = recheck minimum (build threads)
  with_threads minimum build (raise e) = return (refused (e ∷ []))

  unfoldable pub reconcile_fields : Option ℕ → Dict Json → Outcome Raised Advanced
  reconcile_fields minimum s = statuses_keys (get "task_statuses" s) >>= λ tasks.
      official_statuses r.authoritative tasks >>= λ statuses.
      merged_mapping (lookup "clarifications" s) r.clarifications >>= λ clarifications.
      merged_mapping (lookup "final_check_attempts" s) r.final_check_attempts >>= λ attempts.
      durable_threads (lookup "comment_threads" s) >>= λ durable.
      with_threads minimum (normalize s statuses clarifications attempts)
        (merged_threads (merge_comment_threads (entries durable) (entries r.comment_threads)))

  unfoldable pub uncovered_tasks : List StateError
  uncovered_tasks = if any (uncovered r.authoritative) plan.task_ids then not_covered ∷ [] else []

  unfoldable pub unless : List StateError → Option ℕ → Option (Dict Json) → Outcome Raised Advanced
  unless errors minimum none = return (refused errors)
  unless [] minimum (some s) = reconcile_fields minimum s
  unless (e ∷ es) minimum (some s) = return (refused (e ∷ es))

  unfoldable pub reconcile_plan_execution_state : Option ℕ → Json → Outcome Raised Advanced
  unfolding uncovered_tasks
  reconcile_plan_execution_state minimum state =
      if not (plan.readiness == "READY")
      then return (refused (not_ready ∷ []))
      else validate_plan_execution_state plan r.current_head minimum none state >>= λ errors.
          unless (errors ++ uncovered_tasks) minimum (as_mapping state)

  abbrev pub stamp : ℕ → Advanced → Advanced
  stamp g (advanced n) =
      advanced (insert "updated_at" (string r.updated_at) (insert "state_generation" (int g) n))
  stamp g (refused errors) = refused errors

  -- `float_is` tells whether a float equals a natural number.
  module _ (float_is : String → ℕ → Bool) where
    unfoldable pub advance_plan_execution_state : ℕ → Json → Outcome Raised Advanced
    advance_plan_execution_state expected state =
        if elim (as_mapping state) [
          | none ↦ true
          | some s ↦ not (equals float_is (get "state_generation" s) expected)
        ]
        then return (refused (generation_moved ∷ []))
        else reconcile_plan_execution_state (some expected) state >>= λ result.
            return (stamp (suc expected) result)
