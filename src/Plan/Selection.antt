-- ===== src/Plan/Selection.antt =====
-- scripts/implementation_plan.py, `select_next_task`, `_authoritative_selection_statuses` and
-- `select_task`: the choice of the next task from the official statuses. The errors of
-- `validate_implementation_plan` are a field of the plan. An official status that is no text counts
-- as missing; where several are missing, the source names one of them, and the model the first.
pub mod Earliest
pub mod Statuses
pub mod Ready
pub mod Progress
mod Examples
use text.Mathlib.Text.{◌==◌}
use software_builder.Prelude.{
  String, Bool, true, false, not, ◌&&◌, ◌||◌, Option, none, some, List, [], ◌∷◌, map, keep, all,
  any, is_empty, if◌then◌else◌,
}
use software_builder.Prelude.Dict.{Dict, lookup, insert, update}
use software_builder.Prelude.Outcome.{Outcome, return, raise, ◌>>=◌}
use software_builder.Prelude.Text.{elem}

pub data TaskStatus : Type 0 where
  pending in_progress complete blocked : TaskStatus

pub record Task : Type 0 where
  pub task_id : String
  pub dependencies : List String
  pub target_paths : List String

pub record Plan : Type 0 where
  pub readiness : String
  pub errors : List String
  pub tasks : List Task
  pub execution_waves : List (List String)

-- OFFICIAL_TASK_STATUS_MAP
unfoldable pub official_status_map : Dict TaskStatus
official_status_map =
    ("NOT_STARTED", pending)
    ∷ ("BUILDING", in_progress)
    ∷ ("REVIEWING", in_progress)
    ∷ ("VALIDATING", in_progress)
    ∷ ("READY", in_progress)
    ∷ ("COMPLETE", complete)
    ∷ ("ESCALATED", blocked)
    ∷ []

with_id : Task → String × Task
with_id t = (t.task_id, t)

pub tasks_by_id : List Task → Dict Task
unfolding with_id
tasks_by_id tasks = update [] (map with_id tasks)

pub as_pending : String × Task → String × TaskStatus
as_pending (task_id, task) = (task_id, pending)

has_key : {V : Type 0} → Dict V → String → Bool
has_key d k = elim (lookup k d) [ none ↦ false | some v ↦ true ]

key : {V : Type 0} → String × V → String
key (k, v) = k

same_keys : {V W : Type 0} → Dict V → Dict W → Bool
unfolding has_key key
same_keys d e = all (λ p. has_key e (key p)) d && all (λ p. has_key d (key p)) e

-- The statuses that the selection goes by, if it goes on.
pub selection_statuses : Dict Task → Option (Dict TaskStatus) → Bool → Option (Dict TaskStatus)
unfolding as_pending same_keys
selection_statuses tasks none reconciled = some (map as_pending tasks)
selection_statuses tasks (some given) false = none
selection_statuses tasks (some given) true =
    if same_keys given tasks then some (update (map as_pending tasks) given) else none

is_pending : Option TaskStatus → Bool
is_pending (some pending) = true
is_pending _ = false

is_complete : Option TaskStatus → Bool
is_complete (some complete) = true
is_complete _ = false

is_blocked : Option TaskStatus → Bool
is_blocked (some blocked) = true
is_blocked _ = false

in_progress_entry : String × TaskStatus → Bool
in_progress_entry (task_id, in_progress) = true
in_progress_entry _ = false

module _ (tasks : Dict Task) (statuses : Dict TaskStatus) where
  dependency_complete : String → Bool
  unfolding is_complete
  dependency_complete d = is_complete (lookup d statuses)

  wave_blocked : String → Bool
  unfolding is_blocked
  wave_blocked task_id = is_blocked (lookup task_id statuses)

  eligible : String → Option Task
  unfolding is_pending dependency_complete
  eligible task_id = elim (lookup task_id tasks) [
    | none ↦ none
    | some task ↦
        if is_pending (lookup task_id statuses) && all dependency_complete task.dependencies
        then some task
        else none
  ]

  eligible_tasks : List String → List Task
  eligible_tasks [] = []
  eligible_tasks (task_id ∷ wave) =
      let rest = eligible_tasks wave in
      elim (eligible task_id) [ none ↦ rest | some task ↦ task ∷ rest ]

  -- What a wave decides: the first of its eligible tasks; without one, the next waves decide unless
  -- the wave is blocked.
  decide_wave : List Task → Bool → Option Task → Option Task
  decide_wave (task ∷ _) stuck later = some task
  decide_wave [] true later = none
  decide_wave [] false later = later

  pub first_eligible : List (List String) → Option Task
  unfolding wave_blocked
  first_eligible [] = none
  first_eligible (wave ∷ waves) =
      decide_wave (eligible_tasks wave) (any wave_blocked wave) (first_eligible waves)

pub select_next_task : Plan → Option (Dict TaskStatus) → Bool → Option Task
unfolding in_progress_entry
select_next_task plan given reconciled =
    if not (plan.readiness == "READY") || not (is_empty plan.errors)
    then none
    else elim (selection_statuses (tasks_by_id plan.tasks) given reconciled) [
      | none ↦ none
      | some statuses ↦
          if any in_progress_entry statuses
          then none
          else first_eligible (tasks_by_id plan.tasks) statuses plan.execution_waves
    ]

pub data SelectError : Type 0 where
  status_missing : String → SelectError
  no_eligible_task : SelectError
  already_active : String → SelectError
  stale_paths : String → List String → SelectError

-- What `scm_evidence` says of a task: whether its two entries are there and not empty.
pub record Evidence : Type 0 where
  pub active_branch : Bool
  pub active_pr : Bool

unfoldable pub official : Dict String → String → Option TaskStatus
official given task_id = elim (lookup task_id given) [
  | none ↦ none
  | some status ↦ lookup status official_status_map
]

pub map_statuses : Dict String → List Task → Dict TaskStatus → Outcome SelectError (Dict TaskStatus)
map_statuses given [] mapped = return mapped
map_statuses given (task ∷ tasks) mapped = elim (official given task.task_id) [
  | none ↦ raise (status_missing task.task_id)
  | some status ↦ map_statuses given tasks (insert task.task_id status mapped)
]

authoritative_statuses :
    Plan → Option (Dict String) → Outcome SelectError (Option (Dict TaskStatus))
unfolding map_statuses
authoritative_statuses plan none = return none
authoritative_statuses plan (some given) =
    map_statuses given plan.tasks [] >>= λ mapped. return (some mapped)

abbrev given_any : {A : Type 0} → Option A → Bool
given_any none = false
given_any (some _) = true

the_task : Option Task → Outcome SelectError Task
the_task none = raise no_eligible_task
the_task (some task) = return task

check_idle : Task → Option Evidence → Outcome SelectError Task
check_idle task none = return task
check_idle task (some evidence) =
    if evidence.active_branch || evidence.active_pr
    then raise (already_active task.task_id)
    else return task

check_paths : Task → Option (List String) → Outcome SelectError Task
check_paths task none = return task
check_paths task (some known) =
    let missing = keep (λ path. not (elem path known)) task.target_paths in
    if is_empty missing then return task else raise (stale_paths task.task_id missing)

-- A task for READY, and the reason for BLOCKED.
pub select_task :
    Plan → Option (Dict String) → Dict Evidence → Option (List String) → Outcome SelectError Task
select_task plan given scm_evidence known_paths =
    authoritative_statuses plan given
    >>= (λ statuses. the_task (select_next_task plan statuses (given_any statuses)))
    >>= (λ task. check_idle task (lookup task.task_id scm_evidence))
    >>= (λ task. check_paths task known_paths)
