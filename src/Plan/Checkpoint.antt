-- ===== src/Plan/Checkpoint.antt =====
-- scripts/implementation_plan.py, `merge_plan_state` and `_merge_comment_threads`: which of two
-- checkpoints stays, and how the comment threads of two checkpoints are joined. An entry that is not
-- a mapping is `none`.
pub mod Threads
pub mod Newest
mod Examples
use software_builder.Prelude.{
  ℕ, String, Bool, true, false, not, ◌||◌, Option, none, some, List, [], ◌∷◌, map, ltb,
  if◌then◌else◌,
}
use software_builder.Prelude.Dict.{Dict, lookup, insert, update}
use software_builder.Prelude.Outcome.{Outcome, return, raise}

-- A checkpoint, or what was read in its place: `state_generation`, if it is an integer, and the rest.
pub record Checkpoint : Type 0 where
  pub state_generation : Option ℕ
  pub contents : String

outdates : Option ℕ → Option ℕ → Bool
outdates none current = false
outdates (some incoming) none = true
outdates (some incoming) (some current) = ltb current incoming

pub merge_plan_state : Checkpoint → Checkpoint → Checkpoint
unfolding outdates
merge_plan_state current incoming =
    if outdates incoming.state_generation current.state_generation then incoming else current

pub data ThreadsError : Type 0 where
  not_a_mapping : String → ThreadsError

module _ {V : Type 0} where
  -- `dict(merged.get(task_id, {}))`
  unfoldable pub threads_of : String → Dict (Dict V) → Dict V
  threads_of task_id merged = elim (lookup task_id merged) [ none ↦ [] | some threads ↦ threads ]

  unfoldable pub durable_entry : String × Option (Dict V) → String × Dict V
  durable_entry (task_id, none) = (task_id, [])
  durable_entry (task_id, some threads) = (task_id, threads)

  unfoldable pub merge_into :
      Dict (Dict V) → Dict (Option (Dict V)) → Outcome ThreadsError (Dict (Dict V))
  merge_into merged [] = return merged
  merge_into merged ((task_id, none) ∷ incoming) = raise (not_a_mapping task_id)
  merge_into merged ((task_id, some threads) ∷ incoming) =
      merge_into (insert task_id (update (threads_of task_id merged) threads) merged) incoming

  unfoldable pub merge_comment_threads :
      Dict (Option (Dict V)) → Dict (Option (Dict V)) → Outcome ThreadsError (Dict (Dict V))
  unfolding durable_entry merge_into
  merge_comment_threads durable incoming = merge_into (map durable_entry durable) incoming
