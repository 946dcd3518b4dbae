-- ===== src/Plan/Checkpoint/Newest.antt =====
-- scripts/implementation_plan.py, `merge_plan_state`: the newest checkpoint stays.
use software_builder.Prelude.{ℕ, suc, ◌≤◌, ◌≡◌, none, some, arith, List, [], ◌∷◌, All}
use software_builder.Plan.Checkpoint.{Checkpoint, outdates, merge_plan_state}

-- A checkpoint with no generation stands before those with one.
abbrev pub age : Checkpoint → ℕ
age c = elim (c.state_generation) [ none ↦ 0 | some n ↦ suc n ]

merge_plan_state-age :
    (a b : Checkpoint) → (age a ≤ age (merge_plan_state a b)) × (age b ≤ age (merge_plan_state a b))
unfolding merge_plan_state outdates
merge_plan_state-age a b = ground arith

-- The checkpoint after a sequence of writes.
abbrev pub after_writes : Checkpoint → List Checkpoint → Checkpoint
after_writes current [] = current
after_writes current (c ∷ cs) = after_writes (merge_plan_state current c) cs

-- The merge of three checkpoints is the same in either grouping.
merge_plan_state_assoc :
    (a b c : Checkpoint)
    → merge_plan_state (merge_plan_state a b) c ≡ merge_plan_state a (merge_plan_state b c)
unfolding merge_plan_state outdates
merge_plan_state_assoc a b c = ground arith

-- The checkpoint that a sequence of writes through `merge_plan_state` leaves is at least as new as the
-- one before and as each of the writes; one with no generation counts as older than those with one.
pub after_writes-newest :
    (current : Checkpoint) (writes : List Checkpoint)
    → (age current ≤ age (after_writes current writes))
      × All (λ c. age c ≤ age (after_writes current writes)) writes
after_writes-newest current [] = (omega arith, tt)
after_writes-newest current (c ∷ cs) =
    let (later, all_later) = after_writes-newest (merge_plan_state current c) cs in
    let (old, new) = merge_plan_state-age current c in (omega arith, (omega arith, all_later))
