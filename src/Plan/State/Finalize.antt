-- ===== src/Plan/State/Finalize.antt =====
-- scripts/implementation_plan.py: `reconcile_plan_state` and `finalize_plan`, what a caller is told of a
-- checkpoint and of a plan.
use text.Mathlib.Text.{◌==◌}
use software_builder.Prelude.{
  String, Bool, true, false, ◌&&◌, Option, none, some, List, [], ◌∷◌, ◌≡◌, ◌↔◌, arith, is_empty,
  if◌then◌else◌,
}
use software_builder.Prelude.Json.{Json, get, as_mapping}
use software_builder.Plan.State.{ImplementationPlan, is_text}

-- A stale plan digest blocks the resumption; the flag is set where it is READY.
reconcile_plan_state : String → Json → Bool
reconcile_plan_state plan_digest state = elim (as_mapping state) [
  | none ↦ false
  | some s ↦ is_text plan_digest (get "plan_digest" s)
]

data PlanStatus : Type 0 where
  success partial_success blocked failed : PlanStatus

-- _READINESS_TO_STATUS
readiness_status : String → Option PlanStatus
readiness_status readiness =
    if readiness == "READY"
    then some success
    else if readiness == "PARTIAL"
    then some partial_success
    else if readiness == "BLOCKED"
    then some blocked
    else none

record FinalizedPlan : Type 0 where
  readiness : Option String
  status : PlanStatus
  blockers : List String

finalize_with : String → List String → FinalizedPlan
unfolding readiness_status
finalize_with readiness errors = elim (readiness_status readiness) [
  | none ↦ record { readiness = some readiness; status = failed; blockers = readiness ∷ [] }
  | some status ↦ record { readiness = some readiness; status = status; blockers = errors }
]

-- What is no mapping is none. A plan with errors is finalized as BLOCKED.
finalize_plan : Option ImplementationPlan → FinalizedPlan
unfolding finalize_with
finalize_plan none = record {
  readiness = none;
  status = failed;
  blockers = "implementation_plan must be a mapping" ∷ [];
}
finalize_plan (some plan) =
    if is_empty plan.errors
    then finalize_with plan.readiness plan.errors
    else finalize_with "BLOCKED" plan.errors

finalize_plan-success_iff :
    (plan : ImplementationPlan)
    → ((finalize_plan (some plan)).status ≡ success)
      ↔ (is_empty plan.errors && plan.readiness == "READY" ≡ true)
unfolding finalize_plan finalize_with readiness_status
finalize_plan-success_iff plan = ground arith
