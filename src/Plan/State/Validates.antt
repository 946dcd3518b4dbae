-- ===== src/Plan/State/Validates.antt =====
-- scripts/implementation_plan.py: whether a state that `advance_plan_execution_state` returns passes
-- the check that the next advance makes of it.
use software_builder.Prelude.{
  ℕ, suc, String, Bool, true, false, not, Option, none, some, List, [], ◌≡◌, ◌↔◌, refl, ap,
}
use software_builder.Prelude.Dict.{Dict}
use software_builder.Prelude.Json.{
  Json, null, boolean, int, negative, float, string, array, object, get,
}
use software_builder.Prelude.Outcome.{return}
use software_builder.Prelude.Text.{has_text}
use software_builder.Plan.State.{ImplementationPlan, refuse, bad_updated_at, unhashable}
use software_builder.Plan.State.Checks.{check_known, validate_plan_execution_state}
use software_builder.Plan.State.Advance.{advanced, Request, to_fields, advance_plan_execution_state}
use software_builder.Plan.State.Writes.{fields-to_fields, refuse-nil}
use software_builder.Plan.State.Stamped.{Clean, stamped, get-stamped, state_errors-stamped}
use software_builder.Plan.State.Steps.{advance-Reconciled}

hashable : (ids : List String) (j : Json) → check_known ids j ≡ [] → unhashable j ≡ false
hashable ids null h = refl
hashable ids (boolean b) h = refl
hashable ids (int n) h = refl
hashable ids (negative n) h = refl
hashable ids (float r) h = refl
hashable ids (string s) h = refl
hashable ids (array js) h = absurd (cc h)
hashable ids (object fs) h = absurd (cc h)

module _ (plan : ImplementationPlan) (head : Option String) (e : ℕ) (u : String) where
  validate-stamped :
      (m : Dict Json)
      → Clean plan head (some e) m
      → validate_plan_execution_state plan head
          (some (suc e))
          none
          (object (to_fields (stamped (suc e) u m)))
        ≡ return (refuse (not (has_text u)) bad_updated_at)
  unfolding validate_plan_execution_state
  validate-stamped m c =
      rw
        (
          fields-to_fields (stamped (suc e) u m),
          get-stamped "current_task_id" (suc e) u m refl refl,
          hashable plan.task_ids (get "current_task_id" m) c.known,
        )
        (ap return (state_errors-stamped plan head e u m c))

-- A state that `advance_plan_execution_state` returns passes the check of the next advance, at the
-- same head and the new generation, exactly if the time of the call has a character that is no
-- whitespace.
pub advance-validates_iff :
    (plan : ImplementationPlan) (r : Request) (float_is : String → ℕ → Bool) (expected : ℕ)
    (state : Json) (n : Dict Json)
    → advance_plan_execution_state plan r float_is expected state ≡ return (advanced n)
    → (validate_plan_execution_state plan r.current_head
          (some (suc expected))
          none
          (object (to_fields n))
        ≡ return [])
      ↔ (has_text r.updated_at ≡ true)
advance-validates_iff plan r float_is expected state n h =
    let (fs, is_object, same, (m, n_is, step)) =
      advance-Reconciled plan r float_is expected state n h in
    let checked = validate-stamped plan r.current_head expected r.updated_at m step.to in
    rw (n_is, checked)
      (
        λ none_found. refuse-nil (has_text r.updated_at) bad_updated_at (cc none_found),
        λ given. rw given refl,
      )
