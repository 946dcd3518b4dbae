-- ===== src/Plan/State/Next.antt =====
-- scripts/implementation_plan.py: how a state that `advance_plan_execution_state` returns stands to the
-- state before, the plan and the official statuses.
use text.Mathlib.Text.{◌==◌}
use software_builder.Prelude.{
  ℕ, suc, String, Bool, true, false, some, map, ◌≡◌, refl, ap, sym, ◌∙◌, subst,
}
use software_builder.Prelude.Dict.{Dict}
use software_builder.Prelude.Json.{Json, null, int, string, object, Fields, fields, get}
use software_builder.Prelude.Outcome.{return}
use software_builder.Prelude.Text.{elem}
use software_builder.Plan.Selection.{TaskStatus, official}
use software_builder.Plan.State.{ImplementationPlan, other_plan_id, other_repo, status_text}
use software_builder.Plan.State.Advance.{
  advanced, Request, to_fields, in_text, normalize, equals, advance_plan_execution_state,
}
use software_builder.Plan.State.Writes.{fields-to_fields, get-written, get-kept, refuse-nil}
use software_builder.Plan.State.Stamped.{stamped, get-stamped}
use software_builder.Plan.State.Found.{
  text_is, digest_is, head_is, generation_is, covered, official_statuses-Found,
}
use software_builder.Plan.State.Steps.{Reconciled, advance-Reconciled}

-- The status that a state has for a task.
abbrev status_in : String → Json → Json
status_in t (object fs) = get t (fields fs)
status_in t _ = null

abbrev pub status_of : Dict Json → String → Json
status_of n t = status_in t (get "task_statuses" n)

pub record Next (plan : ImplementationPlan) (r : Request) (expected : ℕ) (s n : Dict Json)
    : Type 0 where
  pub generation_before : get "state_generation" s ≡ int expected
  pub generation_after : get "state_generation" n ≡ int (suc expected)
  pub of_plan : get "plan_id" n ≡ string plan.plan_id
  pub of_digest : (d : String) × (plan.digest ≡ some d) × (get "plan_digest" n ≡ string d)
  pub of_repo : get "target_repo" n ≡ string plan.target_repo
  pub statuses :
      (t : String)
      → elem t plan.task_ids ≡ true
      → (st : TaskStatus) × (official r.authoritative t ≡ some st)
        × (status_of n t ≡ string (status_text st))
  pub head_before :
      (h : String) → r.current_head ≡ some h → get "observed_head_revision" s ≡ string h
  pub head_after :
      (h : String) → r.current_head ≡ some h → get "observed_head_revision" n ≡ string h

module _ (plan : ImplementationPlan) (r : Request) where
  statuses-normalize :
      (s : Dict Json) (d : Dict TaskStatus) (c a ts : Dict Json)
      → get "task_statuses" (normalize plan r s d c a ts) ≡ object (to_fields (map in_text d))
  unfolding normalize
  statuses-normalize s d c a ts =
      get-kept "comment_threads" "task_statuses" _ _ refl
      ∙ get-kept "final_check_attempts" "task_statuses" _ _ refl
      ∙ get-kept "clarifications" "task_statuses" _ _ refl
      ∙ get-kept "blocked_reason" "task_statuses" _ _ refl
      ∙ get-kept "observed_head_revision" "task_statuses" _ _ refl
      ∙ get-kept "completed_evidence_refs" "task_statuses" _ _ refl
      ∙ get-kept "current_task_id" "task_statuses" _ _ refl
      ∙ get-written "task_statuses" _ s

  module _ (float_is : String → ℕ → Bool) (e : ℕ) (s m : Dict Json)
      (same : equals float_is (get "state_generation" s) e ≡ true)
      (step : Reconciled plan r (some e) s m) where
    kept :
        (j : String)
        → ("updated_at" == j) ≡ false
        → ("state_generation" == j) ≡ false
        → get j (stamped (suc e) r.updated_at m) ≡ get j m
    kept j = get-stamped j (suc e) r.updated_at m

    statuses_after :
        (t : String)
        → elem t plan.task_ids ≡ true
        → (st : TaskStatus) × (official r.authoritative t ≡ some st)
          × (status_of (stamped (suc e) r.updated_at m) t ≡ string (status_text st))
    statuses_after t known =
        let (st, found, written) =
          official_statuses-Found r.authoritative step.tasks step.statuses t step.official_read (
            covered plan.task_ids step.tasks (get "task_statuses" s) t step.from.statuses
              step.tasks_read known) in
        let read =
          kept "task_statuses" refl refl
          ∙ ap (get "task_statuses") step.normal
          ∙ statuses-normalize s step.statuses step.clarifications step.attempts step.threads in
        (
          st,
          found,
          ap (status_in t) read
              ∙ ap (get t) (fields-to_fields (map in_text step.statuses))
              ∙ written,
        )

    stamped-Next : Next plan r e s (stamped (suc e) r.updated_at m)
    stamped-Next =
        let (d, d_is, d_read) = digest_is plan.digest (get "plan_digest" m) step.to.digest in
        record {
          generation_before =
              generation_is float_is e (get "state_generation" s) step.from.generation same;
          generation_after =
              get-kept "updated_at" "state_generation" _ _ refl
              ∙ get-written "state_generation" (int (suc e)) m;
          of_plan =
              kept "plan_id" refl refl
              ∙ text_is plan.plan_id _ (refuse-nil _ other_plan_id step.to.plan_id);
          of_digest = (d, d_is, kept "plan_digest" refl refl ∙ d_read);
          of_repo =
              kept "target_repo" refl refl
              ∙ text_is plan.target_repo _ (refuse-nil _ other_repo step.to.repo);
          statuses = statuses_after;
          head_before = λ h is_h. head_is h r.current_head _ step.from.head_seen is_h;
          head_after = λ h is_h.
              kept "observed_head_revision" refl refl
              ∙ head_is h r.current_head _ step.to.head_seen is_h;
        }

-- A state that `advance_plan_execution_state` returns has the generation after the expected one, which
-- was that of the state before; it is for the plan, its digest and its repository, has for every task
-- of the plan the status that the official one maps to, and where a head is given, has that head, as
-- had the state before.
pub advance-Next :
    (plan : ImplementationPlan) (r : Request) (float_is : String → ℕ → Bool) (expected : ℕ)
    (state : Json) (n : Dict Json)
    → advance_plan_execution_state plan r float_is expected state ≡ return (advanced n)
    → (fs : Fields) × (state ≡ object fs) × Next plan r expected (fields fs) n
advance-Next plan r float_is expected state n h =
    let (fs, is_object, same, (m, n_is, step)) =
      advance-Reconciled plan r float_is expected state n h in
    (
      fs,
      is_object,
      subst (Next plan r expected (fields fs)) (sym n_is)
          (stamped-Next plan r float_is expected (fields fs) m same step),
    )
