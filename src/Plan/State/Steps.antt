-- ===== src/Plan/State/Steps.antt =====
-- scripts/implementation_plan.py: what a state is that `advance_plan_execution_state` returns.
use text.Mathlib.Text.{◌==◌}
use software_builder.Prelude.{
  both_nil, ℕ, suc, String, Bool, true, Option, none, some, List, [], ◌∷◌, ◌++◌, ◌≡◌, refl, ap, sym,
  ◌∙◌, Bool-cases, inl, inr, subst,
}
use software_builder.Prelude.Dict.{Dict, lookup}
use software_builder.Prelude.Json.{as_mapping-cases, Json, object, Fields, fields, get}
use software_builder.Prelude.Outcome.{Outcome, return, raise, and_then-return}
use software_builder.Plan.Checkpoint.{merge_comment_threads}
use software_builder.Plan.Selection.{TaskStatus}
use software_builder.Plan.State.{ImplementationPlan, StateError, unhashable}
use software_builder.Plan.State.Checks.{state_errors, validate_plan_execution_state}
use software_builder.Plan.State.Advance.{
  Advanced, advanced, refused, Request, to_fields, statuses_keys, official_statuses, merged_mapping,
  durable_threads, entries, normalize, settle, recheck, with_threads, merged_threads,
  reconcile_fields, uncovered_tasks, unless, stamp, reconcile_plan_execution_state, equals,
  advance_plan_execution_state,
}
use software_builder.Plan.State.Writes.{fields-to_fields}
use software_builder.Plan.State.Stamped.{Clean, state_errors-Clean, stamped}

validate-errors :
    (plan : ImplementationPlan) (head : Option String) (minimum : Option ℕ) (fs : Fields)
    (es : List StateError)
    → validate_plan_execution_state plan head minimum none (object fs) ≡ return es
    → state_errors plan head minimum none (fields fs) ≡ es
unfolding validate_plan_execution_state
validate-errors plan head minimum fs es h =
    elim (Bool-cases (unhashable (get "current_task_id" (fields fs)))) [
      | inl bad ↦ absurd (cc (rw bad at h))
      | inr good ↦ cc (rw good at h)
    ]

module _ (plan : ImplementationPlan) (r : Request) where
  recheck-Clean :
      (minimum : Option ℕ) (n n' : Dict Json)
      → recheck plan r minimum n ≡ return (advanced n')
      → (n ≡ n') × Clean plan r.current_head minimum n
  unfolding recheck
  recheck-Clean minimum n n' h =
      let (es, ok, done) =
        and_then-return (λ (es : List StateError). return (settle n es))
          (validate_plan_execution_state plan r.current_head minimum none (object (to_fields n)))
          h in
      let (same, none_found) = settled es (cc done) in
      (
        same,
        state_errors-Clean plan r.current_head minimum n (
            subst (λ d. state_errors plan r.current_head minimum none d ≡ []) (fields-to_fields n)
              (validate-errors plan r.current_head minimum (to_fields n) es ok ∙ none_found)),
      )
    where
      settled : (es : List StateError) → settle n es ≡ advanced n' → (n ≡ n') × (es ≡ [])
      settled [] e = (cc e, refl)
      settled (x ∷ es) e = absurd (cc e)

  -- What the state is that `reconcile_plan_execution_state` returns.
  pub record Reconciled (minimum : Option ℕ) (s n : Dict Json) : Type 0 where
    pub from : Clean plan r.current_head minimum s
    pub to : Clean plan r.current_head minimum n
    pub clarifications : Dict Json
    pub attempts : Dict Json
    pub threads : Dict Json
    pub statuses : Dict TaskStatus
    pub tasks : List String
    pub tasks_read : statuses_keys (get "task_statuses" s) ≡ return tasks
    pub official_read : official_statuses r.authoritative tasks ≡ return statuses
    pub normal : n ≡ normalize plan r s statuses clarifications attempts threads

  threaded :
      (minimum : Option ℕ) (s n : Dict Json) (tasks : List String) (statuses : Dict TaskStatus)
      (clarifications attempts : Dict Json) (t : Outcome StateError (Dict Json))
      → Clean plan r.current_head minimum s
      → statuses_keys (get "task_statuses" s) ≡ return tasks
      → official_statuses r.authoritative tasks ≡ return statuses
      → with_threads plan r minimum (normalize plan r s statuses clarifications attempts) t
        ≡ return (advanced n)
      → Reconciled minimum s n
  unfolding with_threads
  threaded minimum s n tasks statuses c a (raise e) from x y h = absurd (cc h)
  threaded minimum s n tasks statuses c a (return threads) from x y h =
      let (same, to) = recheck-Clean minimum (normalize plan r s statuses c a threads) n h in
      record {
        from = from;
        to = subst (Clean plan r.current_head minimum) same to;
        clarifications = c;
        attempts = a;
        threads = threads;
        statuses = statuses;
        tasks = tasks;
        tasks_read = x;
        official_read = y;
        normal = sym same;
      }

  reconcile_fields-Reconciled :
      (minimum : Option ℕ) (s n : Dict Json)
      → Clean plan r.current_head minimum s
      → reconcile_fields plan r minimum s ≡ return (advanced n)
      → Reconciled minimum s n
  unfolding reconcile_fields
  reconcile_fields-Reconciled minimum s n from h =
      let (tasks, tasks_read, h) = and_then-return _ (statuses_keys (get "task_statuses" s)) h in
      let (statuses, official_read, h) =
        and_then-return _ (official_statuses r.authoritative tasks) h in
      let (clarifications, c, h) =
        and_then-return _ (merged_mapping (lookup "clarifications" s) r.clarifications) h in
      let (attempts, a, h) =
        and_then-return _ (merged_mapping (lookup "final_check_attempts" s) r.final_check_attempts)
          h in
      let (durable, d, h) = and_then-return _ (durable_threads (lookup "comment_threads" s)) h in
      threaded minimum s n tasks statuses clarifications attempts
        (merged_threads (merge_comment_threads (entries durable) (entries r.comment_threads))) from
        tasks_read official_read h

  unless-fields :
      (es : List StateError) (minimum : Option ℕ) (s n : Dict Json)
      → unless plan r es minimum (some s) ≡ return (advanced n)
      → (es ≡ []) × (reconcile_fields plan r minimum s ≡ return (advanced n))
  unfolding unless
  unless-fields [] minimum s n h = (refl, h)
  unless-fields (e ∷ es) minimum s n h = absurd (cc h)

  reconcile-Reconciled :
      (minimum : Option ℕ) (fs : Fields) (n : Dict Json)
      → reconcile_plan_execution_state plan r minimum (object fs) ≡ return (advanced n)
      → Reconciled minimum (fields fs) n
  unfolding reconcile_plan_execution_state
  reconcile-Reconciled minimum fs n h = elim (Bool-cases (plan.readiness == "READY")) [
    | inr other ↦ absurd (cc (rw other at h))
    | inl ready ↦
        let (es, ok, done) =
          and_then-return _
            (validate_plan_execution_state plan r.current_head minimum none (object fs))
            (rw ready at h) in
        let (found, done) =
          unless-fields (es ++ uncovered_tasks plan r) minimum (fields fs) n done in
        reconcile_fields-Reconciled minimum (fields fs) n
          (state_errors-Clean plan r.current_head minimum (fields fs) (
            validate-errors plan r.current_head minimum fs es ok
            ∙ (both_nil es (uncovered_tasks plan r) found).0))
          done
  ]

  stamp-advanced :
      (g : ℕ) (result : Advanced) (n : Dict Json)
      → stamp plan r g result ≡ advanced n
      → (m : Dict Json) × (result ≡ advanced m) × (n ≡ stamped g r.updated_at m)
  stamp-advanced g (advanced m) n h = (m, refl, cc h)
  stamp-advanced g (refused es) n h = absurd (cc h)

  advance-object :
      (float_is : String → ℕ → Bool) (expected : ℕ) (fs : Fields) (n : Dict Json)
      → advance_plan_execution_state plan r float_is expected (object fs) ≡ return (advanced n)
      → (equals float_is (get "state_generation" (fields fs)) expected ≡ true)
        × ((m : Dict Json) × (n ≡ stamped (suc expected) r.updated_at m)
            × Reconciled (some expected) (fields fs) m)
  unfolding advance_plan_execution_state
  advance-object float_is expected fs n h =
      elim (Bool-cases (equals float_is (get "state_generation" (fields fs)) expected)) [
        | inr moved ↦ absurd (cc (rw moved at h))
        | inl same ↦
            let (result, ok, done) =
              and_then-return _ (reconcile_plan_execution_state plan r (some expected) (object fs))
                (rw same at h) in
            let (m, is_m, n_is) = stamp-advanced (suc expected) result n (cc done) in
            (same, (m, n_is, reconcile-Reconciled (some expected) fs m (ok ∙ ap return is_m)))
      ]

  -- A state that an advance returns is one that was reconciled, with its generation and time set.
  pub advance-Reconciled :
      (float_is : String → ℕ → Bool) (expected : ℕ) (state : Json) (n : Dict Json)
      → advance_plan_execution_state plan r float_is expected state ≡ return (advanced n)
      → (fs : Fields) × (state ≡ object fs)
        × (equals float_is (get "state_generation" (fields fs)) expected ≡ true)
        × ((m : Dict Json) × (n ≡ stamped (suc expected) r.updated_at m)
            × Reconciled (some expected) (fields fs) m)
  unfolding advance_plan_execution_state
  advance-Reconciled float_is expected state n h = elim (as_mapping-cases state) [
    | inr other ↦ absurd (cc (rw other at h))
    | inl (fs, is_object) ↦
        let (same, later) = advance-object float_is expected fs n (rw is_object at h) in
        (fs, is_object, same, later)
  ]
