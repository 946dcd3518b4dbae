-- ===== src/Plan/Selection/Ready.antt =====
-- scripts/implementation_plan.py, `select_task`: what holds of a task that it answers READY with.
use mathlib.Core.List.{Memᴰ}
use software_builder.Prelude.{
  String, ◌≡◌, refl, sym, ◌∙◌, inl, inr, true, false, not, ◌||◌, Option, none, some, List, [], ◌∷◌,
  arith, map, any, All, keep, keep-nil_iff, is_empty, Bool-cases, subst,
}
use software_builder.Prelude.Dict.{Dict, lookup, update}
use software_builder.Prelude.Outcome.{return, and_then-return}
use software_builder.Prelude.Text.{elem}
use software_builder.Prelude.Members.{elem_iff, all_iff}
use text.Mathlib.Text.{◌==◌}
use software_builder.Plan.Selection.{
  TaskStatus, complete, Task, Plan, official, Evidence, tasks_by_id, as_pending, same_keys,
  selection_statuses, in_progress_entry, map_statuses, authoritative_statuses, the_task, given_any,
  check_idle, check_paths, select_next_task, select_task,
}
use software_builder.Plan.Selection.Earliest.{Eligible, FirstOf, Earliest, first_eligible_iff}
use software_builder.Plan.Selection.Statuses.{
  map_statuses-Backed, tasks_by_id-mem, nothing_Backed, satisfied_by,
}

-- A task that may be dispatched: it is a task of the plan, the host says of everything that it
-- depends on that it is complete, neither an active branch nor an active pull request is known of
-- it, and its target paths are there.
pub record Dispatchable (plan : Plan) (given : Dict String) (scm : Dict Evidence)
    (known : Option (List String)) (t : Task) : Type 0 where
  pub planned : Memᴰ t plan.tasks
  pub satisfied : All (λ d. official given d ≡ some complete) t.dependencies
  pub idle :
      (e : Evidence)
      → lookup t.task_id scm ≡ some e
      → (e.active_branch ≡ false) × (e.active_pr ≡ false)
  pub present :
      (paths : List String)
      → known ≡ some paths
      → (p : String) → Memᴰ p t.target_paths
      → Memᴰ p paths

check_idle-return :
    (task t : Task) (o : Option Evidence)
    → check_idle task o ≡ return t
    → (task ≡ t) × ((e : Evidence) → o ≡ some e → (e.active_branch ≡ false) × (e.active_pr ≡ false))
unfolding check_idle
check_idle-return task t none h = (cc h, λ e f. absurd (cc f))
check_idle-return task t (some ev) h = elim (Bool-cases (ev.active_branch || ev.active_pr)) [
  | inl b ↦ absurd (cc (rw b at h))
  | inr b ↦ (
    cc (rw b at h),
    λ e f.
        let same : ev ≡ e = cc f in
        subst (λ x. (x.active_branch ≡ false) × (x.active_pr ≡ false)) same (ground arith),
  )
]

is_empty-nil : (xs : List String) → is_empty xs ≡ true → xs ≡ []
is_empty-nil [] e = refl
is_empty-nil (x ∷ xs) e = absurd (cc e)

check_paths-return :
    (task t : Task) (o : Option (List String))
    → check_paths task o ≡ return t
    → (task ≡ t)
      × ((paths : List String)
          → o ≡ some paths
          → (p : String) → Memᴰ p task.target_paths
          → Memᴰ p paths)
unfolding check_paths
check_paths-return task t none h = (cc h, λ e f. absurd (cc f))
check_paths-return task t (some known) h =
    elim (Bool-cases (is_empty (keep (λ path. not (elem path known)) task.target_paths))) [
      | inr b ↦ absurd (cc (rw b at h))
      | inl b ↦ (
        cc (rw b at h),
        λ paths f p m.
            let same : known ≡ paths = cc f in
            let all_known =
              (keep-nil_iff (λ path. elem path known) task.target_paths).0 (is_empty-nil _ b) in
            subst (Memᴰ p) same (
              (elem_iff p known).0
                ((all_iff (λ path. elem path known) task.target_paths).0 all_known p m)),
      )
    ]

Earliest-Eligible :
    (tasks : Dict Task) (statuses : Dict TaskStatus) (waves : List (List String)) (t : Task)
    → Earliest tasks statuses waves t
    → (k : String) × Eligible tasks statuses k t
Earliest-Eligible tasks statuses [] t e = absurd e
Earliest-Eligible tasks statuses (wave ∷ waves) t (inl f) = in_wave wave f
  where
    in_wave :
        (w : List String) → FirstOf tasks statuses w t → (k : String) × Eligible tasks statuses k t
    in_wave [] f = absurd f
    in_wave (k ∷ w) (inl h) = (k, h)
    in_wave (k ∷ w) (inr h) = in_wave w (h.1)
Earliest-Eligible tasks statuses (wave ∷ waves) t (inr h) =
    Earliest-Eligible tasks statuses waves t (h.2)

select_next_task-Eligible :
    (plan : Plan) (mapped : Dict TaskStatus) (t : Task)
    → select_next_task plan (some mapped) true ≡ some t
    → (k : String) × Eligible
        (tasks_by_id plan.tasks)
        (update (map as_pending (tasks_by_id plan.tasks)) mapped)
        k
        t
unfolding select_next_task selection_statuses
select_next_task-Eligible plan mapped t h =
    let tasks = tasks_by_id plan.tasks in
    let statuses = update (map as_pending tasks) mapped in
    elim (Bool-cases (not (plan.readiness == "READY") || not (is_empty plan.errors))) [
      | inl b ↦ absurd (cc (rw b at h))
      | inr b ↦ elim (Bool-cases (same_keys mapped tasks)) [
        | inr c ↦ absurd (cc (rw (b, c) at h))
        | inl c ↦ elim (Bool-cases (any in_progress_entry statuses)) [
          | inl d ↦ absurd (cc (rw (b, c, d) at h))
          | inr d ↦
              Earliest-Eligible tasks statuses plan.execution_waves t
                ((first_eligible_iff tasks statuses plan.execution_waves t).0 (rw (b, c, d) at h))
        ]
      ]
    ]

the_task-some : (o : Option Task) (t : Task) → the_task o ≡ return t → o ≡ some t
unfolding the_task
the_task-some o t h = ground arith

-- A task that `select_task` answers READY with, when it is given the official statuses, is one of the
-- plan; all that it depends on has the official status COMPLETE; no active branch or pull request is
-- known of it; and its target paths are among the known ones, where these are given.
pub select_task-Dispatchable :
    (plan : Plan) (given : Dict String) (scm : Dict Evidence) (known : Option (List String))
    (t : Task)
    → select_task plan (some given) scm known ≡ return t
    → Dispatchable plan given scm known t
unfolding select_task authoritative_statuses
select_task-Dispatchable plan given scm known t h =
    let by_id = tasks_by_id plan.tasks in
    let (third, idle, present) = and_then-return (λ (task : Task). check_paths task known) _ h in
    let (second, chosen, checked) =
      and_then-return (λ (task : Task). check_idle task (lookup task.task_id scm)) _ idle in
    let (statuses, mapped, found) =
      and_then-return
        (λ (s : Option (Dict TaskStatus)). the_task (select_next_task plan s (given_any s))) _
        chosen in
    let (entries, listed, wrapped) =
      and_then-return (λ (m : Dict TaskStatus). return (some m)) (map_statuses given plan.tasks [])
        mapped in
    let (backed, unique) =
      map_statuses-Backed given plan.tasks [] entries (nothing_Backed given) tt listed in
    let (same_third, paths) = check_paths-return third t known present in
    let (same_second, free) = check_idle-return second third (lookup second.task_id scm) checked in
    let same = same_second ∙ same_third in
    let from_statuses : some entries ≡ statuses = cc in
    let selected : select_next_task plan (some entries) true ≡ some second =
      the_task-some _ second (
        subst (λ s. the_task (select_next_task plan s (given_any s)) ≡ return second)
          (sym from_statuses) found) in
    let (k, fits) = select_next_task-Eligible plan entries second selected in
    subst (Dispatchable plan given scm known) same (record {
      planned = (tasks_by_id-mem k second plan.tasks fits.known).0;
      satisfied = satisfied_by given by_id entries backed unique second.dependencies fits.unblocked;
      idle = free;
      present = λ ps e.
          subst (λ x. (p : String) → Memᴰ p x.target_paths → Memᴰ p ps) (sym same_second)
            (paths ps e);
    })
