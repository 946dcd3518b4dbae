-- ===== src/Plan/Graph/Schedule.antt =====
-- scripts/implementation_plan.py, `validate_implementation_plan`: what a plan without a message says
-- of its tasks, and how `task_ids` and `dependency_map` grow.
use text.Mathlib.Text.{◌==◌}
use text.Mathlib.TextEquality.{eq_iff}
use mathlib.Core.List.{Memᴰ}
use software_builder.Prelude.{
  ℕ, suc, String, Bool, true, Option, none, some, List, [], ◌∷◌, ◌≡◌, sym, subst, refl, inl, inr,
  arith, Bool-cases, Option-cases, if◌then◌else◌,
}
use software_builder.Prelude.Dict.{insert, lookup-insert}
use software_builder.Prelude.Text.{elem}
use software_builder.Prelude.Json.{Json}
use software_builder.Plan.Cycle.{Graph, dependencies}
use software_builder.Plan.Cycle.Paths.{Edge, Plus}
use software_builder.Plan.Reports.{PlanError}
use software_builder.Plan.TaskCheck.{validate_task}
use software_builder.Plan.Waves.{TaskIndex, add_task, read_tasks}
use software_builder.Plan.Waves.Placed.{Distinct, elem-append, append-Distinct, flat}
use software_builder.Plan.Waves.Clean.{report_if-nil, append-nil}
use software_builder.Plan.Waves.Layered.{Layered}

-- The tasks have different names and depend on one another without a cycle, and the layers hold each
-- of them once, behind what it depends on.
pub record Schedule (s : TaskIndex) (layers : List (List String)) : Type 0 where
  pub distinct : Distinct s.ids
  pub known : (t d : String) → Edge s.depends t d → elem d s.ids ≡ true
  pub acyclic : (t : String) → ¬ (Plus s.depends t t)
  pub once : Distinct (flat layers)
  pub placed : (t : String) → elem t (flat layers) ≡ elem t s.ids
  pub layered : Layered s.depends [] layers

-- What depends on something is a task.
pub record Indexed (s : TaskIndex) : Type 0 where
  pub distinct : Distinct s.ids
  pub keyed : (t d : String) → Edge s.depends t d → elem t s.ids ≡ true

dependencies-insert :
    (k t : String) (ds : List String) (graph : Graph)
    → dependencies (insert k ds graph) t ≡ (if k == t then ds else dependencies graph t)
unfolding dependencies
dependencies-insert k t ds graph = rw (dependencies, lookup-insert k t ds graph) (ground arith)

add_task-Indexed :
    (errors : List PlanError) (o : Option String) (ds : List String) (s : TaskIndex)
    → (add_task errors o ds s).errors ≡ []
    → (s.errors ≡ []) × (Indexed s → Indexed (add_task errors o ds s))
unfolding add_task
add_task-Indexed errors none ds s h =
    ((append-nil errors s.errors h).1, λ i. record { distinct = i.distinct; keyed = i.keyed })
add_task-Indexed errors (some t) ds s h =
    let (new, clean) = report_if-nil (elem t s.ids) _ s.errors (append-nil errors _ h).1 in
    (
      clean,
      λ i. record {
        distinct =
            append-Distinct s.ids (t ∷ []) i.distinct (refl, tt)
              (λ x m. ground (arith, m, new, eq_iff t x));
        keyed = λ u d m. elim (Bool-cases (t == u)) [
          | inl same ↦ ground (arith, elem-append u s.ids (t ∷ []))
          | inr other ↦
              let before : Edge s.depends u d =
                subst (λ xs. Memᴰ d xs) (rw other at (dependencies-insert t u ds s.depends)) m in
              ground (arith, elem-append u s.ids (t ∷ []), i.keyed u d before)
        ];
      },
    )

pub read_tasks-Indexed :
    (index : ℕ) (ready : Bool) (tasks : List Json) (s r : TaskIndex)
    → read_tasks index ready tasks s ≡ some r
    → r.errors ≡ []
    → (s.errors ≡ []) × (Indexed s → Indexed r)
unfolding read_tasks
read_tasks-Indexed index ready [] s r e h =
    let same : s ≡ r = cc in
    (subst (λ x. x.errors ≡ []) (sym same) h, λ i. subst (λ x. Indexed x) same i)
read_tasks-Indexed index ready (task ∷ tasks) s r e h =
    elim (Option-cases (validate_task index ready task)) [
      | inl raised ↦ absurd (cc (rw (read_tasks, raised) at e))
      | inr (report, read) ↦
          let (clean, later) =
            read_tasks-Indexed (suc index) ready tasks
              (add_task report.errors report.task_id report.dependencies s) r
              (rw (read_tasks, read) at e) h in
          let (before, grown) =
            add_task-Indexed report.errors report.task_id report.dependencies s clean in
          (before, λ i. later (grown i))
    ]
