-- ===== src/Plan/Selection/Statuses.antt =====
-- scripts/implementation_plan.py, `select_task`: the statuses that it goes by are the
-- official ones.
use mathlib.Core.List.{Memᴰ}
use software_builder.Prelude.{
  String, ◌≡◌, ◌≢◌, refl, sym, ◌∙◌, inl, inr, Option, none, some, List, [], ◌∷◌, arith, map, All,
  Bool-cases, ap, subst,
}
use software_builder.Prelude.Dict.{
  Dict, lookup, insert, update, lookup_last, or_else, lookup-insert, lookup-update, Unique,
  insert-Unique, lookup_last-Unique,
}
use software_builder.Prelude.Outcome.{return}
use text.Mathlib.Text.{◌==◌}
use text.Mathlib.TextEquality.{eq_iff}
use software_builder.Plan.Selection.{
  TaskStatus, complete, Task, official, with_id, tasks_by_id, as_pending, map_statuses,
}

-- Every entry is what the host's official status maps to.
pub Backed : Dict String → Dict TaskStatus → Type 0
Backed given mapped =
    (k : String) (st : TaskStatus) → lookup k mapped ≡ some st → official given k ≡ some st

pub map_statuses-Backed :
    (given : Dict String) (tasks : List Task) (mapped result : Dict TaskStatus)
    → Backed given mapped
    → Unique mapped
    → map_statuses given tasks mapped ≡ return result
    → Backed given result × Unique result
unfolding map_statuses Backed
map_statuses-Backed given [] mapped result backed unique h =
    let same : mapped ≡ result = cc in (subst (Backed given) same backed, subst Unique same unique)
map_statuses-Backed given (task ∷ tasks) mapped result backed unique h =
    go (official given task.task_id) refl (λ m b u. map_statuses-Backed given tasks m result b u)
  where
    go :
        (o : Option TaskStatus)
        → official given task.task_id ≡ o
        → ((m : Dict TaskStatus)
            → Backed given m
            → Unique m
            → map_statuses given tasks m ≡ return result
            → Backed given result × Unique result)
        → Backed given result × Unique result
    go none e rest = absurd (cc (rw (map_statuses, e) at h))
    go (some st) e rest =
        rest (insert task.task_id st mapped)
          (λ k s l.
            ground
              (arith, eq_iff task.task_id k, lookup-insert task.task_id k st mapped, backed k s))
          (insert-Unique task.task_id st mapped unique) (rw (map_statuses, e) at h)

lookup_last-with_id :
    (k : String) (t : Task) (tasks : List Task)
    → lookup_last k (map with_id tasks) ≡ some t
    → Memᴰ t tasks × (t.task_id ≡ k)
unfolding lookup_last with_id
lookup_last-with_id k t [] h = absurd (cc h)
lookup_last-with_id k t (s ∷ tasks) h =
    go (lookup_last k (map with_id tasks)) refl (λ e. lookup_last-with_id k t tasks e)
  where
    go :
        (o : Option Task)
        → lookup_last k (map with_id tasks) ≡ o
        → (lookup_last k (map with_id tasks) ≡ some t → Memᴰ t tasks × (t.task_id ≡ k))
        → Memᴰ t (s ∷ tasks) × (t.task_id ≡ k)
    go (some u) e rest = let (m, same) = rest (e ∙ rw (lookup_last, e) at h) in (Memᴰ.tail m, same)
    go none e rest = elim (Bool-cases (s.task_id == k)) [
      | inl f ↦
          let same : t ≡ s = cc (rw (lookup_last, e, f) at h) in
          (Memᴰ.head same, ap Task.task_id same ∙ (eq_iff s.task_id k).0 f)
      | inr f ↦ absurd (cc (rw (lookup_last, e, f) at h))
    ]

pub tasks_by_id-mem :
    (k : String) (t : Task) (tasks : List Task)
    → lookup k (tasks_by_id tasks) ≡ some t
    → Memᴰ t tasks × (t.task_id ≡ k)
unfolding tasks_by_id lookup
tasks_by_id-mem k t tasks h =
    lookup_last-with_id k t tasks (first_of (sym (lookup-update k [] (map with_id tasks)) ∙ h))
  where
    first_of :
        or_else (lookup_last k (map with_id tasks)) none ≡ some t
        → lookup_last k (map with_id tasks) ≡ some t
    first_of e = ground arith

only_pending : (k : String) (tasks : Dict Task) → lookup k (map as_pending tasks) ≢ some complete
unfolding lookup as_pending
only_pending k [] h = cc h
only_pending k ((j, t) ∷ tasks) h = ground (arith, only_pending k tasks)

-- A complete status stands in the official ones.
complete-Backed :
    (given : Dict String) (tasks : Dict Task) (mapped : Dict TaskStatus) (k : String)
    → Backed given mapped
    → Unique mapped
    → lookup k (update (map as_pending tasks) mapped) ≡ some complete
    → official given k ≡ some complete
unfolding Backed
complete-Backed given tasks mapped k backed unique h =
    go (lookup k mapped) refl (sym (lookup-update k (map as_pending tasks) mapped) ∙ h)
  where
    go :
        (o : Option TaskStatus)
        → lookup k mapped ≡ o
        → or_else (lookup_last k mapped) (lookup k (map as_pending tasks)) ≡ some complete
        → official given k ≡ some complete
    go none e f = absurd (only_pending k tasks (rw (lookup_last-Unique k mapped unique, e) at f))
    go (some st) e f = backed k complete (e ∙ rw (lookup_last-Unique k mapped unique, e) at f)

pub nothing_Backed : (given : Dict String) → Backed given []
unfolding Backed lookup
nothing_Backed given = λ k st h. absurd (cc h)

pub satisfied_by :
    (given : Dict String) (tasks : Dict Task) (mapped : Dict TaskStatus)
    → Backed given mapped
    → Unique mapped
    → (ds : List String)
    → All (λ d. lookup d (update (map as_pending tasks) mapped) ≡ some complete) ds
    → All (λ d. official given d ≡ some complete) ds
satisfied_by given tasks mapped backed unique [] done = tt
satisfied_by given tasks mapped backed unique (d ∷ ds) (one, done) = (
  complete-Backed given tasks mapped d backed unique one,
  satisfied_by given tasks mapped backed unique ds done,
)
