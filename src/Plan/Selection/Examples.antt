-- ===== src/Plan/Selection/Examples.antt =====
-- The selection at a plan of two tasks, the second of which waits for the first.
use software_builder.Prelude.{inl, inr, String, ◌≡◌, ◌↔◌, refl, some, [], ◌∷◌}
use software_builder.Prelude.Dict.{Dict, lookup, insert, update}
use software_builder.Prelude.Outcome.{return}
use software_builder.Plan.Selection.{
  TaskStatus, pending, complete, Task, Plan, official_status_map, with_id, tasks_by_id, as_pending,
  has_key, key, same_keys, selection_statuses, is_pending, is_complete, is_blocked,
  in_progress_entry, dependency_complete, wave_blocked, eligible, eligible_tasks, decide_wave,
  first_eligible, select_next_task, official, map_statuses, authoritative_statuses, the_task,
  check_idle, check_paths, select_task,
}
use software_builder.Plan.Selection.Earliest.{Earliest, first_eligible_iff}
use software_builder.Plan.Selection.Progress.{first_eligible-progress}
use software_builder.Plan.Selection.Ready.{Dispatchable, select_task-Dispatchable}

abbrev schema : Task
schema = record { task_id = "schema"; dependencies = []; target_paths = "db.py" ∷ [] }

abbrev service : Task
service = record { task_id = "service"; dependencies = "schema" ∷ []; target_paths = "app.py" ∷ [] }

abbrev plan : Plan
plan = record {
  readiness = "READY";
  errors = [];
  tasks = schema ∷ service ∷ [];
  execution_waves = ("schema" ∷ []) ∷ ("service" ∷ []) ∷ [];
}

abbrev by_id : Dict Task
by_id = ("schema", schema) ∷ ("service", service) ∷ []

abbrev progress : Dict TaskStatus
progress = ("schema", complete) ∷ ("service", pending) ∷ []

first_eligible_iff_example :
    (first_eligible by_id progress plan.execution_waves ≡ some service)
    ↔ Earliest by_id progress plan.execution_waves service
first_eligible_iff_example = first_eligible_iff by_id progress plan.execution_waves service

abbrev statuses : Dict String
statuses = ("schema", "COMPLETE") ∷ ("service", "NOT_STARTED") ∷ []

service_selected : select_task plan (some statuses) [] (some ("app.py" ∷ [])) ≡ return service
unfolding select_task authoritative_statuses map_statuses official official_status_map lookup insert
    update select_next_task tasks_by_id with_id selection_statuses same_keys has_key key as_pending
    in_progress_entry first_eligible eligible_tasks eligible is_pending dependency_complete
    is_complete wave_blocked is_blocked decide_wave the_task check_idle check_paths
service_selected = refl

select_task-Dispatchable_example : Dispatchable plan statuses [] (some ("app.py" ∷ [])) service
select_task-Dispatchable_example =
    select_task-Dispatchable plan statuses [] (some ("app.py" ∷ [])) service service_selected

lookups :
    (lookup "schema" by_id ≡ some schema)
    × (lookup "service" by_id ≡ some service)
    × (lookup "schema" progress ≡ some complete)
    × (lookup "service" progress ≡ some pending)
unfolding lookup
lookups = (refl, refl, refl, refl)

first_eligible-progress_example :
    (t : Task) × (first_eligible by_id progress plan.execution_waves ≡ some t)
first_eligible-progress_example =
    first_eligible-progress by_id progress plan.execution_waves "service"
      (
        ((schema, lookups.0, tt, inl lookups.2), tt),
        (((service, lookups.1, (refl, tt), inr lookups.3), tt), tt),
      )
      refl lookups.3
