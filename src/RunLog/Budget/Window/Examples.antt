-- ===== src/RunLog/Budget/Window/Examples.antt =====
-- A task of two selections in a log of three records.
use software_builder.Prelude.{
  ℕ, ◌+◌, ◌≡◌, refl, true, false, none, some, List, [], ◌∷◌, ◌++◌, subst,
}
use software_builder.Prelude.Dict.{lookup}
use software_builder.RunLog.{
  Body, Record, Usage, string, task_selected, orchestrator, orchestrator_usage, Event, tokens_of,
  has_token_usage,
}
use software_builder.RunLog.Request.{datum_eq}
use software_builder.RunLog.Samples.{first_record}
use software_builder.RunLog.Budget.Window.{
  usage_totals, add_usage, is_selected, selections, same_task, walk_back, latest_run, is_finish,
  behind_finish, task_window_start, drop, tokens, over_cap, check_budget, has_tokens,
}
use software_builder.RunLog.Budget.Window.Reselect.{Reselects, NotFinished, check_budget-reselect}

abbrev record_of : Event → Usage → ℕ → Record
record_of event usage ts =
    let body : Body = record {
      schema_version = 1;
      seq = 2;
      ts = ts;
      run_id = "run";
      event = event;
      actor = orchestrator;
      data_ = ("task_id", string "T1") ∷ [];
      usage = usage;
      redactions = [];
      prev_hash = "aaaa";
    } in
    record { body = body; hash = "bbbb" }

abbrev spent : Usage
spent = record first_record.usage { total_tokens = some 70 }

abbrev records : List Record
records =
    first_record
    ∷ record_of task_selected first_record.usage 20
    ∷ record_of orchestrator_usage spent 30
    ∷ []

abbrev again : Record
again = record_of task_selected spent 40

records-Reselects : Reselects records again
unfolding selections is_selected same_task datum_eq lookup
records-Reselects = record {
  index = 1;
  task = some (string "T1");
  earlier = [];
  latest = refl;
  selected = refl;
  same = refl;
}

records-NotFinished : NotFinished records
unfolding is_finish
records-NotFinished = λ last e.
    let same : record_of orchestrator_usage spent 30 ≡ last = cc in
    subst (λ x. is_finish x ≡ false) same refl

check_budget-reselect_example :
    let old = check_budget 50 (some 70) none records in
    let new = check_budget 50 (some 70) none (records ++ again ∷ []) in
    (new.window ≡ old.window ++ again ∷ [])
    × (new.estimated_tokens ≡ old.estimated_tokens + 70)
    × (has_tokens old.exceeded ≡ true → has_tokens new.exceeded ≡ true)
unfolding tokens_of
check_budget-reselect_example =
    check_budget-reselect 50 (some 70) none records again records-Reselects records-NotFinished

cap_reached : (check_budget 50 (some 70) none records).exceeded ≡ tokens ∷ []
unfolding check_budget task_window_start latest_run selections is_selected walk_back same_task
    behind_finish is_finish drop usage_totals add_usage over_cap tokens_of has_token_usage datum_eq
    lookup
cap_reached = refl
