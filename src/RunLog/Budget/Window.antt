-- ===== src/RunLog/Budget/Window.antt =====
-- skills/loop-task-implementer/scripts/run_log.py, `_usage_totals`, `_task_window_start` and
-- `check_budget`: the records that count for the current task, and what they use of its caps. The sum
-- of `cost_usd` is left out.
pub mod Reselect
mod Examples
use text.Mathlib.Text.{◌==◌}
use software_builder.Prelude.{
  ℕ, zero, suc, ◌+◌, ◌-◌, ◌≤◌, String, Bool, true, false, not, ◌&&◌, ◌||◌, Option, none, some, List,
  [], ◌∷◌, ◌++◌, any, length, ltb, leb, max_of, if◌then◌else◌, get_last?,
}
use software_builder.Prelude.Dict.{lookup}
use software_builder.RunLog.{
  Event, Record, Datum, string, json, Usage, task_selected, builder_returned, review_returned,
  remediation_returned, clarify_returned, orchestrator_usage, is_completed, tokens_of,
  has_token_usage,
}
use software_builder.RunLog.Request.{datum_eq}
use software_builder.RunLog.Budget.{active_time}

pub record Totals : Type 0 where
  pub input_tokens : ℕ
  pub output_tokens : ℕ
  pub total_tokens : ℕ
  pub elapsed : ℕ
  pub usage_records : ℕ

abbrev or_zero : Option ℕ → ℕ
or_zero none = 0
or_zero (some n) = n

abbrev pub no_usage : Totals
no_usage = record {
  input_tokens = 0;
  output_tokens = 0;
  total_tokens = 0;
  elapsed = 0;
  usage_records = 0;
}

add_usage : Totals → Usage → Totals
add_usage totals usage = record {
  input_tokens = totals.input_tokens + or_zero usage.input_tokens;
  output_tokens = totals.output_tokens + or_zero usage.output_tokens;
  total_tokens = totals.total_tokens + tokens_of usage;
  elapsed = totals.elapsed + or_zero usage.elapsed;
  usage_records = if has_token_usage usage then suc totals.usage_records else totals.usage_records;
}

pub usage_totals : Totals → List Record → Totals
unfolding add_usage
usage_totals totals [] = totals
usage_totals totals (r ∷ rs) = usage_totals (add_usage totals r.usage) rs

pub is_selected : Event → Bool
is_selected task_selected = true
is_selected _ = false

-- USAGE_EVENTS
is_usage_event : Event → Bool
is_usage_event builder_returned = true
is_usage_event review_returned = true
is_usage_event remediation_returned = true
is_usage_event clarify_returned = true
is_usage_event orchestrator_usage = true
is_usage_event _ = false

abbrev pub task_id_of : Record → Option Datum
task_id_of r = lookup "task_id" r.data_

-- The selections of the records, the last one first, in front of those of `earlier`.
pub selections : List (ℕ × Option Datum) → ℕ → List Record → List (ℕ × Option Datum)
selections earlier index [] = earlier
selections earlier index (r ∷ rs) =
    selections (if is_selected r.event then (index, task_id_of r) ∷ earlier else earlier)
      (suc index) rs

-- The same task, where the first one is not None.
pub same_task : Option Datum → Option Datum → Bool
same_task (some (json s)) (some (json t)) = not (s == "null") && (s == t)
same_task (some a) (some b) = datum_eq a b
same_task _ _ = false

-- Back over the selections of the same task.
pub walk_back : Option Datum → ℕ → List (ℕ × Option Datum) → ℕ
walk_back task start [] = start
walk_back task start ((index, other) ∷ earlier) =
    let further = walk_back task index earlier in if same_task task other then further else start

pub latest_run : List (ℕ × Option Datum) → ℕ
latest_run [] = 0
latest_run ((index, task) ∷ earlier) = walk_back task index earlier

is_complete_outcome : Option Datum → Bool
is_complete_outcome (some (string s)) = s == "COMPLETE"
is_complete_outcome _ = false

pub is_finish : Record → Bool
unfolding is_complete_outcome
is_finish r = is_completed r.event && is_complete_outcome (lookup "outcome" r.data_)

-- The index behind the last finish of the records but the last, or `found`.
pub behind_finish : ℕ → ℕ → List Record → ℕ
behind_finish found index [] = found
behind_finish found index (r ∷ []) = found
behind_finish found index (r ∷ s ∷ rs) =
    behind_finish (if is_finish r then suc index else found) (suc index) (s ∷ rs)

pub task_window_start : List Record → ℕ
task_window_start records =
    max_of (latest_run (selections [] 0 records)) (behind_finish 0 0 records)

pub drop : ℕ → List Record → List Record
drop zero rs = rs
drop (suc n) [] = []
drop (suc n) (r ∷ rs) = drop n rs

pub data Cap : Type 0 where
  tokens elapsed_minutes : Cap

pub record BudgetReport : Type 0 where
  pub window : List Record
  pub exceeded : List Cap
  pub unlimited : List Cap
  pub unmeasured : List Cap
  pub estimated_tokens : ℕ
  pub active : ℕ
  pub wall_clock : ℕ

unmeasured_record : Record → Bool
unmeasured_record r = is_usage_event r.event && not (has_token_usage r.usage)

pub over_cap : Option ℕ → ℕ → Cap → List Cap
over_cap none consumed cap = []
over_cap (some limit) consumed cap = if leb limit consumed then cap ∷ [] else []

no_cap : Option ℕ → Cap → List Cap
no_cap none cap = cap ∷ []
no_cap (some limit) cap = []

first_ts : List Record → ℕ
first_ts [] = 0
first_ts (r ∷ rs) = r.ts

-- Of the records of a log that was verified, at the instant `moment`; `max_time` is the cap of the
-- minutes, as a duration.
pub check_budget : ℕ → Option ℕ → Option ℕ → List Record → BudgetReport
unfolding no_cap first_ts unmeasured_record is_usage_event
check_budget moment max_tokens max_time records =
    let window = drop (task_window_start records) records in
    let totals = usage_totals no_usage window in
    let active = active_time moment window in
    record {
      window = window;
      exceeded =
          over_cap max_tokens totals.total_tokens tokens
          ++ over_cap max_time active elapsed_minutes;
      unlimited = no_cap max_tokens tokens ++ no_cap max_time elapsed_minutes;
      unmeasured = if any unmeasured_record window then tokens ∷ [] else [];
      estimated_tokens = totals.total_tokens;
      active = active;
      wall_clock = moment - first_ts window;
    }

-- `"tokens" in report["exceeded"]`
abbrev pub has_tokens : List Cap → Bool
has_tokens [] = false
has_tokens (tokens ∷ caps) = true
has_tokens (elapsed_minutes ∷ caps) = has_tokens caps
