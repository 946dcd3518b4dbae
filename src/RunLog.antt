-- ===== src/RunLog.antt =====
-- skills/loop-task-implementer/scripts/run_log.py: the records of a run's audit log, the order of
-- its events, and the usage that a record reports. Instants and durations are numbers of
-- microseconds, the resolution of `datetime`; a text value of `data` is a text, and any other value
-- is its canonical JSON.
pub mod Check
pub mod Request
pub mod Append
pub mod Budget
pub mod Samples
use software_builder.Prelude.{
  ℕ, ◌+◌, ◌*◌, String, Bool, true, false, not, ◌&&◌, ◌||◌, Option, none, some, List, [], ◌∷◌,
  nat_eq, ltb, if◌then◌else◌,
}
use software_builder.Prelude.Dict.{Dict}

pub data Event : Type 0 where
  run_started run_resumed task_selected builder_dispatched builder_returned clarify_dispatched
        clarify_returned pr_opened review_dispatched review_returned adjudicated
        remediation_dispatched remediation_returned orchestrator_usage ci_polled budget_checked
        escalated merge_attempted run_completed lease_denied :
      Event

pub data Actor : Type 0 where
  orchestrator builder reviewer ci human system : Actor

pub data Datum : Type 0 where
  string : String → Datum
  flag : Bool → Datum
  count : ℕ → Datum
  json : String → Datum

-- A usage object as `_validate_usage` leaves it, with `elapsed_seconds` as a duration and
-- `cost_usd` as it is written.
pub record Usage : Type 0 where
  pub input_tokens : Option ℕ
  pub output_tokens : Option ℕ
  pub total_tokens : Option ℕ
  pub elapsed : Option ℕ
  pub cost_usd : Option String

-- The place of an event in `EVENTS`, and of an actor in `ACTORS`.
pub event_index : Event → ℕ
event_index run_started = 0
event_index run_resumed = 1
event_index task_selected = 2
event_index builder_dispatched = 3
event_index builder_returned = 4
event_index clarify_dispatched = 5
event_index clarify_returned = 6
event_index pr_opened = 7
event_index review_dispatched = 8
event_index review_returned = 9
event_index adjudicated = 10
event_index remediation_dispatched = 11
event_index remediation_returned = 12
event_index orchestrator_usage = 13
event_index ci_polled = 14
event_index budget_checked = 15
event_index escalated = 16
event_index merge_attempted = 17
event_index run_completed = 18
event_index lease_denied = 19

pub actor_index : Actor → ℕ
actor_index orchestrator = 0
actor_index builder = 1
actor_index reviewer = 2
actor_index ci = 3
actor_index human = 4
actor_index system = 5

-- What `_record_hash` covers: a record without its `hash`.
pub record Body : Type 0 where
  pub schema_version : ℕ
  pub seq : ℕ
  pub ts : ℕ
  pub run_id : String
  pub event : Event
  pub actor : Actor
  pub data_ : Dict Datum
  pub usage : Usage
  pub redactions : List String
  pub prev_hash : String

pub record Record : Type 0 where
  pub body : Body
  pub open body use *
  pub hash : String

-- `event == "run_completed"` and `event == "run_resumed"`
abbrev pub is_completed : Event → Bool
is_completed run_completed = true
is_completed _ = false

abbrev pub is_resumed : Event → Bool
is_resumed run_resumed = true
is_resumed _ = false

abbrev pub is_started : Event → Bool
is_started run_started = true
is_started _ = false

pub data TransitionError : Type 0 where
  first_not_started second_start after_completed : Event → TransitionError

unfoldable pub transition_error : ℕ → Event → Bool → Option TransitionError
transition_error seq event completed =
    if nat_eq seq 1 && not (is_started event)
    then some (first_not_started event)
    else if ltb 1 seq && is_started event
    then some (second_start event)
    else if completed && not (is_resumed event)
    then some (after_completed event)
    else none

abbrev or_zero : Option ℕ → ℕ
or_zero none = 0
or_zero (some n) = n

unfoldable pub tokens_of : Usage → ℕ
tokens_of usage = elim (usage.total_tokens) [
  | some total ↦ total
  | none ↦ or_zero usage.input_tokens + or_zero usage.output_tokens
]

unfoldable pub has_token_usage : Usage → Bool
has_token_usage usage =
    ltb 0 (or_zero usage.input_tokens)
    || ltb 0 (or_zero usage.output_tokens)
    || ltb 0 (or_zero usage.total_tokens)
