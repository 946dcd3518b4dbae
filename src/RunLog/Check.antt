-- ===== src/RunLog/Check.antt =====
-- skills/loop-task-implementer/scripts/run_log.py, `_full_check`: the verification of a whole log.
-- A line is what `_parse_line` and `_record_shape_errors` make of it; the hash of a record is a
-- parameter, SHA-256 over the canonical JSON in the program.
pub mod Chain
pub mod Accepts
pub mod Tamper
mod Examples
use text.Mathlib.Text.{◌==◌}
use software_builder.Prelude.{
  ℕ, suc, ◌+◌, ◌*◌, String, Bool, true, false, not, ◌&&◌, ◌||◌, Option, none, some, List, [], ◌∷◌,
  ◌++◌, length, get_last?, map, keep, nat_eq, ltb, if◌then◌else◌, is_empty,
}
use software_builder.Prelude.Dict.{lookup}
use software_builder.RunLog.{
  Event, Body, Record, Datum, flag, TransitionError, transition_error, is_completed, is_resumed,
}

-- `misshapen` holds the first of the shape errors and the others.
pub data Line : Type 0 where
  unreadable : Line
  misshapen : String → List String → Line
  shaped : Record → Line

-- What follows the last newline of a log that does not end with one; `digest` is the first
-- sixteen digits of the SHA-256 of its bytes.
pub record Fragment : Type 0 where
  pub line : Line
  pub bytes : ℕ
  pub digest : String

pub record Raw : Type 0 where
  pub lines : List Line
  pub fragment : Option Fragment

pub data Problem : Type 0 where
  torn_write empty_log : Problem
  unreadable_line sequence_broken previous_hash wrong_hash time_backwards far_future : ℕ → Problem
  shape : ℕ → String → Problem
  transition : ℕ → TransitionError → Problem

pub record VerifyResult : Type 0 where
  pub ok : Bool
  pub head : String
  pub errors : List Problem
  pub records : List Record
  pub last_event : Option Event
  pub recoverable : Bool
  pub unanchored_resumes : ℕ

abbrev pub zero_hash : String
zero_hash = "0000000000000000000000000000000000000000000000000000000000000000"

-- TAIL_WINDOW - MAX_RECORD_BYTES
abbrev repairable_bytes : ℕ
repairable_bytes = 48 * 1024

-- The variables of the loop over the lines.
pub record Progress : Type 0 where
  pub errors : List Problem
  pub records : List Record
  pub head : String
  pub prev_ts : Option ℕ
  pub completed : Bool

abbrev report : Bool → Problem → List Problem
report true problem = problem ∷ []
report false problem = []

goes_backwards : Option ℕ → ℕ → Bool
goes_backwards none moment = false
goes_backwards (some previous) moment = ltb moment previous

transition_problem : ℕ → Option TransitionError → List Problem
transition_problem index none = []
transition_problem index (some e) = transition index e ∷ []

unreadable_fragment : Line → Bool
unreadable_fragment unreadable = true
unreadable_fragment _ = false

-- `record["data"].get("unanchored") is True`
is_unanchored : Record → Bool
is_unanchored r = elim (lookup "unanchored" r.data_) [ some (flag true) ↦ true | _ ↦ false ]

pub checked_lines : Raw → List Line
unfolding unreadable_fragment
checked_lines raw = elim (raw.fragment) [
  | none ↦ raw.lines
  | some f ↦ if unreadable_fragment f.line then raw.lines else raw.lines ++ f.line ∷ []
]

pub torn_errors : Raw → List Problem
torn_errors raw = elim (raw.fragment) [ none ↦ [] | some f ↦ torn_write ∷ [] ]

module _ (record_hash : Body → String) (now_limit : ℕ) where
  -- The errors that the loop reports of a well-shaped record at `index`.
  record_errors : ℕ → Progress → Record → List Problem
  unfolding goes_backwards transition_problem
  record_errors index p r =
      report (not (nat_eq r.seq index)) (sequence_broken index)
      ++ (report (not (r.prev_hash == p.head)) (previous_hash index)
          ++ (report (not (r.hash == record_hash r.body)) (wrong_hash index)
              ++ (report (goes_backwards p.prev_ts r.ts) (time_backwards index)
                  ++ (report (ltb now_limit r.ts) (far_future index)
                      ++ transition_problem index (transition_error index r.event p.completed)))))

  check_record : ℕ → Progress → Record → Progress
  check_record index p r = record {
    errors = p.errors ++ record_errors index p r;
    records = p.records ++ r ∷ [];
    head = r.hash;
    prev_ts = some r.ts;
    completed =
        if is_completed r.event then true else if is_resumed r.event then false else p.completed;
  }

  check_line : ℕ → Progress → Line → Progress
  check_line index p unreadable = record p { errors = p.errors ++ unreadable_line index ∷ [] }
  check_line index p (misshapen first others) = record p {
    errors = p.errors ++ map (shape index) (first ∷ others);
  }
  check_line index p (shaped r) = check_record index p r

  pub check_lines : ℕ → Progress → List Line → Progress
  check_lines index p [] = p
  check_lines index p (line ∷ lines) = check_lines (suc index) (check_line index p line) lines

  pub full_check : Raw → VerifyResult
  unfolding torn_errors checked_lines is_unanchored
  full_check raw =
      let p =
        check_lines 1
          (record {
            errors = torn_errors raw;
            records = [];
            head = zero_hash;
            prev_ts = none;
            completed = false;
          })
          (checked_lines raw) in
      record {
        ok = is_empty p.errors && not (is_empty p.records);
        head = p.head;
        errors = if is_empty p.errors && is_empty p.records then empty_log ∷ [] else p.errors;
        records = p.records;
        last_event = elim (get_last? p.records) [ none ↦ none | some r ↦ some r.event ];
        recoverable = elim (raw.fragment) [
          | none ↦ false
          | some f ↦ nat_eq (length p.errors) 1 && ltb f.bytes repairable_bytes
        ];
        unanchored_resumes = length (keep is_unanchored p.records);
      }
