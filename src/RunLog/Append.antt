-- ===== src/RunLog/Append.antt =====
-- skills/loop-task-implementer/scripts/run_log.py, `_tail_state`, `_make_record` and the part of
-- `append_event` under its lock: what an append chains from, and what it leaves in the log. The data
-- and the usage of a request are those that `_sanitize` and `_validate_usage` have cleaned, and a
-- line that was written stands in the log as the record it holds.
pub mod Keeps
pub mod Tails
pub mod Grown
pub mod Extends
mod Examples
use text.Mathlib.Text.{◌==◌}
use software_builder.Prelude.{
  ℕ, max_of, suc, ◌+◌, ◌-◌, ◌*◌, ◌%◌, String, Bool, true, false, not, ◌&&◌, ◌||◌, Option, none,
  some, List, [], ◌∷◌, ◌++◌, get_last?, keep, all, any, length, nat_eq, ltb, leb, if◌then◌else◌,
  is_empty,
}
use software_builder.Prelude.Dict.{Dict, lookup, insert}
use software_builder.Prelude.Outcome.{Outcome, return, raise, ◌>>=◌}
use software_builder.Prelude.Text.{strip_prefix}
use software_builder.RunLog.{
  Event, Actor, Datum, string, flag, count, json, Usage, Body, Record, event_index, actor_index,
  is_completed, is_resumed, TransitionError, transition_error,
}
use software_builder.RunLog.Request.{Request, head_matches, request_data, same_request}
use software_builder.RunLog.Check.{Line, unreadable, misshapen, shaped, Fragment, Raw, zero_hash}

pub data AppendError : Type 0 where
  final_line_too_long unchainable tail_unverified tail_lost : AppendError
  unanchored_misused head_needed wiped head_changed forged ts_earlier too_long write_failed :
      AppendError
  clock_behind : ℕ → AppendError
  refused : TransitionError → AppendError

-- The lines of the last TAIL_WINDOW bytes of a log that a newline ends, without the first of them if
-- the window does not cover the log (`partial`); `unbroken` if it holds no newline.
pub record Window : Type 0 where
  pub partial : Bool
  pub unbroken : Bool
  pub lines : List Line

pub record Tail : Type 0 where
  pub seq : ℕ
  pub head : String
  pub ts : Option ℕ
  pub completed : Bool
  pub truncate : Bool
  pub add_newline : Bool
  pub last : Option Record

is_unreadable : Line → Bool
is_unreadable unreadable = true
is_unreadable _ = false

has_fragment : Raw → Bool
has_fragment raw = elim (raw.fragment) [ none ↦ false | some _ ↦ true ]

abbrev pub empty_tail : Tail
empty_tail = record {
  seq = 0;
  head = zero_hash;
  ts = none;
  completed = false;
  truncate = false;
  add_newline = false;
  last = none;
}

abbrev pub tail_of : Record → Tail
tail_of r = record {
  seq = r.seq;
  head = r.hash;
  ts = some r.ts;
  completed = is_completed r.event;
  truncate = false;
  add_newline = false;
  last = some r;
}

-- CLOCK_SKEW_SECONDS and FORGED_CLOCK_SECONDS, in microseconds, and MAX_RECORD_BYTES
abbrev pub clock_skew : ℕ
clock_skew = 300 * 1000000

abbrev pub forged_clock : ℕ
forged_clock = 86400 * 1000000

abbrev max_record_bytes : ℕ
max_record_bytes = 16 * 1024

-- What becomes of a write of `append_event`: the bytes stand in the log and are synced; none were
-- written; they were, and the sync failed; the record stands in the log although the call raises, since
-- its undo failed too or the directory of a new log was not synced; or part of them was written and
-- the undo failed too, which leaves this behind the last newline.
pub data WriteResult : Type 0 where
  stored unwritten unsynced unrestored : WriteResult
  torn : Option Fragment → WriteResult

-- The state of the log after a call, and what the call returns or raises.
pub record Appended : Type 0 where
  pub log : Raw
  pub outcome : Outcome AppendError Record

-- The last line, if the append ends it with its newline.
finished : Option Fragment → Bool → List Line
finished (some f) true = f.line ∷ []
finished _ _ = []

has_head : Option String → Bool
has_head none = false
has_head (some _) = true

module _ (record_hash : Body → String) (encoded_bytes : Record → ℕ) where
  continues_tail : Tail → Record → Bool
  continues_tail tail r =
      nat_eq r.seq (suc tail.seq) && (r.prev_hash == tail.head) && (r.hash == record_hash r.body)

  -- A last line without its newline is the next record, or is cut off by the append.
  finish_tail : Option Fragment → Tail → Tail
  finish_tail none tail = tail
  finish_tail (some f) tail = elim (f.line) [
    | shaped r ↦
        if continues_tail tail r
        then record (tail_of r) { add_newline = true }
        else record tail { truncate = true }
    | _ ↦ record tail { truncate = true }
  ]

  tail_from : Raw → Window → Outcome AppendError Tail
  tail_from raw window = elim (get_last? window.lines) [
    | none ↦ if window.partial then raise tail_lost else return empty_tail
    | some (shaped r) ↦
        if r.hash == record_hash r.body then return (tail_of r) else raise tail_unverified
    | some _ ↦ raise tail_unverified
  ]

  pub tail_state : Raw → Window → Outcome AppendError Tail
  unfolding has_fragment is_unreadable
  tail_state raw window =
      if is_empty raw.lines && not (has_fragment raw)
      then return empty_tail
      else if has_fragment raw && window.unbroken && window.partial
      then raise final_line_too_long
      else if any is_unreadable window.lines
      then raise unchainable
      else (tail_from raw window >>= λ tail. return (finish_tail raw.fragment tail))

  -- The head that the caller expects: `some r` if the request is the one that wrote `r`.
  pub check_head : ℕ → Request → Tail → Outcome AppendError (Option Record)
  check_head now q tail = elim (q.expect_head) [
    | none ↦ if ltb 0 tail.seq && not q.unanchored then raise head_needed else return none
    | some given ↦
        if nat_eq tail.seq 0
        then raise wiped
        else if head_matches tail.head given
        then return none
        else elim (tail.last) [
          | none ↦ raise head_changed
          | some r ↦
              if head_matches r.prev_hash given && leb r.ts (now + clock_skew) && same_request r q
              then return (some r)
              else raise head_changed
        ]
  ]

  check_clock : ℕ → Option ℕ → Outcome AppendError Unit
  check_clock now none = return tt
  check_clock now (some ts) =
      if ltb (now + clock_skew) ts
      then if ltb forged_clock (ts - now) then raise forged else raise (clock_behind (ts - now))
      else return tt

  moment_of : ℕ → Option ℕ → Option ℕ → Outcome AppendError ℕ
  moment_of now none none = return now
  moment_of now (some given) none = return given
  moment_of now none (some ts) = return (max_of now ts)
  moment_of now (some given) (some ts) =
      if ltb given ts then raise ts_earlier else return (max_of given ts)

  check_transition : Option TransitionError → Outcome AppendError Unit
  check_transition none = return tt
  check_transition (some e) = raise (refused e)

  recovered : Option Fragment → Tail → Dict Datum → Dict Datum
  recovered none tail cleaned = cleaned
  recovered (some f) tail cleaned =
      if tail.truncate
      then insert "recovered_sha256" (string f.digest)
          (insert "recovered_bytes" (count f.bytes) cleaned)
      else cleaned

  -- `_fmt_ts`, which keeps the whole milliseconds
  fmt_ts : ℕ → ℕ
  fmt_ts moment = moment - moment % 1000

  pub make_record : ℕ → String → Request → Dict Datum → ℕ → Record
  unfolding fmt_ts
  make_record seq prev_hash q cleaned moment =
      let body : Body = record {
        schema_version = 1;
        seq = seq;
        ts = fmt_ts moment;
        run_id = q.run_id;
        event = q.event;
        actor = q.actor;
        data_ = cleaned;
        usage = q.usage;
        redactions = q.hits;
        prev_hash = prev_hash;
      } in
      record { body = body; hash = record_hash body }

  check_size : Record → Outcome AppendError Record
  check_size r = if ltb max_record_bytes (encoded_bytes r + 1) then raise too_long else return r

  -- The record that the append writes behind `tail`.
  pub next_record : ℕ → Request → Option Fragment → Tail → Outcome AppendError Record
  next_record now q fragment tail =
      check_clock now tail.ts >>= (λ _. moment_of now q.given_ts tail.ts) >>= λ moment.
      check_transition (transition_error (suc tail.seq) q.event tail.completed) >>= λ _.
      check_size
        (make_record (suc tail.seq) tail.head q (recovered fragment tail (request_data q)) moment)

  -- The log with the record, behind the last line that the append ends.
  with_record : Raw → Tail → Record → Raw
  with_record raw tail r = record {
    lines = raw.lines ++ (finished raw.fragment tail.add_newline ++ shaped r ∷ []);
    fragment = none;
  }

  -- The write of the record. A failed write is undone, if the undo does not fail; a cut is not.
  commit : WriteResult → Raw → Tail → Outcome AppendError Record → Appended
  unfolding with_record
  commit write raw tail (raise e) = record { log = raw; outcome = raise e }
  commit stored raw tail (return r) = record { log = with_record raw tail r; outcome = return r }
  commit unrestored raw tail (return r) = record {
    log = with_record raw tail r;
    outcome = raise write_failed;
  }
  commit (torn part) raw tail (return r) = record {
    log = record { lines = raw.lines ++ finished raw.fragment tail.add_newline; fragment = part };
    outcome = raise write_failed;
  }
  commit _ raw tail (return r) = record {
    log = if tail.truncate then record raw { fragment = none } else raw;
    outcome = raise write_failed;
  }

  -- The log with its last line ended.
  with_newline : Raw → Raw
  with_newline raw = record { lines = raw.lines ++ finished raw.fragment true; fragment = none }

  -- A request that is in the log already: only a lost newline is written, and its write is not undone.
  acknowledge : WriteResult → Raw → Bool → Record → Appended
  unfolding with_newline
  acknowledge write raw false r = record { log = raw; outcome = return r }
  acknowledge stored raw true r = record { log = with_newline raw; outcome = return r }
  acknowledge unwritten raw true r = record { log = raw; outcome = raise write_failed }
  acknowledge _ raw true r = record { log = with_newline raw; outcome = raise write_failed }

  append_at :
      ℕ → WriteResult → Request → Raw → Tail → Outcome AppendError (Option Record) → Appended
  append_at now write q raw tail (raise e) = record { log = raw; outcome = raise e }
  append_at now write q raw tail (return (some r)) = acknowledge write raw tail.add_newline r
  append_at now write q raw tail (return none) =
      commit write raw tail (next_record now q raw.fragment tail)

  append_behind : ℕ → WriteResult → Request → Raw → Outcome AppendError Tail → Appended
  append_behind now write q raw (raise e) = record { log = raw; outcome = raise e }
  append_behind now write q raw (return tail) =
      append_at now write q raw tail (check_head now q tail)

  pub append_event : ℕ → WriteResult → Window → Request → Raw → Appended
  append_event now write window q raw =
      if q.unanchored && (not (is_resumed q.event) || has_head q.expect_head)
      then record { log = raw; outcome = raise unanchored_misused }
      else append_behind now write q raw (tail_state raw window)
