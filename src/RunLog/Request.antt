-- ===== src/RunLog/Request.antt =====
-- skills/loop-task-implementer/scripts/run_log.py: the request of an append, and how `append_event`
-- tells a request that it has already served.
use text.Mathlib.Text.{◌==◌}
use software_builder.Prelude.{
  ℕ, String, Bool, true, false, not, ◌&&◌, Option, none, some, List, keep, all, length, nat_eq,
  if◌then◌else◌,
}
use software_builder.Prelude.Dict.{Dict, lookup, insert}
use software_builder.Prelude.Text.{strip_prefix}
use software_builder.RunLog.{
  Event, Actor, Datum, string, flag, count, json, Usage, Record, event_index, actor_index,
}

pub record Request : Type 0 where
  pub run_id : String
  pub event : Event
  pub actor : Actor
  pub data_ : Dict Datum
  pub usage : Usage
  pub hits : List String
  pub given_ts : Option ℕ
  pub expect_head : Option String
  pub unanchored : Bool

unfoldable pub head_matches : String → String → Bool
head_matches head given = elim (strip_prefix given head) [ none ↦ false | some _ ↦ true ]

unfoldable pub request_data : Request → Dict Datum
request_data q = if q.unanchored then insert "unanchored" (flag true) q.data_ else q.data_

is_caller_key : String × Datum → Bool
is_caller_key (key, value) = not (key == "recovered_bytes") && not (key == "recovered_sha256")

without_script_keys : Dict Datum → Dict Datum
unfolding is_caller_key
without_script_keys d = keep is_caller_key d

unfoldable pub datum_eq : Datum → Datum → Bool
datum_eq (string s) (string t) = s == t
datum_eq (flag true) (flag b) = b
datum_eq (flag false) (flag b) = not b
datum_eq (json s) (json t) = s == t
datum_eq (count m) (count n) = nat_eq m n
datum_eq _ _ = false

has_entry : Dict Datum → String × Datum → Bool
unfolding datum_eq
has_entry d (key, value) = elim (lookup key d) [ none ↦ false | some other ↦ datum_eq value other ]

-- `==` of two dictionaries
data_eq : Dict Datum → Dict Datum → Bool
unfolding has_entry
data_eq d e = nat_eq (length d) (length e) && all (has_entry e) d

count_eq : Option ℕ → Option ℕ → Bool
count_eq none none = true
count_eq (some m) (some n) = nat_eq m n
count_eq _ _ = false

cost_eq : Option String → Option String → Bool
cost_eq none none = true
cost_eq (some s) (some t) = s == t
cost_eq _ _ = false

usage_eq : Usage → Usage → Bool
unfolding count_eq cost_eq
usage_eq u v =
    count_eq u.input_tokens v.input_tokens
    && count_eq u.output_tokens v.output_tokens
    && count_eq u.total_tokens v.total_tokens
    && count_eq u.elapsed v.elapsed
    && cost_eq u.cost_usd v.cost_usd

pub same_request : Record → Request → Bool
unfolding event_index actor_index data_eq usage_eq without_script_keys request_data
same_request r q =
    nat_eq (event_index r.event) (event_index q.event)
    && nat_eq (actor_index r.actor) (actor_index q.actor)
    && data_eq (without_script_keys r.data_) (request_data q)
    && usage_eq r.usage q.usage
