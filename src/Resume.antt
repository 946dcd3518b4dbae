-- ===== src/Resume.antt =====
-- scripts/builder_resume.py: where a redispatched Builder resumes, from the checkpoint trailers of
-- the commits on its branch.
pub mod Order
pub mod Trailer
mod Examples
use software_builder.Prelude.{
  String, ◌≡◌, Bool, true, false, not, ◌&&◌, ◌||◌, Option, none, some, List, [], ◌∷◌, map, nat_eq,
  if◌then◌else◌, get_last?,
}
use software_builder.Prelude.Text.{is_space, strip_prefix, split_lines, code}
use text.Mathlib.Text.{◌==◌}

abbrev pub implementation_complete : String
implementation_complete = "implementation-complete"

abbrev pub tests_passing : String
tests_passing = "tests-passing"

-- `marker in CHECKPOINT_MARKERS`
pub is_checkpoint_marker : Option String → Bool
is_checkpoint_marker none = false
is_checkpoint_marker (some m) = m == implementation_complete || m == tests_passing

-- `[ \t]*` at the front of a line
drop_blanks : String → String
drop_blanks String.[] = String.[]
drop_blanks (String.◌∷◌ c s) =
    let rest = drop_blanks s in
    if nat_eq (code c) 32 || nat_eq (code c) 9 then rest else String.◌∷◌ c s

-- `(\S+)`, greedily, and what follows it
take_token : String → String × String
unfolding is_space
take_token String.[] = (String.[], String.[])
take_token (String.◌∷◌ c s) =
    let rest = take_token s in
    if is_space (code c) then (String.[], String.◌∷◌ c s) else (String.◌∷◌ c rest.0, rest.1)

-- The group of `^Checkpoint:[ \t]*(\S+)[ \t]*$` in one line. The token is a maximal run of
-- non-blank characters, so a shorter match of `\S+` never helps.
match_trailer : String → Option String
match_trailer line = elim (strip_prefix "Checkpoint:" line) [
  | none ↦ none
  | some operand ↦
      let (token, rest) = take_token (drop_blanks operand) in
      if token == "" then none else if drop_blanks rest == "" then some token else none
]

-- `_CHECKPOINT_TRAILER_RE.findall(message)`: with `(?m)` the regex matches line by line.
find_trailers : List String → List String
find_trailers [] = []
find_trailers (l ∷ ls) =
    let rest = find_trailers ls in
    elim (match_trailer l) [ none ↦ rest | some token ↦ token ∷ rest ]

pub parse_checkpoint_marker : String → Option String
parse_checkpoint_marker message = get_last? (find_trailers (split_lines message))

pub record CommitInfo : Type 0 where
  pub sha : String
  pub message : String
  pub checkpoint_marker : Option String

-- `CommitInfo.from_commit`
pub from_commit : String → String → CommitInfo
from_commit sha message = record {
  sha = sha;
  message = message;
  checkpoint_marker = parse_checkpoint_marker message;
}

pub data Action : Type 0 where
  from_scratch continue_from escalate : Action

-- The reasons of `decide`, each with the values that its text quotes.
pub data Reason : Type 0 where
  no_commits : (base_revision : String) → Reason
  marker_out_of_order : Reason
  resume_from_marker : (sha marker : String) → Reason
  last_commit_unmarked : Reason
  no_recognized_marker : Reason

pub record ResumeDecision : Type 0 where
  pub action : Action
  pub last_marker : Option String
  pub resume_head : Option String
  pub reason : Reason

-- The three flags of the loop of `decide`.
pub record Scan : Type 0 where
  pub implementation_complete_seen : Bool
  pub any_recognized : Bool
  pub out_of_order : Bool

abbrev scan_start : Scan
scan_start = record {
  implementation_complete_seen = false;
  any_recognized = false;
  out_of_order = false;
}

-- One round of the loop, for the marker of one commit.
scan_step : Scan → Option String → Scan
scan_step s none = s
scan_step s (some marker) =
    if not (is_checkpoint_marker (some marker))
    then s
    else if marker == implementation_complete
    then record s { any_recognized = true; implementation_complete_seen = true }
    else if marker == tests_passing && not s.implementation_complete_seen
    then record s { any_recognized = true; out_of_order = true }
    else record s { any_recognized = true }

scan : Scan → List CommitInfo → Scan
unfolding scan_step
scan s [] = s
scan s (commit ∷ commits) = scan (scan_step s commit.checkpoint_marker) commits

abbrev escalated : Reason → ResumeDecision
escalated reason = record {
  action = escalate;
  last_marker = none;
  resume_head = none;
  reason = reason;
}

-- What `decide` answers once the flags and the last commit are known.
conclude : Scan → CommitInfo → ResumeDecision
unfolding is_checkpoint_marker
conclude s last_commit =
    if s.out_of_order then escalated marker_out_of_order else elim (last_commit.checkpoint_marker) [
      | some marker ↦
          if is_checkpoint_marker (some marker)
          then record {
            action = continue_from;
            last_marker = some marker;
            resume_head = some last_commit.sha;
            reason = resume_from_marker last_commit.sha marker;
          }
          else if s.any_recognized
          then escalated last_commit_unmarked
          else escalated no_recognized_marker
      | none ↦
          if s.any_recognized
          then escalated last_commit_unmarked
          else escalated no_recognized_marker
    ]

pub decide : List CommitInfo → String → ResumeDecision
unfolding scan conclude
decide commits base_revision = elim (get_last? commits) [
  | none ↦ record {
    action = from_scratch;
    last_marker = none;
    resume_head = none;
    reason = no_commits base_revision;
  }
  | some last_commit ↦ conclude (scan scan_start commits) last_commit
]
