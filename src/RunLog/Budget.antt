-- ===== src/RunLog/Budget.antt =====
-- skills/loop-task-implementer/scripts/run_log.py, `_active_minutes`: the time that the records of a
-- task show as work, as a duration in microseconds.
pub mod Covered
pub mod Active
pub mod Window
mod Examples
use software_builder.Prelude.{
  ℕ, zero, suc, ◌+◌, ◌-◌, ◌*◌, Bool, true, false, ◌&&◌, ◌||◌, Option, none, some, List, [], ◌∷◌,
  ◌++◌, nat_eq, ltb, leb, max_of, if◌then◌else◌,
}
use software_builder.RunLog.{
  Event, Record, builder_returned, review_returned, remediation_returned, clarify_returned,
  is_completed, is_resumed,
}

pub record Span : Type 0 where
  pub first : ℕ
  pub end : ℕ

-- MAX_GAP_MINUTES
abbrev max_gap : ℕ
max_gap = 30 * (60 * 1000000)

-- SESSION_RETURNS
is_session_return : Event → Bool
is_session_return builder_returned = true
is_session_return review_returned = true
is_session_return remediation_returned = true
is_session_return clarify_returned = true
is_session_return _ = false

abbrev min_of : ℕ → ℕ → ℕ
min_of m n = if ltb n m then n else m

abbrev or_none : Option ℕ → ℕ
or_none none = 0
or_none (some n) = n

-- The interval from a record, of MAX_GAP_MINUTES at most.
gap_span : ℕ → ℕ → Span
gap_span start end = record { first = start; end = min_of (max_of end start) (start + max_gap) }

-- The interval that a session's return says it ran, back to the first of the records at most.
session_spans : ℕ → Record → List Span
session_spans origin r =
    if is_session_return r.event && ltb 0 (or_none r.usage.elapsed)
    then record { first = max_of (r.ts - or_none r.usage.elapsed) origin; end = r.ts } ∷ []
    else []

pub spans_from : ℕ → ℕ → List Record → List Span
unfolding gap_span session_spans is_session_return
spans_from now origin [] = []
spans_from now origin (r ∷ []) =
    if is_completed r.event then [] else gap_span r.ts (max_of now r.ts) ∷ []
spans_from now origin (r ∷ s ∷ rest) =
    let later = spans_from now origin (s ∷ rest) in
    if is_resumed s.event && is_completed r.event
    then later
    else gap_span r.ts s.ts ∷ session_spans origin s ++ later

-- `sorted(spans)`: by beginning, then by end.
before : Span → Span → Bool
before s t = ltb s.first t.first || (nat_eq s.first t.first && leb s.end t.end)

insert_span : Span → List Span → List Span
unfolding before
insert_span s [] = s ∷ []
insert_span s (t ∷ ts) = let rest = insert_span s ts in if before s t then s ∷ t ∷ ts else t ∷ rest

pub sort_spans : List Span → List Span
unfolding insert_span
sort_spans [] = []
sort_spans (s ∷ ts) = insert_span s (sort_spans ts)

-- The loop over the sorted intervals, with `reach` the end of the time that is counted.
pub add_up : Option ℕ → ℕ → List Span → ℕ
add_up reach total [] = total
add_up none total (s ∷ ts) = add_up (some s.end) (total + (s.end - s.first)) ts
add_up (some reach) total (s ∷ ts) =
    let apart = add_up (some s.end) (total + (s.end - s.first)) ts in
    let longer = add_up (some s.end) (total + (s.end - reach)) ts in
    let within = add_up (some reach) total ts in
    if ltb reach s.first then apart else if ltb reach s.end then longer else within

pub active_time : ℕ → List Record → ℕ
active_time now [] = 0
active_time now (r ∷ rs) = add_up none 0 (sort_spans (spans_from now r.ts (r ∷ rs)))
