-- ===== src/RunLog/Append/Keeps.antt =====
-- skills/loop-task-implementer/scripts/run_log.py, `append_event`: what a call leaves of the log.
use software_builder.Prelude.{String, ◌≡◌, ◌≢◌, ◌⊎◌, true, none, some, List, [], ◌∷◌, ◌++◌}
use software_builder.Prelude.Outcome.{Outcome, return, raise}
use software_builder.RunLog.{Record}
use software_builder.RunLog.Request.{Request, head_matches, same_request}
use software_builder.RunLog.Check.{Line, shaped, Fragment, Raw}
use software_builder.RunLog.Append.{
  write_failed, Appended, WriteResult, stored, unwritten, unrestored,
}

-- What ends the last line: nothing, or the newline that it lacks.
abbrev pub Ending : Raw → List Line → Type 0
Ending raw ended = (ended ≡ []) ⊎ ((f : Fragment) × (raw.fragment ≡ some f) × (ended ≡ f.line ∷ []))

-- The record is the one that an earlier call of this request wrote behind the given head.
abbrev pub Retried : Request → Record → Type 0
Retried q r =
    (given : String) × (q.expect_head ≡ some given)
    × (head_matches r.prev_hash given ≡ true)
    × (same_request r q ≡ true)

-- What a write that failed once it had begun leaves of the lines.
abbrev pub Failed : WriteResult → Raw → List Line → Type 0
Failed write raw lines =
    (write ≢ stored)
    × (write ≢ unwritten)
    × ((ended : List Line) × Ending raw ended
        × ((lines ≡ raw.lines ++ ended)
            ⊎ ((write ≡ unrestored)
                × ((r : Record) × (lines ≡ raw.lines ++ (ended ++ shaped r ∷ []))))))

-- What a call may do to the log.
abbrev pub Effect : WriteResult → Request → Raw → Appended → Type 0
Effect write q raw a = elim (a.outcome) [
  | raise e ↦ (a.log.lines ≡ raw.lines) ⊎ ((e ≡ write_failed) × Failed write raw a.log.lines)
  | return r ↦
      (ended : List Line) × Ending raw ended
      × (((a.log.lines ≡ raw.lines ++ (ended ++ shaped r ∷ [])) × (a.log.fragment ≡ none))
          ⊎ ((a.log.lines ≡ raw.lines ++ ended) × Retried q r))
]
