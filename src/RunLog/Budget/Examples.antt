-- ===== src/RunLog/Budget/Examples.antt =====
-- The time of two records, twenty microseconds apart.
use software_builder.Prelude.{◌≡◌, refl, [], ◌∷◌, arith}
use software_builder.RunLog.{Body, Record, task_selected, orchestrator}
use software_builder.RunLog.Samples.{first_record}
use software_builder.RunLog.Budget.{
  gap_span, is_session_return, session_spans, spans_from, before, insert_span, sort_spans, add_up,
  active_time,
}
use software_builder.RunLog.Budget.Covered.{count, covered}
use software_builder.RunLog.Budget.Active.{active_time-union}

abbrev second_record : Record
second_record =
    let body : Body = record {
      schema_version = 1;
      seq = 2;
      ts = 30;
      run_id = "run";
      event = task_selected;
      actor = orchestrator;
      data_ = [];
      usage = first_record.usage;
      redactions = [];
      prev_hash = "aaaa";
    } in
    record { body = body; hash = "bbbb" }

active_time_runs : active_time 40 (first_record ∷ second_record ∷ []) ≡ 30
unfolding active_time spans_from gap_span session_spans is_session_return sort_spans insert_span
    before add_up
active_time_runs = refl

active_time-union_example :
    active_time 40 (first_record ∷ second_record ∷ [])
    ≡ count 1800000030 (covered (spans_from 40 10 (first_record ∷ second_record ∷ [])))
active_time-union_example =
    active_time-union 40 1800000030 first_record (second_record ∷ [])
      (omega arith, (omega arith, tt)) (omega arith, (omega arith, tt))
