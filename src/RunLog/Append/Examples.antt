-- ===== src/RunLog/Append/Examples.antt =====
-- An append behind a log of one record, and behind that log with a torn line.
use software_builder.Prelude.{false, [], ◌∷◌}
use software_builder.RunLog.{Body, Record, task_selected, orchestrator, count, string}
use software_builder.RunLog.Samples.{first_record, torn_log}
use software_builder.RunLog.Check.{Raw, shaped}
use software_builder.RunLog.Append.{Window}
use software_builder.RunLog.Append.Grown.{Grown}

-- The log of one record, dated to a whole millisecond, and part of a line.
abbrev stamped : Record
stamped = record first_record { body = record first_record.body { ts = 3000 } }

abbrev stamped_log : Raw
stamped_log = record torn_log { lines = shaped stamped ∷ [] }

abbrev pub whole_window : Window
whole_window = record { partial = false; unbroken = false; lines = shaped stamped ∷ [] }

abbrev selected : Record
selected =
    let body : Body = record {
      schema_version = 1;
      seq = 2;
      ts = 5000;
      run_id = "run";
      event = task_selected;
      actor = orchestrator;
      data_ = ("recovered_bytes", count 7) ∷ ("recovered_sha256", string "0123456789abcdef") ∷ [];
      usage = first_record.usage;
      redactions = [];
      prev_hash = "aaaa";
    } in
    record { body = body; hash = "bbbb" }
