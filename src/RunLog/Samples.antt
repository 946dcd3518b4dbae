-- ===== src/RunLog/Samples.antt =====
-- A log of one record, under a hash that tells the records apart by their place only.
use software_builder.Prelude.{ℕ, zero, suc, String, false, none, some, [], ◌∷◌}
use software_builder.RunLog.{Body, Record, run_started, task_selected, orchestrator}
use software_builder.RunLog.Request.{Request}
use software_builder.RunLog.Check.{Raw, shaped, unreadable, zero_hash}

abbrev seal_at : ℕ → String
seal_at (suc zero) = "aaaa"
seal_at _ = "bbbb"

abbrev pub seal : Body → String
seal b = seal_at b.seq

abbrev pub bytes : Record → ℕ
bytes r = 500

abbrev pub first_record : Record
first_record =
    let body : Body = record {
      schema_version = 1;
      seq = 1;
      ts = 10;
      run_id = "run";
      event = run_started;
      actor = orchestrator;
      data_ = [];
      usage = record {
        input_tokens = none;
        output_tokens = none;
        total_tokens = none;
        elapsed = none;
        cost_usd = none;
      };
      redactions = [];
      prev_hash = zero_hash;
    } in
    record { body = body; hash = "aaaa" }

abbrev pub one_record : Raw
one_record = record { lines = shaped first_record ∷ []; fragment = none }

-- The same, and part of a line.
abbrev pub torn_log : Raw
torn_log = record one_record {
  fragment = some (record { line = unreadable; bytes = 7; digest = "0123456789abcdef" });
}

abbrev pub select : Request
select = record {
  run_id = "run";
  event = task_selected;
  actor = orchestrator;
  data_ = [];
  usage = first_record.usage;
  hits = [];
  given_ts = none;
  expect_head = some "aaaa";
  unanchored = false;
}
