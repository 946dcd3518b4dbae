-- ===== src/RunLog/Append/Extends.antt =====
-- skills/loop-task-implementer/scripts/run_log.py, `append_event` and `_full_check`: an append keeps a
-- log one that the check accepts, and mends a torn one.
use software_builder.Prelude.Outcome.{Outcome}
use software_builder.RunLog.Request.{Request}
use software_builder.RunLog.Append.Grown.{Grown}
