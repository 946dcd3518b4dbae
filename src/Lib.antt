-- ===== src/Lib.antt =====
-- software-builder: the checks and state machines behind its agent skills, from the Python of
-- scripts/ and skills/.
--
-- The program's skills are run by an agent, and the scripts are what the agent may not decide by
-- itself. An implementation plan (scripts/implementation_plan.py) is a graph of tasks in waves; the
-- loop picks its next task, dispatches a Builder on a branch, and keeps an audit log of the run
-- (skills/loop-task-implementer/scripts/run_log.py). A Builder that is dispatched again goes on from
-- the branch's last checkpoint (scripts/builder_resume.py). Whether a skill can run on a host at all
-- is answered from the registries (scripts/registry/capability_engine.py, and
-- compatibility_resolver.py beside it).
--
-- Prelude.antt: what the parts share: lists, texts, dictionaries and JSON values as Python has them, a
--   call that may raise (Outcome), membership.
-- In Plan, from scripts/implementation_plan.py. TaskCheck: _validate_task and _validate_estimate, whose
--   messages are in Reports, with string_list and non_empty_str of
--   scripts/registry/validation_primitives.py. Waves and Graph: the part of
--   validate_implementation_plan that reads tasks and execution_waves; it calls Cycle. Cycle:
--   _graph_has_cycle. Selection: select_next_task, _authoritative_selection_statuses, select_task.
--   Checkpoint: merge_plan_state, _merge_comment_threads. State: the state of a plan's execution;
--   its Checks are validate_plan_execution_state, its Advance reconcile_plan_execution_state, which
--   calls Checkpoint, and advance_plan_execution_state, its Finalize reconcile_plan_state and
--   finalize_plan. Store, from scripts/plan_state_store.py:
--   cas_advance, which calls Advance under its lock, read_state and _parse_state_file, with
--   initial_plan_execution_state.
-- RunLog.antt: skills/loop-task-implementer/scripts/run_log.py: the records and the order of events.
--   Check: _full_check. Request: what an append asks for. Append: _tail_state, _make_record
--   and append_event under its lock. Budget: _active_minutes, and in its Window _usage_totals,
--   _task_window_start and check_budget.
-- Resume.antt: scripts/builder_resume.py: parse_checkpoint_marker, CommitInfo.from_commit, decide.
-- Capability.antt: scripts/registry/capability_engine.py, with the records of models.py.
-- Compat.antt: scripts/registry/compatibility_resolver.py, with the records of host_registry.py. It
--   calls Capability.
-- Gatekeeper.antt: skills/pr-gatekeeper/scripts/idempotency_store.py: should_process, mark_processed,
--   run_if_new, _validate_lock_wait_timeout, main. Runs: calls of run_if_new that interleave, with
--   the commands they launch.
-- In Review, from skills/pr-review/scripts/pr_review_policy_guards.py. Batch:
--   execute_guarded_write_batch, gitlab_ambiguous_write_decision. Severity: highest_severity,
--   recommendation_from_highest and the gates. Bands: apply_confidence_cap over
--   docs/skill-framework/shared/confidence_bands.py. Diff: from
--   skills/pr-review/scripts/diff-to-positions.py, _classify_diff_lines and _has_file_headers over
--   the grammar of docs/skill-framework/shared/unified_diff.py; its Positions are iter_diff_lines and
--   build_position, its Rendered the diff as files, hunks and changes, apart from any reading, and its
--   Lines the text of such lines.
-- Readiness.antt: scripts/production_readiness.py: Dimension, aggregate_verdict,
--   summarize_required_passes, aggregate_readiness and _tier_requires_strict_unknown, with
--   derive_execution_status of scripts/registry/skill_result.py. Release: cap_release_verdict of
--   scripts/release_readiness_v2.py.
-- Lease.antt: scripts/task_lease.py: _validate_lease_id, derive_lease_id, try_acquire and
--   LeaseHandle.release, on the lock of one lease.
-- Lifecycle.antt: skills/loop-task-implementer/scripts/validate_loop_lifecycle.py: the gate of the loop.
--   Reviewed: _lens_errors with _isolation_errors; Gate: validate_lifecycle_state, which calls it for
--   both lenses, and _merge_policy_errors. From docs/skill-framework/shared/review_contract_runtime.py,
--   Contract: _identity_fresh and the interface that the gate is checked against; Canonical:
--   _canonical_json, _canonical_mapping_value and _valid_repo_path; Identity: validate_change_identity;
--   Evidence: validate_review_evidence, and review_contract, which fills the interface.
--
-- Conventions. A function keeps its Python name without a leading underscore; an `if` chain keeps the
-- order of its tests. A message is a constructor with the values that the text quotes. A set is a list
-- of which only membership is read, a dictionary a list of pairs in insertion order. An exception is
-- the `raise` of Outcome, a file that a call changes is passed in and out.
--
-- Run log. An instant is a number of microseconds. A line of a log is what `_parse_line` and
-- `_record_shape_errors` make of it: unreadable, misshapen, or a record; a line that was written stands
-- in the log as the record it holds. The hash of a record (SHA-256 of its canonical JSON) and its
-- encoded size are parameters. `_tail_state` reads the last 64 KiB: what it sees of the log is an
-- argument, and the theorems ask that it shows the last line, as it does for records of 16 KiB at most.
-- A write is one of the results that its caller can meet: stored, not begun, not synced, or left in
-- the log since its undo failed too.
--
-- Cycle search. Its `while` loop has as fuel two for each dependency of the graph and one;
-- each turn takes one from twice the dependencies of the nodes not yet met, and of the frames on the
-- stack, so the fuel is enough from every start. The verdict of `validate_implementation_plan` is a
-- field of the plan that is selected from.
--
-- JSON. A plan is a JSON value: a mapping is the list of its entries, and a number that is no
-- integer its text. Messages are not sorted, and a call that raises TypeError gives none.
--
-- State store. The file of a plan's state is absent, no JSON, or a JSON value. What comes before the
-- lock is held (the check of the plan's id, directory and lock) is an argument of a call, as are the
-- plan's digest and the errors of its validator, and the comparison of a float with a natural number.
--
-- Diffs. A diff is its text, whose lines are those of str.splitlines; a digit is one of 0 to 9.
--
-- Lifecycle gate. The gate is written against the interface ReviewContract, with two laws: an identity
-- that is no object has an error, and so has evidence that is not fresh for a valid current identity.
-- The functions of docs/skill-framework/shared/review_contract_runtime.py fill it. A float is its
-- text; str.lower and the equality of a float with a number are arguments.
--
-- Gatekeeper. The state is that of one merge request: the head in its record, the holder of the lock, and
-- where each process is in run_if_new. The kernel gives the lock to one process at a time and takes it
-- back when that process ends. A command is a process of its own, which runs on when its process is
-- killed; the end of the command and the write of the record are two steps. What a child returns, and
-- whether a signal came, is an argument.
--
-- Not modelled: the parsers of JSON and YAML, the other parts of the plan's validator (identity,
-- traceability, source readiness, planning path), the sums of costs, waivers, redaction, hashing, file
-- locks and permissions, the parsing of remotes and of command lines, and the other scripts and skills
-- of the repository.
pub mod Prelude
pub mod Resume
pub mod Capability
pub mod Compat
pub mod RunLog
pub mod Plan
pub mod Review
pub mod Readiness
pub mod Gatekeeper
pub mod Lease
pub mod Lifecycle
