-- ===== src/Gatekeeper.antt =====
-- skills/pr-gatekeeper/scripts/idempotency_store.py: the record of the last processed head of one
-- merge request, and the commands on it. What the lock and the child process do are arguments; the
-- record is none where there is no file.
pub mod Runs
pub mod Preserved
pub mod Codes
mod Examples
use text.Mathlib.Text.{◌==◌}
use software_builder.Prelude.{
  ℕ, zero, suc, String, Bool, true, false, not, ◌&&◌, ◌||◌, Option, none, some, List, [], ◌∷◌,
  is_empty, if◌then◌else◌,
}

-- `proc.wait()`: an exit code, or the number of the signal that ended the child.
pub data ReturnCode : Type 0 where
  exited killed : ℕ → ReturnCode

pub record Child : Type 0 where
  pub returncode : ReturnCode
  pub was_signalled : Bool

pub data LockResult : Type 0 where
  acquired lock_timeout unsupported_platform : LockResult

-- `--lock-wait-timeout`, a float; below zero, or not.
pub data WaitTimeout : Type 0 where
  unbounded not_a_number infinite below_zero seconds : WaitTimeout

pub data Action : Type 0 where
  check mark run_if_new_action : Action

unfoldable pub should_process : Option String → String → Bool
should_process none head_sha = true
should_process (some last) head_sha = not (last == head_sha)

unfoldable pub mark_processed : String → Option String
mark_processed head_sha = some head_sha

unfoldable pub is_zero : ReturnCode → Bool
is_zero (exited zero) = true
is_zero _ = false

-- `run_if_new` behind the child: the code that it returns, and the record.
unfoldable pub conclude : Option String → String → Child → ReturnCode × Option String
unfolding is_zero
conclude last head_sha child =
    if child.was_signalled
    then (exited 4, last)
    else if is_zero child.returncode
    then (child.returncode, mark_processed head_sha)
    else (child.returncode, last)

unfoldable pub run_if_new : Option String → String → Child → ReturnCode × Option String
run_if_new last head_sha child =
    if not (should_process last head_sha) then (exited 1, last) else conclude last head_sha child

unfoldable pub validate_lock_wait_timeout : WaitTimeout → Bool
validate_lock_wait_timeout unbounded = true
validate_lock_wait_timeout seconds = true
validate_lock_wait_timeout _ = false

-- The command behind `--`.
unfoldable pub the_command : List String → List String
the_command [] = []
the_command (word ∷ words) = if word == "" then [] else if word == "--" then words else word ∷ words

-- What is done under the lock, where there is one.
unfoldable pub under_lock :
    LockResult → Option String → ReturnCode × Option String → ReturnCode × Option String
under_lock acquired last done = done
under_lock lock_timeout last done = (exited 3, last)
under_lock unsupported_platform last done = (exited 5, last)

unfoldable pub act :
    Action → List String → LockResult → Option String → String → Child → ReturnCode × Option String
act run_if_new_action command lock last head_sha child =
    if is_empty (the_command command)
    then (exited 2, last)
    else under_lock lock last (run_if_new last head_sha child)
act check command lock last head_sha child =
    under_lock lock last (exited (if should_process last head_sha then 0 else 1), last)
act mark command lock last head_sha child = under_lock lock last (exited 0, mark_processed head_sha)

unfoldable pub main :
    WaitTimeout
    → Action
    → List String
    → LockResult
    → Option String
    → String
    → Child
    → ReturnCode × Option String
main timeout action command lock last head_sha child =
    if not (validate_lock_wait_timeout timeout)
    then (exited 2, last)
    else act action command lock last head_sha child
