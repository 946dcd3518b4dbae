-- ===== src/Gatekeeper/Codes.antt =====
-- skills/pr-gatekeeper/scripts/idempotency_store.py, `main`: its exit codes and what it writes.
use software_builder.Prelude.{String, true, false, Option, some, List, ◌≡◌, ◌⊎◌, ◌≢◌, []}
use software_builder.Gatekeeper.{
  ReturnCode, exited, Child, LockResult, acquired, WaitTimeout, unbounded, seconds, Action, mark,
  run_if_new_action, the_command,
}

-- No bound on the wait for the lock, or a finite one that is not below zero.
abbrev pub IsBound : WaitTimeout → Type 0
IsBound timeout = (timeout ≡ unbounded) ⊎ (timeout ≡ seconds)

-- The command is run: a command is given, the lock is had and the head is not the one of the record.
abbrev pub Launches :
    WaitTimeout → Action → List String → LockResult → Option String → String → Type 0
Launches timeout action command lock last head =
    IsBound timeout
    × (action ≡ run_if_new_action)
    × (the_command command ≢ [])
    × (lock ≡ acquired)
    × (last ≢ some head)

-- The head is marked: by `mark` under the lock, or behind a command that was not interrupted and
-- exited with 0.
abbrev pub Marks :
    WaitTimeout → Action → List String → LockResult → Option String → String → Child → Type 0
Marks timeout action command lock last head child =
    (IsBound timeout × (action ≡ mark) × (lock ≡ acquired))
    ⊎ (Launches timeout action command lock last head
        × (child.was_signalled ≡ false)
        × (child.returncode ≡ exited 0))

-- When a call writes the record, and how one ends that launched its command.
abbrev pub Writes :
    WaitTimeout
    → Action
    → List String
    → LockResult
    → Option String
    → String
    → Child
    → ReturnCode × Option String
    → Type 0
Writes timeout action command lock last head child r =
    (Marks timeout action command lock last head child → r ≡ (exited 0, some head))
    × ((¬ Marks timeout action command lock last head child) → r.1 ≡ last)
    × (Launches timeout action command lock last head → child.was_signalled ≡ true → r.0 ≡ exited 4)
    × (Launches timeout action command lock last head
        → child.was_signalled ≡ false
        → r.0 ≡ child.returncode)
