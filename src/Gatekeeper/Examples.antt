-- ===== src/Gatekeeper/Examples.antt =====
-- Every process waits with the head "a1"; the first runs its command to a success, and the second is
-- told that the head is old. Two calls of `main`.
use software_builder.Prelude.{ℕ, String, ◌≡◌, refl, false, none, some, [], ◌∷◌}
use software_builder.Gatekeeper.{
  exited, Child, acquired, seconds, run_if_new_action, should_process, mark_processed, is_zero,
  conclude, run_if_new, validate_lock_wait_timeout, the_command, under_lock, act, main,
}
use software_builder.Gatekeeper.Runs.{
  waiting, running, orphaned, Shared, set, succeeds, acquire, skip, launch, succeed, write_mark,
  die_running, Steps, start, next, newest, NoRepeat, IsActive, Start,
}
use software_builder.Gatekeeper.Preserved.{Steps-exclusive}

abbrev idle : Shared
idle = record {
  lock = none;
  last = none;
  processed = [];
  killed_running = false;
  phase = λ p. waiting "a1";
}

abbrev succeeded : Child
succeeded = record { returncode = exited 0; was_signalled = false }

idle-Start : Start idle
idle-Start = record {
  free = refl;
  unwritten = refl;
  unprocessed = refl;
  all_waiting = λ p. ("a1", refl);
}

two_calls : (r : Shared) × Steps idle r × (r.processed ≡ "a1" ∷ [])
unfolding set succeeds conclude should_process mark_processed is_zero
two_calls = (
  _,
  next
      (next
        (next
          (next (next (next start (acquire 0 refl refl)) (launch 0 refl refl))
            (succeed 0 succeeded refl refl))
          (write_mark 0 refl))
        (acquire 1 refl refl))
      (skip 1 refl refl),
  refl,
)

Steps-exclusive_example :
    ((p q : ℕ) (g h : String)
      → two_calls.0.phase p ≡ running g
      → two_calls.0.phase q ≡ running h
      → p ≡ q)
    × (two_calls.0.killed_running ≡ false
        → (p q : ℕ) → IsActive (two_calls.0.phase p)
        → IsActive (two_calls.0.phase q)
        → p ≡ q)
    × (two_calls.0.last ≡ newest two_calls.0.processed)
    × NoRepeat two_calls.0.processed
Steps-exclusive_example = Steps-exclusive idle-Start two_calls.1

-- A kill of the first process as its command runs, and the second runs the command on the same head
-- while the first command is still running.
after_kill : (r : Shared) × Steps idle r × (r.phase 0 ≡ orphaned "a1") × (r.phase 1 ≡ running "a1")
unfolding set should_process
after_kill = (
  _,
  next
      (next
        (next (next (next start (acquire 0 refl refl)) (launch 0 refl refl)) (die_running 0 refl))
        (acquire 1 refl refl))
      (launch 1 refl refl),
  refl,
  refl,
)

main-runs :
    main seconds run_if_new_action ("--" ∷ "gatekeeper" ∷ []) acquired (some "a1") "b2" succeeded
    ≡ (exited 0, some "b2")
unfolding main act the_command validate_lock_wait_timeout under_lock run_if_new should_process
    conclude is_zero mark_processed
main-runs = refl
