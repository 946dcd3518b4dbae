-- ===== src/Gatekeeper/Runs.antt =====
-- skills/pr-gatekeeper/scripts/idempotency_store.py: any number of processes that call `run_if_new`
-- on one merge request, in any order of their steps. The kernel's exclusive lock has one holder at
-- most and is free again when its holder ends, whatever ends it. A command is a process of its own: it
-- runs on when the process that launched it is killed.
use software_builder.Prelude.{
  ℕ, String, Bool, true, false, not, ◌&&◌, Option, none, some, List, [], ◌∷◌, ◌≡◌, ◌≢◌, ◌⊎◌, nat_eq,
  if◌then◌else◌,
}
use software_builder.Gatekeeper.{ReturnCode, exited, Child, should_process, is_zero, conclude}

-- Where a process is in `run_if_new`: `running` waits for its command, `marking` is between its end
-- and the write of the record. `orphaned` is a command that runs on when its process has been killed.
pub data Phase : Type 0 where
  waiting holding running : String → Phase
  marking : String → Child → Phase
  orphaned : String → Phase
  ended : Option ReturnCode → Phase

-- The heads that were marked as processed are kept, the last one first, and whether a process was
-- killed while its command ran.
pub record Shared : Type 0 where
  pub lock : Option ℕ
  pub last : Option String
  pub processed : List String
  pub killed_running : Bool
  pub phase : ℕ → Phase

unfoldable pub set : ℕ → Phase → (ℕ → Phase) → ℕ → Phase
set p ph phases q = if nat_eq p q then ph else phases q

-- The child ended by itself, and with 0.
unfoldable pub succeeds : Child → Bool
succeeds child = not child.was_signalled && is_zero child.returncode

-- The lock behind the end of the process `p`.
unfoldable pub released : Option ℕ → ℕ → Option ℕ
released none p = none
released (some q) p = if nat_eq p q then none else some q

pub data Step : Shared → Shared → Type 0 where
  acquire :
      {s : Shared} (p : ℕ) {head : String}
      → s.lock ≡ none
      → s.phase p ≡ waiting head
      → Step s record s { lock = some p; phase = set p (holding head) s.phase }
  time_out :
      {s : Shared} (p : ℕ) {head : String}
      → s.phase p ≡ waiting head
      → Step s record s { phase = set p (ended (some (exited 3))) s.phase }
  skip :
      {s : Shared} (p : ℕ) {head : String}
      → s.phase p ≡ holding head
      → should_process s.last head ≡ false
      → Step s record s { lock = none; phase = set p (ended (some (exited 1))) s.phase }
  launch :
      {s : Shared} (p : ℕ) {head : String}
      → s.phase p ≡ holding head
      → should_process s.last head ≡ true
      → Step s record s { phase = set p (running head) s.phase }
  -- The command ends without success.
  fail :
      {s : Shared} (p : ℕ) {head : String} (child : Child)
      → s.phase p ≡ running head
      → succeeds child ≡ false
      → Step s record s {
        lock = none;
        last = (conclude s.last head child).1;
        phase = set p (ended (some (conclude s.last head child).0)) s.phase;
      }
  -- The command ends with success; nothing is written yet.
  succeed :
      {s : Shared} (p : ℕ) {head : String} (child : Child)
      → s.phase p ≡ running head
      → succeeds child ≡ true
      → Step s record s { phase = set p (marking head child) s.phase }
  write_mark :
      {s : Shared} (p : ℕ) {head : String} {child : Child}
      → s.phase p ≡ marking head child
      → Step s record s {
        lock = none;
        last = (conclude s.last head child).1;
        processed = head ∷ s.processed;
        phase = set p (ended (some (conclude s.last head child).0)) s.phase;
      }
  -- The process ends while it waits, holds the lock with no command, or is about to write: it is
  -- killed, its command does not start, or the write fails. What it holds is free, and nothing is
  -- written.
  die :
      {s : Shared} (p : ℕ) {head : String} {child : Child}
      → (s.phase p ≡ waiting head) ⊎ ((s.phase p ≡ holding head) ⊎ (s.phase p ≡ marking head child))
      → Step s record s { lock = released s.lock p; phase = set p (ended none) s.phase }
  -- The process is killed while its command runs: the lock is free, and the command runs on.
  die_running :
      {s : Shared} (p : ℕ) {head : String}
      → s.phase p ≡ running head
      → Step s
          record s { lock = none; killed_running = true; phase = set p (orphaned head) s.phase }
  orphan_ends :
      {s : Shared} (p : ℕ) {head : String}
      → s.phase p ≡ orphaned head
      → Step s record s { phase = set p (ended none) s.phase }

pub data Steps (s : Shared) : Shared → Type 0 where
  start : Steps s s
  next : {r q : Shared} → Steps s r → Step r q → Steps s q

abbrev pub newest : List String → Option String
newest [] = none
newest (h ∷ hs) = some h

-- No head is processed twice in a row.
abbrev pub NoRepeat : List String → Type 0
NoRepeat [] = Unit
NoRepeat (h ∷ hs) = (newest hs ≢ some h) × NoRepeat hs

abbrev pub InLock : Phase → Type 0
InLock (holding h) = Unit
InLock (running h) = Unit
InLock (marking h child) = Unit
InLock _ = ⊥

-- A command is running: its process waits for it, or was killed.
abbrev pub IsActive : Phase → Type 0
IsActive (running h) = Unit
IsActive (orphaned h) = Unit
IsActive _ = ⊥

-- A process behind its launch was told that its head is new, and the record is still the one it read;
-- and it writes for a success only.
abbrev pub Current : Option String → Phase → Type 0
Current last (running h) = should_process last h ≡ true
Current last (marking h child) = (should_process last h ≡ true) × (succeeds child ≡ true)
Current last _ = Unit

-- A command without its process.
abbrev pub Orphan : Phase → Type 0
Orphan (orphaned h) = Unit
Orphan _ = ⊥

pub record Inv (s : Shared) : Type 0 where
  pub owned : (p : ℕ) → InLock (s.phase p) → s.lock ≡ some p
  pub current : (p : ℕ) → Current s.last (s.phase p)
  pub recorded : s.last ≡ newest s.processed
  pub fresh : NoRepeat s.processed
  pub orphans : (p : ℕ) → Orphan (s.phase p) → s.killed_running ≡ true

-- Every process waits for the lock, and none has written.
pub record Start (s : Shared) : Type 0 where
  pub free : s.lock ≡ none
  pub unwritten : s.last ≡ none
  pub unprocessed : s.processed ≡ []
  pub all_waiting : (p : ℕ) → (head : String) × (s.phase p ≡ waiting head)
