-- ===== src/Lease.antt =====
-- scripts/task_lease.py: the identity of a lease, `try_acquire` and `LeaseHandle.release`. The hash,
-- and what the preparation of the directory and the file comes to, are arguments.
pub mod Exclusive
pub mod Identity
mod Examples
use text.Mathlib.Text.{◌==◌}
use software_builder.Prelude.{
  ℕ, zero, suc, String, Bool, true, false, not, ◌&&◌, ◌||◌, Option, none, some, List, [], ◌∷◌, ltb,
  leb, nat_eq, if◌then◌else◌,
}
use software_builder.Prelude.Text.{append, Char, code}

-- `[A-Za-z0-9._]`
unfoldable pub is_first_char : ℕ → Bool
is_first_char c =
    (leb 65 c && leb c 90)
    || (leb 97 c && leb c 122)
    || (leb 48 c && leb c 57)
    || nat_eq c 46
    || nat_eq c 95

-- At most this many characters of `[A-Za-z0-9._-]`.
unfoldable pub follows : ℕ → String → Bool
follows n String.[] = true
follows zero (String.◌∷◌ c s) = false
follows (suc n) (String.◌∷◌ c s) = (is_first_char (code c) || nat_eq (code c) 45) && follows n s

-- `_IDENTIFIER_RE.fullmatch`
unfoldable pub is_identifier : String → Bool
is_identifier String.[] = false
is_identifier (String.◌∷◌ c s) = is_first_char (code c) && follows 127 s

-- An id that is no text is none, and so is the answer where the call raises.
unfoldable pub validate_lease_id : Option String → Option String
validate_lease_id none = none
validate_lease_id (some id) =
    if is_identifier id && not (id == ".") && not (id == "..") then some id else none

unfoldable pub take : ℕ → String → String
take zero s = ""
take (suc n) String.[] = ""
take (suc n) (String.◌∷◌ c s) = String.◌∷◌ c (take n s)

-- The argument is `hashlib.sha256(_.encode("utf-8")).hexdigest()`.
unfoldable pub derive_lease_id : (String → String) → String → String → String → String
derive_lease_id sha256 repo base_branch task_id =
    append "lease-"
      (take 16 (sha256 (append repo (append "|" (append base_branch (append "|" task_id))))))

-- The lock of one lease file: the open file description that holds it; and the descriptor in each
-- handle, none once it is released.
pub record Lease : Type 0 where
  pub holder : Option ℕ
  pub fds : ℕ → Option ℕ

-- What comes before the lock: no POSIX platform, a directory or a file that is not to be trusted, or an
-- open descriptor.
pub data Prepared : Type 0 where
  no_flock untrusted : Prepared
  opened : ℕ → Prepared

pub data Acquired : Type 0 where
  task_lease_error contended held : Acquired

unfoldable pub put_fd : ℕ → Option ℕ → (ℕ → Option ℕ) → ℕ → Option ℕ
put_fd h fd fds g = if nat_eq h g then fd else fds g

-- `fcntl.flock(fd, LOCK_EX | LOCK_NB)`, and the new handle `h` where it succeeds.
unfoldable pub flock : ℕ → ℕ → Lease → Option ℕ → Acquired × Lease
flock h fd s (some other) = (contended, s)
flock h fd s none = (held, record { holder = some fd; fds = put_fd h (some fd) s.fds })

unfoldable pub open_lease : ℕ → Lease → Prepared → Acquired × Lease
open_lease h s no_flock = (task_lease_error, s)
open_lease h s untrusted = (task_lease_error, s)
open_lease h s (opened fd) = flock h fd s s.holder

unfoldable pub try_acquire : Option String → Prepared → ℕ → Lease → Acquired × Lease
try_acquire lease_id prepared h s = elim (validate_lease_id lease_id) [
  | none ↦ (task_lease_error, s)
  | some id ↦ open_lease h s prepared
]

-- `os.close(fd)`: the kernel frees a lock that the description holds.
unfoldable pub close : ℕ → Option ℕ → Option ℕ
close fd none = none
close fd (some other) = if nat_eq fd other then none else some other

unfoldable pub release_fd : ℕ → Option ℕ → Lease → Lease
release_fd h none s = s
release_fd h (some fd) s = record { holder = close fd s.holder; fds = put_fd h none s.fds }

unfoldable pub release : ℕ → Lease → Lease
release h s = release_fd h (s.fds h) s
