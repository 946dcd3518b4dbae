-- ===== src/Lease/Examples.antt =====
-- Two handles on one lease: the second waits for the first to be released, twice.
use software_builder.Prelude.{◌↔◌, ℕ, ◌≡◌, refl, none, some}
use software_builder.Lease.{
  Lease, opened, held, contended, is_first_char, follows, is_identifier, validate_lease_id,
  try_acquire, open_lease, flock, put_fd, close, release, release_fd,
}
use software_builder.Lease.Exclusive.{
  Owned, free, acquires, releases, Calls, start, next, Calls-Owned, try_acquire-held_iff,
}

abbrev unused : Lease
unused = record { holder = none; fds = λ h. none }

abbrev first : Lease
first = (try_acquire (some "lease-01") (opened 3) 0 unused).1

abbrev retried : Lease
retried = (try_acquire (some "lease-01") (opened 4) 1 (release 0 (release 0 first))).1

retried-calls : Calls unused retried
unfolding try_acquire validate_lease_id is_identifier is_first_char follows open_lease flock put_fd
    release release_fd close
retried-calls =
    next
      (next (next (next start (acquires (some "lease-01") (opened 3) 0 refl)) (releases 0))
        (releases 0))
      (acquires (some "lease-01") (opened 4) 1 refl)

Calls-Owned_example : Owned retried
Calls-Owned_example = Calls-Owned (free refl (λ g. refl)) retried-calls

lease-01-valid : validate_lease_id (some "lease-01") ≡ some "lease-01"
unfolding validate_lease_id is_identifier is_first_char follows
lease-01-valid = refl

try_acquire-held_iff_example :
    ((try_acquire (some "lease-01") (opened 5) 2 retried).0 ≡ held)
    ↔ ((g : ℕ) → retried.fds g ≡ none)
try_acquire-held_iff_example =
    try_acquire-held_iff "lease-01" 5 2 Calls-Owned_example lease-01-valid

contends : (try_acquire (some "lease-01") (opened 5) 2 retried).0 ≡ contended
unfolding try_acquire validate_lease_id is_identifier is_first_char follows open_lease flock put_fd
    release release_fd close
contends = refl
