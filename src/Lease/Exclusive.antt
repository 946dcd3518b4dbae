-- ===== src/Lease/Exclusive.antt =====
-- scripts/task_lease.py: any sequence of calls on the lock of one lease. A descriptor's number may come
-- back once it is closed.
use software_builder.Prelude.{
  ◌↔◌, ℕ, String, false, Option, none, some, ◌≡◌, inl, inr, refl, sym, ◌∙◌, ap, subst, arith,
  nat_eq, Bool-cases, Option-cases,
}
use software_builder.Lease.{
  Lease, Prepared, no_flock, untrusted, opened, held, put_fd, flock, open_lease, validate_lease_id,
  try_acquire, close, release_fd, release,
}

-- A call of `try_acquire` makes a new handle; `release` is called on any, any number of times.
pub data Call : Lease → Lease → Type 0 where
  acquires :
      {s : Lease} (lease_id : Option String) (prepared : Prepared) (h : ℕ)
      → s.fds h ≡ none
      → Call s (try_acquire lease_id prepared h s).1
  releases : {s : Lease} (h : ℕ) → Call s (release h s)

pub data Calls (s : Lease) : Lease → Type 0 where
  start : Calls s s
  next : {r q : Lease} → Calls s r → Call r q → Calls s q

-- The lock is that of the one handle that is not released, and free where there is none.
pub data Owned (s : Lease) : Type 0 where
  free : s.holder ≡ none → ((g : ℕ) → s.fds g ≡ none) → Owned s
  owned :
      (h fd : ℕ)
      → s.holder ≡ some fd
      → s.fds h ≡ some fd
      → ((g : ℕ) → nat_eq h g ≡ false → s.fds g ≡ none)
      → Owned s

put_fd-same : (h : ℕ) (fd : Option ℕ) (fds : ℕ → Option ℕ) → put_fd h fd fds h ≡ fd
unfolding put_fd
put_fd-same h fd fds = ground arith

put_fd-other :
    (h g : ℕ) (fd : Option ℕ) (fds : ℕ → Option ℕ) → nat_eq h g ≡ false → put_fd h fd fds g ≡ fds g
unfolding put_fd
put_fd-other h g fd fds e = rw (put_fd, e) refl

put_fd-none :
    (h : ℕ) (fds : ℕ → Option ℕ)
    → ((g : ℕ) → nat_eq h g ≡ false → fds g ≡ none)
    → (g : ℕ) → put_fd h none fds g ≡ none
unfolding put_fd
put_fd-none h fds out g = elim (Bool-cases (nat_eq h g)) [
  | inl e ↦ rw (put_fd, e) refl
  | inr e ↦ rw (put_fd, e) (out g e)
]

flock-Owned :
    (h fd : ℕ) (s : Lease) (o : Option ℕ) → s.holder ≡ o → Owned s → Owned (flock h fd s o).1
unfolding flock
flock-Owned h fd s (some other) e i = i
flock-Owned h fd s none e (owned g f at_f mine out) = absurd (cc (e, at_f))
flock-Owned h fd s none e (free unlocked out) =
    owned h fd refl (put_fd-same h (some fd) s.fds)
      (λ g other. put_fd-other h g (some fd) s.fds other ∙ out g)

open_lease-Owned : (h : ℕ) (s : Lease) (p : Prepared) → Owned s → Owned (open_lease h s p).1
unfolding open_lease
open_lease-Owned h s no_flock i = i
open_lease-Owned h s untrusted i = i
open_lease-Owned h s (opened fd) i = flock-Owned h fd s s.holder refl i

close-same : (fd : ℕ) (o : Option ℕ) → o ≡ some fd → close fd o ≡ none
unfolding close
close-same fd o e = ground arith

release_fd-Owned :
    (h : ℕ) (o : Option ℕ) (s : Lease) → s.fds h ≡ o → Owned s → Owned (release_fd h o s)
unfolding release_fd
release_fd-Owned h none s e i = i
release_fd-Owned h (some fd) s e (free unlocked out) = absurd (cc (e, out h))
release_fd-Owned h (some fd) s e (owned g f at_f mine out) = elim (Bool-cases (nat_eq g h)) [
  | inr other ↦ absurd (cc (e, out h other))
  | inl same ↦
      let here : g ≡ h = ground arith in
      let at_fd : s.holder ≡ some fd = at_f ∙ sym mine ∙ ap s.fds here ∙ e in
      free (close-same fd s.holder at_fd)
        (put_fd-none h s.fds (subst (λ x. (k : ℕ) → nat_eq x k ≡ false → s.fds k ≡ none) here out))
]

Call-Owned : {s r : Lease} → Owned s → Call s r → Owned r
unfolding try_acquire release
Call-Owned {s = s} i (acquires lease_id prepared h new) =
    elim (Option-cases (validate_lease_id lease_id)) [
      | inl refused ↦ rw (try_acquire, refused) i
      | inr (id, valid) ↦ rw (try_acquire, valid) (open_lease-Owned h s prepared i)
    ]
Call-Owned {s = s} i (releases h) = release_fd-Owned h (s.fds h) s refl i

-- Where the lock is that of the one handle that is not released, and free where there is none, it is so
-- behind any sequence of calls, however often a handle is released.
pub Calls-Owned : {s r : Lease} → Owned s → Calls s r → Owned r
Calls-Owned i start = i
Calls-Owned i (next calls call) = Call-Owned (Calls-Owned i calls) call

held_iff :
    {s : Lease} (fd h : ℕ) (o : Option ℕ)
    → s.holder ≡ o
    → Owned s
    → ((flock h fd s o).0 ≡ held) ↔ ((g : ℕ) → s.fds g ≡ none)
unfolding flock
held_iff fd h none e (free unlocked out) = (λ _. out, λ _. refl)
held_iff fd h none e (owned g f at_f mine out) = absurd (cc (e, at_f))
held_iff fd h (some other) e (free unlocked out) = absurd (cc (e, unlocked))
held_iff fd h (some other) e (owned g f at_f mine out) =
    (λ k. absurd (cc k), λ released. absurd (cc (mine, released g)))

-- With an id that is valid and a file that was opened, the lease is held after the call exactly if every
-- handle from before is released.
pub try_acquire-held_iff :
    {s : Lease} (id : String) (fd h : ℕ)
    → Owned s
    → validate_lease_id (some id) ≡ some id
    → ((try_acquire (some id) (opened fd) h s).0 ≡ held) ↔ ((g : ℕ) → s.fds g ≡ none)
unfolding try_acquire open_lease
try_acquire-held_iff {s = s} id fd h i valid =
    rw (try_acquire, valid) (held_iff fd h s.holder refl i)
