-- ===== src/Lease/Identity.antt =====
-- scripts/task_lease.py, `derive_lease_id`: the id that it derives is one that `try_acquire` takes.
use text.Mathlib.Text.{◌==◌}
use text.Mathlib.TextEquality.{eq_iff}
use text.Mathlib.TextLemmas.{nil-append, cons-append}
use software_builder.Prelude.Text.Lines.{strip_prefix-append}
use software_builder.Prelude.{
  ℕ, zero, suc, ◌≤◌, ◌+◌, String, Bool, true, false, ◌&&◌, ◌||◌, none, some, ◌≡◌, refl, ap, arith,
  leb, Bool-cases, inl, inr,
}
use software_builder.Prelude.Text.{append, code, strip_prefix}
use software_builder.Lease.{
  is_first_char, follows, is_identifier, validate_lease_id, take, derive_lease_id,
}

-- The digits of `hexdigest`.
abbrev pub is_hex : String → Bool
is_hex String.[] = true
is_hex (String.◌∷◌ c s) =
    ((leb 48 (code c) && leb (code c) 57) || (leb 97 (code c) && leb (code c) 102)) && is_hex s

hex_char :
    (c : ℕ) → (leb 48 c && leb c 57) || (leb 97 c && leb c 102) ≡ true → is_first_char c ≡ true
unfolding is_first_char
hex_char c h = ground arith

follows-take : (n m : ℕ) (s : String) → is_hex s ≡ true → n ≤ m → follows m (take n s) ≡ true
unfolding follows take
follows-take zero m s h le = refl
follows-take (suc n) m String.[] h le = refl
follows-take (suc n) zero (String.◌∷◌ c s) h le = absurd (omega arith)
follows-take (suc n) (suc m) (String.◌∷◌ c s) h le =
    ground (arith, hex_char (code c), follows-take n m s)

-- The first character of `[A-Za-z0-9._]`, and at most as many that follow.
starts : ℕ → String → Bool
starts n String.[] = false
starts n (String.◌∷◌ c s) = is_first_char (code c) && follows n s

-- Room for one text is room for a shorter one, in front of another.
follows-append :
    (n m : ℕ) (s t : String)
    → follows n s ≡ true
    → follows m t ≡ true
    → follows (n + m) (append s t) ≡ true
unfolding follows
follows-append n m String.[] t h k = rw nil-append (follows-more n m t k)
  where
    follows-more : (n m : ℕ) (t : String) → follows m t ≡ true → follows (n + m) t ≡ true
    follows-more n m String.[] k = refl
    follows-more n zero (String.◌∷◌ c t) k = absurd (cc k)
    follows-more n (suc m) (String.◌∷◌ c t) k = ground (arith, follows-more n m t)
follows-append zero m (String.◌∷◌ c s) t h k = absurd (cc h)
follows-append (suc n) m (String.◌∷◌ c s) t h k =
    rw cons-append (ground (arith, follows-append n m s t))

starts-append :
    (p t : String) → starts 5 p ≡ true → follows 122 t ≡ true → is_identifier (append p t) ≡ true
unfolding starts is_identifier
starts-append String.[] t h k = absurd (cc h)
starts-append (String.◌∷◌ c p) t h k = rw cons-append (ground (arith, follows-append 5 122 p t))

lease_starts : starts 5 "lease-" ≡ true
unfolding starts follows is_first_char
lease_starts = refl

not_text : (t s : String) → strip_prefix "lease-" s ≡ none → append "lease-" t == s ≡ false
not_text t s h = elim (Bool-cases (append "lease-" t == s)) [
  | inr e ↦ e
  | inl e ↦
      let same : append "lease-" t ≡ s = (eq_iff (append "lease-" t) s).0 e in
      absurd (cc (strip_prefix-append "lease-" t, ap (strip_prefix "lease-") same, h))
]

dots : (strip_prefix "lease-" "." ≡ none) × (strip_prefix "lease-" ".." ≡ none)
unfolding strip_prefix
dots = (refl, refl)

-- Whatever the repository, the branch and the task are, the id that is derived for them is valid, where
-- the hash is written in hexadecimal digits.
pub derive_lease_id-valid :
    (sha256 : String → String)
    → ((text : String) → is_hex (sha256 text) ≡ true)
    → (repo base_branch task_id : String)
    → validate_lease_id (some (derive_lease_id sha256 repo base_branch task_id))
      ≡ some (derive_lease_id sha256 repo base_branch task_id)
unfolding validate_lease_id derive_lease_id
derive_lease_id-valid sha256 hex repo base_branch task_id =
    let seed = append repo (append "|" (append base_branch (append "|" task_id))) in
    let digits = take 16 (sha256 seed) in
    let valid =
      starts-append "lease-" digits lease_starts
        (follows-take 16 122 (sha256 seed) (hex seed) (omega arith)) in
    rw
      (
        validate_lease_id,
        derive_lease_id,
        valid,
        not_text digits "." dots.0,
        not_text digits ".." dots.1,
      )
      refl
