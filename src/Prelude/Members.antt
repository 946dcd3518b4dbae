-- ===== src/Prelude/Members.antt =====
-- Membership, and what the comprehensions and `min` keep of it.
use mathlib.Core.List.Memᴰ
use mathlib.Core.List.{List, [], ◌∷◌, Memᴰ}
use mathlib.Core.Path.{◌≡◌, refl, ap}
use mathlib.Core.Logic.{◌↔◌, inl, inr}
use mathlib.Core.Bool.{Bool, true}
use Prim.Native.Nat.{ℕ, ◌≤◌}
use Prim.Native.String.{String}
use native.Mathlib.Omega.{arith}
use text.Mathlib.Text.{◌==◌}
use text.Mathlib.TextEquality.{eq_iff}
use software_builder.Prelude.Tests.{ltb, Bool-cases}
use software_builder.Prelude.Lists.{keep, all, min_by}
use software_builder.Prelude.Text.{elem}

pub elem_iff : (s : String) (xs : List String) → (elem s xs ≡ true) ↔ Memᴰ s xs
elem_iff s [] = (λ h. absurd (cc h), λ m. absurd (Memᴰ.not-nil m))
elem_iff s (x ∷ xs) = (
  λ h. elim (Bool-cases (x == s)) [
    | inl e ↦ Memᴰ.head (cc ((eq_iff x s).0 e))
    | inr e ↦ Memᴰ.tail ((elem_iff s xs).0 (rw e at h))
  ],
  λ m. elim (Memᴰ.cases_cons m) [
    | inl e ↦ rw ((eq_iff x s).1 (cc e))
    | inr later ↦ rw ((elem_iff s xs).1 later) (ground arith)
  ],
)

module _ {ℓ} {A : Type ℓ} where
  pub all_iff :
      (p : A → Bool) (xs : List A) → (all p xs ≡ true) ↔ ((x : A) → Memᴰ x xs → p x ≡ true)
  all_iff p [] = (λ h x m. absurd (Memᴰ.not-nil m), λ h. refl)
  all_iff p (x ∷ xs) = (
    λ h y m. elim (Memᴰ.cases_cons m) [
      | inl e ↦ rw e (ground arith)
      | inr later ↦ (all_iff p xs).0 (ground arith) y later
    ],
    λ h. rw (h x (Memᴰ.head refl)) ((all_iff p xs).1 (λ y m. h y (Memᴰ.tail m))),
  )

  pub mem-keep :
      (p : A → Bool) (y : A) (xs : List A) → Memᴰ y (keep p xs) ↔ (Memᴰ y xs × (p y ≡ true))
  mem-keep p y [] = (λ m. absurd (Memᴰ.not-nil m), λ h. h.0)
  mem-keep p y (x ∷ xs) = elim (Bool-cases (p x)) [
    | inl kept ↦ rw kept (
      λ m. elim (Memᴰ.cases_cons m) [
        | inl e ↦ (Memᴰ.head e, rw e kept)
        | inr later ↦ let h = (mem-keep p y xs).0 later in (Memᴰ.tail h.0, h.1)
      ],
      λ h. elim (Memᴰ.cases_cons h.0) [
        | inl e ↦ Memᴰ.head e
        | inr later ↦ Memᴰ.tail ((mem-keep p y xs).1 (later, h.1))
      ],
    )
    | inr dropped ↦ rw dropped (
      λ m. let h = (mem-keep p y xs).0 m in (Memᴰ.tail h.0, h.1),
      λ h. elim (Memᴰ.cases_cons h.0) [
        | inl e ↦ absurd (cc (ap p e))
        | inr later ↦ (mem-keep p y xs).1 (later, h.1)
      ],
    )
  ]

  pub min_by-mem : (key : A → ℕ) (x : A) (xs : List A) → Memᴰ (min_by key x xs) (x ∷ xs)
  min_by-mem key x [] = Memᴰ.head refl
  min_by-mem key x (y ∷ ys) = elim (Bool-cases (ltb (key y) (key x))) [
    | inl e ↦ rw e (Memᴰ.tail (min_by-mem key y ys))
    | inr e ↦ rw e (skip (min_by-mem key x ys))
  ]
    where
      skip : {z : A} → Memᴰ z (x ∷ ys) → Memᴰ z (x ∷ y ∷ ys)
      skip m = elim (Memᴰ.cases_cons m) [
        | inl e ↦ Memᴰ.head e
        | inr later ↦ Memᴰ.tail (Memᴰ.tail later)
      ]

  min_by-le_first : (key : A → ℕ) (x : A) (xs : List A) → key (min_by key x xs) ≤ key x
  min_by-le_first key x [] = omega arith
  min_by-le_first key x (y ∷ ys) =
      ground (arith, min_by-le_first key x ys, min_by-le_first key y ys)

  pub min_by-le :
      (key : A → ℕ) (x : A) (xs : List A) (z : A) → Memᴰ z (x ∷ xs) → key (min_by key x xs) ≤ key z
  min_by-le key x [] z m = rw (Memᴰ.eq_of_singleton m) (omega arith)
  min_by-le key x (y ∷ ys) z m = elim (Memᴰ.cases_cons m) [
    | inl e ↦ rw e (min_by-le_first key x (y ∷ ys))
    | inr later ↦ elim (Memᴰ.cases_cons later) [
      | inl e ↦ rw e (ground (arith, min_by-le_first key x ys, min_by-le_first key y ys))
      | inr rest ↦
          ground
            (arith, min_by-le key x ys z (Memᴰ.tail rest), min_by-le key y ys z (Memᴰ.tail rest))
    ]
  ]
