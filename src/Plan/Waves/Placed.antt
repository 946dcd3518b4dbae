-- ===== src/Plan/Waves/Placed.antt =====
-- scripts/implementation_plan.py, `validate_implementation_plan`: the positions that the loop over
-- `execution_waves` gives where it has no message.
use text.Mathlib.Text.{◌==◌}
use text.Mathlib.TextEquality.{eq_iff}
use software_builder.Prelude.{
  ℕ, suc, ◌≤◌, String, true, false, ◌||◌, some, List, [], ◌∷◌, ◌++◌, ◌≡◌, refl, ◌⊎◌, inl, inr,
  arith, Bool-cases, if◌then◌else◌,
}
use software_builder.Prelude.Dict.{Dict, lookup, insert, lookup-insert}
use software_builder.Prelude.Text.{elem}
use software_builder.Plan.Waves.{is_placed}

-- No text stands twice.
abbrev pub Distinct : List String → Type 0
Distinct [] = Unit
Distinct (x ∷ xs) = (elem x xs ≡ false) × Distinct xs

pub elem-append : (x : String) (xs ys : List String) → elem x (xs ++ ys) ≡ (elem x xs || elem x ys)
elem-append x [] ys = refl
elem-append x (y ∷ xs) ys = ground (arith, elem-append x xs ys)

pub append-Distinct :
    (xs ys : List String)
    → Distinct xs
    → Distinct ys
    → ((x : String) → elem x xs ≡ true → elem x ys ≡ false)
    → Distinct (xs ++ ys)
append-Distinct [] ys d e apart = e
append-Distinct (x ∷ xs) ys d e apart = (
  ground (arith, elem-append x xs ys, d.0, apart x, eq_iff x x),
  append-Distinct xs ys d.1 e (λ z m. apart z (ground (arith, m))),
)

-- The positions after a wave, and after several.
abbrev pub put : ℕ → Dict ℕ → List String → Dict ℕ
put w p [] = p
put w p (t ∷ ts) = put w (insert t w p) ts

abbrev pub put_all : ℕ → Dict ℕ → List (List String) → Dict ℕ
put_all w p [] = p
put_all w p (l ∷ ls) = put_all (suc w) (put w p l) ls

-- Each is a task, and it had no position before.
abbrev pub Fresh : List String → ℕ → Dict ℕ → List String → Type 0
Fresh ids w p [] = Unit
Fresh ids w p (t ∷ ts) =
    (elem t ids ≡ true) × (is_placed t p ≡ false) × Fresh ids w (insert t w p) ts

abbrev pub AllFresh : List String → ℕ → Dict ℕ → List (List String) → Type 0
AllFresh ids w p [] = Unit
AllFresh ids w p (l ∷ ls) = Fresh ids w p l × AllFresh ids (suc w) (put w p l) ls

abbrev pub flat : List (List String) → List String
flat [] = []
flat (l ∷ ls) = l ++ flat ls

pub lookup-put :
    (d : String) (w : ℕ) (p : Dict ℕ) (ts : List String)
    → lookup d (put w p ts) ≡ (if elem d ts then some w else lookup d p)
lookup-put d w p [] = refl
lookup-put d w p (t ∷ ts) = ground (arith, lookup-put d w (insert t w p) ts, lookup-insert t d w p)

is_placed-insert :
    (d t : String) (w : ℕ) (p : Dict ℕ) → is_placed d (insert t w p) ≡ (t == d || is_placed d p)
unfolding is_placed
is_placed-insert d t w p = rw (is_placed, lookup-insert t d w p) (ground arith)

pub is_placed-put :
    (d : String) (w : ℕ) (p : Dict ℕ) (ts : List String)
    → is_placed d (put w p ts) ≡ (elem d ts || is_placed d p)
is_placed-put d w p [] = refl
is_placed-put d w p (t ∷ ts) =
    ground (arith, is_placed-put d w (insert t w p) ts, is_placed-insert d t w p)

pub is_placed-put_all :
    (d : String) (w : ℕ) (p : Dict ℕ) (ls : List (List String))
    → is_placed d (put_all w p ls) ≡ (elem d (flat ls) || is_placed d p)
is_placed-put_all d w p [] = refl
is_placed-put_all d w p (l ∷ ls) = ground (
  arith,
  is_placed-put_all d (suc w) (put w p l) ls,
  is_placed-put d w p l,
  elem-append d l (flat ls),
)

module _ (ids : List String) where
  pub Fresh-new :
      (d : String) (w : ℕ) (p : Dict ℕ) (ts : List String)
      → Fresh ids w p ts
      → elem d ts ≡ true
      → (is_placed d p ≡ false) × (elem d ids ≡ true)
  Fresh-new d w p [] f m = absurd (cc m)
  Fresh-new d w p (t ∷ ts) (known, new, f) m = elim (Bool-cases (t == d)) [
    | inl same ↦ let e : t ≡ d = (eq_iff t d).0 same in (cc, cc)
    | inr other ↦
        let (unmet, listed) = Fresh-new d w (insert t w p) ts f (rw other at m) in
        (ground (arith, unmet, is_placed-insert d t w p), listed)
  ]

  Fresh-Distinct : (w : ℕ) (p : Dict ℕ) (ts : List String) → Fresh ids w p ts → Distinct ts
  Fresh-Distinct w p [] f = tt
  Fresh-Distinct w p (t ∷ ts) (known, new, f) = (
    elim (Bool-cases (elem t ts)) [
      | inr e ↦ e
      | inl m ↦ absurd (
          ground
            (arith, (Fresh-new t w (insert t w p) ts f m).0, is_placed-insert t t w p, eq_iff t t))
    ],
    Fresh-Distinct w (insert t w p) ts f,
  )

  pub AllFresh-new :
      (d : String) (w : ℕ) (p : Dict ℕ) (ls : List (List String))
      → AllFresh ids w p ls
      → elem d (flat ls) ≡ true
      → (is_placed d p ≡ false) × (elem d ids ≡ true)
  AllFresh-new d w p [] f m = absurd (cc m)
  AllFresh-new d w p (l ∷ ls) f m = elim (Bool-cases (elem d l)) [
    | inl here ↦ Fresh-new d w p l f.0 here
    | inr later ↦
        let (new, known) =
          AllFresh-new d (suc w) (put w p l) ls f.1
            (ground (arith, elem-append d l (flat ls), m)) in
        (ground (arith, new, is_placed-put d w p l), known)
  ]

  pub AllFresh-Distinct :
      (w : ℕ) (p : Dict ℕ) (ls : List (List String)) → AllFresh ids w p ls → Distinct (flat ls)
  AllFresh-Distinct w p [] f = tt
  AllFresh-Distinct w p (l ∷ ls) f =
      append-Distinct l (flat ls) (Fresh-Distinct w p l f.0)
        (AllFresh-Distinct (suc w) (put w p l) ls f.1)
        (λ x m. elim (Bool-cases (elem x (flat ls))) [
          | inr e ↦ e
          | inl later ↦ absurd (
              ground (
                arith,
                (AllFresh-new x (suc w) (put w p l) ls f.1 later).0,
                is_placed-put x w p l,
                m,
              ))
        ])

  -- A position stays.
  pub lookup-put_all :
      (d : String) (j w : ℕ) (p : Dict ℕ) (ls : List (List String))
      → AllFresh ids w p ls
      → lookup d p ≡ some j
      → lookup d (put_all w p ls) ≡ some j
  unfolding is_placed
  lookup-put_all d j w p [] f h = h
  lookup-put_all d j w p (l ∷ ls) f h = elim (Bool-cases (elem d l)) [
    | inl here ↦ absurd (cc (rw (is_placed, h) at (Fresh-new d w p l f.0 here).0))
    | inr e ↦ lookup-put_all d j (suc w) (put w p l) ls f.1 (rw (lookup-put d w p l, e) h)
  ]

-- A position is of before, or of one of the waves.
pub lookup-put_all-origin :
    (d : String) (j w : ℕ) (p : Dict ℕ) (ls : List (List String))
    → lookup d (put_all w p ls) ≡ some j
    → (lookup d p ≡ some j) ⊎ (w ≤ j)
lookup-put_all-origin d j w p [] h = inl h
lookup-put_all-origin d j w p (l ∷ ls) h =
    elim (lookup-put_all-origin d j (suc w) (put w p l) ls h) [
      | inl e ↦ ground (arith, lookup-put d w p l, e)
      | inr le ↦ inr (omega arith)
    ]
