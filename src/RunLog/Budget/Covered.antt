-- ===== src/RunLog/Budget/Covered.antt =====
-- skills/loop-task-implementer/scripts/run_log.py, `_active_minutes`: the loop over sorted intervals
-- measures their union.
use software_builder.Prelude.{
  ℕ, zero, suc, ◌+◌, ◌-◌, ◌≤◌, ◌<◌, ◌≡◌, refl, sym, inl, inr, Bool, true, false, ◌&&◌, ◌||◌, none,
  some, List, [], ◌∷◌, arith, All, leb, ltb, if◌then◌else◌, Bool-cases,
}
use software_builder.RunLog.Budget.{Span, add_up}

-- The instants below `n` at which the test holds.
abbrev pub count : ℕ → (ℕ → Bool) → ℕ
count zero p = 0
count (suc n) p = (if p n then 1 else 0) + count n p

abbrev pub covered : List Span → ℕ → Bool
covered [] t = false
covered (s ∷ spans) t = (leb s.first t && ltb t s.end) || covered spans t

abbrev within : ℕ → ℕ → ℕ → Bool
within a b t = leb a t && ltb t b

count-within : (n a b : ℕ) → count n (within a b) ≡ (if ltb b n then b else n) - a
count-within zero a b = ground arith
count-within (suc n) a b = let rest = count-within n a b in ground arith

count-add :
    (n : ℕ) (p q r : ℕ → Bool)
    → ((t : ℕ) → (if p t then 1 else 0) ≡ (if q t then 1 else 0) + (if r t then 1 else 0))
    → count n p ≡ count n q + count n r
count-add zero p q r h = omega arith
count-add (suc n) p q r h = let rest = count-add n p q r h in let here = h n in omega arith

abbrev pub Forward : ℕ → Span → Type 0
Forward n s = (s.first ≤ s.end) × (s.end ≤ n)

-- Each begins no later than those behind it.
abbrev pub Sorted : List Span → Type 0
Sorted [] = Unit
Sorted (s ∷ spans) = All (λ t. s.first ≤ t.first) spans × Sorted spans

not_covered :
    (b t : ℕ) (spans : List Span) → All (λ s. b ≤ s.first) spans → t < b → covered spans t ≡ false
not_covered b t [] h k = refl
not_covered b t (s ∷ spans) h k =
    let rest = not_covered b t spans (h.1) k in let here = h.0 in ground arith

abbrev one_if : Bool → ℕ
one_if b = if b then 1 else 0

apart_at :
    (reach a e t : ℕ) (c : Bool)
    → reach < a
    → a ≤ e
    → (t < a → c ≡ false)
    → one_if (leb reach t && ((leb a t && ltb t e) || c))
      ≡ one_if (leb a t && ltb t e) + one_if (leb e t && c)
apart_at reach a e t true h k only = ground arith
apart_at reach a e t false h k only = ground arith

first_at :
    (a e t : ℕ) (c : Bool)
    → a ≤ e
    → (t < a → c ≡ false)
    → one_if ((leb a t && ltb t e) || c) ≡ one_if (leb a t && ltb t e) + one_if (leb e t && c)
first_at a e t true k only = ground arith
first_at a e t false k only = ground arith

longer_at :
    (reach a e t : ℕ) (c : Bool)
    → a ≤ reach
    → reach < e
    → one_if (leb reach t && ((leb a t && ltb t e) || c))
      ≡ one_if (leb reach t && ltb t e) + one_if (leb e t && c)
longer_at reach a e t true h k = ground arith
longer_at reach a e t false h k = ground arith

inside_at :
    (reach a e t : ℕ) (c : Bool)
    → e ≤ reach
    → one_if (leb reach t && ((leb a t && ltb t e) || c)) ≡ 0 + one_if (leb reach t && c)
inside_at reach a e t true h = ground arith
inside_at reach a e t false h = ground arith

count-none : (n : ℕ) → count n (λ t. false) ≡ 0
count-none zero = refl
count-none (suc n) = let rest = count-none n in omega arith

count_nothing : (n : ℕ) (p : ℕ → Bool) → ((t : ℕ) → p t ≡ false) → count n p ≡ 0
count_nothing zero p h = refl
count_nothing (suc n) p h = let rest = count_nothing n p h in let here = h n in ground arith

add_up-covered :
    (n reach total : ℕ) (spans : List Span)
    → All (Forward n) spans
    → Sorted spans
    → add_up (some reach) total spans ≡ total + count n (λ t. leb reach t && covered spans t)
unfolding add_up
add_up-covered n reach total [] fwd sorted =
    let none_left = count_nothing n (λ t. leb reach t && false) (λ t. ground arith) in omega arith
add_up-covered n reach total (s ∷ spans) fwd sorted =
    let (earliest, rest_sorted) = sorted in
    let ((b_e, e_n), rest_fwd) = fwd in
    elim (Bool-cases (ltb reach s.first)) [
      | inl apart ↦
          let rest =
            add_up-covered n s.end (total + (s.end - s.first)) spans rest_fwd rest_sorted in
          let parts =
            count-add n (λ t. leb reach t && covered (s ∷ spans) t) (within s.first s.end)
              (λ t. leb s.end t && covered spans t)
              (λ t.
                apart_at reach s.first s.end t (covered spans t) (ground arith) b_e
                  (not_covered s.first t spans earliest)) in
          let span = count-within n s.first s.end in rw apart (ground arith)
      | inr near ↦ elim (Bool-cases (ltb reach s.end)) [
        | inl longer ↦
            let rest =
              add_up-covered n s.end (total + (s.end - reach)) spans rest_fwd rest_sorted in
            let parts =
              count-add n (λ t. leb reach t && covered (s ∷ spans) t) (within reach s.end)
                (λ t. leb s.end t && covered spans t)
                (λ t.
                  longer_at reach s.first s.end t (covered spans t) (ground arith)
                    (ground arith)) in
            let span = count-within n reach s.end in rw (near, longer) (ground arith)
        | inr inside ↦
            let rest = add_up-covered n reach total spans rest_fwd rest_sorted in
            let parts =
              count-add n (λ t. leb reach t && covered (s ∷ spans) t) (λ t. false)
                (λ t. leb reach t && covered spans t)
                (λ t. inside_at reach s.first s.end t (covered spans t) (ground arith)) in
            let nothing = count-none n in rw (near, inside) (omega arith)
      ]
    ]

-- The loop over sorted intervals counts the instants that one of them covers.
pub add_up-union :
    (n : ℕ) (spans : List Span)
    → All (Forward n) spans
    → Sorted spans
    → add_up none 0 spans ≡ count n (covered spans)
unfolding add_up
add_up-union n [] fwd sorted = sym (count_nothing n (λ t. false) (λ t. refl))
add_up-union n (s ∷ spans) ((b_e, e_n), rest_fwd) (earliest, rest_sorted) =
    let rest = add_up-covered n s.end (0 + (s.end - s.first)) spans rest_fwd rest_sorted in
    let parts =
      count-add n (covered (s ∷ spans)) (within s.first s.end) (λ t. leb s.end t && covered spans t)
        (λ t.
          first_at s.first s.end t (covered spans t) b_e (not_covered s.first t spans earliest)) in
    let span = count-within n s.first s.end in ground arith
