-- ===== src/RunLog/Budget/Active.antt =====
-- skills/loop-task-implementer/scripts/run_log.py, `_active_minutes`: the time is that of the union of
-- its intervals.
use software_builder.Prelude.{
  ℕ, zero, suc, ◌+◌, ◌≤◌, ◌≡◌, refl, ◌∙◌, ap, inl, inr, Bool, true, false, ◌&&◌, ◌||◌, List, [],
  ◌∷◌, ◌++◌, arith, All, leb, ltb, max_of, Bool-cases,
}
use software_builder.RunLog.{Record, is_completed, is_resumed}
use software_builder.RunLog.Budget.{
  Span, max_gap, gap_span, session_spans, spans_from, before, insert_span, sort_spans, active_time,
}
use software_builder.RunLog.Budget.Covered.{count, covered, Forward, Sorted, add_up-union}

insert_span-covered :
    (s : Span) (spans : List Span) (t : ℕ) → covered (insert_span s spans) t ≡ covered (s ∷ spans) t
unfolding insert_span
insert_span-covered s [] t = refl
insert_span-covered s (u ∷ spans) t = let rest = insert_span-covered s spans t in ground arith

sort_spans-covered : (spans : List Span) (t : ℕ) → covered (sort_spans spans) t ≡ covered spans t
unfolding sort_spans
sort_spans-covered [] t = refl
sort_spans-covered (s ∷ spans) t =
    insert_span-covered s (sort_spans spans) t
    ∙ ap (λ c. (leb s.first t && ltb t s.end) || c) (sort_spans-covered spans t)

insert_span-All :
    (P : Span → Type 0) (s : Span) (spans : List Span)
    → P s
    → All P spans
    → All P (insert_span s spans)
unfolding insert_span
insert_span-All P s [] h all = (h, tt)
insert_span-All P s (u ∷ spans) h all = elim (Bool-cases (before s u)) [
  | inl e ↦ rw e (h, all)
  | inr e ↦ rw e (all.0, insert_span-All P s spans h (all.1))
]

sort_spans-All : (P : Span → Type 0) (spans : List Span) → All P spans → All P (sort_spans spans)
unfolding sort_spans
sort_spans-All P [] all = tt
sort_spans-All P (s ∷ spans) all =
    insert_span-All P s (sort_spans spans) (all.0) (sort_spans-All P spans (all.1))

first_least :
    (b c : ℕ) (spans : List Span)
    → b ≤ c
    → All (λ s. c ≤ s.first) spans
    → All (λ s. b ≤ s.first) spans
first_least b c [] h all = tt
first_least b c (s ∷ spans) h all =
    (let here = all.0 in omega arith, first_least b c spans h (all.1))

before-first : (s u : Span) → before s u ≡ true → s.first ≤ u.first
unfolding before
before-first s u h = ground arith

after-first : (s u : Span) → before s u ≡ false → u.first ≤ s.first
unfolding before
after-first s u h = ground arith

insert_span-Sorted : (s : Span) (spans : List Span) → Sorted spans → Sorted (insert_span s spans)
unfolding insert_span
insert_span-Sorted s [] sorted = (tt, tt)
insert_span-Sorted s (u ∷ spans) sorted = elim (Bool-cases (before s u)) [
  | inl e ↦
      let le = before-first s u e in
      rw e ((le, first_least s.first u.first spans le (sorted.0)), sorted)
  | inr e ↦ rw e (
    insert_span-All (λ x. u.first ≤ x.first) s spans (after-first s u e) (sorted.0),
    insert_span-Sorted s spans (sorted.1),
  )
]

sort_spans-Sorted : (spans : List Span) → Sorted (sort_spans spans)
unfolding sort_spans
sort_spans-Sorted [] = tt
sort_spans-Sorted (s ∷ spans) = insert_span-Sorted s (sort_spans spans) (sort_spans-Sorted spans)

count-same : (n : ℕ) (p q : ℕ → Bool) → ((t : ℕ) → p t ≡ q t) → count n p ≡ count n q
count-same zero p q h = refl
count-same (suc n) p q h = let rest = count-same n p q h in let here = h n in ground arith

gap_span-Forward : (n start end : ℕ) → start + max_gap ≤ n → Forward n (gap_span start end)
unfolding gap_span
gap_span-Forward n start end h = ground arith

session_spans-Forward :
    (n origin : ℕ) (r : Record)
    → origin ≤ r.ts
    → r.ts ≤ n
    → All (Forward n) (session_spans origin r)
unfolding session_spans
session_spans-Forward n origin r h k = ground arith

All-append : (P : Span → Type 0) (xs ys : List Span) → All P xs → All P ys → All P (xs ++ ys)
All-append P [] ys h k = k
All-append P (x ∷ xs) ys h k = (h.0, All-append P xs ys (h.1) k)

spans_from-Forward :
    (n now origin : ℕ) (rs : List Record)
    → All (λ r. origin ≤ r.ts) rs
    → All (λ r. r.ts + max_gap ≤ n) rs
    → All (Forward n) (spans_from now origin rs)
unfolding spans_from
spans_from-Forward n now origin [] early late = tt
spans_from-Forward n now origin (r ∷ []) early late = elim (Bool-cases (is_completed r.event)) [
  | inl e ↦ rw e tt
  | inr e ↦ rw e (gap_span-Forward n r.ts (max_of now r.ts) (late.0), tt)
]
spans_from-Forward n now origin (r ∷ s ∷ rest) early late =
    let later = spans_from-Forward n now origin (s ∷ rest) (early.1) (late.1) in
    let within_bound : s.ts ≤ n = let bound = late.1.0 in omega arith in
    elim (Bool-cases (is_resumed s.event && is_completed r.event)) [
      | inl e ↦ rw e later
      | inr e ↦ rw e (
        gap_span-Forward n r.ts s.ts (late.0),
        All-append (Forward n) (session_spans origin s) (spans_from now origin (s ∷ rest))
            (session_spans-Forward n origin s (early.1.0) within_bound) later,
      )
    ]

-- For records none of which is earlier than the first, `_active_minutes` counts each instant once
-- that lies in one of the intervals of the records: `n` is any bound beyond every record's time and
-- the longest gap.
pub active_time-union :
    (now n : ℕ) (r : Record) (rs : List Record)
    → All (λ s. r.ts ≤ s.ts) (r ∷ rs)
    → All (λ s. s.ts + max_gap ≤ n) (r ∷ rs)
    → active_time now (r ∷ rs) ≡ count n (covered (spans_from now r.ts (r ∷ rs)))
unfolding active_time
active_time-union now n r rs early late =
    let spans = spans_from now r.ts (r ∷ rs) in
    let fwd =
      sort_spans-All (Forward n) spans (spans_from-Forward n now r.ts (r ∷ rs) early late) in
    add_up-union n (sort_spans spans) fwd (sort_spans-Sorted spans)
    ∙ count-same n (covered (sort_spans spans)) (covered spans) (sort_spans-covered spans)
