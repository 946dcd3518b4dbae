-- ===== src/Review/Severity.antt =====
-- skills/pr-review/scripts/pr_review_policy_guards.py, `highest_severity`,
-- `recommendation_from_highest` and the gates. The argument `lower` is `str.lower`. The display label
-- of a recommendation is left out: it depends on the slug alone.
use text.Mathlib.Text.{◌==◌}
use software_builder.Prelude.{
  ℕ, String, Bool, true, false, not, ◌||◌, List, [], ◌∷◌, ◌≡◌, refl, arith, Bool-cases, inl, inr,
  if◌then◌else◌, ltb, leb, any,
}

pub data Recommendation : Type 0 where
  request_changes comment approve : Recommendation

-- `order.get(severity, 0)`
unfoldable pub severity_order : String → ℕ
severity_order s =
    if s == "critical"
    then 4
    else if s == "high"
    then 3
    else if s == "medium"
    then 2
    else if s == "low"
    then 1
    else 0

-- `max(severities, key=key)`: the first of the greatest.
unfoldable pub max_by : (String → ℕ) → String → List String → String
max_by key best [] = best
max_by key best (s ∷ ss) = max_by key (if ltb (key best) (key s) then s else best) ss

unfoldable pub highest_severity : (String → String) → List String → String
highest_severity lower [] = "none"
highest_severity lower (s ∷ ss) = lower (max_by (λ x. severity_order (lower x)) s ss)

unfoldable pub recommendation_from_highest : String → Recommendation
recommendation_from_highest highest =
    if highest == "critical" || highest == "high"
    then request_changes
    else if highest == "medium"
    then comment
    else approve

unfoldable pub should_suppress_at_guess_gate : Bool → Bool → Bool
should_suppress_at_guess_gate has_diff_anchor infers_unseen_callers =
    if not has_diff_anchor then true else infers_unseen_callers

unfoldable pub should_suppress_at_path_gate : Bool → Bool → Bool
should_suppress_at_path_gate has_realistic_path is_non_negotiable_observable =
    if is_non_negotiable_observable then false else not has_realistic_path

recommendation_of_order : ℕ → Recommendation
recommendation_of_order n =
    if leb 3 n then request_changes else if leb 2 n then comment else approve

recommendation-order :
    (s : String) → recommendation_from_highest s ≡ recommendation_of_order (severity_order s)
unfolding recommendation_from_highest recommendation_of_order severity_order
recommendation-order s = ground arith

max_by-any :
    (key : String → ℕ) (n : ℕ) (best : String) (ss : List String)
    → leb n (key (max_by key best ss)) ≡ any (λ s. leb n (key s)) (best ∷ ss)
unfolding max_by
max_by-any key n best [] = ground arith
max_by-any key n best (s ∷ ss) = elim (Bool-cases (ltb (key best) (key s))) [
  | inl more ↦ rw more (ground (arith, max_by-any key n s ss))
  | inr less ↦ rw less (ground (arith, max_by-any key n best ss))
]

module _ (lower : String → String) where
  abbrev pub is_urgent : String → Bool
  is_urgent s = lower s == "critical" || lower s == "high"

  abbrev pub is_medium : String → Bool
  is_medium s = lower s == "medium"

  any-urgent :
      (ss : List String) → any (λ s. leb 3 (severity_order (lower s))) ss ≡ any is_urgent ss
  unfolding severity_order
  any-urgent [] = refl
  any-urgent (s ∷ ss) = ground (arith, any-urgent ss)

  any-medium :
      (ss : List String)
      → any (λ s. leb 2 (severity_order (lower s))) ss ≡ (any is_urgent ss || any is_medium ss)
  unfolding severity_order
  any-medium [] = refl
  any-medium (s ∷ ss) = ground (arith, any-medium ss)

  -- A review asks for changes exactly where one of its severities is critical or high, in any letter
  -- case; else it comments where one is medium, and approves where none is.
  pub recommendation-highest :
      (severities : List String)
      → recommendation_from_highest (highest_severity lower severities) ≡ (
          if any is_urgent severities
          then request_changes
          else if any is_medium severities
          then comment
          else approve)
  unfolding highest_severity recommendation_of_order severity_order
  recommendation-highest [] = recommendation-order "none"
  recommendation-highest (s ∷ ss) = ground (
    arith,
    recommendation-order (highest_severity lower (s ∷ ss)),
    max_by-any (λ x. severity_order (lower x)) 3 s ss,
    any-urgent (s ∷ ss),
    max_by-any (λ x. severity_order (lower x)) 2 s ss,
    any-medium (s ∷ ss),
  )
