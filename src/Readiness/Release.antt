-- ===== src/Readiness/Release.antt =====
-- scripts/release_readiness_v2.py, `cap_release_verdict`: the verdict of a release under that of its
-- production readiness. A verdict that is no text is none.
use text.Mathlib.Text.{◌==◌}
use text.Mathlib.TextEquality.{eq_iff}
use software_builder.Prelude.{
  ℕ, String, false, Option, none, some, List, keep, length, leb, max_of, if◌then◌else◌, ◌≡◌, ◌↔◌,
  refl, sym, ◌∙◌, ap, arith, Bool-cases, inl, inr,
}
use software_builder.Readiness.{
  Verdict, not_ready, unresolved_verdict, conditional_verdict, ready, Dimension, is_required,
  aggregate_verdict, summarize_required_passes,
}
use software_builder.Readiness.Worst.{aggregate_verdict-ready_iff}

-- _VERDICT_SEVERITY, with none for what it does not hold.
unfoldable pub verdict_severity : String → Option ℕ
verdict_severity v =
    if v == "READY"
    then some 0
    else if v == "CONDITIONAL"
    then some 1
    else if v == "UNKNOWN"
    then some 2
    else if v == "NOT_READY"
    then some 3
    else none

unfoldable pub safe_verdict : Option String → String
safe_verdict none = "UNKNOWN"
safe_verdict (some value) = value

-- `if verdict not in _VERDICT_SEVERITY: verdict = "UNKNOWN"`, with the severity that is read below it.
unfoldable pub known_verdict : String → Option ℕ → String × ℕ
known_verdict v none = ("UNKNOWN", 2)
known_verdict v (some n) = (v, n)

unfoldable pub worse_verdict : String × ℕ → String × ℕ → String
worse_verdict current production = if leb production.1 current.1 then current.0 else production.0

unfoldable pub read_verdict : Option String → String × ℕ
read_verdict value = known_verdict (safe_verdict value) (verdict_severity (safe_verdict value))

unfoldable pub cap_release_verdict : Option String → Option String → String
cap_release_verdict current production =
    worse_verdict (read_verdict current) (read_verdict production)

-- The values of `verdict` that `aggregate_verdict` returns.
unfoldable pub verdict_text : Verdict → String
verdict_text ready = "READY"
verdict_text conditional_verdict = "CONDITIONAL"
verdict_text unresolved_verdict = "UNKNOWN"
verdict_text not_ready = "NOT_READY"

known-severity :
    (v : String) (o : Option ℕ)
    → verdict_severity v ≡ o
    → verdict_severity (known_verdict v o).0 ≡ some (known_verdict v o).1
unfolding known_verdict verdict_severity
known-severity v none h = refl
known-severity v (some n) h = h

read-severity :
    (value : Option String) → verdict_severity (read_verdict value).0 ≡ some (read_verdict value).1
unfolding read_verdict
read-severity value = known-severity (safe_verdict value) _ refl

-- The severity of a capped verdict is the greater of the two, where a value that is no verdict counts as
-- UNKNOWN.
pub cap_release_verdict-severity :
    (current production : Option String)
    → verdict_severity (cap_release_verdict current production)
      ≡ some (max_of (read_verdict current).1 (read_verdict production).1)
unfolding cap_release_verdict worse_verdict
cap_release_verdict-severity current production =
    ground (arith, read-severity current, read-severity production)

none-severe : (v : String) → verdict_severity v ≡ some 0 → v ≡ "READY"
unfolding verdict_severity
none-severe v h = elim (Bool-cases (v == "READY")) [
  | inl e ↦ (eq_iff v "READY").0 e
  | inr e ↦ absurd (ground arith)
]

capped-ready :
    (current production : Option String)
    → cap_release_verdict current production ≡ "READY"
    → ((read_verdict current).1 ≡ 0) × ((read_verdict production).1 ≡ 0)
unfolding verdict_severity
capped-ready current production h =
    let zero_max : some 0 ≡ some (max_of (read_verdict current).1 (read_verdict production).1) =
      sym (ap verdict_severity h) ∙ cap_release_verdict-severity current production in
    ground arith

known-zero : (v : String) (o : Option ℕ) → (known_verdict v o).1 ≡ 0 → o ≡ some 0
unfolding known_verdict
known-zero v none h = absurd (omega arith)
known-zero v (some n) h = cc h

read-ready : (value : Option String) → (read_verdict value).1 ≡ 0 → value ≡ some "READY"
unfolding read_verdict safe_verdict known_verdict verdict_severity
read-ready none h = absurd (omega arith)
read-ready (some v) h = ap some (none-severe v (known-zero v (verdict_severity v) h))

other_text : (s : String) → some s ≡ some "READY" → s == "READY" ≡ false → ⊥
other_text s h e = let same : s ≡ "READY" = cc in cc ((eq_iff s "READY").1 same, e)

text-ready_iff : (v : Verdict) → (some (verdict_text v) ≡ some "READY") ↔ (v ≡ ready)
unfolding verdict_text
text-ready_iff ready = (λ _. refl, λ _. refl)
text-ready_iff conditional_verdict =
    (λ h. absurd (other_text "CONDITIONAL" h refl), λ h. absurd (cc h))
text-ready_iff unresolved_verdict = (λ h. absurd (other_text "UNKNOWN" h refl), λ h. absurd (cc h))
text-ready_iff not_ready = (λ h. absurd (other_text "NOT_READY" h refl), λ h. absurd (cc h))

both_ready : cap_release_verdict (some "READY") (some "READY") ≡ "READY"
unfolding cap_release_verdict worse_verdict read_verdict known_verdict safe_verdict verdict_severity
both_ready = refl

-- Under the verdict of the dimensions of production, a release is READY exactly where it was READY
-- and all the dimensions in question pass.
pub cap_release_verdict-ready_iff :
    (current : Option String) (dims : List Dimension)
    → (cap_release_verdict current (some (verdict_text (aggregate_verdict dims))) ≡ "READY") ↔ (
        (current ≡ some "READY")
        × (summarize_required_passes dims ≡ length (keep is_required dims)))
cap_release_verdict-ready_iff current dims = (
  λ h.
      let (c, p) = capped-ready current _ h in
      let passes = (text-ready_iff (aggregate_verdict dims)).0 (read-ready _ p) in
      (read-ready current c, (aggregate_verdict-ready_iff dims).0 passes),
  λ (c, passes).
      let p =
        (text-ready_iff (aggregate_verdict dims)).1 ((aggregate_verdict-ready_iff dims).1 passes) in
      rw (c, p) both_ready,
)
