-- ===== src/Readiness/Worst.antt =====
-- scripts/production_readiness.py: what `aggregate_verdict` and `aggregate_readiness` say of the
-- dimensions.
use text.Mathlib.Text.{◌==◌}
use software_builder.Prelude.{
  ◌≤◌, String, Bool, true, false, not, ◌&&◌, Option, none, some, List, [], ◌∷◌, keep, length,
  is_empty, if◌then◌else◌, ◌≡◌, ◌↔◌, refl, ap, arith, Bool-cases, Option-cases, inl, inr, All, sym,
  subst, ◌∙◌,
}
use text.Mathlib.TextEquality.{eq_iff}
use software_builder.Prelude.Text.{elem}
use software_builder.Prelude.Dict.{lookup}
use software_builder.Readiness.{
  DimensionStatus, pass, conditional, fail, unknown, not_applicable, Dimension, default_evidence,
  needs_evidence, with_evidence, make_dimension, dimension_statuses, is_applicable, is_required,
  required_statuses, Verdict, not_ready, unresolved_verdict, conditional_verdict, ready,
  worst_status, aggregate_verdict, summarize_required_passes, derive_execution_status,
  is_unresolved, aggregate_readiness, tier_requires_strict_unknown,
}

-- The worse of two verdicts.
abbrev pub worse : Verdict → Verdict → Verdict
worse not_ready v = not_ready
worse unresolved_verdict not_ready = not_ready
worse unresolved_verdict v = unresolved_verdict
worse conditional_verdict ready = conditional_verdict
worse conditional_verdict v = v
worse ready v = v

-- What one dimension amounts to.
abbrev pub verdict_of : DimensionStatus → Verdict
verdict_of pass = ready
verdict_of conditional = conditional_verdict
verdict_of fail = not_ready
verdict_of unknown = unresolved_verdict
verdict_of not_applicable = ready

abbrev pub worst : List Dimension → Verdict
worst [] = ready
worst (d ∷ ds) =
    let rest = worst ds in
    if d.applicability == "NOT_APPLICABLE" then rest else worse (verdict_of d.status) rest

worst_status-cons :
    (s : DimensionStatus) (ss : List DimensionStatus)
    → worst_status (s ∷ ss) ≡ worse (verdict_of s) (worst_status ss)
unfolding worst_status
worst_status-cons pass ss = ground arith
worst_status-cons conditional ss = ground arith
worst_status-cons fail ss = ground arith
worst_status-cons unknown ss = ground arith
worst_status-cons not_applicable ss = ground arith

worst-cons :
    (d : Dimension) (ds : List Dimension)
    → worst (d ∷ ds) ≡ (if is_required d then worse (verdict_of d.status) (worst ds) else worst ds)
unfolding is_required is_applicable
worst-cons d ds = ground arith

-- The verdict is the worst of those that the dimensions in question amount to.
pub aggregate_verdict-worst : (dims : List Dimension) → aggregate_verdict dims ≡ worst dims
unfolding aggregate_verdict required_statuses worst_status
aggregate_verdict-worst [] = refl
aggregate_verdict-worst (d ∷ ds) = elim (Bool-cases (is_required d)) [
  | inl e ↦
      rw (aggregate_verdict, required_statuses, e)
        (worst_status-cons d.status (required_statuses ds)
          ∙ ap (worse (verdict_of d.status)) (aggregate_verdict-worst ds)
          ∙ sym (rw e at (worst-cons d ds)))
  | inr e ↦
      rw (aggregate_verdict, required_statuses, e)
        (aggregate_verdict-worst ds ∙ sym (rw e at (worst-cons d ds)))
]

passes_le :
    (dims : List Dimension) → summarize_required_passes dims ≤ length (keep is_required dims)
unfolding summarize_required_passes
passes_le [] = omega arith
passes_le (d ∷ ds) = ground (arith, passes_le ds)

worst-ready_iff :
    (dims : List Dimension)
    → (worst dims ≡ ready) ↔ (summarize_required_passes dims ≡ length (keep is_required dims))
unfolding summarize_required_passes is_required is_applicable
worst-ready_iff [] = ground arith
worst-ready_iff (d ∷ ds) = ground (arith, worst-ready_iff ds, passes_le ds)

-- The verdict is READY exactly where the count of the passes is that of the dimensions in question.
pub aggregate_verdict-ready_iff :
    (dims : List Dimension)
    → (aggregate_verdict dims ≡ ready)
      ↔ (summarize_required_passes dims ≡ length (keep is_required dims))
aggregate_verdict-ready_iff dims = rw (aggregate_verdict-worst dims) (worst-ready_iff dims)

-- A dimension as `Dimension(...)` leaves it.
abbrev pub Constructed : Dimension → Type 0
Constructed d =
    (name : String) × (status : String) × (applicability : String) × (evidence : Option String)
    × (make_dimension name status applicability evidence ≡ some d)

-- An unknown evidence only stands beside a failure or an unknown status.
abbrev Consistent : Dimension → Type 0
Consistent d = needs_evidence d.status && d.evidence_status == "UNKNOWN" ≡ false

moved : (c d : Dimension) → some c ≡ some d → Consistent c → Consistent d
moved c d h k = let same : c ≡ d = cc in subst (λ x. Consistent x) same k

with_evidence-Consistent :
    (name : String) (st : DimensionStatus) (applicability : String) (o : Option String)
    (d : Dimension)
    → with_evidence name st applicability o ≡ some d
    → Consistent d
unfolding with_evidence default_evidence needs_evidence
with_evidence-Consistent name pass applicability none d h = moved _ d h refl
with_evidence-Consistent name conditional applicability none d h = moved _ d h refl
with_evidence-Consistent name fail applicability none d h = moved _ d h refl
with_evidence-Consistent name unknown applicability none d h = moved _ d h refl
with_evidence-Consistent name not_applicable applicability none d h = moved _ d h refl
with_evidence-Consistent name st applicability (some e) d h =
    elim (Bool-cases (needs_evidence st && e == "UNKNOWN")) [
      | inl refused ↦ absurd (cc (rw (with_evidence, refused) at h))
      | inr clear ↦ moved _ d (rw (with_evidence, clear) at h) clear
    ]

Constructed-Consistent : (d : Dimension) → Constructed d → Consistent d
unfolding make_dimension
Constructed-Consistent d (name, status, applicability, o, h) =
    elim (Option-cases (lookup status dimension_statuses)) [
      | inl unread ↦ absurd (cc (rw (make_dimension, unread) at h))
      | inr (st, read) ↦
          with_evidence-Consistent name st applicability o d (rw (make_dimension, read) at h)
    ]

abbrev pub is_favourable : Verdict → Bool
is_favourable ready = true
is_favourable conditional_verdict = true
is_favourable _ = false

none_unresolved :
    (dims : List Dimension)
    → All Constructed dims
    → is_favourable (worst dims) ≡ true
    → keep is_unresolved (keep is_required dims) ≡ []
unfolding is_unresolved is_required is_applicable needs_evidence
none_unresolved [] a h = refl
none_unresolved (d ∷ ds) (made, rest) h =
    let here = Constructed-Consistent d made in ground (arith, here, none_unresolved ds rest)

some_unresolved :
    (dims : List Dimension)
    → worst dims ≡ unresolved_verdict
    → is_empty (keep is_unresolved (keep is_required dims)) ≡ false
unfolding is_unresolved is_required is_applicable
some_unresolved [] h = absurd (cc h)
some_unresolved (d ∷ ds) h = ground (arith, some_unresolved ds)

-- Of dimensions that `Dimension` has let pass, a verdict of READY or CONDITIONAL comes with the status
-- SUCCESS and observed evidence, and the verdict UNKNOWN with PARTIAL and unknown evidence.
pub aggregate_readiness-envelope :
    (dims : List Dimension)
    → All Constructed dims
    → (is_favourable (aggregate_verdict dims) ≡ true
        → ((aggregate_readiness dims).skill_result_status ≡ "SUCCESS")
          × ((aggregate_readiness dims).evidence_status ≡ "OBSERVED"))
      × (aggregate_verdict dims ≡ unresolved_verdict
          → ((aggregate_readiness dims).skill_result_status ≡ "PARTIAL")
            × ((aggregate_readiness dims).evidence_status ≡ "UNKNOWN"))
unfolding aggregate_readiness derive_execution_status
aggregate_readiness-envelope dims made = (
  λ h.
      let clean = none_unresolved dims made (rw (aggregate_verdict-worst dims) at h) in
      rw clean (refl, refl),
  λ h.
      let left = some_unresolved dims (rw (aggregate_verdict-worst dims) at h) in
      rw left (refl, refl),
)

-- Evidence of the caller alone is held to the strict rule at every criticality but tier2 and tier3,
-- one of no tier included.
pub strict_unknown :
    (criticality : String)
    → tier_requires_strict_unknown (some criticality)
      ≡ not (elem criticality ("tier2" ∷ "tier3" ∷ []))
unfolding tier_requires_strict_unknown
strict_unknown c = elim (Bool-cases ("tier2" == c)) [
  | inl e ↦ at_tier "tier2" c refl ((eq_iff "tier2" c).0 e)
  | inr a ↦ elim (Bool-cases ("tier3" == c)) [
    | inl e ↦ at_tier "tier3" c refl ((eq_iff "tier3" c).0 e)
    | inr b ↦ rw (tier_requires_strict_unknown, a, b) (ground arith)
  ]
]
  where
    at_tier :
        (t c : String)
        → tier_requires_strict_unknown (some t) ≡ not (elem t ("tier2" ∷ "tier3" ∷ []))
        → t ≡ c
        → tier_requires_strict_unknown (some c) ≡ not (elem c ("tier2" ∷ "tier3" ∷ []))
    at_tier t c h e =
        subst (λ x. tier_requires_strict_unknown (some x) ≡ not (elem x ("tier2" ∷ "tier3" ∷ []))) e
          h
