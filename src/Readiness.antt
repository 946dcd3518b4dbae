-- ===== src/Readiness.antt =====
-- scripts/production_readiness.py: the dimensions of an assessment, the verdict over them and its
-- envelope, with `derive_execution_status` of scripts/registry/skill_result.py. The waivers, which
-- the verdict does not read, are left out.
pub mod Worst
pub mod Release
mod Examples
use text.Mathlib.Text.{◌==◌}
use software_builder.Prelude.{
  ℕ, String, Bool, true, false, not, ◌&&◌, ◌||◌, Option, none, some, List, [], ◌∷◌, map, keep, any,
  count_if, is_empty, if◌then◌else◌,
}
use software_builder.Prelude.Dict.{Dict, lookup}
use software_builder.Prelude.Text.{elem}

pub data DimensionStatus : Type 0 where
  pass conditional fail unknown not_applicable : DimensionStatus

-- DIMENSION_STATUSES
unfoldable pub dimension_statuses : Dict DimensionStatus
dimension_statuses =
    ("PASS", pass)
    ∷ ("CONDITIONAL", conditional)
    ∷ ("FAIL", fail)
    ∷ ("UNKNOWN", unknown)
    ∷ ("NOT_APPLICABLE", not_applicable)
    ∷ []

pub record Dimension : Type 0 where
  pub name : String
  pub status : DimensionStatus
  pub applicability : String
  pub evidence_status : String

-- `__post_init__`, where None is the ValueError: the evidence of a status that was not given one.
unfoldable pub default_evidence : DimensionStatus → String
default_evidence unknown = "UNKNOWN"
default_evidence _ = "OBSERVED"

-- A status that an unknown evidence contradicts.
unfoldable pub needs_evidence : DimensionStatus → Bool
needs_evidence pass = true
needs_evidence conditional = true
needs_evidence not_applicable = true
needs_evidence _ = false

unfoldable pub with_evidence : String → DimensionStatus → String → Option String → Option Dimension
with_evidence name status applicability none = some record {
  name = name;
  status = status;
  applicability = applicability;
  evidence_status = default_evidence status;
}
with_evidence name status applicability (some evidence) =
    if needs_evidence status && evidence == "UNKNOWN"
    then none
    else some record {
      name = name;
      status = status;
      applicability = applicability;
      evidence_status = evidence;
    }

unfoldable pub make_dimension : String → String → String → Option String → Option Dimension
make_dimension name status applicability evidence = elim (lookup status dimension_statuses) [
  | none ↦ none
  | some st ↦ with_evidence name st applicability evidence
]

unfoldable pub is_applicable : DimensionStatus → Bool
is_applicable not_applicable = false
is_applicable _ = true

unfoldable pub is_required : Dimension → Bool
is_required d = not (d.applicability == "NOT_APPLICABLE") && is_applicable d.status

unfoldable pub required_statuses : List Dimension → List DimensionStatus
required_statuses dims = map (λ d. d.status) (keep is_required dims)

abbrev pub is_fail : DimensionStatus → Bool
is_fail fail = true
is_fail _ = false

abbrev pub is_unknown : DimensionStatus → Bool
is_unknown unknown = true
is_unknown _ = false

abbrev pub is_conditional : DimensionStatus → Bool
is_conditional conditional = true
is_conditional _ = false

abbrev pub is_pass : DimensionStatus → Bool
is_pass pass = true
is_pass _ = false

pub data Verdict : Type 0 where
  not_ready unresolved_verdict conditional_verdict ready : Verdict

unfoldable pub worst_status : List DimensionStatus → Verdict
worst_status statuses =
    if any is_fail statuses
    then not_ready
    else if any is_unknown statuses
    then unresolved_verdict
    else if any is_conditional statuses
    then conditional_verdict
    else ready

unfoldable pub aggregate_verdict : List Dimension → Verdict
aggregate_verdict dims = worst_status (required_statuses dims)

unfoldable pub summarize_required_passes : List Dimension → ℕ
summarize_required_passes dims = count_if (λ d. is_required d && is_pass d.status) dims

-- `(status, evidence_status)`, by the emptiness of the blockers and the unknowns.
unfoldable pub derive_execution_status : Bool → Bool → String × String
derive_execution_status blocked unresolved =
    if blocked
    then ("BLOCKED", "UNKNOWN")
    else if unresolved
    then ("PARTIAL", "UNKNOWN")
    else ("SUCCESS", "OBSERVED")

pub record ReadinessResult : Type 0 where
  pub verdict : Verdict
  pub skill_result_status : String
  pub evidence_status : String
  pub dimensions : List Dimension

unfoldable pub is_unresolved : Dimension → Bool
is_unresolved d = d.evidence_status == "UNKNOWN" || is_unknown d.status

unfoldable pub aggregate_readiness : List Dimension → ReadinessResult
aggregate_readiness dims =
    let unresolved = keep is_unresolved (keep is_required dims) in
    let status = derive_execution_status false (not (is_empty unresolved)) in
    record {
      verdict = aggregate_verdict dims;
      skill_result_status = status.0;
      evidence_status = status.1;
      dimensions = dims;
    }

-- A criticality that is no text is none.
unfoldable pub tier_requires_strict_unknown : Option String → Bool
tier_requires_strict_unknown none = true
tier_requires_strict_unknown (some criticality) =
    if not (elem criticality ("tier0" ∷ "tier1" ∷ "tier2" ∷ "tier3" ∷ "unknown" ∷ []))
    then true
    else elem criticality ("tier0" ∷ "tier1" ∷ "unknown" ∷ [])
