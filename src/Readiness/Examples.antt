-- ===== src/Readiness/Examples.antt =====
-- The verdict over a dimension that passes, one on conditions and one that does not apply.
use software_builder.Prelude.{
  String, Option, ◌≡◌, ◌↔◌, refl, true, none, some, List, [], ◌∷◌, keep, length,
}
use software_builder.Prelude.Dict.{lookup}
use software_builder.Readiness.{
  Dimension, pass, conditional, not_applicable, make_dimension, with_evidence, needs_evidence,
  default_evidence, dimension_statuses, aggregate_verdict, aggregate_readiness, is_required,
  summarize_required_passes, unresolved_verdict, ready,
}
use software_builder.Readiness.Release.{
  cap_release_verdict, verdict_text, cap_release_verdict-ready_iff,
}
use software_builder.Readiness.Worst.{
  worst, is_favourable, aggregate_verdict-worst, aggregate_verdict-ready_iff,
  aggregate_readiness-envelope,
}

abbrev rollback : Dimension
rollback = record {
  name = "rollback";
  status = pass;
  applicability = "REQUIRED";
  evidence_status = "OBSERVED";
}

abbrev alerts : Dimension
alerts = record {
  name = "alerts";
  status = conditional;
  applicability = "REQUIRED";
  evidence_status = "OBSERVED";
}

abbrev capacity : Dimension
capacity = record {
  name = "capacity";
  status = not_applicable;
  applicability = "REQUIRED";
  evidence_status = "OBSERVED";
}

abbrev dims : List Dimension
dims = rollback ∷ alerts ∷ capacity ∷ []

aggregate_verdict-worst_example : aggregate_verdict dims ≡ worst dims
aggregate_verdict-worst_example = aggregate_verdict-worst dims

aggregate_verdict-ready_iff_example :
    (aggregate_verdict dims ≡ ready)
    ↔ (summarize_required_passes dims ≡ length (keep is_required dims))
aggregate_verdict-ready_iff_example = aggregate_verdict-ready_iff dims

rollback-made : make_dimension "rollback" "PASS" "REQUIRED" none ≡ some rollback
unfolding make_dimension with_evidence needs_evidence default_evidence dimension_statuses lookup
rollback-made = refl

alerts-made : make_dimension "alerts" "CONDITIONAL" "REQUIRED" (some "OBSERVED") ≡ some alerts
unfolding make_dimension with_evidence needs_evidence default_evidence dimension_statuses lookup
alerts-made = refl

capacity-made : make_dimension "capacity" "NOT_APPLICABLE" "REQUIRED" none ≡ some capacity
unfolding make_dimension with_evidence needs_evidence default_evidence dimension_statuses lookup
capacity-made = refl

refused : make_dimension "capacity" "NOT_APPLICABLE" "REQUIRED" (some "UNKNOWN") ≡ none
unfolding make_dimension with_evidence needs_evidence default_evidence dimension_statuses lookup
refused = refl

aggregate_readiness-envelope_example :
    (is_favourable (aggregate_verdict dims) ≡ true
      → ((aggregate_readiness dims).skill_result_status ≡ "SUCCESS")
        × ((aggregate_readiness dims).evidence_status ≡ "OBSERVED"))
    × (aggregate_verdict dims ≡ unresolved_verdict
        → ((aggregate_readiness dims).skill_result_status ≡ "PARTIAL")
          × ((aggregate_readiness dims).evidence_status ≡ "UNKNOWN"))
aggregate_readiness-envelope_example = aggregate_readiness-envelope dims (
  ("rollback", "PASS", "REQUIRED", none, rollback-made),
  (
    ("alerts", "CONDITIONAL", "REQUIRED", some "OBSERVED", alerts-made),
    (("capacity", "NOT_APPLICABLE", "REQUIRED", none, capacity-made), tt),
  ),
)

cap_release_verdict-ready_iff_example :
    (cap_release_verdict (some "READY") (some (verdict_text (aggregate_verdict dims))) ≡ "READY")
    ↔ ((◌≡◌ {A = Option String} (some "READY") (some "READY"))
        × (summarize_required_passes dims ≡ length (keep is_required dims)))
cap_release_verdict-ready_iff_example = cap_release_verdict-ready_iff (some "READY") dims
