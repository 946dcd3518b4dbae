-- ===== src/Review/Examples.antt =====
-- A batch of three writes in which the head moves before the last, and the other policies at single
-- inputs.
use text.Mathlib.Text.{◌==◌}
use software_builder.Prelude.{
  ℕ, zero, suc, String, ◌≡◌, refl, true, false, none, some, List, [], ◌∷◌, any, if◌then◌else◌,
}
use software_builder.Review.Batch.{
  gitlab, is_ambiguous, execute_guarded_write_batch, write_from, stopped, record_write, Described,
  execute_guarded_write_batch-Described, revision_mismatch, fetched, sent,
}
use software_builder.Review.Bands.{
  Evidence, rank, apply_confidence_cap, orders, lowered, ceiling, apply_confidence_cap-rank,
}
use software_builder.Review.Severity.{
  highest_severity, recommendation_from_highest, request_changes, comment, approve, is_urgent,
  is_medium, recommendation-highest,
}

abbrev heads : ℕ → String
heads (suc (suc zero)) = "b2"
heads _ = "a1"

abbrev answers : ℕ → String → String
answers n write = if write == "w1" then "accepted" else "rejected"

abbrev writes : List String
writes = "w1" ∷ "w2" ∷ "w3" ∷ []

moved_head : execute_guarded_write_batch gitlab "a1" heads answers writes ≡ (
  fetched "a1" ∷ sent "w1" ∷ fetched "a1" ∷ sent "w2" ∷ fetched "b2" ∷ [],
  record {
    status = revision_mismatch;
    posted = "w1" ∷ [];
    uncertain = none;
    remaining = "w3" ∷ [];
    expected_head = "a1";
    observed_head = "b2";
  },
)
unfolding execute_guarded_write_batch write_from stopped record_write is_ambiguous
moved_head = refl

execute_guarded_write_batch-Described_example :
    Described gitlab "a1" heads answers
      (execute_guarded_write_batch gitlab "a1" heads answers writes)
      0
      []
      writes
execute_guarded_write_batch-Described_example =
    execute_guarded_write_batch-Described gitlab "a1" heads answers writes

abbrev assumed : Evidence
assumed = record {
  single_source = false;
  unresolved_contradiction = false;
  assumed_only = true;
  partial_report = false;
}

abbrev single : Evidence
single = record {
  single_source = true;
  unresolved_contradiction = false;
  assumed_only = false;
  partial_report = false;
}

abbrev raised : String → String
raised s = if s == "high" then "HIGH" else s

apply_confidence_cap-rank_example :
    orders (apply_confidence_cap raised single (some "high"))
    ≡ lowered (ceiling single) (rank raised (some "high"))
apply_confidence_cap-rank_example = apply_confidence_cap-rank raised single (some "high")

abbrev lowercase : String → String
lowercase s = if s == "High" then "high" else s

abbrev found : List String
found = "low" ∷ "High" ∷ "medium" ∷ []

recommendation-highest_example : recommendation_from_highest (highest_severity lowercase found) ≡ (
    if any (is_urgent lowercase) found
    then request_changes
    else if any (is_medium lowercase) found
    then comment
    else approve)
recommendation-highest_example = recommendation-highest lowercase found
