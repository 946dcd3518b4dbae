-- ===== src/Review.antt =====
-- skills/pr-review/scripts/pr_review_policy_guards.py: the policies of a review, with
-- docs/skill-framework/shared/confidence_bands.py. `str.lower` and `str.upper` are arguments, as are
-- the calls of the host, by their number.
pub mod Batch
pub mod Diff
pub mod Bands
pub mod Severity
mod Examples
