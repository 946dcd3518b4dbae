-- ===== src/RunLog/Check/Examples.antt =====
-- The check of a log at a log of one record.
use mathlib.Core.List.Memᴰ
use mathlib.Core.List.{Memᴰ}
use software_builder.Prelude.{◌≡◌, ◌↔◌, refl, true, List, [], ◌∷◌, inl, inr}
use software_builder.RunLog.{Record, transition_error}
use software_builder.RunLog.Samples.{seal, first_record, one_record}
use software_builder.RunLog.Check.{
  goes_backwards, transition_problem, checked_lines, torn_errors, record_errors, check_record,
  check_line, check_lines, full_check,
}
use software_builder.RunLog.Check.Accepts.{Whole, full_check_ok}
use software_builder.RunLog.Check.Tamper.{Distinct, full_check-commits}

full_check_ok_example :
    ((full_check seal 1000 one_record).ok ≡ true)
    ↔ ((rs : List Record) × Whole seal 1000 one_record rs)
full_check_ok_example = full_check_ok seal 1000 one_record

one_record-runs :
    ((full_check seal 1000 one_record).ok ≡ true)
    × ((full_check seal 1000 one_record).records ≡ first_record ∷ [])
unfolding full_check check_lines check_line check_record record_errors torn_errors checked_lines
    goes_backwards transition_problem transition_error
one_record-runs = (refl, refl)

only_record : (r : Record) → Memᴰ r (full_check seal 1000 one_record).records → r ≡ first_record
only_record r m = elim (Memᴰ.cases_cons (rw (one_record-runs.1) at m)) [
  | inl e ↦ e
  | inr none_left ↦ absurd (Memᴰ.not-nil none_left)
]

one_record-Distinct :
    Distinct seal
      (full_check seal 1000 one_record).records
      (full_check seal 1000 one_record).records
one_record-Distinct = record {
  same_body = λ r s i j _. rw (only_record r i, only_record s j) refl;
  not_zero = λ r i. elim i [
    | inl j ↦ rw (only_record r j) (λ e. cc e)
    | inr j ↦ rw (only_record r j) (λ e. cc e)
  ];
}

full_check-commits_example :
    (full_check seal 1000 one_record).records ≡ (full_check seal 1000 one_record).records
full_check-commits_example =
    full_check-commits seal 1000 one_record one_record one_record-runs.0 one_record-runs.0
      one_record-Distinct refl
