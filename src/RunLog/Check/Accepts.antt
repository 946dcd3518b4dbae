-- ===== src/RunLog/Check/Accepts.antt =====
-- skills/loop-task-implementer/scripts/run_log.py, `_full_check`: the logs it accepts, and what their
-- head says of them.
use software_builder.Prelude.{
  ℕ, String, ◌≡◌, refl, sym, ap, ◌∙◌, ◌≢◌, ◌↔◌, true, false, none, List, [], ◌∷◌, arith, map,
  is_empty, subst,
}
use software_builder.RunLog.{Body, Record}
use software_builder.RunLog.Check.{
  shaped, Raw, zero_hash, Progress, checked_lines, torn_errors, check_lines, full_check,
}
use software_builder.RunLog.Check.Chain.{
  Chained, last_hash, check_lines-errors, check_lines_sound, check_lines_complete,
}

module _ (record_hash : Body → String) (now_limit : ℕ) where
  -- A log that ends with a newline, and each record of which fits behind the ones before it.
  pub record Whole (raw : Raw) (rs : List Record) : Type 0 where
    pub ended : raw.fragment ≡ none
    pub shaped_lines : raw.lines ≡ map shaped rs
    pub nonempty : rs ≢ []
    pub chained : Chained record_hash now_limit 1 zero_hash none false rs

  abbrev start : Raw → Progress
  start raw = record {
    errors = torn_errors raw;
    records = [];
    head = zero_hash;
    prev_ts = none;
    completed = false;
  }

  is_empty_iff : {A : Type 0} (xs : List A) → (is_empty xs ≡ true) ↔ (xs ≡ [])
  is_empty_iff [] = (λ _. refl, λ _. refl)
  is_empty_iff (x ∷ xs) = (λ h. absurd (cc h), λ h. absurd (cc h))

  not_torn : (raw : Raw) → torn_errors raw ≡ [] → raw.fragment ≡ none
  unfolding torn_errors
  not_torn raw h = ground arith

  torn_errors-none : (raw : Raw) → raw.fragment ≡ none → torn_errors raw ≡ []
  unfolding torn_errors
  torn_errors-none raw h = ground arith

  checked_lines-ended : (raw : Raw) → raw.fragment ≡ none → checked_lines raw ≡ raw.lines
  unfolding checked_lines
  checked_lines-ended raw h = ground arith

  abbrev final : Raw → Progress
  final raw = check_lines record_hash now_limit 1 (start raw) (checked_lines raw)

  ok_iff :
      (raw : Raw)
      → ((full_check record_hash now_limit raw).ok ≡ true)
        ↔ (((final raw).errors ≡ []) × ((final raw).records ≢ []))
  unfolding full_check
  ok_iff raw = grind (arith, is_empty_iff (final raw).errors, is_empty_iff (final raw).records)

  pub full_check-Whole :
      (raw : Raw)
      → (full_check record_hash now_limit raw).ok ≡ true
      → Whole raw (full_check record_hash now_limit raw).records
  unfolding full_check
  full_check-Whole raw h =
      let (clean, nonempty) = (ok_iff raw).0 h in
      let accepted =
        check_lines_sound record_hash now_limit 1 (start raw) (checked_lines raw) clean in
      let ended =
        not_torn raw
          (check_lines-errors record_hash now_limit 1 (start raw) (checked_lines raw) clean) in
      record {
        ended = ended;
        shaped_lines =
            sym (checked_lines-ended raw ended)
            ∙ accepted.shaped_lines
            ∙ ap (map shaped) (sym accepted.kept);
        nonempty = nonempty;
        chained =
            subst (Chained record_hash now_limit 1 zero_hash none false) (sym accepted.kept)
              accepted.chained;
      }

  pub full_check-head :
      (raw : Raw)
      → (full_check record_hash now_limit raw).ok ≡ true
      → (full_check record_hash now_limit raw).head
        ≡ last_hash record_hash now_limit zero_hash (full_check record_hash now_limit raw).records
  unfolding full_check
  full_check-head raw h =
      let accepted =
        check_lines_sound record_hash now_limit 1 (start raw) (checked_lines raw)
          ((ok_iff raw).0 h).0 in
      accepted.last ∙ ap (last_hash record_hash now_limit zero_hash) (sym accepted.kept)

  pub Whole-ok :
      (raw : Raw) (rs : List Record)
      → Whole raw rs
      → ((full_check record_hash now_limit raw).ok ≡ true)
        × ((full_check record_hash now_limit raw).records ≡ rs)
  unfolding full_check
  Whole-ok raw rs w =
      let lines = checked_lines-ended raw w.ended ∙ w.shaped_lines in
      let torn : torn_errors raw ≡ [] = torn_errors-none raw w.ended in
      let (errors, records) =
        check_lines_complete record_hash now_limit 1 (start raw) rs torn w.chained in
      let e : (final raw).errors ≡ [] = rw lines errors in
      let r : (final raw).records ≡ rs = rw lines records in
      ((ok_iff raw).1 (e, λ none_kept. w.nonempty (sym r ∙ none_kept)), r)

  -- `_full_check` accepts a log exactly if the log ends with a newline and is a non-empty list of
  -- well-shaped records, each of which fits behind the ones before it: its number is its position,
  -- its `prev_hash` the hash of the record before (of the zero hash, for the first), its `hash` that
  -- of its contents, its time neither earlier than that of the record before nor beyond the limit,
  -- and its event allowed there.
  pub full_check_ok :
      (raw : Raw)
      → ((full_check record_hash now_limit raw).ok ≡ true) ↔ ((rs : List Record) × Whole raw rs)
  full_check_ok raw = (
    λ h. ((full_check record_hash now_limit raw).records, full_check-Whole raw h),
    λ w. (Whole-ok raw w.0 w.1).0,
  )
