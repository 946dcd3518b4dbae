-- ===== src/Resume/Order.antt =====
-- scripts/builder_resume.py, `decide`: the flags of its loop against a statement about the list of
-- commits, and what each answer means.
use text.Mathlib.TextEquality.{eq_iff}
use text.Mathlib.TextPositions.{eq_refl}
use software_builder.Prelude.{
  String, ◌≡◌, refl, ap, ◌≢◌, ◌↔◌, ◌⊎◌, inl, inr, true, false, Option, none, some, List, [], ◌∷◌,
  ◌++◌, arith, get_last?-append, All, Bool-cases, Option-cases,
}
use software_builder.Resume.{
  implementation_complete, tests_passing, is_checkpoint_marker, CommitInfo, continue_from, escalate,
  Scan, scan_start, scan_step, scan, conclude, decide,
}

-- Some commit carries `tests-passing`, and none before it `implementation-complete`.
pub record OutOfOrder (commits : List CommitInfo) : Type 0 where
  pub before : List CommitInfo
  pub passing : CommitInfo
  pub after : List CommitInfo
  pub split : commits ≡ before ++ passing ∷ after
  pub marker : passing.checkpoint_marker ≡ some tests_passing
  pub incomplete : All (λ c. c.checkpoint_marker ≢ some implementation_complete) before

module _ (s : Scan) (m : Option String) where
  step_order :
      (scan_step s m).out_of_order ≡ true
      → (s.out_of_order ≡ true)
        ⊎ (s.implementation_complete_seen ≡ false) × (m ≡ some tests_passing)
  unfolding scan_step is_checkpoint_marker
  step_order h = elim (Option-cases m) [
    | inl e ↦ ground arith
    | inr (marker, e) ↦
        ground (arith, eq_iff marker tests_passing, eq_iff marker implementation_complete)
  ]

  step_seen :
      (scan_step s m).implementation_complete_seen ≡ false
      ↔ ((s.implementation_complete_seen ≡ false) × (m ≢ some implementation_complete))
  unfolding scan_step is_checkpoint_marker
  step_seen = elim (Option-cases m) [
    | inl e ↦ ground arith
    | inr (marker, e) ↦
        ground (arith, eq_iff marker tests_passing, eq_iff marker implementation_complete)
  ]

  step_keeps : s.out_of_order ≡ true → (scan_step s m).out_of_order ≡ true
  unfolding scan_step
  step_keeps h = ground arith

  step_finds :
      s.implementation_complete_seen ≡ false
      → m ≡ some tests_passing
      → (scan_step s m).out_of_order ≡ true
  unfolding scan_step is_checkpoint_marker
  step_finds h e =
      ground (arith, eq_refl tests_passing, eq_iff tests_passing implementation_complete)

-- The loop raises its flag exactly at a list that is out of order, or where it began raised.
scan_order :
    (s : Scan) (commits : List CommitInfo)
    → (scan s commits).out_of_order ≡ true
    → (s.out_of_order ≡ true) ⊎ (s.implementation_complete_seen ≡ false) × OutOfOrder commits
unfolding scan
scan_order s [] h = inl h
scan_order s (c ∷ cs) h = elim (scan_order (scan_step s c.checkpoint_marker) cs h) [
  | inl raised ↦ elim (step_order s c.checkpoint_marker raised) [
    | inl old ↦ inl old
    | inr (unseen, e) ↦ inr (
      unseen,
      record { before = []; passing = c; after = cs; split = refl; marker = e; incomplete = tt },
    )
  ]
  | inr (unseen, bad) ↦
      let facts = (step_seen s c.checkpoint_marker).0 unseen in
      inr (
        facts.0,
        record {
          before = c ∷ bad.before;
          passing = bad.passing;
          after = bad.after;
          split = ap (λ l. c ∷ l) bad.split;
          marker = bad.marker;
          incomplete = (facts.1, bad.incomplete);
        },
      )
]

scan_keeps :
    (s : Scan) (commits : List CommitInfo)
    → s.out_of_order ≡ true
    → (scan s commits).out_of_order ≡ true
unfolding scan
scan_keeps s [] h = h
scan_keeps s (c ∷ cs) h =
    scan_keeps (scan_step s c.checkpoint_marker) cs (step_keeps s c.checkpoint_marker h)

scan_finds :
    (s : Scan) (before : List CommitInfo) (c : CommitInfo) (after : List CommitInfo)
    → s.implementation_complete_seen ≡ false
    → c.checkpoint_marker ≡ some tests_passing
    → All (λ d. d.checkpoint_marker ≢ some implementation_complete) before
    → (scan s (before ++ c ∷ after)).out_of_order ≡ true
unfolding scan
scan_finds s [] c after unseen e all =
    scan_keeps (scan_step s c.checkpoint_marker) after (step_finds s c.checkpoint_marker unseen e)
scan_finds s (b ∷ before) c after unseen e all =
    scan_finds (scan_step s b.checkpoint_marker) before c after
      ((step_seen s b.checkpoint_marker).1 (unseen, all.0)) e all.1

scan-start_iff :
    (commits : List CommitInfo)
    → ((scan scan_start commits).out_of_order ≡ true) ↔ OutOfOrder commits
scan-start_iff commits = (
  λ h. elim (scan_order scan_start commits h) [ inl e ↦ absurd (cc e) | inr (_, bad) ↦ bad ],
  λ bad.
      rw (bad.split)
        (scan_finds scan_start bad.before bad.passing bad.after refl bad.marker bad.incomplete),
)

module _ (s : Scan) (last : CommitInfo) where
  -- The answers of `conclude`, with the flags as variables.
  conclude_continues :
      ((conclude s last).action ≡ continue_from)
      ↔ ((s.out_of_order ≡ false) × (is_checkpoint_marker last.checkpoint_marker ≡ true))
  unfolding conclude
  conclude_continues = ground arith

  conclude_cases :
      let d = conclude s last in
      ((d.action ≡ continue_from)
        × (d.last_marker ≡ last.checkpoint_marker)
        × (d.resume_head ≡ some last.sha))
      ⊎ ((d.action ≡ escalate) × (d.last_marker ≡ none) × (d.resume_head ≡ none))
  unfolding conclude
  conclude_cases = ground arith

-- On a branch whose newest commit is `last`, `decide` answers CONTINUE_FROM exactly when the marker
-- of `last` is a recognized one and no `tests-passing` commit lacks an earlier
-- `implementation-complete` one.
pub decide_continues :
    (older : List CommitInfo) (last : CommitInfo) (base_revision : String)
    → ((decide (older ++ last ∷ []) base_revision).action ≡ continue_from)
      ↔ ((¬ OutOfOrder (older ++ last ∷ [])) × (is_checkpoint_marker last.checkpoint_marker ≡ true))
unfolding decide
decide_continues older last base_revision =
    let commits = older ++ last ∷ [] in
    let bad = scan-start_iff commits in
    let ends = conclude_continues (scan scan_start commits) last in
    rw (get_last?-append older last, decide)
      (
        λ h. (λ o. absurd (cc (bad.1 o, (ends.0 h).0)), (ends.0 h).1),
        λ h. ends.1 (
          elim (Bool-cases (scan scan_start commits).out_of_order) [
            | inl raised ↦ absurd (h.0 (bad.0 raised))
            | inr calm ↦ calm
          ],
          h.1,
        ),
      )

-- On a non-empty branch `decide` never answers FROM_SCRATCH: it names the newest commit and its
-- marker where it continues, and names neither where it escalates.
pub decide_names :
    (older : List CommitInfo) (last : CommitInfo) (base_revision : String)
    → let d = decide (older ++ last ∷ []) base_revision in
      ((d.action ≡ continue_from)
        × (d.last_marker ≡ last.checkpoint_marker)
        × (d.resume_head ≡ some last.sha))
      ⊎ ((d.action ≡ escalate) × (d.last_marker ≡ none) × (d.resume_head ≡ none))
unfolding decide
decide_names older last base_revision =
    rw (get_last?-append older last, decide)
      (conclude_cases (scan scan_start (older ++ last ∷ [])) last)
