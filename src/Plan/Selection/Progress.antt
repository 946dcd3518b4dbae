-- ===== src/Plan/Selection/Progress.antt =====
-- scripts/implementation_plan.py, `select_next_task`: a plan in which every task is complete or waits
-- has a task to go on with.
use text.Mathlib.Text.{◌==◌}
use text.Mathlib.TextEquality.{eq_iff}
use software_builder.Prelude.{
  String, ◌≡◌, ◌≢◌, inl, inr, ◌⊎◌, true, ◌++◌, some, List, [], ◌∷◌, arith, All, Bool-cases, subst,
}
use software_builder.Prelude.Dict.{Dict, lookup}
use software_builder.Prelude.Text.{elem}
use software_builder.Plan.Selection.{TaskStatus, pending, complete, blocked, Task, first_eligible}
use software_builder.Plan.Selection.Earliest.{Eligible, FirstOf, Earliest, first_eligible_iff}
use software_builder.Plan.Waves.Placed.{elem-append, flat}

module _ (tasks : Dict Task) (statuses : Dict TaskStatus) where
  -- The tasks of a layer are complete or wait, and depend on what is done.
  abbrev pub Open : List String → String → Type 0
  Open done id =
      (t : Task) × (lookup id tasks ≡ some t)
      × All (λ d. elem d done ≡ true) t.dependencies
      × ((lookup id statuses ≡ some complete) ⊎ (lookup id statuses ≡ some pending))

  abbrev pub OpenWaves : List String → List (List String) → Type 0
  OpenWaves done [] = Unit
  OpenWaves done (wave ∷ waves) = All (Open done) wave × OpenWaves (wave ++ done) waves

  abbrev Done : List String → Type 0
  Done done = (d : String) → elem d done ≡ true → lookup d statuses ≡ some complete

  dependencies_complete :
      (done ds : List String)
      → Done done
      → All (λ d. elem d done ≡ true) ds
      → All (λ d. lookup d statuses ≡ some complete) ds
  dependencies_complete done [] h a = tt
  dependencies_complete done (d ∷ ds) h (first, rest) =
      (h d first, dependencies_complete done ds h rest)

  -- A wave has a first eligible task, or all of it is complete.
  wave-first :
      (done wave : List String)
      → Done done
      → All (Open done) wave
      → ((t : Task) × FirstOf tasks statuses wave t)
        ⊎ (((s : Task) → ¬ (FirstOf tasks statuses wave s))
            × All (λ id. lookup id statuses ≡ some complete) wave)
  wave-first done [] h a = inr (λ s f. f, tt)
  wave-first done (id ∷ wave) h ((t, known, ready, inr waits), rest) = inl (
    t,
    inl record {
      known = known;
      waiting = waits;
      unblocked = dependencies_complete done t.dependencies h ready;
    },
  )
  wave-first done (id ∷ wave) h ((t, known, ready, inl finished), rest) =
      let passed : (s : Task) → ¬ (Eligible tasks statuses id s) =
        λ s e. cc (finished, e.waiting) in
      elim (wave-first done wave h rest) [
        | inl (s, f) ↦ inl (s, inr (passed, f))
        | inr (unmet, over) ↦ inr (
          λ s f. elim f [ inl e ↦ passed s e | inr (_, later) ↦ unmet s later ],
          (finished, over),
        )
      ]

  -- Where every task of the waves is complete or waits, and depends on tasks of earlier waves alone,
  -- the selection has a task as long as one of them waits.
  pub first_eligible-progress :
      (waves : List (List String)) (id : String)
      → OpenWaves [] waves
      → elem id (flat waves) ≡ true
      → lookup id statuses ≡ some pending
      → (t : Task) × (first_eligible tasks statuses waves ≡ some t)
  first_eligible-progress waves id open_waves m waits =
      let (t, e) = earliest waves [] (λ d n. absurd (cc n)) open_waves m in
      (t, (first_eligible_iff tasks statuses waves t).1 e)
    where
      over-mem :
          (wave : List String)
          → All (λ d. lookup d statuses ≡ some complete) wave
          → (d : String) → elem d wave ≡ true
          → lookup d statuses ≡ some complete
      over-mem [] a d n = absurd (cc n)
      over-mem (x ∷ wave) (first, rest) d n = elim (Bool-cases (x == d)) [
        | inl same ↦ subst (λ y. lookup y statuses ≡ some complete) ((eq_iff x d).0 same) first
        | inr other ↦ over-mem wave rest d (rw other at n)
      ]

      unblocked :
          (wave : List String)
          → All (λ d. lookup d statuses ≡ some complete) wave
          → All (λ d. lookup d statuses ≢ some blocked) wave
      unblocked [] a = tt
      unblocked (x ∷ wave) (first, rest) = (λ e. absurd (cc (first, e)), unblocked wave rest)

      earliest :
          (waves : List (List String)) (done : List String)
          → Done done
          → OpenWaves done waves
          → elem id (flat waves) ≡ true
          → (t : Task) × Earliest tasks statuses waves t
      earliest [] done h a m = absurd (cc m)
      earliest (wave ∷ waves) done h (here, later) m = elim (wave-first done wave h here) [
        | inl (t, f) ↦ (t, inl f)
        | inr (unmet, over) ↦ elim (Bool-cases (elem id wave)) [
          | inl inside ↦ absurd (cc (over-mem wave over id inside, waits))
          | inr outside ↦
              let (t, e) =
                earliest waves (wave ++ done)
                  (λ d n. elim (Bool-cases (elem d wave)) [
                    | inl inside ↦ over-mem wave over d inside
                    | inr away ↦ h d (ground (arith, elem-append d wave done))
                  ])
                  later (ground (arith, elem-append id wave (flat waves))) in
              (t, inr (unmet, unblocked wave over, e))
        ]
      ]
