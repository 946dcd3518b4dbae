-- ===== src/Plan/Graph/Sound.antt =====
-- scripts/implementation_plan.py, `validate_implementation_plan`: a plan without a message has a
-- schedule.
use mathlib.Core.List.Memᴰ
use mathlib.Core.List.{Memᴰ}
use software_builder.Prelude.{
  ℕ, String, Bool, true, false, none, some, List, [], ◌++◌, ◌≡◌, sym, subst, refl, ap, ◌∙◌, inl,
  inr, arith, Bool-cases, Option-cases, ◌&&◌, is_empty,
}
use software_builder.Prelude.Dict.{Dict, lookup}
use software_builder.Prelude.Text.{elem}
use software_builder.Prelude.Json.{Json, as_list}
use software_builder.Plan.Cycle.{dependencies, graph_has_cycle}
use software_builder.Plan.Cycle.Paths.{Edge, Plus, one, more}
use software_builder.Plan.Cycle.Correct.{graph_has_cycle_iff}
use software_builder.Prelude.Members.{elem_iff}
use software_builder.Plan.Reports.{ready_without_tasks, report_if}
use software_builder.Plan.Waves.{
  TaskIndex, read_tasks, structure_errors, wave_errors, place_waves, is_placed, absent_errors,
  late_errors, graph_errors, Placing,
}
use software_builder.Plan.Waves.Placed.{
  flat, put_all, AllFresh-new, AllFresh-Distinct, is_placed-put_all, AllFresh,
}
use software_builder.Plan.Waves.Clean.{append-nil, layers, place_waves-clean}
use software_builder.Plan.Waves.Layered.{
  graph_errors-known, known_graph-same, late_errors-OnTime, absent_errors-nil, AllFresh-Layered,
}
use software_builder.Plan.Graph.{no_tasks, check_tasks, check_waves, validate_graph}
use software_builder.Plan.Graph.Schedule.{Schedule, Indexed, read_tasks-Indexed}

no_edge : (t d : String) → Edge [] t d → Memᴰ d []
unfolding dependencies lookup
no_edge t d m = m

no_tasks-Indexed : Indexed no_tasks
no_tasks-Indexed = record { distinct = tt; keyed = λ t d m. absurd (Memᴰ.not-nil (no_edge t d m)) }

tasks-clean :
    (ready : Bool) (tasks : Json) (ts : List Json) (s : TaskIndex)
    → as_list tasks ≡ some ts
    → check_tasks ready tasks ≡ some s
    → s.errors ≡ []
    → (r : TaskIndex) × (read_tasks 0 ready ts no_tasks ≡ some r)
      × (structure_errors r ≡ [])
      × (r.errors ≡ [])
      × (r.ids ≡ s.ids)
      × (r.depends ≡ s.depends)
unfolding check_tasks
tasks-clean ready tasks ts s listed h clean = elim (Option-cases (read_tasks 0 ready ts no_tasks)) [
  | inl raised ↦ absurd (cc (rw (check_tasks, listed, raised) at h))
  | inr (r, read) ↦
      let same : record r {
        errors =
            structure_errors r
            ++ (r.errors ++ report_if (ready && is_empty ts) ready_without_tasks);
      }
          ≡ s =
        cc (rw (check_tasks, listed, read) at h) in
      let (structure, rest) =
        append-nil (structure_errors r) _ (subst (λ x. x.errors ≡ []) (sym same) clean) in
      (
        r,
        read,
        structure,
        (append-nil r.errors _ rest).0,
        ap (λ x. x.ids) same,
        ap (λ x. x.depends) same,
      )
]

structure-acyclic :
    (s : TaskIndex)
    → Indexed s
    → structure_errors s ≡ []
    → ((t d : String) → Edge s.depends t d → elem d s.ids ≡ true)
      × ((t : String) → ¬ (Plus s.depends t t))
unfolding structure_errors
structure-acyclic s indexed h =
    let (known, quiet) = append-nil (graph_errors s.ids s.depends) _ h in
    (
      graph_errors-known s.ids s.depends known,
      λ t loop.
          let found : graph_has_cycle s.depends s.ids ≡ true =
            (graph_has_cycle_iff s.depends s.ids).1
              (t, t, (elem_iff t s.ids).0 (starts t loop), inl refl, loop) in
          absurd (cc (rw (known_graph-same s.ids s.depends known, found) at quiet)),
    )
  where
    starts : (t : String) → Plus s.depends t t → elem t s.ids ≡ true
    starts t (one e) = indexed.keyed t _ e
    starts t (more e p) = indexed.keyed t _ e

abbrev nothing_placed : Placing
nothing_placed = record { errors = []; positions = [] }

absent_lookup : (t : String) → lookup {V = ℕ} t [] ≡ none
unfolding lookup
absent_lookup t = refl

absent-none : (t : String) → is_placed t [] ≡ false
unfolding is_placed lookup
absent-none t = refl

module _ (s : TaskIndex) (ws : List Json) where
  abbrev final : Dict ℕ
  final = put_all 0 [] (layers ws)

  wave_errors-clean :
      wave_errors s ws ≡ []
      → AllFresh s.ids 0 [] (layers ws)
        × (absent_errors final s.ids ≡ [])
        × (late_errors final s.depends ≡ [])
  unfolding wave_errors
  wave_errors-clean h =
      let (quiet, rest) = append-nil (place_waves s.ids 0 ws nothing_placed).errors _ h in
      let (_, fresh, same) = place_waves-clean s.ids 0 ws nothing_placed quiet in
      let (absent, late) =
        append-nil (absent_errors (place_waves s.ids 0 ws nothing_placed).positions s.ids) _ rest in
      (
        fresh,
        subst (λ p. absent_errors p s.ids ≡ []) same absent,
        subst (λ p. late_errors p s.depends ≡ []) same late,
      )

  waves-Schedule :
      Indexed s → structure_errors s ≡ [] → wave_errors s ws ≡ [] → Schedule s (layers ws)
  waves-Schedule indexed structure quiet =
      let (known, acyclic) = structure-acyclic s indexed structure in
      let (fresh, absent, late) = wave_errors-clean quiet in
      let present = absent_errors-nil final s.ids absent in
      record {
        distinct = indexed.distinct;
        known = known;
        acyclic = acyclic;
        once = AllFresh-Distinct s.ids 0 [] (layers ws) fresh;
        placed = λ t. elim (Bool-cases (elem t (flat (layers ws)))) [
          | inl here ↦ here ∙ sym (AllFresh-new s.ids t 0 [] (layers ws) fresh here).1
          | inr away ↦ elim (Bool-cases (elem t s.ids)) [
            | inr e ↦ away ∙ sym e
            | inl e ↦
                absurd
                  (ground (arith, is_placed-put_all t 0 [] (layers ws), present t e, absent-none t))
          ]
        ];
        layered =
            AllFresh-Layered s.ids s.depends 0 [] (layers ws) [] fresh
              (λ d j e. absurd (cc (e, absent_lookup d))) (λ t d edge. present d (known t d edge))
              (late_errors-OnTime final s.depends late);
      }

wave_errors-same :
    (r s : TaskIndex) (ws : List Json)
    → r.ids ≡ s.ids
    → r.depends ≡ s.depends
    → wave_errors r ws ≡ wave_errors s ws
unfolding wave_errors
wave_errors-same r s ws i d = rw (wave_errors, i, d) refl

-- Where the part of the validator on `tasks` and `execution_waves` finds nothing in two lists, the
-- tasks have different names, depend on tasks only and on none of them in a cycle, and the waves hold
-- each task once, behind what it depends on.
pub validate_graph-Schedule :
    (ready : Bool) (tasks waves : Json) (ts ws : List Json)
    → as_list tasks ≡ some ts
    → as_list waves ≡ some ws
    → validate_graph ready tasks waves ≡ some []
    → (s : TaskIndex) × (read_tasks 0 ready ts no_tasks ≡ some s) × Schedule s (layers ws)
unfolding validate_graph check_waves
validate_graph-Schedule ready tasks waves ts ws listed waves_listed h =
    elim (Option-cases (check_tasks ready tasks)) [
      | inl raised ↦ absurd (cc (rw (validate_graph, raised) at h))
      | inr (s, checked) ↦
          let quiet : s.errors ++ wave_errors s ws ≡ [] =
            cc (rw (validate_graph, checked, check_waves, waves_listed) at h) in
          let (clean, waves_clean) = append-nil s.errors (wave_errors s ws) quiet in
          let (r, read, structure, r_clean, same_ids, same_depends) =
            tasks-clean ready tasks ts s listed checked clean in
          let indexed =
            (read_tasks-Indexed 0 ready ts no_tasks r read r_clean).1 no_tasks-Indexed in
          (
            r,
            read,
            waves-Schedule r ws indexed structure
                (wave_errors-same r s ws same_ids same_depends ∙ waves_clean),
          )
    ]
