-- ===== src/Plan/Cycle/Examples.antt =====
-- The search at a graph of three tasks with a cycle of two.
use mathlib.Core.List.{[], ◌∷◌}
use software_builder.Prelude.{◌≡◌, ◌↔◌, refl, true, false}
use software_builder.Prelude.Dict.{lookup}
use software_builder.Plan.Cycle.{
  Graph, dependencies, advance, step_on, step, walk, edges, enough, begin, search_from,
  graph_has_cycle, at_rest,
}
use software_builder.Plan.Cycle.Fuel.{walk-enough}
use software_builder.Plan.Cycle.Inv.{Cyclic}
use software_builder.Plan.Cycle.Correct.{graph_has_cycle_iff}

abbrev tasks : Graph
tasks = ("a", "b" ∷ []) ∷ ("b", "c" ∷ "x" ∷ []) ∷ ("c", "b" ∷ []) ∷ []

graph_has_cycle_iff_example :
    (graph_has_cycle tasks ("a" ∷ "b" ∷ "c" ∷ []) ≡ true) ↔ Cyclic tasks ("a" ∷ "b" ∷ "c" ∷ [])
graph_has_cycle_iff_example = graph_has_cycle_iff tasks ("a" ∷ "b" ∷ "c" ∷ [])

walk-enough_example : (walk tasks (enough tasks) (begin tasks "a" at_rest)).stack ≡ []
walk-enough_example = walk-enough tasks "a" at_rest refl refl refl

tasks-cycle : graph_has_cycle tasks ("a" ∷ []) ≡ true
unfolding graph_has_cycle search_from walk step step_on advance begin enough edges dependencies
    lookup
tasks-cycle = refl

unknown-acyclic : graph_has_cycle tasks ("x" ∷ []) ≡ false
unfolding graph_has_cycle search_from walk step step_on advance begin enough edges dependencies
    lookup
unknown-acyclic = refl
