-- ===== src/Plan/Cycle.antt =====
-- scripts/implementation_plan.py, `_graph_has_cycle`: the depth-first search for a cycle among the
-- dependencies of tasks, and of repositories. A frame holds a node and what its iterator has yet to
-- yield. The `while` loop runs on fuel, two for each edge and one.
pub mod Paths
pub mod Fuel
pub mod Stack
pub mod Inv
pub mod Correct
mod Examples
use text.Mathlib.Text.{◌==◌}
use software_builder.Prelude.{
  ℕ, zero, suc, ◌+◌, ◌*◌, String, Bool, true, false, not, ◌&&◌, ◌||◌, Option, none, some, List, [],
  ◌∷◌, keep, length, if◌then◌else◌,
}
use software_builder.Prelude.Dict.{Dict, lookup}
use software_builder.Prelude.Text.{elem}

-- Each node with the nodes that it depends on.
abbrev pub Graph : Type 0
Graph = Dict (List String)

-- `graph.get(node, [])`
unfoldable pub dependencies : Graph → String → List String
dependencies graph node = elim (lookup node graph) [ none ↦ [] | some ds ↦ ds ]

pub record Frame : Type 0 where
  pub node : String
  pub rest : List String

pub record Search : Type 0 where
  pub stack : List Frame
  pub visiting : List String
  pub visited : List String
  pub found : Bool

-- `visiting.discard(node)`
abbrev pub discard : String → List String → List String
discard node xs = keep (λ x. not (x == node)) xs

-- One dependency of the node on top of the stack, or the end of its iterator.
unfoldable pub advance : Graph → Search → String → List String → List Frame → Search
advance graph s node [] below = record {
  stack = below;
  visiting = discard node s.visiting;
  visited = node ∷ s.visited;
  found = s.found;
}
advance graph s node (d ∷ ds) below =
    let stack : List Frame = record { node = node; rest = ds } ∷ below in
    if elem d s.visiting
    then record s { stack = stack; found = true }
    else if elem d s.visited
    then record s { stack = stack }
    else record s {
      stack = record { node = d; rest = dependencies graph d } ∷ stack;
      visiting = d ∷ s.visiting;
    }

unfoldable pub step_on : Graph → Search → List Frame → Search
step_on graph s [] = s
step_on graph s (frame ∷ below) = advance graph s frame.node frame.rest below

unfoldable pub step : Graph → Search → Search
step graph s = step_on graph s s.stack

-- `while stack:`
unfoldable pub walk : Graph → ℕ → Search → Search
walk graph zero s = s
walk graph (suc fuel) s = walk graph fuel (step graph s)

unfoldable pub edges : Graph → ℕ
edges [] = 0
edges ((node, ds) ∷ graph) = length ds + edges graph

unfoldable pub enough : Graph → ℕ
enough graph = suc (2 * edges graph)

unfoldable pub begin : Graph → String → Search → Search
begin graph start s = record s {
  stack = record { node = start; rest = dependencies graph start } ∷ [];
  visiting = start ∷ s.visiting;
}

-- `for start in nodes:`
unfoldable pub search_from : Graph → List String → Search → Search
search_from graph [] s = s
search_from graph (start ∷ starts) s =
    search_from graph starts
      (if elem start s.visited then s else walk graph (enough graph) (begin graph start s))

abbrev pub at_rest : Search
at_rest = record { stack = []; visiting = []; visited = []; found = false }

unfoldable pub graph_has_cycle : Graph → List String → Bool
graph_has_cycle graph nodes = (search_from graph nodes at_rest).found
