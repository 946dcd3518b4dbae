-- ===== src/Plan/Cycle/Fuel.antt =====
-- scripts/implementation_plan.py, `_graph_has_cycle`: the `while` loop ends within its fuel.
use text.Mathlib.Text.{◌==◌}
use text.Mathlib.TextEquality.{eq_iff}
use software_builder.Prelude.{
  ℕ, zero, suc, ◌+◌, ◌*◌, ◌≤◌, ◌<◌, String, ◌≡◌, refl, sym, inl, inr, Bool, true, false, not, ◌||◌,
  List, [], ◌∷◌, arith, length, if◌then◌else◌, Bool-cases, subst,
}
use software_builder.Prelude.Dict.{lookup}
use software_builder.Prelude.Text.{elem}
use software_builder.Prelude.Members.{elem_iff, mem-keep}
use software_builder.Plan.Cycle.{
  Graph, dependencies, Frame, Search, discard, advance, step_on, step, walk, edges, enough, begin,
}

marked : Search → String → Bool
marked s k = elem k s.visiting || elem k s.visited

-- Twice the dependencies of the nodes that the search has not met.
white : Search → Graph → ℕ
white s [] = 0
white s ((k, ds) ∷ graph) = (if marked s k then 0 else 2 * length ds) + white s graph

-- The steps that the frames on the stack still take, if they meet no new node.
weight : List Frame → ℕ
weight [] = 0
weight (f ∷ stack) = suc (2 * length f.rest) + weight stack

white_mono :
    (s t : Search) (graph : Graph)
    → ((k : String) → marked s k ≡ true → marked t k ≡ true)
    → white t graph ≤ white s graph
unfolding white
white_mono s t [] more = omega arith
white_mono s t ((k, ds) ∷ graph) more =
    let rest = white_mono s t graph more in let here = more k in ground arith

white-edges : (s : Search) (graph : Graph) → white s graph ≤ 2 * edges graph
unfolding white edges
white-edges s [] = omega arith
white-edges s ((k, ds) ∷ graph) = let rest = white-edges s graph in ground arith

no_dependencies : (d : String) → dependencies [] d ≡ []
unfolding dependencies lookup
no_dependencies d = refl

dependencies-here :
    (k d : String) (ds : List String) (graph : Graph)
    → (k == d) ≡ true
    → dependencies ((k, ds) ∷ graph) d ≡ ds
unfolding dependencies lookup
dependencies-here k d ds graph e = ground arith

dependencies-later :
    (k d : String) (ds : List String) (graph : Graph)
    → (k == d) ≡ false
    → dependencies ((k, ds) ∷ graph) d ≡ dependencies graph d
unfolding dependencies lookup
dependencies-later k d ds graph e = ground arith

-- Meeting `d` takes its dependencies out of `white`.
white-dependencies :
    (s t : Search) (d : String) (graph : Graph)
    → ((k : String) → marked s k ≡ true → marked t k ≡ true)
    → marked s d ≡ false
    → marked t d ≡ true
    → 2 * length (dependencies graph d) + white t graph ≤ white s graph
unfolding white
white-dependencies s t d [] more new met = rw (no_dependencies d) (omega arith)
white-dependencies s t d ((k, ds) ∷ graph) more new met =
    let rest = white-dependencies s t d graph more new met in
    let less = white_mono s t graph more in
    let here = more k in
    elim (Bool-cases (k == d)) [
      | inl e ↦
          let same = (eq_iff k d).0 e in
          let new_here : marked s k ≡ false = rw same new in
          let met_here : marked t k ≡ true = rw same met in
          rw (dependencies-here k d ds graph e, new_here, met_here) (omega arith)
      | inr e ↦ rw (dependencies-later k d ds graph e) (ground arith)
    ]

weight-nil : (stack : List Frame) → weight stack ≤ 0 → stack ≡ []
unfolding weight
weight-nil [] h = refl
weight-nil (f ∷ stack) h = absurd (omega arith)

measure : Graph → Search → ℕ
measure graph s = weight s.stack + white s graph

still_open :
    (node k : String) (visiting : List String)
    → (node == k) ≡ false
    → elem k visiting ≡ true
    → elem k (discard node visiting) ≡ true
still_open node k visiting other m = (elem_iff k (discard node visiting)).1 (
    (mem-keep (λ (x : String). not (x == node)) k visiting).1 (
      (elem_iff k visiting).0 m,
      elim (Bool-cases (k == node)) [
        | inl e ↦ absurd (cc (other, (eq_iff node k).1 (sym ((eq_iff k node).0 e))))
        | inr e ↦ rw e refl
      ],
    ))

pop-marked :
    (graph : Graph) (s : Search) (node : String) (below : List Frame) (k : String)
    → marked s k ≡ true
    → marked (advance graph s node [] below) k ≡ true
unfolding marked advance
pop-marked graph s node below k m = let opened = still_open node k s.visiting in ground arith

advance-measure :
    (graph : Graph) (s : Search) (node : String) (rest : List String) (below : List Frame)
    → measure graph (advance graph s node rest below)
      < weight (record { node = node; rest = rest } ∷ below) + white s graph
unfolding measure weight marked advance
advance-measure graph s node [] below =
    let less = white_mono s (advance graph s node [] below) graph (pop-marked graph s node below) in
    omega arith
advance-measure graph s node (d ∷ ds) below = elim (Bool-cases (elem d s.visiting)) [
  | inl open_ ↦
      let t : Search = record s {
        stack = record { node = node; rest = ds } ∷ below;
        found = true;
      } in
      let less = white_mono s t graph (λ k m. m) in rw open_ (omega arith)
  | inr closed ↦ elim (Bool-cases (elem d s.visited)) [
    | inl old ↦
        let t : Search = record s { stack = record { node = node; rest = ds } ∷ below } in
        let less = white_mono s t graph (λ k m. m) in rw (closed, old) (omega arith)
    | inr new ↦
        let t : Search = record s {
          stack =
              record { node = d; rest = dependencies graph d }
              ∷ record { node = node; rest = ds }
              ∷ below;
          visiting = d ∷ s.visiting;
        } in
        let less =
          white-dependencies s t d graph (λ k m. ground arith) (rw (closed, new) refl)
            (rw ((eq_iff d d).1 refl) refl) in
        rw (closed, new) (omega arith)
  ]
]

walk_idle : (graph : Graph) (fuel : ℕ) (s : Search) → s.stack ≡ [] → (walk graph fuel s).stack ≡ []
unfolding walk step step_on
walk_idle graph zero s e = e
walk_idle graph (suc fuel) s e =
    subst (λ l. (walk graph fuel (step_on graph s l)).stack ≡ []) (sym e) (walk_idle graph fuel s e)

walk_ends :
    (graph : Graph) (fuel : ℕ) (s : Search)
    → measure graph s ≤ fuel
    → (walk graph fuel s).stack ≡ []
unfolding walk step step_on measure white marked
walk_ends graph zero s h = weight-nil s.stack (omega arith)
walk_ends graph (suc fuel) s h = go (λ t. walk_ends graph fuel t) (s.stack) refl
  where
    stay :
        (stack : List Frame)
        → s.stack ≡ stack
        → (walk graph fuel (step_on graph s stack)).stack ≡ []
        → (walk graph fuel (step_on graph s s.stack)).stack ≡ []
    stay stack e h = subst (λ l. (walk graph fuel (step_on graph s l)).stack ≡ []) (sym e) h

    go :
        ((t : Search) → weight t.stack + white t graph ≤ fuel → (walk graph fuel t).stack ≡ [])
        → (stack : List Frame) → s.stack ≡ stack
        → (walk graph fuel (step_on graph s s.stack)).stack ≡ []
    go ends [] e = stay [] e (walk_idle graph fuel s e)
    go ends (f ∷ below) e =
        let less = advance-measure graph s f.node f.rest below in
        let before : weight (f ∷ below) + white s graph ≤ suc fuel = rw e at h in
        stay (f ∷ below) e (ends (advance graph s f.node f.rest below) (omega arith))

-- The fuel is enough for the search from a start that is not visited, with nothing on the stack and
-- nothing being visited before it: the `while` loop ends with an empty stack.
pub walk-enough :
    (graph : Graph) (start : String) (s : Search)
    → s.stack ≡ []
    → s.visiting ≡ []
    → elem start s.visited ≡ false
    → (walk graph (enough graph) (begin graph start s)).stack ≡ []
unfolding marked begin measure weight enough
walk-enough graph start s stack visiting new =
    walk_ends graph (enough graph) (begin graph start s) (
      let met =
        white-dependencies s (begin graph start s) start graph (λ k m. ground arith)
          (rw (visiting, new) refl) (rw ((eq_iff start start).1 refl) refl) in
      let all = white-edges s graph in omega arith)
