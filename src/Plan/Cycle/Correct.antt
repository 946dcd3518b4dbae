-- ===== src/Plan/Cycle/Correct.antt =====
-- scripts/implementation_plan.py, `_graph_has_cycle`: it finds a cycle exactly if there is one.
use mathlib.Core.List.Memᴰ
use mathlib.Core.List.{Memᴰ}
use software_builder.Prelude.{
  ℕ, zero, suc, String, ◌≡◌, ◌↔◌, refl, sym, inl, inr, true, false, List, [], ◌∷◌, map,
  if◌then◌else◌, Bool-cases, subst,
}
use software_builder.Prelude.Text.{elem}
use software_builder.Prelude.Members.{elem_iff}
use software_builder.Plan.Cycle.{
  Graph, Frame, Search, advance, step_on, step, walk, enough, begin, search_from, at_rest,
  graph_has_cycle,
}
use software_builder.Plan.Cycle.Paths.{Ordered, Ordered-plus, Ordered-acyclic}
use software_builder.Plan.Cycle.Fuel.{walk-enough}
use software_builder.Plan.Cycle.Inv.{Cyclic, Inv, pop-Inv, advance-Inv}

module _ (graph : Graph) (nodes : List String) where
  module _ (start : String) (before : List String) (listed : Memᴰ start nodes) where
    advance_any-Inv :
        (s : Search) (node : String) (rest : List String) (below : List Frame)
        → Inv graph start nodes before listed (record { node = node; rest = rest } ∷ below) s
        → let t = advance graph s node rest below in Inv graph start nodes before listed t.stack t
    advance_any-Inv s node [] below inv = pop-Inv graph start nodes before listed s node below inv
    advance_any-Inv s node (d ∷ ds) below inv =
        advance-Inv graph start nodes before listed s node d ds below inv

    step-Inv :
        (s : Search)
        → Inv graph start nodes before listed s.stack s
        → Inv graph start nodes before listed (step graph s).stack (step graph s)
    unfolding step step_on
    step-Inv s inv = go (s.stack) refl
      where
        go :
            (stack : List Frame)
            → s.stack ≡ stack
            → let t = step_on graph s s.stack in Inv graph start nodes before listed t.stack t
        go [] e =
            subst
              (λ l.
                Inv graph start nodes before listed (step_on graph s l).stack (step_on graph s l))
              (sym e) inv
        go (f ∷ below) e =
            subst
              (λ l.
                Inv graph start nodes before listed (step_on graph s l).stack (step_on graph s l))
              (sym e)
              (advance_any-Inv s f.node f.rest below
                (subst (λ l. Inv graph start nodes before listed l s) e inv))

    walk-Inv :
        (fuel : ℕ) (s : Search)
        → Inv graph start nodes before listed s.stack s
        → Inv graph start nodes before listed (walk graph fuel s).stack (walk graph fuel s)
    unfolding walk
    walk-Inv zero s inv = inv
    walk-Inv (suc fuel) s inv = walk-Inv fuel (step graph s) (step-Inv s inv)

  -- The search between two starts, with those of `before` visited.
  record Rested (before : List String) (s : Search) : Type 0 where
    stack : s.stack ≡ []
    visiting : s.visiting ≡ []
    sound : s.found ≡ true → Cyclic graph nodes
    order : s.found ≡ false → Ordered graph s.visited
    kept : (x : String) → Memᴰ x before → Memᴰ x s.visited

  begin-Inv :
      (start : String) (before : List String) (listed : Memᴰ start nodes) (s : Search)
      → Rested before s
      → let t = begin graph start s in Inv graph start nodes before listed t.stack t
  unfolding begin
  begin-Inv start before listed s rested = record {
    on_stack = λ x m. subst (λ l. Memᴰ x (start ∷ l)) rested.visiting m;
    path = (refl, λ d m. m);
    sound = rested.sound;
    done = λ _. ((λ d e. inl e), tt);
    order = rested.order;
    ended = λ e. absurd (cc e);
    kept = rested.kept;
  }

  nothing : (xs : List String) → ((x : String) → Memᴰ x xs → Memᴰ x []) → xs ≡ []
  nothing [] h = refl
  nothing (x ∷ xs) h = absurd (Memᴰ.not-nil (h x (Memᴰ.head refl)))

  Inv-Rested :
      (start : String) (before : List String) (listed : Memᴰ start nodes) (s : Search)
      → s.stack ≡ []
      → Inv graph start nodes before listed s.stack s
      → Rested (start ∷ before) s
  Inv-Rested start before listed s empty inv = record {
    stack = empty;
    visiting =
        nothing s.visiting (λ x m. subst (λ l. Memᴰ x (map Frame.node l)) empty (inv.on_stack x m));
    sound = inv.sound;
    order = inv.order;
    kept = λ x m. elim (Memᴰ.cases_cons m) [
      | inl same ↦ subst (λ y. Memᴰ y s.visited) (sym same) (inv.ended empty)
      | inr later ↦ inv.kept x later
    ];
  }

  start-Rested :
      (start : String) (before : List String) (listed : Memᴰ start nodes) (s : Search)
      → Rested before s
      → Rested
          (start ∷ before)
          (if elem start s.visited then s else walk graph (enough graph) (begin graph start s))
  start-Rested start before listed s rested = elim (Bool-cases (elem start s.visited)) [
    | inl old ↦ rw old (record {
      stack = rested.stack;
      visiting = rested.visiting;
      sound = rested.sound;
      order = rested.order;
      kept = λ x m. elim (Memᴰ.cases_cons m) [
        | inl same ↦ subst (λ y. Memᴰ y s.visited) (sym same) ((elem_iff start s.visited).0 old)
        | inr later ↦ rested.kept x later
      ];
    })
    | inr new ↦ rw new (
        Inv-Rested start before listed (walk graph (enough graph) (begin graph start s))
          (walk-enough graph start s rested.stack rested.visiting new)
          (walk-Inv start before listed (enough graph) (begin graph start s)
            (begin-Inv start before listed s rested)))
  ]

  search_from-Rested :
      (starts before : List String) (s : Search)
      → ((x : String) → Memᴰ x starts → Memᴰ x nodes)
      → Rested before s
      → Rested before (search_from graph starts s)
        × ((x : String) → Memᴰ x starts → Memᴰ x (search_from graph starts s).visited)
  unfolding search_from
  search_from-Rested [] before s listed rested = (rested, λ x m. absurd (Memᴰ.not-nil m))
  search_from-Rested (start ∷ starts) before s listed rested =
      let next = start-Rested start before (listed start (Memᴰ.head refl)) s rested in
      let (end, met) =
        search_from-Rested starts (start ∷ before) _ (λ x m. listed x (Memᴰ.tail m)) next in
      (
        (record {
          stack = end.stack;
          visiting = end.visiting;
          sound = end.sound;
          order = end.order;
          kept = λ x m. end.kept x (Memᴰ.tail m);
        }),
        (λ x m. elim (Memᴰ.cases_cons m) [
          | inl same ↦ end.kept x (Memᴰ.head same)
          | inr later ↦ met x later
        ]),
      )

  at_rest-Rested : Rested [] at_rest
  at_rest-Rested = record {
    stack = refl;
    visiting = refl;
    sound = λ e. absurd (cc e);
    order = λ _. tt;
    kept = λ x m. absurd (Memᴰ.not-nil m);
  }

  -- `_graph_has_cycle` finds a cycle exactly if one of the nodes leads, by no dependency or more, to a
  -- node that depends, directly or not, on itself.
  pub graph_has_cycle_iff : (graph_has_cycle graph nodes ≡ true) ↔ Cyclic graph nodes
  unfolding graph_has_cycle
  graph_has_cycle_iff =
      let (end, met) = search_from-Rested nodes [] at_rest (λ x m. m) at_rest-Rested in
      (
        end.sound,
        λ cycle.
            let (a, w, listed, reach, round_) = cycle in
            elim (Bool-cases (search_from graph nodes at_rest).found) [
              | inl hit ↦ hit
              | inr clear ↦
                  let ordered = end.order clear in
                  let visited = met a listed in
                  let here : Memᴰ w (search_from graph nodes at_rest).visited = elim reach [
                    | inl same ↦
                        subst (λ y. Memᴰ y (search_from graph nodes at_rest).visited) same visited
                    | inr path ↦ Ordered-plus graph _ ordered visited path
                  ] in
                  absurd (Ordered-acyclic graph _ ordered here round_)
            ],
      )
